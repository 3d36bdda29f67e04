-- ===== src/Adapter/Candidates.antt =====
-- src/BNAdapter.cpp: `IsNormalMLIL`, and of `CollectCandidates` what it sees of a function, the lists
-- that it sorts, and what becomes of one root that is tried.
use co_bra_for_binary_ninja.Prelude.{
  ℕ, ◌+◌, ◌-◌, ◌*◌, ◌%◌, ◌^◌, Bool, true, false, not, ◌||◌, ◌&&◌, if◌then◌else◌, ltb, leb, ◌==◌,
  List, [], ◌∷◌, ◌++◌, Option, none, some, Bytes, codes,
}
use co_bra_for_binary_ninja.Cobra.{Expr}
use co_bra_for_binary_ninja.Engine.Types.{
  SimplifyOptions, default_options, SimplifyStatus, SimplifyResult, ComparisonKind, PredicateStatus,
  PredicateResult,
}
use co_bra_for_binary_ninja.Engine.Z3.{Terms, Solvers}
use co_bra_for_binary_ninja.Engine.Prove.{prove_constant_comparison}
use co_bra_for_binary_ninja.Engine.Simplify.{Library, simplify_expression}
use co_bra_for_binary_ninja.Adapter.Mlil.{Mlil, size, address}
use co_bra_for_binary_ninja.Adapter.Types.{FunctionReport, PendingCandidate, AnalysisLimits}
use co_bra_for_binary_ninja.Adapter.Outcome.{Outcome, returned, undefined}
use co_bra_for_binary_ninja.Adapter.Roots.{comparison_text, comes_before}
use co_bra_for_binary_ninja.Adapter.Transform.{OldFunction}
use co_bra_for_binary_ninja.Adapter.Recovery.State.{Ssa, Factory}
use co_bra_for_binary_ninja.Adapter.Recovery.Visit.{
  RecoveredExpression, recover, recover_comparison,
}

-- A function as the code sees it: its object and that of its non-SSA form, its SSA form, and the
-- SSA form that it has after `GenerateSSAForm`.
pub record NormalFunction : Type 0 where
  pub old : OldFunction
  pub object : ℕ
  pub non_ssa_object : Option ℕ
  pub ssa_form : Option Ssa
  pub generated_ssa_form : Option Ssa
  pub expr_count : ℕ
  pub ssa_expr_index : ℕ → ℕ

-- The engine with the libraries that it is built on.
pub record Services : Type 1 where
  pub has_z3 : Bool
  pub terms : Terms
  pub solvers : Solvers terms
  pub library : Library
  pub factory : Factory

unfoldable pub is_normal_mlil : Option NormalFunction → Bool
is_normal_mlil none = false
is_normal_mlil (some f) = elim (f.non_ssa_object) [ none ↦ false | some o ↦ o == f.object ]

-- `std::sort` of the indices of a set.
unfoldable pub insert_sorted : ℕ → List ℕ → List ℕ
insert_sorted i [] = i ∷ []
insert_sorted i (j ∷ js) = let rest = insert_sorted i js in if leb i j then i ∷ j ∷ js else j ∷ rest

unfoldable pub sort_indices : List ℕ → List ℕ
sort_indices [] = []
sort_indices (i ∷ is) = insert_sorted i (sort_indices is)

-- `std::sort` of the candidates, which have different roots.
unfoldable pub insert_candidate : PendingCandidate → List PendingCandidate → List PendingCandidate
insert_candidate c [] = c ∷ []
insert_candidate c (d ∷ ds) =
    let rest = insert_candidate c ds in if comes_before d c then d ∷ rest else c ∷ d ∷ ds

unfoldable pub sort_candidates : List PendingCandidate → List PendingCandidate
sort_candidates [] = []
sort_candidates (c ∷ cs) = insert_candidate c (sort_candidates cs)

-- The state of the loop; `stopped` is set by its `break`.
pub record Collected : Type 0 where
  pub pending : List PendingCandidate
  pub output : FunctionReport
  pub inspected : ℕ
  pub stopped : Bool

abbrev pub count_root : Collected → Collected
count_root st = record st { inspected = st.inspected + 1 }

abbrev pub stop_at_budget : Collected → Collected
stop_at_budget st = record (count_root st) {
  output = record st.output { diagnostic = codes "candidate-root budget reached" };
  stopped = true;
}

unfoldable pub push_candidate : PendingCandidate → Collected → Collected
push_candidate c st = record st {
  pending = st.pending ++ (c ∷ []);
  output =
      if c.report.accepted
      then record st.output { accepted = st.output.accepted + 1 }
      else st.output;
}

abbrev pub min_u32 : ℕ → ℕ
min_u32 n = if ltb (2 ^ 32 - 1) n then 2 ^ 32 - 1 else n

abbrev pub root_options : AnalysisLimits → Mlil → SimplifyOptions
root_options limits root = record default_options {
  bit_width = size root * 8;
  max_variables = limits.max_variables % 2 ^ 32;
  require_z3 = true;
}

abbrev pub is_proved : PredicateStatus → Bool
is_proved PredicateStatus.proved_constant = true
is_proved _ = false

abbrev pub is_simplified : SimplifyStatus → Bool
is_simplified SimplifyStatus.simplified = true
is_simplified _ = false

-- `candidate`, up to the branch on the comparison.
abbrev pub new_candidate : ℕ → Mlil → PendingCandidate
new_candidate index root = record {
  report = record {
    expression_index = index;
    address = address root;
    before = [];
    after = [];
    reason = [];
    accepted = false;
    applied = false;
  };
  root_expression = index;
  size = size root;
  original_cost = 0;
  is_predicate = false;
  predicate_value = false;
  simplified = none;
  simplified_variables = [];
  variable_by_name = [];
}

abbrev pub empty_report : FunctionReport
empty_report = record { candidates = []; diagnostic = []; accepted = 0; applied = 0 }

module _ (V : Services) where
  unfoldable pub predicate_text : Expr → Expr → List Bytes → ℕ → ComparisonKind → Bytes
  predicate_text left right variables bit_width comparison =
      V.library.render left variables bit_width
      ++ (codes " "
          ++ (comparison_text comparison
              ++ (codes " " ++ V.library.render right variables bit_width)))

  unfoldable pub predicate_candidate :
      ℕ → Mlil → ComparisonKind → RecoveredExpression → Bytes → PredicateResult → PendingCandidate
  predicate_candidate index root comparison recovered before result =
      record (new_candidate index root) {
        report = record (new_candidate index root).report {
          before = before;
          after =
              if is_proved result.status
              then if result.constant_value then codes "1" else codes "0"
              else before;
          reason = result.reason;
          accepted = is_proved result.status && result.z3_verified;
        };
        original_cost = min_u32 recovered.result.stats.nodes;
        is_predicate = true;
        predicate_value = result.constant_value;
      }

  -- `undefined` stands for what `prove_constant_comparison` leaves undefined.
  unfoldable pub prove_predicate :
      AnalysisLimits
      → ℕ
      → Mlil
      → ComparisonKind
      → RecoveredExpression
      → Option Expr
      → Option Expr
      → Collected
      → Outcome Collected
  prove_predicate limits index root comparison recovered none right st = returned st
  prove_predicate limits index root comparison recovered (some left) none st = returned st
  prove_predicate limits index root comparison recovered (some left) (some right) st =
      elim (prove_constant_comparison V.terms V.solvers V.has_z3 left right
        recovered.result.variables (size root * 8) comparison (root_options limits root)) [
          | none ↦ undefined
          | some result ↦ returned (
              push_candidate
                (predicate_candidate index root comparison recovered
                  (predicate_text left right recovered.result.variables (size root * 8) comparison)
                  result)
                st)
        ]

  unfoldable pub simplified_candidate :
      ℕ → Mlil → RecoveredExpression → SimplifyResult → PendingCandidate
  simplified_candidate index root recovered result =
      let accepted = is_simplified result.status && result.z3_verified in
      let found : PendingCandidate = record (new_candidate index root) {
        report = record (new_candidate index root).report {
          before = result.original_text;
          after = result.simplified_text;
          reason = result.reason;
          accepted = accepted;
        };
        original_cost = result.original_cost;
      } in
      if accepted
      then record found {
        simplified = result.expression;
        simplified_variables = result.variables;
        variable_by_name = recovered.result.variable_by_name;
      }
      else found

  unfoldable pub simplify_root :
      AnalysisLimits → ℕ → Mlil → RecoveredExpression → Option Expr → Collected → Collected
  simplify_root limits index root recovered none st = st
  simplify_root limits index root recovered (some e) st =
      if ltb recovered.result.stats.nodes limits.min_nodes
        || (not recovered.result.stats.has_arithmetic || not recovered.result.stats.has_bitwise)
      then st
      else push_candidate
          (simplified_candidate index root recovered (
            simplify_expression V.library V.has_z3 e recovered.result.variables
              (root_options limits root)))
          st

  unfoldable pub try_root :
      AnalysisLimits → Ssa → ℕ → Mlil → Mlil → Option ComparisonKind → Collected → Outcome Collected
  try_root limits ssa index root ssa_root (some comparison) st =
      let recovered = recover_comparison ssa V.factory limits (size root * 8) ssa_root in
      prove_predicate limits index root comparison recovered recovered.predicate_left
        recovered.predicate_right st
  try_root limits ssa index root ssa_root none st =
      let recovered = recover ssa V.factory limits (size root * 8) ssa_root in
      returned (simplify_root limits index root recovered recovered.expression st)
