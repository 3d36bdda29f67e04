-- ===== src/Engine/Prove.antt =====
-- src/Engine.cpp: `FormatModel`, `QueryPredicate` and `ProveConstantComparison`. `has_z3` is the
-- macro SMBA_HAS_Z3.
use co_bra_for_binary_ninja.Prelude.{
  ℕ, ◌+◌, Bool, true, false, not, ◌||◌, if◌then◌else◌, ltb, leb, ◌==◌, List, [], ◌∷◌, ◌++◌, Option,
  none, some, length, Bytes, codes,
}
use co_bra_for_binary_ninja.Decimal.{to_string}
use co_bra_for_binary_ninja.Cobra.{Expr}
use co_bra_for_binary_ninja.Engine.Types.{
  SimplifyOptions, ComparisonKind, is_supported_comparison, PredicateStatus, PredicateResult,
  predicate_result,
}
use co_bra_for_binary_ninja.Engine.Z3.{Terms, Solvers, Lbool, l_false, l_undef, l_true}
use co_bra_for_binary_ninja.Engine.Validate.{valid, invalid, and_then, validate_comparison_expr}
use co_bra_for_binary_ninja.Engine.Build.{z3_variables, build_predicate_expr, build_comparison}

-- Undefined behaviour, such as a null term handed to Z3, is `none`.
infixl 5 ◌>>=◌
abbrev pub ◌>>=◌ {ℓ κ} : {A : Type ℓ} {B : Type κ} → Option A → (A → Option B) → Option B
none >>= f = none
some a >>= f = f a

abbrev pub or_question_mark : Option Bytes → Bytes
or_question_mark none = codes "?"
or_question_mark (some text) = text

module _ (T : Terms) (S : Solvers T) where
  unfoldable pub value_text : S.Model → T.Ast → Bytes
  value_text model variable = elim (S.model_eval model variable) [
    | none ↦ codes "?"
    | some v ↦ or_question_mark (S.get_numeral_string v)
  ]

  -- The loop of `FormatModel`.
  -- The two lists have one length in every call. Past the end of the names, where `names[index]`
  -- is undefined, the text ends.
  unfoldable pub format_values : S.Model → ℕ → List T.Ast → List Bytes → Bytes
  format_values model index [] names = []
  format_values model index (v ∷ vs) [] = []
  format_values model index (v ∷ vs) (name ∷ names) =
      (if index == 0 then [] else codes ", ")
      ++ (name
          ++ (codes "["
              ++ (to_string index
                  ++ (codes "]="
                      ++ (value_text model v ++ format_values model (index + 1) vs names)))))

  unfoldable pub format_model : Option S.Model → List T.Ast → List Bytes → Option Bytes
  format_model none variables names = none
  format_model (some model) variables names =
      some (codes "{" ++ (format_values model 0 variables names ++ codes "}"))

  pub record SolverQuery : Type 0 where
    pub status : Lbool
    pub model : Option Bytes

  abbrev pub model_if_true : Lbool → S.Solver → List T.Ast → List Bytes → Option Bytes
  model_if_true l_true solver variables names = format_model (S.get_model solver) variables names
  model_if_true l_false solver variables names = none
  model_if_true l_undef solver variables names = none

  -- The result, and the solver afterwards.
  unfoldable pub query_predicate :
      S.Solver → T.Ast → List T.Ast → List Bytes → SolverQuery × S.Solver
  query_predicate solver assertion variables names =
      let asserted = S.assert (S.push solver) assertion in
      let (status, checked) = S.check asserted in
      (
        record { status = status; model = model_if_true status checked variables names },
        S.pop checked,
      )

  abbrev pub unknown : PredicateResult
  unknown = record predicate_result {
    status = PredicateStatus.rejected;
    reason = codes "Z3 predicate proof returned unknown (possible timeout)";
    timed_out = true;
  }

  abbrev pub proved : Bool → Bytes → PredicateResult
  proved constant_value reason = record predicate_result {
    status = PredicateStatus.proved_constant;
    constant_value = constant_value;
    reason = reason;
    z3_verified = true;
  }

  unfoldable pub counterexample_text : Option Bytes → Option Bytes → Option Bytes
  counterexample_text (some m) (some n) = some (codes "true: " ++ (m ++ (codes "; false: " ++ n)))
  counterexample_text (some m) none = some (codes "true: " ++ m)
  counterexample_text none (some n) = some (codes "false: " ++ n)
  counterexample_text none none = none

  unfoldable pub after_false_query : SolverQuery → SolverQuery → PredicateResult
  after_false_query true_query false_query = elim (false_query.status) [
    | l_undef ↦ unknown
    | l_false ↦ proved true (codes "Z3 proved predicate is universally true")
    | l_true ↦ record predicate_result {
      status = PredicateStatus.not_constant;
      reason = codes "predicate is satisfiable for both true and false outcomes";
      counterexample = counterexample_text true_query.model false_query.model;
    }
  ]

  -- Both queries, on the solver that the first one leaves.
  unfoldable pub decide_predicate : S.Solver → T.Ast → List T.Ast → List Bytes → PredicateResult
  decide_predicate solver predicate variables names =
      let (true_query, solver') = query_predicate solver predicate variables names in
      elim (true_query.status) [
        | l_undef ↦ unknown
        | l_false ↦ proved false (codes "Z3 proved predicate is universally false")
        | l_true ↦
            after_false_query true_query
              (query_predicate solver' (T.mk_not predicate) variables names).0
      ]

  abbrev pub failed : PredicateStatus → Bytes → PredicateResult
  failed status reason = record predicate_result { status = status; reason = reason }

  -- What follows validation.
  unfoldable pub prove_with_z3 :
      Expr → Expr → List Bytes → ℕ → ComparisonKind → SimplifyOptions → Option PredicateResult
  prove_with_z3 left right variables bit_width comparison options =
      let symbols = z3_variables T bit_width 0 (length variables) in
      do
        left_ast ← build_predicate_expr T symbols bit_width left
        right_ast ← build_predicate_expr T symbols bit_width right
        predicate ← build_comparison T left_ast right_ast comparison
        some (
            decide_predicate (S.mk_solver (to_string options.z3_timeout_ms)) predicate symbols
              variables)

  unfoldable pub prove_constant_comparison :
      Bool
      → Expr
      → Expr
      → List Bytes
      → ℕ
      → ComparisonKind
      → SimplifyOptions
      → Option PredicateResult
  prove_constant_comparison has_z3 left right variables bit_width comparison options =
      if bit_width == 0 || ltb 64 bit_width
      then some (failed PredicateStatus.error (codes "unsupported bit width"))
      else if ltb options.max_variables (length variables) || leb 63 (length variables)
      then some (failed PredicateStatus.rejected (codes "variable limit exceeded"))
      else if not (is_supported_comparison comparison)
      then some (failed PredicateStatus.error (codes "unsupported comparison kind"))
      else elim (and_then (validate_comparison_expr (length variables) left)
          (validate_comparison_expr (length variables) right)) [
            | invalid reason ↦ some (failed PredicateStatus.rejected reason)
            | valid ↦
                if has_z3
                then prove_with_z3 left right variables bit_width comparison options
                else some (
                    failed PredicateStatus.rejected
                      (codes "Z3 verifier unavailable; constant-comparison proofs require Z3"))
          ]
