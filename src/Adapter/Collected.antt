-- ===== src/Adapter/Collected.antt =====
-- src/BNAdapter.cpp, `CollectCandidates`: why a candidate may be applied, and what is counted.
use co_bra_for_binary_ninja.Prelude.{
  ℕ, ◌*◌, ◌≡◌, refl, arith, Bool, true, false, ◌&&◌, Bool-cases, inl, inr, some, Bytes,
}
use co_bra_for_binary_ninja.Cobra.{Expr, Assignment, value}
use co_bra_for_binary_ninja.Engine.Types.{
  SimplifyStatus, SimplifyResult, ComparisonKind, PredicateStatus, PredicateResult,
}
use co_bra_for_binary_ninja.Engine.Z3.{TermLaws, SolverLaws}
use co_bra_for_binary_ninja.Engine.Meaning.{holds}
use co_bra_for_binary_ninja.Engine.Prove.{prove_constant_comparison}
use co_bra_for_binary_ninja.Engine.ProveResult.{proved_constant_sound}
use co_bra_for_binary_ninja.Engine.Simplify.{simplify_expression}
use co_bra_for_binary_ninja.Engine.SimplifySound.{LibraryLaws, by_name, simplified_sound}
use co_bra_for_binary_ninja.Adapter.Mlil.{Mlil, operation, size}
use co_bra_for_binary_ninja.Adapter.Types.{PendingCandidate, AnalysisLimits}
use co_bra_for_binary_ninja.Adapter.Roots.{comparison_for_operation}
use co_bra_for_binary_ninja.Adapter.Recovery.State.{Ssa}
use co_bra_for_binary_ninja.Adapter.Recovery.Visit.{
  RecoveredExpression, recover, recover_comparison,
}
use co_bra_for_binary_ninja.Adapter.Candidates.{
  NormalFunction, Services, root_options, is_proved, is_simplified, predicate_candidate,
  simplified_candidate,
}

-- The documented behaviour of the libraries that the engine is built on.
pub record ServiceLaws (V : Services) : Type 0 where
  pub terms : TermLaws V.terms
  pub solvers : SolverLaws V.terms V.solvers
  pub library : LibraryLaws V.library

module _ (V : Services) (limits : AnalysisLimits) (f : NormalFunction) (ssa : Ssa) where
  abbrev pub ssa_root : ℕ → Mlil
  ssa_root index = ssa.get_expr (f.ssa_expr_index index)

  -- What a candidate may replace its root by: the constant that the recovered comparison always
  -- has, or an expression that always has the value of the recovered one,
  -- with the table of variables of the recovery.
  pub data IsJustified (c : PendingCandidate) : Type 0 where
    constant :
        (kind : ComparisonKind) (left right : Expr)
        → comparison_for_operation (operation (f.old.get_expr c.root_expression)) ≡ some kind
        → (recover_comparison ssa V.factory limits
            (c.size * 8)
            (ssa.get_expr (f.ssa_expr_index c.root_expression))).predicate_left
          ≡ some left
        → (recover_comparison ssa V.factory limits
            (c.size * 8)
            (ssa.get_expr (f.ssa_expr_index c.root_expression))).predicate_right
          ≡ some right
        → c.is_predicate ≡ true
        → ((rho : Assignment)
            → holds (c.size * 8) kind (value (c.size * 8) rho left) (value (c.size * 8) rho right)
              ≡ c.predicate_value)
        → IsJustified c
    rewrite :
        (original replacement : Expr)
        → (recover ssa V.factory limits
            (c.size * 8)
            (ssa.get_expr (f.ssa_expr_index c.root_expression))).expression
          ≡ some original
        → c.is_predicate ≡ false
        → c.simplified ≡ some replacement
        → c.variable_by_name
          ≡ (recover ssa V.factory limits
              (c.size * 8)
              (ssa.get_expr (f.ssa_expr_index c.root_expression))).result.variable_by_name
        → ((sigma : Bytes → ℕ)
            → value
                (c.size * 8)
                (by_name sigma
                  (recover ssa V.factory limits
                    (c.size * 8)
                    (ssa.get_expr (f.ssa_expr_index c.root_expression))).result.variables)
                original
              ≡ value (c.size * 8) (by_name sigma c.simplified_variables) replacement)
        → IsJustified c

  -- An accepted candidate is justified.
  abbrev pub IsAuthorized : PendingCandidate → Type 0
  IsAuthorized c = c.report.accepted ≡ true → IsJustified c

  module _ (L : ServiceLaws V) (index : ℕ) where
    abbrev pub root : Mlil
    root = f.old.get_expr index

    both_true : (a b : Bool) → (a && b) ≡ true → (a ≡ true) × (b ≡ true)
    both_true a b h = ground arith

    proved_status : (s : PredicateStatus) → is_proved s ≡ true → s ≡ PredicateStatus.proved_constant
    proved_status PredicateStatus.proved_constant h = refl
    proved_status _ h = cc

    simplified_status :
        (s : SimplifyStatus) → is_simplified s ≡ true → s ≡ SimplifyStatus.simplified
    simplified_status SimplifyStatus.simplified h = refl
    simplified_status _ h = cc

    pub predicate-IsAuthorized :
        (kind : ComparisonKind) (left right : Expr) (before : Bytes) (result : PredicateResult)
        → comparison_for_operation (operation root) ≡ some kind
        → (recover_comparison ssa V.factory limits (size root * 8) (ssa_root index)).predicate_left
          ≡ some left
        → (recover_comparison ssa V.factory limits (size root * 8) (ssa_root index)).predicate_right
          ≡ some right
        → prove_constant_comparison V.terms V.solvers V.has_z3 left right
            (recover_comparison ssa V.factory limits
              (size root * 8)
              (ssa_root index)).result.variables
            (size root * 8)
            kind
            (root_options limits root)
          ≡ some result
        → IsAuthorized (
            predicate_candidate V index root kind
              (recover_comparison ssa V.factory limits (size root * 8) (ssa_root index))
              before
              result)
    unfolding predicate_candidate
    predicate-IsAuthorized kind left right before result same l r proved accepted =
        let (status, verified) = both_true (is_proved result.status) result.z3_verified accepted in
        let (always, verified_too, built) =
          proved_constant_sound V.terms V.solvers left right
            (recover_comparison ssa V.factory limits (size root * 8)
              (ssa_root index)).result.variables
            (size root * 8) kind (root_options limits root) L.terms L.solvers V.has_z3 result proved
            (proved_status result.status status) in
        constant kind left right same l r refl always

    abbrev pub recovered : RecoveredExpression
    recovered = recover ssa V.factory limits (size root * 8) (ssa_root index)

    -- What a result says of the expression that it is made from.
    abbrev SaysEqual : Expr → SimplifyResult → Type 0
    SaysEqual original r =
        (expr : Expr) × (r.expression ≡ some expr)
        × ((sigma : Bytes → ℕ)
            → value (size root * 8) (by_name sigma recovered.result.variables) original
              ≡ value (size root * 8) (by_name sigma r.variables) expr)

    result-IsAuthorized :
        (original : Expr) (r : SimplifyResult)
        → recovered.expression ≡ some original
        → (r.status ≡ SimplifyStatus.simplified → SaysEqual original r)
        → IsAuthorized (simplified_candidate V index root recovered r)
    unfolding simplified_candidate
    result-IsAuthorized original r e says =
        elim (Bool-cases (is_simplified r.status && r.z3_verified)) [
          | inl good ↦
              let (status, verified) = both_true (is_simplified r.status) r.z3_verified good in
              let (expr, carried, equal) = says (simplified_status r.status status) in
              rw good (λ accepted. rewrite original expr e refl carried refl equal)
          | inr bad ↦ rw bad (λ accepted. cc)
        ]

    pub rewrite-IsAuthorized :
        (original : Expr)
        → recovered.expression ≡ some original
        → IsAuthorized (
            simplified_candidate V index root recovered (
              simplify_expression V.library V.has_z3 original recovered.result.variables
                (root_options limits root)))
    rewrite-IsAuthorized original e =
        result-IsAuthorized original
          (simplify_expression V.library V.has_z3 original recovered.result.variables
            (root_options limits root))
          e
          (simplified_sound V.library original recovered.result.variables (root_options limits root)
            L.library V.has_z3)
