-- ===== src/Adapter/Replaced.antt =====
-- src/BNAdapter.cpp, from `CollectCandidates` to `BuildMLIL`: what is written in the place of a
-- candidate has the value of what was recovered there.
use native.Mathlib.Nat.{mod-eq_of_lt}
use co_bra_for_binary_ninja.Prelude.{
  ℕ, ◌*◌, ◌%◌, ◌^◌, ◌<◌, ◌≡◌, refl, sym, ap, ◌∙◌, arith, Bool, true, false, if◌then◌else◌, Option,
  none, some,
}
use co_bra_for_binary_ninja.Cobra.{Expr, Assignment, value}
use co_bra_for_binary_ninja.Engine.Types.{ComparisonKind}
use co_bra_for_binary_ninja.Engine.Meaning.{holds, lt-two_pow}
use co_bra_for_binary_ninja.Engine.SimplifySound.{by_name}
use co_bra_for_binary_ninja.Adapter.Mlil.{operation}
use co_bra_for_binary_ninja.Adapter.Types.{PendingCandidate, Variable, AnalysisLimits}
use co_bra_for_binary_ninja.Adapter.Outcome.{returned}
use co_bra_for_binary_ninja.Adapter.Roots.{comparison_for_operation}
use co_bra_for_binary_ninja.Adapter.BuildMlil.{Builder, Location}
use co_bra_for_binary_ninja.Adapter.BuildMeaning.{Semantics, IsShifting, named, build_mlil_means}
use co_bra_for_binary_ninja.Adapter.Copy.{replacement}
use co_bra_for_binary_ninja.Adapter.Preserves.{returned-injective}
use co_bra_for_binary_ninja.Adapter.Recovery.State.{Ssa}
use co_bra_for_binary_ninja.Adapter.Recovery.Visit.{recover, recover_comparison}
use co_bra_for_binary_ninja.Adapter.Candidates.{NormalFunction, Services}
use co_bra_for_binary_ninja.Adapter.Collected.{IsJustified, constant, rewrite}

-- The shifts of a tree, if there is one, are by less than the width.
abbrev pub IsShiftingOption : ℕ → Option Expr → Type 0
IsShiftingOption w none = Unit
IsShiftingOption w (some e) = IsShifting w e

abbrev truth : Bool → ℕ
truth b = if b then 1 else 0

module _ (V : Services) (limits : AnalysisLimits) (f : NormalFunction) (ssa : Ssa) (N : Builder)
    (M : Semantics N) (c : PendingCandidate) where
  -- What an expression has to be in the place of a candidate: the truth value of the recovered
  -- comparison under all values of its variables, or an expression with the value of the recovered
  -- one under all values of the function's variables.
  pub data IsFaithful (id : N.ExprId) : Type 0 where
    comparison :
        (kind : ComparisonKind) (left right : Expr)
        → comparison_for_operation (operation (f.old.get_expr c.root_expression)) ≡ some kind
        → (recover_comparison ssa V.factory limits
            (c.size * 8)
            (ssa.get_expr (f.ssa_expr_index c.root_expression))).predicate_left
          ≡ some left
        → (recover_comparison ssa V.factory limits
            (c.size * 8)
            (ssa.get_expr (f.ssa_expr_index c.root_expression))).predicate_right
          ≡ some right
        → ((env : Variable → ℕ) (rho : Assignment)
            → M.eval id env
              ≡ truth (
                  holds
                    (c.size * 8)
                    kind
                    (value (c.size * 8) rho left)
                    (value (c.size * 8) rho right)))
        → IsFaithful id
    expression :
        (original : Expr)
        → (recover ssa V.factory limits
            (c.size * 8)
            (ssa.get_expr (f.ssa_expr_index c.root_expression))).expression
          ≡ some original
        → ((env : Variable → ℕ)
            → M.eval id env
              ≡ value
                  (c.size * 8)
                  (by_name
                    (named
                      (recover ssa V.factory limits
                        (c.size * 8)
                        (ssa.get_expr (f.ssa_expr_index c.root_expression))).result.variable_by_name
                      env)
                    (recover ssa V.factory limits
                      (c.size * 8)
                      (ssa.get_expr (f.ssa_expr_index c.root_expression))).result.variables)
                  original)
        → IsFaithful id

  truth-fits : (b : Bool) (w : ℕ) → 0 < w → truth b % 2 ^ w ≡ truth b
  truth-fits true w h = mod-eq_of_lt (omega (arith, lt-two_pow w, h))
  truth-fits false w h = mod-eq_of_lt (omega (arith, lt-two_pow w))

  -- What is written in the place of a justified candidate has the value of what was recovered
  -- there, given the documented meaning of the operations of MLIL, a size that is not zero, and
  -- shifts by less than the width in the simplified expression.
  pub replacement_faithful :
      (l : Location) (id : N.ExprId)
      → 0 < c.size
      → IsShiftingOption (c.size * 8) c.simplified
      → IsJustified V limits f ssa c
      → replacement N c l ≡ returned id
      → IsFaithful id
  unfolding replacement
  replacement_faithful l id pos shifts (constant kind left right same le ri predicate always) h =
      comparison kind left right same le ri (λ env rho.
        ap (λ (x : N.ExprId). M.eval x env) (sym (returned-injective (rw predicate at h)))
        ∙ M.const c.size (truth c.predicate_value) l env
        ∙ truth-fits c.predicate_value (c.size * 8) (omega (arith, pos))
        ∙ ap truth (sym (always rho)))
  replacement_faithful l id pos shifts (rewrite original made e predicate carried table equal) h =
      expression original e (λ env.
        build_mlil_means N M c.simplified_variables c.variable_by_name c.size l made id
          (rw carried at shifts) (rw (predicate, carried) at h) env
        ∙ sym (equal (named c.variable_by_name env))
        ∙ rw table refl)
