-- ===== src/Adapter/Recovery/Fuel.antt =====
-- src/BNAdapter.cpp, `ExpressionRecovery`: the depth limit of `CountNode` ends the recursion of
-- `Visit`.
use mathlib.Core.Path.{fun_ext}
use native.Mathlib.Decide.{dec_le}
use co_bra_for_binary_ninja.Prelude.{
  ℕ, zero, suc, ◌+◌, ◌<◌, ◌≤◌, ◌≡◌, refl, ap, arith, if◌then◌else◌, lt→ltb, ◌==◌, inl, inr,
  Option-cases,
}
use co_bra_for_binary_ninja.Cobra.{Expr}
use co_bra_for_binary_ninja.Adapter.Mlil.{Mlil, expr_index}
use co_bra_for_binary_ninja.Adapter.Recovery.State.{
  RecoveryState, Run, ◌>>=◌, stop, semantic_width, count_node,
}
use co_bra_for_binary_ninja.Adapter.Recovery.Leaves.{Task}
use co_bra_for_binary_ninja.Adapter.Recovery.Visit.{
  find_cached, visit_uncached, visit_cached, visit_step, visit, enough_fuel,
}

module _ (T : Task) where
  module _ (child child' : Mlil → Run Expr) (depth : ℕ) (deep : T.limits.max_depth < depth) where
    uncached_too_deep :
        (i : Mlil) (width : ℕ) (s : RecoveryState)
        → visit_uncached T child depth i width s ≡ visit_uncached T child' depth i width s
    unfolding visit_uncached count_node
    uncached_too_deep i width s = ground (arith, lt→ltb _ _ deep)

    cached_too_deep :
        (i : Mlil) (width : ℕ) (s : RecoveryState)
        → visit_cached T child depth i width s ≡ visit_cached T child' depth i width s
    unfolding visit_cached
    cached_too_deep i width s = elim (Option-cases (find_cached (expr_index i) s.cache)) [
      | inl miss ↦ rw (miss, visit_cached) (uncached_too_deep i width s)
      | inr (e, hit) ↦ rw (hit, visit_cached) refl
    ]

    step_too_deep :
        (i : Mlil) (s : RecoveryState)
        → visit_step T child depth i s ≡ visit_step T child' depth i s
    unfolding visit_step
    step_too_deep i s =
        ap
          (λ (k : ℕ → Run Expr).
            (semantic_width T.bit_width i >>= λ width. if width == 0 then stop else k width) s)
          (fun_ext λ width. fun_ext λ t. cached_too_deep i width t)

  more_fuel :
      (fuel fuel' depth : ℕ)
      → enough_fuel T ≤ fuel + depth
      → enough_fuel T ≤ fuel' + depth
      → depth < enough_fuel T
      → (i : Mlil) (s : RecoveryState) → visit T fuel depth i s ≡ visit T fuel' depth i s
  unfolding visit
  more_fuel zero fuel' depth h h' low i s = absurd (omega arith)
  more_fuel (suc fuel) zero depth h h' low i s = absurd (omega arith)
  more_fuel (suc fuel) (suc fuel') depth h h' low i s = elim (dec_le depth T.limits.max_depth) [
    | no deep ↦
        step_too_deep (visit T fuel (depth + 1)) (visit T fuel' (depth + 1)) depth
          (omega (arith, deep)) i s
    | yes shallow ↦
        ap (λ (child : Mlil → Run Expr). visit_step T child depth i s)
          (fun_ext λ j. fun_ext λ t.
            more_fuel fuel fuel' (depth + 1) (omega (arith, h)) (omega (arith, h'))
              (omega (arith, shallow)) j t)
  ]

  -- The nesting of `Visit` from the root is never cut off: any greater number of nested calls gives
  -- the same result and the same state, because the depth limit has failed by then.
  pub visit_terminates :
      (extra : ℕ) (i : Mlil) (s : RecoveryState)
      → visit T (enough_fuel T + extra) 0 i s ≡ visit T (enough_fuel T) 0 i s
  visit_terminates extra i s =
      more_fuel (enough_fuel T + extra) (enough_fuel T) 0 (omega arith) (omega arith) (omega arith)
        i s
