-- ===== src/Adapter/Recovery/Budget.antt =====
-- src/BNAdapter.cpp, `ExpressionRecovery`: how many nodes a recovery can count.
use native.Mathlib.Decide.{dec_le}
use co_bra_for_binary_ninja.Prelude.{
  ℕ, ◌+◌, ◌≤◌, ◌≡◌, arith, Bool, true, false, if◌then◌else◌, inl, inr, length, Option, none, some,
  Option-cases, Bytes,
}
use co_bra_for_binary_ninja.Cobra.{Expr}
use co_bra_for_binary_ninja.Adapter.Mlil.{Mlil}
use co_bra_for_binary_ninja.Adapter.Types.{Variable}
use co_bra_for_binary_ninja.Adapter.Recovery.State.{
  SsaVariable, RecoveryState, Run, ◌>>=◌, pure, stop, both, fail, failed, semantic_width, narrow,
}
use co_bra_for_binary_ninja.Adapter.Recovery.Leaves.{
  Task, find_name, leaf_name, with_leaf, with_bit, place_leaf, variable_leaf,
  predicate_boolean_leaf,
}

abbrev pub nodes : RecoveryState → ℕ
nodes s = s.stats.nodes

pub failed_nodes : (text : Bytes) (s : RecoveryState) → nodes (failed text s) ≡ nodes s
unfolding failed
failed_nodes text s = ground arith

module _ (T : Task) where
  -- A step that counts no node.
  pub record Free {ℓ} {A : Type ℓ} (m : Run A) : Type 0 where
    pub apply : (s : RecoveryState) → nodes (m s).1 ≡ nodes s

  pub semantic_width-Free : (i : Mlil) → Free (semantic_width T.bit_width i)
  unfolding semantic_width failed
  semantic_width-Free i = record { apply = λ s. ground arith }

  pub narrow-Free : (e : Expr) (width : ℕ) → Free (narrow T.factory T.bit_width e width)
  unfolding narrow failed
  narrow-Free e width = record { apply = λ s. ground arith }

  place_leaf_free :
      (name : Bytes) (v : Variable) (width : ℕ) (o : Option ℕ) (s : RecoveryState)
      → nodes (place_leaf T name v width o s).1 ≡ nodes s
  unfolding place_leaf with_leaf failed
  place_leaf_free name v width (some index) s = (narrow-Free _ width).apply s
  place_leaf_free name v width none s = ground (
    arith,
    (narrow-Free (T.factory.variable (length s.variables)) width).apply (with_leaf name v s),
  )

  pub variable_leaf-Free : (v : SsaVariable) (width : ℕ) → Free (variable_leaf T v width)
  unfolding variable_leaf failed
  variable_leaf-Free v width = record {
    apply = λ s. ground (
      arith,
      place_leaf_free (leaf_name T.ssa v) v.variable width
          (find_name (leaf_name T.ssa v) s.variables) s,
    );
  }

  pub predicate_boolean_leaf-Free : (width : ℕ) → Free (predicate_boolean_leaf T width)
  unfolding predicate_boolean_leaf failed with_bit
  predicate_boolean_leaf-Free width = record {
    apply = λ s. ground (
      arith,
      (narrow-Free
            (T.factory.bitwise_and (T.factory.variable (length s.variables)) (T.factory.constant 1))
            width).apply
          (with_bit s),
    );
  }

  -- `bound` is what a call of `Visit` one level deeper leaves the count within.
  module _ (bound : ℕ) (above : T.limits.max_nodes ≤ bound) where
    -- A step from within the budget counts one node beyond the bound at most.
    pub record Costs {ℓ} {A : Type ℓ} (m : Run A) : Type 0 where
      pub apply : (s : RecoveryState) → nodes s ≤ T.limits.max_nodes → nodes (m s).1 ≤ bound + 1

    pub Free-Costs {ℓ} : {A : Type ℓ} {m : Run A} → Free m → Costs m
    Free-Costs free = record { apply = λ s h. omega (arith, free.apply s, h, above) }

    pub fail-Costs {ℓ} : (A : Type ℓ) (text : Bytes) → Costs (fail {A = A} text)
    fail-Costs A text = record { apply = λ s h. omega (arith, failed_nodes text s, h, above) }

    pub pure-Costs {ℓ} : {A : Type ℓ} (a : A) → Costs (pure a)
    pure-Costs a = record { apply = λ s h. omega (arith, h, above) }

    pub stop-Costs {ℓ} : (A : Type ℓ) → Costs (stop {A = A})
    stop-Costs A = record { apply = λ s h. omega (arith, h, above) }

    pub if-Costs {ℓ} :
        {A : Type ℓ} (b : Bool) {m n : Run A} → Costs m → Costs n → Costs (if b then m else n)
    if-Costs true yes_case no_case = yes_case
    if-Costs false yes_case no_case = no_case

    pub noted-Costs {ℓ} :
        {A : Type ℓ} (note : RecoveryState → RecoveryState) (m : Run A)
        → ((s : RecoveryState) → nodes (note s) ≡ nodes s)
        → Costs m
        → Costs (λ s. m (note s))
    noted-Costs note m same after = record {
      apply = λ s h. after.apply (note s) (omega (arith, same s, h));
    }

    Free-bind {ℓ κ} :
        {A : Type ℓ} {B : Type κ} (m : Run A) (f : A → Run B)
        → Free m
        → ((a : A) → Costs (f a))
        → (s : RecoveryState) → nodes s ≤ T.limits.max_nodes
        → nodes ((m >>= f) s).1 ≤ bound + 1
    Free-bind m f first after s h =
        let same = first.apply s in
        elim (Option-cases (m s).0) [
          | inl e ↦ rw (e, ◌>>=◌) (omega (arith, same, h, above))
          | inr (a, e) ↦ rw (e, ◌>>=◌) ((after a).apply (m s).1 (omega (arith, same, h)))
        ]

    pub Free-bind-Costs {ℓ κ} :
        {A : Type ℓ} {B : Type κ} {m : Run A} {f : A → Run B}
        → Free m
        → ((a : A) → Costs (f a))
        → Costs (m >>= f)
    Free-bind-Costs {m} {f} first after = record { apply = Free-bind m f first after }

    module _ (child : Mlil → Run Expr)
        (spent : (i : Mlil) (s : RecoveryState)
          → T.limits.max_nodes ≤ nodes s
          → nodes (child i s).1 ≤ nodes s + 1)
        (within : (i : Mlil) (s : RecoveryState)
          → nodes s ≤ T.limits.max_nodes
          → nodes (child i s).1 ≤ bound) where
      child_bind {ℓ} :
          {B : Type ℓ} (i : Mlil) (f : Expr → Run B)
          → ((e : Expr) → Free (f e))
          → (s : RecoveryState) → nodes s ≤ T.limits.max_nodes
          → nodes ((child i >>= f) s).1 ≤ bound + 1
      child_bind i f after s h =
          let cost = within i s h in
          elim (Option-cases (child i s).0) [
            | inl e ↦ rw (e, ◌>>=◌) (omega (arith, cost))
            | inr (a, e) ↦ rw (e, ◌>>=◌) (omega (arith, cost, (after a).apply (child i s).1))
          ]

      pub child-Costs {ℓ} :
          {B : Type ℓ} (i : Mlil) {f : Expr → Run B}
          → ((e : Expr) → Free (f e))
          → Costs (child i >>= f)
      child-Costs i {f} after = record { apply = child_bind i f after }

      -- The second call counts one node only where the first has used up the budget.
      pair_cost :
          (i j : Mlil) (s : RecoveryState)
          → nodes s ≤ T.limits.max_nodes
          → nodes (child j (child i s).1).1 ≤ bound + 1
      pair_cost i j s h =
          let first = within i s h in
          elim (dec_le (nodes (child i s).1) T.limits.max_nodes) [
            | yes left ↦ omega (arith, within j (child i s).1 left)
            | no gone ↦ omega (arith, first, spent j (child i s).1 (omega (arith, gone)))
          ]

      both_cost :
          (i j : Mlil) (f : Expr → Expr → Run Expr)
          → ((a b : Expr) → Free (f a b))
          → (s : RecoveryState) → nodes s ≤ T.limits.max_nodes
          → nodes (both (child i) (child j) f s).1 ≤ bound + 1
      both_cost i j f after s h =
          let two = pair_cost i j s h in
          elim (Option-cases (child i s).0) [
            | inl e ↦ rw (e, both) two
            | inr (a, e) ↦ elim (Option-cases (child j (child i s).1).0) [
              | inl k ↦ rw (e, k, both) two
              | inr (b, k) ↦
                  rw (e, k, both) (omega (arith, two, (after a b).apply (child j (child i s).1).1))
            ]
          ]

      pub both-Costs :
          (i j : Mlil) {f : Expr → Expr → Run Expr}
          → ((a b : Expr) → Free (f a b))
          → Costs (both (child i) (child j) f)
      both-Costs i j {f} after = record { apply = both_cost i j f after }
