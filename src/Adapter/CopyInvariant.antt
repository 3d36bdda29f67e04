-- ===== src/Adapter/CopyInvariant.antt =====
-- src/BNAdapter.cpp, `TransformFunction`: what the copy keeps of the pending candidates. A
-- predicate on its state that the marking of a candidate keeps is kept by the whole copy.
use co_bra_for_binary_ninja.Prelude.{refl, ℕ, ◌≡◌, List, [], ◌∷◌, ◌++◌, Option, none, some}
use co_bra_for_binary_ninja.Adapter.Mlil.{
  Mlil, Operation, ins, Operands, end, expr, exprs, plain, Exprs, nil, cons,
}
use co_bra_for_binary_ninja.Adapter.Types.{PendingCandidate}
use co_bra_for_binary_ninja.Adapter.Outcome.{Outcome, returned, thrown, undefined}
use co_bra_for_binary_ninja.Adapter.BuildMlil.{Builder}
use co_bra_for_binary_ninja.Adapter.Copy.{
  Copied, copied, aborted, lost, ◌>>=◌, lift, CopyState, find_selected, mark_applied, replacement,
  copy_found, copy_expression, copy_operands, copy_exprs, copy_block, copy_blocks,
}
use co_bra_for_binary_ninja.Adapter.Transform.{OldFunction, copy_function}

module _ (N : Builder) (selected : List (ℕ × PendingCandidate)) (P : CopyState → Type 0)
    (marked : (root : ℕ) (c : PendingCandidate)
      → find_selected root selected ≡ some c
      → (st : CopyState) → P st
      → P (mark_applied root st)) where
  -- The predicate holds in the state that a run leaves, with a value or with an exception.
  abbrev pub Keeps {ℓ} : {A : Type ℓ} → Copied A → Type 0
  Keeps (copied r) = P r.1
  Keeps (aborted what st) = P st
  Keeps lost = Unit

  bind-Keeps {ℓ κ} :
      {A : Type ℓ} {B : Type κ} (o : Copied A) (k : A × CopyState → Copied B)
      → Keeps o
      → ((r : A × CopyState) → P r.1 → Keeps (k r))
      → Keeps (o >>= k)
  bind-Keeps (copied r) k h rest = rest r h
  bind-Keeps (aborted what st) k h rest = h
  bind-Keeps lost k h rest = tt

  lift-Keeps {ℓ} : {A : Type ℓ} (o : Outcome A) (st : CopyState) → P st → Keeps (lift o st)
  lift-Keeps (returned a) st h = h
  lift-Keeps (thrown what) st h = h
  lift-Keeps undefined st h = tt

  two_steps {ℓ κ μ} :
      {A : Type ℓ} {B : Type κ} {C : Type μ} (o : Copied A) (k : CopyState → Copied B)
      (g : A → B → C)
      → Keeps o
      → ((st : CopyState) → P st → Keeps (k st))
      → Keeps (o >>= λ a. k a.1 >>= λ b. copied (g a.0 b.0, b.1))
  two_steps o k g first second =
      bind-Keeps o _ first (λ a p. bind-Keeps (k a.1) _ (second a.1 p) (λ b q. q))

  found-Keeps :
      (o : Option PendingCandidate) (i s a : ℕ) (op : Operation) (os : Operands) (st : CopyState)
      (children : Copied (List N.ExprId))
      → find_selected i selected ≡ o
      → P st
      → Keeps children
      → Keeps (copy_found N selected o (ins i op s a os) st children)
  unfolding copy_found
  found-Keeps (some c) i s a op os st children found h below =
      bind-Keeps (lift (replacement N c i) st) _ (lift-Keeps (replacement N c i) st h)
        (λ id p. marked i c found st h)
  found-Keeps none i s a op os st children found h below = bind-Keeps children _ below (λ copies p.
      bind-Keeps (lift (N.copy (ins i op s a os) copies.0 i) copies.1) _
        (lift-Keeps (N.copy (ins i op s a os) copies.0 i) copies.1 p) (λ id q. p))

  mutual
    unfolding copy_expression

    expression-Keeps : (e : Mlil) (st : CopyState) → P st → Keeps (copy_expression N selected e st)
    expression-Keeps (ins i op s a os) st h =
        found-Keeps (find_selected i selected) i s a op os st (copy_operands N selected os st) refl
          h (operands-Keeps os st h)

    operands-Keeps :
        (os : Operands) (st : CopyState) → P st → Keeps (copy_operands N selected os st)
    operands-Keeps end st h = h
    operands-Keeps (expr e os) st h =
        two_steps (copy_expression N selected e st) (copy_operands N selected os) (λ a b. a ∷ b)
          (expression-Keeps e st h) (operands-Keeps os)
    operands-Keeps (exprs es os) st h =
        two_steps (copy_exprs N selected es st) (copy_operands N selected os) (λ a b. a ++ b)
          (exprs-Keeps es st h) (operands-Keeps os)
    operands-Keeps (plain t os) st h = operands-Keeps os st h

    exprs-Keeps : (es : Exprs) (st : CopyState) → P st → Keeps (copy_exprs N selected es st)
    exprs-Keeps nil st h = h
    exprs-Keeps (cons e es) st h =
        two_steps (copy_expression N selected e st) (copy_exprs N selected es) (λ a b. a ∷ b)
          (expression-Keeps e st h) (exprs-Keeps es)

  block-Keeps : (es : List Mlil) (st : CopyState) → P st → Keeps (copy_block N selected es st)
  unfolding copy_block
  block-Keeps [] st h = h
  block-Keeps (e ∷ es) st h =
      two_steps (copy_expression N selected e st) (copy_block N selected es) (λ a b. a ∷ b)
        (expression-Keeps e st h) (block-Keeps es)

  blocks-Keeps :
      (bs : List (List Mlil)) (st : CopyState) → P st → Keeps (copy_blocks N selected bs st)
  unfolding copy_blocks
  blocks-Keeps [] st h = h
  blocks-Keeps (b ∷ bs) st h =
      two_steps (copy_block N selected b st) (copy_blocks N selected bs) (λ a b. a ∷ b)
        (block-Keeps b st h) (blocks-Keeps bs)

  -- The body of the `try`.
  pub copy_function-Keeps :
      (old : OldFunction) (st : CopyState) → P st → Keeps (copy_function N old selected st)
  unfolding copy_function
  copy_function-Keeps old st h =
      bind-Keeps (copy_blocks N selected old.blocks st) _ (blocks-Keeps old.blocks st h)
        (λ blocks p.
          bind-Keeps (lift (N.finalize blocks.0) blocks.1) _
            (lift-Keeps (N.finalize blocks.0) blocks.1 p) (λ u q. p))
