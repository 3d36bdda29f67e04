-- ===== src/Adapter/Preserves.antt =====
-- src/BNAdapter.cpp, `TransformFunction`: the function that is committed means what the old one
-- means, given the documented behaviour of `CopyTo` and candidates whose replacement is equivalent.
use mathlib.Core.Path.{ap₂}
use mathlib.Core.List.{map-append}
use co_bra_for_binary_ninja.Prelude.{
  ℕ, ◌≡◌, refl, sym, ap, ◌∙◌, List, [], ◌∷◌, ◌++◌, map, Option, none, some, All,
}
use co_bra_for_binary_ninja.Adapter.Mlil.{
  Mlil, Operation, ins, Operands, end, expr, exprs, plain, Exprs, nil, cons,
}
use co_bra_for_binary_ninja.Adapter.Types.{PendingCandidate}
use co_bra_for_binary_ninja.Adapter.Outcome.{Outcome, returned, thrown, undefined, ◌>>=◌}
use co_bra_for_binary_ninja.Adapter.BuildMlil.{Builder, Location}
use co_bra_for_binary_ninja.Adapter.CopyRuns.{
  bind-copied, both-copied, lift-copied, copied-injective,
}
use co_bra_for_binary_ninja.Adapter.Copy.{
  CopyState, Copied, copied, lift, find_selected, replacement, copy_found, copy_expression,
  copy_operands, copy_exprs, copy_block, copy_blocks,
}

-- Inversion of a bind that returns.
pub bind-returned {ℓ κ} :
    {A : Type ℓ} {B : Type κ} (m : Outcome A) (f : A → Outcome B) {b : B}
    → (m >>= f) ≡ returned b
    → (a : A) × (m ≡ returned a) × (f a ≡ returned b)
bind-returned (returned a) f h = (a, refl, h)
bind-returned (thrown t) f h = cc
bind-returned undefined f h = cc

pub returned-injective {ℓ} : {A : Type ℓ} {a b : A} → returned a ≡ returned b → a ≡ b
returned-injective h = cc

-- The operands that are expressions, in order.
unfoldable mutual
  pub operand_list : Operands → List Mlil
  operand_list end = []
  operand_list (expr e os) = e ∷ operand_list os
  operand_list (exprs es os) = expr_list es ++ operand_list os
  operand_list (plain t os) = operand_list os

  pub expr_list : Exprs → List Mlil
  expr_list nil = []
  expr_list (cons e es) = e ∷ expr_list es

-- Two steps in sequence that return: the results of both.
pub both-returned {ℓ κ μ} :
    {A : Type ℓ} {B : Type κ} {C : Type μ} (m : Outcome A) (f : A → Outcome B) (g : A → B → C)
    {c : C}
    → (m >>= λ a. f a >>= λ b. returned (g a b)) ≡ returned c
    → (a : A) × (b : B) × (m ≡ returned a) × (f a ≡ returned b) × (g a b ≡ c)
both-returned m f g h =
    let (a, e, h') = bind-returned m _ h in
    let (b, e', k) = bind-returned (f a) _ h' in (a, b, e, e', returned-injective k)

-- What expressions of the old and the new function mean. `CopyTo` makes an expression that means
-- what the original means, if the copies of its operands do.
pub record Meaning (N : Builder) : Type 1 where
  pub Value : Type 0
  pub old_value : Mlil → Value
  pub new_value : N.ExprId → Value
  pub copied :
      (i s a : ℕ) (op : Operation) (os : Operands) (ids : List N.ExprId) (l : Location)
      (id : N.ExprId)
      → N.copy (ins i op s a os) ids l ≡ returned id
      → map new_value ids ≡ map old_value (operand_list os)
      → new_value id ≡ old_value (ins i op s a os)

-- `GetExpr` of an expression's index gives that expression back, throughout a tree.
unfoldable mutual
  pub Reflects : (ℕ → Mlil) → Mlil → Type 0
  Reflects get (ins i op s a os) = (get i ≡ ins i op s a os) × ReflectsOperands get os

  pub ReflectsOperands : (ℕ → Mlil) → Operands → Type 0
  ReflectsOperands get end = Unit
  ReflectsOperands get (expr e os) = Reflects get e × ReflectsOperands get os
  ReflectsOperands get (exprs es os) = ReflectsExprs get es × ReflectsOperands get os
  ReflectsOperands get (plain t os) = ReflectsOperands get os

  pub ReflectsExprs : (ℕ → Mlil) → Exprs → Type 0
  ReflectsExprs get nil = Unit
  ReflectsExprs get (cons e es) = Reflects get e × ReflectsExprs get es

module _ (N : Builder) (M : Meaning N) (get : ℕ → Mlil) where
  -- What replaces a candidate, if anything is built, means what its root means.
  abbrev pub IsEquivalent : ℕ → PendingCandidate → Type 0
  IsEquivalent root c =
      (l : Location) (id : N.ExprId)
      → replacement N c l ≡ returned id
      → M.new_value id ≡ M.old_value (get root)

  module _ (selected : List (ℕ × PendingCandidate))
      (equivalent : (i : ℕ) (c : PendingCandidate)
        → find_selected i selected ≡ some c
        → IsEquivalent i c) where
    found_means :
        (i s a : ℕ) (op : Operation) (os : Operands) (st : CopyState)
        (children : Copied (List N.ExprId)) (r : N.ExprId × CopyState) (o : Option PendingCandidate)
        → ((c : PendingCandidate) → o ≡ some c → IsEquivalent i c)
        → get i ≡ ins i op s a os
        → ((copies : List N.ExprId × CopyState)
            → children ≡ copied copies
            → map M.new_value copies.0 ≡ map M.old_value (operand_list os))
        → copy_found N selected o (ins i op s a os) st children ≡ copied r
        → M.new_value r.0 ≡ M.old_value (ins i op s a os)
    unfolding copy_found
    found_means i s a op os st children r (some c) good reflects ih h =
        let (id, built, e) = bind-copied (lift (replacement N c i) st) _ h in
        ap (λ (p : N.ExprId × CopyState). M.new_value p.0) (sym (copied-injective e))
        ∙ good c refl i id.0 (lift-copied (replacement N c i) st id built)
        ∙ ap M.old_value reflects
    found_means i s a op os st children r none good reflects ih h =
        let (copies, made, e) = bind-copied children _ h in
        let (id, built, f) =
          bind-copied (lift (N.copy (ins i op s a os) copies.0 i) copies.1) _ e in
        ap (λ (p : N.ExprId × CopyState). M.new_value p.0) (sym (copied-injective f))
        ∙ M.copied i s a op os copies.0 i id.0
            (lift-copied (N.copy (ins i op s a os) copies.0 i) copies.1 id built) (ih copies made)

    mutual
      unfolding copy_expression operand_list Reflects

      copy_means :
          (e : Mlil) (st : CopyState) (r : N.ExprId × CopyState)
          → Reflects get e
          → copy_expression N selected e st ≡ copied r
          → M.new_value r.0 ≡ M.old_value e
      copy_means (ins i op s a os) st r reflects h =
          found_means i s a op os st (copy_operands N selected os st) r (find_selected i selected)
            (equivalent i) reflects.0 (λ copies made. operands_mean os st copies reflects.1 made) h

      operands_mean :
          (os : Operands) (st : CopyState) (r : List N.ExprId × CopyState)
          → ReflectsOperands get os
          → copy_operands N selected os st ≡ copied r
          → map M.new_value r.0 ≡ map M.old_value (operand_list os)
      operands_mean end st r reflects h =
          ap (λ (p : List N.ExprId × CopyState). map M.new_value p.0) (sym (copied-injective h))
      operands_mean (expr e os) st r reflects h =
          let (a, b, ea, eb, k) =
            both-copied (copy_expression N selected e st) (λ x. copy_operands N selected os x.1)
              (λ x y. (x.0 ∷ y.0, y.1)) h in
          ap (λ (p : List N.ExprId × CopyState). map M.new_value p.0) (sym k)
          ∙ ap₂ ◌∷◌ (copy_means e st a reflects.0 ea) (operands_mean os a.1 b reflects.1 eb)
      operands_mean (exprs es os) st r reflects h =
          let (a, b, ea, eb, k) =
            both-copied (copy_exprs N selected es st) (λ x. copy_operands N selected os x.1)
              (λ x y. (x.0 ++ y.0, y.1)) h in
          ap (λ (p : List N.ExprId × CopyState). map M.new_value p.0) (sym k)
          ∙ map-append M.new_value a.0 b.0
          ∙ ap₂ ◌++◌ (exprs_mean es st a reflects.0 ea) (operands_mean os a.1 b reflects.1 eb)
          ∙ sym (map-append M.old_value (expr_list es) (operand_list os))
      operands_mean (plain t os) st r reflects h = operands_mean os st r reflects h

      exprs_mean :
          (es : Exprs) (st : CopyState) (r : List N.ExprId × CopyState)
          → ReflectsExprs get es
          → copy_exprs N selected es st ≡ copied r
          → map M.new_value r.0 ≡ map M.old_value (expr_list es)
      exprs_mean nil st r reflects h =
          ap (λ (p : List N.ExprId × CopyState). map M.new_value p.0) (sym (copied-injective h))
      exprs_mean (cons e es) st r reflects h =
          let (a, b, ea, eb, k) =
            both-copied (copy_expression N selected e st) (λ x. copy_exprs N selected es x.1)
              (λ x y. (x.0 ∷ y.0, y.1)) h in
          ap (λ (p : List N.ExprId × CopyState). map M.new_value p.0) (sym k)
          ∙ ap₂ ◌∷◌ (copy_means e st a reflects.0 ea) (exprs_mean es a.1 b reflects.1 eb)

    block_means :
        (es : List Mlil) (st : CopyState) (r : List N.ExprId × CopyState)
        → All (Reflects get) es
        → copy_block N selected es st ≡ copied r
        → map M.new_value r.0 ≡ map M.old_value es
    unfolding copy_block
    block_means [] st r reflects h =
        ap (λ (p : List N.ExprId × CopyState). map M.new_value p.0) (sym (copied-injective h))
    block_means (e ∷ es) st r reflects h =
        let (a, b, ea, eb, k) =
          both-copied (copy_expression N selected e st) (λ x. copy_block N selected es x.1)
            (λ x y. (x.0 ∷ y.0, y.1)) h in
        ap (λ (p : List N.ExprId × CopyState). map M.new_value p.0) (sym k)
        ∙ ap₂ ◌∷◌ (copy_means e st a reflects.0 ea) (block_means es a.1 b reflects.1 eb)

    pub blocks_mean :
        (bs : List (List Mlil)) (st : CopyState) (r : List (List N.ExprId) × CopyState)
        → All (All (Reflects get)) bs
        → copy_blocks N selected bs st ≡ copied r
        → map (map M.new_value) r.0 ≡ map (map M.old_value) bs
    unfolding copy_blocks
    blocks_mean [] st r reflects h =
        ap (λ (p : List (List N.ExprId) × CopyState). map (map M.new_value) p.0)
          (sym (copied-injective h))
    blocks_mean (b ∷ bs) st r reflects h =
        let (x, y, ex, ey, k) =
          both-copied (copy_block N selected b st) (λ x. copy_blocks N selected bs x.1)
            (λ x y. (x.0 ∷ y.0, y.1)) h in
        ap (λ (p : List (List N.ExprId) × CopyState). map (map M.new_value) p.0) (sym k)
        ∙ ap₂ ◌∷◌ (block_means b st x reflects.0 ex) (blocks_mean bs x.1 y reflects.1 ey)
