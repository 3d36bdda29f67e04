-- ===== src/Adapter/Marked.antt =====
-- src/BNAdapter.cpp, `MarkExpressionTree`: it marks exactly the expressions of the tree.
use co_bra_for_binary_ninja.Prelude.{
  ℕ, suc, ◌+◌, ◌≤◌, ◌≡◌, refl, sym, ap, ◌∙◌, arith, Bool, true, false, ◌||◌, ◌==◌, ==_iff,
  Bool-cases, ◌⊎◌, inl, inr, List, ◌∷◌,
}
use co_bra_for_binary_ninja.Adapter.Mlil.{
  Mlil, ins, Operands, end, expr, exprs, plain, Exprs, nil, cons,
}
use co_bra_for_binary_ninja.Adapter.Select.{
  contains, mark_expression_tree, mark_operands, mark_exprs,
}
use co_bra_for_binary_ninja.Adapter.Preserves.{Reflects, ReflectsOperands, ReflectsExprs}

-- Whether an expression of this index stands in the tree.
unfoldable mutual
  pub is_in_tree : ℕ → Mlil → Bool
  is_in_tree j (ins i op s a os) = (i == j) || is_in_operands j os

  pub is_in_operands : ℕ → Operands → Bool
  is_in_operands j end = false
  is_in_operands j (expr e os) = is_in_tree j e || is_in_operands j os
  is_in_operands j (exprs es os) = is_in_exprs j es || is_in_operands j os
  is_in_operands j (plain t os) = is_in_operands j os

  pub is_in_exprs : ℕ → Exprs → Bool
  is_in_exprs j nil = false
  is_in_exprs j (cons e es) = is_in_tree j e || is_in_exprs j es

-- The number of expressions.
unfoldable mutual
  pub weight : Mlil → ℕ
  weight (ins i op s a os) = suc (operands_weight os)

  pub operands_weight : Operands → ℕ
  operands_weight end = 0
  operands_weight (expr e os) = weight e + operands_weight os
  operands_weight (exprs es os) = exprs_weight es + operands_weight os
  operands_weight (plain t os) = operands_weight os

  pub exprs_weight : Exprs → ℕ
  exprs_weight nil = 0
  exprs_weight (cons e es) = weight e + exprs_weight es

pub either_true : (a b : Bool) → (a || b) ≡ true → (a ≡ true) ⊎ (b ≡ true)
either_true true b h = inl refl
either_true false b h = inr h

pub or_right : (a b : Bool) → b ≡ true → (a || b) ≡ true
or_right a b h = ground arith

-- Nothing else is marked.
module _ (j : ℕ) where
  mutual
    unfolding mark_expression_tree is_in_tree

    pub tree_marks :
        (e : Mlil) (m : List ℕ)
        → contains (mark_expression_tree e m) j ≡ true
        → (is_in_tree j e ≡ true) ⊎ (contains m j ≡ true)
    tree_marks (ins i op s a os) m = elim (Bool-cases (contains m i)) [
      | inl seen ↦ rw seen (λ h. inr h)
      | inr new ↦ rw new (λ h. elim (operands_marks os (i ∷ m) h) [
        | inl below ↦ inl (or_right (i == j) (is_in_operands j os) below)
        | inr before ↦ elim (either_true (i == j) (contains m j) before) [
          | inl here ↦ inl (rw here refl)
          | inr old ↦ inr old
        ]
      ])
    ]

    pub operands_marks :
        (os : Operands) (m : List ℕ)
        → contains (mark_operands os m) j ≡ true
        → (is_in_operands j os ≡ true) ⊎ (contains m j ≡ true)
    operands_marks end m h = inr h
    operands_marks (expr e os) m h = elim (operands_marks os (mark_expression_tree e m) h) [
      | inl later ↦ inl (or_right (is_in_tree j e) (is_in_operands j os) later)
      | inr now ↦ elim (tree_marks e m now) [ inl here ↦ inl (rw here refl) | inr old ↦ inr old ]
    ]
    operands_marks (exprs es os) m h = elim (operands_marks os (mark_exprs es m) h) [
      | inl later ↦ inl (or_right (is_in_exprs j es) (is_in_operands j os) later)
      | inr now ↦ elim (exprs_marks es m now) [ inl here ↦ inl (rw here refl) | inr old ↦ inr old ]
    ]
    operands_marks (plain t os) m h = operands_marks os m h

    exprs_marks :
        (es : Exprs) (m : List ℕ)
        → contains (mark_exprs es m) j ≡ true
        → (is_in_exprs j es ≡ true) ⊎ (contains m j ≡ true)
    exprs_marks nil m h = inr h
    exprs_marks (cons e es) m h = elim (exprs_marks es (mark_expression_tree e m) h) [
      | inl later ↦ inl (or_right (is_in_tree j e) (is_in_exprs j es) later)
      | inr now ↦ elim (tree_marks e m now) [ inl here ↦ inl (rw here refl) | inr old ↦ inr old ]
    ]

module _ (get : ℕ → Mlil) where
  -- The trees that are found below an expression are not larger.
  module _ (k : ℕ) where
    mutual
      unfolding is_in_tree weight Reflects

      tree_weighs : (e : Mlil) → Reflects get e → is_in_tree k e ≡ true → weight (get k) ≤ weight e
      tree_weighs (ins i op s a os) r h = elim (either_true (i == k) (is_in_operands k os) h) [
        | inl here ↦
            let same : weight (get k) ≡ suc (operands_weight os) =
              ap (λ (x : ℕ). weight (get x)) (sym ((==_iff i k).0 here)) ∙ ap weight r.0 in
            omega (arith, same)
        | inr below ↦ omega (arith, operands_weigh os r.1 below)
      ]

      pub operands_weigh :
          (os : Operands)
          → ReflectsOperands get os
          → is_in_operands k os ≡ true
          → weight (get k) ≤ operands_weight os
      operands_weigh end r h = cc
      operands_weigh (expr e os) r h = elim (either_true (is_in_tree k e) (is_in_operands k os) h) [
        | inl here ↦ omega (arith, tree_weighs e r.0 here)
        | inr later ↦ omega (arith, operands_weigh os r.1 later)
      ]
      operands_weigh (exprs es os) r h =
          elim (either_true (is_in_exprs k es) (is_in_operands k os) h) [
            | inl here ↦ omega (arith, exprs_weigh es r.0 here)
            | inr later ↦ omega (arith, operands_weigh os r.1 later)
          ]
      operands_weigh (plain t os) r h = operands_weigh os r h

      exprs_weigh :
          (es : Exprs)
          → ReflectsExprs get es
          → is_in_exprs k es ≡ true
          → weight (get k) ≤ exprs_weight es
      exprs_weigh nil r h = cc
      exprs_weigh (cons e es) r h = elim (either_true (is_in_tree k e) (is_in_exprs k es) h) [
        | inl here ↦ omega (arith, tree_weighs e r.0 here)
        | inr later ↦ omega (arith, exprs_weigh es r.1 later)
      ]
