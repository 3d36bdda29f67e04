-- ===== src/Adapter/Covering.antt =====
-- src/BNAdapter.cpp, `MarkExpressionTree`: it marks every expression of the tree, although it stops at
-- an expression that is marked.
use co_bra_for_binary_ninja.Prelude.{
  ℕ, suc, ◌≤◌, ◌≡◌, refl, sym, ap, ◌∙◌, arith, Bool, true, ◌||◌, ◌==◌, ==_iff, Bool-cases, inl, inr,
  List, ◌∷◌,
}
use co_bra_for_binary_ninja.Adapter.Mlil.{
  Mlil, ins, Operands, end, expr, exprs, plain, Exprs, nil, cons,
}
use co_bra_for_binary_ninja.Adapter.Select.{
  contains, mark_expression_tree, mark_operands, mark_exprs,
}
use co_bra_for_binary_ninja.Adapter.Preserves.{Reflects, ReflectsOperands, ReflectsExprs}
use co_bra_for_binary_ninja.Adapter.AppliedRoots.{mark_operands_keeps, mark_exprs_keeps}
use co_bra_for_binary_ninja.Adapter.Marked.{
  is_in_tree, is_in_operands, is_in_exprs, weight, operands_weight, exprs_weight, either_true,
  or_right, operands_marks, operands_weigh,
}

module _ (get : ℕ → Mlil) where
  -- The trees of the marked expressions that are not larger than this are marked.
  abbrev pub IsClosed : ℕ → List ℕ → Type 0
  IsClosed n m =
      (k j : ℕ)
      → contains m k ≡ true
      → weight (get k) ≤ n
      → is_in_tree j (get k) ≡ true
      → contains m j ≡ true

  -- What marking a tree has to leave: a closed set with every index of the tree.
  abbrev pub IsMarkedBy : ℕ → (ℕ → Bool) → List ℕ → Type 0
  IsMarkedBy n inside m = IsClosed n m × ((j : ℕ) → inside j ≡ true → contains m j ≡ true)

  -- One expression whose operands have been marked.
  node_marked :
      (i n : ℕ) (e : Mlil) (os : Operands) (m : List ℕ)
      → get i ≡ e
      → weight e ≡ suc (operands_weight os)
      → ((j : ℕ) → is_in_tree j e ≡ ((i == j) || is_in_operands j os))
      → ReflectsOperands get os
      → suc (operands_weight os) ≤ n
      → IsClosed n m
      → IsMarkedBy (operands_weight os) (λ j. is_in_operands j os) (mark_operands os (i ∷ m))
      → IsMarkedBy n (λ j. is_in_tree j e) (mark_operands os (i ∷ m))
  node_marked i n e os m here weighs unfolds r small closed (below, all) =
      let inside : (j : ℕ) → is_in_tree j e ≡ true → contains (mark_operands os (i ∷ m)) j ≡ true =
        λ j h. elim (either_true (i == j) (is_in_operands j os) (sym (unfolds j) ∙ h)) [
          | inl same ↦ mark_operands_keeps j os (i ∷ m) (rw same refl)
          | inr lower ↦ all j lower
        ] in
      (
        λ k j marked light h. elim (operands_marks k os (i ∷ m) marked) [
          | inl lower ↦ below k j marked (operands_weigh get k os r lower) h
          | inr before ↦ elim (either_true (i == k) (contains m k) before) [
            | inl same ↦
                inside j (ap (is_in_tree j) (sym (ap get (sym ((==_iff i k).0 same)) ∙ here)) ∙ h)
            | inr old ↦
                mark_operands_keeps j os (i ∷ m)
                  (or_right (i == j) (contains m j) (closed k j old light h))
          ]
        ],
        inside,
      )

  -- Marking an index whose tree is larger keeps a set closed for the smaller ones.
  opened-IsClosed :
      (i n : ℕ) (m : List ℕ) (os : Operands)
      → weight (get i) ≡ suc (operands_weight os)
      → suc (operands_weight os) ≤ n
      → IsClosed n m
      → IsClosed (operands_weight os) (i ∷ m)
  opened-IsClosed i n m os weighs small closed k j marked light h =
      elim (either_true (i == k) (contains m k) marked) [
        | inl same ↦
            let equal : weight (get k) ≡ weight (get i) =
              ap (λ (x : ℕ). weight (get x)) (sym ((==_iff i k).0 same)) in
            absurd (omega (arith, light, equal, weighs))
        | inr old ↦
            or_right (i == j) (contains m j) (closed k j old (omega (arith, light, small)) h)
      ]

  -- Two parts one after the other.
  both_marked :
      (n : ℕ) (first second : ℕ → Bool) (m m' : List ℕ)
      → IsMarkedBy n first m
      → ((j : ℕ) → contains m j ≡ true → contains m' j ≡ true)
      → IsMarkedBy n second m'
      → IsMarkedBy n (λ j. first j || second j) m'
  both_marked n first second m m' a keeps b = (
    b.0,
    λ j h. elim (either_true (first j) (second j) h) [
      | inl early ↦ keeps j (a.1 j early)
      | inr late ↦ b.1 j late
    ],
  )

  mutual
    unfolding mark_expression_tree is_in_tree weight Reflects

    pub tree_marked :
        (e : Mlil) (m : List ℕ) (n : ℕ)
        → Reflects get e
        → weight e ≤ n
        → IsClosed n m
        → IsMarkedBy n (λ j. is_in_tree j e) (mark_expression_tree e m)
    tree_marked (ins i op s a os) m n r small closed = elim (Bool-cases (contains m i)) [
      | inl seen ↦ rw seen (
        closed,
        λ j h. closed i j seen (omega (arith, small, ap weight r.0)) (ap (is_in_tree j) r.0 ∙ h),
      )
      | inr new ↦ rw new (
          node_marked i n (ins i op s a os) os m r.0 refl (λ j. refl) r.1 small closed
            (operands_marked os (i ∷ m) (operands_weight os) r.1 (omega arith)
              (opened-IsClosed i n m os (ap weight r.0) small closed)))
    ]

    operands_marked :
        (os : Operands) (m : List ℕ) (n : ℕ)
        → ReflectsOperands get os
        → operands_weight os ≤ n
        → IsClosed n m
        → IsMarkedBy n (λ j. is_in_operands j os) (mark_operands os m)
    operands_marked end m n r small closed = (closed, λ j h. cc)
    operands_marked (expr e os) m n r small closed =
        let first = tree_marked e m n r.0 (omega (arith, small)) closed in
        both_marked n (λ j. is_in_tree j e) (λ j. is_in_operands j os) (mark_expression_tree e m)
          (mark_operands os (mark_expression_tree e m)) first
          (λ j. mark_operands_keeps j os (mark_expression_tree e m))
          (operands_marked os (mark_expression_tree e m) n r.1 (omega (arith, small)) first.0)
    operands_marked (exprs es os) m n r small closed =
        let first = exprs_marked es m n r.0 (omega (arith, small)) closed in
        both_marked n (λ j. is_in_exprs j es) (λ j. is_in_operands j os) (mark_exprs es m)
          (mark_operands os (mark_exprs es m)) first
          (λ j. mark_operands_keeps j os (mark_exprs es m))
          (operands_marked os (mark_exprs es m) n r.1 (omega (arith, small)) first.0)
    operands_marked (plain t os) m n r small closed = operands_marked os m n r small closed

    exprs_marked :
        (es : Exprs) (m : List ℕ) (n : ℕ)
        → ReflectsExprs get es
        → exprs_weight es ≤ n
        → IsClosed n m
        → IsMarkedBy n (λ j. is_in_exprs j es) (mark_exprs es m)
    exprs_marked nil m n r small closed = (closed, λ j h. cc)
    exprs_marked (cons e es) m n r small closed =
        let first = tree_marked e m n r.0 (omega (arith, small)) closed in
        both_marked n (λ j. is_in_tree j e) (λ j. is_in_exprs j es) (mark_expression_tree e m)
          (mark_exprs es (mark_expression_tree e m)) first
          (λ j. mark_exprs_keeps j es (mark_expression_tree e m))
          (exprs_marked es (mark_expression_tree e m) n r.1 (omega (arith, small)) first.0)
