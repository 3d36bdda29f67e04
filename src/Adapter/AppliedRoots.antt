-- ===== src/Adapter/AppliedRoots.antt =====
-- src/BNAdapter.cpp, `TransformFunction`: each selected root is selected once, and marking it
-- changes one candidate.
use co_bra_for_binary_ninja.Prelude.{
  ℕ, ◌+◌, ◌≡◌, refl, sym, ap, ◌∙◌, arith, true, false, if◌then◌else◌, ◌==◌, Bool-cases, inl, inr,
  List, [], ◌∷◌, some, All,
}
use co_bra_for_binary_ninja.Adapter.Mlil.{
  Mlil, ins, Operands, end, expr, exprs, plain, Exprs, nil, cons, expr_index,
}
use co_bra_for_binary_ninja.Adapter.Types.{PendingCandidate}
use co_bra_for_binary_ninja.Adapter.Select.{
  contains, mark_expression_tree, mark_operands, mark_exprs, accepted_entries,
}
use co_bra_for_binary_ninja.Adapter.Selected.{IsDisjoint}
use co_bra_for_binary_ninja.Adapter.Copy.{find_selected, set_applied}

-- Marking a tree keeps what was marked, and marks its root.
module _ (j : ℕ) where
  mutual
    unfolding mark_expression_tree

    pub mark_tree_keeps :
        (e : Mlil) (marked : List ℕ)
        → contains marked j ≡ true
        → contains (mark_expression_tree e marked) j ≡ true
    mark_tree_keeps (ins i op s a os) marked h = elim (Bool-cases (contains marked i)) [
      | inl seen ↦ rw seen h
      | inr new ↦ rw new (mark_operands_keeps os (i ∷ marked) (ground (arith, h)))
    ]

    pub mark_operands_keeps :
        (os : Operands) (marked : List ℕ)
        → contains marked j ≡ true
        → contains (mark_operands os marked) j ≡ true
    mark_operands_keeps end marked h = h
    mark_operands_keeps (expr e os) marked h =
        mark_operands_keeps os (mark_expression_tree e marked) (mark_tree_keeps e marked h)
    mark_operands_keeps (exprs es os) marked h =
        mark_operands_keeps os (mark_exprs es marked) (mark_exprs_keeps es marked h)
    mark_operands_keeps (plain t os) marked h = mark_operands_keeps os marked h

    pub mark_exprs_keeps :
        (es : Exprs) (marked : List ℕ)
        → contains marked j ≡ true
        → contains (mark_exprs es marked) j ≡ true
    mark_exprs_keeps nil marked h = h
    mark_exprs_keeps (cons e es) marked h =
        mark_exprs_keeps es (mark_expression_tree e marked) (mark_tree_keeps e marked h)

mark_tree_root :
    (e : Mlil) (marked : List ℕ) → contains (mark_expression_tree e marked) (expr_index e) ≡ true
unfolding mark_expression_tree
mark_tree_root (ins i op s a os) marked = elim (Bool-cases (contains marked i)) [
  | inl seen ↦ rw seen seen
  | inr new ↦ rw new (mark_operands_keeps i os (i ∷ marked) (ground arith))
]

-- How often a root is selected.
unfoldable pub occurrences : ℕ → List (ℕ × PendingCandidate) → ℕ
occurrences i [] = 0
occurrences i ((root, c) ∷ rest) = if root == i then occurrences i rest + 1 else occurrences i rest

module _ (get_expr : ℕ → Mlil) (indexed : (i : ℕ) → expr_index (get_expr i) ≡ i) (i : ℕ) where
  covered_absent :
      (covered : List ℕ) (entries : List (ℕ × PendingCandidate))
      → contains covered i ≡ true
      → IsDisjoint get_expr covered entries
      → occurrences i entries ≡ 0
  unfolding occurrences
  covered_absent covered [] h d = refl
  covered_absent covered ((root, c) ∷ rest) h d =
      let below =
        covered_absent (mark_expression_tree (get_expr root) covered) rest
          (mark_tree_keeps i (get_expr root) covered h) d.1 in
      ground (arith, below, h, d.0)

  pub found_once :
      (covered : List ℕ) (entries : List (ℕ × PendingCandidate)) (c : PendingCandidate)
      → IsDisjoint get_expr covered entries
      → find_selected i entries ≡ some c
      → occurrences i entries ≡ 1
  unfolding occurrences find_selected
  found_once covered [] c d h = cc
  found_once covered ((root, x) ∷ rest) c d h = elim (Bool-cases (root == i)) [
    | inl same ↦
        let marked : contains (mark_expression_tree (get_expr root) covered) i ≡ true =
          ap (contains (mark_expression_tree (get_expr root) covered))
            (sym (indexed root ∙ ground (arith, same)))
          ∙ mark_tree_root (get_expr root) covered in
        rw same (
          omega
            (arith, covered_absent (mark_expression_tree (get_expr root) covered) rest marked d.1))
    | inr other ↦
        rw other
          (found_once (mark_expression_tree (get_expr root) covered) rest c d.1 (rw other at h))
  ]

-- The applied candidates.
unfoldable pub count_applied : List PendingCandidate → ℕ
count_applied [] = 0
count_applied (c ∷ cs) = if c.report.applied then count_applied cs + 1 else count_applied cs

-- The root of an applied candidate is one of these.
abbrev pub IsAppliedIn : List ℕ → PendingCandidate → Type 0
IsAppliedIn roots c = c.report.applied ≡ true → contains roots c.root_expression ≡ true

module _ (root : ℕ) where
  pub set_applied-occurrences :
      (i : ℕ) (cs : List PendingCandidate)
      → occurrences i (accepted_entries (set_applied root cs)) ≡ occurrences i (accepted_entries cs)
  unfolding set_applied accepted_entries occurrences
  set_applied-occurrences i [] = refl
  set_applied-occurrences i (c ∷ cs) = ground (arith, set_applied-occurrences i cs)

  -- Marking a root that is not marked yet makes its accepted candidates applied.
  pub set_applied-count :
      (roots : List ℕ) (cs : List PendingCandidate)
      → contains roots root ≡ false
      → All (IsAppliedIn roots) cs
      → count_applied (set_applied root cs)
        ≡ count_applied cs + occurrences root (accepted_entries cs)
  unfolding set_applied accepted_entries occurrences count_applied
  set_applied-count roots [] new h = refl
  set_applied-count roots (c ∷ cs) new h =
      ground (arith, set_applied-count roots cs new h.1, h.0, new)

  pub set_applied-IsAppliedIn :
      (roots : List ℕ) (cs : List PendingCandidate)
      → All (IsAppliedIn roots) cs
      → All (IsAppliedIn (root ∷ roots)) (set_applied root cs)
  unfolding set_applied
  set_applied-IsAppliedIn roots [] h = tt
  set_applied-IsAppliedIn roots (c ∷ cs) h =
      (ground (arith, h.0), set_applied-IsAppliedIn roots cs h.1)
