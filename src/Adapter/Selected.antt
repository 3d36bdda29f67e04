-- ===== src/Adapter/Selected.antt =====
-- src/BNAdapter.cpp, `TransformFunction`: what the selection loop leaves behind.
use co_bra_for_binary_ninja.Prelude.{ℕ, ◌+◌, ◌≡◌, refl, arith, false, List, [], ◌∷◌}
use co_bra_for_binary_ninja.Adapter.Mlil.{Mlil}
use co_bra_for_binary_ninja.Adapter.Types.{PendingCandidate}
use co_bra_for_binary_ninja.Adapter.Select.{
  contains, decrement, mark_expression_tree, covered_candidate, select_candidates, count_accepted,
  accepted_entries,
}

-- No selected root lies in the marked trees of the candidates selected before it.
abbrev pub IsDisjoint : (ℕ → Mlil) → List ℕ → List (ℕ × PendingCandidate) → Type 0
IsDisjoint get_expr covered [] = Unit
IsDisjoint get_expr covered ((root, c) ∷ rest) =
    (contains covered root ≡ false)
    × IsDisjoint get_expr (mark_expression_tree (get_expr root) covered) rest

module _ (get_expr : ℕ → Mlil) where
  pub accepted_counted :
      (covered : List ℕ) (extra n : ℕ) (cs : List PendingCandidate)
      → n ≡ extra + count_accepted cs
      → (select_candidates get_expr covered n cs).accepted
        ≡ extra + count_accepted (select_candidates get_expr covered n cs).pending
  unfolding select_candidates count_accepted covered_candidate
  accepted_counted covered extra n [] h = h
  accepted_counted covered extra n (c ∷ cs) h = ground (
    arith,
    accepted_counted covered extra n cs,
    accepted_counted covered extra (decrement n) cs,
    accepted_counted (mark_expression_tree (get_expr c.root_expression) covered) (extra + 1) n cs,
  )

  pub selected_entries :
      (covered : List ℕ) (n : ℕ) (cs : List PendingCandidate)
      → (select_candidates get_expr covered n cs).selected
        ≡ accepted_entries (select_candidates get_expr covered n cs).pending
  unfolding select_candidates accepted_entries covered_candidate
  selected_entries covered n [] = refl
  selected_entries covered n (c ∷ cs) = ground (
    arith,
    selected_entries covered n cs,
    selected_entries covered (decrement n) cs,
    selected_entries (mark_expression_tree (get_expr c.root_expression) covered) n cs,
  )

  pub selected-IsDisjoint :
      (covered : List ℕ) (n : ℕ) (cs : List PendingCandidate)
      → IsDisjoint get_expr covered (select_candidates get_expr covered n cs).selected
  unfolding select_candidates
  selected-IsDisjoint covered n [] = tt
  selected-IsDisjoint covered n (c ∷ cs) = ground (
    arith,
    selected-IsDisjoint covered n cs,
    selected-IsDisjoint covered (decrement n) cs,
    selected-IsDisjoint (mark_expression_tree (get_expr c.root_expression) covered) n cs,
  )
