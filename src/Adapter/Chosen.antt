-- ===== src/Adapter/Chosen.antt =====
-- src/BNAdapter.cpp, `TransformFunction`: the selection loop against a reference that looks for each
-- root in the trees of the roots selected before it.
use co_bra_for_binary_ninja.Prelude.{
  ℕ, ◌≡◌, Bool, false, not, ◌&&◌, ◌||◌, List, [], ◌∷◌, if◌then◌else◌,
}
use co_bra_for_binary_ninja.Adapter.Mlil.{Mlil}
use co_bra_for_binary_ninja.Adapter.Types.{PendingCandidate}
use co_bra_for_binary_ninja.Adapter.Select.{contains}
use co_bra_for_binary_ninja.Adapter.Marked.{is_in_tree}
use co_bra_for_binary_ninja.Adapter.Covering.{IsClosed}

module _ (get : ℕ → Mlil) where
  -- Whether an index stands in one of the trees of these roots.
  abbrev pub is_in_any : List ℕ → ℕ → Bool
  is_in_any [] j = false
  is_in_any (root ∷ roots) j = is_in_tree j (get root) || is_in_any roots j

  -- The set of the trees of these roots, all of which are marked.
  record IsCover (roots marked : List ℕ) : Type 0 where
    exact : (j : ℕ) → contains marked j ≡ is_in_any roots j
    closed : (n : ℕ) → IsClosed get n marked

  -- The reference: an accepted candidate is chosen if its root stands in the tree of no root that
  -- was chosen before it.
  unfoldable pub chosen : List ℕ → List PendingCandidate → List (ℕ × PendingCandidate)
  chosen roots [] = []
  chosen roots (c ∷ cs) =
      let passed = chosen roots cs in
      let taken = chosen (c.root_expression ∷ roots) cs in
      if c.report.accepted && not (is_in_any roots c.root_expression)
      then (c.root_expression, c) ∷ taken
      else passed
