-- ===== src/Adapter/Commit.antt =====
-- src/BNAdapter.cpp, `TransformFunction`: what is committed, and what is left where nothing is.
use mathlib.Core.Path.{subst, subst₂}
use mathlib.Core.Option.{some-injective}
use co_bra_for_binary_ninja.Prelude.{
  ℕ, ◌≡◌, refl, sym, ap, ◌∙◌, arith, true, false, ◌==◌, ==_iff, Bool-cases, ◌⊎◌, inl, inr, List, [],
  ◌∷◌, map, none, some, All,
}
use co_bra_for_binary_ninja.Adapter.Types.{CandidateReport, FunctionReport, PendingCandidate}
use co_bra_for_binary_ninja.Adapter.Outcome.{returned}
use co_bra_for_binary_ninja.Adapter.BuildMlil.{Builder}
use co_bra_for_binary_ninja.Adapter.Select.{
  contains, decrement, mark_expression_tree, Selection, covered_candidate, select_candidates,
}
use co_bra_for_binary_ninja.Adapter.Copy.{
  Copied, copied, aborted, lost, lift, CopyState, find_selected, replacement, copy_blocks,
}
use co_bra_for_binary_ninja.Adapter.CopyRuns.{bind-copied}
use co_bra_for_binary_ninja.Adapter.Transform.{
  move_reports, reset_applied, OldFunction, copy_function, finish, apply_selection,
  transform_collected, Committed,
}
use co_bra_for_binary_ninja.Adapter.Preserves.{
  Meaning, IsEquivalent, Reflects, blocks_mean, returned-injective,
}

pub List-cases {ℓ} :
    {A : Type ℓ} (xs : List A) → (xs ≡ []) ⊎ ((x : A) × (r : List A) × (xs ≡ x ∷ r))
List-cases [] = inl refl
List-cases (x ∷ r) = inr (x, r, refl)

module _ (N : Builder) (old : OldFunction) where
  -- The state in which the copy starts.
  abbrev pub start : Selection → FunctionReport → CopyState
  start s output = record { pending = s.pending; applied_roots = []; applied = output.applied }

  pub copied_blocks :
      (selected : List (ℕ × PendingCandidate)) (st st' : CopyState) (blocks : List (List N.ExprId))
      → copy_function N old selected st ≡ copied (blocks, st')
      → copy_blocks N selected old.blocks st ≡ copied (blocks, st')
  unfolding copy_function
  copied_blocks selected st st' blocks h =
      let (r, e, h') = bind-copied (copy_blocks N selected old.blocks st) _ h in
      let (u, e', k) = bind-copied (lift (N.finalize r.0) r.1) _ h' in e ∙ k

  pub finish-some :
      (output report : FunctionReport) (o : Copied (List (List N.ExprId)))
      (blocks : List (List N.ExprId))
      → finish N output o ≡ returned (report, some blocks)
      → (st : CopyState) × (o ≡ copied (blocks, st))
        × (move_reports st.pending (record output { applied = st.applied }) ≡ report)
  unfolding finish
  finish-some output report (copied (bs, st)) blocks h =
      (st, cc, ap (λ (x : Committed N). x.0) (returned-injective h))
  finish-some output report (aborted t st) blocks h = cc
  finish-some output report lost blocks h = cc

  module _ (output : FunctionReport) (s : Selection) where
    pub nothing_selected :
        s.selected ≡ []
        → apply_selection N old output s
          ≡ returned (move_reports s.pending (record output { accepted = s.accepted }), none)
    unfolding apply_selection
    nothing_selected e = ground arith

    pub something_selected :
        (entry : ℕ × PendingCandidate) (entries : List (ℕ × PendingCandidate))
        → s.selected ≡ entry ∷ entries
        → apply_selection N old output s
          ≡ finish N
              (record output { accepted = s.accepted })
              (copy_function N old s.selected (start s output))
    unfolding apply_selection
    something_selected entry entries e = ground arith

    committed_copy :
        (report : FunctionReport) (blocks : List (List N.ExprId))
        → apply_selection N old output s ≡ returned (report, some blocks)
        → (st : CopyState) × (copy_function N old s.selected (start s output) ≡ copied (blocks, st))
    committed_copy report blocks h = elim (List-cases s.selected) [
      | inl e ↦ cc (nothing_selected e, h)
      | inr (entry, entries, e) ↦
          let (st, ran, same) =
            finish-some _ _ _ _ (sym (something_selected entry entries e) ∙ h) in
          (st, ran)
    ]

module _ (N : Builder) (M : Meaning N) (old : OldFunction) where
  -- An accepted candidate is one whose replacement means what its root means.
  abbrev pub IsSound : PendingCandidate → Type 0
  IsSound c = c.report.accepted ≡ true → IsEquivalent N M old.get_expr c.root_expression c

  abbrev EntrySound : ℕ × PendingCandidate → Type 0
  EntrySound entry = IsEquivalent N M old.get_expr entry.0 entry.1

  selected_sound :
      (covered : List ℕ) (n : ℕ) (cs : List PendingCandidate)
      → All IsSound cs
      → All EntrySound (select_candidates old.get_expr covered n cs).selected
  unfolding select_candidates replacement
  selected_sound covered n [] h = tt
  selected_sound covered n (c ∷ cs) h = elim (Bool-cases c.report.accepted) [
    | inr skipped ↦ rw skipped (selected_sound covered n cs h.1)
    | inl accepted ↦ elim (Bool-cases (contains covered c.root_expression)) [
      | inl inside ↦ rw (accepted, inside) (selected_sound covered (decrement n) cs h.1)
      | inr outside ↦
          rw (accepted, outside)
            (
              h.0 accepted,
              selected_sound (mark_expression_tree (old.get_expr c.root_expression) covered) n cs
                  h.1,
            )
    ]
  ]

  found_sound :
      (entries : List (ℕ × PendingCandidate))
      → All EntrySound entries
      → (i : ℕ) (c : PendingCandidate) → find_selected i entries ≡ some c
      → IsEquivalent N M old.get_expr i c
  unfolding find_selected
  found_sound [] h i c e = cc
  found_sound ((root, d) ∷ rest) h i c e = elim (Bool-cases (root == i)) [
    | inl same ↦
        let chosen : d ≡ c = some-injective _ _ (rw same at e) in
        subst₂ (λ (j : ℕ) (x : PendingCandidate). IsEquivalent N M old.get_expr j x)
          ((==_iff root i).0 same) chosen h.0
    | inr other ↦ found_sound rest h.1 i c (rw other at e)
  ]

  -- What `TransformFunction` commits has the blocks and instructions of the old function, and each
  -- of them means what it meant: the accepted candidates have sound replacements, and the
  -- expressions are what `GetExpr` returns for their indices.
  pub committed_means :
      (output report : FunctionReport) (pending : List PendingCandidate)
      (blocks : List (List N.ExprId))
      → All (All (Reflects old.get_expr)) old.blocks
      → All IsSound pending
      → transform_collected N old output pending ≡ returned (report, some blocks)
      → map (map M.new_value) blocks ≡ map (map M.old_value) old.blocks
  unfolding transform_collected
  committed_means output report pending blocks reflects sound h =
      let s = select_candidates old.get_expr [] output.accepted pending in
      let (st, made) = committed_copy N old output s report blocks h in
      blocks_mean N M old.get_expr s.selected
        (found_sound s.selected (selected_sound [] output.accepted pending sound)) old.blocks
        (start N old s output) (blocks, st) reflects
        (copied_blocks N old s.selected _ st blocks made)

-- Where nothing is committed, nothing is reported as applied.
abbrev pub IsUnapplied : CandidateReport → Type 0
IsUnapplied r = r.applied ≡ false

module _ (N : Builder) (old : OldFunction) where
  reset-IsUnapplied :
      (cs : List PendingCandidate) → All IsUnapplied (map (λ c. c.report) (map reset_applied cs))
  unfolding reset_applied
  reset-IsUnapplied [] = tt
  reset-IsUnapplied (c ∷ cs) = (refl, reset-IsUnapplied cs)

  pub selected-IsUnapplied :
      (covered : List ℕ) (n : ℕ) (cs : List PendingCandidate)
      → All IsUnapplied (map (λ c. c.report) cs)
      → All IsUnapplied (map (λ c. c.report) (select_candidates old.get_expr covered n cs).pending)
  unfolding select_candidates covered_candidate
  selected-IsUnapplied covered n [] h = tt
  selected-IsUnapplied covered n (c ∷ cs) h = ground (
    arith,
    selected-IsUnapplied covered n cs,
    selected-IsUnapplied covered (decrement n) cs,
    selected-IsUnapplied (mark_expression_tree (old.get_expr c.root_expression) covered) n cs,
  )

  finish-none :
      (output report : FunctionReport) (o : Copied (List (List N.ExprId)))
      → output.candidates ≡ []
      → finish N output o ≡ returned (report, none)
      → (report.applied ≡ 0) × All IsUnapplied report.candidates
  unfolding finish move_reports
  finish-none output report (copied (bs, st)) empty h = cc
  finish-none output report (aborted t st) empty h =
      subst (λ (r : FunctionReport). (r.applied ≡ 0) × All IsUnapplied r.candidates)
        (ap (λ (p : Committed N). p.0) (returned-injective h))
        (refl, rw empty (reset-IsUnapplied st.pending))
  finish-none output report lost empty h = cc

  reported_none :
      (output report : FunctionReport) (s : Selection)
      → output.candidates ≡ []
      → output.applied ≡ 0
      → All IsUnapplied (map (λ c. c.report) s.pending)
      → s.selected ≡ []
      → apply_selection N old output s ≡ returned (report, none)
      → (report.applied ≡ 0) × All IsUnapplied report.candidates
  unfolding move_reports
  reported_none output report s empty zero fresh e h =
      subst (λ (r : FunctionReport). (r.applied ≡ 0) × All IsUnapplied r.candidates)
        (ap (λ (p : Committed N). p.0)
          (returned-injective (sym (nothing_selected N old output s e) ∙ h)))
        (zero, rw empty fresh)

  -- A call that commits nothing, because nothing was selected or because the copy threw, leaves
  -- every report unapplied and the count of applied candidates at zero.
  pub uncommitted-IsUnapplied :
      (output report : FunctionReport) (pending : List PendingCandidate)
      → output.candidates ≡ []
      → output.applied ≡ 0
      → All IsUnapplied (map (λ c. c.report) pending)
      → transform_collected N old output pending ≡ returned (report, none)
      → (report.applied ≡ 0) × All IsUnapplied report.candidates
  unfolding transform_collected
  uncommitted-IsUnapplied output report pending empty zero fresh h =
      let s = select_candidates old.get_expr [] output.accepted pending in
      elim (List-cases s.selected) [
        | inl e ↦
            reported_none output report s empty zero
              (selected-IsUnapplied [] output.accepted pending fresh) e h
        | inr (entry, entries, e) ↦
            finish-none (record output { accepted = s.accepted }) report _ empty
              (sym (something_selected N old output s entry entries e) ∙ h)
      ]
