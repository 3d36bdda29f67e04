-- ===== src/Adapter/Whole.antt =====
-- src/BNAdapter.cpp, `TransformFunction`: what the report says after the whole call, from the
-- collection to the commit.
use mathlib.Core.Path.{subst}
use co_bra_for_binary_ninja.Prelude.{
  ℕ, ◌≤◌, ◌≡◌, refl, sym, ◌∙◌, arith, true, inl, inr, List, [], ◌∷◌, map, length, Option, none,
  some, All,
}
use co_bra_for_binary_ninja.Adapter.Mlil.{Mlil}
use co_bra_for_binary_ninja.Adapter.Types.{FunctionReport, PendingCandidate, AnalysisLimits}
use co_bra_for_binary_ninja.Adapter.Outcome.{Outcome, returned}
use co_bra_for_binary_ninja.Adapter.BuildMlil.{Builder}
use co_bra_for_binary_ninja.Adapter.Select.{
  mark_expression_tree, decrement, Selection, select_candidates, count_accepted,
}
use co_bra_for_binary_ninja.Adapter.Selected.{accepted_counted}
use co_bra_for_binary_ninja.Adapter.Copy.{
  Copied, copied, aborted, lost, CopyState, set_applied, mark_applied,
}
use co_bra_for_binary_ninja.Adapter.CopyInvariant.{copy_function-Keeps}
use co_bra_for_binary_ninja.Adapter.Transform.{
  move_reports, reset_applied, OldFunction, copy_function, finish, apply_selection,
  transform_collected, Committed,
}
use co_bra_for_binary_ninja.Adapter.Preserves.{returned-injective}
use co_bra_for_binary_ninja.Adapter.Commit.{
  IsUnapplied, List-cases, start, nothing_selected, something_selected, uncommitted-IsUnapplied,
}
use co_bra_for_binary_ninja.Adapter.Candidates.{Services}
use co_bra_for_binary_ninja.Adapter.Collect.{Candidates}
use co_bra_for_binary_ninja.Adapter.Collected.{ServiceLaws}
use co_bra_for_binary_ninja.Adapter.Authorized.{All-map}
use co_bra_for_binary_ninja.Adapter.Fresh.{IsFresh, collect_candidates-IsFreshRun}
use co_bra_for_binary_ninja.Adapter.Preview.{accepted_reports, accepted_reports-map, length-map}
use co_bra_for_binary_ninja.Adapter.Entry.{
  AnalysisContext, transform_candidates, transform_function,
}

-- The numbers of candidates and of accepted ones.
abbrev HasCounts : ℕ → ℕ → List PendingCandidate → Type 0
HasCounts accepted all cs = (count_accepted cs ≡ accepted) × (length cs ≡ all)

set_applied-HasCounts :
    (root : ℕ) (cs : List PendingCandidate)
    → HasCounts (count_accepted cs) (length cs) (set_applied root cs)
unfolding set_applied count_accepted
set_applied-HasCounts root [] = (refl, refl)
set_applied-HasCounts root (c ∷ cs) = ground (arith, set_applied-HasCounts root cs)

mark_applied-HasCounts :
    (accepted all root : ℕ) (st : CopyState)
    → HasCounts accepted all st.pending
    → HasCounts accepted all (mark_applied root st).pending
unfolding mark_applied
mark_applied-HasCounts accepted all root st h =
    ground (arith, set_applied-HasCounts root st.pending)

reset_applied-HasCounts :
    (cs : List PendingCandidate) → HasCounts (count_accepted cs) (length cs) (map reset_applied cs)
unfolding reset_applied count_accepted
reset_applied-HasCounts [] = (refl, refl)
reset_applied-HasCounts (c ∷ cs) = ground (arith, reset_applied-HasCounts cs)

select_candidates-length :
    (get_expr : ℕ → Mlil) (covered : List ℕ) (n : ℕ) (cs : List PendingCandidate)
    → length (select_candidates get_expr covered n cs).pending ≡ length cs
unfolding select_candidates
select_candidates-length get_expr covered n [] = refl
select_candidates-length get_expr covered n (c ∷ cs) = ground (
  arith,
  select_candidates-length get_expr covered n cs,
  select_candidates-length get_expr covered (decrement n) cs,
  select_candidates-length get_expr (mark_expression_tree (get_expr c.root_expression) covered) n
      cs,
)

-- A report with `all` entries that has counted its accepted ones.
abbrev IsTallied : ℕ → FunctionReport → Type 0
IsTallied all r = (r.accepted ≡ accepted_reports r.candidates) × (length r.candidates ≡ all)

moved-IsTallied :
    (accepted all : ℕ) (cs : List PendingCandidate) (output : FunctionReport)
    → output.candidates ≡ []
    → output.accepted ≡ accepted
    → HasCounts accepted all cs
    → IsTallied all (move_reports cs output)
unfolding move_reports
moved-IsTallied accepted all cs output empty counted h = rw empty (
  omega (arith, accepted_reports-map cs, counted, h.0),
  omega (arith, length-map (λ c. c.report) cs, h.1),
)

module _ (N : Builder) (old : OldFunction) (output : FunctionReport)
    (empty : output.candidates ≡ []) where
  -- The counts hold in the state that the copy leaves.
  abbrev KeepsCounts : ℕ → ℕ → Copied (List (List N.ExprId)) → Type 0
  KeepsCounts accepted all (copied r) = HasCounts accepted all r.1.pending
  KeepsCounts accepted all (aborted what st) = HasCounts accepted all st.pending
  KeepsCounts accepted all lost = Unit

  abbrev IsTalliedRun : ℕ → Outcome (Committed N) → Type 0
  IsTalliedRun all o = (done : Committed N) → o ≡ returned done → IsTallied all done.0

  finish-IsTallied :
      (accepted all : ℕ) (o : Copied (List (List N.ExprId)))
      → KeepsCounts accepted all o
      → IsTalliedRun all (finish N (record output { accepted = accepted }) o)
  unfolding finish
  finish-IsTallied accepted all (copied (blocks, st)) kept done e =
      subst (λ (x : Committed N). IsTallied all x.0) (returned-injective e)
        (moved-IsTallied accepted all st.pending _ empty refl kept)
  finish-IsTallied accepted all (aborted what st) kept done e =
      let reset = reset_applied-HasCounts st.pending in
      subst (λ (x : Committed N). IsTallied all x.0) (returned-injective e)
        (moved-IsTallied accepted all (map reset_applied st.pending) _ empty refl
          (omega (arith, reset.0, kept.0), omega (arith, reset.1, kept.1)))
  finish-IsTallied accepted all lost kept done e = cc

  copied-KeepsCounts :
      (accepted all : ℕ) (s : Selection)
      → HasCounts accepted all s.pending
      → KeepsCounts accepted all (copy_function N old s.selected (start N old s output))
  copied-KeepsCounts accepted all s h =
      copy_function-Keeps N s.selected (λ st. HasCounts accepted all st.pending)
        (λ root c found. mark_applied-HasCounts accepted all root) old (start N old s output) h

  apply_selection-IsTallied :
      (all : ℕ) (s : Selection)
      → HasCounts s.accepted all s.pending
      → IsTalliedRun all (apply_selection N old output s)
  apply_selection-IsTallied all s h done e = elim (List-cases s.selected) [
    | inl nothing ↦
        subst (λ (x : Committed N). IsTallied all x.0)
          (returned-injective (sym (nothing_selected N old output s nothing) ∙ e))
          (moved-IsTallied s.accepted all s.pending _ empty refl h)
    | inr (entry, entries, something) ↦
        finish-IsTallied s.accepted all (copy_function N old s.selected (start N old s output))
          (copied-KeepsCounts s.accepted all s h) done
          (sym (something_selected N old output s entry entries something) ∙ e)
  ]

module _ (V : Services) (N : Builder) (L : ServiceLaws V) (limits : AnalysisLimits) where
  transform_collected-IsTallied :
      (old : OldFunction) (found : Candidates V)
      → IsFresh V L limits found
      → (done : Committed N) → transform_collected N old found.1 found.0 ≡ returned done
      → IsTallied (length found.0) done.0
  unfolding transform_collected
  transform_collected-IsTallied old found fresh done e =
      let s = select_candidates old.get_expr [] found.1.accepted found.0 in
      let counted =
        accepted_counted old.get_expr [] 0 found.1.accepted found.0 (omega (arith, fresh.tally)) in
      apply_selection-IsTallied N old found.1 fresh.candidates (length found.0) s
        (omega (arith, counted), select_candidates-length old.get_expr [] found.1.accepted found.0)
        done e

  transform_candidates-IsTallied :
      (context : AnalysisContext) (found : Candidates V)
      → IsFresh V L limits found
      → (done : Committed N) → transform_candidates V N context found ≡ returned done
      → IsTallied (length found.0) done.0
  unfolding transform_candidates
  transform_candidates-IsTallied none found fresh done e =
      subst (λ (x : Committed N). IsTallied (length found.0) x.0) (returned-injective e)
        (moved-IsTallied (count_accepted found.0) (length found.0) found.0 found.1 fresh.candidates
          fresh.tally (refl, refl))
  transform_candidates-IsTallied (some f) found fresh done e =
      transform_collected-IsTallied f.old found fresh done e

  -- Given the documented behaviour of Z3, CoBRA and its verifier: a call of `TransformFunction`
  -- that returns, with or without a commit, has counted in its report exactly the entries that are
  -- accepted at the end, and it has no more entries than roots that may be inspected.
  pub transform_function_counts :
      (context : Option AnalysisContext) (done : Committed N)
      → transform_function V N context limits ≡ returned done
      → (done.0.accepted ≡ accepted_reports done.0.candidates)
        × (length done.0.candidates ≤ limits.max_candidate_roots)
  unfolding transform_function transform_candidates
  transform_function_counts none done e =
      subst
        (λ (x : Committed N).
          (x.0.accepted ≡ accepted_reports x.0.candidates)
          × (length x.0.candidates ≤ limits.max_candidate_roots))
        (returned-injective e) (refl, omega arith)
  transform_function_counts (some context) done e =
      let (found, ran, fresh) = collect_candidates-IsFreshRun V L limits true context in
      let tallied = transform_candidates-IsTallied context found fresh done (rw (ran) at e) in
      (tallied.0, omega (arith, tallied.1, fresh.within))

  uncommitted_candidates :
      (context : AnalysisContext) (found : Candidates V)
      → IsFresh V L limits found
      → (report : FunctionReport) → transform_candidates V N context found ≡ returned (report, none)
      → (report.applied ≡ 0) × All IsUnapplied report.candidates
  unfolding transform_candidates move_reports
  uncommitted_candidates none found fresh report e =
      subst (λ (x : Committed N). (x.0.applied ≡ 0) × All IsUnapplied x.0.candidates)
        (returned-injective e)
        (
          fresh.applied,
          rw fresh.candidates (All-map IsUnapplied (λ c. c.report) found.0 fresh.unapplied),
        )
  uncommitted_candidates (some f) found fresh report e =
      uncommitted-IsUnapplied N f.old found.1 report found.0 fresh.candidates fresh.applied
        (All-map IsUnapplied (λ c. c.report) found.0 fresh.unapplied) e

  -- Given the documented behaviour of Z3, CoBRA and its verifier: a call of `TransformFunction`
  -- that commits no function, because there is no context, no function, no SSA form or nothing to
  -- apply, or because the copy threw, reports nothing as applied.
  pub transform_function_uncommitted :
      (context : Option AnalysisContext) (report : FunctionReport)
      → transform_function V N context limits ≡ returned (report, none)
      → (report.applied ≡ 0) × All IsUnapplied report.candidates
  unfolding transform_function
  transform_function_uncommitted none report e =
      subst (λ (x : Committed N). (x.0.applied ≡ 0) × All IsUnapplied x.0.candidates)
        (returned-injective e) (refl, tt)
  transform_function_uncommitted (some context) report e =
      let (found, ran, fresh) = collect_candidates-IsFreshRun V L limits true context in
      uncommitted_candidates context found fresh report (rw ran at e)
