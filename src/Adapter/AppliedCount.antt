-- ===== src/Adapter/AppliedCount.antt =====
-- src/BNAdapter.cpp, `TransformFunction`: `output.applied`, which `RunMBAActivity` logs, is the number
-- of candidates that are reported as applied.
use mathlib.Core.Path.{subst}
use co_bra_for_binary_ninja.Prelude.{
  ℕ, ◌+◌, ◌≡◌, refl, sym, ap, ◌∙◌, arith, true, if◌then◌else◌, Bool-cases, inl, inr, List, [], ◌∷◌,
  map, some, All,
}
use co_bra_for_binary_ninja.Adapter.Mlil.{expr_index}
use co_bra_for_binary_ninja.Adapter.Types.{
  CandidateReport, FunctionReport, PendingCandidate, AnalysisLimits,
}
use co_bra_for_binary_ninja.Adapter.Outcome.{returned}
use co_bra_for_binary_ninja.Adapter.BuildMlil.{Builder}
use co_bra_for_binary_ninja.Adapter.Select.{
  contains, Selection, select_candidates, accepted_entries,
}
use co_bra_for_binary_ninja.Adapter.Selected.{selected_entries, selected-IsDisjoint, IsDisjoint}
use co_bra_for_binary_ninja.Adapter.Copy.{copied, CopyState, find_selected, mark_applied}
use co_bra_for_binary_ninja.Adapter.CopyInvariant.{Keeps, copy_function-Keeps}
use co_bra_for_binary_ninja.Adapter.Transform.{
  move_reports, OldFunction, copy_function, apply_selection, transform_collected,
}
use co_bra_for_binary_ninja.Adapter.Commit.{
  IsUnapplied, List-cases, start, nothing_selected, something_selected, finish-some,
  selected-IsUnapplied,
}
use co_bra_for_binary_ninja.Adapter.Candidates.{NormalFunction, Services}
use co_bra_for_binary_ninja.Adapter.Collect.{Candidates}
use co_bra_for_binary_ninja.Adapter.Collected.{ServiceLaws}
use co_bra_for_binary_ninja.Adapter.Authorized.{All-map}
use co_bra_for_binary_ninja.Adapter.Fresh.{IsFresh, collect_candidates-IsFreshRun}
use co_bra_for_binary_ninja.Adapter.Entry.{transform_candidates, transform_function}
use co_bra_for_binary_ninja.Adapter.AppliedRoots.{
  occurrences, found_once, count_applied, IsAppliedIn, set_applied-occurrences, set_applied-count,
  set_applied-IsAppliedIn,
}

-- The reports of applied candidates.
abbrev pub applied_reports : List CandidateReport → ℕ
applied_reports [] = 0
applied_reports (r ∷ rs) = if r.applied then applied_reports rs + 1 else applied_reports rs

applied_reports-map :
    (cs : List PendingCandidate) → applied_reports (map (λ c. c.report) cs) ≡ count_applied cs
unfolding count_applied
applied_reports-map [] = refl
applied_reports-map (c ∷ cs) = ground (arith, applied_reports-map cs)

unapplied-count :
    (cs : List PendingCandidate) → All IsUnapplied (map (λ c. c.report) cs) → count_applied cs ≡ 0
unfolding count_applied
unapplied-count [] h = refl
unapplied-count (c ∷ cs) h = ground (arith, unapplied-count cs h.1, h.0)

unapplied-IsAppliedIn :
    (cs : List PendingCandidate)
    → All IsUnapplied (map (λ c. c.report) cs)
    → All (IsAppliedIn []) cs
unapplied-IsAppliedIn [] h = tt
unapplied-IsAppliedIn (c ∷ cs) h = (λ applied. cc (h.0, applied), unapplied-IsAppliedIn cs h.1)

module _ (selected : List (ℕ × PendingCandidate)) where
  -- The state of the copy: what is counted is what is applied, the roots of applied candidates
  -- are remembered, and the accepted candidates are those that were selected.
  record IsCounted (st : CopyState) : Type 0 where
    count : st.applied ≡ count_applied st.pending
    roots : All (IsAppliedIn st.applied_roots) st.pending
    entries : (i : ℕ) → occurrences i (accepted_entries st.pending) ≡ occurrences i selected

  mark_applied-IsCounted :
      (root : ℕ) (st : CopyState)
      → occurrences root selected ≡ 1
      → IsCounted st
      → IsCounted (mark_applied root st)
  unfolding mark_applied
  mark_applied-IsCounted root st once h = elim (Bool-cases (contains st.applied_roots root)) [
    | inl before ↦ rw before h
    | inr new ↦ rw new (record {
      count = omega (
        arith,
        h.count,
        set_applied-count root st.applied_roots st.pending new h.roots,
        h.entries root,
        once,
      );
      roots = set_applied-IsAppliedIn root st.applied_roots st.pending h.roots;
      entries = λ i. set_applied-occurrences root i st.pending ∙ h.entries i;
    })
  ]

module _ (N : Builder) (old : OldFunction) where
  moved_applied :
      (cs : List PendingCandidate) (output : FunctionReport)
      → output.candidates ≡ []
      → output.applied ≡ count_applied cs
      → (move_reports cs output).applied ≡ applied_reports (move_reports cs output).candidates
  unfolding move_reports
  moved_applied cs output empty counted = rw empty (counted ∙ sym (applied_reports-map cs))

  module _ (output : FunctionReport) (s : Selection) (empty : output.candidates ≡ [])
      (indexed : (i : ℕ) → expr_index (old.get_expr i) ≡ i)
      (disjoint : IsDisjoint old.get_expr [] s.selected)
      (counted : IsCounted s.selected (start N old s output)) where
    marked :
        (root : ℕ) (c : PendingCandidate)
        → find_selected root s.selected ≡ some c
        → (st : CopyState) → IsCounted s.selected st
        → IsCounted s.selected (mark_applied root st)
    marked root c found st h =
        mark_applied-IsCounted s.selected root st
          (found_once old.get_expr indexed root [] s.selected c disjoint found) h

    copied-IsCounted :
        (blocks : List (List N.ExprId)) (st : CopyState)
        → copy_function N old s.selected (start N old s output) ≡ copied (blocks, st)
        → IsCounted s.selected st
    copied-IsCounted blocks st ran = subst (Keeps N s.selected (IsCounted s.selected) marked) ran (
        copy_function-Keeps N s.selected (IsCounted s.selected) marked old (start N old s output)
          counted)

    selection_applied :
        (report : FunctionReport) (blocks : List (List N.ExprId))
        → apply_selection N old output s ≡ returned (report, some blocks)
        → report.applied ≡ applied_reports report.candidates
    selection_applied report blocks e = elim (List-cases s.selected) [
      | inl nothing ↦ cc (nothing_selected N old output s nothing, e)
      | inr (entry, entries, something) ↦
          let (st, ran, made) =
            finish-some N old (record output { accepted = s.accepted }) report _ blocks
              (sym (something_selected N old output s entry entries something) ∙ e) in
          subst (λ (r : FunctionReport). r.applied ≡ applied_reports r.candidates) made
            (moved_applied st.pending _ empty (copied-IsCounted blocks st ran).count)
    ]

module _ (V : Services) (N : Builder) (L : ServiceLaws V) (limits : AnalysisLimits) where
  collected_applied :
      (old : OldFunction) (found : Candidates V) (report : FunctionReport)
      (blocks : List (List N.ExprId))
      → ((i : ℕ) → expr_index (old.get_expr i) ≡ i)
      → IsFresh V L limits found
      → transform_collected N old found.1 found.0 ≡ returned (report, some blocks)
      → report.applied ≡ applied_reports report.candidates
  unfolding transform_collected
  collected_applied old found report blocks indexed fresh e =
      let s = select_candidates old.get_expr [] found.1.accepted found.0 in
      let unapplied =
        selected-IsUnapplied N old [] found.1.accepted found.0
          (All-map IsUnapplied (λ c. c.report) found.0 fresh.unapplied) in
      selection_applied N old found.1 s fresh.candidates indexed
        (selected-IsDisjoint old.get_expr [] found.1.accepted found.0)
        (record {
          count = fresh.applied ∙ sym (unapplied-count s.pending unapplied);
          roots = unapplied-IsAppliedIn s.pending unapplied;
          entries = λ i.
              ap (occurrences i) (sym (selected_entries old.get_expr [] found.1.accepted found.0));
        })
        report blocks e

  -- Given the documented behaviour of Z3, CoBRA and its verifier, and that `GetExpr` returns the
  -- expression of the index that it is asked for: where `TransformFunction` commits a function, the
  -- number of applied candidates in its report is that of the entries that are reported as applied,
  -- however often the copy meets their roots.
  pub transform_function_applied :
      (f : NormalFunction) (report : FunctionReport) (blocks : List (List N.ExprId))
      → ((i : ℕ) → expr_index (f.old.get_expr i) ≡ i)
      → transform_function V N (some (some f)) limits ≡ returned (report, some blocks)
      → report.applied ≡ applied_reports report.candidates
  unfolding transform_function transform_candidates
  transform_function_applied f report blocks indexed e =
      let (found, ran, fresh) = collect_candidates-IsFreshRun V L limits true (some f) in
      collected_applied f.old found report blocks indexed fresh (rw ran at e)
