-- ===== src/Adapter/Collect.antt =====
-- src/BNAdapter.cpp: `CollectCandidates` and `PreviewFunction`, over the views of a function that
-- Binary Ninja offers.
use co_bra_for_binary_ninja.Adapter.Candidates.{
  Collected, NormalFunction, Services, count_root, empty_report, is_normal_mlil, sort_candidates,
  sort_indices, stop_at_budget, try_root,
}
use co_bra_for_binary_ninja.Prelude.{
  ℕ, ◌+◌, Bool, true, false, not, ◌||◌, if◌then◌else◌, ltb, leb, ◌==◌, List, [], ◌∷◌, Option, none,
  some, codes,
}
use co_bra_for_binary_ninja.Adapter.Mlil.{operation, size}
use co_bra_for_binary_ninja.Adapter.Types.{FunctionReport, PendingCandidate, AnalysisLimits}
use co_bra_for_binary_ninja.Adapter.Outcome.{Outcome, returned, ◌>>=◌}
use co_bra_for_binary_ninja.Adapter.Roots.{comparison_for_operation, is_recoverable_root}
use co_bra_for_binary_ninja.Adapter.Select.{contains}
use co_bra_for_binary_ninja.Adapter.Transform.{move_reports}
use co_bra_for_binary_ninja.Adapter.Index.{Indexed, index_blocks}
use co_bra_for_binary_ninja.Adapter.Recovery.State.{Ssa}

module _ (V : Services) where
  module _ (limits : AnalysisLimits) (f : NormalFunction) (ssa : Ssa) (indexed : Indexed) where
    -- The two views agree on the root in both directions.
    unfoldable pub views_agree : ℕ → Bool
    views_agree index =
        let ssa_index = f.ssa_expr_index index in
        not (
          leb ssa.expr_count ssa_index
          || (not (ssa.non_ssa_expr_index ssa_index == index)
              || not (f.ssa_expr_index (ssa.non_ssa_expr_index ssa_index) == ssa_index)))

    unfoldable pub is_no_root : ℕ → Bool
    is_no_root index =
        let root = f.old.get_expr index in
        contains indexed.children index
        || (not (is_recoverable_root (operation root)) || (size root == 0 || ltb 8 (size root)))

    -- One round of the loop.
    unfoldable pub inspect : ℕ → Collected → Outcome Collected
    inspect index st =
        if leb f.expr_count index
        then returned st
        else if is_no_root index
        then returned st
        else if ltb limits.max_candidate_roots (st.inspected + 1)
        then returned (stop_at_budget st)
        else if not (views_agree index)
        then returned (count_root st)
        else try_root V limits ssa index (f.old.get_expr index)
            (ssa.get_expr (f.ssa_expr_index index))
            (comparison_for_operation (operation (f.old.get_expr index))) (count_root st)

    unfoldable pub inspect_all : List ℕ → Collected → Outcome Collected
    inspect_all [] st = returned st
    inspect_all (index ∷ rest) st = do
      next ← inspect index st
      elim (next.stopped) [ true ↦ returned next | false ↦ inspect_all rest next ]

  -- The candidates in their order, and the report.
  abbrev pub Candidates : Type 0
  Candidates = List PendingCandidate × FunctionReport

  unfoldable pub collect_from :
      AnalysisLimits → NormalFunction → Ssa → FunctionReport → Outcome Candidates
  collect_from limits f ssa output = do
    let indexed = index_blocks f.old.blocks (record { reachable = []; children = [] })
    st ←
        inspect_all limits f ssa indexed (sort_indices indexed.reachable)
          (record { pending = []; output = output; inspected = 0; stopped = false })
    returned (sort_candidates st.pending, st.output)

  unfoldable pub available_ssa : Bool → NormalFunction → Option Ssa
  available_ssa allow_ssa_construction f = elim (f.ssa_form) [
    | some ssa ↦ some ssa
    | none ↦ if allow_ssa_construction then f.generated_ssa_form else none
  ]

  unfoldable pub collect_normal :
      AnalysisLimits → Bool → NormalFunction → FunctionReport → Outcome Candidates
  collect_normal limits allow_ssa_construction f output =
      elim (available_ssa allow_ssa_construction f) [
        | some ssa ↦ collect_from limits f ssa output
        | none ↦ returned (
          [],
          record output {
            diagnostic =
                if allow_ssa_construction
                then codes "SSA form is unavailable"
                else codes "SSA form is unavailable (preview does not construct it)";
          },
        )
      ]

  abbrev pub not_normal : FunctionReport → Candidates
  not_normal output = ([], record output { diagnostic = codes "normal (non-SSA) MLIL is required" })

  unfoldable pub collect_candidates :
      Option NormalFunction → AnalysisLimits → FunctionReport → Bool → Outcome Candidates
  collect_candidates none limits output allow_ssa_construction = returned (not_normal output)
  collect_candidates (some f) limits output allow_ssa_construction =
      let found = collect_normal limits allow_ssa_construction f output in
      if is_normal_mlil (some f) then found else returned (not_normal output)

  unfoldable pub preview_function : Option NormalFunction → AnalysisLimits → Outcome FunctionReport
  preview_function f limits = do
    found ← collect_candidates f limits empty_report false
    returned (move_reports found.0 found.1)
