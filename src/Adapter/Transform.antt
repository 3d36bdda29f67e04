-- ===== src/Adapter/Transform.antt =====
-- src/BNAdapter.cpp: `MoveReports`, and `TransformFunction` from the collected candidates on.
use co_bra_for_binary_ninja.Prelude.{ℕ, false, List, [], ◌∷◌, ◌++◌, Option, none, some, map, codes}
use co_bra_for_binary_ninja.Adapter.Mlil.{Mlil}
use co_bra_for_binary_ninja.Adapter.Types.{FunctionReport, PendingCandidate}
use co_bra_for_binary_ninja.Adapter.Outcome.{Outcome, returned, undefined}
use co_bra_for_binary_ninja.Adapter.BuildMlil.{Builder}
use co_bra_for_binary_ninja.Adapter.Select.{Selection, select_candidates}
use co_bra_for_binary_ninja.Adapter.Copy.{
  CopyState, Copied, copied, aborted, lost, ◌>>=◌, lift, copy_blocks,
}

unfoldable pub move_reports : List PendingCandidate → FunctionReport → FunctionReport
move_reports pending output = record output {
  candidates = output.candidates ++ map (λ c. c.report) pending;
}

-- `candidate.report.applied = false`
unfoldable pub reset_applied : PendingCandidate → PendingCandidate
reset_applied c = record c { report = record c.report { applied = false } }

-- The old function: its expressions by index, and its blocks.
pub record OldFunction : Type 0 where
  pub get_expr : ℕ → Mlil
  pub blocks : List (List Mlil)

module _ (N : Builder) where
  -- The body of the `try`.
  unfoldable pub copy_function :
      OldFunction → List (ℕ × PendingCandidate) → CopyState → Copied (List (List N.ExprId))
  copy_function old selected st = do
    blocks ← copy_blocks N selected old.blocks st
    finalized ← lift (N.finalize blocks.0) blocks.1
    copied blocks

  -- The report, and the function handed to `SetMediumLevelILFunction`, if any.
  abbrev pub Committed : Type 0
  Committed = FunctionReport × Option (List (List N.ExprId))

  -- What follows the copy: the commit, or the `catch`, which takes back what the copy has marked
  -- and counted up to the exception.
  unfoldable pub finish : FunctionReport → Copied (List (List N.ExprId)) → Outcome Committed
  finish output (copied (blocks, st)) =
      returned (move_reports st.pending (record output { applied = st.applied }), some blocks)
  finish output (aborted what st) = returned (
    move_reports (map reset_applied st.pending)
        (record output { applied = 0; diagnostic = codes "copy transformation failed: " ++ what }),
    none,
  )
  finish output lost = undefined

  unfoldable pub apply_selection : OldFunction → FunctionReport → Selection → Outcome Committed
  apply_selection old output s = elim (s.selected) [
    | [] ↦ returned (move_reports s.pending (record output { accepted = s.accepted }), none)
    | entry ∷ entries ↦
        finish (record output { accepted = s.accepted })
          (copy_function old s.selected
            (record { pending = s.pending; applied_roots = []; applied = output.applied }))
  ]

  -- `TransformFunction` from the collected candidates on.
  unfoldable pub transform_collected :
      OldFunction → FunctionReport → List PendingCandidate → Outcome Committed
  transform_collected old output pending =
      apply_selection old output (select_candidates old.get_expr [] output.accepted pending)
