-- ===== src/Adapter/Entry.antt =====
-- src/BNAdapter.cpp: `TransformFunction` and `RunMBAActivity`.
use co_bra_for_binary_ninja.Prelude.{ℕ, true, Option, none, some, List, if◌then◌else◌, ◌==◌, codes}
use co_bra_for_binary_ninja.Adapter.Types.{AnalysisLimits, default_limits}
use co_bra_for_binary_ninja.Adapter.Outcome.{Outcome, returned, ◌>>=◌}
use co_bra_for_binary_ninja.Adapter.BuildMlil.{Builder}
use co_bra_for_binary_ninja.Adapter.Transform.{move_reports, transform_collected, Committed}
use co_bra_for_binary_ninja.Adapter.Candidates.{NormalFunction, Services, empty_report}
use co_bra_for_binary_ninja.Adapter.Collect.{collect_candidates, Candidates}

-- An analysis context, by the function that it gives. A null reference is `none`.
abbrev pub AnalysisContext : Type 0
AnalysisContext = Option NormalFunction

-- What a run of the activity leaves behind: the function that it commits, and the number that it
-- logs.
pub record ActivityRun (N : Builder) : Type 0 where
  pub committed : Option (List (List N.ExprId))
  pub logged : Option ℕ

module _ (V : Services) (N : Builder) where
  -- Without a function there are no candidates, and nothing is selected.
  unfoldable pub transform_candidates : Option NormalFunction → Candidates V → Outcome (Committed N)
  transform_candidates none found = returned (move_reports found.0 found.1, none)
  transform_candidates (some f) found = transform_collected N f.old found.1 found.0

  unfoldable pub transform_function :
      Option AnalysisContext → AnalysisLimits → Outcome (Committed N)
  transform_function none limits =
      returned (record empty_report { diagnostic = codes "analysis context is unavailable" }, none)
  transform_function (some context) limits = do
    found ← collect_candidates V context limits empty_report true
    transform_candidates context found

  unfoldable pub run_mba_activity : Option AnalysisContext → Outcome (ActivityRun N)
  run_mba_activity none = returned (record { committed = none; logged = none })
  run_mba_activity (some none) = returned (record { committed = none; logged = none })
  run_mba_activity (some (some f)) = do
    done ← transform_function (some (some f)) default_limits
    returned (record {
      committed = done.1;
      logged = if done.0.applied == 0 then none else some done.0.applied;
    })
