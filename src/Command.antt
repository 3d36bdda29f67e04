-- ===== src/Command.antt =====
-- src/Plugin.cpp: `LogMachineResult`, `LogReport`, `RunPreviewCommand`, and the line that
-- `RegisterOrRefreshWorkflow` logs. A call's result is the machine-readable line that it logs, if it
-- logs one; the lines for people are left out. `%s` writes the whole of a record, which has no NUL.
pub mod Logged
pub mod Registration
use co_bra_for_binary_ninja.Prelude.{ℕ, [], ◌++◌, map, Option, none, some, Bytes, codes}
use co_bra_for_binary_ninja.PluginJson.Format.{
  MachineCandidateReport, PreviewMachineResult, format_preview_machine_result,
  format_registration_machine_result,
}
use co_bra_for_binary_ninja.Workflow.Host.{Host}
use co_bra_for_binary_ninja.Workflow.Activity.{World}
use co_bra_for_binary_ninja.Workflow.Register.{
  RegistrationMachineResult, register_or_refresh_workflow,
}
use co_bra_for_binary_ninja.Adapter.Types.{CandidateReport, FunctionReport, default_limits}
use co_bra_for_binary_ninja.Adapter.Outcome.{Outcome, returned, ◌>>=◌}
use co_bra_for_binary_ninja.Adapter.Candidates.{NormalFunction, Services}
use co_bra_for_binary_ninja.Adapter.Collect.{preview_function}

abbrev pub k_machine_result_log_prefix : Bytes
k_machine_result_log_prefix = codes "[SMBA AI JSON]"

unfoldable pub log_machine_result : Bytes → Bytes
log_machine_result result = k_machine_result_log_prefix ++ result

unfoldable pub log_registration_result : RegistrationMachineResult → Bytes
log_registration_result result = log_machine_result (format_registration_machine_result result)

unfoldable pub machine_candidate : CandidateReport → MachineCandidateReport
machine_candidate candidate = record {
  address = candidate.address;
  expression_index = candidate.expression_index;
  before = candidate.before;
  after = candidate.after;
  reason = candidate.reason;
  accepted = candidate.accepted;
  applied = candidate.applied;
}

unfoldable pub machine_report : ℕ → FunctionReport → PreviewMachineResult
machine_report function_start report = record {
  accepted = report.accepted;
  applied = report.applied;
  diagnostic = report.diagnostic;
  function_start = function_start;
  candidates = map machine_candidate report.candidates;
}

unfoldable pub log_report : ℕ → FunctionReport → Bytes
log_report function_start report =
    log_machine_result (format_preview_machine_result (machine_report function_start report))

-- The record of a function without MLIL.
abbrev pub no_mlil : ℕ → PreviewMachineResult
no_mlil function_start = record {
  accepted = 0;
  applied = 0;
  diagnostic = codes "MLIL is unavailable";
  function_start = function_start;
  candidates = [];
}

-- A function of the database: where it starts, and what `GetMediumLevelIL` returns.
pub record Function : Type 0 where
  pub start : ℕ
  pub mlil : Option NormalFunction

module _ (V : Services) where
  unfoldable pub run_preview_command : Option Function → Outcome (Option Bytes)
  run_preview_command none = returned none
  run_preview_command (some function) = elim (function.mlil) [
    | none ↦
        returned
          (some (log_machine_result (format_preview_machine_result (no_mlil function.start))))
    | some f ↦ preview_function V (some f) default_limits >>= λ report.
        returned (some (log_report function.start report))
  ]

-- `RegisterOrRefreshWorkflow` from the null function on. Each of its other paths ends with
-- `LogRegistrationResult` of the record that register_or_refresh_workflow returns.
module _ (H : Host) where
  unfoldable pub run_register_command :
      Option (ℕ × Option H.Workflow) → World H → Option Bytes × World H
  run_register_command none w = (none, w)
  run_register_command (some (start, current)) w =
      let done = register_or_refresh_workflow H start current w in
      (some (log_registration_result done.0), done.1)
