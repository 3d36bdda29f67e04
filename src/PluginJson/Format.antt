-- ===== src/PluginJson/Format.antt =====
-- src/PluginJson.cpp: `AppendQuoted`, `AppendBoolean`, `AppendUnsigned`,
-- `FormatPreviewMachineResult` and `FormatRegistrationMachineResult`. `rest` is what the calls that
-- follow append.
use co_bra_for_binary_ninja.Prelude.{
  ℕ, Bool, true, false, ◌||◌, if◌then◌else◌, List, [], ◌∷◌, ◌++◌, Option, none, some, Bytes, codes,
}
use co_bra_for_binary_ninja.Decimal.{to_string}
use co_bra_for_binary_ninja.PluginJson.Escape.{escape_json_string}
use co_bra_for_binary_ninja.Workflow.Register.{
  RegistrationAction, created, refreshed, refused, RegistrationMachineResult,
}

pub record MachineCandidateReport : Type 0 where
  pub address : ℕ
  pub expression_index : ℕ
  pub before : Bytes
  pub after : Bytes
  pub reason : Bytes
  pub accepted : Bool
  pub applied : Bool

pub record PreviewMachineResult : Type 0 where
  pub accepted : ℕ
  pub applied : ℕ
  pub diagnostic : Bytes
  pub function_start : ℕ
  pub candidates : List MachineCandidateReport

unfoldable pub append_quoted : Bytes → Bytes → Bytes
append_quoted value rest = b'"' ∷ (escape_json_string value ++ (b'"' ∷ rest))

unfoldable pub append_boolean : Bool → Bytes → Bytes
append_boolean value rest = (if value then codes "true" else codes "false") ++ rest

unfoldable pub append_unsigned : ℕ → Bytes → Bytes
append_unsigned value rest = to_string value ++ rest

-- The object of one candidate.
unfoldable pub append_candidate : MachineCandidateReport → Bytes → Bytes
append_candidate candidate rest =
    codes "{\"address\":"
    ++ append_unsigned candidate.address (
        codes ",\"expression_index\":"
        ++ append_unsigned candidate.expression_index (
            codes ",\"before\":"
            ++ append_quoted candidate.before (
                codes ",\"after\":"
                ++ append_quoted candidate.after (
                    codes ",\"reason\":"
                    ++ append_quoted candidate.reason (
                        codes ",\"accepted\":"
                        ++ append_boolean candidate.accepted (
                            codes ",\"applied\":"
                            ++ append_boolean candidate.applied (codes "}" ++ rest)))))))

-- The rounds of the loop after the first one, which writes no comma.
unfoldable pub append_more : List MachineCandidateReport → Bytes → Bytes
append_more [] rest = rest
append_more (candidate ∷ candidates) rest =
    codes "," ++ append_candidate candidate (append_more candidates rest)

unfoldable pub append_candidates : List MachineCandidateReport → Bytes → Bytes
append_candidates [] rest = rest
append_candidates (candidate ∷ candidates) rest =
    append_candidate candidate (append_more candidates rest)

unfoldable pub format_preview_machine_result : PreviewMachineResult → Bytes
format_preview_machine_result result =
    codes "{\"operation\":\"preview\",\"accepted\":"
    ++ append_unsigned result.accepted (
        codes ",\"applied\":"
        ++ append_unsigned result.applied (
            codes ",\"diagnostic\":"
            ++ append_quoted result.diagnostic (
                codes ",\"function_start\":"
                ++ append_unsigned result.function_start (
                    codes ",\"candidates\":["
                    ++ append_candidates result.candidates (codes "]}")))))

-- The three texts of `action`.
abbrev pub action_text : RegistrationAction → Bytes
action_text created = codes "created"
action_text refreshed = codes "refreshed"
action_text refused = codes "refused"

abbrev pub is_refused : RegistrationAction → Bool
is_refused refused = true
is_refused _ = false

abbrev pub has_value : Option Bytes → Bool
has_value none = false
has_value (some v) = true

abbrev pub value_or_empty : Option Bytes → Bytes
value_or_empty none = []
value_or_empty (some v) = v

unfoldable pub append_optional : Option Bytes → Bytes → Bytes
append_optional none rest = codes "null" ++ rest
append_optional (some value) rest = append_quoted value rest

unfoldable pub append_reason : RegistrationMachineResult → Bytes → Bytes
append_reason result rest =
    if has_value result.reason || is_refused result.action
    then codes ",\"reason\":" ++ append_quoted (value_or_empty result.reason) rest
    else rest

unfoldable pub format_registration_machine_result : RegistrationMachineResult → Bytes
format_registration_machine_result result =
    codes "{\"operation\":\"register_workflow\",\"accepted\":"
    ++ append_boolean result.accepted (
        codes ",\"action\":"
        ++ append_quoted (action_text result.action) (
            codes ",\"function_start\":"
            ++ append_unsigned result.function_start (
                codes ",\"workflow_before\":"
                ++ append_quoted result.workflow_before (
                    codes ",\"workflow_after\":"
                    ++ append_optional result.workflow_after (
                        codes ",\"target\":"
                        ++ append_quoted result.target (
                            codes ",\"activity\":"
                            ++ append_quoted result.activity
                                (append_reason result (codes "}"))))))))
