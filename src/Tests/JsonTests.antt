-- ===== src/Tests/JsonTests.antt =====
-- The theorems about src/PluginJson.cpp at concrete inputs.
use co_bra_for_binary_ninja.Prelude.{
  ◌≡◌, ◌↔◌, refl, arith, true, false, [], ◌∷◌, none, Bytes, codes,
}
use co_bra_for_binary_ninja.PluginJson.Escape.{valid_utf8_length, escape_json_string}
use co_bra_for_binary_ninja.PluginJson.Utf8.{IsEncoded, valid_utf8_length_exact}
use co_bra_for_binary_ninja.PluginJson.Grammar.{Denotes}
use co_bra_for_binary_ninja.PluginJson.EscapeSound.{Repairs, escape_json_string-Denotes}
use co_bra_for_binary_ninja.PluginJson.Json.{Spells}
use co_bra_for_binary_ninja.PluginJson.Format.{
  PreviewMachineResult, append_quoted, append_boolean, append_unsigned, append_candidates,
  append_reason, append_optional, format_preview_machine_result, format_registration_machine_result,
}
use co_bra_for_binary_ninja.PluginJson.FormatSound.{
  preview_json, format_preview_machine_result-Spells, registration_json,
  format_registration_machine_result-Spells,
}
use co_bra_for_binary_ninja.Workflow.Register.{refused, RegistrationMachineResult}
use co_bra_for_binary_ninja.Decimal.{digits, to_string}
use co_bra_for_binary_ninja.PluginJson.Escape.{escape_loop, escape_round}

-- An accented letter, a stray byte, a quotation mark and a control character.
abbrev mixed : Bytes
mixed = 0xc3 ∷ 0xa9 ∷ 0xff ∷ b'"' ∷ 1 ∷ []

valid_utf8_length_exact_example : (valid_utf8_length mixed ≡ 2) ↔ IsEncoded mixed 2
valid_utf8_length_exact_example =
    valid_utf8_length_exact 0xc3 (0xa9 ∷ 0xff ∷ b'"' ∷ 1 ∷ []) 2 (omega arith) (omega arith)

escape_json_string-Denotes_example :
    (t : Bytes) × Repairs mixed t × Denotes (escape_json_string mixed) t
escape_json_string-Denotes_example = escape_json_string-Denotes mixed (omega arith)

-- A report with one candidate whose text has a malformed byte.
abbrev previewed : PreviewMachineResult
previewed = record {
  accepted = 1;
  applied = 0;
  diagnostic = [];
  function_start = 4096;
  candidates =
      record {
        address = 4112;
        expression_index = 3;
        before = mixed;
        after = codes "x";
        reason = [];
        accepted = true;
        applied = false;
      }
      ∷ [];
}

run_preview :
    format_preview_machine_result (record previewed { candidates = [] })
    ≡ codes
        "{\"operation\":\"preview\",\"accepted\":1,\"applied\":0,\"diagnostic\":\"\",\"function_start\":4096,\"candidates\":[]}"
unfolding format_preview_machine_result append_quoted append_unsigned append_candidates
    escape_json_string escape_loop to_string digits
run_preview = refl

format_preview_machine_result-Spells_example :
    Spells (preview_json previewed) (format_preview_machine_result previewed) []
format_preview_machine_result-Spells_example =
    format_preview_machine_result-Spells previewed tt ((omega arith, omega arith, tt), tt)

-- A refusal without a reason, which is written with an empty one.
abbrev registered : RegistrationMachineResult
registered = record {
  accepted = false;
  action = refused;
  function_start = 7;
  workflow_before = codes "w";
  workflow_after = none;
  target = [];
  activity = codes "m";
  reason = none;
}

run_registration :
    format_registration_machine_result registered
    ≡ codes
        "{\"operation\":\"register_workflow\",\"accepted\":false,\"action\":\"refused\",\"function_start\":7,\"workflow_before\":\"w\",\"workflow_after\":null,\"target\":\"\",\"activity\":\"m\",\"reason\":\"\"}"
unfolding format_registration_machine_result append_quoted append_boolean append_unsigned
    append_optional append_reason escape_json_string escape_loop escape_round to_string digits
run_registration = refl

format_registration_machine_result-Spells_example :
    Spells (registration_json registered) (format_registration_machine_result registered) []
format_registration_machine_result-Spells_example =
    format_registration_machine_result-Spells registered (omega arith, tt, tt, omega arith, tt)
