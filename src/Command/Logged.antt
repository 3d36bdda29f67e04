-- ===== src/Command/Logged.antt =====
-- src/Plugin.cpp, `RunPreviewCommand`: the command logs one line of JSON after the prefix that the
-- protocol names.
use mathlib.Core.Path.{subst}
use co_bra_for_binary_ninja.Prelude.{
  ℕ, ◌≡◌, refl, ap, List, [], ◌∷◌, ◌++◌, map, Option, none, some, Bytes, codes, IsByteString, All,
}
use co_bra_for_binary_ninja.PluginJson.Json.{
  Json, text, number, boolean, array, object, Items, no_items, item, Members, no_members, member,
  Spells,
}
use co_bra_for_binary_ninja.PluginJson.Format.{format_preview_machine_result}
use co_bra_for_binary_ninja.PluginJson.FormatSound.{
  candidate_items, IsTextual, format_preview_machine_result-Spells,
}
use co_bra_for_binary_ninja.Adapter.Types.{CandidateReport, FunctionReport, default_limits}
use co_bra_for_binary_ninja.Adapter.Outcome.{Outcome, returned}
use co_bra_for_binary_ninja.Adapter.Preserves.{returned-injective}
use co_bra_for_binary_ninja.Adapter.Candidates.{NormalFunction, Services}
use co_bra_for_binary_ninja.Adapter.Collect.{preview_function}
use co_bra_for_binary_ninja.Command.{
  log_machine_result, machine_candidate, machine_report, log_report, run_preview_command,
}

-- What the protocol says of a report: the members of an entry, and of the whole.
abbrev pub entry_members : CandidateReport → Members
entry_members c = member (codes "address") (number c.address) (
    member (codes "expression_index") (number c.expression_index) (
      member (codes "before") (text c.before) (
        member (codes "after") (text c.after) (
          member (codes "reason") (text c.reason) (
            member (codes "accepted") (boolean c.accepted)
              (member (codes "applied") (boolean c.applied) no_members))))))

abbrev pub entries : List CandidateReport → Items
entries [] = no_items
entries (c ∷ cs) = item (object (entry_members c)) (entries cs)

abbrev pub report_json : ℕ → FunctionReport → Json
report_json start report = object (
    member (codes "operation") (text (codes "preview")) (
      member (codes "accepted") (number report.accepted) (
        member (codes "applied") (number report.applied) (
          member (codes "diagnostic") (text report.diagnostic) (
            member (codes "function_start") (number start)
              (member (codes "candidates") (array (entries report.candidates)) no_members))))))

-- The texts of an entry are byte strings.
abbrev pub IsTextualReport : CandidateReport → Type 0
IsTextualReport c = IsByteString c.before × IsByteString c.after × IsByteString c.reason

entries-map : (cs : List CandidateReport) → candidate_items (map machine_candidate cs) ≡ entries cs
unfolding machine_candidate
entries-map [] = refl
entries-map (c ∷ cs) = ap (item (object (entry_members c))) (entries-map cs)

IsTextual-map :
    (cs : List CandidateReport) → All IsTextualReport cs → All IsTextual (map machine_candidate cs)
unfolding machine_candidate
IsTextual-map [] h = tt
IsTextual-map (c ∷ cs) h = (h.0, IsTextual-map cs h.1)

report-Spells :
    (start : ℕ) (report : FunctionReport)
    → IsByteString report.diagnostic
    → All IsTextualReport report.candidates
    → Spells
        (report_json start report)
        (format_preview_machine_result (machine_report start report))
        []
unfolding machine_report
report-Spells start report d cs =
    subst
      (λ (is : Items).
        Spells
          (object (
            member (codes "operation") (text (codes "preview")) (
              member (codes "accepted") (number report.accepted) (
                member (codes "applied") (number report.applied) (
                  member (codes "diagnostic") (text report.diagnostic) (
                    member (codes "function_start") (number start)
                      (member (codes "candidates") (array is) no_members)))))))
          (format_preview_machine_result (machine_report start report)) [])
      (entries-map report.candidates)
      (format_preview_machine_result-Spells (machine_report start report) d
        (IsTextual-map report.candidates cs))

-- What a preview of a function has to report, with or without MLIL.
abbrev pub due_report : Services → Option NormalFunction → Outcome FunctionReport
due_report V none = returned (record {
  candidates = [];
  diagnostic = codes "MLIL is unavailable";
  accepted = 0;
  applied = 0;
})
due_report V (some f) = preview_function V (some f) default_limits

-- For a function with or without MLIL the preview command logs one line: the prefix
-- `[SMBA AI JSON]` and exactly one JSON object with the function's start, and with the numbers, the
-- diagnostic and the entries of the report under the names of the protocol, if the texts of the
-- report are byte strings. The report is that of the preview, or says that there is no MLIL.
pub run_preview_command-Spells :
    (V : Services) (start : ℕ) (mlil : Option NormalFunction) (report : FunctionReport)
    → due_report V mlil ≡ returned report
    → IsByteString report.diagnostic
    → All IsTextualReport report.candidates
    → (s : Bytes) × (run_preview_command V (some (record { start = start; mlil = mlil }))
        ≡ returned (some (codes "[SMBA AI JSON]" ++ s)))
      × Spells (report_json start report) s []
unfolding run_preview_command log_report log_machine_result machine_report
run_preview_command-Spells V start none report due d cs =
    let same = returned-injective due in
    (
      format_preview_machine_result (machine_report start report),
      ap
          (λ (r : FunctionReport). returned (
            some
              (codes "[SMBA AI JSON]" ++ format_preview_machine_result (machine_report start r))))
          same,
      report-Spells start report d cs,
    )
run_preview_command-Spells V start (some f) report due d cs = (
  format_preview_machine_result (machine_report start report),
  rw due refl,
  report-Spells start report d cs,
)
