-- ===== src/PluginJson/FormatSound.antt =====
-- src/PluginJson.cpp: the two records are JSON, and carry their fields under the names that the
-- protocol gives them.
use co_bra_for_binary_ninja.Prelude.{
  refl, arith, ◌||◌, if◌then◌else◌, Bool-cases, inl, inr, List, [], ◌∷◌, ◌++◌, Option, none, some,
  Bytes, codes, IsByteString, All,
}
use co_bra_for_binary_ninja.PluginJson.Json.{
  Json, text, number, boolean, null, array, object, Items, no_items, item, Members, no_members,
  member, Spells, null_spelled, array_spelled, object_spelled, SpellsItems, empty_array, last_item,
  next_item, SpellsMembers, last_member, next_member,
}
use co_bra_for_binary_ninja.PluginJson.Spelled.{key, quoted, unsigned, flag}
use co_bra_for_binary_ninja.PluginJson.Format.{
  MachineCandidateReport, PreviewMachineResult, append_quoted, append_candidate, append_more,
  append_candidates, format_preview_machine_result, action_text, is_refused, has_value,
  value_or_empty, append_optional, append_reason, format_registration_machine_result,
}
use co_bra_for_binary_ninja.Workflow.Register.{
  RegistrationAction, created, refreshed, refused, RegistrationMachineResult,
}

-- The fields of a candidate, in their order.
abbrev pub candidate_members : MachineCandidateReport → Members
candidate_members c = member (codes "address") (number c.address) (
    member (codes "expression_index") (number c.expression_index) (
      member (codes "before") (text c.before) (
        member (codes "after") (text c.after) (
          member (codes "reason") (text c.reason) (
            member (codes "accepted") (boolean c.accepted)
              (member (codes "applied") (boolean c.applied) no_members))))))

abbrev pub candidate_items : List MachineCandidateReport → Items
candidate_items [] = no_items
candidate_items (c ∷ cs) = item (object (candidate_members c)) (candidate_items cs)

abbrev pub preview_json : PreviewMachineResult → Json
preview_json r = object (
    member (codes "operation") (text (codes "preview")) (
      member (codes "accepted") (number r.accepted) (
        member (codes "applied") (number r.applied) (
          member (codes "diagnostic") (text r.diagnostic) (
            member (codes "function_start") (number r.function_start)
              (member (codes "candidates") (array (candidate_items r.candidates)) no_members))))))

-- The texts of a candidate are byte strings.
abbrev pub IsTextual : MachineCandidateReport → Type 0
IsTextual c = IsByteString c.before × IsByteString c.after × IsByteString c.reason

candidate-Spells :
    (c : MachineCandidateReport) (r : Bytes)
    → IsTextual c
    → Spells (object (candidate_members c)) (append_candidate c r) r
unfolding append_candidate
candidate-Spells c r h = object_spelled _ _ _ (
    next_member _ _ _ _ _ _ _ _ _ (key (codes "address") _ refl) (unsigned c.address _) (
      next_member _ _ _ _ _ _ _ _ _ (key (codes "expression_index") _ refl)
        (unsigned c.expression_index _)
        (next_member _ _ _ _ _ _ _ _ _ (key (codes "before") _ refl) (quoted c.before _ h.0) (
          next_member _ _ _ _ _ _ _ _ _ (key (codes "after") _ refl) (quoted c.after _ h.1) (
            next_member _ _ _ _ _ _ _ _ _ (key (codes "reason") _ refl) (quoted c.reason _ h.2) (
              next_member _ _ _ _ _ _ _ _ _ (key (codes "accepted") _ refl) (flag c.accepted _)
                (last_member _ _ _ _ _ (key (codes "applied") _ refl) (flag c.applied _))))))))

module _ (r : Bytes) where
  items-Spells :
      (c : MachineCandidateReport) (cs : List MachineCandidateReport)
      → IsTextual c
      → All IsTextual cs
      → SpellsItems (candidate_items (c ∷ cs)) (append_candidate c (append_more cs (b']' ∷ r))) r
  unfolding append_more
  items-Spells c [] h hs = last_item _ _ _ (candidate-Spells c _ h)
  items-Spells c (d ∷ cs) h hs =
      next_item _ _ _ _ _ _ (candidate-Spells c _ h) (items-Spells d cs hs.0 hs.1)

  candidates-Spells :
      (cs : List MachineCandidateReport)
      → All IsTextual cs
      → Spells (array (candidate_items cs)) (b'[' ∷ append_candidates cs (b']' ∷ r)) r
  unfolding append_candidates
  candidates-Spells [] hs = array_spelled _ _ _ (empty_array r)
  candidates-Spells (c ∷ cs) hs = array_spelled _ _ _ (items-Spells c cs hs.0 hs.1)

-- What `FormatPreviewMachineResult` writes is exactly one JSON object, with the fields of the
-- record under the names of the protocol, when the texts are byte strings.
pub format_preview_machine_result-Spells :
    (result : PreviewMachineResult)
    → IsByteString result.diagnostic
    → All IsTextual result.candidates
    → Spells (preview_json result) (format_preview_machine_result result) []
unfolding format_preview_machine_result
format_preview_machine_result-Spells result d cs = object_spelled _ _ _ (
    next_member _ _ _ _ _ _ _ _ _ (key (codes "operation") _ refl) (key (codes "preview") _ refl) (
      next_member _ _ _ _ _ _ _ _ _ (key (codes "accepted") _ refl) (unsigned result.accepted _) (
        next_member _ _ _ _ _ _ _ _ _ (key (codes "applied") _ refl) (unsigned result.applied _) (
          next_member _ _ _ _ _ _ _ _ _ (key (codes "diagnostic") _ refl)
            (quoted result.diagnostic _ d)
            (next_member _ _ _ _ _ _ _ _ _ (key (codes "function_start") _ refl)
              (unsigned result.function_start _)
              (last_member _ _ _ _ _ (key (codes "candidates") _ refl)
                (candidates-Spells (b'}' ∷ []) result.candidates cs)))))))

-- The reason is a member of the record where there is one, and of every refusal.
abbrev pub reason_members : RegistrationMachineResult → Members
reason_members r =
    if has_value r.reason || is_refused r.action
    then member (codes "reason") (text (value_or_empty r.reason)) no_members
    else no_members

abbrev pub optional_json : Option Bytes → Json
optional_json none = null
optional_json (some v) = text v

abbrev pub registration_json : RegistrationMachineResult → Json
registration_json r = object (
    member (codes "operation") (text (codes "register_workflow")) (
      member (codes "accepted") (boolean r.accepted) (
        member (codes "action") (text (action_text r.action)) (
          member (codes "function_start") (number r.function_start) (
            member (codes "workflow_before") (text r.workflow_before) (
              member (codes "workflow_after") (optional_json r.workflow_after) (
                member (codes "target") (text r.target)
                  (member (codes "activity") (text r.activity) (reason_members r)))))))))

-- An optional text is a byte string, if there is one.
abbrev pub IsOptionalByteString : Option Bytes → Type 0
IsOptionalByteString none = Unit
IsOptionalByteString (some v) = IsByteString v

abbrev pub IsTextualRecord : RegistrationMachineResult → Type 0
IsTextualRecord r =
    IsByteString r.workflow_before
    × IsOptionalByteString r.workflow_after
    × IsByteString r.target
    × IsByteString r.activity
    × IsOptionalByteString r.reason

action_textual : (a : RegistrationAction) → IsByteString (action_text a)
action_textual created = omega arith
action_textual refreshed = omega arith
action_textual refused = omega arith

optional_textual : (v : Option Bytes) → IsOptionalByteString v → IsByteString (value_or_empty v)
optional_textual none h = tt
optional_textual (some v) h = h

optional :
    (v : Option Bytes) (r : Bytes)
    → IsOptionalByteString v
    → Spells (optional_json v) (append_optional v r) r
unfolding append_optional
optional none r h = null_spelled r
optional (some v) r h = quoted v r h

-- The end of the record, from the activity on.
tail-Spells :
    (result : RegistrationMachineResult)
    → IsByteString (value_or_empty result.reason)
    → ((r : Bytes) → Spells (text result.activity) (append_quoted result.activity r) r)
    → SpellsMembers
        (member (codes "activity") (text result.activity) (reason_members result))
        (codes "\"activity\":" ++ append_quoted result.activity (append_reason result (codes "}")))
        []
unfolding append_reason
tail-Spells result h activity =
    elim (Bool-cases (has_value result.reason || is_refused result.action)) [
      | inl present ↦ rw present (
          next_member _ _ _ _ _ _ _ _ _ (key (codes "activity") _ refl) (activity _)
            (last_member _ _ _ _ _ (key (codes "reason") _ refl) (quoted _ _ h)))
      | inr absent ↦ rw absent (last_member _ _ _ _ _ (key (codes "activity") _ refl) (activity _))
    ]

-- What `FormatRegistrationMachineResult` writes is exactly one JSON object, with the fields of the
-- record under the names of the protocol, `null` where there is no workflow afterwards, and a
-- reason where there is one or the action is a refusal, when the texts are byte strings.
pub format_registration_machine_result-Spells :
    (result : RegistrationMachineResult)
    → IsTextualRecord result
    → Spells (registration_json result) (format_registration_machine_result result) []
unfolding format_registration_machine_result
format_registration_machine_result-Spells result h = object_spelled _ _ _ (
    next_member _ _ _ _ _ _ _ _ _ (key (codes "operation") _ refl)
      (key (codes "register_workflow") _ refl)
      (next_member _ _ _ _ _ _ _ _ _ (key (codes "accepted") _ refl) (flag result.accepted _) (
        next_member _ _ _ _ _ _ _ _ _ (key (codes "action") _ refl)
          (quoted (action_text result.action) _ (action_textual result.action))
          (next_member _ _ _ _ _ _ _ _ _ (key (codes "function_start") _ refl)
            (unsigned result.function_start _)
            (next_member _ _ _ _ _ _ _ _ _ (key (codes "workflow_before") _ refl)
              (quoted result.workflow_before _ h.0)
              (next_member _ _ _ _ _ _ _ _ _ (key (codes "workflow_after") _ refl)
                (optional result.workflow_after _ h.1)
                (next_member _ _ _ _ _ _ _ _ _ (key (codes "target") _ refl)
                  (quoted result.target _ h.2)
                  (tail-Spells result (optional_textual result.reason h.4)
                    (λ r. quoted result.activity r h.3)))))))))
