-- ===== src/Command/Registration.antt =====
-- src/Plugin.cpp, `RegisterOrRefreshWorkflow`: the line that the command logs for a workflow that
-- has the activity.
use co_bra_for_binary_ninja.Prelude.{
  ℕ, ◌≡◌, refl, ap, ◌∙◌, arith, Bool, true, false, Bool-cases, ◌⊎◌, inl, inr, [], ◌∷◌, ◌++◌, Option,
  some, Bytes, codes, IsByteString,
}
use co_bra_for_binary_ninja.PluginJson.Json.{
  Json, text, number, boolean, null, object, Members, no_members, member, Spells,
}
use co_bra_for_binary_ninja.PluginJson.Format.{format_registration_machine_result}
use co_bra_for_binary_ninja.PluginJson.Spelled.{is_plain}
use co_bra_for_binary_ninja.PluginJson.FormatSound.{format_registration_machine_result-Spells}
use co_bra_for_binary_ninja.Workflow.Host.{Host}
use co_bra_for_binary_ninja.Workflow.Activity.{
  World, k_activity_name, default_anchor, add_activity_to_workflow,
}
use co_bra_for_binary_ninja.Workflow.Register.{
  RegistrationAction, RegistrationMachineResult, refused_registration, accepted_registration,
  refresh_current, register_or_refresh_workflow,
}
use co_bra_for_binary_ninja.Workflow.Ownership.{IsOwned, current_activity_decides}
use co_bra_for_binary_ninja.Command.{
  log_machine_result, log_registration_result, run_register_command,
}

literal : (s : Bytes) → is_plain s ≡ true → IsByteString s
literal [] h = tt
literal (c ∷ s) h = (ground (arith, h), literal s (ground (arith, h)))

-- The reason of a refusal.
abbrev pub foreign_activity : Bytes
foreign_activity = codes "current workflow contains a foreign or unowned MBA activity"

-- What the registration command has to log for a workflow that has the activity.
abbrev pub current_json : ℕ → Bytes → Bool → Bytes → Json → Members → Json
current_json start name accepted action after reason = object (
    member (codes "operation") (text (codes "register_workflow")) (
      member (codes "accepted") (boolean accepted) (
        member (codes "action") (text action) (
          member (codes "function_start") (number start) (
            member (codes "workflow_before") (text name) (
              member (codes "workflow_after") after (
                member (codes "target") (text name)
                  (member (codes "activity") (text k_activity_name) reason))))))))

module _ (H : Host) (start : ℕ) (current : H.Workflow) (w : World H) where
  abbrev name : Bytes
  name = H.get_name w.host current

  abbrev line : Option Bytes
  line = (run_register_command H (some (start, some current)) w).0

  -- One line is logged: the prefix and a spelling of this value.
  abbrev pub Logs : Json → Type 0
  Logs v = (s : Bytes) × (line ≡ some (codes "[SMBA AI JSON]" ++ s)) × Spells v s []

  abbrev pub refreshed_json : Json
  refreshed_json = current_json start name true (codes "refreshed") (text name) no_members

  abbrev pub refused_json : Json
  refused_json =
      current_json start name false (codes "refused") null
        (member (codes "reason") (text foreign_activity) no_members)

  current_record :
      H.contains w.host current k_activity_name ≡ true
      → (register_or_refresh_workflow H start (some current) w).0
        ≡ (refresh_current H start current name w).0
  unfolding register_or_refresh_workflow
  current_record has = rw has refl

  logged :
      (r : RegistrationMachineResult)
      → (register_or_refresh_workflow H start (some current) w).0 ≡ r
      → line ≡ some (codes "[SMBA AI JSON]" ++ format_registration_machine_result r)
  unfolding run_register_command log_registration_result log_machine_result
  logged r same =
      ap
        (λ (x : RegistrationMachineResult).
          some (codes "[SMBA AI JSON]" ++ format_registration_machine_result x))
        same

  accepted-Logs :
      (register_or_refresh_workflow H start (some current) w).0
        ≡ accepted_registration start RegistrationAction.refreshed name name
      → IsByteString name
      → Logs refreshed_json
  unfolding accepted_registration
  accepted-Logs same n =
      let r = accepted_registration start RegistrationAction.refreshed name name in
      (
        format_registration_machine_result r,
        logged r same,
        format_registration_machine_result-Spells r (n, n, n, literal k_activity_name refl, tt),
      )

  refused-Logs :
      (register_or_refresh_workflow H start (some current) w).0
        ≡ refused_registration start name name foreign_activity
      → IsByteString name
      → Logs refused_json
  unfolding refused_registration
  refused-Logs same n =
      let r = refused_registration start name name foreign_activity in
      (
        format_registration_machine_result r,
        logged r same,
        format_registration_machine_result-Spells r
            (n, tt, n, literal k_activity_name refl, literal foreign_activity refl),
      )

  -- For a function whose workflow has the activity and a name that is a byte string, the
  -- registration command leaves the host as it is and logs one line, the prefix and exactly one
  -- JSON object. Where the plugin registered the activity and its callback is alive, the object says
  -- that the workflow was accepted and refreshed, with its name before and after; elsewhere it says
  -- that the workflow was refused, with no name after and with the reason.
  pub run_register_command-Logs :
      H.contains w.host current k_activity_name ≡ true
      → IsByteString name
      → ((run_register_command H (some (start, some current)) w).1.host ≡ w.host)
        × ((IsOwned H w current × Logs refreshed_json)
            ⊎ ((¬ (IsOwned H w current)) × Logs refused_json))
  unfolding run_register_command refresh_current accepted_registration refused_registration
  run_register_command-Logs has n =
      let (kept, target, (to, from)) = current_activity_decides H start current w has in
      (
        kept,
        elim (Bool-cases (add_activity_to_workflow H (some current) default_anchor w).0) [
          | inl done ↦
              let same = current_record has ∙ rw done refl in
              inl
                (to (ap (λ (r : RegistrationMachineResult). r.accepted) same), accepted-Logs same n)
          | inr foreign ↦
              let same = current_record has ∙ rw foreign refl in
              inr (
                λ owned. cc (from owned, ap (λ (r : RegistrationMachineResult). r.accepted) same),
                refused-Logs same n,
              )
        ],
      )
