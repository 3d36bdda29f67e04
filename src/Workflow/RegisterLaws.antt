-- ===== src/Workflow/RegisterLaws.antt =====
-- src/Plugin.cpp: what `RegisterOrRefreshWorkflow` reports and what it changes.
use co_bra_for_binary_ninja.Prelude.{
  ℕ, ◌≡◌, ◌≢◌, refl, true, false, Bool-cases, ◌⊎◌, inl, inr, [], ◌++◌, Option, none, some, Bytes,
  codes,
}
use co_bra_for_binary_ninja.Workflow.Host.{Host}
use co_bra_for_binary_ninja.Workflow.Dispatch.{Plugin}
use co_bra_for_binary_ninja.Workflow.Activity.{
  World, k_activity_name, default_anchor, add_activity_to_workflow,
}
use co_bra_for_binary_ninja.Workflow.Register.{
  RegistrationAction, created, refreshed, refused, RegistrationMachineResult, refused_registration,
  accepted_registration, refresh_current, refresh_existing, register_derived, create_derived,
  workflow_description, register_target, register_or_refresh_workflow,
}
use co_bra_for_binary_ninja.Workflow.ActivityLaws.{
  IsOwning, LeavesForeign, Change, same, Change-IsOwning, Change-LeavesForeign, add_activity-Change,
}

-- A record that the reader of the log can trust: exactly the accepted ones have a workflow
-- afterwards, which is the target, and exactly the others have a reason.
abbrev pub IsConsistent : RegistrationMachineResult → Type 0
IsConsistent r =
    ((r.accepted ≡ true)
      × (r.action ≢ refused)
      × (r.workflow_after ≡ some r.target)
      × (r.reason ≡ none))
    ⊎ ((r.accepted ≡ false)
        × (r.action ≡ refused)
        × (r.workflow_after ≡ none)
        × ((text : Bytes) × (r.reason ≡ some text)))

module _ (H : Host) where
  -- What every way through the command keeps: the record is consistent, it names the function
  -- and the activity, and the globals change as `AddActivityToWorkflow` changes them.
  Keeps : ℕ → Plugin → RegistrationMachineResult × World H → Type 0
  Keeps start p r =
      IsConsistent r.0
      × (r.0.function_start ≡ start)
      × (r.0.activity ≡ k_activity_name)
      × Change p r.1.plugin

  refused-Keeps :
      (start : ℕ) (before target reason : Bytes) (p : Plugin) (w : World H)
      → Change p w.plugin
      → Keeps start p (refused_registration start before target reason, w)
  unfolding Keeps refused_registration
  refused-Keeps start before target reason p w change =
      (inr (refl, refl, refl, (reason, refl)), refl, refl, change)

  accepted-Keeps :
      (start : ℕ) (action : RegistrationAction) (before target : Bytes) (p : Plugin) (w : World H)
      → action ≢ refused
      → Change p w.plugin
      → Keeps start p (accepted_registration start action before target, w)
  unfolding Keeps accepted_registration
  accepted-Keeps start action before target p w other change =
      (inl (refl, other, refl, refl), refl, refl, change)

  refresh_current-Keeps :
      (start : ℕ) (current : H.Workflow) (name : Bytes) (w : World H)
      → Keeps start w.plugin (refresh_current H start current name w)
  unfolding refresh_current
  refresh_current-Keeps start current name w =
      let change = add_activity-Change H (some current) default_anchor w in
      elim (Bool-cases (add_activity_to_workflow H (some current) default_anchor w).0) [
        | inl done ↦ rw done (accepted-Keeps start refreshed name name w.plugin _ (λ e. cc) change)
        | inr failed ↦ rw failed (refused-Keeps start name name _ w.plugin _ change)
      ]

  refresh_existing-Keeps :
      (start : ℕ) (existing : H.Workflow) (name target : Bytes) (w : World H)
      → Keeps start w.plugin (refresh_existing H start existing name target w)
  unfolding refresh_existing
  refresh_existing-Keeps start existing name target w =
      let change = add_activity-Change H (some existing) default_anchor w in
      elim (Bool-cases (H.contains w.host existing k_activity_name)) [
        | inr lacks ↦ rw lacks (refused-Keeps start name target _ w.plugin w same)
        | inl has ↦
            elim (Bool-cases (add_activity_to_workflow H (some existing) default_anchor w).0) [
              | inl done ↦
                  rw (has, done)
                    (accepted-Keeps start refreshed name target w.plugin _ (λ e. cc) change)
              | inr failed ↦ rw (has, failed) (refused-Keeps start name target _ w.plugin _ change)
            ]
      ]

  register_derived-Keeps :
      (start : ℕ) (derived : H.Workflow) (name target : Bytes) (p : Plugin) (w : World H)
      → Change p w.plugin
      → Keeps start p (register_derived H start derived name target w)
  unfolding register_derived
  register_derived-Keeps start derived name target p w change =
      elim (Bool-cases (H.register_workflow w.host derived (workflow_description target name)).0) [
        | inl done ↦ rw done (accepted-Keeps start created name target p _ (λ e. cc) change)
        | inr failed ↦ rw failed (refused-Keeps start name target _ p _ change)
      ]

  create_derived-Keeps :
      (start : ℕ) (derived : Option H.Workflow) (name target : Bytes) (w : World H)
      → Keeps start w.plugin (create_derived H start derived name target w)
  unfolding create_derived
  create_derived-Keeps start none name target w = refused-Keeps start name target _ w.plugin w same
  create_derived-Keeps start (some derived) name target w =
      let change = add_activity-Change H (some derived) default_anchor w in
      elim (Bool-cases (add_activity_to_workflow H (some derived) default_anchor w).0) [
        | inl done ↦ rw done (register_derived-Keeps start derived name target w.plugin _ change)
        | inr failed ↦ rw failed (refused-Keeps start name target _ w.plugin _ change)
      ]

  register_target-Keeps :
      (start : ℕ) (existing : Option H.Workflow) (current : H.Workflow) (name target : Bytes)
      (w : World H)
      → Keeps start w.plugin (register_target H start existing current name target w)
  unfolding register_target
  register_target-Keeps start (some existing) current name target w =
      refresh_existing-Keeps start existing name target w
  register_target-Keeps start none current name target w =
      let cloned = H.clone w.host current target in
      create_derived-Keeps start cloned.0 name target (record w { host = cloned.1 })

  register-Keeps :
      (start : ℕ) (current : Option H.Workflow) (w : World H)
      → Keeps start w.plugin (register_or_refresh_workflow H start current w)
  unfolding register_or_refresh_workflow
  register-Keeps start none w = refused-Keeps start [] [] _ w.plugin w same
  register-Keeps start (some current) w =
      let name = H.get_name w.host current in
      elim (Bool-cases (H.contains w.host current k_activity_name)) [
        | inl has ↦ rw has (refresh_current-Keeps start current name w)
        | inr lacks ↦ rw lacks (register_target-Keeps start _ current name (name ++ codes ".mba") w)
      ]

  -- On every path, the command logs a consistent record with the function's start and the
  -- activity's name; if each owned entry pointed to a dispatch state that runs `RunMBAActivity`, it
  -- still does; and a dispatch state that no entry pointed to is as it was.
  pub register_or_refresh_workflow_keeps :
      (start : ℕ) (current : Option H.Workflow) (w : World H)
      → IsOwning w.plugin
      → IsConsistent (register_or_refresh_workflow H start current w).0
        × ((register_or_refresh_workflow H start current w).0.function_start ≡ start)
        × ((register_or_refresh_workflow H start current w).0.activity ≡ k_activity_name)
        × IsOwning (register_or_refresh_workflow H start current w).1.plugin
        × LeavesForeign w.plugin (register_or_refresh_workflow H start current w).1.plugin
  unfolding Keeps
  register_or_refresh_workflow_keeps start current w owning =
      let (consistent, named, activity, change) = register-Keeps start current w in
      (consistent, named, activity, Change-IsOwning change owning, Change-LeavesForeign change)
