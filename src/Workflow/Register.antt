-- ===== src/Workflow/Register.antt =====
-- src/Plugin.cpp: `RefusedRegistration`, `AcceptedRegistration` and `RegisterOrRefreshWorkflow`.
-- The result is the record that the command logs.
use co_bra_for_binary_ninja.Prelude.{
  ℕ, Bool, true, false, not, if◌then◌else◌, [], ◌++◌, Option, none, some, Bytes, codes,
}
use co_bra_for_binary_ninja.PluginJson.Escape.{escape_json_string}
use co_bra_for_binary_ninja.Workflow.Host.{Host}
use co_bra_for_binary_ninja.Workflow.Activity.{
  World, k_activity_name, default_anchor, add_activity_to_workflow,
}

-- `RegistrationMachineResult::action`, one of three strings.
pub data RegistrationAction : Type 0 where
  created refreshed refused : RegistrationAction

pub record RegistrationMachineResult : Type 0 where
  pub accepted : Bool
  pub action : RegistrationAction
  pub function_start : ℕ
  pub workflow_before : Bytes
  pub workflow_after : Option Bytes
  pub target : Bytes
  pub activity : Bytes
  pub reason : Option Bytes

unfoldable pub refused_registration : ℕ → Bytes → Bytes → Bytes → RegistrationMachineResult
refused_registration function_start workflow_before target reason = record {
  accepted = false;
  action = refused;
  function_start = function_start;
  workflow_before = workflow_before;
  workflow_after = none;
  target = target;
  activity = k_activity_name;
  reason = some reason;
}

unfoldable pub accepted_registration :
    ℕ → RegistrationAction → Bytes → Bytes → RegistrationMachineResult
accepted_registration function_start action workflow_before workflow_after = record {
  accepted = true;
  action = action;
  function_start = function_start;
  workflow_before = workflow_before;
  workflow_after = some workflow_after;
  target = workflow_after;
  activity = k_activity_name;
  reason = none;
}

unfoldable pub workflow_description : Bytes → Bytes → Bytes
workflow_description target_name current_name =
    codes "{\"title\":\""
    ++ escape_json_string target_name
    ++ codes "\",\"description\":\"Explicit derivative of "
    ++ escape_json_string current_name
    ++ codes " with verified CoBRA MBA simplification.\"}"

module _ (H : Host) where
  abbrev pub Registered : Type 0
  Registered = RegistrationMachineResult × World H

  -- The branch for a current workflow that has the activity.
  unfoldable pub refresh_current : ℕ → H.Workflow → Bytes → World H → Registered
  refresh_current start current current_name w =
      let (done, w1) = add_activity_to_workflow H (some current) default_anchor w in
      if done then (accepted_registration start refreshed current_name current_name, w1) else (
        refused_registration start current_name current_name
            (codes "current workflow contains a foreign or unowned MBA activity"),
        w1,
      )

  -- The branch for a target that exists.
  unfoldable pub refresh_existing : ℕ → H.Workflow → Bytes → Bytes → World H → Registered
  refresh_existing start existing current_name target_name w =
      let (done, w1) = add_activity_to_workflow H (some existing) default_anchor w in
      if not (H.contains w.host existing k_activity_name)
      then (
        refused_registration start current_name target_name
            (codes "existing target workflow lacks the owned MBA activity"),
        w,
      )
      else if done
      then (accepted_registration start refreshed current_name target_name, w1)
      else (
        refused_registration start current_name target_name
            (codes "target workflow MBA activity is foreign or unowned"),
        w1,
      )

  -- The registration of a clone that has been given the activity.
  unfoldable pub register_derived : ℕ → H.Workflow → Bytes → Bytes → World H → Registered
  register_derived start derived current_name target_name w =
      let (registered, host) =
        H.register_workflow w.host derived (workflow_description target_name current_name) in
      if registered
      then (accepted_registration start created current_name target_name, record w { host = host })
      else (
        refused_registration start current_name target_name
            (codes "Binary Ninja rejected workflow registration"),
        record w { host = host },
      )

  unfoldable pub create_derived : ℕ → Option H.Workflow → Bytes → Bytes → World H → Registered
  create_derived start none current_name target_name w = (
    refused_registration start current_name target_name
        (codes "could not compose the owned MBA activity after the MLIL anchor"),
    w,
  )
  create_derived start (some derived) current_name target_name w =
      let (done, w1) = add_activity_to_workflow H (some derived) default_anchor w in
      if done then register_derived start derived current_name target_name w1 else (
        refused_registration start current_name target_name
            (codes "could not compose the owned MBA activity after the MLIL anchor"),
        w1,
      )

  -- The lines from `targetName` on, given `Workflow::Get(targetName)`.
  unfoldable pub register_target :
      ℕ → Option H.Workflow → H.Workflow → Bytes → Bytes → World H → Registered
  register_target start (some existing) current current_name target_name w =
      refresh_existing start existing current_name target_name w
  register_target start none current current_name target_name w =
      let (derived, host) = H.clone w.host current target_name in
      create_derived start derived current_name target_name (record w { host = host })

  -- A function that is not null, by its start and its workflow.
  unfoldable pub register_or_refresh_workflow : ℕ → Option H.Workflow → World H → Registered
  register_or_refresh_workflow start none w =
      (refused_registration start [] [] (codes "current function has no workflow"), w)
  register_or_refresh_workflow start (some current) w =
      let name = H.get_name w.host current in
      let target = name ++ codes ".mba" in
      if H.contains w.host current k_activity_name
      then refresh_current start current name w
      else register_target start (H.get w.host target) current name target w
