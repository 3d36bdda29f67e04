-- ===== src/Tests/WorkflowTests.antt =====
-- The theorems about src/Plugin.cpp and src/BNAdapter.cpp at a small host.
use co_bra_for_binary_ninja.Command.{run_register_command}
use co_bra_for_binary_ninja.Command.Registration.{
  Logs, refreshed_json, refused_json, run_register_command-Logs,
}
use co_bra_for_binary_ninja.Prelude.{
  ◌≡◌, ◌↔◌, ◌⊎◌, refl, if◌then◌else◌, leb, length, arith, Bool, true, false, [], ◌∷◌, none, some,
  codes,
}
use co_bra_for_binary_ninja.Workflow.Host.{Host}
use co_bra_for_binary_ninja.Workflow.Dispatch.{
  Plugin, run_mba_activity, find_owned, dispatch_mba_activity,
}
use co_bra_for_binary_ninja.Workflow.Activity.{World, k_activity_name}
use co_bra_for_binary_ninja.Workflow.ActivityLaws.{IsOwning, LeavesForeign}
use co_bra_for_binary_ninja.Workflow.Register.{register_or_refresh_workflow}
use co_bra_for_binary_ninja.Workflow.RegisterLaws.{IsConsistent, register_or_refresh_workflow_keeps}
use co_bra_for_binary_ninja.Workflow.Ownership.{IsOwned, current_activity_decides}
use co_bra_for_binary_ninja.Workflow.Compatibility.{
  k_compatibility_base_workflow, register_compatibility_base_workflow, register_compatibility_keeps,
}

-- The state says whether the one workflow has the activity.
abbrev toy_host : Host
toy_host = record {
  State = Bool;
  Workflow = Unit;
  get = λ s name. if leb (length name) 26 then some tt else none;
  get_name = λ s workflow. codes "base";
  contains = λ s workflow name. s;
  is_registered = λ s workflow. false;
  get_activity = λ s workflow name. some 5;
  holds_dispatch = λ s d. true;
  register_activity = λ s workflow configuration d. (some 5, s);
  insert_after = λ s workflow anchor name. (true, true);
  clone = λ s workflow name. (some tt, s);
  register_workflow = λ s workflow description. (true, s);
}

abbrev plugin : Plugin
plugin = record {
  owned = (5, 0) ∷ [];
  dispatch = λ d. record { generation = 1; action = some run_mba_activity };
  next = 1;
}

abbrev world : World toy_host
world = record { host = true; plugin = plugin }

plugin-IsOwning : IsOwning plugin
unfolding find_owned dispatch_mba_activity
plugin-IsOwning activity d found = ground arith

register_or_refresh_workflow_keeps_example :
    IsConsistent (register_or_refresh_workflow toy_host 64 (some tt) world).0
    × ((register_or_refresh_workflow toy_host 64 (some tt) world).0.function_start ≡ 64)
    × ((register_or_refresh_workflow toy_host 64 (some tt) world).0.activity ≡ k_activity_name)
    × IsOwning (register_or_refresh_workflow toy_host 64 (some tt) world).1.plugin
    × LeavesForeign plugin (register_or_refresh_workflow toy_host 64 (some tt) world).1.plugin
register_or_refresh_workflow_keeps_example =
    register_or_refresh_workflow_keeps toy_host 64 (some tt) world plugin-IsOwning

current_activity_decides_example :
    ((register_or_refresh_workflow toy_host 64 (some tt) world).1.host ≡ true)
    × ((register_or_refresh_workflow toy_host 64 (some tt) world).0.target ≡ codes "base")
    × (((register_or_refresh_workflow toy_host 64 (some tt) world).0.accepted ≡ true)
        ↔ IsOwned toy_host world tt)
current_activity_decides_example = current_activity_decides toy_host 64 tt world refl

register_compatibility_keeps_example :
    ((existing : Unit)
      → toy_host.get true k_compatibility_base_workflow ≡ some existing
      → register_compatibility_base_workflow toy_host world ≡ world)
    × IsOwning (register_compatibility_base_workflow toy_host world).plugin
    × LeavesForeign plugin (register_compatibility_base_workflow toy_host world).plugin
register_compatibility_keeps_example = register_compatibility_keeps toy_host world plugin-IsOwning

run_register_command-Logs_example :
    ((run_register_command toy_host (some (64, some tt)) world).1.host ≡ true)
    × ((IsOwned toy_host world tt × Logs toy_host 64 tt world (refreshed_json toy_host 64 tt world))
        ⊎ ((¬ (IsOwned toy_host world tt))
            × Logs toy_host 64 tt world (refused_json toy_host 64 tt world)))
run_register_command-Logs_example =
    run_register_command-Logs toy_host 64 tt world refl
      (omega arith, (omega arith, (omega arith, (omega arith, tt))))
