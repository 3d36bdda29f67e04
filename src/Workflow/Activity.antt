-- ===== src/Workflow/Activity.antt =====
-- src/BNAdapter.cpp: `AddActivityToWorkflow`.
use co_bra_for_binary_ninja.Prelude.{
  ℕ, Bool, true, false, not, ◌||◌, if◌then◌else◌, Option, none, some, Bytes, codes,
}
use co_bra_for_binary_ninja.Workflow.Host.{Host}
use co_bra_for_binary_ninja.Workflow.Dispatch.{
  Plugin, find_owned, erase_owned, set_owned, refresh_dispatch, make_dispatch,
}

abbrev pub k_activity_name : Bytes
k_activity_name = codes "extension.smba.cobra.simplifyMlil"

abbrev pub default_anchor : Bytes
default_anchor = codes "core.function.generateMediumLevelIL"

abbrev pub configuration : Bytes
configuration =
    codes
      "{\n        \"name\": \"extension.smba.cobra.simplifyMlil\",\n        \"title\": \"CoBRA MBA Simplification\",\n        \"description\": \"Recover pure MLIL SSA expressions, simplify them with CoBRA, prove equivalence, and rewrite non-SSA MLIL.\",\n        \"eligibility\": {\"auto\": {\"default\": true}}\n    }"

module _ (H : Host) where
  -- The host's state and the plugin's globals.
  pub record World : Type 0 where
    pub host : H.State
    pub plugin : Plugin

  -- The branch for a workflow that has the activity, from the entry found in `g_ownedActivities`.
  unfoldable pub refresh_owned : ℕ → Option ℕ → World → Bool × World
  refresh_owned activity none w = (false, w)
  refresh_owned activity (some d) w =
      if H.holds_dispatch w.host d
      then (true, record w { plugin = refresh_dispatch d w.plugin })
      else (
        false,
        record w { plugin = record w.plugin { owned = erase_owned activity w.plugin.owned } },
      )

  unfoldable pub refresh_activity : Option ℕ → World → Bool × World
  refresh_activity none w = (false, w)
  refresh_activity (some activity) w = refresh_owned activity (find_owned activity w.plugin.owned) w

  -- After `RegisterActivity`: the insertion behind the anchor, and the entry of the new activity.
  unfoldable pub insert_activity : Option ℕ → H.Workflow → Bytes → ℕ → World → Bool × World
  insert_activity none workflow anchor d w = (false, w)
  insert_activity (some activity) workflow anchor d w =
      let (inserted, host) = H.insert_after w.host workflow anchor k_activity_name in
      if inserted
      then (
        true,
        record {
          host = host;
          plugin = record w.plugin { owned = set_owned activity d w.plugin.owned };
        },
      )
      else (false, record w { host = host })

  unfoldable pub compose_activity : H.Workflow → Bytes → World → Bool × World
  compose_activity workflow anchor w =
      let (d, made) = make_dispatch w.plugin in
      let fresh = refresh_dispatch d made in
      let (activity, host) = H.register_activity w.host workflow configuration d in
      insert_activity activity workflow anchor d (record { host = host; plugin = fresh })

  -- A null workflow is `none`.
  unfoldable pub add_activity_to_workflow : Option H.Workflow → Bytes → World → Bool × World
  add_activity_to_workflow none anchor w = (false, w)
  add_activity_to_workflow (some workflow) anchor w =
      if H.contains w.host workflow k_activity_name
      then refresh_activity (H.get_activity w.host workflow k_activity_name) w
      else if H.is_registered w.host workflow || not (H.contains w.host workflow anchor)
      then (false, w)
      else compose_activity workflow anchor w
