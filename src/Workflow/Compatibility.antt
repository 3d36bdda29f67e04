-- ===== src/Workflow/Compatibility.antt =====
-- src/Plugin.cpp: `RegisterCompatibilityBaseWorkflow`.
use co_bra_for_binary_ninja.Prelude.{
  ◌≡◌, refl, if◌then◌else◌, Bool-cases, inl, inr, ◌++◌, Option, none, some, Bytes, codes,
}
use co_bra_for_binary_ninja.PluginJson.Escape.{escape_json_string}
use co_bra_for_binary_ninja.Workflow.Host.{Host}
use co_bra_for_binary_ninja.Workflow.Activity.{World, default_anchor, add_activity_to_workflow}
use co_bra_for_binary_ninja.Workflow.ActivityLaws.{
  IsOwning, LeavesForeign, Change, same, Change-IsOwning, Change-LeavesForeign, add_activity-Change,
}

abbrev pub k_compatibility_base_workflow : Bytes
k_compatibility_base_workflow = codes "extension.smba.cobra.base"

abbrev pub k_core_meta_analysis_workflow : Bytes
k_core_meta_analysis_workflow = codes "core.function.metaAnalysis"

unfoldable pub compatibility_description : Bytes
compatibility_description =
    codes "{\"title\":\""
    ++ escape_json_string k_compatibility_base_workflow
    ++ codes "\",\"description\":\"Opt-in clone of "
    ++ escape_json_string k_core_meta_analysis_workflow
    ++ codes " with verified CoBRA MBA simplification.\"}"

module _ (H : Host) where
  -- From `AddActivityToWorkflow(derived)` on, for a clone that may be null.
  unfoldable pub register_clone : Option H.Workflow → World H → World H
  register_clone none w = w
  register_clone (some derived) w =
      let (done, w1) = add_activity_to_workflow H (some derived) default_anchor w in
      if done
      then record w1 { host = (H.register_workflow w1.host derived compatibility_description).1 }
      else w1

  unfoldable pub clone_source : Option H.Workflow → World H → World H
  clone_source none w = w
  clone_source (some source) w =
      let (derived, host) = H.clone w.host source k_compatibility_base_workflow in
      register_clone derived (record w { host = host })

  unfoldable pub register_unless : Option H.Workflow → World H → World H
  register_unless (some existing) w = w
  register_unless none w = clone_source (H.get w.host k_core_meta_analysis_workflow) w

  unfoldable pub register_compatibility_base_workflow : World H → World H
  register_compatibility_base_workflow w =
      register_unless (H.get w.host k_compatibility_base_workflow) w

  register_clone-Change :
      (derived : Option H.Workflow) (w : World H)
      → Change w.plugin (register_clone derived w).plugin
  unfolding register_clone
  register_clone-Change none w = same
  register_clone-Change (some derived) w =
      let change = add_activity-Change H (some derived) default_anchor w in
      elim (Bool-cases (add_activity_to_workflow H (some derived) default_anchor w).0) [
        | inl done ↦ rw done change
        | inr failed ↦ rw failed change
      ]

  clone_source-Change :
      (source : Option H.Workflow) (w : World H) → Change w.plugin (clone_source source w).plugin
  unfolding clone_source
  clone_source-Change none w = same
  clone_source-Change (some source) w =
      let cloned = H.clone w.host source k_compatibility_base_workflow in
      register_clone-Change cloned.0 (record w { host = cloned.1 })

  register_unless-Change :
      (existing : Option H.Workflow) (w : World H)
      → Change w.plugin (register_unless existing w).plugin
  unfolding register_unless
  register_unless-Change (some existing) w = same
  register_unless-Change none w = clone_source-Change _ w

  unless_untouched :
      (o : Option H.Workflow) (existing : H.Workflow) (w : World H)
      → o ≡ some existing
      → register_unless o w ≡ w
  unfolding register_unless
  unless_untouched none existing w h = cc
  unless_untouched (some e) existing w h = refl

  -- The compatibility workflow that is already there is left alone, with everything else; in any
  -- case the owned entries still point to dispatch states that run `RunMBAActivity`, and a
  -- dispatch state that no entry pointed to is as it was.
  pub register_compatibility_keeps :
      (w : World H)
      → IsOwning w.plugin
      → ((existing : H.Workflow)
          → H.get w.host k_compatibility_base_workflow ≡ some existing
          → register_compatibility_base_workflow w ≡ w)
        × IsOwning (register_compatibility_base_workflow w).plugin
        × LeavesForeign w.plugin (register_compatibility_base_workflow w).plugin
  unfolding register_compatibility_base_workflow
  register_compatibility_keeps w owning =
      let change = register_unless-Change (H.get w.host k_compatibility_base_workflow) w in
      (
        λ existing found. unless_untouched _ existing w found,
        Change-IsOwning change owning,
        Change-LeavesForeign change,
      )
