-- ===== src/Workflow/Ownership.antt =====
-- src/Plugin.cpp and src/BNAdapter.cpp: a workflow that has the activity is refreshed exactly where
-- the plugin owns the activity, and the host is not asked to change anything.
use mathlib.Core.Option.{some-injective}
use co_bra_for_binary_ninja.Prelude.{
  ℕ, ◌≡◌, ◌↔◌, refl, sym, ap, ◌∙◌, Bool, true, Bool-cases, inl, inr, Option, none, some, Bytes,
}
use co_bra_for_binary_ninja.Workflow.Host.{Host}
use co_bra_for_binary_ninja.Workflow.Dispatch.{find_owned}
use co_bra_for_binary_ninja.Workflow.Activity.{
  World, k_activity_name, default_anchor, refresh_owned, refresh_activity, add_activity_to_workflow,
}
use co_bra_for_binary_ninja.Workflow.Register.{
  refused_registration, accepted_registration, refresh_current, register_or_refresh_workflow,
}

module _ (H : Host) where
  -- The host is as it was, and the call succeeds exactly where the proposition holds.
  abbrev Succeeds : World H → Bool × World H → Type 0 → Type 0
  Succeeds w r p = (r.1.host ≡ w.host) × ((r.0 ≡ true) ↔ p)

  refresh_owned-Succeeds :
      (activity : ℕ) (o : Option ℕ) (w : World H)
      → Succeeds w
          (refresh_owned H activity o w)
          ((d : ℕ) × (o ≡ some d) × (H.holds_dispatch w.host d ≡ true))
  unfolding refresh_owned
  refresh_owned-Succeeds activity none w = (refl, (λ h. cc, λ (d, e, alive). cc))
  refresh_owned-Succeeds activity (some d) w = elim (Bool-cases (H.holds_dispatch w.host d)) [
    | inl alive ↦ rw alive (refl, (λ h. (d, refl, alive), λ h. refl))
    | inr dead ↦ rw dead (
      refl,
      (
        λ h. cc,
        λ (e, same, alive).
            let there : H.holds_dispatch w.host d ≡ true =
              ap (λ (i : ℕ). H.holds_dispatch w.host i) (some-injective _ _ same) ∙ alive in
            cc (there, dead),
      ),
    )
  ]

  refresh_activity-Succeeds :
      (o : Option ℕ) (w : World H)
      → Succeeds w (refresh_activity H o w) (
          (activity : ℕ) × (d : ℕ) × (o ≡ some activity)
          × (find_owned activity w.plugin.owned ≡ some d)
          × (H.holds_dispatch w.host d ≡ true))
  unfolding refresh_activity
  refresh_activity-Succeeds none w = (refl, (λ h. cc, λ (activity, d, e, found, alive). cc))
  refresh_activity-Succeeds (some activity) w =
      let (host, (to, from)) =
        refresh_owned-Succeeds activity (find_owned activity w.plugin.owned) w in
      (
        host,
        (
          λ h. let (d, found, alive) = to h in (activity, d, refl, found, alive),
          λ (a, d, e, found, alive). from (
            d,
            ap (λ (i : ℕ). find_owned i w.plugin.owned) (some-injective _ _ e) ∙ found,
            alive,
          ),
        ),
      )

  -- The activity of this workflow is one that the plugin registered, and its callback is alive.
  abbrev pub IsOwned : World H → H.Workflow → Type 0
  IsOwned w workflow =
      (activity : ℕ) × (d : ℕ) × (H.get_activity w.host workflow k_activity_name ≡ some activity)
      × (find_owned activity w.plugin.owned ≡ some d)
      × (H.holds_dispatch w.host d ≡ true)

  add_activity-Succeeds :
      (workflow : H.Workflow) (anchor : Bytes) (w : World H)
      → H.contains w.host workflow k_activity_name ≡ true
      → Succeeds w (add_activity_to_workflow H (some workflow) anchor w) (IsOwned w workflow)
  unfolding add_activity_to_workflow
  add_activity-Succeeds workflow anchor w has =
      rw has (refresh_activity-Succeeds (H.get_activity w.host workflow k_activity_name) w)

  current_accepted :
      (start : ℕ) (current : H.Workflow) (name : Bytes) (w : World H)
      → ((refresh_current H start current name w).1
          ≡ (add_activity_to_workflow H (some current) default_anchor w).1)
        × ((refresh_current H start current name w).0.accepted
            ≡ (add_activity_to_workflow H (some current) default_anchor w).0)
        × ((refresh_current H start current name w).0.target ≡ name)
  unfolding refresh_current refused_registration accepted_registration
  current_accepted start current name w =
      elim (Bool-cases (add_activity_to_workflow H (some current) default_anchor w).0) [
        | inl done ↦ rw done (refl, refl, refl)
        | inr failed ↦ rw failed (refl, refl, refl)
      ]

  -- For a function whose workflow has the activity, the command asks the host for no change, the
  -- target is that workflow, and the command is accepted exactly where the activity is one that
  -- the plugin registered and whose callback is alive.
  pub current_activity_decides :
      (start : ℕ) (current : H.Workflow) (w : World H)
      → H.contains w.host current k_activity_name ≡ true
      → ((register_or_refresh_workflow H start (some current) w).1.host ≡ w.host)
        × ((register_or_refresh_workflow H start (some current) w).0.target
            ≡ H.get_name w.host current)
        × (((register_or_refresh_workflow H start (some current) w).0.accepted ≡ true)
            ↔ IsOwned w current)
  unfolding register_or_refresh_workflow
  current_activity_decides start current w has =
      let (world, accepted, target) =
        current_accepted start current (H.get_name w.host current) w in
      let (host, (to, from)) = add_activity-Succeeds current default_anchor w has in
      rw has (
        ap (λ (x : World H). x.host) world ∙ host,
        target,
        (λ h. to (sym accepted ∙ h), λ owned. accepted ∙ from owned),
      )
