-- ===== src/Workflow/ActivityLaws.antt =====
-- src/BNAdapter.cpp: what `AddActivityToWorkflow` keeps of the plugin's globals.
use mathlib.Core.Option.{some-injective}
use co_bra_for_binary_ninja.Prelude.{
  ℕ, ◌+◌, ◌<◌, ◌≡◌, ◌≢◌, refl, sym, ap, ◌∙◌, arith, not, ◌||◌, ◌==◌, ==_iff, Bool-cases, inl, inr,
  List, [], ◌∷◌, Option, none, some, Bytes,
}
use co_bra_for_binary_ninja.Workflow.Host.{Host}
use co_bra_for_binary_ninja.Workflow.Dispatch.{
  run_mba_activity, ActivityDispatchState, Plugin, find_owned, erase_owned, set_owned, refreshed,
  refresh_dispatch, make_dispatch, update, dispatch_mba_activity,
}
use co_bra_for_binary_ninja.Workflow.Activity.{
  World, k_activity_name, configuration, refresh_owned, refresh_activity, insert_activity,
  compose_activity, add_activity_to_workflow,
}

-- Each entry of `g_ownedActivities` points to a dispatch state that was made, and that runs
-- `RunMBAActivity`.
abbrev pub IsOwning : Plugin → Type 0
IsOwning p =
    (activity d : ℕ)
    → find_owned activity p.owned ≡ some d
    → (d < p.next) × (dispatch_mba_activity d p ≡ some run_mba_activity)

-- No dispatch state of the first plugin runs other code in the second than before, except that
-- a refreshed one runs `RunMBAActivity`; and a state that no entry points to is not touched.
abbrev pub LeavesForeign : Plugin → Plugin → Type 0
LeavesForeign p q =
    (d : ℕ)
    → d < p.next
    → ((activity : ℕ) → find_owned activity p.owned ≢ some d)
    → q.dispatch d ≡ p.dispatch d

erased_gone : (x : ℕ) (owned : List (ℕ × ℕ)) → find_owned x (erase_owned x owned) ≡ none
unfolding find_owned erase_owned
erased_gone x [] = refl
erased_gone x ((a, e) ∷ rest) = ground (arith, erased_gone x rest)

erased_other :
    (x activity : ℕ) (owned : List (ℕ × ℕ))
    → x ≢ activity
    → find_owned activity (erase_owned x owned) ≡ find_owned activity owned
unfolding find_owned erase_owned
erased_other x activity [] other = refl
erased_other x activity ((a, e) ∷ rest) other = ground (arith, erased_other x activity rest other)

find_owned-erase_owned :
    (x activity : ℕ) (owned : List (ℕ × ℕ)) {d : ℕ}
    → find_owned activity (erase_owned x owned) ≡ some d
    → find_owned activity owned ≡ some d
find_owned-erase_owned x activity owned {d} h = elim (Bool-cases (x == activity)) [
  | inl same ↦
      let gone : find_owned activity (erase_owned x owned) ≡ none =
        ap (λ (a : ℕ). find_owned a (erase_owned x owned)) (sym ((==_iff x activity).0 same))
        ∙ erased_gone x owned in
      cc (gone, h)
  | inr other ↦
      let differ : x ≢ activity = λ e. cc ((==_iff x activity).1 e, other) in
      sym (erased_other x activity owned differ) ∙ h
]

refreshed_runs :
    (d e : ℕ) (p : Plugin)
    → dispatch_mba_activity e p ≡ some run_mba_activity
    → dispatch_mba_activity e (refresh_dispatch d p) ≡ some run_mba_activity
unfolding refresh_dispatch dispatch_mba_activity refreshed
refreshed_runs d e p runs = elim (Bool-cases (d == e)) [
  | inl same ↦ rw (dispatch_mba_activity, same) refl
  | inr other ↦ rw (dispatch_mba_activity, other) runs
]

refresh_dispatch-IsOwning : (d : ℕ) (p : Plugin) → IsOwning p → IsOwning (refresh_dispatch d p)
unfolding refresh_dispatch
refresh_dispatch-IsOwning d p owning activity e found =
    let (made, runs) = owning activity e found in (made, refreshed_runs d e p runs)

erase_owned-IsOwning :
    (x : ℕ) (p : Plugin) → IsOwning p → IsOwning (record p { owned = erase_owned x p.owned })
unfolding dispatch_mba_activity
erase_owned-IsOwning x p owning activity e found =
    owning activity e (find_owned-erase_owned x activity p.owned found)

-- A new dispatch state, refreshed and then entered for an activity.
pub made_refreshed : Plugin → Plugin
made_refreshed p = refresh_dispatch p.next (make_dispatch p).1

made_runs :
    (e : ℕ) (p : Plugin)
    → (e < p.next → dispatch_mba_activity e p ≡ some run_mba_activity)
    → e < p.next + 1
    → dispatch_mba_activity e (made_refreshed p) ≡ some run_mba_activity
unfolding made_refreshed make_dispatch refresh_dispatch dispatch_mba_activity refreshed
made_runs e p runs below = elim (Bool-cases (p.next == e)) [
  | inl same ↦ rw (dispatch_mba_activity, same) refl
  | inr other ↦ rw (dispatch_mba_activity, other) (runs (ground arith))
]

made_next : (p : Plugin) → (made_refreshed p).next ≡ p.next + 1
unfolding made_refreshed make_dispatch refresh_dispatch
made_next p = refl

set_owned-IsOwning :
    (x : ℕ) (p : Plugin)
    → IsOwning p
    → IsOwning (record (made_refreshed p) { owned = set_owned x p.next p.owned })
unfolding find_owned set_owned dispatch_mba_activity
set_owned-IsOwning x p owning activity e found = elim (Bool-cases (x == activity)) [
  | inl same ↦
      let last : p.next ≡ e = some-injective _ _ (rw same at found) in
      (
        omega (arith, made_next p, last),
        made_runs e p (λ k. absurd (omega (arith, k, last))) (omega (arith, last)),
      )
  | inr other ↦
      let (made, runs) =
        owning activity e (find_owned-erase_owned x activity p.owned (rw other at found)) in
      (omega (arith, made_next p, made), made_runs e p (λ k. runs) (omega (arith, made)))
]

made-IsOwning : (p : Plugin) → IsOwning p → IsOwning (made_refreshed p)
unfolding made_refreshed make_dispatch refresh_dispatch
made-IsOwning p owning activity e found =
    let (made, runs) = owning activity e found in
    (omega (arith, made), made_runs e p (λ k. runs) (omega (arith, made)))

-- What `AddActivityToWorkflow` does to the globals, whatever the host does: it leaves them,
-- refreshes a state, drops an entry, or makes a state with or without an entry.
pub data Change (p : Plugin) : Plugin → Type 0 where
  same : Change p p
  refresh :
      (activity d : ℕ) → find_owned activity p.owned ≡ some d → Change p (refresh_dispatch d p)
  drop_entry : (activity : ℕ) → Change p (record p { owned = erase_owned activity p.owned })
  unused : Change p (made_refreshed p)
  enter :
      (activity : ℕ)
      → Change p (record (made_refreshed p) { owned = set_owned activity p.next p.owned })

pub Change-IsOwning : {p q : Plugin} → Change p q → IsOwning p → IsOwning q
Change-IsOwning same owning = owning
Change-IsOwning {p} (refresh activity d found) owning = refresh_dispatch-IsOwning d p owning
Change-IsOwning {p} (drop_entry activity) owning = erase_owned-IsOwning activity p owning
Change-IsOwning {p} unused owning = made-IsOwning p owning
Change-IsOwning {p} (enter activity) owning = set_owned-IsOwning activity p owning

update_other :
    (f : ℕ → ActivityDispatchState) (d e : ℕ) (s : ActivityDispatchState)
    → d ≢ e
    → update f d s e ≡ f e
update_other f d e s other = ground arith

made_foreign : (p : Plugin) (d : ℕ) → d < p.next → (made_refreshed p).dispatch d ≡ p.dispatch d
unfolding made_refreshed make_dispatch refresh_dispatch
made_foreign p d below =
    let later : p.next ≢ d = λ e. absurd (omega (arith, e, below)) in
    update_other (make_dispatch p).1.dispatch p.next d _ later
    ∙ update_other p.dispatch p.next d (record { generation = 0; action = none }) later

pub Change-LeavesForeign : {p q : Plugin} → Change p q → LeavesForeign p q
unfolding refresh_dispatch
Change-LeavesForeign same d below free = refl
Change-LeavesForeign {p} (refresh activity e found) d below free =
    update_other p.dispatch e d _ (λ h. free activity (found ∙ ap some h))
Change-LeavesForeign (drop_entry activity) d below free = refl
Change-LeavesForeign {p} unused d below free = made_foreign p d below
Change-LeavesForeign {p} (enter activity) d below free = made_foreign p d below

module _ (H : Host) where
  refresh_owned-Change :
      (activity : ℕ) (o : Option ℕ) (w : World H)
      → find_owned activity w.plugin.owned ≡ o
      → Change w.plugin (refresh_owned H activity o w).1.plugin
  unfolding refresh_owned
  refresh_owned-Change activity none w found = same
  refresh_owned-Change activity (some d) w found = elim (Bool-cases (H.holds_dispatch w.host d)) [
    | inl alive ↦ rw alive (refresh activity d found)
    | inr dead ↦ rw dead (drop_entry activity)
  ]

  refresh_activity-Change :
      (o : Option ℕ) (w : World H) → Change w.plugin (refresh_activity H o w).1.plugin
  unfolding refresh_activity
  refresh_activity-Change none w = same
  refresh_activity-Change (some activity) w = refresh_owned-Change activity _ w refl

  insert_activity-Change :
      (o : Option ℕ) (workflow : H.Workflow) (anchor : Bytes) (host : H.State) (p : Plugin)
      → Change p
          (insert_activity H o workflow anchor p.next
            (record { host = host; plugin = made_refreshed p })).1.plugin
  unfolding insert_activity made_refreshed make_dispatch refresh_dispatch
  insert_activity-Change none workflow anchor host p = unused
  insert_activity-Change (some activity) workflow anchor host p =
      elim (Bool-cases (H.insert_after host workflow anchor k_activity_name).0) [
        | inl inserted ↦ rw inserted (enter activity)
        | inr failed ↦ rw failed unused
      ]

  compose_activity-Change :
      (workflow : H.Workflow) (anchor : Bytes) (w : World H)
      → Change w.plugin (compose_activity H workflow anchor w).1.plugin
  unfolding compose_activity made_refreshed make_dispatch
  compose_activity-Change workflow anchor w =
      let registered = H.register_activity w.host workflow configuration w.plugin.next in
      insert_activity-Change registered.0 workflow anchor registered.1 w.plugin

  pub add_activity-Change :
      (workflow : Option H.Workflow) (anchor : Bytes) (w : World H)
      → Change w.plugin (add_activity_to_workflow H workflow anchor w).1.plugin
  unfolding add_activity_to_workflow
  add_activity-Change none anchor w = same
  add_activity-Change (some workflow) anchor w =
      elim (Bool-cases (H.contains w.host workflow k_activity_name)) [
        | inl present ↦
            rw present (refresh_activity-Change (H.get_activity w.host workflow k_activity_name) w)
        | inr absent ↦
            elim (Bool-cases
              (H.is_registered w.host workflow || not (H.contains w.host workflow anchor))) [
                | inl closed ↦ rw (absent, closed) same
                | inr open_to ↦ rw (absent, open_to) (compose_activity-Change workflow anchor w)
              ]
      ]
