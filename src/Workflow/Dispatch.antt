-- ===== src/Workflow/Dispatch.antt =====
-- src/BNAdapter.cpp: `ActivityDispatchState`, `g_ownedActivities`, `RefreshDispatch` and
-- `DispatchMBAActivity`. A lock is held for the whole of each access, so an access is one step.
use co_bra_for_binary_ninja.Prelude.{
  ℕ, ◌+◌, ◌%◌, ◌^◌, if◌then◌else◌, ◌==◌, List, [], ◌∷◌, Option, none, some,
}

-- The callbacks that a dispatch state can hold: `RunMBAActivity`, or some other function.
pub data Action : Type 0 where
  run_mba_activity : Action
  other_action : ℕ → Action

pub record ActivityDispatchState : Type 0 where
  pub generation : ℕ
  pub action : Option Action

-- The globals of the plugin: the owned activities with the dispatch state that each one's entry
-- points to, and all dispatch states, by number; `next` is the next number.
pub record Plugin : Type 0 where
  pub owned : List (ℕ × ℕ)
  pub dispatch : ℕ → ActivityDispatchState
  pub next : ℕ

-- `std::unordered_map::find`, `erase` and assignment through `operator[]`.
unfoldable pub find_owned : ℕ → List (ℕ × ℕ) → Option ℕ
find_owned activity [] = none
find_owned activity ((a, d) ∷ rest) = if a == activity then some d else find_owned activity rest

unfoldable pub erase_owned : ℕ → List (ℕ × ℕ) → List (ℕ × ℕ)
erase_owned activity [] = []
erase_owned activity ((a, d) ∷ rest) =
    let kept = erase_owned activity rest in if a == activity then kept else (a, d) ∷ kept

unfoldable pub set_owned : ℕ → ℕ → List (ℕ × ℕ) → List (ℕ × ℕ)
unfolding erase_owned
set_owned activity d owned = (activity, d) ∷ erase_owned activity owned

abbrev pub update :
    (ℕ → ActivityDispatchState) → ℕ → ActivityDispatchState → ℕ → ActivityDispatchState
update f d s e = if d == e then s else f e

unfoldable pub refreshed : ActivityDispatchState → ActivityDispatchState
refreshed s = record { generation = (s.generation + 1) % 2 ^ 64; action = some run_mba_activity }

-- `RefreshDispatch`; the generation that it returns is only logged.
unfoldable pub refresh_dispatch : ℕ → Plugin → Plugin
refresh_dispatch d p = record p { dispatch = update p.dispatch d (refreshed (p.dispatch d)) }

-- The action that `DispatchMBAActivity` calls, if any.
unfoldable pub dispatch_mba_activity : ℕ → Plugin → Option Action
dispatch_mba_activity d p = (p.dispatch d).action

-- `std::make_shared<ActivityDispatchState>()`
unfoldable pub make_dispatch : Plugin → ℕ × Plugin
make_dispatch p = (
  p.next,
  record p {
    dispatch = update p.dispatch p.next (record { generation = 0; action = none });
    next = p.next + 1;
  },
)
