-- ===== src/Workflow/Host.antt =====
-- The part of Binary Ninja's workflow API that src/BNAdapter.cpp and src/Plugin.cpp call, over an
-- abstract state of the host. Binary Ninja is not part of this repository.
use co_bra_for_binary_ninja.Prelude.{ℕ, Bool, Option, Bytes}

-- Activities are identified by their object, and dispatch states by a number.
pub record Host : Type 1 where
  pub State : Type 0
  pub Workflow : Type 0
  pub get : State → Bytes → Option Workflow
  pub get_name : State → Workflow → Bytes
  pub contains : State → Workflow → Bytes → Bool
  pub is_registered : State → Workflow → Bool
  pub get_activity : State → Workflow → Bytes → Option ℕ
  -- whether a callback that holds this dispatch state is still alive
  pub holds_dispatch : State → ℕ → Bool
  -- the configuration, and the dispatch state of the callback
  pub register_activity : State → Workflow → Bytes → ℕ → Option ℕ × State
  pub insert_after : State → Workflow → Bytes → Bytes → Bool × State
  pub clone : State → Workflow → Bytes → Option Workflow × State
  pub register_workflow : State → Workflow → Bytes → Bool × State
