-- ===== src/Adapter/Recovery/State.antt =====
-- src/BNAdapter.cpp: the state of `ExpressionRecovery` (the fields of the class and of the result
-- that it fills), `Fail`, `CountNode`, `WidthMask`, `SemanticWidth` and `Narrow`, over what the
-- code calls of Binary Ninja's SSA functions and of CoBRA's expression factories.
use co_bra_for_binary_ninja.Prelude.{
  ℕ, ◌+◌, ◌-◌, ◌*◌, ◌^◌, Bool, true, false, ◌||◌, if◌then◌else◌, ltb, leb, ◌==◌, List, [], ◌∷◌,
  Option, none, some, Bytes, codes,
}
use co_bra_for_binary_ninja.Cobra.{Expr}
use co_bra_for_binary_ninja.Adapter.Mlil.{Mlil, size}
use co_bra_for_binary_ninja.Adapter.Types.{Variable, AnalysisLimits}

pub record SsaVariable : Type 0 where
  pub variable : Variable
  pub version : ℕ

-- An SSA function and the accessors of its instructions. `ssa_var_version` is the version of a
-- variable that is live at an instruction; a constant is given as a 64-bit number.
pub record Ssa : Type 0 where
  pub expr_count : ℕ
  pub get_expr : ℕ → Mlil
  pub non_ssa_expr_index : ℕ → ℕ
  pub instruction_count : ℕ
  pub get_instruction : ℕ → Mlil
  pub ssa_var_definition : SsaVariable → ℕ
  pub ssa_var_version : Mlil → Variable → ℕ
  pub constant : Mlil → ℕ
  pub source_ssa_variable : Mlil → SsaVariable
  pub source_variable : Mlil → Variable
  pub dest_ssa_variable : Mlil → SsaVariable
  pub source_expr : Mlil → Mlil
  pub left_expr : Mlil → Mlil
  pub right_expr : Mlil → Mlil
  pub variable_name : Variable → Bytes

-- CoBRA's functions that build expressions.
pub record Factory : Type 0 where
  pub constant : ℕ → Expr
  pub variable : ℕ → Expr
  pub negate : Expr → Expr
  pub bitwise_not : Expr → Expr
  pub add : Expr → Expr → Expr
  pub mul : Expr → Expr → Expr
  pub bitwise_and : Expr → Expr → Expr
  pub bitwise_or : Expr → Expr → Expr
  pub bitwise_xor : Expr → Expr → Expr
  pub logical_shr : Expr → ℕ → Expr
  pub clone_expr : Expr → Expr

pub record RecoveryStats : Type 0 where
  pub nodes : ℕ
  pub max_depth : ℕ
  pub has_arithmetic : Bool
  pub has_bitwise : Bool

-- What changes while a tree is recovered: the result's tables, statistics and error,
-- `m_activeExpressions` and `m_expressionCache`.
pub record RecoveryState : Type 0 where
  pub variables : List Bytes
  pub variable_by_name : List (Bytes × Variable)
  pub stats : RecoveryStats
  pub error : Bytes
  pub active : List ℕ
  pub cache : List (ℕ × Expr)

abbrev pub initial_state : RecoveryState
initial_state = record {
  variables = [];
  variable_by_name = [];
  stats = record { nodes = 0; max_depth = 0; has_arithmetic = false; has_bitwise = false };
  error = [];
  active = [];
  cache = [];
}

-- A method that returns a value or null, and changes the state.
abbrev pub Run {ℓ} : Type ℓ → Type ℓ
Run A = RecoveryState → Option A × RecoveryState

infixl 5 ◌>>=◌
abbrev pub ◌>>=◌ {ℓ κ} : {A : Type ℓ} {B : Type κ} → Run A → (A → Run B) → Run B
◌>>=◌ m f s = let (r, s1) = m s in elim r [ none ↦ (none, s1) | some a ↦ f a s1 ]

abbrev pub pure {ℓ} : {A : Type ℓ} → A → Run A
pure a s = (some a, s)

-- `return nullptr`
abbrev pub stop {ℓ} : {A : Type ℓ} → Run A
stop s = (none, s)

-- Two calls, one after the other whatever the first returns; then null if one of them was null.
abbrev pub both {ℓ} : {A : Type ℓ} → Run A → Run A → (A → A → Run A) → Run A
both m n f s =
    let (left, s1) = m s in
    let (right, s2) = n s1 in
    elim left [ none ↦ (none, s2) | some a ↦ elim right [ none ↦ (none, s2) | some b ↦ f a b s2 ] ]

abbrev pub is_empty {ℓ} : {A : Type ℓ} → List A → Bool
is_empty [] = true
is_empty (x ∷ xs) = false

-- `Fail`: the first reason stays.
unfoldable pub failed : Bytes → RecoveryState → RecoveryState
failed reason s = if is_empty s.error then record s { error = reason } else s

abbrev pub fail {ℓ} : {A : Type ℓ} → Bytes → Run A
fail reason s = (none, failed reason s)

unfoldable pub width_mask : ℕ → ℕ
width_mask bit_width = if leb 64 bit_width then 2 ^ 64 - 1 else 2 ^ bit_width - 1

-- `static_cast<uint32_t>(instruction.size * 8)` of a size that is at most 8, or 0.
unfoldable pub semantic_width : ℕ → Mlil → Run ℕ
semantic_width bit_width instruction s =
    if size instruction == 0 || ltb 8 (size instruction)
    then (some 0, failed (codes "unsupported expression width") s)
    else if ltb bit_width (size instruction * 8)
    then (some 0, failed (codes "expression is wider than its recovery root") s)
    else (some (size instruction * 8), s)

unfoldable pub counted : ℕ → RecoveryState → RecoveryState
counted depth s = record s {
  stats = record s.stats {
    nodes = s.stats.nodes + 1;
    max_depth = if ltb s.stats.max_depth depth then depth else s.stats.max_depth;
  };
}

unfoldable pub count_node : AnalysisLimits → ℕ → Run Bool
count_node limits depth s =
    if ltb limits.max_nodes (counted depth s).stats.nodes || ltb limits.max_depth depth
    then (some false, failed (codes "SSA expansion budget exceeded") (counted depth s))
    else (some true, counted depth s)

-- `m_result->stats.hasArithmetic = true`, and the same for `hasBitwise`.
abbrev pub note_arithmetic : RecoveryState → RecoveryState
note_arithmetic s = record s { stats = record s.stats { has_arithmetic = true } }

abbrev pub note_bitwise : RecoveryState → RecoveryState
note_bitwise s = record s { stats = record s.stats { has_bitwise = true } }

unfoldable pub narrow : Factory → ℕ → Expr → ℕ → Run Expr
narrow C bit_width expression width =
    if width == 0 || ltb bit_width width
    then fail (codes "invalid semantic width")
    else if width == bit_width
    then pure expression
    else pure (C.bitwise_and expression (C.constant (width_mask width)))
