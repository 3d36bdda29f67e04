-- ===== src/Adapter/Recovery/Visit.antt =====
-- src/BNAdapter.cpp: `Binary`, `Visit`, `Recover` and `RecoverComparison`.
use co_bra_for_binary_ninja.Prelude.{
  ℕ, zero, suc, ◌+◌, ◌^◌, bit_and, Bool, true, false, not, ◌||◌, if◌then◌else◌, ltb, leb, ◌==◌,
  List, [], ◌∷◌, Option, none, some, Bytes, codes,
}
use co_bra_for_binary_ninja.Cobra.{Expr}
use co_bra_for_binary_ninja.Adapter.Mlil.{Mlil, Operation, size, operation, expr_index}
use co_bra_for_binary_ninja.Adapter.Types.{AnalysisLimits}
use co_bra_for_binary_ninja.Adapter.Select.{contains}
use co_bra_for_binary_ninja.Adapter.Recovery.State.{
  Ssa, Factory, RecoveryState, initial_state, Run, ◌>>=◌, pure, stop, both, fail, failed,
  width_mask, semantic_width, count_node, note_arithmetic, note_bitwise, narrow,
}
use co_bra_for_binary_ninja.Adapter.Recovery.Leaves.{
  Task, differs, variable_leaf, predicate_boolean_leaf, expand_variable,
}

abbrev pub is_const : Operation → Bool
is_const Operation.const = true
is_const _ = false

unfoldable pub find_cached : ℕ → List (ℕ × Expr) → Option Expr
find_cached i [] = none
find_cached i ((j, e) ∷ rest) = if j == i then some e else find_cached i rest

-- `emplace` does not replace an entry.
unfoldable pub emplace_cached : ℕ → Expr → List (ℕ × Expr) → List (ℕ × Expr)
emplace_cached i e entries = elim (find_cached i entries) [
  | none ↦ (i, e) ∷ entries
  | some old ↦ entries
]

unfoldable pub erase_active : ℕ → List ℕ → List ℕ
erase_active i [] = []
erase_active i (j ∷ js) = let rest = erase_active i js in if j == i then rest else j ∷ rest

-- The kinds that `Visit` hands to `Binary`.
pub data BinaryKind : Type 0 where
  add mul and or xor : BinaryKind

module _ (T : Task) where
  abbrev pub combine : BinaryKind → Expr → Expr → Expr
  combine add a b = T.factory.add a b
  combine mul a b = T.factory.mul a b
  combine and a b = T.factory.bitwise_and a b
  combine or a b = T.factory.bitwise_or a b
  combine xor a b = T.factory.bitwise_xor a b

  -- `child` is `Visit` one level deeper, and `width` the instruction's semantic width.
  module _ (child : Mlil → Run Expr) where
    unfoldable pub binary : Mlil → BinaryKind → Run Expr
    binary instruction kind = do
      width ← semantic_width T.bit_width instruction
      if width == 0
          then stop
          else if differs (T.ssa.left_expr instruction) instruction
              || differs (T.ssa.right_expr instruction) instruction
          then fail (codes "mixed-width binary operation without MLIL_ZX")
          else both (child (T.ssa.left_expr instruction)) (child (T.ssa.right_expr instruction))
              (λ left right. narrow T.factory T.bit_width (combine kind left right) width)

    unfoldable pub subtract : Mlil → ℕ → Run Expr
    subtract instruction width =
        if differs (T.ssa.left_expr instruction) instruction
          || differs (T.ssa.right_expr instruction) instruction
        then fail (codes "mixed-width subtraction without MLIL_ZX")
        else both (child (T.ssa.left_expr instruction)) (child (T.ssa.right_expr instruction))
            (λ left right.
              narrow T.factory T.bit_width (T.factory.add left (T.factory.negate right)) width)

    -- One operand of the instruction's size.
    unfoldable pub unary : (Expr → Expr) → Bytes → Mlil → ℕ → Run Expr
    unary f mixed instruction width =
        if differs (T.ssa.source_expr instruction) instruction then fail mixed else do
          operand ← child (T.ssa.source_expr instruction)
          narrow T.factory T.bit_width (f operand) width

    -- Where the operand is null, `Narrow` gives null too.
    unfoldable pub zero_extend : Mlil → ℕ → Run Expr
    zero_extend instruction width = do
      source_width ← semantic_width T.bit_width (T.ssa.source_expr instruction)
      if source_width == 0 || leb width source_width
          then fail (codes "invalid MLIL_ZX width transition")
          else do
            operand ← child (T.ssa.source_expr instruction)
            narrow T.factory T.bit_width operand source_width

    unfoldable pub shift_right : Mlil → ℕ → Run Expr
    shift_right instruction width =
        if differs (T.ssa.left_expr instruction) instruction
        then fail (codes "mixed-width logical shift without MLIL_ZX")
        else if not (is_const (operation (T.ssa.right_expr instruction)))
        then fail (codes "variable logical shift is unsupported")
        else do
          operand ← child (T.ssa.left_expr instruction)
          narrow T.factory T.bit_width
              (T.factory.logical_shr operand (T.ssa.constant (T.ssa.right_expr instruction))) width

    unfoldable pub shift_left : Mlil → ℕ → Run Expr
    shift_left instruction width =
        if differs (T.ssa.left_expr instruction) instruction
        then fail (codes "mixed-width left shift without MLIL_ZX")
        else if not (is_const (operation (T.ssa.right_expr instruction)))
        then fail (codes "variable left shift is unsupported")
        else if leb width (T.ssa.constant (T.ssa.right_expr instruction))
        then pure (T.factory.constant 0)
        else do
          operand ← child (T.ssa.left_expr instruction)
          narrow T.factory T.bit_width
              (T.factory.mul operand
                (T.factory.constant (2 ^ T.ssa.constant (T.ssa.right_expr instruction))))
              width

    -- The `switch`, by the operation of the instruction.
    unfoldable pub recover_operation : Operation → Mlil → ℕ → Run Expr
    recover_operation Operation.const instruction width s =
        pure (T.factory.constant (bit_and (T.ssa.constant instruction) (width_mask width))) s
    recover_operation Operation.var_ssa instruction width s =
        expand_variable T child (T.ssa.source_ssa_variable instruction) width s
    recover_operation Operation.var instruction width s =
        variable_leaf T (record { variable = T.ssa.source_variable instruction; version = 0 }) width
          s
    recover_operation Operation.add instruction width s = binary instruction add (note_arithmetic s)
    recover_operation Operation.sub instruction width s =
        subtract instruction width (note_arithmetic s)
    recover_operation Operation.neg instruction width s =
        unary T.factory.negate (codes "mixed-width negate without MLIL_ZX") instruction width
          (note_arithmetic s)
    recover_operation Operation.mul instruction width s = binary instruction mul (note_arithmetic s)
    recover_operation Operation.and instruction width s = binary instruction and (note_bitwise s)
    recover_operation Operation.or instruction width s = binary instruction or (note_bitwise s)
    recover_operation Operation.xor instruction width s = binary instruction xor (note_bitwise s)
    recover_operation Operation.not instruction width s =
        unary T.factory.bitwise_not (codes "mixed-width bitwise-not without MLIL_ZX") instruction
          width (note_bitwise s)
    recover_operation Operation.zx instruction width s = zero_extend instruction width s
    recover_operation Operation.bool_to_int instruction width s = predicate_boolean_leaf T width s
    recover_operation Operation.lsr instruction width s =
        shift_right instruction width (note_bitwise s)
    recover_operation Operation.lsl instruction width s =
        shift_left instruction width (note_arithmetic s)
    recover_operation _ instruction width s =
        fail (codes "operation is an impurity or unsupported boundary") s

    unfoldable pub store_recovered : ℕ → Expr → Run Expr
    store_recovered i recovered s = (
      some recovered,
      record s { cache = emplace_cached i (T.factory.clone_expr recovered) s.cache },
    )

    -- From the insertion into `m_activeExpressions` to the end of its guard.
    unfoldable pub visit_active : Mlil → ℕ → Run Expr
    visit_active instruction width s =
        let i = expr_index instruction in
        let (recovered, s1) =
          (recover_operation (operation instruction) instruction width >>= store_recovered i)
            (record s { active = i ∷ s.active }) in
        if contains s.active i
        then fail (codes "cycle in SSA def-use expansion") s
        else (recovered, record s1 { active = erase_active i s1.active })

    -- What follows a miss of the cache.
    unfoldable pub visit_uncached : ℕ → Mlil → ℕ → Run Expr
    visit_uncached depth instruction width = do
      affordable ← count_node T.limits depth
      if affordable then visit_active instruction width else stop

    unfoldable pub visit_cached : ℕ → Mlil → ℕ → Run Expr
    visit_cached depth instruction width s = elim (find_cached (expr_index instruction) s.cache) [
      | some e ↦ (some (T.factory.clone_expr e), s)
      | none ↦ visit_uncached depth instruction width s
    ]

    unfoldable pub visit_step : ℕ → Mlil → Run Expr
    visit_step depth instruction = do
      width ← semantic_width T.bit_width instruction
      if width == 0 then stop else visit_cached depth instruction width

  -- `Visit`, which nests no deeper than `fuel` calls.
  unfoldable pub visit : ℕ → ℕ → Mlil → Run Expr
  visit zero depth instruction = stop
  visit (suc fuel) depth instruction = visit_step (visit fuel (depth + 1)) depth instruction

  -- `CountNode` fails below `max_depth`, so no more calls are nested.
  abbrev pub enough_fuel : ℕ
  enough_fuel = T.limits.max_depth + 2

-- `RecoveredExpression`
pub record RecoveredExpression : Type 0 where
  pub expression : Option Expr
  pub predicate_left : Option Expr
  pub predicate_right : Option Expr
  pub result : RecoveryState

unfoldable pub recover : Ssa → Factory → AnalysisLimits → ℕ → Mlil → RecoveredExpression
recover S C limits bit_width root =
    let T : Task = record {
      ssa = S;
      factory = C;
      limits = limits;
      bit_width = bit_width;
      root = root;
      predicate_recovery = false;
    } in
    let (e, s) = visit T (enough_fuel T) 0 root initial_state in
    record { expression = e; predicate_left = none; predicate_right = none; result = s }

-- The right operand is visited only where the left one was recovered.
unfoldable pub recover_operands : Task → Mlil → Mlil → RecoveredExpression
recover_operands T left right =
    let (l, s) = visit T (enough_fuel T) 0 left initial_state in
    let (r, s1) = visit T (enough_fuel T) 0 right s in
    elim l [
      | none ↦ record {
        expression = none;
        predicate_left = none;
        predicate_right = none;
        result = s;
      }
      | some e ↦ record {
        expression = none;
        predicate_left = some e;
        predicate_right = r;
        result = s1;
      }
    ]

abbrev pub unrecovered : Bytes → RecoveredExpression
unrecovered reason = record {
  expression = none;
  predicate_left = none;
  predicate_right = none;
  result = failed reason initial_state;
}

unfoldable pub recover_comparison : Ssa → Factory → AnalysisLimits → ℕ → Mlil → RecoveredExpression
recover_comparison S C limits bit_width root =
    if size root == 0 || ltb 8 (size root)
    then unrecovered (codes "unsupported comparison width")
    else if differs (S.left_expr root) root || differs (S.right_expr root) root
    then unrecovered (codes "comparison operands do not have the comparison width")
    else recover_operands
        (record {
          ssa = S;
          factory = C;
          limits = limits;
          bit_width = bit_width;
          root = root;
          predicate_recovery = true;
        })
        (S.left_expr root) (S.right_expr root)
