-- ===== src/Tests/RecoveryTests.antt =====
-- Runs of the model of `ExpressionRecovery` of src/BNAdapter.cpp.
use co_bra_for_binary_ninja.Prelude.{
  ℕ, ◌+◌, ◌≤◌, ◌≡◌, length, get_elem?, refl, false, if◌then◌else◌, ◌==◌, [], ◌∷◌, some, Bytes,
  codes,
}
use co_bra_for_binary_ninja.Decimal.{digits, to_string}
use co_bra_for_binary_ninja.Cobra.{Kind, Expr, node, nil, cons}
use co_bra_for_binary_ninja.Adapter.Mlil.{Mlil, Operation, ins, Operands, end, expr, plain}
use co_bra_for_binary_ninja.Adapter.Types.{default_limits}
use co_bra_for_binary_ninja.Adapter.Recovery.State.{Ssa, Factory}
use co_bra_for_binary_ninja.Adapter.Recovery.Visit.{recover, RecoveredExpression}
use co_bra_for_binary_ninja.Adapter.Recovery.State.{
  failed, width_mask, semantic_width, counted, count_node, narrow,
}
use co_bra_for_binary_ninja.Adapter.Recovery.Leaves.{
  leaf_name, find_name, emplace_name, with_leaf, with_bit, rolled_back, place_leaf, variable_leaf,
  predicate_boolean_leaf, inline_source, inline_definition, expand_variable,
}
use co_bra_for_binary_ninja.Adapter.Recovery.Visit.{
  find_cached, emplace_cached, erase_active, binary, subtract, unary, zero_extend, shift_right,
  shift_left, recover_operation, store_recovered, visit_active, visit_uncached, visit_cached,
  visit_step, visit, recover_operands, recover_comparison,
}
use co_bra_for_binary_ninja.Adapter.Recovery.State.{initial_state}
use co_bra_for_binary_ninja.Adapter.Recovery.Leaves.{Task}
use co_bra_for_binary_ninja.Adapter.Recovery.Visit.{enough_fuel}
use co_bra_for_binary_ninja.Adapter.Recovery.Names.{recover_names}
use co_bra_for_binary_ninja.Adapter.Recovery.Fuel.{visit_terminates}
use co_bra_for_binary_ninja.Adapter.Recovery.Spending.{recover_nodes_bounded}
use co_bra_for_binary_ninja.Adapter.BuildMlil.{lookup_name}
use co_bra_for_binary_ninja.Adapter.Types.{Variable}

-- The factories build the nodes that they are named for.
abbrev pub toy_factory : Factory
toy_factory = record {
  constant = λ c. node Kind.constant c 0 nil;
  variable = λ v. node Kind.variable 0 v nil;
  negate = λ e. node Kind.neg 0 0 (cons e nil);
  bitwise_not = λ e. node Kind.not 0 0 (cons e nil);
  add = λ a b. node Kind.add 0 0 (cons a (cons b nil));
  mul = λ a b. node Kind.mul 0 0 (cons a (cons b nil));
  bitwise_and = λ a b. node Kind.and 0 0 (cons a (cons b nil));
  bitwise_or = λ a b. node Kind.or 0 0 (cons a (cons b nil));
  bitwise_xor = λ a b. node Kind.xor 0 0 (cons a (cons b nil));
  logical_shr = λ e c. node Kind.shr c 0 (cons e nil);
  clone_expr = λ e. e;
}

-- Accessors over a layout of the operands: a constant, or a variable and its version, is
-- `plain`; the others are expressions.
abbrev first_plain : Operands → ℕ
first_plain (plain n os) = n
first_plain _ = 0

abbrev second_plain : Operands → ℕ
second_plain (plain n os) = first_plain os
second_plain _ = 0

abbrev nothing : Mlil
nothing = ins 0 (Operation.other_operation 0) 0 0 end

abbrev first_expr : Operands → Mlil
first_expr (expr e os) = e
first_expr (plain n (plain m (expr e os))) = e
first_expr _ = nothing

abbrev second_expr : Operands → Mlil
second_expr (expr e os) = first_expr os
second_expr _ = nothing

abbrev operands : Mlil → Operands
operands (ins i op s a os) = os

abbrev read : ℕ → ℕ → ℕ → Mlil
read i v version = ins i Operation.var_ssa 4 0 (plain v (plain version end))

abbrev const : ℕ → ℕ → Mlil
const i n = ins i Operation.const 4 0 (plain n end)

abbrev load : ℕ → Mlil
load i = ins i (Operation.other_operation 1) 4 0 end

abbrev two_operands : ℕ → Operation → Mlil → Mlil → Mlil
two_operands i op l r = ins i op 4 0 (expr l (expr r end))

abbrev set : ℕ → ℕ → ℕ → Mlil → Mlil
set i v version e = ins i Operation.set_var_ssa 4 0 (plain v (plain version (expr e end)))

-- The variables: a = 1, n = 2, u = 3, y = 4, x = 5, z = 6. The definitions:
--   n#1 = 7 + load, y#1 = ~u#0, x#1 = (n#1 | y#1) | load
abbrev define_n : Mlil
define_n = set 50 2 1 (two_operands 51 Operation.add (const 52 7) (load 53))

abbrev define_y : Mlil
define_y = set 60 4 1 (ins 61 Operation.not 4 0 (expr (read 62 3 0) end))

abbrev define_x : Mlil
define_x = set 70 5 1 (
    two_operands 71 Operation.or (two_operands 72 Operation.or (read 73 2 1) (read 74 4 1))
      (load 75))

abbrev pub toy_ssa : Ssa
toy_ssa = record {
  expr_count = 100;
  get_expr = λ i. nothing;
  non_ssa_expr_index = λ i. i;
  instruction_count = 10;
  get_instruction = λ i. if i == 2 then define_n else if i == 4 then define_y else define_x;
  ssa_var_definition = λ v. v.variable;
  ssa_var_version = λ root v. if v == 2 then 1 else if v == 4 then 1 else if v == 5 then 1 else 0;
  constant = λ e. first_plain (operands e);
  source_ssa_variable =
      λ e. record { variable = first_plain (operands e); version = second_plain (operands e) };
  source_variable = λ e. first_plain (operands e);
  dest_ssa_variable =
      λ e. record { variable = first_plain (operands e); version = second_plain (operands e) };
  source_expr = λ e. first_expr (operands e);
  left_expr = λ e. first_expr (operands e);
  right_expr = λ e. second_expr (operands e);
  variable_name = λ v. codes "v";
}

-- (a#0 + (1 + 2)) + (x#1 + (y#1 ^ z#0))
abbrev stale_root : Mlil
stale_root =
    two_operands 1 Operation.add
      (two_operands 2 Operation.add (read 3 1 0)
        (two_operands 4 Operation.add (const 5 1) (const 6 2)))
      (two_operands 7 Operation.add (read 8 5 1)
        (two_operands 9 Operation.xor (read 10 4 1) (read 11 6 0)))

abbrev stale_result : RecoveredExpression
stale_result = recover toy_ssa toy_factory default_limits 32 stale_root

abbrev leaf : ℕ → Expr
leaf i = node Kind.variable 0 i nil

-- What `y#1 ^ z#0` is recovered as: variable 2 is z, and y#1 is ~u#0. While x#1 was expanded, its
-- entry of ~u#0 was written with u as variable 2. The expansion of n#1, which fails in it, clears
-- the cache, so the cache has as many entries when x#1 fails as when it began, is not cleared, and
-- keeps the entry after u is taken back.
abbrev read_as : Expr
read_as = node Kind.xor 0 0 (cons (node Kind.not 0 0 (cons (leaf 2) nil)) (cons (leaf 2) nil))

stale_run :
    (stale_result.expression
      ≡ some (
          toy_factory.add
            (toy_factory.add
              (leaf 0)
              (toy_factory.add (node Kind.constant 1 0 nil) (node Kind.constant 2 0 nil)))
            (toy_factory.add (leaf 1) read_as)))
    × (stale_result.result.variables ≡ codes "v__1_0" ∷ codes "v__5_1" ∷ codes "v__6_0" ∷ [])
unfolding failed width_mask semantic_width counted count_node narrow leaf_name find_name
    emplace_name with_leaf with_bit rolled_back place_leaf variable_leaf predicate_boolean_leaf
    inline_source inline_definition expand_variable find_cached emplace_cached erase_active binary
    subtract unary zero_extend shift_right shift_left recover_operation store_recovered visit_active
    visit_uncached visit_cached visit_step visit recover recover_operands recover_comparison
    to_string digits
stale_run = (refl, refl)

recover_names_example :
    (length stale_result.result.variables ≤ 16)
    × ((index : ℕ) (name : Bytes)
        → get_elem? stale_result.result.variables index ≡ some name
        → (v : Variable) × (lookup_name name stale_result.result.variable_by_name ≡ some v))
recover_names_example = recover_names toy_ssa toy_factory default_limits 32 stale_root

abbrev task : Task
task = record {
  ssa = toy_ssa;
  factory = toy_factory;
  limits = default_limits;
  bit_width = 32;
  root = stale_root;
  predicate_recovery = false;
}

visit_terminates_example :
    visit task (enough_fuel task + 8) 0 stale_root initial_state
    ≡ visit task (enough_fuel task) 0 stale_root initial_state
visit_terminates_example = visit_terminates task 8 stale_root initial_state

recover_nodes_bounded_example : stale_result.result.stats.nodes ≤ 392
recover_nodes_bounded_example =
    recover_nodes_bounded toy_ssa toy_factory default_limits 32 stale_root
