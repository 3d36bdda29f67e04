-- ===== src/Engine/Validate.antt =====
-- src/Engine.cpp: `ValidateComparisonExpr`.
use co_bra_for_binary_ninja.Prelude.{ℕ, if◌then◌else◌, ltb, ◌==◌, Bytes, codes}
use co_bra_for_binary_ninja.Cobra.{Kind, Expr, node, Children, nil, null, cons, count}

-- `true`, or `false` with the text that the call stores in `reason`.
pub data Validation : Type 0 where
  valid : Validation
  invalid : Bytes → Validation

-- `return A && B` where each stores its own reason; B is called only after A succeeds.
abbrev pub and_then : Validation → Validation → Validation
and_then valid v = v
and_then (invalid r) v = invalid r

-- What the switch does: return at once, or go on with the number of children to expect.
pub data Expected : Type 0 where
  result : Validation → Expected
  children : ℕ → Expected

unfoldable pub expected_children : Kind → ℕ → ℕ → Expected
expected_children Kind.constant var_index size = result valid
expected_children Kind.variable var_index size = result (
    if ltb var_index size
    then valid
    else invalid (codes "expression references a variable index outside the shared variable list"))
expected_children Kind.add var_index size = children 2
expected_children Kind.mul var_index size = children 2
expected_children Kind.and var_index size = children 2
expected_children Kind.or var_index size = children 2
expected_children Kind.xor var_index size = children 2
expected_children Kind.not var_index size = children 1
expected_children Kind.neg var_index size = children 1
expected_children Kind.shr var_index size = children 1
expected_children (Kind.other k) var_index size =
    result (invalid (codes "expression contains an unsupported node kind"))

-- The rest of the function, given what the loop over the children finds.
unfoldable pub validate_node : Expected → ℕ → Validation → Validation
validate_node (result v) size loop = v
validate_node (children expected) size loop =
    if size == expected then loop else invalid (codes "expression has an invalid child count")

-- `variables` is the size of the shared variable list.
unfoldable mutual
  pub validate_comparison_expr : ℕ → Expr → Validation
  validate_comparison_expr variables (node kind constant_val var_index cs) =
      validate_node (expected_children kind var_index variables) (count cs)
        (validate_children variables cs)

  pub validate_children : ℕ → Children → Validation
  validate_children variables nil = valid
  validate_children variables (null cs) = invalid (codes "expression contains a null child")
  validate_children variables (cons child cs) =
      and_then (validate_comparison_expr variables child) (validate_children variables cs)
