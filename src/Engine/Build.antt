-- ===== src/Engine/Build.antt =====
-- src/Engine.cpp: the loop over the variables, `BuildPredicateExpr` and `BuildComparison`.
use co_bra_for_binary_ninja.Prelude.{
  ℕ, zero, suc, ◌+◌, if◌then◌else◌, leb, List, [], ◌∷◌, ◌++◌, Option, none, some, get_elem?, Bytes,
  codes,
}
use co_bra_for_binary_ninja.Decimal.{to_string}
use co_bra_for_binary_ninja.Cobra.{Kind, Expr, node, Children, nil, null, cons}
use co_bra_for_binary_ninja.Engine.Types.{ComparisonKind}
use co_bra_for_binary_ninja.Engine.Z3.{Terms}

unfoldable pub symbol_name : ℕ → Bytes
symbol_name index = codes "smba_predicate_var_" ++ to_string index

module _ (T : Terms) where
  -- The Z3 constants for `count` variables, from `index` on.
  unfoldable pub z3_variables : ℕ → ℕ → ℕ → List T.Ast
  z3_variables bit_width index zero = []
  z3_variables bit_width index (suc count) =
      T.mk_const (symbol_name index) bit_width ∷ z3_variables bit_width (index + 1) count

  abbrev both : (T.Ast → T.Ast → T.Ast) → Option T.Ast → Option T.Ast → Option T.Ast
  both f (some x) (some y) = some (f x y)
  both f (some x) none = none
  both f none y = none

  abbrev one : (T.Ast → T.Ast) → Option T.Ast → Option T.Ast
  one f (some x) = some (f x)
  one f none = none

  -- The switch, over the terms built for the first two children. `none` is the null pointer of
  -- the last line, or an access outside `children` or `variables`, or through a null child.
  unfoldable pub build_node :
      List T.Ast → ℕ → Kind → ℕ → ℕ → Option T.Ast → Option T.Ast → Option T.Ast
  build_node variables bit_width Kind.constant c v x y = some (T.mk_unsigned_int64 c bit_width)
  build_node variables bit_width Kind.variable c v x y = get_elem? variables v
  build_node variables bit_width Kind.add c v x y = both T.mk_bvadd x y
  build_node variables bit_width Kind.mul c v x y = both T.mk_bvmul x y
  build_node variables bit_width Kind.and c v x y = both T.mk_bvand x y
  build_node variables bit_width Kind.or c v x y = both T.mk_bvor x y
  build_node variables bit_width Kind.xor c v x y = both T.mk_bvxor x y
  build_node variables bit_width Kind.not c v x y = one T.mk_bvnot x
  build_node variables bit_width Kind.neg c v x y = one T.mk_bvneg x
  build_node variables bit_width Kind.shr c v x y =
      if leb bit_width c
      then some (T.mk_unsigned_int64 0 bit_width)
      else one (λ value. T.mk_bvlshr value (T.mk_unsigned_int64 c bit_width)) x
  build_node variables bit_width (Kind.other k) c v x y = none

  -- `build_first` and `build_second` build `*expression.children[0]` and `*expression.children[1]`.
  unfoldable mutual
    pub build_predicate_expr : List T.Ast → ℕ → Expr → Option T.Ast
    build_predicate_expr variables bit_width (node kind c v cs) =
        build_node variables bit_width kind c v (build_first variables bit_width cs)
          (build_second variables bit_width cs)

    pub build_first : List T.Ast → ℕ → Children → Option T.Ast
    build_first variables bit_width nil = none
    build_first variables bit_width (null cs) = none
    build_first variables bit_width (cons e cs) = build_predicate_expr variables bit_width e

    pub build_second : List T.Ast → ℕ → Children → Option T.Ast
    build_second variables bit_width nil = none
    build_second variables bit_width (null cs) = build_first variables bit_width cs
    build_second variables bit_width (cons e cs) = build_first variables bit_width cs

  unfoldable pub build_comparison : T.Ast → T.Ast → ComparisonKind → Option T.Ast
  build_comparison l r ComparisonKind.equal = some (T.mk_eq l r)
  build_comparison l r ComparisonKind.not_equal = some (T.mk_not (T.mk_eq l r))
  build_comparison l r ComparisonKind.unsigned_less_than = some (T.mk_bvult l r)
  build_comparison l r ComparisonKind.unsigned_less_equal = some (T.mk_bvule l r)
  build_comparison l r ComparisonKind.unsigned_greater_equal = some (T.mk_bvuge l r)
  build_comparison l r ComparisonKind.unsigned_greater_than = some (T.mk_bvugt l r)
  build_comparison l r ComparisonKind.signed_less_than = some (T.mk_bvslt l r)
  build_comparison l r ComparisonKind.signed_less_equal = some (T.mk_bvsle l r)
  build_comparison l r ComparisonKind.signed_greater_equal = some (T.mk_bvsge l r)
  build_comparison l r ComparisonKind.signed_greater_than = some (T.mk_bvsgt l r)
  build_comparison l r (ComparisonKind.other k) = none
