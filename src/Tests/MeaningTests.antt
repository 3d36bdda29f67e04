-- ===== src/Tests/MeaningTests.antt =====
-- `BuildMLIL` of src/BNAdapter.cpp with a new function whose expressions are their values.
use co_bra_for_binary_ninja.Prelude.{
  ℕ, ◌+◌, ◌*◌, ◌-◌, ◌/◌, ◌%◌, ◌^◌, ◌≡◌, refl, arith, bit_and, bit_or, bit_xor, List, [], ◌∷◌, Bytes,
  codes,
}
use co_bra_for_binary_ninja.Cobra.{Kind, Expr, node, nil, cons, value}
use co_bra_for_binary_ninja.Engine.SimplifySound.{by_name}
use co_bra_for_binary_ninja.Adapter.Types.{Variable, default_limits}
use co_bra_for_binary_ninja.Adapter.Outcome.{returned}
use co_bra_for_binary_ninja.Adapter.BuildMlil.{
  Builder, build_mlil, build_kind, build_var, lookup_name,
}
use co_bra_for_binary_ninja.Adapter.BuildMeaning.{Semantics, IsShifting, named, build_mlil_means}
use co_bra_for_binary_ninja.Adapter.Copy.{replacement}
use co_bra_for_binary_ninja.Adapter.Replaced.{IsFaithful, replacement_faithful}
use co_bra_for_binary_ninja.Tests.CollectTests.{
  toy_services, compared, ssa, found, found-IsJustified,
}

abbrev Value : Type 0
Value = (Variable → ℕ) → ℕ

abbrev value_builder : Builder
value_builder = record {
  ExprId = Value;
  const = λ s c l env. c % 2 ^ (s * 8);
  var = λ s v l env. env v % 2 ^ (s * 8);
  add = λ s x y l env. (x env + y env) % 2 ^ (s * 8);
  mult = λ s x y l env. x env * y env % 2 ^ (s * 8);
  and_expr = λ s x y l env. bit_and (x env) (y env);
  or_expr = λ s x y l env. bit_or (x env) (y env);
  xor_expr = λ s x y l env. bit_xor (x env) (y env);
  not_expr = λ s x l env. 2 ^ (s * 8) - 1 - x env;
  neg = λ s x l env. (2 ^ (s * 8) - x env) % 2 ^ (s * 8);
  logical_shift_right = λ s x y l env. x env / 2 ^ y env;
  copy = λ e ids l. returned (λ env. 0);
  finalize = λ blocks. returned tt;
  out_of_range = codes "out of range";
}

abbrev value_semantics : Semantics value_builder
value_semantics = record {
  eval = λ x env. x env;
  const = λ s c l env. refl;
  var = λ s v l env. refl;
  add = λ s x y l env. refl;
  mult = λ s x y l env. refl;
  and_expr = λ s x y l env. refl;
  or_expr = λ s x y l env. refl;
  xor_expr = λ s x y l env. refl;
  not_expr = λ s x l env. refl;
  neg = λ s x l env. refl;
  logical_shift_right = λ s x y l env h. refl;
}

-- (a + ~b) >> 1
abbrev shifted : Expr
shifted = node Kind.shr 1 0 (
    cons
      (node Kind.add 0 0 (
        cons (node Kind.variable 0 0 nil)
          (cons (node Kind.not 0 0 (cons (node Kind.variable 0 1 nil) nil)) nil)))
      nil)

abbrev names : List Bytes
names = codes "a" ∷ codes "b" ∷ []

abbrev table : List (Bytes × Variable)
table = (codes "a", 7) ∷ (codes "b", 9) ∷ []

abbrev built : Value
built env = (env 7 % 2 ^ 8 + (2 ^ 8 - 1 - env 9 % 2 ^ 8)) % 2 ^ 8 / 2 ^ (1 % 2 ^ 8)

run_built : build_mlil value_builder names table 1 0 shifted ≡ returned built
unfolding build_mlil build_kind build_var lookup_name
run_built = refl

shifted-IsShifting : IsShifting 8 shifted
unfolding IsShifting
shifted-IsShifting = (omega arith, ((tt, ((tt, tt), ((tt, ((tt, tt), tt)), tt))), tt))

build_mlil_means_example :
    built (λ v. v * 30) ≡ value 8 (by_name (named table (λ v. v * 30)) names) shifted
build_mlil_means_example =
    build_mlil_means value_builder value_semantics names table 1 0 shifted built shifted-IsShifting
      run_built (λ v. v * 30)

-- The comparison that is always true is replaced by 1.
run_replacement : replacement value_builder found 1 ≡ returned (λ env. 1)
unfolding replacement
run_replacement = refl

replacement_faithful_example :
    IsFaithful toy_services default_limits compared ssa value_builder value_semantics found
      (λ env. 1)
replacement_faithful_example =
    replacement_faithful toy_services default_limits compared ssa value_builder value_semantics
      found 1 (λ env. 1) (omega arith) tt found-IsJustified run_replacement
