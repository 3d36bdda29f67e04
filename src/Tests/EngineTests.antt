-- ===== src/Tests/EngineTests.antt =====
-- Runs of the model of src/Engine.cpp with the toy instance of Z3, and its theorems at those inputs.
use co_bra_for_binary_ninja.Prelude.{
  ℕ, ◌≡◌, ◌⊎◌, ◌↔◌, inl, refl, arith, Bool, true, false, List, [], ◌∷◌, Option, none, some, Bytes,
  codes,
}
use co_bra_for_binary_ninja.Cobra.{count, Kind, Expr, node, nil, cons, Assignment, value}
use co_bra_for_binary_ninja.Engine.Types.{
  default_options, is_supported_comparison, ComparisonKind, PredicateStatus, PredicateResult,
}
use co_bra_for_binary_ninja.Engine.Validate.{
  valid, validate_node, expected_children, validate_comparison_expr,
}
use co_bra_for_binary_ninja.Engine.Meaning.{holds}
use co_bra_for_binary_ninja.Engine.Shape.{WellShaped, validate_comparison_expr_exact}
use co_bra_for_binary_ninja.Engine.Prove.{
  prove_constant_comparison, prove_with_z3, decide_predicate, query_predicate, after_false_query,
}
use co_bra_for_binary_ninja.Engine.Build.{
  build_predicate_expr, build_node, build_comparison, z3_variables, symbol_name,
}
use co_bra_for_binary_ninja.Engine.ProveResult.{
  IsReady, IsSettled, prove_constant_comparison_answers, proved_constant_sound, not_constant_sound,
  prove_constant_comparison_settles, prove_constant_comparison_refuses,
}
use co_bra_for_binary_ninja.Tests.ToyZ3.{toy_terms, toy-TermLaws, toy_solvers, toy-SolverLaws}

abbrev const : ℕ → Expr
const c = node Kind.constant c 0 nil

abbrev var : ℕ → Expr
var i = node Kind.variable 0 i nil

-- 250 + 10, which wraps to 4 over bytes
abbrev wrapped_sum : Expr
wrapped_sum = node Kind.add 0 0 (cons (const 250) (cons (const 10) nil))

abbrev run : Expr → Expr → List Bytes → ComparisonKind → Option PredicateResult
run l r names kind =
    prove_constant_comparison toy_terms toy_solvers true l r names 8 kind default_options

abbrev constant_result : PredicateResult
constant_result = record {
  status = PredicateStatus.proved_constant;
  constant_value = true;
  reason = codes "Z3 proved predicate is universally true";
  z3_verified = true;
  timed_out = false;
  counterexample = none;
}

run_constant : run wrapped_sum (const 4) [] ComparisonKind.equal ≡ some constant_result
unfolding prove_constant_comparison is_supported_comparison validate_comparison_expr validate_node
    expected_children count prove_with_z3 build_predicate_expr build_node build_comparison
    decide_predicate query_predicate after_false_query z3_variables symbol_name
run_constant = refl

-- x == 0 over one byte: true at 0 and false at 1
run_varies :
    (r : PredicateResult) × (run (var 0) (const 0) (codes "x" ∷ []) ComparisonKind.equal ≡ some r)
    × (r.status ≡ PredicateStatus.not_constant)
unfolding prove_constant_comparison is_supported_comparison validate_comparison_expr validate_node
    expected_children count prove_with_z3 build_predicate_expr build_node build_comparison
    decide_predicate query_predicate after_false_query z3_variables symbol_name
run_varies = (_, refl, refl)

-- x & 3 u< 4: the toy solver finds no model of the negation and cannot refute it
run_unknown :
    (r : PredicateResult) × (run
        (node Kind.and 0 0 (cons (var 0) (cons (const 3) nil)))
        (const 4)
        (codes "x" ∷ [])
        ComparisonKind.unsigned_less_than
      ≡ some r)
    × (r.timed_out ≡ true)
unfolding prove_constant_comparison is_supported_comparison validate_comparison_expr validate_node
    expected_children count prove_with_z3 build_predicate_expr build_node build_comparison
    decide_predicate query_predicate after_false_query z3_variables symbol_name
run_unknown = (_, refl, refl)

run_malformed :
    (r : PredicateResult) × (run
        (node Kind.add 0 0 (cons (const 1) nil))
        (const 4)
        []
        ComparisonKind.equal
      ≡ some r)
    × (r.reason ≡ codes "expression has an invalid child count")
unfolding prove_constant_comparison is_supported_comparison validate_comparison_expr validate_node
    expected_children count prove_with_z3 build_predicate_expr build_node build_comparison
    decide_predicate query_predicate after_false_query z3_variables symbol_name
run_malformed = (_, refl, refl)

ready_sum :
    IsReady toy_terms toy_solvers wrapped_sum (const 4) [] 8 ComparisonKind.equal default_options
unfolding prove_constant_comparison is_supported_comparison validate_comparison_expr validate_node
    expected_children count prove_with_z3 build_predicate_expr build_node build_comparison
    decide_predicate query_predicate after_false_query z3_variables symbol_name
ready_sum = record {
  width_pos = omega arith;
  width_le = omega arith;
  allowed = omega arith;
  few = omega arith;
  supported = refl;
  left_valid = refl;
  right_valid = refl;
}

validate_comparison_expr_exact_example :
    (validate_comparison_expr 0 wrapped_sum ≡ valid) ↔ WellShaped 0 wrapped_sum
validate_comparison_expr_exact_example = validate_comparison_expr_exact 0 wrapped_sum

prove_constant_comparison_answers_example :
    (r : PredicateResult) × (run wrapped_sum (const 4) [] ComparisonKind.equal ≡ some r)
prove_constant_comparison_answers_example =
    prove_constant_comparison_answers toy_terms toy_solvers wrapped_sum (const 4) [] 8
      ComparisonKind.equal default_options toy-TermLaws toy-SolverLaws true

proved_constant_sound_example :
    ((rho : Assignment)
      → holds 8 ComparisonKind.equal (value 8 rho wrapped_sum) (value 8 rho (const 4)) ≡ true)
    × (constant_result.z3_verified ≡ true)
    × (◌≡◌ {A = Bool} true true)
proved_constant_sound_example =
    proved_constant_sound toy_terms toy_solvers wrapped_sum (const 4) [] 8 ComparisonKind.equal
      default_options toy-TermLaws toy-SolverLaws true constant_result run_constant refl

not_constant_sound_example :
    ((rho : Assignment) × (holds 8 ComparisonKind.equal
          (value 8 rho (var 0))
          (value 8 rho (const 0))
        ≡ true))
    × ((rho : Assignment) × (holds 8 ComparisonKind.equal
            (value 8 rho (var 0))
            (value 8 rho (const 0))
          ≡ false))
not_constant_sound_example =
    not_constant_sound toy_terms toy_solvers (var 0) (const 0) (codes "x" ∷ []) 8
      ComparisonKind.equal default_options toy-TermLaws toy-SolverLaws true run_varies.0
      run_varies.1 run_varies.2

prove_constant_comparison_settles_example :
    (r : PredicateResult) × (run wrapped_sum (const 4) [] ComparisonKind.equal ≡ some r)
    × IsSettled r
prove_constant_comparison_settles_example =
    prove_constant_comparison_settles toy_terms toy_solvers wrapped_sum (const 4) [] 8
      ComparisonKind.equal default_options toy-TermLaws toy-SolverLaws ready_sum

abbrev refused_result : PredicateResult
refused_result = record constant_result {
  status = PredicateStatus.rejected;
  constant_value = false;
  reason = codes "Z3 verifier unavailable; constant-comparison proofs require Z3";
  z3_verified = false;
}

run_without_z3 :
    prove_constant_comparison toy_terms toy_solvers false wrapped_sum
      (const 4)
      []
      8
      ComparisonKind.equal
      default_options
    ≡ some refused_result
unfolding prove_constant_comparison is_supported_comparison validate_comparison_expr validate_node
    expected_children count prove_with_z3 build_predicate_expr build_node build_comparison
    decide_predicate query_predicate after_false_query z3_variables symbol_name
run_without_z3 = refl

prove_constant_comparison_refuses_example :
    (refused_result.status ≡ PredicateStatus.error)
    ⊎ (refused_result.status ≡ PredicateStatus.rejected)
prove_constant_comparison_refuses_example =
    prove_constant_comparison_refuses toy_terms toy_solvers wrapped_sum (const 4) [] 8
      ComparisonKind.equal default_options toy-TermLaws toy-SolverLaws false refused_result
      run_without_z3 (inl refl)
