-- ===== src/Tests/AdapterTests.antt =====
-- Runs of the model of src/BNAdapter.cpp on a function of one instruction, and its theorems.
use co_bra_for_binary_ninja.Prelude.{
  ℕ, ◌≡◌, ◌≢◌, refl, sym, ◌⊎◌, Bool, true, false, ◌==◌, if◌then◌else◌, List, [], ◌∷◌, map, none,
  some, codes, All,
}
use co_bra_for_binary_ninja.Cobra.{Kind, node, nil}
use co_bra_for_binary_ninja.Adapter.Mlil.{Mlil, Operation, ins, end, expr, plain}
use co_bra_for_binary_ninja.Adapter.Types.{CandidateReport, FunctionReport, PendingCandidate}
use co_bra_for_binary_ninja.Adapter.Outcome.{returned}
use co_bra_for_binary_ninja.Adapter.BuildMlil.{build_mlil, build_kind}
use co_bra_for_binary_ninja.Adapter.Roots.{comes_before, comes_before_order}
use co_bra_for_binary_ninja.Adapter.Select.{
  mark_expression_tree, covered_candidate, select_candidates,
}
use co_bra_for_binary_ninja.Adapter.Copy.{
  find_selected, set_applied, mark_applied, replacement, copy_found, copy_expression, copy_block,
  copy_blocks,
}
use co_bra_for_binary_ninja.Adapter.Transform.{
  OldFunction, reset_applied, move_reports, copy_function, finish, apply_selection,
  transform_collected,
}
use co_bra_for_binary_ninja.Adapter.Preserves.{Reflects, returned-injective}
use co_bra_for_binary_ninja.Adapter.Commit.{
  committed_means, uncommitted-IsUnapplied, IsSound, IsUnapplied,
}
use co_bra_for_binary_ninja.Tests.ToyMlil.{
  sum, literals, sum_value, operand_values, sum_copy, toy_builder, failing_builder, toy_meaning,
}

-- x = 3 + (2 + 0): the sum at 1 and the inner sum at 3 are candidates.
abbrev inner_sum : Mlil
inner_sum = ins 3 Operation.add 4 0 (
    expr (ins 4 Operation.const 4 0 (plain 2 end))
      (expr (ins 5 Operation.const 4 0 (plain 0 end)) end))

abbrev outer_sum : Mlil
outer_sum =
    ins 1 Operation.add 4 0 (expr (ins 2 Operation.const 4 0 (plain 3 end)) (expr inner_sum end))

abbrev assignment : Mlil
assignment = ins 0 Operation.set_var_ssa 4 0 (plain 7 (expr outer_sum end))

abbrev get_expr : ℕ → Mlil
get_expr i =
    if i == 0
    then assignment
    else if i == 1
    then outer_sum
    else if i == 2
    then ins 2 Operation.const 4 0 (plain 3 end)
    else if i == 3
    then inner_sum
    else if i == 4
    then ins 4 Operation.const 4 0 (plain 2 end)
    else ins 5 Operation.const 4 0 (plain 0 end)

abbrev old : OldFunction
old = record { get_expr = get_expr; blocks = (assignment ∷ []) ∷ [] }

abbrev report : ℕ → Bool → CandidateReport
report root accepted = record {
  expression_index = root;
  address = 0;
  before = [];
  after = [];
  reason = [];
  accepted = accepted;
  applied = false;
}

abbrev candidate : ℕ → ℕ → ℕ → Bool → PendingCandidate
candidate root cost value accepted = record {
  report = report root accepted;
  root_expression = root;
  size = 4;
  original_cost = cost;
  is_predicate = false;
  predicate_value = false;
  simplified = some (node Kind.constant value 0 nil);
  simplified_variables = [];
  variable_by_name = [];
}

abbrev both : List PendingCandidate
both = candidate 1 5 5 true ∷ candidate 3 3 2 true ∷ []

abbrev empty_report : ℕ → FunctionReport
empty_report accepted = record {
  candidates = [];
  diagnostic = [];
  accepted = accepted;
  applied = 0;
}

comes_before_order_example :
    (comes_before (candidate 1 5 5 true) (candidate 1 5 5 true) ≡ false)
    × (comes_before (candidate 1 5 5 true) (candidate 3 3 2 true) ≡ true
        → comes_before (candidate 3 3 2 true) (candidate 4 3 2 true) ≡ true
        → comes_before (candidate 1 5 5 true) (candidate 4 3 2 true) ≡ true)
    × (◌≢◌ {A = ℕ} 1 3
        → (comes_before (candidate 1 5 5 true) (candidate 3 3 2 true) ≡ true)
          ⊎ (comes_before (candidate 3 3 2 true) (candidate 1 5 5 true) ≡ true))
comes_before_order_example =
    comes_before_order (candidate 1 5 5 true) (candidate 3 3 2 true) (candidate 4 3 2 true)

-- The outer sum is replaced by 5 and the inner candidate is covered.
abbrev committed_report : FunctionReport
committed_report = record {
  candidates =
      record (report 1 true) { applied = true }
      ∷ record (report 3 false) { reason = codes "covered by a larger verified candidate" }
      ∷ [];
  diagnostic = [];
  accepted = 1;
  applied = 1;
}

run_committed :
    transform_collected toy_builder old (empty_report 2) both
    ≡ returned (committed_report, some ((12 ∷ []) ∷ []))
unfolding transform_collected apply_selection finish copy_function copy_blocks copy_block
    copy_expression copy_found replacement mark_applied set_applied find_selected select_candidates
    covered_candidate mark_expression_tree move_reports build_mlil build_kind sum_copy sum literals
run_committed = refl

both_reflect : All (All (Reflects get_expr)) old.blocks
unfolding Reflects
both_reflect =
    (((refl, ((refl, ((refl, tt), ((refl, ((refl, tt), ((refl, tt), tt))), tt))), tt)), tt), tt)

both-IsSound : All (IsSound toy_builder toy_meaning old) both
unfolding replacement build_mlil build_kind sum_value operand_values sum literals
both-IsSound = (
  λ h l id built. sym (returned-injective built),
  (λ h l id built. sym (returned-injective built), tt),
)

committed_means_example : map (map (λ (x : ℕ). x)) ((12 ∷ []) ∷ []) ≡ map (map sum_value) old.blocks
committed_means_example =
    committed_means toy_builder toy_meaning old (empty_report 2) committed_report both
      ((12 ∷ []) ∷ []) both_reflect both-IsSound run_committed

-- The copy throws after it has marked its candidate.
abbrev failed_report : FunctionReport
failed_report = record {
  candidates =
      report 1 true
      ∷ record (report 3 false) { reason = codes "covered by a larger verified candidate" }
      ∷ [];
  diagnostic = codes "copy transformation failed: no SSA form";
  accepted = 1;
  applied = 0;
}

run_uncommitted :
    transform_collected failing_builder old (empty_report 2) both ≡ returned (failed_report, none)
unfolding transform_collected apply_selection finish copy_function copy_blocks copy_block
    copy_expression copy_found replacement mark_applied set_applied find_selected select_candidates
    covered_candidate mark_expression_tree move_reports reset_applied build_mlil build_kind sum_copy
    sum literals
run_uncommitted = refl

uncommitted-IsUnapplied_example :
    (failed_report.applied ≡ 0) × All IsUnapplied failed_report.candidates
uncommitted-IsUnapplied_example =
    uncommitted-IsUnapplied failing_builder old (empty_report 2) failed_report both refl refl
      (refl, (refl, tt)) run_uncommitted
