-- ===== src/Tests/CollectTests.antt =====
-- Runs of the models of `CollectCandidates`, `PreviewFunction` and `TransformFunction` of
-- src/BNAdapter.cpp on a function of two instructions, and their theorems.
use co_bra_for_binary_ninja.PluginJson.Json.{Spells}
use co_bra_for_binary_ninja.Command.{run_preview_command}
use co_bra_for_binary_ninja.Command.Logged.{report_json, run_preview_command-Spells}
use co_bra_for_binary_ninja.Prelude.{
  arith, ℕ, ◌≤◌, ◌≡◌, refl, true, false, if◌then◌else◌, ◌==◌, [], ◌∷◌, length, none, some, codes,
  All, Bytes, ◌++◌,
}
use co_bra_for_binary_ninja.Adapter.Mlil.{expr_index, Mlil, Operation, ins, end, expr, plain}
use co_bra_for_binary_ninja.Adapter.Types.{FunctionReport, PendingCandidate, default_limits}
use co_bra_for_binary_ninja.Adapter.Outcome.{returned}
use co_bra_for_binary_ninja.Adapter.Select.{count_accepted}
use co_bra_for_binary_ninja.Adapter.Recovery.State.{Ssa}
use co_bra_for_binary_ninja.Adapter.Candidates.{NormalFunction, Services, empty_report}
use co_bra_for_binary_ninja.Adapter.Collect.{collect_from, preview_function}
use co_bra_for_binary_ninja.Adapter.Collected.{ServiceLaws, IsAuthorized, IsJustified}
use co_bra_for_binary_ninja.Adapter.Authorized.{collected-IsAuthorized}
use co_bra_for_binary_ninja.Adapter.Preview.{IsPreview, preview_function_reports, accepted_reports}
use co_bra_for_binary_ninja.Adapter.Entry.{transform_function}
use co_bra_for_binary_ninja.Adapter.Commit.{IsUnapplied}
use co_bra_for_binary_ninja.Adapter.AppliedCount.{applied_reports, transform_function_applied}
use co_bra_for_binary_ninja.Adapter.Whole.{
  transform_function_counts, transform_function_uncommitted,
}
use co_bra_for_binary_ninja.Tests.ToyZ3.{toy_terms, toy-TermLaws, toy_solvers, toy-SolverLaws}
use co_bra_for_binary_ninja.Tests.ToyCobra.{toy_library, toy-LibraryLaws}
use co_bra_for_binary_ninja.Tests.ToyMlil.{failing_builder, toy_builder}
use co_bra_for_binary_ninja.Tests.RecoveryTests.{toy_factory, toy_ssa}
use co_bra_for_binary_ninja.Adapter.Candidates.{
  is_normal_mlil, insert_sorted, sort_indices, insert_candidate, sort_candidates, push_candidate,
  predicate_text, predicate_candidate, prove_predicate, simplified_candidate, simplify_root,
  try_root,
}
use co_bra_for_binary_ninja.Adapter.Collect.{
  views_agree, is_no_root, inspect, inspect_all, available_ssa, collect_normal, collect_candidates,
}
use co_bra_for_binary_ninja.Adapter.Index.{
  note_child, index_block, index_blocks, index_tree, index_operands, index_exprs,
}
use co_bra_for_binary_ninja.Adapter.Roots.{
  is_candidate_root, comparison_for_operation, is_recoverable_root, comparison_text, comes_before,
}
use co_bra_for_binary_ninja.Adapter.Recovery.State.{
  failed, width_mask, semantic_width, counted, count_node, narrow,
}
use co_bra_for_binary_ninja.Adapter.Recovery.Leaves.{
  leaf_name, find_name, emplace_name, with_leaf, with_bit, rolled_back, place_leaf, variable_leaf,
  predicate_boolean_leaf, inline_source, inline_definition, expand_variable,
}
use co_bra_for_binary_ninja.Adapter.Recovery.Visit.{
  find_cached, emplace_cached, erase_active, binary, subtract, unary, zero_extend, shift_right,
  shift_left, recover_operation, store_recovered, visit_active, visit_uncached, visit_cached,
  visit_step, visit, recover, recover_operands, recover_comparison,
}
use co_bra_for_binary_ninja.Engine.Prove.{
  value_text, format_values, format_model, query_predicate, counterexample_text, after_false_query,
  decide_predicate, prove_with_z3, prove_constant_comparison,
}
use co_bra_for_binary_ninja.Engine.Build.{
  symbol_name, z3_variables, build_node, build_comparison, build_predicate_expr, build_first,
  build_second,
}
use co_bra_for_binary_ninja.Engine.Validate.{
  expected_children, validate_node, validate_comparison_expr, validate_children,
}
use co_bra_for_binary_ninja.Engine.Types.{is_supported_comparison}
use co_bra_for_binary_ninja.Adapter.Select.{select_candidates, mark_expression_tree}
use co_bra_for_binary_ninja.Adapter.Transform.{
  reset_applied, move_reports, copy_function, finish, apply_selection, transform_collected,
}
use co_bra_for_binary_ninja.Adapter.Copy.{
  find_selected, set_applied, mark_applied, replacement, copy_found, copy_block, copy_blocks,
  copy_expression,
}
use co_bra_for_binary_ninja.Tests.ToyMlil.{sum, literals, sum_copy}
use co_bra_for_binary_ninja.Adapter.Entry.{transform_candidates}

abbrev pub toy_services : Services
toy_services = record {
  has_z3 = true;
  terms = toy_terms;
  solvers = toy_solvers;
  library = toy_library;
  factory = toy_factory;
}

abbrev toy_laws : ServiceLaws toy_services
toy_laws = record { terms = toy-TermLaws; solvers = toy-SolverLaws; library = toy-LibraryLaws }

-- y = (3 == 3)
abbrev comparison : Mlil
comparison = ins 1 Operation.cmp_e 4 0 (
    expr (ins 2 Operation.const 4 0 (plain 3 end))
      (expr (ins 3 Operation.const 4 0 (plain 3 end)) end))

abbrev assignment : Mlil
assignment = ins 0 Operation.set_var_ssa 4 0 (plain 7 (expr comparison end))

abbrev get_expr : ℕ → Mlil
get_expr i =
    if i == 0
    then assignment
    else if i == 1
    then comparison
    else ins i Operation.const 4 0 (plain 3 end)

abbrev pub ssa : Ssa
ssa = record toy_ssa { get_expr = get_expr }

abbrev pub compared : NormalFunction
compared = record {
  old = record { get_expr = get_expr; blocks = (assignment ∷ []) ∷ [] };
  object = 5;
  non_ssa_object = some 5;
  ssa_form = some ssa;
  generated_ssa_form = none;
  expr_count = 4;
  ssa_expr_index = λ i. i;
}

-- The candidate of the comparison, which is always true.
abbrev pub found : PendingCandidate
found = record {
  report = record {
    expression_index = 1;
    address = 0;
    before = codes "x == x";
    after = codes "1";
    reason = codes "Z3 proved predicate is universally true";
    accepted = true;
    applied = false;
  };
  root_expression = 1;
  size = 4;
  original_cost = 2;
  is_predicate = true;
  predicate_value = true;
  simplified = none;
  simplified_variables = [];
  variable_by_name = [];
}

abbrev counted_one : FunctionReport
counted_one = record empty_report { accepted = 1 }

run_collected :
    collect_from toy_services default_limits compared ssa empty_report
    ≡ returned (found ∷ [], counted_one)
unfolding is_normal_mlil insert_sorted sort_indices insert_candidate sort_candidates push_candidate
    predicate_text predicate_candidate prove_predicate simplified_candidate simplify_root try_root
    views_agree is_no_root inspect inspect_all collect_from available_ssa collect_normal
    collect_candidates preview_function note_child index_block index_blocks index_tree
    index_operands index_exprs is_candidate_root comparison_for_operation is_recoverable_root
    comparison_text comes_before failed width_mask semantic_width counted count_node narrow
    leaf_name find_name emplace_name with_leaf with_bit rolled_back place_leaf variable_leaf
    predicate_boolean_leaf inline_source inline_definition expand_variable find_cached
    emplace_cached erase_active binary subtract unary zero_extend shift_right shift_left
    recover_operation store_recovered visit_active visit_uncached visit_cached visit_step visit
    recover recover_operands recover_comparison value_text format_values format_model
    query_predicate counterexample_text after_false_query decide_predicate prove_with_z3
    prove_constant_comparison symbol_name z3_variables build_node build_comparison
    build_predicate_expr build_first build_second expected_children validate_node
    validate_comparison_expr validate_children is_supported_comparison
run_collected = refl

collected-IsAuthorized_example :
    All (IsAuthorized toy_services default_limits compared ssa) (found ∷ [])
    × (1 ≡ count_accepted (found ∷ []))
    × (1 ≤ 128)
unfolding count_accepted
collected-IsAuthorized_example =
    collected-IsAuthorized toy_services default_limits compared ssa toy_laws empty_report
      (found ∷ []) counted_one run_collected

pub found-IsJustified : IsJustified toy_services default_limits compared ssa found
unfolding count_accepted
found-IsJustified =
    (collected-IsAuthorized toy_services default_limits compared ssa toy_laws empty_report
        (found ∷ []) counted_one run_collected).0.0
      refl

preview_function_reports_example :
    (report : FunctionReport) × (preview_function toy_services (some compared) default_limits
      ≡ returned report)
    × IsPreview toy_services toy_laws default_limits report
preview_function_reports_example =
    preview_function_reports toy_services toy_laws default_limits (some compared)

abbrev preview_report : FunctionReport
preview_report = record counted_one { candidates = found.report ∷ [] }

run_previewed :
    preview_function toy_services (some compared) default_limits ≡ returned preview_report
unfolding is_normal_mlil insert_sorted sort_indices insert_candidate sort_candidates push_candidate
    predicate_text predicate_candidate prove_predicate simplified_candidate simplify_root try_root
    views_agree is_no_root inspect inspect_all collect_from available_ssa collect_normal
    collect_candidates preview_function note_child index_block index_blocks index_tree
    index_operands index_exprs is_candidate_root comparison_for_operation is_recoverable_root
    comparison_text comes_before failed width_mask semantic_width counted count_node narrow
    leaf_name find_name emplace_name with_leaf with_bit rolled_back place_leaf variable_leaf
    predicate_boolean_leaf inline_source inline_definition expand_variable find_cached
    emplace_cached erase_active binary subtract unary zero_extend shift_right shift_left
    recover_operation store_recovered visit_active visit_uncached visit_cached visit_step visit
    recover recover_operands recover_comparison value_text format_values format_model
    query_predicate counterexample_text after_false_query decide_predicate prove_with_z3
    prove_constant_comparison symbol_name z3_variables build_node build_comparison
    build_predicate_expr build_first build_second expected_children validate_node
    validate_comparison_expr validate_children is_supported_comparison move_reports
run_previewed = refl

run_preview_command-Spells_example :
    (s : Bytes) × (run_preview_command toy_services
        (some (record { start = 64; mlil = some compared }))
      ≡ returned (some (codes "[SMBA AI JSON]" ++ s)))
    × Spells (report_json 64 preview_report) s []
run_preview_command-Spells_example =
    run_preview_command-Spells toy_services 64 (some compared) preview_report run_previewed tt
      ((omega arith, omega arith, omega arith), tt)

-- The function that is committed assigns the value 1.
abbrev applied_report : FunctionReport
applied_report = record {
  candidates = record found.report { applied = true } ∷ [];
  diagnostic = [];
  accepted = 1;
  applied = 1;
}

run_transformed :
    transform_function toy_services toy_builder (some (some compared)) default_limits
    ≡ returned (applied_report, some ((8 ∷ []) ∷ []))
unfolding is_normal_mlil insert_sorted sort_indices insert_candidate sort_candidates push_candidate
    predicate_text predicate_candidate prove_predicate simplified_candidate simplify_root try_root
    views_agree is_no_root inspect inspect_all collect_from available_ssa collect_normal
    collect_candidates preview_function note_child index_block index_blocks index_tree
    index_operands index_exprs is_candidate_root comparison_for_operation is_recoverable_root
    comparison_text comes_before failed width_mask semantic_width counted count_node narrow
    leaf_name find_name emplace_name with_leaf with_bit rolled_back place_leaf variable_leaf
    predicate_boolean_leaf inline_source inline_definition expand_variable find_cached
    emplace_cached erase_active binary subtract unary zero_extend shift_right shift_left
    recover_operation store_recovered visit_active visit_uncached visit_cached visit_step visit
    recover recover_operands recover_comparison value_text format_values format_model
    query_predicate counterexample_text after_false_query decide_predicate prove_with_z3
    prove_constant_comparison symbol_name z3_variables build_node build_comparison
    build_predicate_expr build_first build_second expected_children validate_node
    validate_comparison_expr validate_children is_supported_comparison transform_function
    transform_candidates transform_collected apply_selection finish copy_function copy_blocks
    copy_block copy_expression copy_found replacement mark_applied set_applied find_selected
    select_candidates mark_expression_tree move_reports sum_copy sum literals
run_transformed = refl

transform_function_counts_example :
    (applied_report.accepted ≡ accepted_reports applied_report.candidates)
    × (length applied_report.candidates ≤ default_limits.max_candidate_roots)
transform_function_counts_example =
    transform_function_counts toy_services toy_builder toy_laws default_limits
      (some (some compared)) (applied_report, some ((8 ∷ []) ∷ [])) run_transformed

get_expr-indexed : (i : ℕ) → expr_index (get_expr i) ≡ i
get_expr-indexed i = ground arith

transform_function_applied_example :
    applied_report.applied ≡ applied_reports applied_report.candidates
transform_function_applied_example =
    transform_function_applied toy_services toy_builder toy_laws default_limits compared
      applied_report ((8 ∷ []) ∷ []) get_expr-indexed run_transformed

-- The copy throws after it has marked the candidate.
abbrev failed_report : FunctionReport
failed_report = record {
  candidates = found.report ∷ [];
  diagnostic = codes "copy transformation failed: no SSA form";
  accepted = 1;
  applied = 0;
}

run_uncommitted :
    transform_function toy_services failing_builder (some (some compared)) default_limits
    ≡ returned (failed_report, none)
unfolding is_normal_mlil insert_sorted sort_indices insert_candidate sort_candidates push_candidate
    predicate_text predicate_candidate prove_predicate simplified_candidate simplify_root try_root
    views_agree is_no_root inspect inspect_all collect_from available_ssa collect_normal
    collect_candidates preview_function note_child index_block index_blocks index_tree
    index_operands index_exprs is_candidate_root comparison_for_operation is_recoverable_root
    comparison_text comes_before failed width_mask semantic_width counted count_node narrow
    leaf_name find_name emplace_name with_leaf with_bit rolled_back place_leaf variable_leaf
    predicate_boolean_leaf inline_source inline_definition expand_variable find_cached
    emplace_cached erase_active binary subtract unary zero_extend shift_right shift_left
    recover_operation store_recovered visit_active visit_uncached visit_cached visit_step visit
    recover recover_operands recover_comparison value_text format_values format_model
    query_predicate counterexample_text after_false_query decide_predicate prove_with_z3
    prove_constant_comparison symbol_name z3_variables build_node build_comparison
    build_predicate_expr build_first build_second expected_children validate_node
    validate_comparison_expr validate_children is_supported_comparison transform_function
    transform_candidates transform_collected apply_selection finish copy_function copy_blocks
    copy_block copy_expression copy_found replacement mark_applied set_applied find_selected
    select_candidates mark_expression_tree move_reports sum_copy sum literals reset_applied
run_uncommitted = refl

transform_function_uncommitted_example :
    (failed_report.applied ≡ 0) × All IsUnapplied failed_report.candidates
transform_function_uncommitted_example =
    transform_function_uncommitted toy_services failing_builder toy_laws default_limits
      (some (some compared)) failed_report run_uncommitted
