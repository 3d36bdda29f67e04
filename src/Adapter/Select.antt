-- ===== src/Adapter/Select.antt =====
-- src/BNAdapter.cpp: `MarkExpressionTree`, and the loop of `TransformFunction` that selects the
-- candidates to apply.
use co_bra_for_binary_ninja.Prelude.{
  ℕ, ◌+◌, ◌-◌, ◌^◌, Bool, false, not, ◌||◌, if◌then◌else◌, ◌==◌, List, [], ◌∷◌, codes,
}
use co_bra_for_binary_ninja.Adapter.Mlil.{
  Mlil, ins, Operands, end, expr, exprs, plain, Exprs, nil, cons,
}
use co_bra_for_binary_ninja.Adapter.Types.{PendingCandidate}

-- A set of expression indices, `std::unordered_set<size_t>`.
abbrev pub contains : List ℕ → ℕ → Bool
contains [] i = false
contains (j ∷ js) i = (j == i) || contains js i

unfoldable mutual
  pub mark_expression_tree : Mlil → List ℕ → List ℕ
  mark_expression_tree (ins i op s a operands) marked =
      let rest = mark_operands operands (i ∷ marked) in if contains marked i then marked else rest

  pub mark_operands : Operands → List ℕ → List ℕ
  mark_operands end marked = marked
  mark_operands (expr e operands) marked = mark_operands operands (mark_expression_tree e marked)
  mark_operands (exprs es operands) marked = mark_operands operands (mark_exprs es marked)
  mark_operands (plain t operands) marked = mark_operands operands marked

  pub mark_exprs : Exprs → List ℕ → List ℕ
  mark_exprs nil marked = marked
  mark_exprs (cons e es) marked = mark_exprs es (mark_expression_tree e marked)

-- The reports so far, the map `selected`, and `output.accepted`.
pub record Selection : Type 0 where
  pub pending : List PendingCandidate
  pub selected : List (ℕ × PendingCandidate)
  pub accepted : ℕ

unfoldable pub covered_candidate : PendingCandidate → PendingCandidate
covered_candidate c = record c {
  report = record c.report {
    accepted = false;
    reason = codes "covered by a larger verified candidate";
  };
}

abbrev keep : PendingCandidate → Selection → Selection
keep c s = record s { pending = c ∷ s.pending }

abbrev choose : PendingCandidate → Selection → Selection
choose c s = record {
  pending = c ∷ s.pending;
  selected = (c.root_expression, c) ∷ s.selected;
  accepted = s.accepted;
}

-- `--output.accepted` on a `size_t` of 64 bits.
abbrev pub decrement : ℕ → ℕ
decrement n = if n == 0 then 2 ^ 64 - 1 else n - 1

-- The loop; `get_expr` is `oldFunction->GetExpr`.
unfoldable pub select_candidates : (ℕ → Mlil) → List ℕ → ℕ → List PendingCandidate → Selection
select_candidates get_expr covered accepted [] = record {
  pending = [];
  selected = [];
  accepted = accepted;
}
select_candidates get_expr covered accepted (c ∷ cs) =
    let skip = select_candidates get_expr covered accepted cs in
    let drop_it = select_candidates get_expr covered (decrement accepted) cs in
    let take_it =
      select_candidates get_expr (mark_expression_tree (get_expr c.root_expression) covered)
        accepted cs in
    if not c.report.accepted
    then keep c skip
    else if contains covered c.root_expression
    then keep (covered_candidate c) drop_it
    else choose c take_it

unfoldable pub count_accepted : List PendingCandidate → ℕ
count_accepted [] = 0
count_accepted (c ∷ cs) = if c.report.accepted then count_accepted cs + 1 else count_accepted cs

-- The accepted candidates by their roots.
unfoldable pub accepted_entries : List PendingCandidate → List (ℕ × PendingCandidate)
accepted_entries [] = []
accepted_entries (c ∷ cs) =
    if c.report.accepted then (c.root_expression, c) ∷ accepted_entries cs else accepted_entries cs
