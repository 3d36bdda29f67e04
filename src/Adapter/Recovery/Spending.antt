-- ===== src/Adapter/Recovery/Spending.antt =====
-- src/BNAdapter.cpp, `ExpressionRecovery`: `Visit` stays within the budget, but for one node for
-- each call that is still open when the budget is used up.
use mathlib.Core.Path.{subst}
use native.Mathlib.Decide.{dec_le}
use co_bra_for_binary_ninja.Prelude.{
  ℕ, zero, suc, ◌+◌, ◌/◌, ◌-◌, ◌<◌, ◌≤◌, ◌≡◌, refl, sym, ap, arith, Bool, true, false, not, ◌||◌,
  if◌then◌else◌, ltb, leb, ◌==◌, Bool-cases, ◌⊎◌, inl, inr, ◌∷◌, Option, none, some, Option-cases,
  Bytes, codes,
}
use co_bra_for_binary_ninja.Cobra.{Expr}
use co_bra_for_binary_ninja.Adapter.Mlil.{Mlil, Operation, size, operation, expr_index}
use co_bra_for_binary_ninja.Adapter.Types.{AnalysisLimits}
use co_bra_for_binary_ninja.Adapter.Select.{contains}
use co_bra_for_binary_ninja.Adapter.Recovery.State.{
  SsaVariable, Ssa, Factory, RecoveryState, initial_state, Run, ◌>>=◌, stop, fail, failed,
  semantic_width, counted, count_node, note_arithmetic, note_bitwise,
}
use co_bra_for_binary_ninja.Adapter.Recovery.Leaves.{
  Task, differs, is_set_var_ssa, same_variable, rolled_back, inline_source, inline_definition,
  expand_variable,
}
use co_bra_for_binary_ninja.Adapter.Recovery.Visit.{
  is_const, find_cached, BinaryKind, binary, subtract, unary, zero_extend, shift_right, shift_left,
  recover_operation, store_recovered, visit_active, visit_uncached, visit_cached, visit_step, visit,
  enough_fuel, recover,
}
use co_bra_for_binary_ninja.Adapter.Recovery.Budget.{
  nodes, failed_nodes, Free, semantic_width-Free, narrow-Free, variable_leaf-Free,
  predicate_boolean_leaf-Free, Costs, Free-Costs, fail-Costs, pure-Costs, stop-Costs, if-Costs,
  noted-Costs, Free-bind-Costs, child-Costs, both-Costs,
}

-- A bind whose first step is known.
bind_at {ℓ} :
    {A : Type ℓ} (m : Run A) (f : A → Run Expr) (s : RecoveryState) (a : A) (t : RecoveryState)
    → m s ≡ (some a, t)
    → (m >>= f) s ≡ f a t
bind_at {A} m f s a t e =
    ap
      (λ (r : Option A × RecoveryState).
        let result : Option Expr × RecoveryState = elim (r.0) [
          | none ↦ (none, r.1)
          | some x ↦ f x r.1
        ] in
        result)
      e

module _ (T : Task) where
  over_budget : ℕ → RecoveryState → Bool
  over_budget depth s =
      ltb T.limits.max_nodes (nodes (counted depth s)) || ltb T.limits.max_depth depth

  count_refused :
      (depth : ℕ) (s : RecoveryState)
      → over_budget depth s ≡ true
      → count_node T.limits depth s
        ≡ (some false, failed (codes "SSA expansion budget exceeded") (counted depth s))
  unfolding count_node over_budget
  count_refused depth s e = rw e refl

  count_paid :
      (depth : ℕ) (s : RecoveryState)
      → over_budget depth s ≡ false
      → count_node T.limits depth s ≡ (some true, counted depth s)
  unfolding count_node over_budget
  count_paid depth s e = rw e refl

  module _ (bound : ℕ) (above : T.limits.max_nodes ≤ bound) (child : Mlil → Run Expr)
      (spent : (i : Mlil) (s : RecoveryState)
        → T.limits.max_nodes ≤ nodes s
        → nodes (child i s).1 ≤ nodes s + 1)
      (within : (i : Mlil) (s : RecoveryState)
        → nodes s ≤ T.limits.max_nodes
        → nodes (child i s).1 ≤ bound) where
    abbrev Cheap : Run Expr → Type 0
    Cheap m = Costs T bound above m

    one : (i : Mlil) {f : Expr → Run Expr} → ((e : Expr) → Free T (f e)) → Cheap (child i >>= f)
    one i after = child-Costs T bound above child spent within i after

    pick : (b : Bool) {m n : Run Expr} → Cheap m → Cheap n → Cheap (if b then m else n)
    pick b first second = if-Costs T bound above b first second

    failing : (text : Bytes) → Cheap (fail text)
    failing text = fail-Costs T bound above _ text

    inline_source-Cheap :
        (v : SsaVariable) (width : ℕ) (source : Mlil) → Cheap (inline_source T child v width source)
    unfolding inline_source rolled_back
    inline_source-Cheap v width source = record {
      apply = λ s h.
          let cost = within source s h in
          elim (Option-cases (child source s).0) [
            | inr (e, k) ↦ rw (k, inline_source) (omega (arith, cost))
            | inl k ↦
                rw (k, inline_source)
                  (omega (
                    arith,
                    cost,
                    (variable_leaf-Free T v width).apply (rolled_back s (child source s).1),
                  ))
          ];
    }

    expand_variable-Cheap : (v : SsaVariable) (width : ℕ) → Cheap (expand_variable T child v width)
    unfolding expand_variable inline_definition
    expand_variable-Cheap v width =
        let leaf = Free-Costs T bound above (variable_leaf-Free T v width) in
        let definition = T.ssa.get_instruction (T.ssa.ssa_var_definition v) in
        let source = T.ssa.source_expr definition in
        pick (v.version == 0) leaf (
          pick (leb T.ssa.instruction_count (T.ssa.ssa_var_definition v)) leaf (
            pick (not (is_set_var_ssa (operation definition))) leaf (
              pick (not (same_variable (T.ssa.dest_ssa_variable definition) v)) leaf (
                pick (differs source definition || not (size source == width / 8)) leaf
                  (inline_source-Cheap v width source)))))

    binary-Cheap : (i : Mlil) (kind : BinaryKind) → Cheap (binary T child i kind)
    unfolding binary
    binary-Cheap i kind = Free-bind-Costs T bound above (semantic_width-Free T i) λ width.
        pick (width == 0) (stop-Costs T bound above _) (
          pick (differs (T.ssa.left_expr i) i || differs (T.ssa.right_expr i) i) (failing _)
            (both-Costs T bound above child spent within _ _ λ a b. narrow-Free T _ width))

    subtract-Cheap : (i : Mlil) (width : ℕ) → Cheap (subtract T child i width)
    unfolding subtract
    subtract-Cheap i width =
        pick (differs (T.ssa.left_expr i) i || differs (T.ssa.right_expr i) i) (failing _)
          (both-Costs T bound above child spent within _ _ λ a b. narrow-Free T _ width)

    unary-Cheap :
        (f : Expr → Expr) (mixed : Bytes) (i : Mlil) (width : ℕ)
        → Cheap (unary T child f mixed i width)
    unfolding unary
    unary-Cheap f mixed i width =
        pick (differs (T.ssa.source_expr i) i) (failing _) (one _ λ e. narrow-Free T (f e) width)

    zero_extend-Cheap : (i : Mlil) (width : ℕ) → Cheap (zero_extend T child i width)
    unfolding zero_extend
    zero_extend-Cheap i width =
        Free-bind-Costs T bound above (semantic_width-Free T (T.ssa.source_expr i)) λ source_width.
          pick (source_width == 0 || leb width source_width) (failing _)
            (one _ λ e. narrow-Free T e source_width)

    shift_right-Cheap : (i : Mlil) (width : ℕ) → Cheap (shift_right T child i width)
    unfolding shift_right
    shift_right-Cheap i width = pick (differs (T.ssa.left_expr i) i) (failing _) (
        pick (not (is_const (operation (T.ssa.right_expr i)))) (failing _)
          (one _ λ e. narrow-Free T _ width))

    shift_left-Cheap : (i : Mlil) (width : ℕ) → Cheap (shift_left T child i width)
    unfolding shift_left
    shift_left-Cheap i width = pick (differs (T.ssa.left_expr i) i) (failing _) (
        pick (not (is_const (operation (T.ssa.right_expr i)))) (failing _) (
          pick (leb width (T.ssa.constant (T.ssa.right_expr i))) (pure-Costs T bound above _)
            (one _ λ e. narrow-Free T _ width)))

    arithmetic : {m : Run Expr} → Cheap m → Cheap (λ s. m (note_arithmetic s))
    arithmetic {m} cheap = noted-Costs T bound above note_arithmetic m (λ s. refl) cheap

    bitwise : {m : Run Expr} → Cheap m → Cheap (λ s. m (note_bitwise s))
    bitwise {m} cheap = noted-Costs T bound above note_bitwise m (λ s. refl) cheap

    recover_operation-Cheap :
        (op : Operation) (i : Mlil) (width : ℕ) → Cheap (recover_operation T child op i width)
    unfolding recover_operation
    recover_operation-Cheap Operation.const i width = pure-Costs T bound above _
    recover_operation-Cheap Operation.var_ssa i width = expand_variable-Cheap _ width
    recover_operation-Cheap Operation.var i width =
        Free-Costs T bound above (variable_leaf-Free T _ width)
    recover_operation-Cheap Operation.add i width = arithmetic (binary-Cheap i BinaryKind.add)
    recover_operation-Cheap Operation.sub i width = arithmetic (subtract-Cheap i width)
    recover_operation-Cheap Operation.neg i width = arithmetic (unary-Cheap _ _ i width)
    recover_operation-Cheap Operation.mul i width = arithmetic (binary-Cheap i BinaryKind.mul)
    recover_operation-Cheap Operation.and i width = bitwise (binary-Cheap i BinaryKind.and)
    recover_operation-Cheap Operation.or i width = bitwise (binary-Cheap i BinaryKind.or)
    recover_operation-Cheap Operation.xor i width = bitwise (binary-Cheap i BinaryKind.xor)
    recover_operation-Cheap Operation.not i width = bitwise (unary-Cheap _ _ i width)
    recover_operation-Cheap Operation.zx i width = zero_extend-Cheap i width
    recover_operation-Cheap Operation.bool_to_int i width =
        Free-Costs T bound above (predicate_boolean_leaf-Free T width)
    recover_operation-Cheap Operation.lsr i width = bitwise (shift_right-Cheap i width)
    recover_operation-Cheap Operation.lsl i width = arithmetic (shift_left-Cheap i width)
    recover_operation-Cheap _ i width = failing _

    visit_active-cost :
        (i : Mlil) (width : ℕ) (s : RecoveryState)
        → nodes s ≤ T.limits.max_nodes
        → nodes (visit_active T child i width s).1 ≤ bound + 1
    unfolding visit_active store_recovered
    visit_active-cost i width s h =
        let entered : RecoveryState = record s { active = expr_index i ∷ s.active } in
        let cost = (recover_operation-Cheap (operation i) i width).apply entered h in
        elim (Bool-cases (contains s.active (expr_index i))) [
          | inl cycle ↦
              rw cycle
                (omega (arith, failed_nodes (codes "cycle in SSA def-use expansion") s, h, above))
          | inr fresh ↦
              elim (Option-cases (recover_operation T child (operation i) i width entered).0) [
                | inl e ↦ rw (fresh, e, ◌>>=◌) cost
                | inr (r, e) ↦ rw (fresh, e, ◌>>=◌) cost
              ]
        ]

    uncached_cost :
        (depth : ℕ) (i : Mlil) (width : ℕ) (s : RecoveryState)
        → nodes s ≤ T.limits.max_nodes
        → nodes (visit_uncached T child depth i width s).1 ≤ bound + 1
    unfolding visit_uncached counted over_budget
    uncached_cost depth i width s h = elim (Bool-cases (over_budget depth s)) [
      | inl e ↦
          subst (λ (r : Option Expr × RecoveryState). nodes r.1 ≤ bound + 1)
            (sym (
              bind_at (count_node T.limits depth)
                (λ b. if b then visit_active T child i width else stop) s _ _
                (count_refused depth s e)))
            (omega (
              arith,
              failed_nodes (codes "SSA expansion budget exceeded") (counted depth s),
              h,
              above,
            ))
      | inr e ↦
          subst (λ (r : Option Expr × RecoveryState). nodes r.1 ≤ bound + 1)
            (sym (
              bind_at (count_node T.limits depth)
                (λ b. if b then visit_active T child i width else stop) s _ _
                (count_paid depth s e)))
            (visit_active-cost i width (counted depth s) (ground (arith, e)))
    ]

  module _ (child : Mlil → Run Expr) (depth : ℕ) (i : Mlil) where
    -- Where the budget is used up, or the call is too deep, one node is counted.
    uncached_spent :
        (width : ℕ) (s : RecoveryState)
        → (T.limits.max_nodes ≤ nodes s) ⊎ (T.limits.max_depth < depth)
        → nodes (visit_uncached T child depth i width s).1 ≤ nodes s + 1
    unfolding visit_uncached counted over_budget
    uncached_spent width s gone =
        let e : over_budget depth s ≡ true = ground (arith, gone) in
        subst (λ (r : Option Expr × RecoveryState). nodes r.1 ≤ nodes s + 1)
          (sym (
            bind_at (count_node T.limits depth)
              (λ b. if b then visit_active T child i width else stop) s _ _
              (count_refused depth s e)))
          (omega (arith, failed_nodes (codes "SSA expansion budget exceeded") (counted depth s)))

    -- The width and the cache count nothing.
    step_cost :
        (limit : ℕ) (s : RecoveryState)
        → nodes s ≤ limit
        → ((width : ℕ) (t : RecoveryState)
            → nodes t ≡ nodes s
            → nodes (visit_uncached T child depth i width t).1 ≤ limit)
        → nodes (visit_step T child depth i s).1 ≤ limit
    unfolding visit_step visit_cached
    step_cost limit s h uncached =
        let t = (semantic_width T.bit_width i s).1 in
        let same = (semantic_width-Free T i).apply s in
        elim (Option-cases (semantic_width T.bit_width i s).0) [
          | inl e ↦ rw (e, ◌>>=◌) (omega (arith, same, h))
          | inr (width, e) ↦ elim (Bool-cases (width == 0)) [
            | inl odd ↦ rw (e, ◌>>=◌, odd) (omega (arith, same, h))
            | inr even ↦ elim (Option-cases (find_cached (expr_index i) t.cache)) [
              | inl miss ↦ rw (e, ◌>>=◌, even, miss, visit_cached) (uncached width t same)
              | inr (r, hit) ↦ rw (e, ◌>>=◌, even, hit, visit_cached) (omega (arith, same, h))
            ]
          ]
        ]

  visit_spent :
      (fuel depth : ℕ) (i : Mlil) (s : RecoveryState)
      → T.limits.max_nodes ≤ nodes s
      → nodes (visit T fuel depth i s).1 ≤ nodes s + 1
  unfolding visit
  visit_spent zero depth i s h = omega arith
  visit_spent (suc fuel) depth i s h =
      step_cost (visit T fuel (depth + 1)) depth i (nodes s + 1) s (omega arith) λ width t same.
        rw (← same)
          (uncached_spent (visit T fuel (depth + 1)) depth i width t (inl (omega (arith, same, h))))

  visit_within :
      (fuel depth : ℕ)
      → depth ≤ T.limits.max_depth + 1
      → (i : Mlil) (s : RecoveryState) → nodes s ≤ T.limits.max_nodes
      → nodes (visit T fuel depth i s).1 ≤ T.limits.max_nodes + (T.limits.max_depth + 2 - depth)
  unfolding visit
  visit_within zero depth low i s h = omega (arith, h)
  visit_within (suc fuel) depth low i s h = elim (dec_le depth T.limits.max_depth) [
    | no deep ↦ step_cost (visit T fuel (depth + 1)) depth i _ s (omega (arith, h)) λ width t same.
        let one_more =
          uncached_spent (visit T fuel (depth + 1)) depth i width t (inr (omega (arith, deep))) in
        omega (arith, one_more, same, h, low, deep)
    | yes shallow ↦
        step_cost (visit T fuel (depth + 1)) depth i _ s (omega (arith, h)) λ width t same.
          let bound = T.limits.max_nodes + (T.limits.max_depth + 2 - (depth + 1)) in
          let cost =
            uncached_cost bound (omega arith) (visit T fuel (depth + 1))
              (visit_spent fuel (depth + 1))
              (visit_within fuel (depth + 1) (omega (arith, shallow))) depth i width t
              (omega (arith, same, h)) in
          omega (arith, cost, shallow)
  ]

-- A recovery counts `max_nodes + max_depth + 2` nodes at most: when the budget is used up, each of
-- the calls that are still open counts one more.
pub recover_nodes_bounded :
    (S : Ssa) (C : Factory) (limits : AnalysisLimits) (bit_width : ℕ) (root : Mlil)
    → (recover S C limits bit_width root).result.stats.nodes
      ≤ limits.max_nodes + limits.max_depth + 2
unfolding recover
recover_nodes_bounded S C limits bit_width root =
    let T : Task = record {
      ssa = S;
      factory = C;
      limits = limits;
      bit_width = bit_width;
      root = root;
      predicate_recovery = false;
    } in
    let cost = visit_within T (enough_fuel T) 0 (omega arith) root initial_state (omega arith) in
    omega (arith, cost)
