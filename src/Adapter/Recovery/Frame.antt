-- ===== src/Adapter/Recovery/Frame.antt =====
-- src/BNAdapter.cpp, `ExpressionRecovery`: a relation between states that each elementary change of
-- the state respects holds between the states before and after a call of `Visit`.
use co_bra_for_binary_ninja.Prelude.{
  ℕ, zero, suc, ◌+◌, ◌*◌, ◌/◌, ◌<◌, ◌≡◌, refl, arith, Bool, true, false, not, ◌||◌, if◌then◌else◌,
  ltb, leb, ◌==◌, Bool-cases, inl, inr, List, ◌∷◌, length, Option, none, some, Option-cases, Bytes,
}
use co_bra_for_binary_ninja.Cobra.{Expr}
use co_bra_for_binary_ninja.Adapter.Mlil.{Mlil, Operation, size, operation, expr_index}
use co_bra_for_binary_ninja.Adapter.Types.{Variable}
use co_bra_for_binary_ninja.Adapter.Select.{contains}
use co_bra_for_binary_ninja.Adapter.Recovery.State.{
  SsaVariable, RecoveryState, Run, ◌>>=◌, pure, stop, both, fail, failed, semantic_width, counted,
  count_node, note_arithmetic, note_bitwise, narrow,
}
use co_bra_for_binary_ninja.Adapter.Recovery.Leaves.{
  Task, differs, is_set_var_ssa, same_variable, find_name, leaf_name, with_leaf, with_bit,
  rolled_back, place_leaf, variable_leaf, predicate_boolean_leaf, inline_source, inline_definition,
  expand_variable,
}
use co_bra_for_binary_ninja.Adapter.Recovery.Visit.{
  is_const, find_cached, erase_active, BinaryKind, binary, subtract, unary, zero_extend,
  shift_right, shift_left, recover_operation, store_recovered, visit_active, visit_uncached,
  visit_cached, visit_step, visit,
}

-- The elementary changes of the state.
pub record Respects (T : Task) (R : RecoveryState → RecoveryState → Type 0) : Type 0 where
  pub none_done : (s : RecoveryState) → R s s
  pub one_after : (s t u : RecoveryState) → R s t → R t u → R s u
  pub reason : (text : Bytes) (s : RecoveryState) → R s (failed text s)
  pub count : (depth : ℕ) (s : RecoveryState) → R s (counted depth s)
  pub arithmetic : (s : RecoveryState) → R s (note_arithmetic s)
  pub bitwise : (s : RecoveryState) → R s (note_bitwise s)
  pub leaf :
      (name : Bytes) (v : Variable) (s : RecoveryState)
      → find_name name s.variables ≡ none
      → length s.variables < T.limits.max_variables
      → R s (with_leaf name v s)
  pub bit :
      (s : RecoveryState)
      → T.predicate_recovery ≡ true
      → length s.variables < T.limits.max_variables
      → R s (with_bit s)
  pub roll : (s t : RecoveryState) → R s t → R s (rolled_back s t)
  pub store : (s : RecoveryState) (c : List (ℕ × Expr)) → R s (record s { cache = c })
  pub bracket :
      (i : ℕ) (s t : RecoveryState)
      → contains s.active i ≡ false
      → R (record s { active = i ∷ s.active }) t
      → R s (record t { active = erase_active i t.active })

module _ (T : Task) (R : RecoveryState → RecoveryState → Type 0) (P : Respects T R) where
  -- `R` holds between the states before and after.
  record Keeps {ℓ} {A : Type ℓ} (m : Run A) : Type 0 where
    pub apply : (s : RecoveryState) → R s (m s).1

  pure-Keeps {ℓ} : {A : Type ℓ} (a : A) → Keeps (pure a)
  pure-Keeps a = record { apply = P.none_done }

  stop-Keeps {ℓ} : (A : Type ℓ) → Keeps (stop {A = A})
  stop-Keeps A = record { apply = P.none_done }

  fail-Keeps {ℓ} : (A : Type ℓ) (text : Bytes) → Keeps (fail {A = A} text)
  fail-Keeps A text = record { apply = P.reason text }

  bind_applied {ℓ κ} :
      {A : Type ℓ} {B : Type κ} (m : Run A) (f : A → Run B)
      → Keeps m
      → ((a : A) → Keeps (f a))
      → (s : RecoveryState) → R s ((m >>= f) s).1
  bind_applied m f first after s = elim (Option-cases (m s).0) [
    | inl e ↦ rw (e, ◌>>=◌) (first.apply s)
    | inr (a, e) ↦
        rw (e, ◌>>=◌)
          (P.one_after s (m s).1 (f a (m s).1).1 (first.apply s) ((after a).apply (m s).1))
  ]

  bind-Keeps {ℓ κ} :
      {A : Type ℓ} {B : Type κ} {m : Run A} {f : A → Run B}
      → Keeps m
      → ((a : A) → Keeps (f a))
      → Keeps (m >>= f)
  bind-Keeps {m} {f} first after = record { apply = bind_applied m f first after }

  both_applied {ℓ} :
      {A : Type ℓ} (m n : Run A) (f : A → A → Run A)
      → Keeps m
      → Keeps n
      → ((a b : A) → Keeps (f a b))
      → (s : RecoveryState) → R s (both m n f s).1
  both_applied m n f first second after s =
      let two = P.one_after s (m s).1 (n (m s).1).1 (first.apply s) (second.apply (m s).1) in
      elim (Option-cases (m s).0) [
        | inl e ↦ rw (e, both) two
        | inr (a, e) ↦ elim (Option-cases (n (m s).1).0) [
          | inl k ↦ rw (e, k, both) two
          | inr (b, k) ↦
              rw (e, k, both)
                (P.one_after s (n (m s).1).1 (f a b (n (m s).1).1).1 two
                  ((after a b).apply (n (m s).1).1))
        ]
      ]

  both-Keeps {ℓ} :
      {A : Type ℓ} {m n : Run A} {f : A → A → Run A}
      → Keeps m
      → Keeps n
      → ((a b : A) → Keeps (f a b))
      → Keeps (both m n f)
  both-Keeps {A} {m} {n} {f} first second after = record {
    apply = both_applied m n f first second after;
  }

  if-Keeps {ℓ} :
      {A : Type ℓ} (b : Bool) {m n : Run A} → Keeps m → Keeps n → Keeps (if b then m else n)
  if-Keeps true yes_case no_case = yes_case
  if-Keeps false yes_case no_case = no_case

  semantic_width-Keeps : (i : Mlil) → Keeps (semantic_width T.bit_width i)
  unfolding semantic_width
  semantic_width-Keeps i = record {
    apply = λ s. elim (Bool-cases (size i == 0 || ltb 8 (size i))) [
      | inl odd ↦ rw odd (P.reason _ s)
      | inr even ↦ elim (Bool-cases (ltb T.bit_width (size i * 8))) [
        | inl wide ↦ rw (even, wide) (P.reason _ s)
        | inr fits ↦ rw (even, fits) (P.none_done s)
      ]
    ];
  }

  narrow-Keeps : (e : Expr) (width : ℕ) → Keeps (narrow T.factory T.bit_width e width)
  unfolding narrow
  narrow-Keeps e width =
      if-Keeps (width == 0 || ltb T.bit_width width) (fail-Keeps _ _)
        (if-Keeps (width == T.bit_width) (pure-Keeps _) (pure-Keeps _))

  count_node-Keeps : (depth : ℕ) → Keeps (count_node T.limits depth)
  unfolding count_node
  count_node-Keeps depth = record {
    apply = λ s.
        elim (Bool-cases
          (ltb T.limits.max_nodes (counted depth s).stats.nodes || ltb T.limits.max_depth depth)) [
            | inl over ↦
                rw over (
                  P.one_after s (counted depth s) _ (P.count depth s)
                    (P.reason _ (counted depth s)))
            | inr within ↦ rw within (P.count depth s)
          ];
  }

  place_leaf-applied :
      (name : Bytes) (v : Variable) (width : ℕ) (s : RecoveryState) (o : Option ℕ)
      → find_name name s.variables ≡ o
      → R s (place_leaf T name v width o s).1
  unfolding place_leaf
  place_leaf-applied name v width s (some index) e = (narrow-Keeps _ width).apply s
  place_leaf-applied name v width s none e =
      elim (Bool-cases (leb T.limits.max_variables (length s.variables))) [
        | inl full ↦ rw full (P.reason _ s)
        | inr free ↦ rw free (
            P.one_after s (with_leaf name v s) _ (P.leaf name v s e (ground arith))
              ((narrow-Keeps _ width).apply (with_leaf name v s)))
      ]

  variable_leaf-Keeps : (v : SsaVariable) (width : ℕ) → Keeps (variable_leaf T v width)
  unfolding variable_leaf
  variable_leaf-Keeps v width = record {
    apply = λ s. elim (Bool-cases (width == 0 || ltb T.bit_width width)) [
      | inl odd ↦ rw odd (P.reason _ s)
      | inr wide ↦ elim (Bool-cases (T.ssa.ssa_var_version T.root v.variable == v.version)) [
        | inr dead ↦ rw (wide, dead) (P.reason _ s)
        | inl live ↦
            rw (wide, live)
              (place_leaf-applied (leaf_name T.ssa v) v.variable width s
                (find_name (leaf_name T.ssa v) s.variables) refl)
      ]
    ];
  }

  predicate_boolean_leaf-Keeps : (width : ℕ) → Keeps (predicate_boolean_leaf T width)
  unfolding predicate_boolean_leaf
  predicate_boolean_leaf-Keeps width = record {
    apply = λ s.
        elim (Bool-cases (not T.predicate_recovery || (width == 0 || ltb T.bit_width width))) [
          | inl odd ↦ rw odd (P.reason _ s)
          | inr fits ↦ elim (Bool-cases (leb T.limits.max_variables (length s.variables))) [
            | inl full ↦ rw (fits, full) (P.reason _ s)
            | inr free ↦
                rw (fits, free)
                  (P.one_after s (with_bit s) _ (P.bit s (ground arith) (ground arith))
                    ((narrow-Keeps _ width).apply (with_bit s)))
          ]
        ];
  }

  -- The record of the flag, before an operation.
  noted-Keeps {ℓ} :
      {A : Type ℓ} (note : RecoveryState → RecoveryState) (m : Run A)
      → ((s : RecoveryState) → R s (note s))
      → Keeps m
      → Keeps (λ s. m (note s))
  noted-Keeps note m noted after = record {
    apply = λ s. P.one_after s (note s) _ (noted s) (after.apply (note s));
  }

  module _ (child : Mlil → Run Expr) (deeper : (i : Mlil) → Keeps (child i)) where
    inline_source-Keeps :
        (v : SsaVariable) (width : ℕ) (source : Mlil) → Keeps (inline_source T child v width source)
    unfolding inline_source
    inline_source-Keeps v width source = record {
      apply = λ s.
          let tried = (deeper source).apply s in
          elim (Option-cases (child source s).0) [
            | inr (e, k) ↦ rw (k, inline_source) tried
            | inl k ↦
                rw (k, inline_source)
                  (P.one_after s (rolled_back s (child source s).1) _
                    (P.roll s (child source s).1 tried)
                    ((variable_leaf-Keeps v width).apply (rolled_back s (child source s).1)))
          ];
    }

    expand_variable-Keeps : (v : SsaVariable) (width : ℕ) → Keeps (expand_variable T child v width)
    unfolding expand_variable inline_definition
    expand_variable-Keeps v width =
        let leaf = variable_leaf-Keeps v width in
        let definition = T.ssa.get_instruction (T.ssa.ssa_var_definition v) in
        let source = T.ssa.source_expr definition in
        if-Keeps (v.version == 0) leaf (
          if-Keeps (leb T.ssa.instruction_count (T.ssa.ssa_var_definition v)) leaf (
            if-Keeps (not (is_set_var_ssa (operation definition))) leaf (
              if-Keeps (not (same_variable (T.ssa.dest_ssa_variable definition) v)) leaf (
                if-Keeps (differs source definition || not (size source == width / 8)) leaf
                  (inline_source-Keeps v width source)))))

    binary-Keeps : (i : Mlil) (kind : BinaryKind) → Keeps (binary T child i kind)
    unfolding binary
    binary-Keeps i kind = bind-Keeps (semantic_width-Keeps i) λ width.
        if-Keeps (width == 0) (stop-Keeps _) (
          if-Keeps (differs (T.ssa.left_expr i) i || differs (T.ssa.right_expr i) i)
            (fail-Keeps _ _) (both-Keeps (deeper _) (deeper _) λ a b. narrow-Keeps _ width))

    subtract-Keeps : (i : Mlil) (width : ℕ) → Keeps (subtract T child i width)
    unfolding subtract
    subtract-Keeps i width =
        if-Keeps (differs (T.ssa.left_expr i) i || differs (T.ssa.right_expr i) i) (fail-Keeps _ _)
          (both-Keeps (deeper _) (deeper _) λ a b. narrow-Keeps _ width)

    unary-Keeps :
        (f : Expr → Expr) (mixed : Bytes) (i : Mlil) (width : ℕ)
        → Keeps (unary T child f mixed i width)
    unfolding unary
    unary-Keeps f mixed i width =
        if-Keeps (differs (T.ssa.source_expr i) i) (fail-Keeps _ _)
          (bind-Keeps (deeper _) λ e. narrow-Keeps (f e) width)

    zero_extend-Keeps : (i : Mlil) (width : ℕ) → Keeps (zero_extend T child i width)
    unfolding zero_extend
    zero_extend-Keeps i width = bind-Keeps (semantic_width-Keeps _) λ source_width.
        if-Keeps (source_width == 0 || leb width source_width) (fail-Keeps _ _)
          (bind-Keeps (deeper _) λ e. narrow-Keeps e source_width)

    shift_right-Keeps : (i : Mlil) (width : ℕ) → Keeps (shift_right T child i width)
    unfolding shift_right
    shift_right-Keeps i width = if-Keeps (differs (T.ssa.left_expr i) i) (fail-Keeps _ _) (
        if-Keeps (not (is_const (operation (T.ssa.right_expr i)))) (fail-Keeps _ _)
          (bind-Keeps (deeper _) λ e. narrow-Keeps _ width))

    shift_left-Keeps : (i : Mlil) (width : ℕ) → Keeps (shift_left T child i width)
    unfolding shift_left
    shift_left-Keeps i width = if-Keeps (differs (T.ssa.left_expr i) i) (fail-Keeps _ _) (
        if-Keeps (not (is_const (operation (T.ssa.right_expr i)))) (fail-Keeps _ _) (
          if-Keeps (leb width (T.ssa.constant (T.ssa.right_expr i))) (pure-Keeps _)
            (bind-Keeps (deeper _) λ e. narrow-Keeps _ width)))

    recover_operation-Keeps :
        (op : Operation) (i : Mlil) (width : ℕ) → Keeps (recover_operation T child op i width)
    unfolding recover_operation
    recover_operation-Keeps Operation.const i width = pure-Keeps _
    recover_operation-Keeps Operation.var_ssa i width = expand_variable-Keeps _ width
    recover_operation-Keeps Operation.var i width = variable_leaf-Keeps _ width
    recover_operation-Keeps Operation.add i width =
        noted-Keeps note_arithmetic _ P.arithmetic (binary-Keeps i BinaryKind.add)
    recover_operation-Keeps Operation.sub i width =
        noted-Keeps note_arithmetic _ P.arithmetic (subtract-Keeps i width)
    recover_operation-Keeps Operation.neg i width =
        noted-Keeps note_arithmetic _ P.arithmetic (unary-Keeps _ _ i width)
    recover_operation-Keeps Operation.mul i width =
        noted-Keeps note_arithmetic _ P.arithmetic (binary-Keeps i BinaryKind.mul)
    recover_operation-Keeps Operation.and i width =
        noted-Keeps note_bitwise _ P.bitwise (binary-Keeps i BinaryKind.and)
    recover_operation-Keeps Operation.or i width =
        noted-Keeps note_bitwise _ P.bitwise (binary-Keeps i BinaryKind.or)
    recover_operation-Keeps Operation.xor i width =
        noted-Keeps note_bitwise _ P.bitwise (binary-Keeps i BinaryKind.xor)
    recover_operation-Keeps Operation.not i width =
        noted-Keeps note_bitwise _ P.bitwise (unary-Keeps _ _ i width)
    recover_operation-Keeps Operation.zx i width = zero_extend-Keeps i width
    recover_operation-Keeps Operation.bool_to_int i width = predicate_boolean_leaf-Keeps width
    recover_operation-Keeps Operation.lsr i width =
        noted-Keeps note_bitwise _ P.bitwise (shift_right-Keeps i width)
    recover_operation-Keeps Operation.lsl i width =
        noted-Keeps note_arithmetic _ P.arithmetic (shift_left-Keeps i width)
    recover_operation-Keeps _ i width = fail-Keeps _ _

    store_recovered-Keeps : (i : ℕ) (e : Expr) → Keeps (store_recovered T child i e)
    unfolding store_recovered
    store_recovered-Keeps i e = record { apply = λ s. P.store s _ }

    visit_active-Keeps : (i : Mlil) (width : ℕ) → Keeps (visit_active T child i width)
    unfolding visit_active
    visit_active-Keeps i width = record {
      apply = λ s. elim (Bool-cases (contains s.active (expr_index i))) [
        | inl cycle ↦ rw cycle (P.reason _ s)
        | inr fresh ↦ rw fresh (
            P.bracket (expr_index i) s _ fresh (
              (bind-Keeps (recover_operation-Keeps (operation i) i width)
                  (store_recovered-Keeps (expr_index i))).apply
                (record s { active = expr_index i ∷ s.active })))
      ];
    }

    visit_uncached-Keeps :
        (depth : ℕ) (i : Mlil) (width : ℕ) → Keeps (visit_uncached T child depth i width)
    unfolding visit_uncached
    visit_uncached-Keeps depth i width =
        bind-Keeps (count_node-Keeps depth)
          λ affordable. if-Keeps affordable (visit_active-Keeps i width) (stop-Keeps _)

    visit_cached-Keeps :
        (depth : ℕ) (i : Mlil) (width : ℕ) → Keeps (visit_cached T child depth i width)
    unfolding visit_cached
    visit_cached-Keeps depth i width = record {
      apply = λ s. elim (Option-cases (find_cached (expr_index i) s.cache)) [
        | inl miss ↦ rw (miss, visit_cached) ((visit_uncached-Keeps depth i width).apply s)
        | inr (e, hit) ↦ rw (hit, visit_cached) (P.none_done s)
      ];
    }

    visit_step-Keeps : (depth : ℕ) (i : Mlil) → Keeps (visit_step T child depth i)
    unfolding visit_step
    visit_step-Keeps depth i =
        bind-Keeps (semantic_width-Keeps i)
          λ width. if-Keeps (width == 0) (stop-Keeps _) (visit_cached-Keeps depth i width)

  visit-Keeps : (fuel depth : ℕ) (i : Mlil) → Keeps (visit T fuel depth i)
  unfolding visit
  visit-Keeps zero depth i = stop-Keeps _
  visit-Keeps (suc fuel) depth i =
      visit_step-Keeps (visit T fuel (depth + 1)) (visit-Keeps fuel (depth + 1)) depth i

  -- `R` holds between the states before and after `Visit`.
  pub visit-respects :
      (fuel depth : ℕ) (i : Mlil) (s : RecoveryState) → R s (visit T fuel depth i s).1
  visit-respects fuel depth i = (visit-Keeps fuel depth i).apply
