-- ===== src/Engine/ProveResult.antt =====
-- src/Engine.cpp, `ProveConstantComparison` as a whole: its guards, and what each status means.
use mathlib.Core.Path.{subst, fun_ext}
use mathlib.Core.Option.{some-injective}
use co_bra_for_binary_ninja.Prelude.{
  ℕ, ◌<◌, ◌≤◌, ◌≡◌, ◌≢◌, ◌⊎◌, inl, inr, refl, sym, ◌∙◌, arith, Bool, true, false, List, none, some,
  Option-cases, length, Bytes,
}
use co_bra_for_binary_ninja.Decimal.{to_string}
use co_bra_for_binary_ninja.Cobra.{Expr, Assignment, value}
use co_bra_for_binary_ninja.Engine.Types.{
  SimplifyOptions, ComparisonKind, is_supported_comparison, PredicateStatus, PredicateResult,
}
use co_bra_for_binary_ninja.Engine.Z3.{Terms, TermLaws, Solvers, SolverLaws, Env}
use co_bra_for_binary_ninja.Engine.Validate.{valid, validate_comparison_expr}
use co_bra_for_binary_ninja.Engine.Shape.{validate_comparison_expr_exact}
use co_bra_for_binary_ninja.Engine.Meaning.{holds, env_of, env_of-symbol_name, assignment_of}
use co_bra_for_binary_ninja.Engine.Prove.{
  decide_predicate, after_false_query, query_predicate, prove_with_z3, prove_constant_comparison,
}
use co_bra_for_binary_ninja.Engine.ProveSound.{
  Settles, decide_predicate-Settles, symbols, outcome, predicate, chain-decide,
}

status-cases :
    (s : PredicateStatus)
    → ((s ≡ PredicateStatus.error) ⊎ (s ≡ PredicateStatus.rejected))
      ⊎ ((s ≢ PredicateStatus.error) × (s ≢ PredicateStatus.rejected))
status-cases PredicateStatus.error = inl (inl refl)
status-cases PredicateStatus.rejected = inl (inr refl)
status-cases PredicateStatus.proved_constant = inr ((λ e. cc), (λ e. cc))
status-cases PredicateStatus.not_constant = inr ((λ e. cc), (λ e. cc))

-- What the two queries can come to.
abbrev pub IsSettled : PredicateResult → Type 0
IsSettled r =
    ((r.status ≡ PredicateStatus.proved_constant) × (r.z3_verified ≡ true) × (r.timed_out ≡ false))
    ⊎ (((r.status ≡ PredicateStatus.not_constant) × (r.z3_verified ≡ false) × (r.timed_out ≡ false))
        ⊎ ((r.status ≡ PredicateStatus.rejected) × (r.z3_verified ≡ false) × (r.timed_out ≡ true)))

decide_outcomes :
    (T : Terms) (S : Solvers T) (s : S.Solver) (p : T.Ast) (vs : List T.Ast) (ns : List Bytes)
    → IsSettled (decide_predicate T S s p vs ns)
unfolding decide_predicate after_false_query query_predicate
decide_outcomes T S s p vs ns = ground arith

module _ (T : Terms) (S : Solvers T) (left right : Expr) (variables : List Bytes) (w : ℕ)
    (kind : ComparisonKind) (options : SimplifyOptions) where
  -- What `ProveConstantComparison` checks before it asks Z3.
  pub record IsReady : Type 0 where
    pub width_pos : w ≢ 0
    pub width_le : w ≤ 64
    pub allowed : length variables ≤ options.max_variables
    pub few : length variables < 63
    pub supported : is_supported_comparison kind ≡ true
    pub left_valid : validate_comparison_expr (length variables) left ≡ valid
    pub right_valid : validate_comparison_expr (length variables) right ≡ valid

  reached :
      (has_z3 : Bool) (r : PredicateResult)
      → prove_constant_comparison T S has_z3 left right variables w kind options ≡ some r
      → r.status ≢ PredicateStatus.error
      → r.status ≢ PredicateStatus.rejected
      → IsReady × (has_z3 ≡ true) × (prove_with_z3 T S left right variables w kind options ≡ some r)
  unfolding prove_constant_comparison
  reached has_z3 r h ne nr = ground arith

  proceeds :
      IsReady
      → prove_constant_comparison T S true left right variables w kind options
        ≡ prove_with_z3 T S left right variables w kind options
  unfolding prove_constant_comparison
  proceeds ready = ground arith

  undefined_only_from_z3 :
      (has_z3 : Bool)
      → prove_constant_comparison T S has_z3 left right variables w kind options ≡ none
      → IsReady × (prove_with_z3 T S left right variables w kind options ≡ none)
  unfolding prove_constant_comparison
  undefined_only_from_z3 has_z3 h = ground arith

  module _ (L : TermLaws T) (SL : SolverLaws T S) where
    -- The formula that a ready call hands to Z3.
    ready_result :
        IsReady
        → (t : T.Ast) × ((e : Env)
            → T.truth t e ≡ outcome T L S SL left right variables w kind (assignment_of e))
          × (prove_with_z3 T S left right variables w kind options
              ≡ some (
                  decide_predicate T S
                    (S.mk_solver (to_string options.z3_timeout_ms))
                    t
                    (symbols T L S SL left right variables w kind)
                    variables))
    ready_result ready =
        let (t, et, pt) =
          predicate T L S SL left right variables w kind ready.supported
            ((validate_comparison_expr_exact (length variables) left).0 ready.left_valid)
            ((validate_comparison_expr_exact (length variables) right).0 ready.right_valid) in
        (t, pt, chain-decide T L S SL left right variables w kind options t et)

    result-Settles :
        (has_z3 : Bool) (r : PredicateResult)
        → prove_constant_comparison T S has_z3 left right variables w kind options ≡ some r
        → r.status ≢ PredicateStatus.error
        → r.status ≢ PredicateStatus.rejected
        → (t : T.Ast) × ((e : Env)
            → T.truth t e ≡ outcome T L S SL left right variables w kind (assignment_of e))
          × Settles T L S SL t r
    result-Settles has_z3 r h ne nr =
        let (ready, z3, e) = reached has_z3 r h ne nr in
        let (t, pt, et) = ready_result ready in
        (
          t,
          pt,
          subst (λ (q : PredicateResult). Settles T L S SL t q) (some-injective _ _ (sym et ∙ e))
              (decide_predicate-Settles T L S SL _ t _ variables (SL.frames_new _)),
        )

    -- A call always returns a result: it never hands Z3 a null term and never reads outside the
    -- children or the variables.
    pub prove_constant_comparison_answers :
        (has_z3 : Bool)
        → (r : PredicateResult) × (prove_constant_comparison T S has_z3 left right variables w kind
              options
            ≡ some r)
    prove_constant_comparison_answers has_z3 =
        elim (Option-cases
          (prove_constant_comparison T S has_z3 left right variables w kind options)) [
            | inr (r, e) ↦ (r, e)
            | inl e ↦
                let (ready, none_built) = undefined_only_from_z3 has_z3 e in
                let (t, pt, built) = ready_result ready in cc (none_built, built)
          ]

    -- A comparison that is reported constant has the reported value under every assignment to the
    -- variables, and the report rests on a proof of Z3.
    pub proved_constant_sound :
        (has_z3 : Bool) (r : PredicateResult)
        → prove_constant_comparison T S has_z3 left right variables w kind options ≡ some r
        → r.status ≡ PredicateStatus.proved_constant
        → ((rho : Assignment)
            → holds w kind (value w rho left) (value w rho right) ≡ r.constant_value)
          × (r.z3_verified ≡ true)
          × (has_z3 ≡ true)
    proved_constant_sound has_z3 r h status =
        let (t, pt, settled) =
          result-Settles has_z3 r h (λ e. cc (sym e ∙ status)) (λ e. cc (sym e ∙ status)) in
        let (always, verified) = settled.constant status in
        (
          λ rho.
              subst
                (λ (a : Assignment).
                  holds w kind (value w a left) (value w a right) ≡ r.constant_value)
                (fun_ext (env_of-symbol_name rho)) (sym (pt (env_of rho)) ∙ always (env_of rho)),
          verified,
          (reached has_z3 r h (λ e. cc (sym e ∙ status)) (λ e. cc (sym e ∙ status))).1,
        )

    -- A comparison that is reported not constant holds under one assignment and fails under another.
    pub not_constant_sound :
        (has_z3 : Bool) (r : PredicateResult)
        → prove_constant_comparison T S has_z3 left right variables w kind options ≡ some r
        → r.status ≡ PredicateStatus.not_constant
        → ((rho : Assignment) × (holds w kind (value w rho left) (value w rho right) ≡ true))
          × ((rho : Assignment) × (holds w kind (value w rho left) (value w rho right) ≡ false))
    not_constant_sound has_z3 r h status =
        let (t, pt, settled) =
          result-Settles has_z3 r h (λ e. cc (sym e ∙ status)) (λ e. cc (sym e ∙ status)) in
        let ((e, yes_here), (f, no_here)) = settled.varies status in
        ((assignment_of e, sym (pt e) ∙ yes_here), (assignment_of f, sym (pt f) ∙ no_here))

    -- With Z3 built in and arguments that pass the guards, the call ends in one of three ways: a
    -- verified constant, a comparison that varies, or a rejection marked as a timeout.
    pub prove_constant_comparison_settles :
        IsReady
        → (r : PredicateResult) × (prove_constant_comparison T S true left right variables w kind
              options
            ≡ some r)
          × IsSettled r
    prove_constant_comparison_settles ready =
        let (t, pt, built) = ready_result ready in
        (_, proceeds ready ∙ built, decide_outcomes T S _ t _ variables)

    -- A call without Z3, or whose arguments fail a guard, ends with an error or a rejection.
    pub prove_constant_comparison_refuses :
        (has_z3 : Bool) (r : PredicateResult)
        → prove_constant_comparison T S has_z3 left right variables w kind options ≡ some r
        → (has_z3 ≡ false) ⊎ (¬ IsReady)
        → (r.status ≡ PredicateStatus.error) ⊎ (r.status ≡ PredicateStatus.rejected)
    prove_constant_comparison_refuses has_z3 r h no_proof = elim (status-cases r.status) [
      | inl refused ↦ refused
      | inr (ne, nr) ↦
          let (ready, z3, e) = reached has_z3 r h ne nr in
          elim no_proof [ inl absent ↦ cc | inr unready ↦ absurd (unready ready) ]
    ]
