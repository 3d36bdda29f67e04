-- ===== src/Engine/SimplifyPolicy.antt =====
-- src/Engine.cpp: which results of `SimplifyExpression` carry an expression.
use mathlib.Core.Path.{subst}
use co_bra_for_binary_ninja.Prelude.{
  ◌≡◌, ◌⊎◌, inl, inr, refl, sym, some, Bool, true, false, Bool-cases, ltb, leb, ◌==◌, ◌||◌, List,
  none, Option-cases, length, Bytes,
}
use co_bra_for_binary_ninja.Cobra.{Expr}
use co_bra_for_binary_ninja.Engine.Types.{SimplifyOptions, SimplifyStatus, SimplifyResult}
use co_bra_for_binary_ninja.Engine.Simplify.{
  OutcomeKind, Outcome, Library, Simplified, outcome, message, z3_candidate, accept, verify,
  check_candidate, use_outcome, simplify_expression,
}
use co_bra_for_binary_ninja.Engine.SimplifySound.{kind-cases}

module _ (C : Library) (original : Expr) (variables : List Bytes) (options : SimplifyOptions) where
  -- What CoBRA returns for the expression.
  abbrev pub answer : Simplified
  answer =
      C.simplify (C.evaluate_boolean_signature original (length variables) options.bit_width)
        variables original options.bit_width options.max_variables

  -- The result carries this expression of CoBRA's, over these variables: it is cheaper than the
  -- original, and the differential check of the two has passed.
  pub record IsChecked (expr : Expr) (real_vars : List Bytes) (r : SimplifyResult) : Type 0 where
    pub expression : r.expression ≡ some expr
    pub variables_kept : r.variables ≡ real_vars
    pub cheaper : C.is_better (C.compute_cost expr) (C.compute_cost original) ≡ true
    pub probed :
        C.full_width_check original
          (length variables)
          expr
          (C.build_var_support variables real_vars)
          options.bit_width
          options.full_width_probes
        ≡ true
    pub flagged : r.full_width_verified ≡ true

  -- That CoBRA has returned this expression over these variables, and no error.
  pub record IsAnswer (expr : Expr) (real_vars : List Bytes) : Type 0 where
    pub found : Outcome
    pub answered : answer ≡ outcome found
    pub has_expr : found.expr ≡ some expr
    pub has_vars : found.real_vars ≡ real_vars
    pub no_error : found.kind ≡ OutcomeKind.other

  -- A result carries an expression only if CoBRA has returned it, it has been checked, and either
  -- Z3 has found it equivalent to the original, or the build has no Z3 and the caller does not
  -- require it.
  pub data IsPermitted (has_z3 : Bool) (r : SimplifyResult) : Type 0 where
    withheld :
        r.expression ≡ none
        → r.z3_verified ≡ false
        → (r.status ≡ SimplifyStatus.unchanged)
          ⊎ ((r.status ≡ SimplifyStatus.rejected) ⊎ (r.status ≡ SimplifyStatus.error))
        → IsPermitted has_z3 r
    with_proof :
        (expr : Expr) (real_vars : List Bytes)
        → has_z3 ≡ true
        → IsAnswer expr real_vars
        → IsChecked expr real_vars r
        → (C.z3_verify_exprs original
            (z3_candidate C expr (C.build_var_support variables real_vars))
            variables
            options.bit_width
            options.z3_timeout_ms).equivalent
          ≡ true
        → r.z3_verified ≡ true
        → r.status ≡ SimplifyStatus.simplified
        → IsPermitted has_z3 r
    by_probes :
        (expr : Expr) (real_vars : List Bytes)
        → has_z3 ≡ false
        → options.require_z3 ≡ false
        → IsAnswer expr real_vars
        → IsChecked expr real_vars r
        → r.z3_verified ≡ false
        → r.status ≡ SimplifyStatus.probabilistic
        → IsPermitted has_z3 r

  waived_verify :
      (output : SimplifyResult) (expr : Expr) (real_vars : List Bytes)
      → options.require_z3 ≡ false
      → verify C false output original variables expr real_vars
          (C.build_var_support variables real_vars)
          options
        ≡ accept C output expr real_vars options.bit_width
  unfolding verify
  waived_verify output expr real_vars waived = rw waived refl

  -- A result without a proof, given what has been checked of its expression.
  accept-IsPermitted :
      (output : SimplifyResult) (expr : Expr) (real_vars : List Bytes)
      → output.z3_verified ≡ false
      → options.require_z3 ≡ false
      → IsAnswer expr real_vars
      → IsChecked expr real_vars (record output { variables = real_vars; expression = some expr })
      → IsPermitted false (accept C output expr real_vars options.bit_width)
  unfolding accept
  accept-IsPermitted output expr real_vars fresh waived from checked = rw fresh (
      by_probes expr real_vars refl waived from
        (record {
          expression = refl;
          variables_kept = refl;
          cheaper = checked.cheaper;
          probed = checked.probed;
          flagged = checked.flagged;
        })
        refl refl)

  verify-IsPermitted :
      (has_z3 : Bool) (output : SimplifyResult) (expr : Expr) (real_vars : List Bytes)
      → output.expression ≡ none
      → output.z3_verified ≡ false
      → output.full_width_verified ≡ true
      → IsAnswer expr real_vars
      → C.is_better (C.compute_cost expr) (C.compute_cost original) ≡ true
      → C.full_width_check original
          (length variables)
          expr
          (C.build_var_support variables real_vars)
          options.bit_width
          options.full_width_probes
        ≡ true
      → IsPermitted has_z3 (
          verify C has_z3 output original variables expr real_vars
            (C.build_var_support variables real_vars)
            options)
  unfolding verify accept
  verify-IsPermitted true output expr real_vars empty fresh flag from better passed =
      elim (Bool-cases
        (C.z3_verify_exprs original (z3_candidate C expr (C.build_var_support variables real_vars))
          variables options.bit_width options.z3_timeout_ms).equivalent) [
            | inl equivalent ↦ rw (equivalent) (
                with_proof expr real_vars refl from
                  (record {
                    expression = refl;
                    variables_kept = refl;
                    cheaper = better;
                    probed = passed;
                    flagged = flag;
                  })
                  equivalent refl refl)
            | inr differ ↦ rw differ (withheld empty fresh (inr (inl refl)))
          ]
  verify-IsPermitted false output expr real_vars empty fresh flag from better passed =
      elim (Bool-cases options.require_z3) [
        | inl required ↦ rw required (withheld empty fresh (inr (inl refl)))
        | inr waived ↦
            subst (IsPermitted false) (sym (waived_verify output expr real_vars waived)) (
              accept-IsPermitted output expr real_vars fresh waived from (record {
                expression = refl;
                variables_kept = refl;
                cheaper = better;
                probed = passed;
                flagged = flag;
              }))
      ]

  candidate-IsPermitted :
      (has_z3 : Bool) (output : SimplifyResult) (expr : Expr) (real_vars : List Bytes)
      → output.expression ≡ none
      → output.z3_verified ≡ false
      → IsAnswer expr real_vars
      → IsPermitted has_z3
          (check_candidate C has_z3 output original variables expr real_vars options)
  unfolding check_candidate
  candidate-IsPermitted has_z3 output expr real_vars empty fresh from =
      elim (Bool-cases (C.is_better (C.compute_cost expr) (C.compute_cost original))) [
        | inr worse ↦ rw worse (withheld empty fresh (inl refl))
        | inl better ↦
            elim (Bool-cases (
              C.full_width_check original (length variables) expr
                (C.build_var_support variables real_vars) options.bit_width
                options.full_width_probes)) [
                  | inr failed ↦ rw (better, failed) (withheld empty fresh (inr (inl refl)))
                  | inl passed ↦
                      rw (better, passed)
                        (verify-IsPermitted has_z3 _ expr real_vars empty fresh refl from better
                          passed)
                ]
      ]

  outcome-IsPermitted :
      (has_z3 : Bool) (output : SimplifyResult) (s : Simplified)
      → output.expression ≡ none
      → output.z3_verified ≡ false
      → output.status ≡ SimplifyStatus.error
      → answer ≡ s
      → IsPermitted has_z3 (use_outcome C has_z3 output original variables s options)
  unfolding use_outcome
  outcome-IsPermitted has_z3 output (message text) empty fresh bad from =
      withheld empty fresh (inr (inr bad))
  outcome-IsPermitted has_z3 output (outcome o) empty fresh bad from = elim (Option-cases o.expr) [
    | inl e ↦ rw e (withheld empty fresh (inr (inr bad)))
    | inr (expr, e) ↦ elim (kind-cases o.kind) [
      | inl k ↦ rw (e, k) (withheld empty fresh (inr (inr bad)))
      | inr (inl k) ↦ rw (e, k) (withheld empty fresh (inl refl))
      | inr (inr k) ↦
          rw (e, k)
            (candidate-IsPermitted has_z3 output expr o.real_vars empty fresh
              (record { found = o; answered = from; has_expr = e; has_vars = refl; no_error = k }))
    ]
  ]

  -- Every result of `SimplifyExpression` either carries no expression and is unchanged, rejected or
  -- an error, or carries an expression that CoBRA returned, that is cheaper than the original and
  -- for which the differential check passed. In the second case either Z3 found it equivalent to
  -- the original and it is marked as simplified, or the build has no Z3, the caller does not
  -- require it, and it is marked as probabilistic.
  pub simplify_expression-IsPermitted :
      (has_z3 : Bool) → IsPermitted has_z3 (simplify_expression C has_z3 original variables options)
  unfolding simplify_expression
  simplify_expression-IsPermitted has_z3 =
      elim (Bool-cases (options.bit_width == 0 || ltb 64 options.bit_width)) [
        | inl wrong ↦ rw wrong (withheld refl refl (inr (inr refl)))
        | inr right ↦
            elim (Bool-cases
              (ltb options.max_variables (length variables) || leb 63 (length variables))) [
                | inl many ↦ rw (right, many) (withheld refl refl (inr (inl refl)))
                | inr few ↦ rw (right, few) (outcome-IsPermitted has_z3 _ _ refl refl refl refl)
              ]
      ]
