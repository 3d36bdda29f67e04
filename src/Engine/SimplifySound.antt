-- ===== src/Engine/SimplifySound.antt =====
-- src/Engine.cpp: what the statuses of `SimplifyExpression` mean, given the documented behaviour of
-- CoBRA and of its Z3 verifier.
use mathlib.Core.Path.{subst}
use co_bra_for_binary_ninja.Prelude.{
  ℕ, ◌<◌, ◌≡◌, ◌≢◌, ◌⊎◌, inl, inr, refl, sym, ap, ◌∙◌, arith, Bool, true, false, List, [], ◌∷◌,
  some, Option-cases, Bool-cases, ltb, leb, ◌==◌, ◌||◌, length, get_or, Bytes,
}
use co_bra_for_binary_ninja.Cobra.{Kind, Expr, Assignment, value, node_value}
use co_bra_for_binary_ninja.Engine.Types.{SimplifyOptions, SimplifyStatus, SimplifyResult}
use co_bra_for_binary_ninja.Engine.Shape.{
  WellShaped, constant, variable, unary, binary, IsUnary, IsBinary,
}
use co_bra_for_binary_ninja.Engine.Simplify.{
  Library, Simplified, outcome, message, Outcome, OutcomeKind, z3_candidate, accept, verify,
  check_candidate, use_outcome, simplify_expression,
}

-- The variable `i` of a tree whose variables are called `names`, under values for the names.
abbrev pub by_name : (Bytes → ℕ) → List Bytes → Assignment
by_name sigma names i = sigma (get_or names i [])

-- A name of the list.
abbrev pub IsListed : List Bytes → Bytes → Type 0
IsListed names name = (i : ℕ) × (i < length names) × (get_or names i [] ≡ name)

-- The documented behaviour that the result rests on.
pub record LibraryLaws (C : Library) : Type 0 where
  -- Z3VerifyExprs says `equivalent` only of trees that agree under every assignment.
  pub verified :
      (a b : Expr) (names : List Bytes) (w timeout : ℕ)
      → (C.z3_verify_exprs a b names w timeout).equivalent ≡ true
      → (rho : Assignment) → value w rho a ≡ value w rho b
  -- RemapVarIndices replaces each index by its entry in the map.
  pub remapped :
      (e : Expr) (map : List ℕ) (w : ℕ) (rho : Assignment)
      → value w rho (C.remap_var_indices e map) ≡ value w (λ v. rho (get_or map v 0)) e
  -- BuildVarSupport lists the positions of the remaining variables among the original ones.
  pub support_length :
      (names real : List Bytes) → length (C.build_var_support names real) ≡ length real
  pub support_name :
      (names real : List Bytes) (v : ℕ)
      → v < length real
      → IsListed names (get_or real v [])
      → get_or names (get_or (C.build_var_support names real) v 0) [] ≡ get_or real v []
  -- Simplify returns a tree over the variables that it lists.
  pub shaped :
      (g : C.Signature) (names : List Bytes) (e : Expr) (w m : ℕ) (o : Outcome) (r : Expr)
      → C.simplify g names e w m ≡ outcome o
      → o.expr ≡ some r
      → WellShaped (length o.real_vars) r
  -- The variables that it lists are among those that it was given.
  pub listed :
      (g : C.Signature) (names : List Bytes) (e : Expr) (w m : ℕ) (o : Outcome) (r : Expr)
      → C.simplify g names e w m ≡ outcome o
      → o.expr ≡ some r
      → (v : ℕ) → v < length o.real_vars
      → IsListed names (get_or o.real_vars v [])

pub kind-cases :
    (k : OutcomeKind)
    → (k ≡ OutcomeKind.failed) ⊎ ((k ≡ OutcomeKind.unchanged_unsupported) ⊎ (k ≡ OutcomeKind.other))
kind-cases OutcomeKind.failed = inl refl
kind-cases OutcomeKind.unchanged_unsupported = inr (inl refl)
kind-cases OutcomeKind.other = inr (inr refl)

operator_agrees :
    (w : ℕ) (rho tau : Assignment) (k : Kind) (c v x y : ℕ)
    → k ≢ Kind.variable
    → node_value w rho k c v x y ≡ node_value w tau k c v x y
unfolding node_value
operator_agrees w rho tau Kind.variable c v x y h = absurd (h refl)
operator_agrees w rho tau Kind.constant c v x y h = refl
operator_agrees w rho tau _ c v x y h = refl

unary-ne-variable : (k : Kind) → IsUnary k → k ≢ Kind.variable
unary-ne-variable Kind.variable u e = u
unary-ne-variable Kind.not u e = cc
unary-ne-variable _ u e = cc

binary-ne-variable : (k : Kind) → IsBinary k → k ≢ Kind.variable
binary-ne-variable Kind.variable u e = u
binary-ne-variable Kind.add u e = cc
binary-ne-variable _ u e = cc

-- A tree over `n` variables depends on those only.
pub value_agrees :
    (n w : ℕ) (rho tau : Assignment) {e : Expr}
    → ((v : ℕ) → v < n → rho v ≡ tau v)
    → WellShaped n e
    → value w rho e ≡ value w tau e
unfolding value
value_agrees n w rho tau same (constant c v cs) = unfold node_value in refl
value_agrees n w rho tau same (variable c v cs h) = unfold node_value in rw (same v h)
value_agrees n w rho tau same (unary k c v {l} u s) =
    operator_agrees w rho tau k c v (value w rho l) 0 (unary-ne-variable k u)
    ∙ ap (λ (x : ℕ). node_value w tau k c v x 0) (value_agrees n w rho tau same s)
value_agrees n w rho tau same (binary k c v {l} {r} b s t) =
    operator_agrees w rho tau k c v (value w rho l) (value w rho r) (binary-ne-variable k b)
    ∙ ap (λ (x : ℕ). node_value w tau k c v x (value w rho r)) (value_agrees n w rho tau same s)
    ∙ ap (λ (y : ℕ). node_value w tau k c v (value w tau l) y) (value_agrees n w rho tau same t)

module _ (C : Library) where
  -- How a result can come to be `Simplified`.
  pub record IsProven (has_z3 : Bool) (original : Expr) (variables : List Bytes)
      (options : SimplifyOptions) (expr : Expr) (real_vars : List Bytes) (r : SimplifyResult)
      : Type 0 where
    pub built : has_z3 ≡ true
    pub better : C.is_better (C.compute_cost expr) (C.compute_cost original) ≡ true
    pub probed :
        C.full_width_check original
          (length variables)
          expr
          (C.build_var_support variables real_vars)
          options.bit_width
          options.full_width_probes
        ≡ true
    pub equivalent :
        (C.z3_verify_exprs original
          (z3_candidate C expr (C.build_var_support variables real_vars))
          variables
          options.bit_width
          options.z3_timeout_ms).equivalent
        ≡ true
    pub result : r.expression ≡ some expr
    pub names : r.variables ≡ real_vars
    pub marked : (r.z3_verified ≡ true) × (r.full_width_verified ≡ true)

  module _ (original : Expr) (variables : List Bytes) (options : SimplifyOptions) where
    candidate-IsProven :
        (has_z3 : Bool) (output : SimplifyResult) (expr : Expr) (real_vars : List Bytes)
        → output.z3_verified ≡ false
        → (check_candidate C has_z3 output original variables expr real_vars options).status
          ≡ SimplifyStatus.simplified
        → IsProven has_z3 original variables options expr real_vars
            (check_candidate C has_z3 output original variables expr real_vars options)
    unfolding check_candidate verify accept
    candidate-IsProven true output expr real_vars fresh h = ground arith
    candidate-IsProven false output expr real_vars fresh h = ground arith

    -- The outcome of CoBRA that a simplified result was made from.
    abbrev pub MadeFrom : Bool → Simplified → SimplifyResult → Type 0
    MadeFrom has_z3 s r =
        (o : Outcome) × (expr : Expr) × (s ≡ outcome o)
        × (o.expr ≡ some expr)
        × IsProven has_z3 original variables options expr o.real_vars r

    use_candidate :
        (has_z3 : Bool) (output : SimplifyResult) (o : Outcome) (expr : Expr)
        → o.expr ≡ some expr
        → o.kind ≡ OutcomeKind.other
        → use_outcome C has_z3 output original variables (outcome o) options
          ≡ check_candidate C has_z3 output original variables expr o.real_vars options
    unfolding use_outcome
    use_candidate has_z3 output o expr e k = ground arith

    outcome_made :
        (has_z3 : Bool) (output : SimplifyResult) (s : Simplified)
        → output.z3_verified ≡ false
        → output.status ≡ SimplifyStatus.error
        → (use_outcome C has_z3 output original variables s options).status
          ≡ SimplifyStatus.simplified
        → MadeFrom has_z3 s (use_outcome C has_z3 output original variables s options)
    unfolding use_outcome
    outcome_made has_z3 output (message text) fresh bad = λ h. cc
    outcome_made has_z3 output (outcome o) fresh bad = elim (Option-cases o.expr) [
      | inl e ↦ rw e (λ h. cc)
      | inr (expr, e) ↦ elim (kind-cases o.kind) [
        | inl k ↦ rw (e, k) (λ h. cc)
        | inr (inl k) ↦ rw (e, k) (λ h. cc)
        | inr (inr k) ↦
            subst
              (λ (r : SimplifyResult).
                r.status ≡ SimplifyStatus.simplified → MadeFrom has_z3 (outcome o) r)
              (sym (use_candidate has_z3 output o expr e k))
              (λ h. (o, expr, refl, e, candidate-IsProven has_z3 output expr o.real_vars fresh h))
      ]
    ]

    abbrev pub found : Simplified
    found =
        C.simplify (C.evaluate_boolean_signature original (length variables) options.bit_width)
          variables original options.bit_width options.max_variables

    -- A `Simplified` result comes from an outcome of CoBRA that costs less, passed the
    -- differential check and was proved equivalent, in a build with Z3.
    pub simplified_proven :
        (has_z3 : Bool)
        → (simplify_expression C has_z3 original variables options).status
          ≡ SimplifyStatus.simplified
        → MadeFrom has_z3 found (simplify_expression C has_z3 original variables options)
    unfolding simplify_expression
    simplified_proven has_z3 =
        elim (Bool-cases (options.bit_width == 0 || ltb 64 options.bit_width)) [
          | inl wrong ↦ rw wrong (λ h. cc)
          | inr right ↦
              elim (Bool-cases
                (ltb options.max_variables (length variables) || leb 63 (length variables))) [
                  | inl many ↦ rw (right, many) (λ h. cc)
                  | inr few ↦ rw (right, few) (outcome_made has_z3 _ found refl refl)
                ]
        ]

    module _ (L : LibraryLaws C) where
      module _ (expr : Expr) (real : List Bytes) (w : ℕ) (sigma : Bytes → ℕ)
          (shape : WellShaped (length real) expr)
          (drawn : (v : ℕ) → v < length real → IsListed variables (get_or real v [])) where
        mapped_value :
            (m : List ℕ)
            → length m ≡ length real
            → ((v : ℕ) → v < length real → get_or variables (get_or m v 0) [] ≡ get_or real v [])
            → value w (by_name sigma variables) (z3_candidate C expr m)
              ≡ value w (by_name sigma real) expr
        unfolding z3_candidate
        mapped_value [] same names =
            value_agrees (length real) w (by_name sigma variables) (by_name sigma real)
              (λ v h. absurd (omega (arith, same, h))) shape
        mapped_value (i ∷ m) same names =
            L.remapped expr (i ∷ m) w (by_name sigma variables)
            ∙ value_agrees (length real) w (λ v. by_name sigma variables (get_or (i ∷ m) v 0))
                (by_name sigma real) (λ v h. ap sigma (names v h)) shape

        z3_candidate-value :
            value w
              (by_name sigma variables)
              (z3_candidate C expr (C.build_var_support variables real))
            ≡ value w (by_name sigma real) expr
        z3_candidate-value =
            mapped_value (C.build_var_support variables real) (L.support_length variables real)
              (λ v h. L.support_name variables real v h (drawn v h))

      -- A `Simplified` result has the value of the original under all values for the variable
      -- names, although its variables may be fewer and in another order.
      pub simplified_sound :
          (has_z3 : Bool)
          → (simplify_expression C has_z3 original variables options).status
            ≡ SimplifyStatus.simplified
          → (expr : Expr) × ((simplify_expression C has_z3 original variables options).expression
              ≡ some expr)
            × ((sigma : Bytes → ℕ)
                → value options.bit_width (by_name sigma variables) original
                  ≡ value options.bit_width
                      (by_name sigma
                        (simplify_expression C has_z3 original variables options).variables)
                      expr)
      simplified_sound has_z3 h =
          let (o, expr, made, some_expr, proven) = simplified_proven has_z3 h in
          (
            expr,
            proven.result,
            λ sigma.
                L.verified _ _ _ _ _ proven.equivalent (by_name sigma variables)
                ∙ z3_candidate-value expr o.real_vars options.bit_width sigma
                    (L.shaped _ _ _ _ _ o expr made some_expr)
                    (L.listed _ _ _ _ _ o expr made some_expr)
                ∙ rw proven.names refl,
          )
