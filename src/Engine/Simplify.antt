-- ===== src/Engine/Simplify.antt =====
-- src/Engine.cpp: `SimplifyExpression`. CoBRA's functions and its Z3 verifier are the record
-- `Library`; `has_z3` is the macro SMBA_HAS_Z3.
use co_bra_for_binary_ninja.Prelude.{
  ℕ, Bool, true, false, not, ◌||◌, if◌then◌else◌, ltb, leb, ◌==◌, List, [], ◌∷◌, ◌++◌, Option, none,
  some, length, Bytes, codes,
}
use co_bra_for_binary_ninja.Cobra.{Expr}
use co_bra_for_binary_ninja.Engine.Types.{
  SimplifyOptions, SimplifyStatus, SimplifyResult, simplify_result,
}

-- `cobra::SimplifyOutcome::Kind`; `other` is any kind that the code lets pass.
pub data OutcomeKind : Type 0 where
  failed unchanged_unsupported other : OutcomeKind

-- `cobra::SimplifyOutcome`: its kind, expression (or null), variables and `diag.reason`.
pub record Outcome : Type 0 where
  pub kind : OutcomeKind
  pub expr : Option Expr
  pub real_vars : List Bytes
  pub diag_reason : Bytes

-- The value, or the message of the error.
pub data Simplified : Type 0 where
  outcome : Outcome → Simplified
  message : Bytes → Simplified

-- The result of `cobra::Z3VerifyExprs`.
pub record Proof : Type 0 where
  pub equivalent : Bool
  pub timed_out : Bool
  pub counterexample : Bytes

pub record Library : Type 1 where
  pub Cost : Type 0
  pub Signature : Type 0
  pub weighted_size : Cost → ℕ
  pub render : Expr → List Bytes → ℕ → Bytes
  pub compute_cost : Expr → Cost
  pub is_better : Cost → Cost → Bool
  pub evaluate_boolean_signature : Expr → ℕ → ℕ → Signature
  -- signature, variables, original, bit width, variable limit
  pub simplify : Signature → List Bytes → Expr → ℕ → ℕ → Simplified
  pub build_var_support : List Bytes → List Bytes → List ℕ
  -- original, variable count, candidate, variable map, bit width, probes
  pub full_width_check : Expr → ℕ → Expr → List ℕ → ℕ → ℕ → Bool
  pub remap_var_indices : Expr → List ℕ → Expr
  -- original, candidate, variables, bit width, timeout
  pub z3_verify_exprs : Expr → Expr → List Bytes → ℕ → ℕ → Proof

module _ (C : Library) where
  unfoldable pub z3_candidate : Expr → List ℕ → Expr
  z3_candidate expr [] = expr
  z3_candidate expr (v ∷ variable_map) = C.remap_var_indices expr (v ∷ variable_map)

  -- The lines after the verification.
  unfoldable pub accept : SimplifyResult → Expr → List Bytes → ℕ → SimplifyResult
  accept output expr real_vars bit_width =
      let filled = record output {
        variables = real_vars;
        simplified_text = C.render expr real_vars bit_width;
        expression = some expr;
      } in
      if output.z3_verified
      then record filled {
        status = SimplifyStatus.simplified;
        reason = codes "Z3-verified simplification";
      }
      else record filled {
        status = SimplifyStatus.probabilistic;
        reason = codes "probabilistic full-width check only (no Z3 proof)";
      }

  -- The two arms of `#ifdef SMBA_HAS_Z3`.
  unfoldable pub verify :
      Bool
      → SimplifyResult
      → Expr
      → List Bytes
      → Expr
      → List Bytes
      → List ℕ
      → SimplifyOptions
      → SimplifyResult
  verify true output original variables expr real_vars variable_map options =
      let proof =
        C.z3_verify_exprs original (z3_candidate expr variable_map) variables options.bit_width
          options.z3_timeout_ms in
      if not proof.equivalent
      then record output {
        status = SimplifyStatus.rejected;
        reason =
            if proof.timed_out
            then codes "Z3 proof timed out"
            else codes "Z3 equivalence proof failed: " ++ proof.counterexample;
      }
      else accept (record output { z3_verified = true }) expr real_vars options.bit_width
  verify false output original variables expr real_vars variable_map options =
      if options.require_z3
      then record output {
        status = SimplifyStatus.rejected;
        reason = codes "Z3 support is required but was not built";
      }
      else accept output expr real_vars options.bit_width

  -- A candidate that CoBRA found: its cost and the differential check.
  unfoldable pub check_candidate :
      Bool
      → SimplifyResult
      → Expr
      → List Bytes
      → Expr
      → List Bytes
      → SimplifyOptions
      → SimplifyResult
  check_candidate has_z3 output original variables expr real_vars options =
      let baseline_cost = C.compute_cost original in
      let candidate_cost = C.compute_cost expr in
      let costed = record output { simplified_cost = C.weighted_size candidate_cost } in
      let variable_map = C.build_var_support variables real_vars in
      if not (C.is_better candidate_cost baseline_cost)
      then record costed {
        status = SimplifyStatus.unchanged;
        reason = codes "candidate does not reduce CoBRA cost";
      }
      else if not (
          C.full_width_check original (length variables) expr variable_map options.bit_width
            options.full_width_probes)
      then record costed {
        status = SimplifyStatus.rejected;
        reason = codes "full-width differential verification failed";
      }
      else verify has_z3 (record costed { full_width_verified = true }) original variables expr
          real_vars variable_map options

  unfoldable pub use_outcome :
      Bool → SimplifyResult → Expr → List Bytes → Simplified → SimplifyOptions → SimplifyResult
  use_outcome has_z3 output original variables (message text) options = record output {
    reason = text;
  }
  use_outcome has_z3 output original variables (outcome o) options = elim (o.expr) [
    | none ↦ record output { reason = codes "CoBRA returned no expression" }
    | some expr ↦ elim (o.kind) [
      | failed ↦ record output { reason = o.diag_reason }
      | unchanged_unsupported ↦ record output {
        status = SimplifyStatus.unchanged;
        reason = o.diag_reason;
      }
      | other ↦ check_candidate has_z3 output original variables expr o.real_vars options
    ]
  ]

  unfoldable pub simplify_expression : Bool → Expr → List Bytes → SimplifyOptions → SimplifyResult
  simplify_expression has_z3 original variables options =
      let output = record simplify_result {
        original_text = C.render original variables options.bit_width;
      } in
      if options.bit_width == 0 || ltb 64 options.bit_width
      then record output { reason = codes "unsupported bit width" }
      else if ltb options.max_variables (length variables) || leb 63 (length variables)
      then record output {
        status = SimplifyStatus.rejected;
        reason = codes "variable limit exceeded";
      }
      else use_outcome has_z3
          (record output { original_cost = C.weighted_size (C.compute_cost original) }) original
          variables
          (C.simplify (C.evaluate_boolean_signature original (length variables) options.bit_width)
            variables original options.bit_width options.max_variables)
          options
