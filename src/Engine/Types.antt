-- ===== src/Engine/Types.antt =====
-- include/smba/Engine.h: options, results and the comparison kinds; src/Engine.cpp:
-- `IsSupportedComparison`.
use co_bra_for_binary_ninja.Prelude.{ℕ, Bool, true, false, Option, none, Bytes, [], List}
use co_bra_for_binary_ninja.Cobra.{Expr}

pub record SimplifyOptions : Type 0 where
  pub bit_width : ℕ
  pub max_variables : ℕ
  pub full_width_probes : ℕ
  pub z3_timeout_ms : ℕ
  pub require_z3 : Bool

abbrev pub default_options : SimplifyOptions
default_options = record {
  bit_width = 64;
  max_variables = 16;
  full_width_probes = 64;
  z3_timeout_ms = 750;
  require_z3 = true;
}

-- `other` is a value outside the enumeration, which a cast can produce.
pub data ComparisonKind : Type 0 where
  equal not_equal : ComparisonKind
  unsigned_less_than unsigned_less_equal : ComparisonKind
  unsigned_greater_equal unsigned_greater_than : ComparisonKind
  signed_less_than signed_less_equal : ComparisonKind
  signed_greater_equal signed_greater_than : ComparisonKind
  other : ℕ → ComparisonKind

unfoldable pub is_supported_comparison : ComparisonKind → Bool
is_supported_comparison (other _) = false
is_supported_comparison _ = true

pub data PredicateStatus : Type 0 where
  proved_constant not_constant rejected error : PredicateStatus

pub record PredicateResult : Type 0 where
  pub status : PredicateStatus
  pub constant_value : Bool
  pub reason : Bytes
  pub z3_verified : Bool
  pub timed_out : Bool
  pub counterexample : Option Bytes

-- `PredicateResult output;`
abbrev pub predicate_result : PredicateResult
predicate_result = record {
  status = error;
  constant_value = false;
  reason = [];
  z3_verified = false;
  timed_out = false;
  counterexample = none;
}

pub data SimplifyStatus : Type 0 where
  simplified probabilistic unchanged rejected error : SimplifyStatus

-- `expression` is null where it is `none`.
pub record SimplifyResult : Type 0 where
  pub status : SimplifyStatus
  pub expression : Option Expr
  pub variables : List Bytes
  pub original_text : Bytes
  pub simplified_text : Bytes
  pub reason : Bytes
  pub full_width_verified : Bool
  pub z3_verified : Bool
  pub original_cost : ℕ
  pub simplified_cost : ℕ

-- `SimplifyResult output;`
abbrev pub simplify_result : SimplifyResult
simplify_result = record {
  status = SimplifyStatus.error;
  expression = none;
  variables = [];
  original_text = [];
  simplified_text = [];
  reason = [];
  full_width_verified = false;
  z3_verified = false;
  original_cost = 0;
  simplified_cost = 0;
}
