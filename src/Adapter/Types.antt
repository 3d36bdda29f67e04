-- ===== src/Adapter/Types.antt =====
-- include/smba/PluginAPI.h and src/BNAdapter.cpp: limits, reports and pending candidates.
use co_bra_for_binary_ninja.Prelude.{ℕ, Bool, List, Option, Bytes}
use co_bra_for_binary_ninja.Cobra.{Expr}

pub record CandidateReport : Type 0 where
  pub expression_index : ℕ
  pub address : ℕ
  pub before : Bytes
  pub after : Bytes
  pub reason : Bytes
  pub accepted : Bool
  pub applied : Bool

pub record FunctionReport : Type 0 where
  pub candidates : List CandidateReport
  pub diagnostic : Bytes
  pub accepted : ℕ
  pub applied : ℕ

-- A variable of Binary Ninja, by its identifier.
abbrev pub Variable : Type 0
Variable = ℕ

pub record PendingCandidate : Type 0 where
  pub report : CandidateReport
  pub root_expression : ℕ
  pub size : ℕ
  pub original_cost : ℕ
  pub is_predicate : Bool
  pub predicate_value : Bool
  pub simplified : Option Expr
  pub simplified_variables : List Bytes
  pub variable_by_name : List (Bytes × Variable)

pub record AnalysisLimits : Type 0 where
  pub max_nodes : ℕ
  pub max_depth : ℕ
  pub min_nodes : ℕ
  pub max_variables : ℕ
  pub max_candidate_roots : ℕ

abbrev pub default_limits : AnalysisLimits
default_limits = record {
  max_nodes = 350;
  max_depth = 40;
  min_nodes = 7;
  max_variables = 16;
  max_candidate_roots = 128;
}
