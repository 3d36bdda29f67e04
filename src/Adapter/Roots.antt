-- ===== src/Adapter/Roots.antt =====
-- src/BNAdapter.cpp: `IsCandidateRoot`, `ComparisonForOperation`, `IsRecoverableRoot`,
-- `ComparisonText` and the order in which candidates are tried.
use co_bra_for_binary_ninja.Prelude.{
  ◌≡◌, ◌≢◌, ◌⊎◌, arith, Bool, true, false, not, ◌||◌, if◌then◌else◌, ltb, ◌==◌, Option, none, some,
  Bytes, codes,
}
use co_bra_for_binary_ninja.Adapter.Mlil.{Operation}
use co_bra_for_binary_ninja.Adapter.Types.{PendingCandidate}
use co_bra_for_binary_ninja.Engine.Types.{ComparisonKind}

unfoldable pub is_candidate_root : Operation → Bool
is_candidate_root Operation.add = true
is_candidate_root Operation.sub = true
is_candidate_root Operation.mul = true
is_candidate_root Operation.neg = true
is_candidate_root Operation.and = true
is_candidate_root Operation.or = true
is_candidate_root Operation.xor = true
is_candidate_root Operation.not = true
is_candidate_root Operation.lsl = true
is_candidate_root Operation.lsr = true
is_candidate_root _ = false

unfoldable pub comparison_for_operation : Operation → Option ComparisonKind
comparison_for_operation Operation.cmp_e = some ComparisonKind.equal
comparison_for_operation Operation.cmp_ne = some ComparisonKind.not_equal
comparison_for_operation Operation.cmp_ult = some ComparisonKind.unsigned_less_than
comparison_for_operation Operation.cmp_ule = some ComparisonKind.unsigned_less_equal
comparison_for_operation Operation.cmp_uge = some ComparisonKind.unsigned_greater_equal
comparison_for_operation Operation.cmp_ugt = some ComparisonKind.unsigned_greater_than
comparison_for_operation Operation.cmp_slt = some ComparisonKind.signed_less_than
comparison_for_operation Operation.cmp_sle = some ComparisonKind.signed_less_equal
comparison_for_operation Operation.cmp_sge = some ComparisonKind.signed_greater_equal
comparison_for_operation Operation.cmp_sgt = some ComparisonKind.signed_greater_than
comparison_for_operation _ = none

abbrev pub has_value : Option ComparisonKind → Bool
has_value none = false
has_value (some k) = true

unfoldable pub is_recoverable_root : Operation → Bool
is_recoverable_root op = is_candidate_root op || has_value (comparison_for_operation op)

unfoldable pub comparison_text : ComparisonKind → Bytes
comparison_text ComparisonKind.equal = codes "=="
comparison_text ComparisonKind.not_equal = codes "!="
comparison_text ComparisonKind.unsigned_less_than = codes "u<"
comparison_text ComparisonKind.unsigned_less_equal = codes "u<="
comparison_text ComparisonKind.unsigned_greater_equal = codes "u>="
comparison_text ComparisonKind.unsigned_greater_than = codes "u>"
comparison_text ComparisonKind.signed_less_than = codes "s<"
comparison_text ComparisonKind.signed_less_equal = codes "s<="
comparison_text ComparisonKind.signed_greater_equal = codes "s>="
comparison_text ComparisonKind.signed_greater_than = codes "s>"
comparison_text (ComparisonKind.other k) = codes "?"

abbrev pub bool_eq : Bool → Bool → Bool
bool_eq true b = b
bool_eq false b = not b

-- The order of `std::sort` in `CollectCandidates`: predicates first, then by falling cost, then by
-- rising root.
unfoldable pub comes_before : PendingCandidate → PendingCandidate → Bool
comes_before left right =
    if not (bool_eq left.is_predicate right.is_predicate)
    then left.is_predicate
    else if not (left.original_cost == right.original_cost)
    then ltb right.original_cost left.original_cost
    else ltb left.root_expression right.root_expression

-- `std::sort` needs a strict weak order. This one is irreflexive and transitive, and two
-- candidates with different roots are always ordered.
pub comes_before_order :
    (a b c : PendingCandidate)
    → (comes_before a a ≡ false)
      × (comes_before a b ≡ true → comes_before b c ≡ true → comes_before a c ≡ true)
      × (a.root_expression ≢ b.root_expression
          → (comes_before a b ≡ true) ⊎ (comes_before b a ≡ true))
unfolding comes_before
comes_before_order a b c = (ground arith, ground arith, ground arith)
