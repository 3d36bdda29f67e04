-- ===== src/Adapter/Copy.antt =====
-- src/BNAdapter.cpp, `TransformFunction`: the copy of the old function with the selected
-- expressions replaced. A location is the index of the expression that it is taken from.
use co_bra_for_binary_ninja.Prelude.{
  ℕ, ◌+◌, true, if◌then◌else◌, ◌==◌, ◌&&◌, List, [], ◌∷◌, ◌++◌, Option, none, some, Bytes,
}
use co_bra_for_binary_ninja.Adapter.Mlil.{
  Mlil, ins, Operands, end, expr, exprs, plain, Exprs, nil, cons,
}
use co_bra_for_binary_ninja.Adapter.Types.{PendingCandidate}
use co_bra_for_binary_ninja.Adapter.Outcome.{Outcome, returned, thrown, undefined}
use co_bra_for_binary_ninja.Adapter.BuildMlil.{Builder, Location, build_mlil}
use co_bra_for_binary_ninja.Adapter.Select.{contains}

-- `pending` with its flags, `appliedRoots` and `output.applied`.
pub record CopyState : Type 0 where
  pub pending : List PendingCandidate
  pub applied_roots : List ℕ
  pub applied : ℕ

-- How a part of the copy ends: with a value, or with an exception and its text, both with the state
-- that it leaves, or with undefined behaviour.
pub data Copied {ℓ} (A : Type ℓ) : Type ℓ where
  copied : A × CopyState → Copied A
  aborted : Bytes → CopyState → Copied A
  lost : Copied A

infixl 5 ◌>>=◌
abbrev pub ◌>>=◌ {ℓ κ} :
    {A : Type ℓ} {B : Type κ} → Copied A → (A × CopyState → Copied B) → Copied B
copied r >>= f = f r
aborted what st >>= f = aborted what st
lost >>= f = lost

-- A call that does not touch the state.
abbrev pub lift {ℓ} : {A : Type ℓ} → Outcome A → CopyState → Copied A
lift (returned a) st = copied (a, st)
lift (thrown what) st = aborted what st
lift undefined st = lost

unfoldable pub find_selected : ℕ → List (ℕ × PendingCandidate) → Option PendingCandidate
find_selected i [] = none
find_selected i ((root, c) ∷ rest) = if root == i then some c else find_selected i rest

-- `candidate.report.applied = true`, of the pending candidate that is selected for this root.
unfoldable pub set_applied : ℕ → List PendingCandidate → List PendingCandidate
set_applied root [] = []
set_applied root (c ∷ cs) =
    (if (c.root_expression == root) && c.report.accepted
      then record c { report = record c.report { applied = true } }
      else c)
    ∷ set_applied root cs

unfoldable pub mark_applied : ℕ → CopyState → CopyState
mark_applied root st = if contains st.applied_roots root then st else record {
  pending = set_applied root st.pending;
  applied_roots = root ∷ st.applied_roots;
  applied = st.applied + 1;
}

module _ (N : Builder) where
  -- A predicate becomes the literal 0 or 1 of its operand width.
  unfoldable pub replacement : PendingCandidate → Location → Outcome N.ExprId
  replacement c location =
      if c.is_predicate
      then returned (N.const c.size (if c.predicate_value then 1 else 0) location)
      else elim (c.simplified) [
        | none ↦ undefined
        | some e ↦ build_mlil N c.simplified_variables c.variable_by_name c.size location e
      ]

  module _ (selected : List (ℕ × PendingCandidate)) where
    -- The lambda `copyExpression`, given what `CopyTo` makes of the operands.
    unfoldable pub copy_found :
        Option PendingCandidate → Mlil → CopyState → Copied (List N.ExprId) → Copied N.ExprId
    copy_found (some c) (ins i op s a operands) st children = do
      id ← lift (replacement c i) st
      copied (id.0, mark_applied i st)
    copy_found none (ins i op s a operands) st children = do
      below ← children
      id ← lift (N.copy (ins i op s a operands) below.0 i) below.1
      copied (id.0, below.1)

    unfoldable mutual
      pub copy_expression : Mlil → CopyState → Copied N.ExprId
      copy_expression (ins i op s a operands) st =
          copy_found (find_selected i selected) (ins i op s a operands) st
            (copy_operands operands st)

      pub copy_operands : Operands → CopyState → Copied (List N.ExprId)
      copy_operands end st = copied ([], st)
      copy_operands (expr e operands) st = do
        first ← copy_expression e st
        rest ← copy_operands operands first.1
        copied (first.0 ∷ rest.0, rest.1)
      copy_operands (exprs es operands) st = do
        first ← copy_exprs es st
        rest ← copy_operands operands first.1
        copied (first.0 ++ rest.0, rest.1)
      copy_operands (plain t operands) st = copy_operands operands st

      pub copy_exprs : Exprs → CopyState → Copied (List N.ExprId)
      copy_exprs nil st = copied ([], st)
      copy_exprs (cons e es) st = do
        first ← copy_expression e st
        rest ← copy_exprs es first.1
        copied (first.0 ∷ rest.0, rest.1)

    -- The instructions of one block, then the blocks.
    unfoldable pub copy_block : List Mlil → CopyState → Copied (List N.ExprId)
    copy_block [] st = copied ([], st)
    copy_block (e ∷ es) st = do
      first ← copy_expression e st
      rest ← copy_block es first.1
      copied (first.0 ∷ rest.0, rest.1)

    unfoldable pub copy_blocks : List (List Mlil) → CopyState → Copied (List (List N.ExprId))
    copy_blocks [] st = copied ([], st)
    copy_blocks (b ∷ bs) st = do
      first ← copy_block b st
      rest ← copy_blocks bs first.1
      copied (first.0 ∷ rest.0, rest.1)
