-- ===== src/Adapter/BuildMlil.antt =====
-- src/BNAdapter.cpp: `BuildMLIL`, over the operations of the new function.
use co_bra_for_binary_ninja.Prelude.{
  ℕ, Bool, true, false, ◌&&◌, ◌==◌, if◌then◌else◌, List, [], ◌∷◌, Option, none, some, get_elem?,
  Bytes, codes,
}
use co_bra_for_binary_ninja.Cobra.{Kind, Expr, node, Children, nil, null, cons}
use co_bra_for_binary_ninja.Adapter.Types.{Variable}
use co_bra_for_binary_ninja.Adapter.Mlil.{Mlil}
use co_bra_for_binary_ninja.Adapter.Outcome.{Outcome, returned, thrown, undefined, ◌>>=◌}

-- A source location, as far as the code passes it on.
abbrev pub Location : Type 0
Location = ℕ

-- The construction of expressions in a new function. `copy` is `CopyTo` of an expression whose
-- operands have been copied; `out_of_range` is the text of the standard library's exception.
pub record Builder : Type 1 where
  pub ExprId : Type 0
  pub const : ℕ → ℕ → Location → ExprId
  pub var : ℕ → Variable → Location → ExprId
  pub add : ℕ → ExprId → ExprId → Location → ExprId
  pub mult : ℕ → ExprId → ExprId → Location → ExprId
  pub and_expr : ℕ → ExprId → ExprId → Location → ExprId
  pub or_expr : ℕ → ExprId → ExprId → Location → ExprId
  pub xor_expr : ℕ → ExprId → ExprId → Location → ExprId
  pub not_expr : ℕ → ExprId → Location → ExprId
  pub neg : ℕ → ExprId → Location → ExprId
  pub logical_shift_right : ℕ → ExprId → ExprId → Location → ExprId
  pub copy : Mlil → List ExprId → Location → Outcome ExprId
  -- `Finalize` and `GenerateSSAForm` of a function with these instructions
  pub finalize : List (List ExprId) → Outcome (Unit {0})
  pub out_of_range : Bytes

abbrev pub bytes_eq : Bytes → Bytes → Bool
bytes_eq [] [] = true
bytes_eq [] (d ∷ t) = false
bytes_eq (c ∷ s) [] = false
bytes_eq (c ∷ s) (d ∷ t) = c == d && bytes_eq s t

-- `std::map::find` on names.
unfoldable pub lookup_name : Bytes → List (Bytes × Variable) → Option Variable
lookup_name name [] = none
lookup_name name ((key, v) ∷ entries) =
    if bytes_eq key name then some v else lookup_name name entries

module _ (N : Builder) where
  -- `container.at(key)`
  abbrev pub at {ℓ} : {A : Type ℓ} → Option A → Outcome A
  at none = thrown N.out_of_range
  at (some a) = returned a

  unfoldable pub build_var :
      List Bytes → List (Bytes × Variable) → ℕ → Location → ℕ → Outcome N.ExprId
  build_var variables variable_by_name size location var_index = do
    name ← at (get_elem? variables var_index)
    variable ← at (lookup_name name variable_by_name)
    returned (N.var size variable location)

  abbrev two :
      (ℕ → N.ExprId → N.ExprId → Location → N.ExprId)
      → ℕ
      → Location
      → Outcome N.ExprId
      → Outcome N.ExprId
      → Outcome N.ExprId
  two f size location x y = do a ← x; b ← y; returned (f size a b location)

  abbrev one :
      (ℕ → N.ExprId → Location → N.ExprId) → ℕ → Location → Outcome N.ExprId → Outcome N.ExprId
  one f size location x = do a ← x; returned (f size a location)

  -- The switch, given `build_var` at the node's index and the two calls of `child`.
  unfoldable pub build_kind :
      ℕ
      → Location
      → Kind
      → ℕ
      → Outcome N.ExprId
      → Outcome N.ExprId
      → Outcome N.ExprId
      → Outcome N.ExprId
  build_kind size location Kind.constant c v x y = returned (N.const size c location)
  build_kind size location Kind.variable c v x y = v
  build_kind size location Kind.add c v x y = two N.add size location x y
  build_kind size location Kind.mul c v x y = two N.mult size location x y
  build_kind size location Kind.and c v x y = two N.and_expr size location x y
  build_kind size location Kind.or c v x y = two N.or_expr size location x y
  build_kind size location Kind.xor c v x y = two N.xor_expr size location x y
  build_kind size location Kind.not c v x y = one N.not_expr size location x
  build_kind size location Kind.neg c v x y = one N.neg size location x
  build_kind size location Kind.shr c v x y = do
    a ← x
    returned (N.logical_shift_right size a (N.const size c location) location)
  build_kind size location (Kind.other k) c v x y = thrown (codes "unhandled CoBRA expression kind")

  -- `child_0` and `child_1` are `child(0)` and `child(1)`: an index out of range throws, and a null
  -- child is dereferenced.
  module _ (variables : List Bytes) (variable_by_name : List (Bytes × Variable)) (size : ℕ)
      (location : Location) where
    unfoldable mutual
      pub build_mlil : Expr → Outcome N.ExprId
      build_mlil (node kind constant_val var_index cs) =
          build_kind size location kind constant_val
            (build_var variables variable_by_name size location var_index) (child_0 cs) (child_1 cs)

      pub child_0 : Children → Outcome N.ExprId
      child_0 nil = thrown N.out_of_range
      child_0 (null cs) = undefined
      child_0 (cons e cs) = build_mlil e

      pub child_1 : Children → Outcome N.ExprId
      child_1 nil = thrown N.out_of_range
      child_1 (null cs) = child_0 cs
      child_1 (cons e cs) = child_0 cs
