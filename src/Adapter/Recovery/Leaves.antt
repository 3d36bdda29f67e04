-- ===== src/Adapter/Recovery/Leaves.antt =====
-- src/BNAdapter.cpp: `LeafName`, `VariableLeaf`, `PredicateBooleanLeaf` and `ExpandVariable`.
use co_bra_for_binary_ninja.Prelude.{
  ℕ, suc, ◌/◌, Bool, true, false, not, ◌||◌, ◌&&◌, if◌then◌else◌, ltb, leb, ◌==◌, List, [], ◌∷◌,
  ◌++◌, Option, none, some, length, Bytes, codes,
}
use co_bra_for_binary_ninja.Cobra.{Expr}
use co_bra_for_binary_ninja.Decimal.{to_string}
use co_bra_for_binary_ninja.Adapter.Mlil.{Mlil, Operation, size, operation}
use co_bra_for_binary_ninja.Adapter.Types.{Variable, AnalysisLimits}
use co_bra_for_binary_ninja.Adapter.BuildMlil.{bytes_eq}
use co_bra_for_binary_ninja.Adapter.Recovery.State.{
  SsaVariable, Ssa, Factory, RecoveryState, Run, fail, narrow,
}

-- `ToIdentifier` of a variable is the number that stands for it.
unfoldable pub leaf_name : Ssa → SsaVariable → Bytes
leaf_name S v =
    S.variable_name v.variable
    ++ (codes "__" ++ (to_string v.variable ++ (codes "_" ++ to_string v.version)))

-- `std::find`, and the distance of what it finds.
unfoldable pub find_name : Bytes → List Bytes → Option ℕ
find_name name [] = none
find_name name (x ∷ xs) =
    let rest = find_name name xs in
    if bytes_eq x name then some 0 else elim rest [ none ↦ none | some i ↦ some (suc i) ]

abbrev pub is_set_var_ssa : Operation → Bool
is_set_var_ssa Operation.set_var_ssa = true
is_set_var_ssa _ = false

-- `a.size != b.size`
abbrev pub differs : Mlil → Mlil → Bool
differs a b = not (size a == size b)

abbrev pub same_variable : SsaVariable → SsaVariable → Bool
same_variable a b = a.variable == b.variable && (a.version == b.version)

-- `emplace` does not replace an entry; the order of a `std::map` plays no part.
unfoldable pub emplace_name : Bytes → Variable → List (Bytes × Variable) → List (Bytes × Variable)
emplace_name name v [] = (name, v) ∷ []
emplace_name name v ((key, w) ∷ entries) =
    let rest = emplace_name name v entries in
    if bytes_eq key name then (key, w) ∷ entries else (key, w) ∷ rest

unfoldable pub with_leaf : Bytes → Variable → RecoveryState → RecoveryState
with_leaf name v s = record s {
  variables = s.variables ++ (name ∷ []);
  variable_by_name = emplace_name name v s.variable_by_name;
}

unfoldable pub with_bit : RecoveryState → RecoveryState
with_bit s = record s {
  variables = s.variables ++ ((codes "predicate_bool_" ++ to_string (length s.variables)) ∷ []);
}

-- What is left of an attempt that began in the first state and failed in the second.
unfoldable pub rolled_back : RecoveryState → RecoveryState → RecoveryState
rolled_back before after = record after {
  variables = before.variables;
  variable_by_name = before.variable_by_name;
  cache = if length after.cache == length before.cache then after.cache else [];
  error = [];
}

-- The parameters of the class, with `m_root` and `m_predicateRecovery`.
pub record Task : Type 0 where
  pub ssa : Ssa
  pub factory : Factory
  pub limits : AnalysisLimits
  pub bit_width : ℕ
  pub root : Mlil
  pub predicate_recovery : Bool

module _ (T : Task) where
  -- A leaf by its place in the table, if it has one.
  unfoldable pub place_leaf : Bytes → Variable → ℕ → Option ℕ → Run Expr
  place_leaf name v width (some index) s =
      narrow T.factory T.bit_width (T.factory.variable index) width s
  place_leaf name v width none s =
      if leb T.limits.max_variables (length s.variables)
      then fail (codes "variable limit exceeded") s
      else narrow T.factory T.bit_width (T.factory.variable (length s.variables)) width
          (with_leaf name v s)

  unfoldable pub variable_leaf : SsaVariable → ℕ → Run Expr
  variable_leaf v width s =
      if width == 0 || ltb T.bit_width width
      then fail (codes "symbolic SSA leaf has no established semantic width") s
      else if not (T.ssa.ssa_var_version T.root v.variable == v.version)
      then fail (codes "expanded SSA leaf is not live at replacement root") s
      else place_leaf (leaf_name T.ssa v) v.variable width
          (find_name (leaf_name T.ssa v) s.variables) s

  unfoldable pub predicate_boolean_leaf : ℕ → Run Expr
  predicate_boolean_leaf width s =
      if not T.predicate_recovery || (width == 0 || ltb T.bit_width width)
      then fail (codes "boolean conversion is unsupported outside predicate proofs") s
      else if leb T.limits.max_variables (length s.variables)
      then fail (codes "variable limit exceeded") s
      else narrow T.factory T.bit_width
          (T.factory.bitwise_and (T.factory.variable (length s.variables)) (T.factory.constant 1))
          width (with_bit s)

  -- `child` is `Visit` one level deeper.
  module _ (child : Mlil → Run Expr) where
    unfoldable pub inline_source : SsaVariable → ℕ → Mlil → Run Expr
    inline_source v width source s =
        let (expanded, s1) = child source s in
        elim expanded [ some e ↦ (some e, s1) | none ↦ variable_leaf v width (rolled_back s s1) ]

    -- A definition that is not a pure assignment of this width is a boundary.
    unfoldable pub inline_definition : SsaVariable → ℕ → Mlil → Run Expr
    inline_definition v width definition =
        if not (is_set_var_ssa (operation definition))
        then variable_leaf v width
        else if not (same_variable (T.ssa.dest_ssa_variable definition) v)
        then variable_leaf v width
        else if differs (T.ssa.source_expr definition) definition
            || not (size (T.ssa.source_expr definition) == width / 8)
        then variable_leaf v width
        else inline_source v width (T.ssa.source_expr definition)

    unfoldable pub expand_variable : SsaVariable → ℕ → Run Expr
    expand_variable v width =
        if v.version == 0
        then variable_leaf v width
        else if leb T.ssa.instruction_count (T.ssa.ssa_var_definition v)
        then variable_leaf v width
        else inline_definition v width (T.ssa.get_instruction (T.ssa.ssa_var_definition v))
