-- ===== src/Adapter/Recovery/Names.antt =====
-- src/BNAdapter.cpp, `ExpressionRecovery`: the table of the variables and the map from their names.
use mathlib.Core.Option.{some-injective}
use co_bra_for_binary_ninja.Decimal.{to_string}
use co_bra_for_binary_ninja.Prelude.{
  ℕ, zero, suc, ◌<◌, ◌≤◌, ◌≡◌, refl, sym, ap, ◌∙◌, arith, Bool, true, false, Bool-cases, inl, inr,
  List, [], ◌∷◌, ◌++◌, map, length, length-append, none, some, Option-cases, Bytes, codes,
  get_elem?,
}
use co_bra_for_binary_ninja.Adapter.Mlil.{Mlil}
use co_bra_for_binary_ninja.Adapter.Types.{Variable, AnalysisLimits}
use co_bra_for_binary_ninja.Adapter.BuildMlil.{bytes_eq, lookup_name}
use co_bra_for_binary_ninja.Adapter.Recovery.State.{
  Ssa, Factory, RecoveryState, initial_state, failed, counted, is_empty,
}
use co_bra_for_binary_ninja.Adapter.Recovery.Leaves.{
  Task, find_name, emplace_name, with_leaf, with_bit, rolled_back,
}
use co_bra_for_binary_ninja.Adapter.Recovery.Visit.{visit, enough_fuel, recover}
use co_bra_for_binary_ninja.Adapter.Recovery.Frame.{Respects, visit-respects}

abbrev pub names_of : List (Bytes × Variable) → List Bytes
names_of entries = map (λ e. e.0) entries

-- The table is within its limit, and outside predicates each of its names has an entry in the map.
pub record IsNamed (limits : AnalysisLimits) (predicate : Bool) (s : RecoveryState) : Type 0 where
  pub entries : predicate ≡ false → s.variables ≡ names_of s.variable_by_name
  pub bounded : length s.variables ≤ limits.max_variables

-- A name that is not in the table is put at the end of the map.
emplace_new :
    (name : Bytes) (v : Variable) (entries : List (Bytes × Variable))
    → find_name name (names_of entries) ≡ none
    → names_of (emplace_name name v entries) ≡ names_of entries ++ (name ∷ [])
unfolding find_name emplace_name
emplace_new name v [] h = refl
emplace_new name v ((key, w) ∷ entries) h = elim (Bool-cases (bytes_eq key name)) [
  | inl same ↦ cc (rw same at h)
  | inr other ↦ elim (Option-cases (find_name name (names_of entries))) [
    | inl missing ↦ rw other (ap (λ (l : List Bytes). key ∷ l) (emplace_new name v entries missing))
    | inr (i, found) ↦ cc (rw (other, found) at h)
  ]
]

module _ (T : Task) where
  abbrev KeepsNames : RecoveryState → RecoveryState → Type 0
  KeepsNames s t = IsNamed T.limits T.predicate_recovery s → IsNamed T.limits T.predicate_recovery t

  leaf_named :
      (name : Bytes) (v : Variable) (s : RecoveryState)
      → find_name name s.variables ≡ none
      → length s.variables < T.limits.max_variables
      → KeepsNames s (with_leaf name v s)
  unfolding with_leaf
  leaf_named name v s missing room named = record {
    entries = λ outside.
        ap (λ (l : List Bytes). l ++ (name ∷ [])) (named.entries outside)
        ∙ sym (
            emplace_new name v s.variable_by_name
              (ap (find_name name) (sym (named.entries outside)) ∙ missing));
    bounded = omega (arith, length-append s.variables (name ∷ []), room);
  }

  bit_named :
      (s : RecoveryState)
      → T.predicate_recovery ≡ true
      → length s.variables < T.limits.max_variables
      → KeepsNames s (with_bit s)
  unfolding with_bit
  bit_named s inside room named = record {
    entries = λ outside. cc (outside, inside);
    bounded = omega (
      arith,
      length-append s.variables ((codes "predicate_bool_" ++ to_string (length s.variables)) ∷ []),
      room,
    );
  }

  reason_named : (text : Bytes) (s : RecoveryState) → KeepsNames s (failed text s)
  unfolding failed
  reason_named text s named = elim (Bool-cases (is_empty s.error)) [
    | inl first ↦ rw first (record { entries = named.entries; bounded = named.bounded })
    | inr later ↦ rw later named
  ]

  KeepsNames-Respects : Respects T KeepsNames
  unfolding counted rolled_back
  KeepsNames-Respects = record {
    none_done = λ s named. named;
    one_after = λ s t u first after named. after (first named);
    reason = reason_named;
    count = λ depth s named. record { entries = named.entries; bounded = named.bounded };
    arithmetic = λ s named. record { entries = named.entries; bounded = named.bounded };
    bitwise = λ s named. record { entries = named.entries; bounded = named.bounded };
    leaf = leaf_named;
    bit = bit_named;
    roll = λ s t kept named. record { entries = named.entries; bounded = named.bounded };
    store = λ s c named. record { entries = named.entries; bounded = named.bounded };
    bracket = λ i s t fresh kept named.
        let inner = kept (record { entries = named.entries; bounded = named.bounded }) in
        record { entries = inner.entries; bounded = inner.bounded };
  }

  initial-IsNamed : IsNamed T.limits T.predicate_recovery initial_state
  initial-IsNamed = record { entries = λ outside. refl; bounded = omega arith }

  visit-IsNamed :
      (fuel depth : ℕ) (i : Mlil) (s : RecoveryState)
      → IsNamed T.limits T.predicate_recovery s
      → IsNamed T.limits T.predicate_recovery (visit T fuel depth i s).1
  visit-IsNamed fuel depth i s named =
      visit-respects T KeepsNames KeepsNames-Respects fuel depth i s named

bytes_eq_refl : (s : Bytes) → bytes_eq s s ≡ true
bytes_eq_refl [] = refl
bytes_eq_refl (c ∷ s) = ground (arith, bytes_eq_refl s)

-- A name of the map is found there.
listed_found :
    (entries : List (Bytes × Variable)) (index : ℕ) (name : Bytes)
    → get_elem? (names_of entries) index ≡ some name
    → (v : Variable) × (lookup_name name entries ≡ some v)
unfolding lookup_name
listed_found [] index name h = cc
listed_found ((key, w) ∷ entries) zero name h =
    (w, rw (sym (some-injective _ _ h), bytes_eq_refl key) refl)
listed_found ((key, w) ∷ entries) (suc index) name h = elim (Bool-cases (bytes_eq key name)) [
  | inl same ↦ (w, rw same refl)
  | inr other ↦ let (v, found) = listed_found entries index name h in (v, rw other found)
]

-- After `Recover` the table of variables is within the limit, and `variableByName.at` finds the
-- variable of each name of the table.
pub recover_names :
    (S : Ssa) (C : Factory) (limits : AnalysisLimits) (bit_width : ℕ) (root : Mlil)
    → (length (recover S C limits bit_width root).result.variables ≤ limits.max_variables)
      × ((index : ℕ) (name : Bytes)
          → get_elem? (recover S C limits bit_width root).result.variables index ≡ some name
          → (v : Variable) × (lookup_name name
                (recover S C limits bit_width root).result.variable_by_name
              ≡ some v))
unfolding recover
recover_names S C limits bit_width root =
    let T : Task = record {
      ssa = S;
      factory = C;
      limits = limits;
      bit_width = bit_width;
      root = root;
      predicate_recovery = false;
    } in
    let named = visit-IsNamed T (enough_fuel T) 0 root initial_state (initial-IsNamed T) in
    (
      named.bounded,
      λ index name h.
          listed_found (visit T (enough_fuel T) 0 root initial_state).1.variable_by_name index name
            (ap (λ (l : List Bytes). get_elem? l index) (sym (named.entries refl)) ∙ h),
    )
