-- ===== src/Tests/ToyCobra.antt =====
-- A small instance of what src/Engine.cpp uses of CoBRA: it finds that ~~x is x, and the verifier
-- knows only that.
use mathlib.Core.Option.{some-injective}
use native.Mathlib.Nat.{mod-lt}
use co_bra_for_binary_ninja.Prelude.{
  ℕ, zero, suc, ◌-◌, ◌<◌, ◌%◌, ◌^◌, ◌≡◌, refl, sym, ap, ◌∙◌, arith, Bool, true, false, ◌&&◌, ◌==◌,
  if◌then◌else◌, ltb, ==_iff, ltb→lt, Bool-cases, inl, inr, List, [], ◌∷◌, map, Option, none, some,
  Option-cases, length, get_or, Bytes, codes,
}
use co_bra_for_binary_ninja.Cobra.{
  Kind, Expr, node, Children, nil, null, cons, Assignment, value, first_value, second_value,
  node_value,
}
use co_bra_for_binary_ninja.Engine.Meaning.{lt-two_pow}
use co_bra_for_binary_ninja.Engine.Shape.{variable}
use co_bra_for_binary_ninja.Engine.Simplify.{
  Library, Simplified, outcome, message, Outcome, OutcomeKind,
}
use co_bra_for_binary_ninja.Engine.Prove.{◌>>=◌}
use co_bra_for_binary_ninja.Engine.SimplifySound.{LibraryLaws, IsListed}

-- Equality of names, and the position of a name.
unfoldable pub same_name : Bytes → Bytes → Bool
same_name [] [] = true
same_name [] (d ∷ t) = false
same_name (c ∷ s) [] = false
same_name (c ∷ s) (d ∷ t) = c == d && same_name s t

same_name_refl : (s : Bytes) → same_name s s ≡ true
unfolding same_name
same_name_refl [] = refl
same_name_refl (c ∷ s) = ground (arith, same_name_refl s)

same_name_eq : (s t : Bytes) → same_name s t ≡ true → s ≡ t
unfolding same_name
same_name_eq [] [] h = refl
same_name_eq [] (d ∷ t) h = cc
same_name_eq (c ∷ s) [] h = cc
same_name_eq (c ∷ s) (d ∷ t) h = ground (arith, same_name_eq s t)

unfoldable pub position : List Bytes → Bytes → ℕ
position [] name = 0
position (x ∷ xs) name = let rest = position xs name in if same_name x name then 0 else suc rest

position-found :
    (names : List Bytes) (name : Bytes) (i : ℕ)
    → i < length names
    → get_or names i [] ≡ name
    → get_or names (position names name) [] ≡ name
unfolding position
position-found [] name i h e = absurd (omega (arith, h))
position-found (x ∷ xs) name zero h e = rw (sym e, same_name_refl x) refl
position-found (x ∷ xs) name (suc i) h e = elim (Bool-cases (same_name x name)) [
  | inl same ↦ rw same (same_name_eq x name same)
  | inr other ↦ rw other (position-found xs name i (omega (arith, h)) e)
]

unfoldable mutual
  pub remap : List ℕ → Expr → Expr
  remap m (node Kind.variable c v cs) = node Kind.variable c (get_or m v 0) (remap_children m cs)
  remap m (node kind c v cs) = node kind c v (remap_children m cs)

  pub remap_children : List ℕ → Children → Children
  remap_children m nil = nil
  remap_children m (null cs) = null (remap_children m cs)
  remap_children m (cons e cs) = cons (remap m e) (remap_children m cs)

module _ (m : List ℕ) (w : ℕ) (rho : Assignment) where
  abbrev renamed : Assignment
  renamed v = rho (get_or m v 0)

  mutual
    unfolding remap remap_children value first_value second_value node_value

    remap-value : (e : Expr) → value w rho (remap m e) ≡ value w renamed e
    remap-value (node Kind.variable c v cs) = refl
    remap-value (node Kind.constant c v cs) = refl
    remap-value (node Kind.add c v cs) = rw (remap-first cs, remap-second cs) refl
    remap-value (node Kind.mul c v cs) = rw (remap-first cs, remap-second cs) refl
    remap-value (node Kind.and c v cs) = rw (remap-first cs, remap-second cs) refl
    remap-value (node Kind.or c v cs) = rw (remap-first cs, remap-second cs) refl
    remap-value (node Kind.xor c v cs) = rw (remap-first cs, remap-second cs) refl
    remap-value (node Kind.not c v cs) = rw (remap-first cs) refl
    remap-value (node Kind.neg c v cs) = rw (remap-first cs) refl
    remap-value (node Kind.shr c v cs) = rw (remap-first cs) refl
    remap-value (node (Kind.other k) c v cs) = refl

    remap-first :
        (cs : Children) → first_value w rho (remap_children m cs) ≡ first_value w renamed cs
    remap-first nil = refl
    remap-first (null cs) = refl
    remap-first (cons e cs) = remap-value e

    remap-second :
        (cs : Children) → second_value w rho (remap_children m cs) ≡ second_value w renamed cs
    remap-second nil = refl
    remap-second (null cs) = remap-first cs
    remap-second (cons e cs) = remap-first cs

-- ~~x, and the tests that find it.
abbrev pub negated : Expr → Expr
negated e = node Kind.not 0 0 (cons e nil)

abbrev pub var : ℕ → Expr
var v = node Kind.variable 0 v nil

abbrev pub first_of : Children → Option Expr
first_of (cons e cs) = some e
first_of (null cs) = none
first_of nil = none

abbrev pub not_of : Expr → Option Expr
not_of (node Kind.not c v cs) = first_of cs
not_of _ = none

abbrev pub var_of : Expr → Option ℕ
var_of (node Kind.variable c v cs) = some v
var_of _ = none

not_of-value :
    (w : ℕ) (rho : Assignment) (e x : Expr)
    → not_of e ≡ some x
    → value w rho e ≡ 2 ^ w - 1 - value w rho x
unfolding value first_value node_value
not_of-value w rho (node Kind.not c v (cons e cs)) x h = rw (some-injective _ _ h) refl
not_of-value w rho (node Kind.not c v (null cs)) x h = cc
not_of-value w rho (node Kind.not c v nil) x h = cc
not_of-value w rho (node _ c v cs) x h = cc

var_of-value :
    (w : ℕ) (rho : Assignment) (e : Expr) (v : ℕ)
    → var_of e ≡ some v
    → value w rho e ≡ rho v % 2 ^ w
unfolding value node_value
var_of-value w rho (node Kind.variable c v cs) u h = rw (some-injective _ _ h) refl
var_of-value w rho (node _ c v cs) u h = cc

abbrev pub under_not : Expr → Option ℕ
under_not e = do x ← not_of e; y ← not_of x; var_of y

bind-some {ℓ κ} :
    {A : Type ℓ} {B : Type κ} (m : Option A) (f : A → Option B) {b : B}
    → (m >>= f) ≡ some b
    → (a : A) × (m ≡ some a) × (f a ≡ some b)
bind-some none f h = cc
bind-some (some a) f h = (a, refl, h)

under_not-value :
    (w : ℕ) (rho : Assignment) (e : Expr) (v : ℕ)
    → under_not e ≡ some v
    → value w rho e ≡ rho v % 2 ^ w
under_not-value w rho e v h =
    let (x, h1, k1) = bind-some (not_of e) _ h in
    let (y, h2, h3) = bind-some (not_of x) _ k1 in
    let positive : 0 < 2 ^ w = omega (arith, lt-two_pow w) in
    omega (
      arith,
      not_of-value w rho e x h1,
      not_of-value w rho x y h2,
      var_of-value w rho y v h3,
      mod-lt (rho v) positive,
    )

-- The verifier knows that ~~x is x.
abbrev pub agree : Option ℕ → Option ℕ → Bool
agree (some v) (some u) = v == u
agree (some v) none = false
agree none u = false

agree_sound :
    (w : ℕ) (rho : Assignment) (a b : Expr)
    → agree (under_not a) (var_of b) ≡ true
    → value w rho a ≡ value w rho b
agree_sound w rho a b h = elim (Option-cases (under_not a)) [
  | inl e ↦ cc (rw e at h)
  | inr (v, e) ↦ elim (Option-cases (var_of b)) [
    | inl f ↦ cc (rw (e, f) at h)
    | inr (u, f) ↦
        under_not-value w rho a v e
        ∙ ap (λ (i : ℕ). rho i % 2 ^ w) ((==_iff v u).0 (rw (e, f) at h))
        ∙ sym (var_of-value w rho b u f)
  ]
]

abbrev pub answered : List Bytes → ℕ → Outcome
answered names v = record {
  kind = OutcomeKind.other;
  expr = some (var 0);
  real_vars = get_or names v [] ∷ [];
  diag_reason = [];
}

abbrev pub answer : List Bytes → Option ℕ → Simplified
answer names none = message (codes "unsupported")
answer names (some v) =
    if ltb v (length names) then outcome (answered names v) else message (codes "unsupported")

outcome-injective : {a b : Outcome} → outcome a ≡ outcome b → a ≡ b
outcome-injective h = cc

answer-cases :
    (names : List Bytes) (v : Option ℕ) (o : Outcome) (r : Expr)
    → answer names v ≡ outcome o
    → o.expr ≡ some r
    → (i : ℕ) × (i < length names) × (o.real_vars ≡ get_or names i [] ∷ []) × (r ≡ var 0)
answer-cases names none o r h e = cc
answer-cases names (some v) o r h e = elim (Bool-cases (ltb v (length names))) [
  | inl inside ↦
      let same : answered names v ≡ o = outcome-injective (rw inside at h) in
      (
        v,
        ltb→lt v (length names) inside,
        ap (λ (x : Outcome). x.real_vars) (sym same),
        some-injective _ _ (sym e ∙ ap (λ (x : Outcome). x.expr) (sym same)),
      )
  | inr outside ↦ cc (rw outside at h)
]

abbrev pub toy_library : Library
toy_library = record {
  Cost = ℕ;
  Signature = Unit;
  weighted_size = λ cost. cost;
  render = λ e names w. codes "x";
  compute_cost = λ e. elim (var_of e) [ none ↦ 3 | some v ↦ 1 ];
  is_better = λ candidate baseline. ltb candidate baseline;
  evaluate_boolean_signature = λ e n w. tt;
  simplify = λ g names e w m. answer names (under_not e);
  build_var_support = λ names real. map (position names) real;
  full_width_check = λ a n b m w probes. value w (λ v. 0) a == value w (λ v. 0) b;
  remap_var_indices = λ e m. remap m e;
  z3_verify_exprs = λ a b names w timeout. record {
    equivalent = agree (under_not a) (var_of b);
    timed_out = false;
    counterexample = [];
  };
}

length-map : (f : Bytes → ℕ) (xs : List Bytes) → length (map f xs) ≡ length xs
length-map f [] = refl
length-map f (x ∷ xs) = ap suc (length-map f xs)

get_or-map :
    (f : Bytes → ℕ) (xs : List Bytes) (v : ℕ)
    → v < length xs
    → get_or (map f xs) v 0 ≡ f (get_or xs v [])
get_or-map f [] v h = absurd (omega (arith, h))
get_or-map f (x ∷ xs) zero h = refl
get_or-map f (x ∷ xs) (suc v) h = get_or-map f xs v (omega (arith, h))

single-IsListed :
    (names : List Bytes) (i : ℕ)
    → i < length names
    → (v : ℕ) → v < 1
    → IsListed names (get_or (get_or names i [] ∷ []) v [])
single-IsListed names i h zero k = (i, h, refl)
single-IsListed names i h (suc v) k = absurd (omega (arith, k))

one-IsListed :
    (names real : List Bytes) (i : ℕ)
    → i < length names
    → real ≡ get_or names i [] ∷ []
    → (v : ℕ) → v < length real
    → IsListed names (get_or real v [])
one-IsListed names real i h e = rw e (single-IsListed names i h)

pub toy-LibraryLaws : LibraryLaws toy_library
toy-LibraryLaws = record {
  verified = λ a b names w timeout h rho. agree_sound w rho a b h;
  remapped = λ e m w rho. remap-value m w rho e;
  support_length = λ names real. length-map (position names) real;
  support_name = λ names real v h (i, inside, e).
      ap (λ (j : ℕ). get_or names j []) (get_or-map (position names) real v h)
      ∙ position-found names (get_or real v []) i inside e;
  shaped = λ g names e w m o r made some_expr.
      let (i, inside, vars, tree) = answer-cases names (under_not e) o r made some_expr in
      rw (vars, tree) (variable 0 0 nil (omega arith));
  listed = λ g names e w m o r made some_expr.
      let (i, inside, vars, tree) = answer-cases names (under_not e) o r made some_expr in
      one-IsListed names o.real_vars i inside vars;
}
