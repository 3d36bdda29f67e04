-- ===== src/Adapter/BuildMeaning.antt =====
-- src/BNAdapter.cpp, `BuildMLIL`: what it builds has the value of the CoBRA expression.
use native.Mathlib.Nat.{lt_trans, mod-eq_of_lt}
use co_bra_for_binary_ninja.Prelude.{
  ℕ, zero, suc, ◌+◌, ◌-◌, ◌*◌, ◌/◌, ◌%◌, ◌^◌, ◌<◌, bit_and, bit_or, bit_xor, ◌≡◌, refl, sym, ap,
  ◌∙◌, arith, if◌then◌else◌, ltb, lt→ltb, List, [], ◌∷◌, Option, none, some, get_elem?, get_or,
  Bytes,
}
use mathlib.Core.Path.{ap₂}
use co_bra_for_binary_ninja.Cobra.{
  Kind, Expr, node, Children, nil, null, cons, Assignment, node_value, value, first_value,
  second_value,
}
use co_bra_for_binary_ninja.Engine.Meaning.{lt-two_pow}
use co_bra_for_binary_ninja.Engine.SimplifySound.{by_name}
use co_bra_for_binary_ninja.Adapter.Types.{Variable}
use co_bra_for_binary_ninja.Adapter.Outcome.{Outcome, returned, ◌>>=◌}
use co_bra_for_binary_ninja.Adapter.BuildMlil.{
  Builder, Location, lookup_name, at, build_var, build_kind, build_mlil, child_0, child_1,
}
use co_bra_for_binary_ninja.Adapter.Preserves.{bind-returned, returned-injective, both-returned}

-- The documented meaning of the operations of MLIL: the value of an expression of so many bytes,
-- under values for the variables. A shift is documented for counts below the width.
pub record Semantics (N : Builder) : Type 0 where
  pub eval : N.ExprId → (Variable → ℕ) → ℕ
  pub const :
      (s c : ℕ) (l : Location) (env : Variable → ℕ) → eval (N.const s c l) env ≡ c % 2 ^ (s * 8)
  pub var :
      (s : ℕ) (v : Variable) (l : Location) (env : Variable → ℕ)
      → eval (N.var s v l) env ≡ env v % 2 ^ (s * 8)
  pub add :
      (s : ℕ) (x y : N.ExprId) (l : Location) (env : Variable → ℕ)
      → eval (N.add s x y l) env ≡ (eval x env + eval y env) % 2 ^ (s * 8)
  pub mult :
      (s : ℕ) (x y : N.ExprId) (l : Location) (env : Variable → ℕ)
      → eval (N.mult s x y l) env ≡ eval x env * eval y env % 2 ^ (s * 8)
  pub and_expr :
      (s : ℕ) (x y : N.ExprId) (l : Location) (env : Variable → ℕ)
      → eval (N.and_expr s x y l) env ≡ bit_and (eval x env) (eval y env)
  pub or_expr :
      (s : ℕ) (x y : N.ExprId) (l : Location) (env : Variable → ℕ)
      → eval (N.or_expr s x y l) env ≡ bit_or (eval x env) (eval y env)
  pub xor_expr :
      (s : ℕ) (x y : N.ExprId) (l : Location) (env : Variable → ℕ)
      → eval (N.xor_expr s x y l) env ≡ bit_xor (eval x env) (eval y env)
  pub not_expr :
      (s : ℕ) (x : N.ExprId) (l : Location) (env : Variable → ℕ)
      → eval (N.not_expr s x l) env ≡ 2 ^ (s * 8) - 1 - eval x env
  pub neg :
      (s : ℕ) (x : N.ExprId) (l : Location) (env : Variable → ℕ)
      → eval (N.neg s x l) env ≡ (2 ^ (s * 8) - eval x env) % 2 ^ (s * 8)
  pub logical_shift_right :
      (s : ℕ) (x y : N.ExprId) (l : Location) (env : Variable → ℕ)
      → eval y env < s * 8
      → eval (N.logical_shift_right s x y l) env ≡ eval x env / 2 ^ eval y env

-- Every shift of the tree is by less than the width.
abbrev pub IsShift : ℕ → Kind → ℕ → Type 0
IsShift w Kind.shr c = c < w
IsShift w _ c = Unit

unfoldable mutual
  pub IsShifting : ℕ → Expr → Type 0
  IsShifting w (node k c v cs) = IsShift w k c × AreShifting w cs

  pub AreShifting : ℕ → Children → Type 0
  AreShifting w nil = Unit
  AreShifting w (null cs) = AreShifting w cs
  AreShifting w (cons e cs) = IsShifting w e × AreShifting w cs

-- The value of the variable that a name stands for.
abbrev pub named : List (Bytes × Variable) → (Variable → ℕ) → Bytes → ℕ
named table env name = elim (lookup_name name table) [ none ↦ 0 | some v ↦ env v ]

module _ (N : Builder) (M : Semantics N) (variables : List Bytes) (table : List (Bytes × Variable))
    (size : ℕ) (l : Location) (env : Variable → ℕ) where
  abbrev assigned : Assignment
  assigned = by_name (named table env) variables

  -- A run that returns gives an expression of this value.
  abbrev Gives : Outcome N.ExprId → ℕ → Type 0
  Gives o n = (id : N.ExprId) → o ≡ returned id → M.eval id env ≡ n

  get_elem-get_or :
      (names : List Bytes) (i : ℕ) (name : Bytes)
      → get_elem? names i ≡ some name
      → get_or names i [] ≡ name
  get_elem-get_or [] i name h = cc
  get_elem-get_or (x ∷ xs) zero name h = cc
  get_elem-get_or (x ∷ xs) (suc i) name h = get_elem-get_or xs i name h

  at-returned {ℓ} : {A : Type ℓ} (o : Option A) (a : A) → at N o ≡ returned a → o ≡ some a
  at-returned none a h = cc
  at-returned (some b) a h = cc

  named_found :
      (name : Bytes) (v : Variable) → lookup_name name table ≡ some v → named table env name ≡ env v
  named_found name v h = rw (h, named) refl

  var-Gives : (i : ℕ) → Gives (build_var N variables table size l i) (assigned i % 2 ^ (size * 8))
  unfolding build_var
  var-Gives i id h =
      let (name, v, here, there, done) =
        both-returned (at N (get_elem? variables i)) (λ name. at N (lookup_name name table))
          (λ name v. N.var size v l) h in
      let known = get_elem-get_or variables i name (at-returned _ name here) in
      let found = named_found name v (at-returned _ v there) in
      ap (λ (x : N.ExprId). M.eval x env) (sym done)
      ∙ M.var size v l env
      ∙ ap (λ (n : ℕ). n % 2 ^ (size * 8)) (sym (ap (named table env) known ∙ found))

  two-Gives :
      (f : ℕ → N.ExprId → N.ExprId → Location → N.ExprId) (g : ℕ → ℕ → ℕ) (x y : Outcome N.ExprId)
      (a b : ℕ)
      → ((p q : N.ExprId) → M.eval (f size p q l) env ≡ g (M.eval p env) (M.eval q env))
      → Gives x a
      → Gives y b
      → Gives (x >>= λ p. y >>= λ q. returned (f size p q l)) (g a b)
  two-Gives f g x y a b law hx hy id h =
      let (p, q, ep, eq, done) = both-returned x (λ p. y) (λ p q. f size p q l) h in
      ap (λ (z : N.ExprId). M.eval z env) (sym done) ∙ law p q ∙ ap₂ g (hx p ep) (hy q eq)

  one-Gives :
      (f : ℕ → N.ExprId → Location → N.ExprId) (g : ℕ → ℕ) (x : Outcome N.ExprId) (a : ℕ)
      → ((p : N.ExprId) → M.eval (f size p l) env ≡ g (M.eval p env))
      → Gives x a
      → Gives (x >>= λ p. returned (f size p l)) (g a)
  one-Gives f g x a law hx id h =
      let (p, ep, k) = bind-returned x _ h in
      ap (λ (z : N.ExprId). M.eval z env) (sym (returned-injective k)) ∙ law p ∙ ap g (hx p ep)

  shift-value :
      (c : ℕ) (p : N.ExprId)
      → c < size * 8
      → M.eval (N.logical_shift_right size p (N.const size c l) l) env
        ≡ (if ltb c (size * 8) then M.eval p env / 2 ^ c else 0)
  shift-value c p h =
      let count : M.eval (N.const size c l) env ≡ c =
        M.const size c l env ∙ mod-eq_of_lt (lt_trans h (lt-two_pow (size * 8))) in
      rw (lt→ltb c (size * 8) h) (
        M.logical_shift_right size p (N.const size c l) l env (omega (arith, count, h))
        ∙ ap (λ (n : ℕ). M.eval p env / 2 ^ n) count)

  kind-Gives :
      (k : Kind) (c i : ℕ) (x y : Outcome N.ExprId) (a b : ℕ)
      → IsShift (size * 8) k c
      → Gives x a
      → Gives y b
      → Gives
          (build_kind N size l k c (build_var N variables table size l i) x y)
          (node_value (size * 8) assigned k c i a b)
  unfolding build_kind node_value
  kind-Gives Kind.constant c i x y a b s hx hy id h =
      ap (λ (z : N.ExprId). M.eval z env) (sym (returned-injective h)) ∙ M.const size c l env
  kind-Gives Kind.variable c i x y a b s hx hy id h = var-Gives i id h
  kind-Gives Kind.add c i x y a b s hx hy id h =
      two-Gives N.add (λ m n. (m + n) % 2 ^ (size * 8)) x y a b (λ p q. M.add size p q l env) hx hy
        id h
  kind-Gives Kind.mul c i x y a b s hx hy id h =
      two-Gives N.mult (λ m n. m * n % 2 ^ (size * 8)) x y a b (λ p q. M.mult size p q l env) hx hy
        id h
  kind-Gives Kind.and c i x y a b s hx hy id h =
      two-Gives N.and_expr bit_and x y a b (λ p q. M.and_expr size p q l env) hx hy id h
  kind-Gives Kind.or c i x y a b s hx hy id h =
      two-Gives N.or_expr bit_or x y a b (λ p q. M.or_expr size p q l env) hx hy id h
  kind-Gives Kind.xor c i x y a b s hx hy id h =
      two-Gives N.xor_expr bit_xor x y a b (λ p q. M.xor_expr size p q l env) hx hy id h
  kind-Gives Kind.not c i x y a b s hx hy id h =
      one-Gives N.not_expr (λ m. 2 ^ (size * 8) - 1 - m) x a (λ p. M.not_expr size p l env) hx id h
  kind-Gives Kind.neg c i x y a b s hx hy id h =
      one-Gives N.neg (λ m. (2 ^ (size * 8) - m) % 2 ^ (size * 8)) x a (λ p. M.neg size p l env) hx
        id h
  kind-Gives Kind.shr c i x y a b s hx hy id h =
      one-Gives (λ n p o. N.logical_shift_right n p (N.const n c o) o)
        (λ m. if ltb c (size * 8) then m / 2 ^ c else 0) x a (λ p. shift-value c p s) hx id h
  kind-Gives (Kind.other k) c i x y a b s hx hy id h = cc

  -- A child that is not there makes the run end otherwise.
  mutual
    unfolding build_mlil value IsShifting

    build-Gives :
        (e : Expr)
        → IsShifting (size * 8) e
        → Gives (build_mlil N variables table size l e) (value (size * 8) assigned e)
    build-Gives (node k c i cs) h =
        kind-Gives k c i (child_0 N variables table size l cs) (child_1 N variables table size l cs)
          (first_value (size * 8) assigned cs) (second_value (size * 8) assigned cs) h.0
          (first-Gives cs h.1) (second-Gives cs h.1)

    first-Gives :
        (cs : Children)
        → AreShifting (size * 8) cs
        → Gives (child_0 N variables table size l cs) (first_value (size * 8) assigned cs)
    first-Gives nil h = λ id e. cc
    first-Gives (null cs) h = λ id e. cc
    first-Gives (cons x cs) h = build-Gives x h.0

    second-Gives :
        (cs : Children)
        → AreShifting (size * 8) cs
        → Gives (child_1 N variables table size l cs) (second_value (size * 8) assigned cs)
    second-Gives nil h = λ id e. cc
    second-Gives (null cs) h = first-Gives cs h
    second-Gives (cons x cs) h = first-Gives cs h.1

-- Where `BuildMLIL` returns, the expression that it has built has, under all values of the
-- function's variables, the value of the CoBRA expression under the values of the variables that
-- its names stand for, given the documented meaning of the operations of MLIL and shifts by less
-- than the width.
pub build_mlil_means :
    (N : Builder) (M : Semantics N) (variables : List Bytes) (table : List (Bytes × Variable))
    (size : ℕ) (l : Location) (e : Expr) (id : N.ExprId)
    → IsShifting (size * 8) e
    → build_mlil N variables table size l e ≡ returned id
    → (env : Variable → ℕ)
    → M.eval id env ≡ value (size * 8) (by_name (named table env) variables) e
build_mlil_means N M variables table size l e id h built env =
    build-Gives N M variables table size l env e h id built
