-- ===== src/Engine/Meaning.antt =====
-- src/Engine.cpp: the Z3 terms that `BuildPredicateExpr` and `BuildComparison` make mean what the
-- CoBRA trees and the comparison mean.
use co_bra_for_binary_ninja.Prelude.{
  ℕ, zero, suc, ◌+◌, ◌/◌, ◌%◌, ◌^◌, ◌≤◌, ◌<◌, ◌≡◌, refl, sym, ap, ◌∙◌, arith, Bool, not, ltb, leb,
  lt→ltb, leb→le, ◌==◌, Bool-cases, inl, inr, true, false, List, Option, some, get_elem?, drop,
}
use native.Mathlib.Nat.{pow-suc, add-zero, zero-mod, lt_trans, mod-eq_of_lt}
use co_bra_for_binary_ninja.Decimal.{read_from, read_from-to_string}
use co_bra_for_binary_ninja.Cobra.{Kind, Expr, Assignment, value, node_value}
use co_bra_for_binary_ninja.Engine.Types.{ComparisonKind, is_supported_comparison}
use co_bra_for_binary_ninja.Engine.Z3.{Terms, TermLaws, Env, biased}
use co_bra_for_binary_ninja.Engine.Shape.{
  WellShaped, constant, variable, unary, binary, IsUnary, IsBinary,
}
use co_bra_for_binary_ninja.Engine.Build.{
  symbol_name, z3_variables, build_node, build_predicate_expr, build_comparison,
}

-- Whether the comparison holds of two w-bit patterns. Signed order is the order of the patterns
-- with their sign bit flipped.
unfoldable pub holds : ℕ → ComparisonKind → ℕ → ℕ → Bool
holds w ComparisonKind.equal x y = x == y
holds w ComparisonKind.not_equal x y = not (x == y)
holds w ComparisonKind.unsigned_less_than x y = ltb x y
holds w ComparisonKind.unsigned_less_equal x y = leb x y
holds w ComparisonKind.unsigned_greater_equal x y = leb y x
holds w ComparisonKind.unsigned_greater_than x y = ltb y x
holds w ComparisonKind.signed_less_than x y = ltb (biased w x) (biased w y)
holds w ComparisonKind.signed_less_equal x y = leb (biased w x) (biased w y)
holds w ComparisonKind.signed_greater_equal x y = leb (biased w y) (biased w x)
holds w ComparisonKind.signed_greater_than x y = ltb (biased w y) (biased w x)
holds w (ComparisonKind.other k) x y = ltb 1 0

-- The values that Z3 has to give the symbols for an assignment to the variable indices.
unfoldable pub env_of : Assignment → Env
env_of rho symbol = rho (read_from 0 (drop 19 symbol))

-- The assignment that an environment of Z3 stands for.
abbrev pub assignment_of : Env → Assignment
assignment_of e index = e (symbol_name index)

pub env_of-symbol_name : (rho : Assignment) (index : ℕ) → env_of rho (symbol_name index) ≡ rho index
unfolding env_of symbol_name
env_of-symbol_name rho index = ap rho (read_from-to_string index)

pub lt-two_pow : (w : ℕ) → w < 2 ^ w
lt-two_pow zero = omega arith
lt-two_pow (suc w) = omega (arith, lt-two_pow w, pow-suc 2 w)

ge→not-ltb : (a b : ℕ) → b ≤ a → ltb a b ≡ false
ge→not-ltb a b h = ground arith

not-leb→lt : (a b : ℕ) → leb a b ≡ false → b < a
not-leb→lt a b h = ground arith

module _ (T : Terms) (L : TermLaws T) (w : ℕ) (env : Env) where
  -- A term of width `w` with the value `x`.
  pub record IsTerm (t : T.Ast) (x : ℕ) : Type 0 where
    pub sized : T.width t ≡ w
    pub valued : T.bits t env ≡ x

  abbrev pub Built : Option T.Ast → ℕ → Type 0
  Built o x = (t : T.Ast) × (o ≡ some t) × IsTerm t x

  same_width : {t u : T.Ast} {x y : ℕ} → IsTerm t x → IsTerm u y → T.width t ≡ T.width u
  same_width p q = p.sized ∙ sym q.sized

  bin-IsTerm :
      {t u : T.Ast} {x y : ℕ} (z : ℕ) (f : T.Ast → T.Ast → T.Ast)
      → ((a b : T.Ast) → T.width a ≡ T.width b → T.width (f a b) ≡ T.width a)
      → (T.width t ≡ T.width u → T.bits (f t u) env ≡ z)
      → IsTerm t x
      → IsTerm u y
      → IsTerm (f t u) z
  bin-IsTerm {t} {u} z f wide bits p q = record {
    sized = wide t u (same_width p q) ∙ p.sized;
    valued = bits (same_width p q);
  }

  int-IsTerm : (c : ℕ) → IsTerm (T.mk_unsigned_int64 c w) (c % 2 ^ w)
  int-IsTerm c = record { sized = L.width_int c w; valued = L.bits_int c w env }

  -- The count is below the width, so its own w-bit term does not wrap.
  lshr-IsTerm :
      (c : ℕ) {t : T.Ast} {x : ℕ}
      → c < w
      → IsTerm t x
      → IsTerm (T.mk_bvlshr t (T.mk_unsigned_int64 c w)) (x / 2 ^ c)
  lshr-IsTerm c {t} narrow p =
      let exact : c % 2 ^ w ≡ c = mod-eq_of_lt (lt_trans narrow (lt-two_pow w)) in
      let sizes = same_width p (int-IsTerm c) in
      record {
        sized = L.width_bvlshr t (T.mk_unsigned_int64 c w) sizes ∙ p.sized;
        valued =
            L.bits_bvlshr t (T.mk_unsigned_int64 c w) env sizes
            ∙ rw (p.valued, L.bits_int c w env, exact);
      }

  module _ (vs : List T.Ast) (rho : Assignment) where
    binary_term :
        (k : Kind) (c v : ℕ) {t u : T.Ast} {x y : ℕ}
        → IsBinary k
        → IsTerm t x
        → IsTerm u y
        → Built (build_node T vs w k c v (some t) (some u)) (node_value w rho k c v x y)
    unfolding build_node node_value
    binary_term Kind.add c v {t} {u} b p q = (
      T.mk_bvadd t u,
      refl,
      bin-IsTerm _ T.mk_bvadd L.width_bvadd
          (λ h. L.bits_bvadd t u env h ∙ rw (p.valued, q.valued, p.sized)) p q,
    )
    binary_term Kind.mul c v {t} {u} b p q = (
      T.mk_bvmul t u,
      refl,
      bin-IsTerm _ T.mk_bvmul L.width_bvmul
          (λ h. L.bits_bvmul t u env h ∙ rw (p.valued, q.valued, p.sized)) p q,
    )
    binary_term Kind.and c v {t} {u} b p q = (
      T.mk_bvand t u,
      refl,
      bin-IsTerm _ T.mk_bvand L.width_bvand (λ h. L.bits_bvand t u env h ∙ rw (p.valued, q.valued))
          p q,
    )
    binary_term Kind.or c v {t} {u} b p q = (
      T.mk_bvor t u,
      refl,
      bin-IsTerm _ T.mk_bvor L.width_bvor (λ h. L.bits_bvor t u env h ∙ rw (p.valued, q.valued)) p
          q,
    )
    binary_term Kind.xor c v {t} {u} b p q = (
      T.mk_bvxor t u,
      refl,
      bin-IsTerm _ T.mk_bvxor L.width_bvxor (λ h. L.bits_bvxor t u env h ∙ rw (p.valued, q.valued))
          p q,
    )
    binary_term _ c v b p q = absurd b

    shift_term :
        (c v : ℕ) {t : T.Ast} {x : ℕ} (y : Option T.Ast) (z : ℕ)
        → IsTerm t x
        → Built (build_node T vs w Kind.shr c v (some t) y) (node_value w rho Kind.shr c v x z)
    unfolding build_node node_value
    shift_term c v {t} y z p = elim (Bool-cases (leb w c)) [
      | inl wide ↦
          rw (wide, ge→not-ltb c w (leb→le w c wide))
            (T.mk_unsigned_int64 0 w, refl, rw zero-mod at (int-IsTerm 0))
      | inr narrow ↦
          rw (narrow, lt→ltb c w (not-leb→lt w c narrow))
            (T.mk_bvlshr t (T.mk_unsigned_int64 c w), refl, lshr-IsTerm c (not-leb→lt w c narrow) p)
    ]

    unary_term :
        (k : Kind) (c v : ℕ) {t : T.Ast} {x : ℕ} (y : Option T.Ast) (z : ℕ)
        → IsUnary k
        → IsTerm t x
        → Built (build_node T vs w k c v (some t) y) (node_value w rho k c v x z)
    unfolding build_node node_value
    unary_term Kind.not c v {t} y z u p = (
      T.mk_bvnot t,
      refl,
      record {
        sized = L.width_bvnot t ∙ p.sized;
        valued = L.bits_bvnot t env ∙ rw (p.valued, p.sized);
      },
    )
    unary_term Kind.neg c v {t} y z u p = (
      T.mk_bvneg t,
      refl,
      record {
        sized = L.width_bvneg t ∙ p.sized;
        valued = L.bits_bvneg t env ∙ rw (p.valued, p.sized);
      },
    )
    unary_term Kind.shr c v y z u p = shift_term c v y z p
    unary_term _ c v y z u p = absurd u

    -- The term of each variable index has the value that the assignment gives it.
    abbrev pub Lists : ℕ → Type 0
    Lists n = (v : ℕ) → v < n → Built (get_elem? vs v) (rho v % 2 ^ w)

    pub build_means :
        (n : ℕ) {e : Expr}
        → Lists n
        → WellShaped n e
        → Built (build_predicate_expr T vs w e) (value w rho e)
    unfolding build_predicate_expr value
    build_means n vars (constant c v cs) =
        unfold build_node node_value in (T.mk_unsigned_int64 c w, refl, int-IsTerm c)
    build_means n vars (variable c v cs h) = unfold build_node node_value in vars v h
    build_means n vars (unary k c v {l} u s) =
        let (t, e, p) = build_means n vars s in rw e (unary_term k c v _ _ u p)
    build_means n vars (binary k c v b s r) =
        let (t, e, p) = build_means n vars s in
        let (u, f, q) = build_means n vars r in rw (e, f) (binary_term k c v b p q)

  pub compare_means :
      (kind : ComparisonKind) {l r : T.Ast} {x y : ℕ}
      → is_supported_comparison kind ≡ true
      → IsTerm l x
      → IsTerm r y
      → (t : T.Ast) × (build_comparison T l r kind ≡ some t) × (T.truth t env ≡ holds w kind x y)
  unfolding build_comparison holds is_supported_comparison
  compare_means ComparisonKind.equal {l} {r} ok p q =
      (T.mk_eq l r, refl, L.truth_eq l r env (same_width p q) ∙ rw (p.valued, q.valued))
  compare_means ComparisonKind.unsigned_less_than {l} {r} ok p q =
      (T.mk_bvult l r, refl, L.truth_bvult l r env (same_width p q) ∙ rw (p.valued, q.valued))
  compare_means ComparisonKind.unsigned_less_equal {l} {r} ok p q =
      (T.mk_bvule l r, refl, L.truth_bvule l r env (same_width p q) ∙ rw (p.valued, q.valued))
  compare_means ComparisonKind.unsigned_greater_equal {l} {r} ok p q =
      (T.mk_bvuge l r, refl, L.truth_bvuge l r env (same_width p q) ∙ rw (p.valued, q.valued))
  compare_means ComparisonKind.unsigned_greater_than {l} {r} ok p q =
      (T.mk_bvugt l r, refl, L.truth_bvugt l r env (same_width p q) ∙ rw (p.valued, q.valued))
  compare_means ComparisonKind.signed_less_than {l} {r} ok p q = (
    T.mk_bvslt l r,
    refl,
    L.truth_bvslt l r env (same_width p q) ∙ rw (p.valued, q.valued, p.sized),
  )
  compare_means ComparisonKind.signed_less_equal {l} {r} ok p q = (
    T.mk_bvsle l r,
    refl,
    L.truth_bvsle l r env (same_width p q) ∙ rw (p.valued, q.valued, p.sized),
  )
  compare_means ComparisonKind.signed_greater_equal {l} {r} ok p q = (
    T.mk_bvsge l r,
    refl,
    L.truth_bvsge l r env (same_width p q) ∙ rw (p.valued, q.valued, p.sized),
  )
  compare_means ComparisonKind.signed_greater_than {l} {r} ok p q = (
    T.mk_bvsgt l r,
    refl,
    L.truth_bvsgt l r env (same_width p q) ∙ rw (p.valued, q.valued, p.sized),
  )
  compare_means ComparisonKind.not_equal {l} {r} ok p q = (
    T.mk_not (T.mk_eq l r),
    refl,
    L.truth_not (T.mk_eq l r) env
        ∙ ap not (L.truth_eq l r env (same_width p q) ∙ rw (p.valued, q.valued)),
  )
  compare_means (ComparisonKind.other k) ok p q = cc

  z3_variables-get_elem? :
      (count index v : ℕ)
      → v < count
      → get_elem? (z3_variables T w index count) v ≡ some (T.mk_const (symbol_name (index + v)) w)
  unfolding z3_variables
  z3_variables-get_elem? zero index v h = absurd (omega arith)
  z3_variables-get_elem? (suc count) index zero h = rw add-zero
  z3_variables-get_elem? (suc count) index (suc v) h =
      z3_variables-get_elem? count (index + 1) v (omega arith)
      ∙ ap (λ (i : ℕ). some (T.mk_const (symbol_name i) w)) (omega arith)

  pub z3_variables_listed : (count : ℕ) → Lists (z3_variables T w 0 count) (assignment_of env) count
  z3_variables_listed count v h = (
    T.mk_const (symbol_name v) w,
    z3_variables-get_elem? count 0 v h
        ∙ ap (λ (i : ℕ). some (T.mk_const (symbol_name i) w)) (omega arith),
    record { sized = L.width_const (symbol_name v) w; valued = L.bits_const (symbol_name v) w env },
  )
