-- ===== src/Tests/ToyZ3.antt =====
-- A small instance of the Z3 interface: terms are syntax trees, and the solver tries the all-zero
-- and the all-one environment and knows that a false formula without symbols has no model. It says `unknown`
-- otherwise.
use co_bra_for_binary_ninja.Prelude.{
  ℕ, ◌+◌, ◌-◌, ◌*◌, ◌/◌, ◌%◌, ◌^◌, bit_and, bit_or, bit_xor, ◌≡◌, refl, ap, arith, Bool, true,
  false, not, ◌&&◌, ◌||◌, if◌then◌else◌, ltb, leb, ◌==◌, Bool-cases, ◌⊎◌, inl, inr, List, [], ◌∷◌,
  Option, none, some, Bytes, All,
}
use co_bra_for_binary_ninja.Decimal.{to_string}
use co_bra_for_binary_ninja.Engine.Z3.{
  Terms, TermLaws, Solvers, SolverLaws, Satisfies, Lbool, l_false, l_undef, l_true, Env, biased,
}

both_true : (a b : Bool) → (a && b) ≡ true → (a ≡ true) × (b ≡ true)
both_true a b h = ground arith

pub data Op : Type 0 where
  o_add o_mul o_and o_or o_xor o_lshr : Op

pub data Rel : Type 0 where
  r_eq r_ult r_ule r_slt r_sle : Rel

pub data Term : Type 0 where
  int : ℕ → ℕ → Term
  symbol : Bytes → ℕ → Term
  op : Op → Term → Term → Term
  complement negation : Term → Term
  rel : Rel → Term → Term → Term
  denied : Term → Term

abbrev term_width : Term → ℕ
term_width (int n w) = w
term_width (symbol s w) = w
term_width (op o a b) = term_width a
term_width (complement a) = term_width a
term_width (negation a) = term_width a
term_width (rel r a b) = 0
term_width (denied a) = 0

abbrev op_bits : Op → ℕ → ℕ → ℕ → ℕ
op_bits o_add w x y = (x + y) % 2 ^ w
op_bits o_mul w x y = x * y % 2 ^ w
op_bits o_and w x y = bit_and x y
op_bits o_or w x y = bit_or x y
op_bits o_xor w x y = bit_xor x y
op_bits o_lshr w x y = x / 2 ^ y

abbrev term_bits : Term → Env → ℕ
term_bits (int n w) e = n % 2 ^ w
term_bits (symbol s w) e = e s % 2 ^ w
term_bits (op o a b) e = op_bits o (term_width a) (term_bits a e) (term_bits b e)
term_bits (complement a) e = 2 ^ term_width a - 1 - term_bits a e
term_bits (negation a) e = (2 ^ term_width a - term_bits a e) % 2 ^ term_width a
term_bits (rel r a b) e = 0
term_bits (denied a) e = 0

abbrev rel_truth : Rel → ℕ → ℕ → ℕ → Bool
rel_truth r_eq w x y = x == y
rel_truth r_ult w x y = ltb x y
rel_truth r_ule w x y = leb x y
rel_truth r_slt w x y = ltb (biased w x) (biased w y)
rel_truth r_sle w x y = leb (biased w x) (biased w y)

-- A relation of terms of different width, which Z3 refuses, is read at the left width.
abbrev term_truth : Term → Env → Bool
term_truth (rel r a b) e = rel_truth r (term_width a) (term_bits a e) (term_bits b e)
term_truth (denied a) e = not (term_truth a e)
term_truth _ e = false

abbrev is_closed : Term → Bool
is_closed (int n w) = true
is_closed (symbol s w) = false
is_closed (op o a b) = is_closed a && is_closed b
is_closed (complement a) = is_closed a
is_closed (negation a) = is_closed a
is_closed (rel r a b) = is_closed a && is_closed b
is_closed (denied a) = is_closed a

abbrev pub toy_terms : Terms
toy_terms = record {
  Ast = Term;
  width = term_width;
  bits = term_bits;
  truth = term_truth;
  mk_unsigned_int64 = int;
  mk_const = symbol;
  mk_bvadd = op o_add;
  mk_bvmul = op o_mul;
  mk_bvand = op o_and;
  mk_bvor = op o_or;
  mk_bvxor = op o_xor;
  mk_bvlshr = op o_lshr;
  mk_bvnot = complement;
  mk_bvneg = negation;
  mk_eq = rel r_eq;
  mk_bvult = rel r_ult;
  mk_bvule = rel r_ule;
  mk_bvuge = λ a b. rel r_ule b a;
  mk_bvugt = λ a b. rel r_ult b a;
  mk_bvslt = rel r_slt;
  mk_bvsle = rel r_sle;
  mk_bvsge = λ a b. rel r_sle b a;
  mk_bvsgt = λ a b. rel r_slt b a;
  mk_not = denied;
}

pub toy-TermLaws : TermLaws toy_terms
toy-TermLaws = record {
  width_int = λ n w. refl;
  bits_int = λ n w e. refl;
  width_const = λ s w. refl;
  bits_const = λ s w e. refl;
  width_bvadd = λ a b h. refl;
  width_bvmul = λ a b h. refl;
  width_bvand = λ a b h. refl;
  width_bvor = λ a b h. refl;
  width_bvxor = λ a b h. refl;
  width_bvlshr = λ a b h. refl;
  bits_bvadd = λ a b e h. refl;
  bits_bvmul = λ a b e h. refl;
  bits_bvand = λ a b e h. refl;
  bits_bvor = λ a b e h. refl;
  bits_bvxor = λ a b e h. refl;
  bits_bvlshr = λ a b e h. refl;
  width_bvnot = λ a. refl;
  width_bvneg = λ a. refl;
  bits_bvnot = λ a e. refl;
  bits_bvneg = λ a e. refl;
  truth_eq = λ a b e h. refl;
  truth_bvult = λ a b e h. refl;
  truth_bvule = λ a b e h. refl;
  truth_bvuge = λ a b e h. refl;
  truth_bvugt = λ a b e h. refl;
  truth_bvslt = λ a b e h. refl;
  truth_bvsle = λ a b e h. refl;
  truth_bvsge = λ a b e h. rw h;
  truth_bvsgt = λ a b e h. rw h;
  truth_not = λ a e. refl;
}

-- A formula with no symbol has one truth value.
closed_bits : (t : Term) (e f : Env) → is_closed t ≡ true → term_bits t e ≡ term_bits t f
closed_bits (int n w) e f h = refl
closed_bits (symbol s w) e f h = cc
closed_bits (op o a b) e f h =
    let (ha, hb) = both_true (is_closed a) (is_closed b) h in
    cc (closed_bits a e f ha, closed_bits b e f hb)
closed_bits (complement a) e f h = cc (closed_bits a e f h)
closed_bits (negation a) e f h = cc (closed_bits a e f h)
closed_bits (rel r a b) e f h = refl
closed_bits (denied a) e f h = refl

closed_truth : (t : Term) (e f : Env) → is_closed t ≡ true → term_truth t e ≡ term_truth t f
closed_truth (int n w) e f h = refl
closed_truth (symbol s w) e f h = refl
closed_truth (op o a b) e f h = refl
closed_truth (complement a) e f h = refl
closed_truth (negation a) e f h = refl
closed_truth (rel r a b) e f h =
    let (ha, hb) = both_true (is_closed a) (is_closed b) h in
    cc (closed_bits a e f ha, closed_bits b e f hb)
closed_truth (denied a) e f h = ap not (closed_truth a e f h)

abbrev zero_env : Env
zero_env s = 0

abbrev one_env : Env
one_env s = 1

abbrev all_true : Env → List Term → Bool
all_true e [] = true
all_true e (t ∷ ts) = term_truth t e && all_true e ts

abbrev all_frames_true : Env → List (List Term) → Bool
all_frames_true e [] = true
all_frames_true e (f ∷ fs) = all_true e f && all_frames_true e fs

abbrev refuted : Term → Bool
refuted t = is_closed t && not (term_truth t zero_env)

abbrev some_refuted : List Term → Bool
some_refuted [] = false
some_refuted (t ∷ ts) = refuted t || some_refuted ts

abbrev some_frame_refuted : List (List Term) → Bool
some_frame_refuted [] = false
some_frame_refuted (f ∷ fs) = some_refuted f || some_frame_refuted fs

abbrev verdict : List (List Term) → Lbool
verdict fs =
    if all_frames_true zero_env fs
    then l_true
    else if all_frames_true one_env fs
    then l_true
    else if some_frame_refuted fs
    then l_false
    else l_undef

abbrev tail_frames : List (List Term) → List (List Term)
tail_frames [] = []
tail_frames (f ∷ fs) = fs

abbrev assert_top : List (List Term) → Term → List (List Term)
assert_top [] t = (t ∷ []) ∷ []
assert_top (f ∷ fs) t = (t ∷ f) ∷ fs

abbrev numeral : Term → Option Bytes
numeral (int n w) = some (to_string n)
numeral _ = none

abbrev pub toy_solvers : Solvers toy_terms
toy_solvers = record {
  Solver = List (List Term);
  Model = Unit {0};
  frames = λ s. s;
  mk_solver = λ t. [] ∷ [];
  push = λ s. [] ∷ s;
  pop = tail_frames;
  assert = assert_top;
  check = λ s. (verdict s, s);
  get_model = λ s. some tt;
  model_eval = λ m t. some (int (term_bits t zero_env) (term_width t));
  get_numeral_string = numeral;
}

all_true-All :
    (e : Env) (ts : List Term) → all_true e ts ≡ true → All (λ t. term_truth t e ≡ true) ts
all_true-All e [] h = tt
all_true-All e (t ∷ ts) h =
    let (a, b) = both_true (term_truth t e) (all_true e ts) h in (a, all_true-All e ts b)

frames_satisfied :
    (e : Env) (fs : List (List Term)) → all_frames_true e fs ≡ true → Satisfies toy_terms e fs
frames_satisfied e [] h = tt
frames_satisfied e (f ∷ fs) h =
    let (a, b) = both_true (all_true e f) (all_frames_true e fs) h in
    (all_true-All e f a, frames_satisfied e fs b)

verdict-true :
    (fs : List (List Term))
    → verdict fs ≡ l_true
    → (all_frames_true zero_env fs ≡ true) ⊎ (all_frames_true one_env fs ≡ true)
verdict-true fs h = ground (arith, h)

model_of_frames :
    (fs : List (List Term)) → verdict fs ≡ l_true → (e : Env) × Satisfies toy_terms e fs
model_of_frames fs h = elim (verdict-true fs h) [
  | inl zeros ↦ (zero_env, frames_satisfied zero_env fs zeros)
  | inr ones ↦ (one_env, frames_satisfied one_env fs ones)
]

refuted_never : (t : Term) (e : Env) → refuted t ≡ true → term_truth t e ≡ true → ⊥
refuted_never t e h k =
    let (closed, denial) = both_true (is_closed t) (not (term_truth t zero_env)) h in
    cc (ap not (closed_truth t e zero_env closed), denial, k)

some_refuted_never :
    (ts : List Term) (e : Env) → some_refuted ts ≡ true → All (λ t. term_truth t e ≡ true) ts → ⊥
some_refuted_never [] e h k = cc
some_refuted_never (t ∷ ts) e h k = elim (Bool-cases (refuted t)) [
  | inl r ↦ refuted_never t e r k.0
  | inr r ↦ some_refuted_never ts e (rw r at h) k.1
]

frame_refuted_never :
    (fs : List (List Term)) (e : Env) → some_frame_refuted fs ≡ true → Satisfies toy_terms e fs → ⊥
frame_refuted_never [] e h k = cc
frame_refuted_never (f ∷ fs) e h k = elim (Bool-cases (some_refuted f)) [
  | inl r ↦ some_refuted_never f e r k.0
  | inr r ↦ frame_refuted_never fs e (rw r at h) k.1
]

pub toy-SolverLaws : SolverLaws toy_terms toy_solvers
toy-SolverLaws = record {
  frames_new = λ t. refl;
  frames_push = λ s. refl;
  frames_pop = λ s f fs h. rw h;
  frames_assert = λ s a f fs h. rw h;
  frames_check = λ s. refl;
  unsat = λ s h e. frame_refuted_never s e (ground (arith, h));
  sat = model_of_frames;
}
