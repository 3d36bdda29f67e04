-- ===== src/Engine/Z3.antt =====
-- The part of Z3's C API that src/Engine.cpp calls, as operations on terms and solvers with the
-- documented meaning of each: bit-vector arithmetic modulo a power of two, and a solver whose
-- verdict is about the assertions on its stack. Z3 is not part of this repository.
use co_bra_for_binary_ninja.Prelude.{
  ℕ, ◌+◌, ◌-◌, ◌*◌, ◌/◌, ◌%◌, ◌^◌, bit_and, bit_or, bit_xor, ◌≡◌, Bool, true, not, List, [], ◌∷◌,
  Option, ltb, leb, ◌==◌, Bytes, All,
}

-- The number whose order is the signed order of w-bit patterns: the sign bit is flipped.
abbrev pub biased : ℕ → ℕ → ℕ
biased w x = (x + 2 ^ (w - 1)) % 2 ^ w

-- `Z3_lbool`
pub data Lbool : Type 0 where
  l_false l_undef l_true : Lbool

-- What a constant symbol stands for.
abbrev pub Env : Type 0
Env = Bytes → ℕ

-- Terms and formulas: `width`, `bits` and `truth` say what they mean.
pub record Terms : Type 1 where
  pub Ast : Type 0
  pub width : Ast → ℕ
  pub bits : Ast → Env → ℕ
  pub truth : Ast → Env → Bool
  pub mk_unsigned_int64 : ℕ → ℕ → Ast
  pub mk_const : Bytes → ℕ → Ast
  pub mk_bvadd : Ast → Ast → Ast
  pub mk_bvmul : Ast → Ast → Ast
  pub mk_bvand : Ast → Ast → Ast
  pub mk_bvor : Ast → Ast → Ast
  pub mk_bvxor : Ast → Ast → Ast
  pub mk_bvlshr : Ast → Ast → Ast
  pub mk_bvnot : Ast → Ast
  pub mk_bvneg : Ast → Ast
  pub mk_eq : Ast → Ast → Ast
  pub mk_bvult : Ast → Ast → Ast
  pub mk_bvule : Ast → Ast → Ast
  pub mk_bvuge : Ast → Ast → Ast
  pub mk_bvugt : Ast → Ast → Ast
  pub mk_bvslt : Ast → Ast → Ast
  pub mk_bvsle : Ast → Ast → Ast
  pub mk_bvsge : Ast → Ast → Ast
  pub mk_bvsgt : Ast → Ast → Ast
  pub mk_not : Ast → Ast

-- The documented meaning of each constructor. The operands of a bit-vector operation have one width.
pub record TermLaws (T : Terms) : Type 0 where
  pub width_int : (n w : ℕ) → T.width (T.mk_unsigned_int64 n w) ≡ w
  pub bits_int : (n w : ℕ) (e : Env) → T.bits (T.mk_unsigned_int64 n w) e ≡ n % 2 ^ w
  pub width_const : (s : Bytes) (w : ℕ) → T.width (T.mk_const s w) ≡ w
  pub bits_const : (s : Bytes) (w : ℕ) (e : Env) → T.bits (T.mk_const s w) e ≡ e s % 2 ^ w
  pub width_bvadd : (a b : T.Ast) → T.width a ≡ T.width b → T.width (T.mk_bvadd a b) ≡ T.width a
  pub width_bvmul : (a b : T.Ast) → T.width a ≡ T.width b → T.width (T.mk_bvmul a b) ≡ T.width a
  pub width_bvand : (a b : T.Ast) → T.width a ≡ T.width b → T.width (T.mk_bvand a b) ≡ T.width a
  pub width_bvor : (a b : T.Ast) → T.width a ≡ T.width b → T.width (T.mk_bvor a b) ≡ T.width a
  pub width_bvxor : (a b : T.Ast) → T.width a ≡ T.width b → T.width (T.mk_bvxor a b) ≡ T.width a
  pub width_bvlshr : (a b : T.Ast) → T.width a ≡ T.width b → T.width (T.mk_bvlshr a b) ≡ T.width a
  pub bits_bvadd :
      (a b : T.Ast) (e : Env)
      → T.width a ≡ T.width b
      → T.bits (T.mk_bvadd a b) e ≡ (T.bits a e + T.bits b e) % 2 ^ T.width a
  pub bits_bvmul :
      (a b : T.Ast) (e : Env)
      → T.width a ≡ T.width b
      → T.bits (T.mk_bvmul a b) e ≡ T.bits a e * T.bits b e % 2 ^ T.width a
  pub bits_bvand :
      (a b : T.Ast) (e : Env)
      → T.width a ≡ T.width b
      → T.bits (T.mk_bvand a b) e ≡ bit_and (T.bits a e) (T.bits b e)
  pub bits_bvor :
      (a b : T.Ast) (e : Env)
      → T.width a ≡ T.width b
      → T.bits (T.mk_bvor a b) e ≡ bit_or (T.bits a e) (T.bits b e)
  pub bits_bvxor :
      (a b : T.Ast) (e : Env)
      → T.width a ≡ T.width b
      → T.bits (T.mk_bvxor a b) e ≡ bit_xor (T.bits a e) (T.bits b e)
  pub bits_bvlshr :
      (a b : T.Ast) (e : Env)
      → T.width a ≡ T.width b
      → T.bits (T.mk_bvlshr a b) e ≡ T.bits a e / 2 ^ T.bits b e
  pub width_bvnot : (a : T.Ast) → T.width (T.mk_bvnot a) ≡ T.width a
  pub width_bvneg : (a : T.Ast) → T.width (T.mk_bvneg a) ≡ T.width a
  pub bits_bvnot : (a : T.Ast) (e : Env) → T.bits (T.mk_bvnot a) e ≡ 2 ^ T.width a - 1 - T.bits a e
  pub bits_bvneg :
      (a : T.Ast) (e : Env) → T.bits (T.mk_bvneg a) e ≡ (2 ^ T.width a - T.bits a e) % 2 ^ T.width a
  pub truth_eq :
      (a b : T.Ast) (e : Env)
      → T.width a ≡ T.width b
      → T.truth (T.mk_eq a b) e ≡ (T.bits a e == T.bits b e)
  pub truth_bvult :
      (a b : T.Ast) (e : Env)
      → T.width a ≡ T.width b
      → T.truth (T.mk_bvult a b) e ≡ ltb (T.bits a e) (T.bits b e)
  pub truth_bvule :
      (a b : T.Ast) (e : Env)
      → T.width a ≡ T.width b
      → T.truth (T.mk_bvule a b) e ≡ leb (T.bits a e) (T.bits b e)
  pub truth_bvuge :
      (a b : T.Ast) (e : Env)
      → T.width a ≡ T.width b
      → T.truth (T.mk_bvuge a b) e ≡ leb (T.bits b e) (T.bits a e)
  pub truth_bvugt :
      (a b : T.Ast) (e : Env)
      → T.width a ≡ T.width b
      → T.truth (T.mk_bvugt a b) e ≡ ltb (T.bits b e) (T.bits a e)
  pub truth_bvslt :
      (a b : T.Ast) (e : Env)
      → T.width a ≡ T.width b
      → T.truth (T.mk_bvslt a b) e
        ≡ ltb (biased (T.width a) (T.bits a e)) (biased (T.width a) (T.bits b e))
  pub truth_bvsle :
      (a b : T.Ast) (e : Env)
      → T.width a ≡ T.width b
      → T.truth (T.mk_bvsle a b) e
        ≡ leb (biased (T.width a) (T.bits a e)) (biased (T.width a) (T.bits b e))
  pub truth_bvsge :
      (a b : T.Ast) (e : Env)
      → T.width a ≡ T.width b
      → T.truth (T.mk_bvsge a b) e
        ≡ leb (biased (T.width a) (T.bits b e)) (biased (T.width a) (T.bits a e))
  pub truth_bvsgt :
      (a b : T.Ast) (e : Env)
      → T.width a ≡ T.width b
      → T.truth (T.mk_bvsgt a b) e
        ≡ ltb (biased (T.width a) (T.bits b e)) (biased (T.width a) (T.bits a e))
  pub truth_not : (a : T.Ast) (e : Env) → T.truth (T.mk_not a) e ≡ not (T.truth a e)

-- Solvers and models.
pub record Solvers (T : Terms) : Type 1 where
  pub Solver : Type 0
  pub Model : Type 0
  -- the assertions, one list for each level of the stack
  pub frames : Solver → List (List T.Ast)
  -- a solver of a context with this "timeout" parameter
  pub mk_solver : Bytes → Solver
  pub push : Solver → Solver
  pub pop : Solver → Solver
  pub assert : Solver → T.Ast → Solver
  pub check : Solver → Lbool × Solver
  pub get_model : Solver → Option Model
  pub model_eval : Model → T.Ast → Option T.Ast
  pub get_numeral_string : T.Ast → Option Bytes

abbrev pub Satisfies : (T : Terms) → Env → List (List T.Ast) → Type 0
Satisfies T e = All (All (λ a. T.truth a e ≡ true))

pub record SolverLaws (T : Terms) (S : Solvers T) : Type 0 where
  pub frames_new : (t : Bytes) → S.frames (S.mk_solver t) ≡ [] ∷ []
  pub frames_push : (s : S.Solver) → S.frames (S.push s) ≡ [] ∷ S.frames s
  pub frames_pop :
      (s : S.Solver) (f : List T.Ast) (fs : List (List T.Ast))
      → S.frames s ≡ f ∷ fs
      → S.frames (S.pop s) ≡ fs
  pub frames_assert :
      (s : S.Solver) (a : T.Ast) (f : List T.Ast) (fs : List (List T.Ast))
      → S.frames s ≡ f ∷ fs
      → S.frames (S.assert s a) ≡ (a ∷ f) ∷ fs
  pub frames_check : (s : S.Solver) → S.frames (S.check s).1 ≡ S.frames s
  pub unsat : (s : S.Solver) → (S.check s).0 ≡ l_false → (e : Env) → ¬ (Satisfies T e (S.frames s))
  pub sat : (s : S.Solver) → (S.check s).0 ≡ l_true → (e : Env) × Satisfies T e (S.frames s)
