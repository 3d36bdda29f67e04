-- ===== src/Engine/ProveSound.antt =====
-- src/Engine.cpp: what a result of `ProveConstantComparison` means, given the documented behaviour
-- of Z3.
use co_bra_for_binary_ninja.Prelude.{
  ℕ, ◌≡◌, ◌⊎◌, inl, inr, refl, sym, ap, ◌∙◌, arith, Bool, true, false, List, [], ◌∷◌, Option, some,
  length, Bytes,
}
use mathlib.Core.Path.{subst}
use mathlib.Core.Option.{some-injective}
use co_bra_for_binary_ninja.Decimal.{to_string}
use co_bra_for_binary_ninja.Cobra.{Expr, Assignment, value}
use co_bra_for_binary_ninja.Engine.Types.{
  SimplifyOptions, ComparisonKind, is_supported_comparison, PredicateStatus, PredicateResult,
}
use co_bra_for_binary_ninja.Engine.Z3.{
  Terms, TermLaws, Solvers, SolverLaws, Lbool, l_false, l_undef, l_true, Env,
}
use co_bra_for_binary_ninja.Engine.Shape.{WellShaped}
use co_bra_for_binary_ninja.Engine.Build.{z3_variables, build_predicate_expr, build_comparison}
use co_bra_for_binary_ninja.Engine.Meaning.{
  holds, assignment_of, build_means, compare_means, z3_variables_listed,
}
use co_bra_for_binary_ninja.Engine.Prove.{
  SolverQuery, query_predicate, after_false_query, decide_predicate, prove_with_z3, ◌>>=◌,
}

Lbool-cases : (b : Lbool) → (b ≡ l_false) ⊎ ((b ≡ l_undef) ⊎ (b ≡ l_true))
Lbool-cases l_false = inl refl
Lbool-cases l_undef = inr (inl refl)
Lbool-cases l_true = inr (inr refl)

not-true→false : (b : Bool) → ¬ (b ≡ true) → b ≡ false
not-true→false true h = absurd (h refl)
not-true→false false h = refl

module _ (T : Terms) (L : TermLaws T) (S : Solvers T) (SL : SolverLaws T S) where
  -- Nothing is asserted.
  abbrev pub IsFresh : S.Solver → Type 0
  IsFresh s = S.frames s ≡ [] ∷ []

  module _ (s : S.Solver) (a : T.Ast) (vs : List T.Ast) (ns : List Bytes) (fresh : IsFresh s) where
    asserted_frames : S.frames (S.assert (S.push s) a) ≡ (a ∷ []) ∷ [] ∷ []
    asserted_frames =
        SL.frames_assert (S.push s) a [] ([] ∷ [])
          (SL.frames_push s ∙ ap (λ (r : List (List T.Ast)). [] ∷ r) fresh)

    query_IsFresh : IsFresh (query_predicate T S s a vs ns).1
    unfolding query_predicate
    query_IsFresh = SL.frames_pop _ (a ∷ []) ([] ∷ []) (SL.frames_check _ ∙ asserted_frames)

    query_false :
        (query_predicate T S s a vs ns).0.status ≡ l_false → (e : Env) → T.truth a e ≡ false
    unfolding query_predicate
    query_false h e =
        not-true→false _ (λ t. SL.unsat _ h e (rw asserted_frames ((t, tt), (tt, tt))))

    query_true :
        (query_predicate T S s a vs ns).0.status ≡ l_true → (e : Env) × (T.truth a e ≡ true)
    unfolding query_predicate
    query_true h = let (e, sat) = SL.sat _ h in (e, (rw asserted_frames at sat).0.0)

  -- What a result says of a formula.
  pub record Settles (p : T.Ast) (r : PredicateResult) : Type 0 where
    pub constant :
        r.status ≡ PredicateStatus.proved_constant
        → ((e : Env) → T.truth p e ≡ r.constant_value) × (r.z3_verified ≡ true)
    pub varies :
        r.status ≡ PredicateStatus.not_constant
        → ((e : Env) × (T.truth p e ≡ true)) × ((e : Env) × (T.truth p e ≡ false))

  after_false_query-Settles :
      (p : T.Ast) (tq fq : SolverQuery T S)
      → (e : Env) × (T.truth p e ≡ true)
      → (fq.status ≡ l_false → (e : Env) → T.truth p e ≡ true)
      → (fq.status ≡ l_true → (e : Env) × (T.truth p e ≡ false))
      → Settles p (after_false_query T S tq fq)
  unfolding after_false_query
  after_false_query-Settles p tq fq some_true always some_false = elim (Lbool-cases fq.status) [
    | inl e ↦ rw e (record { constant = λ h. (always e, refl); varies = λ h. cc })
    | inr (inl e) ↦ rw e (record { constant = λ h. cc; varies = λ h. cc })
    | inr (inr e) ↦ rw e (record { constant = λ h. cc; varies = λ h. (some_true, some_false e) })
  ]

  not_false : (p : T.Ast) (e : Env) → T.truth (T.mk_not p) e ≡ false → T.truth p e ≡ true
  not_false p e h = ground (arith, L.truth_not p e)

  not_true : (p : T.Ast) (e : Env) → T.truth (T.mk_not p) e ≡ true → T.truth p e ≡ false
  not_true p e h = ground (arith, L.truth_not p e)

  module _ (s : S.Solver) (p : T.Ast) (vs : List T.Ast) (ns : List Bytes) (fresh : IsFresh s) where
    pub decide_predicate-Settles : Settles p (decide_predicate T S s p vs ns)
    unfolding decide_predicate query_predicate
    decide_predicate-Settles = elim (Lbool-cases (query_predicate T S s p vs ns).0.status) [
      | inl e ↦
          rw e (record { constant = λ h. (query_false s p vs ns fresh e, refl); varies = λ h. cc })
      | inr (inl e) ↦ rw e (record { constant = λ h. cc; varies = λ h. cc })
      | inr (inr e) ↦ rw e (
          after_false_query-Settles p (query_predicate T S s p vs ns).0
            (query_predicate T S (query_predicate T S s p vs ns).1 (T.mk_not p) vs ns).0
            (query_true s p vs ns fresh e)
            (λ h env.
              not_false p env
                (query_false _ (T.mk_not p) vs ns (query_IsFresh s p vs ns fresh) h env))
            (λ h.
              let (env, t) = query_true _ (T.mk_not p) vs ns (query_IsFresh s p vs ns fresh) h in
              (env, not_true p env t)))
    ]

  module _ (left right : Expr) (variables : List Bytes) (w : ℕ) (kind : ComparisonKind) where
    abbrev pub symbols : List T.Ast
    symbols = z3_variables T w 0 (length variables)

    -- The comparison under an assignment, computed without Z3.
    abbrev pub outcome : Assignment → Bool
    outcome rho = holds w kind (value w rho left) (value w rho right)

    abbrev pub chain : Option T.Ast
    chain = do
      l ← build_predicate_expr T symbols w left
      r ← build_predicate_expr T symbols w right
      build_comparison T l r kind

    module _ (supported : is_supported_comparison kind ≡ true)
        (left_shape : WellShaped (length variables) left)
        (right_shape : WellShaped (length variables) right) where
      predicate_at :
          (e : Env) → (t : T.Ast) × (chain ≡ some t) × (T.truth t e ≡ outcome (assignment_of e))
      predicate_at e =
          let listed = z3_variables_listed T L w e (length variables) in
          let (l, el, pl) =
            build_means T L w e symbols (assignment_of e) (length variables) listed left_shape in
          let (r, er, pr) =
            build_means T L w e symbols (assignment_of e) (length variables) listed right_shape in
          let (t, et, pt) = compare_means T L w e kind supported pl pr in (t, rw (el, er) et, pt)

      -- One formula, whatever the environment.
      pub predicate :
          (t : T.Ast) × (chain ≡ some t) × ((e : Env) → T.truth t e ≡ outcome (assignment_of e))
      predicate =
          let (t, et, pt) = predicate_at (λ s. 0) in
          (
            t,
            et,
            λ e.
                let (u, eu, pu) = predicate_at e in
                let same : u ≡ t = some-injective _ _ (sym eu ∙ et) in
                subst (λ (a : T.Ast). T.truth a e ≡ outcome (assignment_of e)) same pu,
          )

    pub chain-decide :
        (options : SimplifyOptions) (t : T.Ast)
        → chain ≡ some t
        → prove_with_z3 T S left right variables w kind options
          ≡ some (
              decide_predicate T S
                (S.mk_solver (to_string options.z3_timeout_ms))
                t
                symbols
                variables)
    unfolding prove_with_z3
    chain-decide options t h = ground arith
