-- ===== src/Adapter/Fresh.antt =====
-- src/BNAdapter.cpp, `CollectCandidates`: a collection into an empty report always ends, and what
-- it hands over.
use co_bra_for_binary_ninja.Prelude.{
  ℕ, ◌+◌, ◌*◌, ◌≤◌, ◌≡◌, refl, arith, Bool, ltb, leb, Bool-cases, inl, inr, List, [], ◌∷◌, length,
  Option, none, some, Option-cases, All,
}
use co_bra_for_binary_ninja.Cobra.{Expr}
use co_bra_for_binary_ninja.Engine.Types.{ComparisonKind}
use co_bra_for_binary_ninja.Engine.ProveResult.{prove_constant_comparison_answers}
use co_bra_for_binary_ninja.Adapter.Mlil.{Mlil, size}
use co_bra_for_binary_ninja.Adapter.Types.{FunctionReport, PendingCandidate, AnalysisLimits}
use co_bra_for_binary_ninja.Adapter.Outcome.{Outcome, returned, ◌>>=◌}
use co_bra_for_binary_ninja.Adapter.Select.{count_accepted}
use co_bra_for_binary_ninja.Adapter.Commit.{IsUnapplied}
use co_bra_for_binary_ninja.Adapter.Index.{Indexed}
use co_bra_for_binary_ninja.Adapter.Recovery.State.{Ssa}
use co_bra_for_binary_ninja.Adapter.Recovery.Visit.{RecoveredExpression}
use co_bra_for_binary_ninja.Adapter.Candidates.{
  NormalFunction, Services, is_normal_mlil, Collected, root_options, prove_predicate, try_root,
  empty_report,
}
use co_bra_for_binary_ninja.Adapter.Collect.{
  views_agree, is_no_root, inspect, inspect_all, collect_from, available_ssa, collect_normal,
  collect_candidates, Candidates,
}
use co_bra_for_binary_ninja.Adapter.Collected.{ServiceLaws}
use co_bra_for_binary_ninja.Adapter.CollectLoop.{IsGood}
use co_bra_for_binary_ninja.Adapter.Authorized.{IsCollected, collect_from-IsCollected, All-weaken}

-- That a run ends with a value.
abbrev Answers {ℓ} : {A : Type ℓ} → Outcome A → Type ℓ
Answers {A = A} o = (a : A) × (o ≡ returned a)

bind-Answers {ℓ κ} :
    {A : Type ℓ} {B : Type κ} (o : Outcome A) (k : A → Outcome B)
    → Answers o
    → ((a : A) → Answers (k a))
    → Answers (o >>= k)
bind-Answers o k (a, e) h = rw e (h a)

module _ (V : Services) (L : ServiceLaws V) (limits : AnalysisLimits) where
  prove_predicate-Answers :
      (index : ℕ) (root : Mlil) (kind : ComparisonKind) (r : RecoveredExpression)
      (left right : Option Expr) (st : Collected)
      → Answers (prove_predicate V limits index root kind r left right st)
  unfolding prove_predicate
  prove_predicate-Answers index root kind r none right st = (st, refl)
  prove_predicate-Answers index root kind r (some left) none st = (st, refl)
  prove_predicate-Answers index root kind r (some left) (some right) st =
      let (result, proved) =
        prove_constant_comparison_answers V.terms V.solvers left right r.result.variables
          (size root * 8) kind (root_options limits root) L.terms L.solvers V.has_z3 in
      rw (proved, prove_predicate) (_, refl)

  try_root-Answers :
      (ssa : Ssa) (index : ℕ) (root ssa_root : Mlil) (o : Option ComparisonKind) (st : Collected)
      → Answers (try_root V limits ssa index root ssa_root o st)
  unfolding try_root
  try_root-Answers ssa index root ssa_root none st = (_, refl)
  try_root-Answers ssa index root ssa_root (some kind) st =
      prove_predicate-Answers index root kind _ _ _ st

  module _ (f : NormalFunction) (ssa : Ssa) where
    inspect-Answers :
        (indexed : Indexed) (index : ℕ) (st : Collected)
        → Answers (inspect V limits f ssa indexed index st)
    unfolding inspect
    inspect-Answers indexed index st = elim (Bool-cases (leb f.expr_count index)) [
      | inl gone ↦ rw gone (st, refl)
      | inr here ↦ elim (Bool-cases (is_no_root V limits f ssa indexed index)) [
        | inl other ↦ rw (here, other) (st, refl)
        | inr found ↦ elim (Bool-cases (ltb limits.max_candidate_roots (st.inspected + 1))) [
          | inl over ↦ rw (here, found, over) (_, refl)
          | inr room ↦ elim (Bool-cases (views_agree V limits f ssa indexed index)) [
            | inr differ ↦ rw (here, found, room, differ) (_, refl)
            | inl agree ↦ rw (here, found, room, agree) (try_root-Answers ssa index _ _ _ _)
          ]
        ]
      ]
    ]

    inspect_all-Answers :
        (indexed : Indexed) (indices : List ℕ) (st : Collected)
        → Answers (inspect_all V limits f ssa indexed indices st)
    unfolding inspect_all
    inspect_all-Answers indexed [] st = (st, refl)
    inspect_all-Answers indexed (index ∷ rest) st =
        bind-Answers (inspect V limits f ssa indexed index st) _ (inspect-Answers indexed index st)
          (λ next. elim (Bool-cases next.stopped) [
            | inl stopped ↦ rw stopped (next, refl)
            | inr going ↦ rw going (inspect_all-Answers indexed rest next)
          ])

    collect_from-Answers : (output : FunctionReport) → Answers (collect_from V limits f ssa output)
    unfolding collect_from
    collect_from-Answers output =
        bind-Answers (inspect_all V limits f ssa _ _ _) _ (inspect_all-Answers _ _ _)
          (λ st. (_, refl))

  -- Candidates and a report in which nothing has been applied.
  pub record IsFresh (found : Candidates V) : Type 0 where
    pub applied : found.1.applied ≡ 0
    pub unapplied : All (λ (c : PendingCandidate). IsUnapplied c.report) found.0
    pub candidates : found.1.candidates ≡ []
    pub tally : found.1.accepted ≡ count_accepted found.0
    pub within : length found.0 ≤ limits.max_candidate_roots

  abbrev IsFreshRun : Outcome (Candidates V) → Type 0
  IsFreshRun o = (found : Candidates V) × (o ≡ returned found) × IsFresh found

  nothing_found :
      (output : FunctionReport)
      → output.applied ≡ 0
      → output.accepted ≡ 0
      → output.candidates ≡ []
      → IsFreshRun (returned ([], output))
  unfolding count_accepted
  nothing_found output applied accepted none_yet = (
    ([], output),
    refl,
    record {
      applied = applied;
      unapplied = tt;
      candidates = none_yet;
      tally = accepted;
      within = omega arith;
    },
  )

  collected-IsFresh :
      (f : NormalFunction) (ssa : Ssa) (found : Candidates V)
      → IsCollected V limits f ssa L empty_report found
      → IsFresh found
  collected-IsFresh f ssa found c = record {
    applied = c.applied;
    unapplied =
        All-weaken (IsGood V limits f ssa L empty_report) (λ x. IsUnapplied x.report) found.0
          (λ x g. g.1) c.good;
    candidates = c.candidates;
    tally = omega (arith, c.tally);
    within = c.within;
  }

  collect_normal-IsFreshRun :
      (allow : Bool) (f : NormalFunction)
      → IsFreshRun (collect_normal V limits allow f empty_report)
  unfolding collect_normal
  collect_normal-IsFreshRun allow f = elim (Option-cases (available_ssa V allow f)) [
    | inl e ↦ rw (e, collect_normal) (nothing_found _ refl refl refl)
    | inr (ssa, e) ↦
        let (found, ran) = collect_from-Answers f ssa empty_report in
        rw (e, collect_normal)
          (
            found,
            ran,
            collected-IsFresh f ssa found
                (collect_from-IsCollected V limits f ssa L empty_report found ran),
          )
  ]

  pub collect_candidates-IsFreshRun :
      (allow : Bool) (o : Option NormalFunction)
      → (found : Candidates V) × (collect_candidates V o limits empty_report allow ≡ returned found)
        × IsFresh found
  unfolding collect_candidates
  collect_candidates-IsFreshRun allow none = nothing_found _ refl refl refl
  collect_candidates-IsFreshRun allow (some f) = elim (Bool-cases (is_normal_mlil (some f))) [
    | inl normal ↦ rw normal (collect_normal-IsFreshRun allow f)
    | inr other ↦ rw other (nothing_found _ refl refl refl)
  ]
