-- ===== src/Adapter/CollectLoop.antt =====
-- src/BNAdapter.cpp, `CollectCandidates` and `PreviewFunction`: what the loop keeps.
use mathlib.Core.Path.{subst}
use co_bra_for_binary_ninja.Prelude.{
  ℕ, ◌+◌, ◌*◌, ◌≤◌, ◌≡◌, refl, arith, not, ◌||◌, ◌&&◌, if◌then◌else◌, ltb, leb, Bool-cases, inl,
  inr, List, [], ◌∷◌, ◌++◌, length, length-append, Option, none, some, Option-cases, Bytes, All,
}
use co_bra_for_binary_ninja.Cobra.{Expr}
use co_bra_for_binary_ninja.Engine.Types.{ComparisonKind, PredicateResult, SimplifyResult}
use co_bra_for_binary_ninja.Engine.Prove.{prove_constant_comparison}
use co_bra_for_binary_ninja.Adapter.Mlil.{Mlil, operation, size}
use co_bra_for_binary_ninja.Adapter.Types.{FunctionReport, PendingCandidate, AnalysisLimits}
use co_bra_for_binary_ninja.Adapter.Outcome.{returned}
use co_bra_for_binary_ninja.Adapter.Roots.{comparison_for_operation}
use co_bra_for_binary_ninja.Adapter.Select.{count_accepted}
use co_bra_for_binary_ninja.Adapter.Preserves.{bind-returned, returned-injective}
use co_bra_for_binary_ninja.Adapter.Commit.{IsUnapplied}
use co_bra_for_binary_ninja.Adapter.Index.{Indexed}
use co_bra_for_binary_ninja.Adapter.Recovery.State.{Ssa}
use co_bra_for_binary_ninja.Adapter.Recovery.Visit.{
  RecoveredExpression, recover, recover_comparison,
}
use co_bra_for_binary_ninja.Adapter.Candidates.{
  NormalFunction, Services, Collected, count_root, stop_at_budget, push_candidate, root_options,
  is_simplified, predicate_candidate, predicate_text, prove_predicate, simplified_candidate,
  simplify_root, try_root,
}
use co_bra_for_binary_ninja.Adapter.Collect.{views_agree, is_no_root, inspect, inspect_all}
use co_bra_for_binary_ninja.Adapter.Collected.{
  ServiceLaws, IsAuthorized, predicate-IsAuthorized, rewrite-IsAuthorized,
}

module _ {ℓ} {A : Type ℓ} (P : A → Type 0) where
  All-append_one : (xs : List A) (x : A) → All P xs → P x → All P (xs ++ (x ∷ []))
  All-append_one [] x h p = (p, tt)
  All-append_one (y ∷ ys) x h p = (h.0, All-append_one ys x h.1 p)

count_accepted-append_one :
    (cs : List PendingCandidate) (c : PendingCandidate)
    → count_accepted (cs ++ (c ∷ [])) ≡ count_accepted cs + (if c.report.accepted then 1 else 0)
unfolding count_accepted
count_accepted-append_one [] c = ground arith
count_accepted-append_one (d ∷ ds) c = ground (arith, count_accepted-append_one ds c)

predicate_fresh :
    (V : Services) (index : ℕ) (root : Mlil) (kind : ComparisonKind) (r : RecoveredExpression)
    (before : Bytes) (result : PredicateResult)
    → IsUnapplied (predicate_candidate V index root kind r before result).report
unfolding predicate_candidate
predicate_fresh V index root kind r before result = refl

simplified_fresh :
    (V : Services) (index : ℕ) (root : Mlil) (r : RecoveredExpression) (result : SimplifyResult)
    → IsUnapplied (simplified_candidate V index root r result).report
unfolding simplified_candidate
simplified_fresh V index root r result =
    elim (Bool-cases (is_simplified result.status && result.z3_verified)) [
      | inl good ↦ rw good refl
      | inr bad ↦ rw bad refl
    ]

module _ (V : Services) (limits : AnalysisLimits) (f : NormalFunction) (ssa : Ssa)
    (L : ServiceLaws V) (start : FunctionReport) where
  -- A candidate of the loop: authorized if it is accepted, and not applied.
  abbrev pub IsGood : PendingCandidate → Type 0
  IsGood c = IsAuthorized V limits f ssa c × IsUnapplied c.report

  pub record IsSound (st : Collected) : Type 0 where
    pub good : All IsGood st.pending
    pub tally : st.output.accepted ≡ start.accepted + count_accepted st.pending
    pub applied : st.output.applied ≡ start.applied
    pub candidates : st.output.candidates ≡ start.candidates
    pub room : length st.pending ≤ st.inspected
    pub within : length st.pending ≤ limits.max_candidate_roots

  push-IsSound :
      (c : PendingCandidate) (st : Collected)
      → IsGood c
      → IsSound st
      → st.inspected + 1 ≤ limits.max_candidate_roots
      → IsSound (push_candidate c (count_root st))
  unfolding push_candidate
  push-IsSound c st good sound h = record {
    good = All-append_one IsGood st.pending c sound.good good;
    tally = ground (arith, sound.tally, count_accepted-append_one st.pending c);
    applied = ground (arith, sound.applied);
    candidates = ground (arith, sound.candidates);
    room = omega (arith, length-append st.pending (c ∷ []), sound.room);
    within = omega (arith, length-append st.pending (c ∷ []), sound.room, h);
  }

  counted-IsSound : (st : Collected) → IsSound st → IsSound (count_root st)
  counted-IsSound st sound = record {
    good = sound.good;
    tally = sound.tally;
    applied = sound.applied;
    candidates = sound.candidates;
    room = omega (arith, sound.room);
    within = sound.within;
  }

  stopped-IsSound : (st : Collected) → IsSound st → IsSound (stop_at_budget st)
  stopped-IsSound st sound = record {
    good = sound.good;
    tally = sound.tally;
    applied = sound.applied;
    candidates = sound.candidates;
    room = omega (arith, sound.room);
    within = sound.within;
  }

  module _ (index : ℕ) (st : Collected) (sound : IsSound st)
      (h : st.inspected + 1 ≤ limits.max_candidate_roots) where
    abbrev root : Mlil
    root = f.old.get_expr index

    abbrev compared : RecoveredExpression
    compared =
        recover_comparison ssa V.factory limits (size root * 8)
          (ssa.get_expr (f.ssa_expr_index index))

    abbrev recovered : RecoveredExpression
    recovered = recover ssa V.factory limits (size root * 8) (ssa.get_expr (f.ssa_expr_index index))

    predicate-IsSound :
        (kind : ComparisonKind) (left right : Option Expr) (st' : Collected)
        → comparison_for_operation (operation root) ≡ some kind
        → compared.predicate_left ≡ left
        → compared.predicate_right ≡ right
        → prove_predicate V limits index root kind compared left right (count_root st)
          ≡ returned st'
        → IsSound st'
    unfolding prove_predicate
    predicate-IsSound kind none right st' same l r e =
        subst IsSound (returned-injective e) (counted-IsSound st sound)
    predicate-IsSound kind (some left) none st' same l r e =
        subst IsSound (returned-injective e) (counted-IsSound st sound)
    predicate-IsSound kind (some left) (some right) st' same l r e =
        elim (Option-cases (
          prove_constant_comparison V.terms V.solvers V.has_z3 left right compared.result.variables
            (size root * 8) kind (root_options limits root))) [
              | inl undefined_run ↦ cc (rw (undefined_run, prove_predicate) at e)
              | inr (result, proved) ↦
                  let before =
                    predicate_text V left right compared.result.variables (size root * 8) kind in
                  subst IsSound (returned-injective (rw (proved, prove_predicate) at e)) (
                    push-IsSound (predicate_candidate V index root kind compared before result) st
                      (
                        predicate-IsAuthorized V limits f ssa L index kind left right before result
                            same l r proved,
                        predicate_fresh V index root kind compared before result,
                      )
                      sound h)
            ]

    simplify-IsSound :
        (o : Option Expr)
        → recovered.expression ≡ o
        → IsSound (simplify_root V limits index root recovered o (count_root st))
    unfolding simplify_root
    simplify-IsSound none e = counted-IsSound st sound
    simplify-IsSound (some original) e =
        elim (Bool-cases (
          ltb recovered.result.stats.nodes limits.min_nodes
          || (not recovered.result.stats.has_arithmetic
              || not recovered.result.stats.has_bitwise))) [
                | inl plain ↦ rw plain (counted-IsSound st sound)
                | inr mixed ↦ rw mixed (
                    push-IsSound _ st
                      (
                        rewrite-IsAuthorized V limits f ssa L index original e,
                        simplified_fresh V index root recovered _,
                      )
                      sound h)
              ]

    try_root-IsSound :
        (o : Option ComparisonKind) (st' : Collected)
        → comparison_for_operation (operation root) ≡ o
        → try_root V limits ssa index root (ssa.get_expr (f.ssa_expr_index index)) o (count_root st)
          ≡ returned st'
        → IsSound st'
    unfolding try_root
    try_root-IsSound none st' same e =
        subst IsSound (returned-injective e) (simplify-IsSound recovered.expression refl)
    try_root-IsSound (some kind) st' same e =
        predicate-IsSound kind compared.predicate_left compared.predicate_right st' same refl refl e

  inspect-IsSound :
      (indexed : Indexed) (index : ℕ) (st st' : Collected)
      → IsSound st
      → inspect V limits f ssa indexed index st ≡ returned st'
      → IsSound st'
  unfolding inspect
  inspect-IsSound indexed index st st' sound =
      let root = f.old.get_expr index in
      let kept : returned st ≡ returned st' → IsSound st' =
        λ e. subst IsSound (returned-injective e) sound in
      elim (Bool-cases (leb f.expr_count index)) [
        | inl gone ↦ rw gone kept
        | inr here ↦ elim (Bool-cases (is_no_root V limits f ssa indexed index)) [
          | inl other ↦ rw (here, other) kept
          | inr root_found ↦ elim (Bool-cases (ltb limits.max_candidate_roots (st.inspected + 1))) [
            | inl over ↦
                rw (here, root_found, over)
                  (λ e. subst IsSound (returned-injective e) (stopped-IsSound st sound))
            | inr room ↦ elim (Bool-cases (views_agree V limits f ssa indexed index)) [
              | inr differ ↦
                  rw (here, root_found, room, differ)
                    (λ e. subst IsSound (returned-injective e) (counted-IsSound st sound))
              | inl agree ↦
                  rw (here, root_found, room, agree)
                    (try_root-IsSound index st sound (ground (arith, room))
                      (comparison_for_operation (operation root)) st' refl)
            ]
          ]
        ]
      ]

  pub inspect_all-IsSound :
      (indexed : Indexed) (indices : List ℕ) (st st' : Collected)
      → IsSound st
      → inspect_all V limits f ssa indexed indices st ≡ returned st'
      → IsSound st'
  unfolding inspect_all
  inspect_all-IsSound indexed [] st st' sound e = subst IsSound (returned-injective e) sound
  inspect_all-IsSound indexed (index ∷ rest) st st' sound e =
      let (next, seen, k) = bind-returned (inspect V limits f ssa indexed index st) _ e in
      let after = inspect-IsSound indexed index st next sound seen in
      elim (Bool-cases next.stopped) [
        | inl stopped ↦ subst IsSound (returned-injective (rw stopped at k)) after
        | inr going ↦ inspect_all-IsSound indexed rest next st' after (rw going at k)
      ]
