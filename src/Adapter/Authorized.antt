-- ===== src/Adapter/Authorized.antt =====
-- src/BNAdapter.cpp, `CollectCandidates` and `PreviewFunction`: every accepted candidate is
-- justified, and the counts are right.
use mathlib.Core.Path.{subst}
use co_bra_for_binary_ninja.Prelude.{
  suc, ◌+◌, ◌≤◌, ◌≡◌, refl, arith, false, Bool-cases, inl, inr, List, [], ◌∷◌, map, length, All,
}
use co_bra_for_binary_ninja.Adapter.Types.{FunctionReport, PendingCandidate, AnalysisLimits}
use co_bra_for_binary_ninja.Adapter.Outcome.{returned}
use co_bra_for_binary_ninja.Adapter.Roots.{comes_before}
use co_bra_for_binary_ninja.Adapter.Select.{count_accepted}
use co_bra_for_binary_ninja.Adapter.Preserves.{bind-returned, returned-injective}
use co_bra_for_binary_ninja.Adapter.Index.{index_blocks}
use co_bra_for_binary_ninja.Adapter.Recovery.State.{Ssa}
use co_bra_for_binary_ninja.Adapter.Candidates.{
  NormalFunction, Services, insert_candidate, sort_candidates, sort_indices, Collected,
}
use co_bra_for_binary_ninja.Adapter.Collect.{inspect_all, collect_from, Candidates}
use co_bra_for_binary_ninja.Adapter.Collected.{ServiceLaws, IsAuthorized}
use co_bra_for_binary_ninja.Adapter.CollectLoop.{IsGood, inspect_all-IsSound}

-- Sorting keeps the candidates.
module _ (P : PendingCandidate → Type 0) where
  insert_candidate-All :
      (c : PendingCandidate) (ds : List PendingCandidate)
      → P c
      → All P ds
      → All P (insert_candidate c ds)
  unfolding insert_candidate
  insert_candidate-All c [] p h = (p, tt)
  insert_candidate-All c (d ∷ ds) p h = elim (Bool-cases (comes_before d c)) [
    | inl later ↦ rw later (h.0, insert_candidate-All c ds p h.1)
    | inr first ↦ rw first (p, h)
  ]

  sort_candidates-All : (cs : List PendingCandidate) → All P cs → All P (sort_candidates cs)
  unfolding sort_candidates
  sort_candidates-All [] h = tt
  sort_candidates-All (c ∷ cs) h =
      insert_candidate-All c (sort_candidates cs) h.0 (sort_candidates-All cs h.1)

insert_candidate-sizes :
    (c : PendingCandidate) (ds : List PendingCandidate)
    → (length (insert_candidate c ds) ≡ suc (length ds))
      × (count_accepted (insert_candidate c ds) ≡ count_accepted (c ∷ ds))
unfolding insert_candidate count_accepted
insert_candidate-sizes c [] = (refl, refl)
insert_candidate-sizes c (d ∷ ds) = ground (arith, insert_candidate-sizes c ds)

sort_candidates-sizes :
    (cs : List PendingCandidate)
    → (length (sort_candidates cs) ≡ length cs)
      × (count_accepted (sort_candidates cs) ≡ count_accepted cs)
unfolding sort_candidates count_accepted
sort_candidates-sizes [] = (refl, refl)
sort_candidates-sizes (c ∷ cs) =
    ground (arith, sort_candidates-sizes cs, insert_candidate-sizes c (sort_candidates cs))

pub All-map {ℓ κ} :
    {A : Type ℓ} {B : Type κ} (P : B → Type 0) (f : A → B) (xs : List A)
    → All (λ (x : A). P (f x)) xs
    → All P (map f xs)
All-map P f [] h = tt
All-map P f (x ∷ xs) h = (h.0, All-map P f xs h.1)

pub All-weaken {ℓ} :
    {A : Type ℓ} (P Q : A → Type 0) (xs : List A) → ((x : A) → P x → Q x) → All P xs → All Q xs
All-weaken P Q [] f h = tt
All-weaken P Q (x ∷ xs) f h = (f x h.0, All-weaken P Q xs f h.1)

module _ (V : Services) (limits : AnalysisLimits) (f : NormalFunction) (ssa : Ssa)
    (L : ServiceLaws V) (output : FunctionReport) where
  -- The result of the collection: sorted candidates and the report.
  pub record IsCollected (found : Candidates V) : Type 0 where
    pub good : All (IsGood V limits f ssa L output) found.0
    pub tally : found.1.accepted ≡ output.accepted + count_accepted found.0
    pub applied : found.1.applied ≡ output.applied
    pub candidates : found.1.candidates ≡ output.candidates
    pub within : length found.0 ≤ limits.max_candidate_roots

  pub collect_from-IsCollected :
      (found : Candidates V)
      → collect_from V limits f ssa output ≡ returned found
      → IsCollected found
  unfolding collect_from count_accepted
  collect_from-IsCollected found e =
      let indexed = index_blocks f.old.blocks (record { reachable = []; children = [] }) in
      let first : Collected = record {
        pending = [];
        output = output;
        inspected = 0;
        stopped = false;
      } in
      let (st, seen, k) =
        bind-returned (inspect_all V limits f ssa indexed (sort_indices indexed.reachable) first) _
          e in
      let sound =
        inspect_all-IsSound V limits f ssa L output indexed (sort_indices indexed.reachable) first
          st
          (record {
            good = tt;
            tally = omega arith;
            applied = refl;
            candidates = refl;
            room = omega arith;
            within = omega arith;
          })
          seen in
      let sizes = sort_candidates-sizes st.pending in
      subst IsCollected (returned-injective k) (record {
        good = sort_candidates-All (IsGood V limits f ssa L output) st.pending sound.good;
        tally = omega (arith, sound.tally, sizes.1);
        applied = sound.applied;
        candidates = sound.candidates;
        within = omega (arith, sound.within, sizes.0);
      })

  -- Every accepted candidate is justified, the report has counted the accepted ones, and there are
  -- no more candidates than roots that may be inspected.
  pub collected-IsAuthorized :
      (pending : List PendingCandidate) (report : FunctionReport)
      → collect_from V limits f ssa output ≡ returned (pending, report)
      → All (IsAuthorized V limits f ssa) pending
        × (report.accepted ≡ output.accepted + count_accepted pending)
        × (length pending ≤ limits.max_candidate_roots)
  collected-IsAuthorized pending report e =
      let c = collect_from-IsCollected (pending, report) e in
      (
        All-weaken (IsGood V limits f ssa L output) (IsAuthorized V limits f ssa) pending
            (λ x g. g.0) c.good,
        c.tally,
        c.within,
      )
