-- ===== src/Adapter/Preview.antt =====
-- src/BNAdapter.cpp, `PreviewFunction`: a preview always ends with a report, and what it reports.
use co_bra_for_binary_ninja.Prelude.{
  ℕ, ◌+◌, ◌≤◌, ◌≡◌, refl, arith, false, if◌then◌else◌, List, [], ◌∷◌, map, length, Option, All,
}
use co_bra_for_binary_ninja.Adapter.Types.{
  CandidateReport, FunctionReport, PendingCandidate, AnalysisLimits,
}
use co_bra_for_binary_ninja.Adapter.Outcome.{returned}
use co_bra_for_binary_ninja.Adapter.Select.{count_accepted}
use co_bra_for_binary_ninja.Adapter.Transform.{move_reports}
use co_bra_for_binary_ninja.Adapter.Commit.{IsUnapplied}
use co_bra_for_binary_ninja.Adapter.Candidates.{NormalFunction, Services}
use co_bra_for_binary_ninja.Adapter.Collect.{preview_function, Candidates}
use co_bra_for_binary_ninja.Adapter.Collected.{ServiceLaws}
use co_bra_for_binary_ninja.Adapter.Fresh.{IsFresh, collect_candidates-IsFreshRun}
use co_bra_for_binary_ninja.Adapter.Authorized.{All-map}

-- The reports of accepted candidates.
abbrev pub accepted_reports : List CandidateReport → ℕ
accepted_reports [] = 0
accepted_reports (r ∷ rs) = if r.accepted then accepted_reports rs + 1 else accepted_reports rs

pub accepted_reports-map :
    (cs : List PendingCandidate) → accepted_reports (map (λ c. c.report) cs) ≡ count_accepted cs
unfolding count_accepted
accepted_reports-map [] = refl
accepted_reports-map (c ∷ cs) = ground (arith, accepted_reports-map cs)

pub length-map {ℓ κ} :
    {A : Type ℓ} {B : Type κ} (f : A → B) (xs : List A) → length (map f xs) ≡ length xs
length-map f [] = refl
length-map f (x ∷ xs) = omega (arith, length-map f xs)

module _ (V : Services) (L : ServiceLaws V) (limits : AnalysisLimits) where
  -- The report that a preview hands over.
  pub record IsPreview (report : FunctionReport) : Type 0 where
    pub applied : report.applied ≡ 0
    pub unapplied : All IsUnapplied report.candidates
    pub tally : report.accepted ≡ accepted_reports report.candidates
    pub within : length report.candidates ≤ limits.max_candidate_roots

  moved-IsPreview :
      (found : Candidates V) → IsFresh V L limits found → IsPreview (move_reports found.0 found.1)
  unfolding move_reports
  moved-IsPreview found c = record {
    applied = c.applied;
    unapplied = rw c.candidates (All-map IsUnapplied (λ x. x.report) found.0 c.unapplied);
    tally = rw c.candidates (omega (arith, c.tally, accepted_reports-map found.0));
    within = rw c.candidates (omega (arith, c.within, length-map (λ x. x.report) found.0));
  }

  -- Given the documented behaviour of Z3, CoBRA and its verifier, `PreviewFunction` always returns
  -- a report, whatever function it is given or none. The report marks nothing as applied, its
  -- number of accepted candidates is that of its accepted entries, and it has no more entries than
  -- roots that may be inspected.
  pub preview_function_reports :
      (f : Option NormalFunction)
      → (report : FunctionReport) × (preview_function V f limits ≡ returned report)
        × IsPreview report
  unfolding preview_function
  preview_function_reports f =
      let (found, ran, fresh) = collect_candidates-IsFreshRun V L limits false f in
      rw ran (_, refl, moved-IsPreview found fresh)
