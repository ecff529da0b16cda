-- ===== src/Examples/Tasks.antt =====
-- The end of a download, and the retry of a batch.
use usenet_dl.Base.{ℕ, ◌*◌, ◌≡◌, refl, ltb, true, false, Option, some, List, [], ◌∷◌, Bool}
use usenet_dl.Base.Int.{pos}
use Prim.Native.String.{String}
use usenet_dl.Types.{status_from_i32, failed}
use usenet_dl.World.{Article}
use usenet_dl.World.Hoare.{Outcome}
use usenet_dl.Control.Invariant.{status_of}
use usenet_dl.Task.{
  DownloadResults, BatchResult, Attempt, Counters, undecodable, missing,
  retry_articles_individually, collect_results,
}
use usenet_dl.Task.Retrying.{no_counts, collect_results-retry}
use usenet_dl.Task.Finalize.{total, is_failure, finalize_download}
use usenet_dl.Task.Finalize.Frames.{too_many, IsRetired, IsRightlyStarted}
use usenet_dl.Task.Finalize.Outcome.{finalize_download-IsFinal}
use usenet_dl.Task.Finalize.Verdict.{events_for, finalize_download_lem}
use usenet_dl.Examples.Worlds.{calm, stormy, article, four}

-- More than half of the articles.
abbrev half : ℕ → ℕ → Bool
half failures all = ltb all (2 * failures)

abbrev text : ℕ → ℕ → Option String → String
text failures all first = "failed"

-- A download whose only batch was cancelled: no article succeeded.
abbrev cancelled : DownloadResults
cancelled = record {
  success_count = 0;
  failed_count = 2;
  first_error = some "Download cancelled";
  total_articles = 2;
  individually_failed = 0;
}

-- Download 1 is paused; its task, once cancelled, marks it as failed.
finalize_example :
    Outcome
      (λ _ v.
        (status_of 1 v ≡ some failed)
        × (v.events ≡ events_for 1 "failed" cancelled true true)
        × (v.spawned ≡ []))
      (λ _. ⊥)
      (finalize_download calm half text 1 cancelled four)
unfolding is_failure status_from_i32
finalize_example = finalize_download_lem half text calm 1 cancelled four refl refl

final_example :
    Outcome
      (λ _ v. IsRetired 3 1 four v × IsRightlyStarted 3 (too_many half 0 2) four v)
      (λ _. ⊥)
      (finalize_download stormy half text 3 cancelled four)
final_example = finalize_download-IsFinal half text stormy 3 1 cancelled four

abbrev two : List (Article × Bool × Attempt)
two = (article 1 1 (pos 0), false, missing) ∷ (article 2 1 (pos 0), false, undecodable "bad") ∷ []

abbrev retried : BatchResult × Counters
retried = retry_articles_individually (λ e. e) (λ a. "missing") "all failed" two no_counts

-- Two articles that fail are counted as four.
counted_twice_example : total (collect_results (retried.0 ∷ []) 2 retried.1) ≡ 4
counted_twice_example = collect_results-retry (λ e. e) (λ a. "missing") "all failed" two 2 refl
