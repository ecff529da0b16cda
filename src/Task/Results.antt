-- ===== src/Task/Results.antt =====
-- The counts that the batches' results add up to.
use usenet_dl.Base.{ℕ, ◌+◌, ◌≡◌, Option, none, some, List, [], ◌∷◌, arith, length}
use Prim.Native.String.{String}
use usenet_dl.Task.{
  DownloadResults, BatchResult, ok, err, keep_first, aggregate_from, aggregate_results,
}

-- The number of articles that a result tells of as downloaded, and as failed.
abbrev pub succeeded : List BatchResult → ℕ
succeeded [] = 0
succeeded (ok segments ∷ results) = length segments + succeeded results
succeeded (err error batch_size ∷ results) = succeeded results

abbrev pub batch_failures : List BatchResult → ℕ
batch_failures [] = 0
batch_failures (ok segments ∷ results) = batch_failures results
batch_failures (err error batch_size ∷ results) = batch_size + batch_failures results

abbrev pub errors : List BatchResult → List String
errors [] = []
errors (ok segments ∷ results) = errors results
errors (err error batch_size ∷ results) = error ∷ errors results

abbrev pub head? : List String → Option String
head? [] = none
head? (x ∷ xs) = some x

-- The results `acc` with those of `results`.
abbrev pub IsSumOf : DownloadResults → List BatchResult → DownloadResults → Type 0
IsSumOf acc results r =
    (r.success_count ≡ acc.success_count + succeeded results)
    × (r.failed_count ≡ acc.failed_count + batch_failures results)
    × (r.first_error ≡ elim acc.first_error [ none ↦ head? (errors results) | some e ↦ some e ])
    × (r.individually_failed ≡ acc.individually_failed)

aggregate_from-IsSumOf :
    (acc : DownloadResults) (results : List BatchResult)
    → IsSumOf acc results (aggregate_from acc results)
unfolding aggregate_from
aggregate_from-IsSumOf acc [] = ground arith
aggregate_from-IsSumOf acc (ok segments ∷ results) = ground (
  arith,
  aggregate_from-IsSumOf (record acc { success_count = acc.success_count + length segments })
      results,
)
aggregate_from-IsSumOf acc (err error batch_size ∷ results) = ground (
  arith,
  aggregate_from-IsSumOf
      (record acc {
        failed_count = acc.failed_count + batch_size;
        first_error = keep_first acc.first_error error;
      })
      results,
)

-- `aggregate_results` counts the segments of the batches that succeeded and the articles of those
-- that failed, and keeps the first error in the order of the results.
pub aggregate_results_lem :
    (results : List BatchResult)
    → ((aggregate_results results).success_count ≡ succeeded results)
      × ((aggregate_results results).failed_count ≡ batch_failures results)
      × ((aggregate_results results).first_error ≡ head? (errors results))
unfolding aggregate_results
aggregate_results_lem results = ground (
  arith,
  aggregate_from-IsSumOf
      (record {
        success_count = 0;
        failed_count = 0;
        first_error = none;
        total_articles = 0;
        individually_failed = 0;
      })
      results,
)
