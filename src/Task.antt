-- ===== src/Task.antt =====
-- src/downloader/download_task: what becomes of the articles of a batch, and of the download when all
-- batches are done. Fetching, decoding and writing an article are outside (NNTP, yEnc, files): an
-- `Attempt` is what they gave for one article. Error texts are parameters where they are formatted.
pub mod Batches
pub mod Fetch
pub mod Finalize
pub mod Results
pub mod Run
pub mod Updater
pub mod Retrying
use usenet_dl.Base.{
  ℕ, suc, ◌+◌, Bool, true, false, ◌&&◌, ◌||◌, Option, none, some, List, [], ◌∷◌, ◌++◌, ltb, ◌==◌,
  if◌then◌else◌, length, is_empty,
}
use usenet_dl.Base.Int.{ℤ}
use usenet_dl.World.{Article}
use usenet_dl.Db.Articles.{downloaded, failed}
use Prim.Native.String.{String}

-- `DownloadResults`
pub record DownloadResults : Type 0 where
  pub success_count : ℕ
  pub failed_count : ℕ
  pub first_error : Option String
  pub total_articles : ℕ
  pub individually_failed : ℕ

-- One entry of `BatchResultVec`: the segments with their sizes, or an error and the batch's size.
pub data BatchResult : Type 0 where
  ok : (segments : List (ℕ × ℕ)) → BatchResult
  err : (error : String) (batch_size : ℕ) → BatchResult

-- `x.get_or_insert(e)`: the first error stays.
abbrev pub keep_first : Option String → String → Option String
keep_first none e = some e
keep_first (some e') e = some e'

unfoldable pub aggregate_from : DownloadResults → List BatchResult → DownloadResults
aggregate_from acc [] = acc
aggregate_from acc (ok segments ∷ results) =
    aggregate_from (record acc { success_count = acc.success_count + length segments }) results
aggregate_from acc (err error batch_size ∷ results) =
    aggregate_from
      (record acc {
        failed_count = acc.failed_count + batch_size;
        first_error = keep_first acc.first_error error;
      })
      results

unfoldable pub aggregate_results : List BatchResult → DownloadResults
aggregate_results = aggregate_from (record {
  success_count = 0;
  failed_count = 0;
  first_error = none;
  total_articles = 0;
  individually_failed = 0;
})

-- What fetching and then decoding and writing one article gave. An empty response and a failed fetch
-- count as a missing article.
pub data Attempt : Type 0 where
  decoded : (size : ℕ) → Attempt
  undecodable : (error : String) → Attempt
  missing : Attempt

-- The counters that the batches share, the status updates sent to the database's updater, and the
-- file indices told to `FileCompletionTracker::article_completed`.
pub record Counters : Type 0 where
  pub downloaded_articles : ℕ
  pub downloaded_bytes : ℕ
  pub failed_articles : ℕ
  pub updates : List (ℕ × ℤ)
  pub tracked : List ℕ

-- The variables of the loop of `retry_articles_individually`.
pub record Retry : Type 0 where
  pub counters : Counters
  pub successful_results : List (ℕ × ℕ)
  pub first_error : Option String

abbrev pub count_downloaded : Article → ℕ → Counters → Counters
count_downloaded a size c = record c {
  downloaded_articles = suc c.downloaded_articles;
  downloaded_bytes = c.downloaded_bytes + size;
  updates = c.updates ++ (a.id, downloaded) ∷ [];
  tracked = c.tracked ++ a.file_index ∷ [];
}

abbrev pub count_failed : Article → Counters → Counters
count_failed a c = record c {
  failed_articles = suc c.failed_articles;
  updates = c.updates ++ (a.id, failed) ∷ [];
}

module _ (undecodable_text : String → String) (missing_text : Article → String)
    (all_failed_text : String) where
  unfoldable pub retry_article : Article → Attempt → Retry → Retry
  retry_article a (decoded size) s = record s {
    counters = count_downloaded a size s.counters;
    successful_results = s.successful_results ++ (a.segment_number, size) ∷ [];
  }
  retry_article a (undecodable error) s = record s {
    counters = count_failed a s.counters;
    first_error = keep_first s.first_error (undecodable_text error);
  }
  retry_article a missing s = record s {
    counters = count_failed a s.counters;
    first_error = keep_first s.first_error (missing_text a);
  }

  -- The loop. Each article comes with the reading of the cancellation token before it and with what
  -- its attempt would give; a cancellation breaks the loop.
  unfoldable pub retry_loop : List (Article × Bool × Attempt) → Retry → Retry
  retry_loop [] s = s
  retry_loop ((a, is_cancelled, attempt) ∷ rest) s = elim is_cancelled [
    | true ↦ s
    | false ↦ retry_loop rest (retry_article a attempt s)
  ]

  unfoldable pub retry_articles_individually :
      List (Article × Bool × Attempt) → Counters → BatchResult × Counters
  retry_articles_individually batch counters =
      let s =
        retry_loop batch
          (record { counters = counters; successful_results = []; first_error = none }) in
      (
        if is_empty s.successful_results
            then err (elim s.first_error [ none ↦ all_failed_text | some e ↦ e ]) (length batch)
            else ok s.successful_results,
        s.counters,
      )

-- The end of `download_articles`: the sum, with the counter of single articles.
abbrev pub collect_results : List BatchResult → ℕ → Counters → DownloadResults
collect_results results total_articles counters = record (aggregate_results results) {
  total_articles = total_articles;
  individually_failed = counters.failed_articles;
}
