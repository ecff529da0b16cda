-- ===== src/Task/Retrying.antt =====
-- What the retry of a batch, one article at a time, counts and reports.
use usenet_dl.Base.{
  ℕ, ◌+◌, ◌*◌, ◌<◌, ◌≡◌, refl, sym, ap, ◌∙◌, subst, Bool, true, false, none, List, [], ◌∷◌, ◌++◌,
  map, if◌then◌else◌, arith, is_empty, length,
}
use mathlib.Core.List.{append-nil, append_assoc}
use Prim.Native.String.{String}
use usenet_dl.Base.Int.{ℤ}
use usenet_dl.World.{Article}
use usenet_dl.Db.Articles.{downloaded, failed}
use usenet_dl.Task.{
  BatchResult, ok, err, aggregate_from, aggregate_results, Attempt, decoded, undecodable, missing,
  Counters, Retry, retry_article, retry_loop, retry_articles_individually, collect_results,
}
use usenet_dl.Task.Finalize.{total}

-- The articles that are tried: those before the first cancellation.
abbrev pub tried : List (Article × Bool × Attempt) → List (Article × Attempt)
tried [] = []
tried ((a, true, attempt) ∷ batch) = []
tried ((a, false, attempt) ∷ batch) = (a, attempt) ∷ tried batch

abbrev pub is_decoded : Attempt → Bool
is_decoded (decoded size) = true
is_decoded (undecodable error) = false
is_decoded missing = false

-- The segments that come of the articles that are decoded.
abbrev pub segments_of : List (Article × Attempt) → List (ℕ × ℕ)
segments_of [] = []
segments_of ((a, decoded size) ∷ xs) = (a.segment_number, size) ∷ segments_of xs
segments_of ((a, undecodable error) ∷ xs) = segments_of xs
segments_of ((a, missing) ∷ xs) = segments_of xs

abbrev pub update_for : Article × Attempt → ℕ × ℤ
update_for (a, attempt) = (a.id, if is_decoded attempt then downloaded else failed)

-- Each article tried is counted once, as downloaded or as failed, and gets one status update.
abbrev pub IsCounted : List (Article × Attempt) → Counters → Counters → Type 0
IsCounted xs c c' =
    (c'.downloaded_articles ≡ c.downloaded_articles + length (segments_of xs))
    × (c'.downloaded_articles + c'.failed_articles
        ≡ c.downloaded_articles + c.failed_articles + length xs)
    × (c'.updates ≡ c.updates ++ map update_for xs)

-- What the batch reports: the segments, or one error that counts all of its articles.
abbrev pub ReportOf : List (ℕ × ℕ) → ℕ → BatchResult → Type 0
ReportOf xs size (ok segments) = (segments ≡ xs) × (0 < length xs)
ReportOf xs size (err error batch_size) = (xs ≡ []) × (batch_size ≡ size)

abbrev pub Reports : List (Article × Bool × Attempt) → BatchResult → Type 0
Reports batch = ReportOf (segments_of (tried batch)) (length batch)

abbrev pub no_counts : Counters
no_counts = record {
  downloaded_articles = 0;
  downloaded_bytes = 0;
  failed_articles = 0;
  updates = [];
  tracked = [];
}

module _ (undecodable_text : String → String) (missing_text : Article → String)
    (all_failed_text : String) where
  -- The loop adds the segments and the counts of the articles that it tries.
  retry_loop-IsCounted :
      (batch : List (Article × Bool × Attempt)) (s : Retry)
      → ((retry_loop undecodable_text missing_text all_failed_text batch s).successful_results
          ≡ s.successful_results ++ segments_of (tried batch))
        × IsCounted
            (tried batch)
            s.counters
            (retry_loop undecodable_text missing_text all_failed_text batch s).counters
  unfolding retry_loop retry_article
  retry_loop-IsCounted [] s = (sym (append-nil _), (omega arith, omega arith, sym (append-nil _)))
  retry_loop-IsCounted ((a, true, attempt) ∷ batch) s =
      (sym (append-nil _), (omega arith, omega arith, sym (append-nil _)))
  retry_loop-IsCounted ((a, false, decoded size) ∷ batch) s =
      let (r, (n, c, u)) =
        retry_loop-IsCounted batch
          (retry_article undecodable_text missing_text all_failed_text a (decoded size) s) in
      (
        r ∙ append_assoc s.successful_results _ _,
        (omega (arith, n), omega (arith, c), u ∙ append_assoc s.counters.updates _ _),
      )
  retry_loop-IsCounted ((a, false, undecodable error) ∷ batch) s =
      let (r, (n, c, u)) =
        retry_loop-IsCounted batch
          (retry_article undecodable_text missing_text all_failed_text a (undecodable error) s) in
      (r, (n, omega (arith, c), u ∙ append_assoc s.counters.updates _ _))
  retry_loop-IsCounted ((a, false, missing) ∷ batch) s =
      let (r, (n, c, u)) =
        retry_loop-IsCounted batch
          (retry_article undecodable_text missing_text all_failed_text a missing s) in
      (r, (n, omega (arith, c), u ∙ append_assoc s.counters.updates _ _))

  report :
      (segments : List (ℕ × ℕ)) (error : String) (batch : List (Article × Bool × Attempt))
      → segments ≡ segments_of (tried batch)
      → Reports batch (if is_empty segments then err error (length batch) else ok segments)
  report [] error batch h = (sym h, refl)
  report (x ∷ segments) error batch h = (h, subst (λ xs. 0 < length xs) h (omega arith))

  -- Each article tried before a cancellation is counted once and gets one status update. The batch
  -- reports the segments of those that were decoded, or, where none was, one error with its size.
  pub retry_articles_individually_lem :
      (batch : List (Article × Bool × Attempt)) (counters : Counters)
      → Reports batch
          (retry_articles_individually undecodable_text missing_text all_failed_text batch
            counters).0
        × IsCounted
            (tried batch)
            counters
            (retry_articles_individually undecodable_text missing_text all_failed_text batch
              counters).1
  unfolding retry_articles_individually
  retry_articles_individually_lem batch counters =
      let (r, c) =
        retry_loop-IsCounted batch
          (record { counters = counters; successful_results = []; first_error = none }) in
      (report _ _ batch r, c)

  -- The total for a result, where `size` articles were tried and `xs` came of them.
  total-report :
      (xs : List (ℕ × ℕ)) (size n : ℕ) (result : BatchResult) (c : Counters)
      → ReportOf xs size result
      → length xs + c.failed_articles ≡ size
      → total (collect_results (result ∷ []) n c) ≡ (if is_empty xs then 2 * size else size)
  unfolding aggregate_results aggregate_from
  total-report [] size n (ok segments) c (e, p) h = omega (arith, p)
  total-report (x ∷ xs) size n (ok segments) c (e, p) h = omega (arith, h, ap length e)
  total-report [] size n (err error batch_size) c (e, p) h = omega (arith, h, p)
  total-report (x ∷ xs) size n (err error batch_size) c (e, p) h = omega (arith, ap length e)

  -- Where a lone batch is tried to its end, a download of it counts as many articles as it has, or,
  -- where none was decoded, twice as many.
  pub collect_results-retry :
      (batch : List (Article × Bool × Attempt)) (n : ℕ)
      → length (tried batch) ≡ length batch
      → let (result, counters) =
          retry_articles_individually undecodable_text missing_text all_failed_text batch
            no_counts in
        total (collect_results (result ∷ []) n counters)
        ≡ (if is_empty (segments_of (tried batch)) then 2 * length batch else length batch)
  collect_results-retry batch n h =
      let (report, (d, c, _)) = retry_articles_individually_lem batch no_counts in
      let r =
        retry_articles_individually undecodable_text missing_text all_failed_text batch no_counts in
      total-report (segments_of (tried batch)) (length batch) n r.0 r.1 report
        (omega (arith, d, c, h))
