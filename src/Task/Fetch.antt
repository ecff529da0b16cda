-- ===== src/Task/Fetch.antt =====
-- src/downloader/download_task: fetching a batch of articles (`fetch_article_batch` of
-- batch_processor.rs), all the batches (`download_articles` of batching.rs), and the notifications
-- of complete files (`FileCompletionTracker` of context.rs). The responses of the servers, decoding
-- and writing are outside.
pub mod Sums
pub mod Turns
use usenet_dl.Base.{
  ℕ, zero, suc, ◌+◌, ◌-◌, Bool, true, false, Option, none, some, List, [], ◌∷◌, ◌++◌, map, ◌==◌,
  if◌then◌else◌, length, flatten, ◌%◌,
}
use usenet_dl.Base.Int.{ℤ}
use Prim.Native.String.{String}
use usenet_dl.World.{Article}
use usenet_dl.Db.Articles.{failed}
use usenet_dl.Task.{
  BatchResult, ok, err, Attempt, Counters, count_downloaded, retry_articles_individually,
  DownloadResults, collect_results,
}
use usenet_dl.Task.Batches.{Config, prepare_batches}

-- What the article provider gives for a batch: the data of the responses, a missing-article error,
-- or another one.
pub data Fetched : Type 0 where
  responses : (data_of : List String) → Fetched
  missing_article : Fetched
  fetch_failed : (error : String) → Fetched

-- `decode_and_write`: the number of decoded bytes, or an error.
pub data Decoded : Type 0 where
  decoded : (size : ℕ) → Decoded
  undecodable : (error : String) → Decoded

-- Everything from outside that the fetch of one batch meets: the reading of the cancellation token,
-- the answer of the provider, the decoder, and for the retry of single articles the reading of the
-- token before each of them and what becomes of it.
pub record Provider : Type 0 where
  pub is_cancelled : List Article → Bool
  pub fetch_articles : List Article → Fetched
  pub decode_and_write : Article → String → Decoded
  pub retried : Article → Bool × Attempt

-- The texts of the errors.
pub record Texts : Type 0 where
  pub fetch_failed : String → String
  pub undecodable : String → String
  pub missing : Article → String
  pub all_failed : String
  pub cancelled : String

-- Every article of the batch is sent as failed; the counter of failed articles stays.
unfoldable pub send_failed : List Article → Counters → Counters
send_failed [] c = c
send_failed (a ∷ articles) c =
    send_failed articles (record c { updates = c.updates ++ (a.id, failed) ∷ [] })

-- `article_batch.iter().zip(responses.iter())`: the longer list is cut.
unfoldable pub decode_all :
    (Article → String → Decoded) → List Article → List String → List (Article × Decoded)
decode_all decode [] data_of = []
decode_all decode (a ∷ articles) [] = []
decode_all decode (a ∷ articles) (d ∷ data_of) =
    (a, decode a d) ∷ decode_all decode articles data_of

-- What a batch sends while it is fetched, and last its result.
pub data Signal : Type 0 where
  update : (u : ℕ × ℤ) → Signal
  tracked : (index : ℕ) → Signal
  result : (r : BatchResult) → Signal

unfoldable pub signals_of : BatchResult × Counters → List Signal
signals_of (r, c) = map update c.updates ++ (map tracked c.tracked ++ result r ∷ [])

-- The batch at place `i` sends its next signal, or leaves when it has sent all.
unfoldable pub take_turn {ℓ} : {A : Type ℓ} → ℕ → List (List A) → List A × List (List A)
take_turn i [] = ([], [])
take_turn zero ([] ∷ rest) = ([], rest)
take_turn zero ((x ∷ xs) ∷ rest) = (x ∷ [], xs ∷ rest)
take_turn (suc i) (xs ∷ rest) = let (sent, rest') = take_turn i rest in (sent, xs ∷ rest')

-- The signals of all batches, where at most `concurrency` batches run at once: a turn goes to one
-- of the first that have not left, and after the turns the others follow one by one.
unfoldable pub overlap {ℓ} : {A : Type ℓ} → ℕ → List ℕ → List (List A) → List A
overlap concurrency [] running = flatten running
overlap concurrency (turn ∷ turns) running =
    let (sent, rest) = take_turn (turn % concurrency) running in
    sent ++ overlap concurrency turns rest

unfoldable pub updates_in : List Signal → List (ℕ × ℤ)
updates_in [] = []
updates_in (update u ∷ signals) = u ∷ updates_in signals
updates_in (tracked i ∷ signals) = updates_in signals
updates_in (result r ∷ signals) = updates_in signals

unfoldable pub tracked_in : List Signal → List ℕ
tracked_in [] = []
tracked_in (update u ∷ signals) = tracked_in signals
tracked_in (tracked i ∷ signals) = i ∷ tracked_in signals
tracked_in (result r ∷ signals) = tracked_in signals

unfoldable pub results_in : List Signal → List BatchResult
results_in [] = []
results_in (update u ∷ signals) = results_in signals
results_in (tracked i ∷ signals) = results_in signals
results_in (result r ∷ signals) = r ∷ results_in signals

-- The sum of a counter over the batches: `fetch_add`.
unfoldable pub sum_of : (Counters → ℕ) → List (BatchResult × Counters) → ℕ
sum_of count [] = 0
sum_of count ((r, c) ∷ flights) = count c + sum_of count flights

unfoldable pub gather : List (BatchResult × Counters) → List Signal → List BatchResult × Counters
gather flights signals = (
  results_in signals,
  record {
    downloaded_articles = sum_of (λ c. c.downloaded_articles) flights;
    downloaded_bytes = sum_of (λ c. c.downloaded_bytes) flights;
    failed_articles = sum_of (λ c. c.failed_articles) flights;
    updates = updates_in signals;
    tracked = tracked_in signals;
  },
)

module _ (texts : Texts) where
  -- The loop over the decoded articles; the first error ends it.
  unfoldable pub process_decoded :
      ℕ → List (Article × Decoded) → List (ℕ × ℕ) → Counters → BatchResult × Counters
  process_decoded batch_size [] segments c = (ok segments, c)
  process_decoded batch_size ((a, decoded size) ∷ rest) segments c =
      process_decoded batch_size rest (segments ++ (a.segment_number, size) ∷ [])
        (count_downloaded a size c)
  process_decoded batch_size ((a, undecodable error) ∷ rest) segments c =
      (err (texts.undecodable error) batch_size, c)

  module _ (provider : Provider) where
    unfoldable pub process_fetched : List Article → Fetched → Counters → BatchResult × Counters
    process_fetched batch (responses data_of) c =
        process_decoded (length batch) (decode_all provider.decode_and_write batch data_of) [] c
    process_fetched batch missing_article c =
        retry_articles_individually texts.undecodable texts.missing texts.all_failed
          (map (λ a. (a, (provider.retried a).0, (provider.retried a).1)) batch) c
    process_fetched batch (fetch_failed error) c =
        (err (texts.fetch_failed error) (length batch), send_failed batch c)

    -- The bytes asked of the speed limiter before the fetch.
    unfoldable pub total_batch_size : List Article → ℕ
    total_batch_size [] = 0
    total_batch_size (a ∷ articles) = a.size_bytes + total_batch_size articles

    unfoldable pub fetch_article_batch : List Article → Counters → BatchResult × Counters
    fetch_article_batch batch c =
        if provider.is_cancelled batch
        then (err texts.cancelled (length batch), c)
        else process_fetched batch (provider.fetch_articles batch) c

    -- The fetch of one batch, on its own counters: what it counts is added to the shared ones.
    unfoldable pub flight : List Article → BatchResult × Counters
    flight batch = fetch_article_batch batch (record {
      downloaded_articles = 0;
      downloaded_bytes = 0;
      failed_articles = 0;
      updates = [];
      tracked = [];
    })

    -- `buffer_unordered(concurrency)`, with the turns that the batches get; none where it never
    -- yields, as it starts no batch with a concurrency of 0.
    unfoldable pub download_all_batches :
        ℕ → List ℕ → List (List Article) → Option (List BatchResult × Counters)
    download_all_batches concurrency turns batches =
        if concurrency == 0
        then none
        else let flights = map flight batches in
          some (gather flights (overlap concurrency turns (map signals_of flights)))

    unfoldable pub collect_all :
        ℕ → Option (List BatchResult × Counters) → Option (DownloadResults × Counters)
    collect_all total none = none
    collect_all total (some (results, counters)) =
        some (collect_results results total counters, counters)

    -- PAR2 articles are not put first: no files are given to `prepare_batches`.
    unfoldable pub download_articles :
        Config → List ℕ → List Article → Option (DownloadResults × Counters)
    download_articles config turns pending_articles =
        let (concurrency, depth, batches) = prepare_batches config pending_articles none in
        collect_all (length pending_articles) (download_all_batches concurrency turns batches)

-- `FileCompletionTracker`: the articles that remain for each file index, and the indices sent to
-- the coordinator of the direct unpacking.
pub record FileCompletionTracker : Type 0 where
  pub remaining : List (ℕ × ℕ)
  pub completed : List ℕ

-- `*counts.entry(article.file_index).or_default() += 1`
unfoldable pub count_file : ℕ → List (ℕ × ℕ) → List (ℕ × ℕ)
count_file index [] = (index, 1) ∷ []
count_file index ((i, n) ∷ counts) =
    if i == index then (i, suc n) ∷ counts else (i, n) ∷ count_file index counts

unfoldable pub file_article_counts : List Article → List (ℕ × ℕ) → List (ℕ × ℕ)
file_article_counts [] counts = counts
file_article_counts (a ∷ articles) counts =
    file_article_counts articles (count_file a.file_index counts)

-- `fetch_sub(1)` on an `AtomicU32`, which wraps around, and the test of the value before.
unfoldable pub decrement : ℕ → List (ℕ × ℕ) → List (ℕ × ℕ) × Bool
decrement index [] = ([], false)
decrement index ((i, n) ∷ counts) =
    if i == index
    then ((i, if n == 0 then 4294967295 else n - 1) ∷ counts, n == 1)
    else let (rest, hit) = decrement index counts in ((i, n) ∷ rest, hit)

unfoldable pub article_completed : ℕ → FileCompletionTracker → FileCompletionTracker
article_completed index t =
    let (remaining, hit) = decrement index t.remaining in
    record {
      remaining = remaining;
      completed = if hit then t.completed ++ index ∷ [] else t.completed;
    }
