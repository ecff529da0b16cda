-- ===== src/Control/Continue.antt =====
-- What `resume_download` does, where the database answers.
use usenet_dl.Base.{
  suc, ◌≡◌, refl, Bool, true, false, ◌&&◌, some, List, [], ◌∷◌, if◌then◌else◌, filter, arith,
  is_empty, select, select-update,
}
use usenet_dl.Types.{DownloadId, Status, queued, paused, processing, priority_from_i32}
use usenet_dl.Types.Codes.{status_from_i32-to_i32}
use usenet_dl.World.{Article, World, Env, Download, Result, ok, query, execute}
use usenet_dl.Db.Downloads.{row_id, update_row, get_download, update_status, insert_by, sort_by}
use usenet_dl.Db.Articles.{by_segment}
use usenet_dl.Db.Files.{is_pending, is_file_active, get_pending_articles, has_any_pending_articles}
use usenet_dl.Queue.{add_to_queue}
use usenet_dl.Control.{requeue, settle, resume_download}
use usenet_dl.Control.Resume.{item_for}
use usenet_dl.Control.Invariant.{status_of, status_of-update, set_status}
use usenet_dl.Task.Finalize.Frames.{has_pending}

-- Articles to fetch, in files that are not paused.
abbrev pub work : DownloadId → World → List Article
work id w = filter (λ a. is_pending id a && is_file_active w.files a) w.articles

is_empty-insert_by :
    {A : Type 0} (le : A → A → Bool) (x : A) (xs : List A) → is_empty (insert_by le x xs) ≡ false
unfolding insert_by
is_empty-insert_by le x [] = refl
is_empty-insert_by le x (y ∷ xs) = ground arith

pub is_empty-sort_by :
    {A : Type 0} (le : A → A → Bool) (xs : List A) → is_empty (sort_by le xs) ≡ is_empty xs
unfolding sort_by
is_empty-sort_by le [] = refl
is_empty-sort_by le (x ∷ xs) = is_empty-insert_by le x (sort_by le xs)

-- The status that is set: with no article to fetch now, the download waits for its paused files, or
-- is done with fetching.
abbrev pub next_status : (is_idle pending : Bool) → Status
next_status false pending = queued
next_status true true = paused
next_status true false = processing

-- The outcome for the row `d`.
abbrev pub ContinueOutcome :
    DownloadId → World → Download → (is_idle : Bool) → Result (Unit {0}) × World → Type 0
ContinueOutcome id w d is_idle (r, w') =
    (r ≡ ok tt)
    × (status_of id w' ≡ some (next_status is_idle (has_pending id w)))
    × (w'.queue
        ≡ (if is_idle then w.queue else item_for id (priority_from_i32 d.priority) d ∷ w.queue))

pub status_of-marked :
    (id : DownloadId) (s : Status) (w : World) (d : Download)
    → select row_id id w.downloads ≡ some d
    → status_of id (update_row id (set_status s) w) ≡ some s
status_of-marked id s w d e = ground (arith, status_of-update id id s w, e)

module _ (env : Env) (id : DownloadId) (w : World) (d : Download) (a : env.outage w.calls ≡ false)
    (b : env.outage (suc w.calls) ≡ false) (c : env.outage (suc (suc w.calls)) ≡ false)
    (e : select row_id id w.downloads ≡ some d) where
  requeued : ContinueOutcome id w d false (requeue env id (record w { calls = suc w.calls }))
  unfolding requeue update_status add_to_queue get_download query execute update_row
  requeued =
      let upd = select-update row_id id id (set_status queued) w.downloads (λ r. refl) in
      (ground (arith, upd), ground (arith, upd, status_from_i32-to_i32 queued), ground (arith, upd))

  settled :
      (p : Bool)
      → has_pending id w ≡ p
      → ContinueOutcome id w d true (settle env id (record w { calls = suc w.calls }))
  unfolding settle update_status has_any_pending_articles query execute update_row
  settled true h = rw (b, h, c) (refl, status_of-marked id paused w d e, refl)
  settled false h = rw (b, h, c) (refl, status_of-marked id processing w d e, refl)

  continued :
      (idle : Bool)
      → is_empty (sort_by by_segment (work id w)) ≡ idle
      → ContinueOutcome id w d idle (resume_download env id w)
  unfolding resume_download get_pending_articles query
  continued true h = rw (a, h) (settled (has_pending id w) refl)
  continued false h = rw (a, h) requeued

-- Where the database answers, `resume_download` of a download with the row `d` succeeds, whatever
-- its status. With an article to fetch in a file that is not paused it marks the download as queued
-- and adds an item with the row's priority and age. Otherwise it leaves the queue and marks the
-- download as paused, if an article of a paused file is left, or else as processing.
pub resume_download_lem :
    (env : Env) (id : DownloadId) (w : World) (d : Download)
    → env.outage w.calls ≡ false
    → env.outage (suc w.calls) ≡ false
    → env.outage (suc (suc w.calls)) ≡ false
    → select row_id id w.downloads ≡ some d
    → ContinueOutcome id w d (is_empty (work id w)) (resume_download env id w)
resume_download_lem env id w d a b c e =
    continued env id w d a b c e (is_empty (work id w)) (is_empty-sort_by by_segment (work id w))
