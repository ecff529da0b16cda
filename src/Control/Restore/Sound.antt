-- ===== src/Control/Restore/Sound.antt =====
-- The queue after `restore_queue`, also where statements fail.
use usenet_dl.Base.{
  ◌≡◌, refl, sym, ap, subst, ◌≢◌, inl, inr, Bool, true, false, ◌||◌, not, Option, some, List, [],
  ◌∷◌, ◌==◌, if◌then◌else◌, filter, All, arith, Bool-cases, Option-cases, is_empty, length, select,
}
use mathlib.Core.Option
use usenet_dl.Base.Int.{pos, eqb_ℤ}
use usenet_dl.Types.{DownloadId, Status, queued, paused, processing, status_from_i32, status_to_i32}
use usenet_dl.World.Hoare.{
  Outcome, Ensures, >>=-Ensures, execute-Ensures, query-Ensures, Outcome-always, Outcome-of,
}
use usenet_dl.World.{World, Env, Download, QueuedDownload, Result, ok, err, pure, and_then, query}
use usenet_dl.Db.Downloads.{
  row_id, update_row, get_download, update_status, get_incomplete_downloads, sort_by, by_priority,
}
use usenet_dl.Db.Downloads.Distinct.{
  IsFresh, IsDistinct, All-sort_by, IsDistinct-sort_by, All-filter, IsDistinct-filter, All-select,
}
use usenet_dl.Db.Files.{get_pending_articles, has_any_pending_articles}
use usenet_dl.Queue.{items_of, add_to_queue}
use usenet_dl.Control.{requeue, settle, resume_download}
use usenet_dl.Control.Invariant.{QueueIsSound, status_of, status_of-update, add_to_queue-Absent}
use usenet_dl.Control.Soundness.{resume_download-Sound}
use usenet_dl.Control.Restore.{resume_interrupted, restore_one, restore_each, restore_queue}

-- The status of `j`, and its items, are these.
abbrev Stays : DownloadId → Option Status → List QueuedDownload → World → Type 0
Stays j s items w = (status_of j w ≡ s) × (items_of j w.queue ≡ items)

-- What the operations on `id` leave of another download, `j`.
module _ (env : Env) (id j : DownloadId) (apart : (j == id) ≡ false) (s : Option Status)
    (items : List QueuedDownload) where
  abbrev Kept : World → Type 0
  Kept = Stays j s items

  update_status-Stays :
      (t : Status) → Ensures Kept (update_status env id (status_to_i32 t)) (λ _. Kept) Kept
  unfolding update_status update_row
  update_status-Stays t =
      execute-Ensures env _ Kept _ _ (λ w h. h)
        λ w (h, k). (ground (arith, apart, h, status_of-update j id t w), k)

  add_to_queue-Stays : Ensures Kept (add_to_queue env id) (λ _. Kept) Kept
  unfolding add_to_queue get_download query
  add_to_queue-Stays w (h, k) = elim (Bool-cases (env.outage w.calls)) [
    | inl e ↦ rw e (h, k)
    | inr e ↦ elim (Option-cases (select row_id id w.downloads)) [
      | inl none_e ↦ rw (e, none_e) (h, k)
      | inr (d, some_e) ↦ rw (e, some_e) (h, ground (arith, apart, k))
    ]
  ]

  requeue-Stays : Ensures Kept (requeue env id) (λ _. Kept) Kept
  unfolding requeue
  requeue-Stays =
      >>=-Ensures (λ _. Kept) (λ _. Kept) Kept Kept _ _ (update_status-Stays queued)
        (λ _. add_to_queue-Stays)

  settle-Stays : Ensures Kept (settle env id) (λ _. Kept) Kept
  unfolding settle has_any_pending_articles
  settle-Stays =
      >>=-Ensures (λ _. Kept) (λ _. Kept) Kept Kept _ _
        (query-Ensures env _ Kept (λ _. Kept) Kept (λ w h. h) (λ w h. h))
        (λ p. update_status-Stays (if p then paused else processing))

  go_on-Stays :
      (more : Bool) → Ensures Kept (if more then requeue env id else settle env id) (λ _. Kept) Kept
  go_on-Stays true = requeue-Stays
  go_on-Stays false = settle-Stays

  resume_download-Stays : Ensures Kept (resume_download env id) (λ _. Kept) Kept
  unfolding resume_download get_pending_articles
  resume_download-Stays =
      >>=-Ensures (λ _. Kept) (λ _. Kept) Kept Kept _ _
        (query-Ensures env _ Kept (λ _. Kept) Kept (λ w h. h) (λ w h. h))
        (λ p. go_on-Stays (not (is_empty p)))

  resume_interrupted-Stays : Ensures Kept (resume_interrupted env id) (λ _. Kept) Kept
  unfolding resume_interrupted get_download
  resume_interrupted-Stays =
      >>=-Ensures (λ _. Kept) (λ _. Kept) Kept Kept _ _ resume_download-Stays
        λ _.
          >>=-Ensures (λ _. Kept) (λ _. Kept) Kept Kept _ _
            (query-Ensures env _ Kept (λ _. Kept) Kept (λ w h. h) (λ w h. h)) (λ _ w h. h)

  restore_one-Stays : (t : Status) → Ensures Kept (restore_one env t id) (λ _. Kept) Kept
  unfolding restore_one
  restore_one-Stays Status.downloading = resume_interrupted-Stays
  restore_one-Stays Status.processing = resume_interrupted-Stays
  restore_one-Stays Status.queued =
      >>=-Ensures (λ _. Kept) (λ _. Kept) Kept Kept _ _ add_to_queue-Stays (λ _ w h. h)
  restore_one-Stays _ = λ w h. h

module _ (env : Env) where
  resume_interrupted-Sound :
      (id : DownloadId) (w : World)
      → status_of id w ≢ some queued
      → QueueIsSound w
      → QueueIsSound (resume_interrupted env id w).1
  unfolding resume_interrupted get_download
  resume_interrupted-Sound id w n h = Outcome-always QueueIsSound (resume_interrupted env id w) (
      >>=-Ensures (λ _. QueueIsSound) (λ _. QueueIsSound) QueueIsSound (λ u. u ≡ w) _ _
        (λ u e.
          subst (λ u. Outcome (λ _. QueueIsSound) QueueIsSound (resume_download env id u)) (sym e)
            (Outcome-of QueueIsSound (resume_download env id w)
              (resume_download-Sound env id w n h)))
        (λ _.
          >>=-Ensures (λ _. QueueIsSound) (λ _. QueueIsSound) QueueIsSound QueueIsSound _ _
            (query-Ensures env _ QueueIsSound (λ _. QueueIsSound) QueueIsSound (λ w h. h)
              (λ w h. h))
            (λ _ w h. h))
        w refl)

  then_pure-Sound :
      (r : Result Unit × World)
      → QueueIsSound r.1
      → QueueIsSound (and_then r.0 (λ _. pure {A = List DownloadId} []) r.1).1
  then_pure-Sound (ok a, w) h = h
  then_pure-Sound (err e, w) h = h

  restore_one-Sound :
      (t : Status) (id : DownloadId) (w : World)
      → Stays id (some t) [] w
      → QueueIsSound w
      → QueueIsSound (restore_one env t id w).1
  unfolding restore_one
  restore_one-Sound Status.downloading id w (s, k) h = resume_interrupted-Sound id w (λ q. cc) h
  restore_one-Sound Status.processing id w (s, k) h = resume_interrupted-Sound id w (λ q. cc) h
  restore_one-Sound Status.queued id w (s, k) h =
      then_pure-Sound (add_to_queue env id w)
        (add_to_queue-Absent env id w (h, ap length k) (inr s))
  restore_one-Sound _ id w s h = h

  -- The downloads that are still to be restored have their status and no item.
  abbrev Ready : List Download → World → Type 0
  Ready ds w = QueueIsSound w × All (λ d. Stays d.id (some (status_from_i32 d.status)) [] w) ds

  Outcome-Ready :
      {A : Type 0} (ds : List Download) (r : Result A × World)
      → Ready ds r.1
      → Outcome (λ _. Ready ds) QueueIsSound r
  Outcome-Ready ds (ok a, w) h = h
  Outcome-Ready ds (err e, w) h = h.0

  others-Stay :
      (t : Status) (id : DownloadId) (ds : List Download) (w : World)
      → IsFresh id ds
      → All (λ d. Stays d.id (some (status_from_i32 d.status)) [] w) ds
      → All (λ d. Stays d.id (some (status_from_i32 d.status)) [] (restore_one env t id w).1) ds
  others-Stay t id [] w f h = tt
  others-Stay t id (d ∷ ds) w (a, f) (k, h) = (
    Outcome-always (Stays d.id (some (status_from_i32 d.status)) []) (restore_one env t id w)
        (restore_one-Stays env id d.id a (some (status_from_i32 d.status)) [] t w k),
    others-Stay t id ds w f h,
  )

  restore_each-Sound :
      (ds : List Download)
      → IsDistinct ds
      → Ensures (Ready ds) (restore_each env ds) (λ _. QueueIsSound) QueueIsSound
  unfolding restore_each
  restore_each-Sound [] d = λ w (h, _). h
  restore_each-Sound (d ∷ ds) (f, distinct) =
      >>=-Ensures (λ _. Ready ds) (λ _. QueueIsSound) QueueIsSound (Ready (d ∷ ds)) _ _
        (λ w (h, (k, l)). Outcome-Ready ds (restore_one env (status_from_i32 d.status) d.id w) (
          restore_one-Sound (status_from_i32 d.status) d.id w k h,
          others-Stay (status_from_i32 d.status) d.id ds w f l,
        ))
        λ _.
          >>=-Ensures (λ _. QueueIsSound) (λ _. QueueIsSound) QueueIsSound (Ready ds) _ _
            (restore_each-Sound ds distinct) (λ _ w h. h)

  rows-Stay :
      (w : World) (ds : List Download)
      → w.queue ≡ []
      → All (λ d. select row_id d.id w.downloads ≡ some d) ds
      → All (λ d. Stays d.id (some (status_from_i32 d.status)) [] w) ds
  rows-Stay w [] e h = tt
  rows-Stay w (d ∷ ds) e (k, h) = (
    (ap (Option.map (λ r. status_from_i32 r.status)) k, ap (items_of d.id) e),
    rows-Stay w ds e h,
  )

  -- Started with an empty queue and distinct ids, `restore_queue` leaves a sound queue, whatever
  -- statements fail: at most one item for each download, and none unless its row says queued.
  pub restore_queue-QueueIsSound :
      (w : World) → w.queue ≡ [] → IsDistinct w.downloads → QueueIsSound (restore_queue env w).1
  unfolding restore_queue get_incomplete_downloads
  restore_queue-QueueIsSound w e distinct =
      let p = λ (d : Download).
        eqb_ℤ d.status (pos 0) || eqb_ℤ d.status (pos 1) || eqb_ℤ d.status (pos 3) in
      let sound : QueueIsSound w = λ j. ground (arith, e) in
      Outcome-always QueueIsSound (restore_queue env w) (
        >>=-Ensures (λ ds v. IsDistinct ds × Ready ds v) (λ _. QueueIsSound) QueueIsSound
          (λ u. u ≡ w) _ _
          (query-Ensures env _ _ _ _ (λ u i. subst QueueIsSound (sym i) sound)
            λ u i.
              subst
                (λ u.
                  IsDistinct (sort_by by_priority (filter p u.downloads))
                  × Ready (sort_by by_priority (filter p u.downloads)) u)
                (sym i)
                (
                  IsDistinct-sort_by by_priority (filter p w.downloads)
                      (IsDistinct-filter p w.downloads distinct),
                  (
                    sound,
                    All-sort_by (λ d. Stays d.id (some (status_from_i32 d.status)) [] w) by_priority
                        (filter p w.downloads)
                        (All-filter (λ d. Stays d.id (some (status_from_i32 d.status)) [] w) p
                          w.downloads
                          (rows-Stay w w.downloads e (All-select w.downloads distinct))),
                  ),
                ))
          (λ ds v (d, r). restore_each-Sound ds d v r) w refl)
