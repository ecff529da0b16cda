-- ===== src/Control/Invariant.antt =====
-- The invariant of the queue (src/downloader/queue.rs), and lemmas on the statements that touch what
-- it speaks of.
use usenet_dl.Base.{
  ℕ, ◌≤◌, ◌≡◌, refl, ◌⊎◌, Option, none, some, List, [], ◌∷◌, ◌==◌, if◌then◌else◌, arith, length,
  Option-cases, inl, inr, select, select-update,
}
use mathlib.Core.Option
use usenet_dl.Types.{DownloadId, Status, queued, status_from_i32, status_to_i32}
use usenet_dl.Types.Codes.{status_from_i32-to_i32}
use usenet_dl.World.Hoare.{Ensures, >>=-Ensures, Outcome-always, Outcome-of, execute-Ensures}
use usenet_dl.World.{query, execute, Download, World, Env, QueuedDownload}
use usenet_dl.Db.Downloads.{row_id, update_row, get_download, update_status}
use usenet_dl.Queue.{items_of, without, add_to_queue}
use usenet_dl.Control.{requeue}

-- The status that a download's row has, if it has a row.
abbrev pub status_of : DownloadId → World → Option Status
status_of id w = Option.map (λ d. status_from_i32 d.status) (select row_id id w.downloads)

-- How many items a download may have in the queue.
abbrev pub room : Option Status → ℕ
room (some queued) = 1
room (some _) = 0
room none = 0

-- At most one item for each download, and none unless the download's row says that it is queued.
abbrev pub QueueIsSound : World → Type 0
QueueIsSound w = (id : DownloadId) → length (items_of id w.queue) ≤ room (status_of id w)

pub items_of-without :
    (j id : DownloadId) (queue : List QueuedDownload)
    → items_of j (without id queue) ≡ (if j == id then [] else items_of j queue)
items_of-without j id [] = ground arith
items_of-without j id (x ∷ queue) = ground (arith, items_of-without j id queue)

abbrev pub set_status : Status → Download → Download
set_status s d = record d { status = status_to_i32 s }

-- What `UPDATE … SET status` makes of the status of each download.
pub status_of-update :
    (j id : DownloadId) (s : Status) (w : World)
    → status_of j (update_row id (set_status s) w)
      ≡ (if j == id then Option.map (λ _. s) (status_of id w) else status_of j w)
unfolding update_row
status_of-update j id s w = ground (
  arith,
  select-update row_id j id (set_status s) w.downloads (λ d. refl),
  status_from_i32-to_i32 s,
)

-- What an update that keeps the row's status makes of it.
pub status_of-update_row :
    (j id : DownloadId) (f : Download → Download) (w : World)
    → ((d : Download) → (row_id (f d) ≡ row_id d) × ((f d).status ≡ d.status))
    → status_of j (update_row id f w) ≡ status_of j w
unfolding update_row
status_of-update_row j id f w h = elim (Option-cases (select row_id j w.downloads)) [
  | inl e ↦ ground (arith, e, select-update row_id j id f w.downloads (λ d. (h d).0))
  | inr (d, e) ↦ ground (arith, e, h d, select-update row_id j id f w.downloads (λ d. (h d).0))
]

-- Sound, and the download has no item.
abbrev pub Absent : DownloadId → World → Type 0
Absent id w = QueueIsSound w × (length (items_of id w.queue) ≡ 0)

module _ (env : Env) (id : DownloadId) where
  pub update_status-Absent :
      (s : Status)
      → Ensures
          (Absent id)
          (update_status env id (status_to_i32 s))
          (λ _ w. Absent id w × ((status_of id w ≡ none) ⊎ (status_of id w ≡ some s)))
          QueueIsSound
  unfolding update_status update_row
  update_status-Absent s =
      execute-Ensures env _ (Absent id) _ _ (λ w (h, a). h)
        λ w (h, a). (
          (λ j. ground (arith, h j, status_of-update j id s w), a),
          ground (arith, status_of-update id id s w),
        )

  -- A new item is sound where the download has none and its row says queued.
  pub add_to_queue-Absent :
      (w : World)
      → Absent id w
      → (status_of id w ≡ none) ⊎ (status_of id w ≡ some queued)
      → QueueIsSound (add_to_queue env id w).1
  unfolding add_to_queue get_download query
  add_to_queue-Absent w (h, a) s j = ground (arith, h j)

  pub requeue-Absent : (w : World) → Absent id w → QueueIsSound (requeue env id w).1
  unfolding requeue
  requeue-Absent w a = Outcome-always QueueIsSound (requeue env id w) (
      >>=-Ensures (λ _ v. Absent id v × ((status_of id v ≡ none) ⊎ (status_of id v ≡ some queued)))
        (λ _. QueueIsSound) QueueIsSound (Absent id) (update_status env id (status_to_i32 queued))
        (λ _. add_to_queue env id) (update_status-Absent queued)
        (λ _ v (b, s). Outcome-of QueueIsSound (add_to_queue env id v) (add_to_queue-Absent v b s))
        w a)

  pub update_status-Sound :
      (s : Status) (w : World)
      → Absent id w
      → QueueIsSound (update_status env id (status_to_i32 s) w).1
  unfolding update_status update_row execute
  update_status-Sound s w (h, a) j = ground (arith, h j, status_of-update j id s w)
