-- ===== src/Control.antt =====
-- src/downloader/control.rs: pause, resume, cancel and the priority of a download. Each operation is
-- one uninterrupted run of the method; what the database does is up to `Env`.
pub mod Invariant
pub mod Soundness
pub mod Commands
pub mod Effects
pub mod Pause
pub mod Resume
pub mod Cancel
pub mod Reprioritise
pub mod Restore
pub mod Reprocess
pub mod Restart
pub mod Continue
use usenet_dl.Base.{
  ℕ, Bool, true, false, ◌&&◌, not, Option, none, some, List, [], ◌∷◌, ◌==◌, if◌then◌else◌, filter,
  find, any, is_empty,
}
use usenet_dl.Base.Int.{ℤ}
use Prim.Native.String.{String}
use usenet_dl.Types.{
  DownloadId, Status, Priority, Event, queued, downloading, paused, processing, status_from_i32,
  status_to_i32, priority_to_i32,
}
use usenet_dl.World.{
  Download, World, Env, M, Error, Result, ok, err, pure, throw, or_throw, modify, handle, catch,
  emit_event, ◌>>=◌, ◌>>◌, database_not_found, invalid_state, not_found, files_not_found,
}
use usenet_dl.Db.Downloads.{
  get_download, update_status, update_priority, delete_download, list_downloads,
  list_downloads_by_status, set_error,
}
use usenet_dl.Db.Files.{get_pending_articles, has_any_pending_articles}
use usenet_dl.Queue.{remove_from_queue, add_to_queue}

-- `active_downloads.get(&id)`
abbrev pub token_of : DownloadId → List (DownloadId × ℕ) → Option (DownloadId × ℕ)
token_of id active = find (λ e. e.0 == id) active

-- The task of a running download is told to stop, and forgotten.
unfoldable pub stop_task : DownloadId → M Unit
stop_task id = modify λ w. elim (token_of id w.active) [
  | none ↦ w
  | some (_, token) ↦ record w {
    cancelled = token ∷ w.cancelled;
    active = filter (λ e. not (e.0 == id)) w.active;
  }
]

-- `format!("{:?}", status)` and the operation's name make the message of this error.
abbrev pub refuse : DownloadId → String → Status → Error
refuse id operation status = invalid_state id operation status

-- The statuses that `pause_all` pauses.
abbrev pub is_pausable : Status → Bool
is_pausable queued = true
is_pausable downloading = true
is_pausable processing = true
is_pausable _ = false

module _ (env : Env) where
  -- The row, or the error "Download {id} not found".
  unfoldable pub get_existing : DownloadId → M Download
  get_existing id = do row ← get_download env id; or_throw row (database_not_found id)

  unfoldable pub pause_active : DownloadId → M Unit
  pause_active id = do
    stop_task id
    _ ← remove_from_queue id
    update_status env id (status_to_i32 paused)

  unfoldable pub pause_in : Status → DownloadId → M Unit
  pause_in Status.paused id = pure tt
  pause_in Status.complete id = throw (refuse id "pause" Status.complete)
  pause_in Status.failed id = throw (refuse id "pause" Status.failed)
  pause_in Status.queued id = pause_active id
  pause_in Status.downloading id = pause_active id
  pause_in Status.processing id = pause_active id

  unfoldable pub pause : DownloadId → M Unit
  pause id = do d ← get_existing id; pause_in (status_from_i32 d.status) id

  unfoldable pub requeue : DownloadId → M Unit
  requeue id = do update_status env id (status_to_i32 queued); add_to_queue env id

  unfoldable pub resume_in : Status → DownloadId → M Unit
  resume_in Status.paused id = requeue id
  resume_in Status.queued id = pure tt
  resume_in Status.downloading id = pure tt
  resume_in Status.processing id = pure tt
  resume_in Status.complete id = throw (refuse id "resume" Status.complete)
  resume_in Status.failed id = throw (refuse id "resume" Status.failed)

  unfoldable pub resume : DownloadId → M Unit
  resume id = do d ← get_existing id; resume_in (status_from_i32 d.status) id

  -- No article is left to fetch now: some are, in paused files, or none is.
  unfoldable pub settle : DownloadId → M Unit
  settle id = do
    any_pending ← has_any_pending_articles env id
    update_status env id (status_to_i32 (if any_pending then paused else processing))

  unfoldable pub resume_download : DownloadId → M Unit
  resume_download id = do
    pending_articles ← get_pending_articles env id
    if not (is_empty pending_articles) then requeue id else settle id

  -- A directory that cannot be removed is left, with a warning.
  unfoldable pub remove_temp_dir : DownloadId → M Unit
  remove_temp_dir id = modify λ w.
      if env.stuck_dir id
      then w
      else record w { temp_dirs = filter (λ d. not (d == id)) w.temp_dirs }

  unfoldable pub cancel_existing : DownloadId → M Unit
  cancel_existing id = do
    stop_task id
    _ ← remove_from_queue id
    remove_temp_dir id
    delete_download env id
    emit_event (Event.removed id)

  unfoldable pub cancel : DownloadId → M Unit
  cancel id = do _ ← get_existing id; cancel_existing id

  -- The reordering: removed and added again, which reads the new priority.
  unfoldable pub requeue_if_queued : Status → DownloadId → M Unit
  requeue_if_queued Status.queued id = do _ ← remove_from_queue id; add_to_queue env id
  requeue_if_queued _ id = pure tt

  unfoldable pub set_priority : DownloadId → Priority → M Unit
  set_priority id priority = do
    d ← get_existing id
    update_priority env id (priority_to_i32 priority)
    requeue_if_queued (status_from_i32 d.status) id

  -- The loop of `pause_all`: a download that cannot be paused is passed over.
  unfoldable pub pause_each : List Download → M Unit
  pause_each [] = pure tt
  pause_each (d ∷ ds) =
      catch (if is_pausable (status_from_i32 d.status) then pause d.id else pure tt)
        (λ _. pause_each ds) (λ _. pause_each ds)

  unfoldable pub pause_all : M Unit
  pause_all = do
    all_downloads ← list_downloads env
    pause_each all_downloads
    emit_event Event.queue_paused

  unfoldable pub resume_each : List Download → M Unit
  resume_each [] = pure tt
  resume_each (d ∷ ds) = catch (resume d.id) (λ _. resume_each ds) (λ _. resume_each ds)

  unfoldable pub resume_all : M Unit
  resume_all = do
    paused_downloads ← list_downloads_by_status env (status_to_i32 paused)
    resume_each paused_downloads
    emit_event Event.queue_resumed
