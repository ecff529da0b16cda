-- ===== src/Control/Reprocess.antt =====
-- src/downloader/control.rs: starting the post-processing of a download, or its extraction, again.
use usenet_dl.Base.{◌∷◌, ◌==◌, if◌then◌else◌, any}
use usenet_dl.Types.{DownloadId, Event, processing, status_to_i32}
use usenet_dl.World.{
  Env, M, Job, pure, throw, or_throw, modify, emit_event, ◌>>=◌, ◌>>◌, not_found, files_not_found,
  post_processing, re_extraction,
}
use usenet_dl.Db.Downloads.{get_download, update_status, set_error}

-- `download_path.exists()`
unfoldable pub require_files : DownloadId → M Unit
require_files id w =
    if any (λ d. d == id) w.temp_dirs then pure tt w else throw (files_not_found id) w

unfoldable pub spawn : Job → M Unit
spawn job = modify (λ w. record w { spawned = job ∷ w.spawned })

module _ (env : Env) where
  -- What `reprocess` and `reextract` do first, up to their event.
  unfoldable pub begin_processing : DownloadId → Event → Job → M Unit
  begin_processing id event job = do
    row ← get_download env id
    _ ← or_throw row (not_found id)
    require_files id
    update_status env id (status_to_i32 processing)
    set_error env id ""
    emit_event event
    spawn job

  unfoldable pub reprocess : DownloadId → M Unit
  reprocess id = begin_processing id (Event.verifying id) (post_processing id)

  unfoldable pub reextract : DownloadId → M Unit
  reextract id = begin_processing id (Event.extracting id "") (re_extraction id)
