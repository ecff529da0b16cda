-- ===== src/Control/Restore.antt =====
-- src/downloader/queue.rs, `restore_queue`: the queue at the start of the program, from the database.
pub mod Sound
use usenet_dl.Base.{Option, none, some, List, [], ◌∷◌, ◌++◌}
use usenet_dl.Types.{
  DownloadId, Status, queued, downloading, paused, processing, complete, failed, status_from_i32,
}
use usenet_dl.World.{Download, World, Env, M, pure, ◌>>=◌, ◌>>◌}
use usenet_dl.Db.Downloads.{get_download, get_incomplete_downloads}
use usenet_dl.Queue.{add_to_queue}
use usenet_dl.Control.{resume_download}

-- The id, if the row read again says that it is processing: it then needs post-processing.
abbrev pub if_processing : DownloadId → Option Download → List DownloadId
if_processing id none = []
if_processing id (some d) = elim (status_from_i32 d.status) [ processing ↦ id ∷ [] | _ ↦ [] ]

module _ (env : Env) where
  unfoldable pub resume_interrupted : DownloadId → M (List DownloadId)
  resume_interrupted id = do
    resume_download env id
    updated ← get_download env id
    pure (if_processing id updated)

  -- One turn of the loop. The last three statuses are not among those that the query gives.
  unfoldable pub restore_one : Status → DownloadId → M (List DownloadId)
  restore_one Status.downloading id = resume_interrupted id
  restore_one Status.processing id = resume_interrupted id
  restore_one Status.queued id = do add_to_queue env id; pure []
  restore_one Status.paused id = pure []
  restore_one Status.complete id = pure []
  restore_one Status.failed id = pure []

  unfoldable pub restore_each : List Download → M (List DownloadId)
  restore_each [] = pure []
  restore_each (d ∷ ds) = do
    ids ← restore_one (status_from_i32 d.status) d.id
    rest ← restore_each ds
    pure (ids ++ rest)

  -- The downloads that need post-processing. An error ends the restoration.
  unfoldable pub restore_queue : M (List DownloadId)
  restore_queue = do
    incomplete_downloads ← get_incomplete_downloads env
    restore_each incomplete_downloads
