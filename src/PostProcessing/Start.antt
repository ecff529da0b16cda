-- ===== src/PostProcessing/Start.antt =====
-- src/downloader/post_process.rs: the post-processing of a download with its row. The webhooks and
-- scripts that are triggered are left out: they run on their own and report nothing back.
pub mod Verdict
use usenet_dl.Base.{Bool, true, false, ◌&&◌, Option, none, some, if◌then◌else◌}
use usenet_dl.Base.Int.{ℤ, pos, eqb_ℤ, ltb_ℤ}
use Prim.Native.String.{String}
use usenet_dl.Types.{
  DownloadId, Event, PostProcess, Stage, processing, complete, failed, status_to_i32,
  post_process_from_i32,
}
use usenet_dl.World.{
  Download, World, Env, M, Error, Result, ok, err, pure, throw, or_throw, catch, emit_event, ◌>>=◌,
  ◌>>◌, not_found,
}
use usenet_dl.Db.Downloads.{get_download, update_status, set_error}
use usenet_dl.Db.Files.{get_direct_unpack_state, get_direct_unpack_extracted_count}
use usenet_dl.Task.Run.{unpacks}
use usenet_dl.PostProcessing.{Tools, start_post_processing, run_move_and_cleanup}

-- The states of `direct_unpack_state`.
abbrev pub not_started : ℤ
not_started = pos 0

abbrev pub completed : ℤ
completed = pos 2

module _ (env : Env) (tools : Tools) (download_path_of : DownloadId → String)
    (text_of : Error → String) where
  unfoldable pub handle_post_process_success : DownloadId → String → M Unit
  handle_post_process_success id final_path = do
    update_status env id (status_to_i32 complete)
    emit_event (Event.complete id final_path)

  -- The error is stored, sent and given back.
  unfoldable pub handle_post_process_failure : DownloadId → Error → M Unit
  handle_post_process_failure id e = do
    update_status env id (status_to_i32 failed)
    set_error env id (text_of e)
    emit_event (Event.failed id Stage.extract (text_of e) true)
    throw e

  -- `unwrap_or`
  unfoldable pub or_default : M ℤ → ℤ → M ℤ
  or_default m z = catch m (λ x. pure x) (λ _. pure z)

  abbrev pub is_unpacked : ℤ → ℤ → PostProcess → Bool
  is_unpacked state extracted_count post_process =
      eqb_ℤ state completed && (ltb_ℤ (pos 0) extracted_count && unpacks env post_process)

  unfoldable pub run_pipeline : DownloadId → Download → Bool → M String
  run_pipeline id d unpacked =
      if unpacked
      then run_move_and_cleanup tools id (download_path_of id) d.destination
      else start_post_processing tools id (download_path_of id)
          (post_process_from_i32 d.post_process) d.destination

  unfoldable pub post_process_row : DownloadId → Download → M Unit
  post_process_row id d = do
    state ← or_default (get_direct_unpack_state env id) not_started
    extracted_count ← or_default (get_direct_unpack_extracted_count env id) (pos 0)
    catch
        (run_pipeline id d
          (is_unpacked state extracted_count (post_process_from_i32 d.post_process)))
        (handle_post_process_success id) (handle_post_process_failure id)

  unfoldable pub start_download_post_processing : DownloadId → M Unit
  start_download_post_processing id = do
    update_status env id (status_to_i32 processing)
    row ← get_download env id
    d ← or_throw row (not_found id)
    post_process_row id d
