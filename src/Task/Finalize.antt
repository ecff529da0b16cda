-- ===== src/Task/Finalize.antt =====
-- src/downloader/download_task/finalization.rs, with the methods of the task's context in context.rs
-- that it calls. Events are sent to a channel without receivers at worst; logging is left out.
pub mod Frames
pub mod Outcome
pub mod Verdict
use usenet_dl.Base.{
  ℕ, ◌+◌, Bool, true, false, ◌&&◌, ◌||◌, not, Option, none, some, List, [], ◌∷◌, ltb, ◌==◌,
  if◌then◌else◌, filter,
}
use Prim.Native.String.{String}
use usenet_dl.Types.{DownloadId, Event, paused, complete, failed, status_to_i32}
use usenet_dl.World.{
  World, Env, M, Result, Error, ok, err, pure, modify, handle, catch, emit_event, ◌>>=◌, ◌>>◌,
  post_processing,
}
use usenet_dl.Db.Downloads.{update_status, set_error, set_completed}
use usenet_dl.Db.Files.{has_any_pending_articles}
use usenet_dl.Control.Reprocess.{spawn}
use usenet_dl.Task.{DownloadResults}

unfoldable pub remove_from_active : DownloadId → M Unit
remove_from_active id = modify λ w. record w { active = filter (λ e. not (e.0 == id)) w.active }

-- `let _ = …` and `if let Err(e) = … { log }`
abbrev pub ignore : {A : Type 0} → M A → M Unit
ignore m = catch m (λ _. pure tt) (λ _. pure tt)

-- The counts of the results that decide.
abbrev pub total_failed : DownloadResults → ℕ
total_failed r = r.failed_count + r.individually_failed

abbrev pub total : DownloadResults → ℕ
total r = r.success_count + total_failed r

module _ (env : Env) where
  unfoldable pub mark_failed_with_stats :
      DownloadId → String → Option ℕ → Option ℕ → Option ℕ → M Unit
  mark_failed_with_stats id error articles_succeeded articles_failed articles_total = do
    ignore (update_status env id (status_to_i32 failed))
    ignore (set_error env id error)
    emit_event (Event.download_failed id error articles_succeeded articles_failed articles_total)

  unfoldable pub mark_failed : DownloadId → String → M Unit
  mark_failed id error = mark_failed_with_stats id error none none none

  -- `exceeds failed total`: the ratio of the two, as `f64`, is above `max_failure_ratio`. The text of
  -- the failure is made from the same counts and the first error.
  module _ (exceeds : ℕ → ℕ → Bool) (failure_text : ℕ → ℕ → Option String → String) where
    unfoldable pub is_failure : DownloadResults → Bool
    is_failure r =
        ltb 0 (total_failed r)
        && (r.success_count == 0 || (ltb 0 (total r) && exceeds (total_failed r) (total r)))

    unfoldable pub finish_failed : DownloadId → DownloadResults → M Unit
    finish_failed id r = do
      mark_failed_with_stats id (failure_text (total_failed r) (total r) r.first_error)
          (some r.success_count) (some (total_failed r)) (some r.total_articles)
      remove_from_active id

    -- After the status is set.
    unfoldable pub announce : DownloadId → DownloadResults → M Unit
    announce id r = do
      ignore (set_completed env id)
      emit_event (
          Event.download_complete id
            (if ltb 0 (total_failed r) then some (total_failed r) else none)
            (some r.total_articles))
      remove_from_active id
      spawn (post_processing id)

    unfoldable pub finish_complete : DownloadId → DownloadResults → M Unit
    finish_complete id r =
        catch (update_status env id (status_to_i32 complete)) (λ _. announce id r)
          (λ _. remove_from_active id)

    unfoldable pub finish_pending : DownloadId → DownloadResults → Bool → M Unit
    finish_pending id r true = do
      ignore (update_status env id (status_to_i32 paused))
      remove_from_active id
    finish_pending id r false = finish_complete id r

    unfoldable pub finish_in_bounds : DownloadId → DownloadResults → M Unit
    finish_in_bounds id r =
        catch (has_any_pending_articles env id) (finish_pending id r) (λ _. remove_from_active id)

    unfoldable pub finalize_download : DownloadId → DownloadResults → M Unit
    finalize_download id r = if is_failure r then finish_failed id r else finish_in_bounds id r
