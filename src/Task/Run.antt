-- ===== src/Task/Run.antt =====
-- src/downloader/download_task: the run of the task of one download, `run_download_task` of
-- orchestration.rs with `fetch_download_record` of batching.rs. The directory and the files are
-- created outside.
pub mod Retires
use usenet_dl.Base.{
  ℕ, Bool, true, false, ◌&&◌, Option, none, some, List, [], ◌∷◌, if◌then◌else◌, is_empty, any, ◌==◌,
}
use usenet_dl.Base.Int.{ℤ}
use Prim.Native.String.{String}
use usenet_dl.Types.{
  DownloadId, Event, PostProcess, downloading, paused, status_to_i32, post_process_from_i32,
}
use usenet_dl.World.{
  Download, Article, DownloadFile, World, Env, M, pure, catch, modify, emit_event, ◌>>=◌, ◌>>◌,
  post_processing,
}
use usenet_dl.Db.Downloads.{get_download, update_status, set_started}
use usenet_dl.Db.Files.{get_pending_articles, has_any_pending_articles, get_download_files}
use usenet_dl.Control.Reprocess.{spawn}
use usenet_dl.Task.{DownloadResults, Counters}
use usenet_dl.Task.Batches.{Config}
use usenet_dl.Task.Fetch.{Provider, Texts, download_articles}
use usenet_dl.Task.Finalize.{remove_from_active, ignore, mark_failed, finalize_download}
use usenet_dl.Task.Updater.{Input, batch_updater}

-- `create_dir_all` also succeeds where the directory exists.
unfoldable pub make_dir : DownloadId → M Unit
make_dir id = modify λ w. record w {
  temp_dirs = if any (λ d. d == id) w.temp_dirs then w.temp_dirs else id ∷ w.temp_dirs;
}

-- Whether a task has come to its end.
pub data Ending : Type 0 where
  ended still_runs : Ending

module _ (env : Env) where
  unfoldable pub give_up : {A : Type 0} → DownloadId → M (Option A)
  give_up id = do remove_from_active id; pure none

  -- Whatever status the download has, it becomes `downloading`.
  unfoldable pub begin_download : DownloadId → Download → M (Option (Download × List Article))
  begin_download id d =
      catch (update_status env id (status_to_i32 downloading))
        (λ _.
          catch (set_started env id)
            (λ _. do
              emit_event (Event.downloading id)
              catch (get_pending_articles env id)
                  (λ pending_articles. pure (some (d, pending_articles))) (λ _. give_up id))
            (λ _. give_up id))
        (λ _. give_up id)

  unfoldable pub begin_existing :
      DownloadId → Option Download → M (Option (Download × List Article))
  begin_existing id none = give_up id
  begin_existing id (some d) = begin_download id d

  unfoldable pub fetch_download_record : DownloadId → M (Option (Download × List Article))
  fetch_download_record id = catch (get_download env id) (begin_existing id) (λ _. give_up id)

  -- The download has no article to fetch now.
  unfoldable pub finish_empty : DownloadId → Bool → M Unit
  finish_empty id true = do
    ignore (update_status env id (status_to_i32 paused))
    remove_from_active id
  finish_empty id false = do
    emit_event (Event.download_complete id none none)
    remove_from_active id
    spawn (post_processing id)

  unfoldable pub run_empty : DownloadId → M Ending
  run_empty id = do
    catch (has_any_pending_articles env id) (finish_empty id) (λ _. remove_from_active id)
    pure ended

  unfoldable pub fail_task : DownloadId → String → M Ending
  fail_task id error = do mark_failed env id error; remove_from_active id; pure ended

  unfoldable pub or_fail : DownloadId → Option String → M Ending → M Ending
  or_fail id none m = m
  or_fail id (some error) m = fail_task id error

  abbrev pub unpacks : PostProcess → Bool
  unpacks PostProcess.none = false
  unpacks PostProcess.verify = false
  unpacks PostProcess.repair = false
  unpacks PostProcess.unpack = true
  unpacks PostProcess.unpack_and_cleanup = true

  -- What a task meets outside: the errors of creating the directory and the files, if any, and how
  -- the updates reach the updater. `turns` are those of the batches. `direct_unpack` is the run of
  -- the coordinator.
  module _ (config : Config) (texts : Texts) (provider : Provider)
      (create_dir : DownloadId → Option String) (create_files : List DownloadFile → Option String)
      (get_files_text : String) (inputs : List (ℕ × ℤ) → List Input) (turns : List ℕ)
      (exceeds : ℕ → ℕ → Bool) (failure_text : ℕ → ℕ → Option String → String)
      (direct_unpack : DownloadId → M Ending) where
    unfoldable pub direct_unpack_enabled : Download → Bool
    direct_unpack_enabled d = config.direct_unpack && unpacks (post_process_from_i32 d.post_process)

    -- The coordinator, which runs beside the download, is awaited before the end; that it failed is
    -- logged.
    unfoldable pub await_unpack : Bool → DownloadId → M Ending
    await_unpack true id = catch (direct_unpack id) pure (λ _. pure ended)
    await_unpack false id = pure ended

    unfoldable pub finish_downloads : DownloadId → DownloadResults → Ending → M Ending
    finish_downloads id results still_runs = pure still_runs
    finish_downloads id results ended = do
      finalize_download env exceeds failure_text id results
      pure ended

    -- A download that never yields waits for good.
    unfoldable pub run_fetch :
        DownloadId → Download → Option (DownloadResults × Counters) → M Ending
    run_fetch id d none = pure still_runs
    run_fetch id d (some (results, counters)) = do
      batch_updater env [] (inputs counters.updates)
      unpacked ← await_unpack (direct_unpack_enabled d) id
      finish_downloads id results unpacked

    unfoldable pub run_downloads : DownloadId → Download → List Article → M Ending
    run_downloads id d pending_articles =
        run_fetch id d (download_articles texts provider config turns pending_articles)

    unfoldable pub run_files : DownloadId → Download → List Article → List DownloadFile → M Ending
    run_files id d pending_articles files =
        or_fail id (if is_empty files then none else create_files files)
          (run_downloads id d pending_articles)

    unfoldable pub run_articles : DownloadId → Download → List Article → M Ending
    run_articles id d pending_articles = or_fail id (create_dir id) (do
      make_dir id
      catch (get_download_files env id) (run_files id d pending_articles)
          (λ _. fail_task id get_files_text))

    unfoldable pub run_fetched : DownloadId → Option (Download × List Article) → M Ending
    run_fetched id none = pure ended
    run_fetched id (some (d, pending_articles)) =
        if is_empty pending_articles then run_empty id else run_articles id d pending_articles

    unfoldable pub run_download_task : DownloadId → M Ending
    run_download_task id = do fetched ← fetch_download_record id; run_fetched id fetched
