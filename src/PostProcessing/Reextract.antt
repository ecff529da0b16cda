-- ===== src/PostProcessing/Reextract.antt =====
-- src/downloader/control.rs: the task of a re-extraction, which `reextract` spawns. The webhooks and
-- scripts that it triggers are left out: they run on their own.
use usenet_dl.Base.{ℕ, ◌≡◌, true, false}
use Prim.Native.String.{String}
use usenet_dl.Types.{DownloadId, Event, Stage, Status, complete, failed, status_to_i32}
use usenet_dl.World.{Download, World, Env, M, Error, Result, ok, err, catch, emit_event, ◌>>◌}
use usenet_dl.Db.Downloads.{update_status, set_error}
use usenet_dl.Task.Finalize.{ignore}
use usenet_dl.PostProcessing.{Tools, reextract_files}
use usenet_dl.PostProcessing.Start.Verdict.{Known, Became}

module _ (env : Env) (tools : Tools) (download_path_of : DownloadId → String)
    (text_of : Error → String) where
  -- An error of a statement is logged.
  unfoldable pub handle_reextract_success : DownloadId → String → M (Unit {0})
  handle_reextract_success id final_path = do
    ignore (update_status env id (status_to_i32 complete))
    emit_event (Event.complete id final_path)

  unfoldable pub handle_reextract_failure : DownloadId → Error → M (Unit {0})
  handle_reextract_failure id error = do
    ignore (update_status env id (status_to_i32 failed))
    ignore (set_error env id (text_of error))
    emit_event (Event.failed id Stage.extract (text_of error) true)

  unfoldable pub run_reextract : DownloadId → Download → M (Unit {0})
  run_reextract id download =
      catch (reextract_files tools id (download_path_of id) download.destination)
        (handle_reextract_success id) (handle_reextract_failure id)

abbrev pub verdict : Result String → Status
verdict (ok final_path) = complete
verdict (err e) = failed

module _ (env : Env) (answers : (n : ℕ) → env.outage n ≡ false) (tools : Tools)
    (path_of : DownloadId → String) (text_of : Error → String) (id : DownloadId) (w : World) where
  abbrev K : World → Type 0
  K = Known env answers tools path_of text_of id w

  abbrev B : Status → World → Type 0
  B = Became env answers tools path_of text_of id w

  abbrev Never : World → Type 0
  Never v = ⊥
