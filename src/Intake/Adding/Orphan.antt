-- ===== src/Intake/Adding/Orphan.antt =====
-- A download whose row is stored and whose files are not.
use usenet_dl.Base.{ℕ, suc, ◌≡◌, refl, ap, ◌∙◌, true, false, Option, List, ◌∷◌, chunks}
use Prim.Native.String.{String}
use usenet_dl.Types.{DownloadId, queued}
use usenet_dl.Types.Codes.{status_from_i32-to_i32}
use usenet_dl.World.{World, Env, ok, err, query_failed}
use usenet_dl.Db.Downloads.{insert_download, new_row}
use usenet_dl.Db.Files.{
  NewDownloadFile, insert_file_statement, insert_file_chunks, insert_files_batch,
}
use usenet_dl.Control.Invariant.{QueueIsSound}
use usenet_dl.Intake.{Reader, Volume, Settings, DownloadOptions, Nzb, NzbFile, or_option}
use usenet_dl.Intake.Adding.{
  new_download, file_rows, create_download_record, insert_articles_and_password, check_nzb,
  store_nzb, add_nzb_content,
}
use usenet_dl.Intake.Adding.Sound.{IsNumbered, IsQueued, status_of-new, items_of-new, with_row}

insert_files_batch-fails :
    (env : Env) (r : NewDownloadFile) (rs : List NewDownloadFile) (w : World)
    → env.outage w.calls ≡ true
    → insert_files_batch env (r ∷ rs) w ≡ (err query_failed, record w { calls = suc w.calls })
unfolding insert_files_batch chunks insert_file_chunks insert_file_statement
insert_files_batch-fails env r rs w e = rw e

insert_articles_and_password-fails :
    (env : Env) (hashed : String → String) (nzb : Nzb) (f : NzbFile) (fs : List NzbFile)
    (id : DownloadId) (password : Option String) (w : World)
    → nzb.files ≡ f ∷ fs
    → env.outage w.calls ≡ true
    → insert_articles_and_password env hashed nzb id password w
      ≡ (err query_failed, record w { calls = suc w.calls })
unfolding insert_articles_and_password file_rows
insert_articles_and_password-fails env hashed nzb f fs id password w e o =
    let failed : insert_files_batch env (file_rows hashed id 0 nzb.files) w
        ≡ (err query_failed, record w { calls = suc w.calls }) =
      ap (λ files. insert_files_batch env (file_rows hashed id 0 files) w) e
      ∙ insert_files_batch-fails env _ _ w o in
    rw failed

-- Where the checks pass, the row of a download with files is inserted and the next statement fails,
-- `add_nzb_content` gives that error, and leaves a row that says queued and has no item in the queue.
pub add_nzb_content-orphan :
    (env : Env) (reader : Reader) (volume : Volume) (settings : Settings) (content : List ℕ)
    (name : String) (options : DownloadOptions) (nzb : Nzb) (f : NzbFile) (fs : List NzbFile)
    (w v : World)
    → check_nzb env reader volume settings content name w ≡ (ok nzb, v)
    → nzb.files ≡ f ∷ fs
    → QueueIsSound v
    → IsNumbered v
    → env.outage v.calls ≡ false
    → env.outage (suc v.calls) ≡ true
    → let (r, t) = add_nzb_content env reader volume settings content name options w in
      (r ≡ err query_failed) × IsQueued 0 (suc v.last_download_id) t
unfolding add_nzb_content store_nzb create_download_record insert_download
add_nzb_content-orphan env reader volume settings content name options nzb f fs w v passes e sound
      numbered a b =
    let row =
      new_row (suc v.last_download_id) (env.now v.calls)
        (new_download env reader volume settings content name nzb options) in
    rw passes (
      rw a (
        rw
          (insert_articles_and_password-fails env reader.hashed_name nzb f fs
            (suc v.last_download_id) (or_option options.password nzb.password) (with_row v row) e b)
          (
            refl,
            (
              status_of-new v row refl (status_from_i32-to_i32 queued) numbered,
              items_of-new v row refl (status_from_i32-to_i32 queued) numbered sound,
            ),
          )))
