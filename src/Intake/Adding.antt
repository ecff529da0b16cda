-- ===== src/Intake/Adding.antt =====
-- src/downloader/nzb.rs: the rows of a new download, and `add_nzb_content` as a whole. Webhooks run on
-- their own and are left out.
pub mod Kept
pub mod Checks
pub mod Sound
pub mod Added
pub mod Orphan
pub mod Known
pub mod Twice
use usenet_dl.Base.{
  ℕ, zero, suc, Bool, true, false, Option, none, some, List, [], ◌∷◌, ◌++◌, map, if◌then◌else◌,
  length, chunks,
}
use Prim.Native.String.{String, ◌++◌ as join_text}
use usenet_dl.Types.{
  DownloadId, Event, PostProcess, queued, status_to_i32, priority_to_i32, post_process_to_i32,
}
use usenet_dl.World.{
  NewDownload, World, Env, M, Result, ok, err, pure, throw, emit_event, ◌>>=◌, ◌>>◌, shutting_down,
  io,
}
use usenet_dl.Db.Downloads.{insert_download}
use usenet_dl.Db.Articles.{NewArticle, insert_articles_batch}
use usenet_dl.Db.Files.{NewDownloadFile, insert_files_batch}
use usenet_dl.Db.Passwords.{set_correct_password}
use usenet_dl.Queue.{add_to_queue}
use usenet_dl.Intake.Names.{parse_filename_from_subject}
use usenet_dl.Intake.{
  Segment, NzbFile, Nzb, Reader, Volume, Settings, DownloadOptions, unwrap_or, or_option,
  parse_and_validate_nzb, handle_duplicate_check, resolve_destination_and_post_process,
}

-- The rows of the files from the index `i` on, `hashed` naming those without a quoted name.
unfoldable pub file_rows : (String → String) → DownloadId → ℕ → List NzbFile → List NewDownloadFile
file_rows hashed id i [] = []
file_rows hashed id i (file ∷ files) =
    record {
      download_id = id;
      file_index = i;
      filename = parse_filename_from_subject file.subject (hashed file.subject);
      subject = some file.subject;
      total_segments = length file.segments;
    }
    ∷ file_rows hashed id (suc i) files

abbrev pub article_row : DownloadId → ℕ → Segment → NewArticle
article_row id i segment = record {
  download_id = id;
  message_id = segment.message_id;
  segment_number = segment.number;
  file_index = i;
  size_bytes = segment.bytes;
}

unfoldable pub article_rows : DownloadId → ℕ → List NzbFile → List NewArticle
article_rows id i [] = []
article_rows id i (file ∷ files) =
    map (article_row id i) file.segments ++ article_rows id (suc i) files

abbrev pub sqlite_batch_size : ℕ
sqlite_batch_size = 166

module _ (env : Env) where
  unfoldable pub insert_each_chunk : List (List NewArticle) → M (Unit {0})
  insert_each_chunk [] = pure tt
  insert_each_chunk (c ∷ cs) = do insert_articles_batch env c; insert_each_chunk cs

  unfoldable pub cache_password : DownloadId → Option String → M (Unit {0})
  cache_password id none = pure tt
  cache_password id (some password) = set_correct_password env id password

  unfoldable pub insert_articles_and_password :
      (String → String) → Nzb → DownloadId → Option String → M (Unit {0})
  insert_articles_and_password hashed nzb id password = do
    insert_files_batch env (file_rows hashed id 0 nzb.files)
    insert_each_chunk (chunks sqlite_batch_size (article_rows id 0 nzb.files))
    cache_password id password

  unfoldable pub finalize_nzb_addition : DownloadId → String → M (Unit {0})
  finalize_nzb_addition id name = do emit_event (Event.queued id name); add_to_queue env id

  module _ (reader : Reader) (volume : Volume) (settings : Settings) where
    -- The row of the new download.
    abbrev pub new_download : List ℕ → String → Nzb → DownloadOptions → NewDownload
    new_download content name nzb options =
        let (destination, post_process) =
          resolve_destination_and_post_process reader volume settings options in
        record {
          name = name;
          nzb_path = join_text "memory:" name;
          nzb_meta_name = nzb.title;
          nzb_hash = some (reader.sha256 content);
          job_name = some (unwrap_or nzb.title name);
          category = options.category;
          destination = destination;
          post_process = post_process_to_i32 post_process;
          priority = priority_to_i32 options.priority;
          status = status_to_i32 queued;
          size_bytes = reader.total_bytes nzb;
        }

    unfoldable pub create_download_record : List ℕ → String → Nzb → DownloadOptions → M DownloadId
    create_download_record content name nzb options =
        insert_download env (new_download content name nzb options)

    unfoldable pub check_accepting : M (Unit {0})
    check_accepting w = if w.accepting_new then (ok tt, w) else (err shutting_down, w)

    -- What comes before the first row.
    unfoldable pub check_nzb : List ℕ → String → M Nzb
    check_nzb content name = do
      check_accepting
      nzb ← parse_and_validate_nzb reader volume settings content
      handle_duplicate_check reader volume settings env content name
      pure nzb

    -- The rows, the events and the item in the queue.
    unfoldable pub store_nzb : List ℕ → String → Nzb → DownloadOptions → M DownloadId
    store_nzb content name nzb options = do
      download_id ← create_download_record content name nzb options
      insert_articles_and_password reader.hashed_name nzb download_id
          (or_option options.password nzb.password)
      finalize_nzb_addition download_id name
      pure download_id

    unfoldable pub add_nzb_content : List ℕ → String → DownloadOptions → M DownloadId
    add_nzb_content content name options = do
      nzb ← check_nzb content name
      store_nzb content name nzb options

    -- `file_content` is what reading the file gives, and `stem` the file's name as text.
    unfoldable pub add_nzb : Option (List ℕ) → Option String → DownloadOptions → M DownloadId
    add_nzb none stem options = throw (io "Failed to read NZB file")
    add_nzb (some file_content) stem options =
        add_nzb_content file_content (unwrap_or stem "unknown") options
