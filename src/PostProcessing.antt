-- ===== src/PostProcessing.antt =====
-- src/post_processing: the stages of a download's post-processing (mod.rs, verify.rs, repair.rs and
-- cleanup.rs), and src/downloader/post_process.rs, which runs them for a download. The parity tool,
-- the extractors and the file system are outside: `Tools` is what they give. A path is its text.
pub mod Quiet
pub mod Stages
pub mod Start
pub mod Reextract
use usenet_dl.Base.{
  ℕ, zero, suc, ◌-◌, Bool, true, false, ◌&&◌, ◌||◌, not, Option, none, some, List, [], ◌∷◌, ◌++◌,
  ltb, if◌then◌else◌, filter, map, is_empty,
}
use usenet_dl.Base.Int.{ℤ, pos, eqb_ℤ, ltb_ℤ}
use Prim.Native.String.{String, len, ◌++◌ as str_append}
use text.Mathlib.Text.{find?, is_lt}
use Prim.Native.String.{compare as compare_text}
use usenet_dl.Types.{
  DownloadId, Event, PostProcess, Stage, processing, complete, failed, status_to_i32,
  post_process_from_i32,
}
use usenet_dl.World.{
  Download, World, Env, M, Error, Result, ok, err, pure, throw, or_throw, handle, catch, emit_event,
  modify, ◌>>=◌, ◌>>◌, not_supported, not_found, verification_failed, repair_failed,
}
use usenet_dl.Db.Downloads.{get_download, update_status, set_error, sort_by}
use usenet_dl.Db.Files.{get_direct_unpack_state, get_direct_unpack_extracted_count}
use usenet_dl.Db.Passwords.{get_cached_password, set_correct_password}
use usenet_dl.Extraction.{collect}
use usenet_dl.Task.Batches.{is_par2_name}
use usenet_dl.Task.Finalize.{ignore}

-- `VerifyResult` and `RepairResult`, the fields that are read. `error` is the text of the failure,
-- which is the tool's or made of the names of the failed files.
pub record VerifyResult : Type 0 where
  pub is_complete : Bool
  pub damaged_blocks : ℕ
  pub recovery_blocks_available : ℕ
  pub repairable : Bool

pub record RepairResult : Type 0 where
  pub success : Bool
  pub error : String

-- What `extract_recursive` gives: its result, the files that it has written, also where it fails in
-- the end, and the passwords that opened the archive and those in it.
pub record Extracted : Type 0 where
  pub result : Result (List String)
  pub written : List String
  pub opened_by : List String

-- `db` is the database that the stages use, `password_file` the trimmed lines of the configured
-- file. `extract_recursive` is given the passwords to try, and `move_files` what the extractions
-- have written. `read_dir` gives the names in a directory, and which are files.
-- `detect_all_archives` gives the RAR, 7z and ZIP archives. `move_files` gives the final path.
-- `cleanup` logs its own failures.
pub record Tools : Type 0 where
  pub db : Env
  pub password_file : Option (List String)
  pub try_empty_password : Bool
  pub read_dir : String → Result (List (String × Bool))
  pub verify : String → Result VerifyResult
  pub repair : String → Result RepairResult
  pub detect_all_archives : String → Result (List String)
  pub create_dir_all : String → Result (Unit {0})
  pub extract_recursive : List String → String → String → Extracted
  pub is_dir : String → Bool
  pub move_files : List String → String → String → Result String
  pub unsupported_text : String → String

abbrev pub join : String → String → String
join path name = str_append path (str_append "/" name)

-- An extension is behind a dot that is not the first character.
abbrev pub is_par2_entry : String × Bool → Bool
is_par2_entry (name, is_file) = is_file && (ltb 5 (len name) && is_par2_name name)

abbrev pub is_vol : String → Bool
is_vol name = elim (find? name ".vol") [ none ↦ false | some i ↦ true ]

-- The base files before the volumes, each in the order of their names.
abbrev pub par2_before : String → String → Bool
par2_before a b =
    if is_vol a then is_vol b && is_lt (compare_text a b) else is_vol b || is_lt (compare_text a b)

unfoldable pub par2_files : String → List (String × Bool) → List String
par2_files path entries =
    map (join path) (sort_by par2_before (map (λ e. e.0) (filter is_par2_entry entries)))

-- `r?` for a result from outside.
unfoldable pub lift : {A : Type 0} → Result A → M A
lift r w = (r, w)

unfoldable pub read_state : M World
read_state w = (ok w, w)

-- The files that an extraction has written.
unfoldable pub keep_extracted : List String → M (Unit {0})
keep_extracted files = modify λ w. record w { extracted = w.extracted ++ files }

module _ (tools : Tools) where
  unfoldable pub find_par2_files : String → M (List String)
  find_par2_files path = do entries ← lift (tools.read_dir path); pure (par2_files path entries)

  unfoldable pub after_verify : DownloadId → Result VerifyResult → M Bool
  after_verify id (ok r) = do
    emit_event (Event.verify_complete id (not r.is_complete))
    (if not r.is_complete && not r.repairable
        then throw (
            verification_failed id r.damaged_blocks
              (r.damaged_blocks - r.recovery_blocks_available))
        else pure (not r.is_complete))
  after_verify id (err (not_supported message)) = do
    emit_event (Event.verify_complete id false)
    pure false
  after_verify id (err e) = throw e

  unfoldable pub verify_first : DownloadId → List String → M Bool
  verify_first id [] = do emit_event (Event.verify_complete id false); pure false
  verify_first id (par2_file ∷ others) = after_verify id (tools.verify par2_file)

  unfoldable pub run_verify_stage : DownloadId → String → M Bool
  run_verify_stage id download_path = do
    emit_event (Event.verifying id)
    files ← find_par2_files download_path
    verify_first id files

  unfoldable pub after_repair : DownloadId → Result RepairResult → M (Unit {0})
  after_repair id (ok r) = do
    emit_event (Event.repair_complete id r.success)
    (if not r.success then throw (repair_failed id r.error) else pure tt)
  after_repair id (err (not_supported message)) = emit_event (Event.repair_skipped id message)
  after_repair id (err e) = throw e

  unfoldable pub repair_verified : DownloadId → String → Result VerifyResult → M (Unit {0})
  repair_verified id par2_file (ok r) = do
    emit_event (Event.repairing id r.damaged_blocks r.recovery_blocks_available)
    after_repair id (tools.repair par2_file)
  repair_verified id par2_file (err (not_supported message)) =
      emit_event (Event.repair_skipped id (tools.unsupported_text message))
  repair_verified id par2_file (err e) = throw e

  unfoldable pub repair_first : DownloadId → List String → M (Unit {0})
  repair_first id [] = pure tt
  repair_first id (par2_file ∷ others) = repair_verified id par2_file (tools.verify par2_file)

  unfoldable pub run_repair_stage : DownloadId → String → M (Unit {0})
  run_repair_stage id download_path = do
    files ← find_par2_files download_path
    repair_first id files

  -- An error of the database counts as no password.
  unfoldable pub collect_extraction_passwords : DownloadId → M (List String)
  collect_extraction_passwords id = do
    cached_password ← catch (get_cached_password tools.db id) pure (λ _. pure none)
    pure (collect cached_password none none tools.password_file tools.try_empty_password)

  -- Each password that opens an archive is cached; an error of that is logged.
  unfoldable pub cache_passwords : DownloadId → List String → M (Unit {0})
  cache_passwords id [] = pure tt
  cache_passwords id (password ∷ passwords) = do
    ignore (set_correct_password tools.db id password)
    cache_passwords id passwords

  -- `extract_recursive` with what it writes.
  unfoldable pub extract_one : DownloadId → Extracted → M (List String)
  extract_one id e = do cache_passwords id e.opened_by; keep_extracted e.written; lift e.result

  -- An archive that cannot be extracted is logged, and the next one is tried.
  unfoldable pub extract_archives : DownloadId → String → List String → List String → M (Unit {0})
  extract_archives id extract_dest passwords [] = pure tt
  extract_archives id extract_dest passwords (archive ∷ archives) = do
    emit_event (Event.extracting id archive)
    catch (extract_one id (tools.extract_recursive passwords archive extract_dest))
        (λ _. extract_archives id extract_dest passwords archives)
        (λ _. extract_archives id extract_dest passwords archives)

  unfoldable pub extract_found : DownloadId → String → List String → M String
  extract_found id download_path archives =
      if is_empty archives
      then (do emit_event (Event.extract_complete id); pure download_path)
      else (do
        lift (tools.create_dir_all (join download_path "extracted"))
        passwords ← collect_extraction_passwords id
        extract_archives id (join download_path "extracted") passwords archives
        emit_event (Event.extract_complete id)
        pure (join download_path "extracted"))

  unfoldable pub run_extract_stage : DownloadId → String → M String
  run_extract_stage id download_path = do
    emit_event (Event.extracting id "")
    archives ← lift (tools.detect_all_archives download_path)
    extract_found id download_path archives

  unfoldable pub run_move_stage : DownloadId → String → String → M String
  run_move_stage id source_path destination = do
    emit_event (Event.moving id destination)
    w ← read_state
    lift (tools.move_files w.extracted source_path destination)

  -- The removal of files, if it is enabled, has no result.
  unfoldable pub run_cleanup_stage : DownloadId → M (Unit {0})
  run_cleanup_stage id = emit_event (Event.cleaning id)

  unfoldable pub verify_and_repair : DownloadId → String → M (Unit {0})
  verify_and_repair id download_path = do
    damaged ← run_verify_stage id download_path
    (if damaged then run_repair_stage id download_path else pure tt)

  unfoldable pub start_post_processing : DownloadId → String → PostProcess → String → M String
  start_post_processing id download_path PostProcess.none destination = pure download_path
  start_post_processing id download_path PostProcess.verify destination = do
    _ ← run_verify_stage id download_path
    pure download_path
  start_post_processing id download_path PostProcess.repair destination = do
    verify_and_repair id download_path
    pure download_path
  start_post_processing id download_path PostProcess.unpack destination = do
    verify_and_repair id download_path
    run_extract_stage id download_path
  start_post_processing id download_path PostProcess.unpack_and_cleanup destination = do
    verify_and_repair id download_path
    extracted_path ← run_extract_stage id download_path
    final_path ← run_move_stage id extracted_path destination
    run_cleanup_stage id
    pure final_path

  unfoldable pub run_move_and_cleanup : DownloadId → String → String → M String
  run_move_and_cleanup id download_path destination = do
    let extracted_path = join download_path "extracted"
    final_path ←
        run_move_stage id (if tools.is_dir extracted_path then extracted_path else download_path)
          destination
    run_cleanup_stage id
    pure final_path

  -- `reextract`
  unfoldable pub reextract_files : DownloadId → String → String → M String
  reextract_files id download_path destination = do
    extracted_path ← run_extract_stage id download_path
    run_move_stage id extracted_path destination
