-- ===== src/DirectUnpack.antt =====
-- src/downloader/direct_unpack: the coordinator that extracts archives while the download runs
-- (coordinator.rs) and renames files by the metadata of PAR2 files (rename.rs). The files, the
-- extractors and the parsers of RAR names and of PAR2 files are outside: `Outside` is what they give
-- in one pass of the loop.
pub mod Waits
pub mod Keep
pub mod Ends
use usenet_dl.Base.{
  ℕ, zero, suc, Bool, true, false, ◌&&◌, ◌||◌, not, Option, none, some, List, [], ◌∷◌, ◌++◌, any,
  find, is_empty, length, ltb, ◌==◌, if◌then◌else◌,
}
use usenet_dl.Base.Int.{ℤ, pos}
use Prim.Native.String.{String}
use text.Mathlib.Text.{◌==◌ as str_eq, find?}
use usenet_dl.Types.{DownloadId, Event}
use usenet_dl.World.{
  DownloadFile, World, Env, M, Error, Result, ok, err, pure, handle, catch, emit_event, ◌>>=◌, ◌>>◌,
}
use usenet_dl.Db.Files.{
  get_download_files, get_newly_completed_files, mark_file_completed, rename_download_file,
  update_direct_unpack_state, update_direct_unpack_extracted_count,
}
use usenet_dl.Db.Passwords.{get_cached_password, set_correct_password}
use usenet_dl.Extraction.{collect}
use usenet_dl.PostProcessing.{keep_extracted}
use usenet_dl.Task.Batches.{is_par2_name}
use usenet_dl.Task.Finalize.{ignore}
use usenet_dl.Task.Run.{Ending, ended, still_runs}

-- `mod state`
abbrev pub active : ℤ
active = pos 1

abbrev pub completed : ℤ
completed = pos 2

abbrev pub cancelled : ℤ
cancelled = pos 3

-- `password_file` and `try_empty_password` are configured. `extract_archive` is given the passwords to
-- try, and gives the files and the password that opened the archive. `error_text` is the lowercased
-- text of an error.
pub record Outside : Type 0 where
  pub exists : String → Bool
  pub password_file : Option (List String)
  pub try_empty_password : Bool
  pub extract_archive : List String → String → Result (List String × String)
  pub error_text : Error → String
  pub is_first_rar_volume : String → Bool
  pub parse_par2_file_entries : String → Result (List (String × String))
  pub compute_16k_md5 : String → Option String
  pub rename_on_disk : String → String → Bool

-- The variables of the loop, with those of `DirectRenameState`.
pub record Coordinator : Type 0 where
  pub hash_to_name : List (String × String)
  pub metadata_loaded : Bool
  pub extracted_files : List String
  pub pending_first_volumes : List String
  pub processed_indices : List ℕ

abbrev pub start_state : Coordinator
start_state = record {
  hash_to_name = [];
  metadata_loaded = false;
  extracted_files = [];
  pending_first_volumes = [];
  processed_indices = [];
}

pub data ExtractAttempt : Type 0 where
  success volume_not_ready failed : ExtractAttempt

abbrev pub contains : String → String → Bool
contains text part = elim (find? text part) [ none ↦ false | some i ↦ true ]

unfoldable pub is_volume_not_ready_error : String → Bool
is_volume_not_ready_error lower =
    contains lower "cannot find volume"
    || (contains lower "next volume"
        || (contains lower "missing volume"
            || (contains lower "no such file" || contains lower "volume not found")))

-- `HashMap::get`, where the entry inserted last is the one that counts.
unfoldable pub real_name_of : String → List (String × String) → Option String
real_name_of hash entries = elim (find (λ e. str_eq e.0 hash) entries) [
  | none ↦ none
  | some (_, name) ↦ some name
]

module _ (env : Env) (id : DownloadId) where
  unfoldable pub set_db_state : ℤ → M (Unit {0})
  set_db_state state = ignore (update_direct_unpack_state env id state)

  unfoldable pub set_db_extracted_count : ℤ → M (Unit {0})
  set_db_extracted_count count = ignore (update_direct_unpack_extracted_count env id count)

  module _ (o : Outside) where
    unfoldable pub classify :
        String → Coordinator → Result (List String × String) → M (ExtractAttempt × Coordinator)
    classify filename c (ok (files, password)) = do
      ignore (set_correct_password env id password)
      keep_extracted files
      emit_event (Event.direct_unpack_extracted id filename files)
      pure (success, record c { extracted_files = c.extracted_files ++ files })
    classify filename c (err e) =
        pure (if is_volume_not_ready_error (o.error_text e) then volume_not_ready else failed, c)

    -- An error of the database counts as no password.
    unfoldable pub collect_passwords : M (List String)
    collect_passwords = do
      cached_pw ← catch (get_cached_password env id) pure (λ _. pure none)
      pure (collect cached_pw none none o.password_file o.try_empty_password)

    unfoldable pub try_extract : String → Coordinator → M (ExtractAttempt × Coordinator)
    try_extract filename c = if not (o.exists filename) then pure (failed, c) else (do
      emit_event (Event.direct_unpack_extracting id filename)
      passwords ← collect_passwords
      classify filename c (o.extract_archive passwords filename))

    -- `try_rename_file`, up to the look-up of the name.
    unfoldable pub new_name_of : Coordinator → String → Option String
    new_name_of c filename =
        if not c.metadata_loaded || (is_empty c.hash_to_name || not (o.exists filename))
        then none
        else elim (o.compute_16k_md5 filename) [
          | none ↦ none
          | some hash ↦ real_name_of hash c.hash_to_name
        ]

    unfoldable pub rename_to : ℕ → String → Option String → M (Unit {0})
    rename_to file_index filename none = pure tt
    rename_to file_index filename (some name) =
        if str_eq name filename || not (o.rename_on_disk filename name) then pure tt else (do
          ignore (rename_download_file env id file_index name)
          emit_event (Event.direct_renamed id filename name))

    unfoldable pub try_rename_file : Coordinator → ℕ → String → M (Unit {0})
    try_rename_file c file_index filename = rename_to file_index filename (new_name_of c filename)

    unfoldable pub rename_each : Coordinator → List DownloadFile → M (Unit {0})
    rename_each c [] = pure tt
    rename_each c (f ∷ files) = do
      (if any (λ i. i == f.file_index) c.processed_indices && not (is_par2_name f.filename)
          then try_rename_file c f.file_index f.filename
          else pure tt)
      rename_each c files

    unfoldable pub retroactive_rename : Coordinator → M (Unit {0})
    retroactive_rename c = catch (get_download_files env id) (rename_each c) (λ _. pure tt)

    -- `load_par2_metadata`
    unfoldable pub load_entries : Coordinator → Result (List (String × String)) → M Coordinator
    load_entries c (ok entries) =
        let loaded : Coordinator = record c {
          hash_to_name = entries ++ c.hash_to_name;
          metadata_loaded = true;
        } in
        (do retroactive_rename loaded; pure loaded)
    load_entries c (err e) = pure c

    unfoldable pub handle_par2 : Bool → DownloadFile → Coordinator → M Coordinator
    handle_par2 direct_rename f c =
        if direct_rename && is_par2_name f.filename
        then load_entries c (o.parse_par2_file_entries f.filename)
        else pure c

    unfoldable pub handle_rename : Bool → DownloadFile → Coordinator → M (Unit {0})
    handle_rename direct_rename f c =
        if direct_rename && (c.metadata_loaded && not (is_par2_name f.filename))
        then try_rename_file c f.file_index f.filename
        else pure tt

    unfoldable pub filename_in : ℕ → String → List DownloadFile → String
    filename_in file_index fallback files = elim (find (λ f. f.file_index == file_index) files) [
      | none ↦ fallback
      | some f ↦ f.filename
    ]

    unfoldable pub current_filename : ℕ → String → M String
    current_filename file_index fallback =
        catch (get_download_files env id) (λ files. pure (filename_in file_index fallback files))
          (λ _. pure fallback)

    -- A volume that is not ready is kept for later.
    unfoldable pub keep_if_not_ready : String → ExtractAttempt × Coordinator → Coordinator
    keep_if_not_ready filename (success, c) = c
    keep_if_not_ready filename (failed, c) = c
    keep_if_not_ready filename (volume_not_ready, c) = record c {
      pending_first_volumes = c.pending_first_volumes ++ filename ∷ [];
    }

    unfoldable pub extract_if_first : String → Coordinator → M Coordinator
    extract_if_first filename c =
        if o.is_first_rar_volume filename
        then (do attempt ← try_extract filename c; pure (keep_if_not_ready filename attempt))
        else pure c

    unfoldable pub process_new : Bool → DownloadFile → Coordinator → M Coordinator
    process_new direct_rename f c = do
      ignore (mark_file_completed env id f.file_index)
      emit_event (Event.file_completed id f.file_index f.filename)
      c' ←
          handle_par2 direct_rename f
            (record c { processed_indices = f.file_index ∷ c.processed_indices })
      handle_rename direct_rename f c'
      filename ← current_filename f.file_index f.filename
      extract_if_first filename c'

    unfoldable pub process_file : Bool → DownloadFile → Coordinator → M Coordinator
    process_file direct_rename f c =
        if any (λ i. i == f.file_index) c.processed_indices
        then pure c
        else process_new direct_rename f c

    unfoldable pub process_files : Bool → List DownloadFile → Coordinator → M Coordinator
    process_files direct_rename [] c = pure c
    process_files direct_rename (f ∷ files) c = do
      c' ← process_file direct_rename f c
      process_files direct_rename files c'

    -- The volumes that wait are tried again; `c` has none of them.
    unfoldable pub retry_volumes : List String → Coordinator → M Coordinator
    retry_volumes [] c = pure c
    retry_volumes (v ∷ volumes) c = do
      attempt ← try_extract v c
      retry_volumes volumes (keep_if_not_ready v attempt)

    unfoldable pub retry_pending : Coordinator → M Coordinator
    retry_pending c =
        retry_volumes c.pending_first_volumes (record c { pending_first_volumes = [] })

-- What one pass of the loop meets: the token, the counter of failed articles, the flag of the
-- download's end.
pub record Reading : Type 0 where
  pub is_cancelled : Bool
  pub failed_articles : ℕ
  pub download_complete : Bool
  pub outside : Outside

-- The loop goes on, or ends with the state.
pub data Next : Type 0 where
  go_on : (c : Coordinator) → Next
  finished : (state : ℤ) (c : Coordinator) → Next

module _ (env : Env) (id : DownloadId) (direct_rename : Bool) where
  unfoldable pub stop_cancelled : String → Coordinator → M Next
  stop_cancelled reason c = do
    set_db_state env id cancelled
    emit_event (Event.direct_unpack_cancelled id reason)
    pure (finished cancelled c)

  unfoldable pub stop_completed : Coordinator → M Next
  stop_completed c = do
    set_db_state env id completed
    set_db_extracted_count env id (pos (length c.extracted_files))
    emit_event (Event.direct_unpack_complete id)
    pure (finished completed c)

  unfoldable pub end_pass : Bool → Bool → Coordinator → M Next
  end_pass download_complete none_new c =
      if download_complete && (none_new && is_empty c.pending_first_volumes)
      then stop_completed c
      else pure (go_on c)

  unfoldable pub work : Reading → Coordinator → List DownloadFile → M Next
  work r c newly_completed = do
    processed ← process_files env id r.outside direct_rename newly_completed c
    retried ← retry_pending env id r.outside processed
    end_pass r.download_complete (is_empty newly_completed) retried

  unfoldable pub pass : Reading → Coordinator → M Next
  pass r c =
      if r.is_cancelled
      then stop_cancelled "Cancelled via cancellation token" c
      else (if ltb 0 r.failed_articles
          then stop_cancelled "Article failures detected" c
          else catch (get_newly_completed_files env id) (work r c) (λ _. pure (go_on c)))

  unfoldable pub pass_on : (Coordinator → M Next) → Next → M Next
  pass_on rest (finished state c) = pure (finished state c)
  pass_on rest (go_on c) = rest c

  -- The passes with these readings. `go_on` at the end says that the loop is still running.
  unfoldable pub passes : List Reading → Coordinator → M Next
  passes [] c = pure (go_on c)
  passes (r ∷ readings) c = do next ← pass r c; pass_on (passes readings) next

  -- `create_dir_all` of the directory for the extraction succeeds or not.
  unfoldable pub begin : Bool → List Reading → M Next
  begin dir_created readings = do
    emit_event (Event.direct_unpack_started id)
    (if dir_created
        then passes readings start_state
        else stop_cancelled "Failed to create extraction directory" start_state)

  unfoldable pub run : Bool → List Reading → M Next
  run dir_created readings =
      catch (update_direct_unpack_state env id active) (λ _. begin dir_created readings)
        (λ _. pure (finished cancelled start_state))

-- The coordinator as `run_download_task` awaits it.
abbrev pub ending : Next → Ending
ending (go_on c) = still_runs
ending (finished state c) = ended

unfoldable pub coordinate : Env → Bool → Bool → List Reading → DownloadId → M Ending
coordinate env direct_rename dir_created readings id = do
  next ← run env id direct_rename dir_created readings
  pure (ending next)
