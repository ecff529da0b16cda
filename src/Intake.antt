-- ===== src/Intake.antt =====
-- src/downloader/nzb.rs: a new download, from the bytes of an NZB to its item in the queue. What the
-- parser of NZB files, the hash functions and the file system give is in `Reader` and `Volume`.
pub mod Names
pub mod Adding
use usenet_dl.Base.{
  ℕ, suc, ◌+◌, ◌%◌, ◌^◌, Bool, true, false, Option, none, some, List, [], ◌∷◌, ◌++◌, map, ltb,
  if◌then◌else◌, find, length, chunks,
}
use Prim.Native.String.{String, ◌++◌ as join_text}
use text.Mathlib.Text.{◌==◌}
use usenet_dl.Types.{
  DownloadId, Priority, PostProcess, Event, DuplicateMethod, nzb_hash, nzb_name, job_name, queued,
  status_to_i32, priority_to_i32, post_process_to_i32,
}
use usenet_dl.World.{
  Download, NewDownload, Env, M, Error, Result, ok, err, pure, throw, catch, emit_event, ◌>>=◌,
  ◌>>◌, shutting_down, invalid_nzb, insufficient_space, disk_space_check_failed, duplicate, io,
}
use usenet_dl.Db.Downloads.{insert_download}
use usenet_dl.Db.Articles.{NewArticle, insert_articles_batch}
use usenet_dl.Db.Files.{NewDownloadFile, insert_files_batch}
use usenet_dl.Db.Passwords.{set_correct_password}
use usenet_dl.Db.Duplicates.{find_by_nzb_hash, find_by_name, find_by_job_name}
use usenet_dl.Queue.{add_to_queue}
use usenet_dl.Intake.Names.{parse_filename_from_subject, extract_job_name}

-- `nntp_rs::Nzb`: what the code reads of it.
pub record Segment : Type 0 where
  pub message_id : String
  pub number : ℕ
  pub bytes : ℕ

pub record NzbFile : Type 0 where
  pub subject : String
  pub segments : List Segment

pub record Nzb : Type 0 where
  pub title : Option String
  pub password : Option String
  pub files : List NzbFile

-- `String::from_utf8`, the functions of `nntp_rs` (sizes are below 2^63), SHA-256 as text, and
-- `file_` with the hash of a subject.
pub record Reader : Type 0 where
  pub from_utf8 : List ℕ → Option String
  pub parse_nzb : String → Option Nzb
  pub validate : Nzb → Bool
  pub total_bytes : Nzb → ℕ
  pub sha256 : List ℕ → String
  pub hashed_name : String → String

pub record Volume : Type 0 where
  pub exists : String → Bool
  pub parent : String → Option String
  pub get_available_space : String → Option ℕ

-- src/config.rs
pub data DuplicateAction : Type 0 where
  block warn allow : DuplicateAction

pub record CategoryConfig : Type 0 where
  pub destination : String
  pub post_process : Option PostProcess

-- The settings that are read here. `scaled` is the product of a size and `size_multiplier`, a float.
pub record Settings : Type 0 where
  pub duplicate_enabled : Bool
  pub duplicate_action : DuplicateAction
  pub duplicate_methods : List DuplicateMethod
  pub disk_space_enabled : Bool
  pub scaled : ℕ → ℕ
  pub min_free_space : ℕ
  pub download_dir : String
  pub default_post_process : PostProcess
  pub categories : List (String × CategoryConfig)

-- src/types.rs
pub record DownloadOptions : Type 0 where
  pub category : Option String
  pub destination : Option String
  pub post_process : Option PostProcess
  pub priority : Priority
  pub password : Option String

pub record DuplicateInfo : Type 0 where
  pub method : DuplicateMethod
  pub existing_id : DownloadId
  pub existing_name : String

abbrev pub unwrap_or : {A : Type 0} → Option A → A → A
unwrap_or none a = a
unwrap_or (some a) b = a

-- `Option::or`
abbrev pub or_option : {A : Type 0} → Option A → Option A → Option A
or_option none b = b
or_option (some a) b = some a

module _ (reader : Reader) (volume : Volume) (settings : Settings) where
  -- `u64` sums wrap.
  unfoldable pub required_with_buffer : ℕ → ℕ
  required_with_buffer size_bytes = (settings.scaled size_bytes + settings.min_free_space) % 2 ^ 64

  unfoldable pub compare_space : ℕ → Option ℕ → M (Unit {0})
  compare_space required none = throw disk_space_check_failed
  compare_space required (some available) =
      if ltb available required then throw (insufficient_space required available) else pure tt

  unfoldable pub check_path : Option String
  check_path =
      if volume.exists settings.download_dir
      then some settings.download_dir
      else volume.parent settings.download_dir

  unfoldable pub check_space_at : ℕ → Option String → M (Unit {0})
  check_space_at required none = throw disk_space_check_failed
  check_space_at required (some path) = compare_space required (volume.get_available_space path)

  unfoldable pub check_disk_space : ℕ → M (Unit {0})
  check_disk_space size_bytes =
      if settings.disk_space_enabled
      then check_space_at (required_with_buffer size_bytes) check_path
      else pure tt

  -- The parsed NZB, if its text is one.
  unfoldable pub parse_text : Option String → Result Nzb
  parse_text none = err (invalid_nzb "NZB content is not valid UTF-8")
  parse_text (some nzb_string) = elim (reader.parse_nzb nzb_string) [
    | none ↦ err (invalid_nzb "Failed to parse NZB")
    | some nzb ↦ if reader.validate nzb then ok nzb else err (invalid_nzb "NZB validation failed")
  ]

  unfoldable pub parse_and_validate_nzb : List ℕ → M Nzb
  parse_and_validate_nzb content = do
    nzb ← λ w. (parse_text (reader.from_utf8 content), w)
    check_disk_space (reader.total_bytes nzb)
    pure nzb

  -- The category's value, if the category is configured.
  unfoldable pub category_config : Option String → Option CategoryConfig
  category_config none = none
  category_config (some category) = elim (find (λ c. c.0 == category) settings.categories) [
    | none ↦ none
    | some c ↦ some (c.1)
  ]

  unfoldable pub resolve_in : Option CategoryConfig → DownloadOptions → String × PostProcess
  resolve_in none options = (
    unwrap_or options.destination settings.download_dir,
    unwrap_or options.post_process settings.default_post_process,
  )
  resolve_in (some c) options = (
    unwrap_or options.destination c.destination,
    unwrap_or options.post_process (unwrap_or c.post_process settings.default_post_process),
  )

  unfoldable pub resolve_destination_and_post_process : DownloadOptions → String × PostProcess
  resolve_destination_and_post_process options =
      resolve_in (category_config options.category) options

  module _ (env : Env) where
    unfoldable pub find_existing : DuplicateMethod → List ℕ → String → M (Option Download)
    find_existing nzb_hash content name = find_by_nzb_hash env (reader.sha256 content)
    find_existing nzb_name content name = find_by_name env name
    find_existing job_name content name = find_by_job_name env (extract_job_name name)

    -- The methods in turn; a statement that fails finds nothing.
    unfoldable pub check_methods : List DuplicateMethod → List ℕ → String → M (Option DuplicateInfo)
    check_methods [] content name = pure none
    check_methods (m ∷ methods) content name =
        let rest = check_methods methods content name in
        catch (find_existing m content name)
          (λ found. elim found [
            | none ↦ rest
            | some d ↦
                pure (some (record { method = m; existing_id = d.id; existing_name = d.name }))
          ])
          (λ _. rest)

    unfoldable pub check_duplicate : List ℕ → String → M (Option DuplicateInfo)
    check_duplicate content name =
        if settings.duplicate_enabled
        then check_methods settings.duplicate_methods content name
        else pure none

    unfoldable pub act_on_duplicate : DuplicateAction → String → DuplicateInfo → M (Unit {0})
    act_on_duplicate block name i = throw (duplicate name i.method i.existing_id)
    act_on_duplicate warn name i = pure tt
    act_on_duplicate allow name i = pure tt

    unfoldable pub on_duplicate : String → Option DuplicateInfo → M (Unit {0})
    on_duplicate name none = pure tt
    on_duplicate name (some i) = do
      emit_event (Event.duplicate_detected i.existing_id name i.method i.existing_name)
      act_on_duplicate settings.duplicate_action name i

    unfoldable pub handle_duplicate_check : List ℕ → String → M (Unit {0})
    handle_duplicate_check content name = do
      dup_info ← check_duplicate content name
      on_duplicate name dup_info
