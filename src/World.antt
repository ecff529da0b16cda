-- ===== src/World.antt =====
-- The state that the downloader's operations share, and the monad of their effects: the rows of the
-- database (src/db/mod.rs), the priority queue and the running tasks (`QueueState` of
-- src/downloader/mod.rs), the temporary directories, and the events sent. SQLite, the file system
-- and the clock are the parameter `Env`, consulted once per database statement.
pub mod Hoare
use usenet_dl.Base.{
  ℕ, suc, Bool, true, false, Option, none, some, List, [], ◌∷◌, ◌++◌, if◌then◌else◌,
}
use usenet_dl.Base.Int.{ℤ}
use usenet_dl.Types.{DownloadId, Status, Priority, Event, DuplicateMethod}
use Prim.Native.String.{String}

-- `Download` without the `f32` progress and the speed, which only the progress reporter writes.
pub record Download : Type 0 where
  pub id : DownloadId
  pub name : String
  pub nzb_path : String
  pub nzb_meta_name : Option String
  pub nzb_hash : Option String
  pub job_name : Option String
  pub category : Option String
  pub destination : String
  pub post_process : ℤ
  pub priority : ℤ
  pub status : ℤ
  pub size_bytes : ℕ
  pub error_message : Option String
  pub created_at : ℕ
  pub started_at : Option ℕ
  pub completed_at : Option ℕ
  pub direct_unpack_state : ℤ
  pub direct_unpack_extracted_count : ℤ

pub record NewDownload : Type 0 where
  pub name : String
  pub nzb_path : String
  pub nzb_meta_name : Option String
  pub nzb_hash : Option String
  pub job_name : Option String
  pub category : Option String
  pub destination : String
  pub post_process : ℤ
  pub priority : ℤ
  pub status : ℤ
  pub size_bytes : ℕ

pub record Article : Type 0 where
  pub id : ℕ
  pub download_id : DownloadId
  pub message_id : String
  pub segment_number : ℕ
  pub file_index : ℕ
  pub size_bytes : ℕ
  pub status : ℤ
  pub downloaded_at : Option ℕ

pub record DownloadFile : Type 0 where
  pub id : ℕ
  pub download_id : DownloadId
  pub file_index : ℕ
  pub filename : String
  pub subject : Option String
  pub total_segments : ℕ
  pub paused : ℤ
  pub completed : ℤ
  pub original_filename : Option String

-- `QueuedDownload`
pub record QueuedDownload : Type 0 where
  pub id : DownloadId
  pub priority : Priority
  pub created_at : ℕ

-- What `tokio::spawn` starts.
pub data Job : Type 0 where
  post_processing re_extraction : (id : DownloadId) → Job

-- `queue` is a `BinaryHeap`: only which items it holds matters, and `pop` takes a greatest one.
-- `passwords` is the table of that name, and `clean_shutdown` the value of that key in `runtime_state`.
-- `active` is the map from a running download to its cancellation token, and `cancelled` holds the
-- tokens that were cancelled. `temp_dirs` holds the ids whose directory `download_<id>` exists.
-- `events` and `spawned` have the latest first; the `last_…_id` are the last row ids handed out, and `calls` counts
-- the database statements so far.
pub record World : Type 0 where
  pub downloads : List Download
  pub articles : List Article
  pub files : List DownloadFile
  pub passwords : List (DownloadId × String)
  pub clean_shutdown : Option String
  pub queue : List QueuedDownload
  pub active : List (DownloadId × ℕ)
  pub accepting_new : Bool
  pub cancelled : List ℕ
  pub temp_dirs : List DownloadId
  pub extracted : List String
  pub events : List Event
  pub spawned : List Job
  pub last_download_id : ℕ
  pub last_article_id : ℕ
  pub last_file_id : ℕ
  pub calls : ℕ

-- `outage n`: the n-th statement fails. `now n`: the clock at that statement. `stuck_dir id`: the
-- directory of the download cannot be removed.
pub record Env : Type 0 where
  pub outage : ℕ → Bool
  pub now : ℕ → ℕ
  pub stuck_dir : DownloadId → Bool

-- src/error.rs: the errors of the modelled operations. A message is kept as what it is made from.
pub data Error : Type 0 where
  database_not_found : (id : DownloadId) → Error
  query_failed : Error
  invalid_state : (id : DownloadId) (operation : String) (current_state : Status) → Error
  not_found : (id : DownloadId) → Error
  files_not_found : (id : DownloadId) → Error
  not_supported : (message : String) → Error
  verification_failed : (id : DownloadId) (damaged_blocks missing_blocks : ℕ) → Error
  repair_failed : (id : DownloadId) (reason : String) → Error
  invalid_path : (path : String) → Error
  file_collision : (path : String) → Error
  shutting_down disk_space_check_failed : Error
  io invalid_nzb : (message : String) → Error
  insufficient_space : (required available : ℕ) → Error
  duplicate : (name : String) (method : DuplicateMethod) (existing_id : DownloadId) → Error
  other : (message : String) → Error

pub data Result (A : Type 0) : Type 0 where
  ok : A → Result A
  err : Error → Result A

abbrev pub M : Type 0 → Type 0
M A = World → Result A × World

module _ {A : Type 0} where
  abbrev pub pure : A → M A
  pure a w = (ok a, w)

  abbrev pub throw : Error → M A
  throw e w = (err e, w)

  -- `ok_or_else(…)?`
  abbrev pub or_throw : Option A → Error → M A
  or_throw none e = throw e
  or_throw (some a) e = pure a

module _ {A B : Type 0} where
  abbrev pub and_then : Result A → (A → M B) → M B
  and_then (ok a) f = f a
  and_then (err e) f = throw e

  -- `?`: an error ends the operation, and what has been done stays done.
  infixl 5 ◌>>=◌ ◌>>◌
  abbrev pub ◌>>=◌ : M A → (A → M B) → M B
  m >>= f = λ w. let (r, w') = m w in and_then r f w'

  abbrev pub ◌>>◌ : M A → M B → M B
  m >> n = m >>= λ _. n

  -- `match m { Ok(a) => f(a), Err(e) => g(e) }`
  abbrev pub handle : Result A → (A → M B) → (Error → M B) → M B
  handle (ok a) f g = f a
  handle (err e) f g = g e

  abbrev pub catch : M A → (A → M B) → (Error → M B) → M B
  catch m f g = λ w. let (r, w') = m w in handle r f g w'

abbrev pub modify : (World → World) → M (Unit {0})
modify f w = (ok tt, f w)

-- One statement of the database, which may fail as a whole.
unfoldable pub query : {A : Type 0} → Env → (World → A) → M A
query env f w =
    let t = record w { calls = suc w.calls } in
    if env.outage w.calls then (err query_failed, t) else (ok (f w), t)

unfoldable pub execute : Env → (World → World) → M (Unit {0})
execute env f w =
    let t = record w { calls = suc w.calls } in
    if env.outage w.calls
    then (err query_failed, t)
    else (ok tt, record (f w) { calls = suc w.calls })

unfoldable pub emit_event : Event → M (Unit {0})
emit_event e = modify (λ w. record w { events = e ∷ w.events })
