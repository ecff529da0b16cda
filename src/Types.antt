-- ===== src/Types.antt =====
-- src/types.rs: statuses, priorities and events. An `i32` code is a `ℤ`, an id is a `ℕ` (SQLite hands
-- out positive row ids), a path is its text. A percentage is an `f32` in the source; the modelled
-- code only writes the constant 0.0 into it, and it is left out of the events.
pub mod Codes
use usenet_dl.Base.{ℕ, zero, suc, Bool, Option, List, ltb, ◌==◌, if◌then◌else◌}
use usenet_dl.Base.Int.{ℤ, pos, negsuc}
use Prim.Native.String.{String}

abbrev pub DownloadId : Type 0
DownloadId = ℕ

pub data Status : Type 0 where
  queued downloading paused processing complete failed : Status

-- `Status::from_i32`
unfoldable pub status_from_i32 : ℤ → Status
status_from_i32 (pos zero) = queued
status_from_i32 (pos (suc zero)) = downloading
status_from_i32 (pos (suc (suc zero))) = paused
status_from_i32 (pos (suc (suc (suc zero)))) = processing
status_from_i32 (pos (suc (suc (suc (suc zero))))) = complete
status_from_i32 (pos (suc (suc (suc (suc (suc zero)))))) = failed
status_from_i32 _ = failed

-- `Status::to_i32`
unfoldable pub status_to_i32 : Status → ℤ
status_to_i32 queued = pos 0
status_to_i32 downloading = pos 1
status_to_i32 paused = pos 2
status_to_i32 processing = pos 3
status_to_i32 complete = pos 4
status_to_i32 failed = pos 5

pub data Priority : Type 0 where
  low normal high force : Priority

-- `Priority::from_i32`
unfoldable pub priority_from_i32 : ℤ → Priority
priority_from_i32 (negsuc zero) = low
priority_from_i32 (pos zero) = normal
priority_from_i32 (pos (suc zero)) = high
priority_from_i32 (pos (suc (suc zero))) = force
priority_from_i32 _ = normal

-- `priority as i32`: the discriminants of the enumeration.
unfoldable pub priority_to_i32 : Priority → ℤ
priority_to_i32 low = negsuc 0
priority_to_i32 normal = pos 0
priority_to_i32 high = pos 1
priority_to_i32 force = pos 2

-- The derived `Ord` of `Priority` follows the order of the discriminants.
abbrev pub rank : Priority → ℕ
rank low = 0
rank normal = 1
rank high = 2
rank force = 3

-- The stage that a failure is reported for.
pub data Stage : Type 0 where
  download verify repair extract move_files cleanup : Stage

-- src/config.rs: how a download is recognised as a duplicate.
pub data DuplicateMethod : Type 0 where
  nzb_hash nzb_name job_name : DuplicateMethod

-- The events that the modelled code emits; `extracting` and `downloading` without their percentages, which are floats, and `downloading`
-- without the speed and the counts, which are 0 and none where a task sends it.
pub data Event : Type 0 where
  queued : (id : DownloadId) (name : String) → Event
  duplicate_detected :
      (id : DownloadId) (name : String) (method : DuplicateMethod) (existing_name : String) → Event
  shutdown : Event
  speed_limit_changed : (limit_bps : Option ℕ) → Event
  removed : (id : DownloadId) → Event
  download_complete : (id : DownloadId) (articles_failed articles_total : Option ℕ) → Event
  download_failed :
      (id : DownloadId) (error : String)
      (articles_succeeded articles_failed articles_total : Option ℕ)
      → Event
  verifying : (id : DownloadId) → Event
  extracting : (id : DownloadId) (archive : String) → Event
  queue_paused queue_resumed : Event
  downloading : (id : DownloadId) → Event
  verify_complete : (id : DownloadId) (damaged : Bool) → Event
  repairing : (id : DownloadId) (blocks_needed blocks_available : ℕ) → Event
  repair_complete : (id : DownloadId) (success : Bool) → Event
  repair_skipped : (id : DownloadId) (reason : String) → Event
  extract_complete : (id : DownloadId) → Event
  moving : (id : DownloadId) (destination : String) → Event
  cleaning : (id : DownloadId) → Event
  complete : (id : DownloadId) (path : String) → Event
  failed : (id : DownloadId) (stage : Stage) (error : String) (files_kept : Bool) → Event
  direct_unpack_started direct_unpack_complete : (id : DownloadId) → Event
  direct_unpack_cancelled : (id : DownloadId) (reason : String) → Event
  direct_unpack_extracting : (id : DownloadId) (filename : String) → Event
  direct_unpack_extracted : (id : DownloadId) (filename : String) (files : List String) → Event
  file_completed : (id : DownloadId) (file_index : ℕ) (filename : String) → Event
  direct_renamed : (id : DownloadId) (old_name new_name : String) → Event

-- src/config.rs, the post-processing mode.
pub data PostProcess : Type 0 where
  none verify repair unpack unpack_and_cleanup : PostProcess

-- `PostProcess::to_i32`
unfoldable pub post_process_to_i32 : PostProcess → ℤ
post_process_to_i32 PostProcess.none = pos 0
post_process_to_i32 PostProcess.verify = pos 1
post_process_to_i32 PostProcess.repair = pos 2
post_process_to_i32 PostProcess.unpack = pos 3
post_process_to_i32 PostProcess.unpack_and_cleanup = pos 4

-- `PostProcess::from_i32`
unfoldable pub post_process_from_i32 : ℤ → PostProcess
post_process_from_i32 (pos zero) = PostProcess.none
post_process_from_i32 (pos (suc zero)) = PostProcess.verify
post_process_from_i32 (pos (suc (suc zero))) = PostProcess.repair
post_process_from_i32 (pos (suc (suc (suc zero)))) = PostProcess.unpack
post_process_from_i32 (pos (suc (suc (suc (suc zero))))) = PostProcess.unpack_and_cleanup
post_process_from_i32 _ = PostProcess.unpack_and_cleanup
