-- ===== src/Errors.antt =====
-- src/error.rs: the errors, their HTTP statuses and codes and what the API makes of them; and
-- src/retry.rs, which of them are tried again. Texts that only tell a story are one text, and what
-- `Display` prints of an error is a parameter.
pub mod Codes
pub mod Retried
use usenet_dl.Base.{ℕ, Bool, true, false, ◌||◌, Option, none, some, List, [], ◌∷◌}
use Prim.Native.String.{String}
use text.Mathlib.Text.{find?}

pub data DatabaseError : Type 0 where
  connection_failed migration_failed query_failed : (message : String) → DatabaseError
  not_found constraint_violation : (message : String) → DatabaseError

pub data DownloadError : Type 0 where
  not_found : (id : ℕ) → DownloadError
  files_not_found : (id : ℕ) (path : String) → DownloadError
  already_in_state : (id : ℕ) (state : String) → DownloadError
  invalid_state : (id : ℕ) (operation current_state : String) → DownloadError
  insufficient_space : (required available : ℕ) → DownloadError

pub data PostProcessError : Type 0 where
  verification_failed repair_failed : (id : ℕ) (reason : String) → PostProcessError
  extraction_failed : (archive reason : String) → PostProcessError
  wrong_password : (archive : String) → PostProcessError
  all_passwords_failed : (archive : String) (count : ℕ) → PostProcessError
  no_passwords_available : (archive : String) → PostProcessError
  move_failed : (source_path dest_path reason : String) → PostProcessError
  file_collision : (path reason : String) → PostProcessError
  cleanup_failed : (id : ℕ) (reason : String) → PostProcessError
  invalid_path : (path reason : String) → PostProcessError
  direct_unpack_failed direct_rename_failed : (id : ℕ) (reason : String) → PostProcessError

-- `std::io::ErrorKind`: the kinds that are named in the code, and the others.
pub data ErrorKind : Type 0 where
  timed_out connection_refused connection_reset connection_aborted : ErrorKind
  not_connected broken_pipe interrupted another : ErrorKind

-- `network` says what `reqwest` knows of the error: a timeout, a failure to connect.
pub data Error : Type 0 where
  config : (message : String) (key : Option String) → Error
  database : (e : DatabaseError) → Error
  sqlx nntp : (message : String) → Error
  download : (e : DownloadError) → Error
  post_process : (e : PostProcessError) → Error
  invalid_nzb : (message : String) → Error
  io : (kind : ErrorKind) → Error
  not_found : (message : String) → Error
  shutting_down : Error
  network : (is_timeout is_connect : Bool) → Error
  serialization api_server_error folder_watch duplicate : (message : String) → Error
  insufficient_space : (required available : ℕ) → Error
  disk_space_check_failed external_tool not_supported other : (message : String) → Error

unfoldable pub status_code : Error → ℕ
status_code (Error.config message key) = 400
status_code (Error.invalid_nzb message) = 422
status_code (Error.duplicate message) = 409
status_code (Error.not_found message) = 404
status_code (Error.download (DownloadError.not_found id)) = 404
status_code (Error.download (DownloadError.files_not_found id path)) = 404
status_code (Error.download (DownloadError.already_in_state id state)) = 409
status_code (Error.download (DownloadError.invalid_state id operation current_state)) = 409
status_code (Error.post_process e) = 422
status_code (Error.download (DownloadError.insufficient_space required available)) = 422
status_code (Error.insufficient_space required available) = 422
status_code (Error.database e) = 500
status_code (Error.sqlx message) = 500
status_code (Error.io kind) = 500
status_code (Error.api_server_error message) = 500
status_code (Error.folder_watch message) = 500
status_code (Error.disk_space_check_failed message) = 500
status_code (Error.other message) = 500
status_code (Error.nntp message) = 502
status_code (Error.network is_timeout is_connect) = 502
status_code Error.shutting_down = 503
status_code (Error.external_tool message) = 503
status_code (Error.not_supported message) = 501
status_code (Error.serialization message) = 500

unfoldable pub download_code : DownloadError → String
download_code (DownloadError.not_found id) = "download_not_found"
download_code (DownloadError.files_not_found id path) = "files_not_found"
download_code (DownloadError.already_in_state id state) = "already_in_state"
download_code (DownloadError.invalid_state id operation current_state) = "invalid_state"
download_code (DownloadError.insufficient_space required available) = "insufficient_space"

unfoldable pub post_process_code : PostProcessError → String
post_process_code (PostProcessError.verification_failed id reason) = "verification_failed"
post_process_code (PostProcessError.repair_failed id reason) = "repair_failed"
post_process_code (PostProcessError.extraction_failed archive reason) = "extraction_failed"
post_process_code (PostProcessError.wrong_password archive) = "wrong_password"
post_process_code (PostProcessError.all_passwords_failed archive count) = "all_passwords_failed"
post_process_code (PostProcessError.no_passwords_available archive) = "no_passwords_available"
post_process_code (PostProcessError.move_failed source_path dest_path reason) = "move_failed"
post_process_code (PostProcessError.file_collision path reason) = "file_collision"
post_process_code (PostProcessError.cleanup_failed id reason) = "cleanup_failed"
post_process_code (PostProcessError.invalid_path path reason) = "invalid_path"
post_process_code (PostProcessError.direct_unpack_failed id reason) = "direct_unpack_failed"
post_process_code (PostProcessError.direct_rename_failed id reason) = "direct_rename_failed"

unfoldable pub error_code : Error → String
unfolding download_code post_process_code
error_code (Error.config message key) = "config_error"
error_code (Error.database e) = "database_error"
error_code (Error.sqlx message) = "database_error"
error_code (Error.nntp message) = "nntp_error"
error_code (Error.download e) = download_code e
error_code (Error.post_process e) = post_process_code e
error_code (Error.invalid_nzb message) = "invalid_nzb"
error_code (Error.io kind) = "io_error"
error_code (Error.not_found message) = "not_found"
error_code Error.shutting_down = "shutting_down"
error_code (Error.network is_timeout is_connect) = "network_error"
error_code (Error.serialization message) = "serialization_error"
error_code (Error.api_server_error message) = "api_server_error"
error_code (Error.folder_watch message) = "folder_watch_error"
error_code (Error.duplicate message) = "duplicate"
error_code (Error.insufficient_space required available) = "insufficient_space"
error_code (Error.disk_space_check_failed message) = "disk_space_check_failed"
error_code (Error.external_tool message) = "external_tool_error"
error_code (Error.not_supported message) = "not_supported"
error_code (Error.other message) = "internal_error"

-- `str::contains`
abbrev pub contains : String → String → Bool
contains text pattern = elim (find? text pattern) [ none ↦ false | some i ↦ true ]

unfoldable pub kind_is_retryable : ErrorKind → Bool
kind_is_retryable another = false
kind_is_retryable timed_out = true
kind_is_retryable connection_refused = true
kind_is_retryable connection_reset = true
kind_is_retryable connection_aborted = true
kind_is_retryable not_connected = true
kind_is_retryable broken_pipe = true
kind_is_retryable interrupted = true

unfoldable pub is_retryable : Error → Bool
unfolding kind_is_retryable
is_retryable (Error.network is_timeout is_connect) = is_timeout || is_connect
is_retryable (Error.io kind) = kind_is_retryable kind
is_retryable (Error.nntp message) =
    contains message "timeout"
    || (contains message "busy"
        || (contains message "connection"
            || (contains message "temporary"
                || (contains message "503" || contains message "400"))))
is_retryable (Error.external_tool message) =
    contains message "timeout" || (contains message "busy" || contains message "temporary")
is_retryable (Error.download e) = false
is_retryable (Error.post_process e) = false
is_retryable (Error.database e) = false
is_retryable (Error.sqlx message) = false
is_retryable (Error.config message key) = false
is_retryable (Error.invalid_nzb message) = false
is_retryable (Error.not_found message) = false
is_retryable Error.shutting_down = false
is_retryable (Error.serialization message) = false
is_retryable (Error.api_server_error message) = false
is_retryable (Error.folder_watch message) = false
is_retryable (Error.duplicate message) = false
is_retryable (Error.insufficient_space required available) = false
is_retryable (Error.disk_space_check_failed message) = false
is_retryable (Error.not_supported message) = false
is_retryable (Error.other message) = false
