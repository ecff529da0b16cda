-- ===== src/Errors/Codes.antt =====
-- What the code of an error tells of its status.
use usenet_dl.Base.{ℕ, ◌≡◌, refl, List, [], ◌∷◌, if◌then◌else◌}
use Prim.Native.String.{String}
use text.Mathlib.Text.{◌==◌}
use usenet_dl.Errors.{DownloadError, PostProcessError, Error, status_code, error_code}

-- The codes, by status; any other code is one of status 500.
abbrev pub statuses : List (String × ℕ)
statuses =
    ("config_error", 400)
    ∷ ("not_found", 404)
    ∷ ("download_not_found", 404)
    ∷ ("files_not_found", 404)
    ∷ ("already_in_state", 409)
    ∷ ("invalid_state", 409)
    ∷ ("duplicate", 409)
    ∷ ("invalid_nzb", 422)
    ∷ ("insufficient_space", 422)
    ∷ ("verification_failed", 422)
    ∷ ("repair_failed", 422)
    ∷ ("extraction_failed", 422)
    ∷ ("wrong_password", 422)
    ∷ ("all_passwords_failed", 422)
    ∷ ("no_passwords_available", 422)
    ∷ ("move_failed", 422)
    ∷ ("file_collision", 422)
    ∷ ("cleanup_failed", 422)
    ∷ ("invalid_path", 422)
    ∷ ("direct_unpack_failed", 422)
    ∷ ("direct_rename_failed", 422)
    ∷ ("not_supported", 501)
    ∷ ("nntp_error", 502)
    ∷ ("network_error", 502)
    ∷ ("shutting_down", 503)
    ∷ ("external_tool_error", 503)
    ∷ []

abbrev pub status_in : List (String × ℕ) → String → ℕ
status_in [] code = 500
status_in ((c, status) ∷ rest) code = if code == c then status else status_in rest code

-- The status of an error is a function of its code: the one of the table.
pub status_code-error_code : (e : Error) → status_code e ≡ status_in statuses (error_code e)
unfolding status_code error_code
status_code-error_code (Error.download (DownloadError.not_found id)) = refl
status_code-error_code (Error.download (DownloadError.files_not_found id path)) = refl
status_code-error_code (Error.download (DownloadError.already_in_state id state)) = refl
status_code-error_code (Error.download (DownloadError.invalid_state id operation state)) = refl
status_code-error_code (Error.download (DownloadError.insufficient_space required available)) = refl
status_code-error_code (Error.post_process (PostProcessError.verification_failed id reason)) = refl
status_code-error_code (Error.post_process (PostProcessError.repair_failed id reason)) = refl
status_code-error_code (Error.post_process e) = refl
status_code-error_code (Error.config message key) = refl
status_code-error_code _ = refl
