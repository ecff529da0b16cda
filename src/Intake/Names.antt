-- ===== src/Intake/Names.antt =====
-- src/downloader/nzb.rs: the names that are read out of texts.
use usenet_dl.Base.{ℕ, ◌+◌, ◌-◌, ◌≡◌, refl, Option, none, some, ltb, if◌then◌else◌}
use Prim.Native.String.{String, len, slice}
use text.Mathlib.Text.{find?, ◌==◌}

-- The text between a quote and the next one, if there is any and it is not empty; `fallback` else.
unfoldable pub quoted : String → ℕ → Option ℕ → String → String
quoted subject first none fallback = fallback
quoted subject first (some length) fallback =
    if ltb 0 length then slice subject first (first + length) else fallback

unfoldable pub after_quote : String → Option ℕ → String → String
after_quote subject none fallback = fallback
after_quote subject (some start) fallback =
    quoted subject (start + 1) (find? (slice subject (start + 1) (len subject)) "\"") fallback

-- `fallback` is `file_` and a hash of the subject.
unfoldable pub parse_filename_from_subject : String → String → String
parse_filename_from_subject subject fallback = after_quote subject (find? subject "\"") fallback

-- `strip_suffix(".nzb")`
unfoldable pub extract_job_name : String → String
extract_job_name name =
    if slice name (len name - 4) (len name) == ".nzb" then slice name 0 (len name - 4) else name

filename_read : parse_filename_from_subject "[1/2] \"a.rar\" yEnc" "file_1" ≡ "a.rar"
unfolding parse_filename_from_subject after_quote quoted
filename_read = refl

filename_missing : parse_filename_from_subject "no \"\" name" "file_1" ≡ "file_1"
unfolding parse_filename_from_subject after_quote quoted
filename_missing = refl

suffix_stripped : extract_job_name "show.nzb" ≡ "show"
unfolding extract_job_name
suffix_stripped = refl
