-- ===== src/Db/Duplicates.antt =====
-- src/db/duplicates.rs: a download with the same hash, name or job name. Where there are several, any
-- may be given; here it is the first of the table. NULL equals nothing.
use usenet_dl.Base.{Bool, false, Option, none, some, find}
use usenet_dl.World.{Download, Env, M, query}
use Prim.Native.String.{String}
use text.Mathlib.Text.{◌==◌}

abbrev pub has_text : String → Option String → Bool
has_text text none = false
has_text text (some found) = found == text

module _ (env : Env) where
  unfoldable pub find_by_nzb_hash : String → M (Option Download)
  find_by_nzb_hash nzb_hash = query env (λ w. find (λ d. has_text nzb_hash d.nzb_hash) w.downloads)

  unfoldable pub find_by_name : String → M (Option Download)
  find_by_name name = query env (λ w. find (λ d. d.name == name) w.downloads)

  unfoldable pub find_by_job_name : String → M (Option Download)
  find_by_job_name job_name = query env (λ w. find (λ d. has_text job_name d.job_name) w.downloads)
