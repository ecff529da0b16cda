-- ===== src/Db/Passwords.antt =====
-- src/db/passwords.rs: the password that opened, or is to open, the archives of a download.
use usenet_dl.Base.{suc, Option, List, [], ◌∷◌, ◌==◌, if◌then◌else◌, filter, find, not, is_empty}
use mathlib.Core.Option
use usenet_dl.Types.{DownloadId}
use usenet_dl.World.{Env, M, query, execute, ok, err, query_failed}
use Prim.Native.String.{String}

-- INSERT … ON CONFLICT(download_id) DO UPDATE
unfoldable pub upsert_password :
    DownloadId → String → List (DownloadId × String) → List (DownloadId × String)
upsert_password id password [] = (id, password) ∷ []
upsert_password id password ((j, old) ∷ rows) =
    if j == id then (j, password) ∷ rows else (j, old) ∷ upsert_password id password rows

module _ (env : Env) where
  -- `download_id` references `downloads(id)`.
  unfoldable pub set_correct_password : DownloadId → String → M (Unit {0})
  set_correct_password id password w =
      let t = record w { calls = suc w.calls } in
      if env.outage w.calls
      then (err query_failed, t)
      else if is_empty (filter (λ d. d.id == id) w.downloads)
      then (err query_failed, t)
      else (ok tt, record t { passwords = upsert_password id password w.passwords })

  unfoldable pub get_cached_password : DownloadId → M (Option String)
  get_cached_password id =
      query env (λ w. Option.map (λ r. r.1) (find (λ r. r.0 == id) w.passwords))

  unfoldable pub delete_cached_password : DownloadId → M (Unit {0})
  delete_cached_password id =
      execute env (λ w. record w { passwords = filter (λ r. not (r.0 == id)) w.passwords })
