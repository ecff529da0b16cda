-- ===== src/Db/Downloads.antt =====
-- src/db/downloads.rs: the statements on the table `downloads`. A key update leaves every other row.
pub mod Distinct
use usenet_dl.Base.{
  ℕ, zero, suc, Bool, true, false, ◌&&◌, ◌||◌, not, Option, none, some, List, [], ◌∷◌, ◌++◌, ltb,
  ◌==◌, if◌then◌else◌, filter, select, update, delete,
}
use usenet_dl.Base.Int.{ℤ, pos, ltb_ℤ, eqb_ℤ}
use usenet_dl.Types.{DownloadId}
use usenet_dl.World.{
  Download, NewDownload, World, Env, M, query, execute, Result, ok, err, Error, query_failed,
}
use Prim.Native.String.{String}

abbrev pub row_id : Download → DownloadId
row_id d = d.id

-- `ORDER BY`: insertion before the first row that is to stand behind it.
unfoldable pub insert_by {ℓ} : {A : Type ℓ} → (A → A → Bool) → A → List A → List A
insert_by before x [] = x ∷ []
insert_by before x (y ∷ ys) = if before y x then y ∷ insert_by before x ys else x ∷ y ∷ ys

unfoldable pub sort_by {ℓ} : {A : Type ℓ} → (A → A → Bool) → List A → List A
sort_by before [] = []
sort_by before (x ∷ xs) = insert_by before x (sort_by before xs)

-- ORDER BY priority DESC, created_at ASC
abbrev pub by_priority : Download → Download → Bool
by_priority a b =
    ltb_ℤ b.priority a.priority || (eqb_ℤ a.priority b.priority && ltb a.created_at b.created_at)

-- ORDER BY created_at ASC
abbrev pub by_age : Download → Download → Bool
by_age a b = ltb a.created_at b.created_at

-- UPDATE downloads SET … WHERE id = ?
unfoldable pub update_row : DownloadId → (Download → Download) → World → World
update_row id f w = record w { downloads = update row_id id f w.downloads }

-- The row that is inserted, with the columns' defaults.
abbrev pub new_row : DownloadId → ℕ → NewDownload → Download
new_row id now d = record {
  id = id;
  name = d.name;
  nzb_path = d.nzb_path;
  nzb_meta_name = d.nzb_meta_name;
  nzb_hash = d.nzb_hash;
  job_name = d.job_name;
  category = d.category;
  destination = d.destination;
  post_process = d.post_process;
  priority = d.priority;
  status = d.status;
  size_bytes = d.size_bytes;
  error_message = none;
  created_at = now;
  started_at = none;
  completed_at = none;
  direct_unpack_state = pos 0;
  direct_unpack_extracted_count = pos 0;
}

module _ (env : Env) where
  unfoldable pub insert_download : NewDownload → M DownloadId
  insert_download d w =
      let id = suc w.last_download_id in
      let t = record w { calls = suc w.calls } in
      let row = new_row id (env.now w.calls) d in
      if env.outage w.calls
      then (err query_failed, t)
      else (ok id, record t { downloads = w.downloads ++ row ∷ []; last_download_id = id })

  unfoldable pub get_download : DownloadId → M (Option Download)
  get_download id = query env (λ w. select row_id id w.downloads)

  unfoldable pub list_downloads : M (List Download)
  list_downloads = query env (λ w. sort_by by_priority w.downloads)

  unfoldable pub list_downloads_by_status : ℤ → M (List Download)
  list_downloads_by_status status =
      query env (λ w. sort_by by_priority (filter (λ d. eqb_ℤ d.status status) w.downloads))

  unfoldable pub update_status : DownloadId → ℤ → M (Unit {0})
  update_status id status = execute env (update_row id (λ d. record d { status = status }))

  unfoldable pub update_priority : DownloadId → ℤ → M (Unit {0})
  update_priority id priority = execute env (update_row id (λ d. record d { priority = priority }))

  unfoldable pub set_error : DownloadId → String → M (Unit {0})
  set_error id error = execute env (update_row id (λ d. record d { error_message = some error }))

  unfoldable pub set_started : DownloadId → M (Unit {0})
  set_started id w =
      execute env (update_row id (λ d. record d { started_at = some (env.now w.calls) })) w

  unfoldable pub set_completed : DownloadId → M (Unit {0})
  set_completed id w =
      execute env (update_row id (λ d. record d { completed_at = some (env.now w.calls) })) w

  -- The rows of `download_articles`, `download_files` and `passwords` go with it: ON DELETE CASCADE.
  unfoldable pub delete_download : DownloadId → M (Unit {0})
  delete_download id = execute env λ w. record w {
    downloads = delete row_id id w.downloads;
    articles = filter (λ a. not (a.download_id == id)) w.articles;
    files = filter (λ f. not (f.download_id == id)) w.files;
    passwords = filter (λ p. not (p.0 == id)) w.passwords;
  }

  -- WHERE status IN (0, 1, 3)
  unfoldable pub get_incomplete_downloads : M (List Download)
  get_incomplete_downloads = query env λ w. sort_by by_priority (
      filter (λ d. eqb_ℤ d.status (pos 0) || eqb_ℤ d.status (pos 1) || eqb_ℤ d.status (pos 3))
        w.downloads)

  unfoldable pub get_all_downloads : M (List Download)
  get_all_downloads = query env (λ w. sort_by by_age w.downloads)
