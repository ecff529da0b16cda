-- ===== src/Db/Files.antt =====
-- src/db/articles.rs: the statements on the table `download_files` and those that join it, with the
-- columns of `downloads` that DirectUnpack keeps.
use usenet_dl.Base.{
  ℕ, suc, Bool, true, ◌&&◌, ◌||◌, Option, none, some, List, [], ◌∷◌, ◌++◌, map, ltb, ◌==◌,
  if◌then◌else◌, filter, find, any, is_empty, length, chunks, select,
}
use usenet_dl.Base.Int.{ℤ, pos, eqb_ℤ}
use usenet_dl.Types.{DownloadId}
use usenet_dl.World.{
  Download, Article, DownloadFile, World, Env, M, pure, throw, ◌>>◌, ◌>>=◌, query, execute, ok, err,
  query_failed,
}
use usenet_dl.Db.Downloads.{row_id, sort_by, update_row}
use usenet_dl.Db.Articles.{by_segment, pending, downloaded}
use Prim.Native.String.{String}

pub record NewDownloadFile : Type 0 where
  pub download_id : DownloadId
  pub file_index : ℕ
  pub filename : String
  pub subject : Option String
  pub total_segments : ℕ

-- `download_id = ? AND file_index = ?`, at most one row: the pair is unique.
abbrev pub is_file : DownloadId → ℕ → DownloadFile → Bool
is_file id index f = f.download_id == id && f.file_index == index

-- LEFT JOIN download_files … COALESCE(df.paused, 0) = 0
unfoldable pub is_file_active : List DownloadFile → Article → Bool
is_file_active files a = elim (find (is_file a.download_id a.file_index) files) [
  | none ↦ true
  | some f ↦ eqb_ℤ f.paused (pos 0)
]

abbrev pub is_pending : DownloadId → Article → Bool
is_pending id a = a.download_id == id && eqb_ℤ a.status pending

-- ORDER BY file_index ASC
abbrev pub by_index : DownloadFile → DownloadFile → Bool
by_index f g = ltb f.file_index g.file_index

unfoldable pub insert_file_row : NewDownloadFile → World → Option World
insert_file_row n w =
    let row : DownloadFile = record {
      id = suc w.last_file_id;
      download_id = n.download_id;
      file_index = n.file_index;
      filename = n.filename;
      subject = n.subject;
      total_segments = n.total_segments;
      paused = pos 0;
      completed = pos 0;
      original_filename = none;
    } in
    if is_empty (filter (λ d. d.id == n.download_id) w.downloads)
      || any (is_file n.download_id n.file_index) w.files
    then none
    else some (record w { files = w.files ++ row ∷ []; last_file_id = suc w.last_file_id })

unfoldable pub insert_file_rows : List NewDownloadFile → World → Option World
insert_file_rows [] w = some w
insert_file_rows (n ∷ ns) w = elim (insert_file_row n w) [
  | none ↦ none
  | some w' ↦ insert_file_rows ns w'
]

abbrev pub max_files_per_batch : ℕ
max_files_per_batch = 199

module _ (env : Env) where
  unfoldable pub insert_file_statement : List NewDownloadFile → M (Unit {0})
  insert_file_statement ns w =
      let t = record w { calls = suc w.calls } in
      if env.outage w.calls
      then (err query_failed, t)
      else elim (insert_file_rows ns t) [ none ↦ (err query_failed, t) | some w' ↦ (ok tt, w') ]

  unfoldable pub insert_file_chunks : List (List NewDownloadFile) → M (Unit {0})
  insert_file_chunks [] = pure tt
  insert_file_chunks (c ∷ cs) = do insert_file_statement c; insert_file_chunks cs

  unfoldable pub insert_files_batch : List NewDownloadFile → M (Unit {0})
  insert_files_batch ns =
      if is_empty ns then pure tt else insert_file_chunks (chunks max_files_per_batch ns)

  unfoldable pub get_download_files : DownloadId → M (List DownloadFile)
  get_download_files id =
      query env (λ w. sort_by by_index (filter (λ f. f.download_id == id) w.files))

  unfoldable pub get_download_file : DownloadId → ℕ → M (Option DownloadFile)
  get_download_file id index = query env (λ w. find (is_file id index) w.files)

  -- The pending articles whose file is not paused.
  unfoldable pub get_pending_articles : DownloadId → M (List Article)
  get_pending_articles id =
      query env λ w.
        sort_by by_segment (filter (λ a. is_pending id a && is_file_active w.files a) w.articles)

  unfoldable pub has_active_pending_articles : DownloadId → M Bool
  has_active_pending_articles id =
      query env
        λ w. ltb 0 (length (filter (λ a. is_pending id a && is_file_active w.files a) w.articles))

  unfoldable pub has_any_pending_articles : DownloadId → M Bool
  has_any_pending_articles id = query env (λ w. ltb 0 (length (filter (is_pending id) w.articles)))

  -- The files that are neither paused nor marked, all of whose segments are downloaded.
  unfoldable pub is_newly_completed : DownloadId → List Article → DownloadFile → Bool
  is_newly_completed id articles f =
      f.download_id == id
      && (eqb_ℤ f.paused (pos 0)
          && (eqb_ℤ f.completed (pos 0)
              && f.total_segments
                == length (
                    filter
                      (λ a.
                        a.download_id == f.download_id
                        && (a.file_index == f.file_index && eqb_ℤ a.status downloaded))
                      articles)))

  unfoldable pub get_newly_completed_files : DownloadId → M (List DownloadFile)
  get_newly_completed_files id = query env (λ w. filter (is_newly_completed id w.articles) w.files)

  unfoldable pub update_file : DownloadId → ℕ → (DownloadFile → DownloadFile) → M (Unit {0})
  update_file id index g =
      execute env
        (λ w. record w { files = map (λ f. if is_file id index f then g f else f) w.files })

  unfoldable pub mark_file_completed : DownloadId → ℕ → M (Unit {0})
  mark_file_completed id index = update_file id index (λ f. record f { completed = pos 1 })

  -- The first rename keeps the old name.
  unfoldable pub rename_download_file : DownloadId → ℕ → String → M (Unit {0})
  rename_download_file id index new_filename = update_file id index (λ f. record f {
    original_filename = elim f.original_filename [ none ↦ some f.filename | some name ↦ some name ];
    filename = new_filename;
  })

  unfoldable pub set_file_paused : DownloadId → ℕ → Bool → M (Unit {0})
  set_file_paused id index paused =
      update_file id index (λ f. record f { paused = if paused then pos 1 else pos 0 })

  unfoldable pub update_direct_unpack_state : DownloadId → ℤ → M (Unit {0})
  update_direct_unpack_state id state =
      execute env (update_row id (λ d. record d { direct_unpack_state = state }))

  unfoldable pub update_direct_unpack_extracted_count : DownloadId → ℤ → M (Unit {0})
  update_direct_unpack_extracted_count id count =
      execute env (update_row id (λ d. record d { direct_unpack_extracted_count = count }))

  unfoldable pub field_of : {A : Type 0} → (Download → A) → Option Download → M A
  field_of field none = throw query_failed
  field_of field (some d) = pure (field d)

  -- `fetch_one` fails where there is no row.
  unfoldable pub fetch_one : {A : Type 0} → (Download → A) → DownloadId → M A
  fetch_one field id = do row ← query env (λ w. select row_id id w.downloads); field_of field row

  unfoldable pub get_direct_unpack_state : DownloadId → M ℤ
  get_direct_unpack_state = fetch_one (λ d. d.direct_unpack_state)

  unfoldable pub get_direct_unpack_extracted_count : DownloadId → M ℤ
  get_direct_unpack_extracted_count = fetch_one (λ d. d.direct_unpack_extracted_count)
