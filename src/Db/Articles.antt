-- ===== src/Db/Articles.antt =====
-- src/db/articles.rs: the statements on the table `download_articles`, which track a download at the
-- level of articles. `status` codes are those of `article_status` in src/db/mod.rs.
pub mod Batches
use usenet_dl.Base.{
  ℕ, zero, suc, ◌+◌, Bool, true, false, ◌&&◌, ◌||◌, not, Option, none, some, List, [], ◌∷◌, ◌++◌,
  map, ltb, ◌==◌, if◌then◌else◌, filter, find, any, is_empty, length, chunks, select, update,
  delete,
}
use usenet_dl.Base.Int.{ℤ, pos, eqb_ℤ}
use usenet_dl.Types.{DownloadId}
use usenet_dl.World.{
  Article, DownloadFile, World, Env, M, pure, ◌>>◌, ◌>>=◌, query, execute, Result, ok, err,
  query_failed,
}
use usenet_dl.Db.Downloads.{row_id, insert_by, sort_by}
use Prim.Native.String.{String}
use text.Mathlib.Text.{◌==◌ as str_eq}

abbrev pub pending : ℤ
pending = pos 0

abbrev pub downloaded : ℤ
downloaded = pos 1

abbrev pub failed : ℤ
failed = pos 2

pub record NewArticle : Type 0 where
  pub download_id : DownloadId
  pub message_id : String
  pub segment_number : ℕ
  pub file_index : ℕ
  pub size_bytes : ℕ

abbrev pub article_key : Article → ℕ
article_key a = a.id

-- ORDER BY file_index ASC, segment_number ASC
abbrev pub by_segment : Article → Article → Bool
by_segment a b =
    ltb a.file_index b.file_index
    || (a.file_index == b.file_index && ltb a.segment_number b.segment_number)

-- The constraints of the table: `REFERENCES downloads(id)`, `UNIQUE(download_id, message_id)`.
unfoldable pub violates : World → NewArticle → Bool
violates w n =
    is_empty (filter (λ d. d.id == n.download_id) w.downloads)
    || any (λ a. a.download_id == n.download_id && str_eq a.message_id n.message_id) w.articles

-- One row of an INSERT, or `none` where it breaks a constraint.
unfoldable pub insert_article_row : NewArticle → World → Option World
insert_article_row n w =
    let row : Article = record {
      id = suc w.last_article_id;
      download_id = n.download_id;
      message_id = n.message_id;
      segment_number = n.segment_number;
      file_index = n.file_index;
      size_bytes = n.size_bytes;
      status = pending;
      downloaded_at = none;
    } in
    if violates w n
    then none
    else some
        (record w { articles = w.articles ++ row ∷ []; last_article_id = suc w.last_article_id })

unfoldable pub insert_article_rows : List NewArticle → World → Option World
insert_article_rows [] w = some w
insert_article_rows (n ∷ ns) w = elim (insert_article_row n w) [
  | none ↦ none
  | some w' ↦ insert_article_rows ns w'
]

-- An INSERT fails as a whole, by an outage or by a constraint, and then inserts nothing.
unfoldable pub insert_statement : Env → List NewArticle → M (Unit {0})
insert_statement env ns w =
    let t = record w { calls = suc w.calls } in
    if env.outage w.calls
    then (err query_failed, t)
    else elim (insert_article_rows ns t) [ none ↦ (err query_failed, t) | some w' ↦ (ok tt, w') ]

-- At most this many rows go into one INSERT.
abbrev pub max_articles_per_batch : ℕ
max_articles_per_batch = 166

abbrev pub max_updates_per_batch : ℕ
max_updates_per_batch = 100

-- The value that a list of `(id, status)` updates has for an id: the first one, as CASE reads it.
unfoldable pub first_update : ℕ → List (ℕ × ℤ) → Option ℤ
first_update id [] = none
first_update id ((i, status) ∷ updates) = if i == id then some status else first_update id updates

module _ (env : Env) where
  unfoldable pub insert_article : NewArticle → M ℕ
  insert_article n = do insert_statement env (n ∷ []); λ w. (ok w.last_article_id, w)

  unfoldable pub insert_chunks : List (List NewArticle) → M (Unit {0})
  insert_chunks [] = pure tt
  insert_chunks (c ∷ cs) = do insert_statement env c; insert_chunks cs

  unfoldable pub insert_articles_batch : List NewArticle → M (Unit {0})
  insert_articles_batch ns =
      if is_empty ns then pure tt else insert_chunks (chunks max_articles_per_batch ns)

  -- The timestamp that an update writes: set for DOWNLOADED, NULL else.
  abbrev pub stamp : ℕ → ℤ → Option ℕ
  stamp time status = if eqb_ℤ status downloaded then some time else none

  unfoldable pub update_article_status : ℕ → ℤ → M (Unit {0})
  update_article_status id status w =
      execute env
        (λ v. record v {
          articles =
              update article_key id
                (λ a. record a { status = status; downloaded_at = stamp (env.now w.calls) status })
                v.articles;
        })
        w

  unfoldable pub update_article_status_by_message_id : DownloadId → String → ℤ → M (Unit {0})
  update_article_status_by_message_id download_id message_id status w =
      execute env
        (λ v. record v {
          articles =
              map
                (λ a.
                  if a.download_id == download_id && str_eq a.message_id message_id
                  then record a { status = status; downloaded_at = stamp (env.now w.calls) status }
                  else a)
                v.articles;
        })
        w

  -- One row under an UPDATE … CASE … WHERE id IN (…). A status other than DOWNLOADED keeps the
  -- timestamp.
  unfoldable pub with_status : ℕ → Article → Option ℤ → Article
  with_status time a none = a
  with_status time a (some status) = record a {
    status = status;
    downloaded_at = if eqb_ℤ status downloaded then some time else a.downloaded_at;
  }

  unfoldable pub update_article_row : ℕ → List (ℕ × ℤ) → Article → Article
  update_article_row time updates a = with_status time a (first_update a.id updates)

  -- `time` is taken once, before the first chunk.
  unfoldable pub update_chunks : ℕ → List (List (ℕ × ℤ)) → M (Unit {0})
  update_chunks time [] = pure tt
  update_chunks time (c ∷ cs) = do
    execute env (λ v. record v { articles = map (update_article_row time c) v.articles })
    update_chunks time cs

  unfoldable pub update_articles_status_batch : List (ℕ × ℤ) → M (Unit {0})
  update_articles_status_batch updates w =
      if is_empty updates
      then pure tt w
      else update_chunks (env.now w.calls) (chunks max_updates_per_batch updates) w

  unfoldable pub get_articles : DownloadId → M (List Article)
  get_articles id =
      query env (λ w. sort_by by_segment (filter (λ a. a.download_id == id) w.articles))

  unfoldable pub get_article_by_message_id : DownloadId → String → M (Option Article)
  get_article_by_message_id id message_id =
      query env (λ w. find (λ a. a.download_id == id && str_eq a.message_id message_id) w.articles)

  unfoldable pub count_articles_by_status : DownloadId → ℤ → M ℕ
  count_articles_by_status id status =
      query env
        (λ w. length (filter (λ a. a.download_id == id && eqb_ℤ a.status status) w.articles))

  unfoldable pub count_articles : DownloadId → M ℕ
  count_articles id = query env (λ w. length (filter (λ a. a.download_id == id) w.articles))

  unfoldable pub delete_articles : DownloadId → M (Unit {0})
  delete_articles id =
      execute env (λ w. record w { articles = filter (λ a. not (a.download_id == id)) w.articles })

  unfoldable pub count_failed_articles : DownloadId → M ℕ
  count_failed_articles id =
      query env
        (λ w. length (filter (λ a. a.download_id == id && eqb_ℤ a.status failed) w.articles))
