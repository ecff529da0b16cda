-- ===== src/Intake/Adding/Kept.antt =====
-- What the insertion of articles and files keeps, under any failures.
use usenet_dl.Base.{
  ℕ, suc, inl, inr, Option, none, some, List, [], ◌∷◌, ◌==◌, filter, Bool-cases, any, ◌||◌,
  is_empty, chunks,
}
use usenet_dl.World.{World, Env, M, ok, err, query_failed, Article, DownloadFile, ◌>>=◌}
use usenet_dl.World.Hoare.{Outcome, Ensures, >>=-Ensures}
use usenet_dl.Db.Articles.{
  NewArticle, insert_article_row, insert_article_rows, insert_statement, insert_chunks,
  insert_articles_batch, max_articles_per_batch, violates,
}
use usenet_dl.Intake.Adding.{insert_each_chunk}
use usenet_dl.Db.Files.{
  NewDownloadFile, insert_file_row, insert_file_rows, insert_file_statement, insert_file_chunks,
  insert_files_batch, max_files_per_batch, is_file,
}

-- An insertion that is refused, or leads to a state where `P` holds.
abbrev Through : (World → Type 0) → Option World → Type 0
Through P none = Unit
Through P (some w) = P w

-- A property of the other tables, of the queue and of the running tasks.
module _ (P : World → Type 0) (counts : (w : World) (n : ℕ) → P w → P (record w { calls = n }))
    (adds : (w : World) (rows : List Article) (n : ℕ)
      → P w
      → P (record w { articles = rows; last_article_id = n }))
    (lists : (w : World) (rows : List DownloadFile) (n : ℕ)
      → P w
      → P (record w { files = rows; last_file_id = n })) where
  then-Through :
      (o : Option World) (k : World → Option World)
      → Through P o
      → ((v : World) → P v → Through P (k v))
      → Through P (elim o [ none ↦ none | some v ↦ k v ])
  then-Through none k h f = tt
  then-Through (some v) k h f = f v h

  -- A statement that is refused leaves the state as it was, but for the count.
  settled :
      (o : Option World) (t : World)
      → Through P o
      → P t
      → Outcome {A = Unit {0}}
          (λ _. P)
          P
          (elim o [ none ↦ (err query_failed, t) | some v ↦ (ok tt, v) ])
  settled none t h p = p
  settled (some v) t h p = h

  insert_article_row-Through :
      (r : NewArticle) (w : World) → P w → Through P (insert_article_row r w)
  unfolding insert_article_row
  insert_article_row-Through r w h = elim (Bool-cases (violates w r)) [
    | inl e ↦ rw e tt
    | inr e ↦ rw e (adds w _ _ h)
  ]

  insert_article_rows-Through :
      (rs : List NewArticle) (w : World) → P w → Through P (insert_article_rows rs w)
  unfolding insert_article_rows
  insert_article_rows-Through [] w h = h
  insert_article_rows-Through (r ∷ rs) w h =
      then-Through (insert_article_row r w) (insert_article_rows rs)
        (insert_article_row-Through r w h) (insert_article_rows-Through rs)

  insert_file_row-Through :
      (r : NewDownloadFile) (w : World) → P w → Through P (insert_file_row r w)
  unfolding insert_file_row
  insert_file_row-Through r w h =
      elim (Bool-cases (
        is_empty (filter (λ d. d.id == r.download_id) w.downloads)
        || any (is_file r.download_id r.file_index) w.files)) [
          | inl e ↦ rw e tt
          | inr e ↦ rw e (lists w _ _ h)
        ]

  insert_file_rows-Through :
      (rs : List NewDownloadFile) (w : World) → P w → Through P (insert_file_rows rs w)
  unfolding insert_file_rows
  insert_file_rows-Through [] w h = h
  insert_file_rows-Through (r ∷ rs) w h =
      then-Through (insert_file_row r w) (insert_file_rows rs) (insert_file_row-Through r w h)
        (insert_file_rows-Through rs)

  abbrev Keeps : M (Unit {0}) → Type 0
  Keeps m = Ensures P m (λ _. P) P

  pub then-Keeps : (m : M (Unit {0})) (n : M (Unit {0})) → Keeps m → Keeps n → Keeps (m >>= λ _. n)
  then-Keeps m n h k = >>=-Ensures (λ _. P) (λ _. P) P P m (λ _. n) h (λ _. k)

  module _ (env : Env) where
    insert_statement-Keeps : (rs : List NewArticle) → Keeps (insert_statement env rs)
    unfolding insert_statement
    insert_statement-Keeps rs w h = elim (Bool-cases (env.outage w.calls)) [
      | inl e ↦ rw e (counts w _ h)
      | inr e ↦ rw e (
          settled (insert_article_rows rs (record w { calls = suc w.calls })) _
            (insert_article_rows-Through rs _ (counts w _ h)) (counts w _ h))
    ]

    insert_chunks-Keeps : (cs : List (List NewArticle)) → Keeps (insert_chunks env cs)
    unfolding insert_chunks
    insert_chunks-Keeps [] = λ w h. h
    insert_chunks-Keeps (c ∷ cs) =
        then-Keeps _ _ (insert_statement-Keeps c) (insert_chunks-Keeps cs)

    insert_articles_batch-Keeps : (rs : List NewArticle) → Keeps (insert_articles_batch env rs)
    unfolding insert_articles_batch
    insert_articles_batch-Keeps [] = λ w h. h
    insert_articles_batch-Keeps (r ∷ rs) =
        insert_chunks-Keeps (chunks max_articles_per_batch (r ∷ rs))

    pub insert_each_chunk-Keeps : (cs : List (List NewArticle)) → Keeps (insert_each_chunk env cs)
    unfolding insert_each_chunk
    insert_each_chunk-Keeps [] = λ w h. h
    insert_each_chunk-Keeps (c ∷ cs) =
        then-Keeps _ _ (insert_articles_batch-Keeps c) (insert_each_chunk-Keeps cs)

    insert_file_statement-Keeps : (rs : List NewDownloadFile) → Keeps (insert_file_statement env rs)
    unfolding insert_file_statement
    insert_file_statement-Keeps rs w h = elim (Bool-cases (env.outage w.calls)) [
      | inl e ↦ rw e (counts w _ h)
      | inr e ↦ rw e (
          settled (insert_file_rows rs (record w { calls = suc w.calls })) _
            (insert_file_rows-Through rs _ (counts w _ h)) (counts w _ h))
    ]

    insert_file_chunks-Keeps :
        (cs : List (List NewDownloadFile)) → Keeps (insert_file_chunks env cs)
    unfolding insert_file_chunks
    insert_file_chunks-Keeps [] = λ w h. h
    insert_file_chunks-Keeps (c ∷ cs) =
        then-Keeps _ _ (insert_file_statement-Keeps c) (insert_file_chunks-Keeps cs)

    pub insert_files_batch-Keeps : (rs : List NewDownloadFile) → Keeps (insert_files_batch env rs)
    unfolding insert_files_batch
    insert_files_batch-Keeps [] = λ w h. h
    insert_files_batch-Keeps (r ∷ rs) =
        insert_file_chunks-Keeps (chunks max_files_per_batch (r ∷ rs))
