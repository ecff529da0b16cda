-- ===== src/Db/Articles/Batches.antt =====
-- `insert_articles_batch` (src/db/articles.rs), against inserting row by row.
use usenet_dl.Base.{
  chunks, flatten, flatten-chunks, ℕ, suc, ◌≡◌, refl, sym, ap, ◌∙◌, subst, inl, inr, false, Option,
  none, some, List, [], ◌∷◌, ◌++◌, Bool-cases,
}
use mathlib.Core.Option
use usenet_dl.World.{World, Env, Result, ok, err, query_failed, and_then}
use usenet_dl.Db.Articles.{
  NewArticle, violates, insert_article_row, insert_article_rows, insert_statement, insert_chunks,
  insert_articles_batch, max_articles_per_batch,
}

abbrev pub with_calls : ℕ → World → World
with_calls c w = record w { calls = c }

insert_article_row-with_calls :
    (n : NewArticle) (w : World) (c : ℕ)
    → insert_article_row n (with_calls c w) ≡ Option.map (with_calls c) (insert_article_row n w)
unfolding insert_article_row violates
insert_article_row-with_calls n w c = elim (Bool-cases (violates w n)) [
  | inl e ↦ rw e refl
  | inr e ↦ rw e refl
]

-- The rows `ns` after a first one that gave `o`.
abbrev rest_of : List NewArticle → Option World → Option World
rest_of ns o = elim o [ none ↦ none | some v ↦ insert_article_rows ns v ]

rest_of-with_calls :
    (ns : List NewArticle) (c : ℕ) (o : Option World)
    → ((v : World)
        → insert_article_rows ns (with_calls c v)
          ≡ Option.map (with_calls c) (insert_article_rows ns v))
    → rest_of ns (Option.map (with_calls c) o) ≡ Option.map (with_calls c) (rest_of ns o)
rest_of-with_calls ns c none h = refl
rest_of-with_calls ns c (some v) h = h v

insert_article_rows-with_calls :
    (ns : List NewArticle) (c : ℕ) (w : World)
    → insert_article_rows ns (with_calls c w) ≡ Option.map (with_calls c) (insert_article_rows ns w)
unfolding insert_article_rows
insert_article_rows-with_calls [] c w = refl
insert_article_rows-with_calls (n ∷ ns) c w =
    ap (rest_of ns) (insert_article_row-with_calls n w c)
    ∙ rest_of-with_calls ns c (insert_article_row n w) (insert_article_rows-with_calls ns c)

-- The worlds between two lists of rows.
abbrev Between : List NewArticle → Option World → World → Type 0
Between ys o w' = (v : World) × (o ≡ some v) × (insert_article_rows ys v ≡ some w')

rest_of-append :
    (xs ys : List NewArticle) (o : Option World) (w' : World)
    → rest_of (xs ++ ys) o ≡ some w'
    → ((v : World)
        → insert_article_rows (xs ++ ys) v ≡ some w'
        → Between ys (insert_article_rows xs v) w')
    → Between ys (rest_of xs o) w'
rest_of-append xs ys none w' h k = absurd cc
rest_of-append xs ys (some v) w' h k = k v h

insert_article_rows-append :
    (xs ys : List NewArticle) (w w' : World)
    → insert_article_rows (xs ++ ys) w ≡ some w'
    → Between ys (insert_article_rows xs w) w'
unfolding insert_article_rows
insert_article_rows-append [] ys w w' h = (w, refl, h)
insert_article_rows-append (x ∷ xs) ys w w' h =
    rest_of-append xs ys (insert_article_row x w) w' h (λ v. insert_article_rows-append xs ys v w')

-- Done, and the world is `w'` but for the count of statements.
abbrev pub Inserts : World → Result (Unit {0}) × World → Type 0
Inserts w' (r, v) = (r ≡ ok tt) × (v ≡ with_calls v.calls w')

module _ (env : Env) (answers : (n : ℕ) → env.outage n ≡ false) where
  insert_statement-some :
      (c : List NewArticle) (w v : World)
      → insert_article_rows c w ≡ some v
      → insert_statement env c w ≡ (ok tt, with_calls (suc w.calls) v)
  unfolding insert_statement
  insert_statement-some c w v h = rw (answers w.calls) (
      ap
        (λ o. elim o [
          | none ↦ (err query_failed, with_calls (suc w.calls) w)
          | some w' ↦ (ok tt, w')
        ])
        (insert_article_rows-with_calls c (suc w.calls) w
          ∙ ap (Option.map (with_calls (suc w.calls))) h))

  insert_chunks-Inserts :
      (cs : List (List NewArticle)) (w w' : World)
      → insert_article_rows (flatten cs) w ≡ some w'
      → Inserts w' (insert_chunks env cs w)
  unfolding insert_chunks insert_article_rows
  insert_chunks-Inserts [] w w' h =
      (refl, ap (λ o. with_calls w.calls (elim o [ none ↦ w | some v ↦ v ])) h)
  insert_chunks-Inserts (c ∷ cs) w w' h =
      let (v, first, rest) = insert_article_rows-append c (flatten cs) w w' h in
      let n = suc w.calls in
      subst (λ r. Inserts w' (and_then r.0 (λ _. insert_chunks env cs) r.1))
        (sym (insert_statement-some c w v first))
        (insert_chunks-Inserts cs (with_calls n v) (with_calls n w')
          (insert_article_rows-with_calls (flatten cs) n v ∙ ap (Option.map (with_calls n)) rest))

  -- Where the database answers, a batch of articles whose rows can all be inserted, one after the
  -- other, is inserted: by statements of at most 166 rows, with the result of inserting row by row.
  pub insert_articles_batch-Inserts :
      (ns : List NewArticle) (w w' : World)
      → insert_article_rows ns w ≡ some w'
      → Inserts w' (insert_articles_batch env ns w)
  unfolding insert_articles_batch insert_article_rows
  insert_articles_batch-Inserts [] w w' h =
      (refl, ap (λ o. with_calls w.calls (elim o [ none ↦ w | some v ↦ v ])) h)
  insert_articles_batch-Inserts (n ∷ ns) w w' h =
      insert_chunks-Inserts (chunks max_articles_per_batch (n ∷ ns)) w w'
        (ap (λ xs. insert_article_rows xs w) (flatten-chunks max_articles_per_batch (n ∷ ns)) ∙ h)
