-- ===== src/Task/Batches/Split.antt =====
-- The batches of src/downloader/download_task/batching.rs.
use usenet_dl.Base.{
  ℕ, zero, suc, ◌≤◌, ◌≡◌, refl, sym, ap, ◌∙◌, inl, inr, Bool, true, false, not, Option, none, some,
  List, [], ◌∷◌, ◌++◌, filter, All, arith, Bool-cases, is_empty, length, flatten, flatten-chunks,
  length-chunks-le, chunks-nonempty, chunks, if◌then◌else◌,
}
use usenet_dl.World.{Article, DownloadFile}
use usenet_dl.Db.Downloads.{insert_by, sort_by}
use usenet_dl.Task.Batches.{
  Server, Config, par2_indices, in_par2, before_by_key, prioritise, first_depth, prepare_batches,
}

-- The elements with the property first, each group in its order.
abbrev pub firsts {ℓ} : {A : Type ℓ} → (A → Bool) → List A → List A
firsts p xs = filter p xs ++ filter (λ x. not (p x)) xs

module _ (p : Article → Bool) where
  insert-first :
      (x : Article) (ys : List Article) → p x ≡ true → insert_by (before_by_key p) x ys ≡ x ∷ ys
  unfolding insert_by
  insert-first x [] h = refl
  insert-first x (y ∷ ys) h = ground (arith, h)

  insert-last-end :
      (x : Article) (ys : List Article)
      → p x ≡ false
      → insert_by (before_by_key p) x (filter (λ y. not (p y)) ys) ≡ x ∷ filter (λ y. not (p y)) ys
  unfolding insert_by
  insert-last-end x [] h = refl
  insert-last-end x (y ∷ ys) h = ground (arith, h, insert-last-end x ys h)

  insert-last :
      (x : Article) (ys zs : List Article)
      → p x ≡ false
      → insert_by (before_by_key p) x (filter p ys ++ filter (λ y. not (p y)) zs)
        ≡ filter p ys ++ (x ∷ filter (λ y. not (p y)) zs)
  unfolding insert_by
  insert-last x [] zs h = insert-last-end x zs h
  insert-last x (y ∷ ys) zs h = ground (arith, h, insert-last x ys zs h)

  -- A stable sort by a key with two values puts the one group before the other.
  sort_by-firsts : (xs : List Article) → sort_by (before_by_key p) xs ≡ firsts p xs
  unfolding sort_by
  sort_by-firsts [] = refl
  sort_by-firsts (x ∷ xs) = elim (Bool-cases (p x)) [
    | inl h ↦ rw h (ap (insert_by (before_by_key p) x) (sort_by-firsts xs) ∙ insert-first x _ h)
    | inr h ↦ rw h (ap (insert_by (before_by_key p) x) (sort_by-firsts xs) ∙ insert-last x xs xs h)
  ]

filter-none : (xs : List Article) → filter (in_par2 []) xs ≡ []
filter-none [] = refl
filter-none (x ∷ xs) = filter-none xs

filter-every : (xs : List Article) → filter (λ x. not (in_par2 [] x)) xs ≡ xs
filter-every [] = refl
filter-every (x ∷ xs) = ap (◌∷◌ x) (filter-every xs)

firsts-none : (xs : List Article) → firsts (in_par2 []) xs ≡ xs
firsts-none xs =
    ap (λ ys. ys ++ filter (λ x. not (in_par2 [] x)) xs) (filter-none xs) ∙ filter-every xs

-- What `prioritise` is meant to give.
abbrev pub prioritised : Config → Option (List DownloadFile) → List Article → List Article
prioritised config none articles = articles
prioritised config (some files) articles =
    if config.direct_rename then firsts (in_par2 (par2_indices files)) articles else articles

sorted-firsts :
    (indices : List ℕ) (xs : List Article)
    → (if not (is_empty indices) then sort_by (before_by_key (in_par2 indices)) xs else xs)
      ≡ firsts (in_par2 indices) xs
sorted-firsts [] xs = sym (firsts-none xs)
sorted-firsts (i ∷ indices) xs = sort_by-firsts (in_par2 (i ∷ indices)) xs

prioritise-prioritised :
    (config : Config) (files : Option (List DownloadFile)) (xs : List Article)
    → prioritise config files xs ≡ prioritised config files xs
unfolding prioritise
prioritise-prioritised config none xs = refl
prioritise-prioritised config (some files) xs = elim (Bool-cases config.direct_rename) [
  | inl h ↦ rw h (sorted-firsts (par2_indices files) xs)
  | inr h ↦ rw h refl
]

first_depth-pos : (servers : List Server) → 1 ≤ first_depth servers
unfolding first_depth
first_depth-pos [] = omega arith
first_depth-pos (s ∷ servers) = omega arith

length-chunks :
    (size : ℕ) (xs : List Article) → 1 ≤ size → All (λ c. length c ≤ size) (chunks size xs)
length-chunks zero xs h = absurd (omega (arith, h))
length-chunks (suc size) xs h = length-chunks-le size xs

-- The batches, one after the other, are the pending articles: those of PAR2 files first where
-- DirectRename is on and the files are given, each group in its order, and else as they were. No
-- batch is empty or longer than the depth, which is at least 1.
pub prepare_batches_lem :
    (config : Config) (articles : List Article) (files : Option (List DownloadFile))
    → let (concurrency, depth, batches) = prepare_batches config articles files in
      (flatten batches ≡ prioritised config files articles)
      × All (λ b. length b ≤ depth) batches
      × All (λ b. is_empty b ≡ false) batches
      × (1 ≤ depth)
unfolding prepare_batches
prepare_batches_lem config articles files =
    let depth = first_depth config.servers in
    let xs = prioritise config files articles in
    (
      flatten-chunks depth xs ∙ prioritise-prioritised config files articles,
      length-chunks depth xs (first_depth-pos config.servers),
      chunks-nonempty depth xs,
      first_depth-pos config.servers,
    )
