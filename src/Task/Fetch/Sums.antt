-- ===== src/Task/Fetch/Sums.antt =====
-- What the fetch of the batches counts, reports and sends.
use Prim.Native.String.{String}
use usenet_dl.Base.{
  ◌≤◌, ◌≢◌, ◌==◌, some, ℕ, suc, ◌+◌, ◌≡◌, refl, sym, ap, ◌∙◌, subst, ◌⊎◌, inl, inr, Bool, true,
  false, List, [], ◌∷◌, ◌++◌, map, filter, arith, Bool-cases, length, length-append, flatten,
  flatten-chunks, chunks, filter-append,
}
use usenet_dl.Task.Fetch.Turns.{
  worth, total-overlap, updates_in-total, updates_in-append, updates_in-signals_of,
}
use mathlib.Core.List.{append-nil, append_assoc}
use usenet_dl.Base.Int.{ℤ, eqb_ℤ}
use usenet_dl.World.{Article}
use usenet_dl.Db.Articles.{downloaded, failed}
use usenet_dl.Task.{Attempt, collect_results, Counters, DownloadResults, count_downloaded}
use usenet_dl.Task.Batches.{Config, prepare_batches, prioritise, first_depth, sum_connections}
use usenet_dl.Task.Retrying.{tried, segments_of, update_for, retry_articles_individually_lem}
use usenet_dl.Task.Fetch.{
  Fetched, responses, missing_article, fetch_failed, Decoded, decoded, undecodable, Provider, Texts,
  send_failed, decode_all, process_decoded, process_fetched, fetch_article_batch,
  download_all_batches, download_articles, signals_of, overlap, updates_in, sum_of, gather, flight,
  collect_all,
}

-- The first list is the second one with some elements left out.
abbrev pub IsSublist : List ℕ → List ℕ → Type 0
IsSublist [] ys = Unit
IsSublist (x ∷ xs) [] = ⊥
IsSublist (x ∷ xs) (y ∷ ys) = ((x ≡ y) × IsSublist xs ys) ⊎ IsSublist (x ∷ xs) ys

skip-IsSublist : (xs ys zs : List ℕ) → IsSublist xs zs → IsSublist xs (ys ++ zs)
skip-IsSublist xs [] zs h = h
skip-IsSublist [] (y ∷ ys) zs h = tt
skip-IsSublist (x ∷ xs) (y ∷ ys) zs h = inr (skip-IsSublist (x ∷ xs) ys zs h)

append-IsSublist :
    (xs ys us vs : List ℕ) → IsSublist xs ys → IsSublist us vs → IsSublist (xs ++ us) (ys ++ vs)
append-IsSublist [] ys us vs h k = skip-IsSublist us ys vs k
append-IsSublist (x ∷ xs) [] us vs h k = absurd h
append-IsSublist (x ∷ xs) (y ∷ ys) us vs (inl (e, h)) k = inl (e, append-IsSublist xs ys us vs h k)
append-IsSublist (x ∷ xs) (y ∷ ys) us vs (inr h) k = inr (append-IsSublist (x ∷ xs) ys us vs h k)

abbrev pub ids : List Article → List ℕ
ids xs = map (λ a. a.id) xs

abbrev pub updated : List (ℕ × ℤ) → List ℕ
updated us = map (λ u. u.0) us

-- The updates that say DOWNLOADED.
abbrev pub downloads_in : List (ℕ × ℤ) → ℕ
downloads_in us = length (filter (λ u. eqb_ℤ u.1 downloaded) us)

-- From `c` to `c'`, in one batch, status updates were sent for some of the articles, each at most
-- once and in their order,
-- and the articles counted as downloaded are those with an update that says so.
abbrev pub IsSent : List Article → Counters → Counters → Type 0
IsSent xs c c' =
    (us : List (ℕ × ℤ)) × (c'.updates ≡ c.updates ++ us)
    × IsSublist (updated us) (ids xs)
    × (c'.downloaded_articles ≡ c.downloaded_articles + downloads_in us)

IsSent-none : (xs : List Article) (c : Counters) → IsSent xs c c
IsSent-none xs c = ([], sym (append-nil _), tt, omega arith)

map-append : {A B : Type 0} (f : A → B) (xs ys : List A) → map f (xs ++ ys) ≡ map f xs ++ map f ys
map-append f [] ys = refl
map-append f (x ∷ xs) ys = ap (◌∷◌ (f x)) (map-append f xs ys)

IsSent-append :
    (xs ys : List Article) (c d e : Counters)
    → IsSent xs c d
    → IsSent ys d e
    → IsSent (xs ++ ys) c e
IsSent-append xs ys c d e (us, h, s, n) (vs, k, t, m) = (
  us ++ vs,
  k ∙ ap (λ l. l ++ vs) h ∙ append_assoc c.updates us vs,
  rw (map-append (λ u. u.0) us vs, map-append (λ a. a.id) xs ys) (append-IsSublist _ _ _ _ s t),
  omega (
    arith,
    n,
    m,
    length-append (filter (λ u. eqb_ℤ u.1 downloaded) us) (filter (λ u. eqb_ℤ u.1 downloaded) vs),
    ap length (filter-append (λ u. eqb_ℤ u.1 downloaded) us vs),
  ),
)

IsSent-one :
    (x : Article) (xs : List Article) (c d e : Counters)
    → IsSent (x ∷ []) c d
    → IsSent xs d e
    → IsSent (x ∷ xs) c e
IsSent-one x xs c d e h k = IsSent-append (x ∷ []) xs c d e h k

IsSent-downloaded :
    (x : Article) (size : ℕ) (c : Counters) → IsSent (x ∷ []) c (count_downloaded x size c)
IsSent-downloaded x size c = ((x.id, downloaded) ∷ [], refl, inl (refl, tt), omega arith)

-- The single retries.
abbrev article_of : Article × Bool × Attempt → Article
article_of t = t.0

tried-IsSublist :
    (ts : List (Article × Bool × Attempt))
    → IsSublist (updated (map update_for (tried ts))) (ids (map article_of ts))
      × (downloads_in (map update_for (tried ts)) ≡ length (segments_of (tried ts)))
tried-IsSublist [] = (tt, refl)
tried-IsSublist ((a, true, attempt) ∷ ts) = (tt, refl)
tried-IsSublist ((a, false, Attempt.decoded size) ∷ ts) =
    let (h, n) = tried-IsSublist ts in (inl (refl, h), ap suc n)
tried-IsSublist ((a, false, Attempt.undecodable error) ∷ ts) =
    let (h, n) = tried-IsSublist ts in (inl (refl, h), n)
tried-IsSublist ((a, false, Attempt.missing) ∷ ts) =
    let (h, n) = tried-IsSublist ts in (inl (refl, h), n)

articles-readings :
    (p : Article → Bool × Attempt) (xs : List Article)
    → ids (map article_of (map (λ a. (a, (p a).0, (p a).1)) xs)) ≡ ids xs
articles-readings p [] = refl
articles-readings p (x ∷ xs) = ap (◌∷◌ x.id) (articles-readings p xs)

Decoded-cases : (d : Decoded) → ((n : ℕ) × (d ≡ decoded n)) ⊎ ((e : String) × (d ≡ undecodable e))
Decoded-cases (decoded n) = inl (n, refl)
Decoded-cases (undecodable e) = inr (e, refl)

module _ (texts : Texts) where
  process_decoded-IsSent :
      (size : ℕ) (decode : Article → String → Decoded) (xs : List Article) (ds : List String)
      (segments : List (ℕ × ℕ)) (c : Counters)
      → IsSent xs c (process_decoded texts size (decode_all decode xs ds) segments c).1
  unfolding process_decoded decode_all
  process_decoded-IsSent size decode [] ds segments c = IsSent-none [] c
  process_decoded-IsSent size decode (x ∷ xs) [] segments c = IsSent-none (x ∷ xs) c
  process_decoded-IsSent size decode (x ∷ xs) (d ∷ ds) segments c =
      elim (Decoded-cases (decode x d)) [
        | inl (n, e) ↦ rw e (
            let next = segments ++ (x.segment_number, n) ∷ [] in
            let d = count_downloaded x n c in
            IsSent-one x xs c d (process_decoded texts size (decode_all decode xs ds) next d).1
              (IsSent-downloaded x n c) (process_decoded-IsSent size decode xs ds next d))
        | inr (t, e) ↦ rw e (IsSent-none (x ∷ xs) c)
      ]

  send_failed-IsSent : (xs : List Article) (c : Counters) → IsSent xs c (send_failed xs c)
  unfolding send_failed
  send_failed-IsSent [] c = IsSent-none [] c
  send_failed-IsSent (x ∷ xs) c =
      let d : Counters = record c { updates = c.updates ++ (x.id, failed) ∷ [] } in
      IsSent-one x xs c d (send_failed xs d)
        ((x.id, failed) ∷ [], refl, inl (refl, tt), omega arith) (send_failed-IsSent xs d)

  module _ (provider : Provider) where
    process_fetched-IsSent :
        (xs : List Article) (f : Fetched) (c : Counters)
        → IsSent xs c (process_fetched texts provider xs f c).1
    unfolding process_fetched
    process_fetched-IsSent xs (responses ds) c =
        process_decoded-IsSent (length xs) provider.decode_and_write xs ds [] c
    process_fetched-IsSent xs missing_article c =
        let ts = map (λ a. (a, (provider.retried a).0, (provider.retried a).1)) xs in
        let (_, (n, _, u)) =
          retry_articles_individually_lem texts.undecodable texts.missing texts.all_failed ts c in
        let (s, d) = tried-IsSublist ts in
        (
          map update_for (tried ts),
          u,
          subst (IsSublist (updated (map update_for (tried ts))))
              (articles-readings provider.retried xs) s,
          omega (arith, n, d),
        )
    process_fetched-IsSent xs (fetch_failed error) c = send_failed-IsSent xs c

    fetch_article_batch-IsSent :
        (xs : List Article) (c : Counters) → IsSent xs c (fetch_article_batch texts provider xs c).1
    unfolding fetch_article_batch
    fetch_article_batch-IsSent xs c = elim (Bool-cases (provider.is_cancelled xs)) [
      | inl e ↦ rw e (IsSent-none xs c)
      | inr e ↦ rw e (process_fetched-IsSent xs (provider.fetch_articles xs) c)
    ]

abbrev pub no_counts : Counters
no_counts = record {
  downloaded_articles = 0;
  downloaded_bytes = 0;
  failed_articles = 0;
  updates = [];
  tracked = [];
}

-- How often the id occurs.
abbrev pub occurrences : ℕ → List ℕ → ℕ
occurrences n ids = length (filter (λ m. m == n) ids)

occurrences-IsSublist :
    (n : ℕ) (xs ys : List ℕ) → IsSublist xs ys → occurrences n xs ≤ occurrences n ys
occurrences-IsSublist n [] ys h = omega arith
occurrences-IsSublist n (x ∷ xs) [] h = absurd h
occurrences-IsSublist n (x ∷ xs) (y ∷ ys) (inl (e, h)) =
    ground (arith, e, occurrences-IsSublist n xs ys h)
occurrences-IsSublist n (x ∷ xs) (y ∷ ys) (inr h) =
    ground (arith, occurrences-IsSublist n (x ∷ xs) ys h)

occurrences-updated :
    (n : ℕ) (us : List (ℕ × ℤ)) → occurrences n (updated us) ≡ length (filter (λ u. u.0 == n) us)
occurrences-updated n [] = refl
occurrences-updated n (u ∷ us) = ground (arith, occurrences-updated n us)

module _ (texts : Texts) (provider : Provider) where
  abbrev in_order : List (List Article) → List (ℕ × ℤ)
  in_order xss = updates_in (flatten (map signals_of (map (flight texts provider) xss)))

  -- Overlapping, they send the same number of each kind of update.
  sent_in_order :
      (p : ℕ × ℤ → Bool) (concurrency : ℕ) (turns : List ℕ) (xss : List (List Article))
      → length (
          filter p (
            updates_in
              (overlap concurrency turns (map signals_of (map (flight texts provider) xss)))))
        ≡ length (filter p (in_order xss))
  sent_in_order p n turns xss =
      let running = map signals_of (map (flight texts provider) xss) in
      omega (
        arith,
        updates_in-total p (overlap n turns running),
        total-overlap (worth p) n turns running,
        updates_in-total p (flatten running),
      )

  -- The batches one by one.
  in_order-IsSublist :
      (xss : List (List Article))
      → IsSublist (updated (in_order xss)) (ids (flatten xss))
        × (sum_of (λ c. c.downloaded_articles) (map (flight texts provider) xss)
            ≡ downloads_in (in_order xss))
  unfolding sum_of flight updates_in
  in_order-IsSublist [] = (tt, refl)
  in_order-IsSublist (xs ∷ xss) =
      let f = flight texts provider xs in
      let rest = map signals_of (map (flight texts provider) xss) in
      let (us, u, s, n) = fetch_article_batch-IsSent texts provider xs no_counts in
      let (t, m) = in_order-IsSublist xss in
      let e : in_order (xs ∷ xss) ≡ us ++ in_order xss =
        updates_in-append (signals_of f) (flatten rest)
        ∙ ap (λ l. l ++ in_order xss) (updates_in-signals_of f ∙ u) in
      (
        rw (e, map-append (λ u. u.0) us (in_order xss), map-append (λ a. a.id) xs (flatten xss))
            (append-IsSublist _ _ _ _ s t),
        omega (
          arith,
          n,
          m,
          ap downloads_in e,
          length-append (filter (λ u. eqb_ℤ u.1 downloaded) us)
              (filter (λ u. eqb_ℤ u.1 downloaded) (in_order xss)),
          ap length (filter-append (λ u. eqb_ℤ u.1 downloaded) us (in_order xss)),
        ),
      )

-- Whatever turns the batches get, and whatever the provider, the decoder and the cancellation do:
-- where a server has connections the batches come to their end, the status updates name each
-- pending article at most once and no other, and the articles counted as downloaded are those with
-- an update that says so. (An article here is an id of the list: an id that it holds k times is
-- named at most k times.)
pub download_articles-updates :
    (texts : Texts) (provider : Provider) (config : Config) (turns : List ℕ)
    (articles : List Article)
    → sum_connections config.servers ≢ 0
    → (r : DownloadResults) × (c : Counters) × (download_articles texts provider config turns
          articles
        ≡ some (r, c))
      × ((n : ℕ) → occurrences n (updated c.updates) ≤ occurrences n (ids articles))
      × (c.downloaded_articles ≡ downloads_in c.updates)
unfolding download_articles prepare_batches prioritise download_all_batches collect_all gather
download_articles-updates texts provider config turns articles h =
    let n = sum_connections config.servers in
    let xss = chunks (first_depth config.servers) articles in
    let flights = map (flight texts provider) xss in
    let (results, c) = gather flights (overlap n turns (map signals_of flights)) in
    let e : (n == 0) ≡ false = ground (arith, h) in
    let (s, m) = in_order-IsSublist texts provider xss in
    (
      collect_results results (length articles) c,
      c,
      rw e refl,
      λ i. omega (
        arith,
        occurrences-updated i c.updates,
        sent_in_order texts provider (λ u. u.0 == i) n turns xss,
        occurrences-updated i (in_order texts provider xss),
        occurrences-IsSublist i _ _ s,
        ap (λ xs. occurrences i (ids xs)) (flatten-chunks (first_depth config.servers) articles),
      ),
      omega (arith, m, sent_in_order texts provider (λ u. eqb_ℤ u.1 downloaded) n turns xss),
    )
