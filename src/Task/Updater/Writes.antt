-- ===== src/Task/Updater/Writes.antt =====
-- What the updater writes, whatever the timing.
use usenet_dl.Base.{
  ℕ, ◌≡◌, refl, sym, ap, ◌∙◌, subst, false, Option, none, some, List, [], ◌∷◌, ◌++◌, map, leb, ◌==◌,
  ==_iff, arith, Bool-cases, Option-cases, inl, inr, length, chunks, flatten, flatten-chunks,
}
use mathlib.Core.List.{append-nil, append_assoc}
use usenet_dl.Base.Int.{ℤ}
use usenet_dl.World.{World, Env, M, Article, pure, ◌>>◌}
use usenet_dl.World.Hoare.{Outcome, Ensures, >>=-Ensures, catch-Ensures, execute-calm}
use usenet_dl.Db.Articles.{
  first_update, with_status, update_article_row, update_chunks, update_articles_status_batch,
  max_updates_per_batch,
}
use usenet_dl.Task.Updater.{
  Input, received, tick, cancelled, article_batch_size, drain, flush, batch_updater,
}

-- No id has two updates.
abbrev pub AreDistinct : List (ℕ × ℤ) → Type 0
AreDistinct [] = Unit
AreDistinct (u ∷ us) = (first_update u.0 us ≡ none) × AreDistinct us

abbrev pub IsNotCancelled : List Input → Type 0
IsNotCancelled [] = Unit
IsNotCancelled (received update ∷ inputs) = IsNotCancelled inputs
IsNotCancelled (tick ∷ inputs) = IsNotCancelled inputs
IsNotCancelled (cancelled ∷ inputs) = ⊥

abbrev pub status_or : Option ℤ → ℤ → ℤ
status_or none status = status
status_or (some s) status = s

abbrev or_else : Option ℤ → Option ℤ → Option ℤ
or_else none o = o
or_else (some s) o = some s

-- The status that an id has after the updates.
abbrev pub updated_status : List (ℕ × ℤ) → ℕ × ℤ → ℤ
updated_status us p = status_or (first_update p.0 us) p.1

abbrev pub statuses : List Article → List (ℕ × ℤ)
statuses xs = map (λ a. (a.id, a.status)) xs

-- The updates applied one by one.
abbrev pub apply_updates : List (ℕ × ℤ) → List (ℕ × ℤ) → List (ℕ × ℤ)
apply_updates us ps = map (λ p. (p.0, updated_status us p)) ps

first_update-append :
    (id : ℕ) (us vs : List (ℕ × ℤ))
    → first_update id (us ++ vs) ≡ or_else (first_update id us) (first_update id vs)
unfolding first_update
first_update-append id [] vs = refl
first_update-append id (u ∷ us) vs = elim (Bool-cases (u.0 == id)) [
  | inl e ↦ rw e refl
  | inr e ↦ rw e (first_update-append id us vs)
]

none-append :
    (id : ℕ) (us vs : List (ℕ × ℤ)) → first_update id (us ++ vs) ≡ none → first_update id vs ≡ none
unfolding first_update
none-append id [] vs h = h
none-append id (u ∷ us) vs h = elim (Bool-cases (u.0 == id)) [
  | inl e ↦ absurd (ground (arith, e, h))
  | inr e ↦ none-append id us vs (ground (arith, e, h))
]

-- An id with an update among the first has none among the later ones.
distinct-later :
    (id : ℕ) (s : ℤ) (us vs : List (ℕ × ℤ))
    → AreDistinct (us ++ vs)
    → first_update id us ≡ some s
    → first_update id vs ≡ none
unfolding first_update
distinct-later id s [] vs d h = absurd (ground (arith, h))
distinct-later id s (u ∷ us) vs (n, d) h = elim (Bool-cases (u.0 == id)) [
  | inl e ↦ subst (λ i. first_update i vs ≡ none) ((==_iff u.0 id).0 e) (none-append u.0 us vs n)
  | inr e ↦ distinct-later id s us vs d (ground (arith, e, h))
]

none-left :
    (id : ℕ) (us vs : List (ℕ × ℤ)) → first_update id (us ++ vs) ≡ none → first_update id us ≡ none
unfolding first_update
none-left id [] vs h = refl
none-left id (u ∷ us) vs h = elim (Bool-cases (u.0 == id)) [
  | inl e ↦ absurd (ground (arith, e, h))
  | inr e ↦ rw e (none-left id us vs (ground (arith, e, h)))
]

distinct-left : (us vs : List (ℕ × ℤ)) → AreDistinct (us ++ vs) → AreDistinct us
distinct-left [] vs d = tt
distinct-left (u ∷ us) vs (n, d) = (none-left u.0 us vs n, distinct-left us vs d)

distinct-right : (us vs : List (ℕ × ℤ)) → AreDistinct (us ++ vs) → AreDistinct vs
distinct-right [] vs d = d
distinct-right (u ∷ us) vs (n, d) = distinct-right us vs d

updated_status-append :
    (us vs : List (ℕ × ℤ)) (p : ℕ × ℤ)
    → AreDistinct (us ++ vs)
    → updated_status (us ++ vs) p ≡ updated_status vs (p.0, updated_status us p)
updated_status-append us vs (id, status) d =
    let whole : (o : Option ℤ)
        → first_update id us ≡ o
        → updated_status (us ++ vs) (id, status)
          ≡ status_or (or_else o (first_update id vs)) status =
      λ o e.
        ap (λ r. status_or r status)
          (first_update-append id us vs ∙ ap (λ r. or_else r (first_update id vs)) e) in
    elim (Option-cases (first_update id us)) [
      | inl e ↦ whole none e ∙ sym (ap (λ r. status_or (first_update id vs) (status_or r status)) e)
      | inr (s, e) ↦
          whole (some s) e
          ∙ sym (
              ap (λ r. status_or r (updated_status us (id, status))) (distinct-later id s us vs d e)
              ∙ ap (λ r. status_or r status) e)
    ]

apply_updates-append :
    (us vs ps : List (ℕ × ℤ))
    → AreDistinct (us ++ vs)
    → apply_updates (us ++ vs) ps ≡ apply_updates vs (apply_updates us ps)
apply_updates-append us vs [] d = refl
apply_updates-append us vs (p ∷ ps) d =
    ap (λ x. (p.0, x) ∷ apply_updates (us ++ vs) ps) (updated_status-append us vs p d)
    ∙ ap (◌∷◌ (p.0, updated_status vs (p.0, updated_status us p))) (apply_updates-append us vs ps d)

apply_updates-none : (ps : List (ℕ × ℤ)) → apply_updates [] ps ≡ ps
unfolding first_update
apply_updates-none [] = refl
apply_updates-none (p ∷ ps) = ap (◌∷◌ p) (apply_updates-none ps)

module _ (env : Env) (answers : (n : ℕ) → env.outage n ≡ false) where
  with_status-status :
      (time : ℕ) (a : Article) (o : Option ℤ)
      → ((with_status env time a o).id ≡ a.id)
        × ((with_status env time a o).status ≡ status_or o a.status)
  unfolding with_status
  with_status-status time a none = (refl, refl)
  with_status-status time a (some s) = (refl, refl)

  statuses-update :
      (time : ℕ) (c : List (ℕ × ℤ)) (xs : List Article)
      → statuses (map (update_article_row env time c) xs) ≡ apply_updates c (statuses xs)
  unfolding update_article_row
  statuses-update time c [] = refl
  statuses-update time c (x ∷ xs) =
      let (i, s) = with_status-status time x (first_update x.id c) in
      let rest = map (update_article_row env time c) xs in
      ap (λ y. (y, (with_status env time x (first_update x.id c)).status) ∷ statuses rest) i
      ∙ ap (λ y. (x.id, y) ∷ statuses rest) s
      ∙ ap (◌∷◌ (x.id, updated_status c (x.id, x.status))) (statuses-update time c xs)

  -- The statuses of all articles are these.
  abbrev Are : List (ℕ × ℤ) → World → Type 0
  Are ps v = statuses v.articles ≡ ps

  abbrev Never : World → Type 0
  Never v = ⊥

  -- An operation that applies the updates.
  abbrev Applies : List (ℕ × ℤ) → M Unit → Type 0
  Applies us m = (ps : List (ℕ × ℤ)) → Ensures (Are ps) m (λ _. Are (apply_updates us ps)) Never

  Applies-none : Applies [] (pure tt)
  Applies-none ps v h = h ∙ sym (apply_updates-none ps)

  then-Applies :
      (us vs : List (ℕ × ℤ)) (m n : M Unit)
      → AreDistinct (us ++ vs)
      → Applies us m
      → Applies vs n
      → Applies (us ++ vs) (m >> n)
  then-Applies us vs m n d h k ps =
      subst (λ qs. Ensures (Are ps) (m >> n) (λ _. Are qs) Never)
        (sym (apply_updates-append us vs ps d))
        (>>=-Ensures (λ _. Are (apply_updates us ps))
          (λ _. Are (apply_updates vs (apply_updates us ps))) Never (Are ps) m (λ _. n) (h ps)
          (λ _. k (apply_updates us ps)))

  update_chunks-Applies :
      (time : ℕ) (cs : List (List (ℕ × ℤ)))
      → AreDistinct (flatten cs)
      → Applies (flatten cs) (update_chunks env time cs)
  unfolding update_chunks
  update_chunks-Applies time [] d = Applies-none
  update_chunks-Applies time (c ∷ cs) d =
      then-Applies c (flatten cs) _ (update_chunks env time cs) d
        (λ ps.
          execute-calm env answers _ (Are ps) (Are (apply_updates c ps)) Never
            (λ v h. statuses-update time c v.articles ∙ ap (apply_updates c) h))
        (update_chunks-Applies time cs (distinct-right c (flatten cs) d))

  batch-Applies :
      (us : List (ℕ × ℤ)) → AreDistinct us → Applies us (update_articles_status_batch env us)
  unfolding update_articles_status_batch
  batch-Applies [] d = Applies-none
  batch-Applies (u ∷ us) d = λ ps v h.
      let cs = chunks max_updates_per_batch (u ∷ us) in
      let e = flatten-chunks max_updates_per_batch (u ∷ us) in
      subst
        (λ qs.
          Outcome (λ _. Are (apply_updates qs ps)) Never (update_chunks env (env.now v.calls) cs v))
        e (update_chunks-Applies (env.now v.calls) cs (subst AreDistinct (sym e) d) ps v h)

  flush-Applies : (us : List (ℕ × ℤ)) → AreDistinct us → Applies us (flush env us)
  unfolding flush
  flush-Applies [] d = Applies-none
  flush-Applies (u ∷ us) d = λ ps.
      catch-Ensures (λ _. Are (apply_updates (u ∷ us) ps)) Never
        (λ _. Are (apply_updates (u ∷ us) ps)) Never (Are ps)
        (update_articles_status_batch env (u ∷ us)) (λ _. pure tt) (λ _. pure tt)
        (batch-Applies (u ∷ us) d ps) (λ _ v h. h) (λ _ v h. absurd h)

  batch_updater-Applies :
      (buffer : List (ℕ × ℤ)) (inputs : List Input)
      → IsNotCancelled inputs
      → AreDistinct (buffer ++ drain inputs)
      → Applies (buffer ++ drain inputs) (batch_updater env buffer inputs)
  unfolding batch_updater drain
  batch_updater-Applies buffer [] n d =
      subst (λ us. Applies us (flush env buffer)) (sym (append-nil buffer))
        (flush-Applies buffer (distinct-left buffer [] d))
  batch_updater-Applies buffer (received u ∷ inputs) n d =
      let full = buffer ++ u ∷ [] in
      let e : full ++ drain inputs ≡ buffer ++ u ∷ drain inputs =
        append_assoc buffer (u ∷ []) (drain inputs) in
      let d' = subst AreDistinct (sym e) d in
      subst (λ us. Applies us (batch_updater env buffer (received u ∷ inputs))) e
        λ ps v h. elim (Bool-cases (leb article_batch_size (length full))) [
          | inl t ↦ rw t (
              then-Applies full (drain inputs) (flush env full) (batch_updater env [] inputs) d'
                (flush-Applies full (distinct-left full (drain inputs) d'))
                (batch_updater-Applies [] inputs n (distinct-right full (drain inputs) d')) ps v h)
          | inr t ↦ rw t (batch_updater-Applies full inputs n d' ps v h)
        ]
  batch_updater-Applies buffer (tick ∷ inputs) n d =
      then-Applies buffer (drain inputs) (flush env buffer) (batch_updater env [] inputs) d
        (flush-Applies buffer (distinct-left buffer (drain inputs) d))
        (batch_updater-Applies [] inputs n (distinct-right buffer (drain inputs) d))
  batch_updater-Applies buffer (cancelled ∷ inputs) n d = absurd n

-- Where the database answers, the updater is not cancelled and no article has two updates: whenever
-- the timer ticks, and however the updates fall into buffers and chunks, each article has in the end
-- the status of its update, and one without an update the status that it had.
pub batch_updater-apply_updates :
    (env : Env) (inputs : List Input) (w : World)
    → ((n : ℕ) → env.outage n ≡ false)
    → IsNotCancelled inputs
    → AreDistinct (drain inputs)
    → Outcome
        (λ _ v. statuses v.articles ≡ apply_updates (drain inputs) (statuses w.articles))
        (λ _. ⊥)
        (batch_updater env [] inputs w)
batch_updater-apply_updates env inputs w answers n d =
    batch_updater-Applies env answers [] inputs n d (statuses w.articles) w refl
