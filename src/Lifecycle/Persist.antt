-- ===== src/Lifecycle/Persist.antt =====
-- What `persist_all_state` leaves.
use usenet_dl.Base.{
  ==_iff, ℕ, zero, suc, ◌≡◌, refl, sym, ap, ◌∙◌, subst, inl, inr, Bool, true, false, ◌&&◌, ◌||◌,
  not, Option, none, some, List, [], ◌∷◌, ◌==◌, if◌then◌else◌, arith, All, Bool-cases, any, select,
}
use mathlib.Core.Option
use usenet_dl.Base.Int.{ℤ, pos, negsuc, eqb_ℤ}
use usenet_dl.Types.{
  DownloadId, Status, downloading, paused, processing, status_from_i32, status_to_i32,
}
use usenet_dl.World.{Download, World, Env, pure, query}
use usenet_dl.World.Hoare.{Outcome, Ensures, >>=-Ensures, execute-ok}
use usenet_dl.Db.Downloads.{
  insert_by, row_id, update_row, update_status, get_all_downloads, sort_by, by_age,
}
use usenet_dl.Db.Downloads.Distinct.{
  IsFresh, IsDistinct, IsDistinct-sort_by, All-sort_by, All-select,
}
use usenet_dl.Control.Invariant.{status_of, status_of-update, set_status}
use usenet_dl.Lifecycle.{is_active, is_in_progress, persist_one, persist_each, persist_all_state}

-- What the status becomes.
abbrev pub after : Bool → Option Status → Option Status
after false (some downloading) = some paused
after false (some processing) = some paused
after false s = s
after true s = s

after-row :
    (d : Download)
    → after false (some (status_from_i32 d.status))
      ≡ some (if is_in_progress d then paused else status_from_i32 d.status)
unfolding status_from_i32 status_to_i32
after-row d = go d.status
  where
    go :
        (z : ℤ)
        → after false (some (status_from_i32 z))
          ≡ some (
              if eqb_ℤ z (status_to_i32 downloading) || eqb_ℤ z (status_to_i32 processing)
              then paused
              else status_from_i32 z)
    go (pos zero) = refl
    go (pos (suc zero)) = refl
    go (pos (suc (suc zero))) = refl
    go (pos (suc (suc (suc zero)))) = refl
    go (pos (suc (suc (suc (suc zero))))) = refl
    go (pos (suc (suc (suc (suc (suc zero)))))) = refl
    go (pos (suc (suc (suc (suc (suc (suc n))))))) = ground arith
    go (negsuc n) = refl

-- The rows that are still to come, `ds`, have their statuses; the others have theirs from `w`.
abbrev Loop : World → List Download → World → Type 0
Loop w ds v =
    (v.active ≡ w.active)
    × ((j : DownloadId)
        → status_of j v ≡ (
            if any (λ d. d.id == j) ds
            then status_of j w
            else after (is_active j w) (status_of j w)))

any-insert_by :
    (p : Download → Bool) (before : Download → Download → Bool) (x : Download) (xs : List Download)
    → any p (insert_by before x xs) ≡ (p x || any p xs)
unfolding insert_by
any-insert_by p before x [] = refl
any-insert_by p before x (y ∷ ys) = ground (arith, any-insert_by p before x ys)

any-sort_by :
    (p : Download → Bool) (before : Download → Download → Bool) (xs : List Download)
    → any p (sort_by before xs) ≡ any p xs
unfolding sort_by
any-sort_by p before [] = refl
any-sort_by p before (x ∷ xs) =
    any-insert_by p before x (sort_by before xs) ∙ ap (λ b. p x || b) (any-sort_by p before xs)

select-none :
    (j : DownloadId) (ds : List Download)
    → any (λ d. d.id == j) ds ≡ false
    → select row_id j ds ≡ none
select-none j [] h = refl
select-none j (d ∷ ds) h = ground (arith, h, select-none j ds)

after-none : (b : Bool) → after b none ≡ none
after-none true = refl
after-none false = refl

-- At the start all rows are still to come.
Loop-start : (w : World) (n : ℕ) → Loop w (sort_by by_age w.downloads) (record w { calls = n })
Loop-start w n = (
  refl,
  λ j. elim (Bool-cases (any (λ d. d.id == j) w.downloads)) [
    | inl e ↦ rw (any-sort_by (λ d. d.id == j) by_age w.downloads, e) refl
    | inr e ↦
        let missing : status_of j w ≡ none =
          ap (Option.map (λ d. status_from_i32 d.status)) (select-none j w.downloads e) in
        rw (any-sort_by (λ d. d.id == j) by_age w.downloads, e)
          (missing ∙ sym (ap (after (is_active j w)) missing ∙ after-none (is_active j w)))
  ],
)

rows-Say :
    (all ds : List Download)
    → All (λ d. select row_id d.id all ≡ some d) ds
    → All
        (λ d.
          Option.map (λ r. status_from_i32 r.status) (select row_id d.id all)
          ≡ some (status_from_i32 d.status))
        ds
rows-Say all [] h = tt
rows-Say all (d ∷ ds) (e, h) =
    (ap (Option.map (λ r. status_from_i32 r.status)) e, rows-Say all ds h)

module _ (env : Env) (answers : (n : ℕ) → env.outage n ≡ false) (w : World) where
  -- The row `d` is settled, and the other statuses are those of `v`.
  settle-Loop :
      (d : Download) (ds : List Download) (v v' : World)
      → any (λ e. e.id == d.id) ds ≡ false
      → Loop w (d ∷ ds) v
      → v'.active ≡ v.active
      → ((j : DownloadId)
          → status_of j v'
            ≡ (if d.id == j then after (is_active d.id w) (status_of d.id w) else status_of j v))
      → Loop w ds v'
  settle-Loop d ds v v' f (a, h) b k = (
    b ∙ a,
    λ j. elim (Bool-cases (d.id == j)) [
      | inl e ↦
          subst
            (λ i. status_of i v' ≡ (
              if any (λ d. d.id == i) ds
              then status_of i w
              else after (is_active i w) (status_of i w)))
            ((==_iff d.id j).0 e) (ground (arith, k d.id, f))
      | inr e ↦ ground (arith, k j, h j, e)
    ],
  )

  unmoved :
      (d : Download) (v : World) (x : Option Status)
      → x ≡ status_of d.id v
      → (j : DownloadId) → status_of j v ≡ (if d.id == j then x else status_of j v)
  unmoved d v x e j = elim (Bool-cases (d.id == j)) [
    | inl h ↦
        subst (λ i. status_of i v ≡ (if d.id == i then x else status_of i v)) ((==_iff d.id j).0 h)
          (ground (arith, e))
    | inr h ↦ rw h refl
  ]

  persist_one-Loop :
      (d : Download) (ds : List Download)
      → status_of d.id w ≡ some (status_from_i32 d.status)
      → any (λ e. e.id == d.id) ds ≡ false
      → Ensures (Loop w (d ∷ ds)) (persist_one env d) (λ _. Loop w ds) (λ _. ⊥)
  unfolding persist_one update_status update_row
  persist_one-Loop d ds s f v (a, h) =
      let same : is_active d.id v ≡ is_active d.id w =
        ap (λ (l : List (DownloadId × ℕ)). any (λ e. e.0 == d.id) l) a in
      let kept : status_of d.id v ≡ status_of d.id w = ground (arith, h d.id) in
      go (is_active d.id v) (is_in_progress d) same kept refl
    where
      go :
          (act prog : Bool)
          → act ≡ is_active d.id w
          → status_of d.id v ≡ status_of d.id w
          → is_in_progress d ≡ prog
          → Outcome
              (λ _. Loop w ds)
              (λ _. ⊥)
              (if not act && prog
                then update_status env d.id (status_to_i32 paused) v
                else pure tt v)
      go true prog e k p =
          settle-Loop d ds v v f (a, h) refl
            (unmoved d v (after (is_active d.id w) (status_of d.id w))
              (subst (λ b. after b (status_of d.id w) ≡ status_of d.id v) e (sym k)))
      go false false e k p =
          settle-Loop d ds v v f (a, h) refl
            (unmoved d v (after (is_active d.id w) (status_of d.id w)) (
              subst (λ b. after b (status_of d.id w) ≡ status_of d.id v) e
                (ap (after false) s
                  ∙ after-row d
                  ∙ ap (λ b. some (if b then paused else status_from_i32 d.status)) p
                  ∙ sym s
                  ∙ sym k)))
      go false true e k p =
          let become : after (is_active d.id w) (status_of d.id w) ≡ some paused =
            subst (λ b. after b (status_of d.id w) ≡ some paused) e
              (ap (after false) s
                ∙ after-row d
                ∙ ap (λ b. some (if b then paused else status_from_i32 d.status)) p) in
          subst (Outcome (λ _. Loop w ds) (λ _. ⊥))
            (sym (execute-ok env (update_row d.id (set_status paused)) v (answers v.calls)))
            (settle-Loop d ds v
              (record (update_row d.id (set_status paused) v) { calls = suc v.calls }) f (a, h) refl
              (λ j. ground (arith, status_of-update j d.id paused v, become, k, s)))

  any-fresh :
      (id : DownloadId) (ds : List Download) → IsFresh id ds → any (λ e. e.id == id) ds ≡ false
  any-fresh id [] h = refl
  any-fresh id (d ∷ ds) (a, h) = ground (arith, a, any-fresh id ds h)

  persist_each-Loop :
      (ds : List Download)
      → IsDistinct ds
      → All (λ d. status_of d.id w ≡ some (status_from_i32 d.status)) ds
      → Ensures (Loop w ds) (persist_each env ds) (λ _. Loop w []) (λ _. ⊥)
  unfolding persist_each
  persist_each-Loop [] i s = λ v h. h
  persist_each-Loop (d ∷ ds) (f, i) (k, s) =
      >>=-Ensures (λ _. Loop w ds) (λ _. Loop w []) (λ _. ⊥) (Loop w (d ∷ ds)) _ _
        (persist_one-Loop d ds k (any-fresh d.id ds f)) (λ _. persist_each-Loop ds i s)

  -- Where the database answers and ids are distinct, a download that says downloading or processing
  -- and has no task any more says paused afterwards, and any other status stays.
  pub persist_all_state-after :
      IsDistinct w.downloads
      → Outcome
          (λ _ v.
            (v.active ≡ w.active)
            × ((j : DownloadId) → status_of j v ≡ after (is_active j w) (status_of j w)))
          (λ _. ⊥)
          (persist_all_state env w)
  unfolding persist_all_state get_all_downloads query
  persist_all_state-after i = rw (answers w.calls) (
      persist_each-Loop (sort_by by_age w.downloads) (IsDistinct-sort_by by_age w.downloads i)
        (All-sort_by _ by_age w.downloads
          (rows-Say w.downloads w.downloads (All-select w.downloads i)))
        (record w { calls = suc w.calls }) (Loop-start w (suc w.calls)))
