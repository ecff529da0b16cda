-- ===== src/Intake/Adding/Sound.antt =====
-- The first and the last step of adding a download, and what they make of the queue and of the other
-- downloads.
use usenet_dl.Base.{
  ==_iff, ℕ, suc, ◌≡◌, ◌≤◌, ◌<◌, refl, sym, ap, subst, ◌∙◌, inl, inr, false, none, some, List, [],
  ◌∷◌, ◌++◌, ◌==◌, arith, Bool-cases, Option-cases, All, length, select,
}
use mathlib.Core.Option
use Prim.Native.String.{String}
use usenet_dl.Types.{DownloadId, queued, status_from_i32, status_to_i32}
use usenet_dl.Types.Codes.{status_from_i32-to_i32}
use usenet_dl.World.{Download, NewDownload, World, Env, query, emit_event}
use usenet_dl.World.Hoare.{Ensures}
use usenet_dl.Db.Downloads.{row_id, insert_download, get_download}
use usenet_dl.Queue.{items_of, add_to_queue}
use usenet_dl.Control.Invariant.{QueueIsSound, status_of, room}
use usenet_dl.Intake.Adding.{finalize_nzb_addition}

-- No row has an id that is still to be handed out.
abbrev pub IsNumbered : World → Type 0
IsNumbered w = All (λ d. d.id ≤ w.last_download_id) w.downloads

select-above :
    (ds : List Download) (n k : ℕ) → All (λ d. d.id ≤ n) ds → n < k → select row_id k ds ≡ none
select-above [] n k h l = refl
select-above (d ∷ ds) n k (a, h) l = ground (arith, a, l, select-above ds n k h l)

select-append_other :
    (ds : List Download) (r : Download) (k : DownloadId)
    → (r.id == k) ≡ false
    → select row_id k (ds ++ r ∷ []) ≡ select row_id k ds
select-append_other [] r k e = rw e
select-append_other (d ∷ ds) r k e = ground (arith, e, select-append_other ds r k e)

select-append_new :
    (ds : List Download) (r : Download)
    → select row_id r.id ds ≡ none
    → select row_id r.id (ds ++ r ∷ []) ≡ some r
select-append_new [] r e = ground arith
select-append_new (d ∷ ds) r e = elim (Bool-cases (d.id == r.id)) [
  | inl h ↦ absurd (ground (arith, h, e))
  | inr h ↦ ground (arith, h, e, select-append_new ds r)
]

All-raise :
    (ds : List Download) (r : Download) (n : ℕ)
    → r.id ≡ suc n
    → All (λ d. d.id ≤ n) ds
    → All (λ d. d.id ≤ suc n) (ds ++ r ∷ [])
All-raise [] r n e h = (omega (arith, e), tt)
All-raise (d ∷ ds) r n e (a, h) = (omega (arith, a), All-raise ds r n e h)

-- The downloads that there were in `u` have their statuses and their items.
abbrev pub OthersStay : World → World → Type 0
OthersStay u w =
    (j : DownloadId)
    → j ≤ u.last_download_id
    → (status_of j w ≡ status_of j u) × (items_of j w.queue ≡ items_of j u.queue)

abbrev pub IsKept : World → World → Type 0
IsKept u w = QueueIsSound w × IsNumbered w × OthersStay u w

-- The row of `id` says queued, and `n` items are in the queue for it.
abbrev pub IsQueued : ℕ → DownloadId → World → Type 0
IsQueued n id w = (status_of id w ≡ some queued) × (length (items_of id w.queue) ≡ n)

abbrev pub with_row : World → Download → World
with_row w r = record w {
  downloads = w.downloads ++ r ∷ [];
  last_download_id = suc w.last_download_id;
  calls = suc w.calls;
}

-- A row with a new id that says queued.
module _ (w : World) (r : Download) (new : r.id ≡ suc w.last_download_id)
    (says : status_from_i32 r.status ≡ queued) (numbered : IsNumbered w) where
  status_of-before : status_of r.id w ≡ none
  status_of-before =
      ap (Option.map (λ d. status_from_i32 d.status))
        (select-above w.downloads w.last_download_id r.id numbered (omega (arith, new)))

  pub status_of-new : status_of r.id (with_row w r) ≡ some queued
  status_of-new =
      ap (Option.map (λ d. status_from_i32 d.status)) (
        select-append_new w.downloads r
          (select-above w.downloads w.last_download_id r.id numbered (omega (arith, new))))
      ∙ ap some says

  status_of-old :
      (j : DownloadId) → (r.id == j) ≡ false → status_of j (with_row w r) ≡ status_of j w
  status_of-old j e =
      ap (Option.map (λ d. status_from_i32 d.status)) (select-append_other w.downloads r j e)

  pub items_of-new : QueueIsSound w → length (items_of r.id w.queue) ≡ 0
  items_of-new sound = ground (arith, sound r.id, status_of-before)

  with_row-QueueIsSound : QueueIsSound w → QueueIsSound (with_row w r)
  with_row-QueueIsSound sound j = elim (Bool-cases (r.id == j)) [
    | inl e ↦
        subst (λ k. length (items_of k w.queue) ≤ room (status_of k (with_row w r)))
          ((==_iff r.id j).0 e) (omega (arith, items_of-new sound))
    | inr e ↦ subst (λ s. length (items_of j w.queue) ≤ room s) (sym (status_of-old j e)) (sound j)
  ]

  with_row-OthersStay :
      (u : World)
      → w.last_download_id ≡ u.last_download_id
      → OthersStay u w
      → OthersStay u (with_row w r)
  with_row-OthersStay u e others j l =
      (status_of-old j (ground (arith, new, e, l)) ∙ (others j l).0, (others j l).1)

module _ (u : World) where
  abbrev pub id : DownloadId
  id = suc u.last_download_id

  abbrev pub Before : World → Type 0
  Before w = IsKept u w × (w.last_download_id ≡ u.last_download_id)

  abbrev pub Stored : World → Type 0
  Stored w = IsKept u w × IsQueued 0 id w

  with_row-Stored :
      (w : World) (r : Download)
      → r.id ≡ suc w.last_download_id
      → status_from_i32 r.status ≡ queued
      → Before w
      → Stored (with_row w r)
  with_row-Stored w r new says ((sound, numbered, others), e) = (
    (
      with_row-QueueIsSound w r new says numbered sound,
      All-raise w.downloads r w.last_download_id new numbered,
      with_row-OthersStay w r new says numbered u e others,
    ),
    subst (λ k. IsQueued 0 k (with_row w r)) (new ∙ ap suc e)
        (status_of-new w r new says numbered, items_of-new w r new says numbered sound),
  )

  pub insert_download-Stored :
      (env : Env) (d : NewDownload)
      → d.status ≡ status_to_i32 queued
      → Ensures Before (insert_download env d) (λ new w. (new ≡ id) × Stored w) (IsKept u)
  unfolding insert_download
  insert_download-Stored env d q w (kept, e) = elim (Bool-cases (env.outage w.calls)) [
    | inl o ↦ rw o kept
    | inr o ↦ rw o (
      ap suc e,
      with_row-Stored w _ refl (ap status_from_i32 q ∙ status_from_i32-to_i32 queued) (kept, e),
    )
  ]

  pub finalize_nzb_addition-Queued :
      (env : Env) (name : String)
      → Ensures Stored
          (finalize_nzb_addition env id name)
          (λ _ w. IsKept u w × IsQueued 1 id w)
          (IsKept u)
  unfolding finalize_nzb_addition add_to_queue get_download query emit_event
  finalize_nzb_addition-Queued env name w ((sound, numbered, others), (q, n)) =
      elim (Bool-cases (env.outage w.calls)) [
        | inl o ↦ rw o (sound, numbered, others)
        | inr o ↦ elim (Option-cases (select row_id id w.downloads)) [
          | inl s ↦ absurd (ground (arith, s, q))
          | inr (d, s) ↦
              rw (o, s)
                (
                  (
                    λ j. ground (arith, sound j, q, n),
                    numbered,
                    λ j l. ((others j l).0, ground (arith, others j l)),
                  ),
                  (q, ground (arith, n)),
                )
        ]
      ]
