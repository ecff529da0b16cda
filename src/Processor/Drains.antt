-- ===== src/Processor/Drains.antt =====
-- The passes of the loop, left to themselves.
use usenet_dl.Base.{
  ℕ, zero, suc, ◌+◌, ◌≤◌, ◌<◌, ◌≡◌, refl, sym, ap, ◌∙◌, subst, none, List, [], ◌∷◌, ◌++◌, map, All,
  arith, length, Bool-cases, inl, inr,
}
use mathlib.Core.List.Perm
use mathlib.Core.List.{Perm}
use usenet_dl.Types.{DownloadId}
use usenet_dl.World.{QueuedDownload}
use usenet_dl.Queue.{take_max, is_less, pop}
use usenet_dl.Queue.Order.{Precedes, take_max-IsMaxOf}
use usenet_dl.Processor.{
  Processor, register, take_next, take_next_of, start_with, start_held_of, start_held, pass,
}

-- So many passes, one after the other.
unfoldable pub passes : ℕ → Processor → Processor
passes zero p = p
passes (suc n) p = passes n (pass p)

-- The ids of the items are put before `ids`, the last one first.
abbrev pub push_ids : List QueuedDownload → List DownloadId → List DownloadId
push_ids [] ids = ids
push_ids (i ∷ items) ids = push_ids items (i.id ∷ ids)

-- Each item precedes the later ones and the rest.
abbrev pub AreInOrder : List QueuedDownload → List QueuedDownload → Type 0
AreInOrder [] rest = Unit
AreInOrder (i ∷ items) rest = All (Precedes i) (items ++ rest) × AreInOrder items rest

-- `n` downloads were started from `p` to `q`: a choice of the items of the queue, in the order of
-- precedence among themselves and before those that stay.
abbrev pub HasStarted : ℕ → Processor → Processor → Type 0
HasStarted n p q =
    (items : List QueuedDownload) × (length items ≡ n)
    × Perm (items ++ q.world.queue) p.world.queue
    × AreInOrder items q.world.queue
    × (map (λ t. t.0) q.running ≡ push_ids items (map (λ t. t.0) p.running))
    × (q.held ≡ none)
    × (p.free ≡ n + q.free)

-- What is left by `pop` has the properties of the whole, and one item less.
take_max-All :
    (P : QueuedDownload → Type 0) (x : QueuedDownload) (xs : List QueuedDownload)
    → All P (x ∷ xs)
    → P (take_max x xs).0 × All P (take_max x xs).1
unfolding take_max
take_max-All P x [] h = h
take_max-All P x (y ∷ ys) (p, h) =
    let (q, k) = take_max-All P y ys h in
    elim (Bool-cases (is_less x (take_max y ys).0)) [
      | inl e ↦ rw e (q, (p, k))
      | inr e ↦ rw e (p, h)
    ]

length-take_max :
    (x : QueuedDownload) (xs : List QueuedDownload) → length (take_max x xs).1 ≡ length xs
unfolding take_max
length-take_max x [] = refl
length-take_max x (y ∷ ys) =
    let n = length-take_max y ys in
    elim (Bool-cases (is_less x (take_max y ys).0)) [ inl e ↦ rw e (ap suc n) | inr e ↦ rw e refl ]

-- A state in which a pass takes an item and starts it.
pass_started :
    (p : Processor) (x : QueuedDownload) (xs : List QueuedDownload) (free : ℕ)
    → p.world.queue ≡ x ∷ xs
    → p.free ≡ suc free
    → let q = pass p in
      let (m, rest) = take_max x xs in
      (q.world.queue ≡ rest)
      × (q.held ≡ none)
      × (q.free ≡ free)
      × (map (λ t. t.0) q.running ≡ m.id ∷ map (λ t. t.0) p.running)
unfolding pass take_next take_next_of start_held start_held_of start_with pop register
pass_started p x xs free h f = rw (h, f) (refl, refl, refl, refl)

queue-cases :
    (xs : List QueuedDownload)
    → 0 < length xs
    → (x : QueuedDownload) × (ys : List QueuedDownload) × (xs ≡ x ∷ ys)
queue-cases [] l = absurd (omega (arith, l))
queue-cases (x ∷ xs) l = (x, xs, refl)

pred : (n m : ℕ) → n < m → (k : ℕ) × (m ≡ suc k)
pred n zero l = absurd (omega (arith, l))
pred n (suc m) l = (m, refl)

-- With what holds of all the items.
passes-All :
    (n : ℕ) (p : Processor)
    → p.held ≡ none
    → n ≤ p.free
    → n ≤ length p.world.queue
    → (s : HasStarted n p (passes n p)) × ((P : QueuedDownload → Type 0)
        → All P p.world.queue
        → All P (s.0 ++ (passes n p).world.queue))
unfolding passes
passes-All zero p h f l = (([], refl, Perm.rfl, tt, refl, h, omega arith), λ P k. k)
passes-All (suc n) p h f l =
    let (x, xs, e) = queue-cases p.world.queue (omega (arith, l)) in
    let (free, d) = pred n p.free (omega (arith, f)) in
    let (a, b, c, r) = pass_started p x xs free e d in
    let (m, rest) = take_max x xs in
    let ((items, len, perm, order, ids, held, fr), all) =
      passes-All n (pass p) b (omega (arith, c, d, f))
        (omega (arith, ap length a, length-take_max x xs, ap length e, l)) in
    let max = take_max-IsMaxOf x xs in
    let on_rest : (P : QueuedDownload → Type 0)
        → All P (x ∷ xs)
        → All P (items ++ (passes n (pass p)).world.queue) =
      λ P k. all P (subst (All P) (sym a) (take_max-All P x xs k).1) in
    (
      (
        m ∷ items,
        ap suc len,
        subst (Perm (m ∷ (items ++ (passes n (pass p)).world.queue))) (sym e) (
            Perm.trans
              (Perm.cons m (subst (Perm (items ++ (passes n (pass p)).world.queue)) a perm)) max.0),
        (on_rest (Precedes m) max.1, order),
        ids ∙ ap (push_ids items) r,
        held,
        omega (arith, fr, c, d),
      ),
      λ P k. ((take_max-All P x xs (subst (All P) e k)).0, on_rest P (subst (All P) e k)),
    )

-- While there are permits and items for `n` downloads, `n` passes start `n` tasks: of items of the queue, each of which precedes, by the
-- priority and the age, the later ones and those that stay. No item is lost, and none is left held.
pub passes-HasStarted :
    (n : ℕ) (p : Processor)
    → p.held ≡ none
    → n ≤ p.free
    → n ≤ length p.world.queue
    → HasStarted n p (passes n p)
passes-HasStarted n p h f l = (passes-All n p h f l).0
