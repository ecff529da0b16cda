-- ===== src/Queue/Order.antt =====
-- What `pop` and `remove_from_queue` give.
use usenet_dl.Base.{
  ◌+◌, ◌≤◌, ◌<◌, ◌≡◌, refl, ◌⊎◌, Bool, true, false, Option, none, some, List, [], ◌∷◌, ltb, ◌==◌,
  if◌then◌else◌, All, arith, length,
}
use mathlib.Core.List.Perm
use mathlib.Core.List.{Perm}
use usenet_dl.Types.{DownloadId, rank}
use usenet_dl.World.{QueuedDownload, World, ok}
use usenet_dl.Queue.{cmp, is_less, take_max, pop, items_of, without, remove_from_queue}
use usenet_dl.Control.Invariant.{items_of-without}

-- `a` is to be started no later than `b`: it has a higher priority, or the same and is not younger.
abbrev pub Precedes : QueuedDownload → QueuedDownload → Type 0
Precedes a b =
    (rank b.priority < rank a.priority)
    ⊎ ((rank a.priority ≡ rank b.priority) × (a.created_at ≤ b.created_at))

Precedes-total : (a b : QueuedDownload) → is_less a b ≡ false → Precedes a b
unfolding cmp
Precedes-total a b h = ground arith

Precedes-less : (a b : QueuedDownload) → is_less a b ≡ true → Precedes b a
unfolding cmp
Precedes-less a b h = ground arith

Precedes-trans : (a b c : QueuedDownload) → Precedes a b → Precedes b c → Precedes a c
Precedes-trans a b c h k = ground arith

All-Precedes :
    (a b : QueuedDownload) (xs : List QueuedDownload)
    → Precedes a b
    → All (Precedes b) xs
    → All (Precedes a) xs
All-Precedes a b [] h k = tt
All-Precedes a b (x ∷ xs) h (p, k) = (Precedes-trans a b x h p, All-Precedes a b xs h k)

-- The item taken, with those that stay, are the items that were there, and it precedes each of these.
abbrev pub IsMaxOf : List QueuedDownload → QueuedDownload × List QueuedDownload → Type 0
IsMaxOf queue (m, rest) = Perm (m ∷ rest) queue × All (Precedes m) queue

Precedes-refl : (a : QueuedDownload) → Precedes a a
Precedes-refl a = ground arith

choose-IsMaxOf :
    (b : Bool) (x y : QueuedDownload) (ys : List QueuedDownload)
    (r : QueuedDownload × List QueuedDownload)
    → is_less x r.0 ≡ b
    → IsMaxOf (y ∷ ys) r
    → IsMaxOf (x ∷ y ∷ ys) (if b then (r.0, x ∷ r.1) else (x, y ∷ ys))
choose-IsMaxOf true x y ys (m, rest) h (perm, first) =
    (Perm.trans (Perm.swap x m rest) (Perm.cons x perm), (Precedes-less x m h, first))
choose-IsMaxOf false x y ys (m, rest) h (perm, first) =
    (Perm.rfl, (Precedes-refl x, All-Precedes x m (y ∷ ys) (Precedes-total x m h) first))

pub take_max-IsMaxOf :
    (x : QueuedDownload) (xs : List QueuedDownload) → IsMaxOf (x ∷ xs) (take_max x xs)
unfolding take_max
take_max-IsMaxOf x [] = (Perm.rfl, (Precedes-refl x, tt))
take_max-IsMaxOf x (y ∷ ys) =
    choose-IsMaxOf (is_less x (take_max y ys).0) x y ys (take_max y ys) refl (take_max-IsMaxOf y ys)

-- Nothing comes from an empty queue alone; what comes from another is an item and the others.
abbrev pub IsPopOf : List QueuedDownload → Option (QueuedDownload × List QueuedDownload) → Type 0
IsPopOf queue none = queue ≡ []
IsPopOf queue (some taken) = IsMaxOf queue taken

-- `pop` takes nothing exactly from an empty queue. From any other it takes an item, and leaves the
-- others: one of the highest priority, and among these of the greatest age.
pub pop-IsPopOf : (queue : List QueuedDownload) → IsPopOf queue (pop queue)
unfolding pop
pop-IsPopOf [] = refl
pop-IsPopOf (x ∷ xs) = take_max-IsMaxOf x xs

length-without :
    (id : DownloadId) (queue : List QueuedDownload)
    → length (without id queue) + length (items_of id queue) ≡ length queue
length-without id [] = refl
length-without id (x ∷ queue) = ground (arith, length-without id queue)

-- `remove_from_queue` says whether the download had an item, and takes all its items out of the
-- queue and no other.
pub remove_from_queue_lem :
    (id j : DownloadId) (w : World)
    → ((remove_from_queue id w).0 ≡ ok (ltb 0 (length (items_of id w.queue))))
      × (items_of j (remove_from_queue id w).1.queue ≡ (if j == id then [] else items_of j w.queue))
unfolding remove_from_queue
remove_from_queue_lem id j w =
    (ground (arith, length-without id w.queue), items_of-without j id w.queue)
