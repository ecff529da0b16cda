-- ===== src/Queue.antt =====
-- The in-memory priority queue: `Ord for QueuedDownload` in src/downloader/mod.rs, and
-- src/downloader/queue.rs. The queue is a `BinaryHeap`, modelled by the list of its items; `pop`
-- takes a greatest item, the first of these in the list.
pub mod Order
use usenet_dl.Base.{
  Bool, true, false, not, Option, none, some, List, [], ◌∷◌, ltb, ◌==◌, if◌then◌else◌, filter,
  length,
}
use Prim.Native.Nat.{compare, Ordering}
use usenet_dl.Types.{DownloadId, rank, priority_from_i32}
use usenet_dl.World.{
  Download, QueuedDownload, World, Env, M, ok, or_throw, modify, ◌>>=◌, database_not_found,
}
use usenet_dl.Db.Downloads.{get_download}

-- `Ord::cmp`: by priority, then the older one is the greater.
unfoldable pub cmp : QueuedDownload → QueuedDownload → Ordering
cmp a b = elim (compare (rank a.priority) (rank b.priority)) [
  | Ordering.eq ↦ compare b.created_at a.created_at
  | Ordering.lt ↦ Ordering.lt
  | Ordering.gt ↦ Ordering.gt
]

abbrev pub is_less : QueuedDownload → QueuedDownload → Bool
is_less a b = elim (cmp a b) [ Ordering.lt ↦ true | _ ↦ false ]

-- `BinaryHeap::push`
abbrev pub push : QueuedDownload → List QueuedDownload → List QueuedDownload
push item queue = item ∷ queue

-- A greatest item and the others: `BinaryHeap::pop`.
unfoldable pub take_max :
    QueuedDownload → List QueuedDownload → QueuedDownload × List QueuedDownload
unfolding cmp
take_max x [] = (x, [])
take_max x (y ∷ ys) =
    let (m, rest) = take_max y ys in if is_less x m then (m, x ∷ rest) else (x, y ∷ ys)

unfoldable pub pop : List QueuedDownload → Option (QueuedDownload × List QueuedDownload)
unfolding take_max
pop [] = none
pop (x ∷ xs) = some (take_max x xs)

-- The items of one download.
abbrev pub items_of : DownloadId → List QueuedDownload → List QueuedDownload
items_of id queue = filter (λ item. item.id == id) queue

-- `queue.drain().filter(|item| item.id != id)`
abbrev pub without : DownloadId → List QueuedDownload → List QueuedDownload
without id queue = filter (λ item. not (item.id == id)) queue

unfoldable pub remove_from_queue : DownloadId → M Bool
remove_from_queue id w =
    let items = without id w.queue in
    (ok (ltb (length items) (length w.queue)), record w { queue = items })

unfoldable pub add_to_queue : Env → DownloadId → M Unit
add_to_queue env id = do
  row ← get_download env id
  d ← or_throw row (database_not_found id)
  modify (λ w. record w {
    queue =
        push
          (record { id = id; priority = priority_from_i32 d.priority; created_at = d.created_at })
          w.queue;
  })
