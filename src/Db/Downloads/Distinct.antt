-- ===== src/Db/Downloads/Distinct.antt =====
-- Rows with distinct ids, and what the ORDER BY and WHERE of a query keep of a property of rows.
use usenet_dl.Base.{
  ◌≡◌, inl, inr, Bool, false, some, List, [], ◌∷◌, ◌==◌, filter, All, arith, Bool-cases, all,
  select,
}
use usenet_dl.Types.{DownloadId}
use usenet_dl.World.{Download}
use usenet_dl.Db.Downloads.{row_id, insert_by, sort_by}

-- The id is that of none of the rows.
abbrev pub IsFresh : DownloadId → List Download → Type 0
IsFresh id ds = All (λ e. (e.id == id) ≡ false) ds

abbrev pub IsDistinct : List Download → Type 0
IsDistinct [] = Unit
IsDistinct (d ∷ ds) = IsFresh d.id ds × IsDistinct ds

All-insert_by :
    (P : Download → Type 0) (before : Download → Download → Bool) (x : Download)
    (xs : List Download)
    → P x
    → All P xs
    → All P (insert_by before x xs)
unfolding insert_by
All-insert_by P before x [] p h = (p, tt)
All-insert_by P before x (y ∷ ys) p (q, h) = elim (Bool-cases (before y x)) [
  | inl e ↦ rw e (q, All-insert_by P before x ys p h)
  | inr e ↦ rw e (p, (q, h))
]

pub All-sort_by :
    (P : Download → Type 0) (before : Download → Download → Bool) (xs : List Download)
    → All P xs
    → All P (sort_by before xs)
unfolding sort_by
All-sort_by P before [] h = tt
All-sort_by P before (x ∷ xs) (p, h) =
    All-insert_by P before x (sort_by before xs) p (All-sort_by P before xs h)

apart-sym : (a b : DownloadId) → (a == b) ≡ false → (b == a) ≡ false
apart-sym a b h = ground arith

IsDistinct-insert_by :
    (before : Download → Download → Bool) (x : Download) (xs : List Download)
    → IsFresh x.id xs
    → IsDistinct xs
    → IsDistinct (insert_by before x xs)
unfolding insert_by
IsDistinct-insert_by before x [] f h = (tt, tt)
IsDistinct-insert_by before x (y ∷ ys) (a, f) (g, h) = elim (Bool-cases (before y x)) [
  | inl e ↦ rw e (
    All-insert_by (λ d. (d.id == y.id) ≡ false) before x ys (apart-sym y.id x.id a) g,
    IsDistinct-insert_by before x ys f h,
  )
  | inr e ↦ rw e ((a, f), (g, h))
]

pub IsDistinct-sort_by :
    (before : Download → Download → Bool) (xs : List Download)
    → IsDistinct xs
    → IsDistinct (sort_by before xs)
unfolding sort_by
IsDistinct-sort_by before [] h = tt
IsDistinct-sort_by before (x ∷ xs) (f, h) =
    IsDistinct-insert_by before x (sort_by before xs)
      (All-sort_by (λ d. (d.id == x.id) ≡ false) before xs f) (IsDistinct-sort_by before xs h)

pub All-filter :
    (P : Download → Type 0) (p : Download → Bool) (xs : List Download)
    → All P xs
    → All P (filter p xs)
All-filter P p [] h = tt
All-filter P p (x ∷ xs) (q, h) = elim (Bool-cases (p x)) [
  | inl e ↦ rw e (q, All-filter P p xs h)
  | inr e ↦ rw e (All-filter P p xs h)
]

pub IsDistinct-filter :
    (p : Download → Bool) (xs : List Download) → IsDistinct xs → IsDistinct (filter p xs)
IsDistinct-filter p [] h = tt
IsDistinct-filter p (x ∷ xs) (f, h) = elim (Bool-cases (p x)) [
  | inl e ↦ rw e (All-filter (λ d. (d.id == x.id) ≡ false) p xs f, IsDistinct-filter p xs h)
  | inr e ↦ rw e (IsDistinct-filter p xs h)
]

All-behind :
    (x : Download) (all xs : List Download)
    → IsFresh x.id xs
    → All (λ d. select row_id d.id all ≡ some d) xs
    → All (λ d. select row_id d.id (x ∷ all) ≡ some d) xs
All-behind x all [] f h = tt
All-behind x all (d ∷ ds) (a, f) (e, h) = (ground arith, All-behind x all ds f h)

-- Each of the rows is the one that its id selects.
pub All-select : (xs : List Download) → IsDistinct xs → All (λ d. select row_id d.id xs ≡ some d) xs
All-select [] h = tt
All-select (x ∷ xs) (f, h) = (ground arith, All-behind x xs xs f (All-select xs h))
