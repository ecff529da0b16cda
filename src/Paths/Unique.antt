-- ===== src/Paths/Unique.antt =====
-- What `get_unique_path` gives.
use usenet_dl.Base.{
  ℕ, zero, suc, ◌+◌, ◌≤◌, ◌<◌, ◌≡◌, refl, sym, subst, inl, inr, true, false, Option, none, some,
  arith, Bool-cases, ◌==◌, ==_iff,
}
use Prim.Native.String.{String}
use usenet_dl.Paths.{
  FileCollisionAction, rename, overwrite, skip, PathReader, UniquePath, ok, file_collision,
  invalid_path, max_rename_attempts, new_path, try_names, rename_parts, get_unique_path,
}

module _ {P : Type 0} (fs : PathReader P) where
  -- The first of the candidates from `i` on, `left` at most, that is free, or all of them are taken.
  abbrev pub IsFirstFree : P → String → P → ℕ → ℕ → UniquePath P → Type 0
  IsFirstFree path stem dir i left (ok q) =
      (k : ℕ) × (i ≤ k)
      × (k < i + left)
      × (q ≡ new_path fs path stem dir k)
      × (fs.exists q ≡ false)
      × ((n : ℕ) → i ≤ n → n < k → fs.exists (new_path fs path stem dir n) ≡ true)
  IsFirstFree path stem dir i left (file_collision q reason) =
      (q ≡ path) × ((n : ℕ) → i ≤ n → n < i + left → fs.exists (new_path fs path stem dir n) ≡ true)
  IsFirstFree path stem dir i left (invalid_path q reason) = ⊥

  -- What holds of `i` and of the numbers after it holds of all from `i` on.
  taken_from :
      (path : P) (stem : String) (dir : P) (i b : ℕ)
      → fs.exists (new_path fs path stem dir i) ≡ true
      → ((n : ℕ) → suc i ≤ n → n < b → fs.exists (new_path fs path stem dir n) ≡ true)
      → (n : ℕ) → i ≤ n
      → n < b
      → fs.exists (new_path fs path stem dir n) ≡ true
  taken_from path stem dir i b e f n l m = elim (Bool-cases (n == i)) [
    | inl h ↦ subst (λ j. fs.exists (new_path fs path stem dir j) ≡ true) (sym ((==_iff n i).0 h)) e
    | inr h ↦ f n (ground (arith, l, h)) m
  ]

  step-IsFirstFree :
      (path : P) (stem : String) (dir : P) (i left : ℕ) (r : UniquePath P)
      → fs.exists (new_path fs path stem dir i) ≡ true
      → IsFirstFree path stem dir (suc i) left r
      → IsFirstFree path stem dir i (suc left) r
  step-IsFirstFree path stem dir i left (ok q) e (k, a, b, c, d, f) =
      (k, omega (arith, a), omega (arith, b), c, d, taken_from path stem dir i k e f)
  step-IsFirstFree path stem dir i left (file_collision q reason) e (c, f) =
      (c, taken_from path stem dir i (i + suc left) e (λ n l m. f n l (omega (arith, m))))
  step-IsFirstFree path stem dir i left (invalid_path q reason) e h = h

  try_names-IsFirstFree :
      (path : P) (stem : String) (dir : P) (i left : ℕ)
      → IsFirstFree path stem dir i left (try_names fs path stem dir i left)
  unfolding try_names
  try_names-IsFirstFree path stem dir i zero = (refl, λ n l m. absurd (omega (arith, l, m)))
  try_names-IsFirstFree path stem dir i (suc left) =
      elim (Bool-cases (fs.exists (new_path fs path stem dir i))) [
        | inl e ↦ rw e (
            step-IsFirstFree path stem dir i left _ e
              (try_names-IsFirstFree path stem dir (suc i) left))
        | inr e ↦ rw e (i, omega arith, omega arith, refl, e, λ n l m. absurd (omega (arith, l, m)))
      ]

  -- An `ok` result is free.
  abbrev pub IsVacant : UniquePath P → Type 0
  IsVacant (ok q) = fs.exists q ≡ false
  IsVacant (file_collision q reason) = Unit
  IsVacant (invalid_path q reason) = Unit

  IsFirstFree-IsVacant :
      (path : P) (stem : String) (dir : P) (i left : ℕ) (r : UniquePath P)
      → IsFirstFree path stem dir i left r
      → IsVacant r
  IsFirstFree-IsVacant path stem dir i left (ok q) (k, a, b, c, d, f) = d
  IsFirstFree-IsVacant path stem dir i left (file_collision q reason) h = tt
  IsFirstFree-IsVacant path stem dir i left (invalid_path q reason) h = tt

  rename_parts-IsVacant :
      (path : P) (stem : Option String) (dir : Option P) → IsVacant (rename_parts fs path stem dir)
  unfolding rename_parts
  rename_parts-IsVacant path none dir = tt
  rename_parts-IsVacant path (some stem) none = tt
  rename_parts-IsVacant path (some stem) (some dir) =
      IsFirstFree-IsVacant path stem dir 1 9999 _ (try_names-IsFirstFree path stem dir 1 9999)

  -- Under every action but `overwrite`, a path that `get_unique_path` returns names nothing that
  -- exists.
  pub get_unique_path-IsVacant :
      (path : P) (action : FileCollisionAction)
      → ¬ (action ≡ overwrite)
      → IsVacant (get_unique_path fs path action)
  unfolding get_unique_path
  get_unique_path-IsVacant path overwrite h = absurd (h refl)
  get_unique_path-IsVacant path skip h = elim (Bool-cases (fs.exists path)) [
    | inl e ↦ rw e tt
    | inr e ↦ rw e e
  ]
  get_unique_path-IsVacant path rename h = elim (Bool-cases (fs.exists path)) [
    | inl e ↦ rw e (rename_parts-IsVacant path (fs.file_stem path) (fs.parent path))
    | inr e ↦ rw e e
  ]

  -- Under `rename`, for a path that exists and has a readable stem `s` and a parent `d`,
  -- `get_unique_path` returns the candidate with the least number `k` from 1 to 9999 that does not
  -- exist, all candidates with a smaller number being there; it gives a collision on the path itself
  -- only if all 9999 candidates exist; and it is never an invalid path.
  pub get_unique_path-IsFirstFree :
      (path : P) (s : String) (d : P)
      → fs.exists path ≡ true
      → fs.file_stem path ≡ some s
      → fs.parent path ≡ some d
      → IsFirstFree path s d 1 max_rename_attempts (get_unique_path fs path rename)
  unfolding get_unique_path rename_parts
  get_unique_path-IsFirstFree path s d e f g = rw (e, f, g) (try_names-IsFirstFree path s d 1 9999)
