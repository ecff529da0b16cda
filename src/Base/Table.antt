-- ===== src/Base/Table.antt =====
-- Tables of rows with a numeric key: select by key, update in place, delete.
use mathlib.Core.Path.{◌≡◌}
use mathlib.Core.Bool.{not}
use mathlib.Core.Option
use mathlib.Core.Option.{Option, none, some}
use mathlib.Core.List.{List, [], ◌∷◌, map}
use Prim.Native.Nat.{ℕ}
use native.Mathlib.Omega.{arith}
use usenet_dl.Base.Tests.{◌==◌, if◌then◌else◌}
use usenet_dl.Base.Lists.{filter, find}

module _ {ℓ} {R : Type ℓ} (key : R → ℕ) where
  -- SELECT … WHERE key = k, at most one row.
  abbrev pub select : ℕ → List R → Option R
  select k rows = find (λ r. key r == k) rows

  -- UPDATE … SET … WHERE key = k.
  abbrev pub update : ℕ → (R → R) → List R → List R
  update k f rows = map (λ r. if key r == k then f r else r) rows

  -- DELETE … WHERE key = k.
  abbrev pub delete : ℕ → List R → List R
  delete k rows = filter (λ r. not (key r == k)) rows

  pub select-update :
      (k j : ℕ) (f : R → R) (rows : List R)
      → ((r : R) → key (f r) ≡ key r)
      → select k (update j f rows)
        ≡ (if k == j then Option.map f (select k rows) else select k rows)
  select-update k j f [] h = ground arith
  select-update k j f (r ∷ rows) h = ground (arith, h r, select-update k j f rows h)

  pub select-delete :
      (k j : ℕ) (rows : List R)
      → select k (delete j rows) ≡ (if k == j then none else select k rows)
  select-delete k j [] = ground arith
  select-delete k j (r ∷ rows) = ground (arith, select-delete k j rows)
