-- ===== src/Task/Fetch/Turns.antt =====
-- What the turns of the batches leave of their signals.
use usenet_dl.Base.{
  zero, ◌%◌, if◌then◌else◌, ℕ, suc, ◌+◌, ◌≡◌, refl, ap, Bool, List, [], ◌∷◌, ◌++◌, map, filter,
  arith, length, flatten,
}
use usenet_dl.Base.Int.{ℤ}
use usenet_dl.Task.{BatchResult, Counters}
use usenet_dl.Task.Fetch.{Signal, signals_of, take_turn, overlap, updates_in}

-- What the items of a list are worth.
pub total : {A : Type 0} → (A → ℕ) → List A → ℕ
total f [] = 0
total f (x ∷ xs) = f x + total f xs

total-append :
    {A : Type 0} (f : A → ℕ) (xs ys : List A) → total f (xs ++ ys) ≡ total f xs + total f ys
unfolding total
total-append f [] ys = omega arith
total-append f (x ∷ xs) ys = omega (arith, total-append f xs ys)

total-take_turn :
    {A : Type 0} (f : A → ℕ) (i : ℕ) (xss : List (List A))
    → let (sent, rest) = take_turn i xss in
      total f sent + total f (flatten rest) ≡ total f (flatten xss)
unfolding take_turn total
total-take_turn f i [] = omega arith
total-take_turn f zero ([] ∷ xss) = omega arith
total-take_turn f zero ((x ∷ xs) ∷ xss) = omega arith
total-take_turn f (suc i) (xs ∷ xss) =
    let (sent, rest) = take_turn i xss in
    omega (
      arith,
      total-take_turn f i xss,
      total-append f xs (flatten rest),
      total-append f xs (flatten xss),
    )

-- Whatever turns the batches get, their signals are those of all batches.
pub total-overlap :
    {A : Type 0} (f : A → ℕ) (concurrency : ℕ) (turns : List ℕ) (xss : List (List A))
    → total f (overlap concurrency turns xss) ≡ total f (flatten xss)
unfolding overlap
total-overlap f n [] xss = refl
total-overlap f n (t ∷ turns) xss =
    let (sent, rest) = take_turn (t % n) xss in
    omega (
      arith,
      total-append f sent (overlap n turns rest),
      total-overlap f n turns rest,
      total-take_turn f (t % n) xss,
    )

-- A signal counts if it is an update that passes the test.
abbrev pub worth : (ℕ × ℤ → Bool) → Signal → ℕ
worth p (Signal.update u) = if p u then 1 else 0
worth p (Signal.tracked i) = 0
worth p (Signal.result r) = 0

pub updates_in-total :
    (p : ℕ × ℤ → Bool) (ss : List Signal) → length (filter p (updates_in ss)) ≡ total (worth p) ss
unfolding updates_in total
updates_in-total p [] = refl
updates_in-total p (Signal.update u ∷ ss) = ground (arith, updates_in-total p ss)
updates_in-total p (Signal.tracked i ∷ ss) = omega (arith, updates_in-total p ss)
updates_in-total p (Signal.result r ∷ ss) = omega (arith, updates_in-total p ss)

pub updates_in-append :
    (ss ts : List Signal) → updates_in (ss ++ ts) ≡ updates_in ss ++ updates_in ts
unfolding updates_in
updates_in-append [] ts = refl
updates_in-append (Signal.update u ∷ ss) ts = ap (◌∷◌ u) (updates_in-append ss ts)
updates_in-append (Signal.tracked i ∷ ss) ts = updates_in-append ss ts
updates_in-append (Signal.result r ∷ ss) ts = updates_in-append ss ts

updates_in-tracked :
    (r : BatchResult) (is : List ℕ)
    → updates_in (map Signal.tracked is ++ Signal.result r ∷ []) ≡ []
unfolding updates_in
updates_in-tracked r [] = refl
updates_in-tracked r (i ∷ is) = updates_in-tracked r is

updates_in-update :
    (us : List (ℕ × ℤ)) (ss : List Signal)
    → updates_in ss ≡ []
    → updates_in (map Signal.update us ++ ss) ≡ us
unfolding updates_in
updates_in-update [] ss h = h
updates_in-update (u ∷ us) ss h = ap (◌∷◌ u) (updates_in-update us ss h)

pub updates_in-signals_of : (f : BatchResult × Counters) → updates_in (signals_of f) ≡ f.1.updates
unfolding signals_of
updates_in-signals_of (r, c) = updates_in-update c.updates _ (updates_in-tracked r c.tracked)
