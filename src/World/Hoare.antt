-- ===== src/World/Hoare.antt =====
-- A rule for each construct of the monad: what an operation ensures on success and on an error.
use usenet_dl.Base.{ℕ, false, suc, inl, inr, Bool-cases, ◌≡◌, refl}
use usenet_dl.World.{
  Env, query, execute, World, Result, Error, ok, err, M, and_then, handle, catch, pure, ◌>>=◌,
}

-- What holds of an outcome: `Q` of the result and the state, or `E` of the state after an error.
abbrev pub Outcome :
    {A : Type 0} → (A → World → Type 0) → (World → Type 0) → Result A × World → Type 0
Outcome Q E (ok a, w) = Q a w
Outcome Q E (err e, w) = E w

-- From a state where `P` holds, the operation succeeds with `Q` or fails with `E`.
abbrev pub Ensures :
    {A : Type 0} → (World → Type 0) → M A → (A → World → Type 0) → (World → Type 0) → Type 0
Ensures P m Q E = (w : World) → P w → Outcome Q E (m w)

module _ {A B : Type 0} (Q : A → World → Type 0) (R : B → World → Type 0) (E : World → Type 0) where
  bind-Outcome :
      (r : Result A × World) (f : A → M B)
      → Outcome Q E r
      → ((a : A) → Ensures (Q a) (f a) R E)
      → Outcome R E (and_then r.0 f r.1)
  bind-Outcome (ok a, w) f h k = k a w h
  bind-Outcome (err e, w) f h k = h

  pub >>=-Ensures :
      (P : World → Type 0) (m : M A) (f : A → M B)
      → Ensures P m Q E
      → ((a : A) → Ensures (Q a) (f a) R E)
      → Ensures P (m >>= f) R E
  >>=-Ensures P m f hm hf w p = bind-Outcome (m w) f (hm w p) hf

-- `match m { Ok(a) => f(a), Err(e) => g(e) }`
module _ {A B : Type 0} (Q : A → World → Type 0) (E : World → Type 0) (R : B → World → Type 0)
    (F : World → Type 0) where
  handle-Outcome :
      (r : Result A × World) (f : A → M B) (g : Error → M B)
      → Outcome Q E r
      → ((a : A) → Ensures (Q a) (f a) R F)
      → ((e : Error) → Ensures E (g e) R F)
      → Outcome R F (handle r.0 f g r.1)
  handle-Outcome (ok a, w) f g h k l = k a w h
  handle-Outcome (err e, w) f g h k l = l e w h

  pub catch-Ensures :
      (P : World → Type 0) (m : M A) (f : A → M B) (g : Error → M B)
      → Ensures P m Q E
      → ((a : A) → Ensures (Q a) (f a) R F)
      → ((e : Error) → Ensures E (g e) R F)
      → Ensures P (catch m f g) R F
  catch-Ensures P m f g hm hf hg w p = handle-Outcome (m w) f g (hm w p) hf hg

-- What holds after success and after an error alike.
pub Outcome-always :
    {A : Type 0} (P : World → Type 0) (r : Result A × World) → Outcome (λ _. P) P r → P r.1
Outcome-always P (ok a, w) h = h
Outcome-always P (err e, w) h = h

pub Outcome-of :
    {A : Type 0} (P : World → Type 0) (r : Result A × World) → P r.1 → Outcome (λ _. P) P r
Outcome-of P (ok a, w) h = h
Outcome-of P (err e, w) h = h

-- A weaker claim for the case of an error.
module _ {A : Type 0} (Q : A → World → Type 0) (E F : World → Type 0)
    (weaker : (w : World) → E w → F w) where
  Outcome-weaken : (r : Result A × World) → Outcome Q E r → Outcome Q F r
  Outcome-weaken (ok a, w) h = h
  Outcome-weaken (err e, w) h = weaker w h

  pub Ensures-weaken : (P : World → Type 0) (m : M A) → Ensures P m Q E → Ensures P m Q F
  Ensures-weaken P m h w p = Outcome-weaken (m w) (h w p)

-- The rules of the two kinds of statement.
module _ (env : Env) where
  pub query-Ensures :
      {A : Type 0} (f : World → A) (P : World → Type 0) (Q : A → World → Type 0)
      (E : World → Type 0)
      → ((w : World) → P w → E (record w { calls = suc w.calls }))
      → ((w : World) → P w → Q (f w) (record w { calls = suc w.calls }))
      → Ensures P (query env f) Q E
  unfolding query
  query-Ensures f P Q E fails works w p = elim (Bool-cases (env.outage w.calls)) [
    | inl e ↦ rw e (fails w p)
    | inr e ↦ rw e (works w p)
  ]

  pub execute-Ensures :
      (f : World → World) (P : World → Type 0) (Q : Unit {0} → World → Type 0) (E : World → Type 0)
      → ((w : World) → P w → E (record w { calls = suc w.calls }))
      → ((w : World) → P w → Q tt (record (f w) { calls = suc w.calls }))
      → Ensures P (execute env f) Q E
  unfolding execute
  execute-Ensures f P Q E fails works w p = elim (Bool-cases (env.outage w.calls)) [
    | inl e ↦ rw e (fails w p)
    | inr e ↦ rw e (works w p)
  ]

-- The laws of `>>=`, at a state.
module _ {A B : Type 0} where
  and_then-cong :
      (r : Result A) (f g : A → M B)
      → ((a : A) (w : World) → f a w ≡ g a w)
      → (w : World) → and_then r f w ≡ and_then r g w
  and_then-cong (ok a) f g h w = h a w
  and_then-cong (err e) f g h w = refl

  pub >>=-cong :
      (m : M A) (f g : A → M B)
      → ((a : A) (w : World) → f a w ≡ g a w)
      → (w : World) → (m >>= f) w ≡ (m >>= g) w
  >>=-cong m f g h w = and_then-cong (m w).0 f g h (m w).1

module _ {A B C : Type 0} where
  and_then_assoc :
      (r : Result A) (f : A → M B) (g : B → M C) (w : World)
      → and_then (and_then r f w).0 g (and_then r f w).1 ≡ and_then r (λ a. f a >>= g) w
  and_then_assoc (ok a) f g w = refl
  and_then_assoc (err e) f g w = refl

  pub >>=-assoc :
      (m : M A) (f : A → M B) (g : B → M C) (w : World)
      → ((m >>= f) >>= g) w ≡ (m >>= λ a. f a >>= g) w
  >>=-assoc m f g w = and_then_assoc (m w).0 f g (m w).1

module _ {A : Type 0} where
  and_then-pure : (r : Result A) (w : World) → (r, w) ≡ and_then r (λ a. pure a) w
  and_then-pure (ok a) w = refl
  and_then-pure (err e) w = refl

  pub >>=-pure : (m : M A) (w : World) → m w ≡ (m >>= λ a. pure a) w
  >>=-pure m w = and_then-pure (m w).0 (m w).1

-- A statement that does not fail.
pub execute-ok :
    (env : Env) (f : World → World) (w : World)
    → env.outage w.calls ≡ false
    → execute env f w ≡ (ok tt, record (f w) { calls = suc w.calls })
unfolding execute
execute-ok env f w e = rw e

-- Where the database always answers.
module _ (env : Env) (answers : (n : ℕ) → env.outage n ≡ false) where
  pub query-calm :
      {A : Type 0} (f : World → A) (P : World → Type 0) (Q : A → World → Type 0)
      (E : World → Type 0)
      → ((w : World) → P w → Q (f w) (record w { calls = suc w.calls }))
      → Ensures P (query env f) Q E
  unfolding query
  query-calm f P Q E h w p = rw (answers w.calls) (h w p)

  pub execute-calm :
      (f : World → World) (P Q E : World → Type 0)
      → ((w : World) → P w → Q (record (f w) { calls = suc w.calls }))
      → Ensures P (execute env f) (λ _. Q) E
  unfolding execute
  execute-calm f P Q E h w p = rw (answers w.calls) (h w p)
