-- ===== src/Db/Migrations/Runs.antt =====
-- A rule for each construct of the migrations (src/db/migrations.rs).
use usenet_dl.Base.{ℕ, ◌≡◌, refl, ap, ◌∙◌, inl, inr, Bool, none, some, Bool-cases, ◌⊎◌}
use Prim.Native.String.{String}
use usenet_dl.Errors.{DatabaseError}
use usenet_dl.Db.Schema.{
  Schema, Connection, Statement, Sql, on_disk, execute, in_transaction, finish, begin, commit,
  rollback, ◌>>◌, and_next,
}

-- What holds after success, and after an error.
abbrev pub Ends :
    {A : Type 0}
    → (A → Connection → Type 0)
    → (Connection → Type 0)
    → (DatabaseError ⊎ A) × Connection
    → Type 0
Ends Q E (inr a, c) = Q a c
Ends Q E (inl e, c) = E c

pub >>=-Ends :
    {A B : Type 0} (Q : A → Connection → Type 0) (R : B → Connection → Type 0)
    (E : Connection → Type 0) (r : (DatabaseError ⊎ A) × Connection) (f : A → Sql B)
    → Ends Q E r
    → ((a : A) (c : Connection) → Q a c → Ends R E (f a c))
    → Ends R E (and_next r.0 f r.1)
>>=-Ends Q R E (inr a, c) f h k = k a c h
>>=-Ends Q R E (inl e, c) f h k = h

-- From the schema `s` the statements lead to `t`, inside of the transaction that is open, if any.
pub record Runs (m : Sql (Unit {0})) (s t : Schema) : Type 0 where
  pub moves :
      (c : Connection)
      → c.current ≡ s
      → Ends (λ _ d. (d.current ≡ t) × (d.saved ≡ c.saved)) (λ d. d.saved ≡ c.saved) (m c)

pub >>-Runs :
    {m n : Sql (Unit {0})} {s t u : Schema} → Runs m s t → Runs n t u → Runs (λ c. (m >> n) c) s u
>>-Runs {m} {n} {s} {t} {u} h k = record {
  moves = λ c e.
      >>=-Ends (λ _ d. (d.current ≡ t) × (d.saved ≡ c.saved))
        (λ _ d. (d.current ≡ u) × (d.saved ≡ c.saved)) (λ d. d.saved ≡ c.saved) (m c) (λ _. n)
        (h.moves c e) (λ _ d (f, g). next c d g (k.moves d f));
}
  where
    next :
        (c d : Connection)
        → d.saved ≡ c.saved
        → Ends (λ _ b. (b.current ≡ u) × (b.saved ≡ d.saved)) (λ b. b.saved ≡ d.saved) (n d)
        → Ends (λ _ b. (b.current ≡ u) × (b.saved ≡ c.saved)) (λ b. b.saved ≡ c.saved) (n d)
    next c d g = go (n d)
      where
        go :
            (r : (DatabaseError ⊎ Unit {0}) × Connection)
            → Ends (λ _ b. (b.current ≡ u) × (b.saved ≡ d.saved)) (λ b. b.saved ≡ d.saved) r
            → Ends (λ _ b. (b.current ≡ u) × (b.saved ≡ c.saved)) (λ b. b.saved ≡ c.saved) r
        go (inr a, b) (x, y) = (x, y ∙ g)
        go (inl a, b) y = y ∙ g

module _ (outage : ℕ → Bool) where
  pub execute-Runs :
      (message : String) (f : Statement) {s t : Schema}
      → f s ≡ some t
      → Runs (execute outage message f) s t
  unfolding execute
  execute-Runs message f {s} {t} e = record {
    moves = λ c h. elim (Bool-cases (outage c.calls)) [
      | inl o ↦ rw o refl
      | inr o ↦ let works : f c.current ≡ some t = ap f h ∙ e in rw (o, works) (refl, refl)
    ];
  }

  -- A transaction leads from `s` to `t`, or leaves `s` on the disk.
  pub record Commits (m : Sql (Unit {0})) (s t : Schema) : Type 0 where
    pub settles :
        (c : Connection)
        → c.current ≡ s
        → c.saved ≡ none
        → Ends (λ _ d. (d.current ≡ t) × (d.saved ≡ none)) (λ d. on_disk d ≡ s) (m c)

  finish-Ends :
      (message : String) (s t : Schema) (r : (DatabaseError ⊎ Unit {0}) × Connection)
      → Ends (λ _ d. (d.current ≡ t) × (d.saved ≡ some s)) (λ d. d.saved ≡ some s) r
      → Ends
          (λ _ d. (d.current ≡ t) × (d.saved ≡ none))
          (λ d. on_disk d ≡ s)
          (finish outage message r.0 r.1)
  unfolding commit rollback
  finish-Ends message s t (inr a, d) (e, f) = elim (Bool-cases (outage d.calls)) [
    | inl o ↦ rw (o, f) refl
    | inr o ↦ rw o (e, refl)
  ]
  finish-Ends message s t (inl a, d) f = elim (Bool-cases (outage d.calls)) [
    | inl o ↦ rw (o, f) refl
    | inr o ↦ rw (o, f) refl
  ]

  pub in_transaction-Commits :
      (message : String) {body : Sql (Unit {0})} {s t : Schema}
      → Runs body s t
      → Commits (in_transaction outage message body) s t
  unfolding in_transaction begin
  in_transaction-Commits message {body} {s} {t} h = record {
    settles = λ c e f. elim (Bool-cases (outage c.calls)) [
      | inl o ↦ rw (o, f) e
      | inr o ↦ rw (o, f, e) (finish-Ends message s t (body _) (h.moves _ refl))
    ];
  }
