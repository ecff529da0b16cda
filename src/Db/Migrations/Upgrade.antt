-- ===== src/Db/Migrations/Upgrade.antt =====
-- `run_migrations` from any version, under any failures.
use usenet_dl.Base.{
  ℕ, zero, suc, ◌≡◌, ◌≤◌, ◌⊎◌, refl, ap, ◌∙◌, sym, subst, inl, inr, Bool, true, none, List, [], max,
  ltb, Bool-cases, arith, some,
}
use Prim.Native.String.{String}
use usenet_dl.Db.Schema.{
  Schema, Connection, Sql, on_disk, execute, query, create_table_if_not_exists, ◌>>◌, ◌>>=◌, count,
}
use usenet_dl.Db.Tables.{schema_version}
use usenet_dl.Db.Migrations.{below, max_version, apply_migrations, run_migrations, migrate_v2}
use usenet_dl.Db.Migrations.Runs.{Ends, >>=-Ends, Commits}
use usenet_dl.Db.Migrations.Steps.{
  unclean, migrate_v1-Commits, migrate_v2-Commits, migrate_v3-Commits, migrate_v4-Commits,
  migrate_v5-Commits, migrate_v6-Commits, migrate_v7-Commits,
}
use usenet_dl.Db.Migrations.Versions.{database}

-- The rows of runtime_state after an upgrade from the version `k` with `rows`.
abbrev pub rows_from : ℕ → List (String × String) → List (String × String)
rows_from zero rows = unclean
rows_from (suc zero) rows = unclean
rows_from (suc (suc n)) rows = rows

-- Before the first start there is no table.
abbrev pub blank : Schema
blank = record { tables = []; indexes = []; versions = []; runtime_state = [] }

database-rows_from :
    (k : ℕ) (rows : List (String × String)) → database k rows ≡ database k (rows_from k rows)
database-rows_from zero rows = refl
database-rows_from (suc zero) rows = refl
database-rows_from (suc (suc n)) rows = refl

max_version-database :
    (k : ℕ) (rows : List (String × String)) → k ≤ 7 → max_version (database k rows).versions ≡ k
max_version-database zero rows h = refl
max_version-database (suc zero) rows h = refl
max_version-database (suc (suc zero)) rows h = refl
max_version-database (suc (suc (suc zero))) rows h = refl
max_version-database (suc (suc (suc (suc zero)))) rows h = refl
max_version-database (suc (suc (suc (suc (suc zero))))) rows h = refl
max_version-database (suc (suc (suc (suc (suc (suc zero)))))) rows h = refl
max_version-database (suc (suc (suc (suc (suc (suc (suc zero))))))) rows h = refl
max_version-database (suc (suc (suc (suc (suc (suc (suc (suc n)))))))) rows h =
    absurd (omega (arith, h))

opened :
    (k : ℕ) (rows : List (String × String))
    → create_table_if_not_exists schema_version (database k rows) ≡ some (database k rows)
unfolding create_table_if_not_exists
opened zero rows = refl
opened (suc zero) rows = refl
opened (suc (suc zero)) rows = refl
opened (suc (suc (suc zero))) rows = refl
opened (suc (suc (suc (suc zero)))) rows = refl
opened (suc (suc (suc (suc (suc zero))))) rows = refl
opened (suc (suc (suc (suc (suc (suc zero)))))) rows = refl
opened (suc (suc (suc (suc (suc (suc (suc n))))))) rows = refl

module _ (outage : ℕ → Bool) (k : ℕ) (rows : List (String × String)) (small : k ≤ 7) where
  abbrev pub version : ℕ → Schema
  version n = database n (rows_from k rows)

  -- No transaction is open, and the database is at version `n`.
  abbrev pub At : ℕ → Connection → Type 0
  At n c = (c.current ≡ version n) × (c.saved ≡ none)

  -- What is on the disk is a whole version.
  abbrev pub Whole : Connection → Type 0
  Whole c = (j : ℕ) × (k ≤ j) × (j ≤ 7) × (on_disk c ≡ version j)

  below-Ends :
      (n : ℕ) (m : Sql (Unit {0}))
      → suc n ≤ 7
      → (ltb k (suc n) ≡ true → Commits outage m (version n) (version (suc n)))
      → (c : Connection) → At (max k n) c
      → Ends (λ _. At (max k (suc n))) Whole (below outage k (suc n) m c)
  below-Ends n m l commits c (e, f) = elim (Bool-cases (ltb k (suc n))) [
    | inl b ↦
        let before : max k n ≡ n = ground (arith, b) in
        let after : max k (suc n) ≡ suc n = ground (arith, b) in
        rw b (
          settled after (m c) ((commits b).settles c (e ∙ ap version before) f) (ground (arith, b)))
    | inr b ↦
        let same : max k n ≡ max k (suc n) = ground (arith, b) in rw b (e ∙ ap version same, f)
  ]
    where
      settled :
          max k (suc n) ≡ suc n
          → (r : (_ ⊎ Unit {0}) × Connection)
          → Ends
              (λ _ d. (d.current ≡ version (suc n)) × (d.saved ≡ none))
              (λ d. on_disk d ≡ version n)
              r
          → k ≤ n
          → Ends (λ _. At (max k (suc n))) Whole r
      settled after (inr a, d) (x, y) h = (x ∙ ap version (sym after), y)
      settled after (inl a, d) x h = (n, h, omega (arith, l), x)

  then-Ends :
      (i j : ℕ) (m n : Sql (Unit {0}))
      → ((c : Connection) → At i c → Ends (λ _. At j) Whole (m c))
      → ((c : Connection) → At j c → Ends (λ _. At (max k 7)) Whole (n c))
      → (c : Connection) → At i c
      → Ends (λ _. At (max k 7)) Whole ((m >> n) c)
  then-Ends i j m n h g c a =
      >>=-Ends (λ _. At j) (λ _. At (max k 7)) Whole (m c) (λ _. n) (h c a) (λ _ d b. g d b)

  -- Up to version 2 the rows are those of the start.
  to_2 : ltb k 2 ≡ true → Commits outage (migrate_v2 outage) (version 1) (version 2)
  to_2 h =
      subst (λ rs. Commits outage (migrate_v2 outage) (version 1) (database 2 rs)) (fresh k h)
        (migrate_v2-Commits outage (rows_from k rows))
    where
      fresh : (i : ℕ) → ltb i 2 ≡ true → unclean ≡ rows_from i rows
      fresh zero h = refl
      fresh (suc zero) h = refl
      fresh (suc (suc n)) h = absurd (ground (arith, h))

  apply_migrations-Ends :
      (c : Connection) → At k c → Ends (λ _. At 7) Whole (apply_migrations outage k c)
  unfolding apply_migrations
  apply_migrations-Ends c a =
      let rs = rows_from k rows in
      let start : k ≡ max k 0 = omega arith in
      let end : max k 7 ≡ 7 = omega (arith, small) in
      subst (λ n. Ends (λ _. At n) Whole (apply_migrations outage k c)) end
        (then-Ends (max k 0) (max k 1) _ _
          (below-Ends 0 _ (omega arith) (λ b. migrate_v1-Commits outage rs))
          (then-Ends (max k 1) (max k 2) _ _ (below-Ends 1 _ (omega arith) to_2) (
            then-Ends (max k 2) (max k 3) _ _
              (below-Ends 2 _ (omega arith) (λ b. migrate_v3-Commits outage rs))
              (then-Ends (max k 3) (max k 4) _ _
                (below-Ends 3 _ (omega arith) (λ b. migrate_v4-Commits outage rs))
                (then-Ends (max k 4) (max k 5) _ _
                  (below-Ends 4 _ (omega arith) (λ b. migrate_v5-Commits outage rs))
                  (then-Ends (max k 5) (max k 6) _ _
                    (below-Ends 5 _ (omega arith) (λ b. migrate_v6-Commits outage rs))
                    (below-Ends 6 _ (omega arith) (λ b. migrate_v7-Commits outage rs)))))))
          c (subst (λ n. At n c) start a))

  -- The database is new, or at the version `k`.
  abbrev pub Opens : Schema → Type 0
  Opens s = ((k ≡ 0) × (s ≡ blank)) ⊎ (s ≡ database k rows)

  create_table_if_not_exists-Opens :
      (s : Schema) → Opens s → create_table_if_not_exists schema_version s ≡ some (version k)
  unfolding create_table_if_not_exists
  create_table_if_not_exists-Opens s (inl (z, e)) =
      ap (create_table_if_not_exists schema_version) e
      ∙ ap (λ i. some (database i (rows_from i rows))) (sym z)
  create_table_if_not_exists-Opens s (inr e) =
      ap (create_table_if_not_exists schema_version) e
      ∙ opened k rows
      ∙ ap some (database-rows_from k rows)

  query_and_apply :
      (c : Connection)
      → At k c
      → Ends
          (λ _. At 7)
          Whole
          (((query outage "Failed to query schema version" (λ s. max_version s.versions))
              >>= apply_migrations outage)
            c)
  unfolding query
  query_and_apply c (e, f) = elim (Bool-cases (outage c.calls)) [
    | inl o ↦ rw o (k, omega arith, small, on_disk-closed)
    | inr o ↦
        let now : max_version c.current.versions ≡ k =
          ap (λ s. max_version s.versions) e ∙ max_version-database k (rows_from k rows) small in
        rw (o, now) (apply_migrations-Ends (count c) (e, f))
  ]
    where
      on_disk-closed : on_disk (count c) ≡ version k
      on_disk-closed = rw f e

  -- A database that is new or at a version `k` of at most 7 is at version 7 once `run_migrations` has
  -- succeeded; whichever statement fails, its error leaves on the disk a database of one whole version
  -- from `k` to 7, or the new one. The rows of runtime_state are kept from version 2 on.
  pub run_migrations-Upgrades :
      (c : Connection)
      → Opens c.current
      → c.saved ≡ none
      → Ends (λ _. At 7) (λ d. (on_disk d ≡ c.current) ⊎ Whole d) (run_migrations outage c)
  unfolding run_migrations execute
  run_migrations-Upgrades c opens f = elim (Bool-cases (outage c.calls)) [
    | inl o ↦ rw (o, f) (inl refl)
    | inr o ↦
        rw (o, create_table_if_not_exists-Opens c.current opens)
          (weaker _ (query_and_apply (record (count c) { current = version k }) (refl, f)))
  ]
    where
      weaker :
          (r : (_ ⊎ Unit {0}) × Connection)
          → Ends (λ _. At 7) Whole r
          → Ends (λ _. At 7) (λ d. (on_disk d ≡ c.current) ⊎ Whole d) r
      weaker (inr a, d) h = h
      weaker (inl a, d) h = inr h
