-- ===== src/Db/Schema.antt =====
-- The schema of the SQLite database and the connection that changes it, for src/db/migrations.rs. A
-- statement fails at an outage, or where SQLite refuses it.
use usenet_dl.Base.{
  ℕ, suc, Bool, ◌&&◌, not, Option, none, some, List, [], ◌∷◌, ◌++◌, map, any, all, if◌then◌else◌,
  ◌⊎◌, inl, inr, ◌==◌ as same_number,
}
use Prim.Native.String.{String}
use text.Mathlib.Text.{◌==◌}
use usenet_dl.Errors.{DatabaseError, migration_failed, query_failed}

-- A column is its name and what is declared of it.
pub record Table : Type 0 where
  pub name : String
  pub columns : List (String × String)
  pub constraints : List String

pub data Order : Type 0 where
  asc desc : Order

pub record Index : Type 0 where
  pub name : String
  pub table : String
  pub columns : List (String × Order)

-- The tables with their indexes, and the rows of schema_version and runtime_state.
pub record Schema : Type 0 where
  pub tables : List Table
  pub indexes : List Index
  pub versions : List ℕ
  pub runtime_state : List (String × String)

-- `saved` is the schema at the `BEGIN` of an open transaction.
pub record Connection : Type 0 where
  pub current : Schema
  pub saved : Option Schema
  pub calls : ℕ

-- What another connection reads, and what is left if this one is closed.
abbrev pub on_disk : Connection → Schema
on_disk c = elim c.saved [ none ↦ c.current | some s ↦ s ]

-- A statement gives none where SQLite refuses it.
abbrev pub Statement : Type 0
Statement = Schema → Option Schema

abbrev pub has_name : String → Schema → Bool
has_name name s = any (λ t. t.name == name) s.tables

abbrev pub has_index : String → Schema → Bool
has_index name s = any (λ i. i.name == name) s.indexes

abbrev pub has_column : String → Table → Bool
has_column name t = any (λ c. c.0 == name) t.columns

unfoldable pub create_table : Table → Statement
create_table t s =
    if has_name t.name s then none else some (record s { tables = s.tables ++ t ∷ [] })

unfoldable pub create_table_if_not_exists : Table → Statement
create_table_if_not_exists t s =
    some (if has_name t.name s then s else record s { tables = s.tables ++ t ∷ [] })

-- The index has a new name, and its columns are those of a table that exists.
unfoldable pub create_index : Index → Statement
create_index i s =
    if not (has_index i.name s)
      && any (λ t. (t.name == i.table) && all (λ c. has_column c.0 t) i.columns) s.tables
    then some (record s { indexes = s.indexes ++ i ∷ [] })
    else none

-- The column is new, in a table that exists.
unfoldable pub add_column : String → String × String → Statement
add_column table column s =
    if any (λ t. (t.name == table) && not (has_column column.0 t)) s.tables
    then some (record s {
      tables =
          map (λ t. if t.name == table then record t { columns = t.columns ++ column ∷ [] } else t)
            s.tables;
    })
    else none

-- The version is a primary key.
unfoldable pub insert_version : ℕ → Statement
insert_version version s =
    if any (λ v. same_number v version) s.versions
    then none
    else some (record s { versions = s.versions ++ version ∷ [] })

-- So is the key of the runtime state, a table that has to exist.
unfoldable pub insert_state : String → String → Statement
insert_state key value s =
    if has_name "runtime_state" s && not (any (λ r. r.0 == key) s.runtime_state)
    then some (record s { runtime_state = s.runtime_state ++ (key, value) ∷ [] })
    else none

abbrev pub Sql : Type 0 → Type 0
Sql A = Connection → (DatabaseError ⊎ A) × Connection

abbrev pub and_next : {A B : Type 0} → DatabaseError ⊎ A → (A → Sql B) → Sql B
and_next (inl e) f c = (inl e, c)
and_next (inr a) f c = f a c

infixl 5 ◌>>=◌ ◌>>◌
abbrev pub ◌>>=◌ : {A B : Type 0} → Sql A → (A → Sql B) → Sql B
m >>= f = λ c. let (r, d) = m c in and_next r f d

abbrev pub ◌>>◌ : {B : Type 0} → Sql (Unit {0}) → Sql B → Sql B
m >> n = m >>= λ _. n

abbrev pub count : Connection → Connection
count c = record c { calls = suc c.calls }

module _ (outage : ℕ → Bool) where
  abbrev pub executed : String → Option Schema → Sql (Unit {0})
  executed message none c = (inl (migration_failed message), count c)
  executed message (some s) c = (inr tt, record (count c) { current = s })

  unfoldable pub execute : String → Statement → Sql (Unit {0})
  execute message statement c =
      if outage c.calls
      then (inl (migration_failed message), count c)
      else executed message (statement c.current) c

  unfoldable pub query : {A : Type 0} → String → (Schema → A) → Sql A
  query message f c =
      if outage c.calls then (inl (query_failed message), count c) else (inr (f c.current), count c)

  abbrev begun : Option Schema → Sql (Unit {0})
  begun none c = (inr tt, record (count c) { saved = some c.current })
  begun (some s) c = (inl (migration_failed "Failed to begin transaction"), count c)

  -- `BEGIN`, which fails inside of a transaction.
  unfoldable pub begin : Sql (Unit {0})
  begin c =
      if outage c.calls
      then (inl (migration_failed "Failed to begin transaction"), count c)
      else begun c.saved c

  -- `COMMIT`; the transaction stays open if it fails.
  unfoldable pub commit : String → Sql (Unit {0})
  commit message c =
      if outage c.calls
      then (inl (migration_failed message), count c)
      else (inr tt, record (count c) { saved = none })

  abbrev rolled_back : Option Schema → Connection → Connection
  rolled_back none c = count c
  rolled_back (some s) c = record c { current = s; saved = none; calls = suc c.calls }

  -- `ROLLBACK`, whose own failure is ignored.
  unfoldable pub rollback : Connection → Connection
  rollback c = if outage c.calls then count c else rolled_back c.saved c

  abbrev pub finish : String → DatabaseError ⊎ Unit {0} → Sql (Unit {0})
  finish message (inr done) c = commit message c
  finish message (inl e) c = (inl e, rollback c)

  -- `BEGIN`, the statements, and then `COMMIT`, or `ROLLBACK` after an error.
  unfoldable pub in_transaction : String → Sql (Unit {0}) → Sql (Unit {0})
  in_transaction message body = do begin; λ c. let (r, d) = body c in finish message r d
