-- ===== src/Db/Migrations/Steps.antt =====
-- What each migration makes of the schema of the version before.
use usenet_dl.Base.{ℕ, Bool, List, [], ◌∷◌, refl}
use Prim.Native.String.{String}
use usenet_dl.Db.Schema.{
  create_table, create_table_if_not_exists, create_index, add_column, insert_version, insert_state,
}
use usenet_dl.Db.Migrations.{
  create_downloads_schema, create_articles_schema, create_passwords_table,
  create_processed_nzbs_table, create_history_schema, record_migration, migrate_v1, migrate_v2,
  migrate_v3, migrate_v4, migrate_v5, migrate_v6, migrate_v7,
}
use usenet_dl.Db.Migrations.Runs.{Commits, >>-Runs, execute-Runs, in_transaction-Commits}
use usenet_dl.Db.Migrations.Versions.{database}

-- The rows that the table runtime_state starts with.
abbrev pub unclean : List (String × String)
unclean = ("clean_shutdown", "false") ∷ []

module _ (outage : ℕ → Bool) where
  pub migrate_v6-Commits :
      (rows : List (String × String))
      → Commits outage (migrate_v6 outage) (database 5 rows) (database 6 rows)
  unfolding migrate_v6 record_migration add_column insert_version
  migrate_v6-Commits rows =
      in_transaction-Commits outage _
        (>>-Runs (execute-Runs outage _ _ refl) (execute-Runs outage _ _ refl))

  pub migrate_v7-Commits :
      (rows : List (String × String))
      → Commits outage (migrate_v7 outage) (database 6 rows) (database 7 rows)
  unfolding migrate_v7 record_migration add_column create_index insert_version
  migrate_v7-Commits rows = in_transaction-Commits outage _ (
      >>-Runs (execute-Runs outage _ _ refl)
        (>>-Runs (execute-Runs outage _ _ refl) (execute-Runs outage _ _ refl)))

  pub migrate_v5-Commits :
      (rows : List (String × String))
      → Commits outage (migrate_v5 outage) (database 4 rows) (database 5 rows)
  unfolding migrate_v5 record_migration add_column create_index insert_version
  migrate_v5-Commits rows = in_transaction-Commits outage _ (
      >>-Runs (execute-Runs outage _ _ refl) (
        >>-Runs (execute-Runs outage _ _ refl) (
          >>-Runs (execute-Runs outage _ _ refl)
            (>>-Runs (execute-Runs outage _ _ refl) (execute-Runs outage _ _ refl)))))

  pub migrate_v4-Commits :
      (rows : List (String × String))
      → Commits outage (migrate_v4 outage) (database 3 rows) (database 4 rows)
  unfolding migrate_v4 record_migration create_table add_column create_index insert_version
  migrate_v4-Commits rows = in_transaction-Commits outage _ (
      >>-Runs (execute-Runs outage _ _ refl) (
        >>-Runs (execute-Runs outage _ _ refl)
          (>>-Runs (execute-Runs outage _ _ refl) (execute-Runs outage _ _ refl))))

  pub migrate_v3-Commits :
      (rows : List (String × String))
      → Commits outage (migrate_v3 outage) (database 2 rows) (database 3 rows)
  unfolding migrate_v3 record_migration create_table_if_not_exists insert_version
  migrate_v3-Commits rows = in_transaction-Commits outage _ (
      >>-Runs (execute-Runs outage _ _ refl) (
        >>-Runs (execute-Runs outage _ _ refl)
          (>>-Runs (execute-Runs outage _ _ refl) (execute-Runs outage _ _ refl))))

  pub migrate_v2-Commits :
      (rows : List (String × String))
      → Commits outage (migrate_v2 outage) (database 1 rows) (database 2 unclean)
  unfolding migrate_v2 record_migration create_table_if_not_exists insert_state insert_version
  migrate_v2-Commits rows = in_transaction-Commits outage _ (
      >>-Runs (execute-Runs outage _ _ refl)
        (>>-Runs (execute-Runs outage _ _ refl) (execute-Runs outage _ _ refl)))

  pub migrate_v1-Commits :
      (rows : List (String × String))
      → Commits outage (migrate_v1 outage) (database 0 rows) (database 1 rows)
  unfolding migrate_v1 record_migration create_downloads_schema create_articles_schema
      create_passwords_table create_processed_nzbs_table create_history_schema create_table
      create_index insert_version
  migrate_v1-Commits rows = in_transaction-Commits outage _ (
      >>-Runs
        (>>-Runs (execute-Runs outage _ _ refl) (
          >>-Runs (execute-Runs outage _ _ refl) (
            >>-Runs (execute-Runs outage _ _ refl)
              (>>-Runs (execute-Runs outage _ _ refl) (execute-Runs outage _ _ refl)))))
        (>>-Runs
          (>>-Runs (execute-Runs outage _ _ refl)
            (>>-Runs (execute-Runs outage _ _ refl) (execute-Runs outage _ _ refl)))
          (>>-Runs (execute-Runs outage _ _ refl) (
            >>-Runs (execute-Runs outage _ _ refl) (
              >>-Runs (>>-Runs (execute-Runs outage _ _ refl) (execute-Runs outage _ _ refl))
                (execute-Runs outage _ _ refl))))))
