-- ===== src/Examples/Upgrades.antt =====
-- The migrations of a new database.
use usenet_dl.Base.{ℕ, ◌==◌, Bool, refl, inl, none, [], arith, ◌⊎◌, ◌≡◌}
use usenet_dl.Db.Schema.{Connection, on_disk}
use usenet_dl.Db.Migrations.{run_migrations}
use usenet_dl.Db.Migrations.Runs.{Ends}
use usenet_dl.Db.Migrations.Upgrade.{blank, At, Whole, run_migrations-Upgrades}

abbrev new_file : Connection
new_file = record { current = blank; saved = none; calls = 0 }

-- The statement after the first of version 1 fails.
abbrev broken : ℕ → Bool
broken n = n == 4

upgraded_example :
    Ends
      (λ _. At broken 0 [] (omega arith) 7)
      (λ d. (on_disk d ≡ blank) ⊎ Whole broken 0 [] (omega arith) d)
      (run_migrations broken new_file)
upgraded_example =
    run_migrations-Upgrades broken 0 [] (omega arith) new_file (inl (refl, refl)) refl
