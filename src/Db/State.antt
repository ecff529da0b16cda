-- ===== src/Db/State.antt =====
-- src/db/state.rs: the key `clean_shutdown` of `runtime_state`.
use usenet_dl.Base.{Bool, true, not, Option, none, some}
use usenet_dl.World.{Env, M, query, execute}
use Prim.Native.String.{String}
use text.Mathlib.Text.{◌==◌}

-- Missing, or not "true".
abbrev pub is_unclean : Option String → Bool
is_unclean none = true
is_unclean (some value) = not (value == "true")

module _ (env : Env) where
  unfoldable pub was_unclean_shutdown : M Bool
  was_unclean_shutdown = query env (λ w. is_unclean w.clean_shutdown)

  unfoldable pub set_clean_start : M (Unit {0})
  set_clean_start = execute env (λ w. record w { clean_shutdown = some "false" })

  unfoldable pub set_clean_shutdown : M (Unit {0})
  set_clean_shutdown = execute env (λ w. record w { clean_shutdown = some "true" })
