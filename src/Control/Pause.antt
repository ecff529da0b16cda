-- ===== src/Control/Pause.antt =====
-- `pause`, where the database answers.
use usenet_dl.Base.{
  ℕ, suc, ◌≡◌, refl, sym, ap, subst, inl, inr, false, Option, none, some, arith, Option-cases,
  select, select-update,
}
use mathlib.Core.Option
use usenet_dl.Types.{DownloadId, Status, paused, complete, failed}
use usenet_dl.Types.Codes.{status_from_i32-to_i32}
use usenet_dl.World.{World, Env, Result, ok, err, execute, database_not_found}
use usenet_dl.Db.Downloads.{row_id, update_row, update_status}
use usenet_dl.Queue.{remove_from_queue}
use usenet_dl.Control.{refuse, stop_task, pause, pause_in, pause_active}
use usenet_dl.Control.Invariant.{status_of, items_of-without, set_status}
use usenet_dl.Control.Effects.{
  status_of_row, IsUntouched, get_existing-none, get_existing-some, token_of-stopped, HasBecome,
}

-- The outcome of `pause` for the status that `id` has: an error or nothing to do leaves all as it
-- was, and a download that waits or runs is stopped and marked.
abbrev pub PauseOutcome :
    (id j : DownloadId) → World → Option Status → Result (Unit {0}) × World → Type 0
PauseOutcome id j w none (r, w') = (r ≡ err (database_not_found id)) × IsUntouched w w'
PauseOutcome id j w (some Status.paused) (r, w') = (r ≡ ok tt) × IsUntouched w w'
PauseOutcome id j w (some Status.complete) (r, w') =
    (r ≡ err (refuse id "pause" complete)) × IsUntouched w w'
PauseOutcome id j w (some Status.failed) (r, w') =
    (r ≡ err (refuse id "pause" failed)) × IsUntouched w w'
PauseOutcome id j w (some _) (r, w') = (r ≡ ok tt) × HasBecome paused id j w w'

module _ (env : Env) (id j : DownloadId) where
  pause_active-HasBecome :
      (s : Status) (w : World) (c : ℕ)
      → env.outage c ≡ false
      → status_of id w ≡ some s
      → ((pause_active env id (record w { calls = c })).0 ≡ ok tt)
        × HasBecome paused id j w (pause_active env id (record w { calls = c })).1
  unfolding pause_active update_status execute update_row stop_task remove_from_queue
  pause_active-HasBecome s w c b e = (
    ground arith,
    record {
      halted = record {
        items = ground (arith, items_of-without j id w.queue);
        tasks = ground (arith, token_of-stopped j id w.active);
        told = ground arith;
      };
      marked = ground (
        arith,
        select-update row_id j id (set_status paused) w.downloads (λ d. refl),
        status_from_i32-to_i32 paused,
      );
      rows = ground (arith, select-update row_id j id (set_status paused) w.downloads (λ d. refl));
      stored = ground arith;
      rest = ground arith;
    },
  )

  pause_in-outcome :
      (s : Status) (w : World)
      → env.outage (suc w.calls) ≡ false
      → status_of id w ≡ some s
      → PauseOutcome id j w (some s) (pause_in env s id (record w { calls = suc w.calls }))
  unfolding pause_in
  pause_in-outcome Status.paused w b e = (refl, refl)
  pause_in-outcome Status.complete w b e = (refl, refl)
  pause_in-outcome Status.failed w b e = (refl, refl)
  pause_in-outcome s w b e = pause_active-HasBecome s w (suc w.calls) b e

pub pause_lem :
    (env : Env) (id j : DownloadId) (w : World)
    → env.outage w.calls ≡ false
    → env.outage (suc w.calls) ≡ false
    → PauseOutcome id j w (status_of id w) (pause env id w)
unfolding pause
pause_lem env id j w a b = elim (Option-cases (select row_id id w.downloads)) [
  | inl e ↦
      subst (λ o. PauseOutcome id j w o (pause env id w)) (sym (ap (Option.map status_of_row) e))
        (subst (PauseOutcome id j w none) (sym (get_existing-none env id w a _ e)) (refl, refl))
  | inr (d, e) ↦
      let s = ap (Option.map status_of_row) e in
      subst (λ o. PauseOutcome id j w o (pause env id w)) (sym s)
        (subst (PauseOutcome id j w (some (status_of_row d)))
          (sym (get_existing-some env id w a _ d e))
          (pause_in-outcome env id j (status_of_row d) w b s))
]
