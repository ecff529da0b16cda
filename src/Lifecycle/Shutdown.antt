-- ===== src/Lifecycle/Shutdown.antt =====
-- `shutdown` as a whole, and what it does to `add_nzb_content`.
use usenet_dl.Base.{ℕ, ◌≡◌, refl, ap, Bool, true, false, not, List, [], ◌∷◌, if◌then◌else◌, ◌&&◌}
use Prim.Native.String.{String}
use usenet_dl.Types.{DownloadId, Event, paused, status_to_i32}
use usenet_dl.World.{
  Download, World, Env, M, Result, ok, err, pure, and_then, catch, emit_event, ◌>>=◌, shutting_down,
}
use usenet_dl.World.Hoare.{
  Outcome, Ensures, >>=-Ensures, catch-Ensures, query-Ensures, execute-Ensures,
}
use usenet_dl.Db.Downloads.{get_all_downloads, update_status}
use usenet_dl.Db.State.{set_clean_shutdown}
use usenet_dl.Intake.{
  Reader, Volume, Settings, DownloadOptions, parse_and_validate_nzb, handle_duplicate_check,
}
use usenet_dl.Intake.Adding.{check_accepting, check_nzb, store_nzb, add_nzb_content}
use usenet_dl.Lifecycle.{
  is_active, is_in_progress, stop_accepting, pause_graceful_all, persist_one, persist_each,
  persist_all_state, shutdown,
}

abbrev Closed : World → Type 0
Closed w = w.accepting_new ≡ false

module _ (env : Env) where
  if-Closed :
      (b : Bool) (m n : M (Unit {0})) (w : World)
      → Outcome (λ _. Closed) Closed (m w)
      → Outcome (λ _. Closed) Closed (n w)
      → Outcome (λ _. Closed) Closed (if b then m w else n w)
  if-Closed true m n w h k = h
  if-Closed false m n w h k = k

  update_status-Closed :
      (id : DownloadId) (s : _) → Ensures Closed (update_status env id s) (λ _. Closed) Closed
  unfolding update_status usenet_dl.Db.Downloads.update_row
  update_status-Closed id s =
      execute-Ensures env _ Closed (λ _. Closed) Closed (λ w h. h) (λ w h. h)

  persist_each-Closed :
      (ds : List Download) → Ensures Closed (persist_each env ds) (λ _. Closed) Closed
  unfolding persist_each persist_one
  persist_each-Closed [] = λ w h. h
  persist_each-Closed (d ∷ ds) =
      >>=-Ensures (λ _. Closed) (λ _. Closed) Closed Closed _ _
        (λ w h.
          if-Closed (not (is_active d.id w) && is_in_progress d)
            (update_status env d.id (status_to_i32 paused)) (pure tt) w
            (update_status-Closed d.id _ w h) h)
        (λ _. persist_each-Closed ds)

  persist_all_state-Closed : Ensures Closed (persist_all_state env) (λ _. Closed) Closed
  unfolding persist_all_state get_all_downloads
  persist_all_state-Closed =
      >>=-Ensures (λ _. Closed) (λ _. Closed) Closed Closed _ _
        (query-Ensures env _ Closed (λ _. Closed) Closed (λ w h. h) (λ w h. h)) persist_each-Closed

  -- A step whose error is passed over.
  passed-Closed :
      (m : M (Unit {0}))
      → Ensures Closed m (λ _. Closed) Closed
      → Ensures Closed (catch m (λ _. pure tt) (λ _. pure tt)) (λ _. Closed) (λ _. ⊥)
  passed-Closed m h =
      catch-Ensures (λ _. Closed) Closed (λ _. Closed) (λ _. ⊥) Closed m _ _ h (λ _ w k. k)
        (λ _ w k. k)

  ending-Closed :
      Ensures Closed
        (catch (persist_all_state env) (λ _. pure tt) (λ _. pure tt) >>= λ _.
          catch (set_clean_shutdown env) (λ _. pure tt) (λ _. pure tt) >>= λ _.
          emit_event Event.shutdown)
        (λ _. Closed)
        (λ _. ⊥)
  unfolding set_clean_shutdown emit_event
  ending-Closed =
      >>=-Ensures (λ _. Closed) (λ _. Closed) (λ _. ⊥) Closed _ _
        (passed-Closed _ persist_all_state-Closed)
        λ _.
          >>=-Ensures (λ _. Closed) (λ _. Closed) (λ _. ⊥) Closed _ _
            (passed-Closed _
              (execute-Ensures env _ Closed (λ _. Closed) Closed (λ w h. h) (λ w h. h)))
            (λ _ w h. h)

  shutdown-Closed :
      (waited : World → World) (w : World)
      → ((v : World) → (waited v).accepting_new ≡ v.accepting_new)
      → Outcome (λ _. Closed) (λ _. ⊥) (shutdown env waited w)
  unfolding shutdown stop_accepting pause_graceful_all
  shutdown-Closed waited w h = ending-Closed _ (h _)

  ok-Closed :
      (r : Result (Unit {0}) × World)
      → Outcome (λ _. Closed) (λ _. ⊥) r
      → (r.0 ≡ ok tt) × (r.1.accepting_new ≡ false)
  ok-Closed (ok t, w) h = (refl, h)
  ok-Closed (err e, w) h = absurd h

  refused :
      (reader : Reader) (volume : Volume) (settings : Settings) (content : List ℕ) (name : String)
      (options : DownloadOptions) (v : World)
      → v.accepting_new ≡ false
      → add_nzb_content env reader volume settings content name options v ≡ (err shutting_down, v)
  unfolding add_nzb_content check_nzb check_accepting
  refused reader volume settings content name options v h =
      ap
        (λ (b : Bool).
          let r : Result (Unit {0}) × World = if b then (ok tt, v) else (err shutting_down, v) in
          let s =
            and_then r.0
              (λ _. parse_and_validate_nzb reader volume settings content >>= λ nzb.
                handle_duplicate_check reader volume settings env content name >>= λ _. pure nzb)
              r.1 in
          and_then s.0 (λ nzb. store_nzb env reader volume settings content name nzb options) s.1)
        h

-- Whichever statements fail, `shutdown` returns without an error, if nothing that runs meanwhile turns
-- the flag on again; and from then on `add_nzb_content` gives the error `ShuttingDown` and changes
-- nothing.
pub shutdown-add_nzb_content :
    (env : Env) (waited : World → World) (reader : Reader) (volume : Volume) (settings : Settings)
    (content : List ℕ) (name : String) (options : DownloadOptions) (w : World)
    → ((v : World) → (waited v).accepting_new ≡ v.accepting_new)
    → let (r, v) = shutdown env waited w in
      (r ≡ ok tt)
      × (add_nzb_content env reader volume settings content name options v ≡ (err shutting_down, v))
shutdown-add_nzb_content env waited reader volume settings content name options w h =
    let (done, closed) = ok-Closed env (shutdown env waited w) (shutdown-Closed env waited w h) in
    (done, refused env reader volume settings content name options (shutdown env waited w).1 closed)
