-- ===== src/Control/Reprioritise.antt =====
-- `set_priority`, where the database answers.
use usenet_dl.Base.{
  ℕ, suc, ◌≡◌, refl, sym, subst, false, some, [], ◌∷◌, ◌==◌, if◌then◌else◌, arith, select, update,
  select-update,
}
use usenet_dl.Types.{DownloadId, Status, Priority, status_from_i32, priority_to_i32}
use usenet_dl.Types.Codes.{priority_from_i32-to_i32}
use usenet_dl.World.{Download, World, Env, Result, ok, query, execute, ◌>>=◌}
use usenet_dl.Db.Downloads.{row_id, update_row, get_download, update_priority}
use usenet_dl.Queue.{items_of, remove_from_queue, add_to_queue}
use usenet_dl.Control.{set_priority, requeue_if_queued}
use usenet_dl.Control.Invariant.{items_of-without}
use usenet_dl.Control.Effects.{get_existing-some, SameStored, SameRest}
use usenet_dl.Control.Resume.{item_for}

abbrev pub set_priority_code : Priority → Download → Download
set_priority_code p d = record d { priority = priority_to_i32 p }

module _ (env : Env) (id j : DownloadId) (priority : Priority) where
  -- The outcome of `set_priority` for the row of `id`.
  pub record IsReprioritised (d : Download) (w w' : World) : Type 0 where
    pub row :
        select row_id j w'.downloads
        ≡ (if j == id then some (set_priority_code priority d) else select row_id j w.downloads)
    pub items : items_of j w'.queue ≡ (
        if j == id
        then elim (status_from_i32 d.status) [
          | Status.queued ↦ item_for id priority d ∷ []
          | _ ↦ items_of id w.queue
        ]
        else items_of j w.queue)
    pub tasks : (w'.active ≡ w.active) × (w'.cancelled ≡ w.cancelled)
    pub stored : SameStored w w'
    pub rest : SameRest w w'

  reorder-items :
      (s : Status) (d : Download) (w : World)
      → env.outage w.calls ≡ false
      → select row_id id w.downloads ≡ some (set_priority_code priority d)
      → let r = requeue_if_queued env s id w in
        (r.0 ≡ ok tt)
        × (r.1.downloads ≡ w.downloads)
        × (items_of j r.1.queue ≡ (
            if j == id
            then elim s [ Status.queued ↦ item_for id priority d ∷ [] | _ ↦ items_of id w.queue ]
            else items_of j w.queue))
        × ((r.1.active ≡ w.active) × (r.1.cancelled ≡ w.cancelled))
        × (SameStored w r.1 × SameRest w r.1)
  unfolding requeue_if_queued remove_from_queue add_to_queue get_download query
  reorder-items Status.queued d w a e = (
    ground (arith, e),
    ground (arith, e),
    ground (arith, e, items_of-without j id w.queue, priority_from_i32-to_i32 priority),
    ground (arith, e),
    ground (arith, e),
  )
  reorder-items s d w a e = (refl, refl, ground arith, (refl, refl), ground arith)

  set_priority-outcome :
      (d : Download) (w : World) (c : ℕ)
      → env.outage c ≡ false
      → env.outage (suc c) ≡ false
      → select row_id id w.downloads ≡ some d
      → let r =
          (update_priority env id (priority_to_i32 priority) >>= λ _.
          requeue_if_queued env (status_from_i32 d.status) id)
            (record w { calls = c }) in
        (r.0 ≡ ok tt) × IsReprioritised d w r.1
  unfolding update_priority execute update_row
  set_priority-outcome d w c b b' e =
      let rows = update row_id id (set_priority_code priority) w.downloads in
      let upd =
        λ (k : ℕ). select-update row_id k id (set_priority_code priority) w.downloads (λ r. refl) in
      let (done, kept, items, tasks, others) =
        reorder-items (status_from_i32 d.status) d (record w { calls = suc c; downloads = rows }) b'
          (ground (arith, upd id, e)) in
      rw b (
        done,
        record {
          row = ground (arith, kept, upd j, e);
          items = items;
          tasks = tasks;
          stored = others.0;
          rest = others.1;
        },
      )

-- Where the database answers, `set_priority` of a download that has a row succeeds: the row gets the
-- code of the priority and is otherwise as before. A queued download then has one item in the
-- queue, with the new priority; any other keeps its items. Nothing changes for another download `j`,
-- no task is stopped or told, and the articles, files, passwords, directories, events and jobs stay.
pub set_priority_lem :
    (env : Env) (id j : DownloadId) (priority : Priority) (w : World) (d : Download)
    → env.outage w.calls ≡ false
    → env.outage (suc w.calls) ≡ false
    → env.outage (suc (suc w.calls)) ≡ false
    → select row_id id w.downloads ≡ some d
    → ((set_priority env id priority w).0 ≡ ok tt)
      × IsReprioritised env id j priority d w (set_priority env id priority w).1
unfolding set_priority
set_priority_lem env id j priority w d a b c e =
    subst
      (λ (r : Result (Unit {0}) × World). (r.0 ≡ ok tt) × IsReprioritised env id j priority d w r.1)
      (sym (get_existing-some env id w a _ d e))
      (set_priority-outcome env id j priority d w (suc w.calls) b c e)
