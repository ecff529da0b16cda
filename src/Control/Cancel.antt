-- ===== src/Control/Cancel.antt =====
-- `cancel`, where the database answers.
use usenet_dl.Base.{
  ℕ, suc, ◌≡◌, sym, subst, false, not, none, some, List, [], ◌∷◌, ◌==◌, if◌then◌else◌, filter,
  arith, select, select-delete,
}
use usenet_dl.Types.{DownloadId, Event}
use Prim.Native.String.{String}
use usenet_dl.World.{Article, DownloadFile, Download, World, Env, Result, ok, execute, emit_event}
use usenet_dl.Db.Downloads.{row_id, delete_download}
use usenet_dl.Queue.{remove_from_queue}
use usenet_dl.Control.{stop_task, cancel, remove_temp_dir, cancel_existing}
use usenet_dl.Control.Invariant.{items_of-without}
use usenet_dl.Control.Effects.{get_existing-some, SameRest, IsStopped, token_of-stopped}

select-delete-other :
    (j id : DownloadId) (articles : List Article)
    → filter (λ a. a.download_id == j) (filter (λ a. not (a.download_id == id)) articles)
      ≡ (if j == id then [] else filter (λ a. a.download_id == j) articles)
select-delete-other j id [] = ground arith
select-delete-other j id (a ∷ articles) = ground (arith, select-delete-other j id articles)

select-delete_files :
    (j id : DownloadId) (files : List DownloadFile)
    → filter (λ f. f.download_id == j) (filter (λ f. not (f.download_id == id)) files)
      ≡ (if j == id then [] else filter (λ f. f.download_id == j) files)
select-delete_files j id [] = ground arith
select-delete_files j id (f ∷ files) = ground (arith, select-delete_files j id files)

select-delete_passwords :
    (j id : DownloadId) (rows : List (DownloadId × String))
    → filter (λ p. p.0 == j) (filter (λ p. not (p.0 == id)) rows)
      ≡ (if j == id then [] else filter (λ p. p.0 == j) rows)
select-delete_passwords j id [] = ground arith
select-delete_passwords j id (p ∷ rows) = ground (arith, select-delete_passwords j id rows)

-- What `cancel` leaves of `id`, and of any other download `j`.
pub record IsCancelled (env : Env) (id j : DownloadId) (w w' : World) : Type 0 where
  pub halted : IsStopped id j w w'
  pub row : select row_id j w'.downloads ≡ (if j == id then none else select row_id j w.downloads)
  pub articles_gone :
      filter (λ a. a.download_id == j) w'.articles
      ≡ (if j == id then [] else filter (λ a. a.download_id == j) w.articles)
  pub files_gone :
      filter (λ f. f.download_id == j) w'.files
      ≡ (if j == id then [] else filter (λ f. f.download_id == j) w.files)
  pub passwords_gone :
      filter (λ p. p.0 == j) w'.passwords
      ≡ (if j == id then [] else filter (λ p. p.0 == j) w.passwords)
  pub directory :
      w'.temp_dirs
      ≡ (if env.stuck_dir id then w.temp_dirs else filter (λ d. not (d == id)) w.temp_dirs)
  pub announced : w'.events ≡ Event.removed id ∷ w.events
  pub rest : SameRest w w'

module _ (env : Env) (id j : DownloadId) where
  cancel_existing-IsCancelled :
      (w : World) (c : ℕ)
      → env.outage c ≡ false
      → let r = cancel_existing env id (record w { calls = c }) in
        (r.0 ≡ ok tt) × IsCancelled env id j w r.1
  unfolding cancel_existing stop_task remove_from_queue remove_temp_dir delete_download execute
      emit_event
  cancel_existing-IsCancelled w c b = (
    ground arith,
    record {
      halted = record {
        items = ground (arith, items_of-without j id w.queue);
        tasks = ground (arith, token_of-stopped j id w.active);
        told = ground arith;
      };
      row = ground (arith, select-delete row_id j id w.downloads);
      articles_gone = ground (arith, select-delete-other j id w.articles);
      files_gone = ground (arith, select-delete_files j id w.files);
      passwords_gone = ground (arith, select-delete_passwords j id w.passwords);
      directory = ground arith;
      announced = ground arith;
      rest = ground arith;
    },
  )

-- Where the database answers, `cancel` of a download that has a row succeeds. Its task is stopped,
-- and its items, its row, its articles, files and password and its directory are gone (a directory
-- that cannot be removed stays); one event is sent. The task, the items, the row, the articles, the
-- files and the password of any other download stay, and so do the directories and all else.
pub cancel_lem :
    (env : Env) (id j : DownloadId) (w : World) (d : Download)
    → env.outage w.calls ≡ false
    → env.outage (suc w.calls) ≡ false
    → select row_id id w.downloads ≡ some d
    → ((cancel env id w).0 ≡ ok tt) × IsCancelled env id j w (cancel env id w).1
unfolding cancel
cancel_lem env id j w d a b e =
    subst (λ (r : Result (Unit {0}) × World). (r.0 ≡ ok tt) × IsCancelled env id j w r.1)
      (sym (get_existing-some env id w a _ d e))
      (cancel_existing-IsCancelled env id j w (suc w.calls) b)
