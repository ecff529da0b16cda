-- ===== src/Intake/Adding/Twice.antt =====
-- The same NZB a second time.
use usenet_dl.Base.{
  ℕ, suc, ◌≡◌, refl, sym, ap, subst, ◌∙◌, inl, inr, Bool, true, false, some, List, [], ◌∷◌, any,
  find, if◌then◌else◌, Bool-cases, arith,
}
use Prim.Native.String.{String}
use usenet_dl.Types.{DownloadId, DuplicateMethod, nzb_hash, Event}
use usenet_dl.World.{
  Download, World, Env, Result, ok, err, duplicate, shutting_down, query, emit_event,
}
use usenet_dl.World.Hoare.{Outcome}
use usenet_dl.Db.Duplicates.{has_text, find_by_nzb_hash}
use usenet_dl.Intake.{
  Reader, Volume, Settings, DownloadOptions, Nzb, block, parse_and_validate_nzb,
  handle_duplicate_check, on_duplicate, check_duplicate, check_methods, find_existing,
  act_on_duplicate,
}
use usenet_dl.Intake.Adding.{check_accepting, check_nzb, add_nzb_content}
use usenet_dl.Intake.Adding.Known.{parse_and_validate_nzb-IsPure, Known, Any, add_nzb_content-Known}

find-any :
    (p : Download → Bool) (ds : List Download)
    → any p ds ≡ true
    → (d : Download) × (find p ds ≡ some d)
find-any p [] h = absurd (cc h)
find-any p (d ∷ ds) h = elim (Bool-cases (p d)) [
  | inl e ↦ (d, rw e refl)
  | inr e ↦
      let rest : any p ds ≡ true = ground (arith, h, e) in
      let (x, f) = find-any p ds rest in (x, rw e f)
]

module _ (env : Env) (reader : Reader) (volume : Volume) (settings : Settings)
    (content : List ℕ) where
  parse : World → Result Nzb × World
  parse w = parse_and_validate_nzb reader volume settings content w

  accepted :
      (w : World)
      → w.accepting_new ≡ true
      → check_accepting env reader volume settings w ≡ (ok tt, w)
  unfolding check_accepting
  accepted w a = ap (λ b. if b then (ok tt, w) else (err shutting_down, w)) a

  module _ (name : String) (options : DownloadOptions) where
    abbrev add : World → Result DownloadId × World
    add w = add_nzb_content env reader volume settings content name options w

    add-refused : (w : World) → w.accepting_new ≡ false → add w ≡ (err shutting_down, w)
    unfolding add_nzb_content check_nzb check_accepting
    add-refused w a = rw a refl

    add-accepts : (w v : World) (id : DownloadId) → add w ≡ (ok id, v) → w.accepting_new ≡ true
    add-accepts w v id h = elim (Bool-cases w.accepting_new) [
      | inl a ↦ a
      | inr a ↦ absurd (cc (add-refused w a, h))
    ]

    add-fails :
        (w : World) (e : _) → w.accepting_new ≡ true → parse w ≡ (err e, w) → add w ≡ (err e, w)
    unfolding add_nzb_content check_nzb parse
    add-fails w e a p = rw (accepted w a, p) refl

    add-parses :
        (w v : World) (id : DownloadId) → add w ≡ (ok id, v) → (nzb : Nzb) × ((parse w).0 ≡ ok nzb)
    unfolding parse
    add-parses w v id h = go (parse w).0 refl
      where
        go : (r : Result Nzb) → (parse w).0 ≡ r → (nzb : Nzb) × ((parse w).0 ≡ ok nzb)
        go (ok nzb) e = (nzb, e)
        go (err x) e = absurd (
            cc (
              add-fails w x (add-accepts w v id h) (
                  parse_and_validate_nzb-IsPure reader volume settings content w w
                  ∙ ap (λ r. (r, w)) e),
              h,
            ))

  module _ (answers : (n : ℕ) → env.outage n ≡ false) (methods : List DuplicateMethod)
      (enabled : settings.duplicate_enabled ≡ true) (blocks : settings.duplicate_action ≡ block)
      (by_hash : settings.duplicate_methods ≡ nzb_hash ∷ methods) where
    -- The second try, where the row `d` is found.
    abbrev announced : String → Download → World → World
    announced name d u = record u {
      calls = suc u.calls;
      events = Event.duplicate_detected d.id name nzb_hash d.name ∷ u.events;
    }

    add-blocked :
        (name : String) (options : DownloadOptions) (u : World) (nzb : Nzb) (d : Download)
        → u.accepting_new ≡ true
        → parse u ≡ (ok nzb, u)
        → find (λ d. has_text (reader.sha256 content) d.nzb_hash) u.downloads ≡ some d
        → add name options u ≡ (err (duplicate name nzb_hash d.id), announced name d u)
    unfolding add_nzb_content check_nzb handle_duplicate_check check_duplicate check_methods
        find_existing find_by_nzb_hash query on_duplicate act_on_duplicate emit_event parse
    add-blocked name options u nzb d a p f =
        rw (accepted u a, p, enabled, by_hash, answers u.calls, f, blocks) refl

    -- What a second try gives and leaves.
    abbrev pub Blocked : String → World → Result DownloadId × World → Type 0
    Blocked name v p =
        ((i : DownloadId) × (p.0 ≡ err (duplicate name nzb_hash i)))
        × (p.1.downloads ≡ v.downloads)
        × (p.1.articles ≡ v.articles)
        × (p.1.files ≡ v.files)
        × (p.1.queue ≡ v.queue)

    -- Where the database answers and duplicates are blocked, first of all by the digest of the content,
    -- `add_nzb_content` refuses, under any name, the content that it has added just before, and
    -- changes neither the tables nor the queue. The file system answers as before.
    pub add_nzb_content-duplicate :
        (name again : String) (options others : DownloadOptions) (w v : World) (id : DownloadId)
        → add name options w ≡ (ok id, v)
        → Blocked again v (add again others v)
    unfolding parse
    add_nzb_content-duplicate name again options others w v id h =
        let a = add-accepts name options w v id h in
        let known : Known reader volume settings content v =
          subst (Outcome (λ _. Known reader volume settings content) (Any reader volume settings)) h
            (add_nzb_content-Known reader volume settings env content name options w a) in
        let (nzb, p) = add-parses name options w v id h in
        let parses : parse v ≡ (ok nzb, v) =
          parse_and_validate_nzb-IsPure reader volume settings content w v ∙ ap (λ r. (r, v)) p in
        let (d, f) =
          find-any (λ d. has_text (reader.sha256 content) d.nzb_hash) v.downloads known.0 in
        subst (Blocked again v) (sym (add-blocked again others v nzb d known.1 parses f))
          ((d.id, refl), refl, refl, refl, refl)
