-- ===== src/Intake/Adding/Checks.antt =====
-- The checks before the first row, which change nothing but the count of statements and the events.
use usenet_dl.Base.{
  ℕ, inl, inr, Bool, true, false, Option, none, some, List, [], ◌∷◌, if◌then◌else◌, Bool-cases, ltb,
}
use Prim.Native.String.{String}
use usenet_dl.Types.{Event, DuplicateMethod, nzb_hash, nzb_name, job_name}
use usenet_dl.World.{
  World, Env, M, Result, ok, err, shutting_down, pure, Download, query, emit_event, ◌>>=◌,
}
use usenet_dl.World.Hoare.{Outcome, Ensures, >>=-Ensures, catch-Ensures, query-Ensures}
use usenet_dl.Db.Duplicates.{find_by_nzb_hash, find_by_name, find_by_job_name}
use usenet_dl.Intake.{
  Reader, Volume, Settings, DuplicateAction, block, warn, allow, DuplicateInfo, compare_space,
  check_space_at, check_disk_space, parse_and_validate_nzb, find_existing, check_methods,
  check_duplicate, act_on_duplicate, on_duplicate, handle_duplicate_check, parse_text,
}
use usenet_dl.Intake.Adding.{check_accepting, check_nzb}

module _ (P : World → Type 0) (counts : (w : World) (n : ℕ) → P w → P (record w { calls = n }))
    (sends : (w : World) (es : List Event) → P w → P (record w { events = es })) (env : Env)
    (reader : Reader) (volume : Volume) (settings : Settings) where
  abbrev Holds : {A : Type 0} → M A → Type 0
  Holds m = Ensures P m (λ _. P) P

  then-Holds :
      {A B : Type 0} (m : M A) (f : A → M B)
      → Holds m
      → ((a : A) → Holds (f a))
      → Holds (λ w. (m >>= f) w)
  then-Holds m f h k = >>=-Ensures (λ _. P) (λ _. P) P P m f h k

  given-Holds : {A : Type 0} (r : Result A) → Holds (λ w. (r, w))
  given-Holds (ok a) w h = h
  given-Holds (err e) w h = h

  if-Holds : {A : Type 0} (b : Bool) (m n : M A) → Holds m → Holds n → Holds (if b then m else n)
  if-Holds true m n h k = h
  if-Holds false m n h k = k

  compare_space-Holds :
      (required : ℕ) (o : Option ℕ) → Holds (compare_space reader volume settings required o)
  unfolding compare_space
  compare_space-Holds required none w h = h
  compare_space-Holds required (some available) w h = elim (Bool-cases (ltb available required)) [
    | inl e ↦ rw e h
    | inr e ↦ rw e h
  ]

  check_space_at-Holds :
      (required : ℕ) (o : Option String) → Holds (check_space_at reader volume settings required o)
  unfolding check_space_at
  check_space_at-Holds required none w h = h
  check_space_at-Holds required (some path) w h =
      compare_space-Holds required (volume.get_available_space path) w h

  check_disk_space-Holds : (size : ℕ) → Holds (check_disk_space reader volume settings size)
  unfolding check_disk_space
  check_disk_space-Holds size =
      if-Holds settings.disk_space_enabled _ _ (check_space_at-Holds _ _) (λ w h. h)

  parse_and_validate_nzb-Holds :
      (content : List ℕ) → Holds (parse_and_validate_nzb reader volume settings content)
  unfolding parse_and_validate_nzb
  parse_and_validate_nzb-Holds content =
      then-Holds _ _ (given-Holds (parse_text reader volume settings (reader.from_utf8 content)))
        λ nzb. then-Holds _ _ (check_disk_space-Holds (reader.total_bytes nzb)) (λ _ w h. h)

  read-Holds : (f : World → Option Download) → Holds (query env f)
  read-Holds f = query-Ensures env f P (λ _. P) P (λ w h. counts w _ h) (λ w h. counts w _ h)

  find_existing-Holds :
      (m : DuplicateMethod) (content : List ℕ) (name : String)
      → Holds (find_existing reader volume settings env m content name)
  unfolding find_existing find_by_nzb_hash find_by_name find_by_job_name
  find_existing-Holds nzb_hash content name = read-Holds _
  find_existing-Holds nzb_name content name = read-Holds _
  find_existing-Holds job_name content name = read-Holds _

  check_methods-Holds :
      (methods : List DuplicateMethod) (content : List ℕ) (name : String)
      → Holds (check_methods reader volume settings env methods content name)
  unfolding check_methods
  check_methods-Holds [] content name = λ w h. h
  check_methods-Holds (m ∷ methods) content name =
      let rest = check_methods-Holds methods content name in
      catch-Ensures (λ _. P) P (λ _. P) P P _ _ _ (find_existing-Holds m content name)
        (λ found. found_next found rest) (λ _. rest)
    where
      found_next :
          (found : Option Download)
          → Holds (check_methods reader volume settings env methods content name)
          → Holds (elim found [
            | none ↦ check_methods reader volume settings env methods content name
            | some d ↦
                pure (some (record { method = m; existing_id = d.id; existing_name = d.name }))
          ])
      found_next none h = h
      found_next (some d) h = λ w p. p

  check_duplicate-Holds :
      (content : List ℕ) (name : String)
      → Holds (check_duplicate reader volume settings env content name)
  unfolding check_duplicate
  check_duplicate-Holds content name =
      if-Holds settings.duplicate_enabled _ _
        (check_methods-Holds settings.duplicate_methods content name) (λ w h. h)

  act_on_duplicate-Holds :
      (a : DuplicateAction) (name : String) (i : DuplicateInfo)
      → Holds (act_on_duplicate reader volume settings env a name i)
  unfolding act_on_duplicate
  act_on_duplicate-Holds block name i = λ w h. h
  act_on_duplicate-Holds warn name i = λ w h. h
  act_on_duplicate-Holds allow name i = λ w h. h

  emit_event-Holds : (e : Event) → Holds (emit_event e)
  unfolding emit_event
  emit_event-Holds e w h = sends w (e ∷ w.events) h

  on_duplicate-Holds :
      (name : String) (i : Option DuplicateInfo)
      → Holds (on_duplicate reader volume settings env name i)
  unfolding on_duplicate
  on_duplicate-Holds name none = λ w h. h
  on_duplicate-Holds name (some i) =
      then-Holds _ _ (emit_event-Holds _)
        (λ _. act_on_duplicate-Holds settings.duplicate_action name i)

  handle_duplicate_check-Holds :
      (content : List ℕ) (name : String)
      → Holds (handle_duplicate_check reader volume settings env content name)
  unfolding handle_duplicate_check
  handle_duplicate_check-Holds content name =
      then-Holds _ _ (check_duplicate-Holds content name) (on_duplicate-Holds name)

  check_accepting-Holds : Holds (check_accepting env reader volume settings)
  unfolding check_accepting
  check_accepting-Holds w h = go w.accepting_new
    where
      go : (b : Bool) → Outcome (λ _. P) P (if b then (ok tt, w) else (err shutting_down, w))
      go true = h
      go false = h

  pub check_nzb-Holds :
      (content : List ℕ) (name : String) → Holds (check_nzb env reader volume settings content name)
  unfolding check_nzb
  check_nzb-Holds content name = then-Holds _ _ check_accepting-Holds λ _.
      then-Holds _ _ (parse_and_validate_nzb-Holds content)
        λ nzb. then-Holds _ _ (handle_duplicate_check-Holds content name) (λ _ w h. h)
