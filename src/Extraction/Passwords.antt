-- ===== src/Extraction/Passwords.antt =====
-- The passwords that are collected, against a list without its repetitions.
use usenet_dl.Base.{
  ◌≡◌, refl, ap, ◌∙◌, sym, inl, inr, Bool, true, false, ◌&&◌, not, Option, none, some, List, [],
  ◌∷◌, ◌++◌, if◌then◌else◌, filter, arith, Bool-cases, any-append,
}
use Prim.Native.String.{String}
use text.Mathlib.Text.{◌==◌}
use text.Mathlib.TextEquality.{eq_iff}
use usenet_dl.Extraction.{contains, add_unseen, add_lines, add_file, add_empty, collect}

-- A list without what comes again in it.
abbrev pub unrepeated : List String → List String
unrepeated [] = []
unrepeated (x ∷ xs) = x ∷ filter (λ y. not (x == y)) (unrepeated xs)

-- What the texts add to those that are there.
abbrev new_in : List String → List String → List String
new_in there xs = filter (λ y. not (contains there y)) (unrepeated xs)

abbrev pub given : List (Option String) → List String
given [] = []
given (none ∷ rest) = given rest
given (some pw ∷ rest) = pw ∷ given rest

abbrev pub not_empty : String → Bool
not_empty pw = not (pw == "")

-- Adding each text that is not there yet.
add_each : List String → List String → List String
add_each there [] = there
add_each there (x ∷ xs) = add_each (if contains there x then there else there ++ x ∷ []) xs

filter-filter :
    (p q r : String → Bool) (xs : List String)
    → ((x : String) → r x ≡ (p x && q x))
    → filter p (filter q xs) ≡ filter r xs
filter-filter p q r [] h = refl
filter-filter p q r (x ∷ xs) h = ground (arith, h x, filter-filter p q r xs h)

filter-all : (xs : List String) → filter (λ y. true) xs ≡ xs
filter-all [] = refl
filter-all (x ∷ xs) = ap (◌∷◌ x) (filter-all xs)

append_assoc : (xs ys zs : List String) → (xs ++ ys) ++ zs ≡ xs ++ (ys ++ zs)
append_assoc [] ys zs = refl
append_assoc (x ∷ xs) ys zs = ap (◌∷◌ x) (append_assoc xs ys zs)

append-nil : (xs : List String) → xs ++ [] ≡ xs
append-nil [] = refl
append-nil (x ∷ xs) = ap (◌∷◌ x) (append-nil xs)

-- A text that is there already.
old-test :
    (there : List String) (x y : String)
    → contains there x ≡ true
    → not (contains there y) ≡ (not (contains there y) && not (x == y))
old-test there x y h = elim (Bool-cases (x == y)) [
  | inl e ↦
      let same : contains there y ≡ true = ap (contains there) (sym ((eq_iff x y).0 e)) ∙ h in
      ground (arith, same, e)
  | inr e ↦ ground (arith, e)
]

new-test :
    (there : List String) (x y : String)
    → not (contains (there ++ x ∷ []) y) ≡ (not (contains there y) && not (x == y))
new-test there x y = ground (arith, any-append (λ p. p == y) there (x ∷ []))

add_each-new_in : (there xs : List String) → add_each there xs ≡ there ++ new_in there xs
unfolding add_each
add_each-new_in there [] = sym (append-nil there)
add_each-new_in there (x ∷ xs) = elim (Bool-cases (contains there x)) [
  | inl e ↦ rw e (
      add_each-new_in there xs
      ∙ ap (◌++◌ there) (
          sym (
            filter-filter (λ y. not (contains there y)) (λ y. not (x == y))
              (λ y. not (contains there y)) (unrepeated xs) (λ y. old-test there x y e))))
  | inr e ↦ rw e (
      add_each-new_in (there ++ x ∷ []) xs
      ∙ append_assoc there (x ∷ []) (new_in (there ++ x ∷ []) xs)
      ∙ ap (λ r. there ++ (x ∷ r))
          (sym (
            filter-filter (λ y. not (contains there y)) (λ y. not (x == y))
              (λ y. not (contains (there ++ x ∷ []) y)) (unrepeated xs) (λ y. new-test there x y))))
]

add_each-append :
    (there xs ys : List String) → add_each there (xs ++ ys) ≡ add_each (add_each there xs) ys
unfolding add_each
add_each-append there [] ys = refl
add_each-append there (x ∷ xs) ys =
    add_each-append (if contains there x then there else there ++ x ∷ []) xs ys

add_each-nil : (there : List String) → there ≡ add_each there []
unfolding add_each
add_each-nil there = refl

add_each-old :
    (there : List String) (x : String) (xs : List String)
    → contains there x ≡ true
    → add_each there (x ∷ xs) ≡ add_each there xs
unfolding add_each
add_each-old there x xs e = ap (λ b. add_each (if b then there else there ++ x ∷ []) xs) e

add_each-new :
    (there : List String) (x : String) (xs : List String)
    → contains there x ≡ false
    → add_each there (x ∷ xs) ≡ add_each (there ++ x ∷ []) xs
unfolding add_each
add_each-new there x xs e = ap (λ b. add_each (if b then there else there ++ x ∷ []) xs) e

add_unseen-add_each :
    (there : List String) (os : List (Option String))
    → add_unseen there there os ≡ add_each there (given os)
unfolding add_unseen
add_unseen-add_each there [] = add_each-nil there
add_unseen-add_each there (none ∷ os) = add_unseen-add_each there os
add_unseen-add_each there (some pw ∷ os) = elim (Bool-cases (contains there pw)) [
  | inl e ↦ rw e (add_unseen-add_each there os ∙ sym (add_each-old there pw (given os) e))
  | inr e ↦
      rw e (add_unseen-add_each (there ++ pw ∷ []) os ∙ sym (add_each-new there pw (given os) e))
]

add_lines-add_each :
    (there lines : List String) → add_lines there lines ≡ add_each there (filter not_empty lines)
unfolding add_lines add_each
add_lines-add_each there [] = refl
add_lines-add_each there (pw ∷ lines) = elim (Bool-cases (pw == "")) [
  | inl e ↦ rw e (add_lines-add_each there lines)
  | inr e ↦ elim (Bool-cases (contains there pw)) [
    | inl f ↦ rw (e, f) (add_lines-add_each there lines)
    | inr f ↦ rw (e, f) (add_lines-add_each (there ++ pw ∷ []) lines)
  ]
]

-- The lines of the file that are not empty, if the file can be read.
abbrev pub usable : Option (List String) → List String
usable none = []
usable (some lines) = filter not_empty lines

add_file-add_each :
    (there : List String) (lines : Option (List String))
    → add_file there lines ≡ add_each there (usable lines)
unfolding add_file add_each
add_file-add_each there none = refl
add_file-add_each there (some lines) = add_lines-add_each there lines

abbrev pub last_one : Bool → List String
last_one true = "" ∷ []
last_one false = []

add_empty-add_each :
    (there : List String) (try_empty : Bool)
    → add_empty try_empty there ≡ add_each there (last_one try_empty)
unfolding add_empty add_each
add_empty-add_each there false = refl
add_empty-add_each there true = elim (Bool-cases (contains there "")) [
  | inl e ↦ rw e refl
  | inr e ↦ rw e refl
]

-- `collect` gives the cached password, that of the download and that of the NZB, then the lines of the
-- file that are not empty, and last the empty one where it is to be tried: in this order, each once.
pub collect-unrepeated :
    (cached_correct download_password nzb_meta_password : Option String)
    (lines : Option (List String)) (try_empty : Bool)
    → collect cached_correct download_password nzb_meta_password lines try_empty
      ≡ unrepeated (
          given (cached_correct ∷ download_password ∷ nzb_meta_password ∷ [])
          ++ (usable lines ++ last_one try_empty))
unfolding collect
collect-unrepeated a b c lines e =
    let os = a ∷ b ∷ c ∷ [] in
    add_empty-add_each (add_file (add_unseen [] [] os) lines) e
    ∙ ap (λ t. add_each t (last_one e)) (add_file-add_each (add_unseen [] [] os) lines)
    ∙ ap (λ t. add_each (add_each t (usable lines)) (last_one e)) (add_unseen-add_each [] os)
    ∙ sym (add_each-append (add_each [] (given os)) (usable lines) (last_one e))
    ∙ sym (add_each-append [] (given os) (usable lines ++ last_one e))
    ∙ add_each-new_in [] (given os ++ (usable lines ++ last_one e))
    ∙ filter-all (unrepeated (given os ++ (usable lines ++ last_one e)))
