-- ===== src/Topic/Store/Example.antt =====
-- A store that keeps its files in a list has the laws of a store.
use simple_commit_log.Base.{
  ℕ, ◌≡◌, refl, ap, ◌∙◌, inl, inr, List, [], ◌∷◌, ◌++◌, Option, none, some, ◌&&◌, ◌==◌, Bool-cases,
  if◌then◌else◌,
}
use simple_commit_log.Errors.{ok, err, topic_not_found}
use simple_commit_log.Names.{same_name, same_name_refl}
use simple_commit_log.Topic.Files.{Key}
use simple_commit_log.Topic.Example.{Stored, list_files, same, find_file}
use simple_commit_log.Topic.Store.{StoreLaws}
use mathlib.Core.Option.{some_inj}

pub same-same_name : (xs ys : Key) → same xs ys ≡ same_name xs ys
unfolding same_name
same-same_name [] [] = refl
same-same_name [] (y ∷ ys) = refl
same-same_name (x ∷ xs) [] = refl
same-same_name (x ∷ xs) (y ∷ ys) = ap (λ c. x == y && c) (same-same_name xs ys)

-- The bytes under a key.
abbrev pub content : Stored → Key → Option (List ℕ)
content [] key = none
content ((k, bs) ∷ files) key = let rest = content files key in if same key k then some bs else rest

pub find_file-some :
    (key : Key) (files : Stored) (bs : List ℕ)
    → content files key ≡ some bs
    → find_file key files ≡ ok (record { bytes = bs; failed = none })
find_file-some key [] bs h = absurd (cc h)
find_file-some key ((k, xs) ∷ files) bs h = elim (Bool-cases (same key k)) [
  | inl e ↦
      let at : some xs ≡ some bs = rw e at h in
      rw e (ap (λ bs. ok (record { bytes = bs; failed = none })) (some_inj.0 at))
  | inr e ↦
      let at : content files key ≡ some bs = rw e at h in rw e (find_file-some key files bs at)
]

pub find_file-none :
    (key : Key) (files : Stored)
    → content files key ≡ none
    → find_file key files ≡ err topic_not_found
find_file-none key [] h = refl
find_file-none key ((k, xs) ∷ files) h = elim (Bool-cases (same key k)) [
  | inl e ↦ let at : some xs ≡ none = rw e at h in absurd (cc at)
  | inr e ↦ let at : content files key ≡ none = rw e at h in rw e (find_file-none key files at)
]

abbrev pub list_laws : StoreLaws list_files ⊥
list_laws = record {
  IsKey = λ key. Unit {0};
  view = content;
  IsOpen = λ files h key bs. h ≡ (key, bs);
  create_lem = λ key files _. refl;
  put_lem = λ key files h bs xs e. ap (λ w. (w.0, w.1 ++ xs)) e;
  close_lem = λ key files h bs e. rw e (rw (same-same_name key key ∙ same_name_refl key) refl);
  create_others = λ key k files _ _ ne. refl;
  put_others = λ key k files h bs xs e _ _ ne. refl;
  close_others = λ key k files h bs e _ _ ne. rw e (rw (same-same_name k key ∙ ne) refl);
  reader_lem = λ key files bs _ at.
      (files, ap (λ r. (files, r)) (find_file-some key files bs at), λ k. refl);
  reader_missing = λ key files _ absent.
      (files, topic_not_found, ap (λ r. (files, r)) (find_file-none key files absent), λ k. refl);
  close_reader_lem = λ key files. (files, refl, λ k. refl);
}
