-- ===== src/Topic/S3/Laws.antt =====
-- The loop of ListFiles of internal/sebtopic/s3storage.go over the pages that a paginator yields.
use simple_commit_log.Base.{
  ℕ, zero, suc, ◌<◌, ◌≡◌, refl, sym, ap, ◌∙◌, List, [], ◌∷◌, ◌++◌, append_assoc, append-nil, inl,
  inr, length, Option, none, some, true, false, All, arith, if◌then◌else◌, Bool-cases, Option-cases,
}
use simple_commit_log.Errors.{Error, Result, ok, err, panic}
use simple_commit_log.Topic.Files.{Key, File}
use simple_commit_log.Topic.S3.{
  TempFiles, Object, S3Api, S3Storage, has_suffix, page_files, pages_loop, s3_list_files,
  list_prefix,
}

-- The files among the objects: those with a key that has the extension.
abbrev size_of : Option ℕ → ℕ
size_of none = 0
size_of (some n) = n

abbrev file_of : Key → Option Key → ℕ → List File
file_of extension none size = []
file_of extension (some path) size =
    if has_suffix path extension then record { size = size; path = path } ∷ [] else []

abbrev pub matching : Key → List Object → List File
matching extension [] = []
matching extension (o ∷ os) =
    file_of extension o.object_key (size_of o.object_size) ++ matching extension os

abbrev pub all_matching : Key → List (List Object) → List File
all_matching extension [] = []
all_matching extension (page ∷ pages) = matching extension page ++ all_matching extension pages

-- S3 gives the size of each object.
abbrev pub HasSize : Object → Type 0
HasSize o = (n : ℕ) × (o.object_size ≡ some n)

module _ {A P T F : Type 0} (path_join : Key → Key → Key) (s3 : S3Api A P) (os : TempFiles T F)
    (ss : S3Storage) where
  -- The pages that a paginator yields from a state on, until it has no more or fails.
  pub data Yields : P → A → List (List Object) → A → Result (Unit {0}) → Type 0 where
    last : (p : P) (a : A) → s3.has_more_pages p ≡ false → Yields p a [] a (ok tt)
    broken :
        (p p' : P) (a a' : A) (e : Error)
        → s3.has_more_pages p ≡ true
        → s3.next_page p a ≡ (a', p', err e)
        → Yields p a [] a' (err e)
    page :
        (p p' : P) (a a' a'' : A) (contents : List Object) (pages : List (List Object))
        (end : Result (Unit {0}))
        → s3.has_more_pages p ≡ true
        → s3.next_page p a ≡ (a', p', ok contents)
        → All HasSize contents
        → Yields p' a' pages a'' end
        → Yields p a (contents ∷ pages) a'' end

  abbrev pub ended : List File → A → Result (Unit {0}) → A × Result (List File)
  ended files a (ok _) = (a, ok files)
  ended files a (err e) = (a, err e)
  ended files a panic = (a, panic)

  page_files-matching :
      (extension : Key) (objects : List Object)
      → All HasSize objects
      → page_files path_join s3 os ss extension objects ≡ ok (matching extension objects)
  unfolding page_files
  page_files-matching extension [] h = refl
  page_files-matching extension (o ∷ objects) h = elim (Option-cases o.object_key) [
    | inl nil ↦ simp (nil, page_files-matching extension objects h.1)
    | inr (path, e) ↦ elim (Bool-cases (has_suffix path extension)) [
      | inl yes_suffix ↦ simp (e, yes_suffix, h.0.1, page_files-matching extension objects h.1)
      | inr no_suffix ↦ simp (e, no_suffix, page_files-matching extension objects h.1)
    ]
  ]

  pages_loop-Yields :
      (fuel : ℕ) (extension : Key) (p : P) (files : List File) (a a' : A)
      (pages : List (List Object)) (end : Result (Unit {0}))
      → Yields p a pages a' end
      → length pages < fuel
      → pages_loop path_join s3 os ss fuel extension p files a
        ≡ some (ended (files ++ all_matching extension pages) a' end)
  unfolding pages_loop
  pages_loop-Yields zero extension p files a a' pages end y h = absurd (omega (arith, h))
  pages_loop-Yields (suc fuel) extension p files a a' pages end (last _ _ e) h =
      rw (e, pages_loop) (ap (λ fs. some (a', ok fs)) (sym (append-nil files)))
  pages_loop-Yields (suc fuel) extension p files a a' pages end (broken _ _ _ _ e m n) h =
      rw (m, pages_loop, n) refl
  pages_loop-Yields (suc fuel) extension p files a a'' pages' end
        (page _ p' _ a' _ contents pages _ m n sized y) h =
      rw (m, pages_loop, n, page_files-matching extension contents sized)
        (pages_loop-Yields fuel extension p' (files ++ matching extension contents) a' a'' pages end
            y (omega (arith, h))
          ∙ ap (λ fs. some (ended fs a'' end))
              (append_assoc files (matching extension contents) (all_matching extension pages)))

  -- However many pages there are, ListFiles with more fuel than that ends, if S3 gives the size of
  -- each object: with the files that have the extension, page after page, or with the error of the
  -- first page that fails.
  pub s3_list_files-Yields :
      (fuel : ℕ) (topic_name extension : Key) (a a' : A) (pages : List (List Object))
      (end : Result (Unit {0}))
      → Yields
          (s3.new_paginator ss.bucket_name (list_prefix path_join s3 os ss topic_name))
          a
          pages
          a'
          end
      → length pages < fuel
      → s3_list_files path_join s3 os ss fuel topic_name extension a
        ≡ some (ended (all_matching extension pages) a' end)
  unfolding s3_list_files
  s3_list_files-Yields fuel topic_name extension a a' pages end y h =
      pages_loop-Yields fuel extension _ [] a a' pages end y h
