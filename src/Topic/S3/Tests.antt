-- ===== src/Topic/S3/Tests.antt =====
-- The storage of internal/sebtopic/s3storage.go at concrete inputs: one bucket, listed in two pages,
-- and one temporary file at a time.
use simple_commit_log.Base.{
  ℕ, ◌≡◌, refl, ap, List, [], ◌∷◌, ◌++◌, Option, none, some, Bool, true, false, inl, inr, ◌⊎◌,
  arith,
}
use simple_commit_log.Errors.{Result, ok, panic}
use simple_commit_log.Names.{Entries, lookup, put, same_name, lookup-put, lookup-put_other}
use simple_commit_log.Topic.Files.{Key, Stream}
use simple_commit_log.Topic.Paths.{codes}
use simple_commit_log.Topic.S3.{
  TempFiles, Object, S3Api, S3Storage, s3_list_files, s3_reader, pages_loop, page_files, has_suffix,
  s3_writer, s3_write, s3_close,
}
use simple_commit_log.Topic.S3.Laws.{Yields, last, page, s3_list_files-Yields, ended, all_matching}
use simple_commit_log.Topic.S3.Saved.{S3Laws, TempLaws, Answers, save, s3_reader-save, IsSaved}

abbrev slashed : Key → Key → Key
slashed a b = a ++ (b'/' ∷ b)

abbrev found : Option (List ℕ) → Stream ⊎ Option Key
found (some bs) = inl (record { bytes = bs; failed = none })
found none = inr (some (codes "NoSuchKey"))

abbrev first_page : List Object
first_page =
    record { object_key = some (codes "t/0.record_batch"); object_size = some 40 }
    ∷ record { object_key = none; object_size = some 1 }
    ∷ []

abbrev second_page : List Object
second_page =
    record { object_key = some (codes "t/note"); object_size = some 2 }
    ∷ record { object_key = some (codes "t/7.record_batch"); object_size = some 50 }
    ∷ []

abbrev has_page : List (List Object) → Bool
has_page [] = false
has_page (c ∷ cs) = true

abbrev next_of :
    List (List Object)
    → Entries (List ℕ)
    → Entries (List ℕ) × List (List Object) × Result (List Object)
next_of [] a = (a, [], panic)
next_of (c ∷ cs) a = (a, cs, ok c)

abbrev bucket_s3 : S3Api (Entries (List ℕ)) (List (List Object))
bucket_s3 = record {
  get_object = λ bucket key a. (a, found (lookup key a));
  put_object = λ bucket key bs a. (put key bs a, ok tt);
  new_paginator = λ bucket prefix. first_page ∷ second_page ∷ [];
  has_more_pages = has_page;
  next_page = next_of;
}

abbrev one_temp : TempFiles (List ℕ) (Unit {0})
one_temp = record {
  create_temp = λ t. ([], ok tt);
  write_temp = λ f bs t. (t ++ bs, ok tt);
  seek_to_start = λ f t. (t, ok tt);
  rest_of = λ t f. t;
  close_temp = λ f t. (t, ok tt);
}

abbrev storage : S3Storage
storage = record { bucket_name = codes "b"; s3_key_prefix = codes "seb" }

-- The loop goes over both pages, and takes the files with the extension.
both_pages :
    s3_list_files slashed bucket_s3 one_temp storage 3 (codes "t") (codes ".record_batch") []
    ≡ some (
      [],
      ok (
          record { size = 40; path = codes "t/0.record_batch" }
          ∷ record { size = 50; path = codes "t/7.record_batch" }
          ∷ []),
    )
unfolding s3_list_files pages_loop page_files has_suffix same_name
both_pages = refl

two_pages :
    Yields slashed bucket_s3 one_temp storage
      (first_page ∷ second_page ∷ [])
      []
      (first_page ∷ second_page ∷ [])
      []
      (ok tt)
two_pages =
    page _ (second_page ∷ []) [] [] [] first_page (second_page ∷ []) (ok tt) refl refl
      ((40, refl), ((1, refl), tt))
      (page _ [] [] [] [] second_page [] (ok tt) refl refl ((2, refl), ((50, refl), tt))
        (last [] [] refl))

s3_list_files-Yields_example :
    s3_list_files slashed bucket_s3 one_temp storage 3 (codes "t") (codes ".record_batch") []
    ≡ some (
        ended slashed bucket_s3 one_temp storage
          (all_matching (codes ".record_batch") (first_page ∷ second_page ∷ []))
          []
          (ok tt))
s3_list_files-Yields_example =
    s3_list_files-Yields slashed bucket_s3 one_temp storage 3 (codes "t") (codes ".record_batch") []
      [] (first_page ∷ second_page ∷ []) (ok tt) two_pages (omega arith)

abbrev pub found-Answers : (o : Option (List ℕ)) → Answers o (found o)
found-Answers (some bs) = λ h. refl
found-Answers none = λ h. refl

abbrev bucket_laws : S3Laws bucket_s3
bucket_laws = record {
  stored = λ a bucket key. lookup key a;
  put_object_lem = λ bucket key bs a. lookup-put key bs a;
  put_object_others = λ bucket key k bs a ne. lookup-put_other k key bs a ne;
  get_object_lem = λ bucket key a. found-Answers (lookup key a);
}

abbrev temp_laws : TempLaws one_temp
temp_laws = record {
  Holds = λ t f bs. t ≡ bs;
  create_temp_lem = λ t. refl;
  write_temp_lem = λ t f bs xs e. ap (λ t. t ++ xs) e;
  seek_to_start_lem = λ t f bs e. e;
}

-- A file that was written in two pieces is read back whole.
read_back :
    (s3_reader slashed bucket_s3 one_temp storage
      (codes "k")
      (save slashed bucket_s3 one_temp storage
        (codes "k")
        ((1 ∷ 2 ∷ []) ∷ (3 ∷ []) ∷ [])
        ([], [])).0).1
    ≡ ok (record { bytes = 1 ∷ 2 ∷ 3 ∷ []; failed = none })
unfolding s3_reader s3_writer s3_write s3_close lookup put same_name
read_back = refl

s3_reader-save_example :
    IsSaved slashed bucket_s3 one_temp storage bucket_laws temp_laws
      (codes "k")
      []
      (1 ∷ 2 ∷ 3 ∷ [])
      (save slashed bucket_s3 one_temp storage (codes "k") ((1 ∷ 2 ∷ []) ∷ (3 ∷ []) ∷ []) ([], []))
s3_reader-save_example =
    s3_reader-save slashed bucket_s3 one_temp storage bucket_laws temp_laws (codes "k")
      ((1 ∷ 2 ∷ []) ∷ (3 ∷ []) ∷ []) [] []
