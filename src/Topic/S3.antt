-- ===== src/Topic/S3.antt =====
-- internal/sebtopic/s3storage.go: the storage of a topic in S3. The client of the AWS SDK, with its
-- paginator, and the temporary files of the operating system are parameters.
pub mod Laws
pub mod Saved
mod Tests
use simple_commit_log.Base.{
  ℕ, zero, suc, ◌≡◌, List, [], ◌∷◌, ◌++◌, ◌-◌, ◌⊎◌, inl, inr, leb, length, drop, Option, none, some,
  Bool, true, false, ◌==◌, not, if◌then◌else◌,
}
use simple_commit_log.Errors.{Error, Result, ok, err, panic, not_in_storage, other}
use simple_commit_log.Exec.{Exec, pure, lift, ◌>>=◌, ◌>>◌}
use simple_commit_log.Names.{same_name}
use simple_commit_log.Topic.Files.{Key, Stream, File, Files}
use simple_commit_log.Topic.Paths.{codes}

-- Temporary files, with handles `F`: `os.CreateTemp`, `Write`, `Seek` to the start, what a reader of
-- the file yields from its position on, and `Close`.
pub record TempFiles (T F : Type 0) : Type 0 where
  pub create_temp : Exec T F
  pub write_temp : F → List ℕ → Exec T (Unit {0})
  pub seek_to_start : F → Exec T (Unit {0})
  pub rest_of : T → F → List ℕ
  pub close_temp : F → Exec T (Unit {0})

-- An object of a page: its key and its size, which can be nil.
pub record Object : Type 0 where
  pub object_key : Option Key
  pub object_size : Option ℕ

-- `S3API` with a bucket and a key: an error of `GetObject` has the code of the smithy.APIError in it,
-- if there is one. `P` is the state of a paginator, made for a bucket and a prefix.
pub record S3Api (A P : Type 0) : Type 0 where
  pub get_object : Key → Key → A → A × (Stream ⊎ Option Key)
  pub put_object : Key → Key → List ℕ → Exec A (Unit {0})
  pub new_paginator : Key → Key → P
  pub has_more_pages : P → Bool
  pub next_page : P → A → A × P × Result (List Object)

-- `S3Storage`
pub record S3Storage : Type 0 where
  pub bucket_name : Key
  pub s3_key_prefix : Key

-- `s3WriteCloser`
pub record S3WriteCloser (F : Type 0) : Type 0 where
  pub f : F
  pub object_key : Key

-- `strings.HasSuffix`, and `strings.CutPrefix` of a slash.
unfoldable pub has_suffix : Key → Key → Bool
has_suffix s suffix =
    if leb (length suffix) (length s)
    then same_name (drop (length s - length suffix) s) suffix
    else false

abbrev pub without_slash : Key → Key
without_slash [] = []
without_slash (c ∷ s) = if c == b'/' then s else c ∷ s

module _ {A P T F : Type 0} (path_join : Key → Key → Key) (s3 : S3Api A P) (os : TempFiles T F)
    (ss : S3Storage) where
  abbrev pub State : Type 0
  State = A × T

  abbrev pub in_temp : {X : Type 0} → A → T × Result X → State × Result X
  in_temp a (t, r) = ((a, t), r)

  -- A call of the operating system or of S3.
  abbrev pub on_temp : {X : Type 0} → Exec T X → Exec State X
  on_temp m s = in_temp s.0 (m s.1)

  abbrev pub in_s3 : {X : Type 0} → T → A × Result X → State × Result X
  in_s3 t (a, r) = ((a, t), r)

  abbrev on_s3 : {X : Type 0} → Exec A X → Exec State X
  on_s3 m s = in_s3 s.1 (m s.0)

  -- `Writer`
  unfoldable pub s3_writer : Key → Exec State (S3WriteCloser F)
  s3_writer key = do
    tmp_file ← on_temp os.create_temp
    pure (record { f = tmp_file; object_key = path_join ss.s3_key_prefix key })

  -- `s3WriteCloser.Write`
  unfoldable pub s3_write : S3WriteCloser F → List ℕ → Exec State (S3WriteCloser F)
  s3_write wc b = do on_temp (os.write_temp wc.f b); pure wc

  -- `PutObject`, which reads the file from its position on.
  abbrev pub upload : S3WriteCloser F → Exec State (Unit {0})
  upload wc s = on_s3 (s3.put_object ss.bucket_name wc.object_key (os.rest_of s.1 wc.f)) s

  -- `s3WriteCloser.Close`
  unfoldable pub s3_close : S3WriteCloser F → Exec State (Unit {0})
  s3_close wc = do on_temp (os.seek_to_start wc.f); upload wc; on_temp (os.close_temp wc.f)

  -- `Reader` behind the call of `GetObject`.
  abbrev pub fetched : T → A × (Stream ⊎ Option Key) → State × Result Stream
  fetched t (a, inl body) = ((a, t), ok body)
  fetched t (a, inr none) = ((a, t), err other)
  fetched t (a, inr (some code)) =
      ((a, t), err (if same_name code (codes "NoSuchKey") then not_in_storage else other))

  -- `Reader`
  unfoldable pub s3_reader : Key → Exec State Stream
  s3_reader key s = fetched s.1 (s3.get_object ss.bucket_name (path_join ss.s3_key_prefix key) s.0)

  abbrev prepended : File → Result (List File) → Result (List File)
  prepended file (ok files) = ok (file ∷ files)
  prepended file (err e) = err e
  prepended file panic = panic

  -- An object whose key has the extension; the size is read through its pointer.
  abbrev sized_file : Key → Option ℕ → Result (List File) → Result (List File)
  sized_file path none rest = panic
  sized_file path (some size) rest = prepended (record { size = size; path = path }) rest

  -- The loop over the objects of a page.
  unfoldable pub page_files : Key → List Object → Result (List File)
  page_files extension [] = ok []
  page_files extension (o ∷ os) =
      let rest = page_files extension os in
      elim o.object_key [
        | none ↦ rest
        | some path ↦ if has_suffix path extension then sized_file path o.object_size rest else rest
      ]

  -- The prefix that is listed for a topic.
  unfoldable pub list_prefix : Key → Key
  list_prefix topic_name =
      let name = without_slash (path_join ss.s3_key_prefix topic_name) in
      if has_suffix name (b'/' ∷ []) then name else name ++ (b'/' ∷ [])

  abbrev with_files :
      (P → List File → A → Option (A × Result (List File)))
      → List File
      → A
      → P
      → Result (List File)
      → Option (A × Result (List File))
  with_files next files a p (ok fs) = next p (files ++ fs) a
  with_files next files a p (err e) = some (a, err e)
  with_files next files a p panic = some (a, panic)

  -- What follows a page.
  abbrev with_page :
      (P → List File → A → Option (A × Result (List File)))
      → Key
      → List File
      → A × P × Result (List Object)
      → Option (A × Result (List File))
  with_page next extension files (a, p, ok contents) =
      with_files next files a p (page_files extension contents)
  with_page next extension files (a, p, err e) = some (a, err e)
  with_page next extension files (a, p, panic) = some (a, panic)

  -- The loop over the pages, with fuel: none if it runs out.
  unfoldable pub pages_loop : ℕ → Key → P → List File → A → Option (A × Result (List File))
  pages_loop zero extension p files a = none
  pages_loop (suc fuel) extension p files a = elim (s3.has_more_pages p) [
    | false ↦ some (a, ok files)
    | true ↦ with_page (pages_loop fuel extension) extension files (s3.next_page p a)
  ]

  -- `ListFiles`
  unfoldable pub s3_list_files : ℕ → Key → Key → A → Option (A × Result (List File))
  s3_list_files fuel topic_name extension =
      pages_loop fuel extension (s3.new_paginator ss.bucket_name (list_prefix topic_name)) []

  -- The storage as the one of a topic.
  abbrev pub s3_files : Files State (S3WriteCloser F)
  s3_files = record {
    create = s3_writer;
    put = s3_write;
    close = s3_close;
    reader = s3_reader;
    close_reader = λ key s. (s, ok tt);
  }
