-- ===== src/Topic/Memory.antt =====
-- internal/sebtopic/memorystorage.go: a storage that keeps its files in memory. A bytes.Buffer is the
-- bytes that were written to it and not yet read, and a *bytes.Buffer is its place among those made.
mod Tests
use simple_commit_log.Base.{
  ℕ, zero, suc, ◌+◌, ◌≡◌, refl, sym, ap, ◌∙◌, List, [], ◌∷◌, ◌++◌, length, take, Option, none, some,
  Bool, if◌then◌else◌,
}
use simple_commit_log.Errors.{Error, Result, ok, err, panic, not_in_storage}
use simple_commit_log.Exec.{Exec, ◌>>=◌, ◌>>◌}
use simple_commit_log.Names.{Entries, lookup, put, same_name, lookup-put}
use simple_commit_log.Topic.Files.{Key, Stream, File, Files, Storage}

-- `MemoryTopicStorage`, with all buffers that were made.
pub record MemoryTopicStorage : Type 0 where
  pub buffers : List (List ℕ)
  pub storage : Entries ℕ

-- `NewMemoryStorage`
abbrev new_memory_storage : MemoryTopicStorage
new_memory_storage = record { buffers = []; storage = [] }

-- The buffer at a place, and a change of it.
unfoldable pub buffer_at : ℕ → List (List ℕ) → List ℕ
buffer_at i [] = []
buffer_at zero (b ∷ bs) = b
buffer_at (suc i) (b ∷ bs) = buffer_at i bs

unfoldable pub set_buffer : ℕ → List ℕ → List (List ℕ) → List (List ℕ)
set_buffer i xs [] = []
set_buffer zero xs (b ∷ bs) = xs ∷ bs
set_buffer (suc i) xs (b ∷ bs) = b ∷ set_buffer i xs bs

-- `Writer`
unfoldable pub storage_writer : Key → Exec MemoryTopicStorage ℕ
storage_writer key ms = (
  record { buffers = ms.buffers ++ ([] ∷ []); storage = put key (length ms.buffers) ms.storage },
  ok (length ms.buffers),
)

-- `Write` on the buffer that `Writer` returned.
unfoldable pub storage_write : ℕ → List ℕ → Exec MemoryTopicStorage ℕ
storage_write buf bs ms =
    (record ms { buffers = set_buffer buf (buffer_at buf ms.buffers ++ bs) ms.buffers }, ok buf)

-- What was found in the map by `Reader`, and read to its end: that empties the buffer.
abbrev pub drained : MemoryTopicStorage → Option ℕ → MemoryTopicStorage × Result Stream
drained ms none = (ms, err not_in_storage)
drained ms (some buf) = (
  record ms { buffers = set_buffer buf [] ms.buffers },
  ok (record { bytes = buffer_at buf ms.buffers; failed = none }),
)

-- `Reader`, and the reads of its caller up to the end.
unfoldable pub storage_reader : Key → Exec MemoryTopicStorage Stream
storage_reader key ms = drained ms (lookup key ms.storage)

-- `strings.HasPrefix`
abbrev pub has_prefix : Key → Key → Bool
has_prefix s prefix = same_name (take (length prefix) s) prefix

abbrev files_of : List (List ℕ) → Key → Entries ℕ → List File
files_of buffers topic_prefix [] = []
files_of buffers topic_prefix ((key, buf) ∷ es) =
    let rest = files_of buffers topic_prefix es in
    if has_prefix key topic_prefix
    then record { size = length (buffer_at buf buffers); path = key } ∷ rest
    else rest

-- `ListFiles`, which does not look at the extension. Go leaves the order of a map open; here it is
-- that in which the keys were added.
unfoldable pub memory_list_files : Key → Key → Exec MemoryTopicStorage (List File)
memory_list_files topic_name extension ms =
    (ms, ok (files_of ms.buffers (topic_name ++ (b'/' ∷ [])) ms.storage))

-- The storage as the one of a topic; the closers do nothing.
abbrev pub memory_storage : Storage MemoryTopicStorage ℕ
memory_storage = record {
  files = record {
    create = storage_writer;
    put = storage_write;
    close = λ buf ms. (ms, ok tt);
    reader = storage_reader;
    close_reader = λ key ms. (ms, ok tt);
  };
  list_files = memory_list_files;
}

buffer_at-set_buffer-last :
    (bs : List (List ℕ)) (x y : List ℕ)
    → buffer_at (length bs) (set_buffer (length bs) y (bs ++ (x ∷ []))) ≡ y
unfolding buffer_at set_buffer
buffer_at-set_buffer-last [] x y = refl
buffer_at-set_buffer-last (b ∷ bs) x y = buffer_at-set_buffer-last bs x y

buffer_at-last : (bs : List (List ℕ)) (x : List ℕ) → buffer_at (length bs) (bs ++ (x ∷ [])) ≡ x
unfolding buffer_at
buffer_at-last [] x = refl
buffer_at-last (b ∷ bs) x = buffer_at-last bs x

buffer_at-emptied : (i : ℕ) (bs : List (List ℕ)) → buffer_at i (set_buffer i [] bs) ≡ []
unfolding buffer_at set_buffer
buffer_at-emptied i [] = refl
buffer_at-emptied zero (b ∷ bs) = refl
buffer_at-emptied (suc i) (b ∷ bs) = buffer_at-emptied i bs

-- A file is written with one `Write` and closed.
abbrev pub write_file : Key → List ℕ → Exec MemoryTopicStorage (Unit {0})
write_file key bs = do
  buf ← memory_storage.files.create key
  buf' ← memory_storage.files.put buf bs
  memory_storage.files.close buf'

-- A file that was written with one Write is read back whole by the first reader that is read to its
-- end, and empty by the next one.
pub storage_reader-write_file :
    (key : Key) (bs : List ℕ) (ms : MemoryTopicStorage)
    → ((write_file key bs >> storage_reader key) ms).1 ≡ ok (record { bytes = bs; failed = none })
      × ((write_file key bs >> storage_reader key >> storage_reader key) ms).1
        ≡ ok (record { bytes = []; failed = none })
unfolding storage_writer storage_write storage_reader
storage_reader-write_file key bs ms =
    rw
      (
        lookup-put key (length ms.buffers) ms.storage,
        buffer_at-last ms.buffers [],
        buffer_at-set_buffer-last ms.buffers [] bs,
        lookup-put key (length ms.buffers) ms.storage,
      )
      (
        refl,
        ap (λ b. ok (record { bytes = b; failed = none }))
            (buffer_at-emptied (length ms.buffers) _),
      )
