-- ===== src/Cache/Memory/Tests.antt =====
-- Runs of internal/sebcache/memorystorage.go and eviction.go, and the theorem at concrete inputs.
use simple_commit_log.Base.{ℕ, ◌≡◌, refl, List, [], ◌∷◌, ◌++◌, length, none, some}
use simple_commit_log.Base.Int.{pos}
use simple_commit_log.Errors.{ok, err, canceled}
use simple_commit_log.Names.{lookup, put, delete, same_name}
use simple_commit_log.Cache.{
  Cache, cache_size, items_to_delete, delete_items, evict_least_recently_used,
}
use simple_commit_log.Cache.Memory.{
  Buffers, MemoryCache, new_memory_cache, memory_cache_storage, memory_size_of, memory_reader,
  memory_writer, memory_write, memory_remove, set_elem, eviction_loop,
}
use simple_commit_log.Cache.Memory.Readers.{write_cached, read_keys, memory_reader-write_cached}

-- A buffer that is its bytes.
abbrev plain_buffers : Buffers (List ℕ)
plain_buffers = record {
  new_buffer = λ bs. bs;
  write_bytes = λ b bs. b ++ bs;
  bytes_of = λ b. b;
  len_of = length;
  new_lem = λ bs. refl;
  write_lem = λ bs. refl;
  len_lem = λ b. refl;
}

-- The file is read twice before, and another key, which is not there, is asked for in between.
memory_reader-write_cached_example :
    ((write_cached plain_buffers (116 ∷ []) (5 ∷ 6 ∷ []) (new_memory_cache (λ n. n))).1 ≡ ok tt)
    × ((memory_size_of plain_buffers
          (116 ∷ [])
          (write_cached plain_buffers (116 ∷ []) (5 ∷ 6 ∷ []) (new_memory_cache (λ n. n))).0).1
        ≡ ok (record { size = 2; accessed_at = 0; key = 116 ∷ [] }))
    × ((memory_reader plain_buffers (116 ∷ []) (
          read_keys plain_buffers
            ((116 ∷ []) ∷ (7 ∷ []) ∷ (116 ∷ []) ∷ [])
            (write_cached plain_buffers (116 ∷ []) (5 ∷ 6 ∷ []) (new_memory_cache (λ n. n))).0)).1
        ≡ ok (record { bytes = 5 ∷ 6 ∷ []; failed = none }))
memory_reader-write_cached_example =
    memory_reader-write_cached plain_buffers (116 ∷ []) (5 ∷ 6 ∷ [])
      ((116 ∷ []) ∷ (7 ∷ []) ∷ (116 ∷ []) ∷ []) (new_memory_cache (λ n. n))

-- One file of two bytes, which is evicted at the first tick if one byte is the most.
abbrev one_file : Cache (MemoryCache (List ℕ))
one_file = record {
  storage = (write_cached plain_buffers (116 ∷ []) (5 ∷ 6 ∷ []) (new_memory_cache (λ n. n))).0;
  cache_items = (116 ∷ [], record { size = 2; accessed_at = 0; key = 116 ∷ [] }) ∷ [];
}

evicted :
    eviction_loop
      (memory_cache_storage plain_buffers)
      (λ items. items)
      (pos 1)
      (none ∷ none ∷ some canceled ∷ [])
      one_file
    ≡ (
      record one_file { storage = record (one_file.storage) { items = [] }; cache_items = [] },
      err canceled,
    )
unfolding eviction_loop evict_least_recently_used delete_items items_to_delete cache_size
    memory_remove memory_writer memory_write set_elem lookup put delete same_name
evicted = refl
