-- ===== src/Cache/Serving.antt =====
-- internal/sebtopic/topic.go over the cache of internal/sebcache/cache.go: what a topic reads while
-- files are evicted. The clock of the cache shows one time.
mod Tests
use simple_commit_log.Base.{
  ℕ, ◌+◌, ◌-◌, ◌^◌, ◌≤◌, ◌<◌, ◌≡◌, refl, List, [], ◌∷◌, Option, none, length, ◌⊎◌, inl, inr,
}
use simple_commit_log.Base.Int.{ℤ, pos}
use simple_commit_log.Errors.{Error, ok}
use simple_commit_log.Helpy.{Slicey}
use simple_commit_log.Slice.{cap, IsWf}
use simple_commit_log.Records.Batch.{Batch}
use simple_commit_log.Records.File.Reads.{Grows}
use simple_commit_log.Topic.Files.{Key, Storage}
use simple_commit_log.Topic.State.{Topic, Config}
use simple_commit_log.Topic.Read.{read_records}
use simple_commit_log.Topic.Log.Whole.{asked}
use simple_commit_log.Topic.Store.{StoreLaws}
use simple_commit_log.Topic.Store.Serving.{Named}
use simple_commit_log.Topic.Store.Keeping.{log_records}
use simple_commit_log.Topic.Store.History.{Reaches, evicted, read_records-Reaches}
use simple_commit_log.Cache.{
  Cache, CacheItem, CacheStorage, WriteCloseWrapper, evict_least_recently_used,
}
use simple_commit_log.Cache.Files.{
  storage_files, cache_files, cache_laws, Sizes, Removes, evict_least_recently_used-Fewer,
}

module _ {S H C G : Type 0} (io : CacheStorage C G) (now : ℕ) (topic_name : Key)
    (storage : Storage S H) where
  -- A topic without compression, with the cache over its storage.
  abbrev pub cached_config : Config S H (Cache C) (WriteCloseWrapper G)
  cached_config = record {
    topic_name = topic_name;
    backing_storage = storage;
    cache = cache_files io now;
    compression = none;
  }

  module _ {F : Type 0} (backing : StoreLaws storage.files F)
      (laws : StoreLaws (storage_files io) ⊥) (sizes : Sizes io laws now)
      (removes : Removes io laws now)
      (named : Named cached_config backing (cache_laws io laws now sizes)) where
    abbrev pub laws_of_cache : StoreLaws (cache_files io now) ⊥
    laws_of_cache = cache_laws io laws now sizes

    -- The topic behind an eviction from its cache.
    abbrev pub after_eviction :
        (List CacheItem → List CacheItem) → ℤ → Topic S (Cache C) → Topic S (Cache C)
    after_eviction sort max_size t = record t {
      cached = (evict_least_recently_used io sort max_size t.cached).0;
    }

    -- For a topic without compression over a backing storage and the cache of cache.go, where both
    -- storages have the laws of a store, that of the cache does not fail in writing, the topic's keys
    -- name files of their own, SizeOf of the cache's storage does not panic or change a file, its
    -- Remove removes a file or nothing, and the cache's clock shows one time: in every state that the
    -- topic reaches from an empty one by calls of AddRecords that succeed, with valid batches that have
    -- a record or more and files below 2^32 bytes, where the offsets and time stamps stay below 2^64,
    -- calls of AddRecords that fail below that offset, ReadRecords and evictions, and behind an EvictLeastRecentlyUsed with any limit and any order, however it ends,
    -- ReadRecords without a limit of bytes, from an offset below the next one, returns no error and
    -- puts the records of the added batches from the offset on behind what the buffer has, as many as
    -- there are up to the limit of records less those that the buffer has, where the context does not
    -- end, the limit is below 2^32 and the buffer has room.
    pub read_records-evicted :
        (slicey : Slicey) (t : Topic S (Cache C)) (log : List (ℕ × Batch))
        (sort : List CacheItem → List CacheItem) (max_size : ℤ) (ctx : ℕ → Option Error)
        (buffer : Batch) (offset max : ℕ)
        → Reaches slicey cached_config backing laws_of_cache t log
        → ((k : ℕ) → ctx k ≡ none)
        → IsWf buffer.sizes
        → IsWf buffer.records_data
        → asked max < 2 ^ 32
        → offset < t.next_offset
        → length (log_records cached_config backing laws_of_cache buffer offset max log).0
          ≤ cap buffer.sizes - buffer.sizes.len
        → length (log_records cached_config backing laws_of_cache buffer offset max log).1
          ≤ cap buffer.records_data - buffer.records_data.len
        → (t' : Topic S (Cache C)) × (out : Batch) × (read_records cached_config ctx buffer offset
              (pos max)
              (pos 0)
              (after_eviction sort max_size t)
            ≡ (t', out, ok tt))
          × Grows buffer
              (log_records cached_config backing laws_of_cache buffer offset max log).0
              (log_records cached_config backing laws_of_cache buffer offset max log).1
              out
    read_records-evicted slicey t log sort max_size ctx buffer offset max h endless ws wd fits below
          room_s room_d =
        let (t', out, e, keeps, grows) =
          read_records-Reaches slicey cached_config backing laws_of_cache named refl
            (after_eviction sort max_size t) log ctx buffer offset max
            (evicted t log (evict_least_recently_used io sort max_size t.cached).0 h
              (evict_least_recently_used-Fewer io laws now removes sort max_size t.cached))
            endless ws wd fits below room_s room_d in
        (t', out, e, grows)
