-- ===== src/Cache/Memory.antt =====
-- internal/sebcache/memorystorage.go and eviction.go: a storage of a cache that keeps its files in
-- memory, and the loop that evicts. The buffers of the package go-helpy/bytey are a parameter, and a
-- *bytey.Buffer is its place among those made.
pub mod Readers
mod Tests
use simple_commit_log.Base.{
  ℕ, zero, suc, ◌≡◌, List, [], ◌∷◌, ◌++◌, length, map, get_elem?, Option, none, some, if◌then◌else◌,
}
use simple_commit_log.Base.Int.{ℤ, pos, leb_ℤ}
use simple_commit_log.Errors.{Error, Result, ok, err, panic, not_in_cache}
use simple_commit_log.Exec.{Exec, continue}
use simple_commit_log.Names.{Entries, lookup, put, delete}
use simple_commit_log.Topic.Files.{Key, Stream}
use simple_commit_log.Cache.{Cache, CacheItem, CacheStorage, cache_size, evict_least_recently_used}

-- `bytey.NewBuffer` of bytes, `Write`, `Bytes` and `Len`.
pub record Buffers (B : Type 0) : Type 0 where
  pub new_buffer : List ℕ → B
  pub write_bytes : B → List ℕ → B
  pub bytes_of : B → List ℕ
  pub len_of : B → ℕ
  pub new_lem : (bs : List ℕ) → bytes_of (new_buffer bs) ≡ bs
  pub write_lem : (xs : List ℕ) → bytes_of (write_bytes (new_buffer []) xs) ≡ xs
  pub len_lem : (b : B) → len_of b ≡ length (bytes_of b)

-- `memoryCacheItem`
pub record MemoryCacheItem : Type 0 where
  pub buf : ℕ
  pub accessed_at : ℕ

-- `MemoryCache`, with all buffers that were made. `now` gives the times that the clock shows at its
-- calls, of which there were `calls`.
pub record MemoryCache (B : Type 0) : Type 0 where
  pub now : ℕ → ℕ
  pub calls : ℕ
  pub buffers : List B
  pub items : Entries MemoryCacheItem

-- `NewMemoryStorage`
abbrev pub new_memory_cache : {B : Type 0} → (ℕ → ℕ) → MemoryCache B
new_memory_cache now = record { now = now; calls = 0; buffers = []; items = [] }

unfoldable pub set_elem : {B : Type 0} → ℕ → B → List B → List B
set_elem i x [] = []
set_elem zero x (b ∷ bs) = x ∷ bs
set_elem (suc i) x (b ∷ bs) = b ∷ set_elem i x bs

module _ {B : Type 0} (buffers : Buffers B) where
  -- What follows a use of the buffer at a place, where there always is one.
  abbrev pub with_buffer :
      {A : Type 0}
      → MemoryCache B
      → Option B
      → (B → MemoryCache B × Result A)
      → MemoryCache B × Result A
  with_buffer mc none k = (mc, panic)
  with_buffer mc (some b) k = k b

  -- `Reader`: another buffer, of the bytes that are in the item's.
  abbrev pub item_opened :
      Key → MemoryCache B → Option MemoryCacheItem → MemoryCache B × Result Stream
  item_opened key mc none = (mc, err not_in_cache)
  item_opened key mc (some item) =
      let item' : MemoryCacheItem = record item { accessed_at = mc.now mc.calls } in
      let mc' = record mc { calls = suc mc.calls; items = put key item' mc.items } in
      with_buffer mc' (get_elem? mc.buffers item.buf) λ b. (
        mc',
        ok (record {
          bytes = buffers.bytes_of (buffers.new_buffer (buffers.bytes_of b));
          failed = none;
        }),
      )

  unfoldable pub memory_reader : Key → Exec (MemoryCache B) Stream
  memory_reader key mc = item_opened key mc (lookup key mc.items)

  -- `Writer`
  unfoldable pub memory_writer : Key → Exec (MemoryCache B) ℕ
  memory_writer key mc =
      let item : MemoryCacheItem = record {
        buf = length mc.buffers;
        accessed_at = mc.now mc.calls;
      } in
      (
        record mc {
          calls = suc mc.calls;
          buffers = mc.buffers ++ (buffers.new_buffer [] ∷ []);
          items = put key item mc.items;
        },
        ok (length mc.buffers),
      )

  -- `Write` on the buffer that `Writer` returned.
  unfoldable pub memory_write : ℕ → List ℕ → Exec (MemoryCache B) ℕ
  memory_write buf bs mc =
      with_buffer mc (get_elem? mc.buffers buf)
        λ b. (record mc { buffers = set_elem buf (buffers.write_bytes b bs) mc.buffers }, ok buf)

  -- `Remove`
  unfoldable pub memory_remove : Key → Exec (MemoryCache B) (Unit {0})
  memory_remove key mc = (record mc { items = delete key mc.items }, ok tt)

  -- What `List` and `SizeOf` tell of an item.
  abbrev pub item_of : MemoryCache B → Key → MemoryCacheItem → CacheItem
  item_of mc key item = record {
    size = elim (get_elem? mc.buffers item.buf) [ none ↦ 0 | some b ↦ buffers.len_of b ];
    accessed_at = item.accessed_at;
    key = key;
  }

  unfoldable pub memory_list : Exec (MemoryCache B) (Entries CacheItem)
  memory_list mc = (mc, ok (map (λ e. (e.0, item_of mc e.0 e.1)) mc.items))

  abbrev pub item_sized : MemoryCache B → Key → Option MemoryCacheItem → Result CacheItem
  item_sized mc key none = err not_in_cache
  item_sized mc key (some item) = ok (item_of mc key item)

  -- `SizeOf`
  unfoldable pub memory_size_of : Key → Exec (MemoryCache B) CacheItem
  memory_size_of key mc = (mc, item_sized mc key (lookup key mc.items))

  -- The storage as the one of a cache; the closers do nothing.
  abbrev pub memory_cache_storage : CacheStorage (MemoryCache B) ℕ
  memory_cache_storage = record {
    open_reader = memory_reader;
    open_writer = memory_writer;
    write_to = memory_write;
    close_writer = λ buf mc. (mc, ok tt);
    remove = memory_remove;
    list = memory_list;
    size_of = memory_size_of;
  }

-- `EvictionLoop`: at each round the context ends with an error or the ticker ticks. Behind the rounds
-- that are given the loop still waits.
unfoldable pub eviction_loop :
    {S H : Type 0}
    → CacheStorage S H
    → (List CacheItem → List CacheItem)
    → ℤ
    → List (Option Error)
    → Exec (Cache S) (Unit {0})
eviction_loop io sort cache_max_bytes [] c = (c, ok tt)
eviction_loop io sort cache_max_bytes (some e ∷ rounds) c = (c, err e)
eviction_loop {S} io sort cache_max_bytes (none ∷ rounds) c =
    let next : Exec (Cache S) (Unit {0}) = eviction_loop io sort cache_max_bytes rounds in
    if leb_ℤ (pos (cache_size c)) cache_max_bytes
    then next c
    else continue (evict_least_recently_used io sort cache_max_bytes c) (λ _. next)
