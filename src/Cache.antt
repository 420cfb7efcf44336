-- ===== src/Cache.antt =====
-- internal/sebcache/cache.go: the table of the files in a cache, in front of their storage. Each
-- operation holds the mutex while it changes the table. A time is a number.
pub mod Evict
pub mod Memory
pub mod Disk
pub mod Files
pub mod Serving
mod Tests
use simple_commit_log.Base.{
  ℕ, ◌+◌, List, [], ◌∷◌, length, map, total, Option, none, some, Bool, true, false, if◌then◌else◌,
}
use simple_commit_log.Base.Int.{ℤ, pos, ltb_ℤ}
use simple_commit_log.Errors.{Error, Result, ok, err, panic}
use simple_commit_log.Exec.{Exec, pure, continue, ◌>>=◌, ◌>>◌}
use simple_commit_log.Topic.Files.{Key, Stream}
use simple_commit_log.Names.{Entries, lookup, put, delete}

-- `CacheItem`
pub record CacheItem : Type 0 where
  pub size : ℕ
  pub accessed_at : ℕ
  pub key : Key

-- `Storage`, with the `Write` and `Close` of an open writer `H`.
pub record CacheStorage (S H : Type 0) : Type 0 where
  pub open_reader : Key → Exec S Stream
  pub open_writer : Key → Exec S H
  pub write_to : H → List ℕ → Exec S H
  pub close_writer : H → Exec S (Unit {0})
  pub remove : Key → Exec S (Unit {0})
  pub list : Exec S (Entries CacheItem)
  pub size_of : Key → Exec S CacheItem

-- `Cache`, with the state of its storage.
pub record Cache (S : Type 0) : Type 0 where
  pub storage : S
  pub cache_items : Entries CacheItem

-- `writeCloseWrapper`, with the key that its `afterClose` stores under.
pub record WriteCloseWrapper (H : Type 0) : Type 0 where
  pub wc : H
  pub size : ℕ
  pub key : Key

-- `Size`
unfoldable pub cache_size : {S : Type 0} → Cache S → ℕ
cache_size c = total (map (λ e. e.1.size) c.cache_items)

-- The loop of `EvictLeastRecentlyUsed` that looks for the first item that does not fit; the items
-- from there on are deleted.
unfoldable pub items_to_delete : ℤ → ℕ → List CacheItem → List CacheItem
items_to_delete max_size cur_size [] = []
items_to_delete max_size cur_size (item ∷ items) =
    let rest = items_to_delete max_size (cur_size + item.size) items in
    if ltb_ℤ max_size (pos (cur_size + item.size)) then item ∷ items else rest

module _ {S H : Type 0} (io : CacheStorage S H) where
  abbrev pub in_storage : {A : Type 0} → Cache S → S × Result A → Cache S × Result A
  in_storage c (s, r) = (record c { storage = s }, r)

  -- A call of the storage.
  abbrev pub on_storage : {A : Type 0} → Exec S A → Exec (Cache S) A
  on_storage m c = in_storage c (m c.storage)

  -- A store to the table.
  abbrev pub set_item : Key → CacheItem → Exec (Cache S) (Unit {0})
  set_item key item c = (record c { cache_items = put key item c.cache_items }, ok tt)

  -- `NewCacheWithNow`, on the state of the storage.
  abbrev listed_items : S × Result (Entries CacheItem) → S × Result (Cache S)
  listed_items (s, ok items) = (s, ok (record { storage = s; cache_items = items }))
  listed_items (s, err e) = (s, err e)
  listed_items (s, panic) = (s, panic)

  unfoldable pub new_cache : Exec S (Cache S)
  new_cache s = listed_items (io.list s)

  -- `Writer`
  unfoldable pub writer : Key → Exec (Cache S) (WriteCloseWrapper H)
  writer key = do w ← on_storage (io.open_writer key); pure (record { wc = w; size = 0; key = key })

  -- `writeCloseWrapper.Write`. A write that fails counts no bytes here; the code counts those that the
  -- storage took before the error.
  unfoldable pub wrapper_write : WriteCloseWrapper H → List ℕ → Exec (Cache S) (WriteCloseWrapper H)
  wrapper_write w bs = do
    wc ← on_storage (io.write_to w.wc bs)
    pure (record w { wc = wc; size = w.size + length bs })

  -- `writeCloseWrapper.Close`, where the clock returns `now`.
  unfoldable pub wrapper_close : ℕ → WriteCloseWrapper H → Exec (Cache S) (Unit {0})
  wrapper_close now w = do
    on_storage (io.close_writer w.wc)
    set_item w.key (record { size = w.size; accessed_at = now; key = w.key })

  -- `Write`: the error of the deferred `Close` is dropped.
  abbrev dropped : ℕ → Cache S × Result (Unit {0}) → Cache S × Result ℕ
  dropped n (c, ok _) = (c, ok n)
  dropped n (c, err e) = (c, ok n)
  dropped n (c, panic) = (c, panic)

  abbrev closed_after :
      ℕ → WriteCloseWrapper H → Cache S × Result (WriteCloseWrapper H) → Cache S × Result ℕ
  closed_after now w (c, ok w') = dropped (w'.size) (wrapper_close now w' c)
  closed_after now w (c, err e) = ((wrapper_close now w c).0, err e)
  closed_after now w (c, panic) = ((wrapper_close now w c).0, panic)

  unfoldable pub cache_write : ℕ → Key → List ℕ → Exec (Cache S) ℕ
  cache_write now key bs = do w ← writer key; λ c. closed_after now w (wrapper_write w bs c)

  -- The item that `Reader` stores for a file that is not in the table: the zero value where the
  -- storage does not tell its size.
  abbrev pub missing_item : Cache S × Result CacheItem → Cache S × Result CacheItem
  missing_item (c, ok item) = (c, ok item)
  missing_item (c, err e) = (c, ok (record { size = 0; accessed_at = 0; key = [] }))
  missing_item (c, panic) = (c, panic)

  abbrev pub known_item : Key → Option CacheItem → Exec (Cache S) CacheItem
  known_item key (some item) = pure item
  known_item key none = λ c. missing_item (on_storage (io.size_of key) c)

  -- `Reader`
  unfoldable pub cache_reader : ℕ → Key → Exec (Cache S) Stream
  cache_reader now key = do
    r ← on_storage (io.open_reader key)
    item ← λ c. known_item key (lookup key c.cache_items) c
    set_item key (record item { accessed_at = now })
    pure r

  -- The loop that deletes them.
  unfoldable pub delete_items : List CacheItem → Exec (Cache S) (Unit {0})
  delete_items [] = pure tt
  delete_items (item ∷ items) = do
    on_storage (io.remove item.key)
    λ c. (record c { cache_items = delete item.key c.cache_items }, ok tt)
    delete_items items

  -- `EvictLeastRecentlyUsed`; `sort` is what `sort.Slice` makes of the values of the table, the most
  -- recently used first.
  unfoldable pub evict_least_recently_used :
      (List CacheItem → List CacheItem) → ℤ → Exec (Cache S) (Unit {0})
  evict_least_recently_used sort max_size c =
      delete_items (items_to_delete max_size 0 (sort (map (λ e. e.1) c.cache_items))) c
