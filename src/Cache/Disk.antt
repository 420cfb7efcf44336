-- ===== src/Cache/Disk.antt =====
-- internal/sebcache/diskstorage.go: a storage of a cache that keeps its files on the disk.
mod Tests
pub mod Atomic
pub mod Root
pub mod Laws
use simple_commit_log.Base.{
  ℕ, List, [], ◌∷◌, ◌++◌, Option, none, some, Bool, true, false, ◌⊎◌, inl, inr, if◌then◌else◌,
}
use simple_commit_log.Errors.{Error, Result, ok, err, panic, unauthorized, not_in_cache}
use simple_commit_log.Exec.{Exec, pure, lift, ◌>>=◌, ◌>>◌}
use simple_commit_log.Names.{Entries, put}
use simple_commit_log.Topic.Files.{Key, Stream}
use simple_commit_log.Topic.Memory.{has_prefix}
use simple_commit_log.Topic.Paths.{codes}
use simple_commit_log.Topic.S3.{has_suffix}
use simple_commit_log.Http.Guard.{trim_prefix}
use simple_commit_log.Cache.{CacheItem, CacheStorage}
use simple_commit_log.Os.{FileInfo, FileSystem}

-- `DiskCache`
pub record DiskCache : Type 0 where
  pub root_dir : Key
  pub temp_dir : Key

-- `cacheWriter`
pub record CacheWriter (F : Type 0) : Type 0 where
  pub tmp_file : F
  pub dest_path : Key

module _ {O F : Type 0} (os : FileSystem O F) where
  -- `NewDiskStorage`
  unfoldable pub new_disk_cache : Key → Exec O DiskCache
  new_disk_cache root_dir = do
    let root_dir' = if has_suffix root_dir (b'/' ∷ []) then root_dir else root_dir ++ (b'/' ∷ [])
    let temp_dir = os.join root_dir' (codes "_tmpdir")
    os.mkdir_all temp_dir
    pure (record { root_dir = root_dir'; temp_dir = temp_dir })

  module _ (c : DiskCache) where
    -- `cachePath`
    abbrev pub inside : Key → Result Key → Result Key
    inside key (ok abs) =
        if has_prefix abs c.root_dir then ok (os.join c.root_dir key) else err unauthorized
    inside key (err e) = err e
    inside key panic = panic

    unfoldable pub cache_path : Key → Result Key
    cache_path key = inside key (os.abs (os.join c.root_dir key))

    -- `Writer`, with `newCacheWriter`
    unfoldable pub disk_writer : Key → Exec O (CacheWriter F)
    disk_writer key = do
      cache_path' ← lift (cache_path key)
      tmp_file ← os.create_temp c.temp_dir
      pure (record { tmp_file = tmp_file; dest_path = cache_path' })

    -- `Remove`
    unfoldable pub disk_remove : Key → Exec O (Unit {0})
    disk_remove key = do path ← lift (cache_path key); os.remove_file path

    -- A miss, whatever the error is.
    abbrev pub opened_cached : O × (Stream ⊎ Bool) → O × Result Stream
    opened_cached (o, inl f) = (o, ok f)
    opened_cached (o, inr _) = (o, err not_in_cache)

    -- `Reader`
    unfoldable pub disk_reader : Key → Exec O Stream
    disk_reader key = do
      cache_path' ← lift (cache_path key)
      λ o. opened_cached (os.open_file cache_path' o)

    -- `SizeOf`, which asks for the file at the key itself, and gives no key.
    unfoldable pub disk_size_of : Key → Exec O CacheItem
    disk_size_of key = do
      info ← os.stat key
      pure (record { size = info.size; accessed_at = info.mod_time; key = [] })

    -- The items of the files that `Walk` called back with.
    abbrev walked : List (Key × FileInfo) → Entries CacheItem → Entries CacheItem
    walked [] items = items
    walked ((path, info) ∷ infos) items =
        let trimmed = trim_prefix path c.root_dir in
        walked infos (
          put trimmed (record { size = info.size; accessed_at = info.mod_time; key = trimmed })
            items)

    abbrev listed : O × List (Key × FileInfo) × Result (Unit {0}) → O × Result (Entries CacheItem)
    listed (o, infos, ok _) = (o, ok (walked infos []))
    listed (o, infos, err e) = (o, err e)
    listed (o, infos, panic) = (o, panic)

    -- `List`
    unfoldable pub disk_list : Exec O (Entries CacheItem)
    disk_list o = listed (os.walk c.root_dir true [] o)

  -- `cacheWriter.Write`
  unfoldable pub disk_write : CacheWriter F → List ℕ → Exec O (CacheWriter F)
  disk_write cw bs = do os.write_file cw.tmp_file bs; pure cw

  -- `cacheWriter.Close`
  unfoldable pub disk_close : CacheWriter F → Exec O (Unit {0})
  disk_close cw = do
    os.close_file cw.tmp_file
    os.mkdir_all (os.dir cw.dest_path)
    os.rename (os.file_name cw.tmp_file) cw.dest_path

  -- The storage as the one of a cache.
  abbrev pub disk_cache_storage : DiskCache → CacheStorage O (CacheWriter F)
  disk_cache_storage c = record {
    open_reader = disk_reader c;
    open_writer = disk_writer c;
    write_to = disk_write;
    close_writer = disk_close;
    remove = disk_remove c;
    list = disk_list c;
    size_of = disk_size_of c;
  }
