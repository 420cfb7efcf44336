-- ===== src/Cache/Serving/Tests.antt =====
-- A topic of internal/sebtopic/topic.go over the storage and the cache on two disks, whose files are
-- in lists.
use simple_commit_log.Base.{replicate, ℕ, ◌<◌, ◌≡◌, refl, List, [], ◌∷◌, arith, none, false}
use simple_commit_log.Base.Int.{pos}
use simple_commit_log.Errors.{Result, ok}
use simple_commit_log.Helpy.Example.{go_slicey}
use simple_commit_log.Names.{same_name, lookup, put, delete}
use simple_commit_log.Records.Batch.{Batch}
use simple_commit_log.Records.Bytes.{le_bytes, put_u32s}
use simple_commit_log.Records.File.{header_size, encode_header, indexes_from, header_of, write}
use simple_commit_log.Records.File.Reads.{Grows}
use simple_commit_log.Slice.{of_list}
use simple_commit_log.OffsetCond.{broadcast, broadcast_loop}
use simple_commit_log.Topic.Add.{
  add_records, store_batch, cache_batch, write_batch, write_plain, offsets_from, announce,
}
use simple_commit_log.Topic.Files.{Key, Storage}
use simple_commit_log.Topic.State.{Topic}
use simple_commit_log.Topic.Read.{read_records}
use simple_commit_log.Topic.Paths.{codes, decimal, padded, record_batch_key}
use simple_commit_log.Topic.S3.{has_suffix}
use simple_commit_log.Topic.Store.{StoreLaws}
use simple_commit_log.Topic.Store.Serving.{Named}
use simple_commit_log.Topic.Store.History.{Reaches, started, added}
use simple_commit_log.Topic.Disk.{disk_create, disk_files, disk_storage}
use simple_commit_log.Topic.Disk.Laws.{disk_laws, Separates}
use simple_commit_log.Os.Example.{
  Disk, list_system, list_system_laws, list_system-IsReadable, list_system-IsWritable,
}
use simple_commit_log.Cache.{
  Cache, CacheStorage, writer, wrapper_write, wrapper_close, evict_least_recently_used,
  items_to_delete, delete_items,
}
use simple_commit_log.Cache.Disk.{
  DiskCache, CacheWriter, cache_path, disk_writer, disk_write, disk_close, disk_remove,
  disk_cache_storage,
}
use simple_commit_log.Cache.Disk.Laws.{AreClean, cached_laws, cached_sizes, cached_removes}
use simple_commit_log.Cache.Files.{cache_laws, storage_files, Sizes, Removes}
use simple_commit_log.Cache.Serving.{
  cached_config, laws_of_cache, after_eviction, read_records-evicted,
}

writing : Unit {0}
unfolding add_records store_batch cache_batch write_batch write_plain offsets_from announce
    broadcast broadcast_loop decimal padded record_batch_key write encode_header header_of
    header_size indexes_from put_u32s le_bytes writer wrapper_write wrapper_close disk_writer
    disk_write disk_close disk_create cache_path has_suffix same_name lookup put delete
writing = tt

abbrev rooted : DiskCache
rooted = record { root_dir = codes "/c/"; temp_dir = codes "/c/_tmpdir" }

-- Keys that are not the one of the temporary file.
abbrev IsClean : Key → Type 0
IsClean k = same_name k (codes "_tmpdir/seb_1") ≡ false

clean : AreClean list_system list_system_laws rooted IsClean
unfolding same_name has_suffix cache_path
clean = record { inside = λ k h. refl; separate = λ k key h h' ne. ne; apart = λ k o h. h }

separates :
    Separates list_system (codes "/d") list_system_laws list_system-IsReadable (λ k. Unit {0})
unfolding same_name has_suffix
separates k key h h' ne = ne

abbrev io : CacheStorage Disk (CacheWriter Key)
io = disk_cache_storage list_system rooted

abbrev backing : StoreLaws (disk_files list_system (codes "/d")) (Unit {0})
backing =
    disk_laws list_system (codes "/d") list_system_laws list_system-IsReadable (λ k. Unit {0})
      separates

abbrev in_cache : StoreLaws (storage_files io) ⊥
in_cache =
    cached_laws list_system list_system_laws rooted list_system-IsReadable list_system-IsWritable
      IsClean clean

abbrev Whole : Type 0
Whole = Topic Disk (Cache Disk)

named : Named (cached_config io 9 (b't' ∷ []) (disk_storage list_system (codes "/d"))) backing (
    cache_laws io in_cache 9 (
      cached_sizes list_system list_system_laws rooted list_system-IsReadable list_system-IsWritable
        IsClean clean 9))
unfolding record_batch_key same_name
named o = (tt, refl)

abbrev new_topic : Whole
new_topic = record {
  next_offset = 0;
  record_batch_offsets = [];
  backing = [];
  cached = record { storage = []; cache_items = [] };
  offset_cond = record { waiting = []; current_offset = 0 };
  closed = [];
}

abbrev batch : Batch
batch = record { sizes = of_list (1 ∷ 4 ∷ []); records_data = of_list (1 ∷ 2 ∷ 3 ∷ 4 ∷ 5 ∷ []) }

abbrev stored : Whole × Result (List ℕ)
stored =
    add_records go_slicey (cached_config io 9 (b't' ∷ []) (disk_storage list_system (codes "/d"))) 7
      8 batch new_topic

stored_ok : stored.1 ≡ ok (0 ∷ 1 ∷ [])
unfolding writing
stored_ok = refl

abbrev sizes : Sizes io in_cache 9
sizes =
    cached_sizes list_system list_system_laws rooted list_system-IsReadable list_system-IsWritable
      IsClean clean 9

abbrev removes : Removes io in_cache 9
removes =
    cached_removes list_system list_system_laws rooted list_system-IsReadable list_system-IsWritable
      IsClean clean 9

abbrev storage : Storage Disk Key
storage = disk_storage list_system (codes "/d")

reached :
    Reaches go_slicey
      (cached_config io 9 (b't' ∷ []) storage)
      backing
      (laws_of_cache io 9 (b't' ∷ []) storage backing in_cache sizes removes named)
      stored.0
      ((0, batch) ∷ [])
reached =
    added new_topic [] 7 8 batch (0 ∷ 1 ∷ []) (started new_topic refl refl) stored_ok (omega arith)
      (omega arith) (omega arith) (omega arith)

-- Everything is evicted, and both records are read.
abbrev room : Batch
room = record {
  sizes = record { array = replicate 4 0; len = 0 };
  records_data = record { array = replicate 8 0; len = 0 };
}

two_in_all : 1 < stored.0.next_offset
unfolding writing
two_in_all = omega arith

evicted_all :
    (after_eviction io 9
      (b't' ∷ [])
      storage
      backing
      in_cache
      sizes
      removes
      named
      (λ items. items)
      (pos 0)
      stored.0).cached
    ≡ record { storage = []; cache_items = [] }
unfolding writing evict_least_recently_used items_to_delete delete_items disk_remove
evicted_all = refl

read_records-evicted_example :
    (t' : Whole) × (out : Batch) × (read_records
        (cached_config io 9 (b't' ∷ []) storage)
        (λ i. none)
        room
        1
        (pos 2)
        (pos 0)
        (after_eviction io 9
          (b't' ∷ [])
          storage
          backing
          in_cache
          sizes
          removes
          named
          (λ items. items)
          (pos 0)
          stored.0)
      ≡ (t', out, ok tt))
    × Grows room (4 ∷ []) (2 ∷ 3 ∷ 4 ∷ 5 ∷ []) out
read_records-evicted_example =
    read_records-evicted io 9 (b't' ∷ []) storage backing in_cache sizes removes named go_slicey
      stored.0 ((0, batch) ∷ []) (λ items. items) (pos 0) (λ i. none) room 1 2 reached (λ k. refl)
      (omega arith) (omega arith) (omega arith) two_in_all (omega arith) (omega arith)
