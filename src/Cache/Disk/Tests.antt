-- ===== src/Cache/Disk/Tests.antt =====
-- The storage of internal/sebcache/diskstorage.go at concrete inputs.
use simple_commit_log.Base.{◌≡◌, refl, List, [], ◌∷◌, none, ℕ}
use simple_commit_log.Errors.{ok, err, not_found}
use simple_commit_log.Names.{same_name, lookup, put, delete}
use simple_commit_log.Topic.Paths.{codes}
use simple_commit_log.Topic.S3.{has_suffix}
use simple_commit_log.Http.Guard.{trim_prefix}
use simple_commit_log.Os.Example.{list_system, list_system_laws, absolute_path}
use simple_commit_log.Cache.Disk.{
  DiskCache, new_disk_cache, cache_path, disk_writer, disk_write, disk_close, disk_reader,
  disk_remove, disk_list, disk_size_of,
}
use simple_commit_log.Cache.Disk.Atomic.{save, save-IsAtomic, IsAtomic}
use simple_commit_log.Cache.Disk.Root.{save-refused, IsRefused}

abbrev rooted : DiskCache
rooted = record { root_dir = codes "/c/"; temp_dir = codes "/c/_tmpdir" }

abbrev pieces : List (List ℕ)
pieces = (1 ∷ 2 ∷ []) ∷ (3 ∷ []) ∷ []

new_rooted : new_disk_cache list_system (codes "/c") [] ≡ ([], ok rooted)
unfolding new_disk_cache has_suffix same_name
new_rooted = refl

-- The file is listed under its key; SizeOf does not find it.
saved :
    (save list_system rooted (codes "k") pieces [] ≡ ((codes "/c/k", 1 ∷ 2 ∷ 3 ∷ []) ∷ [], ok tt))
    × ((disk_reader list_system rooted
          (codes "k")
          (save list_system rooted (codes "k") pieces []).0).1
        ≡ ok (record { bytes = 1 ∷ 2 ∷ 3 ∷ []; failed = none }))
    × ((disk_list list_system rooted (save list_system rooted (codes "k") pieces []).0).1
        ≡ ok ((codes "k", record { size = 3; accessed_at = 0; key = codes "k" }) ∷ []))
    × ((disk_size_of list_system rooted
          (codes "k")
          (save list_system rooted (codes "k") pieces []).0).1
        ≡ err not_found)
unfolding disk_writer disk_write disk_close disk_reader disk_list disk_size_of cache_path has_suffix
    same_name lookup put delete trim_prefix
saved = (refl, refl, refl, refl)

save-IsAtomic_example :
    IsAtomic list_system list_system_laws rooted
      (codes "k")
      []
      (1 ∷ 2 ∷ 3 ∷ [])
      (save list_system rooted (codes "k") pieces [])
unfolding has_suffix same_name
save-IsAtomic_example =
    save-IsAtomic list_system list_system_laws rooted (codes "k") [] (λ o. refl) pieces

abbrev relative : DiskCache
relative = record { root_dir = codes "c/"; temp_dir = codes "c/_tmpdir" }

save-refused_example :
    IsRefused list_system relative [] (save list_system relative (codes "k") pieces [])
    × IsRefused list_system relative [] (disk_reader list_system relative (codes "k") [])
    × IsRefused list_system relative [] (disk_remove list_system relative (codes "k") [])
save-refused_example =
    save-refused list_system relative b'c' (codes "/") refl refl absolute_path (codes "k") pieces []
