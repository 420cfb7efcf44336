-- ===== src/Topic/Disk/Tests.antt =====
-- The storage of internal/sebtopic/diskstorage.go at concrete inputs.
use simple_commit_log.Base.{◌≡◌, refl, none, List, [], ◌∷◌, ℕ}
use simple_commit_log.Errors.{ok, err, not_in_storage}
use simple_commit_log.Names.{same_name, lookup, put, delete}
use simple_commit_log.Topic.Paths.{codes}
use simple_commit_log.Topic.S3.{has_suffix}
use simple_commit_log.Os.Example.{list_system, list_system_laws}
use simple_commit_log.Topic.Disk.{disk_create, disk_open, disk_list_files}
use simple_commit_log.Topic.Disk.Saved.{save, save-IsSaved, IsSaved}

abbrev pieces : List (List ℕ)
pieces = (1 ∷ 2 ∷ []) ∷ (3 ∷ []) ∷ []

-- The file is read back and listed; another one is not in the storage.
saved :
    (save list_system (codes "/d") (codes "k") pieces []
      ≡ ((codes "/d/k", 1 ∷ 2 ∷ 3 ∷ []) ∷ [], ok tt))
    × ((disk_open list_system (codes "/d") (codes "k") ((codes "/d/k", 4 ∷ []) ∷ [])).1
        ≡ ok (record { bytes = 4 ∷ []; failed = none }))
    × ((disk_open list_system (codes "/d") (codes "other") ((codes "/d/k", 4 ∷ []) ∷ [])).1
        ≡ err not_in_storage)
    × (disk_list_files list_system
          (codes "/d")
          (codes "t")
          (codes ".x")
          ((codes "/d/t/k.x", 4 ∷ []) ∷ [])
        ≡ (
          (codes "/d/t/k.x", 4 ∷ []) ∷ [],
          record { size = 1; path = codes "/d/t/k.x" } ∷ [],
          ok tt,
        ))
unfolding disk_create disk_open disk_list_files has_suffix same_name lookup put delete
saved = (refl, refl, refl, refl)

save-IsSaved_example :
    IsSaved list_system
      (codes "/d")
      list_system_laws
      (codes "k")
      []
      (1 ∷ 2 ∷ 3 ∷ [])
      (save list_system (codes "/d") (codes "k") pieces [])
save-IsSaved_example = save-IsSaved list_system (codes "/d") list_system_laws (codes "k") [] pieces
