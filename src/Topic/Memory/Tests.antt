-- ===== src/Topic/Memory/Tests.antt =====
-- The storage of internal/sebtopic/memorystorage.go at concrete inputs.
use simple_commit_log.Base.{◌≡◌, [], ◌∷◌, none}
use simple_commit_log.Errors.{ok}
use simple_commit_log.Exec.{◌>>◌}
use simple_commit_log.Topic.Memory.{
  new_memory_storage, storage_reader, write_file, storage_reader-write_file,
}

storage_reader-write_file_example :
    ((write_file (116 ∷ []) (5 ∷ 6 ∷ []) >> storage_reader (116 ∷ [])) new_memory_storage).1
      ≡ ok (record { bytes = 5 ∷ 6 ∷ []; failed = none })
    × ((write_file (116 ∷ []) (5 ∷ 6 ∷ [])
          >> storage_reader (116 ∷ [])
          >> storage_reader (116 ∷ []))
        new_memory_storage).1
      ≡ ok (record { bytes = []; failed = none })
storage_reader-write_file_example =
    storage_reader-write_file (116 ∷ []) (5 ∷ 6 ∷ []) new_memory_storage
