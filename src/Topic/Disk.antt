-- ===== src/Topic/Disk.antt =====
-- internal/sebtopic/diskstorage.go: the storage of a topic on the disk.
pub mod Saved
pub mod Laws
mod Tests
use simple_commit_log.Base.{ℕ, List, [], ◌∷◌, map, Bool, true, false, ◌⊎◌, inl, inr, if◌then◌else◌}
use simple_commit_log.Errors.{Error, Result, ok, err, panic, not_in_storage, other}
use simple_commit_log.Exec.{Exec, pure, ◌>>=◌, ◌>>◌}
use simple_commit_log.Topic.Files.{Key, Stream, File, Files, Storage}
use simple_commit_log.Os.{FileInfo, FileSystem}

module _ {O F : Type 0} (os : FileSystem O F) (root_dir : Key) where
  -- `rootDirPath`
  abbrev pub root_dir_path : Key → Key
  root_dir_path key = os.join root_dir key

  -- `Writer`
  unfoldable pub disk_create : Key → Exec O F
  disk_create key = do
    let batch_path = root_dir_path key
    os.mkdir_all (os.dir batch_path)
    os.create_file batch_path

  abbrev pub opened_batch : O × (Stream ⊎ Bool) → O × Result Stream
  opened_batch (o, inl f) = (o, ok f)
  opened_batch (o, inr missing) = (o, err (if missing then not_in_storage else other))

  -- `Reader`
  unfoldable pub disk_open : Key → Exec O Stream
  disk_open key o = opened_batch (os.open_file (root_dir_path key) o)

  -- `ListFiles`: the files that `Walk` called back with, also beside its error.
  abbrev listed_files :
      O × List (Key × FileInfo) × Result (Unit {0}) → O × List File × Result (Unit {0})
  listed_files (o, infos, r) = (o, map (λ e. record { size = e.1.size; path = e.0 }) infos, r)

  unfoldable pub disk_list_files : Key → Key → O → O × List File × Result (Unit {0})
  disk_list_files topic_name extension o =
      listed_files (os.walk (root_dir_path topic_name) false (extension ∷ []) o)

  -- The files as those of a topic; a writer is the open file.
  abbrev pub disk_files : Files O F
  disk_files = record {
    create = disk_create;
    put = λ f bs. os.write_file f bs >> pure f;
    close = os.close_file;
    reader = disk_open;
    close_reader = λ key. pure tt;
  }

  -- The files that are listed without an error, which is all that `New` asks for.
  abbrev without_error : O × List File × Result (Unit {0}) → O × Result (List File)
  without_error (o, files, ok _) = (o, ok files)
  without_error (o, files, err e) = (o, err e)
  without_error (o, files, panic) = (o, panic)

  abbrev pub disk_storage : Storage O F
  disk_storage = record {
    files = disk_files;
    list_files = λ topic_name extension o. without_error (disk_list_files topic_name extension o);
  }
