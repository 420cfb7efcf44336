-- ===== src/Topic/Disk/Laws.antt =====
-- The laws of a store for the storage of internal/sebtopic/diskstorage.go.
use simple_commit_log.Base.{◌≡◌, refl, ap, List, none, some, false, if◌then◌else◌, ℕ}
use simple_commit_log.Errors.{Error, ok, err, not_in_storage, other}
use simple_commit_log.Names.{same_name}
use simple_commit_log.Topic.Files.{Key}
use simple_commit_log.Topic.Store.{StoreLaws}
use simple_commit_log.Os.{FileSystem, FileLaws, IsReadable}
use simple_commit_log.Topic.Disk.{disk_files, disk_open, root_dir_path, opened_batch}
use simple_commit_log.Topic.Disk.Saved.{IsOpen-create, IsOpen-put}

module _ {O F : Type 0} (os : FileSystem O F) (root_dir : Key) (laws : FileLaws os)
    (readable : IsReadable os laws) where
  abbrev pub at_path : Key → Key
  at_path key = root_dir_path os root_dir key

  -- Keys of which no two have the same path.
  abbrev pub Separates : (Key → Type 0) → Type 0
  Separates IsClean =
      (k key : Key)
      → IsClean k
      → IsClean key
      → same_name k key ≡ false
      → same_name (at_path k) (at_path key) ≡ false

  pub disk_open_lem :
      (key : Key) (o : O) (bs : List ℕ)
      → laws.content o (at_path key) ≡ some bs
      → disk_open os root_dir key o
        ≡ ((os.open_file (at_path key) o).0, ok (record { bytes = bs; failed = none }))
  unfolding disk_open
  disk_open_lem key o bs at =
      ap (λ r. opened_batch os root_dir ((os.open_file (at_path key) o).0, r))
        (readable.opens (at_path key) o bs at)

  pub disk_open-missing :
      (key : Key) (o : O)
      → laws.content o (at_path key) ≡ none
      → (e : Error) × (disk_open os root_dir key o ≡ ((os.open_file (at_path key) o).0, err e))
  unfolding disk_open
  disk_open-missing key o at =
      let (b, e) = readable.missing (at_path key) o at in
      (
        if b then not_in_storage else other,
        ap (λ r. opened_batch os root_dir ((os.open_file (at_path key) o).0, r)) e,
      )

  abbrev pub disk_laws :
      (IsClean : Key → Type 0) → Separates IsClean → StoreLaws (disk_files os root_dir) (Unit {0})
  disk_laws IsClean separates = record {
    IsKey = IsClean;
    view = λ o key. laws.content o (at_path key);
    IsOpen = λ o f key bs. laws.Holds o f (at_path key) bs;
    create_lem = λ key o _. (IsOpen-create os root_dir laws key o).1;
    put_lem = λ key o f bs xs h. (IsOpen-put os root_dir laws key o f bs xs o h (λ k ne. refl)).1;
    close_lem = λ key o f bs h. laws.close_lem (at_path key) o f bs h;
    create_others = λ key k o is_key is_k ne.
        (IsOpen-create os root_dir laws key o).0 (at_path k) (separates k key is_k is_key ne);
    put_others = λ key k o f bs xs h is_key is_k ne.
        (IsOpen-put os root_dir laws key o f bs xs o h (λ k ne. refl)).0 (at_path k)
          (separates k key is_k is_key ne);
    close_others = λ key k o f bs h is_key is_k ne.
        laws.close_others (at_path key) (at_path k) o f bs h (separates k key is_k is_key ne);
    reader_lem = λ key o bs _ at. (
      (os.open_file (at_path key) o).0,
      disk_open_lem key o bs at,
      λ k. readable.keeps (at_path key) (at_path k) o,
    );
    reader_missing = λ key o _ at.
        let (e, eq) = disk_open-missing key o at in
        ((os.open_file (at_path key) o).0, e, eq, λ k. readable.keeps (at_path key) (at_path k) o);
    close_reader_lem = λ key o. (o, refl, λ k. refl);
  }
