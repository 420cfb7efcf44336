-- ===== src/Topic/Disk/Saved.antt =====
-- What a file that was written through internal/sebtopic/diskstorage.go reads back as.
use simple_commit_log.Base.{
  ℕ, ◌≡◌, refl, sym, ap, subst, ◌∙◌, List, [], ◌∷◌, ◌++◌, append_assoc, append-nil, ◌⊎◌, inl, inr,
  none, some, Bool, true, false,
}
use mathlib.Core.Option.{some_inj}
use simple_commit_log.Errors.{Result, ok, err, panic, not_in_storage}
use simple_commit_log.Exec.{Exec, pure, continue, ◌>>=◌}
use simple_commit_log.Names.{same_name}
use simple_commit_log.Topic.Files.{Key, Stream}
use simple_commit_log.Os.{
  FileSystem, FileLaws, Opens, Succeeding, Succeeding-map, Succeeding-any, Succeeding-continue,
  joined,
}
use simple_commit_log.Topic.Disk.{disk_files, disk_create, disk_open, root_dir_path, opened_batch}

module _ {O F : Type 0} (os : FileSystem O F) (root_dir : Key) where
  -- A caller's writes to an open file, and its Close.
  abbrev pub write_and_close : List (List ℕ) → F → Exec O (Unit {0})
  write_and_close [] f = (disk_files os root_dir).close f
  write_and_close (bs ∷ bss) f = (disk_files os root_dir).put f bs >>= λ f'. write_and_close bss f'

  -- A file as a caller saves it.
  abbrev pub save : Key → List (List ℕ) → Exec O (Unit {0})
  save key bss = (disk_files os root_dir).create key >>= λ f. write_and_close bss f

  module _ (laws : FileLaws os) (key : Key) (o₀ : O) where
    abbrev pub path_of : Key
    path_of = root_dir_path os root_dir key

    abbrev pub Spared : O → Type 0
    Spared o = (k : Key) → same_name k path_of ≡ false → laws.content o k ≡ laws.content o₀ k

    -- The bytes, unless reading breaks off; an error is not the one of a missing file.
    abbrev pub Shows : List ℕ → O × Result Stream → Type 0
    Shows bs (o, ok body) = body.failed ≡ none → body.bytes ≡ bs
    Shows bs (o, err e) = e ≡ not_in_storage → ⊥
    Shows bs (o, panic) = ⊥

    abbrev pub IsSaved : List ℕ → O × Result (Unit {0}) → Type 0
    IsSaved bs r = Spared r.0 × Succeeding (λ o _. Shows bs (disk_open os root_dir key o)) r

    opened_batch-Shows :
        (bs : List ℕ) (r : O × (Stream ⊎ Bool))
        → Opens (some bs) r.1
        → Shows bs (opened_batch os root_dir r)
    opened_batch-Shows bs (o, inl body) h = λ whole. sym (some_inj.0 (h whole))
    opened_batch-Shows bs (o, inr true) h = absurd (cc (h refl))
    opened_batch-Shows bs (o, inr false) h = λ e. cc

    content-Shows :
        (bs : List ℕ) (o : O)
        → laws.content o path_of ≡ some bs
        → Shows bs (disk_open os root_dir key o)
    unfolding disk_open
    content-Shows bs o at =
        opened_batch-Shows bs (os.open_file path_of o)
          (subst (λ file. Opens file (os.open_file path_of o).1) at (laws.open_lem path_of o))

    abbrev pub IsOpen : List ℕ → O × Result F → Type 0
    IsOpen bs r = Spared r.0 × Succeeding (λ o f. laws.Holds o f path_of bs) r

    pub IsOpen-put :
        (f : F) (bs xs : List ℕ) (o : O)
        → laws.Holds o f path_of bs
        → Spared o
        → IsOpen (bs ++ xs) ((disk_files os root_dir).put f xs o)
    IsOpen-put f bs xs o holds spared =
        Succeeding-continue (λ o' _. laws.Holds o' f path_of (bs ++ xs)) Spared (IsOpen (bs ++ xs))
          (os.write_file f xs o) (λ _. pure f) (laws.write_lem path_of o f bs xs holds)
          (λ k ne. laws.write_others path_of k o f bs xs holds ne ∙ spared k ne)
          (λ o' _ h spared'. (spared', h)) (λ o' e spared'. (spared', tt))
          (λ o' spared'. (spared', tt))

    -- What is done behind a call that gave an open file.
    then_IsSaved :
        (bs ys : List ℕ) (r : O × Result F) (next : F → Exec O (Unit {0}))
        → IsOpen bs r
        → ((o : O) (f : F) → laws.Holds o f path_of bs → Spared o → IsSaved ys (next f o))
        → IsSaved ys (continue r next)
    then_IsSaved bs ys r next (spared, holds) h =
        Succeeding-continue (λ o f. laws.Holds o f path_of bs) Spared (IsSaved ys) r next holds
          spared h (λ o e spared'. (spared', tt)) (λ o spared'. (spared', tt))

    write_and_close-IsSaved :
        (bss : List (List ℕ)) (f : F) (bs : List ℕ) (o : O)
        → laws.Holds o f path_of bs
        → Spared o
        → IsSaved (bs ++ joined bss) (write_and_close bss f o)
    write_and_close-IsSaved [] f bs o holds spared = (
      λ k ne. laws.close_others path_of k o f bs holds ne ∙ spared k ne,
      Succeeding-map (λ o' _. laws.content o' path_of ≡ some bs)
          (λ o' _. Shows (bs ++ []) (disk_open os root_dir key o')) (os.close_file f o)
          (laws.close_lem path_of o f bs holds)
          (λ o' _ at. content-Shows (bs ++ []) o' (at ∙ ap (λ ys. some ys) (sym (append-nil bs)))),
    )
    write_and_close-IsSaved (xs ∷ bss) f bs o holds spared =
        then_IsSaved (bs ++ xs) (bs ++ joined (xs ∷ bss)) ((disk_files os root_dir).put f xs o)
          (write_and_close bss) (IsOpen-put f bs xs o holds spared)
          (λ o' f' h spared'.
            subst (λ ys. IsSaved ys (write_and_close bss f' o')) (append_assoc bs xs (joined bss))
              (write_and_close-IsSaved bss f' (bs ++ xs) o' h spared'))

    pub IsOpen-create : IsOpen [] (disk_create os root_dir key o₀)
    unfolding disk_create
    IsOpen-create =
        Succeeding-continue (λ o _. Unit {0}) Spared (IsOpen []) (os.mkdir_all (os.dir path_of) o₀)
          (λ _. os.create_file path_of) (Succeeding-any (os.mkdir_all (os.dir path_of) o₀))
          (λ k ne. laws.mkdir_lem (os.dir path_of) k o₀)
          (λ o _ _ spared.
            (λ k ne. laws.create_others path_of k o ne ∙ spared k ne, laws.create_lem path_of o))
          (λ o e spared. (spared, tt)) (λ o spared. (spared, tt))

    -- Where the files of the operating system do what its documentation says, a file that is saved with
    -- any number of Writes: however that ends, the files at other paths are as before; and once Close returned no error, Reader yields the bytes of all the writes in their
    -- order, unless opening or reading the file fails, and never ErrNotInStorage.
    pub save-IsSaved : (bss : List (List ℕ)) → IsSaved (joined bss) (save key bss o₀)
    save-IsSaved bss =
        then_IsSaved [] (joined bss) (disk_create os root_dir key o₀) (write_and_close bss)
          IsOpen-create (λ o f h spared. write_and_close-IsSaved bss f [] o h spared)
