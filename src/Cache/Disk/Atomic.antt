-- ===== src/Cache/Disk/Atomic.antt =====
-- Files appear in the cache of internal/sebcache/diskstorage.go at once: what a reader can see while
-- one is written, and behind a failure.
use simple_commit_log.Base.{
  ℕ, ◌≡◌, refl, sym, ap, subst, ◌∙◌, List, [], ◌∷◌, ◌++◌, append_assoc, append-nil, ◌⊎◌, inl, inr,
  none, some, Bool, false, Bool-cases,
}
use mathlib.Core.Option.{some_inj}
use simple_commit_log.Errors.{
  Error, Result, ok, err, panic, not_in_cache, unauthorized, Result-cases,
}
use simple_commit_log.Exec.{Exec, pure, continue, ◌>>=◌, ◌>>◌}
use simple_commit_log.Names.{same_name}
use simple_commit_log.Topic.Files.{Key, Stream}
use simple_commit_log.Topic.Memory.{has_prefix}
use simple_commit_log.Os.{FileSystem, FileLaws, Succeeding, Succeeding-map, Opens, joined}
use simple_commit_log.Cache.Disk.{
  DiskCache, CacheWriter, cache_path, inside, disk_writer, disk_write, disk_close, disk_reader,
  opened_cached,
}

module _ {O F : Type 0} (os : FileSystem O F) where
  -- A caller's writes, one after the other.
  abbrev pub write_all : CacheWriter F → List (List ℕ) → Exec O (CacheWriter F)
  write_all cw [] = pure cw
  write_all cw (bs ∷ bss) = disk_write os cw bs >>= λ cw'. write_all cw' bss

  -- A file as a caller saves it: `Writer`, the writes, and `Close`.
  abbrev pub save : DiskCache → Key → List (List ℕ) → Exec O (Unit {0})
  save c key bss = (disk_writer os c key >>= λ cw. write_all cw bss) >>= λ cw. disk_close os cw

  inside_lem :
      (c : DiskCache) (key path : Key) (r : Result Key)
      → inside os c key r ≡ ok path
      → path ≡ os.join c.root_dir key
  inside_lem c key path (ok abs) h = elim (Bool-cases (has_prefix abs c.root_dir)) [
    | inl e ↦ let at : ok (os.join c.root_dir key) ≡ ok path = rw e at h in cc at
    | inr e ↦ let at : err unauthorized ≡ ok path = rw e at h in absurd (cc at)
  ]
  inside_lem c key path (err e) h = absurd (cc h)
  inside_lem c key path panic h = absurd (cc h)

  module _ (laws : FileLaws os) (c : DiskCache) (key : Key) (o₀ : O) where
    abbrev pub path_of : Key
    path_of = os.join c.root_dir key

    -- No temporary file of the cache gets the name.
    abbrev pub Apart : Key → Type 0
    Apart k =
        (o : O)
        → Succeeding (λ o' f. same_name k (os.file_name f) ≡ false) (os.create_temp c.temp_dir o)

    abbrev pub Kept : O → Type 0
    Kept o = (k : Key) → Apart k → laws.content o k ≡ laws.content o₀ k

    -- The bytes, unless reading breaks off; an error is a miss.
    abbrev pub Shows : List ℕ → O × Result Stream → Type 0
    Shows bs (o, ok body) = body.failed ≡ none → body.bytes ≡ bs
    Shows bs (o, err e) = e ≡ not_in_cache
    Shows bs (o, panic) = ⊥

    abbrev pub IsAtomic : List ℕ → O × Result (Unit {0}) → Type 0
    IsAtomic bs o =
        ((k : Key) → Apart k → same_name k path_of ≡ false → laws.content o.0 k ≡ laws.content o₀ k)
        × ((laws.content o.0 path_of ≡ laws.content o₀ path_of)
            ⊎ (laws.content o.0 path_of ≡ some bs))
        × Succeeding (λ o' _. Shows bs (disk_reader os c key o')) o

    -- An open temporary file with the bytes, while all files are as before.
    abbrev IsPending : O → F → List ℕ → Type 0
    IsPending o f bs =
        laws.Holds o f (os.file_name f) bs
        × ((k : Key) → Apart k → same_name k (os.file_name f) ≡ false)
        × Kept o

    opened_cached-Shows :
        (bs : List ℕ) (r : O × (Stream ⊎ Bool))
        → Opens (some bs) r.1
        → Shows bs (opened_cached os c r)
    opened_cached-Shows bs (o, inl body) h = λ whole. sym (some_inj.0 (h whole))
    opened_cached-Shows bs (o, inr missing) h = refl

    Kept-IsAtomic-err :
        (bs : List ℕ) (o : O) (e : Error) → Apart path_of → Kept o → IsAtomic bs (o, err e)
    Kept-IsAtomic-err bs o e apart kept = (λ k ap_k ne. kept k ap_k, inl (kept path_of apart), tt)

    Kept-IsAtomic-panic : (bs : List ℕ) (o : O) → Apart path_of → Kept o → IsAtomic bs (o, panic)
    Kept-IsAtomic-panic bs o apart kept = (λ k ap_k ne. kept k ap_k, inl (kept path_of apart), tt)

    module _ (apart : Apart path_of) (checked : cache_path os c key ≡ ok path_of)
        (bs : List ℕ) where
      content-Shows : (o : O) → laws.content o path_of ≡ some bs → Shows bs (disk_reader os c key o)
      unfolding disk_reader
      content-Shows o at = rw checked (
          opened_cached-Shows bs (os.open_file path_of o)
            (subst (λ file. Opens file (os.open_file path_of o).1) at (laws.open_lem path_of o)))

      renamed-IsAtomic :
          (o : O) (f : F)
          → laws.content o (os.file_name f) ≡ some bs
          → ((k : Key) → Apart k → same_name k (os.file_name f) ≡ false)
          → Kept o
          → IsAtomic bs (os.rename (os.file_name f) path_of o)
      renamed-IsAtomic o f at fresh kept = (
        λ k ap_k ne.
            laws.rename_others (os.file_name f) path_of k o (fresh k ap_k) ne ∙ kept k ap_k,
        elim (laws.rename_atomic (os.file_name f) path_of o) [
          | inl e ↦ inl (e ∙ kept path_of apart)
          | inr e ↦ inr (e ∙ at)
        ],
        Succeeding-map (λ o' _. laws.content o' path_of ≡ laws.content o (os.file_name f))
            (λ o' _. Shows bs (disk_reader os c key o')) (os.rename (os.file_name f) path_of o)
            (laws.rename_lem (os.file_name f) path_of o) (λ o' _ e. content-Shows o' (e ∙ at)),
      )

      directory-IsAtomic :
          (f : F) (r : O × Result (Unit {0}))
          → laws.content r.0 (os.file_name f) ≡ some bs
          → ((k : Key) → Apart k → same_name k (os.file_name f) ≡ false)
          → Kept r.0
          → IsAtomic bs (continue r (λ _. os.rename (os.file_name f) path_of))
      directory-IsAtomic f (o, ok u) at fresh kept = renamed-IsAtomic o f at fresh kept
      directory-IsAtomic f (o, err e) at fresh kept = Kept-IsAtomic-err bs o e apart kept
      directory-IsAtomic f (o, panic) at fresh kept = Kept-IsAtomic-panic bs o apart kept

      closed-IsAtomic :
          (f : F) (r : O × Result (Unit {0}))
          → Succeeding (λ o _. laws.content o (os.file_name f) ≡ some bs) r
          → ((k : Key) → Apart k → same_name k (os.file_name f) ≡ false)
          → Kept r.0
          → IsAtomic bs (
              continue r (λ _. os.mkdir_all (os.dir path_of) >> os.rename (os.file_name f) path_of))
      closed-IsAtomic f (o, ok u) at fresh kept =
          directory-IsAtomic f (os.mkdir_all (os.dir path_of) o)
            (laws.mkdir_lem (os.dir path_of) (os.file_name f) o ∙ at) fresh
            (λ k ap_k. laws.mkdir_lem (os.dir path_of) k o ∙ kept k ap_k)
      closed-IsAtomic f (o, err e) at fresh kept = Kept-IsAtomic-err bs o e apart kept
      closed-IsAtomic f (o, panic) at fresh kept = Kept-IsAtomic-panic bs o apart kept

      disk_close-IsAtomic :
          (cw : CacheWriter F) (o : O)
          → cw.dest_path ≡ path_of
          → IsPending o cw.tmp_file bs
          → IsAtomic bs (disk_close os cw o)
      unfolding disk_close
      disk_close-IsAtomic cw o at (holds, fresh, kept) =
          subst
            (λ p. IsAtomic bs (
              continue (os.close_file cw.tmp_file o)
                (λ _. os.mkdir_all (os.dir p) >> os.rename (os.file_name cw.tmp_file) p)))
            (sym at)
            (closed-IsAtomic cw.tmp_file (os.close_file cw.tmp_file o)
              (laws.close_lem (os.file_name cw.tmp_file) o cw.tmp_file bs holds) fresh
              (λ k ap_k.
                laws.close_others (os.file_name cw.tmp_file) k o cw.tmp_file bs holds (fresh k ap_k)
                ∙ kept k ap_k))

    module _ (apart : Apart path_of) (checked : cache_path os c key ≡ ok path_of) where
      -- The remaining writes, and the Close, behind a call on the temporary file.
      pending-IsAtomic :
          {X : Type 0} (bs : List ℕ) (R : O → X → Type 0) (r : O × Result X)
          (cw_of : X → CacheWriter F) (bss : List (List ℕ))
          → Succeeding R r
          → Kept r.0
          → ((o : O) (x : X)
              → R o x
              → Kept o
              → IsAtomic bs (continue (write_all (cw_of x) bss o) (λ cw. disk_close os cw)))
          → IsAtomic bs (
              continue
                (continue (continue r (λ x. pure (cw_of x))) (λ cw. write_all cw bss))
                (λ cw. disk_close os cw))
      pending-IsAtomic bs R (o, ok x) cw_of bss h kept next = next o x h kept
      pending-IsAtomic bs R (o, err e) cw_of bss h kept next = Kept-IsAtomic-err bs o e apart kept
      pending-IsAtomic bs R (o, panic) cw_of bss h kept next = Kept-IsAtomic-panic bs o apart kept

      write_all-IsAtomic :
          (bss : List (List ℕ)) (cw : CacheWriter F) (bs : List ℕ) (o : O)
          → cw.dest_path ≡ path_of
          → IsPending o cw.tmp_file bs
          → IsAtomic (bs ++ joined bss) (continue (write_all cw bss o) (λ cw'. disk_close os cw'))
      unfolding disk_write
      write_all-IsAtomic [] cw bs o at pending =
          subst (λ ys. IsAtomic ys (disk_close os cw o)) (sym (append-nil bs))
            (disk_close-IsAtomic apart checked bs cw o at pending)
      write_all-IsAtomic (xs ∷ bss) cw bs o at (holds, fresh, kept) =
          pending-IsAtomic (bs ++ joined (xs ∷ bss))
            (λ o' _. laws.Holds o' cw.tmp_file (os.file_name cw.tmp_file) (bs ++ xs))
            (os.write_file cw.tmp_file xs o) (λ _. cw) bss
            (laws.write_lem (os.file_name cw.tmp_file) o cw.tmp_file bs xs holds)
            (λ k ap_k.
              laws.write_others (os.file_name cw.tmp_file) k o cw.tmp_file bs xs holds
                (fresh k ap_k)
              ∙ kept k ap_k)
            (λ o' _ h kept'.
              subst (λ ys. IsAtomic ys (continue (write_all cw bss o') (λ cw'. disk_close os cw')))
                (append_assoc bs xs (joined bss))
                (write_all-IsAtomic bss cw (bs ++ xs) o' at (h, fresh, kept')))

      created-Apart :
          (r : O × Result F)
          → Succeeding (λ o f. laws.Holds o f (os.file_name f) []) r
          → ((k : Key) → Apart k → Succeeding (λ o f. same_name k (os.file_name f) ≡ false) r)
          → Succeeding
              (λ o f.
                laws.Holds o f (os.file_name f) []
                × ((k : Key) → Apart k → same_name k (os.file_name f) ≡ false))
              r
      created-Apart (o, ok f) holds fresh = (holds, fresh)
      created-Apart (o, err e) holds fresh = tt
      created-Apart (o, panic) holds fresh = tt

      created-IsAtomic : (bss : List (List ℕ)) → IsAtomic (joined bss) (save c key bss o₀)
      unfolding disk_writer
      created-IsAtomic bss = rw checked (
          pending-IsAtomic (joined bss)
            (λ o f.
              laws.Holds o f (os.file_name f) []
              × ((k : Key) → Apart k → same_name k (os.file_name f) ≡ false))
            (os.create_temp c.temp_dir o₀) (λ f. record { tmp_file = f; dest_path = path_of }) bss
            (created-Apart (os.create_temp c.temp_dir o₀) (laws.temp_lem c.temp_dir o₀)
              (λ k ap_k. ap_k o₀))
            (λ k ap_k. laws.temp_others c.temp_dir k o₀ (ap_k o₀))
            (λ o f h kept. write_all-IsAtomic bss _ [] o refl (h.0, h.1, kept)))

    -- Where the files of the operating system do what its documentation says, writing a file to the
    -- cache, with the name of no temporary file, in any number of Writes: however it ends, the other files that have no temporary name are as before, and the file of the key is as
    -- before or has all the bytes; and once Close returned no error, Reader yields these, unless
    -- opening or reading the file fails.
    pub save-IsAtomic :
        Apart path_of → (bss : List (List ℕ)) → IsAtomic (joined bss) (save c key bss o₀)
    unfolding disk_writer cache_path
    save-IsAtomic apart bss = elim (Result-cases (cache_path os c key)) [
      | inl (path, e) ↦
          created-IsAtomic apart (e ∙ ap (λ p. ok p) (inside_lem c key path (os.abs path_of) e)) bss
      | inr (inl (x, e)) ↦ rw e (Kept-IsAtomic-err (joined bss) o₀ x apart (λ k ap_k. refl))
      | inr (inr e) ↦ rw e (Kept-IsAtomic-panic (joined bss) o₀ apart (λ k ap_k. refl))
    ]
