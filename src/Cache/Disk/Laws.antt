-- ===== src/Cache/Disk/Laws.antt =====
-- The laws of a store for the storage of internal/sebcache/diskstorage.go.
use simple_commit_log.Base.{
  ◌≡◌, refl, sym, ap, subst, ◌∙◌, List, [], ◌++◌, inl, inr, none, some, false, ℕ,
}
use simple_commit_log.Errors.{Result, ok, err, panic, not_in_cache, Result-cases}
use simple_commit_log.Exec.{continue, pure}
use simple_commit_log.Cache.{CacheItem}
use simple_commit_log.Names.{same_name}
use simple_commit_log.Topic.Files.{Key}
use simple_commit_log.Topic.Store.{StoreLaws, Outcome}
use simple_commit_log.Os.{FileInfo, FileSystem, FileLaws, IsReadable, IsWritable, Succeeding}
use simple_commit_log.Cache.Files.{storage_files, Sizes, Removes}
use simple_commit_log.Cache.Disk.{
  DiskCache, CacheWriter, cache_path, disk_writer, disk_write, disk_close, disk_reader, disk_remove,
  disk_size_of, disk_cache_storage, opened_cached,
}

module _ {O F : Type 0} (os : FileSystem O F) (laws : FileLaws os) (c : DiskCache) where
  abbrev pub at_path : Key → Key
  at_path key = os.join c.root_dir key

  -- Keys whose paths are inside the root directory, differ from each other, and are those of no
  -- temporary files.
  pub record AreClean (IsClean : Key → Type 0) : Type 0 where
    pub inside : (k : Key) → IsClean k → cache_path os c k ≡ ok (at_path k)
    pub separate :
        (k key : Key)
        → IsClean k
        → IsClean key
        → same_name k key ≡ false
        → same_name (at_path k) (at_path key) ≡ false
    pub apart :
        (k : Key) (o : O)
        → IsClean k
        → Succeeding
            (λ o' f. same_name (at_path k) (os.file_name f) ≡ false)
            (os.create_temp c.temp_dir o)

  module _ (readable : IsReadable os laws) (writable : IsWritable os laws) (IsClean : Key → Type 0)
      (clean : AreClean IsClean) where
    abbrev pub IsPending : O → CacheWriter F → Key → List ℕ → Type 0
    IsPending o w key bs =
        laws.Holds o w.tmp_file (os.file_name w.tmp_file) bs
        × (w.dest_path ≡ at_path key)
        × ((k : Key) → IsClean k → same_name (at_path k) (os.file_name w.tmp_file) ≡ false)

    abbrev pub Same : O → O → Type 0
    Same o o' = (k : Key) → IsClean k → laws.content o' (at_path k) ≡ laws.content o (at_path k)

    pub disk_writer_lem :
        (key : Key) (o : O)
        → IsClean key
        → (o' : O) × (w : CacheWriter F) × (disk_writer os c key o ≡ (o', ok w))
          × IsPending o' w key []
          × Same o o'
    unfolding disk_writer
    disk_writer_lem key o is_key =
        let (o', f, e) = writable.creates c.temp_dir o in
        (
          o',
          record { tmp_file = f; dest_path = at_path key },
          rw (clean.inside key is_key, e) refl,
          (
            subst (Succeeding (λ o f. laws.Holds o f (os.file_name f) [])) e
                (laws.temp_lem c.temp_dir o),
            refl,
            λ k is_k.
                subst (Succeeding (λ o f. same_name (at_path k) (os.file_name f) ≡ false)) e
                  (clean.apart k o is_k),
          ),
          λ k is_k.
              ap (λ r. laws.content r.0 (at_path k)) (sym e)
              ∙ laws.temp_others c.temp_dir (at_path k) o (clean.apart k o is_k),
        )

    pub disk_write_lem :
        (key : Key) (o : O) (w : CacheWriter F) (bs xs : List ℕ)
        → IsPending o w key bs
        → (o' : O) × (disk_write os w xs o ≡ (o', ok w)) × IsPending o' w key (bs ++ xs) × Same o o'
    unfolding disk_write
    disk_write_lem key o w bs xs (holds, at, fresh) =
        let (o', e) = writable.writes w.tmp_file xs o in
        (
          o',
          rw e refl,
          (
            subst (Succeeding (λ o _. laws.Holds o w.tmp_file (os.file_name w.tmp_file) (bs ++ xs)))
                e (laws.write_lem (os.file_name w.tmp_file) o w.tmp_file bs xs holds),
            at,
            fresh,
          ),
          λ k is_k.
              ap (λ r. laws.content r.0 (at_path k)) (sym e)
              ∙ laws.write_others (os.file_name w.tmp_file) (at_path k) o w.tmp_file bs xs holds
                  (fresh k is_k),
        )

    pub disk_close_lem :
        (key : Key) (o : O) (w : CacheWriter F) (bs : List ℕ)
        → IsPending o w key bs
        → (o' : O) × (disk_close os w o ≡ (o', ok tt))
          × (laws.content o' (at_path key) ≡ some bs)
          × ((k : Key)
              → IsClean k
              → same_name (at_path k) (at_path key) ≡ false
              → laws.content o' (at_path k) ≡ laws.content o (at_path k))
    unfolding disk_close
    disk_close_lem key o w bs (holds, at, fresh) =
        let tmp = os.file_name w.tmp_file in
        let (o₁, e₁) = writable.closes w.tmp_file o in
        let (o₂, e₂) = writable.makes (os.dir w.dest_path) o₁ in
        let there : laws.content o₂ tmp ≡ some bs =
          ap (λ r. laws.content r.0 tmp) (sym e₂)
          ∙ laws.mkdir_lem (os.dir w.dest_path) tmp o₁
          ∙ subst (Succeeding (λ o _. laws.content o tmp ≡ some bs)) e₁
              (laws.close_lem tmp o w.tmp_file bs holds) in
        let (o₃, e₃) = writable.renames tmp w.dest_path o₂ bs there in
        (
          o₃,
          rw (e₁, e₂, e₃) refl,
          subst (λ p. laws.content o₃ p ≡ some bs) at
              (subst (Succeeding (λ o _. laws.content o w.dest_path ≡ laws.content o₂ tmp)) e₃
                  (laws.rename_lem tmp w.dest_path o₂)
                ∙ there),
          λ k is_k ne.
              ap (λ r. laws.content r.0 (at_path k)) (sym e₃)
              ∙ laws.rename_others tmp w.dest_path (at_path k) o₂ (fresh k is_k)
                  (subst (λ p. same_name (at_path k) p ≡ false) (sym at) ne)
              ∙ ap (λ r. laws.content r.0 (at_path k)) (sym e₂)
              ∙ laws.mkdir_lem (os.dir w.dest_path) (at_path k) o₁
              ∙ ap (λ r. laws.content r.0 (at_path k)) (sym e₁)
              ∙ laws.close_others tmp (at_path k) o w.tmp_file bs holds (fresh k is_k),
        )

    pub disk_reader_lem :
        (key : Key) (o : O) (bs : List ℕ)
        → IsClean key
        → laws.content o (at_path key) ≡ some bs
        → disk_reader os c key o
          ≡ ((os.open_file (at_path key) o).0, ok (record { bytes = bs; failed = none }))
    unfolding disk_reader
    disk_reader_lem key o bs is_key at = rw (clean.inside key is_key) (
        ap (λ r. opened_cached os c ((os.open_file (at_path key) o).0, r))
          (readable.opens (at_path key) o bs at))

    pub disk_reader-missing :
        (key : Key) (o : O)
        → IsClean key
        → laws.content o (at_path key) ≡ none
        → disk_reader os c key o ≡ ((os.open_file (at_path key) o).0, err not_in_cache)
    unfolding disk_reader
    disk_reader-missing key o is_key at =
        let (b, e) = readable.missing (at_path key) o at in
        rw (clean.inside key is_key)
          (ap (λ r. opened_cached os c ((os.open_file (at_path key) o).0, r)) e)

    abbrev pub cached_laws : StoreLaws (storage_files (disk_cache_storage os c)) ⊥
    cached_laws = record {
      IsKey = IsClean;
      view = λ o key. laws.content o (at_path key);
      IsOpen = IsPending;
      create_lem = λ key o is_key.
          let (o', w, e, pending, same) = disk_writer_lem key o is_key in
          subst (Outcome ⊥ (λ o w. IsPending o w key [])) (sym e) pending;
      put_lem = λ key o w bs xs h.
          let (o', e, pending, same) = disk_write_lem key o w bs xs h in
          subst (Outcome ⊥ (λ o w. IsPending o w key (bs ++ xs))) (sym e) pending;
      close_lem = λ key o w bs h.
          let (o', e, at, same) = disk_close_lem key o w bs h in
          subst (Outcome ⊥ (λ o _. laws.content o (at_path key) ≡ some bs)) (sym e) at;
      create_others = λ key k o is_key is_k ne.
          let (o', w, e, pending, same) = disk_writer_lem key o is_key in
          ap (λ r. laws.content r.0 (at_path k)) e ∙ same k is_k;
      put_others = λ key k o w bs xs h is_key is_k ne.
          let (o', e, pending, same) = disk_write_lem key o w bs xs h in
          ap (λ r. laws.content r.0 (at_path k)) e ∙ same k is_k;
      close_others = λ key k o w bs h is_key is_k ne.
          let (o', e, at, same) = disk_close_lem key o w bs h in
          ap (λ r. laws.content r.0 (at_path k)) e
          ∙ same k is_k (clean.separate k key is_k is_key ne);
      reader_lem = λ key o bs is_key at. (
        (os.open_file (at_path key) o).0,
        disk_reader_lem key o bs is_key at,
        λ k. readable.keeps (at_path key) (at_path k) o,
      );
      reader_missing = λ key o is_key at. (
        (os.open_file (at_path key) o).0,
        not_in_cache,
        disk_reader-missing key o is_key at,
        λ k. readable.keeps (at_path key) (at_path k) o,
      );
      close_reader_lem = λ key o. (o, refl, λ k. refl);
    }

    abbrev item_of_info : FileInfo → CacheItem
    item_of_info info = record { size = info.size; accessed_at = info.mod_time; key = [] }

    sized :
        (o : O) (r : O × Result FileInfo)
        → (r.1 ≡ panic → ⊥)
        → ((k : Key) → laws.content r.0 k ≡ laws.content o k)
        → ((continue r (λ info. pure (item_of_info info))).1 ≡ panic → ⊥)
          × ((k : Key)
              → laws.content (continue r (λ info. pure (item_of_info info))).0 (at_path k)
                ≡ laws.content o (at_path k))
    sized o (o', ok info) fine same = (λ e. cc e, λ k. same (at_path k))
    sized o (o', err x) fine same = (λ e. cc e, λ k. same (at_path k))
    sized o (o', panic) fine same = absurd (fine refl)

    -- SizeOf and Remove as the cache uses them.
    pub cached_sizes : (now : ℕ) → Sizes (disk_cache_storage os c) cached_laws now
    unfolding disk_size_of
    cached_sizes now key o =
        sized o (os.stat key o) (readable.stats key o).0 (readable.stats key o).1

    pub cached_removes : (now : ℕ) → Removes (disk_cache_storage os c) cached_laws now
    unfolding disk_remove
    cached_removes now key k o = elim (Result-cases (cache_path os c key)) [
      | inl (p, e) ↦ rw e (writable.removes p (at_path k) o)
      | inr (inl (x, e)) ↦ rw e (inr refl)
      | inr (inr e) ↦ rw e (inr refl)
    ]
