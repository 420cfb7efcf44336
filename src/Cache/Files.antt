-- ===== src/Cache/Files.antt =====
-- internal/sebcache/cache.go as the cache of a topic, over a storage with the laws of a store.
use simple_commit_log.Base.{
  ℕ, ◌≡◌, refl, ap, ◌∙◌, List, [], ◌∷◌, ◌++◌, Option, none, some, inl, inr, ◌⊎◌,
}
use simple_commit_log.Base.Int.{ℤ}
use simple_commit_log.Errors.{Error, Result, ok, err, panic}
use simple_commit_log.Exec.{Exec, pure, continue, ◌>>=◌}
use simple_commit_log.Names.{lookup, delete}
use simple_commit_log.Topic.Files.{Key, Stream, Files}
use simple_commit_log.Topic.Store.{StoreLaws, Outcome}
use simple_commit_log.Cache.{
  Cache, CacheItem, CacheStorage, WriteCloseWrapper, writer, wrapper_write, wrapper_close,
  cache_reader, in_storage, missing_item, known_item, set_item, delete_items,
  evict_least_recently_used,
}

module _ {S H : Type 0} (io : CacheStorage S H) where
  -- The files of the storage; nothing is done at the Close of a reader.
  abbrev pub storage_files : Files S H
  storage_files = record {
    create = io.open_writer;
    put = io.write_to;
    close = io.close_writer;
    reader = io.open_reader;
    close_reader = λ key. pure tt;
  }

  -- The files of the cache, where the clock returns `now`.
  abbrev pub cache_files : ℕ → Files (Cache S) (WriteCloseWrapper H)
  cache_files now = record {
    create = writer io;
    put = wrapper_write io;
    close = wrapper_close io now;
    reader = cache_reader io now;
    close_reader = λ key. pure tt;
  }

  -- What follows a call of the storage and leaves the storage alone.
  module _ {A B : Type 0} (c : Cache S) (next : A → Exec (Cache S) B)
      (still : (a : A) (c : Cache S) → (next a c).0.storage ≡ c.storage) where
    storage-continue : (o : S × Result A) → (continue (in_storage io c o) next).0.storage ≡ o.0
    storage-continue (s, ok a) = still a (record c { storage = s })
    storage-continue (s, err e) = refl
    storage-continue (s, panic) = refl

  module _ {F : Type 0} (laws : StoreLaws storage_files F) (now : ℕ) where
    module _ {A B : Type 0} (P : S → A → Type 0) (Q : Cache S → B → Type 0) (c : Cache S) where
      Outcome-continue :
          (next : A → Exec (Cache S) B) (o : S × Result A)
          → Outcome F P o
          → ((s : S) (a : A) → P s a → Outcome F Q (next a (record c { storage = s })))
          → Outcome F Q (continue (in_storage io c o) next)
      Outcome-continue next (s, ok a) p f = f s a p
      Outcome-continue next (s, err e) p f = p
      Outcome-continue next (s, panic) p f = p

    abbrev pub IsOpen : Cache S → WriteCloseWrapper H → Key → List ℕ → Type 0
    IsOpen c w key bs = laws.IsOpen c.storage w.wc key bs

    pub writer-IsOpen :
        (key : Key) (c : Cache S)
        → laws.IsKey key
        → Outcome F (λ c' w. IsOpen c' w key []) (writer io key c)
    unfolding writer
    writer-IsOpen key c is_key =
        Outcome-continue (λ s w. laws.IsOpen s w key []) (λ c' w. IsOpen c' w key []) c _
          (io.open_writer key c.storage) (laws.create_lem key c.storage is_key) (λ s w h. h)

    pub wrapper_write-IsOpen :
        (key : Key) (c : Cache S) (w : WriteCloseWrapper H) (bs xs : List ℕ)
        → IsOpen c w key bs
        → Outcome F (λ c' w'. IsOpen c' w' key (bs ++ xs)) (wrapper_write io w xs c)
    unfolding wrapper_write
    wrapper_write-IsOpen key c w bs xs h =
        Outcome-continue (λ s w. laws.IsOpen s w key (bs ++ xs))
          (λ c' w'. IsOpen c' w' key (bs ++ xs)) c _ (io.write_to w.wc xs c.storage)
          (laws.put_lem key c.storage w.wc bs xs h) (λ s w h. h)

    pub wrapper_close_lem :
        (key : Key) (c : Cache S) (w : WriteCloseWrapper H) (bs : List ℕ)
        → IsOpen c w key bs
        → Outcome F (λ c' _. laws.view c'.storage key ≡ some bs) (wrapper_close io now w c)
    unfolding wrapper_close
    wrapper_close_lem key c w bs h =
        Outcome-continue (λ s _. laws.view s key ≡ some bs)
          (λ c' _. laws.view c'.storage key ≡ some bs) c _ (io.close_writer w.wc c.storage)
          (laws.close_lem key c.storage w.wc bs h) (λ s _ h. h)

    pub storage-writer :
        (key : Key) (c : Cache S) → (writer io key c).0.storage ≡ (io.open_writer key c.storage).0
    unfolding writer
    storage-writer key c = storage-continue c _ (λ w c. refl) (io.open_writer key c.storage)

    pub storage-wrapper_write :
        (c : Cache S) (w : WriteCloseWrapper H) (xs : List ℕ)
        → (wrapper_write io w xs c).0.storage ≡ (io.write_to w.wc xs c.storage).0
    unfolding wrapper_write
    storage-wrapper_write c w xs =
        storage-continue c _ (λ w c. refl) (io.write_to w.wc xs c.storage)

    pub storage-wrapper_close :
        (c : Cache S) (w : WriteCloseWrapper H)
        → (wrapper_close io now w c).0.storage ≡ (io.close_writer w.wc c.storage).0
    unfolding wrapper_close
    storage-wrapper_close c w = storage-continue c _ (λ _ c. refl) (io.close_writer w.wc c.storage)

    -- SizeOf of the storage does not panic, and changes no file.
    abbrev pub Sizes : Type 0
    Sizes =
        (key : Key) (s : S)
        → ((io.size_of key s).1 ≡ panic → ⊥)
          × ((k : Key) → laws.view (io.size_of key s).0 k ≡ laws.view s k)

    -- The rest of a Reader that found the file.
    abbrev touched : Key → Stream → CacheItem → Exec (Cache S) Stream
    touched key r item = set_item io key (record item { accessed_at = now }) >>= λ _. pure r

    missing-touched :
        (key : Key) (r : Stream) (c : Cache S) (o : S × Result CacheItem)
        → (o.1 ≡ panic → ⊥)
        → (c' : Cache S) × (continue (missing_item io (in_storage io c o)) (touched key r)
            ≡ (c', ok r))
          × (c'.storage ≡ o.0)
    missing-touched key r c (s, ok item) fine = (_, refl, refl)
    missing-touched key r c (s, err e) fine = (_, refl, refl)
    missing-touched key r c (s, panic) fine = absurd (fine refl)

    known-touched :
        Sizes
        → (key : Key) (r : Stream) (c : Cache S) (item : Option CacheItem)
        → (c' : Cache S) × (continue (known_item io key item c) (touched key r) ≡ (c', ok r))
          × ((k : Key) → laws.view c'.storage k ≡ laws.view c.storage k)
    known-touched sizes key r c (some item) = (_, refl, λ k. refl)
    known-touched sizes key r c none =
        let (c', e, same) =
          missing-touched key r c (io.size_of key c.storage) (sizes key c.storage).0 in
        (c', e, λ k. ap (λ s. laws.view s k) same ∙ (sizes key c.storage).1 k)

    pub cache_reader_lem :
        Sizes
        → (key : Key) (c : Cache S) (bs : List ℕ) → laws.IsKey key
        → laws.view c.storage key ≡ some bs
        → (c' : Cache S) × (cache_reader io now key c
            ≡ (c', ok (record { bytes = bs; failed = none })))
          × ((k : Key) → laws.view c'.storage k ≡ laws.view c.storage k)
    unfolding cache_reader
    cache_reader_lem sizes key c bs is_key at =
        let (s, e, same) = laws.reader_lem key c.storage bs is_key at in
        let (c', e', same') =
          known-touched sizes key (record { bytes = bs; failed = none }) (record c { storage = s })
            (lookup key c.cache_items) in
        (c', rw e e', λ k. same' k ∙ same k)

    pub cache_reader-missing :
        (key : Key) (c : Cache S)
        → laws.IsKey key
        → laws.view c.storage key ≡ none
        → (c' : Cache S) × (x : Error) × (cache_reader io now key c ≡ (c', err x))
          × ((k : Key) → laws.view c'.storage k ≡ laws.view c.storage k)
    unfolding cache_reader
    cache_reader-missing key c is_key at =
        let (s, x, e, same) = laws.reader_missing key c.storage is_key at in
        (record c { storage = s }, x, rw e refl, same)

    abbrev pub cache_laws : Sizes → StoreLaws (cache_files now) F
    cache_laws sizes = record {
      IsKey = laws.IsKey;
      view = λ c key. laws.view c.storage key;
      IsOpen = IsOpen;
      create_lem = λ key c is_key. writer-IsOpen key c is_key;
      put_lem = λ key c w bs xs h. wrapper_write-IsOpen key c w bs xs h;
      close_lem = λ key c w bs h. wrapper_close_lem key c w bs h;
      create_others = λ key k c is_key is_k ne.
          ap (λ s. laws.view s k) (storage-writer key c)
          ∙ laws.create_others key k c.storage is_key is_k ne;
      put_others = λ key k c w bs xs h is_key is_k ne.
          ap (λ s. laws.view s k) (storage-wrapper_write c w xs)
          ∙ laws.put_others key k c.storage w.wc bs xs h is_key is_k ne;
      close_others = λ key k c w bs h is_key is_k ne.
          ap (λ s. laws.view s k) (storage-wrapper_close c w)
          ∙ laws.close_others key k c.storage w.wc bs h is_key is_k ne;
      reader_lem = λ key c bs is_key at. cache_reader_lem sizes key c bs is_key at;
      reader_missing = λ key c is_key at. cache_reader-missing key c is_key at;
      close_reader_lem = λ key c. (c, refl, λ k. refl);
    }

    -- `Remove` of the storage removes a file or nothing.
    abbrev pub Removes : Type 0
    Removes =
        (key k : Key) (s : S)
        → (laws.view (io.remove key s).0 k ≡ none)
          ⊎ (laws.view (io.remove key s).0 k ≡ laws.view s k)

    -- The files of the second are files of the first.
    abbrev pub Fewer : S → S → Type 0
    Fewer s s' = (k : Key) → (laws.view s' k ≡ none) ⊎ (laws.view s' k ≡ laws.view s k)

    Fewer-trans : (s s' s'' : S) → Fewer s s' → Fewer s' s'' → Fewer s s''
    Fewer-trans s s' s'' f g k = elim (g k) [
      | inl gone ↦ inl gone
      | inr same ↦ elim (f k) [ inl gone ↦ inl (same ∙ gone) | inr same' ↦ inr (same ∙ same') ]
    ]

    removed-Fewer :
        (key : Key) (c : Cache S) (o : S × Result (Unit {0})) (next : Exec (Cache S) (Unit {0}))
        → Fewer c.storage o.0
        → ((c' : Cache S) → Fewer c'.storage (next c').0.storage)
        → Fewer c.storage
            (continue
              (in_storage io c o)
              (λ _ c'. next (record c' { cache_items = delete key c'.cache_items }))).0.storage
    removed-Fewer key c (s, ok u) next f g =
        Fewer-trans c.storage s _ f
          (g (record c { storage = s; cache_items = delete key c.cache_items }))
    removed-Fewer key c (s, err e) next f g = f
    removed-Fewer key c (s, panic) next f g = f

    delete_items-Fewer :
        Removes
        → (items : List CacheItem) (c : Cache S)
        → Fewer c.storage (delete_items io items c).0.storage
    unfolding delete_items
    delete_items-Fewer removes [] c = λ k. inr refl
    delete_items-Fewer removes (item ∷ items) c =
        removed-Fewer (item.key) c (io.remove item.key c.storage) (delete_items io items)
          (λ k. removes item.key k c.storage) (λ c'. delete_items-Fewer removes items c')

    -- An eviction, however it ends, leaves only files that were there, as they were.
    pub evict_least_recently_used-Fewer :
        Removes
        → (sort : List CacheItem → List CacheItem) (max_size : ℤ) (c : Cache S)
        → Fewer c.storage (evict_least_recently_used io sort max_size c).0.storage
    unfolding evict_least_recently_used
    evict_least_recently_used-Fewer removes sort max_size c = delete_items-Fewer removes _ c
