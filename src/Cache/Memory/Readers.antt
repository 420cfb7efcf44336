-- ===== src/Cache/Memory/Readers.antt =====
-- internal/sebcache/memorystorage.go: what the readers of a file yield behind a Write.
use simple_commit_log.Base.{
  ℕ, suc, ◌≡◌, refl, sym, ap, subst, ◌∙◌, inl, inr, Bool-cases, List, [], ◌∷◌, ◌++◌, length,
  get_elem?, Option, none, some,
}
use simple_commit_log.Errors.{Result, ok}
use simple_commit_log.Exec.{Exec, ◌>>=◌}
use simple_commit_log.Names.{
  lookup, put, lookup-put, lookup-put_other, same_name, same_name-eq, same_name-turned,
}
use simple_commit_log.Topic.Files.{Key}
use simple_commit_log.Cache.Memory.{
  Buffers, MemoryCache, MemoryCacheItem, set_elem, with_buffer, item_opened, memory_reader,
  memory_writer, memory_write, memory_size_of, memory_cache_storage,
}

get_elem?-last :
    {B : Type 0} (bs : List B) (x : B) → get_elem? (bs ++ (x ∷ [])) (length bs) ≡ some x
get_elem?-last [] x = refl
get_elem?-last (b ∷ bs) x = get_elem?-last bs x

get_elem?-set_elem :
    {B : Type 0} (bs : List B) (x y : B)
    → get_elem? (set_elem (length bs) y (bs ++ (x ∷ []))) (length bs) ≡ some y
unfolding set_elem
get_elem?-set_elem [] x y = refl
get_elem?-set_elem (b ∷ bs) x y = get_elem?-set_elem bs x y

module _ {B : Type 0} (buffers : Buffers B) where
  -- A file is written with one `Write` and closed.
  abbrev pub write_cached : Key → List ℕ → Exec (MemoryCache B) (Unit {0})
  write_cached key bs = do
    buf ← memory_writer buffers key
    buf' ← memory_write buffers buf bs
    (memory_cache_storage buffers).close_writer buf'

  -- The cache behind that.
  abbrev written : Key → List ℕ → MemoryCache B → MemoryCache B
  written key bs mc = record mc {
    calls = suc mc.calls;
    buffers =
        set_elem (length mc.buffers) (buffers.write_bytes (buffers.new_buffer []) bs)
          (mc.buffers ++ (buffers.new_buffer [] ∷ []));
    items = put key (record { buf = length mc.buffers; accessed_at = mc.now mc.calls }) mc.items;
  }

  write_cached-written :
      (key : Key) (bs : List ℕ) (mc : MemoryCache B)
      → write_cached key bs mc ≡ (written key bs mc, ok tt)
  unfolding memory_writer memory_write
  write_cached-written key bs mc = rw (get_elem?-last mc.buffers (buffers.new_buffer [])) refl

  -- The item of this key is there, and its buffer has these bytes.
  abbrev Holds : Key → List ℕ → MemoryCache B → Type 0
  Holds key bs mc =
      (item : MemoryCacheItem) × (b : B) × (lookup key mc.items ≡ some item)
      × (get_elem? mc.buffers item.buf ≡ some b)
      × (buffers.bytes_of b ≡ bs)

  -- Calls of `Reader` for these keys, however they end.
  abbrev pub read_keys : List Key → MemoryCache B → MemoryCache B
  read_keys [] mc = mc
  read_keys (key ∷ keys) mc = read_keys keys (memory_reader buffers key mc).0

  put-Holds :
      (key k : Key) (bs : List ℕ) (mc : MemoryCache B) (item : MemoryCacheItem) (at n : ℕ)
      → lookup k mc.items ≡ some item
      → Holds key bs mc
      → Holds key bs
          (record mc { calls = n; items = put k (record item { accessed_at = at }) mc.items })
  put-Holds key k bs mc item at n found (item', b, found', stands, content) =
      elim (Bool-cases (same_name k key)) [
        | inl e ↦
            let same = same_name-eq k key e in
            let buf : item.buf ≡ item'.buf =
              ap (λ o. elim o [ none ↦ 0 | some i ↦ i.buf ])
                (sym found ∙ ap (λ m. lookup m mc.items) same ∙ found') in
            (
              record item { accessed_at = at },
              b,
              ap (λ m. lookup m (put k (record item { accessed_at = at }) mc.items)) (sym same)
                  ∙ lookup-put k (record item { accessed_at = at }) mc.items,
              ap (get_elem? mc.buffers) buf ∙ stands,
              content,
            )
        | inr other ↦ (
          item',
          b,
          lookup-put_other key k (record item { accessed_at = at }) mc.items
                (same_name-turned k key other)
              ∙ found',
          stands,
          content,
        )
      ]

  opened-state :
      {A : Type 0} (mc : MemoryCache B) (o : Option B) (k : B → Result A)
      → (with_buffer buffers mc o (λ b. (mc, k b))).0 ≡ mc
  opened-state mc none k = refl
  opened-state mc (some b) k = refl

  opened-Holds :
      (key k : Key) (bs : List ℕ) (mc : MemoryCache B) (found : Option MemoryCacheItem)
      → lookup k mc.items ≡ found
      → Holds key bs mc
      → Holds key bs (item_opened buffers k mc found).0
  opened-Holds key k bs mc none e h = h
  opened-Holds key k bs mc (some item) e h =
      subst (Holds key bs) (sym (opened-state _ (get_elem? mc.buffers item.buf) _))
        (put-Holds key k bs mc item (mc.now mc.calls) (suc mc.calls) e h)

  read_keys-Holds :
      (key : Key) (bs : List ℕ) (keys : List Key) (mc : MemoryCache B)
      → Holds key bs mc
      → Holds key bs (read_keys keys mc)
  unfolding memory_reader
  read_keys-Holds key bs [] mc h = h
  read_keys-Holds key bs (k ∷ keys) mc h =
      read_keys-Holds key bs keys _ (opened-Holds key k bs mc (lookup k mc.items) refl h)

  memory_reader-yields :
      (key : Key) (bs : List ℕ) (mc : MemoryCache B)
      → Holds key bs mc
      → (memory_reader buffers key mc).1 ≡ ok (record { bytes = bs; failed = none })
  unfolding memory_reader
  memory_reader-yields key bs mc (item, b, found, stands, content) =
      rw (found, stands, buffers.new_lem (buffers.bytes_of b), content) refl

  -- After a file was written with one Write, which succeeds, SizeOf gives its number of bytes, its
  -- key and the time of the Writer, and behind any calls of Reader, of this and of other keys, the
  -- next Reader yields the bytes of the file.
  pub memory_reader-write_cached :
      (key : Key) (bs : List ℕ) (keys : List Key) (mc : MemoryCache B)
      → ((write_cached key bs mc).1 ≡ ok tt)
        × ((memory_size_of buffers key (write_cached key bs mc).0).1
            ≡ ok (record { size = length bs; accessed_at = mc.now mc.calls; key = key }))
        × ((memory_reader buffers key (read_keys keys (write_cached key bs mc).0)).1
            ≡ ok (record { bytes = bs; failed = none }))
  unfolding memory_size_of
  memory_reader-write_cached key bs keys mc =
      let first : MemoryCacheItem = record {
        buf = length mc.buffers;
        accessed_at = mc.now mc.calls;
      } in
      let b = buffers.write_bytes (buffers.new_buffer []) bs in
      let found = lookup-put key first mc.items in
      let stands = get_elem?-set_elem mc.buffers (buffers.new_buffer []) b in
      rw (write_cached-written key bs mc) (
        refl,
        rw (found, stands, buffers.len_lem b, buffers.write_lem bs) refl,
        memory_reader-yields key bs _ (
            read_keys-Holds key bs keys (written key bs mc)
              (first, b, found, stands, buffers.write_lem bs)),
      )
