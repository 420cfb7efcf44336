-- ===== src/Topic/Store/Adding.antt =====
-- What AddRecords of internal/sebtopic/topic.go does to a topic whose stores keep their laws.
use simple_commit_log.Base.{
  ℕ, ◌+◌, ◌^◌, ◌<◌, ◌≡◌, sym, ap, subst, ◌∙◌, inl, inr, ◌⊎◌, List, [], ◌∷◌, ◌++◌, none, some, false,
  Bool-cases, All, arith,
}
use simple_commit_log.Errors.{ok}
use simple_commit_log.Helpy.{Slicey}
use simple_commit_log.Names.{same_name, same_name-eq}
use simple_commit_log.Records.Batch.{Batch, batch_len}
use simple_commit_log.Records.File.RoundTrip.{file_of}
use simple_commit_log.Topic.State.{Topic, Config}
use simple_commit_log.Topic.Files.{Key}
use simple_commit_log.Topic.Add.{add_records, store_batch}
use simple_commit_log.Topic.Add.Offsets.{add_records_ok, add_records-cached}
use simple_commit_log.Topic.Store.{
  StoreLaws, Stored, Others, store_batch-Stored, cache_batch-Copied,
}
use simple_commit_log.Topic.Store.Keys.{record_batch_key-inj}
use simple_commit_log.Topic.Store.Serving.{IsHeld, HasFile, Named, key}
use simple_commit_log.Topic.Store.Keeping.{Keeps}
use simple_commit_log.Topic.Log.{IsStored}
use simple_commit_log.Topic.Log.Locate.{Starts, count}
use simple_commit_log.Topic.Log.Append.{add_records-IsLog}

module _ {S H C G : Type 0} (cfg : Config S H C G) {F : Type 0}
    (backing : StoreLaws cfg.backing_storage.files F) (cache : StoreLaws cfg.cache ⊥) where
  -- The batch of a log begins in front of the next offset.
  pub Starts-below :
      (s : ℕ) (log : List (ℕ × Batch))
      → Starts s log
      → All (λ e. IsStored e.1) log
      → All (λ e. e.0 < s + count log) log
  Starts-below s [] h st = tt
  Starts-below s (e ∷ log) h st = (
    omega (arith, h.0, st.0.some_records),
    subst (λ n. All (λ e. e.0 < n) log) {x = s + batch_len e.1 + count log}
        {y = s + count (e ∷ log)} (omega arith) (Starts-below (s + batch_len e.1) log h.1 st.1),
  )

  pub other_key :
      (o o' : ℕ)
      → o < o'
      → o' < 2 ^ 64
      → same_name (key cfg backing cache o) (key cfg backing cache o') ≡ false
  other_key o o' below fits =
      elim (Bool-cases (same_name (key cfg backing cache o) (key cfg backing cache o'))) [
        | inl same ↦ absurd (
            omega (
              arith,
              below,
              record_batch_key-inj cfg.topic_name o o' (omega arith) fits (same_name-eq _ _ same),
            ))
        | inr other ↦ other
      ]

  module _ (named : Named cfg backing cache) (slicey : Slicey) (now cache_now : ℕ) (b : Batch)
      (t : Topic S C) where
    abbrev t' : Topic S C
    t' = (add_records slicey cfg now cache_now b t).0

    abbrev new_key : Key
    new_key = key cfg backing cache t.next_offset

    -- The file in the backing storage, and the copy in the cache.
    in_backing :
        cfg.compression ≡ none
        → (os : List ℕ) → (add_records slicey cfg now cache_now b t).1 ≡ ok os
        → t.next_offset + batch_len b < 2 ^ 64
        → Stored cfg.backing_storage.files backing new_key
            (named t.next_offset).0
            t.backing
            (file_of now b)
            (t'.backing, ok tt)
    in_backing plain os done fits =
        subst
          (Stored cfg.backing_storage.files backing new_key (named t.next_offset).0 t.backing
            (file_of now b))
          (ap (λ c. store_batch cfg.backing_storage.files c new_key now b t.backing) (sym plain)
            ∙ (add_records_ok slicey cfg now cache_now b t fits os done).0)
          (store_batch-Stored cfg.backing_storage.files backing new_key (named t.next_offset).0
            t.backing now b)

    in_cache :
        (os : List ℕ)
        → (add_records slicey cfg now cache_now b t).1 ≡ ok os
        → Others cfg.cache cache new_key (named t.next_offset).1 t.cached t'.cached
          × (cache.view t'.cached new_key ≡ some (file_of cache_now b))
    in_cache os done =
        subst
          (λ c.
            Others cfg.cache cache new_key (named t.next_offset).1 t.cached c
            × (cache.view c new_key ≡ some (file_of cache_now b)))
          (sym (add_records-cached slicey cfg now cache_now b t os done))
          (elim (cache_batch-Copied cfg.cache cache new_key (named t.next_offset).1 t.cached
            cache_now b) [ inl fails ↦ absurd fails | inr copied ↦ copied ])

    module _
        (stored : Stored cfg.backing_storage.files backing new_key
          (named t.next_offset).0
          t.backing
          (file_of now b)
          (t'.backing, ok tt))
        (copied : Others cfg.cache cache new_key (named t.next_offset).1 t.cached t'.cached
          × (cache.view t'.cached new_key ≡ some (file_of cache_now b)))
        (next_fits : t.next_offset < 2 ^ 64) (now_fits : now < 2 ^ 64)
        (cache_now_fits : cache_now < 2 ^ 64) where
      IsHeld-new : IsHeld cfg backing cache t' t.next_offset b
      IsHeld-new = record {
        stored = (now, now_fits, stored.1);
        copied = inr (cache_now, cache_now_fits, copied.1);
      }

      IsHeld-before :
          (o : ℕ) (b' : Batch)
          → o < t.next_offset
          → IsHeld cfg backing cache t o b'
          → IsHeld cfg backing cache t' o b'
      IsHeld-before o b' below h =
          let other = other_key o t.next_offset below next_fits in
          record {
            stored =
                subst (λ x. HasFile cfg backing cache x b')
                  (sym (stored.0 (key cfg backing cache o) (named o).0 other)) h.stored;
            copied =
                subst (λ x. (x ≡ none) ⊎ HasFile cfg backing cache x b')
                  (sym (copied.0 (key cfg backing cache o) (named o).1 other)) h.copied;
          }

      IsHeld-all :
          (log : List (ℕ × Batch))
          → All (λ e. e.0 < t.next_offset) log
          → All (λ e. IsHeld cfg backing cache t e.0 e.1) log
          → All (λ e. IsHeld cfg backing cache t' e.0 e.1) (log ++ ((t.next_offset, b) ∷ []))
      IsHeld-all [] below h = (IsHeld-new, tt)
      IsHeld-all (e ∷ log) below h = (IsHeld-before e.0 e.1 below.0 h.0, IsHeld-all log below.1 h.1)

    pub add_records-Keeps :
        cfg.compression ≡ none
        → (os : List ℕ) → (add_records slicey cfg now cache_now b t).1 ≡ ok os
        → (log : List (ℕ × Batch)) → Keeps cfg backing cache t log
        → IsStored b
        → t.next_offset + batch_len b < 2 ^ 64
        → now < 2 ^ 64
        → cache_now < 2 ^ 64
        → Keeps cfg backing cache
            (add_records slicey cfg now cache_now b t).0
            (log ++ ((t.next_offset, b) ∷ []))
    add_records-Keeps plain os done log k st fits now_fits cache_now_fits = record {
      is_log = add_records-IsLog slicey cfg now cache_now b t log os done k.is_log st fits;
      held =
          IsHeld-all (in_backing plain os done fits) (in_cache os done) (omega (arith, fits))
            now_fits cache_now_fits log
            (subst (λ n. All (λ e. e.0 < n) log) {x = 0 + count log} {y = t.next_offset}
              (omega (arith, k.is_log.next)) (Starts-below 0 log k.is_log.starts k.is_log.stored))
            k.held;
    }
