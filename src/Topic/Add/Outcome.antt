-- ===== src/Topic/Add/Outcome.antt =====
-- What AddRecords returns, and what it leaves behind.
use simple_commit_log.Base.{
  ℕ, ◌+◌, ◌-◌, ◌%◌, ◌^◌, ◌≡◌, refl, ap, ◌⊎◌, inl, inr, List, Bool, true, false,
}
use simple_commit_log.Errors.{Error, Result, ok, err, panic, Result-cases}
use simple_commit_log.Helpy.{Slicey}
use simple_commit_log.Records.Batch.{Batch, batch_len}
use simple_commit_log.Records.File.{write}
use simple_commit_log.Topic.Files.{Key, handle_writer}
use simple_commit_log.Topic.Paths.{record_batch_key}
use simple_commit_log.Topic.State.{Topic, Config}
use simple_commit_log.Topic.Add.{
  store_batch, cache_batch, offsets_from, commit, announce, add_records, cache_writer, closed_copy,
  written_copy,
}

-- A pair by its second part.
pub pair {ℓ κ} : {X : Type ℓ} {Y : Type κ} {o : X × Y} {r : Y} → o.1 ≡ r → o ≡ (o.0, r)
pair {o} e = ap (λ r. (o.0, r)) e

module _ {S H C G : Type 0} (slicey : Slicey) (cfg : Config S H C G) (now cache_now : ℕ) (b : Batch)
    (t : Topic S C) where
  abbrev pub key : Key
  key = record_batch_key cfg.topic_name t.next_offset

  abbrev pub stored : S × Result (Unit {0})
  stored = store_batch cfg.backing_storage.files cfg.compression key now b t.backing

  abbrev pub copied : C × Result Bool
  copied = cache_batch cfg.cache key cache_now b t.cached

  abbrev pub added : Topic S C × Result (List ℕ)
  added = add_records slicey cfg now cache_now b t

  -- An error of the cache is never an error of AddRecords.
  pub copied-cases : ((c : Bool) × (copied.1 ≡ ok c)) ⊎ (copied.1 ≡ panic)
  unfolding cache_batch
  copied-cases = go (cfg.cache.create key t.cached)
    where
      closed :
          (o : C × Result (Unit {0}))
          → ((c : Bool) × ((closed_copy cfg.cache o).1 ≡ ok c))
            ⊎ ((closed_copy cfg.cache o).1 ≡ panic)
      closed (s, ok u) = inl (true, refl)
      closed (s, err e) = inl (true, refl)
      closed (s, panic) = inr refl

      written :
          (o : (C × G) × Result (Unit {0}))
          → ((c : Bool) × ((written_copy cfg.cache o).1 ≡ ok c))
            ⊎ ((written_copy cfg.cache o).1 ≡ panic)
      written ((s, h), ok u) = closed (cfg.cache.close h s)
      written ((s, h), err e) = closed (cfg.cache.close h s)
      written ((s, h), panic) = inr refl

      go :
          (o : C × Result G)
          → ((c : Bool) × ((cache_writer cfg.cache key cache_now b o).1 ≡ ok c))
            ⊎ ((cache_writer cfg.cache key cache_now b o).1 ≡ panic)
      go (s, ok h) = written (write (handle_writer cfg.cache) cache_now (s, h) b)
      go (s, err e) = inl (false, refl)
      go (s, panic) = inr refl

  abbrev pub next : ℕ
  next = (t.next_offset + batch_len b) % 2 ^ 64

  abbrev pub offsets : List ℕ
  offsets = offsets_from (next - t.next_offset) t.next_offset

  -- The topic with the batch in it, before and after the consumers are told.
  abbrev pub committed : S → C → Topic S C
  committed s c = record (commit slicey cfg t.next_offset next t) { backing = s; cached = c }

  pub added_failed :
      {s : S} {e : Error} → stored ≡ (s, err e) → added ≡ (record t { backing = s }, err e)
  unfolding add_records
  added_failed h = rw h

  pub added_crashed : {s : S} → stored ≡ (s, panic) → added ≡ (record t { backing = s }, panic)
  unfolding add_records
  added_crashed h = rw h

  pub added_uncached :
      {s : S} {c : C} {u : Unit {0}}
      → stored ≡ (s, ok u)
      → copied ≡ (c, ok false)
      → added ≡ (committed s c, ok offsets)
  unfolding add_records
  added_uncached h k = rw (h, k)

  pub added_cached :
      {s : S} {c : C} {u : Unit {0}}
      → stored ≡ (s, ok u)
      → copied ≡ (c, ok true)
      → added ≡ (announce slicey cfg offsets (committed s c), ok offsets)
  unfolding add_records
  added_cached h k = rw (h, k)

  pub added_cache_crashed :
      {s : S} {c : C} {u : Unit {0}}
      → stored ≡ (s, ok u)
      → copied ≡ (c, panic)
      → added ≡ (committed s c, panic)
  unfolding add_records
  added_cache_crashed h k = rw (h, k)

  -- An error of AddRecords is one of writing the batch to the backing storage, and then nothing but
  -- the backing storage was touched: no offset is used, no batch is listed, and nobody is woken.
  pub add_records_err :
      (e : Error)
      → (add_records slicey cfg now cache_now b t).1 ≡ err e
      → ((store_batch cfg.backing_storage.files cfg.compression
            (record_batch_key cfg.topic_name t.next_offset)
            now
            b
            t.backing).1
          ≡ err e)
        × ((add_records slicey cfg now cache_now b t).0
            ≡ record t { backing = (add_records slicey cfg now cache_now b t).0.backing })
  add_records_err e h = elim (Result-cases stored.1) [
    | inl (u, s) ↦ elim copied-cases [
      | inl (true, k) ↦ cc (added_cached (pair s) (pair k))
      | inl (false, k) ↦ cc (added_uncached (pair s) (pair k))
      | inr k ↦ cc (added_cache_crashed (pair s) (pair k))
    ]
    | inr (inl (e', s)) ↦ (cc (s, added_failed (pair s)), rw (added_failed (pair s)))
    | inr (inr s) ↦ cc (added_crashed (pair s))
  ]
