-- ===== src/Topic/Add/Offsets.antt =====
-- The offsets that AddRecords gives out, and the consumers that it wakes.
use simple_commit_log.Base.{
  ℕ, zero, suc, ◌+◌, ◌-◌, ◌^◌, ◌≤◌, ◌<◌, ◌≡◌, refl, sym, ap, subst, ◌∙◌, inl, inr, List, [], ◌∷◌,
  ◌++◌, append_assoc, All, true, false, length, arith,
}
use simple_commit_log.Errors.{Error, ok, err, Result-cases}
use simple_commit_log.Helpy.{Slicey}
use simple_commit_log.Records.Batch.{Batch, batch_len}
use simple_commit_log.OffsetCond.{Wait, broadcast}
use simple_commit_log.OffsetCond.Broadcasts.{channels, due, loop-later, loop-due}
use simple_commit_log.Topic.Paths.{record_batch_key}
use simple_commit_log.Topic.State.{Topic, Config}
use simple_commit_log.Topic.Add.{store_batch, cache_batch, offsets_from, announce, add_records}
use simple_commit_log.Topic.Add.Outcome.{
  pair, stored, copied, next, offsets, committed, copied-cases, added_failed, added_crashed,
  added_uncached, added_cached, added_cache_crashed,
}

offsets_from-concat : (n i : ℕ) → offsets_from (suc n) i ≡ offsets_from n i ++ ((i + n) ∷ [])
unfolding offsets_from
offsets_from-concat zero i = ap (λ k. k ∷ []) (omega arith)
offsets_from-concat (suc n) i = ap (◌∷◌ i) (
    offsets_from-concat n (i + 1)
    ∙ ap (λ k. offsets_from n (i + 1) ++ (k ∷ [])) {y = i + suc n} (omega arith))

pub length-offsets_from : (n i : ℕ) → length (offsets_from n i) ≡ n
unfolding offsets_from
length-offsets_from zero i = refl
length-offsets_from (suc n) i = ap suc (length-offsets_from n (i + 1))

module _ {S H C G : Type 0} (slicey : Slicey) (cfg : Config S H C G) (now cache_now : ℕ) (b : Batch)
    (t : Topic S C) where
  announce_keeps :
      (os : List ℕ) (u : Topic S C)
      → announce slicey cfg os u ≡ record u {
        offset_cond = (announce slicey cfg os u).offset_cond;
        closed = (announce slicey cfg os u).closed;
      }
  unfolding announce
  announce_keeps [] u = refl
  announce_keeps (o ∷ os) u = refl

  announce_wakes :
      (n i : ℕ) (u : Topic S C)
      → ((announce slicey cfg (offsets_from (suc n) i) u).offset_cond.current_offset ≡ i + n)
        × All
            (λ w. i + n < w.offset)
            (announce slicey cfg (offsets_from (suc n) i) u).offset_cond.waiting
        × ((announce slicey cfg (offsets_from (suc n) i) u).closed
            ≡ u.closed ++ channels (due (i + n + 1) u.offset_cond.waiting))
  unfolding announce offsets_from broadcast
  announce_wakes n i u = (
    newest,
    rw (← newest) (loop-later _ u.offset_cond.waiting),
    rw newest (ap (λ cs. u.closed ++ cs) (loop-due (i + n) u.offset_cond.waiting)),
  )
    where
      newest : slicey.last (i ∷ offsets_from n (i + 1)) ≡ i + n
      newest = ap slicey.last (offsets_from-concat n i) ∙ slicey.last_lem (offsets_from n i) (i + n)

  -- The cache is as the copy of the batch leaves it.
  pub add_records-cached :
      (os : List ℕ)
      → (add_records slicey cfg now cache_now b t).1 ≡ ok os
      → (add_records slicey cfg now cache_now b t).0.cached
        ≡ (cache_batch cfg.cache
            (record_batch_key cfg.topic_name t.next_offset)
            cache_now
            b
            t.cached).0
  add_records-cached os h = elim (Result-cases (stored slicey cfg now cache_now b t).1) [
    | inl (u, s) ↦ elim (copied-cases slicey cfg now cache_now b t) [
      | inl (true, k) ↦ rw (added_cached slicey cfg now cache_now b t (pair s) (pair k)) (
          ap (λ x. x.cached)
            (announce_keeps (offsets slicey cfg now cache_now b t)
              (committed slicey cfg now cache_now b t _ _)))
      | inl (false, k) ↦ rw (added_uncached slicey cfg now cache_now b t (pair s) (pair k)) refl
      | inr k ↦ cc (added_cache_crashed slicey cfg now cache_now b t (pair s) (pair k))
    ]
    | inr (inl (e', s)) ↦ cc (added_failed slicey cfg now cache_now b t (pair s))
    | inr (inr s) ↦ cc (added_crashed slicey cfg now cache_now b t (pair s))
  ]

  -- The batch fits in front of the last uint64.
  module _ (fits : t.next_offset + batch_len b < 2 ^ 64) where
    offsets_lem :
        (next slicey cfg now cache_now b t ≡ t.next_offset + batch_len b)
        × (offsets slicey cfg now cache_now b t ≡ offsets_from (batch_len b) t.next_offset)
    offsets_lem = (omega arith, ap (λ k. offsets_from k t.next_offset) (omega arith))

    -- Where AddRecords succeeds, the file was stored, the records have the offsets from the topic's
    -- next offset on, one after the other, the next offset is behind them, and the batch is the last
    -- one listed, under the offset of its first record.
    pub add_records_ok :
        (os : List ℕ)
        → (add_records slicey cfg now cache_now b t).1 ≡ ok os
        → ((store_batch cfg.backing_storage.files cfg.compression
              (record_batch_key cfg.topic_name t.next_offset)
              now
              b
              t.backing)
            ≡ ((add_records slicey cfg now cache_now b t).0.backing, ok tt))
          × (os ≡ offsets_from (batch_len b) t.next_offset)
          × ((add_records slicey cfg now cache_now b t).0.next_offset ≡ t.next_offset + batch_len b)
          × ((add_records slicey cfg now cache_now b t).0.record_batch_offsets
              ≡ t.record_batch_offsets ++ (t.next_offset ∷ []))
    add_records_ok os h = elim (Result-cases (stored slicey cfg now cache_now b t).1) [
      | inl (u, s) ↦ elim (copied-cases slicey cfg now cache_now b t) [
        | inl (true, k) ↦
            let e = added_cached slicey cfg now cache_now b t (pair s) (pair k) in
            let kept =
              announce_keeps (offsets slicey cfg now cache_now b t)
                (committed slicey cfg now cache_now b t _ _) in
            rw e (
              pair s ∙ ap (λ x. (x.backing, ok tt)) (sym kept),
              cc (e, offsets_lem.1),
              ap (λ x. x.next_offset) kept ∙ offsets_lem.0,
              ap (λ x. x.record_batch_offsets) kept,
            )
        | inl (false, k) ↦
            let e = added_uncached slicey cfg now cache_now b t (pair s) (pair k) in
            rw e (pair s, cc (e, offsets_lem.1), offsets_lem.0, refl)
        | inr k ↦ cc (added_cache_crashed slicey cfg now cache_now b t (pair s) (pair k))
      ]
      | inr (inl (e', s)) ↦ cc (added_failed slicey cfg now cache_now b t (pair s))
      | inr (inr s) ↦ cc (added_crashed slicey cfg now cache_now b t (pair s))
    ]

    -- Where the batch fits in front of the last uint64 and has a record, AddRecords succeeds and the
    -- cache gave a writer: the channels that it closes are those of the waiters for an offset below
    -- the topic's new next offset, in the order in which they wait, the last of the new offsets is
    -- the current one, and whoever still waits, waits for a later offset.
    pub add_records_wakes :
        (os : List ℕ)
        → (add_records slicey cfg now cache_now b t).1 ≡ ok os
        → 0 < batch_len b
        → (cache_batch cfg.cache
            (record_batch_key cfg.topic_name t.next_offset)
            cache_now
            b
            t.cached).1
          ≡ ok true
        → ((add_records slicey cfg now cache_now b t).0.offset_cond.current_offset + 1
            ≡ t.next_offset + batch_len b)
          × All
              (λ w. t.next_offset + batch_len b ≤ w.offset)
              (add_records slicey cfg now cache_now b t).0.offset_cond.waiting
          × ((add_records slicey cfg now cache_now b t).0.closed
              ≡ t.closed ++ channels (due (t.next_offset + batch_len b) t.offset_cond.waiting))
    add_records_wakes os h p k = elim (Result-cases (stored slicey cfg now cache_now b t).1) [
      | inl (u, s) ↦ rw (added_cached slicey cfg now cache_now b t (pair s) (pair k)) (told _ _)
      | inr (inl (e', s)) ↦ cc (added_failed slicey cfg now cache_now b t (pair s))
      | inr (inr s) ↦ cc (added_crashed slicey cfg now cache_now b t (pair s))
    ]
      where
        n : ℕ
        n = batch_len b - 1

        count : offsets slicey cfg now cache_now b t ≡ offsets_from (suc n) t.next_offset
        count = offsets_lem.1 ∙ ap (λ k. offsets_from k t.next_offset) (omega arith)

        told :
            (s : S) (c : C)
            → ((announce slicey cfg
                    (offsets slicey cfg now cache_now b t)
                    (committed slicey cfg now cache_now b t s c)).offset_cond.current_offset
                  + 1
                ≡ t.next_offset + batch_len b)
              × All
                  (λ w. t.next_offset + batch_len b ≤ w.offset)
                  (announce slicey cfg
                    (offsets slicey cfg now cache_now b t)
                    (committed slicey cfg now cache_now b t s c)).offset_cond.waiting
              × ((announce slicey cfg
                    (offsets slicey cfg now cache_now b t)
                    (committed slicey cfg now cache_now b t s c)).closed
                  ≡ t.closed ++ channels (due (t.next_offset + batch_len b) t.offset_cond.waiting))
        told s c =
            let (current, rest, released) =
              announce_wakes n t.next_offset (committed slicey cfg now cache_now b t s c) in
            rw count (
              omega (arith, current),
              subst
                  (λ k.
                    All {A = Wait} (λ w. k ≤ w.offset)
                      (announce slicey cfg (offsets_from (suc n) t.next_offset)
                        (committed slicey cfg now cache_now b t s c)).offset_cond.waiting)
                  {x = suc (t.next_offset + n)} {y = t.next_offset + batch_len b} (omega arith)
                  rest,
              released
                  ∙ ap (λ k. t.closed ++ channels (due k t.offset_cond.waiting))
                      {x = t.next_offset + n + 1} (omega arith),
            )

    -- Where the cache gives no writer, AddRecords succeeds all the same and the new records count,
    -- and those who wait for them are not woken: the condition stays as it was.
    pub add_records_unannounced :
        {c : C} {e : Error} {s : S}
        → (store_batch cfg.backing_storage.files cfg.compression
            (record_batch_key cfg.topic_name t.next_offset)
            now
            b
            t.backing)
          ≡ (s, ok tt)
        → cfg.cache.create (record_batch_key cfg.topic_name t.next_offset) t.cached ≡ (c, err e)
        → ((add_records slicey cfg now cache_now b t).1
            ≡ ok (offsets_from (batch_len b) t.next_offset))
          × ((add_records slicey cfg now cache_now b t).0.next_offset ≡ t.next_offset + batch_len b)
          × ((add_records slicey cfg now cache_now b t).0.offset_cond ≡ t.offset_cond)
    add_records_unannounced {c} {e} h k =
        let e' = added_uncached slicey cfg now cache_now b t h no_writer in
        rw e' (ap ok offsets_lem.1, offsets_lem.0, refl)
      where
        no_writer : copied slicey cfg now cache_now b t ≡ (c, ok false)
        no_writer = unfold cache_batch in rw k

module _ {S H C G : Type 0} (slicey : Slicey) (cfg : Config S H C G) where
  -- What a call of AddRecords that succeeded made of a topic.
  abbrev Added : ℕ → Batch → Topic S C → Topic S C × List ℕ → Type 0
  Added now b t (t', os) =
      (store_batch cfg.backing_storage.files cfg.compression
          (record_batch_key cfg.topic_name t.next_offset) now b t.backing
        ≡ (t'.backing, ok tt))
      × (os ≡ offsets_from (batch_len b) t.next_offset)
      × (t'.next_offset ≡ t.next_offset + batch_len b)
      × (t'.record_batch_offsets ≡ t.record_batch_offsets ++ (t.next_offset ∷ []))

  add_records-Added :
      (now cache_now : ℕ) (b : Batch) (t t' : Topic S C) (os : List ℕ)
      → t.next_offset + batch_len b < 2 ^ 64
      → add_records slicey cfg now cache_now b t ≡ (t', ok os)
      → Added now b t (t', os)
  add_records-Added now cache_now b t t' os fits e =
      subst (λ x. Added now b t (x.0, os)) e
        (add_records_ok slicey cfg now cache_now b t fits os (ap (λ x. x.1) e))

  -- Where AddRecords of a batch without records succeeds and then AddRecords of another batch does,
  -- which fits in front of the last uint64: the second batch is stored under the key of the first and
  -- gets the offsets from the same offset on, and that offset is listed twice.
  pub add_records-empty :
      (now cache_now now' cache_now' : ℕ) (b b' : Batch) (t t' t'' : Topic S C) (os os' : List ℕ)
      → batch_len b ≡ 0
      → t.next_offset + batch_len b' < 2 ^ 64
      → add_records slicey cfg now cache_now b t ≡ (t', ok os)
      → add_records slicey cfg now' cache_now' b' t' ≡ (t'', ok os')
      → (store_batch cfg.backing_storage.files cfg.compression
            (record_batch_key cfg.topic_name t.next_offset)
            now
            b
            t.backing
          ≡ (t'.backing, ok tt))
        × (store_batch cfg.backing_storage.files cfg.compression
              (record_batch_key cfg.topic_name t.next_offset)
              now'
              b'
              t'.backing
            ≡ (t''.backing, ok tt))
        × (os' ≡ offsets_from (batch_len b') t.next_offset)
        × (t''.record_batch_offsets
            ≡ t.record_batch_offsets ++ (t.next_offset ∷ t.next_offset ∷ []))
  add_records-empty now cache_now now' cache_now' b b' t t' t'' os os' none_in fits e e' =
      let (stored_b, _, next_b, listed_b) =
        add_records-Added now cache_now b t t' os (omega arith) e in
      let same : t'.next_offset ≡ t.next_offset = omega (arith, next_b) in
      let (stored_b', offsets_b', _, listed_b') =
        add_records-Added now' cache_now' b' t' t'' os' (omega (arith, same)) e' in
      (
        stored_b,
        subst
            (λ o.
              store_batch cfg.backing_storage.files cfg.compression
                (record_batch_key cfg.topic_name o) now' b' t'.backing
              ≡ (t''.backing, ok tt))
            same stored_b',
        offsets_b' ∙ ap (offsets_from (batch_len b')) same,
        listed_b'
            ∙ ap (λ o. t'.record_batch_offsets ++ (o ∷ [])) same
            ∙ ap (λ os. os ++ (t.next_offset ∷ [])) listed_b
            ∙ append_assoc t.record_batch_offsets _ _,
      )
