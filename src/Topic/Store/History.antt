-- ===== src/Topic/Store/History.antt =====
-- The calls of internal/sebtopic/topic.go one after the other, with the eviction of cached files in
-- between.
use simple_commit_log.Base.{
  ℕ, ◌+◌, ◌-◌, ◌^◌, ◌≤◌, ◌<◌, ◌≡◌, sym, subst, inl, inr, ◌⊎◌, List, [], ◌∷◌, ◌++◌, Option, none,
  All, arith, length,
}
use simple_commit_log.Base.Int.{ℤ, pos}
use simple_commit_log.Errors.{Error, ok, err}
use simple_commit_log.Helpy.{Slicey}
use simple_commit_log.Slice.{cap, IsWf}
use simple_commit_log.Records.Batch.{Batch, batch_len}
use simple_commit_log.Records.File.Reads.{Grows}
use simple_commit_log.Topic.Files.{Key}
use simple_commit_log.Topic.State.{Topic, Config}
use simple_commit_log.Topic.Add.{add_records, store_batch}
use simple_commit_log.Topic.Add.Outcome.{pair, add_records_err, added_failed}
use simple_commit_log.Topic.Read.{read_records}
use simple_commit_log.Topic.Store.{StoreLaws, Others, store_batch-Stored}
use simple_commit_log.Topic.Store.Serving.{IsHeld, HasFile, Named, key}
use simple_commit_log.Topic.Store.Keeping.{Keeps, Serves-all, read_records-Keeps, log_records}
use simple_commit_log.Topic.Store.Adding.{Starts-below, other_key, add_records-Keeps}
use simple_commit_log.Topic.Store.Reading.{read_records-keeps}
use simple_commit_log.Topic.Log.{IsStored}
use simple_commit_log.Topic.Log.Locate.{count}
use simple_commit_log.Topic.Log.Whole.{asked}

module _ {S H C G : Type 0} (slicey : Slicey) (cfg : Config S H C G) {F : Type 0}
    (backing : StoreLaws cfg.backing_storage.files F) (cache : StoreLaws cfg.cache ⊥) where
  -- The states that a topic can reach from one without records, and the log of the batches that were
  -- added: by an AddRecords that succeeds, with a valid batch that has a record and whose file is
  -- below 2^32 bytes, where the offset behind it and the time stamps are below 2^64, by an AddRecords
  -- that fails with an error, where the next offset is below 2^64, by a ReadRecords, however it ends,
  -- and by the eviction of files from the cache. A batch without records has no place here: its
  -- offset is listed twice, and the next batch is written over its file.
  pub data Reaches : Topic S C → List (ℕ × Batch) → Type 0 where
    started : (t : Topic S C) → t.next_offset ≡ 0 → t.record_batch_offsets ≡ [] → Reaches t []
    added :
        (t : Topic S C) (log : List (ℕ × Batch)) (now cache_now : ℕ) (b : Batch) (os : List ℕ)
        → Reaches t log
        → (add_records slicey cfg now cache_now b t).1 ≡ ok os
        → IsStored b
        → t.next_offset + batch_len b < 2 ^ 64
        → now < 2 ^ 64
        → cache_now < 2 ^ 64
        → Reaches (add_records slicey cfg now cache_now b t).0 (log ++ ((t.next_offset, b) ∷ []))
    refused :
        (t : Topic S C) (log : List (ℕ × Batch)) (now cache_now : ℕ) (b : Batch) (e : Error)
        → Reaches t log
        → (add_records slicey cfg now cache_now b t).1 ≡ err e
        → t.next_offset < 2 ^ 64
        → Reaches (add_records slicey cfg now cache_now b t).0 log
    was_read :
        (t : Topic S C) (log : List (ℕ × Batch)) (ctx : ℕ → Option Error) (buffer : Batch)
        (offset : ℕ) (max soft : ℤ)
        → Reaches t log
        → Reaches (read_records cfg ctx buffer offset max soft t).0 log
    evicted :
        (t : Topic S C) (log : List (ℕ × Batch)) (c : C)
        → Reaches t log
        → ((k : Key) → (cache.view c k ≡ none) ⊎ (cache.view c k ≡ cache.view t.cached k))
        → Reaches (record t { cached = c }) log

  module _ (named : Named cfg backing cache) (plain : cfg.compression ≡ none) where
    -- A failing AddRecords leaves the files of the log alone.
    IsHeld-refused :
        (t : Topic S C) (s : S) (n : ℕ)
        → n < 2 ^ 64
        → Others cfg.backing_storage.files backing (key cfg backing cache n) (named n).0 t.backing s
        → (log : List (ℕ × Batch)) → All (λ e. e.0 < n) log
        → All (λ e. IsHeld cfg backing cache t e.0 e.1) log
        → All (λ e. IsHeld cfg backing cache (record t { backing = s }) e.0 e.1) log
    IsHeld-refused t s n fits others [] below h = tt
    IsHeld-refused t s n fits others (e ∷ log) below h = (
      record {
        stored =
            subst (λ x. HasFile cfg backing cache x e.1)
              (sym (
                others (key cfg backing cache e.0) (named e.0).0
                  (other_key cfg backing cache e.0 n below.0 fits)))
              h.0.stored;
        copied = h.0.copied;
      },
      IsHeld-refused t s n fits others log below.1 h.1,
    )

    IsHeld-evicted :
        (t : Topic S C) (c : C)
        → ((k : Key) → (cache.view c k ≡ none) ⊎ (cache.view c k ≡ cache.view t.cached k))
        → (log : List (ℕ × Batch)) → All (λ e. IsHeld cfg backing cache t e.0 e.1) log
        → All (λ e. IsHeld cfg backing cache (record t { cached = c }) e.0 e.1) log
    IsHeld-evicted t c less [] h = tt
    IsHeld-evicted t c less (e ∷ log) h = (
      record {
        stored = h.0.stored;
        copied = elim (less (key cfg backing cache e.0)) [
          | inl gone ↦ inl gone
          | inr same ↦
              subst (λ x. (x ≡ none) ⊎ HasFile cfg backing cache x e.1) (sym same) h.0.copied
        ];
      },
      IsHeld-evicted t c less log h.1,
    )

    below_next :
        (t : Topic S C) (log : List (ℕ × Batch))
        → Keeps cfg backing cache t log
        → All (λ e. e.0 < t.next_offset) log
    below_next t log k =
        subst (λ n. All (λ e. e.0 < n) log) {x = 0 + count log} {y = t.next_offset}
          (omega (arith, k.is_log.next))
          (Starts-below cfg backing cache 0 log k.is_log.starts k.is_log.stored)

    Keeps-refused :
        (t : Topic S C) (log : List (ℕ × Batch)) (now cache_now : ℕ) (b : Batch) (e : Error)
        → Keeps cfg backing cache t log
        → (add_records slicey cfg now cache_now b t).1 ≡ err e
        → t.next_offset < 2 ^ 64
        → Keeps cfg backing cache (add_records slicey cfg now cache_now b t).0 log
    Keeps-refused t log now cache_now b e k failed fits =
        let (s, _) = add_records_err slicey cfg now cache_now b t e failed in
        rw (added_failed slicey cfg now cache_now b t (pair s)) (record {
          is_log = record {
            has_offsets = k.is_log.has_offsets;
            starts = k.is_log.starts;
            next = k.is_log.next;
            stored = k.is_log.stored;
          };
          held = IsHeld-refused t _ t.next_offset fits others log (below_next t log k) k.held;
        })
      where
        others :
            Others cfg.backing_storage.files backing
              (key cfg backing cache t.next_offset)
              (named t.next_offset).0
              t.backing
              (store_batch cfg.backing_storage.files cfg.compression
                (key cfg backing cache t.next_offset)
                now
                b
                t.backing).0
        others =
            subst
              (λ c.
                Others cfg.backing_storage.files backing (key cfg backing cache t.next_offset)
                  (named t.next_offset).0 t.backing
                  (store_batch cfg.backing_storage.files c (key cfg backing cache t.next_offset) now
                    b t.backing).0)
              (sym plain)
              (store_batch-Stored cfg.backing_storage.files backing
                (key cfg backing cache t.next_offset) (named t.next_offset).0 t.backing now b).0

    -- Where nothing compresses, the stores keep their laws, the topic's keys name files of their own in
    -- them and writes to the cache do not fail: every state that a topic reaches from an empty one by
    -- successful AddRecords of valid batches with a record or more, files below 2^32 bytes and offsets
    -- and time stamps below 2^64, by AddRecords that fail below that offset, by ReadRecords and by
    -- evictions stands for the log of the batches that were added: the offsets, the next offset and the
    -- files in the backing storage and the cache are those of the log.
    pub Reaches-Keeps :
        (t : Topic S C) (log : List (ℕ × Batch)) → Reaches t log → Keeps cfg backing cache t log
    Reaches-Keeps t' log' (started t e e') = record {
      is_log = record { has_offsets = e'; starts = tt; next = e; stored = tt };
      held = tt;
    }
    Reaches-Keeps t' log' (added t log now cache_now b os h done st fits now_fits cache_now_fits) =
        add_records-Keeps cfg backing cache named slicey now cache_now b t plain os done log
          (Reaches-Keeps t log h) st fits now_fits cache_now_fits
    Reaches-Keeps t' log' (refused t log now cache_now b e h failed fits) =
        Keeps-refused t log now cache_now b e (Reaches-Keeps t log h) failed fits
    Reaches-Keeps t' log' (was_read t log ctx buffer offset max soft h) =
        let k = Reaches-Keeps t log h in
        read_records-keeps cfg (λ t. Keeps cfg backing cache t log) ctx buffer offset max soft t log
          k.is_log.has_offsets
          (Serves-all cfg backing cache named plain log log (λ t k. k.held) k.is_log.stored) k
    Reaches-Keeps t' log' (evicted t log c h less) =
        let k = Reaches-Keeps t log h in
        record {
          is_log = record {
            has_offsets = k.is_log.has_offsets;
            starts = k.is_log.starts;
            next = k.is_log.next;
            stored = k.is_log.stored;
          };
          held = IsHeld-evicted t c less log k.held;
        }

    -- Under the same conditions, in every state that a topic reaches in this way, ReadRecords without
    -- a limit of bytes, from an offset below the next one, returns no error and puts the records of
    -- the log from the offset on behind what the buffer has, as many as there are up to the limit of
    -- records less those that the buffer has, where the context does not end, the limit is below
    -- 2^32 and the buffer has room.
    pub read_records-Reaches :
        (t : Topic S C) (log : List (ℕ × Batch)) (ctx : ℕ → Option Error) (buffer : Batch)
        (offset max : ℕ)
        → Reaches t log
        → ((k : ℕ) → ctx k ≡ none)
        → IsWf buffer.sizes
        → IsWf buffer.records_data
        → asked max < 2 ^ 32
        → offset < t.next_offset
        → length (log_records cfg backing cache buffer offset max log).0
          ≤ cap buffer.sizes - buffer.sizes.len
        → length (log_records cfg backing cache buffer offset max log).1
          ≤ cap buffer.records_data - buffer.records_data.len
        → (t' : Topic S C) × (out : Batch) × (read_records cfg ctx buffer offset (pos max) (pos 0) t
            ≡ (t', out, ok tt))
          × Keeps cfg backing cache t' log
          × Grows buffer
              (log_records cfg backing cache buffer offset max log).0
              (log_records cfg backing cache buffer offset max log).1
              out
    read_records-Reaches t log ctx buffer offset max h endless ws wd fits below room_s room_d =
        read_records-Keeps cfg backing cache named plain ctx endless buffer ws wd offset max fits t
          log (Reaches-Keeps t log h) below room_s room_d
