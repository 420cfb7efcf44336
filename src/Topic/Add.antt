-- ===== src/Topic/Add.antt =====
-- `Topic.AddRecords` of internal/sebtopic/topic.go.
pub mod Outcome
pub mod Offsets
use simple_commit_log.Base.{
  ℕ, zero, suc, ◌+◌, ◌-◌, ◌%◌, ◌^◌, List, [], ◌∷◌, ◌++◌, Bool, true, false, Option, none, some,
  ◌==◌, length, if◌then◌else◌,
}
use simple_commit_log.Errors.{Error, Result, ok, err, panic}
use simple_commit_log.Exec.{Exec, pure, gets, modify, ◌>>=◌, ◌>>◌}
use simple_commit_log.Helpy.{Slicey}
use simple_commit_log.Records.Batch.{Batch, batch_len}
use simple_commit_log.Records.Bytes.{Writer}
use simple_commit_log.Records.File.{write}
use simple_commit_log.Records.File.RoundTrip.{buffer_writer}
use simple_commit_log.OffsetCond.{OffsetCond, broadcast}
use simple_commit_log.Topic.Files.{Key, Files, Storage, Compress, handle_writer}
use simple_commit_log.Topic.Paths.{record_batch_key}
use simple_commit_log.Topic.State.{Topic, Config, on_backing, on_cached}

module _ {S H : Type 0} (io : Files S H) where
  abbrev pub written_to : (S × H) × Result (Unit {0}) → S × Result H
  written_to ((s, h), ok _) = (s, ok h)
  written_to ((s, h), err e) = (s, err e)
  written_to ((s, h), panic) = (s, panic)

  -- `sebrecords.Write` to the open writer, where nothing compresses.
  unfoldable pub write_plain : H → ℕ → Batch → Exec S H
  write_plain h now b s = written_to (write (handle_writer io) now (s, h) b)

  -- `sebrecords.Write` to a compressing writer, and its `Close`: the compressed bytes reach the open
  -- writer. An error there is one of `Write` or of `Close`, which AddRecords treats alike.
  unfoldable pub write_compressed : Compress → H → ℕ → Batch → Exec S H
  write_compressed c h now b s = elim c.new_writer_error [
    | some e ↦ (s, err e)
    | none ↦ io.put h (c.compress (write buffer_writer now [] b).0) s
  ]

  unfoldable pub write_batch : Option Compress → H → ℕ → Batch → Exec S H
  write_batch none = write_plain
  write_batch (some c) = write_compressed c

  -- AddRecords up to the `Close` of the backing writer: opened, written and closed, and the first
  -- error ends it.
  unfoldable pub store_batch : Option Compress → Key → ℕ → Batch → Exec S (Unit {0})
  store_batch compression key now b = do
    h ← io.create key
    h' ← write_batch compression h now b
    io.close h'

  -- The copy for the cache: the errors of `Write` and `Close` are logged, and the handle is closed
  -- behind either; a panic ends the call.
  abbrev pub closed_copy : S × Result (Unit {0}) → S × Result Bool
  closed_copy (s, panic) = (s, panic)
  closed_copy (s, ok _) = (s, ok true)
  closed_copy (s, err e) = (s, ok true)

  abbrev pub written_copy : (S × H) × Result (Unit {0}) → S × Result Bool
  written_copy ((s, h), panic) = (s, panic)
  written_copy ((s, h), ok _) = closed_copy (io.close h s)
  written_copy ((s, h), err e) = closed_copy (io.close h s)

  abbrev pub cache_writer : Key → ℕ → Batch → S × Result H → S × Result Bool
  cache_writer key now b (s, err e) = (s, ok false)
  cache_writer key now b (s, panic) = (s, panic)
  cache_writer key now b (s, ok h) = written_copy (write (handle_writer io) now (s, h) b)

  -- False if the cache gave no writer.
  unfoldable pub cache_batch : Key → ℕ → Batch → Exec S Bool
  cache_batch key now b s = cache_writer key now b (io.create key s)

-- The loop that lists the offsets: `n` numbers from `i` on.
unfoldable pub offsets_from : ℕ → ℕ → List ℕ
offsets_from zero i = []
offsets_from (suc n) i = i ∷ offsets_from n (i + 1)

module _ {S H C G : Type 0} (slicey : Slicey) (cfg : Config S H C G) where
  -- The new batch becomes visible.
  abbrev pub commit : ℕ → ℕ → Topic S C → Topic S C
  commit record_batch_id next_offset t = record t {
    record_batch_offsets = t.record_batch_offsets ++ (record_batch_id ∷ []);
    next_offset = next_offset;
  }

  -- Tell the waiting consumers, if there are new offsets.
  unfoldable pub announce : List ℕ → Topic S C → Topic S C
  announce [] t = t
  announce (o ∷ os) t =
      let (cond, released) = broadcast t.offset_cond (slicey.last (o ∷ os)) in
      record t { offset_cond = cond; closed = t.closed ++ released }

  -- `AddRecords`, where `UnixEpochUs()` returns `now` for the file in the backing storage and
  -- `cache_now` for the copy in the cache. The uint64 addition wraps, and then no offset is listed.
  -- Where the cache gives no writer the function returns without a broadcast.
  unfoldable pub add_records : ℕ → ℕ → Batch → Exec (Topic S C) (List ℕ)
  add_records now cache_now batch = do
    record_batch_id ← gets (λ t. t.next_offset)
    let key = record_batch_key cfg.topic_name record_batch_id
    on_backing (store_batch cfg.backing_storage.files cfg.compression key now batch)
    let next_offset = (record_batch_id + batch_len batch) % 2 ^ 64
    let offsets = offsets_from (next_offset - record_batch_id) record_batch_id
    modify (commit record_batch_id next_offset)
    cached ← on_cached (cache_batch cfg.cache key cache_now batch)
    modify (if cached then announce offsets else λ t. t)
    pure offsets
