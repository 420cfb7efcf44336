-- ===== src/Topic/Store/Keeping.antt =====
-- A topic whose stores keep their laws, as internal/sebtopic/topic.go reads it: the topic and its
-- files stand for a log.
use simple_commit_log.Base.{
  ℕ, ◌-◌, ◌^◌, ◌≤◌, ◌<◌, ◌≡◌, ap, ◌∙◌, List, [], ◌∷◌, Option, none, All, length,
}
use simple_commit_log.Base.Int.{pos}
use simple_commit_log.Errors.{Error, ok}
use simple_commit_log.Slice.{cap, IsWf}
use simple_commit_log.Records.Batch.{Batch, batch_len}
use simple_commit_log.Records.File.Reads.{Grows}
use simple_commit_log.Topic.State.{Topic, Config}
use simple_commit_log.Topic.Read.{read_records}
use simple_commit_log.Topic.Store.{StoreLaws}
use simple_commit_log.Topic.Store.Serving.{IsHeld, Named, serve}
use simple_commit_log.Topic.Log.{IsStored, Records, Serves}
use simple_commit_log.Topic.Log.Taken.{all_records, records_from}
use simple_commit_log.Topic.Log.Locate.{batches}
use simple_commit_log.Topic.Log.Whole.{IsLog, asked, read_records-records_from}

module _ {S H C G : Type 0} (cfg : Config S H C G) {F : Type 0}
    (backing : StoreLaws cfg.backing_storage.files F) (cache : StoreLaws cfg.cache ⊥) where
  -- The topic stands for the log, and its files are those of the log.
  pub record Keeps (t : Topic S C) (log : List (ℕ × Batch)) : Type 0 where
    pub is_log : IsLog t log
    pub held : All (λ e. IsHeld cfg backing cache t e.0 e.1) log

  IsHeld-all :
      (t t' : Topic S C) (log : List (ℕ × Batch))
      → ((o : ℕ) (b : Batch) → IsHeld cfg backing cache t o b → IsHeld cfg backing cache t' o b)
      → All (λ e. IsHeld cfg backing cache t e.0 e.1) log
      → All (λ e. IsHeld cfg backing cache t' e.0 e.1) log
  IsHeld-all t t' [] f h = tt
  IsHeld-all t t' (e ∷ log) f h = (f e.0 e.1 h.0, IsHeld-all t t' log f h.1)

  IsLog-files :
      (t t' : Topic S C) (log : List (ℕ × Batch))
      → t' ≡ record t { backing = t'.backing; cached = t'.cached }
      → IsLog t log
      → IsLog t' log
  IsLog-files t t' log e l = record {
    has_offsets = ap (λ t. t.record_batch_offsets) e ∙ l.has_offsets;
    starts = l.starts;
    next = ap (λ t. t.next_offset) e ∙ l.next;
    stored = l.stored;
  }

  -- Every file is served, and that keeps the topic.
  pub Serves-all :
      Named cfg backing cache
      → cfg.compression ≡ none
      → (log log' : List (ℕ × Batch))
      → ((t : Topic S C) → Keeps t log → All (λ e. IsHeld cfg backing cache t e.0 e.1) log')
      → All (λ e. IsStored e.1) log'
      → All (λ e. Serves cfg (λ t. Keeps t log) e.0 e.1) log'
  Serves-all named plain log [] sub st = tt
  Serves-all named plain log (e ∷ log') sub st = (
    λ t k.
        let (t', now, v, r, f, eq, keeps, same) =
          serve cfg backing cache named t e.0 e.1 st.0 (sub t k).0 plain in
        (
          t',
          now,
          v,
          r,
          f,
          eq,
          record {
            is_log = IsLog-files t t' log same k.is_log;
            held = IsHeld-all t t' log keeps k.held;
          },
        ),
    Serves-all named plain log log' (λ t k. (sub t k).1) st.1,
  )

  -- The records of a log that a call reads behind those of the buffer.
  abbrev pub log_records : Batch → ℕ → ℕ → List (ℕ × Batch) → Records
  log_records buffer offset max log =
      records_from offset (asked max - batch_len buffer) (all_records (batches log))

  pub read_records-Keeps :
      Named cfg backing cache
      → cfg.compression ≡ none
      → (ctx : ℕ → Option Error) → ((k : ℕ) → ctx k ≡ none)
      → (buffer : Batch) → IsWf buffer.sizes
      → IsWf buffer.records_data
      → (offset max : ℕ) → asked max < 2 ^ 32
      → (t : Topic S C) (log : List (ℕ × Batch)) → Keeps t log
      → offset < t.next_offset
      → length (log_records buffer offset max log).0 ≤ cap buffer.sizes - buffer.sizes.len
      → length (log_records buffer offset max log).1
        ≤ cap buffer.records_data - buffer.records_data.len
      → (t' : Topic S C) × (out : Batch) × (read_records cfg ctx buffer offset (pos max) (pos 0) t
          ≡ (t', out, ok tt))
        × Keeps t' log
        × Grows buffer
            (log_records buffer offset max log).0
            (log_records buffer offset max log).1
            out
  read_records-Keeps named plain ctx endless buffer ws wd offset max fits t log k below room_s
        room_d =
      read_records-records_from cfg (λ t. Keeps t log) ctx endless max fits buffer ws wd offset t
        log k.is_log (Serves-all named plain log log (λ t k. k.held) k.is_log.stored) k below
        (room_s, room_d)
