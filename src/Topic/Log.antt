-- ===== src/Topic/Log.antt =====
-- What a topic stands for: its batches in order, each with the offset of its first record, and what
-- ReadRecords of internal/sebtopic/topic.go takes from them.
pub mod Round
pub mod Loop
pub mod Taken
pub mod Locate
pub mod Whole
pub mod Append
pub mod Gap
mod Tests
use simple_commit_log.Base.{
  ℕ, ◌+◌, ◌-◌, ◌*◌, ◌^◌, ◌<◌, ◌≡◌, List, [], ◌∷◌, ◌++◌, map, drop, take, length, total, Bool, ◌&&◌,
  Option, ltb, ◌==◌, min, if◌then◌else◌,
}
use simple_commit_log.Errors.{ok}
use simple_commit_log.Slice.{items}
use simple_commit_log.Records.Batch.{Batch, IsBatch, batch_len}
use simple_commit_log.Records.Batch.Split.{between}
use simple_commit_log.Records.File.RoundTrip.{parsed}
use simple_commit_log.Topic.State.{Topic, Config}
use simple_commit_log.Topic.Read.{
  Reading, select_records, num_records, more_bytes, parse_record_batch,
}

-- A batch of a log: it is valid, has records, and its file is below 2^32 bytes.
pub record IsStored (b : Batch) : Type 0 where
  pub valid : IsBatch b
  pub some_records : 0 < batch_len b
  pub records_fit : batch_len b + 1 < 2 ^ 32
  pub file_fits : 32 + 4 * batch_len b + b.records_data.len < 2 ^ 32

-- The sizes and the bytes of records.
abbrev pub Records : Type 0
Records = List ℕ × List ℕ

infixr 60 ◌⊕◌
abbrev pub ◌⊕◌ : Records → Records → Records
x ⊕ y = (x.0 ++ y.0, x.1 ++ y.1)

-- The records of a batch from index `i` up to index `j`.
abbrev pub part : Batch → ℕ → ℕ → Records
part b i j = (
  between (items b.sizes) i j,
  between (items b.records_data) (total (take i (items b.sizes))) (total (take j (items b.sizes))),
)

-- The records that one round takes of a batch, of which those from index `i` on are left, for a
-- buffer that has `have` records.
abbrev pub most_of : ℕ → ℕ → ℕ → Batch → ℕ
most_of most have i b = min (most - have) (length (items b.sizes) - i)

abbrev pub chosen : Option ℕ → ℕ → ℕ → ℕ → Bool → ℕ → Batch → ℕ × ℕ × Bool
chosen soft most have bytes first i b =
    num_records soft (take (most_of most have i b) (drop i (items b.sizes))) (most_of most have i b)
      bytes first

-- What the loop takes of the batches from index `i` of the first one on, at most `most` records
-- together with the `have` that are there.
unfoldable pub taken : Option ℕ → ℕ → ℕ → ℕ → Bool → ℕ → List Batch → Records
taken soft most have bytes first i [] = ([], [])
taken soft most have bytes first i (b ∷ bs) =
    let (n, bytes', first') = chosen soft most have bytes first i b in
    let rest = taken soft most (have + n) bytes' first' 0 bs in
    if ltb have most && more_bytes soft bytes
    then (if n == 0 then ([], []) else part b i (i + n) ⊕ rest)
    else ([], [])

-- In every state of an invariant, the file of the batch with this offset can be read and parsed, and
-- the invariant still holds.
abbrev pub Serves : {S H C G : Type 0} → Config S H C G → (Topic S C → Type 0) → ℕ → Batch → Type 0
Serves {S} {H} {C} {G} cfg I o b =
    (t : Topic S C)
    → I t
    → (t' : Topic S C) × (now : ℕ) × (v : IsBatch b) × (r : batch_len b + 1 < 2 ^ 32) × (f : now
        < 2 ^ 64)
      × (parse_record_batch cfg o t ≡ (t', ok (parsed now b v r f)))
      × I t'
