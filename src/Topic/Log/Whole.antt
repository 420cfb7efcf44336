-- ===== src/Topic/Log/Whole.antt =====
-- ReadRecords of internal/sebtopic/topic.go on a log, as a whole.
use simple_commit_log.Base.{
  ℕ, zero, suc, ◌-◌, ◌%◌, ◌^◌, ◌≤◌, ◌<◌, ◌≡◌, refl, sym, ap, subst, ◌∙◌, List, [], ◌∷◌, length,
  drop, get_elem?, Option, none, some, All, All-drop, Option-cases, true, false, inl, inr, arith,
  leb,
}
use simple_commit_log.Base.Int.{pos}
use simple_commit_log.Errors.{Error, ok}
use simple_commit_log.Slice.{cap, IsWf}
use simple_commit_log.Records.Batch.{Batch, batch_len}
use simple_commit_log.Records.File.Reads.{Grows}
use simple_commit_log.Topic.State.{Topic, Config}
use simple_commit_log.Topic.Read.{
  Reading, Limits, find_batch, read_loop, read_records, max_or_default, batch_of,
}
use simple_commit_log.Topic.Read.Select.{find_batch_lem, find_batch-none}
use simple_commit_log.Topic.Log.{IsStored, Records, Serves}
use simple_commit_log.Topic.Log.Loop.{Ends, read_loop-takes, Inside}
use simple_commit_log.Topic.Log.Taken.{all_records, records_from, taken-none, Within}
use simple_commit_log.Topic.Log.Locate.{Starts, count, batches, offsets, located}

-- The topic's offsets are those of the log, which begins at offset 0.
pub record IsLog {S C : Type 0} (t : Topic S C) (log : List (ℕ × Batch)) : Type 0 where
  pub has_offsets : t.record_batch_offsets ≡ offsets log
  pub starts : Starts 0 log
  pub next : t.next_offset ≡ count log
  pub stored : All (λ e. IsStored e.1) log

-- The most records that a call asks for, where 0 stands for 10.
abbrev pub asked : ℕ → ℕ
asked zero = 10
asked (suc n) = suc n

All_batches : (log : List (ℕ × Batch)) → All (λ e. IsStored e.1) log → All IsStored (batches log)
All_batches [] st = tt
All_batches (e ∷ log) st = (st.0, All_batches log st.1)

max_or_default-asked :
    {S H C G : Type 0} (cfg : Config S H C G) (n : ℕ) → max_or_default cfg (pos n) ≡ pos (asked n)
max_or_default-asked cfg zero = refl
max_or_default-asked cfg (suc n) = refl

Within-Inside :
    (i : ℕ) (log : List (ℕ × Batch))
    → All (λ e. IsStored e.1) log
    → Within i (batches log)
    → Inside i log
Within-Inside i [] st w = tt
Within-Inside i (e ∷ log) st w = omega (arith, w)

-- Some batch begins at an offset below the next one or before it.
found :
    {S C : Type 0} (t : Topic S C) (log : List (ℕ × Batch)) (offset : ℕ)
    → IsLog t log
    → offset < t.next_offset
    → (k : ℕ) × (find_batch (length t.record_batch_offsets) t.record_batch_offsets offset ≡ some k)
found t log offset l below =
    elim (Option-cases (find_batch (length t.record_batch_offsets) t.record_batch_offsets offset)) [
      | inl none_found ↦ absurd (
          nowhere log l.starts (omega (arith, below, l.next)) (
            subst (All (λ o. offset < o)) l.has_offsets
              (find_batch-none t.record_batch_offsets offset none_found)))
      | inr some_found ↦ some_found
    ]
  where
    nowhere :
        (log : List (ℕ × Batch))
        → Starts 0 log
        → offset < count log
        → All (λ o. offset < o) (offsets log)
        → ⊥
    nowhere [] h below later = omega (arith, below)
    nowhere (e ∷ log) h below later = omega (arith, h.0, later.0)

module _ {S H C G : Type 0} (cfg : Config S H C G) (I : Topic S C → Type 0) (ctx : ℕ → Option Error)
    (endless : (k : ℕ) → ctx k ≡ none) (max : ℕ) (fits : asked max < 2 ^ 32) (b : Batch)
    (ws : IsWf b.sizes) (wd : IsWf b.records_data) where
  abbrev limits : Limits
  limits = record { max_records = max_or_default cfg (pos max); soft_max_bytes = none; ctx = ctx }

  limits-asked : limits.max_records ≡ pos (asked max)
  limits-asked = max_or_default-asked cfg max

  abbrev start : ℕ → Reading
  start i = record {
    batch = b;
    record_batch_bytes = 0;
    batch_record_index = i;
    first_record = true;
  }

  -- The records that a call reads, from index `i` of the batches on.
  abbrev pub wanted : ℕ → List (ℕ × Batch) → Records
  wanted i log = records_from i (asked max - batch_len b) (all_records (batches log))

  -- The buffer has room for records.
  abbrev pub HasRoom : Records → Type 0
  HasRoom rs =
      (length rs.0 ≤ cap b.sizes - b.sizes.len)
      × (length rs.1 ≤ cap b.records_data - b.records_data.len)

  loop_from :
      (i : ℕ) (t : Topic S C) (log : List (ℕ × Batch))
      → All (λ e. IsStored e.1) log
      → All (λ e. Serves cfg I e.0 e.1) log
      → I t
      → Within i (batches log)
      → HasRoom (wanted i log)
      → Ends cfg I limits
          (asked max)
          limits-asked
          fits
          endless
          (start i)
          (wanted i log)
          (read_loop cfg limits 0 (offsets log) (start i) t)
  loop_from i t log st sv inv within room =
      subst
        (λ rs.
          HasRoom rs
          → Ends cfg I limits (asked max) limits-asked fits endless (start i) rs
              (read_loop cfg limits 0 (offsets log) (start i) t))
        (taken-none (asked max) (batches log) (batch_len b) 0 i true (All_batches log st) within)
        (λ room'.
          read_loop-takes cfg I limits (asked max) limits-asked fits endless 0 log (start i) t st sv
            inv (Within-Inside i log st within) ws wd room'.0 room'.1)
        room

  runs :
      (offset : ℕ) (t : Topic S C) (k o : ℕ) (log : List (ℕ × Batch))
      → offset < t.next_offset
      → find_batch (length t.record_batch_offsets) t.record_batch_offsets offset ≡ some k
      → get_elem? t.record_batch_offsets k ≡ some o
      → drop k t.record_batch_offsets ≡ offsets (drop k log)
      → o ≤ offset
      → offset - o < 2 ^ 32
      → read_records cfg ctx b offset (pos max) (pos 0) t
        ≡ batch_of cfg (read_loop cfg limits 0 (offsets (drop k log)) (start (offset - o)) t)
  unfolding read_records
  runs offset t k o log below at has dropped early index_fits =
      rw (not_beyond, at, has, dropped, index) refl
    where
      not_beyond : leb t.next_offset offset ≡ false
      not_beyond = ground arith

      index : (offset - o) % 2 ^ 32 ≡ offset - o
      index = omega (arith, index_fits)

  -- Let the topic stand for a log: its offsets are those of the log's batches, which follow one
  -- another from 0 on, are valid and have records, and its next offset is their number of records.
  -- Let every file be served, the context not end, the limit of records be below 2^32 and the buffer
  -- have room. Then ReadRecords without a limit of bytes, from an offset below the next one, returns
  -- no error and fills the buffer with the log's records from the offset on, as many as there are up
  -- to the limit (10 for 0) less those that the buffer has.
  pub read_records-records_from :
      (offset : ℕ) (t : Topic S C) (log : List (ℕ × Batch))
      → IsLog t log
      → All (λ e. Serves cfg I e.0 e.1) log
      → I t
      → offset < t.next_offset
      → HasRoom (wanted offset log)
      → (t' : Topic S C) × (out : Batch) × (read_records cfg ctx b offset (pos max) (pos 0) t
          ≡ (t', out, ok tt))
        × I t'
        × Grows b (wanted offset log).0 (wanted offset log).1 out
  read_records-records_from offset t log l sv inv below room =
      let (k, at) = found t log offset l below in
      let ((o, has, early), later) = find_batch_lem t.record_batch_offsets offset k at in
      let (dropped, within, index_fits, same) =
        located log 0 k offset o l.starts l.stored (omega (arith, below, l.next))
          (subst (λ os. get_elem? os k ≡ some o) l.has_offsets has) early
          (subst (λ os. All (λ o. offset < o) (drop (suc k) os)) l.has_offsets later) in
      let reads : wanted (offset - o) (drop k log) ≡ wanted offset log =
        same (asked max - batch_len b)
        ∙ ap (λ i. wanted i log) {x = offset - 0} {y = offset} (omega arith) in
      let (t', r', e, inv', g) =
        loop_from (offset - o) t (drop k log) (All-drop _ k log l.stored) (All-drop _ k log sv) inv
          within (subst HasRoom (sym reads) room) in
      (
        t',
        r'.batch,
        runs offset t k o log below at has (ap (drop k) l.has_offsets ∙ dropped) early index_fits
            ∙ ap (batch_of cfg) e,
        inv',
        subst (λ rs. Grows b rs.0 rs.1 r'.batch) reads g,
      )
