-- ===== src/Records/Batch.antt =====
-- internal/sebrecords/batch.go: a batch of records, kept as the records' sizes and their bytes in
-- one run. A uint32 and a byte are plain numbers; wrap-around is written out.
pub mod Split
use simple_commit_log.Base.{
  ℕ, zero, suc, ◌+◌, ◌-◌, ◌%◌, ◌^◌, ◌<◌, ◌≡◌, List, [], ◌∷◌, drop, total, ◌==◌, ◌||◌, if◌then◌else◌,
}
use simple_commit_log.Base.Int.{ℤ, pos, negsuc, ltb_ℤ, leb_ℤ}
use simple_commit_log.Errors.{Result, ok, err, panic, out_of_bounds, bad_input, ◌>>=◌}
use simple_commit_log.Helpy.{Slicey}
use simple_commit_log.Slice.{Slice, items, IsWf, reslice}

pub record Batch : Type 0 where
  pub sizes : Slice ℕ
  pub records_data : Slice ℕ

-- `NewBatch`
unfoldable pub new_batch : Slice ℕ → Slice ℕ → Batch
new_batch record_sizes records_data = record { sizes = record_sizes; records_data = records_data }

-- `Len`
abbrev pub batch_len : Batch → ℕ
batch_len b = b.sizes.len

-- `Reset`: the lengths become 0, the buffers stay.
unfoldable pub reset : Batch → Batch
reset b = record b {
  sizes = record (b.sizes) { len = 0 };
  records_data = record (b.records_data) { len = 0 };
}

-- The sizes add up to the bytes, in numbers that fit a uint32.
pub record IsBatch (b : Batch) : Type 0 where
  pub sizes_wf : IsWf b.sizes
  pub data_wf : IsWf b.records_data
  pub sums : total (items b.sizes) ≡ b.records_data.len
  pub fits : b.records_data.len < 2 ^ 32

module _ (slicey : Slicey) where
  -- The rest of `Records` behind its checks; `i` and `j` are the indexes, no longer negative.
  unfoldable pub records_between : Batch → ℕ → ℕ → Result (Slice ℕ)
  records_between b i j = do
    before ← reslice b.sizes 0 i
    let start_byte = slicey.sum (items before)
    wanted ← reslice b.sizes i j
    let end_byte = (start_byte + slicey.sum (items wanted)) % 2 ^ 32
    reslice b.records_data start_byte end_byte

  -- `Records`: the bytes of the records from `start_index` up to `end_index`. A negative start
  -- index passes the checks, and the slice expression `b.Sizes[:startIndex]` panics.
  unfoldable pub records : Batch → ℤ → ℤ → Result (Slice ℕ)
  records b start_index end_index =
      if leb_ℤ (pos (batch_len b)) start_index || ltb_ℤ (pos (batch_len b)) end_index
      then err out_of_bounds
      else if leb_ℤ end_index start_index
      then err bad_input
      else elim start_index [
        | negsuc _ ↦ panic
        | pos i ↦ elim end_index [ negsuc _ ↦ panic | pos j ↦ records_between b i j ]
      ]

-- The loop of `IndividualRecordsSubset`: the first list holds the sizes from index `startIndex+i`
-- on, the number counts the rounds that are left. An index past the sizes panics.
unfoldable pub split_loop : Slice ℕ → List ℕ → ℕ → ℕ → Result (List (Slice ℕ))
split_loop records_data sizes zero bytes_used = ok []
split_loop records_data [] (suc rounds) bytes_used = panic
split_loop records_data (size ∷ sizes) (suc rounds) bytes_used = do
  let next = (bytes_used + size) % 2 ^ 32
  single ← reslice records_data bytes_used next
  rest ← split_loop records_data sizes rounds next
  ok (single ∷ rest)

-- An error where none is expected panics.
abbrev must : Result (List (Slice ℕ)) → Result (List (Slice ℕ))
must (ok rs) = ok rs
must (err e) = panic
must panic = panic

module _ (slicey : Slicey) where
  -- `IndividualRecordsSubset`
  unfoldable pub individual_records_subset : Batch → ℕ → ℕ → Result (List (Slice ℕ))
  individual_records_subset b start_index end_index = do
    records_data ← records slicey b (pos start_index) (pos end_index)
    split_loop records_data (drop start_index (items b.sizes)) (end_index - start_index) 0

  -- `IndividualRecords`
  unfoldable pub individual_records : Batch → Result (List (Slice ℕ))
  individual_records b =
      if batch_len b == 0 then ok [] else must (individual_records_subset b 0 (batch_len b))
