-- ===== src/Topic/Log/Round.antt =====
-- One round of the loop of ReadRecords.
use simple_commit_log.Base.{
  ℕ, ◌+◌, ◌-◌, ◌%◌, ◌^◌, ◌≤◌, ◌<◌, ◌≡◌, refl, List, [], ◌∷◌, length, take, drop, total, Bool, true,
  false, ◌||◌, Option, none, some, ltb, ◌==◌, min, arith, length-take, length-drop, total-take-drop,
}
use simple_commit_log.Base.Int.{pos}
use simple_commit_log.Errors.{ok}
use simple_commit_log.Slice.{cap, items, IsWf}
use simple_commit_log.Slice.Laws.{length-items}
use simple_commit_log.Records.Batch.{Batch, IsBatch, batch_len}
use simple_commit_log.Records.Batch.Split.{between, total-between}
use simple_commit_log.Records.File.{header_of}
use simple_commit_log.Records.File.RoundTrip.{parsed, file_of}
use simple_commit_log.Records.File.Reads.{Grows, read_records-Grows}
use simple_commit_log.Topic.Read.{
  select_records, num_records, Reading, Limits, read_round, read_chosen,
}
use simple_commit_log.Topic.Log.{IsStored, part, most_of, chosen}

select_records-le :
    (soft : ℕ) (sizes : List ℕ) (bytes : ℕ) (first : Bool)
    → (select_records soft sizes bytes first).0 ≤ length sizes
unfolding select_records
select_records-le soft [] bytes first = omega arith
select_records-le soft (size ∷ sizes) bytes first =
    ground (arith, select_records-le soft sizes ((bytes + size) % 2 ^ 32) false)

num_records-le :
    (soft : Option ℕ) (sizes : List ℕ) (most bytes : ℕ) (first : Bool)
    → length sizes ≤ most
    → (num_records soft sizes most bytes first).0 ≤ most
unfolding num_records
num_records-le none sizes most bytes first h = omega arith
num_records-le (some soft) sizes most bytes first h =
    omega (arith, h, select_records-le soft sizes bytes first)

pub length-part :
    (b : Batch) (v : IsBatch b) (i j : ℕ)
    → i ≤ j
    → j ≤ batch_len b
    → (length (part b i j).1 ≡ total (between (items b.sizes) i j))
      × (length (part b i j).0 ≡ j - i)
length-part b v i j h k = omega (
  arith,
  total-between i j (items b.sizes) h,
  total-take-drop j (items b.sizes),
  v.sums,
  length-take (total (take j (items b.sizes)) - total (take i (items b.sizes)))
      (drop (total (take i (items b.sizes))) (items b.records_data)),
  length-drop (total (take i (items b.sizes))) (items b.records_data),
  length-items b.records_data v.data_wf,
  length-take (j - i) (drop i (items b.sizes)),
  length-drop i (items b.sizes),
  length-items b.sizes v.sizes_wf,
)

out_of_range :
    (len m i : ℕ)
    → i + m ≤ len
    → len < 2 ^ 32
    → (ltb len ((i + m) % 2 ^ 32) || ltb ((i + m) % 2 ^ 32) i) ≡ false
out_of_range len m i h fits = ground arith

module _ (lim : Limits) (most : ℕ) (limit : lim.max_records ≡ pos most) (most_fits : most < 2 ^ 32)
    (now : ℕ) (b : Batch) (stored : IsStored b) (v : IsBatch b)
    (records_fit : batch_len b + 1 < 2 ^ 32) (time_fits : now < 2 ^ 64) (r : Reading)
    (more : batch_len r.batch < most) (inside : r.batch_record_index ≤ batch_len b) where
  abbrev pub m : ℕ
  m = most_of most (batch_len r.batch) r.batch_record_index b

  abbrev pub n : ℕ × ℕ × Bool
  n =
      chosen lim.soft_max_bytes most (batch_len r.batch) r.record_batch_bytes r.first_record
        r.batch_record_index b

  pub n-le : n.0 ≤ m
  n-le = num_records-le lim.soft_max_bytes _ _ _ _ (
      omega (
        arith,
        length-take (most_of most (batch_len r.batch) r.batch_record_index b)
            (drop r.batch_record_index (items b.sizes)),
      ))

  pub in_range : (m ≤ most - batch_len r.batch) × (r.batch_record_index + m ≤ batch_len b)
  in_range = omega (arith, length-items b.sizes v.sizes_wf)

  -- The round, with the numbers as they are without an overflow.
  pub round_lem :
      read_round lim (parsed now b v records_fit time_fits) r
      ≡ read_chosen (parsed now b v records_fit time_fits) r n
  unfolding read_round
  round_lem = rw (limit, most_lem) (rw (inside_lem) refl)
    where
      most_lem :
          min
            ((most - batch_len r.batch) % 2 ^ 32)
            (((header_of now b).num_records + 2 ^ 32 - r.batch_record_index) % 2 ^ 32)
          ≡ most_of most (batch_len r.batch) r.batch_record_index b
      most_lem = unfold header_of in omega (arith, length-items b.sizes v.sizes_wf)

      inside_lem :
          (ltb (length (items b.sizes)) (
              (r.batch_record_index + most_of most (batch_len r.batch) r.batch_record_index b)
              % 2 ^ 32)
            || ltb
                ((r.batch_record_index + most_of most (batch_len r.batch) r.batch_record_index b)
                  % 2 ^ 32)
                r.batch_record_index)
          ≡ false
      inside_lem =
          out_of_range (length (items b.sizes)) m r.batch_record_index
            (omega (arith, length-items b.sizes v.sizes_wf, in_range))
            (omega (arith, length-items b.sizes v.sizes_wf))

  -- Where it reads records, the round goes on with the batch grown by them.
  pub read_chosen-Grows :
      0 < n.0
      → IsWf r.batch.sizes
      → IsWf r.batch.records_data
      → n.0 ≤ cap r.batch.sizes - r.batch.sizes.len
      → length (part b r.batch_record_index (r.batch_record_index + n.0)).1
        ≤ cap r.batch.records_data - r.batch.records_data.len
      → (out : Batch) × (read_chosen (parsed now b v records_fit time_fits) r n ≡ (
        record {
          batch = out;
          record_batch_bytes = n.1;
          batch_record_index = 0;
          first_record = n.2;
        },
        ok true,
      ))
        × Grows r.batch
            (part b r.batch_record_index (r.batch_record_index + n.0)).0
            (part b r.batch_record_index (r.batch_record_index + n.0)).1
            out
  read_chosen-Grows chose ws wd rs rd =
      let i = r.batch_record_index in
      let (q, out, e, g) =
        read_records-Grows now b v records_fit time_fits stored.file_fits i (i + n.0)
          (omega (arith, chose)) (omega (arith, n-le, in_range)) (length (file_of now b)) r.batch ws
          wd (omega (arith, rs))
          (omega (
            arith,
            rd,
            length-part b v i (i + n.0) (omega arith) (omega (arith, n-le, in_range)),
          )) in
      (out, rw (chose_some n.0 chose, no_wrap, e) refl, g)
    where
      chose_some : (k : ℕ) → 0 < k → (k == 0) ≡ false
      chose_some k h = ground arith

      no_wrap : (r.batch_record_index + n.0) % 2 ^ 32 ≡ r.batch_record_index + n.0
      no_wrap = omega (arith, n-le, in_range)
