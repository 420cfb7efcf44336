-- ===== src/Topic/Log/Locate.antt =====
-- Where the search of ReadRecords for an offset ends in a log: the batch that has the offset.
use simple_commit_log.Base.{
  ℕ, zero, suc, ◌+◌, ◌-◌, ◌^◌, ◌≤◌, ◌<◌, ◌≡◌, refl, sym, ap, ap₂, ◌∙◌, List, [], ◌∷◌, ◌++◌, map,
  length, take, drop, total, get_elem?, some, All, arith, drop-append, take-append, take_add,
  drop-drop, total-append,
}
use simple_commit_log.Slice.{items}
use simple_commit_log.Records.Batch.{Batch, IsBatch, batch_len}
use simple_commit_log.Topic.Log.{IsStored, Records, ◌⊕◌}
use simple_commit_log.Topic.Log.Taken.{all_records, records_from, Within, ls, ld}
use mathlib.Core.Option.{some_inj}

-- Each batch begins where the one in front of it ends.
abbrev pub Starts : ℕ → List (ℕ × Batch) → Type 0
Starts s [] = Unit
Starts s (e ∷ log) = (e.0 ≡ s) × Starts (s + batch_len e.1) log

-- The number of records.
abbrev pub count : List (ℕ × Batch) → ℕ
count [] = 0
count (e ∷ log) = batch_len e.1 + count log

abbrev pub batches : List (ℕ × Batch) → List Batch
batches log = map (λ e. e.1) log

abbrev pub offsets : List (ℕ × Batch) → List ℕ
offsets log = map (λ e. e.0) log

-- The records behind the first batch.
pub records_from-skip :
    (b : Batch) (v : IsBatch b) (rs : Records) (j n : ℕ)
    → records_from (batch_len b + j) n ((items b.sizes, items b.records_data) ⊕ rs)
      ≡ records_from j n rs
records_from-skip b v rs j n = ap₂ (λ x y. (take n x, take (total (take n x)) y)) sizes bytes
  where
    counted : length (items b.sizes) ≡ batch_len b
    counted = ls b v rs 0 (omega arith)

    sizes : drop (batch_len b + j) (items b.sizes ++ rs.0) ≡ drop j rs.0
    sizes =
        sym (drop-drop j (batch_len b) (items b.sizes ++ rs.0))
        ∙ ap (drop j) (drop-append (items b.sizes) rs.0 (batch_len b) counted)

    front :
        total (take (batch_len b + j) (items b.sizes ++ rs.0))
        ≡ length (items b.records_data) + total (take j rs.0)
    front =
        ap total (
          take_add (batch_len b) j (items b.sizes ++ rs.0)
          ∙ ap₂ ◌++◌ (take-append (items b.sizes) rs.0 (batch_len b) counted)
              (ap (take j) (drop-append (items b.sizes) rs.0 (batch_len b) counted)))
        ∙ total-append (items b.sizes) (take j rs.0)
        ∙ ap (λ k. k + total (take j rs.0)) (sym (ld b v rs 0 (omega arith)))

    bytes :
        drop (total (take (batch_len b + j) (items b.sizes ++ rs.0))) (items b.records_data ++ rs.1)
        ≡ drop (total (take j rs.0)) rs.1
    bytes =
        ap (λ k. drop k (items b.records_data ++ rs.1)) front
        ∙ sym (
            drop-drop (total (take j rs.0)) (length (items b.records_data))
              (items b.records_data ++ rs.1))
        ∙ ap (drop (total (take j rs.0)))
            (drop-append (items b.records_data) rs.1 (length (items b.records_data)) refl)

-- A batch behind the first begins behind the records of the first.
Starts-le :
    (log : List (ℕ × Batch)) (s k o : ℕ) → Starts s log → get_elem? (offsets log) k ≡ some o → s ≤ o
Starts-le [] s k o h at = absurd (cc at)
Starts-le (e ∷ log) s zero o h at = omega (arith, h.0, some_inj.0 at)
Starts-le (e ∷ log) s (suc k) o h at = omega (arith, Starts-le log (s + batch_len e.1) k o h.1 at)

-- The last batch that begins at the offset or before it has the offset.
inside :
    (log : List (ℕ × Batch)) (s offset len : ℕ)
    → Starts (s + len) log
    → offset < s + (len + count log)
    → All (λ o. offset < o) (offsets log)
    → offset < s + len
inside [] s offset len h below later = omega (arith, below)
inside (e ∷ log) s offset len h below later = omega (arith, later.0, h.0)

-- The batch that the search found, and the records from the offset on.
pub located :
    (log : List (ℕ × Batch)) (s k offset o : ℕ)
    → Starts s log
    → All (λ e. IsStored e.1) log
    → offset < s + count log
    → get_elem? (offsets log) k ≡ some o
    → o ≤ offset
    → All (λ o. offset < o) (drop (suc k) (offsets log))
    → (drop k (offsets log) ≡ offsets (drop k log))
      × Within (offset - o) (batches (drop k log))
      × (offset - o < 2 ^ 32)
      × ((n : ℕ)
          → records_from (offset - o) n (all_records (batches (drop k log)))
            ≡ records_from (offset - s) n (all_records (batches log)))
located [] s k offset o h st below at early later = absurd (cc at)
located (e ∷ log) s zero offset o h st below at early later =
    let within = inside log s offset (batch_len e.1) h.1 below later in
    (
      refl,
      omega (arith, within, h.0, some_inj.0 at, early),
      omega (arith, within, h.0, some_inj.0 at, early, st.0.records_fit),
      λ n.
          ap (λ k. records_from k n (all_records (batches (e ∷ log)))) {x = offset - o}
            {y = offset - s} (omega (arith, h.0, some_inj.0 at)),
    )
located (e ∷ log) s (suc k) offset o h st below at early later =
    let behind = Starts-le log (s + batch_len e.1) k o h.1 at in
    let (dropped, within, fits, same) =
      located log (s + batch_len e.1) k offset o h.1 st.1 (omega (arith, below)) at early later in
    (
      dropped,
      within,
      fits,
      λ n.
          same n
          ∙ sym (
              records_from-skip e.1 st.0.valid (all_records (batches log))
                (offset - (s + batch_len e.1)) n)
          ∙ ap (λ k. records_from k n (all_records (batches (e ∷ log))))
              {x = batch_len e.1 + (offset - (s + batch_len e.1))} {y = offset - s}
              (omega (arith, behind, early)),
    )
