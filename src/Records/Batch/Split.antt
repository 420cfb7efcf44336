-- ===== src/Records/Batch/Split.antt =====
-- What `Records` and `IndividualRecords` return on a batch whose sizes add up.
use simple_commit_log.Base.{
  ℕ, zero, suc, ◌↔◌, ◌⊎◌, inl, inr, Bool-cases, ◌==◌, ◌+◌, ◌-◌, ◌%◌, ◌^◌, ◌≤◌, ◌<◌, ◌≡◌, refl, sym,
  ap, ◌∙◌, List, [], ◌∷◌, ◌++◌, map, length, take, drop, total, arith, drop-drop, length-take,
  length-drop, take-all, take_add, total-take-drop, total-append,
}
use simple_commit_log.Base.Int.{ℤ, pos, negsuc, ◌≤ℤ◌, ◌<ℤ◌}
use simple_commit_log.Errors.{ok, err, panic, out_of_bounds, bad_input}
use simple_commit_log.Helpy.{Slicey}
use simple_commit_log.Slice.{Slice, items, IsWf}
use simple_commit_log.Slice.Laws.{reslice_lem, reslice-items, length-items}
use simple_commit_log.Records.Batch.{
  Batch, IsBatch, batch_len, records_between, records, split_loop, individual_records_subset,
  individual_records,
}
use mathlib.Core.List.{flatten}
use mathlib.Core.Path.{ap₂}

-- The elements from position `i` up to position `j`.
abbrev pub between {ℓ} : {A : Type ℓ} → List A → ℕ → ℕ → List A
between xs i j = take (j - i) (drop i xs)

-- The sizes of the records in front of the two indexes.
pub total-between :
    (i j : ℕ) (xs : List ℕ) → i ≤ j → total (take i xs) + total (between xs i j) ≡ total (take j xs)
total-between i j xs h =
    sym (total-append (take i xs) (between xs i j))
    ∙ ap total (sym (take_add i (j - i) xs))
    ∙ ap (λ k. total (take k xs)) (omega arith)

records_in_range :
    (slicey : Slicey) (b : Batch) (i j : ℕ)
    → i < j
    → j ≤ batch_len b
    → records slicey b (pos i) (pos j) ≡ records_between slicey b i j
unfolding records
records_in_range slicey b i j p q = ground arith

module _ (b : Batch) (i j : ℕ) where
  from : ℕ
  from = total (take i (items b.sizes))

  to : ℕ
  to = total (take j (items b.sizes))

  -- The slice that `Records` returns.
  cut : Slice ℕ
  unfolding from to
  cut = record { array = drop from b.records_data.array; len = to - from }

module _ (slicey : Slicey) (b : Batch) (v : IsBatch b) (i j : ℕ) (p : i < j)
    (q : j ≤ batch_len b) where
  sum_before : slicey.sum (take (i - 0) b.sizes.array) ≡ total (take i (items b.sizes))
  sum_before =
      slicey.sum_lem _
      ∙ ap (λ xs. total xs % 2 ^ 32) (reslice-items b.sizes 0 i (omega arith) (omega arith))
      ∙ omega (
        arith,
        ap (λ (k : ℕ). total (take k (items b.sizes))) i_less_zero,
        total-take-drop i (items b.sizes),
        v.sums,
        v.fits,
      )
    where
      i_less_zero : i - 0 ≡ i
      i_less_zero = omega arith

  sum_wanted :
      slicey.sum (take (j - i) (drop i b.sizes.array)) ≡ total (between (items b.sizes) i j)
  sum_wanted =
      slicey.sum_lem _
      ∙ ap (λ xs. total xs % 2 ^ 32) (reslice-items b.sizes i j (omega arith) q)
      ∙ omega (
        arith,
        total-between i j (items b.sizes) (omega arith),
        total-take-drop j (items b.sizes),
        v.sums,
        v.fits,
      )

  cut_bounds :
      ((from b i j) + total (between (items b.sizes) i j) ≡ (to b i j))
      × ((to b i j) ≤ b.records_data.len)
  unfolding from to
  cut_bounds = (
    total-between i j (items b.sizes) (omega arith),
    omega (arith, total-take-drop j (items b.sizes), v.sums),
  )

  records_between-cut : records_between slicey b i j ≡ ok (cut b i j)
  unfolding records_between cut
  records_between-cut = rw (reslice_lem b.sizes 0 i (omega arith) (omega (arith, v.sizes_wf))) (
      rw (reslice_lem b.sizes i j (omega arith) (omega (arith, v.sizes_wf))) (
        rw (sum_before, sum_wanted, no_wrap)
          (reslice_lem b.records_data (from b i j) (to b i j) (omega (arith, cut_bounds))
            (omega (arith, cut_bounds, v.data_wf)))))
    where
      no_wrap : ((from b i j) + total (between (items b.sizes) i j)) % 2 ^ 32 ≡ (to b i j)
      no_wrap = omega (arith, cut_bounds, v.fits)

  records-cut : records slicey b (pos i) (pos j) ≡ ok (cut b i j)
  records-cut = records_in_range slicey b i j p q ∙ records_between-cut

  cut-IsWf :
      IsWf (cut b i j)
      × ((cut b i j).len ≡ total (between (items b.sizes) i j))
      × ((cut b i j).len < 2 ^ 32)
  unfolding cut
  cut-IsWf = (
    omega (arith, cut_bounds, v.data_wf, length-drop (from b i j) b.records_data.array),
    omega (arith, cut_bounds),
    omega (arith, cut_bounds, v.fits),
  )

  items-cut :
      items (cut b i j)
      ≡ between
          (items b.records_data)
          (total (take i (items b.sizes)))
          (total (take j (items b.sizes)))
  unfolding cut
  items-cut =
      reslice-items b.records_data (from b i j) (to b i j) (omega (arith, cut_bounds))
        (omega (arith, cut_bounds))

  -- On a valid batch `Records` at two indexes in range returns the bytes between the sums of the
  -- sizes in front of the indexes.
  pub records_lem :
      (s : Slice ℕ) × (records slicey b (pos i) (pos j) ≡ ok s)
      × (items s
          ≡ between
              (items b.records_data)
              (total (take i (items b.sizes)))
              (total (take j (items b.sizes))))
  records_lem = ((cut b i j), records-cut, items-cut)

-- The slices that the loop cuts off, with nothing that can fail.
pieces : Slice ℕ → List ℕ → ℕ → ℕ → List (Slice ℕ)
pieces d ns zero used = []
pieces d [] (suc k) used = []
pieces d (n ∷ ns) (suc k) used =
    record { array = drop used d.array; len = used + n - used } ∷ pieces d ns k (used + n)

module _ (d : Slice ℕ) (wf : IsWf d) (fits : d.len < 2 ^ 32) where
  split_loop-pieces :
      (ns : List ℕ) (k used : ℕ)
      → k ≤ length ns
      → used + total (take k ns) ≤ d.len
      → split_loop d ns k used ≡ ok (pieces d ns k used)
  unfolding split_loop pieces
  split_loop-pieces ns zero used h f = refl
  split_loop-pieces [] (suc k) used h f = absurd (omega arith)
  split_loop-pieces (n ∷ ns) (suc k) used h f =
      let no_wrap : (used + n) % 2 ^ 32 ≡ used + n = omega arith in
      rw (no_wrap, reslice_lem d used (used + n) (omega arith) (omega arith))
        (rw (split_loop-pieces ns k (used + n) (omega arith) (omega arith)))

  pieces-sizes :
      (ns : List ℕ) (k used : ℕ)
      → used + total (take k ns) ≤ d.len
      → map (λ r. length (items r)) (pieces d ns k used) ≡ take k ns
  unfolding pieces
  pieces-sizes ns zero used f = refl
  pieces-sizes [] (suc k) used f = refl
  pieces-sizes (n ∷ ns) (suc k) used f =
      ap₂ ◌∷◌
        (omega (arith, length-take (used + n - used) (drop used d.array), length-drop used d.array))
        (pieces-sizes ns k (used + n) (omega arith))

  pieces-flatten :
      (ns : List ℕ) (k used : ℕ)
      → used + total (take k ns) ≤ d.len
      → flatten (map items (pieces d ns k used)) ≡ take (total (take k ns)) (drop used (items d))
  unfolding pieces flatten
  pieces-flatten ns zero used f = refl
  pieces-flatten [] (suc k) used f = refl
  pieces-flatten (n ∷ ns) (suc k) used f =
      ap₂ ◌++◌ (reslice-items d used (used + n) (omega arith) (omega arith))
        (pieces-flatten ns k (used + n) (omega arith))
      ∙ ap₂ ◌++◌ (ap (λ m. take m (drop used (items d))) (omega arith))
          (ap (take (total (take k ns))) (sym (drop-drop n used (items d))))
      ∙ sym (take_add n (total (take k ns)) (drop used (items d)))

module _ (slicey : Slicey) (b : Batch) (v : IsBatch b) where
  -- On a valid batch `IndividualRecordsSubset` at two indexes in range returns records with the
  -- batch's sizes between the indexes, which put together are the bytes between the sums of the
  -- sizes in front of the indexes.
  pub individual_records_subset_lem :
      (i j : ℕ)
      → i < j
      → j ≤ batch_len b
      → (rs : List (Slice ℕ)) × (individual_records_subset slicey b i j ≡ ok rs)
        × (map (λ r. length (items r)) rs ≡ between (items b.sizes) i j)
        × (flatten (map items rs)
            ≡ between
                (items b.records_data)
                (total (take i (items b.sizes)))
                (total (take j (items b.sizes))))
  unfolding individual_records_subset
  individual_records_subset_lem i j p q = (
    pieces d ns (j - i) 0,
    rw (records-cut slicey b v i j p q) (split_loop-pieces d wf.0 wf.2 ns (j - i) 0 enough fit),
    pieces-sizes d wf.0 wf.2 ns (j - i) 0 fit,
    pieces-flatten d wf.0 wf.2 ns (j - i) 0 fit
        ∙ take-all (total (take (j - i) ns)) (items d) (omega (arith, length-items d wf.0, wf))
        ∙ items-cut slicey b v i j p q,
  )
    where
      d : Slice ℕ
      d = cut b i j

      wf : IsWf d × (d.len ≡ total (between (items b.sizes) i j)) × (d.len < 2 ^ 32)
      wf = cut-IsWf slicey b v i j p q

      ns : List ℕ
      ns = drop i (items b.sizes)

      enough : j - i ≤ length ns
      enough = omega (arith, length-drop i (items b.sizes), length-items b.sizes v.sizes_wf)

      fit : 0 + total (take (j - i) ns) ≤ d.len
      fit = omega (arith, wf)

  individual_records_some :
      0 < batch_len b
      → (rs : List (Slice ℕ)) × (individual_records slicey b ≡ ok rs)
        × (map (λ r. length (items r)) rs ≡ items b.sizes)
        × (flatten (map items rs) ≡ items b.records_data)
  unfolding individual_records
  individual_records_some h =
      let n = batch_len b in
      let (rs, e, sizes, bytes) = individual_records_subset_lem 0 n h (omega arith) in
      (rs, ground (arith, e), ground (arith, sizes, ns), ground (arith, bytes, ds))
    where
      whole : {xs : List ℕ} {k : ℕ} → length xs ≡ k → between xs 0 k ≡ xs
      whole {xs} {k} e = take-all (k - 0) xs (omega arith)

      ns : between (items b.sizes) 0 (batch_len b) ≡ items b.sizes
      ns = whole (length-items b.sizes v.sizes_wf)

      ds :
          between
            (items b.records_data)
            (total (take 0 (items b.sizes)))
            (total (take (batch_len b) (items b.sizes)))
          ≡ items b.records_data
      ds = whole (
          length-items b.records_data v.data_wf
          ∙ sym (
              ap total (
                take-all (batch_len b) (items b.sizes)
                  (omega (arith, length-items b.sizes v.sizes_wf)))
              ∙ v.sums))

  individual_records_none :
      batch_len b ≡ 0
      → (rs : List (Slice ℕ)) × (individual_records slicey b ≡ ok rs)
        × (map (λ r. length (items r)) rs ≡ items b.sizes)
        × (flatten (map items rs) ≡ items b.records_data)
  unfolding individual_records flatten
  individual_records_none e = (
    [],
    ground arith,
    rw e,
    sym (empty b.records_data (omega (arith, v.sums, ap total no_sizes))),
  )
    where
      empty : (s : Slice ℕ) → s.len ≡ 0 → items s ≡ []
      empty s h = rw h

      no_sizes : items b.sizes ≡ []
      no_sizes = rw e

  -- On a valid batch `IndividualRecords` succeeds: the records have the batch's sizes in order, and
  -- put together they are the batch's bytes.
  pub individual_records_lem :
      (rs : List (Slice ℕ)) × (individual_records slicey b ≡ ok rs)
      × (map (λ r. length (items r)) rs ≡ items b.sizes)
      × (flatten (map items rs) ≡ items b.records_data)
  individual_records_lem = elim (Bool-cases (batch_len b == 0)) [
    | inl empty ↦ individual_records_none (ground arith)
    | inr some_left ↦ individual_records_some (ground arith)
  ]

  -- On a valid batch `Records` reports `ErrOutOfBounds` exactly if an index is out of range, reports
  -- `ErrBadInput` exactly if the indexes are in range and not in order, and panics exactly if they
  -- are in range and in order and the start index is negative.
  pub records_errors :
      (x y : ℤ)
      → ((records slicey b x y ≡ err out_of_bounds)
          ↔ ((pos (batch_len b) ≤ℤ x) ⊎ (pos (batch_len b) <ℤ y)))
        × ((records slicey b x y ≡ err bad_input)
            ↔ ((x <ℤ pos (batch_len b)) × (y ≤ℤ pos (batch_len b)) × (y ≤ℤ x)))
        × ((records slicey b x y ≡ panic) ↔ ((x <ℤ pos 0) × (x <ℤ y) × (y ≤ℤ pos (batch_len b))))
  unfolding records
  records_errors (pos i) (pos j) = ground (arith, records_between-cut slicey b v i j)
  records_errors (pos i) (negsuc j) = ground arith
  records_errors (negsuc i) (pos j) = ground arith
  records_errors (negsuc i) (negsuc j) = ground arith
