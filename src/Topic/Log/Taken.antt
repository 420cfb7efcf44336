-- ===== src/Topic/Log/Taken.antt =====
-- What the loop of ReadRecords takes of a log, without a limit of bytes: the records from an index
-- on, one after the other. With a limit of bytes it can leave records out.
use simple_commit_log.Base.{
  ℕ, zero, suc, ◌+◌, ◌-◌, ◌≤◌, ◌<◌, ◌≡◌, refl, sym, ap, ap₂, ◌∙◌, inl, inr, List, [], ◌∷◌, ◌++◌,
  length, take, drop, total, Bool, true, false, none, ltb, leb, ◌==◌, min, All, Bool-cases, arith,
  length-drop, drop-append-le, take-append-le, take-all, append-nil, total-take-drop, total-append,
  take_add, take-nil, drop-nil, drop-append, take-append,
}
use simple_commit_log.Slice.{items}
use simple_commit_log.Slice.Laws.{length-items}
use simple_commit_log.Records.Batch.{Batch, IsBatch, batch_len}
use simple_commit_log.Records.Batch.Split.{between, total-between}
use simple_commit_log.Topic.Read.{num_records}
use simple_commit_log.Topic.Log.{IsStored, Records, ◌⊕◌, part, most_of, taken}

-- All records of the batches.
abbrev pub all_records : List Batch → Records
all_records [] = ([], [])
all_records (b ∷ bs) = (items b.sizes, items b.records_data) ⊕ all_records bs

-- `n` records from index `i` on.
abbrev pub records_from : ℕ → ℕ → Records → Records
records_from i n rs =
    (take n (drop i rs.0), take (total (take n (drop i rs.0))) (drop (total (take i rs.0)) rs.1))

take-append_more {ℓ} :
    {A : Type ℓ} (n : ℕ) (xs ys : List A)
    → length xs ≤ n
    → take n (xs ++ ys) ≡ xs ++ take (n - length xs) ys
take-append_more n xs ys h =
    ap (λ k. take k (xs ++ ys)) {x = n} {y = length xs + (n - length xs)} (omega (arith, h))
    ∙ take_add (length xs) (n - length xs) (xs ++ ys)
    ∙ ap₂ ◌++◌ (take-append xs ys (length xs) refl)
        (ap (take (n - length xs)) (drop-append xs ys (length xs) refl))

module _ (b : Batch) (v : IsBatch b) (rs : Records) (i : ℕ) (inside : i ≤ batch_len b) where
  pub ls : length (items b.sizes) ≡ batch_len b
  ls = length-items b.sizes v.sizes_wf

  pub ld : length (items b.records_data) ≡ total (items b.sizes)
  ld = length-items b.records_data v.data_wf ∙ sym v.sums

  abbrev together : Records
  together = (items b.sizes, items b.records_data) ⊕ rs

  drop_sizes : drop i together.0 ≡ drop i (items b.sizes) ++ rs.0
  drop_sizes = drop-append-le i (items b.sizes) rs.0 (omega (arith, ls, inside))

  front : total (take i together.0) ≡ total (take i (items b.sizes))
  front = ap total (take-append-le i (items b.sizes) rs.0 (omega (arith, ls, inside)))

  drop_bytes :
      drop (total (take i together.0)) together.1
      ≡ drop (total (take i (items b.sizes))) (items b.records_data) ++ rs.1
  drop_bytes =
      ap (λ k. drop k together.1) front
      ∙ drop-append-le (total (take i (items b.sizes))) (items b.records_data) rs.1
          (omega (arith, ld, total-take-drop i (items b.sizes)))

  abbrev S : List ℕ
  S = items b.sizes

  abbrev D : List ℕ
  D = items b.records_data

  -- The bytes in front of index `j`.
  abbrev at : ℕ → ℕ
  at j = total (take j S)

  first_sizes : (n : ℕ) → i + n ≤ batch_len b → take n (drop i together.0) ≡ between S i (i + n)
  first_sizes n h =
      ap (take n) drop_sizes
      ∙ take-append-le n (drop i S) rs.0 (omega (arith, h, ls, length-drop i S))
      ∙ ap (λ k. take k (drop i S)) {x = n} {y = i + n - i} (omega arith)

  -- Where the first batch has all that is asked for.
  pub records_from-first :
      (n : ℕ) → i + n ≤ batch_len b → records_from i n together ≡ part b i (i + n)
  records_from-first n h =
      ap₂ (λ x y. (x, y)) (first_sizes n h)
        (ap₂ take {x = total (take n (drop i together.0))} {y = at (i + n) - at i}
            (ap total (first_sizes n h) ∙ omega (arith, total-between i (i + n) S (omega arith)))
            drop_bytes
          ∙ take-append-le (at (i + n) - at i) (drop (at i) D) rs.1
              (omega (arith, ld, length-drop (at i) D, total-take-drop (i + n) S)))

  abbrev rest_sizes : ℕ → List ℕ
  rest_sizes n = take (i + n - batch_len b) (drop 0 rs.0)

  all_left : between S i (batch_len b) ≡ drop i S
  all_left = take-all (batch_len b - i) (drop i S) (omega (arith, ls, length-drop i S))

  rest_taken :
      (n : ℕ)
      → batch_len b ≤ i + n
      → take n (drop i together.0) ≡ between S i (batch_len b) ++ rest_sizes n
  rest_taken n h =
      ap (take n) drop_sizes
      ∙ take-append_more n (drop i S) rs.0 (omega (arith, h, ls, length-drop i S))
      ∙ ap₂ ◌++◌ (sym all_left) (
          ap (λ k. take k rs.0) {x = n - length (drop i S)} {y = i + n - batch_len b}
            (omega (arith, h, inside, ls, length-drop i S)))

  -- The bytes of all records of the first batch, and those behind index `i`.
  all_bytes : at (batch_len b) ≡ total S
  all_bytes = ap total (take-all (batch_len b) S (omega (arith, ls)))

  bytes_left : between D (at i) (at (batch_len b)) ≡ drop (at i) D
  bytes_left =
      take-all (at (batch_len b) - at i) (drop (at i) D)
        (omega (arith, all_bytes, ld, length-drop (at i) D))

  rest_total :
      (n : ℕ)
      → batch_len b ≤ i + n
      → total (take n (drop i together.0)) ≡ length (drop (at i) D) + total (rest_sizes n)
  rest_total n h =
      ap total (rest_taken n h)
      ∙ total-append (between S i (batch_len b)) (rest_sizes n)
      ∙ omega (arith, all_bytes, ld, length-drop (at i) D, total-between i (batch_len b) S inside)

  -- Where it has less, the rest is from the front of the others.
  pub records_from-rest :
      (n : ℕ)
      → batch_len b ≤ i + n
      → records_from i n together ≡ part b i (batch_len b) ⊕ records_from 0 (i + n - batch_len b) rs
  records_from-rest n h =
      ap₂ (λ x y. (x, y)) (rest_taken n h)
        (ap₂ take (rest_total n h) drop_bytes
          ∙ take-append_more (length (drop (at i) D) + total (rest_sizes n)) (drop (at i) D) rs.1
              (omega arith)
          ∙ ap₂ ◌++◌ (sym bytes_left) (ap (λ k. take k rs.1) (omega arith)))

  nothing_more : (x : Records) (n : ℕ) → n ≡ 0 → x ≡ x ⊕ records_from 0 n rs
  nothing_more x zero e = ap₂ (λ a b. (a, b)) (sym (append-nil x.0)) (sym (append-nil x.1))
  nothing_more x (suc n) e = absurd (omega (arith, e))

  -- What one round takes of the first batch, and then what is left of the others.
  pub records_from-split :
      (n m : ℕ)
      → m ≡ min n (batch_len b - i)
      → part b i (i + m) ⊕ records_from 0 (n - m) rs ≡ records_from i n together
  records_from-split n m e = elim (Bool-cases (leb n (batch_len b - i))) [
    | inl all ↦
        sym (nothing_more (part b i (i + m)) (n - m) (ground arith))
        ∙ sym (records_from-first m (ground arith))
        ∙ ap (λ k. records_from i k together) {x = m} {y = n} (ground arith)
    | inr more ↦
        ap (λ j. part b i j ⊕ records_from 0 (n - m) rs) {x = i + m} {y = batch_len b}
          (ground arith)
        ∙ ap (λ k. part b i (batch_len b) ⊕ records_from 0 k rs) {x = n - m}
            {y = i + n - batch_len b} (ground arith)
        ∙ sym (records_from-rest n (ground arith))
  ]

-- The index is one of the first batch.
abbrev pub Within : ℕ → List Batch → Type 0
Within i [] = Unit
Within i (b ∷ bs) = i < batch_len b

Within-zero : (bs : List Batch) → All IsStored bs → Within 0 bs
Within-zero [] st = tt
Within-zero (b ∷ bs) st = st.0.some_records

pub no_records : (i n : ℕ) → records_from i n ([], []) ≡ ([], [])
no_records i n =
    ap₂ (λ x y. (x, y)) none_left
      (ap (take (total (take n (drop i [])))) (drop-nil (total (take i [])))
        ∙ take-nil (total (take n (drop i []))))
  where
    none_left : take n (drop {A = ℕ} i []) ≡ []
    none_left = ap (take n) (drop-nil i) ∙ take-nil n

some_chosen :
    (most have i : ℕ) (b : Batch)
    → IsStored b
    → i < batch_len b
    → ltb have most ≡ true
    → (most_of most have i b == 0) ≡ false
some_chosen most have i b st w below =
    let l = length-items b.sizes st.valid.sizes_wf in ground arith

-- Without a limit of bytes, the loop takes the records in order, from the index on.
pub taken-none :
    (most : ℕ) (bs : List Batch) (have bytes i : ℕ) (first : Bool)
    → All IsStored bs
    → Within i bs
    → taken none most have bytes first i bs ≡ records_from i (most - have) (all_records bs)
unfolding taken num_records
taken-none most [] have bytes i first st w = sym (no_records i (most - have))
taken-none most (b ∷ bs) have bytes i first st w = elim (Bool-cases (ltb have most)) [
  | inl below ↦
      rw
        (
          below,
          taken-none most bs (have + most_of most have i b) bytes 0 first st.1
              (Within-zero bs st.1),
          some_chosen most have i b st.0 w below,
        )
        (ap (λ k. part b i (i + most_of most have i b) ⊕ records_from 0 k (all_records bs))
            {x = most - (have + most_of most have i b)} {y = most - have - most_of most have i b}
            (omega arith)
          ∙ records_from-split b st.0.valid (all_records bs) i (omega (arith, w)) (most - have)
              (most_of most have i b)
              (ap (λ l. min (most - have) (l - i)) (length-items b.sizes st.0.valid.sizes_wf)))
  | inr full ↦
      rw full
        (ap (λ k. records_from i k (all_records (b ∷ bs))) {x = 0} {y = most - have} (ground arith))
]
