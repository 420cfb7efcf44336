-- ===== src/Topic/Read/Select.antt =====
-- The searches of ReadRecords: which batch an offset is in, and how many of its records are read.
use simple_commit_log.Base.{
  ℕ, zero, suc, ◌+◌, ◌%◌, ◌^◌, ◌≤◌, ◌<◌, ◌≡◌, refl, sym, ap, ◌∙◌, ◌⊎◌, inl, inr, List, [], ◌∷◌,
  Bool, true, false, ◌&&◌, not, Option, none, some, ltb, leb, length, take, drop, get_elem?, total,
  All, Bool-cases, Option-cases, arith, if◌then◌else◌,
}
use simple_commit_log.Topic.Read.{find_batch, select_records}

split_last : (i k : ℕ) → i < suc k → (i < k) ⊎ (i ≡ k)
split_last i k h = elim (Bool-cases (ltb i k)) [
  | inl e ↦ inl (ground arith)
  | inr e ↦ inr (ground arith)
]

-- The index found, if any, is below `i`.
abbrev Below : Option ℕ → ℕ → Type 0
Below none i = Unit
Below (some j) i = j < i

-- Where the search finds nothing at an index or above it, the batches there begin later.
find_batch-later :
    (k : ℕ) (os : List ℕ) (offset i o : ℕ)
    → i < k
    → get_elem? os i ≡ some o
    → Below (find_batch k os offset) i
    → offset < o
unfolding find_batch
find_batch-later zero os offset i o below at = omega (arith, below)
find_batch-later (suc k) os offset i o below at = elim (Option-cases (get_elem? os k)) [
  | inl e ↦ elim (split_last i k below) [
    | inl lower ↦ rw (Below, e) (find_batch-later k os offset i o lower at)
    | inr same ↦ cc (same, e, at)
  ]
  | inr (o', e) ↦ elim (Bool-cases (leb o' offset)) [
    | inl early ↦ rw (Below, e, early) (λ b. omega (arith, b, below))
    | inr late ↦ elim (split_last i k below) [
      | inl lower ↦ rw (Below, e, late) (find_batch-later k os offset i o lower at)
      | inr same ↦ rw (Below, e, late) (λ b. ground (arith, same_offset e same))
    ]
  ]
]
  where
    same_offset : {o' : ℕ} → get_elem? os k ≡ some o' → i ≡ k → o' ≡ o
    same_offset e same = cc (e, same, at)

find_batch-at :
    (k : ℕ) (os : List ℕ) (offset j : ℕ)
    → find_batch k os offset ≡ some j
    → (o : ℕ) × (get_elem? os j ≡ some o) × (o ≤ offset) × (j < k)
unfolding find_batch
find_batch-at zero os offset j = λ h. cc h
find_batch-at (suc k) os offset j = elim (Option-cases (get_elem? os k)) [
  | inl e ↦ rw (find_batch, e) (λ h. further (find_batch-at k os offset j h))
  | inr (o, e) ↦ elim (Bool-cases (leb o offset)) [
    | inl early ↦ rw (find_batch, e, early) (λ h. here (o, e, early) h)
    | inr late ↦ rw (find_batch, e, late) (λ h. further (find_batch-at k os offset j h))
  ]
]
  where
    further :
        (o : ℕ) × (get_elem? os j ≡ some o) × (o ≤ offset) × (j < k)
        → (o : ℕ) × (get_elem? os j ≡ some o) × (o ≤ offset) × (j < suc k)
    further (o, at, early, below) = (o, at, early, omega (arith, below))

    le_of : (k j : ℕ) → k ≡ j → j < suc k
    le_of k j e = omega (arith, e)

    here :
        (o : ℕ) × (get_elem? os k ≡ some o) × (leb o offset ≡ true)
        → some k ≡ some j
        → (o : ℕ) × (get_elem? os j ≡ some o) × (o ≤ offset) × (j < suc k)
    here (o, at, early) h = (o, cc (at, h), ground (arith, early), le_of k j (cc h))

get_elem?-drop : (n i : ℕ) (xs : List ℕ) → get_elem? (drop n xs) i ≡ get_elem? xs (n + i)
get_elem?-drop zero i xs = ap (get_elem? xs) (omega arith)
get_elem?-drop (suc n) i [] = refl
get_elem?-drop (suc n) i (x ∷ xs) =
    get_elem?-drop n i xs ∙ ap (get_elem? (x ∷ xs)) {x = suc (n + i)} (omega arith)

get_elem?-length : (xs : List ℕ) (i : ℕ) {x : ℕ} → get_elem? xs i ≡ some x → i < length xs
get_elem?-length [] i h = cc h
get_elem?-length (x ∷ xs) zero h = omega arith
get_elem?-length (x ∷ xs) (suc i) h = omega (arith, get_elem?-length xs i h)

All-of-elems :
    (P : ℕ → Type 0) (xs : List ℕ) → ((i x : ℕ) → get_elem? xs i ≡ some x → P x) → All P xs
All-of-elems P [] h = tt
All-of-elems P (x ∷ xs) h = (h 0 x refl, All-of-elems P xs (λ i. h (suc i)))

-- Where the search over all listed offsets finds an index, the batch there begins at the offset or
-- before it, and all batches listed behind it begin after the offset.
pub find_batch_lem :
    (os : List ℕ) (offset j : ℕ)
    → find_batch (length os) os offset ≡ some j
    → ((o : ℕ) × (get_elem? os j ≡ some o) × (o ≤ offset)) × All (λ o. offset < o) (drop (suc j) os)
find_batch_lem os offset j h =
    let (o, at, early, below) = find_batch-at (length os) os offset j h in
    ((o, at, early), All-of-elems (λ o. offset < o) (drop (suc j) os) later)
  where
    later : (i x : ℕ) → get_elem? (drop (suc j) os) i ≡ some x → offset < x
    later i x at =
        let at' = sym (get_elem?-drop (suc j) i os) ∙ at in
        find_batch-later (length os) os offset (suc j + i) x (get_elem?-length os (suc j + i) at')
          at' (rw (h, Below) (omega arith))

-- Where it finds none, all batches begin after the offset.
pub find_batch-none :
    (os : List ℕ) (offset : ℕ) → find_batch (length os) os offset ≡ none → All (λ o. offset < o) os
find_batch-none os offset h = All-of-elems (λ o. offset < o) os later
  where
    later : (i x : ℕ) → get_elem? os i ≡ some x → offset < x
    later i x at =
        find_batch-later (length os) os offset i x (get_elem?-length os i at) at (rw (h, Below) tt)

-- What the loop over the sizes of a batch does without an overflow of its counter: it reads a prefix
-- of them and adds its sizes to the counter; with at least one record read, the counter is within
-- the limit unless one record alone, the first of the call, went over it; and it stops early only in
-- front of a record that would exceed the limit.
pub record Selects (soft_max : ℕ) (sizes : List ℕ) (bytes : ℕ) (first : Bool) (out : ℕ × ℕ × Bool)
    : Type 0 where
  pub prefix : out.0 ≤ length sizes
  pub counted : out.1 ≡ bytes + total (take out.0 sizes)
  pub within : (out.1 ≤ soft_max) ⊎ ((out.0 ≡ 0) ⊎ ((first ≡ true) × (out.0 ≡ 1)))
  pub maximal : (out.0 ≡ length sizes) ⊎ (soft_max < bytes + total (take (suc out.0) sizes))
  pub progress : (first ≡ false) ⊎ ((length sizes ≡ 0) ⊎ (0 < out.0))

-- One more record in front.
Selects-more :
    {soft_max size : ℕ} {sizes : List ℕ} {bytes : ℕ} {first : Bool} {out : ℕ × ℕ × Bool}
    → (first ≡ true) ⊎ (bytes + size ≤ soft_max)
    → Selects soft_max sizes (bytes + size) false out
    → Selects soft_max (size ∷ sizes) bytes first (suc out.0, out.1, out.2)
Selects-more {soft_max} {size} {sizes} {bytes} {first} {out} allowed rest = record {
  prefix = omega (arith, rest.prefix);
  counted = omega (arith, rest.counted);
  within = elim rest.within [
    | inl w ↦ inl w
    | inr (inl nothing) ↦ only nothing allowed
    | inr (inr (contra, _)) ↦ cc contra
  ];
  maximal = elim rest.maximal [ inl all ↦ inl (ap suc all) | inr over ↦ inr (omega (arith, over)) ];
  progress = inr (inr (omega arith));
}
  where
    only :
        out.0 ≡ 0
        → (first ≡ true) ⊎ (bytes + size ≤ soft_max)
        → (out.1 ≤ soft_max) ⊎ ((suc out.0 ≡ 0) ⊎ ((first ≡ true) × (suc out.0 ≡ 1)))
    only nothing (inl e) = inr (inr (e, ap suc nothing))
    only nothing (inr fits) = inl (rw (rest.counted, nothing) (omega (arith, fits)))

pub select_records-Selects :
    (soft_max : ℕ) (sizes : List ℕ) (bytes : ℕ) (first : Bool)
    → bytes + total sizes < 2 ^ 32
    → Selects soft_max sizes bytes first (select_records soft_max sizes bytes first)
unfolding select_records
select_records-Selects soft_max [] bytes first fits = record {
  prefix = omega arith;
  counted = omega arith;
  within = inr (inl refl);
  maximal = inl refl;
  progress = inr (inl refl);
}
select_records-Selects soft_max (size ∷ sizes) bytes first fits = rw wrap (
    choose first (Bool-cases (ltb soft_max (bytes + size)))
      (select_records-Selects soft_max sizes (bytes + size) false (omega (arith, fits))))
  where
    wrap : (bytes + size) % 2 ^ 32 ≡ bytes + size
    wrap = omega (arith, fits)

    choose :
        (first : Bool)
        → (ltb soft_max (bytes + size) ≡ true) ⊎ (ltb soft_max (bytes + size) ≡ false)
        → Selects soft_max sizes
            (bytes + size)
            false
            (select_records soft_max sizes (bytes + size) false)
        → Selects soft_max (size ∷ sizes) bytes first (
            let (n, b, f) = select_records soft_max sizes (bytes + size) false in
            if not first && ltb soft_max (bytes + size) then (0, bytes, first) else (suc n, b, f))
    choose true _ more = Selects-more (inl refl) more
    choose false (inr e) more = rw e (Selects-more (inr (ground (arith, e))) more)
    choose false (inl e) more = rw e (record {
      prefix = omega arith;
      counted = omega arith;
      within = inr (inl refl);
      maximal = inr (ground (arith, e));
      progress = inl refl;
    })
