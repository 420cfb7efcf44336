-- ===== src/Topic/Store/Keys.antt =====
-- The keys of internal/sebtopic/topic.go, `RecordBatchKey`: two batches of a topic never share one.
use simple_commit_log.Base.{
  ℕ, zero, suc, ◌+◌, ◌-◌, ◌*◌, ◌/◌, ◌%◌, ◌^◌, ◌<◌, ◌≡◌, refl, sym, ap, ◌∙◌, inl, inr, List, [], ◌∷◌,
  ◌++◌, length, drop, replicate, ltb, ◌==◌, Bool-cases, arith, append_assoc, drop-append,
  if◌then◌else◌,
}
use simple_commit_log.Topic.Files.{Key}
use simple_commit_log.Topic.Paths.{decimal, padded, record_batch_key, record_batch_extension}
use native.Mathlib.Nat.{pow-suc}

-- The number that decimal digits in front of a full stop stand for, behind those of `n`.
unfoldable value : ℕ → List ℕ → ℕ
value n [] = n
value n (c ∷ cs) = let rest = value (n * 10 + (c - 48)) cs in if c == 46 then n else rest

value-digit : (n d : ℕ) (cs : List ℕ) → value n ((48 + d) ∷ cs) ≡ value (n * 10 + d) cs
unfolding value
value-digit n d cs = ground arith

value-zeros : (m : ℕ) (cs : List ℕ) → value 0 (replicate m 48 ++ cs) ≡ value 0 cs
value-zeros zero cs = refl
value-zeros (suc m) cs = value-digit 0 0 (replicate m 48 ++ cs) ∙ value-zeros m cs

value-decimal : (k n : ℕ) (cs : List ℕ) → n < 10 ^ k → value 0 (decimal k n cs) ≡ value n cs
unfolding decimal
value-decimal zero n cs h = ap (λ m. value m cs) {x = 0} {y = n} (omega (arith, h))
value-decimal (suc k) n cs h = elim (Bool-cases (ltb n 10)) [
  | inl one ↦
      rw one (value-digit 0 n cs ∙ ap (λ m. value m cs) {x = 0 * 10 + n} {y = n} (omega arith))
  | inr more ↦ rw more (
      value-decimal k (n / 10) ((48 + n % 10) ∷ cs)
        (let small : n < 10 ^ k * 10 = rw pow-suc at h in omega (arith, small))
      ∙ value-digit (n / 10) (n % 10) cs
      ∙ ap (λ m. value m cs) {x = n / 10 * 10 + n % 10} {y = n} (omega arith))
]

decimal-append : (k n : ℕ) (ds cs : List ℕ) → decimal k n ds ++ cs ≡ decimal k n (ds ++ cs)
unfolding decimal
decimal-append zero n ds cs = refl
decimal-append (suc k) n ds cs = elim (Bool-cases (ltb n 10)) [
  | inl one ↦ rw one refl
  | inr more ↦ rw more (decimal-append k (n / 10) ((48 + n % 10) ∷ ds) cs)
]

value-padded : (n : ℕ) → n < 2 ^ 64 → value 0 (padded n ++ record_batch_extension) ≡ n
unfolding padded value
value-padded n h =
    ap (value 0) (
      append_assoc (replicate (12 - length (decimal 20 n [])) 48) (decimal 20 n [])
        record_batch_extension)
    ∙ value-zeros (12 - length (decimal 20 n [])) (decimal 20 n [] ++ record_batch_extension)
    ∙ ap (value 0) (decimal-append 20 n [] record_batch_extension)
    ∙ value-decimal 20 n record_batch_extension (omega (arith, h))

-- The keys of two offsets below 2^64 differ.
pub record_batch_key-inj :
    (topic_name : Key) (o o' : ℕ)
    → o < 2 ^ 64
    → o' < 2 ^ 64
    → record_batch_key topic_name o ≡ record_batch_key topic_name o'
    → o ≡ o'
unfolding record_batch_key
record_batch_key-inj topic_name o o' h h' e =
    sym (behind o h) ∙ ap (λ k. value 0 (drop 1 (drop (length topic_name) k))) e ∙ behind o' h'
  where
    behind :
        (o : ℕ)
        → o < 2 ^ 64
        → value 0 (
            drop 1 (
              drop
                (length topic_name)
                (topic_name ++ (b'/' ∷ (padded o ++ record_batch_extension)))))
          ≡ o
    behind o h =
        ap (λ k. value 0 (drop 1 k)) (drop-append topic_name _ (length topic_name) refl)
        ∙ value-padded o h
