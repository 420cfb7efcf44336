-- ===== src/Records/Bytes.antt =====
-- encoding/binary in little endian order, and the readers and writers of package io, as far as
-- internal/sebrecords uses them. A byte is a number below 256.
use simple_commit_log.Base.{
  ℕ, zero, suc, ◌+◌, ◌*◌, ◌/◌, ◌%◌, ◌^◌, ◌<◌, ◌≡◌, refl, ap, ap₂, ◌∙◌, List, [], ◌∷◌, ◌++◌, length,
  take, drop, All, arith, Option, none, some, ◌==◌, ltb, if◌then◌else◌, length-append, take-append,
  drop-append,
}
use simple_commit_log.Errors.{Error, eof, unexpected_eof, Result}
use native.Mathlib.Nat.{pow-suc}

-- The lowest `k` bytes of a number, lowest first.
unfoldable pub le_bytes : ℕ → ℕ → List ℕ
le_bytes zero v = []
le_bytes (suc k) v = (v % 256) ∷ le_bytes k (v / 256)

unfoldable pub of_le_bytes : List ℕ → ℕ
of_le_bytes [] = 0
of_le_bytes (x ∷ xs) = x + 256 * of_le_bytes xs

pub length-le_bytes : (k v : ℕ) → length (le_bytes k v) ≡ k
unfolding le_bytes
length-le_bytes zero v = refl
length-le_bytes (suc k) v = ap suc (length-le_bytes k (v / 256))

pub of_le_bytes-le_bytes : (k v : ℕ) → v < 256 ^ k → of_le_bytes (le_bytes k v) ≡ v
unfolding le_bytes of_le_bytes
of_le_bytes-le_bytes zero v h = omega arith
of_le_bytes-le_bytes (suc k) v h =
    let small : v < 256 ^ k * 256 = rw pow-suc at h in
    omega (arith, of_le_bytes-le_bytes k (v / 256) (omega arith))

-- A []uint32, each number in four bytes.
unfoldable pub put_u32s : List ℕ → List ℕ
put_u32s [] = []
put_u32s (x ∷ xs) = le_bytes 4 x ++ put_u32s xs

-- `n` numbers from the front of the bytes.
unfoldable pub get_u32s : ℕ → List ℕ → List ℕ
get_u32s zero bs = []
get_u32s (suc n) bs = of_le_bytes (take 4 bs) ∷ get_u32s n (drop 4 bs)

pub length-put_u32s : (xs : List ℕ) → length (put_u32s xs) ≡ 4 * length xs
unfolding put_u32s
length-put_u32s [] = omega arith
length-put_u32s (x ∷ xs) =
    omega
      (arith, length-append (le_bytes 4 x) (put_u32s xs), length-le_bytes 4 x, length-put_u32s xs)

pub get_u32s-put_u32s :
    (xs : List ℕ) → All (λ x. x < 2 ^ 32) xs → get_u32s (length xs) (put_u32s xs) ≡ xs
unfolding put_u32s get_u32s
get_u32s-put_u32s [] h = refl
get_u32s-put_u32s (x ∷ xs) (hx, hxs) =
    ap₂ ◌∷◌
      (ap of_le_bytes (take-append (le_bytes 4 x) (put_u32s xs) 4 (length-le_bytes 4 x))
        ∙ of_le_bytes-le_bytes 4 x hx)
      (ap (get_u32s (length xs)) (drop-append (le_bytes 4 x) (put_u32s xs) 4 (length-le_bytes 4 x))
        ∙ get_u32s-put_u32s xs hxs)

-- An io.Writer: one call of `Write` stores all the bytes, or ends with an error.
pub record Writer (W : Type 0) : Type 0 where
  pub put : W → List ℕ → W × Result (Unit {0})

-- An io.ReadSeeker over a file or a buffer: its bytes and the read position. It fails only at the
-- end of the bytes.
pub record Reader : Type 0 where
  pub content : List ℕ
  pub position : ℕ

-- `Seek(offset, io.SeekStart)`
abbrev pub seek : Reader → ℕ → Reader
seek r offset = record r { position = offset }

-- `io.ReadFull`: the bytes that were read, and the error if these are fewer than `n`.
unfoldable pub read_full : Reader → ℕ → Reader × List ℕ × Option Error
read_full r n =
    let rest = drop r.position r.content in
    if n == 0
    then (r, [], none)
    else if length rest == 0
    then (r, [], some eof)
    else if ltb (length rest) n
    then (record r { position = length r.content }, rest, some unexpected_eof)
    else (record r { position = r.position + n }, take n rest, none)
