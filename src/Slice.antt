-- ===== src/Slice.antt =====
-- Go's slices: a window on a backing array, with a length and a capacity. The array is kept from
-- the slice's first element to its last spare place, so the capacity is the array's length.
pub mod Laws
use simple_commit_log.Base.{
  ℕ, ◌+◌, ◌-◌, ◌≤◌, List, ◌++◌, length, take, drop, leb, ◌&&◌, if◌then◌else◌,
}
use simple_commit_log.Errors.{Result, ok, panic}

pub record Slice {ℓ} (A : Type ℓ) : Type ℓ where
  pub array : List A
  pub len : ℕ

module _ {ℓ} {A : Type ℓ} where
  -- `cap(s)`
  abbrev pub cap : Slice A → ℕ
  cap s = length s.array

  -- The elements that the slice shows.
  abbrev pub items : Slice A → List A
  items s = take s.len s.array

  -- The invariant of the language: `len(s) <= cap(s)`.
  abbrev pub IsWf : Slice A → Type 0
  IsWf s = s.len ≤ length s.array

  -- A slice literal, and `make` followed by stores to every place: no spare places.
  abbrev pub of_list : List A → Slice A
  of_list xs = record { array = xs; len = length xs }

  -- `s[i:j]`: the upper bound may exceed the length and reach into the spare places.
  unfoldable pub reslice : Slice A → ℕ → ℕ → Result (Slice A)
  reslice s i j =
      if leb i j && leb j (cap s)
      then ok (record { array = drop i s.array; len = j - i })
      else panic

  -- `copy(s[len(s):len(s)+len(xs)], xs)`: stores to the spare places, the length stays.
  unfoldable pub fill : Slice A → List A → Slice A
  fill s xs = record s { array = take s.len s.array ++ (xs ++ drop (s.len + length xs) s.array) }

  -- `append(s, xs...)`: in place if there is room, else in a new array. How much larger the new
  -- array is, is up to the runtime; here it has no spare places.
  unfoldable pub append : Slice A → List A → Slice A
  unfolding fill
  append s xs =
      if leb (s.len + length xs) (cap s)
      then record (fill s xs) { len = s.len + length xs }
      else of_list (items s ++ xs)
