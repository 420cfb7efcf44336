-- ===== src/Helpy.antt =====
-- The functions of github.com/micvbang/go-helpy that the code calls, a library outside the
-- repository: parameters with the behaviour that the code relies on.
pub mod Example
use simple_commit_log.Base.{ℕ, ◌%◌, ◌^◌, ◌≡◌, List, [], ◌∷◌, ◌++◌, total}

-- Package slicey: `Sum` on a []uint32, whose additions wrap, and `Last` on a []uint64.
pub record Slicey : Type 0 where
  pub sum : List ℕ → ℕ
  pub sum_lem : (xs : List ℕ) → sum xs ≡ total xs % 2 ^ 32
  pub last : List ℕ → ℕ
  pub last_lem : (xs : List ℕ) (x : ℕ) → last (xs ++ (x ∷ [])) ≡ x
