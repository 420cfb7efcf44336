-- ===== src/Helpy/Example.antt =====
-- Functions that behave as the parameters ask.
use simple_commit_log.Base.{ℕ, ◌%◌, ◌^◌, ◌≡◌, refl, List, [], ◌∷◌, ◌++◌, total}
use simple_commit_log.Helpy.{Slicey}

abbrev pub last_of : List ℕ → ℕ
last_of [] = 0
last_of (x ∷ []) = x
last_of (x ∷ y ∷ xs) = last_of (y ∷ xs)

pub last_of-append : (xs : List ℕ) (x : ℕ) → last_of (xs ++ (x ∷ [])) ≡ x
last_of-append [] x = refl
last_of-append (y ∷ []) x = refl
last_of-append (y ∷ z ∷ xs) x = last_of-append (z ∷ xs) x

-- The parameter can be met.
abbrev pub go_slicey : Slicey
go_slicey = record {
  sum = λ xs. total xs % 2 ^ 32;
  sum_lem = λ xs. refl;
  last = last_of;
  last_lem = last_of-append;
}
