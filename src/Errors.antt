-- ===== src/Errors.antt =====
-- seberr/errors.go: the error values that callers distinguish, and the ways a Go call can end.

use simple_commit_log.Base.{◌≡◌, refl, ◌⊎◌, inl, inr}

-- The sentinels of seberr, the errors of the standard library that the code distinguishes, and
-- `other` for an error that no caller looks into.
pub data Error : Type 0 where
  out_of_bounds topic_not_found topic_already_exists not_in_cache not_in_storage : Error
  unauthorized payload_too_large bad_input buffer_too_small not_authorized not_found : Error
  eof unexpected_eof canceled deadline_exceeded other : Error

-- A call returns a value, or returns an error, or panics.
pub data Result {ℓ} (A : Type ℓ) : Type ℓ where
  ok : A → Result A
  err : Error → Result A
  panic : Result A

infixl 5 ◌>>=◌ ◌>>◌
abbrev pub ◌>>=◌ {ℓ κ} : {A : Type ℓ} {B : Type κ} → Result A → (A → Result B) → Result B
ok a >>= f = f a
err e >>= f = err e
panic >>= f = panic

abbrev pub ◌>>◌ {ℓ} : {B : Type ℓ} → Result (Unit {0}) → Result B → Result B
m >> k = m >>= λ _. k

pub Result-cases {ℓ} :
    {A : Type ℓ} (r : Result A) → ((a : A) × (r ≡ ok a)) ⊎ ((e : Error) × (r ≡ err e)) ⊎ (r ≡ panic)
Result-cases (ok a) = inl (a, refl)
Result-cases (err e) = inr (inl (e, refl))
Result-cases panic = inr (inr refl)
