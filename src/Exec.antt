-- ===== src/Exec.antt =====
-- Calls that change a state and may end with an error or a panic. What was written before an error
-- stays written, so the state comes back beside every result.
use simple_commit_log.Errors.{Error, Result, ok, err, panic}

abbrev pub Exec : Type 0 → Type 0 → Type 0
Exec S A = S → S × Result A

module _ {S A : Type 0} where
  abbrev pub pure : A → Exec S A
  pure a s = (s, ok a)

  abbrev pub raise : Error → Exec S A
  raise e s = (s, err e)

  abbrev pub lift : Result A → Exec S A
  lift r s = (s, r)

  abbrev pub gets : (S → A) → Exec S A
  gets f s = (s, ok (f s))

abbrev pub modify : {S : Type 0} → (S → S) → Exec S (Unit {0})
modify f s = (f s, ok tt)

module _ {S A B : Type 0} where
  -- What follows a call.
  abbrev pub continue : S × Result A → (A → Exec S B) → S × Result B
  continue (s, ok a) f = f a s
  continue (s, err e) f = (s, err e)
  continue (s, panic) f = (s, panic)

  infixl 10 ◌>>=◌ ◌>>◌
  abbrev pub ◌>>=◌ : Exec S A → (A → Exec S B) → Exec S B
  ◌>>=◌ m f s = continue (m s) f

  abbrev pub ◌>>◌ : Exec S A → Exec S B → Exec S B
  m >> n = m >>= λ _. n
