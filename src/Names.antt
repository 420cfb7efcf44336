-- ===== src/Names.antt =====
-- A Go map with string keys, as an association list.
use simple_commit_log.Base.{
  ◌≡◌, refl, sym, ap, ap₂, subst, List, [], ◌∷◌, Option, none, some, Bool, true, false, ◌==◌, ◌&&◌,
  Bool-cases, inl, inr, arith, if◌then◌else◌,
}
use simple_commit_log.Topic.Files.{Key}

-- Equality of names.
unfoldable pub same_name : Key → Key → Bool
same_name [] [] = true
same_name [] (y ∷ ys) = false
same_name (x ∷ xs) [] = false
same_name (x ∷ xs) (y ∷ ys) = x == y && same_name xs ys

pub same_name_refl : (xs : Key) → same_name xs xs ≡ true
unfolding same_name
same_name_refl [] = refl
same_name_refl (x ∷ xs) = ground (arith, same_name_refl xs)

abbrev pub Entries : Type 0 → Type 0
Entries T = List (Key × T)

module _ {T : Type 0} where
  unfoldable pub lookup : Key → Entries T → Option T
  lookup name [] = none
  lookup name ((n, t) ∷ es) = let rest = lookup name es in if same_name n name then some t else rest

  -- A store replaces the entry of the name, or adds one.
  unfoldable pub put : Key → T → Entries T → Entries T
  put name t [] = (name, t) ∷ []
  put name t ((n, u) ∷ es) =
      let rest = put name t es in if same_name n name then (n, t) ∷ es else (n, u) ∷ rest

  pub lookup-put : (name : Key) (t : T) (es : Entries T) → lookup name (put name t es) ≡ some t
  unfolding lookup put
  lookup-put name t [] = rw (same_name_refl name) refl
  lookup-put name t ((n, u) ∷ es) = elim (Bool-cases (same_name n name)) [
    | inl e ↦ rw (e, lookup, e) refl
    | inr e ↦ rw (e, lookup, e) (lookup-put name t es)
  ]

  -- `delete`: nothing where the name is not there.
  unfoldable pub delete : Key → Entries T → Entries T
  delete name [] = []
  delete name ((n, t) ∷ es) =
      let rest = delete name es in if same_name n name then es else (n, t) ∷ rest

pub same_name-eq : (xs ys : Key) → same_name xs ys ≡ true → xs ≡ ys
unfolding same_name
same_name-eq [] [] h = refl
same_name-eq [] (y ∷ ys) h = absurd (cc h)
same_name-eq (x ∷ xs) [] h = absurd (cc h)
same_name-eq (x ∷ xs) (y ∷ ys) h =
    let both : (x ≡ y) × (same_name xs ys ≡ true) = ground (arith, h) in
    ap₂ ◌∷◌ both.0 (same_name-eq xs ys both.1)

pub same_name-turned : (xs ys : Key) → same_name xs ys ≡ false → same_name ys xs ≡ false
same_name-turned xs ys ne = elim (Bool-cases (same_name ys xs)) [
  | inl e ↦
      let at : same_name xs xs ≡ false =
        subst (λ zs. same_name xs zs ≡ false) (same_name-eq ys xs e) ne in
      absurd (cc (at, same_name_refl xs))
  | inr e ↦ e
]

-- A store leaves the other names alone.
pub lookup-put_other :
    {T : Type 0} (k name : Key) (t : T) (es : Entries T)
    → same_name k name ≡ false
    → lookup k (put name t es) ≡ lookup k es
unfolding lookup put
lookup-put_other k name t [] ne = rw (same_name-turned k name ne) refl
lookup-put_other k name t ((n, u) ∷ es) ne = elim (Bool-cases (same_name n name)) [
  | inl e ↦
      let other : same_name n k ≡ false =
        subst (λ m. same_name m k ≡ false) (sym (same_name-eq n name e))
          (same_name-turned k name ne) in
      rw (e, lookup, other) refl
  | inr e ↦
      rw (e, lookup)
        (ap (λ rest. if same_name n k then some u else rest) (lookup-put_other k name t es ne))
]
