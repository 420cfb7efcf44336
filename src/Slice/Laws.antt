-- ===== src/Slice/Laws.antt =====
-- What the operations on slices show of the elements.
use simple_commit_log.Base.{
  ℕ, ◌+◌, ◌-◌, ◌≤◌, ◌≡◌, sym, ap, ◌∙◌, List, ◌++◌, length, take, drop, arith, leb, Bool-cases, inl,
  inr, append_assoc, length-append, length-take, length-drop, take-append, take-all, take-take,
  drop-take, le→leb,
}
use simple_commit_log.Errors.{ok}
use simple_commit_log.Slice.{Slice, cap, items, IsWf, of_list, reslice, fill, append}

module _ {ℓ} {A : Type ℓ} where
  pub items-of_list : (xs : List A) → items (of_list xs) ≡ xs
  items-of_list xs = take-all (length xs) xs (omega arith)

  pub length-items : (s : Slice A) → IsWf s → length (items s) ≡ s.len
  length-items s w = omega (arith, length-take s.len s.array)

  -- Inside the capacity `s[i:j]` does not panic.
  pub reslice_lem :
      (s : Slice A) (i j : ℕ)
      → i ≤ j
      → j ≤ cap s
      → reslice s i j ≡ ok (record { array = drop i s.array; len = j - i })
  unfolding reslice
  reslice_lem s i j p q = ground (arith, le→leb i j p, le→leb j (cap s) q)

  -- Inside the length `s[i:j]` shows the elements from `i` up to `j`.
  pub reslice-items :
      (s : Slice A) (i j : ℕ)
      → i ≤ j
      → j ≤ s.len
      → take (j - i) (drop i s.array) ≡ take (j - i) (drop i (items s))
  reslice-items s i j p q =
      sym (take-take (j - i) (s.len - i) (drop i s.array) (omega arith))
      ∙ ap (take (j - i)) (sym (drop-take i s.len s.array))

  -- Stores to the spare places are not seen.
  pub items-fill : (s : Slice A) (xs : List A) → IsWf s → items (fill s xs) ≡ items s
  unfolding fill
  items-fill s xs w = take-append (take s.len s.array) _ s.len (length-items s w)

  pub cap-fill : (s : Slice A) (xs : List A) → s.len + length xs ≤ cap s → cap (fill s xs) ≡ cap s
  unfolding fill
  cap-fill s xs w = omega (
    arith,
    length-append (take s.len s.array) (xs ++ drop (s.len + length xs) s.array),
    length-append xs (drop (s.len + length xs) s.array),
    length-drop (s.len + length xs) s.array,
    length-take s.len s.array,
  )

  -- What was stored is seen once the length is raised.
  pub take-fill :
      (s : Slice A) (xs : List A)
      → s.len + length xs ≤ cap s
      → take (s.len + length xs) (fill s xs).array ≡ items s ++ xs
  unfolding fill
  take-fill s xs w =
      ap (take (s.len + length xs)) (sym (append_assoc (items s) xs _))
      ∙ take-append (items s ++ xs) _ (s.len + length xs)
          (omega (arith, length-append (items s) xs, length-take s.len s.array))

  pub items-append : (s : Slice A) (xs : List A) → items (append s xs) ≡ items s ++ xs
  unfolding append
  items-append s xs = elim (Bool-cases (leb (s.len + length xs) (cap s))) [
    | inl room ↦ rw room (take-fill s xs (ground arith))
    | inr full ↦ rw full (items-of_list (items s ++ xs))
  ]

  pub append-IsWf : (s : Slice A) (xs : List A) → IsWf s → IsWf (append s xs)
  unfolding append
  append-IsWf s xs w = ground (arith, cap-fill s xs)

  -- With room for what is appended the array stays.
  pub cap-append :
      (s : Slice A) (xs : List A) → s.len + length xs ≤ cap s → cap (append s xs) ≡ cap s
  unfolding append
  cap-append s xs h = rw (le→leb (s.len + length xs) (cap s) h) (cap-fill s xs h)

  pub len-append : (s : Slice A) (xs : List A) → IsWf s → (append s xs).len ≡ s.len + length xs
  unfolding append
  len-append s xs w = elim (Bool-cases (leb (s.len + length xs) (cap s))) [
    | inl room ↦ rw room (omega arith)
    | inr full ↦ rw full (omega (arith, length-append (items s) xs, length-items s w))
  ]
