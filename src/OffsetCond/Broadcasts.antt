-- ===== src/OffsetCond/Broadcasts.antt =====
-- One call of `Broadcast`: which waiters it releases.
use simple_commit_log.Base.{
  ℕ, ◌+◌, ◌<◌, ◌≡◌, refl, ap, Bool, true, false, ◌||◌, ◌&&◌, not, ◌==◌, List, [], ◌∷◌, ◌++◌, map,
  All, Bool-cases, inl, inr, leb, ltb, if◌then◌else◌, arith,
}
use simple_commit_log.OffsetCond.{Wait, broadcast_loop}
use mathlib.Core.List.{Perm, perm_middle}
use mathlib.Core.List.Perm

abbrev pub channels : List Wait → List ℕ
channels = map (λ w. w.ch)

-- Membership of a number.
unfoldable pub has : ℕ → List ℕ → Bool
has x [] = false
has x (y ∷ ys) = x == y || has x ys

pub has-append : (x : ℕ) (xs ys : List ℕ) → has x (xs ++ ys) ≡ (has x xs || has x ys)
unfolding has
has-append x [] ys = refl
has-append x (z ∷ xs) ys = ground (arith, has-append x xs ys)

-- What stays in the list waits for a later offset.
pub loop-later : (o : ℕ) (ws : List Wait) → All (λ w. o < w.offset) (broadcast_loop o ws).0
unfolding broadcast_loop
loop-later o [] = tt
loop-later o (w ∷ ws) = elim (Bool-cases (leb w.offset o)) [
  | inl due ↦ rw due (loop-later o ws)
  | inr later ↦ rw later (ground arith, loop-later o ws)
]

-- The waiters for an offset below this one.
unfoldable pub due : ℕ → List Wait → List Wait
due n [] = []
due n (w ∷ ws) = let rest = due n ws in if ltb w.offset n then w ∷ rest else rest

-- The channels that are closed are those of the waiters for an offset up to the broadcast one.
pub loop-due : (o : ℕ) (ws : List Wait) → (broadcast_loop o ws).1 ≡ channels (due (o + 1) ws)
unfolding broadcast_loop due
loop-due o [] = refl
loop-due o (w ∷ ws) = elim (Bool-cases (leb w.offset o)) [
  | inl now ↦ rw (now, up now) (ap (◌∷◌ w.ch) (loop-due o ws))
  | inr later ↦ rw (later, down later) (loop-due o ws)
]
  where
    up : leb w.offset o ≡ true → ltb w.offset (o + 1) ≡ true
    up h = ground arith

    down : leb w.offset o ≡ false → ltb w.offset (o + 1) ≡ false
    down h = ground arith

-- Each waiter is released or stays.
pub loop-perm :
    (o : ℕ) (ws : List Wait)
    → Perm ((broadcast_loop o ws).1 ++ channels (broadcast_loop o ws).0) (channels ws)
unfolding broadcast_loop
loop-perm o [] = Perm.refl []
loop-perm o (w ∷ ws) = elim (Bool-cases (leb w.offset o)) [
  | inl due ↦ rw due (Perm.cons w.ch (loop-perm o ws))
  | inr later ↦ rw later (Perm.trans (perm_middle _ _) (Perm.cons w.ch (loop-perm o ws)))
]

pub loop-All {ℓ} :
    (P : Wait → Type ℓ) (o : ℕ) (ws : List Wait) → All P ws → All P (broadcast_loop o ws).0
unfolding broadcast_loop
loop-All P o [] h = h
loop-All P o (w ∷ ws) h = elim (Bool-cases (leb w.offset o)) [
  | inl due ↦ rw due (loop-All P o ws h.1)
  | inr later ↦ rw later (h.0, loop-All P o ws h.1)
]

-- The waiters on a channel wait for this offset.
abbrev pub WaitsFor : ℕ → ℕ → List Wait → Type 0
WaitsFor ch o = All (λ w. w.ch ≡ ch → w.offset ≡ o)

-- A waiter is released exactly if the offset of the broadcast is not below its own.
pub loop-released :
    (b ch o : ℕ) (ws : List Wait)
    → WaitsFor ch o ws
    → has ch (broadcast_loop b ws).1 ≡ (leb o b && has ch (channels ws))
unfolding broadcast_loop has
loop-released b ch o [] h = ground arith
loop-released b ch o (w ∷ ws) h = ground (arith, loop-released b ch o ws h.1, h.0)

pub loop-kept :
    (b ch o : ℕ) (ws : List Wait)
    → WaitsFor ch o ws
    → has ch (channels (broadcast_loop b ws).0) ≡ (not (leb o b) && has ch (channels ws))
unfolding broadcast_loop has
loop-kept b ch o [] h = ground arith
loop-kept b ch o (w ∷ ws) h = ground (arith, loop-kept b ch o ws h.1, h.0)
