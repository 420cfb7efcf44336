-- ===== src/OffsetCond/Release.antt =====
-- When a blocked call of `Wait` is released.
use simple_commit_log.Base.{
  ℕ, ◌<◌, ◌≡◌, refl, ap, ◌∙◌, Bool, true, false, ◌||◌, List, [], ◌∷◌, ◌++◌, All-append, Bool-cases,
  inl, inr, leb, arith, lt→leb,
}
use simple_commit_log.OffsetCond.{
  Wait, broadcast, wait, Call, waits, broadcasts, System, step, run, start,
}
use simple_commit_log.OffsetCond.Broadcasts.{
  channels, has, has-append, WaitsFor, loop-All, loop-released, loop-kept,
}
use simple_commit_log.OffsetCond.Runs.{IsSound, queued, run-start-IsSound}
use mathlib.Core.List.{Mem, mem-cons_self, mem-cons_of_mem, mem-append, map-append}
use mathlib.Core.Logic.Or

-- Some broadcast among the calls reaches the offset.
unfoldable pub reached : ℕ → List Call → Bool
reached o [] = false
reached o (waits _ ∷ calls) = reached o calls
reached o (broadcasts b ∷ calls) = leb o b || reached o calls

record IsPending (s : System) (ch o : ℕ) : Type 0 where
  only : WaitsFor ch o s.cond.waiting
  queue : has ch (channels s.cond.waiting) ≡ true
  unclosed : has ch s.closed ≡ false
  old : ch < s.next_ch

step-closed :
    (s : System) (c : Call) (ch : ℕ) → has ch s.closed ≡ true → has ch (step s c).closed ≡ true
unfolding step
step-closed s (waits o) ch h = h
step-closed s (broadcasts o) ch h =
    has-append ch s.closed (broadcast s.cond o).1 ∙ ap (λ b. b || has ch (broadcast s.cond o).1) h

run-closed :
    (s : System) (calls : List Call) (ch : ℕ)
    → has ch s.closed ≡ true
    → has ch (run s calls).closed ≡ true
unfolding run
run-closed s [] ch h = h
run-closed s (c ∷ calls) ch h = run-closed (step s c) calls ch (step-closed s c ch h)

has_queued :
    (ch o n : ℕ) (ws : List Wait)
    → has ch (channels ws) ≡ true
    → has ch (channels (ws ++ (record { offset = o; ch = n } ∷ []))) ≡ true
has_queued ch o n ws h = rw (map-append, has-append, h)

waits-IsPending : (s : System) (o' ch o : ℕ) → IsPending s ch o → IsPending (step s (waits o')) ch o
unfolding step wait
waits-IsPending s o' ch o p = elim (Bool-cases (leb o' s.cond.current_offset)) [
  | inl done ↦
      rw done (record {
        only = p.only;
        queue = p.queue;
        unclosed = p.unclosed;
        old = omega (arith, p.old);
      })
  | inr later ↦ rw later (record {
    only = All-append _ s.cond.waiting _ p.only (λ e. absurd (omega (arith, p.old)), tt);
    queue = has_queued ch o' s.next_ch s.cond.waiting p.queue;
    unclosed = p.unclosed;
    old = omega (arith, p.old);
  })
]

broadcasts-IsPending :
    (s : System) (b ch o : ℕ)
    → IsPending s ch o
    → leb o b ≡ false
    → IsPending (step s (broadcasts b)) ch o
unfolding step broadcast
broadcasts-IsPending s b ch o p e = record {
  only = loop-All _ b s.cond.waiting p.only;
  queue = loop-kept b ch o s.cond.waiting p.only ∙ rw (e, p.queue);
  unclosed =
      has-append ch s.closed _ ∙ rw (p.unclosed, loop-released b ch o s.cond.waiting p.only, e);
  old = p.old;
}

broadcasts-releases :
    (s : System) (b ch o : ℕ)
    → IsPending s ch o
    → leb o b ≡ true
    → has ch (step s (broadcasts b)).closed ≡ true
unfolding step broadcast
broadcasts-releases s b ch o p e =
    has-append ch s.closed _
    ∙ rw (p.unclosed, loop-released b ch o s.cond.waiting p.only, e, p.queue)

run-IsPending :
    (s : System) (calls : List Call) (ch o : ℕ)
    → IsPending s ch o
    → has ch (run s calls).closed ≡ reached o calls
unfolding run reached
run-IsPending s [] ch o p = p.unclosed
run-IsPending s (waits o' ∷ calls) ch o p =
    run-IsPending (step s (waits o')) calls ch o (waits-IsPending s o' ch o p)
run-IsPending s (broadcasts b ∷ calls) ch o p = elim (Bool-cases (leb o b)) [
  | inl due ↦
      rw due (run-closed (step s (broadcasts b)) calls ch (broadcasts-releases s b ch o p due))
  | inr later ↦
      rw later
        (run-IsPending (step s (broadcasts b)) calls ch o (broadcasts-IsPending s b ch o p later))
]

has_unseen : (n : ℕ) (xs : List ℕ) → ((x : ℕ) → Mem x xs → x < n) → has n xs ≡ false
unfolding has
has_unseen n [] h = refl
has_unseen n (x ∷ xs) h =
    ground (arith, h x mem-cons_self, has_unseen n xs (λ y m. h y (mem-cons_of_mem x m)))

WaitsFor-unseen :
    (n o : ℕ) (ws : List Wait) → ((x : ℕ) → Mem x (channels ws) → x < n) → WaitsFor n o ws
WaitsFor-unseen n o [] h = tt
WaitsFor-unseen n o (w ∷ ws) h = (
  λ e. absurd (omega (arith, h w.ch mem-cons_self)),
  WaitsFor-unseen n o ws (λ y m. h y (mem-cons_of_mem w.ch m)),
)

queued-IsPending : (s : System) (o : ℕ) → IsSound s → IsPending (queued s o) s.next_ch o
queued-IsPending s o v = record {
  only =
      All-append _ s.cond.waiting _
        (WaitsFor-unseen s.next_ch o s.cond.waiting (λ x m. v.made x (mem-append.1 (Or.inr m))))
        (λ e. refl, tt);
  queue = rw (map-append, has-append) (unfold has in ground arith);
  unclosed = has_unseen s.next_ch s.closed (λ x m. v.made x (mem-append.1 (Or.inl m)));
  old = omega arith;
}

-- A call of `Wait` that blocks, made after any calls, is released by the calls that follow exactly
-- if one of them is a broadcast of its offset or of a higher one.
pub wait_released :
    (offset o : ℕ) (before after : List Call)
    → (run (start offset) before).cond.current_offset < o
    → has
        (run (start offset) before).next_ch
        (run (step (run (start offset) before) (waits o)) after).closed
      ≡ reached o after
unfolding step wait
wait_released offset o before after h =
    rw (lt→leb o (run (start offset) before).cond.current_offset h) (
      run-IsPending (queued (run (start offset) before) o) after _ o
        (queued-IsPending (run (start offset) before) o (run-start-IsSound offset before)))
