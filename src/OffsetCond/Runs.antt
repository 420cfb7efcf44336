-- ===== src/OffsetCond/Runs.antt =====
-- Sequences of calls of `Wait` and `Broadcast`, in any order.
use simple_commit_log.Base.{
  ℕ, suc, ◌<◌, List, [], ◌∷◌, ◌++◌, All, All-append, Bool-cases, inl, inr, leb, arith, append_assoc,
}
use simple_commit_log.OffsetCond.{wait, Call, waits, broadcasts, System, step, run, start}
use simple_commit_log.OffsetCond.Broadcasts.{channels, loop-later, loop-perm}
use mathlib.Core.List.{
  Perm, Nodup, Nodup-nil, Nodup-cons, Mem, mem-cons, not-mem-nil, perm_append_comm, map-append,
}
use mathlib.Core.Logic.Or
use native.Mathlib.Bridge.{le_prop}
use mathlib.Core.List.Perm

-- The channels that were made and put into the list, released or not.
abbrev pub all_channels : System → List ℕ
all_channels s = s.closed ++ channels s.cond.waiting

pub record IsSound (s : System) : Type 0 where
  -- Nobody waits for an offset that was reached.
  pub later : All (λ w. s.cond.current_offset < w.offset) s.cond.waiting
  -- No channel is twice among the waiting and the closed: none is closed twice.
  pub distinct : Nodup (all_channels s)
  pub made : (ch : ℕ) → Mem ch (all_channels s) → ch < s.next_ch

start-IsSound : (offset : ℕ) → IsSound (start offset)
unfolding start
start-IsSound offset = record {
  later = tt;
  distinct = Nodup-nil;
  made = λ ch m. absurd (not-mem-nil m);
}

broadcasts-perm :
    (s : System) (o : ℕ) → Perm (all_channels (step s (broadcasts o))) (all_channels s)
unfolding step
broadcasts-perm s o = rw append_assoc (Perm.append_left s.closed (loop-perm o s.cond.waiting))

-- The state behind a call of `Wait` that blocks.
abbrev pub queued : System → ℕ → System
queued s o = record s {
  cond = record (s.cond) {
    waiting = s.cond.waiting ++ (record { offset = o; ch = s.next_ch } ∷ []);
  };
  next_ch = suc s.next_ch;
}

queued-perm : (s : System) (o : ℕ) → Perm (all_channels (queued s o)) (s.next_ch ∷ all_channels s)
queued-perm s o =
    rw (map-append, ← append_assoc) (perm_append_comm (all_channels s) (s.next_ch ∷ []))

queued-IsSound : (s : System) (o : ℕ) → IsSound s → s.cond.current_offset < o → IsSound (queued s o)
queued-IsSound s o v h = record {
  later = All-append _ s.cond.waiting _ v.later (h, tt);
  distinct =
      (Perm.Nodup-iff (queued-perm s o)).1
        (Nodup-cons.1 (λ m. absurd (omega (arith, v.made s.next_ch m)), v.distinct));
  made = λ ch m.
      Or.elim le_prop (mem-cons.0 ((Perm.mem_iff (queued-perm s o)).0 m)) (λ e. omega arith)
        (λ old. omega (arith, v.made ch old));
}

step-IsSound : (s : System) (c : Call) → IsSound s → IsSound (step s c)
unfolding step wait
step-IsSound s (waits o) v = elim (Bool-cases (leb o s.cond.current_offset)) [
  | inl reached ↦
      rw reached (record {
        later = v.later;
        distinct = v.distinct;
        made = λ ch m. omega (arith, v.made ch m);
      })
  | inr later ↦ rw later (queued-IsSound s o v (ground arith))
]
step-IsSound s (broadcasts o) v = record {
  later = loop-later o s.cond.waiting;
  distinct = (Perm.Nodup-iff (broadcasts-perm s o)).1 v.distinct;
  made = λ ch m. v.made ch ((Perm.mem_iff (broadcasts-perm s o)).0 m);
}

run-IsSound : (s : System) (calls : List Call) → IsSound s → IsSound (run s calls)
unfolding run
run-IsSound s [] v = v
run-IsSound s (c ∷ calls) v = run-IsSound (step s c) calls (step-IsSound s c v)

-- Whatever calls are made, and in whatever order: those that still wait, wait for an offset above
-- the last one broadcast, and no channel is closed twice or waits after it was closed.
pub run-start-IsSound : (offset : ℕ) (calls : List Call) → IsSound (run (start offset) calls)
run-start-IsSound offset calls = run-IsSound (start offset) calls (start-IsSound offset)
