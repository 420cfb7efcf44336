-- ===== src/OffsetCond.antt =====
-- internal/sebtopic/offsetcond.go: callers that wait for an offset. Each call holds the mutex while
-- it changes the state, so a run of the program is a sequence of such calls. A channel is a number,
-- and the channels that were closed are listed in the order of the calls of `close`.
pub mod Broadcasts
pub mod Runs
pub mod Release
mod Tests
use simple_commit_log.Base.{
  ℕ, suc, List, [], ◌∷◌, ◌++◌, leb, if◌then◌else◌, Option, none, some, Bool, true, false, length,
}
use simple_commit_log.Errors.{Error, Result, ok, err}

-- `wait`
pub record Wait : Type 0 where
  pub offset : ℕ
  pub ch : ℕ

pub record OffsetCond : Type 0 where
  pub waiting : List Wait
  pub current_offset : ℕ

-- `NewOffsetCond`
unfoldable pub new_offset_cond : ℕ → OffsetCond
new_offset_cond offset = record { waiting = []; current_offset = offset }

-- The loop of `Broadcast`: what stays in the list, and the channels that are closed.
unfoldable pub broadcast_loop : ℕ → List Wait → List Wait × List ℕ
broadcast_loop offset [] = ([], [])
broadcast_loop offset (v ∷ next) =
    let (stay, closed) = broadcast_loop offset next in
    if leb v.offset offset then (stay, v.ch ∷ closed) else (v ∷ stay, closed)

-- `Broadcast`: the new state, and the channels that it closes.
unfoldable pub broadcast : OffsetCond → ℕ → OffsetCond × List ℕ
broadcast c offset =
    let (stay, closed) = broadcast_loop offset c.waiting in
    (record { waiting = stay; current_offset = offset }, closed)

-- `Wait` up to the unlock: true if it returns at once, else the new channel is in the list.
unfoldable pub wait : OffsetCond → ℕ → ℕ → OffsetCond × Bool
wait c ch offset =
    if leb offset c.current_offset
    then (c, true)
    else (record c { waiting = c.waiting ++ (record { offset = offset; ch = ch } ∷ []) }, false)

-- The `select` of `Wait`: it can return nil if the channel is closed, and the context's error if the
-- context has ended. Where both hold, Go picks either: `pick` says which.
unfoldable pub select_wait : Bool → Option Error → Bool → Option (Result (Unit {0}))
select_wait true none pick = some (ok tt)
select_wait true (some e) pick = if pick then some (ok tt) else some (err e)
select_wait false (some e) pick = some (err e)
select_wait false none pick = none

-- `Waiting`
unfoldable pub waiting_len : OffsetCond → ℕ
waiting_len c = length c.waiting

-- A sequence of calls. A call of `Wait` makes a channel that was never used before.
pub data Call : Type 0 where
  waits : ℕ → Call
  broadcasts : ℕ → Call

pub record System : Type 0 where
  pub cond : OffsetCond
  pub next_ch : ℕ
  pub closed : List ℕ

unfoldable pub step : System → Call → System
unfolding wait broadcast
step s (waits offset) = record s {
  cond = (wait s.cond s.next_ch offset).0;
  next_ch = suc s.next_ch;
}
step s (broadcasts offset) = record s {
  cond = (broadcast s.cond offset).0;
  closed = s.closed ++ (broadcast s.cond offset).1;
}

unfoldable pub run : System → List Call → System
run s [] = s
run s (c ∷ calls) = run (step s c) calls

-- A new OffsetCond, before any call.
unfoldable pub start : ℕ → System
unfolding new_offset_cond
start offset = record { cond = new_offset_cond offset; next_ch = 0; closed = [] }
