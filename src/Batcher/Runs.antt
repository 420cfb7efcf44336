-- ===== src/Batcher/Runs.antt =====
-- Runs of a blocking batcher: its callers, the goroutine of `collectBatches`, and the clock that ends
-- the context, in any interleaving.
use simple_commit_log.Base.{
  ℕ, List, [], ◌∷◌, ◌++◌, length, Option, none, some, Bool, true, false, ◌||◌, leb, if◌then◌else◌,
}
use simple_commit_log.Base.Int.{ℤ}
use simple_commit_log.Errors.{Result, ok, err, panic}
use simple_commit_log.Exec.{Exec}
use simple_commit_log.Slice.{Slice}
use simple_commit_log.Records.Batch.{Batch}
use simple_commit_log.Batcher.{
  BlockedAdd, AddResponse, Building, too_large, start_building, join_building, persist_batch,
  after_response,
}

-- A caller sends its batch, `collectBatches` receives one, the context ends by the clock, and
-- `collectBatches` takes the case of `ctx.Done()`.
pub data Event : Type 0 where
  sends : BlockedAdd → Event
  receives expires persists : Event

-- The state of the program: the channel `callers`, the batch that is built, the responses sent, the
-- channels of the callers that got through the check, and the state of `persist`.
pub record System (P : Type 0) : Type 0 where
  pub callers : List BlockedAdd
  pub building : Option Building
  pub answered : List AddResponse
  pub accepted : List ℕ
  pub store : P
  pub crashed : Bool

-- The callers go on with the responses on their channels: true if one of them panics.
unfoldable pub callers_crash : List BlockedAdd → List AddResponse → Bool
callers_crash [] rs = false
callers_crash (a ∷ adds) [] = false
callers_crash (a ∷ adds) (r ∷ rs) =
    let rest = callers_crash adds rs in
    elim (after_response a.batch r) [ ok offsets ↦ rest | err e ↦ rest | panic ↦ true ]

module _ {P : Type 0} (persist : Batch → Exec P (Slice ℕ)) (bytes_soft_max : ℤ) where
  abbrev pub enqueue : System P → BlockedAdd → System P
  enqueue s a = record s {
    callers = s.callers ++ (a ∷ []);
    accepted = s.accepted ++ (a.response ∷ []);
  }

  abbrev pub receive : System P → List BlockedAdd → Option Building → System P
  receive s [] building = s
  receive s (a ∷ rest) none = record s { callers = rest; building = some (start_building a) }
  receive s (a ∷ rest) (some b) = record s {
    callers = rest;
    building = some (join_building bytes_soft_max b a);
  }

  abbrev pub expire : System P → Option Building → System P
  expire s none = s
  expire s (some b) = record s { building = some (record b { cancelled = true }) }

  abbrev pub respond : System P → List BlockedAdd → P × Result (List AddResponse) → System P
  respond s adds (p, ok rs) = record s {
    building = none;
    answered = s.answered ++ rs;
    store = p;
    crashed = callers_crash adds rs;
  }
  respond s adds (p, err e) = record s { store = p; crashed = true }
  respond s adds (p, panic) = record s { store = p; crashed = true }

  abbrev pub flush : System P → Option Building → System P
  flush s none = s
  flush s (some b) =
      if b.cancelled then respond s b.blocked_callers (persist_batch persist b s.store) else s

  -- One event. The channel has room for 32 batches; an event that cannot happen in a state leaves
  -- it as it is.
  unfoldable pub step_live : System P → Event → System P
  step_live s (sends a) =
      if too_large bytes_soft_max a.batch || leb 32 (length s.callers) then s else enqueue s a
  step_live s receives = receive s s.callers s.building
  step_live s expires = expire s s.building
  step_live s persists = flush s s.building

  -- Behind a panic nothing happens any more.
  unfoldable pub batcher_step : System P → Event → System P
  batcher_step s e = if s.crashed then s else step_live s e

  unfoldable pub batcher_run : System P → List Event → System P
  batcher_run s [] = s
  batcher_run s (e ∷ es) = batcher_run (batcher_step s e) es

-- A new batcher, where `persist` has the state `p`.
abbrev pub new_batcher : {P : Type 0} → P → System P
new_batcher p = record {
  callers = [];
  building = none;
  answered = [];
  accepted = [];
  store = p;
  crashed = false;
}
