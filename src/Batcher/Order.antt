-- ===== src/Batcher/Order.antt =====
-- What holds in every run of a blocking batcher.
use simple_commit_log.Base.{
  ℕ, ◌≡◌, refl, sym, ap, subst, ◌⊎◌, inl, inr, List, [], ◌∷◌, ◌++◌, map, length, total, Option,
  none, some, false, ◌||◌, leb, All, All-append, append_assoc, Bool-cases, total-append, arith,
  if◌then◌else◌,
}
use simple_commit_log.Base.Int.{ℤ}
use simple_commit_log.Errors.{Error, ok, err}
use simple_commit_log.Exec.{Exec}
use simple_commit_log.Slice.{Slice, IsWf}
use simple_commit_log.Records.Batch.{Batch, batch_len}
use simple_commit_log.Batcher.{
  BlockedAdd, AddResponse, Building, too_large, start_building, join_building, merged,
  persist_batch, after_response,
}
use simple_commit_log.Batcher.Deliver.{lens, channels, AreWf, persist_batch_ok, persist_batch_err}
use simple_commit_log.Batcher.Runs.{
  Event, sends, receives, expires, persists, System, enqueue, receive, expire, respond, flush,
  callers_crash, step_live, batcher_step, batcher_run, new_batcher,
}
use simple_commit_log.Topic.Add.Outcome.{pair}
use mathlib.Core.List.{map-append}

-- The batch that a caller sends is a slice.
abbrev pub IsValid : Event → Type 0
IsValid (sends a) = IsWf a.batch.sizes
IsValid receives = Unit
IsValid expires = Unit
IsValid persists = Unit

-- What the batcher relies on: `persist` does not panic, and where it gives no error, it gives one
-- offset for each record.
pub record Persists {P : Type 0} (persist : Batch → Exec P (Slice ℕ)) : Type 0 where
  pub returns :
      (batch : Batch) (p : P)
      → ((offsets : Slice ℕ) × ((persist batch p).1 ≡ ok offsets)
          × IsWf offsets
          × (offsets.len ≡ batch_len batch))
        ⊎ ((e : Error) × ((persist batch p).1 ≡ err e))

abbrev pub blocked : Option Building → List BlockedAdd
blocked none = []
blocked (some b) = b.blocked_callers

abbrev responses : List AddResponse → List ℕ
responses = map (λ r. r.response)

abbrev Counts : Option Building → Type 0
Counts none = Unit
Counts (some b) =
    (b.batch_bytes ≡ total (map (λ a. a.batch.records_data.len) b.blocked_callers))
    × (b.batch_records ≡ total (lens b.blocked_callers))

-- The callers that got through the check are, in the order in which they came: those answered,
-- those whose batch is being built, and those in the channel. The counters are those of the callers
-- whose batch is being built.
pub record Fair (answered : List AddResponse) (building : Option Building)
    (callers : List BlockedAdd) (accepted : List ℕ) : Type 0 where
  pub order : responses answered ++ (channels (blocked building) ++ channels callers) ≡ accepted
  pub slices : AreWf (blocked building)
  pub waiting : AreWf callers
  pub counts : Counts building

-- And nothing panicked.
pub record IsFair {P : Type 0} (s : System P) : Type 0 where
  pub parts : Fair s.answered s.building s.callers s.accepted
  pub running : s.crashed ≡ false

-- A caller whose response has as many offsets as its batch has records does not panic.
callers_go_on :
    (adds : List BlockedAdd) (rs : List AddResponse)
    → map (λ r. r.offsets.len) rs ≡ lens adds
    → callers_crash adds rs ≡ false
unfolding callers_crash after_response
callers_go_on [] rs h = refl
callers_go_on (a ∷ adds) [] h = refl
callers_go_on (a ∷ adds) (r ∷ rs) h =
    let rest = callers_go_on adds rs (cc h) in
    let as_many : r.offsets.len ≡ batch_len a.batch = cc h in ground (arith, as_many, rest)

module _ {P : Type 0} (persist : Batch → Exec P (Slice ℕ)) (bytes_soft_max : ℤ)
    (law : Persists persist) where
  enqueue-IsFair :
      (s : System P) (a : BlockedAdd)
      → IsWf a.batch.sizes
      → IsFair s
      → IsFair (enqueue persist bytes_soft_max s a)
  enqueue-IsFair s a wf v = record {
    parts = record {
      order = rw (map-append, ← v.parts.order, append_assoc, append_assoc) refl;
      slices = v.parts.slices;
      waiting = All-append _ s.callers (a ∷ []) v.parts.waiting (wf, tt);
      counts = v.parts.counts;
    };
    running = v.running;
  }

  receive-IsFair :
      (s : System P) (callers : List BlockedAdd) (building : Option Building)
      → IsFair s
      → Fair s.answered building callers s.accepted
      → IsFair (receive persist bytes_soft_max s callers building)
  unfolding start_building join_building
  receive-IsFair s [] building v w = v
  receive-IsFair s (a ∷ rest) none v w = record {
    parts = record {
      order = w.order;
      slices = (w.waiting.0, tt);
      waiting = w.waiting.1;
      counts = (omega arith, omega arith);
    };
    running = v.running;
  }
  receive-IsFair s (a ∷ rest) (some b) v w = record {
    parts = record {
      order = rw (map-append, append_assoc) w.order;
      slices = All-append _ b.blocked_callers (a ∷ []) w.slices (w.waiting.0, tt);
      waiting = w.waiting.1;
      counts = (
        rw (map-append, total-append) (omega (arith, w.counts.0)),
        rw (map-append, total-append) (omega (arith, w.counts.1)),
      );
    };
    running = v.running;
  }

  expire-IsFair :
      (s : System P) (building : Option Building)
      → IsFair s
      → Fair s.answered building s.callers s.accepted
      → IsFair (expire persist bytes_soft_max s building)
  expire-IsFair s none v w = v
  expire-IsFair s (some b) v w = record {
    parts = record { order = w.order; slices = w.slices; waiting = w.waiting; counts = w.counts };
    running = v.running;
  }

  answered-IsFair :
      (s : System P) (b : Building) (p : P) (rs : List AddResponse)
      → Fair s.answered (some b) s.callers s.accepted
      → responses rs ≡ channels b.blocked_callers
      → map (λ r. r.offsets.len) rs ≡ lens b.blocked_callers
      → IsFair (respond persist bytes_soft_max s b.blocked_callers (p, ok rs))
  answered-IsFair s b p rs w h complete = record {
    parts = record {
      order = rw (map-append, h, append_assoc) w.order;
      slices = tt;
      waiting = w.waiting;
      counts = tt;
    };
    running = callers_go_on b.blocked_callers rs complete;
  }

  persisted-IsFair :
      (s : System P) (b : Building)
      → IsFair s
      → Fair s.answered (some b) s.callers s.accepted
      → IsFair
          (respond persist bytes_soft_max s b.blocked_callers (persist_batch persist b s.store))
  persisted-IsFair s b v w = elim (law.returns (merged b) s.store) [
    | inl (offsets, h, wf, len) ↦
        let (rs, e, answers) = persist_batch_ok persist b w.slices (pair h) wf len in
        rw e (answered-IsFair s b _ rs w answers.in_order answers.complete)
    | inr (e, h) ↦
        let (rs, e', answers) = persist_batch_err persist b w.slices (pair h) in
        rw e' (answered-IsFair s b _ rs w answers.in_order answers.complete)
  ]

  flush-IsFair :
      (s : System P) (building : Option Building)
      → IsFair s
      → Fair s.answered building s.callers s.accepted
      → IsFair (flush persist bytes_soft_max s building)
  flush-IsFair s none v w = v
  flush-IsFair s (some b) v w = elim (Bool-cases b.cancelled) [
    | inl ended ↦ simp ended (persisted-IsFair s b v w)
    | inr collecting ↦ simp collecting v
  ]

  live-IsFair :
      (s : System P) (e : Event)
      → IsValid e
      → IsFair s
      → IsFair (step_live persist bytes_soft_max s e)
  unfolding step_live
  live-IsFair s (sends a) wf v =
      elim (Bool-cases (too_large bytes_soft_max a.batch || leb 32 (length s.callers))) [
        | inl refused ↦ rw refused v
        | inr free ↦ rw free (enqueue-IsFair s a wf v)
      ]
  live-IsFair s receives wf v = receive-IsFair s s.callers s.building v v.parts
  live-IsFair s expires wf v = expire-IsFair s s.building v v.parts
  live-IsFair s persists wf v = flush-IsFair s s.building v v.parts

  running_step :
      (s : System P) (e : Event)
      → s.crashed ≡ false
      → batcher_step persist bytes_soft_max s e ≡ step_live persist bytes_soft_max s e
  unfolding batcher_step
  running_step s e running =
      ap (λ crashed. if crashed then s else step_live persist bytes_soft_max s e) running

  step-IsFair :
      (s : System P) (e : Event)
      → IsValid e
      → IsFair s
      → IsFair (batcher_step persist bytes_soft_max s e)
  step-IsFair s e wf v = subst IsFair (sym (running_step s e v.running)) (live-IsFair s e wf v)

  run-IsFair :
      (s : System P) (es : List Event)
      → All IsValid es
      → IsFair s
      → IsFair (batcher_run persist bytes_soft_max s es)
  unfolding batcher_run
  run-IsFair s [] wf v = v
  run-IsFair s (e ∷ es) wf v =
      run-IsFair (batcher_step persist bytes_soft_max s e) es wf.1 (step-IsFair s e wf.0 v)

  -- In every run of a new batcher with valid batches, where `persist` gives each record an offset or
  -- returns an error: the callers that got through the check are, in the order in which they came,
  -- those answered, those whose batch is being built and those in the channel; the counters are
  -- those of the callers whose batch is being built; and nothing panics, neither the goroutine nor a
  -- caller that checks the number of its offsets.
  pub batcher_run-IsFair :
      (p : P) (es : List Event)
      → All IsValid es
      → IsFair (batcher_run persist bytes_soft_max (new_batcher p) es)
  batcher_run-IsFair p es wf = run-IsFair (new_batcher p) es wf (record {
    parts = record { order = refl; slices = tt; waiting = tt; counts = tt };
    running = refl;
  })
