-- ===== src/Batcher.antt =====
-- internal/sebbroker/blockingbatcher.go and nullbatcher.go: batchers, which collect the records of
-- several callers and persist them together. `persist` and its state `P` are parameters, and a
-- response channel is a number.
pub mod Deliver
pub mod Runs
pub mod Order
mod Tests
use simple_commit_log.Base.{
  ℕ, suc, ◌+◌, List, [], ◌∷◌, ◌++◌, replicate, length, Option, none, some, Bool, true, false, ◌&&◌,
  ◌||◌, not, ◌==◌, ltb, if◌then◌else◌,
}
use simple_commit_log.Base.Int.{ℤ, pos, ltb_ℤ, leb_ℤ}
use simple_commit_log.Errors.{Error, Result, ok, err, panic, payload_too_large, ◌>>=◌}
use simple_commit_log.Exec.{Exec}
use simple_commit_log.Slice.{Slice, items, of_list, reslice, append}
use simple_commit_log.Records.Batch.{Batch, batch_len, new_batch}

-- `blockedAdd`
pub record BlockedAdd : Type 0 where
  pub batch : Batch
  pub response : ℕ

-- `addResponse`, with the channel that it is sent on.
pub record AddResponse : Type 0 where
  pub response : ℕ
  pub offsets : Slice ℕ
  pub error : Option Error

-- The variables of `collectBatches` while it builds a batch; `cancelled` says that `ctx` has ended.
pub record Building : Type 0 where
  pub blocked_callers : List BlockedAdd
  pub batch_bytes : ℕ
  pub batch_records : ℕ
  pub cancelled : Bool

-- The check of `AddRecords`: true if the batch is refused.
unfoldable pub too_large : ℤ → Batch → Bool
too_large bytes_soft_max batch =
    ltb_ℤ bytes_soft_max (pos batch.records_data.len) && ltb 1 (batch_len batch)

-- `AddRecords` behind the response.
unfoldable pub after_response : Batch → AddResponse → Result (Slice ℕ)
after_response batch r =
    if not (r.offsets.len == batch_len batch)
    then panic
    else elim r.error [ none ↦ ok r.offsets | some e ↦ err e ]

-- The first caller of a new batch.
unfoldable pub start_building : BlockedAdd → Building
start_building a = record {
  blocked_callers = a ∷ [];
  batch_bytes = a.batch.records_data.len;
  batch_records = batch_len a.batch;
  cancelled = false;
}

-- One more caller for the batch; from the soft limit on, the context is cancelled.
unfoldable pub join_building : ℤ → Building → BlockedAdd → Building
join_building bytes_soft_max b a = record {
  blocked_callers = b.blocked_callers ++ (a ∷ []);
  batch_bytes = b.batch_bytes + a.batch.records_data.len;
  batch_records = b.batch_records + batch_len a.batch;
  cancelled = b.cancelled || leb_ℤ bytes_soft_max (pos (b.batch_bytes + a.batch.records_data.len));
}

-- The loops that put the callers' batches together.
unfoldable pub collect : List BlockedAdd → Slice ℕ × Slice ℕ → Slice ℕ × Slice ℕ
collect [] s = s
collect (a ∷ adds) s =
    collect adds (append s.0 (items a.batch.records_data), append s.1 (items a.batch.sizes))

-- A slice of length 0 with a capacity.
abbrev pub make : ℕ → Slice ℕ
make capacity = record { array = replicate capacity 0; len = 0 }

unfoldable pub merged : Building → Batch
merged b =
    let (record_data, sizes) =
      collect b.blocked_callers (make b.batch_bytes, make b.batch_records) in
    new_batch sizes record_data

-- The loop that unblocks the callers.
unfoldable pub deliver : Slice ℕ → Option Error → ℕ → List BlockedAdd → Result (List AddResponse)
deliver offsets error offset_index [] = ok []
deliver offsets error offset_index (a ∷ adds) = do
  part ← reslice offsets offset_index (offset_index + batch_len a.batch)
  rest ← deliver offsets error (offset_index + batch_len a.batch) adds
  ok (record { response = a.response; offsets = part; error = error } ∷ rest)

module _ {P : Type 0} (persist : Batch → Exec P (Slice ℕ)) where
  -- What follows `persist` for `n` records: all offsets are 0 in the answer to an error.
  abbrev pub persisted : ℕ → List BlockedAdd → P × Result (Slice ℕ) → P × Result (List AddResponse)
  persisted n adds (p, ok offsets) = (p, deliver offsets none 0 adds)
  persisted n adds (p, err e) = (p, deliver (of_list (replicate n 0)) (some e) 0 adds)
  persisted n adds (p, panic) = (p, panic)

  -- The case of `ctx.Done()`.
  unfoldable pub persist_batch : Building → Exec P (List AddResponse)
  persist_batch b p = persisted (batch_len (merged b)) b.blocked_callers (persist (merged b) p)

  -- `nullBatcher.AddRecords`
  abbrev pub checked : Batch → P × Result (Slice ℕ) → P × Result (Slice ℕ)
  checked batch (p, ok offsets) =
      (p, if not (offsets.len == batch_len batch) then panic else ok offsets)
  checked batch (p, err e) = (p, err e)
  checked batch (p, panic) = (p, panic)

  unfoldable pub null_add_records : Batch → Exec P (Slice ℕ)
  null_add_records batch p = checked batch (persist batch p)
