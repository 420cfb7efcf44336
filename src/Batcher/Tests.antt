-- ===== src/Batcher/Tests.antt =====
-- Runs of the code of internal/sebbroker/blockingbatcher.go, and its theorems at concrete inputs.
use simple_commit_log.Base.{
  ℕ, ◌+◌, ◌≡◌, refl, List, [], ◌∷◌, none, some, true, replicate, arith, inl, map,
}
use simple_commit_log.Base.Int.{pos}
use simple_commit_log.Errors.{ok, err, other}
use simple_commit_log.Exec.{Exec}
use simple_commit_log.Slice.{Slice, items, of_list, reslice, append, fill}
use simple_commit_log.Records.Batch.{Batch, batch_len, new_batch}
use simple_commit_log.Records.Tests.{three}
use simple_commit_log.Topic.Add.{offsets_from}
use simple_commit_log.Topic.Add.Offsets.{length-offsets_from}
use simple_commit_log.Batcher.{
  AddResponse, Building, too_large, start_building, join_building, collect, merged, deliver,
  persist_batch, after_response,
}
use simple_commit_log.Batcher.Deliver.{Answers, merged_lem, persist_batch_ok, persist_batch_err}
use simple_commit_log.Batcher.Runs.{
  Event, sends, receives, persists, callers_crash, step_live, batcher_step, batcher_run,
  new_batcher,
}
use simple_commit_log.Batcher.Order.{Persists, IsFair, batcher_run-IsFair}
use mathlib.Core.List.{flatten}

-- A log that counts its records.
abbrev count : Batch → Exec ℕ (Slice ℕ)
count batch n = (n + batch_len batch, ok (of_list (offsets_from (batch_len batch) n)))

count-Persists : Persists count
count-Persists = record {
  returns = λ batch n. inl (
    of_list (offsets_from (batch_len batch) n),
    refl,
    omega arith,
    length-offsets_from (batch_len batch) n,
  );
}

abbrev one : Batch
one = record { sizes = of_list (1 ∷ []); records_data = of_list (20 ∷ []) }

abbrev two_callers : Building
two_callers = record {
  blocked_callers =
      record { batch = three; response = 0 } ∷ record { batch = one; response = 1 } ∷ [];
  batch_bytes = 6;
  batch_records = 4;
  cancelled = true;
}

abbrev events : List Event
events =
    sends (record { batch = three; response = 0 })
    ∷ sends (record { batch = one; response = 1 })
    ∷ receives
    ∷ receives
    ∷ persists
    ∷ sends (record { batch = one; response = 2 })
    ∷ receives
    ∷ []

program : Unit {0}
unfolding too_large start_building join_building collect merged deliver persist_batch step_live
    batcher_step batcher_run callers_crash after_response new_batch reslice append fill offsets_from
program = tt

-- The second batch reaches the limit, and both callers are answered.
answers :
    map (λ r. items r.offsets) (batcher_run count (pos 6) (new_batcher 7) events).answered
    ≡ (7 ∷ 8 ∷ 9 ∷ []) ∷ (10 ∷ []) ∷ []
unfolding program
answers = refl

batcher_run-IsFair_example : IsFair (batcher_run count (pos 6) (new_batcher 7) events)
batcher_run-IsFair_example =
    batcher_run-IsFair count (pos 6) count-Persists 7 events
      (omega arith, (omega arith, (tt, (tt, (tt, (omega arith, (tt, tt)))))))

both_answered :
    (rs : List AddResponse) × (persist_batch count two_callers 7
      ≡ (7 + batch_len (merged two_callers), ok rs))
    × Answers
        (of_list (offsets_from (batch_len (merged two_callers)) 7))
        none
        0
        two_callers.blocked_callers
        rs
both_answered =
    persist_batch_ok count two_callers (omega arith, (omega arith, tt)) refl (omega arith)
      (length-offsets_from (batch_len (merged two_callers)) 7)

-- A log that takes no records.
abbrev refuse : Batch → Exec ℕ (Slice ℕ)
refuse batch n = (n, err other)

persist_batch_err_example :
    (rs : List AddResponse) × (persist_batch refuse two_callers 7 ≡ (7, ok rs))
    × Answers
        (of_list (replicate (batch_len (merged two_callers)) 0))
        (some other)
        0
        two_callers.blocked_callers
        rs
persist_batch_err_example =
    persist_batch_err refuse two_callers (omega arith, (omega arith, tt)) refl

both_callers :
    (items (merged two_callers).records_data
      ≡ flatten (map (λ a. items a.batch.records_data) two_callers.blocked_callers))
    × (items (merged two_callers).sizes
        ≡ flatten (map (λ a. items a.batch.sizes) two_callers.blocked_callers))
both_callers = merged_lem two_callers
