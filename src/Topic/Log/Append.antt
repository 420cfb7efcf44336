-- ===== src/Topic/Log/Append.antt =====
-- AddRecords of internal/sebtopic/topic.go puts a batch behind a log.
use simple_commit_log.Base.{
  ℕ, ◌+◌, ◌^◌, ◌<◌, ◌≡◌, refl, sym, ap, subst, ◌∙◌, List, [], ◌∷◌, ◌++◌, All, arith,
}
use simple_commit_log.Errors.{ok}
use simple_commit_log.Helpy.{Slicey}
use simple_commit_log.Records.Batch.{Batch, batch_len}
use simple_commit_log.Topic.State.{Topic, Config}
use simple_commit_log.Topic.Add.{add_records}
use simple_commit_log.Topic.Add.Offsets.{add_records_ok}
use simple_commit_log.Topic.Log.{IsStored}
use simple_commit_log.Topic.Log.Locate.{Starts, count, offsets}
use simple_commit_log.Topic.Log.Whole.{IsLog}

Starts_append :
    (s : ℕ) (log : List (ℕ × Batch)) (b : Batch)
    → Starts s log
    → Starts s (log ++ ((s + count log, b) ∷ []))
Starts_append s [] b h = (omega arith, tt)
Starts_append s (e ∷ log) b h = (
  h.0,
  subst (λ o. Starts (s + batch_len e.1) (log ++ ((o, b) ∷ []))) {x = s + batch_len e.1 + count log}
      {y = s + count (e ∷ log)} (omega arith) (Starts_append (s + batch_len e.1) log b h.1),
)

count_append :
    (log : List (ℕ × Batch)) (o : ℕ) (b : Batch)
    → count (log ++ ((o, b) ∷ [])) ≡ count log + batch_len b
count_append [] o b = omega arith
count_append (e ∷ log) o b = omega (arith, count_append log o b)

offsets_append :
    (log : List (ℕ × Batch)) (o : ℕ) (b : Batch)
    → offsets (log ++ ((o, b) ∷ [])) ≡ offsets log ++ (o ∷ [])
offsets_append [] o b = refl
offsets_append (e ∷ log) o b = ap (◌∷◌ e.0) (offsets_append log o b)

stored_append :
    (log : List (ℕ × Batch)) (o : ℕ) (b : Batch)
    → All (λ e. IsStored e.1) log
    → IsStored b
    → All (λ e. IsStored e.1) (log ++ ((o, b) ∷ []))
stored_append [] o b st h = (h, tt)
stored_append (e ∷ log) o b st h = (st.0, stored_append log o b st.1 h)

module _ {S H C G : Type 0} (slicey : Slicey) (cfg : Config S H C G) (now cache_now : ℕ) (b : Batch)
    (t : Topic S C) (log : List (ℕ × Batch)) where
  -- Where the topic stands for a log, and AddRecords returns offsets for a valid batch with records
  -- whose last offset is below 2^64, the topic then stands for the log with the batch behind it.
  pub add_records-IsLog :
      (os : List ℕ)
      → (add_records slicey cfg now cache_now b t).1 ≡ ok os
      → IsLog t log
      → IsStored b
      → t.next_offset + batch_len b < 2 ^ 64
      → IsLog (add_records slicey cfg now cache_now b t).0 (log ++ ((t.next_offset, b) ∷ []))
  add_records-IsLog os done l st fits =
      let (_, _, next, starts) = add_records_ok slicey cfg now cache_now b t fits os done in
      record {
        has_offsets =
            starts
            ∙ ap (λ os. os ++ (t.next_offset ∷ [])) l.has_offsets
            ∙ sym (offsets_append log t.next_offset b);
        starts =
            subst (λ o. Starts 0 (log ++ ((o, b) ∷ []))) {x = 0 + count log} {y = t.next_offset}
              (omega (arith, l.next)) (Starts_append 0 log b l.starts);
        next = omega (arith, next, l.next, count_append log t.next_offset b);
        stored = stored_append log t.next_offset b l.stored st;
      }
