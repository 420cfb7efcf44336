-- ===== src/Broker/Factories.antt =====
-- internal/sebbroker/factories.go: what the factories make a batcher of, the AddRecords of a topic.
mod Tests
use simple_commit_log.Base.{
  ℕ, zero, suc, ◌+◌, ◌-◌, ◌^◌, ◌≤◌, ◌<◌, ◌≡◌, refl, sym, ap, ap₂, ◌∙◌, List, [], ◌∷◌, ◌++◌, map,
  length, take, drop, total, Option, none, some, arith, subst,
}
use simple_commit_log.Errors.{Error, Result, ok, err, panic}
use simple_commit_log.Exec.{Exec, pure, ◌>>=◌}
use simple_commit_log.Helpy.{Slicey}
use simple_commit_log.Slice.{Slice, items, IsWf, of_list}
use simple_commit_log.Slice.Laws.{reslice_lem, reslice-items, items-of_list}
use simple_commit_log.Records.Batch.{Batch, batch_len}
use simple_commit_log.Topic.Files.{Key, Files, Storage, Compress}
use simple_commit_log.Topic.Open.{open_topic}
use simple_commit_log.Topic.State.{Topic, Config}
use simple_commit_log.Topic.Add.{add_records, offsets_from}
use simple_commit_log.Topic.Add.Offsets.{add_records_ok, length-offsets_from}
use simple_commit_log.Topic.Add.Outcome.{pair}
use simple_commit_log.Batcher.{
  BlockedAdd, AddResponse, Building, merged, deliver, persist_batch, null_add_records,
}
use simple_commit_log.Batcher.Deliver.{lens, channels, AreWf, batch_len-merged}

module _ {S H C G : Type 0} (slicey : Slicey) (cfg : Config S H C G) (now cache_now : ℕ) where
  -- The `persist` that NewBlockingBatcherFactory gives to its batcher.
  unfoldable pub persist_to_topic : Batch → Exec (Topic S C) (Slice ℕ)
  persist_to_topic batch = do
    offsets ← add_records slicey cfg now cache_now batch
    pure (of_list offsets)

  -- AddRecords of the batcher that NewNullBatcherFactory makes.
  unfoldable pub null_batcher_add : Batch → Exec (Topic S C) (Slice ℕ)
  null_batcher_add = null_add_records persist_to_topic

-- The topics that NewTopicFactory makes; `compression` is the one of `New` without options.
unfoldable pub new_topic_factory :
    {S H C G : Type 0}
    → (Key → Result ℕ)
    → (List ℕ → List ℕ)
    → Storage S H
    → Files C G
    → Option Compress
    → Key
    → S
    → C
    → Topic S C × Result (Unit {0})
new_topic_factory from_string sort storage cache compression topic_name =
    open_topic from_string sort (record {
      topic_name = topic_name;
      backing_storage = storage;
      cache = cache;
      compression = compression;
    })

-- The offsets from one on, in parts with these numbers of them.
abbrev pub ranges : ℕ → List ℕ → List (List ℕ)
ranges i [] = []
ranges i (n ∷ ns) = offsets_from n i ∷ ranges (i + n) ns

take-offsets_from :
    (n i k N : ℕ) → k + n ≤ N → take n (drop k (offsets_from N i)) ≡ offsets_from n (i + k)
unfolding offsets_from
take-offsets_from zero i k N h = refl
take-offsets_from (suc n) i zero (suc N) h = ap₂ ◌∷◌ {x = i} {y = i + 0} (omega arith) (
    take-offsets_from n (i + 1) 0 N (omega (arith, h))
    ∙ ap (offsets_from n) {x = i + 1 + 0} {y = i + 0 + 1} (omega arith))
take-offsets_from (suc n) i (suc k) (suc N) h =
    take-offsets_from (suc n) (i + 1) k N (omega (arith, h))
    ∙ ap (offsets_from (suc n)) {x = i + 1 + k} {y = i + suc k} (omega arith)
take-offsets_from (suc n) i k zero h = absurd (omega (arith, h))

-- Each caller's answer: on its channel, without an error, with its offsets.
pub record AnswersFrom (i : ℕ) (adds : List BlockedAdd) (rs : List AddResponse) : Type 0 where
  pub in_order : map (λ r. r.response) rs ≡ channels adds
  pub errors : map (λ r. r.error) rs ≡ map (λ a. none) adds
  pub content : map (λ r. items r.offsets) rs ≡ ranges i (lens adds)

deliver-AnswersFrom :
    (offsets : Slice ℕ) (N s i : ℕ) (adds : List BlockedAdd)
    → items offsets ≡ offsets_from N s
    → IsWf offsets
    → offsets.len ≡ N
    → i + total (lens adds) ≤ N
    → (rs : List AddResponse) × (deliver offsets none i adds ≡ ok rs) × AnswersFrom (s + i) adds rs
unfolding deliver
deliver-AnswersFrom offsets N s i [] has wf same fits =
    ([], refl, record { in_order = refl; errors = refl; content = refl })
deliver-AnswersFrom offsets N s i (a ∷ adds) has wf same fits =
    let n = batch_len a.batch in
    let part : Slice ℕ = record { array = drop i offsets.array; len = i + n - i } in
    let (rs, e, v) =
      deliver-AnswersFrom offsets N s (i + n) adds has wf same (omega (arith, fits)) in
    (
      record { response = a.response; offsets = part; error = none } ∷ rs,
      rw (reslice_lem offsets i (i + n) (omega arith) (omega (arith, wf, same, fits)), e) refl,
      record {
        in_order = ap (◌∷◌ a.response) v.in_order;
        errors = ap (◌∷◌ none) v.errors;
        content =
            ap₂ ◌∷◌
              (reslice-items offsets i (i + n) (omega arith) (omega (arith, same, fits))
                ∙ ap (λ m. take m (drop i (items offsets))) {x = i + n - i} {y = n} (omega arith)
                ∙ ap (λ xs. take n (drop i xs)) has
                ∙ take-offsets_from n s i N (omega (arith, fits)))
              (v.content
                ∙ ap (λ j. ranges j (lens adds)) {x = s + (i + n)} {y = s + i + n} (omega arith));
      },
    )

module _ {S H C G : Type 0} (slicey : Slicey) (cfg : Config S H C G) (now cache_now : ℕ) where
  -- Where a BlockingBatcher persists to a topic, for callers with slices for batches, whose merged batch
  -- fits in front of the last uint64 and is added: the topic is as AddRecords of the merged batch
  -- leaves it, and every caller is answered in the order of the calls, without an error, and with
  -- the offsets that follow those of the caller before it, one for each of its records, from the
  -- topic's next offset on.
  pub persist_batch-add_records :
      (b : Building) (t : Topic S C) (os : List ℕ)
      → AreWf b.blocked_callers
      → t.next_offset + batch_len (merged b) < 2 ^ 64
      → (add_records slicey cfg now cache_now (merged b) t).1 ≡ ok os
      → (rs : List AddResponse) × (persist_batch (persist_to_topic slicey cfg now cache_now) b t
          ≡ ((add_records slicey cfg now cache_now (merged b) t).0, ok rs))
        × AnswersFrom t.next_offset b.blocked_callers rs
  unfolding persist_batch persist_to_topic
  persist_batch-add_records b t os wf fits done =
      let added : add_records slicey cfg now cache_now (merged b) t
          ≡ ((add_records slicey cfg now cache_now (merged b) t).0, ok os) =
        pair done in
      let given : os ≡ offsets_from (batch_len (merged b)) t.next_offset =
        (add_records_ok slicey cfg now cache_now (merged b) t fits os done).1 in
      let (rs, e, v) =
        deliver-AnswersFrom (of_list os) (batch_len (merged b)) t.next_offset 0 b.blocked_callers
          (items-of_list os ∙ given) (omega arith)
          (ap length given ∙ length-offsets_from (batch_len (merged b)) t.next_offset)
          (omega (arith, batch_len-merged b wf)) in
      (
        rs,
        rw added (ap (λ r. ((add_records slicey cfg now cache_now (merged b) t).0, r)) e),
        subst (λ j. AnswersFrom j b.blocked_callers rs) {x = t.next_offset + 0} {y = t.next_offset}
            (omega arith) v,
      )
