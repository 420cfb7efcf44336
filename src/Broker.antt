-- ===== src/Broker.antt =====
-- internal/sebbroker/broker.go: the broker, which keeps the topics that it has opened in a map. Each
-- operation below is one call; the calls of several clients are a sequence of them.
pub mod Create
pub mod Factories
pub mod Example
mod Tests
use simple_commit_log.Base.{
  ℕ, zero, suc, List, [], ◌∷◌, Option, none, some, Bool, true, false, ◌==◌, not, if◌then◌else◌,
}
use simple_commit_log.Base.Int.{ℤ, pos, negsuc}
use simple_commit_log.Errors.{Error, Result, ok, err, panic, topic_not_found, topic_already_exists}
use simple_commit_log.Exec.{Exec, pure, raise, continue, ◌>>=◌}
use simple_commit_log.Helpy.{Slicey}
use simple_commit_log.Slice.{Slice}
use simple_commit_log.Records.Batch.{Batch, records}
use simple_commit_log.Topic.Files.{Key}
use simple_commit_log.Names.{Entries, lookup, put}

-- What the broker calls, on topics with their batchers `T` that share the storages `W`:
-- `topicFactory` with `batcherFactory`, which cannot fail, `AddRecords` of the batcher,
-- `OffsetCond.Wait`, and the methods of a topic. A context is what it reports as time goes on.
pub record Topics (W T : Type 0) : Type 0 where
  pub make_topic : Key → Exec W T
  pub next_offset : T → ℕ
  pub batcher_add : Batch → Exec (W × T) (List ℕ)
  pub wait_for : (ℕ → Option Error) → ℕ → Exec (W × T) (Unit {0})
  pub read_topic :
      (ℕ → Option Error) → Batch → ℕ → ℤ → ℤ → W × T → (W × T) × Batch × Result (Unit {0})
  pub topic_metadata : Exec (W × T) (ℕ × Option ℕ)

-- `Broker`
pub record Broker (W T : Type 0) : Type 0 where
  pub auto_create_topics : Bool
  pub topic_batchers : Entries T
  pub world : W

module _ {W T : Type 0} (topics : Topics W T) where
  -- `makeTopicBatcher`
  abbrev pub in_world : {A : Type 0} → Broker W T → W × Result A → Broker W T × Result A
  in_world s (w, r) = (record s { world = w }, r)

  unfoldable pub make_topic_batcher : Key → Exec (Broker W T) T
  make_topic_batcher topic_name s = in_world s (topics.make_topic topic_name s.world)

  -- A store to the map.
  abbrev pub set_topic : Key → T → Exec (Broker W T) T
  set_topic topic_name tb s =
      (record s { topic_batchers = put topic_name tb s.topic_batchers }, ok tb)

  -- `getTopicBatcher` behind the lookup.
  abbrev pub found_or_made : Key → Option T → Exec (Broker W T) T
  found_or_made topic_name (some tb) s = (s, ok tb)
  found_or_made topic_name none s =
      if not s.auto_create_topics
      then (s, err topic_not_found)
      else continue (make_topic_batcher topic_name s) (set_topic topic_name)

  -- `getTopicBatcher`
  unfoldable pub get_topic_batcher : Key → Exec (Broker W T) T
  get_topic_batcher topic_name s = found_or_made topic_name (lookup topic_name s.topic_batchers) s

  -- `CreateTopic` behind the lookup, and behind the new topic.
  abbrev pub keep_if_new : Key → T → Exec (Broker W T) (Unit {0})
  keep_if_new topic_name tb s =
      if not (topics.next_offset tb == 0)
      then (s, err topic_already_exists)
      else (record s { topic_batchers = put topic_name tb s.topic_batchers }, ok tt)

  abbrev pub create_if_missing : Key → Option T → Exec (Broker W T) (Unit {0})
  create_if_missing topic_name (some tb) s = (s, err topic_already_exists)
  create_if_missing topic_name none s =
      continue (make_topic_batcher topic_name s) (keep_if_new topic_name)

  -- `CreateTopic`
  unfoldable pub create_topic : Key → Exec (Broker W T) (Unit {0})
  create_topic topic_name s = create_if_missing topic_name (lookup topic_name s.topic_batchers) s

  -- The broker after a call on a topic, which changes the topic that the map points to.
  abbrev after_call : Key → Broker W T → W × T → Broker W T
  after_call topic_name s (w, t) = record s {
    world = w;
    topic_batchers = put topic_name t s.topic_batchers;
  }

  abbrev called : {A : Type 0} → Key → Broker W T → (W × T) × Result A → Broker W T × Result A
  called topic_name s (wt, r) = (after_call topic_name s wt, r)

  abbrev pub on_topic : {A : Type 0} → Key → Exec (W × T) A → T → Exec (Broker W T) A
  on_topic topic_name m tb s = called topic_name s (m (s.world, tb))

  -- `AddRecords`
  unfoldable pub broker_add_records : Key → Batch → Exec (Broker W T) (List ℕ)
  broker_add_records topic_name batch = do
    tb ← get_topic_batcher topic_name
    on_topic topic_name (topics.batcher_add batch) tb

  -- `Metadata`
  unfoldable pub broker_metadata : Key → Exec (Broker W T) (ℕ × Option ℕ)
  broker_metadata topic_name = do
    tb ← get_topic_batcher topic_name
    on_topic topic_name topics.topic_metadata tb

  -- The outcome of a read: the caller's batch comes back in any case.
  abbrev Read : Type 0 → Type 0
  Read A = Broker W T × Batch × Result A

  abbrev read_done :
      {A : Type 0}
      → Key
      → Broker W T
      → (Batch → Result A)
      → (W × T) × Batch × Result (Unit {0})
      → Read A
  read_done topic_name s next (wt, b, ok _) = (after_call topic_name s wt, b, next b)
  read_done topic_name s next (wt, b, err e) = (after_call topic_name s wt, b, err e)
  read_done topic_name s next (wt, b, panic) = (after_call topic_name s wt, b, panic)

  abbrev one_record : Slicey → Key → Batch → ℕ → Broker W T × Result T → Read (Slice ℕ)
  one_record slicey topic_name b offset (s, ok tb) =
      read_done topic_name s (λ b'. records slicey b' (pos 0) (pos 1))
        (topics.read_topic (λ i. none) b offset (pos 1) (pos 0) (s.world, tb))
  one_record slicey topic_name b offset (s, err e) = (s, b, err e)
  one_record slicey topic_name b offset (s, panic) = (s, b, panic)

  -- `GetRecord`
  unfoldable pub get_record : Slicey → Batch → Key → ℕ → Broker W T → Read (Slice ℕ)
  get_record slicey b topic_name offset s =
      one_record slicey topic_name b offset (get_topic_batcher topic_name s)

  -- `maxRecords`, which is 10 if 0 is given.
  abbrev max_or_ten : ℤ → ℤ
  max_or_ten (pos zero) = pos 10
  max_or_ten (pos (suc k)) = pos (suc k)
  max_or_ten (negsuc k) = negsuc k

  abbrev waited :
      (ℕ → Option Error)
      → Key
      → Batch
      → ℕ
      → ℤ
      → ℤ
      → Broker W T
      → (W × T) × Result (Unit {0})
      → Read (Unit {0})
  waited ctx topic_name b offset max_records soft_max_bytes s (wt, ok _) =
      read_done topic_name s (λ b'. ok tt)
        (topics.read_topic ctx b offset max_records soft_max_bytes wt)
  waited ctx topic_name b offset max_records soft_max_bytes s (wt, err e) =
      (after_call topic_name s wt, b, err e)
  waited ctx topic_name b offset max_records soft_max_bytes s (wt, panic) =
      (after_call topic_name s wt, b, panic)

  abbrev many_records :
      (ℕ → Option Error) → Key → Batch → ℕ → ℤ → ℤ → Broker W T × Result T → Read (Unit {0})
  many_records ctx topic_name b offset max_records soft_max_bytes (s, ok tb) =
      waited ctx topic_name b offset max_records soft_max_bytes s
        (topics.wait_for ctx offset (s.world, tb))
  many_records ctx topic_name b offset max_records soft_max_bytes (s, err e) = (s, b, err e)
  many_records ctx topic_name b offset max_records soft_max_bytes (s, panic) = (s, b, panic)

  -- `GetRecords`: what `Wait` returns is passed on, wrapped, whichever error it is.
  unfoldable pub get_records :
      (ℕ → Option Error) → Batch → Key → ℕ → ℤ → ℤ → Broker W T → Read (Unit {0})
  get_records ctx b topic_name offset max_records soft_max_bytes s =
      many_records ctx topic_name b offset (max_or_ten max_records) soft_max_bytes
        (get_topic_batcher topic_name s)
