-- ===== src/Broker/Example.antt =====
-- Topics that count, in place of those of internal/sebtopic, to run the broker on.
use simple_commit_log.Base.{ℕ, ◌+◌, [], ◌∷◌, none, true}
use simple_commit_log.Errors.{ok}
use simple_commit_log.Records.Batch.{batch_len}
use simple_commit_log.Topic.Files.{Key}
use simple_commit_log.Topic.Add.{offsets_from}
use simple_commit_log.Broker.{Topics, Broker}

-- Topics that count their records, and a world that counts the topics made; a read gives the batch
-- that it got.
abbrev pub counters : Topics ℕ ℕ
counters = record {
  make_topic = λ name n. (n + 1, ok 0);
  next_offset = λ t. t;
  batcher_add = λ b wt. ((wt.0, wt.1 + batch_len b), ok (offsets_from (batch_len b) wt.1));
  wait_for = λ ctx offset wt. (wt, ok tt);
  read_topic = λ ctx b offset max_records soft_max_bytes wt. (wt, b, ok tt);
  topic_metadata = λ wt. (wt, ok (wt.1, none));
}

abbrev pub name : Key
name = b'a' ∷ b'b' ∷ []

abbrev pub empty : Broker ℕ ℕ
empty = record { auto_create_topics = true; topic_batchers = []; world = 0 }
