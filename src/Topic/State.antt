-- ===== src/Topic/State.antt =====
-- The state of internal/sebtopic's `Topic`, and of the stores that it writes to. A topic is not
-- changed by two callers at once: AddRecords leaves that to the batcher.
use simple_commit_log.Base.{ℕ, List, Option}
use simple_commit_log.Errors.{Result}
use simple_commit_log.Exec.{Exec}
use simple_commit_log.OffsetCond.{OffsetCond}
use simple_commit_log.Topic.Files.{Key, Files, Storage, Compress}

-- `Topic`: `backing` and `cached` are the states of the backing storage and of the cache, and
-- `closed` lists the channels that `Broadcast` closed.
pub record Topic (S C : Type 0) : Type 0 where
  pub next_offset : ℕ
  pub record_batch_offsets : List ℕ
  pub backing : S
  pub cached : C
  pub offset_cond : OffsetCond
  pub closed : List ℕ

-- What a topic is made with: its name, the backing storage, the cache and the compression.
pub record Config (S H C G : Type 0) : Type 0 where
  pub topic_name : Key
  pub backing_storage : Storage S H
  pub cache : Files C G
  pub compression : Option Compress

module _ {S C A : Type 0} where
  abbrev pub in_backing : Topic S C → S × Result A → Topic S C × Result A
  in_backing t (s, r) = (record t { backing = s }, r)

  abbrev pub in_cached : Topic S C → C × Result A → Topic S C × Result A
  in_cached t (c, r) = (record t { cached = c }, r)

  -- A call of the backing storage or of the cache.
  abbrev pub on_backing : Exec S A → Exec (Topic S C) A
  on_backing m t = in_backing t (m t.backing)

  abbrev pub on_cached : Exec C A → Exec (Topic S C) A
  on_cached m t = in_cached t (m t.cached)
