-- ===== src/Topic/Example.antt =====
-- A store that keeps its files in a list, on which internal/sebtopic/topic.go runs.
use simple_commit_log.Base.{
  ℕ, List, [], ◌∷◌, ◌++◌, none, Bool, true, false, ◌&&◌, ◌==◌, ltb, length, if◌then◌else◌,
}
use simple_commit_log.Errors.{Result, ok, err, out_of_bounds, topic_not_found}
use simple_commit_log.Topic.Files.{Key, Stream, Files}
use simple_commit_log.Topic.State.{Topic, Config}

abbrev pub Stored : Type 0
Stored = List (Key × List ℕ)

abbrev pub same : Key → Key → Bool
same [] [] = true
same [] (y ∷ ys) = false
same (x ∷ xs) [] = false
same (x ∷ xs) (y ∷ ys) = x == y && same xs ys

abbrev pub find_file : Key → Stored → Result Stream
find_file key [] = err topic_not_found
find_file key ((k, bs) ∷ files) =
    if same key k then ok (record { bytes = bs; failed = none }) else find_file key files

-- A writer holds what was put in it, and the file is there once it is closed.
abbrev pub list_files : Files Stored (Key × List ℕ)
list_files = record {
  create = λ key files. (files, ok (key, []));
  put = λ h bs files. (files, ok (h.0, h.1 ++ bs));
  close = λ h files. (h ∷ files, ok tt);
  reader = λ key files. (files, find_file key files);
  close_reader = λ key files. (files, ok tt);
}

-- A cache that gives no writer.
abbrev pub no_cache : Files Stored (Key × List ℕ)
no_cache = record list_files { create = λ key files. (files, err out_of_bounds) }

-- A store with room for some bytes in a file.
abbrev pub limited : ℕ → Files Stored (Key × List ℕ)
limited room = record list_files {
  put = λ h bs files.
      if ltb room (length (h.1 ++ bs))
      then (files, err out_of_bounds)
      else (files, ok (h.0, h.1 ++ bs));
}

abbrev pub config :
    Files Stored (Key × List ℕ)
    → Files Stored (Key × List ℕ)
    → Config Stored (Key × List ℕ) Stored (Key × List ℕ)
config backing cache = record {
  topic_name = b't' ∷ [];
  backing_storage = record { files = backing; list_files = λ name ext files. (files, ok []) };
  cache = cache;
  compression = none;
}

-- A topic whose next offset is 5, with two waiting consumers.
abbrev pub topic : Topic Stored Stored
topic = record {
  next_offset = 5;
  record_batch_offsets = 0 ∷ 3 ∷ [];
  backing = [];
  cached = [];
  offset_cond = record {
    waiting = record { offset = 6; ch = 0 } ∷ record { offset = 9; ch = 1 } ∷ [];
    current_offset = 4;
  };
  closed = [];
}
