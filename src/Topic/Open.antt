-- ===== src/Topic/Open.antt =====
-- `New` and `listRecordBatchOffsets` of internal/sebtopic/topic.go.
use simple_commit_log.Base.{
  ℕ, ◌+◌, ◌-◌, ◌%◌, ◌^◌, List, [], ◌∷◌, ◌++◌, Option, none, some, ◌==◌, ltb, length, take,
  get_elem?, if◌then◌else◌,
}
use simple_commit_log.Errors.{Result, ok, err, panic, ◌>>=◌}
use simple_commit_log.Records.File.{Parser}
use simple_commit_log.OffsetCond.{new_offset_cond}
use simple_commit_log.Topic.Files.{Key, File}
use simple_commit_log.Topic.Paths.{record_batch_extension}
use simple_commit_log.Topic.State.{Topic, Config}
use simple_commit_log.Topic.Read.{parse_record_batch}

-- `path.Base`, the last element of a path: `base_loop` has read `part` of it since a slash, and the
-- last element before that was `last`.
unfoldable pub base_loop : List ℕ → List ℕ → Key → Key
base_loop [] [] [] = []
base_loop last [] [] = last
base_loop last (c ∷ part) [] = c ∷ part
base_loop last part (c ∷ cs) =
    let here = base_loop last (part ++ (c ∷ [])) cs in
    let slash = base_loop (elim part [ [] ↦ last | d ∷ part' ↦ d ∷ part' ]) [] cs in
    if c == b'/' then slash else here

unfoldable pub base : Key → Key
base [] = b'.' ∷ []
base (c ∷ cs) = elim (base_loop [] [] (c ∷ cs)) [ [] ↦ b'/' ∷ [] | d ∷ ds ↦ d ∷ ds ]

-- The text in front of the extension: the slice panics where the name is shorter.
unfoldable pub offset_text : Key → Result Key
offset_text name =
    if ltb (length name) (length record_batch_extension)
    then panic
    else ok (take (length name - length record_batch_extension) name)

-- `uint64y.FromString` and what `sort.Slice` makes of the offsets.
module _ (from_string : Key → Result ℕ) (sort : List ℕ → List ℕ) where
  -- The loop over the files.
  unfoldable pub file_offsets : List File → Result (List ℕ)
  file_offsets [] = ok []
  file_offsets (file ∷ files) = do
    offset_str ← offset_text (base file.path)
    offset ← from_string offset_str
    offsets ← file_offsets files
    ok (offset ∷ offsets)

  module _ {S H C G : Type 0} (cfg : Config S H C G) where
    abbrev sorted_offsets : Result (List ℕ) → Result (List ℕ)
    sorted_offsets (ok offsets) = ok (sort offsets)
    sorted_offsets (err e) = err e
    sorted_offsets panic = panic

    abbrev with_offsets : S × Result (List File) → S × Result (List ℕ)
    with_offsets (s, ok files) = (s, sorted_offsets (file_offsets files))
    with_offsets (s, err e) = (s, err e)
    with_offsets (s, panic) = (s, panic)

    unfoldable pub list_record_batch_offsets : S → S × Result (List ℕ)
    list_record_batch_offsets s =
        with_offsets (cfg.backing_storage.list_files cfg.topic_name record_batch_extension s)

    -- The topic without its newest batch.
    unfoldable pub new_topic : List ℕ → S → C → Topic S C
    new_topic offsets s c = record {
      next_offset = 0;
      record_batch_offsets = offsets;
      backing = s;
      cached = c;
      offset_cond = new_offset_cond 0;
      closed = [];
    }

    -- The next offset is behind the records of the newest batch; the uint64 arithmetic wraps.
    abbrev pub opened : ℕ → Topic S C × Result Parser → Topic S C × Result (Unit {0})
    opened newest (t, ok parser) =
        let next_offset = (newest + parser.header.num_records) % 2 ^ 64 in
        (
          record t {
            next_offset = next_offset;
            offset_cond = new_offset_cond ((next_offset + 2 ^ 64 - 1) % 2 ^ 64);
          },
          ok tt,
        )
    opened newest (t, err e) = (t, err e)
    opened newest (t, panic) = (t, panic)

    abbrev pub with_newest : Topic S C → Option ℕ → Topic S C × Result (Unit {0})
    with_newest t none = (t, ok tt)
    with_newest t (some newest) = opened newest (parse_record_batch cfg newest t)

    abbrev listed : C → S × Result (List ℕ) → Topic S C × Result (Unit {0})
    listed c (s, ok offsets) =
        with_newest (new_topic offsets s c) (get_elem? offsets (length offsets - 1))
    listed c (s, err e) = (new_topic [] s c, err e)
    listed c (s, panic) = (new_topic [] s c, panic)

    -- `New`, on the states of the backing storage and the cache: where it is not `ok`, the topic only
    -- holds what those two became.
    unfoldable pub open_topic : S → C → Topic S C × Result (Unit {0})
    open_topic s c = listed c (list_record_batch_offsets s)
