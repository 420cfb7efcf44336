-- ===== src/Topic/Log/Tests.antt =====
-- Runs of ReadRecords of internal/sebtopic/topic.go on a topic with two files, and the theorems on
-- its log at concrete inputs.
use simple_commit_log.Base.{
  replicate, length, ℕ, ◌<◌, ◌≡◌, refl, ap, ◌∙◌, List, [], ◌∷◌, arith, none, some, true,
}
use simple_commit_log.Base.Int.{pos}
use simple_commit_log.Errors.{Result, ok}
use simple_commit_log.Helpy.Example.{go_slicey}
use simple_commit_log.Records.Batch.{Batch}
use simple_commit_log.Records.Bytes.{le_bytes, of_le_bytes, put_u32s, get_u32s, read_full}
use simple_commit_log.Records.File.{
  header_size, encode_header, decode_header, indexes_from, header_of, write, differences, parse,
  parse_header, parse_index, store_read, read_between, read_entries, read_records as read_file,
}
use simple_commit_log.Records.File.RoundTrip.{parsed, index_of, file_of}
use simple_commit_log.Records.File.Reads.{Grows}
use simple_commit_log.Slice.{of_list, items, fill, append}
use simple_commit_log.OffsetCond.{broadcast, broadcast_loop}
use simple_commit_log.Topic.Add.{
  add_records, store_batch, cache_batch, write_batch, write_plain, offsets_from, announce,
}
use simple_commit_log.Topic.State.{Topic}
use simple_commit_log.Topic.Read.{
  find_batch, select_records, read_records, Reading, Limits, read_loop, read_round, num_records,
  parse_record_batch, cached_or_fetched, fetch,
}
use simple_commit_log.Topic.Paths.{decimal, padded, record_batch_key}
use simple_commit_log.Topic.Example.{Stored, config, list_files, topic}
use simple_commit_log.Topic.Log.{IsStored, Serves, taken}
use simple_commit_log.Topic.Log.Whole.{IsLog, read_records-records_from}
use simple_commit_log.Topic.Log.Loop.{Ends, takes, read_loop_lem}
use simple_commit_log.Topic.Log.Gap.{read_loop_gap}
use simple_commit_log.Topic.Log.Append.{add_records-IsLog}

reading : Unit {0}
unfolding add_records store_batch cache_batch write_batch write_plain offsets_from announce
    broadcast broadcast_loop decimal padded record_batch_key write encode_header header_of
    header_size indexes_from put_u32s le_bytes find_batch select_records read_records read_loop
    read_round num_records parse_record_batch cached_or_fetched fetch decode_header of_le_bytes
    get_u32s parse parse_header parse_index read_full differences read_file read_entries
    read_between store_read fill append index_of file_of
reading = tt

abbrev batch_of_sizes : List ℕ → List ℕ → Batch
batch_of_sizes sizes bytes = record { sizes = of_list sizes; records_data = of_list bytes }

abbrev first_batch : Batch
first_batch = batch_of_sizes (1 ∷ 4 ∷ []) (1 ∷ 2 ∷ 3 ∷ 4 ∷ 5 ∷ [])

abbrev second_batch : Batch
second_batch = batch_of_sizes (3 ∷ []) (7 ∷ 8 ∷ 9 ∷ [])

abbrev empty_topic : Topic Stored Stored
empty_topic = record topic { next_offset = 0; record_batch_offsets = [] }

abbrev added : Batch → Topic Stored Stored → Topic Stored Stored × Result (List ℕ)
added = add_records go_slicey (config list_files list_files) 7 8

abbrev one_file : Topic Stored Stored
one_file = (added first_batch empty_topic).0

abbrev two_files : Topic Stored Stored
two_files = (added second_batch one_file).0

abbrev room : Batch
room = record {
  sizes = record { array = replicate 4 0; len = 0 };
  records_data = record { array = replicate 8 0; len = 0 };
}

-- With at most 4 bytes, the record at offset 1 is left out and that at offset 2 is read.
skipped :
    items
      (read_records
        (config list_files list_files)
        (λ i. none)
        room
        0
        (pos 0)
        (pos 4)
        two_files).1.sizes
    ≡ 1 ∷ 3 ∷ []
unfolding reading
skipped = refl

first-IsStored : IsStored first_batch
first-IsStored = omega arith

second-IsStored : IsStored second_batch
second-IsStored = omega arith

empty-IsLog : IsLog empty_topic []
empty-IsLog = record { has_offsets = refl; starts = tt; next = refl; stored = tt }

first_offsets : (added first_batch empty_topic).1 ≡ ok (0 ∷ 1 ∷ [])
unfolding reading
first_offsets = refl

second_offsets : (added second_batch one_file).1 ≡ ok (2 ∷ [])
unfolding reading
second_offsets = refl

next_is_two : one_file.next_offset ≡ 2
unfolding reading
next_is_two = refl

one-IsLog : IsLog one_file ((0, first_batch) ∷ [])
one-IsLog =
    add_records-IsLog go_slicey (config list_files list_files) 7 8 first_batch empty_topic []
      (0 ∷ 1 ∷ []) first_offsets empty-IsLog first-IsStored (omega arith)

abbrev whole_log : List (ℕ × Batch)
whole_log = (0, first_batch) ∷ (2, second_batch) ∷ []

two-IsLog : IsLog two_files whole_log
unfolding reading
two-IsLog = record {
  has_offsets = refl;
  starts = (refl, (refl, tt));
  next = refl;
  stored = (first-IsStored, (second-IsStored, tt));
}

first_of_two :
    parse_record_batch (config list_files list_files) 0 two_files
    ≡ (two_files, ok (parsed 8 first_batch first-IsStored.valid (omega arith) (omega arith)))
unfolding reading
first_of_two = refl

second_of_two :
    parse_record_batch (config list_files list_files) 2 two_files
    ≡ (two_files, ok (parsed 8 second_batch second-IsStored.valid (omega arith) (omega arith)))
unfolding reading
second_of_two = refl

Serves-first_batch : Serves (config list_files list_files) (λ t. t ≡ two_files) 0 first_batch
Serves-first_batch = λ t i. (
  two_files,
  8,
  first-IsStored.valid,
  omega arith,
  omega arith,
  ap (parse_record_batch (config list_files list_files) 0) i ∙ first_of_two,
  refl,
)

Serves-second_batch : Serves (config list_files list_files) (λ t. t ≡ two_files) 2 second_batch
Serves-second_batch = λ t i. (
  two_files,
  8,
  second-IsStored.valid,
  omega arith,
  omega arith,
  ap (parse_record_batch (config list_files list_files) 2) i ∙ second_of_two,
  refl,
)

three_in_all : 1 < two_files.next_offset
unfolding reading
three_in_all = omega arith

-- Two records from offset 1 on, one of each batch.
read_records-records_from_example :
    (t' : Topic Stored Stored) × (out : Batch) × (read_records
        (config list_files list_files)
        (λ i. none)
        room
        1
        (pos 2)
        (pos 0)
        two_files
      ≡ (t', out, ok tt))
    × (t' ≡ two_files)
    × Grows room (4 ∷ 3 ∷ []) (2 ∷ 3 ∷ 4 ∷ 5 ∷ 7 ∷ 8 ∷ 9 ∷ []) out
read_records-records_from_example =
    read_records-records_from (config list_files list_files) (λ t. t ≡ two_files) (λ i. none)
      (λ k. refl) 2 (omega arith) room (omega arith) (omega arith) 1 two_files whole_log two-IsLog
      (Serves-first_batch, (Serves-second_batch, tt)) refl three_in_all (omega arith, omega arith)

abbrev within_four : Limits
within_four = record { max_records = pos 10; soft_max_bytes = some 4; ctx = λ i. none }

abbrev from_the_start : Reading
from_the_start = record {
  batch = room;
  record_batch_bytes = 0;
  batch_record_index = 0;
  first_record = true;
}

taken_two :
    takes
      (config list_files list_files)
      (λ t. t ≡ two_files)
      within_four
      10
      refl
      (omega arith)
      (λ k. refl)
      from_the_start
      whole_log
    ≡ (1 ∷ 3 ∷ [], 1 ∷ 7 ∷ 8 ∷ 9 ∷ [])
unfolding taken num_records select_records
taken_two = refl

loop_taken :
    Ends
      (config list_files list_files)
      (λ t. t ≡ two_files)
      within_four
      10
      refl
      (omega arith)
      (λ k. refl)
      from_the_start
      (takes
        (config list_files list_files)
        (λ t. t ≡ two_files)
        within_four
        10
        refl
        (omega arith)
        (λ k. refl)
        from_the_start
        whole_log)
      (read_loop (config list_files list_files) within_four 0 (0 ∷ 2 ∷ []) from_the_start two_files)
loop_taken =
    read_loop_lem (config list_files list_files) (λ t. t ≡ two_files) within_four 10 refl
      (omega arith) (λ k. refl) 0 whole_log from_the_start two_files
      (first-IsStored, (second-IsStored, tt)) (Serves-first_batch, (Serves-second_batch, tt)) refl
      (omega arith) (omega arith) (omega arith) (omega (arith, ap (λ rs. length rs.0) taken_two))
      (omega (arith, ap (λ rs. length rs.1) taken_two))

read_loop_gap_example :
    (t' : Topic Stored Stored) × (r : Reading) × (read_loop
        (config list_files list_files)
        within_four
        0
        (0 ∷ 2 ∷ [])
        from_the_start
        two_files
      ≡ (t', r, ok tt))
    × (items r.batch.sizes ≡ 1 ∷ 3 ∷ [])
    × (items r.batch.records_data ≡ 1 ∷ 7 ∷ 8 ∷ 9 ∷ [])
read_loop_gap_example =
    read_loop_gap 4 1 4 3 (omega arith) (omega arith) (omega arith) (omega arith)
      (config list_files list_files) (λ t. t ≡ two_files) (λ i. none) (λ k. refl) 10 (omega arith) 0
      2 first_batch second_batch room two_files (omega arith) refl refl first-IsStored
      second-IsStored Serves-first_batch Serves-second_batch refl (omega arith) (omega arith)
      (omega arith) (omega arith)
