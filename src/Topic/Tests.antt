-- ===== src/Topic/Tests.antt =====
-- Runs of the code of internal/sebtopic/topic.go, and its theorems at concrete inputs.
use simple_commit_log.Base.{
  replicate, get_elem?, ◌<◌, ℕ, ◌+◌, ◌≤◌, ◌≡◌, refl, List, [], ◌∷◌, ◌++◌, arith, none, some, true,
  All,
}
use simple_commit_log.Base.Int.{pos}
use simple_commit_log.Errors.{ok, err, out_of_bounds}
use simple_commit_log.Helpy.Example.{go_slicey}
use simple_commit_log.Records.Batch.{Batch, batch_len}
use simple_commit_log.Records.Bytes.{le_bytes, of_le_bytes, put_u32s, get_u32s, read_full}
use simple_commit_log.Records.File.{
  header_size, encode_header, decode_header, indexes_from, header_of, write, differences, parse,
  parse_header, parse_index, store_read, read_between, read_entries, read_records as read_file,
}
use simple_commit_log.Slice.{items, fill, append}
use simple_commit_log.OffsetCond.{broadcast, broadcast_loop}
use simple_commit_log.Topic.Add.{
  add_records, store_batch, cache_batch, write_batch, write_plain, offsets_from, announce,
}
use simple_commit_log.Topic.Add.Outcome.{pair, add_records_err}
use simple_commit_log.Topic.State.{Topic}
use simple_commit_log.Topic.Add.Offsets.{
  add_records_ok, add_records_wakes, add_records_unannounced, add_records-empty,
}
use simple_commit_log.Topic.Read.{
  find_batch, select_records, read_records, read_loop, read_round, num_records, parse_record_batch,
  cached_or_fetched, fetch,
}
use simple_commit_log.OffsetCond.Broadcasts.{channels, due}
use simple_commit_log.Topic.Paths.{decimal, padded, record_batch_key}
use simple_commit_log.Topic.Read.Select.{
  find_batch_lem, find_batch-none, Selects, select_records-Selects,
}
use simple_commit_log.Topic.Example.{Stored, config, list_files, no_cache, limited, topic}
use simple_commit_log.Records.Tests.{three}

program : Unit {0}
unfolding add_records store_batch cache_batch write_batch write_plain offsets_from announce
    broadcast broadcast_loop decimal padded record_batch_key write encode_header header_of
    header_size indexes_from put_u32s le_bytes
program = tt

first_offsets :
    (add_records go_slicey (config list_files list_files) 7 8 three topic).1 ≡ ok (5 ∷ 6 ∷ 7 ∷ [])
unfolding program
first_offsets = refl

woken : (add_records go_slicey (config list_files list_files) 7 8 three topic).0.closed ≡ 0 ∷ []
unfolding program
woken = refl

full :
    (add_records go_slicey (config (limited 20) list_files) 7 8 three topic).1 ≡ err out_of_bounds
unfolding program
full = refl

add_records_err_example :
    ((store_batch (limited 20) none (record_batch_key (116 ∷ []) 5) 7 three topic.backing).1
      ≡ err out_of_bounds)
    × ((add_records go_slicey (config (limited 20) list_files) 7 8 three topic).0 ≡ record topic {
      backing = (add_records go_slicey (config (limited 20) list_files) 7 8 three topic).0.backing;
    })
add_records_err_example =
    add_records_err go_slicey (config (limited 20) list_files) 7 8 three topic out_of_bounds full

-- A topic with one file, and where it is read from offset 1 on.
reading : Unit {0}
unfolding program find_batch select_records read_records read_loop read_round num_records
    parse_record_batch cached_or_fetched fetch decode_header of_le_bytes get_u32s parse parse_header
    parse_index read_full differences read_file read_entries read_between store_read fill append
reading = tt

abbrev one_file : Topic Stored Stored
one_file =
    (add_records go_slicey (config list_files no_cache) 7 8 three
      (record topic { next_offset = 0; record_batch_offsets = [] })).0

abbrev room : Batch
room = record {
  sizes = record { array = replicate 4 0; len = 0 };
  records_data = record { array = replicate 8 0; len = 0 };
}

-- The record at offset 1 has no bytes, that at offset 2 has 3 bytes and is too large.
read_back :
    (read_records
      (config list_files list_files)
      (λ i. none)
      room
      1
      (pos 0)
      (pos 2)
      one_file).1.sizes.len
    ≡ 1
unfolding reading
read_back = refl

read_all :
    items
      (read_records
        (config list_files list_files)
        (λ i. none)
        room
        1
        (pos 0)
        (pos 0)
        one_file).1.records_data
    ≡ 12 ∷ 13 ∷ 14 ∷ []
unfolding reading
read_all = refl

add_records_ok_example :
    ((store_batch list_files none (record_batch_key (116 ∷ []) 5) 7 three topic.backing)
      ≡ ((add_records go_slicey (config list_files list_files) 7 8 three topic).0.backing, ok tt))
    × (5 ∷ 6 ∷ 7 ∷ [] ≡ offsets_from (batch_len three) 5)
    × ((add_records go_slicey (config list_files list_files) 7 8 three topic).0.next_offset
        ≡ 5 + batch_len three)
    × ((add_records go_slicey (config list_files list_files) 7 8 three topic).0.record_batch_offsets
        ≡ 0 ∷ 3 ∷ 5 ∷ [])
add_records_ok_example =
    add_records_ok go_slicey (config list_files list_files) 7 8 three topic (omega arith)
      (5 ∷ 6 ∷ 7 ∷ []) first_offsets

copied : (cache_batch list_files (record_batch_key (116 ∷ []) 5) 8 three topic.cached).1 ≡ ok true
unfolding program
copied = refl

add_records_wakes_example :
    ((add_records go_slicey
          (config list_files list_files)
          7
          8
          three
          topic).0.offset_cond.current_offset
        + 1
      ≡ 5 + batch_len three)
    × All
        (λ w. 5 + batch_len three ≤ w.offset)
        (add_records go_slicey (config list_files list_files) 7 8 three topic).0.offset_cond.waiting
    × ((add_records go_slicey (config list_files list_files) 7 8 three topic).0.closed
        ≡ topic.closed ++ channels (due (5 + batch_len three) topic.offset_cond.waiting))
add_records_wakes_example =
    add_records_wakes go_slicey (config list_files list_files) 7 8 three topic (omega arith)
      (5 ∷ 6 ∷ 7 ∷ []) first_offsets (omega arith) copied

-- A batch without records, and behind it one of three.
abbrev nothing : Batch
nothing = record {
  sizes = record { array = []; len = 0 };
  records_data = record { array = []; len = 0 };
}

abbrev behind_nothing : Topic Stored Stored
behind_nothing = (add_records go_slicey (config list_files list_files) 7 8 nothing topic).0

nothing_added :
    add_records go_slicey (config list_files list_files) 7 8 nothing topic ≡ (behind_nothing, ok [])
unfolding program
nothing_added = refl

three_added : add_records go_slicey (config list_files list_files) 7 8 three behind_nothing ≡ (
  (add_records go_slicey (config list_files list_files) 7 8 three behind_nothing).0,
  ok (5 ∷ 6 ∷ 7 ∷ []),
)
unfolding program
three_added = refl

add_records-empty_example :
    (store_batch list_files none (record_batch_key (116 ∷ []) 5) 7 nothing topic.backing
      ≡ (behind_nothing.backing, ok tt))
    × (store_batch list_files none (record_batch_key (116 ∷ []) 5) 7 three behind_nothing.backing
        ≡ (
          (add_records go_slicey (config list_files list_files) 7 8 three behind_nothing).0.backing,
          ok tt,
        ))
    × (5 ∷ 6 ∷ 7 ∷ [] ≡ offsets_from (batch_len three) 5)
    × ((add_records go_slicey
          (config list_files list_files)
          7
          8
          three
          behind_nothing).0.record_batch_offsets
        ≡ 0 ∷ 3 ∷ 5 ∷ 5 ∷ [])
add_records-empty_example =
    add_records-empty go_slicey (config list_files list_files) 7 8 7 8 nothing three topic
      behind_nothing
      (add_records go_slicey (config list_files list_files) 7 8 three behind_nothing).0 []
      (5 ∷ 6 ∷ 7 ∷ []) refl (omega arith) nothing_added three_added

stored :
    (store_batch list_files none (record_batch_key (116 ∷ []) 5) 7 three topic.backing).1 ≡ ok tt
unfolding program
stored = refl

add_records_unannounced_example :
    ((add_records go_slicey (config list_files no_cache) 7 8 three topic).1
      ≡ ok (offsets_from (batch_len three) 5))
    × ((add_records go_slicey (config list_files no_cache) 7 8 three topic).0.next_offset
        ≡ 5 + batch_len three)
    × ((add_records go_slicey (config list_files no_cache) 7 8 three topic).0.offset_cond
        ≡ topic.offset_cond)
add_records_unannounced_example =
    add_records_unannounced go_slicey (config list_files no_cache) 7 8 three topic (omega arith)
      (pair stored) refl

abbrev starts : List ℕ
starts = 0 ∷ 3 ∷ 5 ∷ []

at_four : find_batch 3 starts 4 ≡ some 1
unfolding find_batch
at_four = refl

batch_at_four : ((o : ℕ) × (get_elem? starts 1 ≡ some o) × (o ≤ 4)) × All (λ o. 4 < o) (5 ∷ [])
batch_at_four = find_batch_lem starts 4 1 at_four

nowhere : find_batch 2 (3 ∷ 5 ∷ []) 2 ≡ none
unfolding find_batch
nowhere = refl

none_at_two : All (λ o. 2 < o) (3 ∷ 5 ∷ [])
none_at_two = find_batch-none (3 ∷ 5 ∷ []) 2 nowhere

select_records-Selects_example :
    Selects 6 (4 ∷ 2 ∷ 3 ∷ []) 0 true (select_records 6 (4 ∷ 2 ∷ 3 ∷ []) 0 true)
select_records-Selects_example = select_records-Selects 6 (4 ∷ 2 ∷ 3 ∷ []) 0 true (omega arith)
