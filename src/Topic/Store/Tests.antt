-- ===== src/Topic/Store/Tests.antt =====
-- The theorems on a topic of internal/sebtopic/topic.go and its stores, for stores that keep their
-- files in lists.
use simple_commit_log.Base.{replicate, ℕ, ◌+◌, ◌^◌, ◌<◌, ◌≡◌, refl, inl, List, [], ◌∷◌, arith, none}
use simple_commit_log.Base.Int.{pos}
use simple_commit_log.Errors.{Result, ok}
use simple_commit_log.Helpy.Example.{go_slicey}
use simple_commit_log.Records.Batch.{Batch, batch_len}
use simple_commit_log.Records.Bytes.{le_bytes, put_u32s}
use simple_commit_log.Records.File.{header_size, encode_header, indexes_from, header_of, write}
use simple_commit_log.Records.File.Reads.{Grows}
use simple_commit_log.Slice.{of_list}
use simple_commit_log.OffsetCond.{broadcast, broadcast_loop}
use simple_commit_log.Topic.Add.{
  add_records, store_batch, cache_batch, write_batch, write_plain, offsets_from, announce,
}
use simple_commit_log.Topic.State.{Topic}
use simple_commit_log.Topic.Read.{read_records}
use simple_commit_log.Topic.Paths.{decimal, padded, record_batch_key}
use simple_commit_log.Topic.Example.{Stored, config, list_files, topic}
use simple_commit_log.Topic.Store.Keeping.{Keeps}
use simple_commit_log.Topic.Store.History.{
  Reaches, started, added, evicted, Reaches-Keeps, read_records-Reaches,
}
use simple_commit_log.Topic.Store.Example.{list_laws}

writing : Unit {0}
unfolding add_records store_batch cache_batch write_batch write_plain offsets_from announce
    broadcast broadcast_loop decimal padded record_batch_key write encode_header header_of
    header_size indexes_from put_u32s le_bytes
writing = tt

abbrev batch_of_sizes : List ℕ → List ℕ → Batch
batch_of_sizes sizes bytes = record { sizes = of_list sizes; records_data = of_list bytes }

abbrev first_batch : Batch
first_batch = batch_of_sizes (1 ∷ 4 ∷ []) (1 ∷ 2 ∷ 3 ∷ 4 ∷ 5 ∷ [])

abbrev second_batch : Batch
second_batch = batch_of_sizes (3 ∷ []) (7 ∷ 8 ∷ 9 ∷ [])

abbrev new_topic : Topic Stored Stored
new_topic = record topic { next_offset = 0; record_batch_offsets = [] }

abbrev with_batch : Batch → Topic Stored Stored → Topic Stored Stored × Result (List ℕ)
with_batch = add_records go_slicey (config list_files list_files) 7 8

abbrev one_file : Topic Stored Stored
one_file = (with_batch first_batch new_topic).0

abbrev two_files : Topic Stored Stored
two_files = (with_batch second_batch one_file).0

-- The cache is emptied behind the two calls.
abbrev no_copies : Topic Stored Stored
no_copies = record two_files { cached = [] }

abbrev room : Batch
room = record {
  sizes = record { array = replicate 4 0; len = 0 };
  records_data = record { array = replicate 8 0; len = 0 };
}

first_done : (with_batch first_batch new_topic).1 ≡ ok (0 ∷ 1 ∷ [])
unfolding writing
first_done = refl

second_done : (with_batch second_batch one_file).1 ≡ ok (2 ∷ [])
unfolding writing
second_done = refl

abbrev Reached : Topic Stored Stored → List (ℕ × Batch) → Type 0
Reached = Reaches go_slicey (config list_files list_files) list_laws list_laws

abbrev whole_log : List (ℕ × Batch)
whole_log = (0, first_batch) ∷ (one_file.next_offset, second_batch) ∷ []

next_fits : one_file.next_offset + batch_len second_batch < 2 ^ 64
unfolding writing
next_fits = omega arith

reached : Reached no_copies whole_log
reached =
    evicted two_files whole_log []
      (added one_file ((0, first_batch) ∷ []) 7 8 second_batch (2 ∷ [])
        (added new_topic [] 7 8 first_batch (0 ∷ 1 ∷ []) (started new_topic refl refl) first_done
          (omega arith) (omega arith) (omega arith) (omega arith))
        second_done (omega arith) next_fits (omega arith) (omega arith))
      (λ k. inl refl)

Reaches-Keeps_example : Keeps (config list_files list_files) list_laws list_laws no_copies whole_log
Reaches-Keeps_example =
    Reaches-Keeps go_slicey (config list_files list_files) list_laws list_laws (λ o. (tt, tt)) refl
      no_copies whole_log reached

three_in_all : 1 < no_copies.next_offset
unfolding writing
three_in_all = omega arith

-- Two records from offset 1 on, one of each batch, with nothing in the cache.
read_records-Reaches_example :
    (t' : Topic Stored Stored) × (out : Batch) × (read_records
        (config list_files list_files)
        (λ i. none)
        room
        1
        (pos 2)
        (pos 0)
        no_copies
      ≡ (t', out, ok tt))
    × Keeps (config list_files list_files) list_laws list_laws t' whole_log
    × Grows room (4 ∷ 3 ∷ []) (2 ∷ 3 ∷ 4 ∷ 5 ∷ 7 ∷ 8 ∷ 9 ∷ []) out
read_records-Reaches_example =
    read_records-Reaches go_slicey (config list_files list_files) list_laws list_laws
      (λ o. (tt, tt)) refl no_copies whole_log (λ i. none) room 1 2 reached (λ k. refl)
      (omega arith) (omega arith) (omega arith) three_in_all (omega arith) (omega arith)
