-- ===== src/Records/Tests.antt =====
-- Runs of the code of internal/sebrecords, and its theorems at concrete inputs.
use simple_commit_log.Base.{ℕ, ◌≡◌, refl, List, [], ◌∷◌, map, length, replicate, arith, ◌↔◌, ◌⊎◌}
use simple_commit_log.Base.Int.{pos, negsuc, ◌≤ℤ◌, ◌<ℤ◌}
use simple_commit_log.Errors.{ok, err, panic, out_of_bounds, bad_input, unexpected_eof}
use simple_commit_log.Helpy.Example.{go_slicey}
use simple_commit_log.Slice.{Slice, items, of_list, reslice, fill, append}
use simple_commit_log.Records.Batch.{
  Batch, IsBatch, records_between, records, split_loop, individual_records_subset,
  individual_records,
}
use simple_commit_log.Records.Batch.Split.{
  between, records_lem, individual_records_subset_lem, individual_records_lem, records_errors,
}
use simple_commit_log.Records.Bytes.{le_bytes, of_le_bytes, put_u32s, get_u32s, read_full}
use simple_commit_log.Records.File.{
  Parser, header_size, encode_header, decode_header, indexes_from, header_of, write, differences,
  parse, parse_header, parse_index, store_read, read_between, read_entries, read_records,
}
use simple_commit_log.Records.File.RoundTrip.{file_of, index_of, buffer_writer, parsed, parse-write}
use simple_commit_log.Records.File.Reads.{parsed_at, read_records-parsed}
use simple_commit_log.Records.File.Failures.{read_records_err}
use mathlib.Core.List.{flatten}

-- Three records of 2, 0 and 3 bytes.
abbrev pub three : Batch
three = record {
  sizes = of_list (2 ∷ 0 ∷ 3 ∷ []);
  records_data = of_list (10 ∷ 11 ∷ 12 ∷ 13 ∷ 14 ∷ []);
}

three-IsBatch : IsBatch three
three-IsBatch = omega arith

-- An empty batch with room for 4 records and 8 bytes.
abbrev room : Batch
room = record {
  sizes = record { array = replicate 4 0; len = 0 };
  records_data = record { array = replicate 8 0; len = 0 };
}

program : Unit {0}
unfolding records records_between reslice individual_records individual_records_subset split_loop
    write file_of encode_header decode_header header_of header_size indexes_from put_u32s get_u32s
    le_bytes of_le_bytes parse parse_header parse_index read_full differences read_records
    read_entries read_between store_read fill append
program = tt

last_two :
    records go_slicey three (pos 1) (pos 3) ≡ ok (record { array = 12 ∷ 13 ∷ 14 ∷ []; len = 3 })
unfolding program
last_two = refl

negative_start : records go_slicey three (negsuc 0) (pos 3) ≡ panic
unfolding program
negative_start = refl

three-parsed :
    parse (record { content = (write buffer_writer 7 [] three).0; position = 0 })
    ≡ ok (parsed 7 three three-IsBatch (omega arith) (omega arith))
unfolding program index_of
three-parsed = refl

middle_records :
    (s : Slice ℕ) × (records go_slicey three (pos 1) (pos 3) ≡ ok s)
    × (items s ≡ between (items three.records_data) 2 5)
middle_records = records_lem go_slicey three three-IsBatch 1 3 (omega arith) (omega arith)

individual_records_subset_lem_example :
    (rs : List (Slice ℕ)) × (individual_records_subset go_slicey three 1 3 ≡ ok rs)
    × (map (λ r. length (items r)) rs ≡ 0 ∷ 3 ∷ [])
    × (flatten (map items rs) ≡ 12 ∷ 13 ∷ 14 ∷ [])
individual_records_subset_lem_example =
    individual_records_subset_lem go_slicey three three-IsBatch 1 3 (omega arith) (omega arith)

three_split :
    (rs : List (Slice ℕ)) × (individual_records go_slicey three ≡ ok rs)
    × (map (λ r. length (items r)) rs ≡ 2 ∷ 0 ∷ 3 ∷ [])
    × (flatten (map items rs) ≡ 10 ∷ 11 ∷ 12 ∷ 13 ∷ 14 ∷ [])
three_split = individual_records_lem go_slicey three three-IsBatch

records_errors_example :
    ((records go_slicey three (pos 2) (pos 4) ≡ err out_of_bounds)
      ↔ ((pos 3 ≤ℤ pos 2) ⊎ (pos 3 <ℤ pos 4)))
    × ((records go_slicey three (pos 2) (pos 4) ≡ err bad_input)
        ↔ ((pos 2 <ℤ pos 3) × (pos 4 ≤ℤ pos 3) × (pos 4 ≤ℤ pos 2)))
    × ((records go_slicey three (pos 2) (pos 4) ≡ panic)
        ↔ ((pos 2 <ℤ pos 0) × (pos 2 <ℤ pos 4) × (pos 4 ≤ℤ pos 3)))
records_errors_example = records_errors go_slicey three three-IsBatch (pos 2) (pos 4)

parse-write_example :
    ((write buffer_writer 7 [] three).1 ≡ ok tt)
    × (parse (record { content = (write buffer_writer 7 [] three).0; position = 0 })
        ≡ ok (parsed 7 three three-IsBatch (omega arith) (omega arith)))
parse-write_example = parse-write 7 three three-IsBatch (omega arith) (omega arith)

abbrev three_at : ℕ → Parser
three_at p = parsed_at 7 three three-IsBatch (omega arith) (omega arith) (omega arith) p

read_records-parsed_example :
    (q : ℕ) × (out : Batch) × (read_records (three_at 0) room 1 3 ≡ (three_at q, out, ok tt))
    × (items out.sizes ≡ 0 ∷ 3 ∷ [])
    × (items out.records_data ≡ 12 ∷ 13 ∷ 14 ∷ [])
read_records-parsed_example =
    read_records-parsed 7 three three-IsBatch (omega arith) (omega arith) (omega arith) 1 3
      (omega arith) (omega arith) 0 room (omega arith) (omega arith) (omega arith) (omega arith)

-- A file whose index points past its end: two bytes are read, and an error is reported.
abbrev cut_short : Parser
cut_short = record {
  header = record {
    magic_bytes = [];
    version = 1;
    unix_epoch_us = 0;
    num_records = 1;
    reserved = [];
  };
  record_index = 0 ∷ 5 ∷ [];
  record_sizes = 5 ∷ [];
  rdr = record { content = replicate 38 9; position = 38 };
}

cut_short-err : (read_records cut_short room 0 1).2 ≡ err unexpected_eof
unfolding program
cut_short-err = refl

read_records_err_example :
    (items (read_records cut_short room 0 1).1.sizes ≡ [])
    × (items (read_records cut_short room 0 1).1.records_data ≡ [])
read_records_err_example =
    read_records_err cut_short room 0 1 (omega arith) unexpected_eof cut_short-err
