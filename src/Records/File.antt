-- ===== src/Records/File.antt =====
-- internal/sebrecords/records.go: the file format of a record batch. A file is a header of 32
-- bytes, an index with four bytes for each record, and the records' bytes.
-- An int16, int32 or int64 is kept as its bit pattern.
pub mod RoundTrip
pub mod Reads
pub mod Failures
use simple_commit_log.Base.{
  ℕ, suc, ◌+◌, ◌-◌, ◌*◌, ◌%◌, ◌^◌, List, [], ◌∷◌, ◌++◌, length, take, drop, get_elem?, replicate,
  Option, none, some, ltb, leb, ◌||◌, if◌then◌else◌,
}
use simple_commit_log.Errors.{
  Error, Result, ok, err, panic, out_of_bounds, bad_input, buffer_too_small,
}
use simple_commit_log.Slice.{Slice, cap, items, fill, append}
use simple_commit_log.Records.Batch.{Batch, batch_len}
use simple_commit_log.Records.Bytes.{
  le_bytes, of_le_bytes, put_u32s, get_u32s, Writer, Reader, seek, read_full,
}

-- 's', 'e', 'b', '!'
abbrev pub file_format_magic_bytes : List ℕ
file_format_magic_bytes = b's' ∷ b'e' ∷ b'b' ∷ b'!' ∷ []

abbrev pub file_format_version : ℕ
file_format_version = 1

abbrev pub header_bytes : ℕ
header_bytes = 32

abbrev pub record_index_size : ℕ
record_index_size = 4

pub record Header : Type 0 where
  pub magic_bytes : List ℕ
  pub version : ℕ
  pub unix_epoch_us : ℕ
  pub num_records : ℕ
  pub reserved : List ℕ

-- `Header.Size`, in uint32 arithmetic.
unfoldable pub header_size : Header → ℕ
header_size h = (header_bytes + h.num_records * record_index_size % 2 ^ 32) % 2 ^ 32

-- `binary.Write` and `binary.Read` of a header: the fields in order, with no padding.
unfoldable pub encode_header : Header → List ℕ
encode_header h =
    h.magic_bytes
    ++ (le_bytes 2 h.version
        ++ (le_bytes 8 h.unix_epoch_us ++ (le_bytes 4 h.num_records ++ h.reserved)))

unfoldable pub decode_header : List ℕ → Header
decode_header bs = record {
  magic_bytes = take 4 bs;
  version = of_le_bytes (take 2 (drop 4 bs));
  unix_epoch_us = of_le_bytes (take 8 (drop 2 (drop 4 bs)));
  num_records = of_le_bytes (take 4 (drop 8 (drop 2 (drop 4 bs))));
  reserved = drop 4 (drop 8 (drop 2 (drop 4 bs)));
}

-- The loop of `Write` that computes the indexes, from the index reached so far. The int32
-- additions wrap.
unfoldable pub indexes_from : ℕ → List ℕ → List ℕ
indexes_from index [] = []
indexes_from index (record_size ∷ sizes) =
    index ∷ indexes_from ((index + record_size) % 2 ^ 32) sizes

-- The header that `Write` makes; `now` is what `UnixEpochUs()` returns.
unfoldable pub header_of : ℕ → Batch → Header
header_of now b = record {
  magic_bytes = file_format_magic_bytes;
  version = file_format_version;
  unix_epoch_us = now;
  num_records = batch_len b % 2 ^ 32;
  reserved = replicate 14 0;
}

-- What follows a call that may end with an error.
abbrev pub then_put :
    {W : Type 0} → W × Result (Unit {0}) → (W → W × Result (Unit {0})) → W × Result (Unit {0})
then_put (w, ok _) k = k w
then_put (w, err e) k = (w, err e)
then_put (w, panic) k = (w, panic)

-- `Write`: three writes, and the first error ends the call.
unfoldable pub write : {W : Type 0} → Writer W → ℕ → W → Batch → W × Result (Unit {0})
write io now w b = then_put (io.put w (encode_header (header_of now b))) λ w.
    then_put (io.put w (put_u32s (indexes_from 0 (items b.sizes))))
      λ w. io.put w (items b.records_data)

pub record Parser : Type 0 where
  pub header : Header
  pub record_index : List ℕ
  pub record_sizes : List ℕ
  pub rdr : Reader

-- The loop of `Parse` that computes the sizes: the differences of neighbours, in uint32s.
unfoldable pub differences : List ℕ → List ℕ
differences [] = []
differences (a ∷ []) = []
differences (a ∷ b ∷ rest) = ((b + 2 ^ 32 - a) % 2 ^ 32) ∷ differences (b ∷ rest)

-- `Parse` behind the read of the index. The last entry of the index is the size of the file behind
-- the header and the index, in uint32 arithmetic.
unfoldable pub parse_index : Header → Reader × List ℕ × Option Error → Result Parser
parse_index header (rdr, index, some e) = err e
parse_index header (rdr, index, none) =
    let file_size = length rdr.content in
    let end = (file_size % 2 ^ 32 + 2 ^ 32 - header_size header) % 2 ^ 32 in
    let record_index = get_u32s header.num_records index ++ (end ∷ []) in
    ok (record {
      header = header;
      record_index = record_index;
      record_sizes = differences record_index;
      rdr = seek rdr file_size;
    })

-- `Parse` behind the read of the header. The capacity of the index is a uint32: it wraps to 0 for
-- 2^32 - 1 records, and then `make` panics.
unfoldable pub parse_header : Reader × List ℕ × Option Error → Result Parser
parse_header (rdr, head, some e) = err e
parse_header (rdr, head, none) =
    let header = decode_header head in
    if ltb ((header.num_records + 1) % 2 ^ 32) header.num_records
    then panic
    else parse_index header (read_full rdr (header.num_records * record_index_size))

-- `Parse`, from the read position of the file on.
unfoldable pub parse : Reader → Result Parser
parse rdr = parse_header (read_full rdr header_bytes)

-- `Parser.Records` behind the read of `requested` bytes. On a short read the bytes that were read
-- stay in the buffer behind the length.
unfoldable pub store_read :
    Parser → Batch → ℕ → ℕ → ℕ → Reader × List ℕ × Option Error → Parser × Batch × Result (Unit {0})
store_read rb b i j requested (rdr, bytes, some e) =
    (record rb { rdr = rdr }, record b { records_data = fill b.records_data bytes }, err e)
store_read rb b i j requested (rdr, bytes, none) =
    if leb j (length rb.record_sizes)
    then (
      record rb { rdr = rdr },
      record {
        sizes = append b.sizes (take (j - i) (drop i rb.record_sizes));
        records_data = record (fill b.records_data bytes) { len = b.records_data.len + requested };
      },
      ok tt,
    )
    else (
      record rb { rdr = rdr },
      record b {
        records_data = record (fill b.records_data bytes) { len = b.records_data.len + requested };
      },
      panic,
    )

-- `Parser.Records` behind its checks of the indexes and of the room for sizes; `from` and `to` are
-- the two entries of the index, and the offsets are uint32s.
unfoldable pub read_between : Parser → Batch → ℕ → ℕ → ℕ → ℕ → Parser × Batch × Result (Unit {0})
read_between rb b i j from to =
    let requested = (to + 2 ^ 32 - from) % 2 ^ 32 in
    let start = (header_size rb.header + from) % 2 ^ 32 in
    if ltb (cap b.records_data - b.records_data.len) requested
    then (rb, b, err buffer_too_small)
    else store_read rb b i j requested (read_full (seek rb.rdr start) requested)

-- The two entries of the index that `Parser.Records` reads; an index out of range panics.
unfoldable pub read_entries :
    Parser → Batch → ℕ → ℕ → Option ℕ → Option ℕ → Parser × Batch × Result (Unit {0})
read_entries rb b i j (some from) (some to) = read_between rb b i j from to
read_entries rb b i j (some from) none = (rb, b, panic)
read_entries rb b i j none to = (rb, b, panic)

-- `Parser.Records`: appends the records from index `i` up to index `j` to the batch.
unfoldable pub read_records : Parser → Batch → ℕ → ℕ → Parser × Batch × Result (Unit {0})
read_records rb b i j =
    let n = rb.header.num_records in
    if leb n i || ltb n j
    then (rb, b, err out_of_bounds)
    else if leb j i
    then (rb, b, err bad_input)
    else if ltb (cap b.sizes - b.sizes.len) (j - i)
    then (rb, b, err buffer_too_small)
    else read_entries rb b i j (get_elem? rb.record_index i) (get_elem? rb.record_index j)
