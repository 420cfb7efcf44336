-- ===== src/Records/File/RoundTrip.antt =====
-- The file that `Write` makes, and `Parse` of it.
use simple_commit_log.Base.{
  ℕ, zero, suc, ◌+◌, ◌-◌, ◌*◌, ◌%◌, ◌^◌, ◌≤◌, ◌<◌, ◌≡◌, refl, sym, ap, ap₂, ◌∙◌, List, [], ◌∷◌,
  ◌++◌, length, take, drop, get_elem?, All, total, none, some, arith, append_assoc, length-append,
  take-append, drop-append, ltb, false, if◌then◌else◌,
}
use simple_commit_log.Errors.{ok, panic}
use simple_commit_log.Slice.{items}
use simple_commit_log.Slice.Laws.{length-items}
use simple_commit_log.Records.Batch.{Batch, IsBatch, batch_len}
use simple_commit_log.Records.Bytes.{
  le_bytes, of_le_bytes, length-le_bytes, of_le_bytes-le_bytes, put_u32s, get_u32s, length-put_u32s,
  get_u32s-put_u32s, Writer, Reader, seek, read_full,
}
use simple_commit_log.Records.File.{
  Header, header_size, encode_header, decode_header, indexes_from, header_of, write, Parser,
  differences, parse, parse_header, parse_index,
}

-- The bytes of a file, in its three parts.
unfoldable pub file_of : ℕ → Batch → List ℕ
file_of now b =
    encode_header (header_of now b)
    ++ (put_u32s (indexes_from 0 (items b.sizes)) ++ items b.records_data)

-- A bytes.Buffer.
abbrev pub buffer_writer : Writer (List ℕ)
buffer_writer = record { put = λ w bs. (w ++ bs, ok tt) }

write-file_of :
    (now : ℕ) (w : List ℕ) (b : Batch) → write buffer_writer now w b ≡ (w ++ file_of now b, ok tt)
unfolding write file_of
write-file_of now w b = simp append_assoc

pub length-indexes_from : (a : ℕ) (sizes : List ℕ) → length (indexes_from a sizes) ≡ length sizes
unfolding indexes_from
length-indexes_from a [] = refl
length-indexes_from a (s ∷ sizes) = ap suc (length-indexes_from ((a + s) % 2 ^ 32) sizes)

indexes_from-lt :
    (a : ℕ) (sizes : List ℕ) → a < 2 ^ 32 → All (λ x. x < 2 ^ 32) (indexes_from a sizes)
unfolding indexes_from
indexes_from-lt a [] h = tt
indexes_from-lt a (s ∷ sizes) h = (h, indexes_from-lt ((a + s) % 2 ^ 32) sizes (omega arith))

-- The index of a parsed file: the sums of the sizes in front of each record, and of all sizes.
unfoldable pub index_of : ℕ → List ℕ → List ℕ
index_of a sizes = indexes_from a sizes ++ ((a + total sizes) ∷ [])

index_of-cons :
    (a s : ℕ) (sizes : List ℕ)
    → a + s < 2 ^ 32
    → index_of a (s ∷ sizes) ≡ a ∷ index_of (a + s) sizes
unfolding index_of indexes_from
index_of-cons a s sizes h =
    let no_wrap : (a + s) % 2 ^ 32 ≡ a + s = omega arith in
    rw no_wrap (ap (λ n. a ∷ (indexes_from (a + s) sizes ++ (n ∷ []))) (omega arith))

index_of-head : (a : ℕ) (sizes : List ℕ) → (t : List ℕ) × (index_of a sizes ≡ a ∷ t)
unfolding index_of indexes_from
index_of-head a [] = ([], ap (λ n. n ∷ []) (omega arith))
index_of-head a (s ∷ sizes) = (_, refl)

pub differences-index_of :
    (a : ℕ) (sizes : List ℕ) → a + total sizes < 2 ^ 32 → differences (index_of a sizes) ≡ sizes
unfolding differences
differences-index_of a [] h = unfold index_of indexes_from in refl
differences-index_of a (s ∷ sizes) h =
    let (t, e) = index_of-head (a + s) sizes in
    ap differences (index_of-cons a s sizes (omega arith))
    ∙ ap (λ l. differences (a ∷ l)) e
    ∙ ap₂ ◌∷◌ (omega arith)
        (ap differences (sym e) ∙ differences-index_of (a + s) sizes (omega arith))

pub get_elem?-index_of :
    (a i : ℕ) (sizes : List ℕ)
    → a + total sizes < 2 ^ 32
    → i ≤ length sizes
    → get_elem? (index_of a sizes) i ≡ some (a + total (take i sizes))
get_elem?-index_of a zero sizes h p =
    let (t, e) = index_of-head a sizes in ap (λ l. get_elem? l 0) e ∙ ap some (omega arith)
get_elem?-index_of a (suc i) [] h p = absurd (omega arith)
get_elem?-index_of a (suc i) (s ∷ sizes) h p =
    ap (λ l. get_elem? l (suc i)) (index_of-cons a s sizes (omega arith))
    ∙ get_elem?-index_of (a + s) i sizes (omega arith) (omega arith)
    ∙ ap some (omega arith)

-- A header as `Write` makes it: each field fits its place.
pub record IsHeader (h : Header) : Type 0 where
  pub magic : length h.magic_bytes ≡ 4
  pub version_fits : h.version < 2 ^ 16
  pub epoch_fits : h.unix_epoch_us < 2 ^ 64
  pub records_fit : h.num_records < 2 ^ 32
  pub reserved_length : length h.reserved ≡ 14

pub header_of-IsHeader : (now : ℕ) (b : Batch) → now < 2 ^ 64 → IsHeader (header_of now b)
unfolding header_of
header_of-IsHeader now b h = omega arith

pub length-encode_header : (h : Header) → IsHeader h → length (encode_header h) ≡ 32
unfolding encode_header
length-encode_header h v = omega (
  arith,
  length-append h.magic_bytes (
      le_bytes 2 h.version
      ++ (le_bytes 8 h.unix_epoch_us ++ (le_bytes 4 h.num_records ++ h.reserved))),
  length-append (le_bytes 2 h.version)
      (le_bytes 8 h.unix_epoch_us ++ (le_bytes 4 h.num_records ++ h.reserved)),
  length-append (le_bytes 8 h.unix_epoch_us) (le_bytes 4 h.num_records ++ h.reserved),
  length-append (le_bytes 4 h.num_records) h.reserved,
  length-le_bytes 2 h.version,
  length-le_bytes 8 h.unix_epoch_us,
  length-le_bytes 4 h.num_records,
)

-- A field of known width in front of the rest.
field : (k v : ℕ) (rest : List ℕ) → v < 256 ^ k → of_le_bytes (take k (le_bytes k v ++ rest)) ≡ v
field k v rest h =
    ap of_le_bytes (take-append (le_bytes k v) rest k (length-le_bytes k v))
    ∙ of_le_bytes-le_bytes k v h

after_field : (k v : ℕ) (rest : List ℕ) → drop k (le_bytes k v ++ rest) ≡ rest
after_field k v rest = drop-append (le_bytes k v) rest k (length-le_bytes k v)

-- The header survives `binary.Write` and `binary.Read`.
pub decode_header-encode_header : (h : Header) → IsHeader h → decode_header (encode_header h) ≡ h
unfolding decode_header encode_header
decode_header-encode_header h v =
    rw (drop-append h.magic_bytes _ 4 v.magic, take-append h.magic_bytes _ 4 v.magic)
      (rw (after_field 2 h.version _, field 2 h.version _ v.version_fits)
        (rw (after_field 8 h.unix_epoch_us _, field 8 h.unix_epoch_us _ v.epoch_fits)
          (rw (after_field 4 h.num_records _, field 4 h.num_records _ v.records_fit))))

-- A read of bytes that are there, between what stands in front and what follows.
pub read_full_lem :
    (front bs rest : List ℕ) (p n : ℕ)
    → length front ≡ p
    → length bs ≡ n
    → read_full (record { content = front ++ (bs ++ rest); position = p }) n
      ≡ (record { content = front ++ (bs ++ rest); position = p + n }, bs, none)
unfolding read_full
read_full_lem front [] rest p zero hp hn =
    ap (λ k. (record { content = front ++ rest; position = k }, [], none)) (omega arith)
read_full_lem front (x ∷ bs) rest p zero hp hn = absurd (omega arith)
read_full_lem front bs rest p (suc n) hp hn =
    rw (drop-append front (bs ++ rest) p hp, take-append bs rest (suc n) hn)
      (ground (arith, length-append bs rest))

pub length-file_of :
    (now : ℕ) (b : Batch)
    → IsBatch b
    → now < 2 ^ 64
    → length (file_of now b) ≡ 32 + 4 * batch_len b + b.records_data.len
unfolding file_of
length-file_of now b v ht = omega (
  arith,
  length-append (encode_header (header_of now b))
      (put_u32s (indexes_from 0 (items b.sizes)) ++ items b.records_data),
  length-append (put_u32s (indexes_from 0 (items b.sizes))) (items b.records_data),
  length-encode_header (header_of now b) (header_of-IsHeader now b ht),
  length-put_u32s (indexes_from 0 (items b.sizes)),
  length-indexes_from 0 (items b.sizes),
  length-items b.sizes v.sizes_wf,
  length-items b.records_data v.data_wf,
)

parse_index_lem :
    (h : Header) (rdr : Reader) (index indexes : List ℕ) (end : ℕ)
    → get_u32s h.num_records index ≡ indexes
    → (length rdr.content % 2 ^ 32 + 2 ^ 32 - header_size h) % 2 ^ 32 ≡ end
    → parse_index h (rdr, index, none)
      ≡ ok (record {
        header = h;
        record_index = indexes ++ (end ∷ []);
        record_sizes = differences (indexes ++ (end ∷ []));
        rdr = seek rdr (length rdr.content);
      })
unfolding parse_index
parse_index_lem h rdr index indexes end e f = cc

module _ (now : ℕ) (b : Batch) (v : IsBatch b) (records_fit : batch_len b + 1 < 2 ^ 32)
    (time_fits : now < 2 ^ 64) where
  -- What `Parse` returns for a file that `Write` made of the batch.
  abbrev pub parsed : Parser
  parsed = record {
    header = header_of now b;
    record_index = index_of 0 (items b.sizes);
    record_sizes = items b.sizes;
    rdr = record { content = file_of now b; position = length (file_of now b) };
  }

  count : (header_of now b).num_records ≡ length (indexes_from 0 (items b.sizes))
  unfolding header_of
  count = omega (arith, length-items b.sizes v.sizes_wf, length-indexes_from 0 (items b.sizes))

  indexes-read :
      get_u32s (header_of now b).num_records (put_u32s (indexes_from 0 (items b.sizes)))
      ≡ indexes_from 0 (items b.sizes)
  indexes-read =
      ap (λ n. get_u32s n (put_u32s (indexes_from 0 (items b.sizes)))) count
      ∙ get_u32s-put_u32s _ (indexes_from-lt 0 (items b.sizes) (omega arith))

  end-read :
      (length (file_of now b) % 2 ^ 32 + 2 ^ 32 - header_size (header_of now b)) % 2 ^ 32
      ≡ 0 + total (items b.sizes)
  unfolding header_size header_of
  end-read = omega (arith, length-file_of now b v time_fits, v.sums, v.fits)

  room : ltb (((header_of now b).num_records + 1) % 2 ^ 32) (header_of now b).num_records ≡ false
  unfolding header_of
  room = ground (arith, records_fit)

  pub parse-file_of : parse (record { content = file_of now b; position = 0 }) ≡ ok parsed
  unfolding file_of parse parse_header index_of
  parse-file_of =
      ap parse_header (read_full_lem [] head _ 0 32 refl head_length)
      ∙ ap
          (λ h.
            if ltb ((h.num_records + 1) % 2 ^ 32) h.num_records
            then panic
            else parse_index h
                (read_full (record { content = file_of now b; position = 32 }) (h.num_records * 4)))
          (decode_header-encode_header (header_of now b) valid)
      ∙ ap
          (λ wraps.
            if wraps
            then panic
            else parse_index (header_of now b) (
                read_full (record { content = file_of now b; position = 32 })
                  ((header_of now b).num_records * 4)))
          room
      ∙ ap (parse_index (header_of now b))
          (read_full_lem head index (items b.records_data) 32 _ head_length index_length)
      ∙ parse_index_lem (header_of now b) _ index _ _ indexes-read end-read
      ∙ ap (λ d. ok (record parsed { record_sizes = d }))
          (differences-index_of 0 (items b.sizes) (omega (arith, v.sums, v.fits)))
    where
      head : List ℕ
      head = encode_header (header_of now b)

      index : List ℕ
      index = put_u32s (indexes_from 0 (items b.sizes))

      valid : IsHeader (header_of now b)
      valid = header_of-IsHeader now b time_fits

      head_length : length head ≡ 32
      head_length = length-encode_header (header_of now b) valid

      index_length : length index ≡ (header_of now b).num_records * 4
      index_length = omega (arith, count, length-put_u32s (indexes_from 0 (items b.sizes)))

  -- `Write` of a valid batch with fewer than 2^32 - 1 records, with a time stamp below 2^64, into a
  -- buffer succeeds, and `Parse` of what it wrote returns the header
  -- with its time stamp, the sizes of the records and their offsets.
  pub parse-write :
      ((write buffer_writer now [] b).1 ≡ ok tt)
      × (parse (record { content = (write buffer_writer now [] b).0; position = 0 }) ≡ ok parsed)
  parse-write = (
    ap (λ r. r.1) (write-file_of now [] b),
    ap (λ r. parse (record { content = r.0; position = 0 })) (write-file_of now [] b)
        ∙ parse-file_of,
  )
