-- ===== src/Records/File/Reads.antt =====
-- `Parser.Records`: what it appends to the batch, and what its errors leave alone.
use simple_commit_log.Base.{
  ℕ, ◌+◌, ◌-◌, ◌*◌, ◌%◌, ◌^◌, ◌≤◌, ◌<◌, ◌≡◌, sym, ap, ◌∙◌, List, ◌++◌, length, take, drop,
  get_elem?, total, none, some, arith, append_assoc, length-append, take-append-drop, drop-drop,
  length-take, length-drop, total-take-drop, le→ltb, le→leb, lt→leb,
}
use simple_commit_log.Errors.{ok}
use simple_commit_log.Slice.{cap, items, IsWf, fill, append}
use simple_commit_log.Slice.Laws.{
  length-items, take-fill, items-append, cap-append, cap-fill, append-IsWf, len-append,
}
use simple_commit_log.Records.Batch.{Batch, IsBatch, batch_len}
use simple_commit_log.Records.Batch.Split.{between, total-between}
use simple_commit_log.Records.Bytes.{Reader, seek, read_full, put_u32s, length-put_u32s}
use simple_commit_log.Records.File.{
  header_size, header_of, encode_header, indexes_from, Parser, store_read, read_between,
  read_entries, read_records,
}
use simple_commit_log.Records.File.RoundTrip.{
  file_of, index_of, parsed, length-encode_header, length-indexes_from, header_of-IsHeader,
  read_full_lem, get_elem?-index_of,
}

between-middle {ℓ} :
    {A : Type ℓ} (xs : List A) (i j : ℕ) → i ≤ j → take i xs ++ (between xs i j ++ drop j xs) ≡ xs
between-middle xs i j h =
    ap (λ k. take i xs ++ (between xs i j ++ drop k xs)) {x = j} {y = i + (j - i)} (omega arith)
    ∙ ap (λ l. take i xs ++ (between xs i j ++ l)) (sym (drop-drop (j - i) i xs))
    ∙ ap (λ l. take i xs ++ l) (take-append-drop (j - i) (drop i xs))
    ∙ take-append-drop i xs

-- A batch that has grown by these sizes and these bytes, in the same buffers.
pub record Grows (out : Batch) (sizes bytes_read : List ℕ) (out' : Batch) : Type 0 where
  pub sizes_added : items out'.sizes ≡ items out.sizes ++ sizes
  pub bytes_added : items out'.records_data ≡ items out.records_data ++ bytes_read
  pub sizes_cap : cap out'.sizes ≡ cap out.sizes
  pub data_cap : cap out'.records_data ≡ cap out.records_data
  pub sizes_wf : IsWf out'.sizes
  pub data_wf : IsWf out'.records_data
  pub count : out'.sizes.len ≡ out.sizes.len + length sizes
  pub bytes : out'.records_data.len ≡ out.records_data.len + length bytes_read

-- Where the checks pass and the bytes are there, the read appends them.
module _ (rb : Parser) (b : Batch) (i j from to : ℕ) where
  read_between_lem :
      (bytes : List ℕ) (rdr : Reader) (start : ℕ)
      → from ≤ to
      → to < 2 ^ 32
      → to - from ≤ cap b.records_data - b.records_data.len
      → j ≤ length rb.record_sizes
      → (header_size rb.header + from) % 2 ^ 32 ≡ start
      → read_full (seek rb.rdr start) (to - from) ≡ (rdr, bytes, none)
      → read_between rb b i j from to ≡ (
        record rb { rdr = rdr },
        record {
          sizes = append b.sizes (take (j - i) (drop i rb.record_sizes));
          records_data = record (fill b.records_data bytes) {
            len = b.records_data.len + (to - from);
          };
        },
        ok tt,
      )
  unfolding read_between store_read
  read_between_lem bytes rdr start h k room sized e f =
      rw (no_wrap, e, le→ltb _ _ room, f) (rw (le→leb _ _ sized))
    where
      no_wrap : (to + 2 ^ 32 - from) % 2 ^ 32 ≡ to - from
      no_wrap = omega arith

  read_records_lem :
      i < j
      → j ≤ rb.header.num_records
      → j - i ≤ cap b.sizes - b.sizes.len
      → get_elem? rb.record_index i ≡ some from
      → get_elem? rb.record_index j ≡ some to
      → read_records rb b i j ≡ read_between rb b i j from to
  unfolding read_records read_entries
  read_records_lem h k room e f = rw (
    e,
    f,
    lt→leb rb.header.num_records i (omega arith),
    le→ltb _ _ k,
    lt→leb _ _ h,
    le→ltb _ _ room,
  )

module _ (now : ℕ) (b : Batch) (v : IsBatch b) (records_fit : batch_len b + 1 < 2 ^ 32)
    (time_fits : now < 2 ^ 64)
    (file_fits : 32 + 4 * batch_len b + b.records_data.len < 2 ^ 32) where
  -- The parser of the batch's file, with the file at a read position.
  abbrev pub parsed_at : ℕ → Parser
  parsed_at p = record (parsed now b v records_fit time_fits) {
    rdr = record { content = file_of now b; position = p };
  }

  module _ (i j : ℕ) (in_order : i < j) (in_range : j ≤ batch_len b) where
    from : ℕ
    from = total (take i (items b.sizes))

    to : ℕ
    to = total (take j (items b.sizes))

    wanted : List ℕ
    unfolding from to
    wanted = between (items b.records_data) from to

    bounds : (from + total (between (items b.sizes) i j) ≡ to) × (to ≤ b.records_data.len)
    unfolding from to
    bounds = (
      total-between i j (items b.sizes) (omega arith),
      omega (arith, total-take-drop j (items b.sizes), v.sums),
    )

    file-split :
        (encode_header (header_of now b)
            ++ (put_u32s (indexes_from 0 (items b.sizes)) ++ take from (items b.records_data)))
          ++ (wanted ++ drop to (items b.records_data))
        ≡ file_of now b
    unfolding file_of wanted
    file-split = simp append_assoc (
        ap
          (λ d. encode_header (header_of now b) ++ (put_u32s (indexes_from 0 (items b.sizes)) ++ d))
          (between-middle (items b.records_data) from to (omega (arith, bounds))))

    front_length :
        length (
          encode_header (header_of now b)
          ++ (put_u32s (indexes_from 0 (items b.sizes)) ++ take from (items b.records_data)))
        ≡ 32 + 4 * batch_len b + from
    front_length = omega (
      arith,
      bounds,
      length-append (encode_header (header_of now b))
          (put_u32s (indexes_from 0 (items b.sizes)) ++ take from (items b.records_data)),
      length-append (put_u32s (indexes_from 0 (items b.sizes))) (take from (items b.records_data)),
      length-encode_header (header_of now b) (header_of-IsHeader now b time_fits),
      length-put_u32s (indexes_from 0 (items b.sizes)),
      length-indexes_from 0 (items b.sizes),
      length-items b.sizes v.sizes_wf,
      length-take from (items b.records_data),
      length-items b.records_data v.data_wf,
    )

    length-wanted : length wanted ≡ to - from
    unfolding wanted
    length-wanted = omega (
      arith,
      bounds,
      length-take (to - from) (drop from (items b.records_data)),
      length-drop from (items b.records_data),
      length-items b.records_data v.data_wf,
    )

    wanted-read :
        (p : ℕ)
        → read_full (seek (parsed_at p).rdr (32 + 4 * batch_len b + from)) (to - from) ≡ (
          record { content = file_of now b; position = 32 + 4 * batch_len b + from + (to - from) },
          wanted,
          none,
        )
    wanted-read p = rw file-split at (
        read_full_lem
          (encode_header (header_of now b)
            ++ (put_u32s (indexes_from 0 (items b.sizes)) ++ take from (items b.records_data)))
          wanted (drop to (items b.records_data)) (32 + 4 * batch_len b + from) (to - from)
          front_length length-wanted)

    entry :
        (k : ℕ)
        → k ≤ batch_len b
        → get_elem? (index_of 0 (items b.sizes)) k ≡ some (total (take k (items b.sizes)))
    entry k h =
        get_elem?-index_of 0 k (items b.sizes) (omega (arith, v.sums, v.fits))
          (omega (arith, length-items b.sizes v.sizes_wf))
        ∙ ap some (omega arith)

    start_lem : (header_size (header_of now b) + from) % 2 ^ 32 ≡ 32 + 4 * batch_len b + from
    unfolding header_size header_of
    start_lem = omega (arith, bounds)

    read_records-stored :
        (p : ℕ) (out : Batch)
        → j - i ≤ cap out.sizes - out.sizes.len
        → total (between (items b.sizes) i j) ≤ cap out.records_data - out.records_data.len
        → (q : ℕ) × (read_records (parsed_at p) out i j ≡ (
          parsed_at q,
          record {
            sizes = append out.sizes (between (items b.sizes) i j);
            records_data = record (fill out.records_data wanted) {
              len = out.records_data.len + (to - from);
            };
          },
          ok tt,
        ))
    unfolding from to
    read_records-stored p out rs rd = (
      _,
      read_records_lem (parsed_at p) out i j from to in_order counted rs (entry i (omega arith))
            (entry j in_range)
          ∙ read_between_lem (parsed_at p) out i j from to wanted _ (32 + 4 * batch_len b + from)
              (omega (arith, bounds)) (omega (arith, bounds, v.fits)) (omega (arith, bounds))
              (omega (arith, length-items b.sizes v.sizes_wf)) start_lem (wanted-read p),
    )
      where
        counted : j ≤ (header_of now b).num_records
        counted = unfold header_of in omega arith

    -- A read of the records between two indexes in range into a buffer that has room for them.
    pub read_records-Grows :
        (p : ℕ) (out : Batch)
        → IsWf out.sizes
        → IsWf out.records_data
        → j - i ≤ cap out.sizes - out.sizes.len
        → total (between (items b.sizes) i j) ≤ cap out.records_data - out.records_data.len
        → (q : ℕ) × (out' : Batch) × (read_records (parsed_at p) out i j
            ≡ (parsed_at q, out', ok tt))
          × Grows out
              (between (items b.sizes) i j)
              (between
                (items b.records_data)
                (total (take i (items b.sizes)))
                (total (take j (items b.sizes))))
              out'
    unfolding from to wanted
    read_records-Grows p out ws wd rs rd =
        let (q, e) = read_records-stored p out rs rd in
        (
          q,
          _,
          e,
          record {
            sizes_added = items-append out.sizes (between (items b.sizes) i j);
            bytes_added =
                ap (λ n. take (out.records_data.len + n) (fill out.records_data wanted).array)
                  (sym length-wanted)
                ∙ take-fill out.records_data wanted (omega (arith, length-wanted, bounds));
            sizes_cap =
                cap-append out.sizes (between (items b.sizes) i j)
                  (omega (arith, wanted_sizes, ws));
            data_cap = cap-fill out.records_data wanted (omega (arith, length-wanted, bounds, wd));
            sizes_wf = append-IsWf out.sizes (between (items b.sizes) i j) ws;
            data_wf = omega (
              arith,
              cap-fill out.records_data wanted (omega (arith, length-wanted, bounds, wd)),
              length-wanted,
              bounds,
            );
            count = len-append out.sizes (between (items b.sizes) i j) ws;
            bytes = omega (arith, length-wanted);
          },
        )
      where
        wanted_sizes : length (between (items b.sizes) i j) ≡ j - i
        wanted_sizes = omega (
          arith,
          length-take (j - i) (drop i (items b.sizes)),
          length-drop i (items b.sizes),
          length-items b.sizes v.sizes_wf,
        )

    -- Read from a file that `Write` made of a valid batch, the records between two indexes in range
    -- are appended to a buffer that has room for them: first their sizes, then their bytes. The file
    -- stays as it was, for the next read, wherever the last one left it.
    pub read_records-parsed :
        (p : ℕ) (out : Batch)
        → IsWf out.sizes
        → j - i ≤ cap out.sizes - out.sizes.len
        → total (between (items b.sizes) i j) ≤ cap out.records_data - out.records_data.len
        → IsWf out.records_data
        → (q : ℕ) × (out' : Batch) × (read_records (parsed_at p) out i j
            ≡ (parsed_at q, out', ok tt))
          × (items out'.sizes ≡ items out.sizes ++ between (items b.sizes) i j)
          × (items out'.records_data
              ≡ items out.records_data
                ++ between
                    (items b.records_data)
                    (total (take i (items b.sizes)))
                    (total (take j (items b.sizes))))
    unfolding from to wanted
    read_records-parsed p out ws rs rd wd =
        let (q, out', e, g) = read_records-Grows p out ws wd rs rd in
        (q, out', e, g.sizes_added, g.bytes_added)
