-- ===== src/Http/Multipart/RoundTrip.antt =====
-- A batch written as a form, and read from it.
use simple_commit_log.Base.{
  ℕ, ◌^◌, ◌≤◌, ◌<◌, ◌≡◌, refl, ap, ◌∙◌, ◌⊎◌, inl, inr, List, [], ◌∷◌, ◌++◌, length, take, total,
  none, some, ◌==◌, leb, le→ltb, lt→leb, Bool-cases, take-all, arith, false, Option, ◌||◌,
}
use simple_commit_log.Errors.{Error, ok, err, bad_input, eof, unexpected_eof}
use simple_commit_log.Helpy.{Slicey}
use simple_commit_log.Slice.{cap, items, fill}
use simple_commit_log.Slice.Laws.{items-append, cap-fill, take-fill}
use simple_commit_log.Records.Batch.{Batch, reset}
use simple_commit_log.Topic.Files.{Key}
use simple_commit_log.Topic.Paths.{codes}
use simple_commit_log.Names.{same_name}
use simple_commit_log.Http.Multipart.{
  sizes_key, records_key, Json, FormWriter, write_part, records_to_multipart_form_data,
  form_of_records, Part, Form, read_part, next_part, parse_sizes, store_sizes, read_into,
  sizes_read, read_sizes, records_read, read_records_part, after_sizes,
  multipart_form_data_to_records, beside,
}

-- Bytes for the part that was made last.
abbrev to_last : List ℕ → List Part → List Part
to_last bs [] = []
to_last bs (p ∷ []) = record p { bytes = p.bytes ++ bs } ∷ []
to_last bs (p ∷ q ∷ ps) = p ∷ to_last bs (q ∷ ps)

-- A writer that keeps the parts, and never fails.
abbrev pub part_writer : FormWriter (List Part)
part_writer = record {
  create_form_field =
      λ name ps. (ps ++ (record { form_name = name; bytes = []; failed = none } ∷ []), ok tt);
  write_field = λ bs ps. (to_last bs ps, ok (length bs));
  close_form = λ ps. (ps, ok tt);
}

abbrev part_of : Key → List ℕ → Part
part_of name bs = record { form_name = name; bytes = bs; failed = none }

-- The form that a client sends for the records.
abbrev pub form_of : Json → List ℕ → List ℕ → Form
form_of json sizes bs = record {
  parts = (form_of_records json part_writer sizes bs []).0;
  ending = eof;
}

module _ (json : Json) (slicey : Slicey) where
  written :
      (sizes bs : List ℕ)
      → (form_of_records json part_writer sizes bs []).0
        ≡ part_of sizes_key (json.marshal sizes) ∷ part_of records_key bs ∷ []
  unfolding form_of_records records_to_multipart_form_data write_part
  written sizes bs = ground arith

  -- A part that fits into the buffer is read whole.
  read_part-whole :
      (name : Key) (bs : List ℕ) (n : ℕ)
      → 0 < length bs
      → length bs ≤ n
      → (read_part (part_of name bs) n ≡ (bs, none))
        ⊎ (read_part (part_of name bs) n ≡ (bs, some unexpected_eof))
  unfolding read_part
  read_part-whole name [] n l h = absurd (omega arith)
  read_part-whole name (b ∷ bs) n l h = elim (Bool-cases (leb n (length (b ∷ bs)))) [
    | inl full ↦ inl (rw full (ap (λ xs. (xs, none)) (take-all n (b ∷ bs) (ground arith))))
    | inr room ↦ inr (rw room refl)
  ]

  sizes_read-whole :
      (b : Batch) (bs : List ℕ) (o : List ℕ × Option Error)
      → (o ≡ (bs, none)) ⊎ (o ≡ (bs, some unexpected_eof))
      → sizes_read json slicey b o ≡ parse_sizes json slicey (read_into json slicey b bs) bs
  sizes_read-whole b bs o (inl e) = rw e
  sizes_read-whole b bs o (inr e) = rw e

  records_read-whole :
      (b : Batch) (bs : List ℕ) (o : List ℕ × Option Error)
      → (o ≡ (bs, none)) ⊎ (o ≡ (bs, some unexpected_eof))
      → records_read json slicey b (length bs) o ≡ (read_into json slicey b bs, ok tt)
  records_read-whole b bs o (inl e) = rw e (ground arith)
  records_read-whole b bs o (inr e) = rw e (ground arith)

  parse_sizes-marshal :
      (b : Batch) (x : ℕ) (xs : List ℕ)
      → parse_sizes json slicey b (json.marshal (x ∷ xs))
        ≡ (record b { sizes = store_sizes json slicey b.sizes (x ∷ xs) }, ok tt)
  unfolding parse_sizes same_name
  parse_sizes-marshal b x xs =
      rw
        (
          not_null (json.marshal (x ∷ xs)) (json.marshal_bracket (x ∷ xs)),
          json.unmarshal-marshal (x ∷ xs),
        )
        (ground arith)
    where
      not_null :
          (js : List ℕ) → (bs : List ℕ) × (js ≡ b'[' ∷ bs) → same_name js (codes "null") ≡ false
      not_null js (bs, e) = rw e refl

  -- The batch behind the block of the sizes.
  with_sizes : Batch → List ℕ → Batch
  with_sizes b sizes = record (read_into json slicey (reset b) (json.marshal sizes)) {
    sizes = store_sizes json slicey (reset b).sizes sizes;
  }

  read_sizes-form :
      (b : Batch) (x : ℕ) (sizes bs : List ℕ)
      → length (json.marshal (x ∷ sizes)) ≤ cap b.records_data
      → read_sizes json slicey (reset b) (next_part (form_of json (x ∷ sizes) bs) sizes_key) ≡ (
        record { parts = part_of records_key bs ∷ []; ending = eof },
        with_sizes b (x ∷ sizes),
        ok tt,
      )
  unfolding read_sizes next_part with_sizes same_name reset
  read_sizes-form b x sizes bs fits = rw (written (x ∷ sizes) bs) (
      ap (beside json slicey (record { parts = part_of records_key bs ∷ []; ending = eof })) (
        sizes_read-whole (reset b) (json.marshal (x ∷ sizes)) _ (
          read_part-whole sizes_key (json.marshal (x ∷ sizes)) _
            (bracket _ (json.marshal_bracket (x ∷ sizes))) fits)
        ∙ parse_sizes-marshal _ x sizes))
    where
      bracket : (js : List ℕ) → (bs : List ℕ) × (js ≡ b'[' ∷ bs) → 0 < length js
      bracket js (bs, e) = rw e (omega arith)

  cap-with_sizes :
      (b : Batch) (sizes : List ℕ)
      → length (json.marshal sizes) ≤ cap b.records_data
      → cap (with_sizes b sizes).records_data ≡ cap b.records_data
  unfolding with_sizes reset
  cap-with_sizes b sizes fits =
      cap-fill (record (b.records_data) { len = 0 }) (json.marshal sizes) (omega arith)

  items-with_sizes : (b : Batch) (sizes : List ℕ) → items (with_sizes b sizes).sizes ≡ sizes
  unfolding with_sizes reset
  items-with_sizes b sizes = items-append (record (b.sizes) { len = 0 }) sizes

  items-read_into :
      (b : Batch) (bs : List ℕ)
      → length bs ≤ cap b.records_data
      → items (read_into json slicey b bs).records_data ≡ bs
  items-read_into b bs fits =
      ap (λ n. take n (fill (record (b.records_data) { len = 0 }) bs).array) {x = length bs}
        (omega arith)
      ∙ take-fill (record (b.records_data) { len = 0 }) bs (omega arith)

  after_sizes-form :
      (b : Batch) (sizes bs : List ℕ)
      → slicey.sum (items b.sizes) ≡ length bs
      → 0 < length bs
      → length bs ≤ cap b.records_data
      → after_sizes json slicey
          (record { parts = part_of records_key bs ∷ []; ending = eof }, b, ok tt)
        ≡ (record { parts = []; ending = eof }, read_into json slicey b bs, ok tt)
  unfolding after_sizes next_part read_records_part same_name
  after_sizes-form b sizes bs sum full fits =
      rw (sum, le→ltb (cap b.records_data) (length bs) fits)
        (ap (beside json slicey (record { parts = []; ending = eof })) (
          records_read-whole b bs _
            (read_part-whole records_key bs (cap b.records_data) full fits)))

  module _ (sizes bs : List ℕ) (b : Batch) (some_sizes : 0 < length sizes)
      (sums : total sizes ≡ length bs) (some_bytes : 0 < length bs) (small : length bs < 2 ^ 32)
      (fits : length bs ≤ cap b.records_data)
      (sizes_fit : length (json.marshal sizes) ≤ cap b.records_data)
      (some_cap : 0 < cap b.sizes) where
    reads_sizes :
        read_sizes json slicey (reset b) (next_part (form_of json sizes bs) sizes_key)
        ≡ (record { parts = part_of records_key bs ∷ []; ending = eof }, with_sizes b sizes, ok tt)
    reads_sizes = by_cases sizes some_sizes sizes_fit
      where
        by_cases :
            (sizes : List ℕ)
            → 0 < length sizes
            → length (json.marshal sizes) ≤ cap b.records_data
            → read_sizes json slicey (reset b) (next_part (form_of json sizes bs) sizes_key) ≡ (
              record { parts = part_of records_key bs ∷ []; ending = eof },
              with_sizes b sizes,
              ok tt,
            )
        by_cases [] h f = absurd (omega (arith, h))
        by_cases (x ∷ xs) h f = read_sizes-form b x xs bs f

    reads_records :
        after_sizes json slicey
          (record { parts = part_of records_key bs ∷ []; ending = eof }, with_sizes b sizes, ok tt)
        ≡ (
          record { parts = []; ending = eof },
          read_into json slicey (with_sizes b sizes) bs,
          ok tt,
        )
    reads_records =
        after_sizes-form (with_sizes b sizes) sizes bs
          (ap slicey.sum (items-with_sizes b sizes)
            ∙ slicey.sum_lem sizes
            ∙ omega (arith, sums, small))
          some_bytes (omega (arith, cap-with_sizes b sizes sizes_fit, fits))

    reads : multipart_form_data_to_records json slicey (form_of json sizes bs) b ≡ (
      record { parts = []; ending = eof },
      read_into json slicey (with_sizes b sizes) bs,
      ok tt,
    )
    unfolding multipart_form_data_to_records
    reads =
        rw
          (
            has_room (cap b.sizes) (cap b.records_data) some_cap (omega (arith, fits, some_bytes)),
            reads_sizes,
            reads_records,
          )
          refl
      where
        has_room : (m n : ℕ) → 0 < m → 0 < n → (m == 0 || n == 0) ≡ false
        has_room m n h k = ground arith

    -- A batch that is written as a form, and read from it, has the same sizes and the same bytes:
    -- for at least one record and one byte, sizes that add up to the bytes, which fit a uint32, and a
    -- buffer with room for the bytes and for the text of the sizes.
    pub multipart_round_trip :
        let (form, b', r) = multipart_form_data_to_records json slicey (form_of json sizes bs) b in
        (r ≡ ok tt) × (items b'.sizes ≡ sizes) × (items b'.records_data ≡ bs)
    multipart_round_trip = rw reads (
      refl,
      items-with_sizes b sizes,
      items-read_into (with_sizes b sizes) bs
          (omega (arith, cap-with_sizes b sizes sizes_fit, fits)),
    )

  no_bytes-refused :
      (b : Batch)
      → slicey.sum (items b.sizes) ≤ cap b.records_data
      → 0 < cap b.records_data
      → after_sizes json slicey
          (record { parts = part_of records_key [] ∷ []; ending = eof }, b, ok tt)
        ≡ (record { parts = []; ending = eof }, read_into json slicey b [], err bad_input)
  unfolding after_sizes next_part read_records_part same_name read_part
  no_bytes-refused b sum_fits some_cap =
      rw
        (
          le→ltb (cap b.records_data) (slicey.sum (items b.sizes)) sum_fits,
          lt→leb (cap b.records_data) 0 some_cap,
        )
        refl

  -- A batch whose records have no bytes is refused as bad input, and the caller's batch is empty.
  pub multipart_no_bytes :
      (x : ℕ) (sizes : List ℕ) (b : Batch)
      → length (json.marshal (x ∷ sizes)) ≤ cap b.records_data
      → 0 < cap b.sizes
      → total (x ∷ sizes) ≡ 0
      → let (form, b', r) =
          multipart_form_data_to_records json slicey (form_of json (x ∷ sizes) []) b in
        (r ≡ err bad_input) × (b'.sizes.len ≡ 0) × (b'.records_data.len ≡ 0)
  unfolding multipart_form_data_to_records reset
  multipart_no_bytes x sizes b json_fits some_cap none_there =
      rw
        (
          has_room (cap b.sizes) (cap b.records_data) some_cap some_room,
          read_sizes-form b x sizes [] json_fits,
          no_bytes-refused (with_sizes b (x ∷ sizes))
              (omega
                (arith, ap slicey.sum (items-with_sizes b (x ∷ sizes)), slicey.sum_lem (x ∷ sizes)))
              (omega (arith, some_room, cap-with_sizes b (x ∷ sizes) json_fits)),
        )
        (refl, refl, refl)
    where
      has_room : (m n : ℕ) → 0 < m → 0 < n → (m == 0 || n == 0) ≡ false
      has_room m n h k = ground arith

      some_text : (js : List ℕ) → (bs : List ℕ) × (js ≡ b'[' ∷ bs) → 0 < length js
      some_text js (bs, e) = rw e (omega arith)

      some_room : 0 < cap b.records_data
      some_room = omega (arith, json_fits, some_text _ (json.marshal_bracket (x ∷ sizes)))
