-- ===== src/Http/Multipart.antt =====
-- internal/infrastructure/httphelpers/multipart.go: batches as multipart form data. The packages
-- mime/multipart and encoding/json are parameters: what is read is a list of parts.
pub mod RoundTrip
use simple_commit_log.Base.{
  ℕ, zero, ◌+◌, ◌<◌, ◌≢◌, ◌≡◌, List, [], ◌∷◌, length, take, Bool, true, false, ◌||◌, not, Option,
  none, some, ◌==◌, ltb, leb, if◌then◌else◌,
}
use simple_commit_log.Errors.{
  Error, Result, ok, err, panic, bad_input, buffer_too_small, eof, unexpected_eof, other,
}
use simple_commit_log.Exec.{Exec, pure, raise, ◌>>=◌, ◌>>◌}
use simple_commit_log.Helpy.{Slicey}
use simple_commit_log.Slice.{Slice, cap, items, append, fill}
use simple_commit_log.Records.Batch.{Batch, reset}
use simple_commit_log.Topic.Files.{Key}
use simple_commit_log.Topic.Paths.{codes}
use simple_commit_log.Names.{same_name}

-- `RecordsMultipartSizesKey` and `RecordsMultipartRecordsKey`
abbrev pub sizes_key : Key
sizes_key = codes "sizes"

abbrev pub records_key : Key
records_key = codes "records"

-- What the code relies on of encoding/json: an array of numbers is text that begins with a bracket,
-- and is parsed to what it was made of.
pub record Json : Type 0 where
  pub marshal : List ℕ → List ℕ
  pub unmarshal : List ℕ → Result (List ℕ)
  pub unmarshal-marshal : (xs : List ℕ) → unmarshal (marshal xs) ≡ ok xs
  pub marshal_bracket : (xs : List ℕ) → (bs : List ℕ) × (marshal xs ≡ b'[' ∷ bs)

-- A multipart.Writer with state `W`: `CreateFormField`, and `Write` to the field made last, which
-- returns how many bytes it wrote.
pub record FormWriter (W : Type 0) : Type 0 where
  pub create_form_field : Key → Exec W (Unit {0})
  pub write_field : List ℕ → Exec W ℕ
  pub close_form : Exec W (Unit {0})

module _ {W : Type 0} (json : Json) (mw : FormWriter W) where
  -- One of the two blocks of `recordsToMultipartFormData`.
  unfoldable pub write_part : Key → List ℕ → Exec W (Unit {0})
  write_part key bs = do
    mw.create_form_field key
    n ← mw.write_field bs
    if not (n == length bs) then raise other else pure tt

  -- `recordsToMultipartFormData`, on slices that are not nil.
  unfoldable pub records_to_multipart_form_data : List ℕ → List ℕ → Exec W (Unit {0})
  records_to_multipart_form_data record_sizes records_data = do
    write_part sizes_key (json.marshal record_sizes)
    write_part records_key records_data

  -- `RecordsToMultipartFormData`, without the content type that it returns.
  unfoldable pub form_of_records : List ℕ → List ℕ → Exec W (Unit {0})
  form_of_records record_sizes records_data = do
    records_to_multipart_form_data record_sizes records_data
    mw.close_form

-- A part that is read: its name, its bytes, and the error behind them if it is not io.EOF.
pub record Part : Type 0 where
  pub form_name : Key
  pub bytes : List ℕ
  pub failed : Option Error

-- What a multipart.Reader yields: parts, and then an error, which is io.EOF at a regular end.
pub record Form : Type 0 where
  pub parts : List Part
  pub ending : Error

-- `io.ReadFull` of a part into a buffer of `n` bytes, where `n` is not 0.
abbrev pub short : List ℕ → Option Error → Error
short bytes (some e) = e
short [] none = eof
short (x ∷ bytes) none = unexpected_eof

unfoldable pub read_part : Part → ℕ → List ℕ × Option Error
read_part p n =
    if leb n (length p.bytes)
    then (take n p.bytes, none)
    else (p.bytes, some (short p.bytes p.failed))

-- `errors.Is(err, e)` for the errors that the code tests for here.
abbrev pub is_eof : Error → Bool
is_eof eof = true
is_eof e = false

abbrev pub is_unexpected_eof : Error → Bool
is_unexpected_eof unexpected_eof = true
is_unexpected_eof e = false

-- `nextPart`
unfoldable pub next_part : Form → Key → Form × Result Part
next_part (form) expected_name = elim form.parts [
  | [] ↦ (form, err (if is_eof form.ending then bad_input else form.ending))
  | p ∷ parts ↦ (
    record form { parts = parts },
    if not (same_name p.form_name expected_name) then err bad_input else ok p,
  )
]

module _ (json : Json) (slicey : Slicey) where
  -- What `json.Unmarshal` leaves in a slice: the length is reset, and each number is appended.
  abbrev pub store_sizes : Slice ℕ → List ℕ → Slice ℕ
  store_sizes s xs = append (record s { len = 0 }) xs

  -- The block of the sizes, behind the read: `bs` are the bytes in `batch.Data`.
  abbrev pub parsed_sizes : Batch → List ℕ → Result (List ℕ) → Batch × Result (Unit {0})
  parsed_sizes b bs (err e) = (b, err bad_input)
  parsed_sizes b bs panic = (b, panic)
  parsed_sizes b bs (ok xs) =
      (record b { sizes = store_sizes b.sizes xs }, if length xs == 0 then err bad_input else ok tt)

  unfoldable pub parse_sizes : Batch → List ℕ → Batch × Result (Unit {0})
  parse_sizes b bs =
      if same_name bs (codes "null")
      then (b, err bad_input)
      else parsed_sizes b bs (json.unmarshal bs)

  -- `batch.Data` as the buffer of a read: the bytes are stored from its front on.
  abbrev pub read_into : Batch → List ℕ → Batch
  read_into b bs = record b {
    records_data = record (fill (record (b.records_data) { len = 0 }) bs) { len = length bs };
  }

  -- The block of the sizes: a short read is what is expected.
  abbrev pub sizes_read : Batch → List ℕ × Option Error → Batch × Result (Unit {0})
  sizes_read b (bs, none) = parse_sizes (read_into b bs) bs
  sizes_read b (bs, some e) =
      if is_unexpected_eof e then parse_sizes (read_into b bs) bs else (read_into b bs, err e)

  abbrev pub beside : Form → Batch × Result (Unit {0}) → Form × Batch × Result (Unit {0})
  beside form (b, r) = (form, b, r)

  unfoldable pub read_sizes : Batch → Form × Result Part → Form × Batch × Result (Unit {0})
  read_sizes b (form, ok p) = beside form (sizes_read b (read_part p (cap b.records_data)))
  read_sizes b (form, err e) = (form, b, err e)
  read_sizes b (form, panic) = (form, b, panic)

  -- The block of the records, for `sizes_sum` bytes.
  abbrev pub records_read : Batch → ℕ → List ℕ × Option Error → Batch × Result (Unit {0})
  records_read b sizes_sum (bs, e) =
      if (elim e [ none ↦ false | some e' ↦ not (is_unexpected_eof e') ])
        || not (length bs == sizes_sum)
      then (read_into b bs, err bad_input)
      else (read_into b bs, ok tt)

  unfoldable pub read_records_part :
      Batch → ℕ → Form × Result Part → Form × Batch × Result (Unit {0})
  read_records_part b sizes_sum (form, ok p) =
      beside form (records_read b sizes_sum (read_part p (cap b.records_data)))
  read_records_part b sizes_sum (form, err e) = (form, b, err e)
  read_records_part b sizes_sum (form, panic) = (form, b, panic)

  -- What follows the block of the sizes.
  unfoldable pub after_sizes : Form × Batch × Result (Unit {0}) → Form × Batch × Result (Unit {0})
  after_sizes (form, b, err e) = (form, b, err e)
  after_sizes (form, b, panic) = (form, b, panic)
  after_sizes (form, b, ok _) =
      if ltb (cap b.records_data) (slicey.sum (items b.sizes))
      then (form, b, err buffer_too_small)
      else read_records_part b (slicey.sum (items b.sizes)) (next_part form records_key)

  -- The deferred function: an error clears the batch.
  abbrev pub clear_on_error : Form × Batch × Result (Unit {0}) → Form × Batch × Result (Unit {0})
  clear_on_error (form, b, ok _) = (form, b, ok tt)
  clear_on_error (form, b, err e) = (form, reset b, err e)
  clear_on_error (form, b, panic) = (form, b, panic)

  -- `MultipartFormDataToRecords`
  unfoldable pub multipart_form_data_to_records : Form → Batch → Form × Batch × Result (Unit {0})
  multipart_form_data_to_records form b =
      if cap b.sizes == 0 || cap b.records_data == 0
      then (form, b, err bad_input)
      else clear_on_error (after_sizes (read_sizes (reset b) (next_part form sizes_key)))
