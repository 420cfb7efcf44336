-- ===== src/Http/Handlers.antt =====
-- The handlers of internal/httphandlers, on what they depend on with state `D`. Each gets the
-- response as it is so far, and returns it with what it wrote. A panic of a handler is a result.
pub mod Statuses
use simple_commit_log.Base.{
  ℕ, zero, List, [], ◌∷◌, ◌++◌, replicate, ◌*◌, length, Bool, true, false, ◌&&◌, ◌||◌, not, Option,
  none, some, if◌then◌else◌,
}
use simple_commit_log.Base.Int.{ℤ, pos}
use simple_commit_log.Errors.{
  Error, Result, ok, err, panic, out_of_bounds, topic_not_found, payload_too_large, bad_input,
  canceled, deadline_exceeded, ◌>>=◌,
}
use simple_commit_log.Exec.{Exec}
use simple_commit_log.Helpy.{Slicey}
use simple_commit_log.Slice.{Slice, items}
use simple_commit_log.Records.Batch.{Batch, new_batch, reset}
use simple_commit_log.Topic.Files.{Key}
use simple_commit_log.Topic.Paths.{codes}
use simple_commit_log.Names.{Entries, lookup, same_name}
use simple_commit_log.Http.{
  Request, Response, Chunk, message, closing, raw, offsets, topic, field, field_bytes, write_header,
  write_body, fail_with,
}
use simple_commit_log.Http.Multipart.{
  Json, Form, FormWriter, records_to_multipart_form_data, multipart_form_data_to_records,
}
use simple_commit_log.Http.Params.{
  Value, Parsers, QParam, query_string, query_uint64, query_int_default, query_duration_default,
  parse_query_params, as_text, as_number, as_int, as_duration, topic_name_key, offset_key,
  soft_max_bytes_key, max_records_key, timeout_key,
}

-- `Dependencies`: what the handlers call, which is the broker. A context is what it reports as time
-- goes on, and `with_timeout` makes one that ends after a time.
pub record Dependencies (D : Type 0) : Type 0 where
  pub add : Key → Batch → Exec D (List ℕ)
  pub get_one : Batch → Key → ℕ → D → D × Batch × Result (Slice ℕ)
  pub get_many : (ℕ → Option Error) → Batch → Key → ℕ → ℤ → ℤ → D → D × Batch × Result (Unit {0})
  pub topic_metadata : Key → Exec D (ℕ × Option ℕ)

-- What the handlers use of other packages: `mime.ParseMediaType`, which gives the media type and the
-- boundary, the parsers of the parameters, encoding/json, slicey, contexts, and `sizey.MB`.
pub record Packages : Type 0 where
  pub parse_media_type : Key → Result (Key × Key)
  pub parsers : Parsers
  pub json : Json
  pub slicey : Slicey
  pub with_timeout : ℤ → ℕ → Option Error
  pub mb : ℕ

-- `multipartFormData`
abbrev pub multipart_form_data : Key
multipart_form_data = codes "multipart/form-data"

-- A handler's outcome: `panic` is a panic, which net/http recovers from.
abbrev pub Outcome : Type 0 → Type 0
Outcome D = D × Response × Result (Unit {0})

-- The status of AddRecords for an error of the body.
abbrev pub input_code : Error → ℕ
input_code bad_input = 400
input_code _ = 500

-- A multipart.Writer on a response, on which a write does not fail.
abbrev pub response_form : FormWriter Response
response_form = record {
  create_form_field = λ name r. (write_body (field name) r, ok tt);
  write_field = λ bs r. (write_body (field_bytes bs) r, ok (length bs));
  close_form = λ r. (write_body closing r, ok tt);
}

module _ {D : Type 0} (pkg : Packages) (deps : Dependencies D) where
  -- AddRecords behind the call of `s.AddRecords`.
  abbrev pub added : Response → D × Result (List ℕ) → Outcome D
  added w (d, ok os) = (d, write_body (offsets os) (write_header 201 w), ok tt)
  added w (d, err payload_too_large) = (d, write_header 413 w, ok tt)
  added w (d, err e) = (d, fail_with 500 w, ok tt)
  added w (d, panic) = (d, w, panic)

  -- AddRecords behind the parsing of the body.
  abbrev pub with_batch : Key → D → Response → Form × Batch × Result (Unit {0}) → Outcome D
  with_batch topic_name d w (form, b, ok _) = added w (deps.add topic_name b d)
  with_batch topic_name d w (form, b, err e) = (d, write_header (input_code e) w, ok tt)
  with_batch topic_name d w (form, b, panic) = (d, w, panic)

  -- AddRecords behind `mime.ParseMediaType`.
  abbrev pub with_media : Batch → Request → Key → D → Response → Result (Key × Key) → Outcome D
  with_media pooled r topic_name d w (ok (media_type, boundary)) =
      if not (same_name media_type multipart_form_data)
      then (d, fail_with 400 w, ok tt)
      else with_batch topic_name d w
          (multipart_form_data_to_records pkg.json pkg.slicey (r.form boundary) pooled)
  with_media pooled r topic_name d w _ = (d, fail_with 400 w, ok tt)

  abbrev pub with_topic : Batch → Request → D → Response → Result Key → Outcome D
  with_topic pooled r d w (ok topic_name) =
      with_media pooled r topic_name d w (pkg.parse_media_type r.content_type)
  with_topic pooled r d w _ = (d, w, panic)

  abbrev pub add_params : List QParam
  add_params = record { key = topic_name_key; parser = query_string } ∷ []

  -- `AddRecords`, with a batch from the pool.
  unfoldable pub handle_add_records : Batch → Request → D → Response → Outcome D
  handle_add_records pooled r d w =
      let (params, fine) = parse_query_params r.query add_params in
      if not fine
      then (d, fail_with 400 w, ok tt)
      else with_topic pooled r d w (as_text (lookup topic_name_key params))

  -- GetRecord behind the call of `s.GetRecord`. After the status 500 it goes on, and writes the
  -- record, which is nil.
  abbrev pub got_one : Response → D × Batch × Result (Slice ℕ) → Outcome D
  got_one w (d, b, ok s) = (d, write_body (raw (items s)) w, ok tt)
  got_one w (d, b, err out_of_bounds) = (d, write_header 404 w, ok tt)
  got_one w (d, b, err e) = (d, write_body (raw []) (fail_with 500 w), ok tt)
  got_one w (d, b, panic) = (d, w, panic)

  -- `make(t, 0, capacity)`
  abbrev pub empty_slice : ℕ → Slice ℕ
  empty_slice capacity = record { array = replicate capacity 0; len = 0 }

  abbrev pub get_one_with : D → Response → Result ℕ → Result Key → Outcome D
  get_one_with d w (ok offset) (ok topic_name) =
      got_one w (
        deps.get_one (new_batch (empty_slice 8192) (empty_slice (10 * pkg.mb))) topic_name offset d)
  get_one_with d w _ _ = (d, w, panic)

  abbrev pub get_one_params : List QParam
  get_one_params =
      record { key = offset_key; parser = query_uint64 pkg.parsers }
      ∷ record { key = topic_name_key; parser = query_string }
      ∷ []

  -- `GetRecord`: after the status 400 it goes on with the values that the parsers gave.
  unfoldable pub handle_get_record : Request → D → Response → Outcome D
  handle_get_record r d w =
      let (params, fine) = parse_query_params r.query get_one_params in
      get_one_with d (if fine then w else fail_with 400 w) (as_number (lookup offset_key params))
        (as_text (lookup topic_name_key params))

  -- GetRecords behind the call of `s.GetRecords`. The deferred `Close` of the multipart writer is the
  -- last write.
  abbrev pub closed_form : D → Response × Result (Unit {0}) → Outcome D
  closed_form d (w, ok _) = (d, write_body closing w, ok tt)
  closed_form d (w, err e) = (d, write_body closing (write_header 500 w), ok tt)
  closed_form d (w, panic) = (d, write_body closing w, panic)

  abbrev pub got_many : Response → D × Batch × Result (Unit {0}) → Outcome D
  got_many w (d, b, ok _) = closed_form d (
      records_to_multipart_form_data pkg.json response_form (items b.sizes) (items b.records_data)
        w)
  got_many w (d, b, err topic_not_found) = (d, fail_with 404 w, ok tt)
  got_many w (d, b, err out_of_bounds) = (d, fail_with 404 w, ok tt)
  got_many w (d, b, err deadline_exceeded) = (d, write_body closing (write_header 206 w), ok tt)
  got_many w (d, b, err canceled) = (d, write_body closing (write_header 206 w), ok tt)
  got_many w (d, b, err e) = (d, fail_with 500 w, ok tt)
  got_many w (d, b, panic) = (d, w, panic)

  abbrev pub get_many_with :
      Batch → D → Response → Result Key → Result ℕ → Result ℤ → Result ℤ → Result ℤ → Outcome D
  get_many_with pooled d w (ok topic_name) (ok offset) (ok soft_max_bytes) (ok max_records)
        (ok timeout) =
      got_many w (
        deps.get_many (pkg.with_timeout timeout) (reset pooled) topic_name offset max_records
          soft_max_bytes d)
  get_many_with pooled d w _ _ _ _ _ = (d, w, panic)

  abbrev pub get_many_params : List QParam
  get_many_params =
      record { key = topic_name_key; parser = query_string }
      ∷ record { key = offset_key; parser = query_uint64 pkg.parsers }
      ∷ record { key = soft_max_bytes_key; parser = query_int_default pkg.parsers (pos 0) }
      ∷ record { key = max_records_key; parser = query_int_default pkg.parsers (pos 10) }
      ∷ record {
        key = timeout_key;
        parser = query_duration_default pkg.parsers (pos (10 * 1000000000));
      }
      ∷ []

  -- GetRecords behind the check of what the client accepts.
  unfoldable pub get_many_query : Batch → Request → D → Response → Outcome D
  get_many_query pooled r d w =
      let (params, fine) = parse_query_params r.query get_many_params in
      if not fine
      then (d, fail_with 400 w, ok tt)
      else get_many_with pooled d w (as_text (lookup topic_name_key params))
          (as_number (lookup offset_key params)) (as_int (lookup soft_max_bytes_key params))
          (as_int (lookup max_records_key params)) (as_duration (lookup timeout_key params))

  abbrev pub accepted : Batch → Request → D → Response → Result (Key × Key) → Outcome D
  accepted pooled r d w (ok (media_type, boundary)) =
      if not (same_name media_type (codes "*/*")) && not (same_name media_type multipart_form_data)
      then (d, fail_with 300 w, ok tt)
      else get_many_query pooled r d w
  accepted pooled r d w _ = (d, fail_with 406 w, ok tt)

  -- `GetRecords`, with a batch from the pool.
  unfoldable pub handle_get_records : Batch → Request → D → Response → Outcome D
  handle_get_records pooled r d w = accepted pooled r d w (pkg.parse_media_type r.accept)

  -- GetTopic behind the call of `s.Metadata`.
  abbrev pub got_topic : Response → D × Result (ℕ × Option ℕ) → Outcome D
  got_topic w (d, ok (next_offset, latest)) = (d, write_body (topic next_offset latest) w, ok tt)
  got_topic w (d, err topic_not_found) = (d, write_header 404 w, ok tt)
  got_topic w (d, err e) = (d, fail_with 500 w, ok tt)
  got_topic w (d, panic) = (d, w, panic)

  abbrev pub get_topic_with : D → Response → Result Key → Outcome D
  get_topic_with d w (ok topic_name) = got_topic w (deps.topic_metadata topic_name d)
  get_topic_with d w _ = (d, w, panic)

  -- `GetTopic`: after the status 400 it goes on with the empty name.
  unfoldable pub handle_get_topic : Request → D → Response → Outcome D
  handle_get_topic r d w =
      let (params, fine) = parse_query_params r.query add_params in
      get_topic_with d (if fine then w else fail_with 400 w)
        (as_text (lookup topic_name_key params))
