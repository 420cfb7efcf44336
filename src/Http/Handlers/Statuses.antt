-- ===== src/Http/Handlers/Statuses.antt =====
-- When the handlers of internal/httphandlers call the broker, and what they answer.
use simple_commit_log.Base.{ℕ, ◌*◌, ◌≡◌, ◌≢◌, refl, ◌⊎◌, inl, inr, [], ◌∷◌, some, Bool-cases, arith}
use simple_commit_log.Errors.{Error, Result, ok, err, panic, bad_input, out_of_bounds}
use simple_commit_log.Records.Batch.{Batch, new_batch}
use simple_commit_log.Topic.Files.{Key}
use simple_commit_log.Names.{lookup, put, same_name}
use simple_commit_log.Slice.{Slice, items}
use simple_commit_log.Http.{Request, message, raw, no_response, write_body, write_header, fail_with}
use simple_commit_log.Http.Multipart.{Form, multipart_form_data_to_records}
use simple_commit_log.Http.Params.{
  query_string, query_uint64, first_value, parse_query_loop, parse_query_params, topic_name_key,
  offset_key,
}
use simple_commit_log.Http.Handlers.{
  Dependencies, Packages, Outcome, multipart_form_data, added, with_batch, with_media,
  handle_add_records, handle_get_record, got_one, empty_slice, input_code,
}

input_code-cases : (e : Error) → (input_code e ≡ 400) ⊎ (input_code e ≡ 500)
input_code-cases bad_input = inl refl
input_code-cases _ = inr refl

not_created : (code : ℕ) → (code ≡ 400) ⊎ (code ≡ 500) → code ≢ 201
not_created code (inl e) h = omega (arith, e, h)
not_created code (inr e) h = omega (arith, e, h)

-- What a client that named no offset is told, by what the broker answers: behind the status 400 and
-- its message, the bytes of the record, nothing where there is no such record, or another message
-- with an empty record.
abbrev pub ToldTwice : {D : Type 0} → D → Result (Slice ℕ) → Outcome D → Type 0
ToldTwice d (ok s) o =
    o ≡ (d, record { status = some 400; body = message ∷ raw (items s) ∷ [] }, ok tt)
ToldTwice d (err out_of_bounds) o =
    o ≡ (d, record { status = some 400; body = message ∷ [] }, ok tt)
ToldTwice d (err e) o =
    o ≡ (d, record { status = some 400; body = message ∷ message ∷ raw [] ∷ [] }, ok tt)
ToldTwice d panic o = o ≡ (d, record { status = some 400; body = message ∷ [] }, panic)

module _ {D : Type 0} (pkg : Packages) (deps : Dependencies D) (pooled : Batch) (r : Request)
    (d : D) where
  -- The request was refused: the broker was not called, and the answer is not 201.
  abbrev pub Refused : Outcome D → Type 0
  Refused o = (o.0 ≡ d) × (o.1.status ≢ some 201)

  -- The body was read as this batch, and the broker was called with it.
  abbrev pub Reaches : Key → Outcome D → Type 0
  Reaches name o =
      (boundary : Key) × (form : Form) × (b : Batch) × (multipart_form_data_to_records pkg.json
          pkg.slicey (r.form boundary) pooled
        ≡ (form, b, ok tt))
      × (o ≡ added pkg deps no_response (deps.add name b d))

  batch_read :
      (name boundary : Key) (o : Form × Batch × Result (Unit {0}))
      → multipart_form_data_to_records pkg.json pkg.slicey (r.form boundary) pooled ≡ o
      → Refused (with_batch pkg deps name d no_response o)
        ⊎ Reaches name (with_batch pkg deps name d no_response o)
  unfolding write_header
  batch_read name boundary (form, b, ok _) e = inr (boundary, form, b, e, refl)
  batch_read name boundary (form, b, err e') e =
      inl (refl, λ h. not_created (input_code e') (input_code-cases e') (cc h))
  batch_read name boundary (form, b, panic) e = inl (refl, λ h. cc h)

  media_read :
      (name : Key) (media : Result (Key × Key))
      → Refused (with_media pkg deps pooled r name d no_response media)
        ⊎ Reaches name (with_media pkg deps pooled r name d no_response media)
  unfolding fail_with
  media_read name (ok (media_type, boundary)) =
      elim (Bool-cases (same_name media_type multipart_form_data)) [
        | inl form ↦ rw form (
            batch_read name boundary
              (multipart_form_data_to_records pkg.json pkg.slicey (r.form boundary) pooled) refl)
        | inr wrong ↦ rw wrong (inl (refl, λ h. not_created 400 (inl refl) (cc h)))
      ]
  media_read name (err e) = inl (refl, λ h. not_created 400 (inl refl) (cc h))
  media_read name panic = inl (refl, λ h. not_created 400 (inl refl) (cc h))

  handled_unnamed :
      first_value (r.query topic_name_key) ≡ []
      → handle_add_records pkg deps pooled r d no_response ≡ (d, fail_with 400 no_response, ok tt)
  unfolding handle_add_records parse_query_params parse_query_loop query_string put lookup same_name
  handled_unnamed e = rw e refl

  pub handled_named :
      (c : ℕ) (name : Key)
      → first_value (r.query topic_name_key) ≡ c ∷ name
      → handle_add_records pkg deps pooled r d no_response
        ≡ with_media pkg deps pooled r
            (c ∷ name)
            d
            no_response
            (pkg.parse_media_type r.content_type)
  unfolding handle_add_records parse_query_params parse_query_loop query_string put lookup same_name
  handled_named c name e = rw e refl

  -- A POST of records is refused, with the broker as it was and another answer than 201; or it
  -- names a topic, its body is read as a batch, and the broker is called with these and answers.
  pub handle_add_records-cases :
      Refused (handle_add_records pkg deps pooled r d no_response)
      ⊎ ((first_value (r.query topic_name_key) ≢ [])
          × Reaches
              (first_value (r.query topic_name_key))
              (handle_add_records pkg deps pooled r d no_response))
  unfolding fail_with
  handle_add_records-cases = by_name (first_value (r.query topic_name_key)) refl
    where
      by_name :
          (name : Key)
          → first_value (r.query topic_name_key) ≡ name
          → Refused (handle_add_records pkg deps pooled r d no_response)
            ⊎ ((first_value (r.query topic_name_key) ≢ [])
                × Reaches
                    (first_value (r.query topic_name_key))
                    (handle_add_records pkg deps pooled r d no_response))
      by_name [] e = inl (rw (handled_unnamed e) (refl, λ h. not_created 400 (inl refl) (cc h)))
      by_name (c ∷ name) e =
          rw (handled_named c name e, e)
            (elim (media_read (c ∷ name) (pkg.parse_media_type r.content_type)) [
              | inl refused ↦ inl refused
              | inr reaches ↦ inr (λ h. cc h, reaches)
            ])

  got_one-ToldTwice :
      (x : D × Batch × Result (Slice ℕ))
      → ToldTwice x.0 x.2 (got_one pkg deps (fail_with 400 no_response) x)
  unfolding fail_with write_body write_header
  got_one-ToldTwice (d', b, ok s) = refl
  got_one-ToldTwice (d', b, err out_of_bounds) = refl
  got_one-ToldTwice (d', b, err e) = refl
  got_one-ToldTwice (d', b, panic) = refl

  -- A GET of a record that names a topic and no offset: the broker is asked for the record at offset
  -- 0 all the same. The status is 400 whatever it answers, and the body has a message, and behind it
  -- the record's bytes where the broker gives a record, nothing where it is out of bounds or the
  -- broker panics, and at another error a second message and an empty record.
  pub handle_get_record-no_offset :
      (c : ℕ) (name : Key)
      → first_value (r.query offset_key) ≡ []
      → first_value (r.query topic_name_key) ≡ c ∷ name
      → let (d', _, answer) =
          deps.get_one
            (new_batch (empty_slice pkg deps 8192) (empty_slice pkg deps (10 * pkg.mb)))
            (c ∷ name)
            0
            d in
        ToldTwice d' answer (handle_get_record pkg deps r d no_response)
  unfolding handle_get_record parse_query_params parse_query_loop query_string query_uint64 put
      lookup same_name
  handle_get_record-no_offset c name e e' =
      rw (e, e')
        (got_one-ToldTwice (
          deps.get_one (new_batch (empty_slice pkg deps 8192) (empty_slice pkg deps (10 * pkg.mb)))
            (c ∷ name) 0 d))

  -- With an offset and a topic, the broker is asked for that record.
  pub handled_record :
      (c y offset : ℕ) (name ys : Key)
      → first_value (r.query offset_key) ≡ y ∷ ys
      → pkg.parsers.uint64_from_string (y ∷ ys) ≡ ok offset
      → first_value (r.query topic_name_key) ≡ c ∷ name
      → handle_get_record pkg deps r d no_response
        ≡ got_one pkg deps no_response (
            deps.get_one
              (new_batch (empty_slice pkg deps 8192) (empty_slice pkg deps (10 * pkg.mb)))
              (c ∷ name)
              offset
              d)
  unfolding handle_get_record parse_query_params parse_query_loop query_string query_uint64 put
      lookup same_name
  handled_record c y offset name ys e parsed e' = rw (e, e', parsed) refl
