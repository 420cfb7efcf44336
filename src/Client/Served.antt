-- ===== src/Client/Served.antt =====
-- The client of client.go against the handlers of internal/httphandlers: what reaches the broker,
-- and what the client makes of the answer.
use simple_commit_log.Base.{
  ℕ, ◌+◌, ◌*◌, ◌^◌, ◌≤◌, ◌<◌, ◌≡◌, refl, ap, ◌∙◌, List, [], ◌∷◌, ◌++◌, length, total, Option, none,
  some, zero, suc, ◌/◌, ◌%◌, ltb, Bool-cases, inl, inr, subst, append-nil,
}
use simple_commit_log.Errors.{
  Result, ok, err, panic, not_found, out_of_bounds, payload_too_large, other,
}
use simple_commit_log.Exec.{continue, lift, ◌>>◌}
use simple_commit_log.Slice.{Slice, cap, items}
use simple_commit_log.Records.Batch.{Batch, new_batch}
use simple_commit_log.Topic.Files.{Key}
use simple_commit_log.Topic.Paths.{codes, decimal}
use simple_commit_log.Names.{same_name, same_name_refl}
use simple_commit_log.Http.{
  Request, Response, Chunk, message, raw, no_response, write_header, write_body, fail_with,
}
use simple_commit_log.Http.Guard.{Route, post_records, get_record, serve, serve_bearer}
use simple_commit_log.Http.Handlers.{
  Packages, Dependencies, Outcome, multipart_form_data, added, with_batch, got_one, empty_slice,
  handle_add_records,
}
use simple_commit_log.Http.Handlers.Statuses.{handled_named, handled_record}
use simple_commit_log.Http.Multipart.{Form, form_of_records, multipart_form_data_to_records}
use simple_commit_log.Http.Multipart.RoundTrip.{form_of, multipart_round_trip}
use simple_commit_log.Http.Params.{topic_name_key, offset_key, first_value}
use simple_commit_log.Client.{
  Method, get, post, Reply, Transport, ClientPackages, RecordClient, request, client_add_records,
  client_get_record, read_all, status_error, add_query, add_query_params, number_text, bare_request,
}

-- What net/http does between the handlers and the client: the route of a method and a URL, the bytes
-- of a body, and a response's header and form.
pub record Wire : Type 0 where
  pub mux : Method → Key → Option Route
  pub chunk_bytes : Chunk → List ℕ
  pub raw_lem : (bs : List ℕ) → chunk_bytes (raw bs) ≡ bs
  pub content_type_of : Response → Key
  pub form_in : Response → Key → Form

abbrev status_or_200 : Option ℕ → ℕ
status_or_200 none = 200
status_or_200 (some code) = code

module _ (wire : Wire) where
  abbrev pub body_bytes : List Chunk → List ℕ
  body_bytes [] = []
  body_bytes (c ∷ cs) = wire.chunk_bytes c ++ body_bytes cs

  abbrev pub reply_of : Response → Reply
  reply_of w = record {
    status_code = status_or_200 w.status;
    content_type = wire.content_type_of w;
    body = record { bytes = body_bytes w.body; failed = none };
    form = wire.form_in w;
  }

  -- A handler that panics ends the connection.
  abbrev pub delivered : {D : Type 0} → Outcome D → D × Result Reply
  delivered (d, w, ok _) = (d, ok (reply_of w))
  delivered (d, w, err e) = (d, err e)
  delivered (d, w, panic) = (d, err other)

  module _ {D : Type 0} (pkg : Packages) (deps : Dependencies D) (pooled : Batch)
      (server_key : Key) where
    abbrev routed : Option Route → Request → D → D × Result Reply
    routed none r d = (d, ok (reply_of (fail_with 404 no_response)))
    routed (some route) r d = delivered (serve pkg deps pooled server_key route r d no_response)

    -- The program's server, as the client reaches it.
    abbrev pub server : Transport D
    server = record { do_request = λ method url r d. routed (wire.mux method url) r d }

-- What AddRecords of the client makes of the broker's answer.
abbrev pub told : {D : Type 0} → D × Result (List ℕ) → D × Result (Unit {0})
told (d, ok os) = (d, ok tt)
told (d, err payload_too_large) = (d, err payload_too_large)
told (d, err e) = (d, ok tt)
told (d, panic) = (d, err other)

-- What GetRecord of the client makes of the broker's answer: an error that it does not know becomes
-- the text of the message, as if that were the record.
abbrev pub told_record : {D : Type 0} → Wire → D × Batch × Result (Slice ℕ) → D × Result (List ℕ)
told_record wire (d, b, ok s) = (d, ok (items s))
told_record wire (d, b, err out_of_bounds) = (d, err not_found)
told_record wire (d, b, err e) = (d, ok (wire.chunk_bytes message))
told_record wire (d, b, panic) = (d, err other)

module _ {D : Type 0} (wire : Wire) (pkg : Packages) (deps : Dependencies D) where
  delivered-added :
      (o : D × Result (List ℕ))
      → continue
          (delivered wire (added pkg deps no_response o))
          (λ res d. (d, status_error res.status_code))
        ≡ told o
  unfolding write_body fail_with status_error
  delivered-added (d, ok os) = refl
  delivered-added (d, err payload_too_large) = refl
  delivered-added (d, err _) = refl
  delivered-added (d, panic) = refl

module _ {D : Type 0} (wire : Wire) (pkg : Packages) (deps : Dependencies D) where
  delivered-got_one :
      (o : D × Batch × Result (Slice ℕ))
      → continue
          (delivered wire (got_one pkg deps no_response o))
          (λ res. lift (status_error res.status_code) >> lift (read_all res.body))
        ≡ told_record wire o
  unfolding write_body fail_with status_error write_header
  delivered-got_one (d, b, ok s) =
      ap (λ bs. (d, ok bs)) (append-nil (wire.chunk_bytes (raw (items s))) ∙ wire.raw_lem (items s))
  delivered-got_one (d, b, err out_of_bounds) = refl
  delivered-got_one (d, b, err _) =
      ap (λ bs. (d, ok (wire.chunk_bytes message ++ (bs ++ [])))) (wire.raw_lem [])
      ∙ ap (λ bs. (d, ok bs)) (append-nil (wire.chunk_bytes message))
  delivered-got_one (d, b, panic) = refl

-- The digits of a number are no empty text.
decimal-cons : (k n c : ℕ) (s : List ℕ) → (y : ℕ) × (ys : List ℕ) × (decimal k n (c ∷ s) ≡ y ∷ ys)
unfolding decimal
decimal-cons zero n c s = (c, s, refl)
decimal-cons (suc k) n c s = elim (Bool-cases (ltb n 10)) [
  | inl one ↦ (48 + n, c ∷ s, rw one refl)
  | inr more ↦ let (y, ys, e) = decimal-cons k (n / 10) (48 + n % 10) (c ∷ s) in (y, ys, rw more e)
]

number_text-cons : (n : ℕ) → (y : ℕ) × (ys : List ℕ) × (number_text n ≡ y ∷ ys)
unfolding number_text decimal
number_text-cons n = elim (Bool-cases (ltb n 10)) [
  | inl one ↦ (48 + n, [], rw one refl)
  | inr more ↦ let (y, ys, e) = decimal-cons 19 (n / 10) (48 + n % 10) [] in (y, ys, rw more e)
]

-- The program's client and server on one connection: requests can be made, their URL has no
-- parameters of its own and leads to the route, and the client's key is the server's.
pub record Connects {W : Type 0} (cp : ClientPackages W) (wire : Wire) (c : RecordClient)
    (method : Method) (path : Key) (route : Route) : Type 0 where
  pub requests : cp.new_request method (cp.join_path c.base_url path) ≡ ok tt
  pub no_params : (k : Key) → cp.url_query (cp.join_path c.base_url path) k ≡ []
  pub leads : wire.mux method (cp.join_path c.base_url path) ≡ some route

-- A form that the client writes is read by the server as its parts.
pub record CarriesForms {W : Type 0} (cp : ClientPackages W) (pkg : Packages) : Type 0 where
  pub boundary : Key
  pub media : pkg.parse_media_type cp.form_content_type ≡ ok (multipart_form_data, boundary)
  pub carried :
      (sizes bs : List ℕ)
      → (w : W) × (form_of_records cp.json cp.form_writer sizes bs cp.empty_form ≡ (w, ok tt))
        × (cp.read_form w boundary ≡ form_of pkg.json sizes bs)

module _ {D W : Type 0} (cp : ClientPackages W) (wire : Wire) (pkg : Packages)
    (deps : Dependencies D) (pooled : Batch) (c : RecordClient) (x : ℕ) (name : Key) (d : D) where
  abbrev link : Transport D
  link = server wire pkg deps pooled c.api_key

  module _ (connects : Connects cp wire c post (codes "/records") post_records)
      (forms : CarriesForms cp pkg) (sizes bs : List ℕ) (some_sizes : 0 < length sizes)
      (sums : total sizes ≡ length bs) (some_bytes : 0 < length bs) (small : length bs < 2 ^ 32)
      (fits : length bs ≤ cap pooled.records_data)
      (sizes_fit : length (pkg.json.marshal sizes) ≤ cap pooled.records_data)
      (some_cap : 0 < cap pooled.sizes) where
    abbrev sent : W → Request
    sent w =
        add_query_params ((topic_name_key, x ∷ name) ∷ [])
          (record (bare_request cp link c (cp.join_path c.base_url (codes "/records"))) {
            content_type = cp.form_content_type;
            form = cp.read_form w;
          })

    sent_name : (w : W) → first_value ((sent w).query topic_name_key) ≡ x ∷ name
    unfolding add_query_params add_query
    sent_name w = rw (same_name_refl topic_name_key, connects.no_params topic_name_key) refl

    handled :
        (w : W)
        → cp.read_form w forms.boundary ≡ form_of pkg.json sizes bs
        → (b : Batch) × (items b.sizes ≡ sizes)
          × (items b.records_data ≡ bs)
          × (handle_add_records pkg deps pooled (sent w) d no_response
              ≡ added pkg deps no_response (deps.add (x ∷ name) b d))
    unfolding add_query_params add_query
    handled w read =
        let (fine, same_sizes, same_bytes) =
          multipart_round_trip pkg.json pkg.slicey sizes bs pooled some_sizes sums some_bytes small
            fits sizes_fit some_cap in
        (
          parsed.1,
          same_sizes,
          same_bytes,
          handled_named pkg deps pooled (sent w) d x name (sent_name w)
              ∙ rw (forms.media, same_name_refl multipart_form_data, read)
                  (ap (λ r. with_batch pkg deps (x ∷ name) d no_response (parsed.0, parsed.1, r))
                    fine),
        )
      where
        parsed : Form × Batch × Result (Unit {0})
        parsed =
            multipart_form_data_to_records pkg.json pkg.slicey (form_of pkg.json sizes bs) pooled

    -- Where the program's client and server are connected, for records that a form carries (one
    -- record and one byte at least, sizes that add up to the bytes, which fit a uint32, and a pooled
    -- batch with room for the bytes and for the text of the sizes) and a topic with a name:
    -- AddRecords of the client calls the broker's AddRecords once, with that name and a batch of
    -- exactly these sizes and bytes, and leaves the broker as that call does. It returns no error if
    -- the broker took the records, ErrPayloadTooLarge if that is the broker's error, an error if the
    -- handler panics, and no error where the broker failed with any other error.
    pub client_add_records-serve :
        (b : Batch) × (items b.sizes ≡ sizes)
        × (items b.records_data ≡ bs)
        × (client_add_records cp link c (x ∷ name) sizes bs d ≡ told (deps.add (x ∷ name) b d))
    unfolding client_add_records request add_query_params add_query
    client_add_records-serve =
        let (w, written, read) = forms.carried sizes bs in
        let (b, same_sizes, same_bytes, e) = handled w read in
        (
          b,
          same_sizes,
          same_bytes,
          rw
              (
                written,
                connects.requests,
                connects.leads,
                serve_bearer pkg deps pooled c.api_key post_records (sent w) d refl,
                e,
              )
              (delivered-added wire pkg deps (deps.add (x ∷ name) b d)),
        )

  module _ (connects : Connects cp wire c get (codes "/record") get_record) (offset : ℕ)
      (parsed : pkg.parsers.uint64_from_string (number_text offset) ≡ ok offset) where
    abbrev asked : Request
    asked =
        add_query_params ((topic_name_key, x ∷ name) ∷ (offset_key, number_text offset) ∷ [])
          (bare_request cp link c (cp.join_path c.base_url (codes "/record")))

    asked_query :
        (first_value (asked.query topic_name_key) ≡ x ∷ name)
        × (first_value (asked.query offset_key) ≡ number_text offset)
    unfolding add_query_params add_query same_name
    asked_query =
        (rw (connects.no_params topic_name_key) refl, rw (connects.no_params offset_key) refl)

    -- Where they are connected, the parser reads the digits of the offset, and the topic has a name:
    -- GetRecord of the client asks the broker once for the record at the offset. It returns the bytes
    -- of the record; ErrNotFound for an offset out of bounds; an error if the handler panics; and for
    -- any other error of the broker no error, and the text of the message as the record.
    pub client_get_record-serve :
        client_get_record cp link c (x ∷ name) offset d
        ≡ told_record wire (
            deps.get_one
              (new_batch (empty_slice pkg deps 8192) (empty_slice pkg deps (10 * pkg.mb)))
              (x ∷ name)
              offset
              d)
    unfolding client_get_record request add_query_params add_query
    client_get_record-serve =
        let (y, ys, digits) = number_text-cons offset in
        rw
          (
            connects.requests,
            connects.leads,
            serve_bearer pkg deps pooled c.api_key get_record asked d refl,
            handled_record pkg deps pooled asked d x y offset name ys (asked_query.1 ∙ digits)
                (subst (λ s. pkg.parsers.uint64_from_string s ≡ ok offset) digits parsed)
                asked_query.0,
          )
          (delivered-got_one wire pkg deps (
            deps.get_one
              (new_batch (empty_slice pkg deps 8192) (empty_slice pkg deps (10 * pkg.mb)))
              (x ∷ name) offset d))
