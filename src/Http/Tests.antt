-- ===== src/Http/Tests.antt =====
-- Runs of the code of internal/httphandlers and internal/infrastructure/httphelpers, and its
-- theorems at concrete inputs.
use simple_commit_log.Base.{
  ℕ, ◌*◌, ◌≡◌, ◌≢◌, ◌⊎◌, refl, List, [], ◌∷◌, none, some, replicate, true, false, arith,
}
use simple_commit_log.Errors.{Result, ok, err, bad_input}
use simple_commit_log.Helpy.Example.{go_slicey}
use simple_commit_log.Slice.{items, reslice, append, fill}
use simple_commit_log.Records.Batch.{Batch, new_batch, reset, records, records_between}
use simple_commit_log.Topic.Files.{Key}
use simple_commit_log.Topic.Paths.{codes}
use simple_commit_log.Topic.Add.{offsets_from}
use simple_commit_log.Names.{same_name, lookup, put}
use simple_commit_log.Broker.{
  Broker, make_topic_batcher, get_topic_batcher, broker_add_records,
  get_record as broker_get_record,
}
use simple_commit_log.Broker.Example.{counters, empty}
use simple_commit_log.Http.{Request, no_response, write_header, write_body, fail_with, offsets}
use simple_commit_log.Http.Multipart.{
  Json, multipart_form_data_to_records, records_to_multipart_form_data, form_of_records, write_part,
  read_part, next_part, parse_sizes, read_sizes, read_records_part, after_sizes,
}
use simple_commit_log.Http.Multipart.RoundTrip.{form_of, multipart_round_trip, multipart_no_bytes}
use simple_commit_log.Http.Params.{
  query_string, query_uint64, query_int_default, query_duration_default, parse_query_loop,
  parse_query_params, topic_name_key, offset_key, first_value,
}
use simple_commit_log.Http.Handlers.{
  Packages, Dependencies, handle_add_records, handle_get_record, empty_slice, multipart_form_data,
}
use simple_commit_log.Http.Handlers.Statuses.{
  Refused, Reaches, ToldTwice, handle_add_records-cases, handle_get_record-no_offset,
}
use simple_commit_log.Http.Guard.{
  post_records, get_topic, serve, api_key_handler, key_is_valid, trim_prefix, bearer_prefix,
  handler_of, broker_dependencies, serve_refused, serve_bearer,
}

-- Numbers behind a bracket, one byte each, in place of JSON.
abbrev parse_bracket : List ℕ → Result (List ℕ)
parse_bracket [] = err bad_input
parse_bracket (c ∷ xs) = ok xs

abbrev brackets : Json
brackets = record {
  marshal = λ xs. b'[' ∷ xs;
  unmarshal = parse_bracket;
  unmarshal-marshal = λ xs. refl;
  marshal_bracket = λ xs. (xs, refl);
}

abbrev packages : Packages
packages = record {
  parse_media_type = λ s. ok (s, codes "boundary");
  parsers = record {
    uint64_from_string = λ s. ok 1;
    int_from_string = λ s. err bad_input;
    parse_duration = λ s. err bad_input;
  };
  json = brackets;
  slicey = go_slicey;
  with_timeout = λ t i. none;
  mb = 2;
}

abbrev pool : Batch
pool = record {
  sizes = record { array = replicate 4 9; len = 2 };
  records_data = record { array = replicate 8 9; len = 3 };
}

-- What a client sends for three records.
abbrev query : Key → List Key
query name = elim (same_name name topic_name_key) [ true ↦ codes "ab" ∷ [] | false ↦ [] ]

abbrev request : Request
request = record {
  query = query;
  accept = codes "*/*";
  content_type = multipart_form_data;
  authorization = codes "Bearer secret";
  form = λ boundary. form_of brackets (2 ∷ 0 ∷ 3 ∷ []) (10 ∷ 11 ∷ 12 ∷ 13 ∷ 14 ∷ []);
}

program : Unit {0}
unfolding same_name lookup put reset append fill reslice new_batch write_header write_body fail_with
    multipart_form_data_to_records records_to_multipart_form_data form_of_records write_part
    read_part next_part parse_sizes read_sizes read_records_part after_sizes query_string
    query_uint64 query_int_default query_duration_default parse_query_loop parse_query_params
    handle_add_records handle_get_record serve api_key_handler key_is_valid trim_prefix
    make_topic_batcher get_topic_batcher broker_add_records broker_get_record offsets_from records
    records_between
program = tt

abbrev deps : Dependencies (Broker ℕ ℕ)
deps = broker_dependencies go_slicey counters

posted :
    (serve packages deps pool (codes "secret") post_records request empty no_response).1
    ≡ record { status = some 201; body = offsets (0 ∷ 1 ∷ 2 ∷ []) ∷ [] }
unfolding program
posted = refl

multipart_round_trip_example :
    let (form, b', r) =
      multipart_form_data_to_records brackets go_slicey
        (form_of brackets (2 ∷ 0 ∷ 3 ∷ []) (10 ∷ 11 ∷ 12 ∷ 13 ∷ 14 ∷ []))
        pool in
    (r ≡ ok tt)
    × (items b'.sizes ≡ 2 ∷ 0 ∷ 3 ∷ [])
    × (items b'.records_data ≡ 10 ∷ 11 ∷ 12 ∷ 13 ∷ 14 ∷ [])
multipart_round_trip_example =
    multipart_round_trip brackets go_slicey (2 ∷ 0 ∷ 3 ∷ []) (10 ∷ 11 ∷ 12 ∷ 13 ∷ 14 ∷ []) pool
      (omega arith) (omega arith) (omega arith) (omega arith) (omega arith) (omega arith)
      (omega arith)

multipart_no_bytes_example :
    let (form, b', r) =
      multipart_form_data_to_records brackets go_slicey (form_of brackets (0 ∷ 0 ∷ []) []) pool in
    (r ≡ err bad_input) × (b'.sizes.len ≡ 0) × (b'.records_data.len ≡ 0)
multipart_no_bytes_example =
    multipart_no_bytes brackets go_slicey 0 (0 ∷ []) pool (omega arith) (omega arith) (omega arith)

handle_add_records-cases_example :
    Refused packages deps pool request empty
      (handle_add_records packages deps pool request empty no_response)
    ⊎ ((first_value (request.query topic_name_key) ≢ [])
        × Reaches packages deps pool request empty
            (first_value (request.query topic_name_key))
            (handle_add_records packages deps pool request empty no_response))
handle_add_records-cases_example = handle_add_records-cases packages deps pool request empty

unnamed : first_value (request.query offset_key) ≡ []
unfolding same_name
unnamed = refl

of_topic : first_value (request.query topic_name_key) ≡ codes "ab"
unfolding same_name
of_topic = refl

handle_get_record-no_offset_example :
    let (d', _, answer) =
      deps.get_one
        (new_batch (empty_slice packages deps 8192) (empty_slice packages deps (10 * packages.mb)))
        (codes "ab")
        0
        empty in
    ToldTwice d' answer (handle_get_record packages deps request empty no_response)
handle_get_record-no_offset_example =
    handle_get_record-no_offset packages deps pool request empty b'a' (b'b' ∷ []) unnamed of_topic

wrong_key : same_name (codes "other") (trim_prefix request.authorization bearer_prefix) ≡ false
unfolding program
wrong_key = refl

serve_refused_example :
    serve packages deps pool (codes "other") get_topic request empty no_response
    ≡ (empty, fail_with 401 no_response, ok tt)
serve_refused_example =
    serve_refused packages deps pool (codes "other") get_topic request empty wrong_key

bearer_served :
    serve packages deps pool (codes "secret") get_topic request empty no_response
    ≡ handler_of packages deps pool get_topic request empty no_response
bearer_served = serve_bearer packages deps pool (codes "secret") get_topic request empty refl
