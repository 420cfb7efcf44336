-- ===== src/Client/Tests.antt =====
-- Runs of client.go against the handlers and a broker, and the theorems at concrete inputs.
use simple_commit_log.Base.{
  ℕ, ◌*◌, ◌≡◌, refl, List, [], ◌∷◌, ◌++◌, none, some, replicate, arith, Option, ◌-◌, if◌then◌else◌,
}
use simple_commit_log.Errors.{Result, ok, err, bad_input, eof, not_authorized}
use simple_commit_log.Helpy.Example.{go_slicey}
use simple_commit_log.Slice.{items, reslice, append, fill}
use simple_commit_log.Records.Batch.{Batch, new_batch, reset, records, records_between}
use simple_commit_log.Topic.Files.{Key}
use simple_commit_log.Topic.Paths.{codes, decimal}
use simple_commit_log.Topic.Add.{offsets_from}
use simple_commit_log.Names.{same_name, lookup, put}
use simple_commit_log.Broker.{
  Broker, make_topic_batcher, get_topic_batcher, broker_add_records,
  get_record as broker_get_record,
}
use simple_commit_log.Broker.Example.{counters, empty}
use simple_commit_log.Http.{raw, write_header, write_body, fail_with}
use simple_commit_log.Http.Multipart.{
  Json, Part, multipart_form_data_to_records, records_to_multipart_form_data, form_of_records,
  write_part, read_part, next_part, parse_sizes, read_sizes, read_records_part, after_sizes,
}
use simple_commit_log.Http.Multipart.RoundTrip.{part_writer}
use simple_commit_log.Http.Params.{
  query_string, query_uint64, query_int_default, query_duration_default, parse_query_loop,
  parse_query_params,
}
use simple_commit_log.Http.Handlers.{
  Packages, Dependencies, handle_add_records, handle_get_record, empty_slice, multipart_form_data,
}
use simple_commit_log.Http.Guard.{
  Route, post_records, get_record, serve, api_key_handler, key_is_valid, trim_prefix,
  broker_dependencies,
}
use simple_commit_log.Client.{
  get, post, ClientPackages, RecordClient, client_add_records, client_get_record, request,
  status_error, add_query, add_query_params, number_text,
}
use simple_commit_log.Client.Served.{
  Wire, Connects, CarriesForms, server, told, told_record, client_add_records-serve,
  client_get_record-serve,
}

-- Numbers behind a bracket, one byte each, in place of JSON.
abbrev parse_bracket : List ℕ → Result (List ℕ)
parse_bracket [] = err bad_input
parse_bracket (c ∷ xs) = ok xs

abbrev brackets : Json
brackets = record {
  marshal = λ xs. b'[' ∷ xs;
  unmarshal = parse_bracket;
  unmarshal-marshal = λ xs. refl;
  marshal_bracket = λ xs. (xs, refl);
}

-- A number of one digit.
abbrev one_digit : Key → Result ℕ
one_digit [] = err bad_input
one_digit (c ∷ s) = ok (c - 48)

abbrev packages : Packages
packages = record {
  parse_media_type = λ s. ok (s, codes "boundary");
  parsers = record {
    uint64_from_string = one_digit;
    int_from_string = λ s. err bad_input;
    parse_duration = λ s. err bad_input;
  };
  json = brackets;
  slicey = go_slicey;
  with_timeout = λ t i. none;
  mb = 2;
}

abbrev client_packages : ClientPackages (List Part)
client_packages = record {
  parse_url = λ url. ok url;
  join_path = λ url path. url ++ path;
  url_query = λ url k. [];
  new_request = λ method url. ok tt;
  json = brackets;
  slicey = go_slicey;
  form_writer = part_writer;
  empty_form = [];
  form_content_type = multipart_form_data;
  read_form = λ parts boundary. record { parts = parts; ending = eof };
  parse_media_type = λ s. ok (s, codes "boundary");
  duration_text = λ d. [];
  decode_topic = λ body topic. (topic, ok tt);
  mb = 2;
}

abbrev ends_in : Key → Option Route
ends_in url = if same_name url (codes "/records") then some post_records else some get_record

abbrev wire : Wire
wire = record {
  mux = λ method url. ends_in url;
  chunk_bytes = λ c. elim c [ raw bs ↦ bs | _ ↦ codes "message" ];
  raw_lem = λ bs. refl;
  content_type_of = λ w. [];
  form_in = λ w boundary. record { parts = []; ending = eof };
}

abbrev pool : Batch
pool = record {
  sizes = record { array = replicate 4 9; len = 2 };
  records_data = record { array = replicate 8 9; len = 3 };
}

abbrev deps : Dependencies (Broker ℕ ℕ)
deps = broker_dependencies go_slicey counters

abbrev local : RecordClient
local = record { base_url = []; api_key = codes "secret" }

program : Unit {0}
unfolding same_name lookup put reset append fill reslice new_batch write_header write_body fail_with
    multipart_form_data_to_records records_to_multipart_form_data form_of_records write_part
    read_part next_part parse_sizes read_sizes read_records_part after_sizes query_string
    query_uint64 query_int_default query_duration_default parse_query_loop parse_query_params
    handle_add_records handle_get_record serve api_key_handler key_is_valid trim_prefix
    make_topic_batcher get_topic_batcher broker_add_records broker_get_record offsets_from records
    records_between client_add_records client_get_record request status_error add_query
    add_query_params number_text decimal
program = tt

added_three :
    (client_add_records client_packages
      (server wire packages deps pool (codes "secret"))
      local
      (codes "ab")
      (2 ∷ 0 ∷ 3 ∷ [])
      (10 ∷ 11 ∷ 12 ∷ 13 ∷ 14 ∷ [])
      empty).1
    ≡ ok tt
unfolding program
added_three = refl

wrong_key :
    (client_get_record client_packages
      (server wire packages deps pool (codes "other"))
      local
      (codes "ab")
      7
      empty)
    ≡ (empty, err not_authorized)
unfolding program
wrong_key = refl

Connects-post : Connects client_packages wire local post (codes "/records") post_records
unfolding same_name
Connects-post = record { requests = refl; no_params = λ k. refl; leads = refl }

Connects-get : Connects client_packages wire local get (codes "/record") get_record
unfolding same_name
Connects-get = record { requests = refl; no_params = λ k. refl; leads = refl }

forms : CarriesForms client_packages packages
unfolding form_of_records records_to_multipart_form_data write_part
forms = record {
  boundary = codes "boundary";
  media = refl;
  carried = λ sizes bs. ((form_of_records brackets part_writer sizes bs []).0, ground arith, refl);
}

client_add_records-serve_example :
    (b : Batch) × (items b.sizes ≡ 2 ∷ 0 ∷ 3 ∷ [])
    × (items b.records_data ≡ 10 ∷ 11 ∷ 12 ∷ 13 ∷ 14 ∷ [])
    × (client_add_records client_packages
          (server wire packages deps pool (codes "secret"))
          local
          (codes "ab")
          (2 ∷ 0 ∷ 3 ∷ [])
          (10 ∷ 11 ∷ 12 ∷ 13 ∷ 14 ∷ [])
          empty
        ≡ told (deps.add (codes "ab") b empty))
client_add_records-serve_example =
    client_add_records-serve client_packages wire packages deps pool local b'a' (b'b' ∷ []) empty
      Connects-post forms (2 ∷ 0 ∷ 3 ∷ []) (10 ∷ 11 ∷ 12 ∷ 13 ∷ 14 ∷ []) (omega arith) (omega arith)
      (omega arith) (omega arith) (omega arith) (omega arith) (omega arith)

seven : packages.parsers.uint64_from_string (number_text 7) ≡ ok 7
unfolding number_text decimal
seven = refl

client_get_record-serve_example :
    client_get_record client_packages
      (server wire packages deps pool (codes "secret"))
      local
      (codes "ab")
      7
      empty
    ≡ told_record wire (
        deps.get_one
          (new_batch
            (empty_slice packages deps 8192)
            (empty_slice packages deps (10 * packages.mb)))
          (codes "ab")
          7
          empty)
client_get_record-serve_example =
    client_get_record-serve client_packages wire packages deps pool local b'a' (b'b' ∷ []) empty
      Connects-get 7 seven
