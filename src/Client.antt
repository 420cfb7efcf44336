-- ===== src/Client.antt =====
-- client.go: the client of the HTTP interface. What it uses of net/http, net/url, mime, fmt and
-- encoding/json is a parameter, and `client.Do` changes the state of the other side.
pub mod Served
mod Tests
use simple_commit_log.Base.{
  ℕ, zero, suc, ◌+◌, List, [], ◌∷◌, ◌++◌, replicate, length, Bool, true, false, ◌&&◌, not, Option,
  none, some, ◌==◌, if◌then◌else◌,
}
use simple_commit_log.Base.Int.{ℤ, pos, negsuc}
use simple_commit_log.Errors.{
  Error, Result, ok, err, panic, not_authorized, not_found, payload_too_large, bad_input, other,
}
use simple_commit_log.Exec.{Exec, pure, raise, lift, ◌>>=◌, ◌>>◌}
use simple_commit_log.Helpy.{Slicey}
use simple_commit_log.Slice.{Slice, cap}
use simple_commit_log.Records.Batch.{Batch, new_batch, individual_records}
use simple_commit_log.Topic.Files.{Key, Stream}
use simple_commit_log.Topic.Paths.{codes, decimal}
use simple_commit_log.Names.{same_name}
use simple_commit_log.Http.{Request}
use simple_commit_log.Http.Guard.{bearer_prefix}
use simple_commit_log.Http.Handlers.{multipart_form_data}
use simple_commit_log.Http.Multipart.{
  Json, Form, FormWriter, form_of_records, multipart_form_data_to_records,
}
use simple_commit_log.Http.Params.{
  topic_name_key, offset_key, max_records_key, soft_max_bytes_key, timeout_key,
}

pub data Method : Type 0 where
  get post : Method

-- An http.Response: the status, the header that the client reads, the body, and what a
-- multipart.Reader of a boundary yields of the body.
pub record Reply : Type 0 where
  pub status_code : ℕ
  pub content_type : Key
  pub body : Stream
  pub form : Key → Form

-- `Do` of an http.Client, with the method and the URL of the request.
pub record Transport (N : Type 0) : Type 0 where
  pub do_request : Method → Key → Request → Exec N Reply

-- `GetTopicOutput`, with the bits of its time.
pub record GetTopicOutput : Type 0 where
  pub name : Key
  pub next_offset : ℕ
  pub latest_commit_at : Option ℕ

-- What the client uses of other packages: `url.Parse`; `JoinPath` of a base URL; the parameters in a
-- URL; whether `http.NewRequest` succeeds; a multipart.Writer on an empty buffer, its content type,
-- and what a reader of a boundary yields of what was written; `mime.ParseMediaType`, which gives the
-- media type and the boundary; `String` of a time.Duration; the decoding of JSON, which changes the
-- fields that it finds; `sizey.MB`.
pub record ClientPackages (W : Type 0) : Type 0 where
  pub parse_url : Key → Result Key
  pub join_path : Key → Key → Key
  pub url_query : Key → Key → List Key
  pub new_request : Method → Key → Result (Unit {0})
  pub json : Json
  pub slicey : Slicey
  pub form_writer : FormWriter W
  pub empty_form : W
  pub form_content_type : Key
  pub read_form : W → Key → Form
  pub parse_media_type : Key → Result (Key × Key)
  pub duration_text : ℤ → Key
  pub decode_topic : Stream → GetTopicOutput → GetTopicOutput × Result (Unit {0})
  pub mb : ℕ

-- `RecordClient`, without the pool that it does not use.
pub record RecordClient : Type 0 where
  pub base_url : Key
  pub api_key : Key

-- `fmt.Sprintf("%d", …)` of a uint64 and of an int.
unfoldable pub number_text : ℕ → Key
number_text n = decimal 20 n []

unfoldable pub int_text : ℤ → Key
unfolding number_text
int_text (pos n) = number_text n
int_text (negsuc n) = b'-' ∷ number_text (n + 1)

-- `statusCode`: every other status is no error.
unfoldable pub status_error : ℕ → Result (Unit {0})
status_error status_code =
    if status_code == 401
    then err not_authorized
    else if status_code == 404
    then err not_found
    else if status_code == 413
    then err payload_too_large
    else ok tt

-- `url.Values.Add`
unfoldable pub add_query : Key → Key → Request → Request
add_query key value r = record r {
  query = λ k. if same_name key k then r.query k ++ (value ∷ []) else r.query k;
}

-- `AddQueryParams` of internal/infrastructure/httphelpers/query.go, where the keys are distinct.
unfoldable pub add_query_params : List (Key × Key) → Request → Request
add_query_params [] r = r
add_query_params ((key, value) ∷ params) r = add_query_params params (add_query key value r)

-- A body that was read to its end.
abbrev pub read_all : Stream → Result (List ℕ)
read_all body = elim body.failed [ none ↦ ok body.bytes | some e ↦ err e ]

-- `make(t, 0, n)`, which panics for a negative number.
abbrev pub make_slice : ℤ → Result (Slice ℕ)
make_slice (pos n) = ok (record { array = replicate n 0; len = 0 })
make_slice (negsuc n) = panic

-- `GetRecordsInput`; a nil buffer is none.
pub record GetRecordsInput : Type 0 where
  pub max_records : ℤ
  pub buffer : Option (Slice ℕ)
  pub timeout : ℤ

abbrev pub is_zero : ℤ → Bool
is_zero (pos zero) = true
is_zero _ = false

module _ {W N : Type 0} (pkg : ClientPackages W) (client : Transport N) where
  -- `NewRecordClient`
  unfoldable pub new_record_client : Key → Key → Result RecordClient
  new_record_client base_url api_key = elim (pkg.parse_url base_url) [
    | ok url ↦ ok (record { base_url = url; api_key = api_key })
    | err e ↦ err e
    | panic ↦ panic
  ]

  -- `request` without a body, with its URL.
  abbrev pub bare_request : RecordClient → Key → Request
  bare_request c url = record {
    query = pkg.url_query url;
    accept = [];
    content_type = [];
    authorization = bearer_prefix ++ c.api_key;
    form = pkg.read_form pkg.empty_form;
  }

  abbrev made : RecordClient → Key → Result (Unit {0}) → Result (Key × Request)
  made c url (ok _) = ok (url, bare_request c url)
  made c url (err e) = err e
  made c url panic = panic

  unfoldable pub request : RecordClient → Method → Key → Result (Key × Request)
  request c method path =
      made c (pkg.join_path c.base_url path)
        (pkg.new_request method (pkg.join_path c.base_url path))

  abbrev written_form : W × Result (Unit {0}) → Result W
  written_form (w, ok _) = ok w
  written_form (w, err e) = err e
  written_form (w, panic) = panic

  -- `AddRecords`
  unfoldable pub client_add_records : RecordClient → Key → List ℕ → List ℕ → Exec N (Unit {0})
  client_add_records c topic_name record_sizes records_data = do
    buf ← lift (
        written_form
          (form_of_records pkg.json pkg.form_writer record_sizes records_data pkg.empty_form))
    req ← lift (request c post (codes "/records"))
    res ← client.do_request post req.0 (
        add_query_params ((topic_name_key, topic_name) ∷ [])
          (record (req.1) { content_type = pkg.form_content_type; form = pkg.read_form buf }))
    lift (status_error res.status_code)

  -- `GetRecord`
  unfoldable pub client_get_record : RecordClient → Key → ℕ → Exec N (List ℕ)
  client_get_record c topic_name offset = do
    req ← lift (request c get (codes "/record"))
    res ← client.do_request get req.0 (
        add_query_params ((topic_name_key, topic_name) ∷ (offset_key, number_text offset) ∷ [])
          req.1)
    lift (status_error res.status_code)
    lift (read_all res.body)

  -- GetTopic behind the call of `Do`. What was decoded is returned also beside an error.
  abbrev checked_topic :
      N → GetTopicOutput → Reply → Result (Unit {0}) → N × GetTopicOutput × Result (Unit {0})
  checked_topic n topic res (ok _) =
      let (topic', r) = pkg.decode_topic res.body topic in (n, topic', r)
  checked_topic n topic res (err e) = (n, topic, err e)
  checked_topic n topic res panic = (n, topic, panic)

  abbrev replied_topic : GetTopicOutput → N × Result Reply → N × GetTopicOutput × Result (Unit {0})
  replied_topic topic (n, ok res) = checked_topic n topic res (status_error res.status_code)
  replied_topic topic (n, err e) = (n, topic, err e)
  replied_topic topic (n, panic) = (n, topic, panic)

  abbrev requested_topic :
      N → GetTopicOutput → Result (Key × Request) → N × GetTopicOutput × Result (Unit {0})
  requested_topic n topic (ok (url, req)) =
      replied_topic topic
        (client.do_request get url (add_query_params ((topic_name_key, topic.name) ∷ []) req) n)
  requested_topic n topic (err e) = (n, topic, err e)
  requested_topic n topic panic = (n, topic, panic)

  -- `GetTopic`
  unfoldable pub client_get_topic : RecordClient → Key → N → N × GetTopicOutput × Result (Unit {0})
  client_get_topic c topic_name n =
      requested_topic n (record { name = topic_name; next_offset = 0; latest_commit_at = none })
        (request c get (codes "/topic"))

  -- GetRecords behind the parsing of the form.
  abbrev form_parsed : ℕ → Form × Batch × Result (Unit {0}) → Result (List (Slice ℕ))
  form_parsed status_code (form, b, ok _) = individual_records pkg.slicey b
  form_parsed status_code (form, b, err bad_input) =
      if status_code == 206 then individual_records pkg.slicey b else err bad_input
  form_parsed status_code (form, b, err e) = err e
  form_parsed status_code (form, b, panic) = panic

  -- GetRecords behind the check of the status, for a client that asked for `max_records`.
  abbrev pub read_reply :
      ℤ → Slice ℕ → Reply → Key × Key → Result (Slice ℕ) → Result (List (Slice ℕ))
  read_reply max_records buffer res (media_type, boundary) (ok sizes) =
      if not (same_name media_type multipart_form_data)
      then err other
      else form_parsed res.status_code (
          multipart_form_data_to_records pkg.json pkg.slicey (res.form boundary)
            (new_batch sizes buffer))
  read_reply max_records buffer res (media_type, boundary) _ =
      if not (same_name media_type multipart_form_data) then err other else panic

  abbrev pub default_records : ℤ → ℤ
  default_records max_records = if is_zero max_records then pos 10 else max_records

  abbrev pub default_buffer : Option (Slice ℕ) → Slice ℕ
  default_buffer none = record { array = replicate pkg.mb 0; len = 0 }
  default_buffer (some buffer) = buffer

  abbrev pub records_params : Key → ℕ → ℤ → Slice ℕ → List (Key × Key)
  records_params topic_name offset max_records buffer =
      (topic_name_key, topic_name)
      ∷ (offset_key, number_text offset)
      ∷ (max_records_key, int_text max_records)
      ∷ (soft_max_bytes_key, number_text (cap buffer))
      ∷ []

  abbrev pub timeout_params : ℤ → List (Key × Key)
  timeout_params timeout =
      if is_zero timeout then [] else (timeout_key, pkg.duration_text timeout) ∷ []

  -- `GetRecords`
  unfoldable pub client_get_records :
      RecordClient → Key → ℕ → GetRecordsInput → Exec N (List (Slice ℕ))
  client_get_records c topic_name offset input = do
    let max_records = default_records input.max_records
    let buffer = default_buffer input.buffer
    req ← lift (request c get (codes "/records"))
    res ← client.do_request get req.0 (
        add_query_params (timeout_params input.timeout) (
          add_query_params (records_params topic_name offset max_records buffer)
            (record (req.1) { accept = multipart_form_data })))
    lift (status_error res.status_code)
    media ← lift (pkg.parse_media_type res.content_type)
    lift (read_reply max_records buffer res media (make_slice max_records))
