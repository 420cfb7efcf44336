-- ===== src/Http/Guard.antt =====
-- internal/infrastructure/httphelpers/apikey.go, and RegisterRoutes of internal/httphandlers: a
-- request reaches a handler only with the key.
use simple_commit_log.Base.{
  ◌≡◌, refl, ◌++◌, arith, inl, inr, Bool-cases, take-append, drop-append, Bool, true, false, length,
  take, drop, ◌==◌, if◌then◌else◌,
}
use simple_commit_log.Errors.{Result, ok, err, panic}
use simple_commit_log.Records.Batch.{Batch}
use simple_commit_log.Topic.Files.{Key}
use simple_commit_log.Topic.Paths.{codes}
use simple_commit_log.Names.{same_name, same_name_refl}
use simple_commit_log.Helpy.{Slicey}
use simple_commit_log.Broker.{
  Topics, Broker, broker_add_records, get_record as broker_get_record,
  get_records as broker_get_records, broker_metadata,
}
use simple_commit_log.Http.{Request, Response, fail_with, no_response}
use simple_commit_log.Http.Handlers.{
  Packages, Dependencies, Outcome, handle_add_records, handle_get_record, handle_get_records,
  handle_get_topic,
}

-- `strings.TrimPrefix`
unfoldable pub trim_prefix : Key → Key → Key
trim_prefix s prefix =
    if same_name (take (length prefix) s) prefix then drop (length prefix) s else s

abbrev pub bearer_prefix : Key
bearer_prefix = codes "Bearer "

-- `NewAPIKeyHandler` around a handler; `allowed` may fail.
abbrev pub decided : {D : Type 0} → D → Response → Outcome D → Result Bool → Outcome D
decided d w served (ok true) = served
decided d w served (ok false) = (d, fail_with 401 w, ok tt)
decided d w served (err e) = (d, fail_with 500 w, ok tt)
decided d w served panic = (d, w, panic)

unfoldable pub api_key_handler :
    {D : Type 0}
    → (Key → Result Bool)
    → (Request → D → Response → Outcome D)
    → Request
    → D
    → Response
    → Outcome D
api_key_handler allowed hf r d w =
    if length r.authorization == 0
    then (d, fail_with 401 w, ok tt)
    else decided d w (hf r d w) (allowed (trim_prefix r.authorization bearer_prefix))

-- The four routes.
pub data Route : Type 0 where
  post_records get_record get_records get_topic : Route

-- `subtle.ConstantTimeCompare(…) == 1`
unfoldable pub key_is_valid : Key → Key → Result Bool
key_is_valid api_key key = ok (same_name api_key key)

module _ {D : Type 0} (pkg : Packages) (deps : Dependencies D) (pooled : Batch) where
  abbrev pub handler_of : Route → Request → D → Response → Outcome D
  handler_of post_records = handle_add_records pkg deps pooled
  handler_of get_record = handle_get_record pkg deps
  handler_of get_records = handle_get_records pkg deps pooled
  handler_of get_topic = handle_get_topic pkg deps

  -- A request to a route that `RegisterRoutes` made with an API key.
  unfoldable pub serve : Key → Route → Request → D → Response → Outcome D
  serve api_key route = api_key_handler (key_is_valid api_key) (handler_of route)

-- What the handlers depend on in the program: the broker.
abbrev pub broker_dependencies : {W T : Type 0} → Slicey → Topics W T → Dependencies (Broker W T)
broker_dependencies slicey topics = record {
  add = broker_add_records topics;
  get_one = broker_get_record topics slicey;
  get_many = broker_get_records topics;
  topic_metadata = broker_metadata topics;
}

trim_prefix-append : (prefix s : Key) → trim_prefix (prefix ++ s) prefix ≡ s
unfolding trim_prefix
trim_prefix-append prefix s =
    rw (take-append prefix s (length prefix) refl, same_name_refl prefix)
      (drop-append prefix s (length prefix) refl)

module _ {D : Type 0} (pkg : Packages) (deps : Dependencies D) (pooled : Batch) (api_key : Key)
    (route : Route) (r : Request) (d : D) where
  -- Whatever the route: a request whose key is not the API key is answered with 401, and the broker
  -- is as it was.
  pub serve_refused :
      same_name api_key (trim_prefix r.authorization bearer_prefix) ≡ false
      → serve pkg deps pooled api_key route r d no_response ≡ (d, fail_with 401 no_response, ok tt)
  unfolding serve api_key_handler key_is_valid
  serve_refused wrong = elim (Bool-cases (length r.authorization == 0)) [
    | inl none_given ↦ rw none_given refl
    | inr given ↦ rw (given, wrong) refl
  ]

  -- A request with the API key behind the bearer prefix reaches the route's handler.
  pub serve_bearer :
      r.authorization ≡ bearer_prefix ++ api_key
      → serve pkg deps pooled api_key route r d no_response
        ≡ handler_of pkg deps pooled route r d no_response
  unfolding serve api_key_handler key_is_valid
  serve_bearer bearer =
      simp (bearer, given, trim_prefix-append bearer_prefix api_key, same_name_refl api_key)
    where
      given : (length (bearer_prefix ++ api_key) == 0) ≡ false
      given = ground arith
