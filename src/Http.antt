-- ===== src/Http.antt =====
-- internal/httphandlers and internal/infrastructure/httphelpers: the broker behind HTTP, and the
-- client. Here are requests and responses, as far as the code looks at them.
pub mod Multipart
pub mod Params
pub mod Handlers
pub mod Guard
mod Tests
use simple_commit_log.Base.{ℕ, List, [], ◌∷◌, ◌++◌, Option, none, some}
use simple_commit_log.Errors.{Result}
use simple_commit_log.Topic.Files.{Key}
use simple_commit_log.Http.Multipart.{Form}

-- A request: the values of each query parameter, the headers that the code reads, where an absent
-- header is the empty text, and the body as the multipart reader of a boundary yields it.
pub record Request : Type 0 where
  pub query : Key → List Key
  pub accept : Key
  pub content_type : Key
  pub authorization : Key
  pub form : Key → Form

-- A piece of a response's body: the text of some message, the bytes of a record, the offsets of
-- `AddRecordsOutput`, the metadata of `GetTopicOutput`, or what a multipart.Writer writes.
pub data Chunk : Type 0 where
  message closing : Chunk
  raw : List ℕ → Chunk
  offsets : List ℕ → Chunk
  topic : ℕ → Option ℕ → Chunk
  field : Key → Chunk
  field_bytes : List ℕ → Chunk

-- An http.ResponseWriter: the status that was sent, and the body.
pub record Response : Type 0 where
  pub status : Option ℕ
  pub body : List Chunk

abbrev pub no_response : Response
no_response = record { status = none; body = [] }

-- `WriteHeader`: the first call counts.
unfoldable pub write_header : ℕ → Response → Response
write_header code r = elim r.status [ none ↦ record r { status = some code } | some s ↦ r ]

-- `Write`, which sends the status 200 if none was sent.
unfoldable pub write_body : Chunk → Response → Response
unfolding write_header
write_body c r = record (write_header 200 r) { body = r.body ++ (c ∷ []) }

-- A status with a message.
unfoldable pub fail_with : ℕ → Response → Response
unfolding write_header write_body
fail_with code r = write_body message (write_header code r)
