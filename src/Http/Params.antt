-- ===== src/Http/Params.antt =====
-- internal/httphandlers/queryparams.go: the parameters of a query, with their parsers.
use simple_commit_log.Base.{ℕ, List, [], ◌∷◌, Bool, true, false, Option, some, if◌then◌else◌}
use simple_commit_log.Base.Int.{ℤ}
use simple_commit_log.Errors.{Result, ok, panic}
use simple_commit_log.Topic.Files.{Key}
use simple_commit_log.Topic.Paths.{codes}
use simple_commit_log.Names.{Entries, put}

abbrev pub topic_name_key : Key
topic_name_key = codes "topic-name"

abbrev pub offset_key : Key
offset_key = codes "offset"

abbrev pub soft_max_bytes_key : Key
soft_max_bytes_key = codes "max-bytes"

abbrev pub max_records_key : Key
max_records_key = codes "max-records"

abbrev pub timeout_key : Key
timeout_key = codes "timeout"

-- The values of type `any` that the parsers return: a string, a uint64, an int or a time.Duration.
pub data Value : Type 0 where
  text : Key → Value
  number : ℕ → Value
  int : ℤ → Value
  duration : ℤ → Value

-- `uint64y.FromString`, `inty.FromString` and `time.ParseDuration`.
pub record Parsers : Type 0 where
  pub uint64_from_string : Key → Result ℕ
  pub int_from_string : Key → Result ℤ
  pub parse_duration : Key → Result ℤ

-- `QParam`: a parser returns a value also where it fails, which the Boolean says.
pub record QParam : Type 0 where
  pub key : Key
  pub parser : Key → Value × Bool

-- `QueryString`
unfoldable pub query_string : Key → Value × Bool
query_string [] = (text [], false)
query_string (c ∷ s) = (text (c ∷ s), true)

module _ (p : Parsers) where
  abbrev number_or_zero : Result ℕ → Value × Bool
  number_or_zero (ok v) = (number v, true)
  number_or_zero _ = (number 0, false)

  -- `QueryUint64`
  unfoldable pub query_uint64 : Key → Value × Bool
  query_uint64 [] = (number 0, false)
  query_uint64 (c ∷ s) = number_or_zero (p.uint64_from_string (c ∷ s))

  abbrev int_or : ℤ → Result ℤ → Value × Bool
  int_or i (ok v) = (int v, true)
  int_or i _ = (int i, true)

  -- `QueryIntDefault`
  unfoldable pub query_int_default : ℤ → Key → Value × Bool
  query_int_default i s = int_or i (p.int_from_string s)

  abbrev duration_or : ℤ → Result ℤ → Value × Bool
  duration_or d (ok v) = (duration v, true)
  duration_or d _ = (duration d, true)

  -- `QueryDurationDefault`
  unfoldable pub query_duration_default : ℤ → Key → Value × Bool
  query_duration_default d s = duration_or d (p.parse_duration s)

-- The first value of a parameter, or the empty text.
abbrev pub first_value : List Key → Key
first_value [] = []
first_value (s ∷ ss) = s

-- The loop of `parseQueryParams`: the values, and whether all parsers succeeded.
unfoldable pub parse_query_loop :
    (Key → List Key) → List QParam → Entries Value → Bool → Entries Value × Bool
parse_query_loop query [] outputs fine = (outputs, fine)
parse_query_loop query (param ∷ params) outputs fine =
    let (value, parsed) = param.parser (first_value (query param.key)) in
    parse_query_loop query params (put param.key value outputs) (if parsed then fine else false)

-- `parseQueryParams`
unfoldable pub parse_query_params : (Key → List Key) → List QParam → Entries Value × Bool
parse_query_params query params = parse_query_loop query params [] true

-- The type assertions on the values: they panic where a value is not there or of another type.
abbrev pub as_text : Option Value → Result Key
as_text (some (text s)) = ok s
as_text _ = panic

abbrev pub as_number : Option Value → Result ℕ
as_number (some (number n)) = ok n
as_number _ = panic

abbrev pub as_int : Option Value → Result ℤ
as_int (some (int i)) = ok i
as_int _ = panic

abbrev pub as_duration : Option Value → Result ℤ
as_duration (some (duration d)) = ok d
as_duration _ = panic
