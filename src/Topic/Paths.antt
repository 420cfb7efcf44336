-- ===== src/Topic/Paths.antt =====
-- The names of a topic's files, and their offsets.
use simple_commit_log.Base.{
  ℕ, zero, suc, ◌+◌, ◌-◌, ◌/◌, ◌%◌, List, [], ◌∷◌, ◌++◌, length, replicate, ltb, if◌then◌else◌,
}
use simple_commit_log.Topic.Files.{Key}
use Prim.Native.Char.{code}
use Prim.Native.String.{String}

-- The bytes of an ASCII text.
abbrev pub codes : String → List ℕ
codes String.[] = []
codes (String.◌∷◌ c s) = code c ∷ codes s

-- `recordBatchExtension`
abbrev pub record_batch_extension : Key
record_batch_extension = codes ".record_batch"

-- The decimal digits of a number below 10^k, in front of `rest`; at least one, and no zero in front.
unfoldable pub decimal : ℕ → ℕ → List ℕ → List ℕ
decimal zero n rest = rest
decimal (suc k) n rest =
    let longer = decimal k (n / 10) ((48 + n % 10) ∷ rest) in
    if ltb n 10 then (48 + n) ∷ rest else longer

-- `fmt.Sprintf("%012d", n)` of a uint64, which has at most 20 digits.
unfoldable pub padded : ℕ → List ℕ
unfolding decimal
padded n = let digits = decimal 20 n [] in replicate (12 - length digits) 48 ++ digits

-- `RecordBatchKey`. For a topic name that is a clean path `filepath.Join` puts a slash between.
unfoldable pub record_batch_key : Key → ℕ → Key
record_batch_key topic_name record_batch_id =
    topic_name ++ (b'/' ∷ (padded record_batch_id ++ record_batch_extension))
