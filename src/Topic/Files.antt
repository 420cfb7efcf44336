-- ===== src/Topic/Files.antt =====
-- The interfaces through which a topic reaches its files: internal/sebtopic's `Storage` and
-- `Compress`, and the part of internal/sebcache's `Cache` that a topic uses.
use simple_commit_log.Base.{ℕ, List, Option}
use simple_commit_log.Errors.{Error, Result, ok, err, panic}
use simple_commit_log.Exec.{Exec}
use simple_commit_log.Records.Bytes.{Writer}

-- A path, as its bytes.
abbrev pub Key : Type 0
Key = List ℕ

-- What an io.Reader yields: bytes, and the error behind them if it is not io.EOF.
pub record Stream : Type 0 where
  pub bytes : List ℕ
  pub failed : Option Error

-- A store of files with state `S`, whose open writers are handles `H`: `Writer(key)`, `Write` and
-- `Close` on what that returned, `Reader(key)`, and `Close` of that reader.
pub record Files (S H : Type 0) : Type 0 where
  pub create : Key → Exec S H
  pub put : H → List ℕ → Exec S H
  pub close : H → Exec S (Unit {0})
  pub reader : Key → Exec S Stream
  pub close_reader : Key → Exec S (Unit {0})

-- `File`
pub record File : Type 0 where
  pub size : ℕ
  pub path : Key

-- `Storage`: the files of a topic, with `ListFiles(topicName, extension)`.
pub record Storage (S H : Type 0) : Type 0 where
  pub files : Files S H
  pub list_files : Key → Key → Exec S (List File)

-- `Compress`: the error of `NewWriter` if there is one, what reaches the writer below a compressing
-- writer that was closed, and what a decompressing reader yields, which can fail as it is made.
pub record Compress : Type 0 where
  pub new_writer_error : Option Error
  pub compress : List ℕ → List ℕ
  pub new_reader : Stream → Result Stream

-- An open writer as an io.Writer.
abbrev pub after_put : {S H : Type 0} → H → S × Result H → (S × H) × Result (Unit {0})
after_put h (s, ok h') = ((s, h'), ok tt)
after_put h (s, err e) = ((s, h), err e)
after_put h (s, panic) = ((s, h), panic)

abbrev pub handle_writer : {S H : Type 0} → Files S H → Writer (S × H)
handle_writer io = record { put = λ w bs. after_put w.1 (io.put w.1 bs w.0) }
