-- ===== src/Records/File/Failures.antt =====
-- The errors of `Parser.Records` leave the batch's records alone.
use simple_commit_log.Base.{
  ℕ, Bool, true, false, if◌then◌else◌, ◌≡◌, refl, List, Option, none, some,
}
use simple_commit_log.Errors.{Error, Result, ok, err, panic}
use simple_commit_log.Slice.{items, IsWf}
use simple_commit_log.Slice.Laws.{items-fill}
use simple_commit_log.Records.Batch.{Batch}
use simple_commit_log.Records.Bytes.{Reader}
use simple_commit_log.Records.File.{Parser, store_read, read_between, read_entries, read_records}

-- If the outcome is an error, the batch shows what it showed before.
record ErrKeeps (b : Batch) (o : Parser × Batch × Result (Unit {0})) : Type 0 where
  at :
      (e : Error)
      → o.2 ≡ err e
      → (items o.1.sizes ≡ items b.sizes) × (items o.1.records_data ≡ items b.records_data)

ErrKeeps-if :
    {b : Batch} (c : Bool) {x y : Parser × Batch × Result (Unit {0})}
    → ErrKeeps b x
    → ErrKeeps b y
    → ErrKeeps b (if c then x else y)
ErrKeeps-if true h k = h
ErrKeeps-if false h k = k

ErrKeeps-ok : {b : Batch} (rb : Parser) (b' : Batch) → ErrKeeps b (rb, b', ok tt)
ErrKeeps-ok rb b' = record { at = λ e h. cc }

ErrKeeps-panic : {b : Batch} (rb : Parser) (b' : Batch) → ErrKeeps b (rb, b', panic)
ErrKeeps-panic rb b' = record { at = λ e h. cc }

ErrKeeps-same : {b : Batch} (rb : Parser) (r : Result (Unit {0})) → ErrKeeps b (rb, b, r)
ErrKeeps-same rb r = record { at = λ e h. (refl, refl) }

module _ (rb : Parser) (b : Batch) (i j : ℕ) (w : IsWf b.records_data) where
  store_read-ErrKeeps :
      (n : ℕ) (o : Reader × List ℕ × Option Error) → ErrKeeps b (store_read rb b i j n o)
  unfolding store_read
  store_read-ErrKeeps n (rdr, bytes, some e) = record {
    at = λ e' h. (refl, items-fill b.records_data bytes w);
  }
  store_read-ErrKeeps n (rdr, bytes, none) = search (ErrKeeps-if, ErrKeeps-panic, ErrKeeps-ok)

  read_between-ErrKeeps : (from to : ℕ) → ErrKeeps b (read_between rb b i j from to)
  unfolding read_between
  read_between-ErrKeeps from to = search (ErrKeeps-if, ErrKeeps-same, store_read-ErrKeeps)

  read_entries-ErrKeeps : (x y : Option ℕ) → ErrKeeps b (read_entries rb b i j x y)
  unfolding read_entries
  read_entries-ErrKeeps none y = ErrKeeps-same _ _
  read_entries-ErrKeeps (some from) none = ErrKeeps-same _ _
  read_entries-ErrKeeps (some from) (some to) = read_between-ErrKeeps from to

  read_records-ErrKeeps : ErrKeeps b (read_records rb b i j)
  unfolding read_records
  read_records-ErrKeeps = search (ErrKeeps-if, ErrKeeps-same, read_entries-ErrKeeps)

  -- An error of `Parser.Records` leaves the records of the batch as they were, also where a part of
  -- the bytes was read into its buffer: whatever the file, its index and the requested indexes are.
  pub read_records_err :
      (e : Error)
      → (read_records rb b i j).2 ≡ err e
      → (items (read_records rb b i j).1.sizes ≡ items b.sizes)
        × (items (read_records rb b i j).1.records_data ≡ items b.records_data)
  read_records_err = read_records-ErrKeeps.at
