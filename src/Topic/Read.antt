-- ===== src/Topic/Read.antt =====
-- `Topic.ReadRecords` and `Topic.Metadata` of internal/sebtopic/topic.go.
pub mod Select
use simple_commit_log.Base.{
  ℕ, zero, suc, ◌+◌, ◌-◌, ◌%◌, ◌^◌, List, [], ◌∷◌, Bool, true, false, ◌&&◌, ◌||◌, not, Option, none,
  some, ◌==◌, ltb, leb, length, take, drop, get_elem?, min, if◌then◌else◌,
}
use simple_commit_log.Base.Int.{ℤ, pos, negsuc, pos_part, ltb_ℤ, to_u32}
use simple_commit_log.Errors.{Error, Result, ok, err, panic, out_of_bounds}
use simple_commit_log.Exec.{Exec, pure, gets, modify, lift, raise, continue, ◌>>=◌, ◌>>◌}
use simple_commit_log.Records.Batch.{Batch, batch_len}
use simple_commit_log.Records.File.{Parser, parse, read_records as read_file}
use simple_commit_log.Topic.Files.{Key, Files, Storage, Stream, Compress}
use simple_commit_log.Topic.Paths.{record_batch_key}
use simple_commit_log.Topic.State.{Topic, Config, on_backing, on_cached}

-- A call whose error is only logged.
abbrev attempted : {S A : Type 0} → S × Result A → S × Result (Option A)
attempted (s, ok a) = (s, ok (some a))
attempted (s, err e) = (s, ok none)
attempted (s, panic) = (s, panic)

abbrev attempt : {S A : Type 0} → Exec S A → Exec S (Option A)
attempt m s = attempted (m s)

-- `compression.NewReader`, if there is a compression.
abbrev decompressed : Option Compress → Stream → Result Stream
decompressed none stream = ok stream
decompressed (some c) stream = c.new_reader stream

-- What io.Copy returns, once the bytes are written.
abbrev copied_all : Option Error → Result (Unit {0})
copied_all none = ok tt
copied_all (some e) = err e

module _ {S H C G : Type 0} (cfg : Config S H C G) where
  -- `parseRecordBatch` on a cache miss: the file is copied from the backing storage into the cache,
  -- and opened there.
  unfoldable pub fetch : Key → Exec (Topic S C) Stream
  fetch key = do
    stream ← on_backing (cfg.backing_storage.files.reader key)
    plain ← lift (decompressed cfg.compression stream)
    h ← on_cached (cfg.cache.create key)
    h' ← on_cached (cfg.cache.put h plain.bytes)
    lift (copied_all plain.failed)
    on_cached (cfg.cache.close h')
    on_backing (cfg.backing_storage.files.close_reader key)
    on_cached (cfg.cache.reader key)

  unfoldable pub cached_or_fetched : Key → Option Stream → Exec (Topic S C) Stream
  cached_or_fetched key (some stream) = pure stream
  cached_or_fetched key none = fetch key

  -- `parseRecordBatch`. A file of the cache is read to its end without an error.
  unfoldable pub parse_record_batch : ℕ → Exec (Topic S C) Parser
  parse_record_batch record_batch_id = do
    let key = record_batch_key cfg.topic_name record_batch_id
    found ← on_cached (attempt (cfg.cache.reader key))
    f ← cached_or_fetched key found
    lift (parse (record { content = f.bytes; position = 0 }))

-- The loop that searches the batch of an offset from the back, over the indexes below `k`.
unfoldable pub find_batch : ℕ → List ℕ → ℕ → Option ℕ
find_batch zero offsets offset = none
find_batch (suc k) offsets offset =
    let rest = find_batch k offsets offset in
    elim (get_elem? offsets k) [ none ↦ rest | some cur ↦ if leb cur offset then some k else rest ]

-- The loop of ReadRecords over the sizes of a batch: how many records are read, the bytes counted
-- so far in a uint32, and whether no record was read yet.
unfoldable pub select_records : ℕ → List ℕ → ℕ → Bool → ℕ × ℕ × Bool
select_records soft_max [] bytes first = (0, bytes, first)
select_records soft_max (size ∷ sizes) bytes first =
    let (n, bytes', first') = select_records soft_max sizes ((bytes + size) % 2 ^ 32) false in
    if not first && ltb soft_max ((bytes + size) % 2 ^ 32)
    then (0, bytes, first)
    else (suc n, bytes', first')

-- The variables of the loop of ReadRecords.
pub record Reading : Type 0 where
  pub batch : Batch
  pub record_batch_bytes : ℕ
  pub batch_record_index : ℕ
  pub first_record : Bool

-- The limits of a call: the most records, the softMaxBytes as a uint32 if bytes are counted, and
-- what `ctx` reports at each round of the loop.
pub record Limits : Type 0 where
  pub max_records : ℤ
  pub soft_max_bytes : Option ℕ
  pub ctx : ℕ → Option Error

abbrev pub more_bytes : Option ℕ → ℕ → Bool
more_bytes none bytes = true
more_bytes (some soft_max) bytes = ltb bytes soft_max

-- How many records of a batch are read, of the sizes that the limits leave; `bytes` and `first` are
-- the counter and the flag of the loop.
unfoldable pub num_records : Option ℕ → List ℕ → ℕ → ℕ → Bool → ℕ × ℕ × Bool
num_records none sizes most bytes first = (most, bytes, first)
num_records (some soft_max) sizes most bytes first = select_records soft_max sizes bytes first

-- What follows `rb.Records`.
abbrev pub after_records :
    {X : Type 0} → Reading → X × Batch × Result (Unit {0}) → Reading × Result Bool
after_records r (rb, b, ok _) = (record r { batch = b; batch_record_index = 0 }, ok true)
after_records r (rb, b, err e) = (record r { batch = b }, err e)
after_records r (rb, b, panic) = (record r { batch = b }, panic)

-- What follows the choice of `n` records, with the counter and the flag.
abbrev pub read_chosen : Parser → Reading → ℕ × ℕ × Bool → Reading × Result Bool
read_chosen rb r (n, bytes, first) =
    let r' : Reading = record r { record_batch_bytes = bytes; first_record = first } in
    if n == 0
    then (r', ok false)
    else after_records r'
        (read_file rb r.batch r.batch_record_index ((r.batch_record_index + n) % 2 ^ 32))

-- `trackByteSize`
abbrev pub tracks : Option ℕ → Bool
tracks none = false
tracks (some soft_max) = true

-- One round on a parsed batch: false if it ends the loop. Where bytes are counted, the slice of the
-- sizes panics if it leaves the sizes.
unfoldable pub read_round : Limits → Parser → Reading → Reading × Result Bool
read_round lim rb r =
    let left = (pos_part lim.max_records - batch_len r.batch) % 2 ^ 32 in
    let most = min left ((rb.header.num_records + 2 ^ 32 - r.batch_record_index) % 2 ^ 32) in
    let end = (r.batch_record_index + most) % 2 ^ 32 in
    if (ltb (length rb.record_sizes) end || ltb end r.batch_record_index)
      && tracks lim.soft_max_bytes
    then (r, panic)
    else let sizes = take most (drop r.batch_record_index rb.record_sizes) in
      read_chosen rb r
        (num_records lim.soft_max_bytes sizes most r.record_batch_bytes r.first_record)

-- `moreRecords`, with `len` the length of the batch.
abbrev pub more_records : ℤ → ℕ → Bool
more_records max_records len = ltb_ℤ (pos len) max_records

module _ {S H C G : Type 0} (cfg : Config S H C G) where
  abbrev Loop : Type 0
  Loop = Reading → Topic S C → Topic S C × Reading × Result (Unit {0})

  -- What follows the body of a round.
  abbrev pub proceed :
      Loop → Topic S C → Reading × Result Bool → Topic S C × Reading × Result (Unit {0})
  proceed next t (r, ok true) = next r t
  proceed next t (r, ok false) = (t, r, ok tt)
  proceed next t (r, err e) = (t, r, err e)
  proceed next t (r, panic) = (t, r, panic)

  -- What follows the call of `parseRecordBatch`.
  abbrev pub on_parsed :
      Limits → Loop → Reading → Topic S C × Result Parser → Topic S C × Reading × Result (Unit {0})
  on_parsed lim next r (t, ok rb) = proceed next t (read_round lim rb r)
  on_parsed lim next r (t, err e) = (t, r, err e)
  on_parsed lim next r (t, panic) = (t, r, panic)

  -- The loop of ReadRecords, over the offsets of the batches that are left; `i` counts its rounds.
  unfoldable pub read_loop : Limits → ℕ → List ℕ → Loop
  read_loop lim i [] r t = (t, r, ok tt)
  read_loop lim i (o ∷ os) r t =
      if more_records lim.max_records (batch_len r.batch)
        && more_bytes lim.soft_max_bytes r.record_batch_bytes
      then elim (lim.ctx i) [
        | some e ↦ (t, r, err e)
        | none ↦ on_parsed lim (read_loop lim (suc i) os) r (parse_record_batch cfg o t)
      ]
      else (t, r, ok tt)

  -- The loop where no batch begins at the offset or before it: the index is -1, which panics unless
  -- the loop is not entered or the context has ended.
  unfoldable pub read_nowhere : Limits → Loop
  read_nowhere lim r t =
      if more_records lim.max_records (batch_len r.batch)
        && more_bytes lim.soft_max_bytes r.record_batch_bytes
      then elim (lim.ctx 0) [ some e ↦ (t, r, err e) | none ↦ (t, r, panic) ]
      else (t, r, ok tt)

  -- `softMaxBytes`, where 0 turns the counting off.
  abbrev pub soft_max : ℤ → Option ℕ
  soft_max (pos zero) = none
  soft_max (pos (suc k)) = some (to_u32 (pos (suc k)))
  soft_max (negsuc k) = some (to_u32 (negsuc k))

  -- `maxRecords`, which is 10 if 0 is given.
  abbrev pub max_or_default : ℤ → ℤ
  max_or_default (pos zero) = pos 10
  max_or_default (pos (suc k)) = pos (suc k)
  max_or_default (negsuc k) = negsuc k

  -- The start of the loop, in the batch with index `k`.
  abbrev pub read_from :
      Limits → ℕ → Reading → Option ℕ → Topic S C → Topic S C × Reading × Result (Unit {0})
  read_from lim offset r none t = read_nowhere lim r t
  read_from lim offset r (some k) t =
      let o : ℕ = elim (get_elem? t.record_batch_offsets k) [ none ↦ 0 | some o ↦ o ] in
      read_loop lim 0 (drop k t.record_batch_offsets)
        (record r { batch_record_index = (offset - o) % 2 ^ 32 }) t

  -- The batch that the caller gets back, which has what was read also where an error is returned.
  abbrev pub batch_of :
      Topic S C × Reading × Result (Unit {0}) → Topic S C × Batch × Result (Unit {0})
  batch_of (t, r, res) = (t, r.batch, res)

  -- `ReadRecords`, where `ctx i` says whether the context has ended at round `i`.
  unfoldable pub read_records :
      (ℕ → Option Error) → Batch → ℕ → ℤ → ℤ → Topic S C → Topic S C × Batch × Result (Unit {0})
  read_records ctx b offset max_records soft_max_bytes t =
      let lim : Limits = record {
        max_records = max_or_default max_records;
        soft_max_bytes = soft_max soft_max_bytes;
        ctx = ctx;
      } in
      let r : Reading = record {
        batch = b;
        record_batch_bytes = 0;
        batch_record_index = 0;
        first_record = true;
      } in
      let k = find_batch (length t.record_batch_offsets) t.record_batch_offsets offset in
      if leb t.next_offset offset
      then (t, b, err out_of_bounds)
      else batch_of (read_from lim offset r k t)

  -- `offsetGetRecordBatchID`
  unfoldable pub offset_get_record_batch_id : List ℕ → ℕ → ℕ
  offset_get_record_batch_id offsets offset = elim (find_batch (length offsets) offsets offset) [
    | none ↦ 0
    | some k ↦ elim (get_elem? offsets k) [ none ↦ 0 | some o ↦ o ]
  ]

  -- `Metadata`: the next offset, and the bits of the int64 that is the newest batch's commit time in
  -- microseconds, which is none (the zero time.Time) for a topic without records.
  abbrev latest_commit : Topic S C × Result Parser → Topic S C × Result (ℕ × Option ℕ)
  latest_commit (t, ok rb) = (t, ok (t.next_offset, some rb.header.unix_epoch_us))
  latest_commit (t, err e) = (t, err e)
  latest_commit (t, panic) = (t, panic)

  unfoldable pub metadata : Exec (Topic S C) (ℕ × Option ℕ)
  metadata t =
      if t.next_offset == 0
      then (t, ok (0, none))
      else latest_commit (
          parse_record_batch cfg
            (offset_get_record_batch_id t.record_batch_offsets (t.next_offset - 1)) t)
