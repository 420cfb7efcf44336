-- ===== src/Topic/Log/Loop.antt =====
-- The loop of ReadRecords, where the context does not end and every file is served.
use simple_commit_log.Base.{
  ℕ, suc, ◌+◌, ◌-◌, ◌^◌, ◌≤◌, ◌<◌, ◌≡◌, refl, sym, ap, subst, ◌∙◌, inl, inr, List, [], ◌∷◌, ◌++◌,
  map, length, Bool, true, false, ◌&&◌, none, ltb, ◌==◌, All, Bool-cases, arith, append_assoc,
  append-nil, length-append,
}
use simple_commit_log.Base.Int.{pos}
use simple_commit_log.Errors.{Result, ok}
use simple_commit_log.Slice.{cap, items, IsWf}
use simple_commit_log.Records.Batch.{Batch, IsBatch, batch_len}
use simple_commit_log.Records.File.RoundTrip.{parsed}
use simple_commit_log.Records.File.Reads.{Grows}
use simple_commit_log.Topic.State.{Topic, Config}
use simple_commit_log.Topic.Read.{
  Reading, Limits, more_bytes, more_records, read_round, read_chosen, read_loop, proceed,
}
use simple_commit_log.Topic.Log.{IsStored, Records, ◌⊕◌, part, chosen, taken, Serves}
use simple_commit_log.Topic.Log.Round.{round_lem, read_chosen-Grows, length-part, n-le, in_range}

pub Grows-none : (b : Batch) → IsWf b.sizes → IsWf b.records_data → Grows b [] [] b
Grows-none b ws wd = record {
  sizes_added = sym (append-nil (items b.sizes));
  bytes_added = sym (append-nil (items b.records_data));
  sizes_cap = refl;
  data_cap = refl;
  sizes_wf = ws;
  data_wf = wd;
  count = omega arith;
  bytes = omega arith;
}

pub Grows-trans :
    {a b c : Batch} {s s' d d' : List ℕ}
    → Grows a s d b
    → Grows b s' d' c
    → Grows a (s ++ s') (d ++ d') c
Grows-trans {a} {b} {c} {s} {s'} {d} {d'} g h = record {
  sizes_added =
      h.sizes_added ∙ ap (λ xs. xs ++ s') g.sizes_added ∙ append_assoc (items a.sizes) s s';
  bytes_added =
      h.bytes_added ∙ ap (λ xs. xs ++ d') g.bytes_added ∙ append_assoc (items a.records_data) d d';
  sizes_cap = h.sizes_cap ∙ g.sizes_cap;
  data_cap = h.data_cap ∙ g.data_cap;
  sizes_wf = h.sizes_wf;
  data_wf = h.data_wf;
  count = omega (arith, g.count, h.count, length-append s s');
  bytes = omega (arith, g.bytes, h.bytes, length-append d d');
}

-- The index is one of the first batch, or just behind its records.
abbrev pub Inside : ℕ → List (ℕ × Batch) → Type 0
Inside i [] = Unit
Inside i (e ∷ log) = i ≤ batch_len e.1

Inside-zero : (log : List (ℕ × Batch)) → Inside 0 log
Inside-zero [] = tt
Inside-zero (e ∷ log) = omega arith

first_test : (a b : ℕ) (x : Bool) → (ltb a b && x) ≡ true → a < b
first_test a b x h = ground arith

not_zero : (n : ℕ) → (n == 0) ≡ false → 0 < n
not_zero n h = ground arith

module _ {S H C G : Type 0} (cfg : Config S H C G) (I : Topic S C → Type 0) (lim : Limits)
    (most : ℕ) (limit : lim.max_records ≡ pos most) (most_fits : most < 2 ^ 32)
    (endless : (k : ℕ) → lim.ctx k ≡ none) where
  -- What is taken from index `i` of the first batch on, in the variables of the loop.
  abbrev pub takes : Reading → List (ℕ × Batch) → Records
  takes r log =
      taken lim.soft_max_bytes most (batch_len r.batch) r.record_batch_bytes r.first_record
        r.batch_record_index (map (λ e. e.1) log)

  -- The loop ends without an error, with the batch grown by these records.
  abbrev pub Ends : Reading → Records → Topic S C × Reading × Result (Unit {0}) → Type 0
  Ends r rs o =
      (t' : Topic S C) × (r' : Reading) × (o ≡ (t', r', ok tt))
      × I t'
      × Grows r.batch rs.0 rs.1 r'.batch

  more_lem : (n : ℕ) → more_records lim.max_records n ≡ ltb n most
  more_lem n = rw limit (ground arith)

  -- What is left to take behind `n` records of the first batch.
  abbrev left : ℕ → ℕ × ℕ × Bool → List (ℕ × Batch) → Records
  left have n log = taken lim.soft_max_bytes most (have + n.0) n.1 n.2 0 (map (λ e. e.1) log)

  -- The loop behind a round that read records.
  went_on :
      (r : Reading) (n : ℕ × ℕ × Bool) (out : Batch) (rs : Records) (log : List (ℕ × Batch))
      (o : Topic S C × Reading × Result (Unit {0}))
      → length rs.0 ≡ n.0
      → Grows r.batch rs.0 rs.1 out
      → length (rs ⊕ left (batch_len r.batch) n log).0 ≤ cap r.batch.sizes - r.batch.sizes.len
      → length (rs ⊕ left (batch_len r.batch) n log).1
        ≤ cap r.batch.records_data - r.batch.records_data.len
      → (length (left (batch_len r.batch) n log).0 ≤ cap out.sizes - out.sizes.len
          → length (left (batch_len r.batch) n log).1 ≤ cap out.records_data - out.records_data.len
          → Ends
              (record {
                batch = out;
                record_batch_bytes = n.1;
                batch_record_index = 0;
                first_record = n.2;
              })
              (left (batch_len r.batch) n log)
              o)
      → Ends r (rs ⊕ left (batch_len r.batch) n log) o
  went_on r n out rs log o counted g room_s room_d rest =
      let (t', r', e, i, h) =
        rest
          (omega (
            arith,
            room_s,
            g.count,
            g.sizes_cap,
            length-append rs.0 (left (batch_len r.batch) n log).0,
          ))
          (omega (
            arith,
            room_d,
            g.bytes,
            g.data_cap,
            length-append rs.1 (left (batch_len r.batch) n log).1,
          )) in
      (t', r', e, i, Grows-trans g h)

  -- The variables of the loop behind a round that chose `n` records.
  abbrev behind : Batch → ℕ × ℕ × Bool → Reading
  behind out n = record {
    batch = out;
    record_batch_bytes = n.1;
    batch_record_index = 0;
    first_record = n.2;
  }

  -- What is to show of the loop: it ends with what it takes, where the buffer has room for that.
  abbrev EndsWithRoom : Reading → Records → Topic S C × Reading × Result (Unit {0}) → Type 0
  EndsWithRoom r rs o =
      length rs.0 ≤ cap r.batch.sizes - r.batch.sizes.len
      → length rs.1 ≤ cap r.batch.records_data - r.batch.records_data.len
      → Ends r rs o

  module _ (now : ℕ) (b : Batch) (stored : IsStored b) (v : IsBatch b)
      (records_fit : batch_len b + 1 < 2 ^ 32) (time_fits : now < 2 ^ 64) (r : Reading)
      (more : batch_len r.batch < most) (inside : r.batch_record_index ≤ batch_len b)
      (ws : IsWf r.batch.sizes) (wd : IsWf r.batch.records_data) (t : Topic S C)
      (next : Reading → Topic S C → Topic S C × Reading × Result (Unit {0})) where
    abbrev N : ℕ × ℕ × Bool
    N =
        chosen lim.soft_max_bytes most (batch_len r.batch) r.record_batch_bytes r.first_record
          r.batch_record_index b

    abbrev P : Records
    P = part b r.batch_record_index (r.batch_record_index + N.0)

    abbrev round : Reading × Result Bool
    round = read_round lim (parsed now b v records_fit time_fits) r

    counted : length P.0 ≡ N.0
    counted = omega (
      arith,
      length-part b v r.batch_record_index (r.batch_record_index + N.0) (omega arith) (
          omega (
            arith,
            n-le lim most limit most_fits now b stored v records_fit time_fits r more inside,
            in_range lim most limit most_fits now b stored v records_fit time_fits r more inside,
          )),
    )

    round-stops :
        (N.0 == 0) ≡ true
        → round ≡ (record r { record_batch_bytes = N.1; first_record = N.2 }, ok false)
    round-stops nothing = round_eq ∙ rw nothing refl
      where
        round_eq : round ≡ read_chosen (parsed now b v records_fit time_fits) r N
        round_eq =
            round_lem lim most limit most_fits now b stored v records_fit time_fits r more inside

    -- The round reads records, and the loop goes on with what is left.
    round-Ends :
        (log : List (ℕ × Batch))
        → 0 < N.0
        → ((out : Batch)
            → IsWf out.sizes
            → IsWf out.records_data
            → EndsWithRoom (behind out N) (takes (behind out N) log) (next (behind out N) t))
        → EndsWithRoom r (P ⊕ left (batch_len r.batch) N log) (proceed cfg next t round)
    round-Ends log something rest rs rd =
        let (out, grown, g) =
          read_chosen-Grows lim most limit most_fits now b stored v records_fit time_fits r more
            inside something ws wd
            (omega (arith, rs, counted, length-append P.0 (left (batch_len r.batch) N log).0))
            (omega (arith, rd, length-append P.1 (left (batch_len r.batch) N log).1)) in
        rw (round_eq ∙ grown) (
          went_on r N out P log (next (behind out N) t) counted g rs rd (
            subst
              (λ h.
                EndsWithRoom (behind out N)
                  (taken lim.soft_max_bytes most h N.1 N.2 0 (map (λ e. e.1) log))
                  (next (behind out N) t))
              {x = batch_len out} {y = batch_len r.batch + N.0} (omega (arith, g.count, counted))
              (rest out g.sizes_wf g.data_wf)))
      where
        round_eq : round ≡ read_chosen (parsed now b v records_fit time_fits) r N
        round_eq =
            round_lem lim most limit most_fits now b stored v records_fit time_fits r more inside

  pub read_loop-takes :
      (k : ℕ) (log : List (ℕ × Batch)) (r : Reading) (t : Topic S C)
      → All (λ e. IsStored e.1) log
      → All (λ e. Serves cfg I e.0 e.1) log
      → I t
      → Inside r.batch_record_index log
      → IsWf r.batch.sizes
      → IsWf r.batch.records_data
      → EndsWithRoom r (takes r log) (read_loop cfg lim k (map (λ e. e.0) log) r t)
  unfolding read_loop taken
  read_loop-takes k [] r t st sv i ins ws wd = λ rs rd. (t, r, refl, i, Grows-none r.batch ws wd)
  read_loop-takes k ((o, b) ∷ log) r t st sv i ins ws wd =
      elim (Bool-cases
        (ltb (batch_len r.batch) most && more_bytes lim.soft_max_bytes r.record_batch_bytes)) [
          | inl more ↦
              let (t', now, v, rf, tf, e, i') = sv.0 t i in
              let below = first_test (batch_len r.batch) most _ more in
              let next = read_loop cfg lim (suc k) (map (λ e. e.0) log) in
              rw (more_lem (batch_len r.batch), more, endless k, e)
                (elim (Bool-cases ((N now b st.0 v rf tf r below ins ws wd t' next).0 == 0)) [
                  | inl nothing ↦
                      let stops =
                        round-stops now b st.0 v rf tf r below ins ws wd t' next nothing in
                      rw (nothing, stops) (λ rs rd. (t', _, refl, i', Grows-none r.batch ws wd))
                  | inr something ↦ rw something (
                      round-Ends now b st.0 v rf tf r below ins ws wd t' next log
                        (not_zero _ something)
                        (λ out ws' wd'.
                          read_loop-takes (suc k) log
                            (behind out (N now b st.0 v rf tf r below ins ws wd t' next)) t' st.1
                            sv.1 i' (Inside-zero log) ws' wd'))
                ])
          | inr full ↦
              rw (more_lem (batch_len r.batch), full)
                (λ rs rd. (t, r, refl, i, Grows-none r.batch ws wd))
        ]

  -- Let `r` be the variables of the loop of ReadRecords, `log` the batches that are left, and let
  -- the batches be valid, each with a record and in a file that is served and parsed. Let the limit
  -- of records be below 2^32, the context not end, the index be one of the first batch or just
  -- behind it, and the buffer have room for what is taken. Then the loop ends without an error, with
  -- the buffer grown by exactly the records that `taken` gives for the limits and the variables.
  pub read_loop_lem :
      (k : ℕ) (log : List (ℕ × Batch)) (r : Reading) (t : Topic S C)
      → All (λ e. IsStored e.1) log
      → All (λ e. Serves cfg I e.0 e.1) log
      → I t
      → Inside r.batch_record_index log
      → IsWf r.batch.sizes
      → IsWf r.batch.records_data
      → length (takes r log).0 ≤ cap r.batch.sizes - r.batch.sizes.len
      → length (takes r log).1 ≤ cap r.batch.records_data - r.batch.records_data.len
      → Ends r (takes r log) (read_loop cfg lim k (map (λ e. e.0) log) r t)
  read_loop_lem k log r t st sv i ins ws wd room_s room_d =
      read_loop-takes k log r t st sv i ins ws wd room_s room_d
