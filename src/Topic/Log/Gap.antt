-- ===== src/Topic/Log/Gap.antt =====
-- What a limit of bytes does to a read of internal/sebtopic/topic.go that goes over two batches.
use simple_commit_log.Base.{
  ℕ, ◌+◌, ◌-◌, ◌^◌, ◌≤◌, ◌<◌, ◌≡◌, refl, ap, ap₂, ◌∙◌, [], ◌∷◌, ◌++◌, Option, true, false, none,
  some, arith, length, min, ltb, ◌&&◌, take, append-nil, total, length-append,
}
use simple_commit_log.Base.Int.{pos}
use simple_commit_log.Errors.{Error, ok}
use simple_commit_log.Slice.{items, IsWf, cap}
use simple_commit_log.Records.Batch.{Batch, batch_len}
use simple_commit_log.Topic.State.{Topic, Config}
use simple_commit_log.Topic.Read.{Reading, Limits, read_loop, num_records, select_records}
use simple_commit_log.Topic.Log.{IsStored, Serves, taken, part, ◌⊕◌, Records}
use simple_commit_log.Topic.Log.Round.{length-part}
use simple_commit_log.Topic.Log.Loop.{read_loop-takes}
use simple_commit_log.Records.Batch.Split.{between}

module _ (soft x y z : ℕ) (small : x < soft) (large : soft < x + y) (near : x + z ≤ soft)
    (sum_fits : x + y < 2 ^ 32) where
  -- The first of two records is chosen.
  one_of_two : num_records (some soft) (x ∷ y ∷ []) 2 0 true ≡ (1, x, false)
  unfolding num_records select_records
  one_of_two = ground arith

  one_of_one : num_records (some soft) (z ∷ []) 1 x false ≡ (1, x + z, false)
  unfolding num_records select_records
  one_of_one = ground arith

  module _ (most have : ℕ) (a b : Batch) (enough : have + 3 ≤ most)
      (ea : items a.sizes ≡ x ∷ y ∷ []) (eb : items b.sizes ≡ z ∷ []) where
    abbrev firsts : Records
    firsts = part a 0 1 ⊕ (part b 0 1 ⊕ ([], []))

    taken-firsts : taken (some soft) most have 0 true 0 (a ∷ b ∷ []) ≡ firsts
    unfolding taken
    taken-firsts = rw (ea, eb, two, one_of_two, one, one_of_one, more, again) refl
      where
        two : min (most - have) (length (x ∷ y ∷ []) - 0) ≡ 2
        two = ground arith

        one : min (most - (have + 1)) (length (z ∷ []) - 0) ≡ 1
        one = ground arith

        more : (ltb have most && ltb 0 soft) ≡ true
        more = ground arith

        again : (ltb (have + 1) most && ltb x soft) ≡ true
        again = ground arith

    firsts_sizes : firsts.0 ≡ x ∷ z ∷ []
    firsts_sizes = rw (ea, eb) refl

    firsts_content : firsts.1 ≡ take x (items a.records_data) ++ take z (items b.records_data)
    firsts_content =
        rw (ea, eb)
          (ap₂ ◌++◌ (ap (λ k. take k (items a.records_data)) {x = x + 0 - 0} (omega arith))
            (append-nil _ ∙ ap (λ k. take k (items b.records_data)) {x = z + 0 - 0} (omega arith)))

    firsts_bytes : IsStored a → IsStored b → length firsts.1 ≡ x + z
    firsts_bytes sa sb = omega (
      arith,
      length-append (part a 0 1).1 ((part b 0 1).1 ++ []),
      length-append (part b 0 1).1 [],
      (length-part a sa.valid 0 1 (omega arith) (omega (arith, sa.some_records))).0,
      (length-part b sb.valid 0 1 (omega arith) (omega (arith, sb.some_records))).0,
      ap (λ s. total (between s 0 1)) ea,
      ap (λ s. total (between s 0 1)) eb,
    )

  module _ {S H C G : Type 0} (cfg : Config S H C G) (I : Topic S C → Type 0)
      (ctx : ℕ → Option Error) (endless : (k : ℕ) → ctx k ≡ none) (most : ℕ)
      (most_fits : most < 2 ^ 32) where
    abbrev limits : Limits
    limits = record { max_records = pos most; soft_max_bytes = some soft; ctx = ctx }

    -- Let a valid batch have two records, of x and y bytes, which together fit a uint32, and the next
    -- valid batch one of z bytes, and let the limit of bytes be above x, below x + y and at least
    -- x + z. Let the limit of records be below 2^32 and leave room for three more than the buffer
    -- has, the context not end, the files be below 2^32 bytes and served, and the buffer have room
    -- for two records of x and z bytes. Then the loop of ReadRecords, from the first record of the
    -- first batch on, ends without an error, and with the sizes and the bytes of the records of x
    -- and of z bytes behind those of the buffer: the record between them is left out.
    pub read_loop_gap :
        (o o' : ℕ) (a b buffer : Batch) (t : Topic S C)
        → batch_len buffer + 3 ≤ most
        → items a.sizes ≡ x ∷ y ∷ []
        → items b.sizes ≡ z ∷ []
        → IsStored a
        → IsStored b
        → Serves cfg I o a
        → Serves cfg I o' b
        → I t
        → IsWf buffer.sizes
        → IsWf buffer.records_data
        → 2 ≤ cap buffer.sizes - buffer.sizes.len
        → x + z ≤ cap buffer.records_data - buffer.records_data.len
        → (t' : Topic S C) × (r : Reading) × (read_loop cfg limits 0
              (o ∷ o' ∷ [])
              (record {
                batch = buffer;
                record_batch_bytes = 0;
                batch_record_index = 0;
                first_record = true;
              })
              t
            ≡ (t', r, ok tt))
          × (items r.batch.sizes ≡ items buffer.sizes ++ (x ∷ z ∷ []))
          × (items r.batch.records_data
              ≡ items buffer.records_data
                ++ (take x (items a.records_data) ++ take z (items b.records_data)))
    read_loop_gap o o' a b buffer t enough ea eb sa sb va vb inv ws wd room_s room_d =
        let gap = taken-firsts most (batch_len buffer) a b enough ea eb in
        let sizes = firsts_sizes most (batch_len buffer) a b enough ea eb in
        let content = firsts_content most (batch_len buffer) a b enough ea eb in
        let (t', r, e, _, g) =
          read_loop-takes cfg I limits most refl most_fits endless 0 ((o, a) ∷ (o', b) ∷ [])
            (record {
              batch = buffer;
              record_batch_bytes = 0;
              batch_record_index = 0;
              first_record = true;
            })
            t (sa, (sb, tt)) (va, (vb, tt)) inv (omega arith) ws wd
            (omega (arith, room_s, ap (λ rs. length rs.0) gap, ap length sizes))
            (omega (
              arith,
              room_d,
              ap (λ rs. length rs.1) gap,
              firsts_bytes most (batch_len buffer) a b enough ea eb sa sb,
            )) in
        (
          t',
          r,
          e,
          g.sizes_added
              ∙ ap (λ rs. items buffer.sizes ++ rs.0) gap
              ∙ ap (λ xs. items buffer.sizes ++ xs) sizes,
          g.bytes_added
              ∙ ap (λ rs. items buffer.records_data ++ rs.1) gap
              ∙ ap (λ bs. items buffer.records_data ++ bs) content,
        )
