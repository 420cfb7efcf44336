-- ===== src/Topic/Store.antt =====
-- The laws of a store of files, through which internal/sebtopic/topic.go reaches the backing
-- storage and the cache, and what AddRecords' writes leave in such a store.
pub mod Keys
pub mod Serving
pub mod Keeping
pub mod Adding
pub mod Reading
pub mod History
pub mod Example
mod Tests
use simple_commit_log.Base.{
  ℕ, ◌+◌, ◌≡◌, refl, sym, ap, subst, ◌∙◌, List, [], ◌∷◌, ◌++◌, Option, none, some, inl, inr, ◌⊎◌,
  Bool, true, false, append_assoc,
}
use simple_commit_log.Errors.{Error, Result, ok, err, panic}
use simple_commit_log.Exec.{continue}
use simple_commit_log.Names.{same_name}
use simple_commit_log.Slice.{items}
use simple_commit_log.Records.Batch.{Batch}
use simple_commit_log.Records.File.{write, then_put, encode_header, header_of, indexes_from}
use simple_commit_log.Records.Bytes.{put_u32s}
use simple_commit_log.Records.File.RoundTrip.{file_of}
use simple_commit_log.Topic.Files.{Key, Stream, Files, handle_writer, after_put}
use simple_commit_log.Topic.Add.{
  store_batch, write_batch, write_plain, cache_batch, cache_writer, closed_copy, written_copy,
  written_to,
}

module _ {S A : Type 0} (Fails : Type 0) (P : S → A → Type 0) where
  -- What holds behind a call that succeeds, and whether it may fail.
  abbrev pub Outcome : S × Result A → Type 0
  Outcome (s, ok a) = P s a
  Outcome (s, err e) = Fails
  Outcome (s, panic) = Fails

-- A store keeps under each key what a writer for the key was given before its Close, a call for one
-- key leaves the files under the others alone, and a file that is there can be read to its end: for
-- keys that name a file of their own. Of the writing calls, none fails if `Fails` is empty.
pub record StoreLaws {S H : Type 0} (io : Files S H) (Fails : Type 0) : Type 1 where
  pub IsKey : Key → Type 0
  pub view : S → Key → Option (List ℕ)
  pub IsOpen : S → H → Key → List ℕ → Type 0
  pub create_lem :
      (key : Key) (s : S) → IsKey key → Outcome Fails (λ s' h. IsOpen s' h key []) (io.create key s)
  pub put_lem :
      (key : Key) (s : S) (h : H) (bs xs : List ℕ)
      → IsOpen s h key bs
      → Outcome Fails (λ s' h'. IsOpen s' h' key (bs ++ xs)) (io.put h xs s)
  pub close_lem :
      (key : Key) (s : S) (h : H) (bs : List ℕ)
      → IsOpen s h key bs
      → Outcome Fails (λ s' _. view s' key ≡ some bs) (io.close h s)
  pub create_others :
      (key k : Key) (s : S)
      → IsKey key
      → IsKey k
      → same_name k key ≡ false
      → view (io.create key s).0 k ≡ view s k
  pub put_others :
      (key k : Key) (s : S) (h : H) (bs xs : List ℕ)
      → IsOpen s h key bs
      → IsKey key
      → IsKey k
      → same_name k key ≡ false
      → view (io.put h xs s).0 k ≡ view s k
  pub close_others :
      (key k : Key) (s : S) (h : H) (bs : List ℕ)
      → IsOpen s h key bs
      → IsKey key
      → IsKey k
      → same_name k key ≡ false
      → view (io.close h s).0 k ≡ view s k
  pub reader_lem :
      (key : Key) (s : S) (bs : List ℕ)
      → IsKey key
      → view s key ≡ some bs
      → (s' : S) × (io.reader key s ≡ (s', ok (record { bytes = bs; failed = none })))
        × ((k : Key) → view s' k ≡ view s k)
  pub reader_missing :
      (key : Key) (s : S)
      → IsKey key
      → view s key ≡ none
      → (s' : S) × (e : Error) × (io.reader key s ≡ (s', err e))
        × ((k : Key) → view s' k ≡ view s k)
  pub close_reader_lem :
      (key : Key) (s : S)
      → (s' : S) × (io.close_reader key s ≡ (s', ok tt)) × ((k : Key) → view s' k ≡ view s k)

module _ {S H : Type 0} (io : Files S H) {Fails : Type 0} (laws : StoreLaws io Fails) (key : Key)
    (is_key : laws.IsKey key) (s₀ : S) where
  -- The files under the other keys are those of the first state.
  abbrev pub Others : S → Type 0
  Others s = (k : Key) → laws.IsKey k → same_name k key ≡ false → laws.view s k ≡ laws.view s₀ k

  abbrev Wrote : List ℕ → (S × H) × Result (Unit {0}) → Type 0
  Wrote bs o = Others o.0.0 × Outcome Fails (λ w _. laws.IsOpen w.0 w.1 key bs) o

  abbrev pub Stored : List ℕ → S × Result (Unit {0}) → Type 0
  Stored bs o = Others o.0 × Outcome Fails (λ s _. laws.view s key ≡ some bs) o

  Wrote-put :
      (s : S) (h : H) (bs xs : List ℕ)
      → Others s
      → laws.IsOpen s h key bs
      → Wrote (bs ++ xs) (after_put h (io.put h xs s))
  Wrote-put s h bs xs others is_open =
      go (io.put h xs s) (laws.put_lem key s h bs xs is_open)
        (λ k is_k ne. laws.put_others key k s h bs xs is_open is_key is_k ne ∙ others k is_k ne)
    where
      go :
          (o : S × Result H)
          → Outcome Fails (λ s' h'. laws.IsOpen s' h' key (bs ++ xs)) o
          → Others o.0
          → Wrote (bs ++ xs) (after_put h o)
      go (s', ok h') p q = (q, p)
      go (s', err e) p q = (q, p)
      go (s', panic) p q = (q, p)

  Wrote-then_put :
      (bs bs' : List ℕ) (o : (S × H) × Result (Unit {0}))
      (next : S × H → (S × H) × Result (Unit {0}))
      → Wrote bs o
      → ((s : S) (h : H) → Others s → laws.IsOpen s h key bs → Wrote bs' (next (s, h)))
      → Wrote bs' (then_put o next)
  Wrote-then_put bs bs' ((s, h), ok u) next w more = more s h w.0 w.1
  Wrote-then_put bs bs' ((s, h), err e) next w more = w
  Wrote-then_put bs bs' ((s, h), panic) next w more = w

  write-Wrote :
      (now : ℕ) (b : Batch) (s : S) (h : H)
      → Others s
      → laws.IsOpen s h key []
      → Wrote (file_of now b) (write (handle_writer io) now (s, h) b)
  unfolding write file_of
  write-Wrote now b s h others is_open =
      Wrote-then_put head (head ++ (index ++ items b.records_data)) (handle_put (s, h) head) rest
        (Wrote-put s h [] head others is_open)
        (λ s h o i.
          Wrote-then_put (head ++ index) (head ++ (index ++ items b.records_data))
            (handle_put (s, h) index) (λ w. handle_put w (items b.records_data))
            (Wrote-put s h head index o i)
            (λ s h o i.
              subst (λ bs. Wrote bs (handle_put (s, h) (items b.records_data)))
                (append_assoc head index (items b.records_data))
                (Wrote-put s h (head ++ index) (items b.records_data) o i)))
    where
      head : List ℕ
      head = encode_header (header_of now b)

      index : List ℕ
      index = put_u32s (indexes_from 0 (items b.sizes))

      handle_put : S × H → List ℕ → (S × H) × Result (Unit {0})
      handle_put w bs = after_put w.1 (io.put w.1 bs w.0)

      rest : S × H → (S × H) × Result (Unit {0})
      rest w = then_put (handle_put w index) (λ w. handle_put w (items b.records_data))

  close-Stored :
      (s : S) (h : H) (bs : List ℕ) → Others s → laws.IsOpen s h key bs → Stored bs (io.close h s)
  close-Stored s h bs others is_open = (
    λ k is_k ne. laws.close_others key k s h bs is_open is_key is_k ne ∙ others k is_k ne,
    laws.close_lem key s h bs is_open,
  )

  written-Stored :
      (bs : List ℕ) (o : (S × H) × Result (Unit {0}))
      → Wrote bs o
      → Stored bs (continue (written_to io o) (λ h. io.close h))
  written-Stored bs ((s, h), ok u) w = close-Stored s h bs w.0 w.1
  written-Stored bs ((s, h), err e) w = w
  written-Stored bs ((s, h), panic) w = w

  created-Stored :
      (now : ℕ) (b : Batch) (o : S × Result H)
      → Others o.0
      → Outcome Fails (λ s h. laws.IsOpen s h key []) o
      → Stored
          (file_of now b)
          (continue o (λ h s. continue (write_plain io h now b s) (λ h'. io.close h')))
  unfolding write_plain
  created-Stored now b (s, ok h) others w =
      written-Stored (file_of now b) (write (handle_writer io) now (s, h) b)
        (write-Wrote now b s h others w)
  created-Stored now b (s, err e) others w = (others, w)
  created-Stored now b (s, panic) others w = (others, w)

  -- AddRecords' file in the backing storage, where nothing compresses.
  pub store_batch-Stored :
      (now : ℕ) (b : Batch) → Stored (file_of now b) (store_batch io none key now b s₀)
  unfolding store_batch write_batch
  store_batch-Stored now b =
      created-Stored now b (io.create key s₀)
        (λ k is_k ne. laws.create_others key k s₀ is_key is_k ne) (laws.create_lem key s₀ is_key)

  -- The store has the bytes under the key, unless a call failed.
  abbrev pub Copied : List ℕ → S × Result Bool → Type 0
  Copied bs o = Fails ⊎ (Others o.0 × (laws.view o.0 key ≡ some bs))

  closed-Copied :
      (bs : List ℕ) (o : S × Result (Unit {0})) → Stored bs o → Copied bs (closed_copy io o)
  closed-Copied bs (s, ok u) w = inr w
  closed-Copied bs (s, err e) w = inl w.1
  closed-Copied bs (s, panic) w = inl w.1

  written-Copied :
      (bs : List ℕ) (o : (S × H) × Result (Unit {0})) → Wrote bs o → Copied bs (written_copy io o)
  written-Copied bs ((s, h), ok u) w = closed-Copied bs (io.close h s) (close-Stored s h bs w.0 w.1)
  written-Copied bs ((s, h), err e) w = inl w.1
  written-Copied bs ((s, h), panic) w = inl w.1

  created-Copied :
      (now : ℕ) (b : Batch) (o : S × Result H)
      → Others o.0
      → Outcome Fails (λ s h. laws.IsOpen s h key []) o
      → Copied (file_of now b) (cache_writer io key now b o)
  created-Copied now b (s, ok h) others w =
      written-Copied (file_of now b) (write (handle_writer io) now (s, h) b)
        (write-Wrote now b s h others w)
  created-Copied now b (s, err e) others w = inl w
  created-Copied now b (s, panic) others w = inl w

  -- AddRecords' copy in the cache.
  pub cache_batch-Copied :
      (now : ℕ) (b : Batch) → Copied (file_of now b) (cache_batch io key now b s₀)
  unfolding cache_batch
  cache_batch-Copied now b =
      created-Copied now b (io.create key s₀)
        (λ k is_k ne. laws.create_others key k s₀ is_key is_k ne) (laws.create_lem key s₀ is_key)
