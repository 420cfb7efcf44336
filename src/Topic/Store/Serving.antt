-- ===== src/Topic/Store/Serving.antt =====
-- `parseRecordBatch` of internal/sebtopic/topic.go on stores that keep their laws.
use simple_commit_log.Base.{
  ℕ, ◌+◌, ◌^◌, ◌<◌, ◌≡◌, refl, sym, ap, subst, ◌∙◌, inl, inr, ◌⊎◌, List, [], Option, none, some,
  false, Bool-cases,
}
use simple_commit_log.Errors.{Result, ok, err, panic}
use simple_commit_log.Names.{same_name, same_name-eq}
use simple_commit_log.Records.Batch.{Batch, IsBatch, batch_len}
use simple_commit_log.Records.File.RoundTrip.{file_of, parsed, parse-file_of}
use simple_commit_log.Topic.Files.{Key}
use simple_commit_log.Topic.Paths.{record_batch_key}
use simple_commit_log.Topic.State.{Topic, Config}
use simple_commit_log.Topic.Read.{parse_record_batch, cached_or_fetched, fetch}
use simple_commit_log.Topic.Store.{StoreLaws, Outcome}
use simple_commit_log.Topic.Log.{IsStored}

-- A call that cannot fail.
pub succeeds :
    {S A : Type 0} (P : S → A → Type 0) (o : S × Result A)
    → Outcome ⊥ P o
    → (s : S) × (a : A) × (o ≡ (s, ok a)) × P s a
succeeds P (s, ok a) p = (s, a, refl, p)
succeeds P (s, err e) p = absurd p
succeeds P (s, panic) p = absurd p

module _ {S H C G : Type 0} (cfg : Config S H C G) {F : Type 0}
    (backing : StoreLaws cfg.backing_storage.files F) (cache : StoreLaws cfg.cache ⊥) where
  abbrev pub key : ℕ → Key
  key o = record_batch_key cfg.topic_name o

  -- The keys of the topic name files of their own in both stores.
  abbrev pub Named : Type 0
  Named = (o : ℕ) → backing.IsKey (key o) × cache.IsKey (key o)

  -- A store has a file of the batch under a key.
  abbrev pub HasFile : Option (List ℕ) → Batch → Type 0
  HasFile found b = (now : ℕ) × (now < 2 ^ 64) × (found ≡ some (file_of now b))

  -- The batch with this offset is in the backing storage, and in the cache if anything is there.
  pub record IsHeld (t : Topic S C) (o : ℕ) (b : Batch) : Type 0 where
    pub stored : HasFile (backing.view t.backing (key o)) b
    pub copied : (cache.view t.cached (key o) ≡ none) ⊎ HasFile (cache.view t.cached (key o)) b

  IsHeld-same :
      (t t' : Topic S C) (o : ℕ) (b : Batch)
      → ((k : Key) → backing.view t'.backing k ≡ backing.view t.backing k)
      → ((k : Key) → cache.view t'.cached k ≡ cache.view t.cached k)
      → IsHeld t o b
      → IsHeld t' o b
  IsHeld-same t t' o b same_backing same_cache held = record {
    stored = subst (λ x. HasFile x b) (sym (same_backing (key o))) held.stored;
    copied = subst (λ x. (x ≡ none) ⊎ HasFile x b) (sym (same_cache (key o))) held.copied;
  }

  abbrev Served : Topic S C → ℕ → Batch → Type 0
  Served t o b =
      (t' : Topic S C) × (now : ℕ) × (v : IsBatch b) × (r : batch_len b + 1 < 2 ^ 32) × (f : now
        < 2 ^ 64)
      × (parse_record_batch cfg o t ≡ (t', ok (parsed now b v r f)))
      × ((o' : ℕ) (b' : Batch) → IsHeld t o' b' → IsHeld t' o' b')
      × (t' ≡ record t { backing = t'.backing; cached = t'.cached })

  module _ (named : Named) (t : Topic S C) (o : ℕ) (b : Batch) (st : IsStored b)
      (held : IsHeld t o b) where
    hit : HasFile (cache.view t.cached (key o)) b → Served t o b
    unfolding parse_record_batch cached_or_fetched
    hit (now, time_fits, at) =
        let (s', e, same) = cache.reader_lem (key o) t.cached (file_of now b) (named o).1 at in
        (
          record t { cached = s' },
          now,
          st.valid,
          st.records_fit,
          time_fits,
          rw (e, parse-file_of now b st.valid st.records_fit time_fits) refl,
          λ o' b' h. IsHeld-same t (record t { cached = s' }) o' b' (λ k. refl) same h,
          refl,
        )

    -- The copy of the file into the cache.
    copy :
        (s : C) (bs : List ℕ)
        → (h h' : G) × (s₁ s₂ s₃ s₄ : C) × (cfg.cache.create (key o) s ≡ (s₁, ok h))
          × (cfg.cache.put h bs s₁ ≡ (s₂, ok h'))
          × (cfg.cache.close h' s₂ ≡ (s₃, ok tt))
          × (cfg.cache.reader (key o) s₃ ≡ (s₄, ok (record { bytes = bs; failed = none })))
          × (cache.view s₄ (key o) ≡ some bs)
          × ((k : Key)
              → cache.IsKey k
              → same_name k (key o) ≡ false
              → cache.view s₄ k ≡ cache.view s k)
    copy s bs =
        let (s₁, h, e₁, p₁) =
          succeeds (λ s h. cache.IsOpen s h (key o) []) (cfg.cache.create (key o) s)
            (cache.create_lem (key o) s (named o).1) in
        let (s₂, h', e₂, p₂) =
          succeeds (λ s h. cache.IsOpen s h (key o) bs) (cfg.cache.put h bs s₁)
            (cache.put_lem (key o) s₁ h [] bs p₁) in
        let (s₃, u, e₃, p₃) =
          succeeds (λ s _. cache.view s (key o) ≡ some bs) (cfg.cache.close h' s₂)
            (cache.close_lem (key o) s₂ h' bs p₂) in
        let (s₄, e₄, same) = cache.reader_lem (key o) s₃ bs (named o).1 p₃ in
        (
          h,
          h',
          s₁,
          s₂,
          s₃,
          s₄,
          e₁,
          e₂,
          e₃,
          e₄,
          same (key o) ∙ p₃,
          λ k is_k ne.
              same k
              ∙ ap (λ x. cache.view x.0 k) (sym e₃)
              ∙ cache.close_others (key o) k s₂ h' bs p₂ (named o).1 is_k ne
              ∙ ap (λ x. cache.view x.0 k) (sym e₂)
              ∙ cache.put_others (key o) k s₁ h [] bs p₁ (named o).1 is_k ne
              ∙ ap (λ x. cache.view x.0 k) (sym e₁)
              ∙ cache.create_others (key o) k s (named o).1 is_k ne,
        )

    -- Any batch that was held is held where the file under the key of this one is now in the cache.
    IsHeld-copied :
        (t' : Topic S C) (now : ℕ) (o' : ℕ) (b' : Batch)
        → ((k : Key) → backing.view t'.backing k ≡ backing.view t.backing k)
        → backing.view t.backing (key o) ≡ some (file_of now b)
        → cache.view t'.cached (key o) ≡ some (file_of now b)
        → ((k : Key)
            → cache.IsKey k
            → same_name k (key o) ≡ false
            → cache.view t'.cached k ≡ cache.view t.cached k)
        → IsHeld t o' b'
        → IsHeld t' o' b'
    IsHeld-copied t' now o' b' same_backing from to others h = record {
      stored = subst (λ x. HasFile x b') (sym (same_backing (key o'))) h.stored;
      copied = elim (Bool-cases (same_name (key o') (key o))) [
        | inl same ↦
            let keys = same_name-eq (key o') (key o) same in
            inr (
              subst (λ x. HasFile x b')
                (ap (backing.view t.backing) keys
                  ∙ from
                  ∙ sym to
                  ∙ ap (cache.view t'.cached) (sym keys))
                h.stored)
        | inr other ↦
            subst (λ x. (x ≡ none) ⊎ HasFile x b') (sym (others (key o') (named o').1 other))
              h.copied
      ];
    }

    miss : cfg.compression ≡ none → cache.view t.cached (key o) ≡ none → Served t o b
    unfolding parse_record_batch cached_or_fetched fetch
    miss plain absent =
        let (now, time_fits, at) = held.stored in
        let (s₀, failure, e₀, same₀) = cache.reader_missing (key o) t.cached (named o).1 absent in
        let (b₁, f₁, same₁) = backing.reader_lem (key o) t.backing (file_of now b) (named o).0 at in
        let (h, h', s₁, s₂, s₃, s₄, e₁, e₂, e₃, e₄, there, others) = copy s₀ (file_of now b) in
        let (b₂, f₂, same₂) = backing.close_reader_lem (key o) b₁ in
        let t' : Topic S C = record t { backing = b₂; cached = s₄ } in
        (
          t',
          now,
          st.valid,
          st.records_fit,
          time_fits,
          rw
              (
                e₀,
                f₁,
                plain,
                e₁,
                e₂,
                e₃,
                f₂,
                e₄,
                parse-file_of now b st.valid st.records_fit time_fits,
              )
              refl,
          λ o' b' hold.
              IsHeld-copied t' now o' b' (λ k. same₂ k ∙ same₁ k) at there
                (λ k is_k ne. others k is_k ne ∙ same₀ k) hold,
          refl,
        )

    pub serve : cfg.compression ≡ none → Served t o b
    serve plain = elim held.copied [ inl absent ↦ miss plain absent | inr found ↦ hit found ]
