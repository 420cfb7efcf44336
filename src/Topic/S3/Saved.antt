-- ===== src/Topic/S3/Saved.antt =====
-- What a file that was written through internal/sebtopic/s3storage.go reads back as, from what the
-- documentation of S3 and of the operating system's files says.
use simple_commit_log.Base.{
  ℕ, ◌≡◌, refl, sym, subst, List, [], ◌∷◌, ◌++◌, append_assoc, append-nil, ◌⊎◌, inl, inr, Option,
  none, some, true, false, Bool-cases,
}
use mathlib.Core.Option.{some_inj}
use simple_commit_log.Errors.{Result, ok, err, panic, not_in_storage}
use simple_commit_log.Exec.{Exec, pure, continue, ◌>>=◌, ◌>>◌}
use simple_commit_log.Names.{same_name}
use simple_commit_log.Topic.Files.{Key, Stream}
use simple_commit_log.Topic.Paths.{codes}
use simple_commit_log.Topic.Store.{Outcome}
use simple_commit_log.Topic.S3.{
  TempFiles, S3Api, S3Storage, S3WriteCloser, in_temp, in_s3, on_temp, upload, s3_writer, s3_write,
  s3_close, s3_reader, fetched,
}

-- A call may fail; `P` holds behind one that does not.
abbrev pub Succeeding : {S A : Type 0} → (S → A → Type 0) → S × Result A → Type 0
Succeeding P o = Outcome (Unit {0}) P o

-- What GetObject answers for an object: a body that has its bytes unless it breaks off, and the
-- code NoSuchKey only where there is no object.
abbrev pub Answers : Option (List ℕ) → Stream ⊎ Option Key → Type 0
Answers object (inl body) = body.failed ≡ none → object ≡ some body.bytes
Answers object (inr none) = Unit {0}
Answers object (inr (some code)) = same_name code (codes "NoSuchKey") ≡ true → object ≡ none

-- S3 keeps an object under its key, and leaves the others alone.
pub record S3Laws {A P : Type 0} (s3 : S3Api A P) : Type 1 where
  pub stored : A → Key → Key → Option (List ℕ)
  pub put_object_lem :
      (bucket key : Key) (bs : List ℕ) (a : A)
      → Succeeding (λ a' _. stored a' bucket key ≡ some bs) (s3.put_object bucket key bs a)
  pub put_object_others :
      (bucket key k : Key) (bs : List ℕ) (a : A)
      → same_name k key ≡ false
      → stored (s3.put_object bucket key bs a).0 bucket k ≡ stored a bucket k
  pub get_object_lem :
      (bucket key : Key) (a : A) → Answers (stored a bucket key) (s3.get_object bucket key a).1

-- A new temporary file is empty, writes add to its end, and it is read from its start behind a seek
-- to there.
pub record TempLaws {T F : Type 0} (os : TempFiles T F) : Type 1 where
  pub Holds : T → F → List ℕ → Type 0
  pub create_temp_lem : (t : T) → Succeeding (λ t' f. Holds t' f []) (os.create_temp t)
  pub write_temp_lem :
      (t : T) (f : F) (bs xs : List ℕ)
      → Holds t f bs
      → Succeeding (λ t' _. Holds t' f (bs ++ xs)) (os.write_temp f xs t)
  pub seek_to_start_lem :
      (t : T) (f : F) (bs : List ℕ)
      → Holds t f bs
      → Succeeding (λ t' _. os.rest_of t' f ≡ bs) (os.seek_to_start f t)

abbrev pub joined : List (List ℕ) → List ℕ
joined [] = []
joined (bs ∷ bss) = bs ++ joined bss

module _ {A P T F : Type 0} (path_join : Key → Key → Key) (s3 : S3Api A P) (os : TempFiles T F)
    (ss : S3Storage) where
  -- A caller's writes, one after the other.
  abbrev pub write_all : S3WriteCloser F → List (List ℕ) → Exec (A × T) (S3WriteCloser F)
  write_all wc [] = pure wc
  write_all wc (bs ∷ bss) = s3_write path_join s3 os ss wc bs >>= λ wc'. write_all wc' bss

  -- A file as a caller saves it: `Writer`, the writes, and `Close`.
  abbrev pub save : Key → List (List ℕ) → Exec (A × T) (Unit {0})
  save key bss = (s3_writer path_join s3 os ss key >>= λ wc. write_all wc bss) >>= λ wc.
      s3_close path_join s3 os ss wc

  module _ (bucket : S3Laws s3) (temp : TempLaws os) (key : Key) where
    abbrev pub object_path : Key
    object_path = path_join ss.s3_key_prefix key

    -- The objects under other keys are those of before.
    abbrev pub Spared : A → A → Type 0
    Spared a a' =
        (k : Key)
        → same_name k object_path ≡ false
        → bucket.stored a' ss.bucket_name k ≡ bucket.stored a ss.bucket_name k

    -- A reader that was opened yields the bytes, unless its body breaks off; an error is not the one of
    -- a missing file.
    abbrev pub ReadsBack : List ℕ → (A × T) × Result Stream → Type 0
    ReadsBack bs (s, ok body) = body.failed ≡ none → body.bytes ≡ bs
    ReadsBack bs (s, err e) = e ≡ not_in_storage → ⊥
    ReadsBack bs (s, panic) = ⊥

    abbrev pub IsSaved : A → List ℕ → (A × T) × Result (Unit {0}) → Type 0
    IsSaved a bs o =
        Spared a o.0.0 × Succeeding (λ s _. ReadsBack bs (s3_reader path_join s3 os ss key s)) o

    fetched-ReadsBack :
        (t : T) (bs : List ℕ) (o : A × (Stream ⊎ Option Key))
        → Answers (some bs) o.1
        → ReadsBack bs (fetched path_join s3 os ss t o)
    fetched-ReadsBack t bs (a, inl body) h = λ whole. sym (some_inj.0 (h whole))
    fetched-ReadsBack t bs (a, inr none) h = λ e. cc
    fetched-ReadsBack t bs (a, inr (some code)) h =
        elim (Bool-cases (same_name code (codes "NoSuchKey"))) [
          | inl missing ↦ absurd (cc (h missing))
          | inr other_code ↦ rw other_code (λ e. cc)
        ]

    closed-IsSaved :
        (bs : List ℕ) (a a' : A) (o : T × Result (Unit {0}))
        → Spared a a'
        → bucket.stored a' ss.bucket_name object_path ≡ some bs
        → IsSaved a bs (in_temp path_join s3 os ss a' o)
    unfolding s3_reader
    closed-IsSaved bs a a' (t, ok u) spared e = (
      spared,
      fetched-ReadsBack t bs (s3.get_object ss.bucket_name object_path a') (
          subst (λ x. Answers x (s3.get_object ss.bucket_name object_path a').1) e
            (bucket.get_object_lem ss.bucket_name object_path a')),
    )
    closed-IsSaved bs a a' (t, err x) spared e = (spared, tt)
    closed-IsSaved bs a a' (t, panic) spared e = (spared, tt)

    uploaded-IsSaved :
        (f : F) (bs : List ℕ) (a : A) (t : T) (o : A × Result (Unit {0}))
        → Spared a o.0
        → Succeeding (λ a' _. bucket.stored a' ss.bucket_name object_path ≡ some bs) o
        → IsSaved a bs (
            continue
              (in_s3 path_join s3 os ss t o)
              (λ _. on_temp path_join s3 os ss (os.close_temp f)))
    uploaded-IsSaved f bs a t (a', ok u) spared e =
        closed-IsSaved bs a a' (os.close_temp f t) spared e
    uploaded-IsSaved f bs a t (a', err x) spared e = (spared, tt)
    uploaded-IsSaved f bs a t (a', panic) spared e = (spared, tt)

    sought-IsSaved :
        (wc : S3WriteCloser F) (bs : List ℕ) (a : A) (o : T × Result (Unit {0}))
        → wc.object_key ≡ object_path
        → Succeeding (λ t _. os.rest_of t wc.f ≡ bs) o
        → IsSaved a bs (
            continue (in_temp path_join s3 os ss a o) (λ _.
              upload path_join s3 os ss wc >> on_temp path_join s3 os ss (os.close_temp wc.f)))
    sought-IsSaved wc bs a (t, ok u) at e =
        uploaded-IsSaved wc.f bs a t
          (s3.put_object ss.bucket_name wc.object_key (os.rest_of t wc.f) a)
          (subst
            (λ path.
              (k : Key)
              → same_name k path ≡ false
              → (bucket.stored (s3.put_object ss.bucket_name wc.object_key (os.rest_of t wc.f) a).0
                    ss.bucket_name k
                  ≡ bucket.stored a ss.bucket_name k))
            at
            (λ k ne.
              bucket.put_object_others ss.bucket_name wc.object_key k (os.rest_of t wc.f) a ne))
          (subst
            (λ path.
              Succeeding (λ a' _. bucket.stored a' ss.bucket_name path ≡ some bs)
                (s3.put_object ss.bucket_name wc.object_key (os.rest_of t wc.f) a))
            at
            (subst
              (λ xs.
                Succeeding (λ a' _. bucket.stored a' ss.bucket_name wc.object_key ≡ some xs)
                  (s3.put_object ss.bucket_name wc.object_key (os.rest_of t wc.f) a))
              e (bucket.put_object_lem ss.bucket_name wc.object_key (os.rest_of t wc.f) a)))
    sought-IsSaved wc bs a (t, err x) at e = (λ k ne. refl, tt)
    sought-IsSaved wc bs a (t, panic) at e = (λ k ne. refl, tt)

    s3_close-IsSaved :
        (wc : S3WriteCloser F) (bs : List ℕ) (a : A) (t : T)
        → wc.object_key ≡ object_path
        → temp.Holds t wc.f bs
        → IsSaved a bs (s3_close path_join s3 os ss wc (a, t))
    unfolding s3_close
    s3_close-IsSaved wc bs a t at holds =
        sought-IsSaved wc bs a (os.seek_to_start wc.f t) at (temp.seek_to_start_lem t wc.f bs holds)

    -- The remaining writes behind a call on the temporary file, which leaves S3 alone if it fails.
    on_temp-IsSaved :
        {X : Type 0} (bs : List ℕ) (a : A) (R : T → X → Type 0) (o : T × Result X)
        (wc_of : X → S3WriteCloser F) (bss : List (List ℕ))
        → Succeeding R o
        → ((t : T) (x : X)
            → R t x
            → IsSaved a bs
                (continue (write_all (wc_of x) bss (a, t)) (λ wc. s3_close path_join s3 os ss wc)))
        → IsSaved a bs (
            continue
              (continue
                (continue (in_temp path_join s3 os ss a o) (λ x. pure (wc_of x)))
                (λ wc. write_all wc bss))
              (λ wc. s3_close path_join s3 os ss wc))
    on_temp-IsSaved bs a R (t, ok x) wc_of bss r h = h t x r
    on_temp-IsSaved bs a R (t, err e) wc_of bss r h = (λ k ne. refl, tt)
    on_temp-IsSaved bs a R (t, panic) wc_of bss r h = (λ k ne. refl, tt)

    write_all-IsSaved :
        (bss : List (List ℕ)) (wc : S3WriteCloser F) (bs : List ℕ) (a : A) (t : T)
        → wc.object_key ≡ object_path
        → temp.Holds t wc.f bs
        → IsSaved a
            (bs ++ joined bss)
            (continue (write_all wc bss (a, t)) (λ wc'. s3_close path_join s3 os ss wc'))
    unfolding s3_write
    write_all-IsSaved [] wc bs a t at holds =
        rw (append-nil bs) (s3_close-IsSaved wc bs a t at holds)
    write_all-IsSaved (xs ∷ bss) wc bs a t at holds =
        on_temp-IsSaved (bs ++ joined (xs ∷ bss)) a (λ t' _. temp.Holds t' wc.f (bs ++ xs))
          (os.write_temp wc.f xs t) (λ _. wc) bss (temp.write_temp_lem t wc.f bs xs holds)
          (λ t' _ h.
            subst
              (λ ys.
                IsSaved a ys
                  (continue (write_all wc bss (a, t')) (λ wc'. s3_close path_join s3 os ss wc')))
              (append_assoc bs xs (joined bss)) (write_all-IsSaved bss wc (bs ++ xs) a t' at h))

    -- Where S3 and the temporary files do what their documentation says: whatever fails, saving a file
    -- leaves the objects under other keys alone; and once Close returned no error, Reader yields the
    -- bytes of all the writes in their order, unless S3 fails, and never ErrNotInStorage.
    pub s3_reader-save :
        (bss : List (List ℕ)) (a : A) (t : T) → IsSaved a (joined bss) (save key bss (a, t))
    unfolding s3_writer
    s3_reader-save bss a t =
        on_temp-IsSaved (joined bss) a (λ t' f. temp.Holds t' f []) (os.create_temp t)
          (λ f. record { f = f; object_key = object_path }) bss (temp.create_temp_lem t)
          (λ t' f h. write_all-IsSaved bss _ [] a t' refl h)
