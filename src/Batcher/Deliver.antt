-- ===== src/Batcher/Deliver.antt =====
-- What `collectBatches` persists, and what the callers get back.
use simple_commit_log.Base.{
  ℕ, ◌+◌, ◌-◌, ◌≤◌, ◌≡◌, refl, sym, ap, ap₂, ◌∙◌, List, [], ◌∷◌, ◌++◌, map, length, take, drop,
  total, Option, none, some, append_assoc, append-nil, All, replicate, length-append,
  length-replicate, drop-drop, take_add, arith,
}
use simple_commit_log.Errors.{Error, ok, err}
use simple_commit_log.Exec.{Exec}
use simple_commit_log.Slice.{Slice, items, IsWf, of_list, append}
use simple_commit_log.Slice.Laws.{
  reslice_lem, reslice-items, items-append, append-IsWf, length-items,
}
use simple_commit_log.Records.Batch.{Batch, batch_len, new_batch}
use simple_commit_log.Batcher.{
  BlockedAdd, AddResponse, Building, collect, make, merged, deliver, persist_batch,
}
use mathlib.Core.List.{flatten}

-- How many records the callers wait for.
abbrev pub lens : List BlockedAdd → List ℕ
lens = map (λ a. batch_len a.batch)

abbrev pub channels : List BlockedAdd → List ℕ
channels = map (λ a. a.response)

collect-items :
    (adds : List BlockedAdd) (s : Slice ℕ × Slice ℕ)
    → (items (collect adds s).0 ≡ items s.0 ++ flatten (map (λ a. items a.batch.records_data) adds))
      × (items (collect adds s).1 ≡ items s.1 ++ flatten (map (λ a. items a.batch.sizes) adds))
unfolding collect flatten
collect-items [] s = (sym (append-nil (items s.0)), sym (append-nil (items s.1)))
collect-items (a ∷ adds) s =
    let (on_data, on_sizes) =
      collect-items adds
        (append s.0 (items a.batch.records_data), append s.1 (items a.batch.sizes)) in
    (
      on_data
          ∙ ap (λ xs. xs ++ flatten (map (λ a. items a.batch.records_data) adds))
              (items-append s.0 _)
          ∙ append_assoc (items s.0) _ _,
      on_sizes
          ∙ ap (λ xs. xs ++ flatten (map (λ a. items a.batch.sizes) adds)) (items-append s.1 _)
          ∙ append_assoc (items s.1) _ _,
    )

-- The responses: on the callers' channels in order, each with as many offsets as its batch has
-- records, all with the same error, and put together the offsets from `i` on.
pub record Answers (offsets : Slice ℕ) (error : Option Error) (i : ℕ) (adds : List BlockedAdd)
    (rs : List AddResponse) : Type 0 where
  pub in_order : map (λ r. r.response) rs ≡ channels adds
  pub complete : map (λ r. r.offsets.len) rs ≡ lens adds
  pub errors : map (λ r. r.error) rs ≡ map (λ a. error) adds
  pub content :
      flatten (map (λ r. items r.offsets) rs) ≡ take (total (lens adds)) (drop i (items offsets))

pub deliver-Answers :
    (offsets : Slice ℕ) (error : Option Error) (adds : List BlockedAdd) (i : ℕ)
    → IsWf offsets
    → i + total (lens adds) ≤ offsets.len
    → (rs : List AddResponse) × (deliver offsets error i adds ≡ ok rs)
      × Answers offsets error i adds rs
unfolding deliver flatten
deliver-Answers offsets error [] i wf fits =
    ([], refl, record { in_order = refl; complete = refl; errors = refl; content = refl })
deliver-Answers offsets error (a ∷ adds) i wf fits =
    let n = batch_len a.batch in
    let part : Slice ℕ = record { array = drop i offsets.array; len = i + n - i } in
    let (rs, e, v) = deliver-Answers offsets error adds (i + n) wf (omega arith) in
    (
      record { response = a.response; offsets = part; error = error } ∷ rs,
      rw (reslice_lem offsets i (i + n) (omega arith) (omega arith), e) refl,
      record {
        in_order = ap (◌∷◌ a.response) v.in_order;
        complete = ap₂ ◌∷◌ (omega arith) v.complete;
        errors = ap (◌∷◌ error) v.errors;
        content =
            ap₂ ◌++◌ (reslice-items offsets i (i + n) (omega arith) (omega arith)) v.content
            ∙ ap₂ ◌++◌
                (ap (λ m. take m (drop i (items offsets))) {x = i + n - i} {y = n} (omega arith))
                (ap (take (total (lens adds))) (sym (drop-drop n i (items offsets))))
            ∙ sym (take_add n (total (lens adds)) (drop i (items offsets)));
      },
    )

-- The callers' batches are slices.
abbrev pub AreWf : List BlockedAdd → Type 0
AreWf = All (λ a. IsWf a.batch.sizes)

collect-IsWf : (adds : List BlockedAdd) (s : Slice ℕ × Slice ℕ) → IsWf s.1 → IsWf (collect adds s).1
unfolding collect
collect-IsWf [] s wf = wf
collect-IsWf (a ∷ adds) s wf =
    collect-IsWf adds (append s.0 (items a.batch.records_data), append s.1 (items a.batch.sizes))
      (append-IsWf s.1 (items a.batch.sizes) wf)

length-sizes :
    (adds : List BlockedAdd)
    → AreWf adds
    → length (flatten (map (λ a. items a.batch.sizes) adds)) ≡ total (lens adds)
unfolding flatten
length-sizes [] wf = refl
length-sizes (a ∷ adds) wf =
    length-append (items a.batch.sizes) (flatten (map (λ a. items a.batch.sizes) adds))
    ∙ ap₂ ◌+◌ (length-items a.batch.sizes wf.0) (length-sizes adds wf.1)

-- The batch that is persisted has the callers' bytes and sizes in the order of their calls.
pub merged_lem :
    (b : Building)
    → (items (merged b).records_data
        ≡ flatten (map (λ a. items a.batch.records_data) b.blocked_callers))
      × (items (merged b).sizes ≡ flatten (map (λ a. items a.batch.sizes) b.blocked_callers))
unfolding merged new_batch
merged_lem b = collect-items b.blocked_callers (make b.batch_bytes, make b.batch_records)

pub batch_len-merged :
    (b : Building) → AreWf b.blocked_callers → batch_len (merged b) ≡ total (lens b.blocked_callers)
unfolding merged new_batch
batch_len-merged b wf =
    let sizes = (collect b.blocked_callers (make b.batch_bytes, make b.batch_records)).1 in
    sym (length-items sizes (collect-IsWf b.blocked_callers _ (omega arith)))
    ∙ ap length (collect-items b.blocked_callers (make b.batch_bytes, make b.batch_records)).1
    ∙ length-sizes b.blocked_callers wf

module _ {P : Type 0} (persist : Batch → Exec P (Slice ℕ)) (b : Building)
    (wf : AreWf b.blocked_callers) where
  -- Where the records are persisted and got an offset each, every caller is answered without an
  -- error, in the order of the calls, with as many offsets as it has records, and put together
  -- these are all the offsets in order.
  pub persist_batch_ok :
      {p p' : P} {offsets : Slice ℕ}
      → persist (merged b) p ≡ (p', ok offsets)
      → IsWf offsets
      → offsets.len ≡ batch_len (merged b)
      → (rs : List AddResponse) × (persist_batch persist b p ≡ (p', ok rs))
        × Answers offsets none 0 b.blocked_callers rs
  unfolding persist_batch
  persist_batch_ok {p} {p'} {offsets} h wf' same =
      let (rs, e, v) =
        deliver-Answers offsets none b.blocked_callers 0 wf'
          (omega (arith, same, batch_len-merged b wf)) in
      (rs, rw h (ap (λ r. (p', r)) e), v)

  -- Where persisting fails, every caller is answered with the error, in the order of the calls, and
  -- with as many zeros as it has records.
  pub persist_batch_err :
      {p p' : P} {e : Error}
      → persist (merged b) p ≡ (p', err e)
      → (rs : List AddResponse) × (persist_batch persist b p ≡ (p', ok rs))
        × Answers (of_list (replicate (batch_len (merged b)) 0)) (some e) 0 b.blocked_callers rs
  unfolding persist_batch
  persist_batch_err {p} {p'} {e} h =
      let n = batch_len (merged b) in
      let (rs, e', v) =
        deliver-Answers (of_list (replicate n 0)) (some e) b.blocked_callers 0 (omega arith)
          (omega (arith, length-replicate {A = ℕ} n 0, batch_len-merged b wf)) in
      (rs, rw h (ap (λ r. (p', r)) e'), v)
