-- ===== src/Topic/Store/Reading.antt =====
-- ReadRecords of internal/sebtopic/topic.go, whatever it is asked for and however it ends, keeps what
-- reading one file keeps.
use simple_commit_log.Base.{
  ℕ, zero, suc, ◌≡◌, refl, ap, ◌∙◌, inl, inr, List, [], ◌∷◌, Option, Bool, true, false, Bool-cases,
  All, All-drop, Option-cases, ◌&&◌, length, drop, leb,
}
use simple_commit_log.Base.Int.{ℤ}
use simple_commit_log.Errors.{Error, Result, ok, err, panic}
use simple_commit_log.Records.Batch.{Batch, batch_len}
use simple_commit_log.Topic.State.{Topic, Config}
use simple_commit_log.Topic.Read.{
  Reading, Limits, read_records, read_loop, read_nowhere, proceed, find_batch, more_records,
  more_bytes,
}
use simple_commit_log.Topic.Log.{Serves}
use simple_commit_log.Topic.Log.Locate.{offsets}

drop-offsets : (k : ℕ) (log : List (ℕ × Batch)) → drop k (offsets log) ≡ offsets (drop k log)
drop-offsets zero log = refl
drop-offsets (suc k) [] = refl
drop-offsets (suc k) (e ∷ log) = drop-offsets k log

module _ {S H C G : Type 0} (cfg : Config S H C G) (I : Topic S C → Type 0) where
  proceed-keeps :
      (next : Reading → Topic S C → Topic S C × Reading × Result (Unit {0})) (t : Topic S C)
      (o : Reading × Result Bool)
      → I t
      → ((r : Reading) → I (next r t).0)
      → I (proceed cfg next t o).0
  proceed-keeps next t (r, ok true) i n = n r
  proceed-keeps next t (r, ok false) i n = i
  proceed-keeps next t (r, err e) i n = i
  proceed-keeps next t (r, panic) i n = i

  read_loop-keeps :
      (lim : Limits) (k : ℕ) (log : List (ℕ × Batch)) (r : Reading) (t : Topic S C)
      → All (λ e. Serves cfg I e.0 e.1) log
      → I t
      → I (read_loop cfg lim k (offsets log) r t).0
  unfolding read_loop
  read_loop-keeps lim k [] r t sv i = i
  read_loop-keeps lim k (e ∷ log) r t sv i =
      elim (Bool-cases (
        more_records lim.max_records (batch_len r.batch)
        && more_bytes lim.soft_max_bytes r.record_batch_bytes)) [
          | inr full ↦ rw full i
          | inl more ↦ elim (Option-cases (lim.ctx k)) [
            | inr ended ↦ rw (more, ended.1) i
            | inl goes_on ↦
                let (t', now, v, rf, tf, eq, i') = sv.0 t i in
                rw (more, goes_on, eq)
                  (proceed-keeps (read_loop cfg lim (suc k) (offsets log)) t' _ i'
                    (λ r'. read_loop-keeps lim (suc k) log r' t' sv.1 i'))
          ]
        ]

  read_nowhere-keeps :
      (lim : Limits) (r : Reading) (t : Topic S C) → I t → I (read_nowhere cfg lim r t).0
  unfolding read_nowhere
  read_nowhere-keeps lim r t i =
      elim (Bool-cases (
        more_records lim.max_records (batch_len r.batch)
        && more_bytes lim.soft_max_bytes r.record_batch_bytes)) [
          | inr full ↦ rw full i
          | inl more ↦ elim (Option-cases (lim.ctx 0)) [
            | inr ended ↦ rw (more, ended.1) i
            | inl goes_on ↦ rw (more, goes_on) i
          ]
        ]

  -- Whatever is asked for, and however the call ends.
  pub read_records-keeps :
      (ctx : ℕ → Option Error) (b : Batch) (offset : ℕ) (max soft : ℤ) (t : Topic S C)
      (log : List (ℕ × Batch))
      → t.record_batch_offsets ≡ offsets log
      → All (λ e. Serves cfg I e.0 e.1) log
      → I t
      → I (read_records cfg ctx b offset max soft t).0
  unfolding read_records
  read_records-keeps ctx b offset max soft t log has sv i =
      elim (Bool-cases (leb t.next_offset offset)) [
        | inl beyond ↦ rw beyond i
        | inr below ↦
            elim (Option-cases
              (find_batch (length t.record_batch_offsets) t.record_batch_offsets offset)) [
                | inl nowhere ↦ rw (below, nowhere) (read_nowhere-keeps _ _ t i)
                | inr found ↦
                    rw (below, found.1, ap (drop found.0) has ∙ drop-offsets found.0 log)
                      (read_loop-keeps _ 0 (drop found.0 log) _ t (All-drop _ found.0 log sv) i)
              ]
      ]
