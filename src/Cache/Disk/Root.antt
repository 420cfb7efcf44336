-- ===== src/Cache/Disk/Root.antt =====
-- The check of a key against the root directory in internal/sebcache/diskstorage.go.
use simple_commit_log.Base.{ℕ, ◌≡◌, refl, List, ◌∷◌, inl, inr, false, ◌==◌, arith}
use simple_commit_log.Errors.{Result, ok, err, panic, unauthorized, Result-cases}
use simple_commit_log.Exec.{Exec, continue}
use simple_commit_log.Names.{same_name}
use simple_commit_log.Topic.Files.{Key}
use simple_commit_log.Topic.Memory.{has_prefix}
use simple_commit_log.Os.{FileSystem}
use simple_commit_log.Cache.Disk.{DiskCache, cache_path, disk_writer, disk_reader, disk_remove}
use simple_commit_log.Cache.Disk.Atomic.{save}

module _ {O F : Type 0} (os : FileSystem O F) (c : DiskCache) where
  -- The call changed nothing and returned no value.
  abbrev pub IsRefused : {A : Type 0} → O → O × Result A → Type 0
  IsRefused {A} o r = (r.0 ≡ o) × ((a : A) → r.1 ≡ ok a → ⊥)

  module _ (x : ℕ) (root : Key) (relative : c.root_dir ≡ x ∷ root) (no_slash : (x == b'/') ≡ false)
      (absolute : (k p : Key) → os.abs k ≡ ok p → (q : Key) × (p ≡ b'/' ∷ q)) where
    outside : (p q : Key) → p ≡ b'/' ∷ q → has_prefix p c.root_dir ≡ false
    unfolding same_name
    outside p q e = rw (e, relative) (ground (arith, no_slash))

    cache_path-refused : (key path : Key) → cache_path os c key ≡ ok path → ⊥
    unfolding cache_path
    cache_path-refused key path h = elim (Result-cases (os.abs (os.join c.root_dir key))) [
      | inl (p, e) ↦
          let (q, at) = absolute (os.join c.root_dir key) p e in
          let h' : err unauthorized ≡ ok path = rw (e, outside p q at) at h in cc h'
      | inr (inl (y, e)) ↦ let h' : err y ≡ ok path = rw e at h in cc h'
      | inr (inr e) ↦ let h' : panic ≡ ok path = rw e at h in cc h'
    ]

    refused :
        {A : Type 0} (o : O) (r : Result Key) (next : Key → Exec O A)
        → ((path : Key) → r ≡ ok path → ⊥)
        → IsRefused o (continue (o, r) next)
    refused o (ok path) next never = absurd (never path refl)
    refused o (err e) next never = (refl, λ a h. cc h)
    refused o panic next never = (refl, λ a h. cc h)

    refused-continue :
        {A B : Type 0} (o : O) (r : O × Result A) (next : A → Exec O B)
        → IsRefused o r
        → IsRefused o (continue r next)
    refused-continue o (o', ok a) next (same, never) = absurd (never a refl)
    refused-continue o (o', err e) next (same, never) = (same, λ a h. cc h)
    refused-continue o (o', panic) next (same, never) = (same, λ a h. cc h)

    -- Where the root directory does not begin with a slash, and absolute paths do: no key can be saved,
    -- read or removed, and the files stay as they are.
    pub save-refused :
        (key : Key) (bss : List (List ℕ)) (o : O)
        → IsRefused o (save os c key bss o)
          × IsRefused o (disk_reader os c key o)
          × IsRefused o (disk_remove os c key o)
    unfolding disk_writer disk_reader disk_remove
    save-refused key bss o = (
      refused-continue o _ _
          (refused-continue o _ _ (refused o (cache_path os c key) _ (cache_path-refused key))),
      refused o (cache_path os c key) _ (cache_path-refused key),
      refused o (cache_path os c key) _ (cache_path-refused key),
    )
