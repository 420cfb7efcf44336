-- ===== src/Cache/Evict.antt =====
-- What the cache keeps, and what it records of a file that was written.
use simple_commit_log.Base.{
  ℕ, ◌+◌, ◌≤◌, ◌<◌, ◌≡◌, refl, ap, ◌∙◌, ◌⊎◌, inl, inr, List, [], ◌∷◌, ◌++◌, map, length, total,
  Option, some, Bool-cases, arith,
}
use simple_commit_log.Base.Int.{pos, ltb_ℤ}
use simple_commit_log.Errors.{ok}
use simple_commit_log.Topic.Files.{Key}
use simple_commit_log.Names.{lookup, lookup-put}
use simple_commit_log.Cache.{
  CacheItem, CacheStorage, Cache, writer, wrapper_write, wrapper_close, cache_write,
  items_to_delete,
}

abbrev pub sizes : List CacheItem → ℕ
sizes items = total (map (λ item. item.size) items)

-- The items that are deleted are all from some item on; those in front of it fit into the maximum,
-- and with it they would not.
pub record Cuts (max_size cur_size : ℕ) (items deleted : List CacheItem) : Type 0 where
  pub kept : List CacheItem
  pub splits : kept ++ deleted ≡ items
  pub fits : cur_size + sizes kept ≤ max_size
  pub needed :
      (deleted ≡ [])
      ⊎ ((item : CacheItem) × (rest : List CacheItem) × (deleted ≡ item ∷ rest)
          × (max_size < cur_size + sizes kept + item.size))

pub items_to_delete-Cuts :
    (max_size cur_size : ℕ) (items : List CacheItem)
    → cur_size ≤ max_size
    → Cuts max_size cur_size items (items_to_delete (pos max_size) cur_size items)
unfolding items_to_delete
items_to_delete-Cuts m cur [] h = record {
  kept = [];
  splits = refl;
  fits = omega (arith, h);
  needed = inl refl;
}
items_to_delete-Cuts m cur (item ∷ items) h =
    elim (Bool-cases (ltb_ℤ (pos m) (pos (cur + item.size)))) [
      | inl over ↦ rw over (record {
        kept = [];
        splits = refl;
        fits = omega (arith, h);
        needed = inr (item, items, refl, ground (arith, over));
      })
      | inr room ↦
          rw room (keep (items_to_delete-Cuts m (cur + item.size) items (ground (arith, room))))
    ]
  where
    keep :
        Cuts m (cur + item.size) items (items_to_delete (pos m) (cur + item.size) items)
        → Cuts m cur (item ∷ items) (items_to_delete (pos m) (cur + item.size) items)
    keep v = record {
      kept = item ∷ v.kept;
      splits = ap (◌∷◌ item) v.splits;
      fits = omega (arith, v.fits);
      needed = elim v.needed [
        | inl e ↦ inl e
        | inr (x, rest, e, over) ↦ inr (x, rest, e, omega (arith, over))
      ];
    }

module _ {S H : Type 0} (io : CacheStorage S H) where
  abbrev item_of : ℕ → Key → ℕ → Option CacheItem
  item_of now key n = some (record { size = n; accessed_at = now; key = key })

  -- Where the storage takes a file, `Write` returns the number of its bytes, and the table has the
  -- file with that size and the time of the `Close`.
  pub cache_write_ok :
      {s s' s'' : S} {h h' : H}
      → (now : ℕ) (key : Key) (bs : List ℕ) (c : Cache S) → io.open_writer key c.storage ≡ (s, ok h)
      → io.write_to h bs s ≡ (s', ok h')
      → io.close_writer h' s' ≡ (s'', ok tt)
      → ((cache_write io now key bs c).1 ≡ ok (length bs))
        × (lookup key (cache_write io now key bs c).0.cache_items
            ≡ some (record { size = length bs; accessed_at = now; key = key }))
  unfolding cache_write writer wrapper_write wrapper_close
  cache_write_ok now key bs c opened written closed =
      rw (opened, written, closed)
        (
          ap ok (omega arith),
          lookup-put key _ c.cache_items ∙ ap (item_of now key) {x = 0 + length bs} (omega arith),
        )
