-- ===== src/Cache/Tests.antt =====
-- Runs of the code of internal/sebcache/cache.go, and its theorems at concrete inputs.
use simple_commit_log.Base.{ℕ, ◌+◌, ◌≡◌, refl, List, [], ◌∷◌, ◌++◌, none, some, arith}
use simple_commit_log.Base.Int.{pos}
use simple_commit_log.Errors.{ok, err, not_in_cache}
use simple_commit_log.Topic.Files.{Key}
use simple_commit_log.Names.{lookup, put, delete, same_name}
use simple_commit_log.Cache.{
  CacheItem, CacheStorage, Cache, writer, wrapper_write, wrapper_close, cache_write, cache_reader,
  cache_size, items_to_delete, delete_items, evict_least_recently_used,
}
use simple_commit_log.Cache.Evict.{Cuts, items_to_delete-Cuts, cache_write_ok}

-- A storage that counts the files that were removed.
abbrev counting : CacheStorage ℕ (List ℕ)
counting = record {
  open_reader = λ key n. (n, ok (record { bytes = []; failed = none }));
  open_writer = λ key n. (n, ok []);
  write_to = λ h bs n. (n, ok (h ++ bs));
  close_writer = λ h n. (n, ok tt);
  remove = λ key n. (n + 1, ok tt);
  list = λ n. (n, ok []);
  size_of = λ key n. (n, err not_in_cache);
}

abbrev item : Key → ℕ → ℕ → CacheItem
item key size at = record { size = size; accessed_at = at; key = key }

abbrev a : Key
a = 97 ∷ []

abbrev b : Key
b = 98 ∷ []

abbrev c : Key
c = 99 ∷ []

-- Three files, the most recently used first.
abbrev three_files : Cache ℕ
three_files = record {
  storage = 0;
  cache_items = (a, item a 4 9) ∷ (b, item b 3 8) ∷ (c, item c 1 7) ∷ [];
}

program : Unit {0}
unfolding writer wrapper_write wrapper_close cache_write cache_reader cache_size items_to_delete
    delete_items evict_least_recently_used same_name lookup put delete
program = tt

-- The second file does not fit, so it is removed, and the third one although it would fit.
evicted :
    evict_least_recently_used counting (λ items. items) (pos 6) three_files
    ≡ (record { storage = 2; cache_items = (a, item a 4 9) ∷ [] }, ok tt)
unfolding program
evicted = refl

left : cache_size (evict_least_recently_used counting (λ items. items) (pos 6) three_files).0 ≡ 4
unfolding program
left = refl

abbrev values : List CacheItem
values = item a 4 9 ∷ item b 3 8 ∷ item c 1 7 ∷ []

items_to_delete-Cuts_example : Cuts 6 0 values (items_to_delete (pos 6) 0 values)
items_to_delete-Cuts_example = items_to_delete-Cuts 6 0 values (omega arith)

written_file :
    ((cache_write counting 5 b (1 ∷ 2 ∷ []) three_files).1 ≡ ok 2)
    × (lookup b (cache_write counting 5 b (1 ∷ 2 ∷ []) three_files).0.cache_items
        ≡ some (record { size = 2; accessed_at = 5; key = b }))
written_file = cache_write_ok counting 5 b (1 ∷ 2 ∷ []) three_files refl refl refl
