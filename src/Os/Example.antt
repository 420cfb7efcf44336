-- ===== src/Os/Example.antt =====
-- A file system with its files in an association list: one working directory, all directories there,
-- and one temporary name in each directory.
use simple_commit_log.Base.{
  ℕ, ◌≡◌, refl, sym, ap, subst, ◌∙◌, List, [], ◌∷◌, ◌++◌, length, map, Option, none, some, Bool,
  true, false, ◌⊎◌, inl, inr, Bool-cases, arith, ◌==◌, if◌then◌else◌,
}
use simple_commit_log.Errors.{Result, ok, err, panic, not_found}
use simple_commit_log.Names.{
  Entries, lookup, put, delete, same_name, same_name-eq, same_name-turned, lookup-put,
  lookup-put_other,
}
use simple_commit_log.Topic.Files.{Key, Stream}
use simple_commit_log.Topic.Paths.{codes}
use simple_commit_log.Topic.S3.{has_suffix}
use simple_commit_log.Os.{FileSystem, FileLaws, FileInfo, Opens, Succeeding, IsReadable, IsWritable}

lookup-delete_other :
    {T : Type 0} (k name : Key) (es : Entries T)
    → same_name k name ≡ false
    → lookup k (delete name es) ≡ lookup k es
unfolding lookup delete
lookup-delete_other k name [] ne = refl
lookup-delete_other k name ((n, u) ∷ es) ne = elim (Bool-cases (same_name n name)) [
  | inl e ↦
      let other : same_name n k ≡ false =
        subst (λ m. same_name m k ≡ false) (sym (same_name-eq n name e))
          (same_name-turned k name ne) in
      rw (e, other) refl
  | inr e ↦
      rw (e, lookup)
        (ap (λ rest. if same_name n k then some u else rest) (lookup-delete_other k name es ne))
]

abbrev pub Disk : Type 0
Disk = Entries (List ℕ)

abbrev bytes_or_none : Option (List ℕ) → List ℕ
bytes_or_none none = []
bytes_or_none (some bs) = bs

abbrev found : Option (List ℕ) → Stream ⊎ Bool
found (some bs) = inl (record { bytes = bs; failed = none })
found none = inr true

abbrev moved : Key → Key → Disk → Option (List ℕ) → Disk × Result (Unit {0})
moved from to o none = (o, err not_found)
moved from to o (some bs) = (put to bs (delete from o), ok tt)

abbrev joined_path : Key → Key → Key
joined_path a b = if has_suffix a (b'/' ∷ []) then a ++ b else a ++ (b'/' ∷ b)

abbrev absolute : Key → Key
absolute [] = b'/' ∷ []
absolute (c ∷ p) = if c == b'/' then c ∷ p else b'/' ∷ (c ∷ p)

abbrev stat_of : Option (List ℕ) → Result FileInfo
stat_of none = err not_found
stat_of (some bs) = ok (record { size = length bs; mod_time = 0 })

-- All entries of a name go.
abbrev without : Key → Disk → Disk
without name [] = []
without name ((n, bs) ∷ es) =
    let rest = without name es in if same_name n name then rest else (n, bs) ∷ rest

abbrev pub list_system : FileSystem Disk Key
list_system = record {
  join = joined_path;
  dir = λ p. codes "/";
  abs = λ p. ok (absolute p);
  mkdir_all = λ d o. (o, ok tt);
  create_file = λ p o. (put p [] o, ok p);
  create_temp =
      λ d o. (put (joined_path d (codes "seb_1")) [] o, ok (joined_path d (codes "seb_1")));
  file_name = λ f. f;
  write_file = λ f xs o. (put f (bytes_or_none (lookup f o) ++ xs) o, ok tt);
  close_file = λ f o. (o, ok tt);
  open_file = λ p o. (o, found (lookup p o));
  rename = λ from to o. moved from to o (lookup from o);
  remove_file = λ p o. (without p o, ok tt);
  stat = λ p o. (o, stat_of (lookup p o));
  walk = λ d recursive extensions o.
      (o, map (λ e. (e.0, record { size = length e.1; mod_time = 0 })) o, ok tt);
}

pub found-Opens : (file : Option (List ℕ)) → Opens file (found file)
found-Opens (some bs) = λ h. refl
found-Opens none = λ h. refl

abbrev pub IsHeld : Disk → Key → Key → List ℕ → Type 0
IsHeld o f path bs = (f ≡ path) × (lookup path o ≡ some bs)

pub moved-others :
    (from to k : Key) (o : Disk) (r : Option (List ℕ))
    → same_name k from ≡ false
    → same_name k to ≡ false
    → lookup k (moved from to o r).0 ≡ lookup k o
moved-others from to k o none ne ne' = refl
moved-others from to k o (some bs) ne ne' =
    lookup-put_other k to bs (delete from o) ne' ∙ lookup-delete_other k from o ne

pub moved-atomic :
    (from to : Key) (o : Disk) (r : Option (List ℕ))
    → (lookup to (moved from to o r).0 ≡ lookup to o) ⊎ (lookup to (moved from to o r).0 ≡ r)
moved-atomic from to o none = inl refl
moved-atomic from to o (some bs) = inr (lookup-put to bs (delete from o))

pub IsHeld-write :
    (path f : Key) (o : Disk) (bs xs : List ℕ)
    → IsHeld o f path bs
    → IsHeld (list_system.write_file f xs o).0 f path (bs ++ xs)
IsHeld-write path f o bs xs (e, at) = (
  e,
  rw e (
      lookup-put path (bytes_or_none (lookup path o) ++ xs) o
      ∙ ap (λ file. some (bytes_or_none file ++ xs)) at),
)

pub IsHeld-write_others :
    (path k f : Key) (o : Disk) (bs xs : List ℕ)
    → IsHeld o f path bs
    → same_name k path ≡ false
    → lookup k (list_system.write_file f xs o).0 ≡ lookup k o
IsHeld-write_others path k f o bs xs (e, at) ne =
    rw e (lookup-put_other k path (bytes_or_none (lookup path o) ++ xs) o ne)

pub moved_lem :
    (from to : Key) (o : Disk) (r : Option (List ℕ))
    → Succeeding (λ o' _. lookup to o' ≡ r) (moved from to o r)
moved_lem from to o none = tt
moved_lem from to o (some bs) = lookup-put to bs (delete from o)

abbrev pub list_system_laws : FileLaws list_system
list_system_laws = record {
  content = λ o p. lookup p o;
  Holds = IsHeld;
  mkdir_lem = λ d k o. refl;
  create_lem = λ p o. (refl, lookup-put p [] o);
  create_others = λ p k o ne. lookup-put_other k p [] o ne;
  temp_lem = λ d o. (refl, lookup-put (joined_path d (codes "seb_1")) [] o);
  temp_others = λ d k o ne. lookup-put_other k (joined_path d (codes "seb_1")) [] o ne;
  write_lem = λ p o f bs xs h. IsHeld-write p f o bs xs h;
  write_others = λ p k o f bs xs h ne. IsHeld-write_others p k f o bs xs h ne;
  close_lem = λ p o f bs h. h.1;
  close_others = λ p k o f bs h ne. refl;
  rename_lem = λ from to o. moved_lem from to o (lookup from o);
  rename_atomic = λ from to o. moved-atomic from to o (lookup from o);
  rename_others = λ from to k o ne ne'. moved-others from to k o (lookup from o) ne ne';
  open_lem = λ p o. found-Opens (lookup p o);
}

pub absolute_path : (k p : Key) → list_system.abs k ≡ ok p → (q : Key) × (p ≡ b'/' ∷ q)
absolute_path [] p h = ([], cc h)
absolute_path (c ∷ k) p h = elim (Bool-cases (c == b'/')) [
  | inl e ↦
      let at : ok (c ∷ k) ≡ ok p = rw e at h in
      let slash : c ≡ b'/' = ground (arith, e) in (k, cc (at, slash))
  | inr e ↦ let at : ok (b'/' ∷ (c ∷ k)) ≡ ok p = rw e at h in (c ∷ k, cc at)
]

lookup-without : (name : Key) (es : Disk) → lookup name (without name es) ≡ none
unfolding lookup
lookup-without name [] = refl
lookup-without name ((n, bs) ∷ es) = elim (Bool-cases (same_name n name)) [
  | inl e ↦ rw e (lookup-without name es)
  | inr e ↦ rw (e, lookup, e) (lookup-without name es)
]

lookup-without_other :
    (k name : Key) (es : Disk) → same_name k name ≡ false → lookup k (without name es) ≡ lookup k es
unfolding lookup
lookup-without_other k name [] ne = refl
lookup-without_other k name ((n, bs) ∷ es) ne = elim (Bool-cases (same_name n name)) [
  | inl e ↦
      let other : same_name n k ≡ false =
        subst (λ m. same_name m k ≡ false) (sym (same_name-eq n name e))
          (same_name-turned k name ne) in
      rw (e, other) (lookup-without_other k name es ne)
  | inr e ↦
      rw (e, lookup)
        (ap (λ rest. if same_name n k then some bs else rest) (lookup-without_other k name es ne))
]

without-fewer :
    (k name : Key) (es : Disk)
    → (lookup k (without name es) ≡ none) ⊎ (lookup k (without name es) ≡ lookup k es)
without-fewer k name es = elim (Bool-cases (same_name k name)) [
  | inl e ↦ inl (
      subst (λ m. lookup m (without name es) ≡ none) (sym (same_name-eq k name e))
        (lookup-without name es))
  | inr ne ↦ inr (lookup-without_other k name es ne)
]

stat_of-returns : (file : Option (List ℕ)) → stat_of file ≡ panic → ⊥
stat_of-returns (some bs) = λ e. cc e
stat_of-returns none = λ e. cc e

pub list_system-IsReadable : IsReadable list_system list_system_laws
list_system-IsReadable = record {
  opens = λ p o bs at. ap found at;
  missing = λ p o at. (true, ap found at);
  keeps = λ p k o. refl;
  stats = λ p o. (stat_of-returns (lookup p o), λ k. refl);
}

pub list_system-IsWritable : IsWritable list_system list_system_laws
list_system-IsWritable = record {
  makes = λ d o. (o, refl);
  creates = λ d o. (_, _, refl);
  writes = λ f bs o. (_, refl);
  closes = λ f o. (o, refl);
  renames = λ from to o bs at. (put to bs (delete from o), ap (moved from to o) at);
  removes = λ p k o. without-fewer k p o;
}
