-- ===== src/Os.antt =====
-- The files of the operating system, as internal/sebcache/diskstorage.go and
-- internal/sebtopic/diskstorage.go use them: the packages os, path and path/filepath, and
-- go-helpy/filepathy, which are parameters, with what their documentation says of them.
pub mod Example
use simple_commit_log.Base.{
  ℕ, ◌≡◌, ◌⊎◌, inl, inr, List, [], ◌∷◌, ◌++◌, Option, none, some, Bool, true, false,
}
use simple_commit_log.Errors.{Error, Result, ok, err, panic}
use simple_commit_log.Exec.{Exec, continue}
use simple_commit_log.Names.{same_name}
use simple_commit_log.Topic.Files.{Key, Stream}
use simple_commit_log.Topic.Store.{Outcome}

-- What the code asks of an os.FileInfo.
pub record FileInfo : Type 0 where
  pub size : ℕ
  pub mod_time : ℕ

-- Open files are handles `F`. `open_file` yields what is read of the file to its end, or whether
-- os.IsNotExist holds of the error. `walk` lists files, below a directory's directories too if the
-- flag is set, with one of the extensions if any are given, and may fail behind some of them.
pub record FileSystem (O F : Type 0) : Type 0 where
  pub join : Key → Key → Key
  pub dir : Key → Key
  pub abs : Key → Result Key
  pub mkdir_all : Key → Exec O (Unit {0})
  pub create_file : Key → Exec O F
  pub create_temp : Key → Exec O F
  pub file_name : F → Key
  pub write_file : F → List ℕ → Exec O (Unit {0})
  pub close_file : F → Exec O (Unit {0})
  pub open_file : Key → O → O × (Stream ⊎ Bool)
  pub rename : Key → Key → Exec O (Unit {0})
  pub remove_file : Key → Exec O (Unit {0})
  pub stat : Key → Exec O FileInfo
  pub walk : Key → Bool → List Key → O → O × List (Key × FileInfo) × Result (Unit {0})

-- A call may fail; `P` holds behind one that does not.
abbrev pub Succeeding : {S A : Type 0} → (S → A → Type 0) → S × Result A → Type 0
Succeeding P o = Outcome (Unit {0}) P o

pub Succeeding-map :
    {S A : Type 0} (P Q : S → A → Type 0) (o : S × Result A)
    → Succeeding P o
    → ((s : S) (a : A) → P s a → Q s a)
    → Succeeding Q o
Succeeding-map P Q (s, ok a) p f = f s a p
Succeeding-map P Q (s, err e) p f = tt
Succeeding-map P Q (s, panic) p f = tt

pub Succeeding-any : {S A : Type 0} (o : S × Result A) → Succeeding (λ _ _. Unit {0}) o
Succeeding-any (s, ok a) = tt
Succeeding-any (s, err e) = tt
Succeeding-any (s, panic) = tt

-- What holds behind two calls, from what holds behind the first.
pub Succeeding-continue :
    {S A B : Type 0} (P : S → A → Type 0) (K : S → Type 0) (Good : S × Result B → Type 0)
    (o : S × Result A) (next : A → Exec S B)
    → Succeeding P o
    → K o.0
    → ((s : S) (a : A) → P s a → K s → Good (next a s))
    → ((s : S) (e : Error) → K s → Good (s, err e))
    → ((s : S) → K s → Good (s, panic))
    → Good (continue o next)
Succeeding-continue P K Good (s, ok a) next p k f g h = f s a p k
Succeeding-continue P K Good (s, err e) next p k f g h = g s e k
Succeeding-continue P K Good (s, panic) next p k f g h = h s k

abbrev pub joined : List (List ℕ) → List ℕ
joined [] = []
joined (bs ∷ bss) = bs ++ joined bss

-- What opening a file yields: its bytes, unless reading breaks off, and `IsNotExist` only where
-- there is no file.
abbrev pub Opens : Option (List ℕ) → Stream ⊎ Bool → Type 0
Opens file (inl body) = body.failed ≡ none → file ≡ some body.bytes
Opens file (inr missing) = missing ≡ true → file ≡ none

-- What the calls do to the files, whose bytes are `content`: a call on the file at one path leaves the
-- others alone, a file has the bytes that were written when its Close succeeded, and a rename
-- replaces a file at once.
pub record FileLaws {O F : Type 0} (os : FileSystem O F) : Type 1 where
  pub content : O → Key → Option (List ℕ)
  -- The handle writes to the file at the path, which was given the bytes.
  pub Holds : O → F → Key → List ℕ → Type 0
  pub mkdir_lem : (d k : Key) (o : O) → content (os.mkdir_all d o).0 k ≡ content o k
  pub create_lem :
      (path : Key) (o : O) → Succeeding (λ o' f. Holds o' f path []) (os.create_file path o)
  pub create_others :
      (path k : Key) (o : O)
      → same_name k path ≡ false
      → content (os.create_file path o).0 k ≡ content o k
  pub temp_lem :
      (d : Key) (o : O) → Succeeding (λ o' f. Holds o' f (os.file_name f) []) (os.create_temp d o)
  pub temp_others :
      (d k : Key) (o : O)
      → Succeeding (λ o' f. same_name k (os.file_name f) ≡ false) (os.create_temp d o)
      → content (os.create_temp d o).0 k ≡ content o k
  pub write_lem :
      (path : Key) (o : O) (f : F) (bs xs : List ℕ)
      → Holds o f path bs
      → Succeeding (λ o' _. Holds o' f path (bs ++ xs)) (os.write_file f xs o)
  pub write_others :
      (path k : Key) (o : O) (f : F) (bs xs : List ℕ)
      → Holds o f path bs
      → same_name k path ≡ false
      → content (os.write_file f xs o).0 k ≡ content o k
  pub close_lem :
      (path : Key) (o : O) (f : F) (bs : List ℕ)
      → Holds o f path bs
      → Succeeding (λ o' _. content o' path ≡ some bs) (os.close_file f o)
  pub close_others :
      (path k : Key) (o : O) (f : F) (bs : List ℕ)
      → Holds o f path bs
      → same_name k path ≡ false
      → content (os.close_file f o).0 k ≡ content o k
  pub rename_lem :
      (from to : Key) (o : O)
      → Succeeding (λ o' _. content o' to ≡ content o from) (os.rename from to o)
  pub rename_atomic :
      (from to : Key) (o : O)
      → (content (os.rename from to o).0 to ≡ content o to)
        ⊎ (content (os.rename from to o).0 to ≡ content o from)
  pub rename_others :
      (from to k : Key) (o : O)
      → same_name k from ≡ false
      → same_name k to ≡ false
      → content (os.rename from to o).0 k ≡ content o k
  pub open_lem : (path : Key) (o : O) → Opens (content o path) (os.open_file path o).1

-- Files that are there can be opened and read to their end, and neither opening a file nor asking for
-- its size changes any.
pub record IsReadable {O F : Type 0} (os : FileSystem O F) (laws : FileLaws os) : Type 0 where
  pub opens :
      (path : Key) (o : O) (bs : List ℕ)
      → laws.content o path ≡ some bs
      → (os.open_file path o).1 ≡ inl (record { bytes = bs; failed = none })
  pub missing :
      (path : Key) (o : O)
      → laws.content o path ≡ none
      → (b : Bool) × ((os.open_file path o).1 ≡ inr b)
  pub keeps : (path k : Key) (o : O) → laws.content (os.open_file path o).0 k ≡ laws.content o k
  pub stats :
      (path : Key) (o : O)
      → ((os.stat path o).1 ≡ panic → ⊥)
        × ((k : Key) → laws.content (os.stat path o).0 k ≡ laws.content o k)

-- Calls that write do not fail; a file is renamed if it is there, and a remove removes a file or
-- nothing.
pub record IsWritable {O F : Type 0} (os : FileSystem O F) (laws : FileLaws os) : Type 0 where
  pub makes : (d : Key) (o : O) → (o' : O) × (os.mkdir_all d o ≡ (o', ok tt))
  pub creates : (d : Key) (o : O) → (o' : O) × (f : F) × (os.create_temp d o ≡ (o', ok f))
  pub writes : (f : F) (bs : List ℕ) (o : O) → (o' : O) × (os.write_file f bs o ≡ (o', ok tt))
  pub closes : (f : F) (o : O) → (o' : O) × (os.close_file f o ≡ (o', ok tt))
  pub renames :
      (from to : Key) (o : O) (bs : List ℕ)
      → laws.content o from ≡ some bs
      → (o' : O) × (os.rename from to o ≡ (o', ok tt))
  pub removes :
      (path k : Key) (o : O)
      → (laws.content (os.remove_file path o).0 k ≡ none)
        ⊎ (laws.content (os.remove_file path o).0 k ≡ laws.content o k)
