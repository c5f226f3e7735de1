-- ===== src/Data/Spooler.antt =====
-- data/spooler.go: the spool of data files that wait for the sender.
-- The key-value store on disk (diskv) is the record `Diskv`. The goroutine `run` is one function per
-- kind of message, and the clocks that it reads are arguments. Status texts and the log are left out.
pub mod Names
pub mod Erasing
pub mod Purging
pub mod Counting
pub mod Within
pub mod Steps
pub mod Future
pub mod Memory
mod Tests
use percona_agent.Prelude.{
  ℕ, suc, ◌+◌, ◌-◌, ◌/◌, ◌%◌, ◌^◌, Bool, true, false, not, ◌||◌, Option, none, some, List, [], ◌∷◌,
  ◌++◌, ltb, ◌==◌, if◌then◌else◌, length, Eq, lookup, insert, erase,
}
use percona_agent.Prelude.Int.{ℤ, pos, negsuc, pos_part, neg_part, ◌-ℤ◌, ltb_ℤ}
use percona_agent.Prelude.Text.{Text, text_key, split}
use percona_agent.Prelude.Decimal.{print_ℤ, parse_int}

abbrev pub Bytes : Type 0
Bytes = List ℕ

-- The error of `Erase`: nil, "file not found", or another one.
pub data Erased : Type 0 where
  done : Erased
  not_exist : Erased
  failed : Erased

-- What the spooler uses of diskv; the store keeps its state in `C`.
pub record Diskv (C : Type 0) : Type 0 where
  pub keys : C → List Text
  pub read : Text → C → Option Bytes
  pub write : Text → Bytes → C → Bool × C
  pub erase_key : Text → C → Erased × C

pub record DataSpoolLimits : Type 0 where
  pub max_age : ℕ
  pub max_size : ℕ
  pub max_files : ℕ

pub record Spooler (C : Type 0) : Type 0 where
  pub cache : C
  pub count : ℕ
  pub size : ℕ
  pub oldest : ℤ
  pub file_size : List (Text × ℕ)

-- The map that a purge returns.
pub record Removed : Type 0 where
  pub by_age : List Text
  pub by_size : List Text
  pub by_files : List Text
  pub purged : List Text

-- What a purge does with a file.
pub data Reason : Type 0 where
  purge_all : Reason
  too_old : Reason
  too_large : Reason
  too_many : Reason
  keep : Reason

-- Subtraction of a uint64.
abbrev pub sub_u64 : ℕ → ℕ → ℕ
sub_u64 a b = (a + 2 ^ 64 - b % 2 ^ 64) % 2 ^ 64

-- An integer as an int64, and an int64 as a uint.
pub to_int64 : ℤ → ℤ
to_int64 z =
    let u = (pos_part z + 2 ^ 64 - neg_part z % 2 ^ 64) % 2 ^ 64 in
    if ltb u (2 ^ 63) then pos u else negsuc (2 ^ 64 - 1 - u)

-- The quotient by 10^9 is cut towards zero.
pub to_seconds : ℤ → ℕ
to_seconds (pos n) = n / 1000000000
to_seconds (negsuc n) = (2 ^ 64 - suc n / 1000000000) % 2 ^ 64

pub age : ℤ → ℤ → ℕ
age now ts = to_seconds (to_int64 (now -ℤ ts))

pub key_of : Text → ℤ → Text
key_of service ts = service ++ b'_' ∷ print_ℤ ts

pub second_part : List Text → Option ℤ
second_part [] = none
second_part (a ∷ []) = none
second_part (a ∷ b ∷ []) = parse_int b
second_part (a ∷ b ∷ c ∷ parts) = none

pub ts_of : Text → Option ℤ
ts_of key = second_part (split b'_' key)

pub older : ℤ → ℤ → ℤ
older ts oldest = if ltb_ℤ ts oldest then ts else oldest

pub no_files : Removed
no_files = record { by_age = []; by_size = []; by_files = []; purged = [] }

pub note : Reason → Text → Removed → Removed
note purge_all file r = record r { purged = r.purged ++ file ∷ [] }
note too_old file r = record r { by_age = r.by_age ++ file ∷ [] }
note too_large file r = record r { by_size = r.by_size ++ file ∷ [] }
note too_many file r = record r { by_files = r.by_files ++ file ∷ [] }
note keep file r = r

pub why : Bool → DataSpoolLimits → ℕ → ℕ → ℕ → Reason
why all limits old size count =
    if all
    then purge_all
    else if ltb limits.max_age old
    then too_old
    else if ltb limits.max_size size
    then too_large
    else if ltb limits.max_files count
    then too_many
    else keep

module _ {C : Type 0} (d : Diskv C) where
  pub bytes_of : Option Bytes → ℕ
  bytes_of none = 0
  bytes_of (some b) = length b

  -- The branch of `run` that takes data from the channel; `b` is its JSON text, if it has one.
  pub spool : Spooler C → Text → ℤ → Option Bytes → Spooler C
  spool s service ts none = s
  spool s service ts (some b) = record s {
    cache = (d.write (key_of service ts) b s.cache).1;
    count = (s.count + 1) % 2 ^ 64;
    size = (s.size + length b) % 2 ^ 64;
    oldest = older ts s.oldest;
  }

  pub read : Text → Spooler C → Option Bytes × Spooler C
  read file s =
      let got = d.read file s.cache in
      (got, record s { file_size = insert file (bytes_of got) s.file_size })

  -- The rest of `remove`: the answer of the store, the size, and whether the size was cached.
  pub on_erased : Text → ℕ → Bool → Spooler C → Erased × C → Bool × Spooler C
  on_erased file size cached s (failed, c) = (false, record s { cache = c })
  on_erased file size cached s (done, c) = (
    true,
    record s {
      cache = c;
      count = sub_u64 s.count 1;
      size = sub_u64 s.size size;
      file_size = if cached then erase file s.file_size else s.file_size;
    },
  )
  on_erased file size cached s (not_exist, c) = (
    true,
    record s {
      cache = c;
      count = sub_u64 s.count 1;
      size = sub_u64 s.size size;
      file_size = if cached then erase file s.file_size else s.file_size;
    },
  )

  pub remove_sized : Text → Option ℕ → Spooler C → Bool × Spooler C
  remove_sized file (some size) s = on_erased file size true s (d.erase_key file s.cache)
  remove_sized file none s =
      let (got, s') = read file s in
      on_erased file (bytes_of got) false s' (d.erase_key file s'.cache)

  -- `true` is a nil error.
  pub remove : Text → Spooler C → Bool × Spooler C
  remove file s = remove_sized file (lookup file s.file_size) s

  -- `renamed` is the store after the move of the file to the trash, if that succeeds.
  pub reject : Text → Option C → Spooler C → Bool × Spooler C
  reject file none s = (true, s)
  reject file (some c) s = remove file (record s { cache = c })

  pub count_file : Text → Option ℤ → Bytes → Spooler C → Spooler C
  count_file key none b s = record s { cache = (d.erase_key key s.cache).1 }
  count_file key (some ts) b s = record s {
    count = (s.count + 1) % 2 ^ 64;
    size = (s.size + length b) % 2 ^ 64;
    oldest = older ts s.oldest;
  }

  pub visit_file : Text → Option Bytes → Spooler C → Spooler C
  visit_file key none s = record s { cache = (d.erase_key key s.cache).1 }
  visit_file key (some b) s = count_file key (ts_of key) b s

  pub visit_files : List Text → Spooler C → Spooler C
  visit_files [] s = s
  visit_files (key ∷ ks) s = visit_files ks (visit_file key (d.read key s.cache) s)

  pub update_stats : ℤ → Spooler C → Spooler C
  update_stats now s = visit_files (d.keys s.cache) (record s { count = 0; size = 0; oldest = now })

  -- The spooler, the number of removed files and their names.
  abbrev pub Purge : Type 0
  Purge = Spooler C × ℕ × Removed

  pub purge_reason : Text → Reason → Purge → Purge
  purge_reason file keep p = p
  purge_reason file purge_all (s, n, r) = ((remove file s).1, suc n, note purge_all file r)
  purge_reason file too_old (s, n, r) = ((remove file s).1, suc n, note too_old file r)
  purge_reason file too_large (s, n, r) = ((remove file s).1, suc n, note too_large file r)
  purge_reason file too_many (s, n, r) = ((remove file s).1, suc n, note too_many file r)

  pub purge_file : Bool → ℤ → DataSpoolLimits → Text → Option ℤ → Purge → Purge
  purge_file all now limits file none (s, n, r) = ((remove file s).1, n, r)
  purge_file all now limits file (some ts) (s, n, r) =
      purge_reason file (why all limits (age now ts) s.size s.count) (s, n, r)

  pub purge_files : Bool → ℤ → DataSpoolLimits → List Text → Purge → Purge
  purge_files all now limits [] p = p
  purge_files all now limits (file ∷ files) p =
      purge_files all now limits files (purge_file all now limits file (ts_of file) p)

  pub purge : ℤ → ℤ → DataSpoolLimits → Spooler C → Purge
  purge now later limits s =
      let all = limits.max_age == 0 || limits.max_size == 0 || limits.max_files == 0 in
      let (s', n, r) = purge_files all now limits (d.keys s.cache) (s, 0, no_files) in
      (update_stats later s', n, r)
