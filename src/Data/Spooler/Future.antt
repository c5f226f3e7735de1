-- ===== src/Data/Spooler/Future.antt =====
-- What data/spooler.go does to files from the future, and to the sizes that it caches.
use percona_agent.Prelude.{
  ℕ, ◌+◌, ◌-◌, ◌/◌, ◌%◌, ◌≤◌, ◌^◌, ◌<◌, ◌≡◌, refl, ap, ◌∙◌, false, none, some, arith, ltb,
  if◌then◌else◌, lookup, lookup-insert,
}
use percona_agent.Prelude.Int.{pos, ◌-ℤ◌}
use percona_agent.Prelude.Text.{Text, text_key}
use percona_agent.Data.Spooler.{
  Erased, done, not_exist, failed, Diskv, DataSpoolLimits, Spooler, too_old, to_int64, to_seconds,
  age, why, bytes_of, read, on_erased, remove_sized, remove,
}

-- The age of a file from the past is the number of whole seconds since its time; that of a file from
-- the future is 2^64 less the seconds until then.
pub age_lem :
    (now ts : ℕ)
    → now < 2 ^ 63
    → ts < 2 ^ 63
    → age (pos now) (pos ts) ≡ (
        if ltb now ts then (2 ^ 64 - (ts - now) / 1000000000) % 2 ^ 64 else (now - ts) / 1000000000)
unfolding age to_seconds to_int64 ◌-ℤ◌
age_lem now ts h1 h2 = ground arith

-- A purge that does not remove all files takes a file whose time lies a second or more after the clock
-- for too old, unless the limit is 2^63 seconds or longer.
pub future-too_old :
    (limits : DataSpoolLimits) (now ts size count : ℕ)
    → limits.max_age < 2 ^ 63
    → now + 1000000000 ≤ ts
    → ts < 2 ^ 63
    → why false limits (age (pos now) (pos ts)) size count ≡ too_old
unfolding why
future-too_old limits now ts size count h1 h2 h3 =
    ground (arith, age_lem now ts (omega (arith, h2, h3)) h3)

module _ {C : Type 0} (d : Diskv C) where
  on_erased-keeps :
      (file : Text) (size : ℕ) (s : Spooler C) (q : Erased × C)
      → (on_erased d file size false s q).1.file_size ≡ s.file_size
  unfolding on_erased
  on_erased-keeps file size s (done, c) = refl
  on_erased-keeps file size s (not_exist, c) = refl
  on_erased-keeps file size s (failed, c) = refl

  -- The removal of a file that was not read before leaves an entry in the table of sizes, whatever
  -- the store answers.
  pub remove_leaks :
      (file : Text) (s : Spooler C)
      → lookup file s.file_size ≡ none
      → lookup file (remove d file s).1.file_size ≡ some (bytes_of d (d.read file s.cache))
  unfolding remove remove_sized read
  remove_leaks file s e =
      let size = bytes_of d (d.read file s.cache) in
      rw e (
        ap (lookup file) (on_erased-keeps file size _ _)
        ∙ ground (arith, lookup-insert file file size s.file_size, text_key.beq_iff file file))
