-- ===== src/Data/Manager.antt =====
-- data/manager.go: start of the spooler and the sender, and the commands that change their
-- configuration or purge the spool.
-- The spooler is that of Data.Spooler over a store `d`; `serializer` is the encoding with which it
-- runs, `sender` the interval and the blackhole flag of the sender that runs; none is one whose
-- goroutine does not run, and whose Stop then waits for ever. Files,
-- directories and JSON answer by arguments. Status texts and the log are left out.
pub mod InStep
pub mod Clearing
mod Tests
use Prim.Native.String.{◌++◌ as str_append}
use percona_agent.Prelude.{
  ℕ, zero, suc, ◌*◌, String, Bool, true, false, not, ◌&&◌, ◌⊎◌, inl, inr, ◌>>=◌, Option, none, some,
  List, [], ◌∷◌, ◌++◌, ◌==◌, ltb, if◌then◌else◌, string_key,
}
use percona_agent.Prelude.Int.{ℤ}
use percona_agent.Data.Spooler.{Diskv, DataSpoolLimits, Spooler, Removed, update_stats, purge}

pub record Config : Type 0 where
  pub encoding : String
  pub send_interval : ℕ
  pub blackhole : Bool
  pub limits : DataSpoolLimits

pub record Sender : Type 0 where
  pub timeout : ℕ
  pub blackhole : Bool

pub record Manager (C : Type 0) : Type 0 where
  pub config : Option Config
  pub running : Bool
  pub serializer : Option String
  pub limits : DataSpoolLimits
  pub spooler : Spooler C
  pub sender : Option Sender
  pub written : Option Config

-- The errors of the system, if any: of reading the configuration file, where a missing file is none,
-- of the two directories, of the start of the spooler, and of writing the file.
pub record Answers : Type 0 where
  pub read_config : String ⊎ Config
  pub data_dir : Option String
  pub trash_dir : Option String
  pub start_spooler : Option String
  pub write_config : Option String
  pub now : ℤ

abbrev pub or_default : ℕ → ℕ → ℕ
or_default n d = if n == 0 then d else n

abbrev pub data_gzip : String
data_gzip = "gzip"

-- The limits as of 1.0.13: an hour, 10 MiB, 100 files.
pub fill_limits : DataSpoolLimits → DataSpoolLimits
fill_limits l = record {
  max_age = or_default l.max_age 3600;
  max_size = or_default l.max_size (1024 * 1024 * 10);
  max_files = or_default l.max_files 100;
}

pub validate_config : Config → String ⊎ Config
validate_config c =
    if not (string_key.beq c.encoding "") && not (string_key.beq c.encoding data_gzip)
    then inl (str_append "Invalid data encoding: " c.encoding)
    else if ltb 3600 c.send_interval
    then inl "SendInterval must be <= 3600 (1 hour)"
    else inr
        (record c { send_interval = or_default c.send_interval 63; limits = fill_limits c.limits })

-- The serializer is known by its encoding.
pub make_serializer : String → String ⊎ String
make_serializer e =
    if string_key.beq e ""
    then inr e
    else if string_key.beq e data_gzip
    then inr e
    else inl (str_append "Unknown encoding: " e)

module _ {C : Type 0} (d : Diskv C) where
  pub start_sender : Manager C → ℕ → Bool → Manager C
  start_sender m interval hole = record m {
    sender = some (record { timeout = interval; blackhole = hole });
  }

  -- `Start` of the spooler counts the files that are there.
  pub start_spooler : Answers → Manager C → String → Option String × Manager C
  start_spooler a m e = elim a.start_spooler [
    | none ↦ (none, record m { serializer = some e; spooler = update_stats d a.now m.spooler })
    | some x ↦ (some x, record m { serializer = none })
  ]

  pub started : Config → Option String × Manager C → Option String × Manager C
  started c (some x, m) = (some x, m)
  started c (none, m) = (
    none,
    record (start_sender m c.send_interval c.blackhole) { config = some c; running = true },
  )

  pub start_with : Answers → Manager C → Config → String ⊎ String → Option String × Manager C
  start_with a m c (inl x) = (some x, m)
  start_with a m c (inr e) = started c (start_spooler a (record m { limits = c.limits }) e)

  pub make_dirs :
      Answers → Manager C → Config → Option String → Option String → Option String × Manager C
  make_dirs a m c (some x) y = (some x, m)
  make_dirs a m c none (some y) = (some y, m)
  make_dirs a m c none none = start_with a m c (make_serializer c.encoding)

  pub on_valid : Answers → Manager C → String ⊎ Config → Option String × Manager C
  on_valid a m (inl x) = (some x, m)
  on_valid a m (inr c) = make_dirs a m c a.data_dir a.trash_dir

  pub on_read : Answers → Manager C → String ⊎ Config → Option String × Manager C
  on_read a m (inl x) = (some x, m)
  on_read a m (inr c) = on_valid a m (validate_config c)

  pub start : Answers → Manager C → Option Config → Option String × Manager C
  start a m (some c) = (some "data service is running", m)
  start a m none = on_read a m a.read_config

  -- `Stop`; the configuration stays. `none` is a wait for ever.
  pub stop_spooler : Manager C → Option String → Option (Manager C)
  stop_spooler m none = none
  stop_spooler m (some e) = some (record m { sender = none; serializer = none; running = false })

  pub stop_both : Manager C → Option Sender → Option (Manager C)
  stop_both m none = none
  stop_both m (some s) = stop_spooler m m.serializer

  pub stop : Manager C → Option (Manager C)
  stop m = stop_both m m.sender

  -- The new configuration so far, the errors, and the manager.
  abbrev pub Setting : Type 0
  Setting = Config × List String × Manager C

  -- The sender is stopped and started again; its `Start` returns no error, and its `Stop` does not
  -- return if it does not run.
  pub restart_sender : Config → Setting → Option Sender → Option Setting
  restart_sender new t none = none
  restart_sender new (c, es, m) (some s) = some (
    record c { send_interval = new.send_interval },
    es,
    start_sender m new.send_interval new.blackhole,
  )

  pub set_interval : Config → Setting → Option Setting
  set_interval new (c, es, m) =
      if new.send_interval == c.send_interval
      then some (c, es, m)
      else restart_sender new (c, es, m) m.sender

  pub encoding_set : Config → String → List String → Option String × Manager C → Setting
  encoding_set c e es (none, m) = (record c { encoding = e }, es, m)
  encoding_set c e es (some x, m) = (c, es ++ x ∷ [], m)

  -- The spooler likewise.
  pub restart_spooler :
      Answers → Config → List String → Manager C → String → Option String → Option Setting
  restart_spooler a c es m e none = none
  restart_spooler a c es m e (some old) = some (encoding_set c e es (start_spooler a m e))

  pub on_serializer : Answers → Config → List String → Manager C → String ⊎ String → Option Setting
  on_serializer a c es m (inl x) = some (c, es ++ x ∷ [], m)
  on_serializer a c es m (inr e) = restart_spooler a c es m e m.serializer

  pub set_encoding : Answers → Config → Setting → Option Setting
  set_encoding a new (c, es, m) =
      if string_key.beq new.encoding c.encoding
      then some (c, es, m)
      else on_serializer a c es m (make_serializer new.encoding)

  pub write_set : Option String → Setting → List String × Manager C
  write_set none (c, es, m) = (es, record m { config = some c; written = some c })
  write_set (some x) (c, es, m) = (es ++ x ∷ [], record m { config = some c })

  -- The errors that the command replies, a wait for ever, or the panic of a manager that was not
  -- started.
  pub data Ending : Type 0 where
    replies : List String → Manager C → Ending
    waits : Ending
    panics : Ending

  pub on_set : Option String → Option Setting → Ending
  on_set w none = waits
  on_set w (some t) = let (es, m) = write_set w t in replies es m

  pub set_config : Answers → Config → Manager C → String ⊎ Config → Ending
  set_config a old m (inl x) = replies (x ∷ []) m
  set_config a old m (inr new) =
      on_set a.write_config (do t ← set_interval new (old, [], m); set_encoding a new t)

  pub on_old : Answers → Manager C → Option Config → String ⊎ Config → Ending
  on_old a m (some old) r = set_config a old m r
  on_old a m none (inl x) = replies (x ∷ []) m
  on_old a m none (inr new) = panics

  -- The JSON text of the command is an error or a configuration.
  pub handle_set_config : Answers → String ⊎ Config → Manager C → Ending
  handle_set_config a (inl x) m = replies (x ∷ []) m
  handle_set_config a (inr new) m = on_old a m m.config (validate_config new)

  -- A command without data has no limits.
  pub limits_of : Option (String ⊎ DataSpoolLimits) → String ⊎ DataSpoolLimits
  limits_of none = inr (record { max_age = 0; max_size = 0; max_files = 0 })
  limits_of (some r) = r

  pub handle_purge : ℤ → ℤ → Manager C → String ⊎ DataSpoolLimits → (String ⊎ Removed) × Manager C
  handle_purge now later m (inl x) = (inl x, m)
  handle_purge now later m (inr l) =
      let (s, n, removed) = purge d now later l m.spooler in (inr removed, record m { spooler = s })
