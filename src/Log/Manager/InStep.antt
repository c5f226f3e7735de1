-- ===== src/Log/Manager/InStep.antt =====
-- The level of log/manager.go and that of its relay.
use percona_agent.Prelude.{
  ℕ, ◌≡◌, refl, sym, ap, subst, ◌∙◌, String, Bool, true, false, Option, none, some, ◌⊎◌, inl, inr,
  List, [], ◌∷◌, arith, if◌then◌else◌, string_key,
}
use percona_agent.Log.Relay.{Levels, Relay, new_relay, set_log_level, set_log_file}
use percona_agent.Log.Relay.Filtering.{
  IsLevel, new_relay-log_level, set_log_level-IsLevel, set_log_file-log_level,
  handle_entry-log_level, connect-log_level, handle_connect-log_level,
}
use percona_agent.Log.Manager.{
  Config, Manager, Failure, Opening, Answers, Reading, missing, unreadable, found,
  default_log_level, number_of, or_zero, known_level, validate_config, begin, on_valid, on_reading,
  start, set_file, set_level, write, set_config, on_validated, handle_set_config, file_timeout,
  level_timeout, write_error, Op, handle_reconnect, set_config_op, reconnect_op, entry_op,
  connection_op, step, run,
}

module _ (levels : Levels) (log_level_number : String → Option ℕ)
    (proto_numbers : (s : String) (n : ℕ) → log_level_number s ≡ some n → IsLevel levels n)
    (proto_default : (n : ℕ) × (log_level_number default_log_level ≡ some n)) where
  abbrev number : String → ℕ
  number = number_of levels log_level_number

  abbrev IsKnown : String → Type 0
  IsKnown s = (n : ℕ) × (log_level_number s ≡ some n)

  -- The relay filters by the level of the configuration, which proto knows.
  abbrev pub IsInStep : Manager → Type 0
  IsInStep m = (m.relay.log_level ≡ number m.config.level) × IsKnown m.config.level

  number-IsLevel : (s : String) → IsKnown s → IsLevel levels (number s)
  unfolding or_zero
  number-IsLevel s (n, e) =
      subst (λ o. IsLevel levels (or_zero levels log_level_number o)) (sym e) (proto_numbers s n e)

  set_level_lem :
      (r : Relay) (s : String)
      → IsKnown s
      → (set_log_level levels r (number s)).log_level ≡ number s
  set_level_lem r s k = set_log_level-IsLevel levels r (number s) (number-IsLevel s k)

  known_level-IsKnown :
      (c d : Config) (o : Option ℕ)
      → log_level_number c.level ≡ o
      → known_level levels log_level_number c o ≡ inr d
      → IsKnown d.level
  unfolding known_level
  known_level-IsKnown c d none e f = absurd (ground arith)
  known_level-IsKnown c d (some n) e f =
      let same : Path (Failure ⊎ Config) (inr c) (inr d) = f in
      let level : c.level ≡ d.level = ground arith in (n, ap log_level_number (sym level) ∙ e)

  validate_config-IsKnown :
      (c d : Config) → validate_config levels log_level_number c ≡ inr d → IsKnown d.level
  unfolding validate_config
  validate_config-IsKnown c d e = by_level (string_key.beq c.level "") e
    where
      by_level :
          (b : Bool)
          → (if b
              then inr (record c { level = default_log_level })
              else known_level levels log_level_number c (log_level_number c.level))
            ≡ inr d
          → IsKnown d.level
      by_level true f =
          let level : default_log_level ≡ d.level = ground arith in
          (proto_default.0, ap log_level_number (sym level) ∙ proto_default.1)
      by_level false f = known_level-IsKnown c d (log_level_number c.level) refl f

  begin-log_level :
      (r : Relay) (o : Opening) (s : String)
      → IsKnown s
      → r.log_level ≡ number s
      → (begin levels log_level_number r o).log_level ≡ number s
  unfolding begin
  begin-log_level r o s k e =
      let r' = set_log_level levels r r.log_level in
      connect-log_level (set_log_file levels r' r'.log_file o.error o.opened)
      ∙ set_log_file-log_level levels r' r'.log_file o.error o.opened
      ∙ ap (λ l. (set_log_level levels r l).log_level) e
      ∙ set_level_lem r s k

  set_file-IsInStep :
      (a : Answers) (new : Config) (m : Manager)
      → IsInStep m
      → IsInStep (set_file levels log_level_number a new m).0
  unfolding set_file
  set_file-IsInStep a new m h = by_file (string_key.beq m.config.file new.file) a.takes_file
    where
      changed : Manager
      changed = record m {
        relay = set_log_file levels m.relay new.file a.opening.error a.opening.opened;
        config = record m.config { file = new.file };
      }

      same : Manager × List Failure
      same = (m, [])

      taken : Manager × List Failure
      taken = (changed, [])

      late : Manager × List Failure
      late = (m, file_timeout ∷ [])

      by_file : (b c : Bool) → IsInStep (if b then same else if c then taken else late).0
      by_file true c = h
      by_file false true = (
        set_log_file-log_level levels m.relay new.file a.opening.error a.opening.opened ∙ h.0,
        h.1,
      )
      by_file false false = h

  set_level-IsInStep :
      (a : Answers) (new : Config) (m : Manager)
      → IsKnown new.level
      → IsInStep m
      → IsInStep (set_level levels log_level_number a new m).0
  unfolding set_level
  set_level-IsInStep a new m k h = by_level (string_key.beq m.config.level new.level) a.takes_level
    where
      changed : Manager
      changed = record m {
        relay = set_log_level levels m.relay (number new.level);
        config = record m.config { level = new.level };
      }

      same : Manager × List Failure
      same = (m, [])

      taken : Manager × List Failure
      taken = (changed, [])

      late : Manager × List Failure
      late = (m, level_timeout ∷ [])

      by_level : (b c : Bool) → IsInStep (if b then same else if c then taken else late).0
      by_level true c = h
      by_level false true = (set_level_lem m.relay new.level k, k)
      by_level false false = h

  write-IsInStep :
      (a : Answers) (m : Manager) → IsInStep m → IsInStep (write levels log_level_number a m).0
  unfolding write
  write-IsInStep a m h = by_disk a.writes
    where
      written : Manager × List Failure
      written = (record m { written = some m.config }, [])

      failed : Manager × List Failure
      failed = (m, write_error ∷ [])

      by_disk : (b : Bool) → IsInStep (if b then written else failed).0
      by_disk true = h
      by_disk false = h

  set_config-IsInStep :
      (a : Answers) (m : Manager) (r : Option Config)
      → IsInStep m
      → IsInStep (handle_set_config levels log_level_number a m r).0
  unfolding handle_set_config on_validated set_config
  set_config-IsInStep a m none h = h
  set_config-IsInStep a m (some c) h = by_valid (validate_config levels log_level_number c) refl
    where
      by_valid :
          (v : Failure ⊎ Config)
          → validate_config levels log_level_number c ≡ v
          → IsInStep (on_validated levels log_level_number a m v).0
      by_valid (inl x) e = h
      by_valid (inr d) e =
          write-IsInStep a _
            (set_level-IsInStep a d _ (validate_config-IsKnown c d e) (set_file-IsInStep a d m h))

  step-IsInStep :
      (m : Manager) (op : Op levels log_level_number)
      → IsInStep m
      → IsInStep (step levels log_level_number m op)
  unfolding step handle_reconnect
  step-IsInStep m (set_config_op a r) h = set_config-IsInStep a m r h
  step-IsInStep m reconnect_op h = h
  step-IsInStep m (entry_op e) h = (handle_entry-log_level m.relay e ∙ h.0, h.1)
  step-IsInStep m (connection_op b) h = (handle_connect-log_level levels m.relay b ∙ h.0, h.1)

  later :
      (m : Manager) (ops : List (Op levels log_level_number))
      → IsInStep m
      → IsInStep (run levels log_level_number m ops)
  unfolding run
  later m [] h = h
  later m (op ∷ ops) h = later (step levels log_level_number m op) ops (step-IsInStep m op h)

  on_valid-IsInStep :
      (client : Bool) (o : Opening) (disk : Option Config) (c : Config) (m : Manager)
      → on_valid levels log_level_number client o disk (validate_config levels log_level_number c)
        ≡ inr m
      → IsInStep m
  unfolding on_valid
  on_valid-IsInStep client o disk c m e =
      by_valid (validate_config levels log_level_number c) refl e
    where
      manager_of : Failure ⊎ Manager → Manager
      manager_of (inl x) = m
      manager_of (inr x) = x

      by_valid :
          (v : Failure ⊎ Config)
          → validate_config levels log_level_number c ≡ v
          → on_valid levels log_level_number client o disk v ≡ inr m
          → IsInStep m
      by_valid (inl x) q f = absurd (ground arith)
      by_valid (inr d) q f =
          let k = validate_config-IsKnown c d q in
          let r = new_relay client d.file (number d.level) d.offline in
          let level = new_relay-log_level client d.file (number d.level) d.offline in
          subst IsInStep (ap manager_of f) (begin-log_level r o d.level k level, k)

  start-IsInStep :
      (client : Bool) (o : Opening) (r : Reading) (m : Manager)
      → start levels log_level_number client o r none ≡ inr m
      → IsInStep m
  unfolding start on_reading
  start-IsInStep client o missing m e = on_valid-IsInStep client o none _ m e
  start-IsInStep client o unreadable m e = absurd (ground arith)
  start-IsInStep client o (found c) m e = on_valid-IsInStep client o (some c) c m e

  -- If proto knows the default level, and its numbers are levels: after the start of the manager, and
  -- whatever commands, entries and connections come then, whether the relay answers in time or not and
  -- whether the configuration can be written or not, the relay filters by the level that the manager
  -- gives as its configuration, and proto knows this level.
  pub run-IsInStep :
      (client : Bool) (o : Opening) (r : Reading) (m : Manager)
      (ops : List (Op levels log_level_number))
      → start levels log_level_number client o r none ≡ inr m
      → IsInStep (run levels log_level_number m ops)
  run-IsInStep client o r m ops e = later m ops (start-IsInStep client o r m e)
