-- ===== src/Data/Manager/InStep.antt =====
-- The configuration of data/manager.go and what runs under it.
use percona_agent.Prelude.{
  String, ◌≡◌, refl, sym, subst, ◌∙◌, ◌>>=◌, Bool, true, false, ◌⊎◌, inl, inr, Option, none, some,
  List, [], arith, ◌==◌, if◌then◌else◌, string_key,
}
use percona_agent.Data.Spooler.{Diskv}
use percona_agent.Data.Manager.{
  Config, Sender, Manager, Answers, validate_config, make_serializer, start_sender, start_spooler,
  Setting, restart_sender, set_interval, encoding_set, restart_spooler, on_serializer, set_encoding,
  write_set, Ending, replies, waits, panics, on_set, set_config, on_old, handle_set_config,
}

-- A sender that runs does so at the interval of the configuration.
abbrev pub SenderAgrees : Config → Option Sender → Type 0
SenderAgrees c none = Unit
SenderAgrees c (some s) = s.timeout ≡ c.send_interval

-- A spooler that runs writes in the encoding of the configuration.
abbrev pub SerializerAgrees : Config → Option String → Type 0
SerializerAgrees c none = Unit
SerializerAgrees c (some e) = e ≡ c.encoding

abbrev pub IsInStep : Config → {C : Type 0} → Manager C → Type 0
IsInStep c m = SenderAgrees c m.sender × SerializerAgrees c m.serializer

make_serializer_lem : (e e' : String) → make_serializer e ≡ inr e' → e ≡ e'
unfolding make_serializer
make_serializer_lem e e' h = ground arith

module _ {C : Type 0} (d : Diskv C) (a : Answers) where
  -- The three parts of a setting agree.
  abbrev Agrees : Setting d → Type 0
  Agrees t = IsInStep t.0 t.2

  -- A change of the interval waits only for a sender that does not run, and leaves the spooler alone.
  abbrev AfterInterval : Setting d → Option (Setting d) → Type 0
  AfterInterval t none = t.2.sender ≡ none
  AfterInterval t (some u) = Agrees u × (u.2.serializer ≡ t.2.serializer)

  restart_sender-AfterInterval :
      (new : Config) (t : Setting d) (o : Option Sender)
      → t.2.sender ≡ o
      → Agrees t
      → AfterInterval t (restart_sender d new t o)
  unfolding restart_sender start_sender
  restart_sender-AfterInterval new (c, es, m) none e h = e
  restart_sender-AfterInterval new (c, es, m) (some s) e h = ((refl, h.1), refl)

  set_interval-AfterInterval :
      (new : Config) (t : Setting d) → Agrees t → AfterInterval t (set_interval d new t)
  unfolding set_interval
  set_interval-AfterInterval new (c, es, m) h = by_same (new.send_interval == c.send_interval)
    where
      by_same :
          (b : Bool)
          → AfterInterval
              (c, es, m)
              (if b then some (c, es, m) else restart_sender d new (c, es, m) m.sender)
      by_same true = (h, refl)
      by_same false = restart_sender-AfterInterval new (c, es, m) m.sender refl h

  encoding_set-Agrees :
      (c : Config) (e : String) (es : List String) (m : Manager C) (o : Option String)
      → SenderAgrees c m.sender
      → o ≡ a.start_spooler
      → Agrees (encoding_set d c e es (start_spooler d a m e))
  unfolding encoding_set start_spooler
  encoding_set-Agrees c e es m none h q = rw⁻¹ q (h, refl)
  encoding_set-Agrees c e es m (some x) h q = rw⁻¹ q (h, tt)

  -- A change of the encoding waits only for a spooler that does not run.
  abbrev AfterEncoding : Setting d → Option (Setting d) → Type 0
  AfterEncoding t none = t.2.serializer ≡ none
  AfterEncoding t (some u) = Agrees u

  restart_spooler-AfterEncoding :
      (c : Config) (es : List String) (m : Manager C) (e : String) (o : Option String)
      → m.serializer ≡ o
      → IsInStep c m
      → AfterEncoding (c, es, m) (restart_spooler d a c es m e o)
  unfolding restart_spooler
  restart_spooler-AfterEncoding c es m e none q h = q
  restart_spooler-AfterEncoding c es m e (some s) q h =
      encoding_set-Agrees c e es m a.start_spooler h.0 refl

  on_serializer-AfterEncoding :
      (c : Config) (es : List String) (m : Manager C) (r : String ⊎ String)
      → IsInStep c m
      → AfterEncoding (c, es, m) (on_serializer d a c es m r)
  unfolding on_serializer
  on_serializer-AfterEncoding c es m (inl x) h = h
  on_serializer-AfterEncoding c es m (inr e) h =
      restart_spooler-AfterEncoding c es m e m.serializer refl h

  set_encoding-AfterEncoding :
      (new : Config) (t : Setting d) → Agrees t → AfterEncoding t (set_encoding d a new t)
  unfolding set_encoding
  set_encoding-AfterEncoding new (c, es, m) h = by_same (string_key.beq new.encoding c.encoding)
    where
      by_same :
          (b : Bool)
          → AfterEncoding
              (c, es, m)
              (if b
                then some (c, es, m)
                else on_serializer d a c es m (make_serializer new.encoding))
      by_same true = h
      by_same false = on_serializer-AfterEncoding c es m (make_serializer new.encoding) h

  -- The configuration that is in force, with what runs.
  abbrev pub AllInStep : Manager C → Type 0
  AllInStep m = (c : Config) × (m.config ≡ some c) × IsInStep c m

  -- The command replies with everything in step, or waits for a sender or a spooler that does not run.
  abbrev pub EndsInStep : Manager C → Ending d → Type 0
  EndsInStep m (replies es q) = AllInStep q
  EndsInStep m waits = (m.sender ≡ none) ⊎ (m.serializer ≡ none)
  EndsInStep m panics = ⊥

  write_set-Agrees : (w : Option String) (t : Setting d) → Agrees t → AllInStep (write_set d w t).1
  unfolding write_set
  write_set-Agrees none (c, es, m) h = (c, refl, h)
  write_set-Agrees (some x) (c, es, m) h = (c, refl, h)

  on_encoding-EndsInStep :
      (m : Manager C) (w : Option String) (t : Setting d) (o : Option (Setting d))
      → t.2.serializer ≡ m.serializer
      → AfterEncoding t o
      → EndsInStep m (on_set d w o)
  unfolding on_set
  on_encoding-EndsInStep m w t none e h = inr (sym e ∙ h)
  on_encoding-EndsInStep m w t (some u) e h = write_set-Agrees w u h

  on_interval-EndsInStep :
      (new old : Config) (m : Manager C) (o : Option (Setting d))
      → AfterInterval (old, [], m) o
      → EndsInStep m (on_set d a.write_config (o >>= (λ t. set_encoding d a new t)))
  unfolding on_set
  on_interval-EndsInStep new old m none h = inl h
  on_interval-EndsInStep new old m (some t) (h, e) =
      on_encoding-EndsInStep m a.write_config t (set_encoding d a new t) e
        (set_encoding-AfterEncoding new t h)

  set_config-EndsInStep :
      (old : Config) (m : Manager C) (v : String ⊎ Config)
      → m.config ≡ some old
      → IsInStep old m
      → EndsInStep m (set_config d a old m v)
  unfolding set_config
  set_config-EndsInStep old m (inl x) e h = (old, e, h)
  set_config-EndsInStep old m (inr new) e h =
      on_interval-EndsInStep new old m (set_interval d new (old, [], m))
        (set_interval-AfterInterval new (old, [], m) h)

  -- In a manager that was started and whose sender and spooler, as far as they run, are in step with its
  -- configuration, a command that sets the configuration, whatever of it fails, leaves
  -- a sender that runs at the interval of the configuration in force, or none, and a spooler that
  -- writes in its encoding, or none; or it waits for ever, which it does only if the sender or the
  -- spooler did not run before it.
  pub handle_set_config-EndsInStep :
      (asked : String ⊎ Config) (m : Manager C)
      → AllInStep m
      → EndsInStep m (handle_set_config d a asked m)
  unfolding handle_set_config on_old
  handle_set_config-EndsInStep (inl x) m h = h
  handle_set_config-EndsInStep (inr new) m (old, e, h) =
      subst (λ c. EndsInStep m (on_old d a m c (validate_config new))) (sym e)
        (set_config-EndsInStep old m (validate_config new) e h)
