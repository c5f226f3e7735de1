-- ===== src/Agent/Services/Configuring.antt =====
-- The configuration of agent/agent.go: loaded from a file, and set by a command.
use percona_agent.Prelude.{snoc-ne-nil}
use percona_agent.Prelude.{
  ℕ, String, ◌≡◌, refl, sym, ap, ◌∙◌, Bool, true, false, inl, inr, Option, none, some, List, [],
  arith, ltb, ◌==◌, if◌then◌else◌, Bool-cases, string_key,
}
use percona_agent.Agent.{Failure, Config}
use percona_agent.Agent.Services.{
  ApiConnector, Agent, is_empty, or_default, changes, check_config, fill_config, load_config,
  Setting, key_set, set_api_key, hostname_set, set_api_hostname, set_keepalive, write_set,
  handle_set_config,
}

check_config_lem :
    (c c' : Config)
    → check_config c ≡ inr c'
    → (c ≡ c') × (is_empty c.api_key ≡ false) × (is_empty c.agent_uuid ≡ false)
unfolding check_config
check_config_lem c c' e = ground arith

default_twice : (s d : String) → is_empty d ≡ false → or_default (or_default s d) d ≡ or_default s d
default_twice s d h = ground arith

fill_config-again : (c : Config) → fill_config (fill_config c) ≡ fill_config c
unfolding fill_config
fill_config-again c = λ i. record c {
  api_hostname = default_twice c.api_hostname "cloud-api.percona.com" refl i;
  keepalive = keepalive_twice i;
  pid_file = default_twice c.pid_file "percona-agent.pid" refl i;
}
  where
    keepalive_twice :
        (if (if c.keepalive == 0 then 76 else c.keepalive) == 0
          then 76
          else (if c.keepalive == 0 then 76 else c.keepalive))
        ≡ (if c.keepalive == 0 then 76 else c.keepalive)
    keepalive_twice = ground arith

-- A configuration that loads is complete: it loads to itself.
pub load_config-again : (c c' : Config) → load_config c ≡ inr c' → load_config c' ≡ inr c'
unfolding load_config
load_config-again c c' e =
    let (same, key, uuid) = check_config_lem (fill_config c) c' e in
    ap check_config (ap fill_config (sym same) ∙ fill_config-again c) ∙ e

-- The configuration with what a command asks for.
unfoldable pub merged : Config → Config → Config
merged old new = record old {
  api_key = or_default new.api_key old.api_key;
  api_hostname = or_default new.api_hostname old.api_hostname;
  keepalive = if ltb 0 new.keepalive then new.keepalive else old.keepalive;
}

changes-true : (new old : String) → changes new old ≡ true → or_default new old ≡ new
changes-true new old h = ground arith

changes-false : (new old : String) → changes new old ≡ false → or_default new old ≡ old
changes-false new old h = ground (arith, string_key.beq_iff new old)

module _ {P : Type 0} where
  key_set_lem :
      (key : String) (c : Config) (es : List Failure) (r : Option Failure × P)
      → (key_set key c es r).2 ≡ []
      → ((key_set key c es r).0 ≡ record c { api_key = key }) × (es ≡ [])
  unfolding key_set
  key_set_lem key c es (none, p) e = (refl, e)
  key_set_lem key c es (some x, p) e = absurd (snoc-ne-nil es _ e)

  hostname_set_lem :
      (host : String) (c : Config) (es : List Failure) (r : Option Failure × P)
      → (hostname_set host c es r).2 ≡ []
      → ((hostname_set host c es r).0 ≡ record c { api_hostname = host }) × (es ≡ [])
  unfolding hostname_set
  hostname_set_lem host c es (none, p) e = (refl, e)
  hostname_set_lem host c es (some x, p) e = absurd (snoc-ne-nil es _ e)

  set_api_key_lem :
      (k : ApiConnector P) (key : String) (t : Setting P)
      → (set_api_key k key t).2 ≡ []
      → ((set_api_key k key t).0 ≡ record t.0 { api_key = or_default key t.0.api_key }) × (t.2 ≡ [])
  unfolding set_api_key
  set_api_key_lem k key (c, p, es) e = by_changes (changes key c.api_key) refl e
    where
      asked : Setting P
      asked = key_set key c es (k.connect (k.hostname p) key (k.agent_uuid p) p)

      by_changes :
          (b : Bool)
          → changes key c.api_key ≡ b
          → (if b then asked else (c, p, es)).2 ≡ []
          → ((if b then asked else (c, p, es)).0 ≡ record c { api_key = or_default key c.api_key })
            × (es ≡ [])
      by_changes true h e =
          let (set, none_yet) = key_set_lem key c es _ e in
          (set ∙ ap (λ x. record c { api_key = x }) (sym (changes-true key c.api_key h)), none_yet)
      by_changes false h e =
          (ap (λ x. record c { api_key = x }) (sym (changes-false key c.api_key h)), e)

  set_api_hostname_lem :
      (k : ApiConnector P) (host : String) (t : Setting P)
      → (set_api_hostname k host t).2 ≡ []
      → ((set_api_hostname k host t).0
          ≡ record t.0 { api_hostname = or_default host t.0.api_hostname })
        × (t.2 ≡ [])
  unfolding set_api_hostname
  set_api_hostname_lem k host (c, p, es) e = by_changes (changes host c.api_hostname) refl e
    where
      asked : Setting P
      asked = hostname_set host c es (k.connect host (k.api_key p) (k.agent_uuid p) p)

      by_changes :
          (b : Bool)
          → changes host c.api_hostname ≡ b
          → (if b then asked else (c, p, es)).2 ≡ []
          → ((if b then asked else (c, p, es)).0
              ≡ record c { api_hostname = or_default host c.api_hostname })
            × (es ≡ [])
      by_changes true h e =
          let (set, none_yet) = hostname_set_lem host c es _ e in
          (
            set
                ∙ ap (λ x. record c { api_hostname = x })
                    (sym (changes-true host c.api_hostname h)),
            none_yet,
          )
      by_changes false h e =
          (ap (λ x. record c { api_hostname = x }) (sym (changes-false host c.api_hostname h)), e)

  set_keepalive_lem :
      (n : ℕ) (t : Setting P)
      → ((set_keepalive n t).0 ≡ record t.0 { keepalive = if ltb 0 n then n else t.0.keepalive })
        × ((set_keepalive n t).2 ≡ t.2)
  unfolding set_keepalive
  set_keepalive_lem n (c, p, es) = elim (Bool-cases (ltb 0 n)) [
    | inl b ↦ rw (b, set_keepalive) (refl, refl)
    | inr b ↦ rw (b, set_keepalive) (refl, refl)
  ]

module _ {S P : Type 0} where
  write_set_lem :
      (w : Option Failure) (g : Agent S P) (t : Setting P)
      → (write_set w g t).1 ≡ []
      → ((write_set w g t).2.config ≡ t.0) × ((write_set w g t).2.written ≡ some t.0) × (t.2 ≡ [])
  unfolding write_set
  write_set_lem none g (c, p, es) e = (refl, refl, e)
  write_set_lem (some x) g (c, p, es) e = absurd (snoc-ne-nil es _ e)

  -- When the command that sets the configuration reports no error, the agent runs with everything
  -- that was asked for and with its old values for the rest, and the file holds the same.
  pub set_config_lem :
      (w : Option Failure) (new : Config) (g : Agent S P)
      → (handle_set_config w (inr new) g).1 ≡ []
      → ((handle_set_config w (inr new) g).2.config ≡ merged g.config new)
        × ((handle_set_config w (inr new) g).2.written ≡ some (merged g.config new))
  unfolding handle_set_config merged
  set_config_lem w new g e =
      let k = g.connector in
      let t1 = set_api_key k new.api_key (g.config, g.api, []) in
      let t2 = set_api_hostname k new.api_hostname t1 in
      let t3 = set_keepalive new.keepalive t2 in
      let (run, file, e3) = write_set_lem w g t3 e in
      let (c3, same) = set_keepalive_lem new.keepalive t2 in
      let (c2, e1) = set_api_hostname_lem k new.api_hostname t1 (sym same ∙ e3) in
      let (c1, _) = set_api_key_lem k new.api_key (g.config, g.api, []) e1 in
      let all : t3.0 ≡ merged g.config new =
        c3
        ∙ ap {A = Config} {B = Config}
            (λ c. record c {
              keepalive = if ltb 0 new.keepalive then new.keepalive else c.keepalive;
            })
            c2
        ∙ ap {A = Config} {B = Config}
            (λ c. record c {
              api_hostname = or_default new.api_hostname c.api_hostname;
              keepalive = if ltb 0 new.keepalive then new.keepalive else c.keepalive;
            })
            c1 in
      (run ∙ all, file ∙ ap some all)
