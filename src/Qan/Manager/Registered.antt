-- ===== src/Qan/Manager/Registered.antt =====
-- The analyzers of qan/manager.go and the channels on which the clock ticks.
use percona_agent.Prelude.{
  ℕ, suc, ◌<◌, if◌then◌else◌, String, ◌≡◌, refl, sym, ap, ◌∙◌, subst, false, ◌⊎◌, inl, inr, Option,
  none, some, List, [], ◌∷◌, arith, ◌==◌, ==→eq, ==_iff, Bool-cases, Option-cases, nat_key, lookup,
  erase, lookup-insert, lookup-erase,
}
use percona_agent.Ticker.{Ref, add_sync, remove}
use percona_agent.Ticker.Watchers.{
  IsWatcher, IsKnown, remove-IsKnown, remove-none, remove-keeps, add_sync-keeps, add_sync-IsKnown,
  add_sync-watcher, add_sync-others, add_sync-same, remove-watcher, remove-others,
}
use percona_agent.Qan.Manager.{
  Config, AnalyzerInstance, Manager, Answers, validate_config, register, on_restart_chan,
  on_instance, on_existing, on_valid, start_analyzer, stop_instance, stop_analyzer, stop_all,
}

-- The channel belongs to an analyzer with the given interval.
abbrev pub IsOwned : Manager → ℕ → ℕ → Type 0
IsOwned m interval c =
    (id : ℕ) × (a : AnalyzerInstance) × (lookup id m.analyzers ≡ some a)
    × (a.tick_chan ≡ c)
    × (a.config.interval ≡ interval)

-- The clock ticks on the channels of the other managers, at their intervals, and beside them only on
-- channels of analyzers that the manager has, at theirs.
pub record IsRegistered (m : Manager) : Type 0 where
  pub known : IsKnown m.clock
  pub fresh : (c : ℕ) (r : Ref) → lookup c m.clock.watcher ≡ some r → c < m.next_chan
  pub owned :
      (interval c : ℕ)
      → IsWatcher m.clock interval c
      → IsOwned m interval c ⊎ (lookup c m.others ≡ some interval)
  pub apart :
      (id : ℕ) (a : AnalyzerInstance)
      → lookup id m.analyzers ≡ some a
      → (a.tick_chan < m.next_chan) × (lookup a.tick_chan m.others ≡ none)
  pub kept :
      (c interval : ℕ)
      → lookup c m.others ≡ some interval
      → (c < m.next_chan) × IsWatcher m.clock interval c

pub new_chan : (m : Manager) → IsRegistered m → lookup m.next_chan m.clock.watcher ≡ none
new_chan m h = elim (Option-cases (lookup m.next_chan m.clock.watcher)) [
  | inl e ↦ e
  | inr (r, e) ↦ absurd (omega (arith, h.fresh m.next_chan r e))
]

pub new_other : (m : Manager) → IsRegistered m → lookup m.next_chan m.others ≡ none
new_other m h = elim (Option-cases (lookup m.next_chan m.others)) [
  | inl e ↦ e
  | inr (i, e) ↦ absurd (omega (arith, (h.kept m.next_chan i e).0))
]

pub add_fresh :
    (m : Manager) (interval : ℕ)
    → IsRegistered m
    → (d : ℕ) (r : Ref) → lookup d (add_sync m.clock m.next_chan interval).watcher ≡ some r
    → d < suc m.next_chan
add_fresh m interval h d r e = elim (Bool-cases (m.next_chan == d)) [
  | inl t ↦ omega (arith, ==→eq m.next_chan d t)
  | inr t ↦
      let old : lookup d m.clock.watcher ≡ some r =
        ground (arith, add_sync-watcher m.clock m.next_chan interval d) in
      omega (arith, h.fresh d r old)
]

-- A channel of another manager still ticks when a new channel is added.
pub add_kept :
    (m : Manager) (interval c i : ℕ)
    → IsRegistered m
    → lookup c m.others ≡ some i
    → (c < suc m.next_chan) × IsWatcher (add_sync m.clock m.next_chan interval) i c
add_kept m interval c i h e =
    let (old, w) = h.kept c i e in
    let n : (m.next_chan == c) ≡ false = ground (arith, old, ==_iff m.next_chan c) in
    (omega (arith, old), add_sync-keeps m.clock m.next_chan interval i c n w)

chan_of : Option AnalyzerInstance → ℕ
chan_of none = 0
chan_of (some a) = a.tick_chan

register-IsRegistered :
    (m : Manager) (c : Config) (dsn : String) (chan : ℕ)
    → lookup c.instance_id m.analyzers ≡ none
    → IsRegistered m
    → IsRegistered (register m c dsn chan)
unfolding register chan_of
register-IsRegistered m c dsn chan new h = record {
  known = add_sync-IsKnown m.clock m.next_chan c.interval (new_chan m h) h.known;
  fresh = λ d r e. add_fresh m c.interval h d r e;
  owned = λ i d w. elim (Bool-cases (m.next_chan == d)) [
    | inl t ↦ inl (
      c.instance_id,
      added,
      ground (
        arith,
        lookup-insert c.instance_id c.instance_id added m.analyzers,
        ==_iff c.instance_id c.instance_id,
      ),
      ==→eq m.next_chan d t,
      add_sync-same m.clock m.next_chan c.interval i (new_chan m h) h.known (
          subst (λ x. IsWatcher (add_sync m.clock m.next_chan c.interval) i x)
            (sym (==→eq m.next_chan d t)) w),
    )
    | inr t ↦ still i d (h.owned i d (add_sync-others m.clock m.next_chan c.interval i d t w))
  ];
  apart = λ id a e. elim (Bool-cases (c.instance_id == id)) [
    | inl t ↦
        let same : added.tick_chan ≡ a.tick_chan = ap chan_of (
          sym (ap (λ b. if b then some added else lookup id m.analyzers) t)
          ∙ sym (lookup-insert c.instance_id id added m.analyzers)
          ∙ e) in
        (omega (arith, same), ap (λ x. lookup x m.others) (sym same) ∙ new_other m h)
    | inr t ↦
        let old : lookup id m.analyzers ≡ some a =
          sym (ap (λ b. if b then some added else lookup id m.analyzers) t)
          ∙ sym (lookup-insert c.instance_id id added m.analyzers)
          ∙ e in
        (omega (arith, (h.apart id a old).0), (h.apart id a old).1)
  ];
  kept = λ d i e. add_kept m c.interval d i h e;
}
  where
    added : AnalyzerInstance
    added = record { dsn = dsn; restart_chan = chan; tick_chan = m.next_chan; config = c }

    still :
        (i d : ℕ)
        → IsOwned m i d ⊎ (lookup d m.others ≡ some i)
        → IsOwned (register m c dsn chan) i d ⊎ (lookup d m.others ≡ some i)
    still i d (inr o) = inr o
    still i d (inl (id, a, e, f, g)) = inl (
      id,
      a,
      ground (arith, lookup-insert c.instance_id id added m.analyzers, ==→eq c.instance_id id),
      f,
      g,
    )

-- An analyzer with another channel stays.
other_stays :
    (ms : List (ℕ × AnalyzerInstance)) (id j d : ℕ) (a b : AnalyzerInstance)
    → lookup id ms ≡ some a
    → lookup j ms ≡ some b
    → b.tick_chan ≡ d
    → (a.tick_chan == d) ≡ false
    → lookup j (erase id ms) ≡ some b
unfolding chan_of
other_stays ms id j d a b e f g n = elim (Bool-cases (id == j)) [
  | inl t ↦
      let same : a.tick_chan ≡ b.tick_chan =
        ap chan_of (sym e ∙ ap (λ x. lookup x ms) (==→eq id j t) ∙ f) in
      absurd (ground (arith, ==_iff a.tick_chan d))
  | inr t ↦ ground (arith, lookup-erase id j ms)
]

stop_instance-IsRegistered :
    (m : Manager) (id : ℕ) (o : Option AnalyzerInstance)
    → lookup id m.analyzers ≡ o
    → IsRegistered m
    → IsRegistered (stop_instance m id o)
unfolding stop_instance
stop_instance-IsRegistered m id none e h = h
stop_instance-IsRegistered m id (some a) e h = record {
  known = remove-IsKnown m.clock a.tick_chan h.known;
  fresh = λ d r f. h.fresh d r (remove-watcher m.clock a.tick_chan d r f);
  owned = λ i d w. elim (Bool-cases (a.tick_chan == d)) [
    | inl t ↦ absurd (
        remove-none m.clock a.tick_chan i h.known
          (subst (λ x. IsWatcher (remove m.clock a.tick_chan) i x) (sym (==→eq a.tick_chan d t)) w))
    | inr t ↦ still i d t (h.owned i d (remove-others m.clock a.tick_chan i d t w))
  ];
  apart = λ j b f. h.apart j b (ground (arith, lookup-erase id j m.analyzers));
  kept = λ c i f.
      let (old, w) = h.kept c i f in
      let alone = (h.apart id a e).1 in
      let n : (a.tick_chan == c) ≡ false = ground (arith, ==→eq a.tick_chan c) in
      (old, remove-keeps m.clock a.tick_chan i c n w);
}
  where
    still :
        (i d : ℕ)
        → (a.tick_chan == d) ≡ false
        → IsOwned m i d ⊎ (lookup d m.others ≡ some i)
        → IsOwned (stop_instance m id (some a)) i d ⊎ (lookup d m.others ≡ some i)
    still i d t (inr o) = inr o
    still i d t (inl (j, b, f, g, x)) = inl (j, b, other_stays m.analyzers id j d a b e f g t, g, x)

stop_analyzer-IsRegistered :
    (m : Manager) (id : ℕ) → IsRegistered m → IsRegistered (stop_analyzer m id)
unfolding stop_analyzer
stop_analyzer-IsRegistered m id h = stop_instance-IsRegistered m id (lookup id m.analyzers) refl h

pub stop_all-IsRegistered :
    (m : Manager) (ids : List ℕ) → IsRegistered m → IsRegistered (stop_all m ids)
unfolding stop_all
stop_all-IsRegistered m [] h = h
stop_all-IsRegistered m (id ∷ ids) h =
    stop_all-IsRegistered (stop_analyzer m id) ids (stop_analyzer-IsRegistered m id h)

on_existing-IsRegistered :
    (a : Answers) (m : Manager) (c : Config) (o : Option AnalyzerInstance)
    → lookup c.instance_id m.analyzers ≡ o
    → IsRegistered m
    → IsRegistered (on_existing a m c o).0
unfolding on_existing on_instance on_restart_chan
on_existing-IsRegistered a m c (some x) e h = h
on_existing-IsRegistered a m c none e h = by_dsn a.get_instance
  where
    by_chan : (dsn : String) (r : String ⊎ ℕ) → IsRegistered (on_restart_chan m c dsn r).0
    by_chan dsn (inl x) = h
    by_chan dsn (inr chan) = register-IsRegistered m c dsn chan e h

    by_dsn : (r : String ⊎ String) → IsRegistered (on_instance a m c r).0
    by_dsn (inl x) = h
    by_dsn (inr dsn) = by_chan dsn a.add_restart

pub start_analyzer-IsRegistered :
    (a : Answers) (m : Manager) (c : Config)
    → IsRegistered m
    → IsRegistered (start_analyzer a m c).0
unfolding start_analyzer on_valid
start_analyzer-IsRegistered a m c h = by_valid (validate_config c)
  where
    by_valid : (r : String ⊎ Config) → IsRegistered (on_valid a m r).0
    by_valid (inl x) = h
    by_valid (inr v) = on_existing-IsRegistered a m v (lookup v.instance_id m.analyzers) refl h
