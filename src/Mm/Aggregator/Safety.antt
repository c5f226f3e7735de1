-- ===== src/Mm/Aggregator/Safety.antt =====
-- The goroutine of mm/aggregator.go does not panic.
use percona_agent.Prelude.{
  ℕ, ◌*◌, ◌/◌, ◌<◌, String, ◌≡◌, refl, inl, inr, false, Option, none, some, List, [], ◌∷◌, map,
  arith, ltb, ◌==◌, Bool-cases, All, nat_key, string_key, lookup, insert,
}
use percona_agent.Prelude.Int.{pos}
use percona_agent.Mm.Float.{Float}
use percona_agent.Mm.Stats.{Stats, reset}
use percona_agent.Mm.Stats.Types.{
  Gives, Gives-bind, Gives-map, IsTyped, add-IsTyped, new_stats-IsTyped, reset-IsTyped,
  finalize-IsTyped,
}
use percona_agent.Mm.Aggregator.{
  Metric, Collection, InstanceStats, Aggregator, keep_final, finalize_metrics, keep_instance,
  finalize_instances, spool_report, report, reset_instance, start_interval, first_interval,
  next_interval, stats_of, add_to, add_metrics, is_instance, add_collection, interval_of,
  on_collection, run,
}

module _ (fl : Float) where
  open fl use {F}

  abbrev pub AreTyped : List (String × Stats fl) → Type 0
  AreTyped stats = All (λ s. IsTyped fl s.1) stats

  -- Every metric that the aggregator keeps has a valid type.
  abbrev pub IsSafe : List (InstanceStats fl) → Type 0
  IsSafe is = All (λ i. AreTyped i.stats) is

  insert-AreTyped :
      (name : String) (s : Stats fl) (stats : List (String × Stats fl))
      → IsTyped fl s
      → AreTyped stats
      → AreTyped (insert name s stats)
  unfolding insert
  insert-AreTyped name s [] h k = (h, tt)
  insert-AreTyped name s ((n, q) ∷ stats) h k = ground (arith, insert-AreTyped name s stats h k.1)

  lookup-IsTyped :
      (name : String) (stats : List (String × Stats fl)) (s : Stats fl)
      → AreTyped stats
      → lookup name stats ≡ some s
      → IsTyped fl s
  unfolding lookup
  lookup-IsTyped name [] s h e = absurd cc
  lookup-IsTyped name ((n, q) ∷ stats) s h e = ground (arith, lookup-IsTyped name stats s h.1)

  stats_of-IsTyped :
      (stats : List (String × Stats fl)) (m : Metric fl) (s : Stats fl)
      → AreTyped stats
      → stats_of fl stats m ≡ some s
      → IsTyped fl s
  unfolding stats_of
  stats_of-IsTyped stats m s h e =
      ground (arith, lookup-IsTyped m.name stats s h, new_stats-IsTyped fl m.metric_type s)

  add_to-AreTyped :
      (stats : List (String × Stats fl)) (m : Metric fl) (ts : ℕ) (found : Option (Stats fl))
      → AreTyped stats
      → ((s : Stats fl) → found ≡ some s → IsTyped fl s)
      → Gives (add_to fl stats m ts found) AreTyped
  unfolding add_to
  add_to-AreTyped stats m ts none h k = (stats, refl, h)
  add_to-AreTyped stats m ts (some s) h k =
      Gives-map (λ q. insert m.name q.0 stats) (add-IsTyped fl s m.number (pos ts) (k s refl))
        (λ q typed. insert-AreTyped m.name q.0 stats typed h)

  add_metrics-AreTyped :
      (stats : List (String × Stats fl)) (ts : ℕ) (ms : List (Metric fl))
      → AreTyped stats
      → Gives (add_metrics fl stats ts ms) AreTyped
  unfolding add_metrics
  add_metrics-AreTyped stats ts [] h = (stats, refl, h)
  add_metrics-AreTyped stats ts (m ∷ ms) h =
      Gives-bind
        (add_to-AreTyped stats m ts (stats_of fl stats m) h (λ s e. stats_of-IsTyped stats m s h e))
        (λ stats' h'. add_metrics-AreTyped stats' ts ms h')

  add_collection-IsSafe :
      (c : Collection fl) (is : List (InstanceStats fl))
      → IsSafe is
      → Gives (add_collection fl c is) IsSafe
  unfolding add_collection
  add_collection-IsSafe c [] h =
      Gives-bind (add_metrics-AreTyped [] c.ts c.metrics tt) (λ stats typed. (_, refl, (typed, tt)))
  add_collection-IsSafe c (i ∷ is) h = elim (Bool-cases (is_instance fl c i)) [
    | inl e ↦
        rw (e, add_collection)
          (Gives-map (λ stats. record i { stats = stats } ∷ is)
            (add_metrics-AreTyped i.stats c.ts c.metrics h.0) (λ stats typed. (typed, h.1)))
    | inr e ↦
        rw (e, add_collection)
          (Gives-map (λ rest. i ∷ rest) (add_collection-IsSafe c is h.1) (λ rest safe. (h.0, safe)))
  ]

  finalize_metrics-AreTyped :
      (stats : List (String × Stats fl))
      → AreTyped stats
      → Gives (finalize_metrics fl stats) (λ p. AreTyped p.0)
  unfolding finalize_metrics keep_final
  finalize_metrics-AreTyped [] h = (_, refl, tt)
  finalize_metrics-AreTyped ((name, s) ∷ stats) h =
      Gives-bind (finalize-IsTyped fl s h.0) (λ f typed.
        Gives-bind (finalize_metrics-AreTyped stats h.1)
          (λ rest typed'. (_, refl, keep_final-AreTyped name f rest typed typed')))
    where
      keep_final-AreTyped :
          (name : String) (f : Option (Stats fl) × Stats fl)
          (rest : List (String × Stats fl) × List (String × Stats fl))
          → IsTyped fl f.1
          → AreTyped rest.0
          → AreTyped (keep_final fl name f rest).0
      keep_final-AreTyped name (none, s) rest h k = (h, k)
      keep_final-AreTyped name (some q, s) rest h k = (h, k)

  keep_instance-IsSafe :
      (i : InstanceStats fl) (metrics : List (String × Stats fl) × List (String × Stats fl))
      (rest : List (InstanceStats fl) × List (InstanceStats fl))
      → AreTyped metrics.0
      → IsSafe rest.0
      → IsSafe (keep_instance fl i metrics rest).0
  unfolding keep_instance
  keep_instance-IsSafe i (stats, []) rest h k = (h, k)
  keep_instance-IsSafe i (stats, f ∷ fs) rest h k = (h, k)

  finalize_instances-IsSafe :
      (is : List (InstanceStats fl))
      → IsSafe is
      → Gives (finalize_instances fl is) (λ p. IsSafe p.0)
  unfolding finalize_instances
  finalize_instances-IsSafe [] h = (_, refl, tt)
  finalize_instances-IsSafe (i ∷ is) h =
      Gives-bind (finalize_metrics-AreTyped i.stats h.0) (λ metrics typed.
        Gives-bind (finalize_instances-IsSafe is h.1)
          (λ rest safe. (_, refl, keep_instance-IsSafe i metrics rest typed safe)))

  -- The state of an aggregator with this interval, not 0.
  pub record IsSound (interval : ℕ) (a : Aggregator fl) : Type 0 where
    pub same : a.interval ≡ interval
    pub safe : IsSafe a.cur

  spool_report-IsSound :
      (interval : ℕ) (a : Aggregator fl) (p : List (InstanceStats fl) × List (InstanceStats fl))
      → a.interval ≡ interval
      → IsSafe p.0
      → IsSound interval (spool_report fl a p)
  unfolding spool_report
  spool_report-IsSound interval a (all, []) h k = record { same = h; safe = k }
  spool_report-IsSound interval a (all, i ∷ is) h k = record { same = h; safe = k }

  reset-AreTyped :
      (stats : List (String × Stats fl))
      → AreTyped stats
      → AreTyped (map (λ s. (s.0, reset fl s.1)) stats)
  reset-AreTyped [] h = tt
  reset-AreTyped (s ∷ stats) h = (reset-IsTyped fl s.1 h.0, reset-AreTyped stats h.1)

  reset_all-IsSafe :
      (is : List (InstanceStats fl)) → IsSafe is → IsSafe (map (reset_instance fl) is)
  unfolding reset_instance
  reset_all-IsSafe [] h = tt
  reset_all-IsSafe (i ∷ is) h = (reset-AreTyped i.stats h.0, reset_all-IsSafe is h.1)

  report-IsSound :
      (interval : ℕ) (a : Aggregator fl)
      → IsSound interval a
      → Gives (report fl a) (IsSound interval)
  unfolding report
  report-IsSound interval a h =
      Gives-map (spool_report fl a) (finalize_instances-IsSafe a.cur h.safe)
        (λ p safe. spool_report-IsSound interval a p h.same safe)

  next_interval-IsSound :
      (interval ts : ℕ) (a : Aggregator fl)
      → IsSound interval a
      → Gives (next_interval fl a ts) (IsSound interval)
  unfolding next_interval start_interval
  next_interval-IsSound interval ts a h = elim (Bool-cases (ltb a.cur_interval ts)) [
    | inl e ↦ rw e (
        Gives-map (λ b. start_interval fl (record b { cur = map (reset_instance fl) b.cur }) ts)
          (report-IsSound interval a h)
          (λ b sound. record { same = sound.same; safe = reset_all-IsSafe b.cur sound.safe }))
    | inr e ↦ rw e (a, refl, h)
  ]

  first_interval-IsSound :
      (interval ts : ℕ) (a : Aggregator fl)
      → IsSound interval a
      → IsSound interval (first_interval fl a ts)
  unfolding first_interval start_interval
  first_interval-IsSound interval ts a h = elim (Bool-cases (a.cur_interval == 0)) [
    | inl e ↦ rw e (record { same = h.same; safe = h.safe })
    | inr e ↦ rw e h
  ]

  pub interval_of-pos :
      (interval : ℕ) (a : Aggregator fl) (ts : ℕ)
      → 0 < interval
      → a.interval ≡ interval
      → interval_of fl a ts ≡ some (ts / interval * interval)
  unfolding interval_of
  interval_of-pos interval a ts h e =
      let pos : (interval == 0) ≡ false = ground arith in rw (e, pos) refl

  on_collection-IsSound :
      (interval : ℕ) (a : Aggregator fl) (c : Collection fl)
      → 0 < interval
      → IsSound interval a
      → Gives (on_collection fl a c) (IsSound interval)
  unfolding on_collection
  on_collection-IsSound interval a c h k =
      let ts = c.ts / interval * interval in
      rw (interval_of-pos interval a c.ts h k.same) (
        Gives-bind
          (next_interval-IsSound interval ts (first_interval fl a ts)
            (first_interval-IsSound interval ts a k))
          (λ b sound.
            Gives-bind (add_collection-IsSafe c b.cur sound.safe)
              (λ cur safe. (_, refl, record { same = sound.same; safe = safe }))))

  -- With an interval above 0, and in a state where every metric has a valid type, as in a new one,
  -- the aggregator takes any collections, metrics of an invalid type among them, without a panic:
  -- neither Add nor the indices of Summarize stop it. Its interval does not change, and every
  -- metric that it keeps still has a valid type.
  pub run-IsSound :
      (interval : ℕ) (a : Aggregator fl) (cs : List (Collection fl))
      → 0 < interval
      → IsSound interval a
      → Gives (run fl a cs) (IsSound interval)
  unfolding run
  run-IsSound interval a [] h k = (a, refl, k)
  run-IsSound interval a (c ∷ cs) h k =
      Gives-bind (on_collection-IsSound interval a c h k)
        (λ b sound. run-IsSound interval b cs h sound)
