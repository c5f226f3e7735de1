-- ===== src/Mm/Aggregator.antt =====
-- mm/aggregator.go: collections of metrics in, a report for each interval out.
-- A state keeps the reports given to the spool, the latest last, and not whether it took them.
-- Times are seconds after 1970, below 2^53, where the float64 arithmetic of GoTime is exact; log
-- texts are left out.
pub mod Intervals
pub mod Safety
mod Tests
use mathlib.Core.Option
use percona_agent.Prelude.{or_else}
use percona_agent.Prelude.{
  ℕ, zero, suc, ◌+◌, ◌-◌, ◌*◌, ◌/◌, ◌%◌, ◌^◌, ◌≤◌, ◌<◌, min, String, ◌≡◌, refl, sym, ap, ◌∙◌, subst,
  ◌≢◌, ◌↔◌, ◌⊎◌, inl, inr, Bool, true, false, not, ◌&&◌, ◌||◌, Option, none, some, List, [], ◌∷◌,
  ◌++◌, ◌>>=◌, map, arith, ltb, leb, ◌==◌, if◌then◌else◌, tests, Bool-cases, Option-cases, length,
  get_elem?, get_or, set, take, drop, replicate, All, length-append, length-set, length-take,
  length-replicate, take-append-drop, All-append, sum_of, sum_of-append, Eq, nat_key, string_key,
  lookup, insert, erase, lookup-insert, lookup-erase,
}
use percona_agent.Prelude.Int.{pos}
use percona_agent.Prelude.{string_key}
use percona_agent.Mm.Float.{Float}
use percona_agent.Mm.Stats.{Stats, MetricType, new_stats, reset, add, finalize}

pub go_time : ℕ → ℕ → ℕ
go_time interval unix_ts =
    let d = interval - unix_ts % interval in
    if d == interval then unix_ts else unix_ts - (interval - d)

module _ (fl : Float) where
  open fl use {F}

  pub record Metric : Type 0 where
    pub name : String
    pub metric_type : MetricType
    pub number : F

  pub record Collection : Type 0 where
    pub service : String
    pub instance_id : ℕ
    pub ts : ℕ
    pub metrics : List Metric

  pub record InstanceStats : Type 0 where
    pub service : String
    pub instance_id : ℕ
    pub stats : List (String × Stats fl)

  pub record Report : Type 0 where
    pub ts : ℕ
    pub duration : ℕ
    pub stats : List InstanceStats

  pub record Aggregator : Type 0 where
    pub interval : ℕ
    pub cur_interval : ℕ
    pub start_ts : ℕ
    pub cur : List InstanceStats
    pub spooled : List Report

  unfoldable pub new_aggregator : ℕ → Aggregator
  new_aggregator interval = record {
    interval = interval;
    cur_interval = 0;
    start_ts = 0;
    cur = [];
    spooled = [];
  }

  -- The metrics of an instance after Finalize, and those of them that have values.
  pub keep_final :
      String
      → Option (Stats fl) × Stats fl
      → List (String × Stats fl) × List (String × Stats fl)
      → List (String × Stats fl) × List (String × Stats fl)
  keep_final name (none, s) (all, final) = ((name, s) ∷ all, final)
  keep_final name (some q, s) (all, final) = ((name, s) ∷ all, (name, q) ∷ final)

  pub finalize_metrics :
      List (String × Stats fl) → Option (List (String × Stats fl) × List (String × Stats fl))
  finalize_metrics [] = some ([], [])
  finalize_metrics ((name, s) ∷ stats) = do
    f ← finalize fl s
    rest ← finalize_metrics stats
    some (keep_final name f rest)

  -- An instance that has no metrics with values is not in the report.
  pub keep_instance :
      InstanceStats
      → List (String × Stats fl) × List (String × Stats fl)
      → List InstanceStats × List InstanceStats
      → List InstanceStats × List InstanceStats
  keep_instance i (stats, []) (all, final) = (record i { stats = stats } ∷ all, final)
  keep_instance i (stats, f ∷ fs) (all, final) =
      (record i { stats = stats } ∷ all, record i { stats = f ∷ fs } ∷ final)

  pub finalize_instances : List InstanceStats → Option (List InstanceStats × List InstanceStats)
  finalize_instances [] = some ([], [])
  finalize_instances (i ∷ is) = do
    metrics ← finalize_metrics i.stats
    rest ← finalize_instances is
    some (keep_instance i metrics rest)

  pub spool_report : Aggregator → List InstanceStats × List InstanceStats → Aggregator
  spool_report a (all, []) = record a { cur = all }
  spool_report a (all, i ∷ is) = record a {
    cur = all;
    spooled = a.spooled ++ record { ts = a.start_ts; duration = a.interval; stats = i ∷ is } ∷ [];
  }

  -- The method report; `none` after a panic.
  pub report : Aggregator → Option Aggregator
  report a = Option.map (spool_report a) (finalize_instances a.cur)

  pub reset_instance : InstanceStats → InstanceStats
  reset_instance i = record i { stats = map (λ s. (s.0, reset fl s.1)) i.stats }

  pub start_interval : Aggregator → ℕ → Aggregator
  start_interval a interval = record a {
    cur_interval = interval;
    start_ts = go_time a.interval interval;
  }

  pub first_interval : Aggregator → ℕ → Aggregator
  first_interval a interval = if a.cur_interval == 0 then start_interval a interval else a

  -- Metrics of the next interval have come: report this one and go on to the next.
  pub next_interval : Aggregator → ℕ → Option Aggregator
  next_interval a interval =
      if ltb a.cur_interval interval
      then Option.map (λ b. start_interval (record b { cur = map reset_instance b.cur }) interval)
          (report a)
      else some a

  pub stats_of : List (String × Stats fl) → Metric → Option (Stats fl)
  stats_of stats m = or_else (lookup m.name stats) (new_stats fl m.metric_type)

  -- A metric of an invalid type is not kept.
  pub add_to :
      List (String × Stats fl) → Metric → ℕ → Option (Stats fl) → Option (List (String × Stats fl))
  add_to stats m ts none = some stats
  add_to stats m ts (some s) =
      Option.map (λ q. insert m.name q.0 stats) (add fl s m.number (pos ts))

  pub add_metrics : List (String × Stats fl) → ℕ → List Metric → Option (List (String × Stats fl))
  add_metrics stats ts [] = some stats
  add_metrics stats ts (m ∷ ms) = do
    stats' ← add_to stats m ts (stats_of stats m)
    add_metrics stats' ts ms

  pub is_instance : Collection → InstanceStats → Bool
  is_instance c i = string_key.beq c.service i.service && c.instance_id == i.instance_id

  -- The metrics go to the first instance that is the collection's, or to a new one at the end.
  pub add_collection : Collection → List InstanceStats → Option (List InstanceStats)
  add_collection c [] = do
    stats ← add_metrics [] c.ts c.metrics
    some (record { service = c.service; instance_id = c.instance_id; stats = stats } ∷ [])
  add_collection c (i ∷ is) = elim (is_instance c i) [
    | true ↦
        Option.map (λ stats. record i { stats = stats } ∷ is) (add_metrics i.stats c.ts c.metrics)
    | false ↦ Option.map (λ rest. i ∷ rest) (add_collection c is)
  ]

  -- The start of a collection's interval; `none` is the panic of a division by zero.
  pub interval_of : Aggregator → ℕ → Option ℕ
  interval_of a ts = if a.interval == 0 then none else some (ts / a.interval * a.interval)

  -- One collection of the loop of run.
  pub on_collection : Aggregator → Collection → Option Aggregator
  on_collection a c = do
    interval ← interval_of a c.ts
    b ← next_interval (first_interval a interval) interval
    cur ← add_collection c b.cur
    some (record b { cur = cur })

  pub run : Aggregator → List Collection → Option Aggregator
  run a [] = some a
  run a (c ∷ cs) = do b ← on_collection a c; run b cs
