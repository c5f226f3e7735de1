-- ===== src/Mm/Stats.antt =====
-- mm/stats.go: the statistics of one metric. Times are seconds, far from the bounds of int64.
pub mod Percentiles
pub mod Rates
pub mod Laps
pub mod Types
mod Tests
use mathlib.Core.Option
use percona_agent.Prelude.{
  ℕ, zero, suc, ◌+◌, ◌-◌, ◌*◌, ◌/◌, ◌%◌, ◌^◌, ◌≤◌, ◌<◌, min, String, ◌≡◌, refl, sym, ap, ◌∙◌, subst,
  ◌≢◌, ◌↔◌, ◌⊎◌, inl, inr, Bool, true, false, not, ◌&&◌, ◌||◌, Option, none, some, List, [], ◌∷◌,
  ◌++◌, ◌>>=◌, map, arith, ltb, leb, ◌==◌, if◌then◌else◌, tests, Bool-cases, Option-cases, length,
  get_elem?, get_or, set, take, drop, replicate, All, length-append, length-set, length-take,
  length-replicate, take-append-drop, All-append, sum_of, sum_of-append, Eq, nat_key, string_key,
  lookup, insert, erase, lookup-insert, lookup-erase,
}
use percona_agent.Prelude.Int.{ℤ, pos, ◌-ℤ◌}
use percona_agent.Mm.Float.{Float, lt, is_zero, sort}

-- The string of a metric type; MetricTypes has the first two.
pub data MetricType : Type 0 where
  gauge : MetricType
  counter : MetricType
  other : String → MetricType

pub metric_types : MetricType → Bool
metric_types gauge = true
metric_types counter = true
metric_types (other s) = false

module _ (fl : Float) where
  open fl use {F, zero as nil, add as plus, sub, div, of_int, le}

  pub record ErrValueLap : Type 0 where
    pub timestamps : List ℤ
    pub numbers : List F

  pub record Stats : Type 0 where
    pub metric_type : MetricType
    pub first_val : Bool
    pub prev_ts : ℤ
    pub penu_ts : ℤ
    pub prev_val : F
    pub penu_val : F
    pub vals : List F
    pub sum : F
    pub cnt : ℕ
    pub min_val : F
    pub pct5 : F
    pub avg : F
    pub med : F
    pub pct95 : F
    pub max_val : F

  -- Every field has the zero value of Go.
  abbrev pub zero_stats : Stats
  zero_stats = record {
    metric_type = other "";
    first_val = false;
    prev_ts = pos 0;
    penu_ts = pos 0;
    prev_val = nil;
    penu_val = nil;
    vals = [];
    sum = nil;
    cnt = 0;
    min_val = nil;
    pct5 = nil;
    avg = nil;
    med = nil;
    pct95 = nil;
    max_val = nil;
  }

  -- `none` is the error.
  pub new_stats : MetricType → Option Stats
  new_stats t =
      if metric_types t
      then some (record zero_stats { metric_type = t; first_val = true })
      else none

  pub reset : Stats → Stats
  reset s = record s { sum = nil; vals = [] }

  -- The current values become the previous ones.
  pub shift : Stats → F → ℤ → Stats
  shift s v ts = record s { penu_ts = s.prev_ts; prev_ts = ts; penu_val = s.prev_val; prev_val = v }

  pub add_val : Stats → F → Stats
  add_val s v = record s { vals = s.vals ++ v ∷ []; sum = plus s.sum v }

  pub rate : F → ℤ → F → ℤ → F
  rate v ts w us = div (sub w v) (of_int (us -ℤ ts))

  -- `s.penuVal > 0 && s.prevVal == 0 && m.Number > s.penuVal`
  pub lapped : Stats → F → Bool
  lapped s v = lt fl nil s.penu_val && is_zero fl s.prev_val && lt fl s.penu_val v

  pub value_lap : Stats → F → ℤ → ErrValueLap
  value_lap s v ts = record {
    timestamps = s.penu_ts ∷ s.prev_ts ∷ ts ∷ [];
    numbers = s.penu_val ∷ s.prev_val ∷ v ∷ [];
  }

  pub add_counter : Stats → F → ℤ → Stats × Option ErrValueLap
  add_counter s v ts =
      if s.first_val
      then (record (shift s v ts) { first_val = false }, none)
      else if le s.prev_val v
      then (
        shift (add_val s (rate s.prev_val s.prev_ts v ts)) v ts,
        (if lapped s v then some (value_lap s v ts) else none),
      )
      else (shift s v ts, none)

  pub on_type : MetricType → Stats → F → ℤ → Option (Stats × Option ErrValueLap)
  on_type gauge s v ts = some (add_val s v, none)
  on_type counter s v ts = some (add_counter s v ts)
  on_type (other t) s v ts = none

  -- The method Add, of the number of a metric; `none` is log.Panic.
  pub add : Stats → F → ℤ → Option (Stats × Option ErrValueLap)
  add s v ts = on_type s.metric_type s v ts

  -- The branch of two or more values, which are sorted in place; `none` is an index out of range.
  pub summarize_many : Stats → ℕ → List F → Option Stats
  summarize_many s n vals = do
    a ← get_elem? vals 0
    b ← get_elem? vals (5 * n / 100)
    c ← get_elem? vals (50 * n / 100)
    d ← get_elem? vals (95 * n / 100)
    e ← get_elem? vals (n - 1)
    some (record s {
      vals = vals;
      cnt = n;
      min_val = a;
      pct5 = b;
      avg = div s.sum (of_int (pos n));
      med = c;
      pct95 = d;
      max_val = e;
    })

  pub summarize_vals : Stats → List F → Stats
  summarize_vals s (v ∷ []) = record s {
    cnt = 1;
    min_val = v;
    pct5 = v;
    avg = v;
    med = v;
    pct95 = v;
    max_val = v;
  }
  summarize_vals s vals = record s { cnt = length vals }

  pub summarize : Stats → Option Stats
  summarize s =
      if not (metric_types s.metric_type)
      then some s
      else if ltb 1 (length s.vals)
      then summarize_many s (length s.vals) (sort fl s.vals)
      else some (summarize_vals s s.vals)

  pub final_of : Stats → Stats
  final_of s = record zero_stats {
    cnt = s.cnt;
    min_val = s.min_val;
    pct5 = s.pct5;
    avg = s.avg;
    med = s.med;
    pct95 = s.pct95;
    max_val = s.max_val;
  }

  -- What Finalize returns, its `nil` being `none`, and the state it leaves; `none` after a panic.
  pub finalize : Stats → Option (Option Stats × Stats)
  finalize s =
      if length s.vals == 0
      then some (none, s)
      else Option.map (λ q. (some (final_of q), q)) (summarize s)
