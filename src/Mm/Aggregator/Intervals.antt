-- ===== src/Mm/Aggregator/Intervals.antt =====
-- The reports of mm/aggregator.go.
use mathlib.Core.Option
use native.Mathlib.Nat.{mul-mod_left, zero-mod}
use percona_agent.Prelude.{
  ℕ, ◌*◌, ◌/◌, ◌%◌, ◌≤◌, ◌<◌, ◌≡◌, refl, sym, ap, ◌∙◌, subst, ◌≢◌, inl, inr, Option, none, some,
  List, [], ◌∷◌, ◌++◌, ◌>>=◌, map, arith, ltb, ◌==◌, Bool-cases, nat_key, string_key,
}
use percona_agent.Mm.Float.{Float}
use percona_agent.Mm.Stats.Types.{Gives}
use percona_agent.Mm.Aggregator.{
  go_time, Collection, InstanceStats, Report, Aggregator, new_aggregator, finalize_instances,
  spool_report, report, reset_instance, start_interval, first_interval, next_interval,
  add_collection, on_collection, run,
}
use percona_agent.Mm.Aggregator.Safety.{interval_of-pos, run-IsSound}

-- What holds of a result, if there is one.
abbrev Ensures {ℓ κ} : {A : Type ℓ} → Option A → (A → Type κ) → Type (ℓ ⊔ κ)
Ensures {A} m P = (a : A) → m ≡ some a → P a

Ensures-bind {ℓ κ μ ν} :
    {A : Type ℓ} {B : Type κ} {P : A → Type μ} {Q : B → Type ν} (m : Option A) {f : A → Option B}
    → Ensures m P
    → ((a : A) → P a → Ensures (f a) Q)
    → Ensures (m >>= f) Q
Ensures-bind none h k b e = absurd cc
Ensures-bind (some a) h k b e = k a (h a refl) b e

Ensures-map {ℓ κ μ} :
    {A : Type ℓ} {B : Type κ} (Q : B → Type μ) (f : A → B) (m : Option A)
    → Ensures m (λ a. Q (f a))
    → Ensures (Option.map f m) Q
Ensures-map Q f none h b e = absurd cc
Ensures-map Q f (some a) h b e = let same : f a ≡ b = cc in subst Q same (h a refl)

-- GoTime of the start of an interval.
go_time-multiple : (interval ts : ℕ) → ts % interval ≡ 0 → go_time interval ts ≡ ts
unfolding go_time
go_time-multiple interval ts h = ground arith

module _ (fl : Float) where
  -- A report of an interval, with metrics.
  pub record IsReport (interval : ℕ) (r : Report fl) : Type 0 where
    pub multiple : r.ts % interval ≡ 0
    pub whole : r.duration ≡ interval
    pub some_stats : r.stats ≢ []

  abbrev pub next_ts : List (Report fl) → ℕ → ℕ
  next_ts [] limit = limit
  next_ts (r ∷ rs) limit = r.ts

  -- Reports of intervals, each before the next, and before the limit.
  abbrev pub AreReports : ℕ → ℕ → List (Report fl) → Type 0
  AreReports interval limit [] = Unit
  AreReports interval limit (r ∷ rs) =
      IsReport interval r × (r.ts < next_ts rs limit) × AreReports interval limit rs

  AreReports-mono :
      (interval limit more : ℕ) (rs : List (Report fl))
      → limit ≤ more
      → AreReports interval limit rs
      → AreReports interval more rs
  AreReports-mono interval limit more [] h k = tt
  AreReports-mono interval limit more (r ∷ []) h k = (k.0, omega (arith, h, k.1), tt)
  AreReports-mono interval limit more (r ∷ q ∷ rs) h k =
      (k.0, k.1, AreReports-mono interval limit more (q ∷ rs) h k.2)

  AreReports-append :
      (interval limit : ℕ) (r : Report fl) (rs : List (Report fl))
      → IsReport interval r
      → r.ts < limit
      → AreReports interval r.ts rs
      → AreReports interval limit (rs ++ r ∷ [])
  AreReports-append interval limit r [] h k rest = (h, k, tt)
  AreReports-append interval limit r (q ∷ []) h k rest = (rest.0, rest.1, (h, k, tt))
  AreReports-append interval limit r (q ∷ p ∷ rs) h k rest =
      (rest.0, rest.1, AreReports-append interval limit r (p ∷ rs) h k rest.2)

  -- A state between two collections.
  pub record IsTimed (interval : ℕ) (a : Aggregator fl) : Type 0 where
    pub same : a.interval ≡ interval
    pub multiple : a.cur_interval % interval ≡ 0
    pub start : a.start_ts ≡ a.cur_interval
    pub reports : AreReports interval a.cur_interval a.spooled

  start_interval-IsTimed :
      (interval ts : ℕ) (a : Aggregator fl)
      → a.interval ≡ interval
      → ts % interval ≡ 0
      → AreReports interval ts a.spooled
      → IsTimed interval (start_interval fl a ts)
  unfolding start_interval
  start_interval-IsTimed interval ts a same multiple reports = record {
    same = same;
    multiple = multiple;
    start = ap (λ i. go_time i ts) same ∙ go_time-multiple interval ts multiple;
    reports = reports;
  }

  first_interval-IsTimed :
      (interval ts : ℕ) (a : Aggregator fl)
      → IsTimed interval a
      → ts % interval ≡ 0
      → IsTimed interval (first_interval fl a ts)
  unfolding first_interval
  first_interval-IsTimed interval ts a h multiple = elim (Bool-cases (a.cur_interval == 0)) [
    | inl e ↦ rw e (
        start_interval-IsTimed interval ts a h.same multiple
          (AreReports-mono interval a.cur_interval ts a.spooled (ground arith) h.reports))
    | inr e ↦ rw e h
  ]

  -- After the report of the current interval, and before the next one.
  spool_report-reports :
      (interval limit : ℕ) (a : Aggregator fl)
      (p : List (InstanceStats fl) × List (InstanceStats fl))
      → IsTimed interval a
      → a.cur_interval < limit
      → ((spool_report fl a p).interval ≡ interval)
        × AreReports interval limit (spool_report fl a p).spooled
  unfolding spool_report
  spool_report-reports interval limit a (all, []) h k =
      (h.same, AreReports-mono interval a.cur_interval limit a.spooled (omega (arith, k)) h.reports)
  spool_report-reports interval limit a (all, i ∷ is) h k =
      let r : Report fl = record { ts = a.start_ts; duration = a.interval; stats = i ∷ is } in
      let good : IsReport interval r = record {
        multiple = ap (λ t. t % interval) h.start ∙ h.multiple;
        whole = h.same;
        some_stats = λ e. cc;
      } in
      (
        h.same,
        AreReports-append interval limit r a.spooled good (omega (arith, k, h.start))
            (subst (λ t. AreReports interval t a.spooled) (sym h.start) h.reports),
      )

  report-reports :
      (interval limit : ℕ) (a : Aggregator fl)
      → IsTimed interval a
      → a.cur_interval < limit
      → Ensures (report fl a) (λ b. (b.interval ≡ interval) × AreReports interval limit b.spooled)
  unfolding report
  report-reports interval limit a h k =
      Ensures-map (λ b. (b.interval ≡ interval) × AreReports interval limit b.spooled)
        (spool_report fl a) (finalize_instances fl a.cur)
        (λ p same. spool_report-reports interval limit a p h k)

  next_interval-IsTimed :
      (interval ts : ℕ) (a : Aggregator fl)
      → IsTimed interval a
      → ts % interval ≡ 0
      → Ensures (next_interval fl a ts) (IsTimed interval)
  unfolding next_interval
  next_interval-IsTimed interval ts a h multiple = elim (Bool-cases (ltb a.cur_interval ts)) [
    | inl e ↦ rw e (
        Ensures-map (IsTimed interval)
          (λ b. start_interval fl (record b { cur = map (reset_instance fl) b.cur }) ts)
          (report fl a)
          (λ b same.
            let (kept, reports) = report-reports interval ts a h (ground arith) b same in
            start_interval-IsTimed interval ts (record b { cur = map (reset_instance fl) b.cur })
              kept multiple reports))
    | inr e ↦ rw e (λ b same. let there : a ≡ b = cc in subst (IsTimed interval) there h)
  ]

  on_collection-IsTimed :
      (interval : ℕ) (a : Aggregator fl) (c : Collection fl)
      → 0 < interval
      → IsTimed interval a
      → Ensures (on_collection fl a c) (IsTimed interval)
  unfolding on_collection
  on_collection-IsTimed interval a c pos h =
      let ts = c.ts / interval * interval in
      let multiple = mul-mod_left (c.ts / interval) interval in
      let first = first_interval-IsTimed interval ts a h multiple in
      rw (interval_of-pos fl interval a c.ts pos h.same) (
        Ensures-bind (next_interval fl (first_interval fl a ts) ts)
          (next_interval-IsTimed interval ts (first_interval fl a ts) first multiple)
          (λ b timed. with_cur b (add_collection fl c b.cur) timed))
    where
      with_cur :
          (b : Aggregator fl) (m : Option (List (InstanceStats fl)))
          → IsTimed interval b
          → Ensures (m >>= (λ cur. some (record b { cur = cur }))) (IsTimed interval)
      with_cur b none timed q same = absurd cc
      with_cur b (some cur) timed q same =
          let there : record b { cur = cur } ≡ q = cc in
          subst (IsTimed interval) there (record {
            same = timed.same;
            multiple = timed.multiple;
            start = timed.start;
            reports = timed.reports;
          })

  run-IsTimed :
      (interval : ℕ) (a : Aggregator fl) (cs : List (Collection fl))
      → 0 < interval
      → IsTimed interval a
      → Ensures (run fl a cs) (IsTimed interval)
  unfolding run
  run-IsTimed interval a [] pos h =
      λ b e. let there : a ≡ b = cc in subst (IsTimed interval) there h
  run-IsTimed interval a (c ∷ cs) pos h =
      Ensures-bind (on_collection fl a c) (on_collection-IsTimed interval a c pos h)
        (λ b timed. run-IsTimed interval b cs pos timed)

  -- A new aggregator with an interval above 0 takes any collections, late ones among them, and the
  -- reports that it gives to the spool are of whole intervals: each starts at a multiple of the
  -- interval, after the one before it, lasts an interval and has statistics of at least one
  -- instance; and the last starts before the current interval.
  pub run-AreReports :
      (interval : ℕ) (cs : List (Collection fl))
      → 0 < interval
      → Gives
          (run fl (new_aggregator fl interval) cs)
          (λ b. AreReports interval b.cur_interval b.spooled)
  unfolding new_aggregator
  run-AreReports interval cs pos =
      let a = new_aggregator fl interval in
      let (b, same, sound) = run-IsSound fl interval a cs pos (record { same = refl; safe = tt }) in
      let new : IsTimed interval a = record {
        same = refl;
        multiple = zero-mod interval;
        start = refl;
        reports = tt;
      } in
      (b, same, (run-IsTimed interval a cs pos new b same).reports)
