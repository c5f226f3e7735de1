-- ===== src/Mm/Stats/Rates.antt =====
-- What Add of mm/stats.go makes of the observations of a counter.
use mathlib.Core.List.{append-nil, append_assoc}
use percona_agent.Prelude.{
  ◌≡◌, refl, sym, ap, ◌∙◌, inl, inr, true, false, Option, none, some, List, [], ◌∷◌, ◌++◌, ◌>>=◌,
  map, if◌then◌else◌, Bool-cases, All, nat_key, string_key,
}
use percona_agent.Prelude.Int.{ℤ, ◌-ℤ◌}
use percona_agent.Mm.Float.{Float}
use percona_agent.Mm.Stats.{
  Stats, counter, zero_stats, new_stats, reset, shift, add_val, rate, add_counter, on_type, add,
  metric_types,
}

module _ (fl : Float) where
  open fl use {F, zero as nil, add as plus, sub, div, of_int, le}

  -- The observations of one interval, the errors dropped.
  pub observe : Stats fl → List (F × ℤ) → Option (Stats fl)
  observe s [] = some s
  observe s ((v, ts) ∷ obs) = do q ← add fl s v ts; observe q.0 obs

  -- The increase for each second.
  abbrev pub change : F → ℤ → F → ℤ → F
  change v ts w us = div (sub w v) (of_int (us -ℤ ts))

  -- The rate of each observation that is at least the one before it.
  unfoldable pub rates : F → ℤ → List (F × ℤ) → List F
  rates v ts [] = []
  rates v ts ((w, us) ∷ obs) = if le v w then change v ts w us ∷ rates w us obs else rates w us obs

  unfoldable pub last_of : F × ℤ → List (F × ℤ) → F × ℤ
  last_of p [] = p
  last_of p (q ∷ obs) = last_of q obs

  abbrev pub total_from : F → List F → F
  total_from a [] = a
  total_from a (x ∷ xs) = total_from (plus a x) xs

  -- A counter after at least one observation, the latest of which is `(v, ts)`.
  pub record IsAt (s : Stats fl) (v : F) (ts : ℤ) : Type 0 where
    pub typed : s.metric_type ≡ counter
    pub first : s.first_val ≡ false
    pub val : s.prev_val ≡ v
    pub at : s.prev_ts ≡ ts

  -- What `s` becomes with the observation `(w, us)` after `(v, ts)`.
  record Observes (s : Stats fl) (v : F) (ts : ℤ) (w : F) (us : ℤ) (s' : Stats fl) : Type 0 where
    is_at : IsAt s' w us
    vals : s'.vals ≡ s.vals ++ rates v ts ((w, us) ∷ [])
    sum : s'.sum ≡ total_from s.sum (rates v ts ((w, us) ∷ []))

  add-at :
      (s : Stats fl) (v : F) (ts : ℤ) (w : F) (us : ℤ)
      → IsAt s v ts
      → (add fl s w us ≡ some (add_counter fl s w us))
        × Observes s v ts w us (add_counter fl s w us).0
  unfolding add on_type add_counter shift add_val rate rates
  add-at s v ts w us h = elim (Bool-cases (le v w)) [
    | inl e ↦
        rw (h.typed, h.first, h.val, h.at, e)
          (
            refl,
            record {
              is_at = record { typed = refl; first = refl; val = refl; at = refl };
              vals = rw e refl;
              sum = rw e refl;
            },
          )
    | inr e ↦
        rw (h.typed, h.first, h.val, h.at, e)
          (
            refl,
            record {
              is_at = record { typed = refl; first = refl; val = refl; at = refl };
              vals = rw e (sym (append-nil s.vals));
              sum = rw e refl;
            },
          )
  ]

  rates-append :
      (v : F) (ts : ℤ) (obs more : List (F × ℤ))
      → rates v ts (obs ++ more)
        ≡ rates v ts obs ++ rates (last_of (v, ts) obs).0 (last_of (v, ts) obs).1 more
  unfolding rates last_of
  rates-append v ts [] more = refl
  rates-append v ts ((w, us) ∷ obs) more = elim (Bool-cases (le v w)) [
    | inl e ↦ rw e (ap (◌∷◌ (change v ts w us)) (rates-append w us obs more))
    | inr e ↦ rw e (rates-append w us obs more)
  ]

  total_from-append :
      (a : F) (xs ys : List F) → total_from a (xs ++ ys) ≡ total_from (total_from a xs) ys
  total_from-append a [] ys = refl
  total_from-append a (x ∷ xs) ys = total_from-append (plus a x) xs ys

  -- What `s` becomes with observations after `(v, ts)`.
  pub record Follows (s : Stats fl) (v : F) (ts : ℤ) (obs : List (F × ℤ)) (s' : Stats fl)
      : Type 0 where
    pub is_at : IsAt s' (last_of (v, ts) obs).0 (last_of (v, ts) obs).1
    pub vals : s'.vals ≡ s.vals ++ rates v ts obs
    pub sum : s'.sum ≡ total_from s.sum (rates v ts obs)

  pub observe-at :
      (obs : List (F × ℤ)) (s : Stats fl) (v : F) (ts : ℤ)
      → IsAt s v ts
      → (s' : Stats fl) × (observe s obs ≡ some s') × Follows s v ts obs s'
  unfolding observe last_of rates
  observe-at [] s v ts h =
      (s, refl, record { is_at = h; vals = sym (append-nil s.vals); sum = refl })
  observe-at ((w, us) ∷ obs) s v ts h =
      let (added, seen) = add-at s v ts w us h in
      let (s', same, after) = observe-at obs (add_counter fl s w us).0 w us seen.is_at in
      let split = rates-append v ts ((w, us) ∷ []) obs in
      (
        s',
        rw added same,
        record {
          is_at = after.is_at;
          vals =
              after.vals
              ∙ ap (λ x. x ++ rates w us obs) seen.vals
              ∙ append_assoc s.vals (rates v ts ((w, us) ∷ [])) (rates w us obs)
              ∙ ap (λ x. s.vals ++ x) (sym split);
          sum =
              after.sum
              ∙ ap (λ x. total_from x (rates w us obs)) seen.sum
              ∙ sym (total_from-append s.sum (rates v ts ((w, us) ∷ [])) (rates w us obs))
              ∙ ap (total_from s.sum) (sym split);
        },
      )

  -- Interval after interval, with a Reset between them: the values and the sum of each.
  pub observe_all : Stats fl → List (List (F × ℤ)) → Option (List (List F × F))
  observe_all s [] = some []
  observe_all s (obs ∷ rest) = do
    s' ← observe s obs
    out ← observe_all (reset fl s') rest
    some ((s'.vals, s'.sum) ∷ out)

  unfoldable pub join {ℓ} : {A : Type ℓ} → List (List A) → List A
  join [] = []
  join (xs ∷ xss) = xs ++ join xss

  -- The intervals, one for each, have these values and their totals.
  pub record Splits (whole : List F) (out : List (List F × F)) : Type 0 where
    pub vals : join (map (λ p. p.0) out) ≡ whole
    pub sums : All (λ p. p.1 ≡ total_from nil p.0) out

  reset-IsAt : (s : Stats fl) (v : F) (ts : ℤ) → IsAt s v ts → IsAt (reset fl s) v ts
  unfolding reset
  reset-IsAt s v ts h = record { typed = h.typed; first = h.first; val = h.val; at = h.at }

  observe_all-at :
      (rest : List (List (F × ℤ))) (s : Stats fl) (v : F) (ts : ℤ)
      → IsAt s v ts
      → s.vals ≡ []
      → s.sum ≡ nil
      → (out : List (List F × F)) × (observe_all s rest ≡ some out)
        × Splits (rates v ts (join rest)) out
  unfolding observe_all join rates reset
  observe_all-at [] s v ts h no_vals no_sum = ([], refl, record { vals = refl; sums = tt })
  observe_all-at (obs ∷ rest) s v ts h no_vals no_sum =
      let (s', same, after) = observe-at obs s v ts h in
      let (w, us) = last_of (v, ts) obs in
      let (out, rest_same, split) =
        observe_all-at rest (reset fl s') w us (reset-IsAt s' w us after.is_at) refl refl in
      let vals = after.vals ∙ ap (λ x. x ++ rates v ts obs) no_vals in
      (
        (s'.vals, s'.sum) ∷ out,
        rw (same, rest_same) refl,
        record {
          vals =
              ap (λ x. x ++ join (map (λ p. p.0) out)) vals
              ∙ ap (λ x. rates v ts obs ++ x) split.vals
              ∙ sym (rates-append v ts obs (join rest));
          sums = (
            after.sum
                ∙ ap (λ x. total_from x (rates v ts obs)) no_sum
                ∙ ap (total_from nil) (sym vals),
            split.sums,
          );
        },
      )

  -- The first observation of a counter gives no value.
  add-first :
      (s : Stats fl) (v : F) (ts : ℤ)
      → s.metric_type ≡ counter
      → s.first_val ≡ true
      → (s' : Stats fl) × (add fl s v ts ≡ some (s', none))
        × IsAt s' v ts
        × (s'.vals ≡ s.vals)
        × (s'.sum ≡ s.sum)
  unfolding add on_type add_counter shift
  add-first s v ts typed first =
      rw (typed, first)
        (_, refl, record { typed = refl; first = refl; val = refl; at = refl }, refl, refl)

  -- However its observations, of which the first interval has one, are cut into intervals with a
  -- Reset between them, the values of a new counter, joined, are the rates of change between each
  -- observation and the one before it, in their order and without the decreases; and the sum of
  -- each interval is the total of its values.
  pub counter_intervals :
      (v : F) (ts : ℤ) (obs : List (F × ℤ)) (rest : List (List (F × ℤ)))
      → (s : Stats fl) × (out : List (List F × F)) × (new_stats fl counter ≡ some s)
        × (observe_all s (((v, ts) ∷ obs) ∷ rest) ≡ some out)
        × Splits (rates v ts (obs ++ join rest)) out
  unfolding observe_all observe new_stats join metric_types
  counter_intervals v ts obs rest =
      let s : Stats fl = record (zero_stats fl) { metric_type = counter; first_val = true } in
      let (s', same, h, no_vals, no_sum) = add-first s v ts refl refl in
      let (out, all_same, split) = observe_all-at (obs ∷ rest) s' v ts h no_vals no_sum in
      (s, out, refl, rw same all_same, split)
