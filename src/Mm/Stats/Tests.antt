-- ===== src/Mm/Stats/Tests.antt =====
-- Runs of mm/stats.go.
use percona_agent.Prelude.{◌≡◌, refl, true, some, List, [], ◌∷◌, nat_key, string_key}
use percona_agent.Prelude.Int.{ℤ, pos, ◌-ℤ◌}
use percona_agent.Mm.Float.{sort}
use percona_agent.Mm.Float.Ints.{int_float}
use percona_agent.Mm.Stats.{Stats, counter, gauge, zero_stats, new_stats, metric_types, finalize}
use percona_agent.Mm.Stats.Percentiles.{IsSummary, finalize-IsSummary}
use percona_agent.Mm.Stats.Rates.{observe_all, Splits, rates, join, counter_intervals}

abbrev gauges : Stats int_float
gauges = record (zero_stats int_float) {
  metric_type = gauge;
  vals = pos 7 ∷ pos 3 ∷ pos 5 ∷ [];
  sum = pos 15;
}

sort_run : sort int_float (pos 7 ∷ pos 3 ∷ pos 5 ∷ []) ≡ pos 3 ∷ pos 5 ∷ pos 7 ∷ []
unfolding sort
sort_run = refl

rates_run :
    rates int_float
      (pos 10)
      (pos 100)
      ((pos 30, pos 110) ∷ (pos 5, pos 120) ∷ (pos 15, pos 130) ∷ [])
    ≡ pos 2 ∷ pos 1 ∷ []
unfolding rates ◌-ℤ◌
rates_run = refl

finalize-IsSummary_example :
    (q : Stats int_float) × (s' : Stats int_float) × (finalize int_float gauges ≡ some (some q, s'))
    × IsSummary int_float (pos 7 ∷ pos 3 ∷ pos 5 ∷ []) q
unfolding metric_types
finalize-IsSummary_example = finalize-IsSummary int_float gauges refl (λ e. cc)

counter_intervals_example :
    (s : Stats int_float) × (out : List (List ℤ × ℤ)) × (new_stats int_float counter ≡ some s)
    × (observe_all int_float s (
          ((pos 10, pos 100) ∷ (pos 30, pos 110) ∷ [])
          ∷ ((pos 5, pos 120) ∷ (pos 15, pos 130) ∷ [])
          ∷ [])
        ≡ some out)
    × Splits int_float (pos 2 ∷ pos 1 ∷ []) out
unfolding rates ◌-ℤ◌ join
counter_intervals_example =
    counter_intervals int_float (pos 10) (pos 100) ((pos 30, pos 110) ∷ [])
      (((pos 5, pos 120) ∷ (pos 15, pos 130) ∷ []) ∷ [])

abbrev counts : Stats int_float
counts = record (zero_stats int_float) { metric_type = counter; first_val = true }
