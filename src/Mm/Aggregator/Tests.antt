-- ===== src/Mm/Aggregator/Tests.antt =====
-- Runs of mm/aggregator.go.
use percona_agent.Prelude.{ℕ, String, refl, List, [], ◌∷◌, arith, nat_key, string_key}
use percona_agent.Prelude.Int.{pos}
use percona_agent.Mm.Float.Ints.{int_float}
use percona_agent.Mm.Stats.{gauge, other}
use percona_agent.Mm.Stats.Types.{Gives}
use percona_agent.Mm.Aggregator.{Metric, Collection, new_aggregator, run}
use percona_agent.Mm.Aggregator.Safety.{IsSound, run-IsSound}
use percona_agent.Mm.Aggregator.Intervals.{AreReports, run-AreReports}

abbrev metric : String → ℕ → Metric int_float
metric name n = record { name = name; metric_type = gauge; number = pos n }

abbrev bad : Metric int_float
bad = record { name = "version"; metric_type = other "string"; number = pos 0 }

abbrev at : ℕ → List (Metric int_float) → Collection int_float
at ts ms = record { service = "mysql"; instance_id = 1; ts = ts; metrics = ms }

abbrev collections : List (Collection int_float)
collections =
    at 61 (metric "a" 5 ∷ bad ∷ [])
    ∷ at 70 (metric "a" 7 ∷ [])
    ∷ at 121 (metric "a" 1 ∷ metric "b" 2 ∷ [])
    ∷ at 119 (metric "a" 4 ∷ [])
    ∷ at 185 []
    ∷ []

run-IsSound_example :
    Gives (run int_float (new_aggregator int_float 60) collections) (IsSound int_float 60)
unfolding new_aggregator
run-IsSound_example =
    run-IsSound int_float 60 (new_aggregator int_float 60) collections (omega arith)
      (record { same = refl; safe = tt })

run-AreReports_example :
    Gives
      (run int_float (new_aggregator int_float 60) collections)
      (λ b. AreReports int_float 60 b.cur_interval b.spooled)
run-AreReports_example = run-AreReports int_float 60 collections (omega arith)
