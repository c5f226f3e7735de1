-- ===== src/Qan/SlowlogIter/Tests.antt =====
-- A run of qan/slowlog/iter.go.
use percona_agent.Prelude.{ℕ, ◌≡◌, refl, Option, none, some, [], ◌∷◌, arith, nat_key, string_key}
use percona_agent.Qan.SlowlogIter.{Interval, Tick, new_iter, run, same_file}
use percona_agent.Qan.SlowlogIter.Intervals.{intervals_of, run_intervals}

abbrev tick : ℕ → Option ℕ → ℕ → Tick
tick t n f = record {
  now = t;
  file = some "slow.log";
  size = n;
  info = some f;
  info_again = some f;
}

abbrev interval : ℕ → ℕ → ℕ → ℕ → ℕ → Interval
interval n t u from to = record {
  number = n;
  start_time = t;
  stop_time = u;
  filename = "slow.log";
  start_offset = from;
  end_offset = to;
}

-- The size is not known at the fourth tick, and the file is another one at the third.
run_intervals_example :
    (run new_iter (
      tick 60 (some 100) 7
      ∷ tick 120 (some 250) 7
      ∷ tick 180 (some 30) 8
      ∷ tick 240 none 8
      ∷ tick 300 (some 90) 8
      ∷ tick 360 (some 95) 8
      ∷ [])).intervals
    ≡ interval 1 60 120 100 250 ∷ interval 2 120 180 0 30 ∷ interval 3 300 360 90 95 ∷ []
unfolding intervals_of same_file
run_intervals_example =
    run_intervals (tick 60 (some 100) 7)
      (tick 120 (some 250) 7
        ∷ tick 180 (some 30) 8
        ∷ tick 240 none 8
        ∷ tick 300 (some 90) 8
        ∷ tick 360 (some 95) 8
        ∷ [])
      (
        ((λ e. ground arith), refl),
        (
          ((λ e. ground arith), refl),
          (
            ((λ e. ground arith), refl),
            (
              ((λ e. ground arith), refl),
              (((λ e. ground arith), refl), (((λ e. ground arith), refl), tt)),
            ),
          ),
        ),
      )
