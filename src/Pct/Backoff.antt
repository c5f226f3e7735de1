-- ===== src/Pct/Backoff.antt =====
-- pct/backoff.go: how long a client waits before its next connect attempt.
-- Times are nanoseconds since the zero time of Go, durations are nanoseconds, and a wait is in
-- seconds. A zero `lastSuccess` is `none`.
pub mod Schedule
mod Tests
use percona_agent.Prelude.{
  ℕ, ◌+◌, ◌-◌, ◌^◌, List, [], ◌∷◌, Option, none, some, Bool, ltb, ◌==◌, if◌then◌else◌,
}

pub record Backoff : Type 0 where
  pub try : ℕ
  pub last_success : Option ℕ
  pub reset_after : ℕ

pub new_backoff : ℕ → Backoff
new_backoff reset_after = record { try = 0; last_success = none; reset_after = reset_after }

-- The seconds to wait. `jitter` is the integral part of 90 times the random number in [0, 1).
pub wait_seconds : ℕ → ℕ → ℕ
wait_seconds try jitter = if try == 0 then 0 else if ltb try 7 then 2 ^ try - 1 else 90 + jitter

pub next_try : ℕ → ℕ
next_try try = if try == 0 then try + 1 else if ltb try 7 then try + 1 else try

pub wait : Backoff → ℕ → Backoff × ℕ
unfolding wait_seconds next_try
wait b jitter = (record b { try = next_try b.try }, wait_seconds b.try jitter)

-- `checked` is what NowFunc returns, `now` what the later time.Now returns.
pub success : Backoff → ℕ → ℕ → Backoff
success b checked now = elim b.last_success [
  | none ↦ record b { last_success = some now }
  | some last ↦ record b {
    try = if ltb (b.reset_after + last) checked then 0 else b.try;
    last_success = some now;
  }
]

-- What a client does with its backoff.
pub data Call : Type 0 where
  waits : ℕ → Call
  succeeds : ℕ → ℕ → Call

pub step : Backoff → Call → Backoff
step b (waits jitter) = (wait b jitter).0
step b (succeeds checked now) = success b checked now

pub run : Backoff → List Call → Backoff
run b [] = b
run b (c ∷ cs) = run (step b c) cs

-- The waits of a client that never succeeds, one for each draw of the jitter.
pub waits_of : Backoff → List ℕ → List ℕ
waits_of b [] = []
waits_of b (j ∷ js) = (wait b j).1 ∷ waits_of (wait b j).0 js
