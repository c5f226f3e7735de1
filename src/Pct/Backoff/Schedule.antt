-- ===== src/Pct/Backoff/Schedule.antt =====
-- The schedule of the waits of pct/backoff.go, and when it starts again.
use percona_agent.Prelude.{
  ℕ, zero, suc, ◌+◌, ◌≤◌, ◌<◌, ◌≡◌, refl, ap, ◌∙◌, some, List, [], ◌∷◌, map, arith, ltb,
  if◌then◌else◌, length, get_elem?, get_or, nat_key, string_key,
}
use percona_agent.Pct.Backoff.{
  Backoff, new_backoff, wait_seconds, next_try, wait, success, Call, waits, succeeds, step, run,
  waits_of,
}

-- The comment in the source: 0s, 1s, 3s, 7s, 15s, 31s, 1m3s.
abbrev pub schedule : List ℕ
schedule = 0 ∷ 1 ∷ 3 ∷ 7 ∷ 15 ∷ 31 ∷ 63 ∷ []

wait_seconds_lem : (t j : ℕ) → wait_seconds t j ≡ get_or schedule t (90 + j)
unfolding wait_seconds
wait_seconds_lem zero j = refl
wait_seconds_lem (suc zero) j = refl
wait_seconds_lem (suc (suc zero)) j = refl
wait_seconds_lem (suc (suc (suc zero))) j = refl
wait_seconds_lem (suc (suc (suc (suc zero)))) j = refl
wait_seconds_lem (suc (suc (suc (suc (suc zero))))) j = refl
wait_seconds_lem (suc (suc (suc (suc (suc (suc zero)))))) j = refl
wait_seconds_lem (suc (suc (suc (suc (suc (suc (suc t))))))) j = ground arith

-- From the seventh try on the schedule is past its end.
schedule_past : (t j : ℕ) → 7 ≤ t → get_or schedule t j ≡ j
schedule_past (suc (suc (suc (suc (suc (suc (suc t))))))) j h = refl
schedule_past t j h = absurd (omega arith)

waits_of_from :
    (b : Backoff) (js : List ℕ) (i : ℕ)
    → b.try ≤ 7
    → i < length js
    → get_elem? (waits_of b js) i ≡ some (get_or schedule (b.try + i) (90 + get_or js i 0))
unfolding waits_of wait next_try
waits_of_from b [] i h lt = absurd (omega arith)
waits_of_from b (j ∷ js) zero h lt = ground (arith, wait_seconds_lem b.try j)
waits_of_from b (j ∷ js) (suc i) h lt = ground (
  arith,
  waits_of_from (wait b j).0 js i,
  schedule_past (b.try + suc i) (90 + get_or js i 0),
  schedule_past (b.try + i) (90 + get_or js i 0),
)

-- A client that never succeeds waits 0, 1, 3, 7, 15, 31 and 63 seconds, and from its eighth
-- attempt on 90 seconds and the jitter of that attempt.
pub waits_of-schedule :
    (reset_after : ℕ) (js : List ℕ) (i : ℕ)
    → i < length js
    → get_elem? (waits_of (new_backoff reset_after) js) i
      ≡ some (get_or (0 ∷ 1 ∷ 3 ∷ 7 ∷ 15 ∷ 31 ∷ 63 ∷ []) i (90 + get_or js i 0))
unfolding new_backoff
waits_of-schedule r js i h =
    waits_of_from (new_backoff r) js i (omega arith) h
    ∙ ap some (ap (λ k. get_or schedule k (90 + get_or js i 0)) (omega arith))

step-try_le : (b : Backoff) (c : Call) → b.try ≤ 7 → (step b c).try ≤ 7
unfolding step wait next_try success
step-try_le b (waits j) h = ground arith
step-try_le b (succeeds c n) h = ground arith

run-try_le : (b : Backoff) (cs : List Call) → b.try ≤ 7 → (run b cs).try ≤ 7
unfolding run
run-try_le b [] h = h
run-try_le b (c ∷ cs) h = run-try_le (step b c) cs (step-try_le b c h)

wait_seconds-lt : (t j : ℕ) → j < 90 → wait_seconds t j < 180
wait_seconds-lt t j h = ground (arith, wait_seconds_lem t j, small t)
  where
    small : (t : ℕ) → get_or schedule t (90 + j) < 180
    small (suc (suc (suc (suc (suc (suc (suc t))))))) = omega arith
    small t = omega arith

-- After any history of waits and successes the next wait is below three minutes.
pub wait-lt :
    (reset_after : ℕ) (cs : List Call) (j : ℕ)
    → j < 90
    → (wait (run (new_backoff reset_after) cs) j).1 < 180
unfolding wait
wait-lt r cs j h = wait_seconds-lt (run (new_backoff r) cs).try j h

last_success-waits :
    (b : Backoff) (js : List ℕ)
    → ((run b (map waits js)).last_success ≡ b.last_success)
      × ((run b (map waits js)).reset_after ≡ b.reset_after)
unfolding run step wait
last_success-waits b [] = (refl, refl)
last_success-waits b (j ∷ js) = last_success-waits (step b (waits j)) js

success_known :
    (b : Backoff) (last c n : ℕ)
    → b.last_success ≡ some last
    → success b c n
      ≡ record b { try = if ltb (b.reset_after + last) c then 0 else b.try; last_success = some n }
unfolding success
success_known b last c n e = rw (e, success)

success_stamps :
    (b : Backoff) (c n : ℕ)
    → ((success b c n).last_success ≡ some n) × ((success b c n).reset_after ≡ b.reset_after)
unfolding success
success_stamps b c n = ground arith

-- After a success and any waits, the next success starts the schedule again exactly if it comes
-- later than `reset_after` past the first; else the schedule goes on where it was. The first
-- success is the one that counts, whatever the waits in between.
pub success-restarts :
    (b : Backoff) (c₁ n₁ c₂ n₂ : ℕ) (js : List ℕ)
    → let up = run (success b c₁ n₁) (map waits js) in
      success up c₂ n₂ ≡ record up {
        try = if ltb (b.reset_after + n₁) c₂ then 0 else up.try;
        last_success = some n₂;
      }
success-restarts b c₁ n₁ c₂ n₂ js =
    let kept = last_success-waits (success b c₁ n₁) js in
    let stamps = success_stamps b c₁ n₁ in
    success_known _ n₁ c₂ n₂ (kept.0 ∙ stamps.0)
    ∙ ap
        (λ r. record (run (success b c₁ n₁) (map waits js)) {
          try = if ltb (r + n₁) c₂ then 0 else (run (success b c₁ n₁) (map waits js)).try;
          last_success = some n₂;
        })
        (kept.1 ∙ stamps.1)
