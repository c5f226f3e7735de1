-- ===== src/Ticker/Intervals.antt =====
-- `Began` of ticker/manager.go.
use native.Mathlib.Nat.{mod-lt, div-add-mod'}
use percona_agent.Prelude.{
  ℕ, ◌+◌, ◌-◌, ◌*◌, ◌/◌, ◌%◌, ◌≤◌, ◌<◌, ◌≡◌, arith, ◌==◌, Bool-cases, ==→eq, inl, inr,
}
use percona_agent.Ticker.{began}

began_by_mod : (interval now : ℕ) → 0 < interval → began interval now ≡ now - now % interval
unfolding began
began_by_mod interval now h =
    let below = mod-lt now h in
    let split = div-add-mod' now interval in
    elim (Bool-cases (interval - now % interval == interval)) [
      | inl t ↦ rw (t, began) (omega (arith, ==→eq _ _ t, below))
      | inr t ↦ rw (t, began) (omega (arith, below))
    ]

-- The start is the greatest multiple of the interval that is not after the given time.
pub began_lem :
    (interval now : ℕ)
    → 0 < interval
    → (began interval now ≡ now / interval * interval)
      × (began interval now ≤ now)
      × (now < began interval now + interval)
began_lem interval now h =
    let below = mod-lt now h in
    let split = div-add-mod' now interval in
    let by_mod = began_by_mod interval now h in
    (
      omega (arith, split, by_mod),
      omega (arith, split, by_mod),
      omega (arith, split, by_mod, below),
    )
