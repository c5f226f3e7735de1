-- ===== src/Pct/Units/Laws.antt =====
-- What Bytes and Duration of pct/sys.go print.
use percona_agent.Prelude.{
  ℕ, zero, suc, ◌+◌, ◌-◌, ◌*◌, ◌^◌, ◌≤◌, ◌<◌, ◌≡◌, refl, ap, inl, inr, false, not, ◌||◌, List, [],
  ◌∷◌, arith, ltb, ◌==◌, if◌then◌else◌, Bool-cases, All, All-append, sum_of, sum_of-append, nat_key,
  string_key,
}
use percona_agent.Pct.Units.{
  Prefix, plain, kilo, mega, giga, tera, sized, bytes, Part, days, hours, minutes, whole_seconds,
  seconds, millis, micros, count_off, second, is_empty, with_unit, end_seconds, long_duration,
  duration,
}

-- The prefix for 1000^i.
unfoldable pub prefix_of : ℕ → Prefix
prefix_of zero = plain
prefix_of (suc zero) = kilo
prefix_of (suc (suc zero)) = mega
prefix_of (suc (suc (suc zero))) = giga
prefix_of n = tera

-- Strictly between two powers of 1000, up to 1000^5, a size is printed with as many divisions by
-- 1000 as its prefix stands for.
pub bytes_between :
    (i n : ℕ) → i < 5 → 1000 ^ i < n → n < 1000 ^ suc i → bytes n ≡ sized n i (prefix_of i)
unfolding bytes prefix_of
bytes_between zero n h lo hi = ground arith
bytes_between (suc zero) n h lo hi = ground arith
bytes_between (suc (suc zero)) n h lo hi = ground arith
bytes_between (suc (suc (suc zero))) n h lo hi = ground arith
bytes_between (suc (suc (suc (suc zero)))) n h lo hi = ground arith
bytes_between (suc (suc (suc (suc (suc i))))) n h lo hi = absurd (omega arith)

-- At 1000, 1000^2, 1000^3 and 1000^4 the prefix is one step ahead of the divisions: one
-- kilobyte is printed as 1000.00 kB.
pub bytes-power :
    (i : ℕ) → i < 4 → bytes (1000 ^ suc i) ≡ sized (1000 ^ suc i) i (prefix_of (suc i))
unfolding bytes prefix_of
bytes-power zero h = refl
bytes-power (suc zero) h = refl
bytes-power (suc (suc zero)) h = refl
bytes-power (suc (suc (suc zero))) h = refl
bytes-power (suc (suc (suc (suc i)))) h = absurd (omega arith)

count_off_lem :
    (fuel unit n s : ℕ)
    → 0 < unit
    → s < fuel
    → ((count_off fuel unit n s).0 * unit + (count_off fuel unit n s).1 ≡ n * unit + s)
      × ((count_off fuel unit n s).1 < unit)
unfolding count_off
count_off_lem zero unit n s u f = absurd (omega arith)
count_off_lem (suc fuel) unit n s u f = ground (arith, count_off_lem fuel unit (suc n) (s - unit) u)

-- The nanoseconds that a printed piece stands for.
abbrev pub span : Part → ℕ
span (days n) = n * (86400 * second)
span (hours n) = n * (3600 * second)
span (minutes n) = n * (60 * second)
span (whole_seconds n) = n * second
span (seconds s) = s
span (millis n) = n * 1_000_000
span (micros n) = n * 1_000

-- No piece is as large as the next larger unit.
abbrev pub IsCarried : Part → Type 0
IsCarried (days n) = Unit
IsCarried (hours n) = n < 24
IsCarried (minutes n) = n < 60
IsCarried (whole_seconds n) = n < 60
IsCarried (seconds s) = s < 60 * second
IsCarried (millis n) = n < 1000
IsCarried (micros n) = n < 1000

span-with_unit :
    (part : ℕ → Part) (n : ℕ) (d : List Part)
    → span (part 0) ≡ 0
    → sum_of span (with_unit part n d) ≡ sum_of span d + span (part n)
unfolding sum_of
span-with_unit part n d z = elim (Bool-cases (ltb 0 n || not (is_empty d))) [
  | inl e ↦ rw e (rw (sum_of-append span d (part n ∷ [])) (omega arith))
  | inr e ↦ rw e (let n0 : n ≡ 0 = ground arith in omega (arith, ap (λ k. span (part k)) n0))
]

with_unit-IsCarried :
    (part : ℕ → Part) (n : ℕ) (d : List Part)
    → All IsCarried d
    → IsCarried (part n)
    → All IsCarried (with_unit part n d)
with_unit-IsCarried part n d h c = elim (Bool-cases (ltb 0 n || not (is_empty d))) [
  | inl e ↦ rw e (All-append IsCarried d (part n ∷ []) h (c, tt))
  | inr e ↦ rw e h
]

end_seconds_lem :
    (d : List Part) (s : ℕ)
    → All IsCarried d
    → s < 60 * second
    → (sum_of span (end_seconds d s) ≡ sum_of span d + s) × All IsCarried (end_seconds d s)
unfolding end_seconds sum_of
end_seconds_lem d s h b =
    let off = count_off_lem (suc s) second 0 s (omega arith) (omega arith) in
    elim (Bool-cases (ltb 0 (count_off (suc s) second 0 s).1)) [
      | inl e ↦ rw e (
        rw (sum_of-append span d (seconds s ∷ [])) (omega arith),
        All-append IsCarried d (seconds s ∷ []) h (b, tt),
      )
      | inr e ↦ rw e (
          let whole = (count_off (suc s) second 0 s).0 in
          let none_left : (count_off (suc s) second 0 s).1 ≡ 0 = ground arith in
          (
            rw (sum_of-append span d (whole_seconds whole ∷ [])) (omega arith),
            All-append IsCarried d (whole_seconds whole ∷ []) h (omega arith, tt),
          ))
    ]

first_span : (n : ℕ) → sum_of span (if ltb 0 n then days n ∷ [] else []) ≡ n * (86400 * second)
unfolding sum_of
first_span n = ground arith

long_duration_lem : (s : ℕ) → (sum_of span (long_duration s) ≡ s) × All IsCarried (long_duration s)
unfolding long_duration
long_duration_lem s0 =
    let day = count_off_lem (suc s0) (86400 * second) 0 s0 (omega arith) (omega arith) in
    let s1 = (count_off (suc s0) (86400 * second) 0 s0).1 in
    let hour = count_off_lem (suc s1) (3600 * second) 0 s1 (omega arith) (omega arith) in
    let s2 = (count_off (suc s1) (3600 * second) 0 s1).1 in
    let minute = count_off_lem (suc s2) (60 * second) 0 s2 (omega arith) (omega arith) in
    let s3 = (count_off (suc s2) (60 * second) 0 s2).1 in
    let n1 = (count_off (suc s0) (86400 * second) 0 s0).0 in
    let n2 = (count_off (suc s1) (3600 * second) 0 s1).0 in
    let n3 = (count_off (suc s2) (60 * second) 0 s2).0 in
    let d1 : List Part = if ltb 0 n1 then days n1 ∷ [] else [] in
    let d2 = with_unit hours n2 d1 in
    let d3 = with_unit minutes n3 d2 in
    let carried2 = with_unit-IsCarried hours n2 d1 (first_IsCarried n1) (omega arith) in
    let last =
      end_seconds_lem d3 s3 (with_unit-IsCarried minutes n3 d2 carried2 (omega arith)) minute.1 in
    (
      omega (
        arith,
        last.0,
        span-with_unit minutes n3 d2 refl,
        span-with_unit hours n2 d1 refl,
        first_span n1,
      ),
      last.1,
    )
  where
    first_IsCarried : (n : ℕ) → All IsCarried (if ltb 0 n then days n ∷ [] else [])
    first_IsCarried n = ground arith

-- From one second on, the pieces that Duration prints stand for exactly the span it was given, and
-- each is below the next larger unit. (The text of the last piece is rounded to milliseconds.)
pub duration-span :
    (s : ℕ) → second ≤ s → (sum_of span (duration s) ≡ s) × All IsCarried (duration s)
unfolding duration
duration-span s h =
    let z : (s == 0) ≡ false = ground arith in
    let a : ltb s 1_000_000 ≡ false = ground arith in
    let b : ltb s second ≡ false = ground arith in rw (z, a, b) (long_duration_lem s)

-- Below one second it prints the whole microseconds or milliseconds, and no more than a unit is lost.
pub duration-below :
    (s : ℕ)
    → s < second
    → (sum_of span (duration s) ≤ s)
      × (s < sum_of span (duration s) + 1_000_000)
      × All IsCarried (duration s)
unfolding duration sum_of
duration-below s h = ground arith
