-- ===== src/Pct/Units.antt =====
-- pct/sys.go: Bytes and Duration, which print a size and a time span for the status of a service.
-- What fmt prints is kept as data: the number with the divisions made, and the unit behind it.
-- A span of seconds is a number of nanoseconds; a size is below 2^53, where a float64 is exact.
pub mod Laws
mod Tests
use percona_agent.Prelude.{
  ℕ, zero, suc, ◌+◌, ◌-◌, ◌*◌, ◌/◌, ◌%◌, ◌^◌, List, [], ◌∷◌, ◌++◌, Bool, true, false, not, ◌||◌,
  ltb, leb, ◌==◌, if◌then◌else◌,
}

pub data Prefix : Type 0 where
  plain kilo mega giga tera : Prefix

-- `sized n k p` prints n / 1000^k with the prefix p.
pub data Size : Type 0 where
  nothing : Size
  sized : ℕ → ℕ → Prefix → Size

pub prefix_for : ℕ → Prefix
prefix_for n =
    if leb 1_000_000_000_000 n
    then tera
    else if leb 1_000_000_000 n
    then giga
    else if leb 1_000_000 n
    then mega
    else if leb 1_000 n
    then kilo
    else plain

-- `for f > 1000 { f /= 1000 }` with f = n / 1000^k; the fuel counts the rounds left.
pub divisions : ℕ → ℕ → ℕ → ℕ
divisions zero n k = k
divisions (suc fuel) n k =
    let rest = divisions fuel n (suc k) in if ltb (1000 * 1000 ^ k) n then rest else k

pub bytes : ℕ → Size
unfolding prefix_for divisions
bytes n = if n == 0 then nothing else sized n (divisions 7 n 0) (prefix_for n)

-- A piece of the text of a duration; the last three end it.
pub data Part : Type 0 where
  days hours minutes whole_seconds : ℕ → Part
  seconds millis micros : ℕ → Part

-- `for s >= unit { n++; s -= unit }`, on fuel.
pub count_off : ℕ → ℕ → ℕ → ℕ → ℕ × ℕ
count_off zero unit n s = (n, s)
count_off (suc fuel) unit n s =
    let rest = count_off fuel unit (suc n) (s - unit) in if leb unit s then rest else (n, s)

abbrev pub second : ℕ
second = 1_000_000_000

abbrev pub is_empty : List Part → Bool
is_empty [] = true
is_empty (p ∷ ps) = false

-- A unit is printed if it is not zero or a larger one was printed.
abbrev pub with_unit : (ℕ → Part) → ℕ → List Part → List Part
with_unit part n d = if ltb 0 n || not (is_empty d) then d ++ part n ∷ [] else d

pub end_seconds : List Part → ℕ → List Part
end_seconds d s =
    let (n, x) = count_off (suc s) second 0 s in
    if ltb 0 x then d ++ seconds s ∷ [] else d ++ whole_seconds n ∷ []

pub long_duration : ℕ → List Part
long_duration s0 =
    let (n1, s1) = count_off (suc s0) (86400 * second) 0 s0 in
    let d1 = if ltb 0 n1 then days n1 ∷ [] else [] in
    let (n2, s2) = count_off (suc s1) (3600 * second) 0 s1 in
    let d2 = with_unit hours n2 d1 in
    let (n3, s3) = count_off (suc s2) (60 * second) 0 s2 in end_seconds (with_unit minutes n3 d2) s3

pub duration : ℕ → List Part
duration s =
    if s == 0
    then []
    else if ltb s 1_000_000
    then micros (s / 1000) ∷ []
    else if ltb s second
    then millis (s / 1_000_000) ∷ []
    else long_duration s
