-- ===== src/Prelude/Decimal.antt =====
-- Integers in decimal: `%d` of the package fmt and `ParseInt(s, 10, 64)` of the package strconv.
use percona_agent.Prelude.{
  ℕ, zero, suc, ◌+◌, ◌-◌, ◌*◌, ◌/◌, ◌%◌, ◌^◌, ◌≤◌, ◌<◌, ◌≡◌, refl, sym, ap, ◌∙◌, inl, inr, ◌||◌,
  Option, none, some, [], ◌∷◌, ◌>>=◌, arith, ltb, ◌==◌, ltb→lt, ltb→ge, if◌then◌else◌, Bool-cases,
  All,
}
use percona_agent.Prelude.Int.{ℤ, pos, negsuc}
use percona_agent.Prelude.Text.{Text, IsFree}

-- The digits of `n` before `out`; each round takes the last digit off.
unfoldable pub emit : ℕ → ℕ → Text → Text
emit zero n out = out
emit (suc fuel) n out =
    let rest = emit fuel (n / 10) ((48 + n % 10) ∷ out) in if ltb n 10 then (48 + n) ∷ out else rest

-- A number has fewer digits than its successor has units.
unfoldable pub print_ℕ : ℕ → Text
print_ℕ n = emit (suc n) n []

unfoldable pub print_ℤ : ℤ → Text
print_ℤ (pos n) = print_ℕ n
print_ℤ (negsuc n) = b'-' ∷ print_ℕ (suc n)

unfoldable pub scan : ℕ → Text → Option ℕ
scan n [] = some n
scan n (c ∷ s) = if ltb c 48 || ltb 57 c then none else scan (n * 10 + (c - 48)) s

pub parse_ℕ : Text → Option ℕ
parse_ℕ [] = none
parse_ℕ (c ∷ s) = scan 0 (c ∷ s)

pub positive : ℕ → Option ℤ
positive n = if ltb n (2 ^ 63) then some (pos n) else none

pub negative : ℕ → Option ℤ
negative zero = some (pos 0)
negative (suc n) = if ltb n (2 ^ 63) then some (negsuc n) else none

pub parse_int : Text → Option ℤ
parse_int [] = none
parse_int (c ∷ s) =
    if c == b'+'
    then parse_ℕ s >>= positive
    else if c == b'-'
    then parse_ℕ s >>= negative
    else parse_ℕ (c ∷ s) >>= positive

-- A 64-bit signed integer.
abbrev pub IsInt64 : ℤ → Type 0
IsInt64 (pos n) = n < 2 ^ 63
IsInt64 (negsuc n) = n < 2 ^ 63

scan-emit : (fuel n : ℕ) (out : Text) → n < fuel → scan 0 (emit fuel n out) ≡ scan n out
unfolding emit scan
scan-emit zero n out h = absurd (omega (arith, h))
scan-emit (suc fuel) n out h = elim (Bool-cases (ltb n 10)) [
  | inl t ↦ rw (t, emit) (ground arith)
  | inr t ↦
      rw (t, emit)
        (scan-emit fuel (n / 10) ((48 + n % 10) ∷ out) (omega (arith, h, ltb→ge _ _ t))
          ∙ ground arith)
]

-- Every character that is printed is a digit.
emit-digits :
    (fuel n : ℕ) (out : Text)
    → All (λ c. (48 ≤ c) × (c ≤ 57)) out
    → All (λ c. (48 ≤ c) × (c ≤ 57)) (emit fuel n out)
unfolding emit
emit-digits zero n out h = h
emit-digits (suc fuel) n out h = elim (Bool-cases (ltb n 10)) [
  | inl t ↦ rw (t, emit) ((omega arith, omega (arith, ltb→lt _ _ t)), h)
  | inr t ↦
      rw (t, emit) (emit-digits fuel (n / 10) ((48 + n % 10) ∷ out) ((omega arith, omega arith), h))
]

digits-IsFree : (s : Text) → All (λ c. (48 ≤ c) × (c ≤ 57)) s → IsFree b'_' s
digits-IsFree [] h = tt
digits-IsFree (c ∷ s) h = (ground arith, digits-IsFree s h.1)

pub print_ℤ-IsFree : (z : ℤ) → IsFree b'_' (print_ℤ z)
unfolding print_ℤ print_ℕ
print_ℤ-IsFree (pos n) = digits-IsFree _ (emit-digits (suc n) n [] tt)
print_ℤ-IsFree (negsuc n) = (refl, digits-IsFree _ (emit-digits (suc (suc n)) (suc n) [] tt))

-- What starts with a digit is read without a sign.
parse_int-digits :
    (s : Text) (n : ℕ)
    → All (λ c. (48 ≤ c) × (c ≤ 57)) s
    → parse_ℕ s ≡ some n
    → parse_int s ≡ positive n
unfolding parse_int parse_ℕ
parse_int-digits [] n h e = absurd (ground arith)
parse_int-digits (c ∷ s) n h e = ground arith

emit-ne-nil : (fuel n c : ℕ) (out : Text) → (d : ℕ) × (s : Text) × (emit fuel n (c ∷ out) ≡ d ∷ s)
unfolding emit
emit-ne-nil zero n c out = (c, out, refl)
emit-ne-nil (suc fuel) n c out = elim (Bool-cases (ltb n 10)) [
  | inl t ↦ rw (t, emit) (_, _, refl)
  | inr t ↦ rw (t, emit) (emit-ne-nil fuel (n / 10) (48 + n % 10) (c ∷ out))
]

emit-first : (n : ℕ) → (d : ℕ) × (s : Text) × (emit (suc n) n [] ≡ d ∷ s)
unfolding emit
emit-first n = elim (Bool-cases (ltb n 10)) [
  | inl t ↦ rw (t, emit) (_, _, refl)
  | inr t ↦ rw (t, emit) (emit-ne-nil n (n / 10) (48 + n % 10) [])
]

parse_ℕ-print_ℕ : (n : ℕ) → parse_ℕ (print_ℕ n) ≡ some n
unfolding parse_ℕ print_ℕ scan
parse_ℕ-print_ℕ n =
    let (d, s, e) = emit-first n in
    ap parse_ℕ e ∙ ap (scan 0) (sym e) ∙ scan-emit (suc n) n [] (omega arith)

pub parse_int-print_ℤ : (z : ℤ) → IsInt64 z → parse_int (print_ℤ z) ≡ some z
unfolding print_ℤ print_ℕ parse_int positive negative
parse_int-print_ℤ (pos n) h =
    parse_int-digits (print_ℕ n) n (emit-digits (suc n) n [] tt) (parse_ℕ-print_ℕ n) ∙ ground arith
parse_int-print_ℤ (negsuc n) h = ground (arith, parse_ℕ-print_ℕ (suc n))
