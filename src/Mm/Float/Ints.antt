-- ===== src/Mm/Float/Ints.antt =====
-- Integers as numbers of float64, for tests.
use percona_agent.Prelude.{
  ◌+◌, ◌/◌, ◌≡◌, ◌⊎◌, inl, inr, Bool, true, arith, leb, Bool-cases, nat_key, string_key,
}
use percona_agent.Prelude.Int.{ℤ, pos, pos_part, neg_part, ◌+ℤ◌, ◌-ℤ◌}
use percona_agent.Mm.Float.{Float}

abbrev leb_ℤ : ℤ → ℤ → Bool
leb_ℤ a b = leb (pos_part a + neg_part b) (pos_part b + neg_part a)

abbrev div_ℤ : ℤ → ℤ → ℤ
div_ℤ (pos n) (pos m) = pos (n / m)
div_ℤ a b = pos 0

pub leb_ℤ_total : (a b : ℤ) → (leb_ℤ a b ≡ true) ⊎ (leb_ℤ b a ≡ true)
leb_ℤ_total a b = elim (Bool-cases (leb_ℤ a b)) [ inl e ↦ inl e | inr e ↦ inr (ground arith) ]

pub leb_ℤ_trans : (a b c : ℤ) → leb_ℤ a b ≡ true → leb_ℤ b c ≡ true → leb_ℤ a c ≡ true
leb_ℤ_trans a b c h k = ground arith

abbrev pub int_float : Float
int_float = record {
  F = ℤ;
  zero = pos 0;
  add = ◌+ℤ◌;
  sub = ◌-ℤ◌;
  div = div_ℤ;
  of_int = λ a. a;
  le = leb_ℤ;
  le_total = leb_ℤ_total;
  le_trans = leb_ℤ_trans;
}
