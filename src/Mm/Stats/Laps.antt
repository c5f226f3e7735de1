-- ===== src/Mm/Stats/Laps.antt =====
-- The error of mm/stats.go for a counter that went to 0 and came back higher.
use percona_agent.Prelude.{
  ◌≡◌, refl, ap, ◌∙◌, true, false, ◌&&◌, Option, none, some, [], ◌∷◌, arith, if◌then◌else◌, nat_key,
  string_key,
}
use percona_agent.Prelude.Int.{ℤ}
use percona_agent.Mm.Float.{Float, lt, is_zero}
use percona_agent.Mm.Stats.{
  Stats, counter, shift, add_val, lapped, value_lap, add_counter, ErrValueLap, on_type, add,
}

module _ (fl : Float) where
  open fl use {F, zero as nil, le}

  -- `s'` is `s` after the number `v` at the time `ts`.
  record Shifts (s : Stats fl) (v : F) (ts : ℤ) (s' : Stats fl) : Type 0 where
    typed : s'.metric_type ≡ counter
    first : s'.first_val ≡ false
    prev_val : s'.prev_val ≡ v
    prev_ts : s'.prev_ts ≡ ts
    penu_val : s'.penu_val ≡ s.prev_val
    penu_ts : s'.penu_ts ≡ s.prev_ts

  add_counter-Shifts :
      (s : Stats fl) (v : F) (ts : ℤ)
      → s.metric_type ≡ counter
      → Shifts s v ts (add_counter fl s v ts).0
  unfolding add_counter shift add_val
  add_counter-Shifts s v ts typed = record {
    typed = ground arith;
    first = ground arith;
    prev_val = ground arith;
    prev_ts = ground arith;
    penu_val = ground arith;
    penu_ts = ground arith;
  }

  -- A lap is no decrease.
  lap-le : (a b c : F) → (lt fl nil a && is_zero fl b && lt fl a c) ≡ true → le b c ≡ true
  lap-le a b c h =
      let below : le b nil ≡ true = ground arith in
      let up : le nil a ≡ true = ground (arith, fl.le_total nil a) in
      let top : le a c ≡ true = ground (arith, fl.le_total a c) in
      fl.le_trans b nil c below (fl.le_trans nil a c up top)

  add_counter-lap :
      (s : Stats fl) (v : F) (ts : ℤ)
      → s.first_val ≡ false
      → (add_counter fl s v ts).1 ≡ (if lapped fl s v then some (value_lap fl s v ts) else none)
  unfolding add_counter lapped
  add_counter-lap s v ts first = ground (arith, lap-le s.penu_val s.prev_val v)

  lapped-Shifts :
      (s r q : Stats fl) (a b c : F) (ta tb tc : ℤ)
      → Shifts s a ta r
      → Shifts r b tb q
      → (if lapped fl q c then some (value_lap fl q c tc) else none) ≡ (
          if lt fl nil a && is_zero fl b && lt fl a c
          then some (record { timestamps = ta ∷ tb ∷ tc ∷ []; numbers = a ∷ b ∷ c ∷ [] })
          else none)
  unfolding lapped value_lap
  lapped-Shifts s r q a b c ta tb tc h k =
      rw (k.penu_val ∙ h.prev_val, k.penu_ts ∙ h.prev_ts, k.prev_val, k.prev_ts) refl

  -- Of three numbers in a row, `a`, `b` and `c`, given to a counter in any state, the third Add
  -- returns an error exactly if `a` is above 0, `b` is 0 and `c` is above `a`; the error holds the
  -- three numbers and their times.
  pub value_lap_exactly :
      (s : Stats fl) (a b c : F) (ta tb tc : ℤ)
      → s.metric_type ≡ counter
      → (q1 q2 q3 : Stats fl × Option (ErrValueLap fl)) × (add fl s a ta ≡ some q1)
        × (add fl q1.0 b tb ≡ some q2)
        × (add fl q2.0 c tc ≡ some q3)
        × (q3.1 ≡ (
            if lt fl nil a && is_zero fl b && lt fl a c
            then some (record { timestamps = ta ∷ tb ∷ tc ∷ []; numbers = a ∷ b ∷ c ∷ [] })
            else none))
  unfolding add on_type
  value_lap_exactly s a b c ta tb tc typed =
      let q1 = add_counter fl s a ta in
      let h1 = add_counter-Shifts s a ta typed in
      let q2 = add_counter fl q1.0 b tb in
      let h2 = add_counter-Shifts q1.0 b tb h1.typed in
      let q3 = add_counter fl q2.0 c tc in
      (
        q1,
        q2,
        q3,
        ap (λ t. on_type fl t s a ta) typed,
        ap (λ t. on_type fl t q1.0 b tb) h1.typed,
        ap (λ t. on_type fl t q2.0 c tc) h2.typed,
        add_counter-lap q2.0 c tc h2.first ∙ lapped-Shifts s q1.0 q2.0 a b c ta tb tc h1 h2,
      )
