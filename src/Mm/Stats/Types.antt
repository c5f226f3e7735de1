-- ===== src/Mm/Stats/Types.antt =====
-- The metrics of mm/stats.go that NewStats makes have a valid type, which nothing changes; on them
-- no operation panics.
use mathlib.Core.Option
use percona_agent.Prelude.{
  ◌≡◌, refl, ap, ◌∙◌, true, Option, none, some, List, [], ◌∷◌, ◌>>=◌, arith, nat_key, string_key,
}
use percona_agent.Prelude.Int.{ℤ}
use percona_agent.Mm.Float.{Float}
use percona_agent.Mm.Stats.{
  Stats, MetricType, metric_types, gauge, counter, other, new_stats, reset, add, on_type,
  add_counter, shift, add_val, finalize,
}
use percona_agent.Mm.Stats.Percentiles.{finalize_cons, finalize-empty}

-- A code path has a result, which has a property.
abbrev pub Gives {ℓ κ} : {A : Type ℓ} → Option A → (A → Type κ) → Type (ℓ ⊔ κ)
Gives {A} m P = (a : A) × (m ≡ some a) × P a

pub Gives-bind {ℓ κ μ ν} :
    {A : Type ℓ} {B : Type κ} {P : A → Type μ} {Q : B → Type ν} {m : Option A} {f : A → Option B}
    → Gives m P
    → ((a : A) → P a → Gives (f a) Q)
    → Gives (m >>= f) Q
Gives-bind (a, e, h) k = rw e (k a h)

pub Gives-map {ℓ κ μ ν} :
    {A : Type ℓ} {B : Type κ} {P : A → Type μ} {Q : B → Type ν} {m : Option A} (f : A → B)
    → Gives m P
    → ((a : A) → P a → Q (f a))
    → Gives (Option.map f m) Q
Gives-map f (a, e, h) k = rw e (f a, refl, k a h)

module _ (fl : Float) where
  open fl use {F}

  abbrev pub IsTyped : Stats fl → Type 0
  IsTyped s = metric_types s.metric_type ≡ true

  add_counter-metric_type :
      (s : Stats fl) (v : F) (ts : ℤ) → (add_counter fl s v ts).0.metric_type ≡ s.metric_type
  unfolding add_counter shift add_val
  add_counter-metric_type s v ts = ground arith

  on_type-IsTyped :
      (t : MetricType) (s : Stats fl) (v : F) (ts : ℤ)
      → metric_types t ≡ true
      → IsTyped s
      → Gives (on_type fl t s v ts) (λ q. IsTyped q.0)
  unfolding on_type add_val metric_types
  on_type-IsTyped gauge s v ts typed h = (_, refl, h)
  on_type-IsTyped counter s v ts typed h =
      (_, refl, ap metric_types (add_counter-metric_type s v ts) ∙ h)
  on_type-IsTyped (other t) s v ts typed h = absurd cc

  pub add-IsTyped :
      (s : Stats fl) (v : F) (ts : ℤ) → IsTyped s → Gives (add fl s v ts) (λ q. IsTyped q.0)
  unfolding add
  add-IsTyped s v ts h = on_type-IsTyped s.metric_type s v ts h h

  pub new_stats-IsTyped : (t : MetricType) (s : Stats fl) → new_stats fl t ≡ some s → IsTyped s
  unfolding new_stats
  new_stats-IsTyped t s e = ground arith

  pub reset-IsTyped : (s : Stats fl) → IsTyped s → IsTyped (reset fl s)
  unfolding reset
  reset-IsTyped s h = h

  pub finalize-IsTyped : (s : Stats fl) → IsTyped s → Gives (finalize fl s) (λ f. IsTyped f.1)
  finalize-IsTyped s h = by_vals s.vals refl
    where
      by_vals : (vals : List F) → s.vals ≡ vals → Gives (finalize fl s) (λ f. IsTyped f.1)
      by_vals [] e = ((none, s), finalize-empty fl s e, h)
      by_vals (v ∷ vals) e =
          let (q, s', same, kept, good) = finalize_cons fl s v vals h e in
          ((some q, s'), same, ap metric_types kept ∙ h)
