-- ===== src/Mm/Float.antt =====
-- What the statistics use of float64. There is no NaN: the order is total.
pub mod Ranks
pub mod Ints
use percona_agent.Prelude.{
  ℕ, zero, suc, ◌+◌, ◌-◌, ◌*◌, ◌/◌, ◌%◌, ◌^◌, ◌≤◌, ◌<◌, min, String, ◌≡◌, refl, sym, ap, ◌∙◌, subst,
  ◌≢◌, ◌↔◌, ◌⊎◌, inl, inr, Bool, true, false, not, ◌&&◌, ◌||◌, Option, none, some, List, [], ◌∷◌,
  ◌++◌, map, arith, ltb, leb, ◌==◌, if◌then◌else◌, tests, Bool-cases, Option-cases, length,
  get_elem?, get_or, set, take, drop, replicate, All, length-append, length-set, length-take,
  length-replicate, take-append-drop, All-append, sum_of, sum_of-append, Eq, nat_key, string_key,
  lookup, insert, erase, lookup-insert, lookup-erase,
}
use percona_agent.Prelude.Int.{ℤ}

pub record Float : Type 1 where
  pub F : Type 0
  pub zero : F
  pub add : F → F → F
  pub sub : F → F → F
  pub div : F → F → F
  pub of_int : ℤ → F
  pub le : F → F → Bool
  pub le_total : (a b : F) → (le a b ≡ true) ⊎ (le b a ≡ true)
  pub le_trans : (a b c : F) → le a b ≡ true → le b c ≡ true → le a c ≡ true

module _ (fl : Float) where
  open fl use {F, zero as nil, le}

  -- `a < b` and `a == 0`.
  abbrev pub lt : F → F → Bool
  lt a b = not (le b a)

  abbrev pub is_zero : F → Bool
  is_zero a = le a nil && le nil a

  -- sort.Float64s.
  pub insert_sorted : F → List F → List F
  insert_sorted a [] = a ∷ []
  insert_sorted a (x ∷ xs) = if le a x then a ∷ x ∷ xs else x ∷ insert_sorted a xs

  unfoldable pub sort : List F → List F
  unfolding insert_sorted
  sort [] = []
  sort (x ∷ xs) = insert_sorted x (sort xs)

  -- Each value is at most all those behind it.
  abbrev pub IsSorted : List F → Type 0
  IsSorted [] = Unit
  IsSorted (x ∷ xs) = All (λ y. le x y ≡ true) xs × IsSorted xs

  all_le_trans :
      (a b : F) (xs : List F)
      → le a b ≡ true
      → All (λ y. le b y ≡ true) xs
      → All (λ y. le a y ≡ true) xs
  all_le_trans a b [] h k = tt
  all_le_trans a b (x ∷ xs) h k = (fl.le_trans a b x h k.0, all_le_trans a b xs h k.1)

  insert_sorted-All :
      (P : F → Type 0) (a : F) (xs : List F) → P a → All P xs → All P (insert_sorted a xs)
  unfolding insert_sorted
  insert_sorted-All P a [] h k = (h, tt)
  insert_sorted-All P a (x ∷ xs) h k = elim (Bool-cases (le a x)) [
    | inl e ↦ rw e (h, k)
    | inr e ↦ rw e (k.0, insert_sorted-All P a xs h k.1)
  ]

  insert_sorted-IsSorted : (a : F) (xs : List F) → IsSorted xs → IsSorted (insert_sorted a xs)
  unfolding insert_sorted
  insert_sorted-IsSorted a [] h = (tt, tt)
  insert_sorted-IsSorted a (x ∷ xs) h = elim (Bool-cases (le a x)) [
    | inl e ↦ rw e ((e, all_le_trans a x xs e h.0), h)
    | inr e ↦ rw e (
      insert_sorted-All (λ y. le x y ≡ true) a xs (other_way e (fl.le_total a x)) h.0,
      insert_sorted-IsSorted a xs h.1,
    )
  ]
    where
      other_way : le a x ≡ false → (le a x ≡ true) ⊎ (le x a ≡ true) → le x a ≡ true
      other_way e (inl t) = cc
      other_way e (inr t) = t

  pub sort-IsSorted : (xs : List F) → IsSorted (sort xs)
  unfolding sort
  sort-IsSorted [] = tt
  sort-IsSorted (x ∷ xs) = insert_sorted-IsSorted x (sort xs) (sort-IsSorted xs)
