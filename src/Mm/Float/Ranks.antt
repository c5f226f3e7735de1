-- ===== src/Mm/Float/Ranks.antt =====
-- Where a value stands in a sorted list.
use percona_agent.Prelude.{
  ℕ, zero, suc, ◌+◌, ◌≤◌, ◌<◌, ◌≡◌, refl, ap, ◌∙◌, subst, inl, inr, Bool, true, some, List, [], ◌∷◌,
  arith, if◌then◌else◌, Bool-cases, length, get_elem?, All, nat_key, string_key,
}
use percona_agent.Mm.Float.{Float, insert_sorted, sort, IsSorted}

module _ (fl : Float) where
  open fl use {F, le}

  -- How many values pass a test.
  unfoldable pub count : (F → Bool) → List F → ℕ
  count p [] = 0
  count p (x ∷ xs) = (if p x then 1 else 0) + count p xs

  count-insert_sorted :
      (p : F → Bool) (a : F) (xs : List F) → count p (insert_sorted fl a xs) ≡ count p (a ∷ xs)
  unfolding insert_sorted count
  count-insert_sorted p a [] = refl
  count-insert_sorted p a (x ∷ xs) = elim (Bool-cases (le a x)) [
    | inl e ↦ rw e refl
    | inr e ↦ rw e (omega (arith, count-insert_sorted p a xs))
  ]

  pub count-sort : (p : F → Bool) (xs : List F) → count p (sort fl xs) ≡ count p xs
  unfolding sort count
  count-sort p [] = refl
  count-sort p (x ∷ xs) =
      count-insert_sorted p x (sort fl xs) ∙ ap (λ n. (if p x then 1 else 0) + n) (count-sort p xs)

  length-insert_sorted : (a : F) (xs : List F) → length (insert_sorted fl a xs) ≡ suc (length xs)
  unfolding insert_sorted
  length-insert_sorted a [] = refl
  length-insert_sorted a (x ∷ xs) = elim (Bool-cases (le a x)) [
    | inl e ↦ rw e refl
    | inr e ↦ rw e (ap suc (length-insert_sorted a xs))
  ]

  pub length-sort : (xs : List F) → length (sort fl xs) ≡ length xs
  unfolding sort
  length-sort [] = refl
  length-sort (x ∷ xs) = length-insert_sorted x (sort fl xs) ∙ ap suc (length-sort xs)

  pub le_refl : (a : F) → le a a ≡ true
  le_refl a = elim (fl.le_total a a) [ inl e ↦ e | inr e ↦ e ]

  All-get_elem? :
      (P : F → Type 0) (xs : List F) (i : ℕ) (a : F) → All P xs → get_elem? xs i ≡ some a → P a
  All-get_elem? P [] i a h e = absurd cc
  All-get_elem? P (x ∷ xs) zero a h e = let same : x ≡ a = cc in subst P same h.0
  All-get_elem? P (x ∷ xs) (suc i) a h e = All-get_elem? P xs i a h.1 e

  -- The values of a sorted list are in order.
  pub sorted_get :
      (xs : List F) (i j : ℕ) (a b : F)
      → IsSorted fl xs
      → i ≤ j
      → get_elem? xs i ≡ some a
      → get_elem? xs j ≡ some b
      → le a b ≡ true
  sorted_get [] i j a b h k e f = absurd cc
  sorted_get (x ∷ xs) zero zero a b h k e f = let same : a ≡ b = cc in rw same (le_refl b)
  sorted_get (x ∷ xs) zero (suc j) a b h k e f =
      let same : x ≡ a = cc in
      subst (λ y. le y b ≡ true) same (All-get_elem? (λ y. le x y ≡ true) xs j b h.0 f)
  sorted_get (x ∷ xs) (suc i) zero a b h k e f = absurd (omega (arith, k))
  sorted_get (x ∷ xs) (suc i) (suc j) a b h k e f = sorted_get xs i j a b h.1 (omega (arith, k)) e f

  -- More than `i` values are at most the one at index `i`.
  pub sorted-count_le :
      (xs : List F) (i : ℕ) (a : F)
      → IsSorted fl xs
      → get_elem? xs i ≡ some a
      → i < count (λ v. le v a) xs
  unfolding count
  sorted-count_le [] i a h e = absurd cc
  sorted-count_le (x ∷ xs) zero a h e =
      let below : le x a ≡ true = sorted_get (x ∷ xs) 0 0 x a h (omega arith) refl e in
      rw below (omega arith)
  sorted-count_le (x ∷ xs) (suc i) a h e =
      let below : le x a ≡ true = All-get_elem? (λ y. le x y ≡ true) xs i a h.0 e in
      rw below (omega (arith, sorted-count_le xs i a h.1 e))

  All-count : (p : F → Bool) (xs : List F) → All (λ v. p v ≡ true) xs → count p xs ≡ length xs
  unfolding count
  All-count p [] h = refl
  All-count p (x ∷ xs) h = rw h.0 (omega (arith, All-count p xs h.1))

  -- At most `i` values are not at least the one at index `i`.
  pub sorted-count_ge :
      (xs : List F) (i : ℕ) (a : F)
      → IsSorted fl xs
      → get_elem? xs i ≡ some a
      → length xs ≤ count (λ v. le a v) xs + i
  unfolding count
  sorted-count_ge [] i a h e = omega arith
  sorted-count_ge (x ∷ xs) zero a h e =
      let same : x ≡ a = cc in
      let all =
        All-count (λ v. le a v) (x ∷ xs)
          (subst (λ y. All (λ v. le y v ≡ true) (x ∷ xs)) same (le_refl x, h.0)) in
      omega (arith, all)
  sorted-count_ge (x ∷ xs) (suc i) a h e = omega (arith, sorted-count_ge xs i a h.1 e)

  pub get_elem?-lt : (xs : List F) (i : ℕ) → i < length xs → (a : F) × (get_elem? xs i ≡ some a)
  get_elem?-lt [] i h = absurd (omega (arith, h))
  get_elem?-lt (x ∷ xs) zero h = (x, refl)
  get_elem?-lt (x ∷ xs) (suc i) h = get_elem?-lt xs i (omega (arith, h))
