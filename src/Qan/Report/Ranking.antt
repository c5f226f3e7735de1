-- ===== src/Qan/Report/Ranking.antt =====
-- The top classes of qan/report.go.
use percona_agent.Prelude.{
  ℕ, zero, suc, ◌+◌, ◌<◌, ◌≡◌, refl, sym, ap, ◌∙◌, ◌⊎◌, inl, inr, true, false, ◌||◌, some, List, [],
  ◌∷◌, ◌++◌, arith, leb, ◌==◌, Bool-cases, length, take, drop, All, length-take, take-append-drop,
  sum_of, nat_key, string_key,
}
use percona_agent.Mm.Float.{Float}
use percona_agent.Qan.Report.{
  QueryClass, Result, Span, Report, add_queries, new_query_class, query_time, all_have,
  insert_class, sort_classes, top_classes, report_of, make_report,
}

module _ (fl : Float) where
  open fl use {F, le}

  -- The class is at least as slow.
  abbrev pub IsSlower : QueryClass fl → QueryClass fl → Type 0
  IsSlower a b = le (query_time fl b) (query_time fl a) ≡ true

  abbrev pub IsDescending : List (QueryClass fl) → Type 0
  IsDescending [] = Unit
  IsDescending (q ∷ qs) = All (IsSlower q) qs × IsDescending qs

  IsSlower-trans :
      (a b : QueryClass fl) (qs : List (QueryClass fl))
      → IsSlower a b
      → All (IsSlower b) qs
      → All (IsSlower a) qs
  IsSlower-trans a b [] h k = tt
  IsSlower-trans a b (q ∷ qs) h k = (
    fl.le_trans (query_time fl q) (query_time fl b) (query_time fl a) k.0 h,
    IsSlower-trans a b qs h k.1,
  )

  insert_class-All :
      (P : QueryClass fl → Type 0) (q : QueryClass fl) (qs : List (QueryClass fl))
      → P q
      → All P qs
      → All P (insert_class fl q qs)
  unfolding insert_class
  insert_class-All P q [] h k = (h, tt)
  insert_class-All P q (r ∷ rs) h k = elim (Bool-cases (le (query_time fl r) (query_time fl q))) [
    | inl e ↦ rw e (h, k)
    | inr e ↦ rw e (k.0, insert_class-All P q rs h k.1)
  ]

  insert_class-IsDescending :
      (q : QueryClass fl) (qs : List (QueryClass fl))
      → IsDescending qs
      → IsDescending (insert_class fl q qs)
  unfolding insert_class
  insert_class-IsDescending q [] h = (tt, tt)
  insert_class-IsDescending q (r ∷ rs) h =
      elim (Bool-cases (le (query_time fl r) (query_time fl q))) [
        | inl e ↦ rw e ((e, IsSlower-trans q r rs e h.0), h)
        | inr e ↦ rw e (
          insert_class-All (IsSlower r) q rs
              (other_way e (fl.le_total (query_time fl r) (query_time fl q))) h.0,
          insert_class-IsDescending q rs h.1,
        )
      ]
    where
      other_way :
          le (query_time fl r) (query_time fl q) ≡ false
          → (le (query_time fl r) (query_time fl q) ≡ true)
            ⊎ (le (query_time fl q) (query_time fl r) ≡ true)
          → IsSlower r q
      other_way e (inl t) = absurd cc
      other_way e (inr t) = t

  sort_classes-IsDescending : (qs : List (QueryClass fl)) → IsDescending (sort_classes fl qs)
  unfolding sort_classes
  sort_classes-IsDescending [] = tt
  sort_classes-IsDescending (q ∷ qs) =
      insert_class-IsDescending q (sort_classes fl qs) (sort_classes-IsDescending qs)

  insert_class-sum_of :
      (f : QueryClass fl → ℕ) (q : QueryClass fl) (qs : List (QueryClass fl))
      → sum_of f (insert_class fl q qs) ≡ f q + sum_of f qs
  unfolding insert_class sum_of
  insert_class-sum_of f q [] = refl
  insert_class-sum_of f q (r ∷ rs) = elim (Bool-cases (le (query_time fl r) (query_time fl q))) [
    | inl e ↦ rw e refl
    | inr e ↦ rw e (omega (arith, insert_class-sum_of f q rs))
  ]

  sort_classes-sum_of :
      (f : QueryClass fl → ℕ) (qs : List (QueryClass fl))
      → sum_of f (sort_classes fl qs) ≡ sum_of f qs
  unfolding sort_classes sum_of
  sort_classes-sum_of f [] = refl
  sort_classes-sum_of f (q ∷ qs) =
      insert_class-sum_of f q (sort_classes fl qs) ∙ ap (λ n. f q + n) (sort_classes-sum_of f qs)

  length-sum_of : {A : Type 0} (xs : List A) → sum_of (λ x. 1) xs ≡ length xs
  unfolding sum_of
  length-sum_of [] = refl
  length-sum_of (x ∷ xs) = omega (arith, length-sum_of xs)

  -- The classes are split: `top` in order, and each of them at least as slow as each of `rest`.
  pub record Splits (classes top rest : List (QueryClass fl)) : Type 0 where
    pub same : (f : QueryClass fl → ℕ) → sum_of f (top ++ rest) ≡ sum_of f classes
    pub order : IsDescending top
    pub slower : All (λ a. All (IsSlower a) rest) top

  take-All :
      (P : QueryClass fl → Type 0) (n : ℕ) (qs : List (QueryClass fl))
      → All P qs
      → All P (take n qs)
  take-All P zero qs h = tt
  take-All P (suc n) [] h = tt
  take-All P (suc n) (q ∷ qs) h = (h.0, take-All P n qs h.1)

  drop-All :
      (P : QueryClass fl → Type 0) (n : ℕ) (qs : List (QueryClass fl))
      → All P qs
      → All P (drop n qs)
  drop-All P zero qs h = h
  drop-All P (suc n) [] h = tt
  drop-All P (suc n) (q ∷ qs) h = drop-All P n qs h.1

  take-IsDescending :
      (n : ℕ) (qs : List (QueryClass fl)) → IsDescending qs → IsDescending (take n qs)
  take-IsDescending zero qs h = tt
  take-IsDescending (suc n) [] h = tt
  take-IsDescending (suc n) (q ∷ qs) h =
      (take-All (IsSlower q) n qs h.0, take-IsDescending n qs h.1)

  take-IsSlower :
      (n : ℕ) (qs : List (QueryClass fl))
      → IsDescending qs
      → All (λ a. All (IsSlower a) (drop n qs)) (take n qs)
  take-IsSlower zero qs h = tt
  take-IsSlower (suc n) [] h = tt
  take-IsSlower (suc n) (q ∷ qs) h = (drop-All (IsSlower q) n qs h.0, take-IsSlower n qs h.1)

  -- With a limit above 0 and more classes than that, each with a query time, the report has the
  -- limit's number of classes in descending order of query time, and then one class into which all
  -- the others are added; each of those is at most as slow as each class of the report, and no
  -- class is lost or counted twice.
  pub make_report-Splits :
      (limit : ℕ) (span : Span fl) (result : Result fl)
      → 0 < limit
      → limit < length result.class
      → all_have fl result.class ≡ true
      → (top rest : List (QueryClass fl)) × (r : Report fl) × (make_report fl limit span result
          ≡ some r)
        × (r.class ≡ top ++ add_queries fl (new_query_class fl) rest ∷ [])
        × (length top ≡ limit)
        × Splits result.class top rest
  unfolding make_report report_of top_classes
  make_report-Splits limit span result pos many have =
      let sorted = sort_classes fl result.class in
      let sorted_length : length sorted ≡ length result.class =
        sym (length-sum_of sorted)
        ∙ sort_classes-sum_of (λ q. 1) result.class
        ∙ length-sum_of result.class in
      let some_test : (leb (length result.class) 1 || all_have fl result.class) ≡ true =
        ground (arith, have) in
      let long_test : (limit == 0 || leb (length sorted) limit) ≡ false = ground arith in
      let desc = sort_classes-IsDescending result.class in
      (
        take limit sorted,
        drop limit sorted,
        report_of fl limit span result,
        rw some_test refl,
        rw long_test refl,
        omega (arith, length-take limit sorted, sorted_length, many),
        record {
          same = λ f.
              ap (sum_of f) (take-append-drop limit sorted) ∙ sort_classes-sum_of f result.class;
          order = take-IsDescending limit sorted desc;
          slower = take-IsSlower limit sorted desc;
        },
      )
