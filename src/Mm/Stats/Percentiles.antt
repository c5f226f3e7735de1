-- ===== src/Mm/Stats/Percentiles.antt =====
-- What Finalize of mm/stats.go reports of the values.
use percona_agent.Prelude.{
  ℕ, ◌+◌, ◌-◌, ◌*◌, ◌/◌, ◌≤◌, ◌<◌, ◌≡◌, refl, sym, subst, ◌≢◌, true, false, none, some, List, [],
  ◌∷◌, arith, ltb, ◌==◌, length, get_elem?, nat_key, string_key,
}
use percona_agent.Mm.Float.{Float, sort, sort-IsSorted}
use percona_agent.Mm.Float.Ranks.{
  count, count-sort, length-sort, le_refl, sorted_get, sorted-count_le, sorted-count_ge,
  get_elem?-lt,
}
use percona_agent.Mm.Stats.{
  Stats, metric_types, summarize_many, summarize_vals, summarize, final_of, finalize,
}

module _ (fl : Float) where
  open fl use {F, le}

  -- More than `i` values are at most `a`, and at most `i` values are not at least `a`.
  abbrev pub IsRank : List F → ℕ → F → Type 0
  IsRank vals i a =
      (i < count fl (λ v. le v a) vals) × (length vals ≤ count fl (λ v. le a v) vals + i)

  pub record IsSummary (vals : List F) (q : Stats fl) : Type 0 where
    pub cnt : q.cnt ≡ length vals
    pub min_rank : IsRank vals 0 q.min_val
    pub pct5_rank : IsRank vals (5 * length vals / 100) q.pct5
    pub med_rank : IsRank vals (50 * length vals / 100) q.med
    pub pct95_rank : IsRank vals (95 * length vals / 100) q.pct95
    pub max_rank : IsRank vals (length vals - 1) q.max_val
    pub min_le : le q.min_val q.pct5 ≡ true
    pub pct5_le : le q.pct5 q.med ≡ true
    pub med_le : le q.med q.pct95 ≡ true
    pub pct95_le : le q.pct95 q.max_val ≡ true

  sort-IsRank :
      (vals : List F) (i : ℕ) (a : F) → get_elem? (sort fl vals) i ≡ some a → IsRank vals i a
  sort-IsRank vals i a e =
      let below = sorted-count_le fl (sort fl vals) i a (sort-IsSorted fl vals) e in
      let above = sorted-count_ge fl (sort fl vals) i a (sort-IsSorted fl vals) e in
      omega (
        arith,
        below,
        above,
        length-sort fl vals,
        count-sort fl (λ v. le v a) vals,
        count-sort fl (λ v. le a v) vals,
      )

  sort-get :
      (vals : List F) (i : ℕ) → i < length vals → (a : F) × (get_elem? (sort fl vals) i ≡ some a)
  sort-get vals i h = get_elem?-lt fl (sort fl vals) i (omega (arith, h, length-sort fl vals))

  -- The values at the five places.
  summarize_many_lem :
      (s : Stats fl)
      → 1 < length s.vals
      → (q : Stats fl) × (summarize_many fl s (length s.vals) (sort fl s.vals) ≡ some q)
        × (q.metric_type ≡ s.metric_type)
        × IsSummary s.vals q
  unfolding summarize_many
  summarize_many_lem s h =
      let vals = s.vals in
      let n = length vals in
      let (a, ea) = sort-get vals 0 (omega (arith, h)) in
      let (b, eb) = sort-get vals (5 * n / 100) (omega (arith, h)) in
      let (c, ec) = sort-get vals (50 * n / 100) (omega (arith, h)) in
      let (d, ed) = sort-get vals (95 * n / 100) (omega (arith, h)) in
      let (e, ee) = sort-get vals (n - 1) (omega (arith, h)) in
      let sorted = sort-IsSorted fl vals in
      rw (ea, eb, ec, ed, ee)
        (
          _,
          refl,
          refl,
          record {
            cnt = refl;
            min_rank = sort-IsRank vals 0 a ea;
            pct5_rank = sort-IsRank vals (5 * n / 100) b eb;
            med_rank = sort-IsRank vals (50 * n / 100) c ec;
            pct95_rank = sort-IsRank vals (95 * n / 100) d ed;
            max_rank = sort-IsRank vals (n - 1) e ee;
            min_le = sorted_get fl (sort fl vals) 0 (5 * n / 100) a b sorted (omega arith) ea eb;
            pct5_le =
                sorted_get fl (sort fl vals) (5 * n / 100) (50 * n / 100) b c sorted (omega arith)
                  eb ec;
            med_le =
                sorted_get fl (sort fl vals) (50 * n / 100) (95 * n / 100) c d sorted (omega arith)
                  ec ed;
            pct95_le =
                sorted_get fl (sort fl vals) (95 * n / 100) (n - 1) d e sorted (omega (arith, h)) ed
                  ee;
          },
        )

  one-IsRank : (v : F) → IsRank (v ∷ []) 0 v
  unfolding count
  one-IsRank v = rw (le_refl fl v) (omega arith, omega arith)

  summarize_vals_lem : (s : Stats fl) (v : F) → IsSummary (v ∷ []) (summarize_vals fl s (v ∷ []))
  unfolding summarize_vals
  summarize_vals_lem s v = record {
    cnt = refl;
    min_rank = one-IsRank v;
    pct5_rank = one-IsRank v;
    med_rank = one-IsRank v;
    pct95_rank = one-IsRank v;
    max_rank = one-IsRank v;
    min_le = le_refl fl v;
    pct5_le = le_refl fl v;
    med_le = le_refl fl v;
    pct95_le = le_refl fl v;
  }

  summarize_vals-metric_type :
      (s : Stats fl) (vals : List F) → (summarize_vals fl s vals).metric_type ≡ s.metric_type
  unfolding summarize_vals
  summarize_vals-metric_type s [] = refl
  summarize_vals-metric_type s (v ∷ []) = refl
  summarize_vals-metric_type s (v ∷ w ∷ vals) = refl

  summarize_lem :
      (s : Stats fl) (v : F) (vals : List F)
      → metric_types s.metric_type ≡ true
      → s.vals ≡ v ∷ vals
      → (q : Stats fl) × (summarize fl s ≡ some q)
        × (q.metric_type ≡ s.metric_type)
        × IsSummary s.vals q
  unfolding summarize
  summarize_lem s v [] typed e =
      let one : ltb 1 (length s.vals) ≡ false = ground (arith, e) in
      rw (typed, one)
        (
          _,
          refl,
          summarize_vals-metric_type s s.vals,
          subst (λ w. IsSummary w (summarize_vals fl s w)) (sym e) (summarize_vals_lem s v),
        )
  summarize_lem s v (w ∷ vals) typed e =
      let many : ltb 1 (length s.vals) ≡ true = ground (arith, e) in
      rw (typed, many) (summarize_many_lem s (ground (arith, e)))

  final_of_lem : (vals : List F) (q : Stats fl) → IsSummary vals q → IsSummary vals (final_of fl q)
  unfolding final_of
  final_of_lem vals q h = record {
    cnt = h.cnt;
    min_rank = h.min_rank;
    pct5_rank = h.pct5_rank;
    med_rank = h.med_rank;
    pct95_rank = h.pct95_rank;
    max_rank = h.max_rank;
    min_le = h.min_le;
    pct5_le = h.pct5_le;
    med_le = h.med_le;
    pct95_le = h.pct95_le;
  }

  pub finalize_cons :
      (s : Stats fl) (v : F) (vals : List F)
      → metric_types s.metric_type ≡ true
      → s.vals ≡ v ∷ vals
      → (q : Stats fl) × (s' : Stats fl) × (finalize fl s ≡ some (some q, s'))
        × (s'.metric_type ≡ s.metric_type)
        × IsSummary s.vals q
  unfolding finalize
  finalize_cons s v vals typed e =
      let (q, same, typed_same, good) = summarize_lem s v vals typed e in
      let any : (length s.vals == 0) ≡ false = ground (arith, e) in
      (final_of fl q, q, rw (any, same) refl, typed_same, final_of_lem s.vals q good)

  -- Finalize of a metric of a valid type that has values gives a summary and never indexes out of
  -- range: Cnt is the number of values; Min, Pct5, Med, Pct95 and Max are in order; and if `i` is
  -- 0, 5%, 50% or 95% of Cnt, or Cnt - 1, then more than `i` values are at most the one of them
  -- that stands for `i`, and at most `i` values are not at least it.
  pub finalize-IsSummary :
      (s : Stats fl)
      → metric_types s.metric_type ≡ true
      → s.vals ≢ []
      → (q : Stats fl) × (s' : Stats fl) × (finalize fl s ≡ some (some q, s')) × IsSummary s.vals q
  finalize-IsSummary s typed some_vals = by_vals s.vals refl
    where
      by_vals :
          (vals : List F)
          → s.vals ≡ vals
          → (q : Stats fl) × (s' : Stats fl) × (finalize fl s ≡ some (some q, s'))
            × IsSummary s.vals q
      by_vals [] e = absurd (some_vals e)
      by_vals (v ∷ vals) e =
          let (q, s', same, typed_same, good) = finalize_cons s v vals typed e in
          (q, s', same, good)

  pub finalize-empty : (s : Stats fl) → s.vals ≡ [] → finalize fl s ≡ some (none, s)
  unfolding finalize
  finalize-empty s e =
      let no_vals : (length s.vals == 0) ≡ true = ground (arith, e) in rw no_vals refl
