-- ===== src/Qan/Report/LowRanking.antt =====
-- The class of the low-ranking queries of qan/report.go.
use percona_agent.Prelude.{
  ◌+◌, String, ◌≡◌, refl, sym, ap, ◌∙◌, subst, true, Option, none, some, List, [], ◌∷◌, ◌++◌, arith,
  length, All, nat_key, string_key, lookup, insert, lookup-insert,
}
use percona_agent.Prelude.{IsMap}
use percona_agent.Mm.Float.{Float}
use percona_agent.Mm.Float.Ranks.{le_refl}
use percona_agent.Qan.Report.{
  TimeStats, QueryClass, add_stats, merge_stats, add_metrics, add_query, add_queries,
  new_query_class,
}

module _ (fl : Float) where
  open fl use {F, add as plus, le}

  abbrev pub to_list {ℓ} : {A : Type ℓ} → Option A → List A
  to_list none = []
  to_list (some a) = a ∷ []

  -- The statistics of this metric in the classes that have it.
  unfoldable pub found : String → List (QueryClass fl) → List (TimeStats fl)
  found name [] = []
  found name (q ∷ qs) = to_list (lookup name q.time_metrics) ++ found name qs

  abbrev pub sum_from : F → List (TimeStats fl) → F
  sum_from a [] = a
  sum_from a (s ∷ ss) = sum_from (plus a s.sum) ss

  -- The statistics of a metric in the low-ranking class, by those in the classes.
  abbrev pub Sums : List (TimeStats fl) → Option (TimeStats fl) → Type 0
  Sums [] o = o ≡ none
  Sums (s ∷ ss) o =
      (t : TimeStats fl) × (o ≡ some t)
      × (t.sum ≡ sum_from s.sum ss)
      × All (λ u. le t.min_val u.min_val ≡ true) (s ∷ ss)
      × All (λ u. le u.max_val t.max_val ≡ true) (s ∷ ss)

  merge_opt : Option (TimeStats fl) → Option (TimeStats fl) → Option (TimeStats fl)
  merge_opt d none = d
  merge_opt d (some s) = some (merge_stats fl d s)

  lookup-add_metrics :
      (name : String) (dst src : List (String × TimeStats fl))
      → IsMap src
      → lookup name (add_metrics fl dst src) ≡ merge_opt (lookup name dst) (lookup name src)
  unfolding add_metrics merge_opt lookup
  lookup-add_metrics name dst [] h = refl
  lookup-add_metrics name dst ((n, s) ∷ src) h =
      let v = merge_stats fl (lookup n dst) s in
      let rest = lookup-add_metrics name (insert n v dst) src h.1 in
      ground (arith, string_key.beq_iff n name, lookup-insert n name v dst, rest, h.0)

  merged : Option (TimeStats fl) → List (TimeStats fl) → Option (TimeStats fl)
  merged d [] = d
  merged d (s ∷ ss) = merged (some (merge_stats fl d s)) ss

  add_queries-lookup :
      (name : String) (dst : QueryClass fl) (qs : List (QueryClass fl))
      → All (λ q. IsMap q.time_metrics) qs
      → lookup name (add_queries fl dst qs).time_metrics
        ≡ merged (lookup name dst.time_metrics) (found name qs)
  unfolding add_queries add_query found merged merge_opt
  add_queries-lookup name dst [] h = refl
  add_queries-lookup name dst (q ∷ qs) h =
      add_queries-lookup name (add_query fl dst q) qs h.1
      ∙ ap (λ o. merged o (found name qs))
          (lookup-add_metrics name dst.time_metrics q.time_metrics h.0)
      ∙ one (lookup name dst.time_metrics) (lookup name q.time_metrics)
    where
      one :
          (d o : Option (TimeStats fl))
          → merged (merge_opt d o) (found name qs) ≡ merged d (to_list o ++ found name qs)
      one d none = refl
      one d (some s) = refl

  add_stats-min :
      (d s : TimeStats fl)
      → (le (add_stats fl d s).min_val d.min_val ≡ true)
        × (le (add_stats fl d s).min_val s.min_val ≡ true)
  unfolding add_stats
  add_stats-min d s = (
    ground (arith, fl.le_total d.min_val s.min_val, le_refl fl d.min_val, le_refl fl s.min_val),
    ground (arith, fl.le_total d.min_val s.min_val, le_refl fl d.min_val, le_refl fl s.min_val),
  )

  add_stats-max :
      (d s : TimeStats fl)
      → (le d.max_val (add_stats fl d s).max_val ≡ true)
        × (le s.max_val (add_stats fl d s).max_val ≡ true)
  unfolding add_stats
  add_stats-max d s = (
    ground (arith, fl.le_total d.max_val s.max_val, le_refl fl d.max_val, le_refl fl s.max_val),
    ground (arith, fl.le_total d.max_val s.max_val, le_refl fl d.max_val, le_refl fl s.max_val),
  )

  add_stats-sum : (d s : TimeStats fl) → (add_stats fl d s).sum ≡ plus d.sum s.sum
  unfolding add_stats
  add_stats-sum d s = refl

  merged-Sums : (d : TimeStats fl) (ss : List (TimeStats fl)) → Sums (d ∷ ss) (merged (some d) ss)
  unfolding merged merge_stats
  merged-Sums d [] = (d, refl, refl, (le_refl fl d.min_val, tt), (le_refl fl d.max_val, tt))
  merged-Sums d (s ∷ ss) =
      let d' = add_stats fl d s in
      let (t, same, sum, low, high) = merged-Sums d' ss in
      let (d_low, s_low) = add_stats-min d s in
      let (d_high, s_high) = add_stats-max d s in
      (
        t,
        same,
        sum ∙ ap (λ a. sum_from a ss) (add_stats-sum d s),
        (
          fl.le_trans t.min_val d'.min_val d.min_val low.0 d_low,
          (fl.le_trans t.min_val d'.min_val s.min_val low.0 s_low, low.1),
        ),
        (
          fl.le_trans d.max_val d'.max_val t.max_val d_high high.0,
          (fl.le_trans s.max_val d'.max_val t.max_val s_high high.0, high.1),
        ),
      )

  none-Sums : (ss : List (TimeStats fl)) → Sums ss (merged none ss)
  unfolding merged merge_stats
  none-Sums [] = refl
  none-Sums (s ∷ ss) = merged-Sums s ss

  add_queries-total :
      (dst : QueryClass fl) (qs : List (QueryClass fl))
      → (add_queries fl dst qs).total_queries ≡ dst.total_queries + length qs
  unfolding add_queries add_query
  add_queries-total dst [] = omega arith
  add_queries-total dst (q ∷ qs) = omega (arith, add_queries-total (add_query fl dst q) qs)

  -- The low-ranking class has a metric exactly if one of the classes added to it does; its sum is
  -- that of their sums, in their order, and its minimum and maximum bound theirs. Its number of
  -- queries is the number of classes, whatever number of queries they had.
  pub low_ranking :
      (qs : List (QueryClass fl))
      → All (λ q. IsMap q.time_metrics) qs
      → ((add_queries fl (new_query_class fl) qs).total_queries ≡ length qs)
        × ((name : String)
            → Sums
                (found name qs)
                (lookup name (add_queries fl (new_query_class fl) qs).time_metrics))
  unfolding lookup
  low_ranking qs h = (
    omega (arith, add_queries-total (new_query_class fl) qs),
    λ name.
        subst (Sums (found name qs)) (sym (add_queries-lookup name (new_query_class fl) qs h))
          (none-Sums (found name qs)),
  )
