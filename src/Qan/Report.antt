-- ===== src/Qan/Report.antt =====
-- qan/report.go: the report of an interval, its slowest query classes and the rest as one.
-- A query class has the fields of the event library that the code reads or writes. sort.Sort may
-- put classes of the same time in any order; here the first one stays first.
pub mod Ranking
pub mod LowRanking
mod Tests
use percona_agent.Prelude.{
  ℕ, zero, suc, ◌+◌, ◌-◌, ◌*◌, ◌/◌, ◌%◌, ◌^◌, ◌≤◌, ◌<◌, min, String, ◌≡◌, refl, sym, ap, ◌∙◌, subst,
  ◌≢◌, ◌↔◌, ◌⊎◌, inl, inr, Bool, true, false, not, ◌&&◌, ◌||◌, Option, none, some, List, [], ◌∷◌,
  ◌++◌, ◌>>=◌, map, arith, ltb, leb, ◌==◌, if◌then◌else◌, tests, Bool-cases, Option-cases, length,
  get_elem?, get_or, set, take, drop, replicate, All, length-append, length-set, length-take,
  length-replicate, take-append-drop, All-append, sum_of, sum_of-append, Eq, nat_key, string_key,
  lookup, insert, erase, lookup-insert, lookup-erase,
}
use percona_agent.Prelude.Int.{pos}
use percona_agent.Mm.Float.{Float, lt}

module _ (fl : Float) where
  open fl use {F, zero as nil, add as plus, div, of_int, le}

  pub record TimeStats : Type 0 where
    pub sum : F
    pub avg : F
    pub min_val : F
    pub max_val : F

  pub record QueryClass : Type 0 where
    pub id : String
    pub total_queries : ℕ
    pub time_metrics : List (String × TimeStats)

  pub record Result : Type 0 where
    pub class : List QueryClass
    pub run_time : F
    pub stop_offset : ℕ

  -- What MakeReport reads of an interval, and the size of its file, or an error.
  pub record Span : Type 0 where
    pub start_time : ℕ
    pub stop_time : ℕ
    pub filename : String
    pub start_offset : ℕ
    pub end_offset : ℕ
    pub file_size : Option ℕ

  pub record Report : Type 0 where
    pub start_ts : ℕ
    pub end_ts : ℕ
    pub run_time : F
    pub class : List QueryClass
    pub slow_log_file : String
    pub slow_log_file_size : ℕ
    pub start_offset : ℕ
    pub end_offset : ℕ
    pub stop_offset : ℕ

  pub add_stats : TimeStats → TimeStats → TimeStats
  add_stats dst src = record {
    sum = plus dst.sum src.sum;
    avg = div (plus dst.avg src.avg) (of_int (pos 2));
    min_val = if lt fl src.min_val dst.min_val then src.min_val else dst.min_val;
    max_val = if lt fl dst.max_val src.max_val then src.max_val else dst.max_val;
  }

  pub merge_stats : Option TimeStats → TimeStats → TimeStats
  merge_stats none src = src
  merge_stats (some dst) src = add_stats dst src

  pub add_metrics :
      List (String × TimeStats) → List (String × TimeStats) → List (String × TimeStats)
  add_metrics dst [] = dst
  add_metrics dst ((name, src) ∷ rest) =
      add_metrics (insert name (merge_stats (lookup name dst) src) dst) rest

  pub add_query : QueryClass → QueryClass → QueryClass
  add_query dst src = record dst {
    total_queries = dst.total_queries + 1;
    time_metrics = add_metrics dst.time_metrics src.time_metrics;
  }

  pub add_queries : QueryClass → List QueryClass → QueryClass
  add_queries dst [] = dst
  add_queries dst (query ∷ rest) = add_queries (add_query dst query) rest

  abbrev pub new_query_class : QueryClass
  new_query_class = record { id = "0"; total_queries = 0; time_metrics = [] }

  pub time_of : Option TimeStats → F
  time_of none = nil
  time_of (some s) = s.sum

  pub query_time : QueryClass → F
  query_time q = time_of (lookup "Query_time" q.time_metrics)

  -- Whether Less can read the class; it panics on a nil pointer if not.
  pub has_query_time : QueryClass → Bool
  has_query_time q = elim (lookup "Query_time" q.time_metrics) [ none ↦ false | some s ↦ true ]

  pub all_have : List QueryClass → Bool
  all_have [] = true
  all_have (q ∷ qs) = has_query_time q && all_have qs

  pub insert_class : QueryClass → List QueryClass → List QueryClass
  insert_class q [] = q ∷ []
  insert_class q (r ∷ rs) =
      if le (query_time r) (query_time q) then q ∷ r ∷ rs else r ∷ insert_class q rs

  pub sort_classes : List QueryClass → List QueryClass
  sort_classes [] = []
  sort_classes (q ∷ qs) = insert_class q (sort_classes qs)

  -- The classes of the report: all, or the top ones and the rest as one class.
  pub top_classes : ℕ → List QueryClass → List QueryClass
  top_classes limit sorted =
      if limit == 0 || leb (length sorted) limit
      then sorted
      else take limit sorted ++ add_queries new_query_class (drop limit sorted) ∷ []

  pub report_of : ℕ → Span → Result → Report
  report_of limit span result = record {
    start_ts = span.start_time;
    end_ts = span.stop_time;
    run_time = result.run_time;
    class = top_classes limit (sort_classes result.class);
    slow_log_file = span.filename;
    slow_log_file_size = elim span.file_size [ none ↦ 0 | some n ↦ n ];
    start_offset = span.start_offset;
    end_offset = span.end_offset;
    stop_offset = result.stop_offset;
  }

  -- `none` is a panic of Less, which Sort calls for each class if there are two.
  pub make_report : ℕ → Span → Result → Option Report
  make_report limit span result =
      if leb (length result.class) 1 || all_have result.class
      then some (report_of limit span result)
      else none
