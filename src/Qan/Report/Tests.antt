-- ===== src/Qan/Report/Tests.antt =====
-- Runs of qan/report.go.
use percona_agent.Prelude.{
  ℕ, String, ◌≡◌, refl, some, List, [], ◌∷◌, ◌++◌, arith, length, nat_key, string_key, lookup,
}
use percona_agent.Prelude.Int.{pos}
use percona_agent.Mm.Float.Ints.{int_float}
use percona_agent.Qan.Report.{
  TimeStats, QueryClass, Result, Span, Report, add_queries, new_query_class, make_report, all_have,
  has_query_time,
}
use percona_agent.Qan.Report.Ranking.{Splits, make_report-Splits}

abbrev times : ℕ → TimeStats int_float
times n = record { sum = pos n; avg = pos n; min_val = pos 1; max_val = pos n }

abbrev query : String → ℕ → QueryClass int_float
query id n = record { id = id; total_queries = 10; time_metrics = ("Query_time", times n) ∷ [] }

abbrev result : Result int_float
result = record {
  class = query "a" 5 ∷ query "b" 9 ∷ query "c" 2 ∷ [];
  run_time = pos 1;
  stop_offset = 100;
}

abbrev span : Span int_float
span = record {
  start_time = 60;
  stop_time = 120;
  filename = "slow.log";
  start_offset = 0;
  end_offset = 100;
  file_size = some 100;
}

make_report-Splits_example :
    (top rest : List (QueryClass int_float)) × (r : Report int_float) × (make_report int_float 1
        span result
      ≡ some r)
    × (r.class ≡ top ++ add_queries int_float (new_query_class int_float) rest ∷ [])
    × (length top ≡ 1)
    × Splits int_float (query "a" 5 ∷ query "b" 9 ∷ query "c" 2 ∷ []) top rest
unfolding all_have has_query_time lookup
make_report-Splits_example =
    make_report-Splits int_float 1 span result (omega arith) (omega arith) refl
