-- ===== src/Qan/PerfschemaWorker/Tests.antt =====
-- Runs of qan/perfschema/worker.go.
use percona_agent.Prelude.{ℕ, ◌<◌, ◌≡◌, refl, some, [], ◌∷◌, arith, nat_key, string_key, lookup}
use percona_agent.Qan.PerfschemaWorker.{Counter, DigestRow, Class, word, rows_of, class_total}
use percona_agent.Qan.PerfschemaWorker.Sums.{AreSeen, increases, runs, class_total-seen}
use percona_agent.Qan.PerfschemaWorker.Unseen.{class_total-unseen}

abbrev row : ℕ → DigestRow
row n = record { counters = λ c. n; min_timer_wait = 1; avg_timer_wait = 2; max_timer_wait = 3 }

abbrev before : Class
before = record { digest_text = "select ?"; rows = ("db1", row 10) ∷ ("db2", row 20) ∷ [] }

abbrev now : Class
now = record { digest_text = "select ?"; rows = ("db1", row 15) ∷ ("db2", row 20) ∷ [] }

class_total-seen_example :
    (t : DigestRow) × (class_total (some before) now ≡ some t)
    × ((c : Counter) → 5 < word → t.counters c ≡ 5)
unfolding increases runs rows_of lookup
class_total-seen_example =
    class_total-seen (some before) now (row 10 ∷ row 20 ∷ []) seen (omega arith)
  where
    seen :
        AreSeen
          (rows_of (some before))
          (("db1", row 15) ∷ ("db2", row 20) ∷ [])
          (row 10 ∷ row 20 ∷ [])
    seen = (refl, (λ c. (omega arith, omega arith)), (refl, (λ c. (omega arith, omega arith)), tt))

-- 5 runs in db1 and 1 in db3, of which 1 is in the result.
class_total-unseen_example :
    (t : DigestRow) × (class_total
        (some before)
        (record { digest_text = "select ?"; rows = ("db1", row 15) ∷ ("db3", row 1) ∷ [] })
      ≡ some t)
    × ((c : Counter) → t.counters c ≡ 1)
unfolding rows_of lookup
class_total-unseen_example =
    class_total-unseen (some before) "select ?" "db3" (("db1", row 15) ∷ []) (row 1) refl
