-- ===== src/Mm/System/Tests.antt =====
-- A reading of /proc/stat by mm/system/monitor.go, with whole numbers for float64.
use percona_agent.Prelude.{ℕ, ◌+◌, ◌-◌, ◌*◌, ◌/◌, [], ◌∷◌, ltb, All}
use percona_agent.Prelude.Text.{codes, text_key}
use percona_agent.Prelude.Decimal.{parse_ℕ}
use percona_agent.Mm.System.{Float64, Cpu, proc_stat}
use percona_agent.Mm.System.Names.{IsNamed, proc_stat-IsNamed}

abbrev whole : Float64
whole = record {
  F = ℕ;
  nil = 0;
  hundred = 100;
  plus = λ a b. a + b;
  minus = λ a b. a - b;
  times = λ a b. a * b;
  over = λ a b. a / b;
  greater = λ a b. ltb b a;
  parse_float = parse_ℕ;
}

abbrev before : Cpu whole
before = record { vals = []; sums = (codes "cpu", 10) ∷ [] }

proc_stat-IsNamed_example :
    All (IsNamed whole before) (proc_stat whole before (codes "cpu 20 30 40\nctxt 7")).0
proc_stat-IsNamed_example = proc_stat-IsNamed whole before (codes "cpu 20 30 40\nctxt 7")
