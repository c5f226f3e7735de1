-- ===== src/Mm/System.antt =====
-- mm/system/monitor.go: the metrics of the files under /proc.
-- A file is its text as character codes. float64 and ParseFloat of strconv are parameters of which
-- nothing is assumed. The status texts, the log and the
-- goroutine that reads the files at a tick are left out.
pub mod Files
pub mod Names
mod Tests
use percona_agent.Prelude.{
  ℕ, zero, suc, ◌+◌, ◌-◌, Bool, true, false, not, ◌&&◌, ◌||◌, Option, none, some, List, [], ◌∷◌,
  ◌++◌, ltb, leb, ◌==◌, if◌then◌else◌, length, get_or, set, replicate, lookup, insert,
}
use percona_agent.Prelude.Text.{Text, text_key, codes, same_text, cons_first, split}

pub record Float64 : Type 1 where
  pub F : Type 0
  pub nil : F
  pub hundred : F
  pub plus : F → F → F
  pub minus : F → F → F
  pub times : F → F → F
  pub over : F → F → F
  pub greater : F → F → Bool
  pub parse_float : Text → Option F

pub data Kind : Type 0 where
  gauge : Kind
  counter : Kind

abbrev pub cpu_states : List Text
cpu_states =
    codes "user"
    ∷ codes "nice"
    ∷ codes "system"
    ∷ codes "idle"
    ∷ codes "iowait"
    ∷ codes "irq"
    ∷ codes "softirq"
    ∷ codes "steal"
    ∷ codes "guest"
    ∷ codes "guestlow"
    ∷ []

abbrev pub n_cpu_states : ℕ
n_cpu_states = 10

-- The package strings, for the characters that stand in these files.
pub has_prefix : Text → Text → Bool
has_prefix s [] = true
has_prefix [] (d ∷ p) = false
has_prefix (c ∷ s) (d ∷ p) = (c == d) && has_prefix s p

abbrev pub is_space : ℕ → Bool
is_space c = c == b' ' || (leb 9 c && leb c 13)

-- `word` is the field that is being read.
pub fields_from : Text → Text → List Text
fields_from word [] = if length word == 0 then [] else word ∷ []
fields_from word (c ∷ s) =
    let next = fields_from (word ++ c ∷ []) s in
    let rest = fields_from [] s in
    if is_space c then (if length word == 0 then rest else word ∷ rest) else next

abbrev pub fields : Text → List Text
fields s = fields_from [] s

-- `strings.TrimRight(s, ":")`.
pub trim_colons : Text → Text
trim_colons [] = []
trim_colons (c ∷ s) =
    let rest = trim_colons s in if (c == b':') && (length rest == 0) then [] else c ∷ rest

abbrev pub is_one_of : Text → List Text → Bool
is_one_of s [] = false
is_one_of s (t ∷ ts) = same_text s t || is_one_of s ts

abbrev pub field : List Text → ℕ → Text
field fs i = get_or fs i []

-- A state of a CPU that the code skips.
abbrev pub is_skipped : ℕ → Bool
is_skipped state = state == 0 || leb n_cpu_states state

module _ (fl : Float64) where
  open fl use {F, nil, hundred, plus, minus, times, over, greater, parse_float}

  pub record Metric : Type 0 where
    pub name : Text
    pub kind : Kind
    pub number : F

  pub record Cpu : Type 0 where
    pub vals : List (Text × List F)
    pub sums : List (Text × F)

  abbrev pub no_cpu : Cpu
  no_cpu = record { vals = []; sums = [] }

  abbrev pub metric : Text → Kind → F → Metric
  metric name kind number = record { name = name; kind = kind; number = number }

  pub or_nil : Option F → F
  or_nil none = nil
  or_nil (some x) = x

  -- A field that does not parse is zero.
  pub str_to_float : Text → F
  str_to_float s = or_nil (parse_float s)

  pub vals_of : Option (List F) → List F
  vals_of none = replicate n_cpu_states nil
  vals_of (some vs) = vs

  pub sum_of : Option F → F
  sum_of none = nil
  sum_of (some x) = x

  pub add_state : Text → ℕ → Text → Cpu → Cpu
  add_state cpu state s c =
      let v = str_to_float s in
      let vs = vals_of (lookup cpu c.vals) in
      if is_skipped state then c else record {
        vals = insert cpu (set vs state v) c.vals;
        sums = insert cpu (plus (sum_of (lookup cpu c.sums)) v) c.sums;
      }

  pub add_states : Text → ℕ → List Text → Cpu → Cpu
  add_states cpu state [] c = c
  add_states cpu state (s ∷ fs) c = add_states cpu (suc state) fs (add_state cpu state s c)

  -- The share of one state in the time since the last reading.
  pub cpu_metric : Text → ℕ → F → Cpu → Cpu → List Metric
  cpu_metric cpu state before prev cur =
      let sum = sum_of (lookup cpu cur.sums) in
      let value = get_or (vals_of (lookup cpu cur.vals)) state nil in
      let last = get_or (vals_of (lookup cpu prev.vals)) state nil in
      let number = over (times (minus value last) hundred) (minus sum before) in
      if is_skipped state
      then []
      else if greater sum before
      then metric (cpu ++ b'/' ∷ field cpu_states (state - 1)) gauge number ∷ []
      else []

  pub cpu_metrics : Text → ℕ → List Text → F → Cpu → Cpu → List Metric
  cpu_metrics cpu state [] before prev cur = []
  cpu_metrics cpu state (s ∷ fs) before prev cur =
      cpu_metric cpu state before prev cur ++ cpu_metrics cpu (suc state) fs before prev cur

  pub on_prev : Text → List Text → Option F → Cpu → Cpu → List Metric
  on_prev cpu fs none prev cur = []
  on_prev cpu fs (some before) prev cur = cpu_metrics cpu 0 fs before prev cur

  pub ext_metric : Text → Text → List Metric
  ext_metric name s =
      let v = str_to_float s in
      if is_one_of name (codes "intr" ∷ codes "ctxt" ∷ codes "processes" ∷ [])
      then metric (codes "cpu-ext/" ++ name) counter v ∷ []
      else if is_one_of name (codes "procs_running" ∷ codes "procs_blocked" ∷ [])
      then metric (codes "cpu-ext/" ++ name) gauge v ∷ []
      else []

  -- One line of /proc/stat: the metrics, and what was read of the CPUs.
  pub stat_line : Cpu → Cpu → List Text → List Metric × Cpu
  stat_line prev cur [] = ([], cur)
  stat_line prev cur (name ∷ []) = ([], cur)
  stat_line prev cur (name ∷ v ∷ vs) =
      let cur' = add_states name 0 (name ∷ v ∷ vs) cur in
      if has_prefix name (codes "cpu")
      then (on_prev name (name ∷ v ∷ vs) (lookup name prev.sums) prev cur', cur')
      else (ext_metric name v, cur)

  pub stat_lines : Cpu → Cpu → List Text → List Metric × Cpu
  stat_lines prev cur [] = ([], cur)
  stat_lines prev cur (line ∷ lines) =
      let (ms, cur') = stat_line prev cur (fields line) in
      let (rest, end) = stat_lines prev cur' lines in (ms ++ rest, end)

  -- The metrics, and the readings that the monitor keeps for the next time.
  pub proc_stat : Cpu → Text → List Metric × Cpu
  proc_stat prev content = stat_lines prev no_cpu (split 10 content)
