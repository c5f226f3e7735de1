-- ===== src/Mm/System/Names.antt =====
-- The names of the metrics of mm/system/monitor.go.
use percona_agent.Prelude.{
  ℕ, suc, ◌-◌, ◌<◌, ◌≡◌, refl, ◌⊎◌, inl, inr, Bool, true, false, Option, none, some, List, [], ◌∷◌,
  ◌++◌, arith, if◌then◌else◌, All, All-append, lookup,
}
use percona_agent.Prelude.Text.{Text, codes, text_key, split}
use percona_agent.Mm.System.{
  Float64, str_to_float, gauge, counter, cpu_states, has_prefix, fields, is_one_of, field,
  is_skipped, Metric, Cpu, no_cpu, metric, sum_of, cpu_metric, cpu_metrics, on_prev, ext_metric,
  add_states, stat_line, stat_lines, proc_stat,
}

module _ (fl : Float64) where
  -- A metric outside the CPUs, or one of the first nine states of a CPU that the last reading had.
  abbrev pub IsNamed : Cpu fl → Metric fl → Type 0
  IsNamed prev m =
      ((ext : Text) × (m.name ≡ codes "cpu-ext/" ++ ext))
      ⊎ ((cpu : Text) × (state : ℕ) × (m.name ≡ cpu ++ b'/' ∷ field cpu_states state)
          × (state < 9)
          × (has_prefix cpu (codes "cpu") ≡ true)
          × ((x : fl.F) × (lookup cpu prev.sums ≡ some x)))

  cpu_metric-IsNamed :
      (cpu : Text) (state : ℕ) (before : fl.F) (prev cur : Cpu fl)
      → has_prefix cpu (codes "cpu") ≡ true
      → lookup cpu prev.sums ≡ some before
      → All (IsNamed prev) (cpu_metric fl cpu state before prev cur)
  unfolding cpu_metric
  cpu_metric-IsNamed cpu state before prev cur p e =
      by_state (is_skipped state) (fl.greater (sum_of fl (lookup cpu cur.sums)) before) _ refl
    where
      by_state :
          (b c : Bool) (x : fl.F)
          → is_skipped state ≡ b
          → All (IsNamed prev) (
              if b
              then []
              else if c
              then metric fl (cpu ++ b'/' ∷ field cpu_states (state - 1)) gauge x ∷ []
              else [])
      by_state true c x h = tt
      by_state false false x h = tt
      by_state false true x h = (inr (cpu, state - 1, refl, ground arith, p, (before, e)), tt)

  cpu_metrics-IsNamed :
      (cpu : Text) (state : ℕ) (fs : List Text) (before : fl.F) (prev cur : Cpu fl)
      → has_prefix cpu (codes "cpu") ≡ true
      → lookup cpu prev.sums ≡ some before
      → All (IsNamed prev) (cpu_metrics fl cpu state fs before prev cur)
  unfolding cpu_metrics
  cpu_metrics-IsNamed cpu state [] before prev cur p e = tt
  cpu_metrics-IsNamed cpu state (s ∷ fs) before prev cur p e =
      All-append (IsNamed prev) _ _ (cpu_metric-IsNamed cpu state before prev cur p e)
        (cpu_metrics-IsNamed cpu (suc state) fs before prev cur p e)

  on_prev-IsNamed :
      (cpu : Text) (fs : List Text) (o : Option fl.F) (prev cur : Cpu fl)
      → has_prefix cpu (codes "cpu") ≡ true
      → lookup cpu prev.sums ≡ o
      → All (IsNamed prev) (on_prev fl cpu fs o prev cur)
  unfolding on_prev
  on_prev-IsNamed cpu fs none prev cur p e = tt
  on_prev-IsNamed cpu fs (some before) prev cur p e =
      cpu_metrics-IsNamed cpu 0 fs before prev cur p e

  ext_metric-IsNamed : (prev : Cpu fl) (name s : Text) → All (IsNamed prev) (ext_metric fl name s)
  unfolding ext_metric
  ext_metric-IsNamed prev name s =
      by_name (is_one_of name (codes "intr" ∷ codes "ctxt" ∷ codes "processes" ∷ []))
        (is_one_of name (codes "procs_running" ∷ codes "procs_blocked" ∷ []))
    where
      by_name :
          (b c : Bool)
          → All (IsNamed prev) (
              if b
              then metric fl (codes "cpu-ext/" ++ name) counter (str_to_float fl s) ∷ []
              else if c
              then metric fl (codes "cpu-ext/" ++ name) gauge (str_to_float fl s) ∷ []
              else [])
      by_name true c = (inl (name, refl), tt)
      by_name false true = (inl (name, refl), tt)
      by_name false false = tt

  stat_line-IsNamed :
      (prev cur : Cpu fl) (fs : List Text) → All (IsNamed prev) (stat_line fl prev cur fs).0
  unfolding stat_line
  stat_line-IsNamed prev cur [] = tt
  stat_line-IsNamed prev cur (name ∷ []) = tt
  stat_line-IsNamed prev cur (name ∷ v ∷ vs) = by_prefix (has_prefix name (codes "cpu")) refl
    where
      cur' : Cpu fl
      cur' = add_states fl name 0 (name ∷ v ∷ vs) cur

      cpu : List (Metric fl) × Cpu fl
      cpu = (on_prev fl name (name ∷ v ∷ vs) (lookup name prev.sums) prev cur', cur')

      ext : List (Metric fl) × Cpu fl
      ext = (ext_metric fl name v, cur)

      by_prefix :
          (b : Bool)
          → has_prefix name (codes "cpu") ≡ b
          → All (IsNamed prev) (if b then cpu else ext).0
      by_prefix true p = on_prev-IsNamed name (name ∷ v ∷ vs) _ prev cur' p refl
      by_prefix false p = ext_metric-IsNamed prev name v

  stat_lines-IsNamed :
      (prev cur : Cpu fl) (lines : List Text) → All (IsNamed prev) (stat_lines fl prev cur lines).0
  unfolding stat_lines
  stat_lines-IsNamed prev cur [] = tt
  stat_lines-IsNamed prev cur (line ∷ lines) =
      All-append (IsNamed prev) _ _ (stat_line-IsNamed prev cur (fields line))
        (stat_lines-IsNamed prev (stat_line fl prev cur (fields line)).1 lines)

  -- Whatever /proc/stat holds, a metric is either one of those outside the CPUs, or it is for one of
  -- the first nine states of a CPU of which the reading before had values: the tenth state, guestlow,
  -- is never reported, and the first reading reports no CPU.
  pub proc_stat-IsNamed :
      (prev : Cpu fl) (content : Text) → All (IsNamed prev) (proc_stat fl prev content).0
  unfolding proc_stat
  proc_stat-IsNamed prev content = stat_lines-IsNamed prev (no_cpu fl) (split 10 content)
