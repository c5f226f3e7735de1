-- ===== src/Mm/System/Files.antt =====
-- The other files that mm/system/monitor.go reads: /proc/meminfo, vmstat, loadavg and diskstats.
use percona_agent.Prelude.{ℕ, Bool, ◌||◌, List, [], ◌∷◌, ◌++◌, ltb, if◌then◌else◌, length}
use percona_agent.Prelude.Text.{Text, codes, split}
use percona_agent.Mm.System.{
  Float64, str_to_float, gauge, counter, Metric, metric, has_prefix, fields, trim_colons, is_one_of,
  field,
}

abbrev pub memory_names : List Text
memory_names =
    codes "MemTotal"
    ∷ codes "MemFree"
    ∷ codes "MemShared"
    ∷ codes "Buffers"
    ∷ codes "Cached"
    ∷ codes "SwapCached"
    ∷ codes "SwapTotal"
    ∷ codes "SwapFree"
    ∷ codes "Dirty"
    ∷ codes "Active"
    ∷ codes "Inactive"
    ∷ []

-- Devices that are no disks.
abbrev pub is_memory_device : Text → Bool
is_memory_device device = has_prefix device (codes "ram") || has_prefix device (codes "loop")

module _ (fl : Float64) where
  open fl use {F, nil, plus}

  pub meminfo_line : List Text → List (Metric fl)
  meminfo_line [] = []
  meminfo_line (a ∷ []) = []
  meminfo_line (a ∷ b ∷ fs) =
      let s = trim_colons a in
      if is_one_of s memory_names
      then metric fl (codes "memory/" ++ s) gauge (str_to_float fl b) ∷ []
      else []

  pub meminfo_lines : List Text → List (Metric fl)
  meminfo_lines [] = []
  meminfo_lines (line ∷ lines) = meminfo_line (fields line) ++ meminfo_lines lines

  pub proc_meminfo : Text → List (Metric fl)
  proc_meminfo content = meminfo_lines (split 10 content)

  pub vmstat_line : List Text → List (Metric fl)
  vmstat_line [] = []
  vmstat_line (a ∷ []) = []
  vmstat_line (a ∷ b ∷ fs) =
      if has_prefix a (codes "pswp") || has_prefix a (codes "pgpg") || has_prefix a (codes "numa")
      then metric fl (codes "vmstat/" ++ a) counter (str_to_float fl b) ∷ []
      else []

  pub vmstat_lines : List Text → List (Metric fl)
  vmstat_lines [] = []
  vmstat_lines (line ∷ lines) = vmstat_line (fields line) ++ vmstat_lines lines

  pub proc_vmstat : Text → List (Metric fl)
  proc_vmstat content = vmstat_lines (split 10 content)

  -- The two numbers of "1/201".
  pub procs_metrics : List Text → List (Metric fl)
  procs_metrics [] = []
  procs_metrics (a ∷ []) = []
  procs_metrics (a ∷ b ∷ parts) =
      metric fl (codes "loadavg/running") gauge (str_to_float fl a)
      ∷ metric fl (codes "loadavg/processes") gauge (str_to_float fl b)
      ∷ []

  pub loadavg_metrics : List Text → List (Metric fl)
  loadavg_metrics fs =
      metric fl (codes "loadavg/1min") gauge (str_to_float fl (field fs 0))
      ∷ metric fl (codes "loadavg/5min") gauge (str_to_float fl (field fs 1))
      ∷ metric fl (codes "loadavg/15min") gauge (str_to_float fl (field fs 2))
      ∷ procs_metrics (split b'/' (field fs 3))

  -- The first line with four fields counts.
  pub loadavg_lines : List Text → List (Metric fl)
  loadavg_lines [] = []
  loadavg_lines (line ∷ lines) =
      let rest = loadavg_lines lines in
      let fs = fields line in if ltb (length fs) 4 then rest else loadavg_metrics fs

  pub proc_loadavg : Text → List (Metric fl)
  proc_loadavg content = loadavg_lines (split 10 content)

  -- `val[k]`: 0 where the line has no such field.
  pub val : List Text → ℕ → F
  val fs k = if ltb k (length fs) then str_to_float fl (field fs k) else nil

  pub disk_metric : Text → Text → F → Metric fl
  disk_metric device name number =
      metric fl (codes "disk/" ++ (device ++ b'/' ∷ name)) counter number

  pub disk_metrics : Text → List Text → List (Metric fl)
  disk_metrics device fs =
      if ltb 10 (length fs)
      then disk_metric device (codes "reads") (val fs 3)
        ∷ disk_metric device (codes "reads_merged") (val fs 4)
        ∷ disk_metric device (codes "sectors_read") (val fs 5)
        ∷ disk_metric device (codes "read_time") (val fs 6)
        ∷ disk_metric device (codes "writes") (val fs 7)
        ∷ disk_metric device (codes "writes_merged") (val fs 8)
        ∷ disk_metric device (codes "sectors_written") (val fs 9)
        ∷ disk_metric device (codes "write_time") (val fs 10)
        ∷ disk_metric device (codes "io_time") (val fs 12)
        ∷ disk_metric device (codes "io_time_weighted") (val fs 13)
        ∷ disk_metric device (codes "iops") (plus (val fs 3) (val fs 7))
        ∷ []
      else disk_metric device (codes "reads") (val fs 3)
        ∷ disk_metric device (codes "sectors_read") (val fs 4)
        ∷ disk_metric device (codes "writes") (val fs 5)
        ∷ disk_metric device (codes "sectors_written") (val fs 6)
        ∷ disk_metric device (codes "iops") (plus (val fs 3) (val fs 5))
        ∷ []

  pub disk_line : List Text → List (Metric fl)
  disk_line fs =
      if ltb (length fs) 7 || is_memory_device (field fs 2)
      then []
      else disk_metrics (field fs 2) fs

  pub disk_lines : List Text → List (Metric fl)
  disk_lines [] = []
  disk_lines (line ∷ lines) = disk_line (fields line) ++ disk_lines lines

  pub proc_diskstats : Text → List (Metric fl)
  proc_diskstats content = disk_lines (split 10 content)
