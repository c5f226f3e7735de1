-- ===== src/Qan/SlowlogIter.antt =====
-- qan/slowlog/iter.go: the intervals of the slow log between ticks.
-- A time is a number, 0 being the zero time of Go; a file's os.FileInfo is the number by which
-- os.SameFile knows it. A state keeps the intervals given to the channel, the last one last, and
-- not whether the manager took them within the second that the code waits.
pub mod Intervals
mod Tests
use percona_agent.Prelude.{
  ℕ, zero, suc, ◌+◌, ◌-◌, ◌*◌, ◌/◌, ◌%◌, ◌^◌, ◌≤◌, ◌<◌, min, String, ◌≡◌, refl, sym, ap, ◌∙◌, subst,
  ◌≢◌, ◌↔◌, ◌⊎◌, inl, inr, Bool, true, false, not, ◌&&◌, ◌||◌, Option, none, some, List, [], ◌∷◌,
  ◌++◌, ◌>>=◌, map, arith, ltb, leb, ◌==◌, if◌then◌else◌, tests, Bool-cases, Option-cases, length,
  get_elem?, get_or, set, take, drop, replicate, All, length-append, length-set, length-take,
  length-replicate, take-append-drop, All-append, sum_of, sum_of-append, Eq, nat_key, string_key,
  lookup, insert, erase, lookup-insert, lookup-erase,
}

pub record Interval : Type 0 where
  pub number : ℕ
  pub start_time : ℕ
  pub stop_time : ℕ
  pub filename : String
  pub start_offset : ℕ
  pub end_offset : ℕ

-- A tick, and what the file system answers at it: the slow log's name, its size and its FileInfo,
-- which the first tick of an interval reads twice.
pub record Tick : Type 0 where
  pub now : ℕ
  pub file : Option String
  pub size : Option ℕ
  pub info : Option ℕ
  pub info_again : Option ℕ

pub record Iter : Type 0 where
  pub prev_file_info : Option ℕ
  pub cur : Interval
  pub interval_no : ℕ
  pub intervals : List Interval

abbrev pub new_interval : Interval
new_interval = record {
  number = 0;
  start_time = 0;
  stop_time = 0;
  filename = "";
  start_offset = 0;
  end_offset = 0;
}

abbrev pub new_iter : Iter
new_iter = record { prev_file_info = none; cur = new_interval; interval_no = 0; intervals = [] }

-- os.SameFile; a nil FileInfo is the same as no other.
pub same_file : Option ℕ → Option ℕ → Bool
same_file none b = false
same_file (some a) none = false
same_file (some a) (some b) = a == b

pub next_interval : Iter → Tick → String → ℕ → Bool → Iter
next_interval s t file size changed =
    let count = s.interval_no + 1 in
    let cur = s.cur in
    let done : Interval = record cur {
      number = count;
      stop_time = t.now;
      filename = file;
      start_offset = if changed then 0 else cur.start_offset;
      end_offset = size;
    } in
    record {
      prev_file_info = t.info;
      cur = record new_interval { start_time = t.now; start_offset = size };
      interval_no = count;
      intervals = s.intervals ++ done ∷ [];
    }

pub first_interval : Iter → Tick → ℕ → Iter
first_interval s t size =
    let cur = s.cur in
    record s {
      prev_file_info = t.info_again;
      cur = record cur { start_time = t.now; start_offset = size };
    }

-- A new interval, after an error.
pub on_error : Iter → Iter
on_error s = record s { cur = new_interval }

pub on_file : Iter → Tick → String → Option ℕ → Iter
on_file s t file none = on_error s
on_file s t file (some size) =
    let cur = s.cur in
    if cur.start_time == 0
    then first_interval s t size
    else next_interval s t file size (not (same_file s.prev_file_info t.info))

pub on_name : Iter → Tick → Option String → Iter
on_name s t none = on_error s
on_name s t (some file) = on_file s t file t.size

-- One tick of the loop of run.
pub on_tick : Iter → Tick → Iter
on_tick s t = on_name s t t.file

pub run : Iter → List Tick → Iter
run s [] = s
run s (t ∷ ticks) = run (on_tick s t) ticks
