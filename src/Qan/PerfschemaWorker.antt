-- ===== src/Qan/PerfschemaWorker.antt =====
-- qan/perfschema/worker.go: the difference of two snapshots of the statement digests, by class.
-- Every counter is taken to have 64 bits; the five that are uint have as many on a 64-bit system.
-- Rows and classes are lists, which stand for whatever order Go visits a map in.
pub mod Sums
pub mod Unseen
mod Tests
use percona_agent.Prelude.{
  ℕ, zero, suc, ◌+◌, ◌-◌, ◌*◌, ◌/◌, ◌%◌, ◌^◌, ◌≤◌, ◌<◌, min, String, ◌≡◌, refl, sym, ap, ◌∙◌, subst,
  ◌≢◌, ◌↔◌, ◌⊎◌, inl, inr, Bool, true, false, not, ◌&&◌, ◌||◌, Option, none, some, List, [], ◌∷◌,
  ◌++◌, ◌>>=◌, map, arith, ltb, leb, ◌==◌, if◌then◌else◌, tests, Bool-cases, Option-cases, length,
  get_elem?, get_or, set, take, drop, replicate, All, length-append, length-set, length-take,
  length-replicate, take-append-drop, All-append, sum_of, sum_of-append, Eq, nat_key, string_key,
  lookup, insert, erase, lookup-insert, lookup-erase,
}

-- The counters of a row that are added up.
pub data Counter : Type 0 where
  count_star : Counter
  sum_timer_wait : Counter
  sum_lock_time : Counter
  sum_errors : Counter
  sum_warnings : Counter
  sum_rows_affected : Counter
  sum_rows_sent : Counter
  sum_rows_examined : Counter
  sum_created_tmp_disk_tables : Counter
  sum_created_tmp_tables : Counter
  sum_select_full_join : Counter
  sum_select_full_range_join : Counter
  sum_select_range : Counter
  sum_select_range_check : Counter
  sum_select_scan : Counter
  sum_sort_merge_passes : Counter
  sum_sort_range : Counter
  sum_sort_rows : Counter
  sum_sort_scan : Counter
  sum_no_index_used : Counter
  sum_no_good_index_used : Counter

pub record DigestRow : Type 0 where
  pub counters : Counter → ℕ
  pub min_timer_wait : ℕ
  pub avg_timer_wait : ℕ
  pub max_timer_wait : ℕ

-- The rows of a class, by schema.
pub record Class : Type 0 where
  pub digest_text : String
  pub rows : List (String × DigestRow)

abbrev pub word : ℕ
word = 2 ^ 64

-- Addition and subtraction of uint64.
pub add_word : ℕ → ℕ → ℕ
add_word a b = (a + b) % word

pub sub_word : ℕ → ℕ → ℕ
sub_word a b = (a + (word - b)) % word

-- The aggregate of a class before its first row, and the number of rows in it.
abbrev pub no_rows : DigestRow × ℕ
no_rows = (
  record { counters = λ c. 0; min_timer_wait = 4294967295; avg_timer_wait = 0; max_timer_wait = 0 },
  0,
)

-- A row that was there before and ran in the interval.
pub add_diff : DigestRow → DigestRow → DigestRow → DigestRow
add_diff d row prev = record {
  counters = λ c. add_word (d.counters c) (sub_word (row.counters c) (prev.counters c));
  min_timer_wait =
      if ltb row.min_timer_wait d.min_timer_wait then row.min_timer_wait else d.min_timer_wait;
  avg_timer_wait = add_word d.avg_timer_wait row.avg_timer_wait;
  max_timer_wait =
      if ltb d.max_timer_wait row.max_timer_wait then row.max_timer_wait else d.max_timer_wait;
}

-- A row that was not there before: each field of the aggregate is assigned.
pub add_row : DigestRow × ℕ → DigestRow → Option DigestRow → DigestRow × ℕ
add_row (d, n) row none = (
  record {
    counters = row.counters;
    min_timer_wait = row.min_timer_wait;
    avg_timer_wait = row.avg_timer_wait;
    max_timer_wait = row.max_timer_wait;
  },
  n + 1,
)
add_row (d, n) row (some prev) =
    if row.counters count_star == prev.counters count_star
    then (d, n)
    else (add_diff d row prev, n + 1)

pub add_rows : List (String × DigestRow) → DigestRow × ℕ → List (String × DigestRow) → DigestRow × ℕ
add_rows prev d [] = d
add_rows prev d ((schema, row) ∷ rows) = add_rows prev (add_row d row (lookup schema prev)) rows

-- A class with no row that ran is skipped.
pub finish : DigestRow × ℕ → Option DigestRow
finish (d, n) = if n == 0 then none else some (record d { avg_timer_wait = d.avg_timer_wait / n })

pub rows_of : Option Class → List (String × DigestRow)
rows_of none = []
rows_of (some class) = class.rows

pub class_total : Option Class → Class → Option DigestRow
class_total prev class = finish (add_rows (rows_of prev) no_rows class.rows)

pub keep_class :
    String
    → Class
    → Option DigestRow
    → List (String × String × DigestRow)
    → List (String × String × DigestRow)
keep_class id class none classes = classes
keep_class id class (some d) classes = (id, class.digest_text, d) ∷ classes

-- The classes of the result of prepareResult, with their ids and texts; `nil` is the empty list.
pub prepare_result :
    List (String × Class) → List (String × Class) → List (String × String × DigestRow)
prepare_result prev [] = []
prepare_result prev ((id, class) ∷ curr) =
    keep_class id class (class_total (lookup id prev) class) (prepare_result prev curr)
