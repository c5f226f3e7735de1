-- ===== src/Qan/SlowlogIter/Intervals.antt =====
-- The intervals of qan/slowlog/iter.go are those between two ticks in a row without an error.
use mathlib.Core.List.{append_assoc, append-nil}
use percona_agent.Prelude.{
  ℕ, ◌+◌, String, ◌≡◌, refl, sym, ap, ◌∙◌, subst, ◌≢◌, Bool, true, false, not, Option, none, some,
  List, [], ◌∷◌, ◌++◌, ◌>>=◌, arith, ◌==◌, if◌then◌else◌, length, All, nat_key, string_key,
}
use percona_agent.Qan.SlowlogIter.{
  Interval, Tick, Iter, new_interval, new_iter, same_file, next_interval, first_interval, on_error,
  on_file, on_name, on_tick, run,
}

-- The name and the size of the slow log at a tick at which both are known.
abbrev pub seen : Tick → Option (String × ℕ)
seen t = t.file >>= (λ f. t.size >>= (λ n. some (f, n)))

abbrev pub between : ℕ → Tick → Tick → Option (String × ℕ) → Option (String × ℕ) → List Interval
between k a b none q = []
between k a b (some p) none = []
between k a b (some (f, m)) (some (g, n)) =
    record {
      number = k;
      start_time = a.now;
      stop_time = b.now;
      filename = g;
      start_offset = if same_file a.info b.info then m else 0;
      end_offset = n;
    }
    ∷ []

-- The intervals between the ticks after `a`, the first of them with this number.
unfoldable pub intervals_of : ℕ → Tick → List Tick → List Interval
intervals_of k a [] = []
intervals_of k a (b ∷ ticks) =
    let done = between k a b (seen a) (seen b) in done ++ intervals_of (k + length done) b ticks

-- A tick has a time, and a file does not change while the first tick of an interval looks at it.
abbrev pub IsSteady : Tick → Type 0
IsSteady t = (t.now ≢ 0) × (t.info_again ≡ t.info)

-- The state after the tick `a`.
IsAfter : Iter → Tick → Option (String × ℕ) → Type 0
IsAfter s a none = s.cur ≡ new_interval
IsAfter s a (some (f, n)) =
    (s.cur ≡ record new_interval { start_time = a.now; start_offset = n })
    × (s.prev_file_info ≡ a.info)

-- What the tick `b` does, by what is known at it.
tick_of : Iter → Tick → Option (String × ℕ) → Iter
tick_of s b none = on_error s
tick_of s b (some (f, n)) = on_file s b f (some n)

on_tick-seen : (s : Iter) (b : Tick) → on_tick s b ≡ tick_of s b (seen b)
unfolding on_tick on_name on_file tick_of
on_tick-seen s b = by_file b.file b.size
  where
    by_file :
        (file : Option String) (size : Option ℕ)
        → (elim file as (λ x. Iter) [ none ↦ on_error s | some f ↦ on_file s b f size ])
          ≡ tick_of s b (file >>= (λ f. size >>= (λ n. some (f, n))))
    by_file none size = refl
    by_file (some f) none = refl
    by_file (some f) (some n) = refl

-- `s'` is what the tick `b` after `a` makes of `s`.
record Follows (s : Iter) (a b : Tick) (p q : Option (String × ℕ)) (s' : Iter) : Type 0 where
  after : IsAfter s' b q
  count : s'.interval_no ≡ s.interval_no + length (between (s.interval_no + 1) a b p q)
  intervals : s'.intervals ≡ s.intervals ++ between (s.interval_no + 1) a b p q

not_if : (b : Bool) (m : ℕ) → (if not b then 0 else m) ≡ (if b then m else 0)
not_if true m = refl
not_if false m = refl

tick_of-Follows :
    (s : Iter) (a b : Tick) (p q : Option (String × ℕ))
    → IsSteady a
    → IsSteady b
    → IsAfter s a p
    → Follows s a b p q (tick_of s b q)
unfolding tick_of on_file on_error next_interval first_interval IsAfter
tick_of-Follows s a b none none h k after = record {
  after = refl;
  count = omega arith;
  intervals = sym (append-nil s.intervals);
}
tick_of-Follows s a b (some p) none h k after = record {
  after = refl;
  count = omega arith;
  intervals = sym (append-nil s.intervals);
}
tick_of-Follows s a b none (some (g, n)) h k after =
    let first : (s.cur.start_time == 0) ≡ true = rw after refl in
    rw first (record {
      after = (rw after refl, k.1);
      count = omega arith;
      intervals = sym (append-nil s.intervals);
    })
tick_of-Follows s a b (some (f, m)) (some (g, n)) h k (cur, info) =
    let later : (s.cur.start_time == 0) ≡ false = rw cur (ground arith) in
    rw later (record {
      after = (refl, refl);
      count = refl;
      intervals = rw (cur, info, not_if (same_file a.info b.info) m) refl;
    })

on_tick-Follows :
    (s : Iter) (a b : Tick)
    → IsSteady a
    → IsSteady b
    → IsAfter s a (seen a)
    → Follows s a b (seen a) (seen b) (on_tick s b)
on_tick-Follows s a b h k after =
    subst (Follows s a b (seen a) (seen b)) (sym (on_tick-seen s b))
      (tick_of-Follows s a b (seen a) (seen b) h k after)

run-after :
    (ticks : List Tick) (s : Iter) (a : Tick)
    → IsSteady a
    → All IsSteady ticks
    → IsAfter s a (seen a)
    → (run s ticks).intervals ≡ s.intervals ++ intervals_of (s.interval_no + 1) a ticks
unfolding run intervals_of
run-after [] s a h k after = sym (append-nil s.intervals)
run-after (b ∷ ticks) s a h k after =
    let step = on_tick-Follows s a b h k.0 after in
    let done = between (s.interval_no + 1) a b (seen a) (seen b) in
    let count : (on_tick s b).interval_no + 1 ≡ s.interval_no + 1 + length done =
      omega (arith, step.count) in
    run-after ticks (on_tick s b) b k.0 k.1 step.after
    ∙ ap (λ xs. xs ++ intervals_of ((on_tick s b).interval_no + 1) b ticks) step.intervals
    ∙ append_assoc s.intervals done (intervals_of ((on_tick s b).interval_no + 1) b ticks)
    ∙ ap (λ i. s.intervals ++ (done ++ intervals_of i b ticks)) count

abbrev no_tick : Tick
no_tick = record { now = 1; file = none; size = none; info = none; info_again = none }

-- Over any ticks at times other than 0, of which some find no file or no size, and at each of which
-- the file is the same at both looks at it, the intervals that the iterator makes are one for each two ticks in a row that
-- both know the size of the slow log, numbered from 1: from the time of the first to that of the
-- second, and from the size at the first, or from 0 if the file is another one, to the size at the
-- second.
pub run_intervals :
    (a : Tick) (ticks : List Tick)
    → All IsSteady (a ∷ ticks)
    → (run new_iter (a ∷ ticks)).intervals ≡ intervals_of 1 a ticks
unfolding intervals_of IsAfter
run_intervals a ticks h = run-after (a ∷ ticks) new_iter no_tick ((λ e. ground arith), refl) h refl
