-- ===== src/Qan/Analyzer/Turns.antt =====
-- Intervals and workers of qan/analyzer.go: one at a time, and only while MySQL is configured.
use mathlib.Core.List.{append_assoc, append-nil}
use percona_agent.Prelude.{
  ℕ, zero, suc, ◌+◌, ◌≡◌, refl, sym, ap, ◌∙◌, Bool, true, false, not, Option, none, some, List, [],
  ◌∷◌, ◌++◌, arith, if◌then◌else◌,
}
use percona_agent.Qan.Analyzer.{
  Interval, Analyzer, Next, goes_on, returns, hangs, start_worker, on_interval, on_worker_end,
  on_worker_seen, on_configures, on_configured, stop_iter, configure_again, on_restart,
}

unfoldable pub one_if : Bool → ℕ
one_if true = 1
one_if false = 0

unfoldable pub list_of : Option Interval → List Interval
list_of none = []
list_of (some i) = i ∷ []

-- Where the interval of the worker that was started last is.
pub data IsTurn : Bool → Option Interval → Option Interval → Type 0 where
  no_worker : IsTurn false none none
  at_work : (i : Interval) → IsTurn true (some i) none
  finished : (i : Interval) → IsTurn true none (some i)

-- One goroutine configures MySQL, or its success is in the channel, or `run` has seen it; the
-- iterator runs in the last case only; at most one worker is under way, and `run` cleans up after
-- the intervals in the order in which it started them.
pub record IsConsistent (a : Analyzer) : Type 0 where
  pub iter_eq : a.iter_running ≡ a.mysql_configured
  pub one : a.configuring + one_if a.configured_chan + one_if a.mysql_configured ≡ 1
  pub turn : IsTurn a.worker_running a.worker a.worker_done
  pub order : a.started ≡ a.cleaned ++ (list_of a.worker_done ++ list_of a.worker)

abbrev pub Continues : Next → Type 0
Continues (goes_on a) = IsConsistent a
Continues (returns a) = Unit
Continues (hangs a) = Unit

start_worker-IsConsistent :
    (a : Analyzer) (i : Interval)
    → IsConsistent a
    → a.worker_running ≡ false
    → IsConsistent (start_worker a i)
unfolding start_worker list_of
start_worker-IsConsistent a i h idle = record {
  iter_eq = h.iter_eq;
  one = h.one;
  turn = by_turn a.worker_running a.worker a.worker_done h.turn idle;
  order =
      ap (λ xs. xs ++ i ∷ [])
        (h.order ∙ nothing_open a.worker_running a.worker a.worker_done h.turn idle)
      ∙ ap (λ d. a.cleaned ++ (list_of d ++ i ∷ []))
          (sym (none_done a.worker_running a.worker a.worker_done h.turn idle));
}
  where
    by_turn : (r : Bool) (w d : Option Interval) → IsTurn r w d → r ≡ false → IsTurn true (some i) d
    by_turn _ _ _ no_worker e = at_work i
    by_turn _ _ _ (at_work j) e = absurd (ground arith)
    by_turn _ _ _ (finished j) e = absurd (ground arith)

    none_done : (r : Bool) (w d : Option Interval) → IsTurn r w d → r ≡ false → d ≡ none
    none_done _ _ _ no_worker e = refl
    none_done _ _ _ (at_work j) e = absurd (ground arith)
    none_done _ _ _ (finished j) e = absurd (ground arith)

    nothing_open :
        (r : Bool) (w d : Option Interval)
        → IsTurn r w d
        → r ≡ false
        → a.cleaned ++ (list_of d ++ list_of w) ≡ a.cleaned
    nothing_open _ _ _ no_worker e = append-nil a.cleaned
    nothing_open _ _ _ (at_work j) e = absurd (ground arith)
    nothing_open _ _ _ (finished j) e = absurd (ground arith)

-- An interval that is skipped changes nothing that counts.
skip-IsConsistent :
    (a : Analyzer) (xs : List Interval) → IsConsistent a → IsConsistent (record a { skipped = xs })
skip-IsConsistent a xs h = record {
  iter_eq = h.iter_eq;
  one = h.one;
  turn = h.turn;
  order = h.order;
}

pub on_interval-IsConsistent :
    (a : Analyzer) (i : Interval) → IsConsistent a → IsConsistent (on_interval a i)
unfolding on_interval
on_interval-IsConsistent a i h = by_state a.mysql_configured a.worker_running refl
  where
    skipped : Analyzer
    skipped = record a { skipped = a.skipped ++ i ∷ [] }

    by_state :
        (b r : Bool)
        → a.worker_running ≡ r
        → IsConsistent (if not b then skipped else if r then skipped else start_worker a i)
    by_state false r e = skip-IsConsistent a _ h
    by_state true true e = skip-IsConsistent a _ h
    by_state true false e = start_worker-IsConsistent a i h e

pub on_worker_end-IsConsistent :
    (a : Analyzer) (w d : Option Interval)
    → a.worker ≡ w
    → a.worker_done ≡ d
    → IsConsistent a
    → IsConsistent (on_worker_end a w d)
unfolding on_worker_end list_of
on_worker_end-IsConsistent a none d e f h = h
on_worker_end-IsConsistent a (some i) (some j) e f h = h
on_worker_end-IsConsistent a (some i) none e f h = record {
  iter_eq = h.iter_eq;
  one = h.one;
  turn = by_turn a.worker_running a.worker a.worker_done h.turn e;
  order =
      h.order
      ∙ ap (λ x. a.cleaned ++ (list_of x ++ list_of a.worker)) f
      ∙ ap (λ x. a.cleaned ++ list_of x) e;
}
  where
    by_turn :
        (r : Bool) (w d : Option Interval) → IsTurn r w d → w ≡ some i → IsTurn r none (some i)
    by_turn _ _ _ no_worker g = absurd (ground arith)
    by_turn _ _ _ (at_work j) g = finished i
    by_turn _ _ _ (finished j) g = absurd (ground arith)

pub on_worker_seen-IsConsistent :
    (a : Analyzer) (d : Option Interval)
    → a.worker_done ≡ d
    → IsConsistent a
    → IsConsistent (on_worker_seen a d)
unfolding on_worker_seen list_of
on_worker_seen-IsConsistent a none f h = h
on_worker_seen-IsConsistent a (some i) f h = record {
  iter_eq = h.iter_eq;
  one = h.one;
  turn = by_turn a.worker_running a.worker a.worker_done h.turn f;
  order =
      h.order
      ∙ ap (λ x. a.cleaned ++ (list_of x ++ list_of a.worker)) f
      ∙ sym (append_assoc a.cleaned (i ∷ []) (list_of a.worker));
}
  where
    by_turn : (r : Bool) (w d : Option Interval) → IsTurn r w d → d ≡ some i → IsTurn false w none
    by_turn _ _ _ no_worker g = absurd (ground arith)
    by_turn _ _ _ (at_work j) g = absurd (ground arith)
    by_turn _ _ _ (finished j) g = no_worker

pub on_configures-IsConsistent :
    (a : Analyzer) (n : ℕ) (b : Bool)
    → a.configuring ≡ n
    → a.configured_chan ≡ b
    → IsConsistent a
    → IsConsistent (on_configures a n b)
unfolding on_configures one_if
on_configures-IsConsistent a zero b e f h = h
on_configures-IsConsistent a (suc n) true e f h = h
on_configures-IsConsistent a (suc n) false e f h = record {
  iter_eq = h.iter_eq;
  one = omega (arith, h.one, e, ap one_if f);
  turn = h.turn;
  order = h.order;
}

pub on_configured-IsConsistent :
    (a : Analyzer) (b : Bool) (eta now : ℕ)
    → a.configured_chan ≡ b
    → IsConsistent a
    → IsConsistent (on_configured a b eta now)
unfolding on_configured one_if
on_configured-IsConsistent a false eta now f h = h
on_configured-IsConsistent a true eta now f h = record {
  iter_eq = refl;
  one = omega (arith, h.one, ap one_if f);
  turn = h.turn;
  order = h.order;
}

pub on_restart-Continues :
    (a : Analyzer) (b : Bool) (r : Bool)
    → a.mysql_configured ≡ b
    → a.iter_running ≡ r
    → IsConsistent a
    → Continues (on_restart a b)
unfolding on_restart stop_iter configure_again one_if
on_restart-Continues a false r e f h = h
on_restart-Continues a true r e f h = by_iter a.iter_running
  where
    by_iter :
        (x : Bool)
        → Continues (configure_again (stop_iter (record a { mysql_configured = false }) x))
    by_iter false = tt
    by_iter true = record {
      iter_eq = refl;
      one = omega (arith, h.one, ap one_if e);
      turn = h.turn;
      order = h.order;
    }
