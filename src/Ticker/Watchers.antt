-- ===== src/Ticker/Watchers.antt =====
-- The channels that the tickers of ticker/manager.go tick on.
use percona_agent.Prelude.{
  ℕ, ◌≡◌, refl, ap, sym, subst, ◌∙◌, inl, inr, Bool, true, false, Option, none, some, List, arith,
  ◌==◌, ==_iff, ==→eq, if◌then◌else◌, Bool-cases, nat_key, lookup, insert, erase, lookup-insert,
  lookup-erase,
}
use percona_agent.Ticker.{
  Ref, even, wait, Clock, new_clock, watchers_of, add_sync, add_wait, add, leave, remove,
}

-- The EvenTicker of the interval has the channel among its watchers.
abbrev pub IsWatcher : Clock → ℕ → ℕ → Type 0
IsWatcher k interval c =
    (b : Bool) × (lookup c (watchers_of (lookup interval k.sync_ticker)) ≡ some b)

-- A ticker ticks on a channel only if the clock knows that the channel is with that ticker.
abbrev pub IsKnown : Clock → Type 0
IsKnown k = (interval c : ℕ) → IsWatcher k interval c → lookup c k.watcher ≡ some (even interval)

pub lookup_watchers :
    (k : Clock) (i j d : ℕ) (ws : List (ℕ × Bool))
    → lookup d (watchers_of (lookup j (insert i ws k.sync_ticker)))
      ≡ (if i == j then lookup d ws else lookup d (watchers_of (lookup j k.sync_ticker)))
unfolding watchers_of
lookup_watchers k i j d ws = elim (Bool-cases (i == j)) [
  | inl t ↦ rw (t, lookup-insert i j ws k.sync_ticker, t) refl
  | inr t ↦ rw (t, lookup-insert i j ws k.sync_ticker, t) refl
]

pub add_sync-IsKnown :
    (k : Clock) (c interval : ℕ)
    → lookup c k.watcher ≡ none
    → IsKnown k
    → IsKnown (add_sync k c interval)
unfolding add_sync
add_sync-IsKnown k c interval new h = λ i d w.
    let ws = watchers_of (lookup interval k.sync_ticker) in
    let found = lookup_watchers k interval i d (insert c true ws) in
    elim (Bool-cases (c == d)) [
      | inl t ↦ elim (Bool-cases (interval == i)) [
        | inl u ↦ ground (arith, lookup-insert c d (even interval) k.watcher)
        | inr u ↦
            let known = h i d (w.0, ground (arith, found)) in absurd (ground (arith, ==→eq c d t))
      ]
      | inr t ↦
          let known =
            h i d (w.0, ground (arith, found, lookup-insert c d true ws, ==→eq interval i)) in
          ground (arith, lookup-insert c d (even interval) k.watcher)
    ]

add_wait-IsKnown :
    (k k' : Clock) (c : ℕ) (w : Option (Option ℕ))
    → lookup c k.watcher ≡ none
    → add_wait k c w ≡ some k'
    → IsKnown k
    → IsKnown k'
unfolding add_wait
add_wait-IsKnown k k' c (some w) new e h = absurd (ground arith)
add_wait-IsKnown k k' c none new e h = subst IsKnown (ap unwrap e) (λ i d w.
    let known = h i d w in ground (arith, lookup-insert c d (wait c) k.watcher, ==→eq c d))
  where
    unwrap : Option Clock → Clock
    unwrap none = k
    unwrap (some x) = x

-- A channel that is new to the clock is added.
pub add-IsKnown :
    (k k' : Clock) (c interval : ℕ) (sync : Bool)
    → lookup c k.watcher ≡ none
    → add k c interval sync ≡ some k'
    → IsKnown k
    → IsKnown k'
unfolding add
add-IsKnown k k' c interval true new e h =
    subst IsKnown (ap unwrap e) (add_sync-IsKnown k c interval new h)
  where
    unwrap : Option Clock → Clock
    unwrap none = k
    unwrap (some x) = x
add-IsKnown k k' c interval false new e h = add_wait-IsKnown k k' c (lookup c k.wait_ticker) new e h

-- What is left of the watchers when a channel leaves its ticker.
pub left_none :
    (k : Clock) (c i : ℕ) (r : Option Ref)
    → lookup c k.watcher ≡ r
    → IsKnown k
    → IsWatcher (leave k c r) i c
    → ⊥
unfolding leave
left_none k c i none e h w = let known = h i c w in ground arith
left_none k c i (some (wait d)) e h w = let known = h i c w in ground arith
left_none k c i (some (even j)) e h w =
    let ws = watchers_of (lookup j k.sync_ticker) in
    let found = lookup_watchers k j i c (erase c ws) in
    elim (Bool-cases (j == i)) [
      | inl t ↦ ground (arith, found, lookup-erase c c ws, ==_iff c c)
      | inr t ↦ let known = h i c (w.0, ground (arith, found)) in ground (arith, ==_iff j i)
    ]

left_others :
    (k : Clock) (c i d : ℕ) (r : Option Ref)
    → (c == d) ≡ false
    → IsWatcher (leave k c r) i d
    → IsWatcher k i d
unfolding leave
left_others k c i d none n w = w
left_others k c i d (some (wait x)) n w = w
left_others k c i d (some (even j)) n w =
    let ws = watchers_of (lookup j k.sync_ticker) in
    (w.0, ground (arith, lookup_watchers k j i d (erase c ws), lookup-erase c d ws, ==→eq j i))

pub leave-watcher : (k : Clock) (c : ℕ) (r : Option Ref) → (leave k c r).watcher ≡ k.watcher
unfolding leave
leave-watcher k c none = refl
leave-watcher k c (some (wait x)) = refl
leave-watcher k c (some (even j)) = refl

-- The channels of the other watchers stay.
left_keeps :
    (k : Clock) (c i d : ℕ) (r : Option Ref)
    → (c == d) ≡ false
    → IsWatcher k i d
    → IsWatcher (leave k c r) i d
unfolding leave
left_keeps k c i d none n w = w
left_keeps k c i d (some (wait x)) n w = w
left_keeps k c i d (some (even j)) n w =
    let ws = watchers_of (lookup j k.sync_ticker) in
    (w.0, ground (arith, lookup_watchers k j i d (erase c ws), lookup-erase c d ws, ==→eq j i))

pub remove-IsKnown : (k : Clock) (c : ℕ) → IsKnown k → IsKnown (remove k c)
unfolding remove
remove-IsKnown k c h = λ i d w. elim (Bool-cases (c == d)) [
  | inl t ↦
      let same : c ≡ d = ==→eq c d t in
      absurd (
        left_none k c i (lookup c k.watcher) refl h
          (subst (λ x. IsWatcher (leave k c (lookup c k.watcher)) i x) (sym same) w))
  | inr t ↦
      let known = h i d (left_others k c i d (lookup c k.watcher) t w) in
      ap (λ m. lookup d (erase c m)) (leave-watcher k c (lookup c k.watcher))
      ∙ ground (arith, lookup-erase c d k.watcher)
]

pub remove-none : (k : Clock) (c i : ℕ) → IsKnown k → ¬ IsWatcher (remove k c) i c
unfolding remove
remove-none k c i h w = left_none k c i (lookup c k.watcher) refl h w

pub remove-keeps :
    (k : Clock) (c i d : ℕ) → (c == d) ≡ false → IsWatcher k i d → IsWatcher (remove k c) i d
unfolding remove
remove-keeps k c i d n w = left_keeps k c i d (lookup c k.watcher) n w

pub add_sync-watcher :
    (k : Clock) (c interval d : ℕ)
    → lookup d (add_sync k c interval).watcher
      ≡ (if c == d then some (even interval) else lookup d k.watcher)
unfolding add_sync
add_sync-watcher k c interval d = lookup-insert c d (even interval) k.watcher

pub add_sync-others :
    (k : Clock) (c interval i d : ℕ)
    → (c == d) ≡ false
    → IsWatcher (add_sync k c interval) i d
    → IsWatcher k i d
unfolding add_sync
add_sync-others k c interval i d n w =
    let ws = watchers_of (lookup interval k.sync_ticker) in
    (
      w.0,
      ground (
        arith,
        lookup_watchers k interval i d (insert c true ws),
        lookup-insert c d true ws,
        ==→eq interval i,
      ),
    )

pub add_sync-keeps :
    (k : Clock) (c interval i d : ℕ)
    → (c == d) ≡ false
    → IsWatcher k i d
    → IsWatcher (add_sync k c interval) i d
unfolding add_sync
add_sync-keeps k c interval i d n w =
    let ws = watchers_of (lookup interval k.sync_ticker) in
    (
      w.0,
      ground (
        arith,
        lookup_watchers k interval i d (insert c true ws),
        lookup-insert c d true ws,
        ==→eq interval i,
      ),
    )

pub add_sync-itself : (k : Clock) (c interval : ℕ) → IsWatcher (add_sync k c interval) interval c
unfolding add_sync
add_sync-itself k c interval =
    let ws = watchers_of (lookup interval k.sync_ticker) in
    (
      true,
      ground (
        arith,
        lookup_watchers k interval interval c (insert c true ws),
        lookup-insert c c true ws,
        ==_iff c c,
        ==_iff interval interval,
      ),
    )

-- A channel that is new to the clock is with the ticker of its interval only.
pub add_sync-same :
    (k : Clock) (c interval i : ℕ)
    → lookup c k.watcher ≡ none
    → IsKnown k
    → IsWatcher (add_sync k c interval) i c
    → interval ≡ i
add_sync-same k c interval i new h w =
    let known = add_sync-IsKnown k c interval new h i c w in
    ground (arith, add_sync-watcher k c interval c, ==_iff c c)

pub remove-watcher :
    (k : Clock) (c d : ℕ) (r : Ref)
    → lookup d (remove k c).watcher ≡ some r
    → lookup d k.watcher ≡ some r
unfolding remove
remove-watcher k c d r e =
    let same : lookup d (erase c k.watcher) ≡ some r =
      ap (λ m. lookup d (erase c m)) (sym (leave-watcher k c (lookup c k.watcher))) ∙ e in
    ground (arith, lookup-erase c d k.watcher)

pub remove-others :
    (k : Clock) (c i d : ℕ) → (c == d) ≡ false → IsWatcher (remove k c) i d → IsWatcher k i d
unfolding remove
remove-others k c i d n w = left_others k c i d (lookup c k.watcher) n w

pub new_clock-IsKnown : IsKnown new_clock
unfolding new_clock lookup watchers_of
new_clock-IsKnown = λ i c w. absurd (ground arith)

pub new_clock-none : (c : ℕ) → lookup c new_clock.watcher ≡ none
unfolding new_clock lookup
new_clock-none c = refl
