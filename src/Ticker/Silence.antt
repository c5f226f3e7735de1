-- ===== src/Ticker/Silence.antt =====
-- What Remove of ticker/manager.go takes from the tickers, and what it leaves.
use percona_agent.Prelude.{
  ℕ, ◌≡◌, ◌≢◌, ◌↔◌, refl, ap, ◌∙◌, inl, inr, false, Option, none, some, arith, ◌==◌, ==_iff, ==→eq,
  if◌then◌else◌, Bool-cases, nat_key, lookup, erase, lookup-insert, lookup-erase,
}
use percona_agent.Ticker.{Ref, even, wait, Clock, leave, remove, new_clock, add_sync}
use percona_agent.Ticker.Watchers.{
  IsWatcher, IsKnown, left_none, leave-watcher, remove-IsKnown, remove-none, remove-others,
  remove-keeps, add_sync-IsKnown, add_sync-watcher, new_clock-IsKnown,
}

-- A ticker ticks only on channels that the clock knows to be with it, and a WaitTicker only on the
-- channel that it is kept under.
pub record IsSettled (k : Clock) : Type 0 where
  pub known : IsKnown k
  pub waits :
      (e d : ℕ)
      → lookup e k.wait_ticker ≡ some (some d)
      → (e ≡ d) × (lookup d k.watcher ≡ some (wait d))
  pub refs : (c e : ℕ) → lookup c k.watcher ≡ some (wait e) → c ≡ e

-- No ticker ticks on the channel.
abbrev pub IsSilent : Clock → ℕ → Type 0
IsSilent k c =
    ((i : ℕ) → ¬ IsWatcher k i c) × ((e : ℕ) → ¬ (lookup e k.wait_ticker ≡ some (some c)))

leave-wait_same :
    (k : Clock) (c d : ℕ) (r : Option Ref)
    → lookup c k.watcher ≡ r
    → (c == d) ≡ false
    → IsSettled k
    → lookup d (leave k c r).wait_ticker ≡ lookup d k.wait_ticker
unfolding leave
leave-wait_same k c d none e n h = refl
leave-wait_same k c d (some (even j)) e n h = refl
leave-wait_same k c d (some (wait x)) e n h =
    let same = h.refs c x e in ground (arith, lookup-insert {V = Option ℕ} x d none k.wait_ticker)

leave-wait_none :
    (k : Clock) (c e : ℕ) (r : Option Ref)
    → lookup c k.watcher ≡ r
    → IsSettled k
    → ¬ (lookup e (leave k c r).wait_ticker ≡ some (some c))
unfolding leave
leave-wait_none k c e none q h w = let known = (h.waits e c w).1 in ground arith
leave-wait_none k c e (some (even j)) q h w = let known = (h.waits e c w).1 in ground arith
leave-wait_none k c e (some (wait x)) q h w = elim (Bool-cases (x == e)) [
  | inl t ↦ ground (arith, lookup-insert {V = Option ℕ} x e none k.wait_ticker)
  | inr t ↦
      let old : lookup e k.wait_ticker ≡ some (some c) =
        ground (arith, lookup-insert {V = Option ℕ} x e none k.wait_ticker) in
      let key = (h.waits e c old).0 in let same = h.refs c x q in ground (arith, ==_iff x e)
]

remove-wait :
    (k : Clock) (c d : ℕ)
    → IsSettled k
    → lookup d (remove k c).wait_ticker ≡ (if c == d then none else lookup d k.wait_ticker)
unfolding remove
remove-wait k c d h =
    let k' = leave k c (lookup c k.watcher) in
    elim (Bool-cases (c == d)) [
      | inl t ↦ ground (arith, lookup-erase c d k'.wait_ticker)
      | inr t ↦ ground (
        arith,
        lookup-erase c d k'.wait_ticker,
        leave-wait_same k c d (lookup c k.watcher) refl t h,
      )
    ]

remove-watcher_at :
    (k : Clock) (c d : ℕ)
    → lookup d (remove k c).watcher ≡ (if c == d then none else lookup d k.watcher)
unfolding remove
remove-watcher_at k c d =
    ap (λ m. lookup d (erase c m)) (leave-watcher k c (lookup c k.watcher))
    ∙ lookup-erase c d k.watcher

remove-IsSettled : (k : Clock) (c : ℕ) → IsSettled k → IsSettled (remove k c)
remove-IsSettled k c h = record {
  known = remove-IsKnown k c h.known;
  waits = λ e d w. elim (Bool-cases (c == e)) [
    | inl t ↦ absurd (ground (arith, remove-wait k c e h))
    | inr t ↦
        let old : lookup e k.wait_ticker ≡ some (some d) = ground (arith, remove-wait k c e h) in
        let (key, ref) = h.waits e d old in (key, ground (arith, remove-watcher_at k c d))
  ];
  refs = λ d e w. elim (Bool-cases (c == d)) [
    | inl t ↦ absurd (ground (arith, remove-watcher_at k c d))
    | inr t ↦ h.refs d e (ground (arith, remove-watcher_at k c d))
  ];
}

pub add_sync-IsSettled :
    (k : Clock) (c interval : ℕ)
    → lookup c k.watcher ≡ none
    → IsSettled k
    → IsSettled (add_sync k c interval)
unfolding add_sync
add_sync-IsSettled k c interval new h = record {
  known = add_sync-IsKnown k c interval new h.known;
  waits = λ e d w.
      let (key, ref) = h.waits e d w in
      (key, ground (arith, add_sync-watcher k c interval d, ==→eq c d));
  refs = λ d e w. h.refs d e (ground (arith, add_sync-watcher k c interval d));
}

pub new_clock-IsSettled : IsSettled new_clock
unfolding new_clock lookup
new_clock-IsSettled = record {
  known = new_clock-IsKnown;
  waits = λ e d w. absurd (ground arith);
  refs = λ c e w. absurd (ground arith);
}

-- Remove takes a channel from the ticker that ticks on it before it forgets it, so that no ticker
-- ticks on it then or later; every other channel stays with its tickers, and the clock knows of it
-- what it knew. This is so while each ticker ticks only on channels that the clock knows to be with
-- it, which Remove keeps true.
pub remove_silences :
    (k : Clock) (c i d : ℕ)
    → IsSettled k
    → c ≢ d
    → IsSettled (remove k c)
      × IsSilent (leave k c (lookup c k.watcher)) c
      × IsSilent (remove k c) c
      × (IsWatcher (remove k c) i d ↔ IsWatcher k i d)
      × (lookup d (remove k c).wait_ticker ≡ lookup d k.wait_ticker)
      × (lookup d (remove k c).watcher ≡ lookup d k.watcher)
remove_silences k c i d h other =
    let n : (c == d) ≡ false = ground (arith, ==_iff c d) in
    (
      remove-IsSettled k c h,
      (
        (λ j w. left_none k c j (lookup c k.watcher) refl h.known w),
        (λ e w. leave-wait_none k c e (lookup c k.watcher) refl h w),
      ),
      (
        (λ j w. remove-none k c j h.known w),
        (λ e w.
            let (key, ref) = (remove-IsSettled k c h).waits e c w in
            ground (arith, remove-watcher_at k c c, ==_iff c c)),
      ),
      ((λ w. remove-others k c i d n w), (λ w. remove-keeps k c i d n w)),
      ground (arith, remove-wait k c d h),
      ground (arith, remove-watcher_at k c d),
    )
