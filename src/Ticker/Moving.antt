-- ===== src/Ticker/Moving.antt =====
-- A channel that is added to the clock of ticker/manager.go again.
use percona_agent.Prelude.{
  ℕ, ◌≡◌, ap, ◌∙◌, ◌≢◌, true, false, some, arith, ◌==◌, ==_iff, nat_key, lookup, insert, erase,
  lookup-insert, lookup-erase, none, Option, Bool, sym,
}
use percona_agent.Ticker.{Ref, even, Clock, watchers_of, add_sync, leave, remove}
use percona_agent.Ticker.Watchers.{IsWatcher, lookup_watchers, add_sync-itself}

-- A channel that is added at one interval and then at another is with both tickers; Remove takes it
-- from the second, but not from the first, which goes on to tick on it.
pub moved :
    (k : Clock) (c first second : ℕ)
    → first ≢ second
    → IsWatcher (add_sync (add_sync k c first) c second) first c
      × IsWatcher (add_sync (add_sync k c first) c second) second c
      × IsWatcher (remove (add_sync (add_sync k c first) c second) c) first c
      × (¬ IsWatcher (remove (add_sync (add_sync k c first) c second) c) second c)
unfolding remove add_sync leave
moved k c first second other =
    let ws = watchers_of (lookup first k.sync_ticker) in
    let k1 = add_sync k c first in
    let k2 = add_sync k1 c second in
    let ws1 = watchers_of (lookup second k1.sync_ticker) in
    let ws2 = watchers_of (lookup second k2.sync_ticker) in
    let apart : (second == first) ≡ false = ground (arith, ==_iff second first) in
    let last : lookup c k2.watcher ≡ some (even second) =
      ground (arith, lookup-insert c c (even second) k1.watcher, ==_iff c c) in
    let on_first : lookup c (watchers_of (lookup first k2.sync_ticker)) ≡ some true = ground (
      arith,
      apart,
      lookup_watchers k1 second first c (insert c true ws1),
      lookup_watchers k first first c (insert c true ws),
      lookup-insert c c true ws,
      ==_iff c c,
      ==_iff first first,
    ) in
    let still : lookup c (watchers_of (lookup first (leave k2 c (some (even second))).sync_ticker))
        ≡ some true =
      ground (arith, apart, on_first, lookup_watchers k2 second first c (erase c ws2)) in
    let gone : lookup c (watchers_of (lookup second (leave k2 c (some (even second))).sync_ticker))
        ≡ none =
      ground (
        arith,
        lookup_watchers k2 second second c (erase c ws2),
        lookup-erase c c ws2,
        ==_iff c c,
        ==_iff second second,
      ) in
    let at : ℕ → Option Ref → Option Bool =
      λ i r. lookup c (watchers_of (lookup i (leave k2 c r).sync_ticker)) in
    (
      (true, on_first),
      add_sync-itself k1 c second,
      (true, ap (at first) last ∙ still),
      λ w.
          let none_there : Path (Option Bool) none (some w.0) =
            sym (ap (at second) last ∙ gone) ∙ w.1 in
          ground arith,
    )
