-- ===== src/Ticker.antt =====
-- ticker/manager.go: the clock, which shares tickers among channels; and the tickers' own lists of
-- channels in ticker/ticker.go and ticker/wait.go.
-- A channel is a number. A ticker is known by its interval if it ticks at even times, and by its
-- channel if it waits for it. Seconds are below 2^53, where float64 is exact.
pub mod Intervals
pub mod Watchers
pub mod Silence
pub mod Moving
mod Tests
use percona_agent.Prelude.{
  ℕ, ◌-◌, ◌%◌, Bool, true, false, Option, none, some, List, [], ◌∷◌, ◌==◌, if◌then◌else◌, nat_key,
  lookup, insert, erase,
}

-- The ticker that a channel is added to.
pub data Ref : Type 0 where
  even : ℕ → Ref
  wait : ℕ → Ref

-- A channel is among the watchers of an EvenTicker, or it is the watcher of a WaitTicker.
pub record Clock : Type 0 where
  pub sync_ticker : List (ℕ × List (ℕ × Bool))
  pub wait_ticker : List (ℕ × Option ℕ)
  pub watcher : List (ℕ × Ref)

pub new_clock : Clock
new_clock = record { sync_ticker = []; wait_ticker = []; watcher = [] }

pub watchers_of : Option (List (ℕ × Bool)) → List (ℕ × Bool)
watchers_of none = []
watchers_of (some ws) = ws

pub add_sync : Clock → ℕ → ℕ → Clock
add_sync k c interval =
    let ws = watchers_of (lookup interval k.sync_ticker) in
    record k {
      sync_ticker = insert interval (insert c true ws) k.sync_ticker;
      watcher = insert c (even interval) k.watcher;
    }

-- `none` is the panic for a channel that has a WaitTicker.
pub add_wait : Clock → ℕ → Option (Option ℕ) → Option Clock
add_wait k c (some w) = none
add_wait k c none = some (record k {
  wait_ticker = insert c (some c) k.wait_ticker;
  watcher = insert c (wait c) k.watcher;
})

pub add : Clock → ℕ → ℕ → Bool → Option Clock
add k c interval true = some (add_sync k c interval)
add k c interval false = add_wait k c (lookup c k.wait_ticker)

-- `ticker.Remove(c)`.
pub leave : Clock → ℕ → Option Ref → Clock
leave k c none = k
leave k c (some (even interval)) =
    let ws = watchers_of (lookup interval k.sync_ticker) in
    record k { sync_ticker = insert interval (erase c ws) k.sync_ticker }
leave k c (some (wait d)) = record k { wait_ticker = insert d none k.wait_ticker }

pub remove : Clock → ℕ → Clock
remove k c =
    let k' = leave k c (lookup c k.watcher) in
    record k' { watcher = erase c k'.watcher; wait_ticker = erase c k'.wait_ticker }

-- The start of the interval in which `now` lies.
pub began : ℕ → ℕ → ℕ
began interval now =
    let d = interval - now % interval in if d == interval then now else now - (interval - d)
