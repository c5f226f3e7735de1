-- ===== src/Mrms/Monitor.antt =====
-- mrms/monitor: instance.go, subscribers.go and monitor.go.
-- A time is nanoseconds since 1970. MySQL and the clock answer from an Answer for each check. A
-- channel is a number. One that a subscriber reads holds one value, here true if it is there, and
-- a send to a full channel gives up after a second; the global channel holds 100.
pub mod Restart
pub mod Subscriptions
pub mod Lifetime
mod Tests
use mathlib.Core.Option
use percona_agent.Prelude.{
  ℕ, zero, suc, ◌+◌, ◌-◌, ◌*◌, ◌/◌, ◌%◌, ◌^◌, ◌≤◌, ◌<◌, min, String, ◌≡◌, refl, sym, ap, ◌∙◌, subst,
  ◌≢◌, ◌↔◌, ◌⊎◌, inl, inr, Bool, true, false, not, ◌&&◌, ◌||◌, Option, none, some, List, [], ◌∷◌,
  ◌++◌, ◌>>=◌, map, arith, ltb, leb, ◌==◌, if◌then◌else◌, tests, Bool-cases, Option-cases, length,
  get_elem?, get_or, set, take, drop, replicate, All, length-append, length-set, length-take,
  length-replicate, take-append-drop, All-append, sum_of, sum_of-append, Eq, nat_key, string_key,
  lookup, insert, erase, lookup-insert, lookup-erase,
}
use percona_agent.Prelude.{or_else}
use percona_agent.Prelude.Int.{ℤ, pos, ◌+ℤ◌, ltb_ℤ, sub_ℕ}

abbrev pub nano : ℕ
nano = 1000000000

pub record Subscribers : Type 0 where
  pub subscribers : List (ℕ × Bool)
  pub global_subscribers : List (ℕ × String)

pub record MysqlInstance : Type 0 where
  pub dsn : String
  pub subscribers : Subscribers
  pub last_uptime : ℕ
  pub last_uptime_check : ℕ

pub record Monitor : Type 0 where
  pub mysql_instances : List (String × MysqlInstance)
  -- What stands in the global channel, and the next new channel.
  pub global_queue : List String
  pub next_chan : ℕ

-- One visit to MySQL: whether it connects, the uptime that it tells, and the clock, read once or
-- twice after that.
pub record Answer : Type 0 where
  pub connects : Bool
  pub uptime : Option ℕ
  pub now : ℕ
  pub now_after : ℕ

pub data Checked : Type 0 where
  restarted : Checked
  running : Checked
  failed : Checked

abbrev pub global_chan : ℕ
global_chan = 0

pub new_monitor : Monitor
new_monitor = record { mysql_instances = []; global_queue = []; next_chan = 1 }

pub new_mysql_instance : String → Answer → Option MysqlInstance
new_mysql_instance dsn a =
    if a.connects
    then Option.map
        (λ u. record {
          dsn = dsn;
          subscribers = record { subscribers = []; global_subscribers = [] };
          last_uptime = u;
          last_uptime_check = a.now;
        })
        a.uptime
    else none

-- `time.Unix()`.
abbrev pub unix : ℕ → ℕ
unix t = t / nano

pub expected_uptime : MysqlInstance → ℕ → ℤ
expected_uptime m now = pos m.last_uptime +ℤ sub_ℕ (unix now) (unix m.last_uptime_check)

pub on_uptime : MysqlInstance → Answer → Option ℕ → Checked × MysqlInstance
on_uptime m a none = (failed, m)
on_uptime m a (some u) = (
  (if ltb_ℤ (pos u) (expected_uptime m a.now) then restarted else running),
  record m { last_uptime = u; last_uptime_check = a.now_after },
)

pub check_if_mysql_restarted : MysqlInstance → Answer → Checked × MysqlInstance
check_if_mysql_restarted m a = if a.connects then on_uptime m a a.uptime else (failed, m)

-- The methods of Subscribers.
pub global_add : Subscribers → ℕ → String → Option Subscribers
global_add s c dsn =
    if string_key.beq dsn ""
    then none
    else some (record s { global_subscribers = insert c dsn s.global_subscribers })

pub remove_dsn : String → List (ℕ × String) → List (ℕ × String)
remove_dsn dsn [] = []
remove_dsn dsn ((c, d) ∷ rest) =
    if string_key.beq d dsn then remove_dsn dsn rest else (c, d) ∷ remove_dsn dsn rest

pub global_remove : Subscribers → String → Subscribers
global_remove s dsn = record s { global_subscribers = remove_dsn dsn s.global_subscribers }

pub remove_subscriber : Subscribers → ℕ → Subscribers
remove_subscriber s c = record s { subscribers = erase c s.subscribers }

pub empty : Subscribers → Bool
empty s = length s.subscribers == 0

pub notify_global : List (ℕ × String) → List String → List String
notify_global [] queue = queue
notify_global ((c, dsn) ∷ rest) queue =
    notify_global rest (if ltb (length queue) 100 then queue ++ dsn ∷ [] else queue)

pub notify : Subscribers → List String → Subscribers × List String
notify s queue = (
  record s { subscribers = map (λ c. (c.0, true)) s.subscribers },
  notify_global s.global_subscribers queue,
)

-- The methods of Monitor. Add returns the new channel, or the error.
pub subscribe : Monitor → String → MysqlInstance → Monitor × Option ℕ
subscribe m dsn i =
    let s = i.subscribers in
    let added = record i {
      subscribers = record s { subscribers = insert m.next_chan false s.subscribers };
    } in
    (
      record m {
        mysql_instances = insert dsn added m.mysql_instances;
        next_chan = m.next_chan + 1;
      },
      some m.next_chan,
    )

pub add_new : Monitor → String → Option MysqlInstance → Monitor × Option ℕ
add_new m dsn none = (m, none)
add_new m dsn (some i) = subscribe m dsn i

pub add : Monitor → String → Answer → Monitor × Option ℕ
add m dsn a = add_new m dsn (or_else (lookup dsn m.mysql_instances) (new_mysql_instance dsn a))

-- The loop of GlobalSubscribe: an error ends it.
pub global_subscribe_all : List (String × MysqlInstance) → List (String × MysqlInstance) × Bool
global_subscribe_all [] = ([], true)
global_subscribe_all ((dsn, i) ∷ rest) = elim (global_add i.subscribers global_chan i.dsn) [
  | none ↦ ((dsn, i) ∷ rest, false)
  | some s ↦
      (let (rest', ok) = global_subscribe_all rest in
        ((dsn, record i { subscribers = s }) ∷ rest', ok))
]

pub global_subscribe : Monitor → Monitor × Bool
global_subscribe m =
    let (is, ok) = global_subscribe_all m.mysql_instances in (record m { mysql_instances = is }, ok)

pub drop_subscriber : Monitor → String → ℕ → Option MysqlInstance → Monitor
drop_subscriber m dsn c none = m
drop_subscriber m dsn c (some i) =
    let s = remove_subscriber i.subscribers c in
    record m {
      mysql_instances =
          if empty s
          then erase dsn m.mysql_instances
          else insert dsn (record i { subscribers = global_remove s dsn }) m.mysql_instances;
    }

pub remove : Monitor → String → ℕ → Monitor
remove m dsn c = drop_subscriber m dsn c (lookup dsn m.mysql_instances)

pub on_checked : Checked × MysqlInstance → List String → MysqlInstance × List String
on_checked (restarted, i) queue =
    let (s, queue') = notify i.subscribers queue in (record i { subscribers = s }, queue')
on_checked (running, i) queue = (i, queue)
on_checked (failed, i) queue = (i, queue)

pub check_all :
    (String → Answer)
    → List (String × MysqlInstance)
    → List String
    → List (String × MysqlInstance) × List String
check_all a [] queue = ([], queue)
check_all a ((dsn, i) ∷ rest) queue =
    let (i', queue') = on_checked (check_if_mysql_restarted i (a dsn)) queue in
    let (rest', queue'') = check_all a rest queue' in ((dsn, i') ∷ rest', queue'')

pub check : Monitor → (String → Answer) → Monitor
check m a =
    let (is, queue) = check_all a m.mysql_instances m.global_queue in
    record m { mysql_instances = is; global_queue = queue }
