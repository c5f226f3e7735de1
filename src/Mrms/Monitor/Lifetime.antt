-- ===== src/Mrms/Monitor/Lifetime.antt =====
-- How long mrms/monitor/monitor.go watches a server.
use percona_agent.Prelude.{
  ℕ, suc, ◌≤◌, String, ◌≡◌, refl, ap, ◌∙◌, inl, inr, Bool, true, false, Option, none, some, List,
  [], ◌∷◌, ◌++◌, map, arith, ◌==◌, Bool-cases, Option-cases, length, All, length-take, nat_key,
  string_key, lookup, insert,
}
use percona_agent.Prelude.{insert-All, erase-All, or_else}
use percona_agent.Mrms.Monitor.{
  Subscribers, MysqlInstance, Monitor, Answer, Checked, restarted, running, failed, on_uptime,
  check_if_mysql_restarted, new_mysql_instance, global_chan, global_add, subscribe, add_new, add,
  global_subscribe_all, global_subscribe, check, global_remove, remove_subscriber, empty,
  drop_subscriber, remove,
}
use percona_agent.Mrms.Monitor.Subscriptions.{after_check, checked_all, told_all, check_lem}

-- Every server that is watched has a subscriber, and the global channel holds what it can.
pub record IsWatched (m : Monitor) : Type 0 where
  pub watched : All (λ e. empty e.1.subscribers ≡ false) m.mysql_instances
  pub fits : length m.global_queue ≤ 100

length-insert :
    (c : ℕ) (subscribers : List (ℕ × Bool)) → (length (insert c false subscribers) == 0) ≡ false
unfolding insert
length-insert c [] = ground arith
length-insert c ((d, b) ∷ rest) = elim (Bool-cases (d == c)) [
  | inl t ↦ rw t (ground arith)
  | inr f ↦ rw f (ground arith)
]

insert-full :
    (s : Subscribers) (c : ℕ)
    → empty (record s { subscribers = insert c false s.subscribers }) ≡ false
unfolding empty
insert-full s c = length-insert c s.subscribers

add_new-IsWatched :
    (m : Monitor) (dsn : String) (i : Option MysqlInstance)
    → IsWatched m
    → IsWatched (add_new m dsn i).0
unfolding add_new subscribe
add_new-IsWatched m dsn none h = h
add_new-IsWatched m dsn (some i) h = record {
  watched =
      insert-All (λ e. empty e.1.subscribers ≡ false) dsn _ m.mysql_instances
        (insert-full i.subscribers m.next_chan) h.watched;
  fits = h.fits;
}

drop_subscriber-IsWatched :
    (m : Monitor) (dsn : String) (c : ℕ) (i : Option MysqlInstance)
    → IsWatched m
    → IsWatched (drop_subscriber m dsn c i)
unfolding drop_subscriber empty global_remove
drop_subscriber-IsWatched m dsn c none h = h
drop_subscriber-IsWatched m dsn c (some i) h =
    elim (Bool-cases (empty (remove_subscriber i.subscribers c))) [
      | inl t ↦ rw t (record {
        watched = erase-All (λ e. empty e.1.subscribers ≡ false) dsn m.mysql_instances h.watched;
        fits = h.fits;
      })
      | inr f ↦ rw f (record {
        watched =
            insert-All (λ e. empty e.1.subscribers ≡ false) dsn _ m.mysql_instances f h.watched;
        fits = h.fits;
      })
    ]

length-map {ℓ κ} :
    {A : Type ℓ} {B : Type κ} (f : A → B) (xs : List A) → length (map f xs) ≡ length xs
length-map f [] = refl
length-map f (x ∷ xs) = ap suc (length-map f xs)

after_check-empty :
    (q : Checked × MysqlInstance) → empty (after_check q).subscribers ≡ empty q.1.subscribers
unfolding empty
after_check-empty (restarted, i) =
    ap (λ n. n == 0) (length-map (λ c. (c.0, true)) i.subscribers.subscribers)
after_check-empty (running, i) = refl
after_check-empty (failed, i) = refl

check-subscribers :
    (i : MysqlInstance) (a : Answer) → (check_if_mysql_restarted i a).1.subscribers ≡ i.subscribers
unfolding check_if_mysql_restarted on_uptime
check-subscribers i a = elim (Bool-cases a.connects) [
  | inl t ↦ rw t (by_uptime a.uptime)
  | inr f ↦ rw f refl
]
  where
    by_uptime : (u : Option ℕ) → (on_uptime i a u).1.subscribers ≡ i.subscribers
    by_uptime none = refl
    by_uptime (some u) = refl

checked_all-watched :
    (a : String → Answer) (is : List (String × MysqlInstance))
    → All (λ e. empty e.1.subscribers ≡ false) is
    → All (λ e. empty e.1.subscribers ≡ false) (checked_all a is)
checked_all-watched a [] h = tt
checked_all-watched a ((dsn, i) ∷ is) h = (
  after_check-empty (check_if_mysql_restarted i (a dsn))
      ∙ ap empty (check-subscribers i (a dsn))
      ∙ h.0,
  checked_all-watched a is h.1,
)

check-IsWatched : (m : Monitor) (a : String → Answer) → IsWatched m → IsWatched (check m a)
check-IsWatched m a h = rw (check_lem m a h.fits) (record {
  watched = checked_all-watched a m.mysql_instances h.watched;
  fits = omega (arith, length-take 100 (m.global_queue ++ told_all a m.mysql_instances));
})

global_add-empty :
    (s s' : Subscribers) (c : ℕ) (dsn : String) → global_add s c dsn ≡ some s' → empty s' ≡ empty s
unfolding global_add empty
global_add-empty s s' c dsn e = ground arith

global_subscribe_all-watched :
    (is : List (String × MysqlInstance))
    → All (λ e. empty e.1.subscribers ≡ false) is
    → All (λ e. empty e.1.subscribers ≡ false) (global_subscribe_all is).0
unfolding global_subscribe_all
global_subscribe_all-watched [] h = tt
global_subscribe_all-watched ((dsn, i) ∷ is) h =
    elim (Option-cases (global_add i.subscribers global_chan i.dsn)) [
      | inl e ↦ rw (e, global_subscribe_all) h
      | inr (s, e) ↦
          rw (e, global_subscribe_all)
            (
              global_add-empty i.subscribers s global_chan i.dsn e ∙ h.0,
              global_subscribe_all-watched is h.1,
            )
    ]

pub data Op : Type 0 where
  add_op : String → Answer → Op
  global_op : Op
  remove_op : String → ℕ → Op
  check_op : (String → Answer) → Op

pub step : Monitor → Op → Monitor
step m (add_op dsn a) = (add m dsn a).0
step m global_op = (global_subscribe m).0
step m (remove_op dsn c) = remove m dsn c
step m (check_op a) = check m a

pub run : Monitor → List Op → Monitor
run m [] = m
run m (op ∷ ops) = run (step m op) ops

step-IsWatched : (m : Monitor) (op : Op) → IsWatched m → IsWatched (step m op)
unfolding step add remove global_subscribe
step-IsWatched m (add_op dsn a) h =
    add_new-IsWatched m dsn (or_else (lookup dsn m.mysql_instances) (new_mysql_instance dsn a)) h
step-IsWatched m global_op h = record {
  watched = global_subscribe_all-watched m.mysql_instances h.watched;
  fits = h.fits;
}
step-IsWatched m (remove_op dsn c) h =
    drop_subscriber-IsWatched m dsn c (lookup dsn m.mysql_instances) h
step-IsWatched m (check_op a) h = check-IsWatched m a h

-- Whatever calls of Add, GlobalSubscribe, Remove and Check come, and whatever MySQL answers, the
-- monitor visits a server only as long as it has a subscriber, and its global channel never holds
-- more than its 100 places.
pub run-IsWatched : (m : Monitor) (ops : List Op) → IsWatched m → IsWatched (run m ops)
unfolding run
run-IsWatched m [] h = h
run-IsWatched m (op ∷ ops) h = run-IsWatched (step m op) ops (step-IsWatched m op h)
