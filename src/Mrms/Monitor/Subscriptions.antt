-- ===== src/Mrms/Monitor/Subscriptions.antt =====
-- Whom mrms/monitor/monitor.go tells of a restart.
use mathlib.Core.List.{append_assoc, append-nil}
use percona_agent.Prelude.{
  ℕ, zero, suc, ◌≤◌, String, ◌≡◌, refl, sym, ap, ◌∙◌, ◌≢◌, inl, inr, true, false, some, List, [],
  ◌∷◌, ◌++◌, map, arith, ltb, ◌==◌, Bool-cases, length, take, All, length-append, length-take,
  nat_key, string_key, lookup, insert, erase, lookup-insert,
}
use percona_agent.Prelude.{ltb→lt, ltb→ge}
use percona_agent.Mrms.Monitor.{
  MysqlInstance, Monitor, Answer, Checked, restarted, running, failed, check_if_mysql_restarted,
  notify_global, notify, on_checked, check_all, check, remove_dsn, global_remove, remove_subscriber,
  empty, drop_subscriber, remove,
}

take-take {ℓ} : {A : Type ℓ} (n : ℕ) (xs ys : List A) → take n (take n xs ++ ys) ≡ take n (xs ++ ys)
take-take zero xs ys = refl
take-take (suc n) [] ys = refl
take-take (suc n) (x ∷ xs) ys = ap (◌∷◌ x) (take-take n xs ys)

take-full {ℓ} : {A : Type ℓ} (n : ℕ) (xs ys : List A) → length xs ≡ n → take n (xs ++ ys) ≡ xs
take-full zero [] ys h = refl
take-full zero (x ∷ xs) ys h = absurd (omega (arith, h))
take-full (suc n) [] ys h = absurd (omega (arith, h))
take-full (suc n) (x ∷ xs) ys h = ap (◌∷◌ x) (take-full n xs ys (omega (arith, h)))

take-short {ℓ} : {A : Type ℓ} (n : ℕ) (xs : List A) → length xs ≤ n → take n xs ≡ xs
take-short zero [] h = refl
take-short zero (x ∷ xs) h = absurd (omega (arith, h))
take-short (suc n) [] h = refl
take-short (suc n) (x ∷ xs) h = ap (◌∷◌ x) (take-short n xs (omega (arith, h)))

take-nil {ℓ} : {A : Type ℓ} (n : ℕ) (xs : List A) → length xs ≤ n → xs ≡ take n (xs ++ [])
take-nil n xs h = sym (take-short n xs h) ∙ ap (take n) (sym (append-nil xs))

abbrev pub dsns : List (ℕ × String) → List String
dsns subscribers = map (λ g. g.1) subscribers

notify_global-take :
    (subscribers : List (ℕ × String)) (queue : List String)
    → length queue ≤ 100
    → notify_global subscribers queue ≡ take 100 (queue ++ dsns subscribers)
unfolding notify_global
notify_global-take [] queue h = take-nil 100 queue h
notify_global-take ((c, d) ∷ rest) queue h = elim (Bool-cases (ltb (length queue) 100)) [
  | inl t ↦ rw t (
      notify_global-take rest (queue ++ d ∷ [])
        (omega (arith, ltb→lt _ _ t, length-append queue (d ∷ [])))
      ∙ ap (take 100) (append_assoc queue (d ∷ []) (dsns rest)))
  | inr f ↦
      let full : length queue ≡ 100 = omega (arith, h, ltb→ge _ _ f) in
      rw f (
        notify_global-take rest queue h
        ∙ take-full 100 queue (dsns rest) full
        ∙ sym (take-full 100 queue (d ∷ dsns rest) full))
]

-- The server names for the global channel of one instance.
abbrev pub told : Checked × MysqlInstance → List String
told (restarted, i) = dsns i.subscribers.global_subscribers
told (running, i) = []
told (failed, i) = []

-- An instance after its check: all its subscribers are told of a restart.
abbrev pub after_check : Checked × MysqlInstance → MysqlInstance
after_check (restarted, i) =
    let s = i.subscribers in
    record i { subscribers = record s { subscribers = map (λ c. (c.0, true)) s.subscribers } }
after_check (running, i) = i
after_check (failed, i) = i

on_checked_lem :
    (q : Checked × MysqlInstance) (queue : List String)
    → length queue ≤ 100
    → on_checked q queue ≡ (after_check q, take 100 (queue ++ told q))
unfolding on_checked notify
on_checked_lem (restarted, i) queue h =
    ap (λ x. (after_check (restarted, i), x))
      (notify_global-take i.subscribers.global_subscribers queue h)
on_checked_lem (running, i) queue h = ap (λ x. (i, x)) (take-nil 100 queue h)
on_checked_lem (failed, i) queue h = ap (λ x. (i, x)) (take-nil 100 queue h)

abbrev pub checked_all :
    (String → Answer) → List (String × MysqlInstance) → List (String × MysqlInstance)
checked_all a is = map (λ e. (e.0, after_check (check_if_mysql_restarted e.1 (a e.0)))) is

abbrev pub told_all : (String → Answer) → List (String × MysqlInstance) → List String
told_all a [] = []
told_all a ((dsn, i) ∷ is) = told (check_if_mysql_restarted i (a dsn)) ++ told_all a is

check_all_lem :
    (a : String → Answer) (is : List (String × MysqlInstance)) (queue : List String)
    → length queue ≤ 100
    → check_all a is queue ≡ (checked_all a is, take 100 (queue ++ told_all a is))
unfolding check_all
check_all_lem a [] queue h = ap (λ x. ([], x)) (take-nil 100 queue h)
check_all_lem a ((dsn, i) ∷ is) queue h =
    let q = check_if_mysql_restarted i (a dsn) in
    let queue' = take 100 (queue ++ told q) in
    let rest = check_all_lem a is queue' (omega (arith, length-take 100 (queue ++ told q))) in
    let joined =
      take-take 100 (queue ++ told q) (told_all a is)
      ∙ ap (take 100) (append_assoc queue (told q) (told_all a is)) in
    rw (on_checked_lem q queue h) (
      ap (λ r. ((dsn, after_check q) ∷ r.0, r.1)) rest
      ∙ ap (λ x. ((dsn, after_check q) ∷ checked_all a is, x)) joined)

-- A check visits every instance on its own: exactly the subscribers of those of which a restart is
-- seen find a value in their channels, the other channels are as they were, and the global channel
-- gets the server names of the restarted ones, in order, as far as its 100 places go.
pub check_lem :
    (m : Monitor) (a : String → Answer)
    → length m.global_queue ≤ 100
    → check m a ≡ record m {
      mysql_instances = checked_all a m.mysql_instances;
      global_queue = take 100 (m.global_queue ++ told_all a m.mysql_instances);
    }
unfolding check
check_lem m a h =
    ap (λ r. record m { mysql_instances = r.0; global_queue = r.1 })
      (check_all_lem a m.mysql_instances m.global_queue h)

remove_dsn-All : (dsn : String) (gs : List (ℕ × String)) → All (λ g. g.1 ≢ dsn) (remove_dsn dsn gs)
unfolding remove_dsn
remove_dsn-All dsn [] = tt
remove_dsn-All dsn ((c, d) ∷ gs) = elim (Bool-cases (string_key.beq d dsn)) [
  | inl e ↦ rw (e, remove_dsn) (remove_dsn-All dsn gs)
  | inr e ↦
      rw (e, remove_dsn) ((λ same. ground (arith, string_key.beq_iff d dsn)), remove_dsn-All dsn gs)
]

length-ne {ℓ} : {A : Type ℓ} (xs : List A) → xs ≢ [] → (length xs == 0) ≡ false
length-ne [] h = absurd (h refl)
length-ne (x ∷ xs) h = ground arith

lookup_same :
    (dsn : String) (i : MysqlInstance) (is : List (String × MysqlInstance))
    → lookup dsn (insert dsn i is) ≡ some i
lookup_same dsn i is = ground (arith, lookup-insert dsn dsn i is, string_key.beq_iff dsn dsn)

-- When one of several subscribers of a server leaves, the instance is still checked for the others,
-- which keep their channels, but the global channel is no longer told of that server.
pub remove_one :
    (m : Monitor) (dsn : String) (c : ℕ) (i : MysqlInstance)
    → lookup dsn m.mysql_instances ≡ some i
    → erase c i.subscribers.subscribers ≢ []
    → (i' : MysqlInstance) × (lookup dsn (remove m dsn c).mysql_instances ≡ some i')
      × (i'.subscribers.subscribers ≡ erase c i.subscribers.subscribers)
      × All (λ g. g.1 ≢ dsn) i'.subscribers.global_subscribers
unfolding remove drop_subscriber remove_subscriber empty global_remove
remove_one m dsn c i e left =
    let not_empty = length-ne (erase c i.subscribers.subscribers) left in
    rw (e, not_empty)
      (
        _,
        lookup_same dsn _ m.mysql_instances,
        refl,
        remove_dsn-All dsn i.subscribers.global_subscribers,
      )
