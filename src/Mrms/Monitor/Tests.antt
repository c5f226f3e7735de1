-- ===== src/Mrms/Monitor/Tests.antt =====
-- Runs of mrms/monitor.
use percona_agent.Prelude.{
  ℕ, ◌+◌, ◌*◌, ◌≡◌, refl, true, false, some, List, [], ◌∷◌, arith, take, nat_key, string_key,
}
use percona_agent.Mrms.Monitor.{
  nano, MysqlInstance, Monitor, Answer, restarted, check_if_mysql_restarted, new_monitor, check,
}
use percona_agent.Mrms.Monitor.Restart.{restart_seen}
use percona_agent.Mrms.Monitor.Subscriptions.{checked_all, told_all, check_lem}
use percona_agent.Mrms.Monitor.Lifetime.{
  IsWatched, Op, add_op, global_op, remove_op, check_op, run, run-IsWatched,
}

abbrev two_subscribers : MysqlInstance
two_subscribers = record {
  dsn = "db";
  subscribers = record {
    subscribers = (1, false) ∷ (2, false) ∷ [];
    global_subscribers = (0, "db") ∷ [];
  };
  last_uptime = 60;
  last_uptime_check = 100 * nano + 5;
}

abbrev one_server : Monitor
one_server = record {
  mysql_instances = ("db", two_subscribers) ∷ [];
  global_queue = [];
  next_chan = 3;
}

abbrev answers : ℕ → ℕ → Answer
answers u t = record { connects = true; uptime = some u; now = t; now_after = t }

-- The server that began at 40 s was restarted at 101 s, and told its uptime of 118 s at 219 s.
restart_seen_example :
    (check_if_mysql_restarted two_subscribers (answers 118 (220 * nano))).0 ≡ restarted
restart_seen_example =
    restart_seen two_subscribers (answers 118 (220 * nano)) (40 * nano) (100 * nano) (101 * nano)
      (219 * nano) refl refl refl (omega arith) (omega arith) (omega arith) (omega arith)
      (omega arith)

check_lem_example : check one_server (λ d. answers 79 (121 * nano)) ≡ record one_server {
  mysql_instances = checked_all (λ d. answers 79 (121 * nano)) one_server.mysql_instances;
  global_queue = take 100 (told_all (λ d. answers 79 (121 * nano)) one_server.mysql_instances);
}
check_lem_example = check_lem one_server (λ d. answers 79 (121 * nano)) (omega arith)

abbrev ops : List Op
ops =
    add_op "db" (answers 60 (100 * nano))
    ∷ global_op
    ∷ check_op (λ d. answers 5 (130 * nano))
    ∷ remove_op "db" 1
    ∷ []

run-IsWatched_example : IsWatched (run new_monitor ops)
unfolding new_monitor
run-IsWatched_example = run-IsWatched new_monitor ops (record { watched = tt; fits = omega arith })
