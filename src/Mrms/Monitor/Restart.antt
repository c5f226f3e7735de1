-- ===== src/Mrms/Monitor/Restart.antt =====
-- When mrms/monitor/instance.go sees a restart.
use percona_agent.Prelude.{
  ℕ, ◌+◌, ◌-◌, ◌≤◌, ◌<◌, ◌≡◌, inl, inr, true, some, arith, ltb, if◌then◌else◌, Bool-cases, nat_key,
  string_key,
}
use percona_agent.Prelude.{ltb→lt, ltb→ge}
use percona_agent.Prelude.Int.{◌+ℤ◌}
use percona_agent.Mrms.Monitor.{
  MysqlInstance, Answer, restarted, running, unix, expected_uptime, on_uptime,
  check_if_mysql_restarted,
}

-- The variable Uptime of a server: whole seconds, as MySQL subtracts its start from its clock.
abbrev pub uptime_at : ℕ → ℕ → ℕ
uptime_at start t = unix t - unix start

check-restarted :
    (m : MysqlInstance) (a : Answer) (u : ℕ)
    → a.connects ≡ true
    → a.uptime ≡ some u
    → u + unix m.last_uptime_check < m.last_uptime + unix a.now
    → (check_if_mysql_restarted m a).0 ≡ restarted
unfolding check_if_mysql_restarted on_uptime expected_uptime ◌+ℤ◌
check-restarted m a u connects e h = ground arith

check-running :
    (m : MysqlInstance) (a : Answer) (u : ℕ)
    → a.connects ≡ true
    → a.uptime ≡ some u
    → m.last_uptime + unix a.now ≤ u + unix m.last_uptime_check
    → (check_if_mysql_restarted m a).0 ≡ running
unfolding check_if_mysql_restarted on_uptime expected_uptime ◌+ℤ◌
check-running m a u connects e h = ground arith

-- A restart between two checks is seen, however long MySQL could not be reached: the server that
-- answered the last check began in a second before that answer, the clock was read after it, the
-- server that answers now began after that, and the clock is read again after its answer.
pub restart_seen :
    (m : MysqlInstance) (a : Answer) (start query start' query' : ℕ)
    → a.connects ≡ true
    → a.uptime ≡ some (uptime_at start' query')
    → m.last_uptime ≡ uptime_at start query
    → unix start < unix query
    → query ≤ m.last_uptime_check
    → m.last_uptime_check ≤ start'
    → start' ≤ query'
    → query' ≤ a.now
    → (check_if_mysql_restarted m a).0 ≡ restarted
restart_seen m a start query start' query' connects e same up h1 h2 h3 h4 =
    check-restarted m a (uptime_at start' query') connects e
      (omega (arith, same, up, h1, h2, h3, h4))

-- With no restart between two checks, the code still sees one exactly if more seconds of the clock
-- begin between the answer of MySQL and the reading of the clock than between those of the last
-- check.
no_restart :
    (m : MysqlInstance) (a : Answer) (start query query' : ℕ)
    → a.connects ≡ true
    → a.uptime ≡ some (uptime_at start query')
    → m.last_uptime ≡ uptime_at start query
    → start ≤ query
    → query ≤ m.last_uptime_check
    → m.last_uptime_check ≤ query'
    → query' ≤ a.now
    → (check_if_mysql_restarted m a).0 ≡ (
        if ltb (unix m.last_uptime_check - unix query) (unix a.now - unix query')
        then restarted
        else running)
no_restart m a start query query' connects e same h1 h2 h3 h4 =
    elim (Bool-cases (ltb (unix m.last_uptime_check - unix query) (unix a.now - unix query'))) [
      | inl t ↦ rw t (
          check-restarted m a (uptime_at start query') connects e
            (omega (arith, same, h1, h2, h3, h4, ltb→lt _ _ t)))
      | inr t ↦ rw t (
          check-running m a (uptime_at start query') connects e
            (omega (arith, same, h1, h2, h3, h4, ltb→ge _ _ t)))
    ]
