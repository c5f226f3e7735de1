-- ===== src/Mm/Manager/Tests.antt =====
-- Two monitors of mm/manager.go that report every minute.
use percona_agent.Prelude.{
  ◌≡◌, ◌↔◌, refl, true, false, some, [], ◌∷◌, List, lookup, insert, nat_key,
}
use percona_agent.Instance.Repo.{name_key}
use percona_agent.Ticker.{new_clock}
use percona_agent.Mm.Manager.{
  Config, Binding, Monitor, Answers, Op, start_service, new_manager, run, step,
  handle_start_service, on_monitor, on_unused, add_ticker, bind, start_monitor, write,
}
use percona_agent.Mm.Manager.Commands.{run_shares}

abbrev server : Config
server = record { service = "server"; instance_id = 1; collect = 10; report = 60 }

abbrev mysql : Config
mysql = record { service = "mysql"; instance_id = 2; collect = 1; report = 60 }

abbrev well : Answers
well = record { makes = true; starts = true; writes = true }

abbrev badly : Answers
badly = record { makes = true; starts = false; writes = true }

abbrev ops : List Op
ops =
    start_service well (some server)
    ∷ start_service badly (some mysql)
    ∷ start_service well (some mysql)
    ∷ []

abbrev server_monitor : Monitor
server_monitor = record { tick_chan = 0; collection_chan = 1; config = some server }

abbrev mysql_monitor : Monitor
mysql_monitor = record { tick_chan = 3; collection_chan = 1; config = some mysql }

found_server : lookup ("server", 1) (run (new_manager new_clock) ops).monitors ≡ some server_monitor
unfolding run step handle_start_service on_monitor on_unused add_ticker bind start_monitor write
    new_manager lookup insert
found_server = refl

found_mysql : lookup ("mysql", 2) (run (new_manager new_clock) ops).monitors ≡ some mysql_monitor
unfolding run step handle_start_service on_monitor on_unused add_ticker bind start_monitor write
    new_manager lookup insert
found_mysql = refl

run_shares_example :
    ((b : Binding) × (lookup 60 (run (new_manager new_clock) ops).aggregators ≡ some b)
      × (b.aggregator ≡ 60)
      × (b.collection_chan ≡ 1))
    × ((server_monitor.collection_chan ≡ mysql_monitor.collection_chan)
        ↔ (server.report ≡ mysql.report))
run_shares_example =
    run_shares new_clock ops ("server", 1) ("mysql", 2) server_monitor mysql_monitor server mysql
      found_server found_mysql refl refl
