-- ===== src/Mm/Manager/Commands.antt =====
-- Commands to mm/manager.go in any order.
use percona_agent.Prelude.{
  ℕ, ◌≡◌, refl, sym, ap, ◌∙◌, ◌↔◌, Bool, true, false, Option, none, some, List, [], ◌∷◌, arith,
  if◌then◌else◌, nat_key, lookup, insert, erase, map, string_key,
}
use percona_agent.Instance.Repo.{Name, name_key}
use percona_agent.Ticker.{Clock, remove}
use percona_agent.Mm.Manager.{
  Config, Binding, Monitor, Manager, Answers, Failure, name_of, add_ticker, bind, write,
  start_error, start_monitor, factory_error, on_unused, on_monitor, handle_start_service,
  stopped_config, stopped, stop_monitor, stop_error, handle_stop_service, on_files, start,
  is_running, no_files, stop_one, stop_each, stop, new_manager, Op, start_op, stop_op,
  start_service, stop_service, step, run,
}
use percona_agent.Mm.Manager.Bindings.{
  IsSentTo, IsBound, same_bindings, insert-AreSent, erase-AreSent, bind-IsBound, some_same,
}

write-IsBound : (m : Manager) (c : Config) (b : Bool) → IsBound m → IsBound (write m c b).0
unfolding write
write-IsBound m c false h = h
write-IsBound m c true h =
    same_bindings m m.running m.clock (insert (name_of c) c m.files) m.monitors h.sent h

start_monitor-IsBound :
    (a : Answers) (c : Config) (tick : ℕ) (r : Manager × Binding)
    → IsBound r.0
    → lookup c.report r.0.aggregators ≡ some r.1
    → IsBound (start_monitor a c tick r).0
unfolding start_monitor
start_monitor-IsBound a c tick (m, b) h e = by_answer a.starts
  where
    x : Monitor
    x = record { tick_chan = tick; collection_chan = b.collection_chan; config = some c }

    added : Manager
    added = record m { monitors = insert (name_of c) x m.monitors }

    sends : (d : Config) → x.config ≡ some d → IsSentTo m.aggregators x d.report
    sends d f = (b, ap (λ q. lookup q.report m.aggregators) (sym (some_same f)) ∙ e, refl)

    added-IsBound : IsBound added
    added-IsBound =
        same_bindings m m.running m.clock m.files added.monitors
          (insert-AreSent m.aggregators m.monitors (name_of c) x sends h.sent) h

    by_answer : (s : Bool) → IsBound (if s then write added c a.writes else (m, some start_error)).0
    by_answer false = h
    by_answer true = write-IsBound added c a.writes added-IsBound

add_ticker-IsBound : (m : Manager) (c : Config) → IsBound m → IsBound (add_ticker m c)
unfolding add_ticker
add_ticker-IsBound m c h = record {
  made = λ r b e. ((h.made r b e).0, omega (arith, (h.made r b e).1));
  apart = h.apart;
  sent = h.sent;
}

pub start_service-IsBound :
    (a : Answers) (m : Manager) (r : Option Config)
    → IsBound m
    → IsBound (handle_start_service a m r).0
unfolding handle_start_service on_monitor on_unused
start_service-IsBound a m none h = h
start_service-IsBound a m (some c) h = by_monitor (lookup (name_of c) m.monitors)
  where
    ticked : Manager
    ticked = add_ticker m c

    bound : Manager × Binding
    bound = bind ticked c (lookup c.report ticked.aggregators)

    bound-IsBound : IsBound bound.0 × (lookup c.report bound.0.aggregators ≡ some bound.1)
    bound-IsBound = bind-IsBound ticked c _ refl (add_ticker-IsBound m c h)

    by_answer :
        (b : Bool)
        → IsBound (if b then start_monitor a c m.next_chan bound else (m, some factory_error)).0
    by_answer false = h
    by_answer true = start_monitor-IsBound a c m.next_chan bound bound-IsBound.0 bound-IsBound.1

    by_monitor : (o : Option Monitor) → IsBound (on_monitor a m c o).0
    by_monitor (some x) = h
    by_monitor none = by_answer a.makes

stopped_config-some : (o : Option Config) (c : Config) → stopped_config o ≡ some c → o ≡ some c
unfolding stopped_config
stopped_config-some none c e = e
stopped_config-some (some d) c e = by_service (string_key.beq d.service "server") e
  where
    by_service : (b : Bool) → (if b then none else some d) ≡ some c → some d ≡ some c
    by_service true f = absurd (ground arith)
    by_service false f = f

stop_service-IsBound :
    (m : Manager) (stops removed : Bool) (r : Option Config)
    → IsBound m
    → IsBound (handle_stop_service m stops removed r).0
unfolding handle_stop_service stop_monitor stopped
stop_service-IsBound m stops removed none h = h
stop_service-IsBound m stops removed (some c) h = by_monitor (lookup n m.monitors) refl
  where
    n : Name
    n = name_of c

    by_file : (x : Monitor) (b : Bool) → lookup n m.monitors ≡ some x → IsBound (stopped m n x b).0
    by_file x true e =
        same_bindings m m.running (remove m.clock x.tick_chan) (erase n m.files)
          (erase n m.monitors) (erase-AreSent m.aggregators m.monitors n h.sent) h
    by_file x false e =
        let y = record x { config = stopped_config x.config } in
        same_bindings m m.running (remove m.clock x.tick_chan) m.files (insert n y m.monitors)
          (insert-AreSent m.aggregators m.monitors n y
            (λ d f. h.sent n x d e (stopped_config-some x.config d f)) h.sent)
          h

    by_stop :
        (x : Monitor) (b : Bool)
        → lookup n m.monitors ≡ some x
        → IsBound (if b then stopped m n x removed else (m, some stop_error)).0
    by_stop x false e = h
    by_stop x true e = by_file x removed e

    by_monitor :
        (o : Option Monitor)
        → lookup n m.monitors ≡ o
        → IsBound (stop_monitor m n stops removed o).0
    by_monitor none e = h
    by_monitor (some x) e = by_stop x stops e

on_files-IsBound :
    (m : Manager) (files : List (Answers × Option Config)) → IsBound m → IsBound (on_files m files)
unfolding on_files
on_files-IsBound m [] h = h
on_files-IsBound m ((a, r) ∷ files) h =
    on_files-IsBound (handle_start_service a m r).0 files (start_service-IsBound a m r h)

start-IsBound :
    (m : Manager) (files : Option (List (Answers × Option Config)))
    → IsBound m
    → IsBound (start m files).0
unfolding start
start-IsBound m none h = by_state m.running
  where
    refused : Manager × Option Failure
    refused = (m, some is_running)

    failed : Manager × Option Failure
    failed = (m, some no_files)

    by_state : (b : Bool) → IsBound (if b then refused else failed).0
    by_state true = h
    by_state false = h
start-IsBound m (some files) h = by_state m.running
  where
    started : Manager
    started = on_files m files

    begun : Manager × Option Failure
    begun = (record started { running = true }, none)

    started-IsBound : IsBound started
    started-IsBound = on_files-IsBound m files h

    refused : Manager × Option Failure
    refused = (m, some is_running)

    by_state : (b : Bool) → IsBound (if b then refused else begun).0
    by_state true = h
    by_state false =
        same_bindings started true started.clock started.files started.monitors started-IsBound.sent
          started-IsBound

stop_one-IsBound :
    (m : Manager) (n : Name) (b : Bool) (o : Option Monitor)
    → IsBound m
    → IsBound (stop_one m n b o)
unfolding stop_one
stop_one-IsBound m n b none h = h
stop_one-IsBound m n false (some x) h = h
stop_one-IsBound m n true (some x) h =
    same_bindings m m.running (remove m.clock x.tick_chan) m.files (erase n m.monitors)
      (erase-AreSent m.aggregators m.monitors n h.sent) h

stop_each-IsBound :
    (m : Manager) (stops : Name → Bool) (ns : List Name)
    → IsBound m
    → IsBound (stop_each m stops ns)
unfolding stop_each
stop_each-IsBound m stops [] h = h
stop_each-IsBound m stops (n ∷ ns) h =
    stop_each-IsBound (stop_one m n (stops n) (lookup n m.monitors)) stops ns
      (stop_one-IsBound m n (stops n) (lookup n m.monitors) h)

stop-IsBound : (m : Manager) (stops : Name → Bool) → IsBound m → IsBound (stop m stops)
unfolding stop
stop-IsBound m stops h =
    let m' = stop_each m stops (map (λ e. e.0) m.monitors) in
    let h' = stop_each-IsBound m stops (map (λ e. e.0) m.monitors) h in
    same_bindings m' false m'.clock m'.files m'.monitors h'.sent h'

step-IsBound : (m : Manager) (op : Op) → IsBound m → IsBound (step m op)
unfolding step
step-IsBound m (start_op files) h = start-IsBound m files h
step-IsBound m (stop_op stops) h = stop-IsBound m stops h
step-IsBound m (start_service a r) h = start_service-IsBound a m r h
step-IsBound m (stop_service stops removed r) h = stop_service-IsBound m stops removed r h

run-IsBound : (m : Manager) (ops : List Op) → IsBound m → IsBound (run m ops)
unfolding run
run-IsBound m [] h = h
run-IsBound m (op ∷ ops) h = run-IsBound (step m op) ops (step-IsBound m op h)

new_manager-IsBound : (k : Clock) → IsBound (new_manager k)
unfolding new_manager lookup
new_manager-IsBound k = record {
  made = λ r b e. absurd (ground arith);
  apart = λ r s b d e f g. absurd (ground arith);
  sent = λ n x c e f. absurd (ground arith);
}

-- Whatever commands come, and whatever fails: a monitor sends its collections to the aggregator of
-- its report interval, which is there, and two monitors share a channel exactly if they have the same
-- report interval.
pub run_shares :
    (k : Clock) (ops : List Op) (n n' : Name) (x x' : Monitor) (c c' : Config)
    → lookup n (run (new_manager k) ops).monitors ≡ some x
    → lookup n' (run (new_manager k) ops).monitors ≡ some x'
    → x.config ≡ some c
    → x'.config ≡ some c'
    → ((b : Binding) × (lookup c.report (run (new_manager k) ops).aggregators ≡ some b)
        × (b.aggregator ≡ c.report)
        × (b.collection_chan ≡ x.collection_chan))
      × ((x.collection_chan ≡ x'.collection_chan) ↔ (c.report ≡ c'.report))
run_shares k ops n n' x x' c c' e e' f f' =
    let m = run (new_manager k) ops in
    let h = run-IsBound (new_manager k) ops (new_manager-IsBound k) in
    let (b, g, s) = h.sent n x c e f in
    let (b', g', s') = h.sent n' x' c' e' f' in
    (
      (b, g, (h.made c.report b g).0, s),
      (
        λ q. h.apart c.report c'.report b b' g g' (s ∙ q ∙ sym s'),
        λ q.
            sym s
            ∙ ap (λ z. z.collection_chan)
                (some_same (sym g ∙ ap (λ r. lookup r m.aggregators) q ∙ g'))
            ∙ s',
      ),
    )
