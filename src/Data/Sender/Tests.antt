-- ===== src/Data/Sender/Tests.antt =====
-- Runs of data/sender.go.
use percona_agent.Prelude.{
  ◌+◌, ◌≤◌, ◌≡◌, refl, ◌⊎◌, true, false, some, [], ◌∷◌, arith, nat_key, string_key, lookup, erase,
}
use percona_agent.Data.Sender.{
  Run, max_send_errors, no_info, next_or, remove, on_response, on_answer, receive, on_sent,
  send_file, on_read, on_file, send_files, send_all_files, add_err, on_pass, on_connect, try_send,
  may_go_on, send_loop, send,
}
use percona_agent.Data.Sender.Termination.{is_final, is_bad, count_acks, send_ends}
use percona_agent.Data.Sender.Removal.{IsAcked, send_keeps}

-- Two files; the API takes the first and fails at the second.
abbrev busy : Run
busy = record {
  spool = ("mm_1", some 10) ∷ ("qan_2", some 20) ∷ [];
  run_times = [];
  connects = false ∷ true ∷ [];
  sends = some 1 ∷ some 2 ∷ [];
  responses = some 200 ∷ some 503 ∷ [];
  sent = no_info;
  acks = [];
  disconnects = 0;
}

abbrev busy_after : Run
busy_after = record busy {
  spool = ("qan_2", some 20) ∷ [];
  connects = [];
  sends = [];
  responses = [];
  sent = record {
    send_time = 3;
    files = 1;
    bytes = 30;
    errs = 1;
    api_errs = 1;
    timeouts = 0;
    bad_files = 0;
  };
  acks = ("qan_2", 503) ∷ ("mm_1", 200) ∷ [];
  disconnects = 1;
}

busy_run : send 60 false busy ≡ some busy_after
unfolding send send_loop may_go_on try_send next_or on_connect add_err on_pass send_all_files
    send_files on_file on_read lookup send_file on_sent receive on_answer on_response remove erase
busy_run = refl

send_ends_example :
    (q : Run) × (send 60 false busy ≡ some q)
    × (q.sent.errs ≤ max_send_errors)
    × (q.sent.api_errs + q.sent.timeouts ≤ 1)
    × (q.sent.files + 0 ≡ count_acks is_final q.acks)
    × (q.sent.bad_files + 0 ≡ count_acks is_bad q.acks)
send_ends_example = send_ends 60 false busy

send_keeps_example :
    (lookup "qan_2" busy_after.spool ≡ some (some 20)) ⊎ IsAcked "qan_2" busy_after.acks
unfolding lookup
send_keeps_example = send_keeps "qan_2" 20 60 busy busy_after (omega arith) refl busy_run

abbrev calm : Run
calm = record busy {
  run_times = 5 ∷ 60 ∷ [];
  connects = true ∷ [];
  responses = some 200 ∷ some 200 ∷ [];
}
