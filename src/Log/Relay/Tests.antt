-- ===== src/Log/Relay/Tests.antt =====
-- Runs of log/relay.go.
use percona_agent.Prelude.{
  ℕ, zero, suc, ◌+◌, String, ◌≡◌, refl, inr, true, false, none, some, List, [], ◌∷◌, ◌++◌, map,
  arith, take, replicate, All, nat_key, string_key,
}
use percona_agent.Log.Relay.{
  Levels, Message, text, lost_entries, invalid_level, Entry, buffer_size, Slots, Relay, new_relay,
  internal, connect, buffer, answer, send, resend_first_slot, resend_second_slot, each_slot,
  lost_warning, warn_lost, resend, set_log_level, set_log_file, handle_entry, handle_connect, Event,
  entry_arrives, connection, new_file, new_level, step, run,
}
use percona_agent.Log.Relay.Buffering.{Kept, empty, capacity, Holds, slots}
use percona_agent.Log.Relay.Away.{Away, IsRelayed}
use percona_agent.Log.Relay.Resending.{reconnected, resend_accounts, resend_delivers}
use percona_agent.Log.Relay.Overwriting.{half_sent, overwrites_unsent}

abbrev levels : Levels
levels = record { emergency = 0; warning = 4; info = 6; debug = 7 }

abbrev note : String → Entry
note t = record { service = "mm"; level = 6; msg = text t; offline = false }

fresh : Relay
unfolding new_relay
fresh = record (new_relay true "" 7 false) { results = replicate (capacity + 1) true }

fresh-Away : Away fresh empty 7 (replicate (capacity + 1) true) []
unfolding fresh
fresh-Away = record {
  holds = record {
    first = refl;
    first_size = refl;
    second = refl;
    second_size = refl;
    lost = refl;
    first_room = omega arith;
    second_room = omega arith;
    first_full = inr (refl, refl);
  };
  online = refl;
  client = refl;
  unconnected = refl;
  level_kept = refl;
  results_kept = refl;
  sent_kept = refl;
}

abbrev two : List Entry
two = note "a" ∷ note "b" ∷ []

two-IsRelayed : All (IsRelayed 7) two
two-IsRelayed = ((omega arith, refl), ((omega arith, refl), tt))

resend_delivers_example :
    ((step levels (run levels fresh (map entry_arrives two)) (connection true)).sent ≡ two)
    × Holds (step levels (run levels fresh (map entry_arrives two)) (connection true)) empty
resend_delivers_example =
    resend_delivers levels fresh two [] 7 two-IsRelayed fresh-Away (omega arith)

many : List Entry
many = replicate 101 (note "x")

replicate-IsRelayed : (n : ℕ) → All (IsRelayed 7) (replicate n (note "x"))
replicate-IsRelayed zero = tt
replicate-IsRelayed (suc n) = ((omega arith, refl), replicate-IsRelayed n)

many-IsRelayed : All (IsRelayed 7) many
unfolding many
many-IsRelayed = replicate-IsRelayed 101

-- Of 101 entries fifty are dropped, and reported.
resend_accounts_example :
    ((reconnected levels fresh many [] 7 many-IsRelayed fresh-Away).sent
      ≡ replicate 50 (note "x") ++ (lost_warning levels 50 ∷ note "x" ∷ []))
    × (many ≡ replicate 50 (note "x") ++ (replicate 50 (note "x") ++ note "x" ∷ []))
    × (replicate 50 (note "x") ≡ take buffer_size many)
    × Holds (reconnected levels fresh many [] 7 many-IsRelayed fresh-Away) empty
unfolding many percona_agent.Log.Relay.Buffering.place_all percona_agent.Log.Relay.Buffering.place
resend_accounts_example = resend_accounts levels fresh many [] 7 many-IsRelayed fresh-Away

-- Three entries buffered, and one answer.
half : Relay
unfolding new_relay
half = record (new_relay true "" 7 false) {
  first_buf = slots (note "a" ∷ note "b" ∷ note "c" ∷ []);
  first_buf_size = 3;
  results = true ∷ [];
}

half-Away : Away half (half_sent (note "a") (note "b" ∷ []) (note "c")) 7 (true ∷ []) []
unfolding half
half-Away = record {
  holds = record {
    first = refl;
    first_size = refl;
    second = refl;
    second_size = refl;
    lost = refl;
    first_room = omega arith;
    second_room = omega arith;
    first_full = inr (refl, refl);
  };
  online = refl;
  client = refl;
  unconnected = refl;
  level_kept = refl;
  results_kept = refl;
  sent_kept = refl;
}

overwrites_unsent_example :
    let q = run levels half (connection true ∷ connection false ∷ entry_arrives (note "d") ∷ []) in
    (q.sent ≡ note "a" ∷ [])
    × (q.first_buf ≡ none ∷ some (note "b") ∷ some (note "d") ∷ replicate 47 none)
    × (q.first_buf_size ≡ 3)
    × (q.second_buf ≡ replicate buffer_size none)
    × (q.lost ≡ 0)
overwrites_unsent_example =
    overwrites_unsent levels half (note "a") (note "b" ∷ []) (note "c") (note "d") 7 [] half-Away
      (omega arith, refl)
