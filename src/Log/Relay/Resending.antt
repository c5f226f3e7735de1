-- ===== src/Log/Relay/Resending.antt =====
-- What log/relay.go sends when it is connected again and every Send succeeds.
use percona_agent.Prelude.{
  ℕ, zero, suc, ◌+◌, ◌-◌, ◌≤◌, ◌≡◌, refl, sym, ap, ◌∙◌, inr, Bool, true, false, none, List, [], ◌∷◌,
  ◌++◌, map, arith, length, take, replicate, All, nat_key, string_key,
}
use mathlib.Core.List.{append_assoc, append-nil}
use percona_agent.Log.Relay.{
  Levels, Entry, buffer_size, Relay, internal, resend_second_slot, each_slot, lost_warning,
  warn_lost, resend, handle_connect, entry_arrives, connection, step, run,
}
use percona_agent.Log.Relay.Buffering.{
  Kept, empty, capacity, Holds-record, place_all, Holds, contents-place_all, dropped-place_all,
  first-place_all,
}
use percona_agent.Log.Relay.Away.{Away, IsRelayed, run-Away}
use percona_agent.Log.Relay.Slots.{send_ok, each_first_ok, each_second_ok}

replicate-split : (a b n : ℕ) → a + b ≡ n → replicate n true ≡ replicate a true ++ replicate b true
replicate-split zero b n h = ap (λ k. replicate k true) (omega arith)
replicate-split (suc a) b zero h = absurd (omega arith)
replicate-split (suc a) b (suc n) h = ap (◌∷◌ true) (replicate-split a b n (omega arith))

-- What is sent in place of the dropped entries.
abbrev pub warning_for : Levels → List Entry → List Entry
warning_for levels [] = []
warning_for levels (e ∷ es) = lost_warning levels (length (e ∷ es)) ∷ []

warn_lost_ok :
    (levels : Levels) (dropped : List Entry) (n : ℕ) (r : Relay)
    → r.connected ≡ true
    → r.lost ≡ length dropped
    → r.results ≡ replicate (suc n) true
    → (m : ℕ) × (n ≤ m)
      × (warn_lost levels r ≡ record r {
        lost = 0;
        results = replicate m true;
        sent = r.sent ++ warning_for levels dropped;
      })
unfolding warn_lost
warn_lost_ok levels [] n r c l a = (suc n, omega arith, ground (arith, append-nil r.sent))
warn_lost_ok levels (e ∷ es) n r c l a = (
  n,
  omega arith,
  ground (arith, send_ok r (lost_warning levels r.lost) false (replicate n true)),
)

-- A full resend, with an answer for each entry and for the warning.
resend_ok_state :
    (levels : Levels) (k : Kept) (r : Relay)
    → Holds r k
    → r.connected ≡ true
    → r.results ≡ replicate (capacity + 1) true
    → (rest : List Bool) × (resend levels r ≡ record r {
      first_buf = replicate buffer_size none;
      first_buf_size = r.first_buf_size - length k.first;
      second_buf = replicate buffer_size none;
      second_buf_size = r.second_buf_size - length k.second;
      lost = 0;
      results = rest;
      sent = ((r.sent ++ k.first) ++ warning_for levels k.dropped) ++ k.second;
    })
unfolding resend
resend_ok_state levels k r h c a =
    let nf = length k.first in
    let ns = length k.second in
    let left = capacity - nf in
    let a1 = a ∙ replicate-split nf (suc left) (capacity + 1) (omega (arith, h.first_room)) in
    let e1 =
      each_first_ok k.first buffer_size (buffer_size - nf) 0 buffer_size (replicate (suc left) true)
        r (omega (arith, h.first_room)) refl c h.first a1 in
    let r1 : Relay = record r {
      first_buf = replicate buffer_size none;
      first_buf_size = r.first_buf_size - nf;
      results = replicate (suc left) true;
      sent = r.sent ++ k.first;
    } in
    let (m, le, e2) = warn_lost_ok levels k.dropped left r1 c h.lost refl in
    let r2 : Relay = record r1 {
      lost = 0;
      results = replicate m true;
      sent = r1.sent ++ warning_for levels k.dropped;
    } in
    let a3 = replicate-split ns (m - ns) m (omega (arith, le, h.first_room, h.second_room)) in
    let e3 =
      each_second_ok k.second buffer_size (buffer_size - ns) 0 buffer_size (replicate (m - ns) true)
        r2 (omega (arith, h.second_room)) refl c h.second a3 in
    (
      replicate (m - ns) true,
      ap (λ x. each_slot buffer_size 0 resend_second_slot (warn_lost levels x)) e1
          ∙ ap (each_slot buffer_size 0 resend_second_slot) e2
          ∙ e3,
    )

resend_ok :
    (levels : Levels) (k : Kept) (r : Relay)
    → Holds r k
    → r.connected ≡ true
    → r.results ≡ replicate (capacity + 1) true
    → ((resend levels r).sent ≡ r.sent ++ (k.first ++ (warning_for levels k.dropped ++ k.second)))
      × Holds (resend levels r) empty
resend_ok levels k r h c a =
    let (rest, e) = resend_ok_state levels k r h c a in
    rw e (
      simp append_assoc,
      record {
        first = refl;
        first_size = omega (arith, h.first_size);
        second = refl;
        second_size = omega (arith, h.second_size);
        lost = refl;
        first_room = omega arith;
        second_room = omega arith;
        first_full = inr (refl, refl);
      },
    )

reconnect_lem :
    (levels : Levels) (r : Relay) (k : Kept) (level : ℕ) (sent : List Entry)
    → Away r k level (replicate (capacity + 1) true) sent
    → ((step levels r (connection true)).sent
        ≡ sent ++ (k.first ++ (warning_for levels k.dropped ++ k.second)))
      × Holds (step levels r (connection true)) empty
unfolding step handle_connect internal
reconnect_lem levels r k level sent a =
    let q =
      resend_ok levels k _ (Holds-record r k true _ r.results r.written a.holds) refl
        a.results_kept in
    (q.0 ∙ ap (λ s. s ++ (k.first ++ (warning_for levels k.dropped ++ k.second))) a.sent_kept, q.1)

module _ (levels : Levels) (r : Relay) (es sent : List Entry) (level : ℕ)
    (relayed : All (IsRelayed level) es)
    (away : Away r empty level (replicate (capacity + 1) true) sent) where
  -- What the relay holds of the entries that came while it was away.
  abbrev pub kept : Kept
  kept = place_all empty es

  abbrev pub reconnected : Relay
  reconnected = step levels (run levels r (map entry_arrives es)) (connection true)

  reconnected_lem :
      (reconnected.sent ≡ sent ++ (kept.first ++ (warning_for levels kept.dropped ++ kept.second)))
      × Holds reconnected empty
  reconnected_lem =
      reconnect_lem levels _ kept level sent
        (run-Away levels r empty level (replicate (capacity + 1) true) sent es relayed away)

  -- A relay that is away with empty buffers takes any entries that pass its level filter, and is then
  -- connected again, with every Send answered by success. It sends the first fifty entries, a warning with the number
  -- of those that it dropped, if any, and the latest ones, in order; these and the dropped ones
  -- are the entries that came. Its buffers are empty again.
  pub resend_accounts :
      (reconnected.sent ≡ sent ++ (kept.first ++ (warning_for levels kept.dropped ++ kept.second)))
      × (es ≡ kept.first ++ (kept.dropped ++ kept.second))
      × (kept.first ≡ take buffer_size es)
      × Holds reconnected empty
  resend_accounts = (
    reconnected_lem.0,
    sym (contents-place_all empty es (omega arith, inr (refl, refl))),
    first-place_all empty [] es refl,
    reconnected_lem.1,
  )

  -- If no more than a hundred entries that pass the level filter come to a relay that is away with empty
  -- buffers, and it is then connected with every Send answered by success, it sends just these, in
  -- order, and no warning.
  pub resend_delivers :
      length es ≤ capacity → (reconnected.sent ≡ sent ++ es) × Holds reconnected empty
  resend_delivers h =
      let whole = contents-place_all empty es (omega arith, inr (refl, refl)) in
      let nothing = dropped-place_all empty es (omega arith, inr (refl, refl)) refl (omega arith) in
      (
        reconnected_lem.0 ∙ ap (λ xs. sent ++ xs) (ground (arith, whole, nothing)),
        reconnected_lem.1,
      )
