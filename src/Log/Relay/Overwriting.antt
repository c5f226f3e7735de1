-- ===== src/Log/Relay/Overwriting.antt =====
-- How log/relay.go loses entries without counting them: after a resend that fails half way, a slot
-- that still holds an entry is taken for a free one.
use percona_agent.Prelude.{
  ℕ, zero, suc, ◌-◌, ◌<◌, ◌≡◌, refl, ap, ◌∙◌, inl, inr, Bool, true, false, none, some, List, [],
  ◌∷◌, ◌++◌, map, arith, if◌then◌else◌, Option-cases, length, get_or, set, replicate, length-append,
  nat_key, string_key,
}
use percona_agent.Log.Relay.{
  Levels, text, Entry, buffer_size, Slots, Relay, internal, connect, buffer, answer, send,
  resend_first_slot, resend_second_slot, each_slot, warn_lost, resend, handle_entry, handle_connect,
  entry_arrives, connection, step, run,
}
use percona_agent.Log.Relay.Buffering.{Kept}
use percona_agent.Log.Relay.Away.{Away, IsRelayed, handle_away}
use percona_agent.Log.Relay.Slots.{first_slot_ok}

send_fails :
    (r : Relay) (e : Entry)
    → r.connected ≡ true
    → r.results ≡ []
    → send r e false ≡ (record r { results = []; disconnects = suc r.disconnects }, false)
unfolding send answer
send_fails r e c h = ground arith

-- Where every Send fails the arrays stay as they are.
abbrev SameBuffers : Relay → Relay → Type 0
SameBuffers r q =
    (q.first_buf ≡ r.first_buf)
    × (q.first_buf_size ≡ r.first_buf_size)
    × (q.second_buf ≡ r.second_buf)
    × (q.second_buf_size ≡ r.second_buf_size)
    × (q.lost ≡ r.lost)
    × (q.sent ≡ r.sent)
    × (q.connected ≡ r.connected)
    × (q.results ≡ r.results)
    × (q.has_client ≡ r.has_client)
    × (q.offline ≡ r.offline)
    × (q.log_level ≡ r.log_level)

first_slot_fails :
    (i : ℕ) (r : Relay)
    → r.connected ≡ true
    → r.results ≡ []
    → SameBuffers r (resend_first_slot r i)
unfolding resend_first_slot
first_slot_fails i r c h = elim (Option-cases (get_or r.first_buf i none)) [
  | inl e ↦ ground arith
  | inr (x, e) ↦ ground (arith, send_fails r x)
]

second_slot_fails :
    (i : ℕ) (r : Relay)
    → r.connected ≡ true
    → r.results ≡ []
    → SameBuffers r (resend_second_slot r i)
unfolding resend_second_slot
second_slot_fails i r c h = elim (Option-cases (get_or r.second_buf i none)) [
  | inl e ↦ ground arith
  | inr (x, e) ↦ ground (arith, send_fails r x)
]

each_slot_fails :
    (slot : Relay → ℕ → Relay)
    → ((i : ℕ) (r : Relay) → r.connected ≡ true → r.results ≡ [] → SameBuffers r (slot r i))
    → (n i : ℕ) (r : Relay) → r.connected ≡ true
    → r.results ≡ []
    → SameBuffers r (each_slot n i slot r)
unfolding each_slot
each_slot_fails slot step zero i r c h = ground arith
each_slot_fails slot step (suc n) i r c h =
    ground (arith, step i r, each_slot_fails slot step n (suc i) (slot r i))

warn_lost_none : (levels : Levels) (r : Relay) → r.lost ≡ 0 → warn_lost levels r ≡ r
unfolding warn_lost
warn_lost_none levels r h = ground arith

each_slot-suc :
    (n i : ℕ) (slot : Relay → ℕ → Relay) (r : Relay)
    → each_slot (suc n) i slot r ≡ each_slot n (suc i) slot (slot r i)
unfolding each_slot
each_slot-suc n i slot r = refl

SameBuffers-trans : (r q t : Relay) → SameBuffers r q → SameBuffers q t → SameBuffers r t
SameBuffers-trans r q t h k = (
  k.0 ∙ h.0,
  k.1 ∙ h.1,
  k.2 ∙ h.2,
  k.3 ∙ h.3,
  k.4 ∙ h.4,
  k.5 ∙ h.5,
  k.6 ∙ h.6,
  k.7 ∙ h.7,
  k.8 ∙ h.8,
  k.9 ∙ h.9,
  k.10 ∙ h.10,
)

-- The first Send succeeds and all others fail.
resend_half :
    (levels : Levels) (r : Relay) (x : Entry) (xs : Slots)
    → r.connected ≡ true
    → r.results ≡ true ∷ []
    → r.first_buf ≡ some x ∷ xs
    → r.lost ≡ 0
    → SameBuffers
        (record r {
          first_buf = none ∷ xs;
          first_buf_size = r.first_buf_size - 1;
          results = [];
          sent = r.sent ++ x ∷ [];
        })
        (resend levels r)
unfolding resend
resend_half levels r x xs c a b l =
    let r1 : Relay = record r {
      first_buf = none ∷ xs;
      first_buf_size = r.first_buf_size - 1;
      results = [];
      sent = r.sent ++ x ∷ [];
    } in
    let q1 = each_slot 49 1 resend_first_slot r1 in
    let start : each_slot 50 0 resend_first_slot r ≡ q1 =
      each_slot-suc 49 0 resend_first_slot r
      ∙ ap (each_slot 49 1 resend_first_slot) (first_slot_ok 0 x xs [] r c b a) in
    let rest = each_slot_fails resend_first_slot first_slot_fails 49 1 r1 c refl in
    let idle = warn_lost_none levels q1 (rest.4 ∙ l) in
    let last = each_slot_fails resend_second_slot second_slot_fails 50 0 q1 (rest.6 ∙ c) rest.7 in
    rw (start, idle) (SameBuffers-trans r1 q1 (each_slot 50 0 resend_second_slot q1) rest last)

reconnect_half :
    (levels : Levels) (r : Relay) (x : Entry) (xs : Slots)
    → r.results ≡ true ∷ []
    → r.first_buf ≡ some x ∷ xs
    → r.lost ≡ 0
    → SameBuffers
        (record r {
          connected = true;
          first_buf = none ∷ xs;
          first_buf_size = r.first_buf_size - 1;
          results = [];
          sent = r.sent ++ x ∷ [];
        })
        (step levels r (connection true))
unfolding step handle_connect internal
reconnect_half levels r x xs a b l =
    resend_half levels
      (internal (record r { connected = true }) (text "Connected to API") levels.info) x xs refl a b
      l

-- The slot that the next entry goes to holds the last entry that was not sent.
buffer_over :
    (r : Relay) (mid : List Entry) (last e : Entry) (m : ℕ)
    → r.first_buf ≡ none ∷ (map some (mid ++ last ∷ []) ++ replicate m none)
    → r.first_buf_size ≡ suc (length mid)
    → suc (length mid) < buffer_size
    → buffer r e ≡ record r {
      first_buf = none ∷ (map some (mid ++ e ∷ []) ++ replicate m none);
      first_buf_size = suc (suc (length mid));
    }
unfolding buffer
buffer_over r mid last e m b n room = ground (arith, over mid)
  where
    over :
        (mid : List Entry)
        → set (map some (mid ++ last ∷ []) ++ replicate m none) (length mid) (some e)
          ≡ map some (mid ++ e ∷ []) ++ replicate m none
    over [] = refl
    over (x ∷ mid) = ap (◌∷◌ (some x)) (over mid)

disconnect_same :
    (levels : Levels) (r : Relay)
    → SameBuffers (record r { connected = false }) (step levels r (connection false))
unfolding step handle_connect connect internal
disconnect_same levels r = ground arith

logged_same :
    (r : Relay) (b : Bool) (ws : List Entry)
    → SameBuffers r (if b then record r { written = ws } else r)
logged_same r true ws = (refl, refl, refl, refl, refl, refl, refl, refl, refl, refl, refl)
logged_same r false ws = (refl, refl, refl, refl, refl, refl, refl, refl, refl, refl, refl)

-- An entry that comes while `last` is in the next slot.
handle_over :
    (r : Relay) (mid : List Entry) (last e : Entry) (m : ℕ)
    → r.offline ≡ false
    → r.has_client ≡ true
    → r.connected ≡ false
    → IsRelayed r.log_level e
    → r.first_buf ≡ none ∷ (map some (mid ++ last ∷ []) ++ replicate m none)
    → r.first_buf_size ≡ suc (length mid)
    → suc (length mid) < buffer_size
    → let q = handle_entry r e in
      (q.sent ≡ r.sent)
      × (q.first_buf ≡ none ∷ (map some (mid ++ e ∷ []) ++ replicate m none))
      × (q.first_buf_size ≡ suc (suc (length mid)))
      × (q.second_buf ≡ r.second_buf)
      × (q.lost ≡ r.lost)
handle_over r mid last e m o c u h b n room =
    let r' : Relay = if r.has_logger then record r { written = r.written ++ e ∷ [] } else r in
    let same = logged_same r r.has_logger (r.written ++ e ∷ []) in
    rw (handle_away r e o c u h, buffer_over r' mid last e m (same.0 ∙ b) (same.1 ∙ n) room)
      (same.5, refl, refl, same.2, same.4)

abbrev pub half_sent : Entry → List Entry → Entry → Kept
half_sent x mid last = record { first = x ∷ (mid ++ last ∷ []); dropped = []; second = [] }

-- A relay holds entries `x`, `mid`, `last`, and is connected. The Send of `x` succeeds, the next
-- ones fail, the connection is lost again, and a further entry comes. The relay puts it in the
-- slot of `last`: that entry was not sent, is in no buffer any more, and is not counted as lost,
-- although the first array has room for fifty.
pub overwrites_unsent :
    (levels : Levels) (r : Relay) (x : Entry) (mid : List Entry) (last e : Entry) (level : ℕ)
    (sent : List Entry)
    → Away r (half_sent x mid last) level (true ∷ []) sent
    → IsRelayed level e
    → let q = run levels r (connection true ∷ connection false ∷ entry_arrives e ∷ []) in
      (q.sent ≡ sent ++ x ∷ [])
      × (q.first_buf
          ≡ none
            ∷ (map some (mid ++ e ∷ [])
                ++ replicate (buffer_size - length (x ∷ (mid ++ last ∷ []))) none))
      × (q.first_buf_size ≡ length (x ∷ (mid ++ e ∷ [])))
      × (q.second_buf ≡ replicate buffer_size none)
      × (q.lost ≡ 0)
unfolding run step
overwrites_unsent levels r x mid last e level sent a h =
    let m = buffer_size - length (x ∷ (mid ++ last ∷ [])) in
    let xs = map some (mid ++ last ∷ []) ++ replicate m none in
    let half = reconnect_half levels r x xs a.results_kept a.holds.first a.holds.lost in
    let q1 = step levels r (connection true) in
    let off = disconnect_same levels q1 in
    let count = length-append mid (last ∷ []) in
    let over =
      handle_over (step levels q1 (connection false)) mid last e m (off.9 ∙ half.9 ∙ a.online)
        (off.8 ∙ half.8 ∙ a.client) off.6 (omega (arith, off.10, half.10, a.level_kept, h.0), h.1)
        (off.0 ∙ half.0) (omega (arith, off.1, half.1, a.holds.first_size, count))
        (omega (arith, a.holds.first_room, count)) in
    (
      over.0 ∙ off.5 ∙ half.5 ∙ ap (λ s. s ++ x ∷ []) a.sent_kept,
      over.1,
      omega (arith, over.2, length-append mid (e ∷ [])),
      over.3 ∙ off.2 ∙ half.2 ∙ a.holds.second,
      over.4 ∙ off.4 ∙ half.4 ∙ a.holds.lost,
    )
