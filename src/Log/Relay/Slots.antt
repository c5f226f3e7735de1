-- ===== src/Log/Relay/Slots.antt =====
-- The loops of Resend in log/relay.go over the two arrays, where every Send succeeds.
use percona_agent.Prelude.{
  ℕ, zero, suc, ◌+◌, ◌-◌, ◌≡◌, refl, ap, ◌∙◌, Bool, true, false, Option, none, some, List, [], ◌∷◌,
  ◌++◌, map, arith, length, get_or, set, replicate, nat_key, string_key,
}
use mathlib.Core.List.{append_assoc, append-nil}
use percona_agent.Log.Relay.{
  Entry, Slots, Relay, answer, send, resend_first_slot, resend_second_slot, each_slot,
}

get_or-replicate : (i n : ℕ) → get_or (replicate n none) i none ≡ (let x : Option Entry = none in x)
get_or-replicate i zero = refl
get_or-replicate zero (suc n) = refl
get_or-replicate (suc i) (suc n) = get_or-replicate i n

get_or-middle :
    (i : ℕ) (x : Option Entry) (xs : Slots) → get_or (replicate i none ++ x ∷ xs) i none ≡ x
get_or-middle zero x xs = refl
get_or-middle (suc i) x xs = get_or-middle i x xs

set-middle :
    (i : ℕ) (x y : Option Entry) (xs : Slots)
    → set (replicate i none ++ x ∷ xs) i y ≡ replicate i none ++ y ∷ xs
set-middle zero x y xs = refl
set-middle (suc i) x y xs = ap (◌∷◌ none) (set-middle i x y xs)

-- A cleared slot joins the cleared ones before it.
replicate-suc_append :
    (i : ℕ) (xs : Slots) → replicate i none ++ none ∷ xs ≡ replicate (suc i) none ++ xs
replicate-suc_append zero xs = refl
replicate-suc_append (suc i) xs = ap (◌∷◌ none) (replicate-suc_append i xs)

replicate-full :
    (i m j : ℕ)
    → i + m ≡ j
    → (let x : Slots = replicate i none ++ replicate m none in x) ≡ replicate j none
replicate-full zero m j h = rw (← h) (ap (λ k. replicate k none) (omega arith))
replicate-full (suc i) m zero h = absurd (omega arith)
replicate-full (suc i) m (suc j) h = ap (◌∷◌ none) (replicate-full i m j (omega arith))

pub send_ok :
    (r : Relay) (e : Entry) (b : Bool) (rest : List Bool)
    → r.connected ≡ true
    → r.results ≡ true ∷ rest
    → send r e b ≡ (record r { results = rest; sent = r.sent ++ e ∷ [] }, true)
unfolding send answer
send_ok r e b rest c h = ground arith

first_slot_empty :
    (i j : ℕ) (r : Relay) → r.first_buf ≡ replicate j none → resend_first_slot r i ≡ r
unfolding resend_first_slot
first_slot_empty i j r e = ground (arith, get_or-replicate i j)

-- Where the rest of the array is empty nothing is sent.
each_first_empty :
    (n i j : ℕ) (r : Relay) → r.first_buf ≡ replicate j none → each_slot n i resend_first_slot r ≡ r
unfolding each_slot
each_first_empty zero i j r e = refl
each_first_empty (suc n) i j r e = rw (first_slot_empty i j r e) (each_first_empty n (suc i) j r e)

pub first_slot_ok :
    (i : ℕ) (e : Entry) (xs : Slots) (rest : List Bool) (r : Relay)
    → r.connected ≡ true
    → r.first_buf ≡ replicate i none ++ some e ∷ xs
    → r.results ≡ true ∷ rest
    → resend_first_slot r i ≡ record r {
      first_buf = replicate (suc i) none ++ xs;
      first_buf_size = r.first_buf_size - 1;
      results = rest;
      sent = r.sent ++ e ∷ [];
    }
unfolding resend_first_slot
first_slot_ok i e xs rest r c b a = ground (
  arith,
  get_or-middle i (some e) xs,
  send_ok r e false rest,
  set-middle i (some e) none xs,
  replicate-suc_append i xs,
)

-- The loop sends what the array holds, in order, and empties it.
pub each_first_ok :
    (es : List Entry) (n m i j : ℕ) (rest : List Bool) (r : Relay)
    → length es + m ≡ n
    → i + n ≡ j
    → r.connected ≡ true
    → r.first_buf ≡ replicate i none ++ (map some es ++ replicate m none)
    → r.results ≡ replicate (length es) true ++ rest
    → each_slot n i resend_first_slot r ≡ record r {
      first_buf = replicate j none;
      first_buf_size = r.first_buf_size - length es;
      results = rest;
      sent = r.sent ++ es;
    }
unfolding each_slot
each_first_ok [] n m i j rest r l t c b a =
    let empty = b ∙ replicate-full i m j (omega arith) in
    each_first_empty n i j r empty ∙ ground (arith, append-nil r.sent)
each_first_ok (e ∷ es) zero m i j rest r l t c b a = absurd (omega arith)
each_first_ok (e ∷ es) (suc n) m i j rest r l t c b a =
    let next =
      first_slot_ok i e (map some es ++ replicate m none) (replicate (length es) true ++ rest) r c b
        a in
    ap (each_slot n (suc i) resend_first_slot) next
    ∙ each_first_ok es n m (suc i) j rest _ (omega arith) (omega arith) c refl refl
    ∙ ground (arith, append_assoc r.sent (e ∷ []) es)

second_slot_empty :
    (i j : ℕ) (r : Relay) → r.second_buf ≡ replicate j none → resend_second_slot r i ≡ r
unfolding resend_second_slot
second_slot_empty i j r e = ground (arith, get_or-replicate i j)

-- Where the rest of the array is empty nothing is sent.
each_second_empty :
    (n i j : ℕ) (r : Relay)
    → r.second_buf ≡ replicate j none
    → each_slot n i resend_second_slot r ≡ r
unfolding each_slot
each_second_empty zero i j r e = refl
each_second_empty (suc n) i j r e =
    rw (second_slot_empty i j r e) (each_second_empty n (suc i) j r e)

second_slot_ok :
    (i : ℕ) (e : Entry) (xs : Slots) (rest : List Bool) (r : Relay)
    → r.connected ≡ true
    → r.second_buf ≡ replicate i none ++ some e ∷ xs
    → r.results ≡ true ∷ rest
    → resend_second_slot r i ≡ record r {
      second_buf = replicate (suc i) none ++ xs;
      second_buf_size = r.second_buf_size - 1;
      results = rest;
      sent = r.sent ++ e ∷ [];
    }
unfolding resend_second_slot
second_slot_ok i e xs rest r c b a = ground (
  arith,
  get_or-middle i (some e) xs,
  send_ok r e false rest,
  set-middle i (some e) none xs,
  replicate-suc_append i xs,
)

-- The loop sends what the array holds, in order, and empties it.
pub each_second_ok :
    (es : List Entry) (n m i j : ℕ) (rest : List Bool) (r : Relay)
    → length es + m ≡ n
    → i + n ≡ j
    → r.connected ≡ true
    → r.second_buf ≡ replicate i none ++ (map some es ++ replicate m none)
    → r.results ≡ replicate (length es) true ++ rest
    → each_slot n i resend_second_slot r ≡ record r {
      second_buf = replicate j none;
      second_buf_size = r.second_buf_size - length es;
      results = rest;
      sent = r.sent ++ es;
    }
unfolding each_slot
each_second_ok [] n m i j rest r l t c b a =
    let empty = b ∙ replicate-full i m j (omega arith) in
    each_second_empty n i j r empty ∙ ground (arith, append-nil r.sent)
each_second_ok (e ∷ es) zero m i j rest r l t c b a = absurd (omega arith)
each_second_ok (e ∷ es) (suc n) m i j rest r l t c b a =
    let next =
      second_slot_ok i e (map some es ++ replicate m none) (replicate (length es) true ++ rest) r c
        b a in
    ap (each_slot n (suc i) resend_second_slot) next
    ∙ each_second_ok es n m (suc i) j rest _ (omega arith) (omega arith) c refl refl
    ∙ ground (arith, append_assoc r.sent (e ∷ []) es)
