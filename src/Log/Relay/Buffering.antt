-- ===== src/Log/Relay/Buffering.antt =====
-- What the two buffers of log/relay.go hold while there is no connection.
use percona_agent.Prelude.{
  ℕ, zero, suc, ◌+◌, ◌-◌, ◌*◌, ◌≤◌, ◌<◌, ◌≡◌, refl, sym, ap, ◌∙◌, ◌⊎◌, inl, inr, Bool, true, false,
  none, some, List, [], ◌∷◌, ◌++◌, map, arith, ltb, if◌then◌else◌, Bool-cases, length, set, take,
  replicate, length-append, nat_key, string_key,
}
use mathlib.Core.List.{append_assoc, append-nil}
use percona_agent.Log.Relay.{Entry, buffer_size, Slots, Relay, buffer}

-- The abstract buffer: the entries kept, and those dropped between the two.
pub record Kept : Type 0 where
  pub first : List Entry
  pub dropped : List Entry
  pub second : List Entry

unfoldable pub place : Kept → Entry → Kept
place k e =
    if ltb (length k.first) buffer_size
    then record k { first = k.first ++ e ∷ [] }
    else if ltb (length k.second) buffer_size
    then record k { second = k.second ++ e ∷ [] }
    else record k { dropped = k.dropped ++ k.second; second = e ∷ [] }

unfoldable pub place_all : Kept → List Entry → Kept
place_all k [] = k
place_all k (e ∷ es) = place_all (place k e) es

-- An array whose slots are filled from the left.
abbrev pub slots_from : ℕ → List Entry → Slots
slots_from i es = replicate i none ++ (map some es ++ replicate (buffer_size - i - length es) none)

abbrev pub slots : List Entry → Slots
slots es = map some es ++ replicate (buffer_size - length es) none

-- The arrays, sizes and count of the relay stand for the abstract buffer.
pub record Holds (r : Relay) (k : Kept) : Type 0 where
  pub first : r.first_buf ≡ slots k.first
  pub first_size : r.first_buf_size ≡ length k.first
  pub second : r.second_buf ≡ slots k.second
  pub second_size : r.second_buf_size ≡ length k.second
  pub lost : r.lost ≡ length k.dropped
  pub first_room : length k.first ≤ buffer_size
  pub second_room : length k.second ≤ buffer_size
  pub first_full : (length k.first ≡ buffer_size) ⊎ ((k.dropped ≡ []) × (k.second ≡ []))

-- The buffers of a relay that differs elsewhere.
pub Holds-record :
    (r : Relay) (k : Kept) (connected : Bool) (log_chan : List Entry) (results : List Bool)
    (written : List Entry)
    → Holds r k
    → Holds
        (record r {
          connected = connected;
          log_chan = log_chan;
          results = results;
          written = written;
        })
        k
Holds-record r k c l b w h = record {
  first = h.first;
  first_size = h.first_size;
  second = h.second;
  second_size = h.second_size;
  lost = h.lost;
  first_room = h.first_room;
  second_room = h.second_room;
  first_full = h.first_full;
}

abbrev pub empty : Kept
empty = record { first = []; dropped = []; second = [] }

set_next :
    (es : List Entry) (e : Entry) (n m : ℕ)
    → n ≡ suc m
    → set (map some es ++ replicate n none) (length es) (some e)
      ≡ map some (es ++ e ∷ []) ++ replicate m none
set_next [] e n m h = rw h
set_next (x ∷ es) e n m h = ap (◌∷◌ (some x)) (set_next es e n m h)

pub set-slots :
    (es : List Entry) (e : Entry)
    → length es < buffer_size
    → set (slots es) (length es) (some e) ≡ slots (es ++ e ∷ [])
set-slots es e h =
    set_next es e _ (buffer_size - length (es ++ e ∷ [])) (omega (arith, length-append es (e ∷ [])))

dropped_none :
    (k : Kept)
    → (length k.first ≡ buffer_size) ⊎ ((k.dropped ≡ []) × (k.second ≡ []))
    → length k.first < buffer_size
    → (k.dropped ≡ []) × (k.second ≡ [])
dropped_none k (inl e) h = absurd (omega arith)
dropped_none k (inr e) h = e

pub buffer-Holds : (r : Relay) (k : Kept) (e : Entry) → Holds r k → Holds (buffer r e) (place k e)
unfolding buffer place
buffer-Holds r k e h = elim (Bool-cases (ltb (length k.first) buffer_size)) [
  | inl a ↦
      let lt : length k.first < buffer_size = ground arith in
      let a' : ltb r.first_buf_size buffer_size ≡ true = rw h.first_size a in
      rw (a, a')
        (record {
          first = rw (h.first, h.first_size) (set-slots k.first e lt);
          first_size = omega (arith, h.first_size, length-append k.first (e ∷ []));
          second = h.second;
          second_size = h.second_size;
          lost = h.lost;
          first_room = omega (arith, length-append k.first (e ∷ []));
          second_room = h.second_room;
          first_full = inr (dropped_none k h.first_full lt);
        })
  | inr a ↦
      let full : length k.first ≡ buffer_size = ground (arith, h.first_room) in
      let a' : ltb r.first_buf_size buffer_size ≡ false = rw h.first_size a in
      elim (Bool-cases (ltb (length k.second) buffer_size)) [
        | inl b ↦
            let lt : length k.second < buffer_size = ground arith in
            let b' : ltb r.second_buf_size buffer_size ≡ true = rw h.second_size b in
            rw (a, a', b, b')
              (record {
                first = h.first;
                first_size = h.first_size;
                second = rw (h.second, h.second_size) (set-slots k.second e lt);
                second_size = omega (arith, h.second_size, length-append k.second (e ∷ []));
                lost = h.lost;
                first_room = h.first_room;
                second_room = omega (arith, length-append k.second (e ∷ []));
                first_full = inl full;
              })
        | inr b ↦
            let b' : ltb r.second_buf_size buffer_size ≡ false = rw h.second_size b in
            rw (a, a', b, b')
              (record {
                first = h.first;
                first_size = h.first_size;
                second = refl;
                second_size = refl;
                lost = omega (arith, h.lost, h.second_size, length-append k.dropped k.second);
                first_room = h.first_room;
                second_room = omega arith;
                first_full = inl full;
              })
      ]
]

-- What the relay was given, in order.
abbrev pub contents : Kept → List Entry
contents k = k.first ++ (k.dropped ++ k.second)

contents-place :
    (k : Kept) (e : Entry)
    → (length k.first ≡ buffer_size) ⊎ ((k.dropped ≡ []) × (k.second ≡ []))
    → contents (place k e) ≡ contents k ++ e ∷ []
unfolding place
contents-place k e full = elim (Bool-cases (ltb (length k.first) buffer_size)) [
  | inl a ↦
      let empty = dropped_none k full (ground arith) in
      rw (a, empty.0, empty.1) (simp (append_assoc, append-nil))
  | inr a ↦ elim (Bool-cases (ltb (length k.second) buffer_size)) [
    | inl b ↦ rw (a, b) (simp append_assoc)
    | inr b ↦ rw (a, b) (simp append_assoc)
  ]
]

-- Nothing is dropped before the first array is full.
abbrev pub IsFilledInOrder : Kept → Type 0
IsFilledInOrder k =
    (length k.first ≤ buffer_size)
    × ((length k.first ≡ buffer_size) ⊎ ((k.dropped ≡ []) × (k.second ≡ [])))

place-IsFilledInOrder : (k : Kept) (e : Entry) → IsFilledInOrder k → IsFilledInOrder (place k e)
unfolding place
place-IsFilledInOrder k e h = ground (arith, length-append k.first (e ∷ []))

-- Placing entries loses none of them from the account.
pub contents-place_all :
    (k : Kept) (es : List Entry) → IsFilledInOrder k → contents (place_all k es) ≡ contents k ++ es
unfolding place_all
contents-place_all k [] h = sym (append-nil (contents k))
contents-place_all k (e ∷ es) h =
    contents-place_all (place k e) es (place-IsFilledInOrder k e h)
    ∙ ap (λ c. c ++ es) (contents-place k e h.1)
    ∙ append_assoc (contents k) (e ∷ []) es

-- Two arrays hold a hundred entries.
abbrev pub capacity : ℕ
capacity = 2 * buffer_size

place-dropped :
    (k : Kept) (e : Entry)
    → IsFilledInOrder k
    → k.dropped ≡ []
    → length k.first + length k.second < capacity
    → ((place k e).dropped ≡ [])
      × (length (place k e).first + length (place k e).second
          ≡ length k.first + length k.second + 1)
unfolding place
place-dropped k e h d l =
    ground (arith, length-append k.first (e ∷ []), length-append k.second (e ∷ []))

-- Up to a hundred entries none is dropped.
pub dropped-place_all :
    (k : Kept) (es : List Entry)
    → IsFilledInOrder k
    → k.dropped ≡ []
    → length k.first + length k.second + length es ≤ capacity
    → (place_all k es).dropped ≡ []
unfolding place_all
dropped-place_all k [] h d l = d
dropped-place_all k (e ∷ es) h d l =
    let placed = place-dropped k e h d (omega arith) in
    dropped-place_all (place k e) es (place-IsFilledInOrder k e h) placed.0
      (omega (arith, placed.1))

take-snoc :
    (n : ℕ) (xs : List Entry) (e : Entry)
    → take n (xs ++ e ∷ [])
      ≡ (if ltb (length (take n xs)) n then take n xs ++ e ∷ [] else take n xs)
take-snoc zero xs e = refl
take-snoc (suc zero) [] e = refl
take-snoc (suc (suc n)) [] e = ground arith
take-snoc (suc n) (x ∷ xs) e = ground (arith, take-snoc n xs e)

place-first :
    (k : Kept) (past : List Entry) (e : Entry)
    → k.first ≡ take buffer_size past
    → (place k e).first ≡ take buffer_size (past ++ e ∷ [])
unfolding place
place-first k past e h = elim (Bool-cases (ltb (length k.first) buffer_size)) [
  | inl a ↦ rw (take-snoc buffer_size past e, ← h, a) refl
  | inr a ↦ elim (Bool-cases (ltb (length k.second) buffer_size)) [
    | inl b ↦ rw (take-snoc buffer_size past e, ← h, a, b) refl
    | inr b ↦ rw (take-snoc buffer_size past e, ← h, a, b) refl
  ]
]

-- The first array keeps the entries that came first.
pub first-place_all :
    (k : Kept) (past es : List Entry)
    → k.first ≡ take buffer_size past
    → (place_all k es).first ≡ take buffer_size (past ++ es)
unfolding place_all
first-place_all k past [] h = rw (append-nil past) h
first-place_all k past (e ∷ es) h =
    first-place_all (place k e) (past ++ e ∷ []) es (place-first k past e h)
    ∙ ap (take buffer_size) (append_assoc past (e ∷ []) es)
