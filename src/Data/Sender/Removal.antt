-- ===== src/Data/Sender/Removal.antt =====
-- Which files a run of data/sender.go takes out of the spool.
use percona_agent.Prelude.{
  ℕ, zero, suc, ◌+◌, ◌<◌, String, ◌≡◌, refl, ◌⊎◌, inl, inr, Bool, true, false, Option, none, some,
  List, [], ◌∷◌, map, arith, ltb, ◌==◌, Bool-cases, Option-cases, nat_key, string_key, lookup,
  erase, lookup-erase,
}
use percona_agent.Data.Sender.{
  Run, max_send_errors, no_info, next_or, remove, Verdict, next, stop, fail, on_response, on_answer,
  receive, on_sent, send_file, on_read, on_file, send_files, send_all_files, add_err, on_pass,
  on_connect, try_send, send_loop, send,
}
use percona_agent.Data.Sender.Termination.{is_final}

-- The API answered this file with success, or refused it for good.
abbrev pub IsAcked : String → List (String × ℕ) → Type 0
IsAcked f [] = ⊥
IsAcked f ((g, code) ∷ acks) = ((g ≡ f) × (is_final code ≡ true)) ⊎ IsAcked f acks

module _ (f : String) (size : ℕ) (content : 0 < size) where
  abbrev pub IsSafe : Run → Type 0
  IsSafe r = (lookup f r.spool ≡ some (some size)) ⊎ IsAcked f r.acks

  abbrev SafeVerdict : Verdict → Type 0
  SafeVerdict (next q) = IsSafe q
  SafeVerdict (stop q) = IsSafe q
  SafeVerdict (fail q) = IsSafe q

  on_answer-IsSafe :
      (r : Run) (file : String) (answer : Option ℕ)
      → IsSafe r
      → SafeVerdict (on_answer r file answer)
  unfolding on_answer on_response remove
  on_answer-IsSafe r file none h = h
  on_answer-IsSafe r file (some code) h =
      ground (arith, lookup-erase file f r.spool, string_key.beq_iff file f)

  receive-IsSafe : (r : Run) (file : String) → IsSafe r → SafeVerdict (receive r file)
  unfolding receive
  receive-IsSafe r file h =
      on_answer-IsSafe (record r { responses = (next_or r.responses none).1 }) file
        (next_or r.responses none).0 h

  on_sent-IsSafe :
      (r : Run) (file : String) (n : ℕ) (answer : Option ℕ)
      → IsSafe r
      → SafeVerdict (on_sent r file n answer)
  unfolding on_sent
  on_sent-IsSafe r file n none h = h
  on_sent-IsSafe r file n (some time) h = receive-IsSafe _ file h

  erase_empty :
      (r : Run) (file : String) (n : ℕ)
      → lookup file r.spool ≡ some (some n)
      → (n == 0) ≡ true
      → IsSafe r
      → IsSafe (record r { spool = erase file r.spool })
  erase_empty r file n e z h =
      ground (arith, lookup-erase file f r.spool, string_key.beq_iff file f)

  on_read-IsSafe :
      (r : Run) (file : String) (found : Option (Option ℕ))
      → lookup file r.spool ≡ found
      → IsSafe r
      → SafeVerdict (on_read false r file found)
  unfolding on_read send_file remove
  on_read-IsSafe r file none e h = h
  on_read-IsSafe r file (some none) e h = h
  on_read-IsSafe r file (some (some n)) e h = elim (Bool-cases (n == 0)) [
    | inl z ↦ rw z (erase_empty r file n e z h)
    | inr z ↦ rw z (
        on_sent-IsSafe (record r { sends = (next_or r.sends none).1 }) file n
          (next_or r.sends none).0 h)
  ]

  on_file-IsSafe :
      (timeout : ℕ) (r : Run) (file : String)
      → IsSafe r
      → SafeVerdict (on_file timeout false r file)
  unfolding on_file
  on_file-IsSafe timeout r file h = elim (Bool-cases (ltb timeout (next_or r.run_times 0).0)) [
    | inl e ↦ rw e h
    | inr e ↦ rw e (
        on_read-IsSafe (record r { run_times = (next_or r.run_times 0).1 }) file
          (lookup file r.spool) refl h)
  ]

  send_files-IsSafe :
      (timeout : ℕ) (files : List String) (r : Run)
      → IsSafe r
      → IsSafe (send_files timeout false files r).0
  unfolding send_files
  send_files-IsSafe timeout [] r h = h
  send_files-IsSafe timeout (file ∷ files) r h =
      round (on_file timeout false r file) (on_file-IsSafe timeout r file h)
        (send_files-IsSafe timeout files)
    where
      round :
          (v : Verdict)
          → SafeVerdict v
          → ((q : Run) → IsSafe q → IsSafe (send_files timeout false files q).0)
          → IsSafe
              (elim v as (λ _. Run × Bool) [
                | next r' ↦ send_files timeout false files r'
                | stop r' ↦ (r', true)
                | fail r' ↦ (r', false)
              ]).0
      round (next q) h ih = ih q h
      round (stop q) h ih = h
      round (fail q) h ih = h

  on_pass-IsSafe : (o : Run × Bool) → IsSafe o.0 → IsSafe (on_pass o).1
  unfolding on_pass add_err
  on_pass-IsSafe (q, true) h = h
  on_pass-IsSafe (q, false) h = h

  on_connect-IsSafe :
      (timeout : ℕ) (r : Run) (connected : Bool)
      → IsSafe r
      → IsSafe (on_connect timeout false r connected).1
  unfolding on_connect add_err send_all_files
  on_connect-IsSafe timeout r true h =
      on_pass-IsSafe (send_files timeout false (map (λ x. x.0) r.spool) r)
        (send_files-IsSafe timeout (map (λ x. x.0) r.spool) r h)
  on_connect-IsSafe timeout r false h = h

  try_send-IsSafe : (timeout : ℕ) (r : Run) → IsSafe r → IsSafe (try_send timeout false r).1
  unfolding try_send
  try_send-IsSafe timeout r h = elim (Bool-cases (ltb timeout (next_or r.run_times 0).0)) [
    | inl e ↦ rw e h
    | inr e ↦ rw e (
        on_connect-IsSafe timeout
          (record r {
            run_times = (next_or r.run_times 0).1;
            connects = (next_or r.connects false).1;
          })
          (next_or r.connects false).0 h)
  ]

  loop-IsSafe :
      (fuel timeout : ℕ) (r q : Run) → IsSafe r → send_loop fuel timeout false r ≡ some q → IsSafe q
  unfolding send_loop
  loop-IsSafe zero timeout r q h e = cc
  loop-IsSafe (suc fuel) timeout r q h e =
      ground (
        arith,
        try_send-IsSafe timeout r h,
        loop-IsSafe fuel timeout (try_send timeout false r).1 q,
      )

-- Unless the sender is a black hole, a file with data stays in the spool as it is, through all the
-- errors, retries and timeouts of a run, until the API has answered it with a 2xx or a 4xx code.
pub send_keeps :
    (f : String) (size timeout : ℕ) (r q : Run)
    → 0 < size
    → lookup f r.spool ≡ some (some size)
    → send timeout false r ≡ some q
    → (lookup f q.spool ≡ some (some size)) ⊎ IsAcked f q.acks
unfolding send
send_keeps f size timeout r q pos here e =
    elim (Option-cases
      (send_loop (max_send_errors + 1) timeout false (record r { sent = no_info }))) [
        | inl none_left ↦ ground arith
        | inr (p, found) ↦ ground (
          arith,
          loop-IsSafe f size pos (max_send_errors + 1) timeout (record r { sent = no_info }) p
              (inl here) found,
        )
      ]
