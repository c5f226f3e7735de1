-- ===== src/Data/Sender/Delivery.antt =====
-- A run of data/sender.go in which nothing goes wrong.
use percona_agent.Prelude.{
  ℕ, ◌+◌, ◌≤◌, ◌<◌, All, String, ◌≡◌, refl, ◌∙◌, Bool, true, false, Option, none, some, List, [],
  ◌∷◌, ◌++◌, map, arith, ltb, ◌==◌, length, replicate, nat_key, string_key, lookup, erase,
}
use percona_agent.Data.Sender.{
  SentInfo, Run, next_or, remove, next, on_response, on_answer, receive, on_sent, send_file,
  on_read, on_file, send_files,
}
use percona_agent.Prelude.{IsMap}

-- Every file of the spool can be read and has data.
abbrev pub HasData : List (String × Option ℕ) → Type 0
HasData [] = Unit
HasData ((f, none) ∷ spool) = ⊥
HasData ((f, some n) ∷ spool) = (0 < n) × HasData spool

-- The responses of a run that sends the files of a spool one after the other, the latest first.
abbrev pub acked : List (String × Option ℕ) → List (String × ℕ) → List (String × ℕ)
acked [] acks = acks
acked ((f, n) ∷ spool) acks = acked spool ((f, 200) ∷ acks)

-- The bytes of a spool.
abbrev pub total : List (String × Option ℕ) → ℕ
total [] = 0
total ((f, none) ∷ spool) = total spool
total ((f, some n) ∷ spool) = n + total spool

erase-absent :
    (f : String) (spool : List (String × Option ℕ)) → lookup f spool ≡ none → erase f spool ≡ spool
unfolding lookup erase
erase-absent f [] h = refl
erase-absent f ((g, c) ∷ spool) h = ground (arith, erase-absent f spool)

go_next :
    (timeout : ℕ) (blackhole : Bool) (f : String) (fs : List String) (r q : Run)
    → on_file timeout blackhole r f ≡ next q
    → send_files timeout blackhole (f ∷ fs) r ≡ send_files timeout blackhole fs q
unfolding send_files
go_next timeout blackhole f fs r q e = rw (e, send_files)

module _ (timeout : ℕ) (connects : List Bool) (disconnects : ℕ) where
  abbrev state :
      List (String × Option ℕ)
      → List (Option ℕ)
      → List (Option ℕ)
      → SentInfo
      → List (String × ℕ)
      → List ℕ
      → Run
  state spool sends responses info acks clock = record {
    spool = spool;
    run_times = clock;
    connects = connects;
    sends = sends;
    responses = responses;
    sent = info;
    acks = acks;
    disconnects = disconnects;
  }

  abbrev count_file : ℕ → ℕ → SentInfo → SentInfo
  count_file n t i = record i {
    send_time = i.send_time + t;
    bytes = i.bytes + n;
    files = i.files + 1;
  }

  -- The first file goes, and the rest stays.
  on_first :
      (f : String) (n : ℕ) (spool : List (String × Option ℕ)) (t : ℕ)
      (sends responses : List (Option ℕ)) (info : SentInfo) (acks : List (String × ℕ))
      (clock : List ℕ)
      → ltb timeout (next_or clock 0).0 ≡ false
      → lookup f spool ≡ none
      → 0 < n
      → on_file timeout false
          (state ((f, some n) ∷ spool) (some t ∷ sends) (some 200 ∷ responses) info acks clock)
          f
        ≡ next (
            state spool sends responses (count_file n t info) ((f, 200) ∷ acks) (next_or clock 0).1)
  unfolding on_file on_read send_file on_sent receive on_answer on_response remove next_or lookup
      erase
  on_first f n spool t sends responses info acks clock early absent pos =
      let same : string_key.beq f f ≡ true = (string_key.beq_iff f f).1 refl in
      let full : (n == 0) ≡ false = ground arith in
      rw (early, same, full, same, erase-absent f spool absent)

  clock_lem :
      (clock : List ℕ)
      → All (λ t. t ≤ timeout) clock
      → (ltb timeout (next_or clock 0).0 ≡ false) × All (λ t. t ≤ timeout) (next_or clock 0).1
  unfolding next_or
  clock_lem [] h = (ground arith, tt)
  clock_lem (t ∷ clock) h = let small = h.0 in (ground arith, h.1)

  -- All files go.
  pub all_go :
      (spool : List (String × Option ℕ)) (times : List ℕ) (sends responses : List (Option ℕ))
      (info : SentInfo) (acks : List (String × ℕ)) (clock : List ℕ)
      → All (λ t. t ≤ timeout) clock
      → IsMap spool
      → HasData spool
      → length times ≡ length spool
      → (q : Run) × (send_files timeout false (map (λ x. x.0) spool) (
            state spool
              (map some times ++ sends)
              (replicate (length spool) (some 200) ++ responses)
              info
              acks
              clock)
          ≡ (q, true))
        × (q.spool ≡ [])
        × (q.sent.files ≡ info.files + length spool)
        × (q.sent.bytes ≡ info.bytes + total spool)
        × (q.sent.errs ≡ info.errs)
        × (q.acks ≡ acked spool acks)
  unfolding send_files
  all_go [] [] sends responses info acks clock h m d l =
      (_, refl, refl, omega arith, omega arith, refl, refl)
  all_go [] (t ∷ times) sends responses info acks clock h m d l = absurd (omega arith)
  all_go ((f, none) ∷ spool) times sends responses info acks clock h m d l = elim d [ ]
  all_go ((f, some n) ∷ spool) [] sends responses info acks clock h m d l = absurd (omega arith)
  all_go ((f, some n) ∷ spool) (t ∷ times) sends responses info acks clock h m d l =
      let (early, later) = clock_lem clock h in
      let (q, e, empty, files, bytes, errs, sent) =
        all_go spool times sends responses (count_file n t info) ((f, 200) ∷ acks)
          (next_or clock 0).1 later m.1 d.1 (omega arith) in
      (
        q,
        go_next timeout false f (map (λ x. x.0) spool) _ _ (
              on_first f n spool t (map some times ++ sends)
                (replicate (length spool) (some 200) ++ responses) info acks clock early m.0 d.0)
            ∙ e,
        empty,
        omega (arith, files),
        omega (arith, bytes),
        errs,
        sent,
      )
