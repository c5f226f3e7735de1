-- ===== src/Data/Stats.antt =====
-- data/stats.go: what the sender reports of its runs over a window of time.
-- Times are nanoseconds since the zero time of Go, which begin and end are at first. The list is
-- kept from its back to its front, the oldest run first. The texts of a report are left out.
pub mod Window
pub mod Totals
mod Tests
use percona_agent.Prelude.{
  ℕ, zero, suc, ◌+◌, ◌-◌, ◌*◌, ◌/◌, ◌%◌, ◌^◌, ◌≤◌, ◌<◌, min, String, ◌≡◌, refl, sym, ap, ◌∙◌, subst,
  ◌≢◌, ◌↔◌, ◌⊎◌, inl, inr, Bool, true, false, not, ◌&&◌, ◌||◌, Option, none, some, List, [], ◌∷◌,
  ◌++◌, map, arith, ltb, leb, ◌==◌, if◌then◌else◌, tests, Bool-cases, Option-cases, length,
  get_elem?, get_or, set, take, drop, replicate, All, length-append, length-set, length-take,
  length-replicate, take-append-drop, All-append, sum_of, sum_of-append, Eq, nat_key, string_key,
  lookup, insert, erase, lookup-insert, lookup-erase,
}

pub record SentInfo : Type 0 where
  pub begin : ℕ
  pub end : ℕ
  pub send_time : ℕ
  pub files : ℕ
  pub bytes : ℕ
  pub errs : ℕ
  pub api_errs : ℕ
  pub timeouts : ℕ
  pub bad_files : ℕ

pub record SentReport : Type 0 where
  pub bytes : ℕ
  pub send_time : ℕ
  pub begin : ℕ
  pub end : ℕ
  pub files : ℕ
  pub errs : ℕ
  pub api_errs : ℕ
  pub timeouts : ℕ
  pub bad_files : ℕ

pub record SenderStats : Type 0 where
  pub d : ℕ
  pub begin : ℕ
  pub end : ℕ
  pub sent : List SentInfo
  pub full : Bool

pub new_sender_stats : ℕ → SenderStats
new_sender_stats d = record { d = d; begin = 0; end = 0; sent = []; full = false }

-- From the back: a run can go if the next one still makes the window long enough.
pub drop_old : ℕ → ℕ → List SentInfo → List SentInfo
drop_old end d [] = []
drop_old end d (x ∷ []) = x ∷ []
drop_old end d (x ∷ y ∷ infos) = elim (ltb end (y.begin + d)) [
  | true ↦ x ∷ y ∷ infos
  | false ↦ drop_old end d (y ∷ infos)
]

-- `s.sent.Back()`; the list is not empty there.
pub oldest_begin : List SentInfo → ℕ
oldest_begin [] = 0
oldest_begin (x ∷ infos) = x.begin

-- The method Sent.
pub add_sent : SenderStats → SentInfo → SenderStats
add_sent s info =
    let pushed = s.sent ++ info ∷ [] in
    let kept = if s.full then drop_old info.end s.d pushed else pushed in
    record s {
      begin = oldest_begin kept;
      end = info.end;
      sent = kept;
      full = s.full || not (ltb info.end (s.begin + s.d));
    }

-- The counters are uint or uint64.
abbrev pub word : ℕ
word = 2 ^ 64

pub add_info : SentReport → SentInfo → SentReport
add_info r info = record r {
  bytes = (r.bytes + info.bytes) % word;
  send_time = r.send_time + info.send_time;
  files = (r.files + info.files) % word;
  errs = (r.errs + info.errs) % word;
  api_errs = (r.api_errs + info.api_errs) % word;
  timeouts = (r.timeouts + info.timeouts) % word;
  bad_files = (r.bad_files + info.bad_files) % word;
}

pub add_infos : SentReport → List SentInfo → SentReport
add_infos r [] = r
add_infos r (info ∷ infos) = add_infos (add_info r info) infos

pub report : SenderStats → SentReport
unfolding add_infos add_info
report s = add_infos empty s.sent
  where
    empty : SentReport
    empty = record {
      bytes = 0;
      send_time = 0;
      begin = s.begin;
      end = s.end;
      files = 0;
      errs = 0;
      api_errs = 0;
      timeouts = 0;
      bad_files = 0;
    }

-- FormatSentReport prints the errors only if there are any.
pub shows_errors : SentReport → Bool
shows_errors r = ltb 0 ((r.errs + r.bad_files + r.api_errs + r.timeouts) % word)

-- The method Dump: the runs, the oldest first.
pub dump : SenderStats → List SentInfo
dump s = s.sent
