-- ===== src/Data/Stats/Totals.antt =====
-- The numbers of a report of data/stats.go.
use percona_agent.Prelude.{
  ℕ, ◌+◌, ◌%◌, ◌<◌, ◌≡◌, ap, List, [], ◌∷◌, arith, ltb, sum_of, nat_key, string_key,
}
use percona_agent.Data.Stats.{
  SentInfo, SentReport, SenderStats, word, add_info, add_infos, report, shows_errors,
}

-- `q` is `r` with the totals of the runs added.
pub record Adds (r : SentReport) (infos : List SentInfo) (q : SentReport) : Type 0 where
  pub bytes : q.bytes ≡ (r.bytes + sum_of (λ i. i.bytes) infos) % word
  pub send_time : q.send_time ≡ r.send_time + sum_of (λ i. i.send_time) infos
  pub files : q.files ≡ (r.files + sum_of (λ i. i.files) infos) % word
  pub errs : q.errs ≡ (r.errs + sum_of (λ i. i.errs) infos) % word
  pub api_errs : q.api_errs ≡ (r.api_errs + sum_of (λ i. i.api_errs) infos) % word
  pub timeouts : q.timeouts ≡ (r.timeouts + sum_of (λ i. i.timeouts) infos) % word
  pub bad_files : q.bad_files ≡ (r.bad_files + sum_of (λ i. i.bad_files) infos) % word
  pub begin : q.begin ≡ r.begin
  pub end : q.end ≡ r.end

abbrev IsSmall : SentReport → Type 0
IsSmall r =
    (r.bytes < word)
    × (r.files < word)
    × (r.errs < word)
    × (r.api_errs < word)
    × (r.timeouts < word)
    × (r.bad_files < word)

add_infos-Adds :
    (r : SentReport) (infos : List SentInfo) → IsSmall r → Adds r infos (add_infos r infos)
unfolding add_infos add_info sum_of
add_infos-Adds r [] h = omega arith
add_infos-Adds r (info ∷ infos) h =
    let rest = add_infos-Adds (add_info r info) infos (omega arith) in
    record {
      bytes = omega (arith, rest.bytes);
      send_time = omega (arith, rest.send_time);
      files = omega (arith, rest.files);
      errs = omega (arith, rest.errs);
      api_errs = omega (arith, rest.api_errs);
      timeouts = omega (arith, rest.timeouts);
      bad_files = omega (arith, rest.bad_files);
      begin = rest.begin;
      end = rest.end;
    }

abbrev errors_of : SentInfo → ℕ
errors_of i = i.errs + i.bad_files + i.api_errs + i.timeouts

sum_of-errors :
    (infos : List SentInfo)
    → sum_of errors_of infos
      ≡ sum_of (λ i. i.errs) infos
        + sum_of (λ i. i.bad_files) infos
        + sum_of (λ i. i.api_errs) infos
        + sum_of (λ i. i.timeouts) infos
unfolding sum_of
sum_of-errors [] = omega arith
sum_of-errors (i ∷ infos) = omega (arith, sum_of-errors infos)

-- A report has the bounds of the window and, as words of 64 bits, the totals of its runs.
pub report-totals :
    (s : SenderStats)
    → Adds
        (record {
          bytes = 0;
          send_time = 0;
          begin = s.begin;
          end = s.end;
          files = 0;
          errs = 0;
          api_errs = 0;
          timeouts = 0;
          bad_files = 0;
        })
        s.sent
        (report s)
unfolding report
report-totals s = add_infos-Adds _ s.sent (omega arith)

-- Unless 2^64 errors were counted, the text of a report has its error part exactly if some run of
-- the window had an error, an API error, a timeout or a bad file.
pub report-shows_errors :
    (s : SenderStats)
    → sum_of (λ i. i.errs + i.bad_files + i.api_errs + i.timeouts) s.sent < word
    → shows_errors (report s)
      ≡ ltb 0 (sum_of (λ i. i.errs + i.bad_files + i.api_errs + i.timeouts) s.sent)
unfolding shows_errors
report-shows_errors s h =
    let t = report-totals s in
    ap (ltb 0) (omega (arith, t.errs, t.bad_files, t.api_errs, t.timeouts, sum_of-errors s.sent))
