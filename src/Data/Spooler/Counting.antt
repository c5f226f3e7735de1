-- ===== src/Data/Spooler/Counting.antt =====
-- updateStats of data/spooler.go.
use percona_agent.Prelude.{
  ◌+◌, ◌%◌, ◌^◌, ◌<◌, ◌≡◌, refl, sym, ap, ◌∙◌, subst, some, List, [], ◌∷◌, map, arith, length, All,
  sum_of, lookup,
}
use percona_agent.Prelude.{IsMap}
use percona_agent.Prelude.Int.{ℤ}
use percona_agent.Prelude.Text.{Text, text_key}
use percona_agent.Data.Spooler.{
  Bytes, Diskv, Spooler, older, ts_of, count_file, visit_file, visit_files, update_stats,
}
use percona_agent.Data.Spooler.Erasing.{Healthy, total}

-- Every file has a name with a time.
abbrev pub HasTimes : List (Text × Bytes) → Type 0
HasTimes fs = All (λ e. (ts : ℤ) × (ts_of e.0 ≡ some ts)) fs

All-weaken {κ μ} :
    {A : Type 0} (P : A → Type κ) (Q : A → Type μ) (xs : List A)
    → ((x : A) → P x → Q x)
    → All P xs
    → All Q xs
All-weaken P Q [] f h = tt
All-weaken P Q (x ∷ xs) f h = (f x h.0, All-weaken P Q xs f h.1)

-- Every entry of a map is found under its key.
pub entries-lookup : (fs : List (Text × Bytes)) → IsMap fs → All (λ e. lookup e.0 fs ≡ some e.1) fs
unfolding lookup
entries-lookup [] m = tt
entries-lookup ((k, b) ∷ fs) m = (
  ground (arith, text_key.beq_iff k k),
  All-weaken (λ e. lookup e.0 fs ≡ some e.1) (λ e. lookup e.0 ((k, b) ∷ fs) ≡ some e.1) fs
      (λ e h. ground (arith, text_key.beq_iff k e.0)) (entries-lookup fs m.1),
)

module _ {C : Type 0} (d : Diskv C) (v : Healthy d) where
  -- The counters after the given files have been counted; the directory stays.
  record Counted (s s' : Spooler C) (fs : List (Text × Bytes)) : Type 0 where
    cache_eq : s'.cache ≡ s.cache
    count_eq : s'.count ≡ s.count + length fs
    size_eq : s'.size ≡ s.size + total fs
    sizes_eq : s'.file_size ≡ s.file_size

  visits :
      (fs : List (Text × Bytes)) (s : Spooler C)
      → s.count + length fs < 2 ^ 64
      → s.size + total fs < 2 ^ 64
      → HasTimes fs
      → All (λ e. lookup e.0 (v.files s.cache) ≡ some e.1) fs
      → Counted s (visit_files d (map (λ e. e.0) fs) s) fs
  unfolding visit_files visit_file count_file sum_of
  visits [] s h1 h2 t l = record {
    cache_eq = refl;
    count_eq = omega arith;
    size_eq = omega arith;
    sizes_eq = refl;
  }
  visits ((k, b) ∷ fs) s h1 h2 t l =
      let got : d.read k s.cache ≡ some b = v.read_lem k s.cache ∙ l.0 in
      let s1 : Spooler C = record s {
        count = (s.count + 1) % 2 ^ 64;
        size = (s.size + length b) % 2 ^ 64;
        oldest = older t.0.0 s.oldest;
      } in
      let rest = visits fs s1 (omega (arith, h1)) (omega (arith, h2)) t.1 l.1 in
      let counted : visit_file d k (d.read k s.cache) s ≡ s1 =
        ap (λ o. visit_file d k o s) got ∙ ap (λ o. count_file d k o b s) t.0.1 in
      subst (λ x. Counted s (visit_files d (map (λ e. e.0) fs) x) ((k, b) ∷ fs)) (sym counted)
        (record {
          cache_eq = rest.cache_eq;
          count_eq = omega (arith, rest.count_eq, h1);
          size_eq = omega (arith, rest.size_eq, h2);
          sizes_eq = rest.sizes_eq;
        })

  -- With valid names only, the counters are those of the directory afterwards, whatever they were.
  pub update_stats-counts :
      (now : ℤ) (s : Spooler C)
      → length (v.files s.cache) < 2 ^ 64
      → total (v.files s.cache) < 2 ^ 64
      → HasTimes (v.files s.cache)
      → (((update_stats d now s).cache ≡ s.cache)
          × ((update_stats d now s).count ≡ length (v.files s.cache))
          × ((update_stats d now s).size ≡ total (v.files s.cache))
          × ((update_stats d now s).file_size ≡ s.file_size))
  unfolding update_stats
  update_stats-counts now s h1 h2 t =
      let fs = v.files s.cache in
      let all =
        visits fs (record s { count = 0; size = 0; oldest = now }) (omega (arith, h1))
          (omega (arith, h2)) t (entries-lookup fs (v.files-IsMap s.cache)) in
      rw (v.keys_lem s.cache)
        (all.cache_eq, omega (arith, all.count_eq), omega (arith, all.size_eq), all.sizes_eq)
