-- ===== src/Data/Spooler/Within.antt =====
-- What a purge of data/spooler.go leaves.
use percona_agent.Prelude.{
  ◌≤◌, ◌^◌, ◌<◌, ◌≡◌, refl, sym, ap, ◌∙◌, subst, inl, inr, true, false, ◌||◌, none, some, List, [],
  ◌∷◌, map, arith, ◌==◌, length, All, sum_of, lookup,
}
use percona_agent.Prelude.{IsMap}
use percona_agent.Prelude.Int.{ℤ}
use percona_agent.Prelude.Text.{Text, text_key}
use percona_agent.Data.Spooler.{
  Bytes, Diskv, DataSpoolLimits, Spooler, no_files, purge_files, update_stats, purge,
}
use percona_agent.Data.Spooler.Erasing.{Healthy, total, IsAccurate}
use percona_agent.Data.Spooler.Counting.{HasTimes, entries-lookup, update_stats-counts}
use percona_agent.Data.Spooler.Purging.{
  has, IsDistinct, IsYoung, IsThere, IsVisited, purge_files-IsVisited,
}

keys-has :
    (k : Text) (fs : List (Text × Bytes)) (b : Bytes)
    → lookup k fs ≡ some b
    → has k (map (λ e. e.0) fs) ≡ true
unfolding lookup
keys-has k [] b e = absurd (ground arith)
keys-has k ((j, c) ∷ fs) b e = ground (arith, keys-has k fs b)

has-none :
    (k : Text) (fs : List (Text × Bytes)) → lookup k fs ≡ none → has k (map (λ e. e.0) fs) ≡ false
unfolding lookup
has-none k [] e = refl
has-none k ((j, c) ∷ fs) e = ground (arith, has-none k fs)

keys-IsDistinct : (fs : List (Text × Bytes)) → IsMap fs → IsDistinct (map (λ e. e.0) fs)
keys-IsDistinct [] m = tt
keys-IsDistinct ((j, c) ∷ fs) m = (has-none j fs m.0, keys-IsDistinct fs m.1)

entries-IsThere :
    (gs fs : List (Text × Bytes))
    → All (λ e. lookup e.0 gs ≡ some e.1) fs
    → All (IsThere gs) (map (λ e. e.0) fs)
entries-IsThere gs [] h = tt
entries-IsThere gs ((k, b) ∷ fs) h = ((b, h.0), entries-IsThere gs fs h.1)

-- What holds of every entry that is found holds of all.
All-lookup {κ} :
    (P : Text → Type κ) (gs fs : List (Text × Bytes))
    → ((k : Text) (b : Bytes) → lookup k gs ≡ some b → P k)
    → All (λ e. lookup e.0 gs ≡ some e.1) fs
    → All (λ e. P e.0) fs
All-lookup P gs [] f h = tt
All-lookup P gs ((k, b) ∷ fs) f h = (f k b h.0, All-lookup P gs fs f h.1)

no_entries :
    (fs : List (Text × Bytes))
    → ((k : Text) (b : Bytes) → lookup k fs ≡ some b → has k [] ≡ true)
    → All (λ e. lookup e.0 fs ≡ some e.1) fs
    → fs ≡ []
no_entries [] f h = refl
no_entries ((k, b) ∷ fs) f h = absurd (ground (arith, f k b h.0))

times :
    (now : ℤ) (limits : DataSpoolLimits) (fs : List (Text × Bytes))
    → All (λ e. IsYoung now limits e.0) fs
    → HasTimes fs
times now limits [] h = tt
times now limits (e ∷ fs) h = ((h.0.0, h.0.1), times now limits fs h.1)

-- The spool is within the limits.
pub record IsWithin {C : Type 0} {d : Diskv C} (v : Healthy d) (now : ℤ) (limits : DataSpoolLimits)
    (s : Spooler C) : Type 0 where
  pub young : All (λ e. IsYoung now limits e.0) (v.files s.cache)
  pub small : total (v.files s.cache) ≤ limits.max_size
  pub few : length (v.files s.cache) ≤ limits.max_files

module _ {C : Type 0} (d : Diskv C) (v : Healthy d) (now : ℤ) (limits : DataSpoolLimits) where
  starts : (s : Spooler C) → IsAccurate v s → IsVisited v now limits (d.keys s.cache) s
  starts s h =
      let fs = v.files s.cache in
      let m = v.files-IsMap s.cache in
      subst (λ ks. IsVisited v now limits ks s) (sym (v.keys_lem s.cache))
        (record {
          accurate = h;
          there = entries-IsThere fs fs (entries-lookup fs m);
          distinct = keys-IsDistinct fs m;
          young = λ k b e. inl (keys-has k fs b e);
          within = inl (λ k b e. keys-has k fs b e);
        })

  ends : (s : Spooler C) → IsVisited v now limits [] s → IsWithin v now limits s
  unfolding sum_of
  ends s h =
      let fs = v.files s.cache in
      let entries = entries-lookup fs (v.files-IsMap s.cache) in
      let young : (k : Text) (b : Bytes) → lookup k fs ≡ some b → IsYoung now limits k =
        λ k b e. elim (h.young k b e) [ inl m ↦ absurd (ground arith) | inr y ↦ y ] in
      record {
        young = All-lookup (IsYoung now limits) fs fs young entries;
        small = elim h.within [
          | inl f ↦ rw (no_entries fs f entries) (omega arith)
          | inr w ↦ omega (arith, h.accurate.size_eq, w.0)
        ];
        few = elim h.within [
          | inl f ↦ rw (no_entries fs f entries) (omega arith)
          | inr w ↦ omega (arith, h.accurate.count_eq, w.1)
        ];
      }

  recount :
      (later : ℤ) (s : Spooler C)
      → IsVisited v now limits [] s
      → IsWithin v now limits (update_stats d later s) × IsAccurate v (update_stats d later s)
  recount later s h =
      let w = ends s h in
      let a = h.accurate in
      let (cache, count, size, sizes) =
        update_stats-counts d v later s a.count_fits a.size_fits
          (times now limits (v.files s.cache) w.young) in
      (
        record {
          young = subst (λ c. All (λ e. IsYoung now limits e.0) (v.files c)) (sym cache) w.young;
          small = subst (λ c. total (v.files c) ≤ limits.max_size) (sym cache) w.small;
          few = subst (λ c. length (v.files c) ≤ limits.max_files) (sym cache) w.few;
        },
        record {
          count_eq = count ∙ ap (λ c. length (v.files c)) (sym cache);
          size_eq = size ∙ ap (λ c. total (v.files c)) (sym cache);
          count_fits = subst (λ c. length (v.files c) < 2 ^ 64) (sym cache) a.count_fits;
          size_fits = subst (λ c. total (v.files c) < 2 ^ 64) (sym cache) a.size_fits;
          cached = λ k n b en eb.
              a.cached k n b (ap (lookup k) (sym sizes) ∙ en)
                (ap (λ c. lookup k (v.files c)) (sym cache) ∙ eb);
        },
      )

  -- On a healthy disk, a purge of a spool with true counters leaves only files with valid names that
  -- are not older than the limit, no more bytes and no more files than the limits allow, and true
  -- counters, whatever the limits, the times in the names and the clock are.
  pub purge-IsWithin :
      (later : ℤ) (s : Spooler C)
      → IsAccurate v s
      → IsWithin v now limits (purge d now later limits s).0
        × IsAccurate v (purge d now later limits s).0
  unfolding purge
  purge-IsWithin later s h =
      let all = limits.max_age == 0 || limits.max_size == 0 || limits.max_files == 0 in
      recount later (purge_files d all now limits (d.keys s.cache) (s, 0, no_files)).0
        (purge_files-IsVisited d v now limits all (d.keys s.cache) (s, 0, no_files) (starts s h))
