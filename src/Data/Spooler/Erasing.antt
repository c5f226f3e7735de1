-- ===== src/Data/Spooler/Erasing.antt =====
-- The counters of data/spooler.go while files leave the spool.
use percona_agent.Prelude.{
  ℕ, suc, ◌+◌, ◌^◌, ◌≤◌, ◌<◌, ◌≡◌, refl, sym, ap, ◌∙◌, ◌≢◌, inl, inr, Bool, true, false, Option,
  none, some, List, [], ◌∷◌, ◌++◌, map, arith, if◌then◌else◌, Bool-cases, Option-cases, length,
  sum_of, lookup, insert, erase, lookup-insert, lookup-erase,
}
use percona_agent.Prelude.{IsMap}
use percona_agent.Prelude.Text.{Text, text_key}
use percona_agent.Data.Spooler.{
  Bytes, Erased, done, not_exist, failed, Diskv, Spooler, sub_u64, bytes_of, read, on_erased,
  remove_sized, remove,
}

-- A store on a healthy disk: `files` is what the directory holds, in the order of the keys.
pub record Healthy {C : Type 0} (d : Diskv C) : Type 0 where
  pub files : C → List (Text × Bytes)
  pub files-IsMap : (c : C) → IsMap (files c)
  pub keys_lem : (c : C) → d.keys c ≡ map (λ e. e.0) (files c)
  pub read_lem : (k : Text) (c : C) → d.read k c ≡ lookup k (files c)
  pub erase_works : (k : Text) (c : C) → (d.erase_key k c).0 ≢ failed
  pub erase_lem : (k : Text) (c : C) → files (d.erase_key k c).1 ≡ erase k (files c)
  pub write_lem :
      (k : Text) (b : Bytes) (c : C)
      → lookup k (files c) ≡ none
      → (before : List (Text × Bytes)) × (after : List (Text × Bytes)) × (files c ≡ before ++ after)
        × (files (d.write k b c).1 ≡ before ++ (k, b) ∷ after)

-- The bytes of all files.
abbrev pub total : List (Text × Bytes) → ℕ
total fs = sum_of (λ e. length e.1) fs

-- The counters are those of the directory, in which no counter overflows, and the cached sizes are
-- those of the files.
pub record IsAccurate {C : Type 0} {d : Diskv C} (v : Healthy d) (s : Spooler C) : Type 0 where
  pub count_eq : s.count ≡ length (v.files s.cache)
  pub size_eq : s.size ≡ total (v.files s.cache)
  pub count_fits : length (v.files s.cache) < 2 ^ 64
  pub size_fits : total (v.files s.cache) < 2 ^ 64
  pub cached :
      (k : Text) (n : ℕ) (b : Bytes)
      → lookup k s.file_size ≡ some n
      → lookup k (v.files s.cache) ≡ some b
      → n ≡ length b

erase_absent : (k : Text) (fs : List (Text × Bytes)) → lookup k fs ≡ none → erase k fs ≡ fs
unfolding lookup erase
erase_absent k [] h = refl
erase_absent k ((j, c) ∷ fs) h = elim (Bool-cases (text_key.beq j k)) [
  | inl t ↦ absurd (ground arith)
  | inr t ↦ rw (t, erase) (ap (λ x. (j, c) ∷ x) (erase_absent k fs (ground arith)))
]

length-erase :
    (k : Text) (b : Bytes) (fs : List (Text × Bytes))
    → IsMap fs
    → lookup k fs ≡ some b
    → suc (length (erase k fs)) ≡ length fs
unfolding lookup erase
length-erase k b [] m h = absurd (ground arith)
length-erase k b ((j, c) ∷ fs) m h =
    ground (arith, text_key.beq_iff j k, erase_absent j fs m.0, length-erase k b fs m.1)

total-erase :
    (k : Text) (b : Bytes) (fs : List (Text × Bytes))
    → IsMap fs
    → lookup k fs ≡ some b
    → total (erase k fs) + length b ≡ total fs
unfolding lookup erase sum_of
total-erase k b [] m h = absurd (ground arith)
total-erase k b ((j, c) ∷ fs) m h =
    ground (arith, text_key.beq_iff j k, erase_absent j fs m.0, total-erase k b fs m.1)

module _ {C : Type 0} (d : Diskv C) (v : Healthy d) where
  on_erased_lem :
      (file : Text) (size : ℕ) (cached : Bool) (s : Spooler C) (q : Erased × C)
      → q.0 ≢ failed
      → on_erased d file size cached s q ≡ (
        true,
        record s {
          cache = q.1;
          count = sub_u64 s.count 1;
          size = sub_u64 s.size size;
          file_size = if cached then erase file s.file_size else s.file_size;
        },
      )
  unfolding on_erased
  on_erased_lem file size cached s (done, c) h = refl
  on_erased_lem file size cached s (not_exist, c) h = refl
  on_erased_lem file size cached s (failed, c) h = absurd (h refl)

  -- What `remove` leaves of the table of sizes.
  left_sizes : Text → Option ℕ → Spooler C → List (Text × ℕ)
  left_sizes file (some n) s = erase file s.file_size
  left_sizes file none s = insert file (bytes_of d (d.read file s.cache)) s.file_size

  known_size : Text → Option ℕ → Spooler C → ℕ
  known_size file (some n) s = n
  known_size file none s = bytes_of d (d.read file s.cache)

  removed : Text → Option ℕ → Spooler C → Spooler C
  removed file o s = record s {
    cache = (d.erase_key file s.cache).1;
    count = sub_u64 s.count 1;
    size = sub_u64 s.size (known_size file o s);
    file_size = left_sizes file o s;
  }

  remove_sized_lem :
      (file : Text) (o : Option ℕ) (s : Spooler C)
      → remove_sized d file o s ≡ (true, removed file o s)
  unfolding remove_sized read removed left_sizes known_size
  remove_sized_lem file (some n) s = on_erased_lem file n true s _ (v.erase_works file s.cache)
  remove_sized_lem file none s = on_erased_lem file _ false _ _ (v.erase_works file s.cache)

  known_size_lem :
      (file : Text) (b : Bytes) (s : Spooler C)
      → IsAccurate v s
      → lookup file (v.files s.cache) ≡ some b
      → known_size file (lookup file s.file_size) s ≡ length b
  unfolding known_size bytes_of
  known_size_lem file b s h e = elim (Option-cases (lookup file s.file_size)) [
    | inl o ↦ rw o (ap (bytes_of d) (v.read_lem file s.cache ∙ e))
    | inr (n, o) ↦ rw o (h.cached file n b o e)
  ]

  -- A size that is left for another file was there before.
  left_sizes-lookup :
      (file k : Text) (o : Option ℕ) (s : Spooler C)
      → text_key.beq file k ≡ false
      → lookup k (left_sizes file o s) ≡ lookup k s.file_size
  unfolding left_sizes
  left_sizes-lookup file k (some n) s h = rw (lookup-erase file k s.file_size, h) refl
  left_sizes-lookup file k none s h = rw (lookup-insert file k _ s.file_size, h) refl

  removed_cached :
      (file k : Text) (o : Option ℕ) (s : Spooler C) (n : ℕ) (b : Bytes)
      → IsAccurate v s
      → lookup k (left_sizes file o s) ≡ some n
      → lookup k (erase file (v.files s.cache)) ≡ some b
      → n ≡ length b
  removed_cached file k o s n b h en eb = elim (Bool-cases (text_key.beq file k)) [
    | inl t ↦ absurd (ground (arith, lookup-erase file k (v.files s.cache)))
    | inr t ↦
        h.cached k n b (sym (left_sizes-lookup file k o s t) ∙ en)
          (ground (arith, lookup-erase file k (v.files s.cache)))
  ]

  pub remove-files :
      (file : Text) (s : Spooler C)
      → v.files (remove d file s).1.cache ≡ erase file (v.files s.cache)
  unfolding remove removed
  remove-files file s =
      ap (λ q. v.files q.1.cache) (remove_sized_lem file (lookup file s.file_size) s)
      ∙ v.erase_lem file s.cache

  -- The counters follow the removal of a file that is there.
  pub remove-IsAccurate :
      (file : Text) (b : Bytes) (s : Spooler C)
      → IsAccurate v s
      → lookup file (v.files s.cache) ≡ some b
      → IsAccurate v (remove d file s).1
  unfolding remove removed
  remove-IsAccurate file b s h e =
      let fs = v.files s.cache in
      let o = lookup file s.file_size in
      let n1 = length-erase file b fs (v.files-IsMap s.cache) e in
      let n2 = total-erase file b fs (v.files-IsMap s.cache) e in
      let known = known_size_lem file b s h e in
      let same = v.erase_lem file s.cache in
      rw (remove_sized_lem file o s) (record {
        count_eq = omega (arith, n1, ap length same, h.count_eq, h.count_fits);
        size_eq = omega (arith, n2, ap total same, h.size_eq, h.size_fits, known);
        count_fits = omega (arith, n1, ap length same, h.count_fits);
        size_fits = omega (arith, n2, ap total same, h.size_fits);
        cached = λ k n c en ec. removed_cached file k o s n c h en (ap (lookup k) (sym same) ∙ ec);
      })

  pub remove_less :
      (file : Text) (b : Bytes) (s : Spooler C)
      → IsAccurate v s
      → lookup file (v.files s.cache) ≡ some b
      → ((remove d file s).1.size ≤ s.size) × ((remove d file s).1.count ≤ s.count)
  remove_less file b s h e =
      let after = remove-IsAccurate file b s h e in
      let same = remove-files file s in
      let n1 = length-erase file b (v.files s.cache) (v.files-IsMap s.cache) e in
      let n2 = total-erase file b (v.files s.cache) (v.files-IsMap s.cache) e in
      (
        omega (arith, after.size_eq, h.size_eq, ap total same, n2),
        omega (arith, after.count_eq, h.count_eq, ap length same, n1),
      )
