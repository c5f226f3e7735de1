-- ===== src/Data/Spooler/Purging.antt =====
-- The purge of data/spooler.go: file after file, then the counters anew.
use percona_agent.Prelude.{
  ℕ, ◌≤◌, ◌≡◌, refl, sym, ap, ◌∙◌, subst, ◌⊎◌, inl, inr, Bool, true, false, Option, none, some,
  List, [], ◌∷◌, arith, if◌then◌else◌, Bool-cases, All, lookup, erase, lookup-erase,
}
use percona_agent.Prelude.Int.{ℤ}
use percona_agent.Prelude.Text.{Text, text_key}
use percona_agent.Data.Spooler.{
  Bytes, Diskv, DataSpoolLimits, Spooler, Reason, purge_all, too_old, too_large, too_many, keep,
  age, ts_of, why, remove, Purge, purge_reason, purge_file, purge_files,
}
use percona_agent.Data.Spooler.Erasing.{
  Healthy, IsAccurate, remove-files, remove-IsAccurate, remove_less,
}

abbrev pub has : Text → List Text → Bool
has k [] = false
has k (j ∷ ks) = if text_key.beq j k then true else has k ks

abbrev pub IsDistinct : List Text → Type 0
IsDistinct [] = Unit
IsDistinct (k ∷ ks) = (has k ks ≡ false) × IsDistinct ks

-- The file has a valid name, and it is not older than allowed.
abbrev pub IsYoung : ℤ → DataSpoolLimits → Text → Type 0
IsYoung now limits k = (ts : ℤ) × (ts_of k ≡ some ts) × (age now ts ≤ limits.max_age)

abbrev pub IsThere : List (Text × Bytes) → Text → Type 0
IsThere fs k = (b : Bytes) × (lookup k fs ≡ some b)

-- All files but those of the list have been visited.
pub record IsVisited {C : Type 0} {d : Diskv C} (v : Healthy d) (now : ℤ) (limits : DataSpoolLimits)
    (left : List Text) (s : Spooler C) : Type 0 where
  pub accurate : IsAccurate v s
  pub there : All (IsThere (v.files s.cache)) left
  pub distinct : IsDistinct left
  pub young :
      (k : Text) (b : Bytes)
      → lookup k (v.files s.cache) ≡ some b
      → (has k left ≡ true) ⊎ IsYoung now limits k
  pub within :
      ((k : Text) (b : Bytes) → lookup k (v.files s.cache) ≡ some b → has k left ≡ true)
      ⊎ ((s.size ≤ limits.max_size) × (s.count ≤ limits.max_files))

IsThere-erase :
    (file : Text) (fs : List (Text × Bytes)) (ks : List Text)
    → has file ks ≡ false
    → All (IsThere fs) ks
    → All (IsThere (erase file fs)) ks
IsThere-erase file fs [] h t = tt
IsThere-erase file fs (k ∷ ks) h t = elim (Bool-cases (text_key.beq k file)) [
  | inl e ↦ absurd (ground arith)
  | inr e ↦ (
    (
      t.0.0,
      ground
          (arith, lookup-erase file k fs, t.0.1, text_key.beq_iff k file, text_key.beq_iff file k),
    ),
    IsThere-erase file fs ks (ground arith) t.1,
  )
]

-- A file that is there after an erasure is another one.
still_there :
    (file k : Text) (fs : List (Text × Bytes)) (b : Bytes)
    → lookup k (erase file fs) ≡ some b
    → (text_key.beq file k ≡ false) × (lookup k fs ≡ some b)
still_there file k fs b e = ground (arith, lookup-erase file k fs)

module _ {C : Type 0} (d : Diskv C) (v : Healthy d) (now : ℤ) (limits : DataSpoolLimits) where
  removes :
      (file : Text) (files : List Text) (s : Spooler C)
      → IsVisited v now limits (file ∷ files) s
      → IsVisited v now limits files (remove d file s).1
  removes file files s h =
      let fs = v.files s.cache in
      let same = remove-files d v file s in
      let after = remove-IsAccurate d v file h.there.0.0 s h.accurate h.there.0.1 in
      let others : (k : Text) (b : Bytes)
          → lookup k (v.files (remove d file s).1.cache) ≡ some b
          → (text_key.beq file k ≡ false) × (lookup k fs ≡ some b) =
        λ k b e. still_there file k fs b (ap (lookup k) (sym same) ∙ e) in
      record {
        accurate = after;
        there =
            subst (λ gs. All (IsThere gs) files) (sym same)
              (IsThere-erase file fs files h.distinct.0 h.there.1);
        distinct = h.distinct.1;
        young = λ k b e.
            let (other, e') = others k b e in
            elim (h.young k b e') [ inl m ↦ inl (ground arith) | inr y ↦ inr y ];
        within = elim h.within [
          | inl f ↦ inl (λ k b e. let (other, e') = others k b e in ground (arith, f k b e'))
          | inr w ↦
              let less = remove_less d v file h.there.0.0 s h.accurate h.there.0.1 in
              inr (omega (arith, less.0, w.0), omega (arith, less.1, w.1))
        ];
      }

  -- A file that no rule takes stays.
  keeps :
      (file : Text) (ts : ℤ) (files : List Text) (s : Spooler C)
      → ts_of file ≡ some ts
      → why false limits (age now ts) s.size s.count ≡ keep
      → IsVisited v now limits (file ∷ files) s
      → IsVisited v now limits files s
  unfolding why
  keeps file ts files s valid reason h =
      let old : age now ts ≤ limits.max_age = ground arith in
      let large : s.size ≤ limits.max_size = ground arith in
      let many : s.count ≤ limits.max_files = ground arith in
      let this : (k : Text) → text_key.beq file k ≡ true → IsYoung now limits k =
        λ k e. subst (λ j. IsYoung now limits j) ((text_key.beq_iff file k).0 e) (ts, valid, old) in
      record {
        accurate = h.accurate;
        there = h.there.1;
        distinct = h.distinct.1;
        young = λ k b e. elim (Bool-cases (text_key.beq file k)) [
          | inl t ↦ inr (this k t)
          | inr t ↦ elim (h.young k b e) [ inl m ↦ inl (ground arith) | inr y ↦ inr y ]
        ];
        within = inr (large, many);
      }

  why-keep :
      (all : Bool) (old size count : ℕ)
      → why all limits old size count ≡ keep
      → why false limits old size count ≡ keep
  unfolding why
  why-keep true old size count e = absurd (ground arith)
  why-keep false old size count e = e

  by_reason :
      (all : Bool) (file : Text) (ts : ℤ) (files : List Text) (p : Purge d)
      → ts_of file ≡ some ts
      → IsVisited v now limits (file ∷ files) p.0
      → IsVisited v now limits files
          (purge_reason d file (why all limits (age now ts) p.0.size p.0.count) p).0
  unfolding purge_reason
  by_reason all file ts files (s, n, r) valid h =
      go (why all limits (age now ts) s.size s.count) refl
    where
      go :
          (w : Reason)
          → why all limits (age now ts) s.size s.count ≡ w
          → IsVisited v now limits files (purge_reason d file w (s, n, r)).0
      go keep e = keeps file ts files s valid (why-keep all (age now ts) s.size s.count e) h
      go purge_all e = removes file files s h
      go too_old e = removes file files s h
      go too_large e = removes file files s h
      go too_many e = removes file files s h

  by_time :
      (all : Bool) (file : Text) (o : Option ℤ) (files : List Text) (p : Purge d)
      → ts_of file ≡ o
      → IsVisited v now limits (file ∷ files) p.0
      → IsVisited v now limits files (purge_file d all now limits file o p).0
  unfolding purge_file
  by_time all file none files (s, n, r) e h = removes file files s h
  by_time all file (some ts) files (s, n, r) e h = by_reason all file ts files (s, n, r) e h

  pub purge_files-IsVisited :
      (all : Bool) (files : List Text) (p : Purge d)
      → IsVisited v now limits files p.0
      → IsVisited v now limits [] (purge_files d all now limits files p).0
  unfolding purge_files
  purge_files-IsVisited all [] p h = h
  purge_files-IsVisited all (file ∷ files) p h =
      purge_files-IsVisited all files (purge_file d all now limits file (ts_of file) p)
        (by_time all file (ts_of file) files p refl h)
