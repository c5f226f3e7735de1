-- ===== src/Data/Spooler/Steps.antt =====
-- The operations of data/spooler.go in any order.
use percona_agent.Prelude.{
  suc, ◌+◌, ◌^◌, ◌<◌, ◌≡◌, refl, sym, ap, ◌∙◌, inl, inr, Bool, false, none, some, List, [], ◌∷◌,
  ◌++◌, arith, if◌then◌else◌, Bool-cases, length, length-append, sum_of, sum_of-append, lookup,
  lookup-insert,
}
use percona_agent.Prelude.{or_else}
use percona_agent.Prelude.Int.{ℤ}
use percona_agent.Prelude.Text.{Text, text_key}
use percona_agent.Data.Spooler.{
  Bytes, Diskv, DataSpoolLimits, Spooler, key_of, bytes_of, spool, read, remove, purge,
}
use percona_agent.Data.Spooler.Erasing.{Healthy, total, IsAccurate, remove-IsAccurate}
use percona_agent.Data.Spooler.Within.{purge-IsWithin}

lookup-append :
    (k : Text) (xs ys : List (Text × Bytes))
    → lookup k (xs ++ ys) ≡ or_else (lookup k xs) (lookup k ys)
unfolding lookup
lookup-append k [] ys = refl
lookup-append k ((j, c) ∷ xs) ys = elim (Bool-cases (text_key.beq j k)) [
  | inl t ↦ rw (t, lookup) refl
  | inr t ↦ rw (t, lookup) (lookup-append k xs ys)
]

-- A new entry between others.
length-between :
    (k : Text) (b : Bytes) (xs ys : List (Text × Bytes))
    → length (xs ++ (k, b) ∷ ys) ≡ suc (length (xs ++ ys))
length-between k b xs ys = omega (arith, length-append xs ((k, b) ∷ ys), length-append xs ys)

total-between :
    (k : Text) (b : Bytes) (xs ys : List (Text × Bytes))
    → total (xs ++ (k, b) ∷ ys) ≡ total (xs ++ ys) + length b
unfolding sum_of
total-between k b xs ys = omega (
  arith,
  sum_of-append (λ (e : Text × Bytes). length e.1) xs ((k, b) ∷ ys),
  sum_of-append (λ (e : Text × Bytes). length e.1) xs ys,
)

lookup-between :
    (k j : Text) (b : Bytes) (xs ys : List (Text × Bytes))
    → text_key.beq k j ≡ false
    → lookup j (xs ++ (k, b) ∷ ys) ≡ lookup j (xs ++ ys)
unfolding lookup
lookup-between k j b xs ys h =
    ground (arith, lookup-append j xs ((k, b) ∷ ys), lookup-append j xs ys)

module _ {C : Type 0} (d : Diskv C) (v : Healthy d) where
  -- One operation on the spool. A file is written under a new name, its size is not known from an
  -- earlier file of that name, and no counter overflows; a file is removed that is there.
  pub data SpoolStep : Spooler C → Spooler C → Type 0 where
    spooled :
        (s : Spooler C) (service : Text) (ts : ℤ) (b : Bytes)
        → lookup (key_of service ts) (v.files s.cache) ≡ none
        → lookup (key_of service ts) s.file_size ≡ none
        → suc (length (v.files s.cache)) < 2 ^ 64
        → total (v.files s.cache) + length b < 2 ^ 64
        → SpoolStep s (spool d s service ts (some b))
    was_read : (s : Spooler C) (file : Text) → SpoolStep s (read d file s).1
    was_removed :
        (s : Spooler C) (file : Text) (b : Bytes)
        → lookup file (v.files s.cache) ≡ some b
        → SpoolStep s (remove d file s).1
    was_purged :
        (s : Spooler C) (now later : ℤ) (limits : DataSpoolLimits)
        → SpoolStep s (purge d now later limits s).0

  pub data SpoolSteps : Spooler C → Spooler C → Type 0 where
    stop : (s : Spooler C) → SpoolSteps s s
    next : (s t u : Spooler C) → SpoolStep s t → SpoolSteps t u → SpoolSteps s u

  spool-IsAccurate :
      (s : Spooler C) (service : Text) (ts : ℤ) (b : Bytes)
      → lookup (key_of service ts) (v.files s.cache) ≡ none
      → lookup (key_of service ts) s.file_size ≡ none
      → suc (length (v.files s.cache)) < 2 ^ 64
      → total (v.files s.cache) + length b < 2 ^ 64
      → IsAccurate v s
      → IsAccurate v (spool d s service ts (some b))
  unfolding spool
  spool-IsAccurate s service ts b new unsized few small h =
      let k = key_of service ts in
      let (xs, ys, before, after) = v.write_lem k b s.cache new in
      let n1 =
        ap length after ∙ length-between k b xs ys ∙ ap (λ fs. suc (length fs)) (sym before) in
      let n2 =
        ap total after ∙ total-between k b xs ys ∙ ap (λ fs. total fs + length b) (sym before) in
      record {
        count_eq = omega (arith, n1, few, h.count_eq);
        size_eq = omega (arith, n2, small, h.size_eq);
        count_fits = omega (arith, n1, few);
        size_fits = omega (arith, n2, small);
        cached = λ j n c en ec. elim (Bool-cases (text_key.beq k j)) [
          | inl t ↦ absurd (ground (arith, text_key.beq_iff k j))
          | inr t ↦ h.cached j n c en (
              ap (lookup j) before
              ∙ sym (lookup-between k j b xs ys t)
              ∙ ap (lookup j) (sym after)
              ∙ ec)
        ];
      }

  read-IsAccurate : (s : Spooler C) (file : Text) → IsAccurate v s → IsAccurate v (read d file s).1
  unfolding read bytes_of
  read-IsAccurate s file h = record {
    count_eq = h.count_eq;
    size_eq = h.size_eq;
    count_fits = h.count_fits;
    size_fits = h.size_fits;
    cached = λ k n c en ec. elim (Bool-cases (text_key.beq file k)) [
      | inl t ↦ ground (
        arith,
        text_key.beq_iff file k,
        lookup-insert file k (bytes_of d (d.read file s.cache)) s.file_size,
        v.read_lem file s.cache,
      )
      | inr t ↦
          h.cached k n c
            (sym (
                ap
                  (λ (b : Bool).
                    if b then some (bytes_of d (d.read file s.cache)) else lookup k s.file_size)
                  t)
              ∙ sym (lookup-insert file k (bytes_of d (d.read file s.cache)) s.file_size)
              ∙ en)
            ec
    ];
  }

  step-IsAccurate : (s t : Spooler C) → SpoolStep s t → IsAccurate v s → IsAccurate v t
  step-IsAccurate _ _ (spooled s service ts b new unsized few small) h =
      spool-IsAccurate s service ts b new unsized few small h
  step-IsAccurate _ _ (was_read s file) h = read-IsAccurate s file h
  step-IsAccurate _ _ (was_removed s file b e) h = remove-IsAccurate d v file b s h e
  step-IsAccurate _ _ (was_purged s now later limits) h =
      (purge-IsWithin d v now limits later s h).1

  -- On a healthy disk, where every write and every erasure works: if the counters of the spooler equal
  -- the number and the bytes of the files in the directory, and the sizes that it knows those of the
  -- files, they do so after writes, reads, removals of files that are there and purges, in any order.
  -- The writes are under new names, of which no size is known, and the numbers of files and of bytes
  -- are and stay below 2^64.
  pub steps-IsAccurate : (s t : Spooler C) → SpoolSteps s t → IsAccurate v s → IsAccurate v t
  steps-IsAccurate _ _ (stop s) h = h
  steps-IsAccurate _ _ (next s t u first rest) h =
      steps-IsAccurate t u rest (step-IsAccurate s t first h)
