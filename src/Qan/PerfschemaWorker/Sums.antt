-- ===== src/Qan/PerfschemaWorker/Sums.antt =====
-- The totals of qan/perfschema/worker.go for rows that were there before.
use percona_agent.Prelude.{
  ℕ, ◌+◌, ◌-◌, ◌≤◌, ◌<◌, String, ◌≡◌, refl, ap, ◌∙◌, inl, inr, Bool, true, false, not, Option, some,
  List, [], ◌∷◌, arith, ◌==◌, if◌then◌else◌, Bool-cases, nat_key, string_key, lookup,
}
use percona_agent.Qan.PerfschemaWorker.{
  Counter, count_star, DigestRow, Class, word, add_word, sub_word, no_rows, add_diff, add_row,
  add_rows, finish, rows_of, class_total,
}

abbrev pub ran : DigestRow → DigestRow → Bool
ran row old = not (row.counters count_star == old.counters count_star)

-- How far a counter went up, in the rows that ran in the interval, and how many they are. The rows
-- stand next to those of the last snapshot.
unfoldable pub increases : Counter → List (String × DigestRow) → List DigestRow → ℕ
increases c [] olds = 0
increases c (row ∷ rows) [] = 0
increases c ((schema, row) ∷ rows) (old ∷ olds) =
    (if ran row old then row.counters c - old.counters c else 0) + increases c rows olds

unfoldable pub runs : List (String × DigestRow) → List DigestRow → ℕ
runs [] olds = 0
runs (row ∷ rows) [] = 0
runs ((schema, row) ∷ rows) (old ∷ olds) = (if ran row old then 1 else 0) + runs rows olds

-- Each row was in the last snapshot, in which its counters were no higher.
abbrev pub AreSeen : List (String × DigestRow) → List (String × DigestRow) → List DigestRow → Type 0
AreSeen prev [] olds = Unit
AreSeen prev (row ∷ rows) [] = ⊥
AreSeen prev ((schema, row) ∷ rows) (old ∷ olds) =
    (lookup schema prev ≡ some old)
    × ((c : Counter) → (old.counters c ≤ row.counters c) × (row.counters c < word))
    × AreSeen prev rows olds

add_word-sub_word :
    (d a b : ℕ) → b ≤ a → a < word → d + (a - b) < word → add_word d (sub_word a b) ≡ d + (a - b)
unfolding add_word sub_word
add_word-sub_word d a b h k l = omega (arith, h, k, l)

add_diff-counter :
    (d row old : DigestRow) (c : Counter)
    → (add_diff d row old).counters c
      ≡ add_word (d.counters c) (sub_word (row.counters c) (old.counters c))
unfolding add_diff
add_diff-counter d row old c = refl

add_row-same :
    (d row old : DigestRow) (n : ℕ)
    → (row.counters count_star == old.counters count_star) ≡ true
    → add_row (d, n) row (some old) ≡ (d, n)
unfolding add_row
add_row-same d row old n t = rw t refl

add_row-ran :
    (d row old : DigestRow) (n : ℕ)
    → (row.counters count_star == old.counters count_star) ≡ false
    → add_row (d, n) row (some old) ≡ (add_diff d row old, n + 1)
unfolding add_row
add_row-ran d row old n f = rw f refl

-- What the first row makes of the aggregate of a class.
add_rows-cons :
    (prev rows : List (String × DigestRow)) (schema : String) (row old : DigestRow)
    (d q : DigestRow × ℕ)
    → lookup schema prev ≡ some old
    → add_row d row (some old) ≡ q
    → add_rows prev d ((schema, row) ∷ rows) ≡ add_rows prev q rows
unfolding add_rows
add_rows-cons prev rows schema row old d q e same =
    ap (λ o. add_rows prev (add_row d row o) rows) e ∙ ap (λ x. add_rows prev x rows) same

add_rows-counter :
    (prev rows : List (String × DigestRow)) (olds : List DigestRow) (d : DigestRow) (n : ℕ)
    (c : Counter)
    → AreSeen prev rows olds
    → d.counters c + increases c rows olds < word
    → (add_rows prev (d, n) rows).0.counters c ≡ d.counters c + increases c rows olds
unfolding add_rows increases
add_rows-counter prev [] olds d n c h k = omega arith
add_rows-counter prev (row ∷ rows) [] d n c h k = absurd h
add_rows-counter prev ((schema, row) ∷ rows) (old ∷ olds) d n c (e, up, rest) k =
    elim (Bool-cases (row.counters count_star == old.counters count_star)) [
      | inl t ↦
          ap (λ q. q.0.counters c)
            (add_rows-cons prev rows schema row old (d, n) (d, n) e (add_row-same d row old n t))
          ∙ add_rows-counter prev rows olds d n c rest (ground (arith, k))
          ∙ ground arith
      | inr f ↦
          let total : d.counters c + (row.counters c - old.counters c) + increases c rows olds
              < word =
            ground (arith, k) in
          let sum =
            add_word-sub_word (d.counters c) (row.counters c) (old.counters c) (up c).0 (up c).1
              (omega (arith, total)) in
          let counter = add_diff-counter d row old c in
          ap (λ q. q.0.counters c)
            (add_rows-cons prev rows schema row old (d, n) (add_diff d row old, n + 1) e
              (add_row-ran d row old n f))
          ∙ add_rows-counter prev rows olds (add_diff d row old) (n + 1) c rest
              (omega (arith, counter, sum, total))
          ∙ ground (arith, counter, sum)
    ]

add_rows-count :
    (prev rows : List (String × DigestRow)) (olds : List DigestRow) (d : DigestRow) (n : ℕ)
    → AreSeen prev rows olds
    → (add_rows prev (d, n) rows).1 ≡ n + runs rows olds
unfolding add_rows runs
add_rows-count prev [] olds d n h = omega arith
add_rows-count prev (row ∷ rows) [] d n h = absurd h
add_rows-count prev ((schema, row) ∷ rows) (old ∷ olds) d n (e, up, rest) =
    elim (Bool-cases (row.counters count_star == old.counters count_star)) [
      | inl t ↦
          ap (λ q. q.1)
            (add_rows-cons prev rows schema row old (d, n) (d, n) e (add_row-same d row old n t))
          ∙ add_rows-count prev rows olds d n rest
          ∙ ground arith
      | inr f ↦
          ap (λ q. q.1)
            (add_rows-cons prev rows schema row old (d, n) (add_diff d row old, n + 1) e
              (add_row-ran d row old n f))
          ∙ add_rows-count prev rows olds (add_diff d row old) (n + 1) rest
          ∙ ground arith
    ]

finish-pos :
    (q : DigestRow × ℕ)
    → 0 < q.1
    → (t : DigestRow) × (finish q ≡ some t) × ((c : Counter) → t.counters c ≡ q.0.counters c)
unfolding finish
finish-pos (d, n) h = let pos : (n == 0) ≡ false = ground (arith, h) in rw pos (_, refl, λ c. refl)

-- If all rows of a class were in the last snapshot, with counters no higher than now, which all
-- fit 64 bits, and one of
-- them ran since, the class is in the result, and each of its counters is the sum over its rows
-- that ran of how far the counter went up, where that sum fits 64 bits.
pub class_total-seen :
    (prev : Option Class) (class : Class) (olds : List DigestRow)
    → AreSeen (rows_of prev) class.rows olds
    → 0 < runs class.rows olds
    → (t : DigestRow) × (class_total prev class ≡ some t)
      × ((c : Counter)
          → increases c class.rows olds < word
          → t.counters c ≡ increases c class.rows olds)
unfolding class_total
class_total-seen prev class olds h ran_some =
    let q = add_rows (rows_of prev) no_rows class.rows in
    let count = add_rows-count (rows_of prev) class.rows olds no_rows.0 0 h in
    let (t, same, kept) = finish-pos q (omega (arith, count, ran_some)) in
    (
      t,
      same,
      λ c fits.
          kept c
          ∙ add_rows-counter (rows_of prev) class.rows olds no_rows.0 0 c h (omega (arith, fits))
          ∙ omega arith,
    )
