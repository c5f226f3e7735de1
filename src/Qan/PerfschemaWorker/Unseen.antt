-- ===== src/Qan/PerfschemaWorker/Unseen.antt =====
-- What qan/perfschema/worker.go does with a row that was not in the last snapshot.
use percona_agent.Prelude.{
  ℕ, ◌+◌, String, ◌≡◌, refl, ap, ◌∙◌, false, Option, none, some, List, [], ◌∷◌, ◌++◌, arith, ◌==◌,
  nat_key, string_key, lookup,
}
use percona_agent.Qan.PerfschemaWorker.{
  Counter, DigestRow, Class, no_rows, add_row, add_rows, finish, rows_of, class_total,
}

add_rows-append :
    (prev rows more : List (String × DigestRow)) (q : DigestRow × ℕ)
    → add_rows prev q (rows ++ more) ≡ add_rows prev (add_rows prev q rows) more
unfolding add_rows
add_rows-append prev [] more q = refl
add_rows-append prev ((schema, row) ∷ rows) more q =
    add_rows-append prev rows more (add_row q row (lookup schema prev))

-- A new row takes the place of the aggregate.
add_row-new :
    (q : DigestRow × ℕ) (row : DigestRow)
    → (t : DigestRow) × (finish (add_row q row none) ≡ some t)
      × ((c : Counter) → t.counters c ≡ row.counters c)
unfolding add_row finish
add_row-new (d, n) row =
    let pos : (n + 1 == 0) ≡ false = ground arith in rw pos (_, refl, λ c. refl)

-- If the last row of a class that is visited was not in the last snapshot, the counters of the class
-- in the result are those of that row alone, whatever the rows before it, of other schemas, did.
pub class_total-unseen :
    (prev : Option Class) (text schema : String) (rows : List (String × DigestRow))
    (row : DigestRow)
    → lookup schema (rows_of prev) ≡ none
    → (t : DigestRow) × (class_total prev
          (record { digest_text = text; rows = rows ++ (schema, row) ∷ [] })
        ≡ some t)
      × ((c : Counter) → t.counters c ≡ row.counters c)
unfolding class_total add_rows
class_total-unseen prev text schema rows row e =
    let q = add_rows (rows_of prev) no_rows rows in
    let (t, same, kept) = add_row-new q row in
    (
      t,
      ap finish (
            add_rows-append (rows_of prev) rows ((schema, row) ∷ []) no_rows ∙ ap (add_row q row) e)
          ∙ same,
      kept,
    )
