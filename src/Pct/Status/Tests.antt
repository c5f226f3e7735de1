-- ===== src/Pct/Status/Tests.antt =====
-- Runs of pct/status.go.
use percona_agent.Prelude.{◌≡◌, refl, some, [], ◌∷◌, nat_key, string_key, lookup, insert}
use percona_agent.Pct.Status.{StatusMap, new_status, update, get, merge}
use percona_agent.Pct.Status.Laws.{latest, lookup-merge}

procs : StatusMap
procs = new_status ("log" ∷ "data" ∷ [])

unknown_run : get (update procs "mm" "Running") "mm" ≡ "ERROR: mm status not found"
unfolding procs new_status update get lookup insert
unknown_run = refl

abbrev own : StatusMap
own = ("data", "Idle") ∷ ("ws", "Connected") ∷ []

abbrev other : StatusMap
other = ("ws", "Closed") ∷ []

lookup-merge_example : lookup "ws" (merge own (other ∷ [])) ≡ some "Closed"
unfolding latest lookup
lookup-merge_example = lookup-merge "ws" own (other ∷ []) (refl, (refl, tt)) ((refl, tt), tt)
