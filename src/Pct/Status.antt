-- ===== src/Pct/Status.antt =====
-- pct/status.go: the status texts of the procs of a service. The mutex makes each method atomic.
pub mod Laws
mod Tests
use Prim.Native.String.{◌++◌ as str_append}
use percona_agent.Prelude.{
  ℕ, String, List, [], ◌∷◌, Option, none, some, lookup, insert, insert_all, string_key,
}

-- A map of Go from proc to text.
abbrev pub StatusMap : Type 0
StatusMap = List (String × String)

pub new_status : List String → StatusMap
new_status [] = []
new_status (p ∷ ps) = insert p "" (new_status ps)

pub update : StatusMap → String → String → StatusMap
update s proc text = elim (lookup proc s) [ none ↦ s | some _ ↦ insert proc text s ]

-- `cmd` is the command as fmt prints it.
pub update_re : StatusMap → String → String → String → StatusMap
update_re s proc text cmd = elim (lookup proc s) [
  | none ↦ s
  | some _ ↦ insert proc (str_append text (str_append " " cmd)) s
]

pub get : StatusMap → String → String
get s proc = elim (lookup proc s) [
  | none ↦ str_append "ERROR: " (str_append proc " status not found")
  | some text ↦ text
]

-- All copies the map entry by entry.
pub all : StatusMap → StatusMap
all s = insert_all s []

pub merge_into : StatusMap → List StatusMap → StatusMap
merge_into status [] = status
merge_into status (other ∷ others) = merge_into (insert_all other status) others

pub merge : StatusMap → List StatusMap → StatusMap
unfolding merge_into all
merge s others = merge_into (all s) others
