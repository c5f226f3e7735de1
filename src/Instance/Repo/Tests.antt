-- ===== src/Instance/Repo/Tests.antt =====
-- Runs of instance/repo.go.
use percona_agent.Prelude.{
  ℕ, String, ◌≡◌, refl, Bool, true, ◌||◌, none, some, List, [], ◌∷◌, arith, nat_key, string_key,
  lookup, insert,
}
use percona_agent.Instance.Repo.{
  Protocol, Name, name_key, mysql, Repo, new_repo, valid, get, replied, on_answer, on_added, add,
  decode, or_bad_json, on_decoded, complete, unopened, save, add_info, print_info, ok, init,
}
use percona_agent.Instance.Repo.Getting.{stored}
use percona_agent.Instance.Repo.Mirror.{IsMirror, Op, add_op, get_op, remove_op, run}
use percona_agent.Instance.Repo.Restart.{init-run}

abbrev external : String → Bool
external s = string_key.beq s "server" || string_key.beq s "mysql"

abbrev protocol : Protocol
protocol = record {
  external = external;
  Data = ℕ;
  Server = ℕ;
  Mysql = ℕ;
  parse_server = some;
  parse_mysql = some;
  print_server = λ n. n;
  print_mysql = λ n. n;
  parse-print_server = λ n. refl;
  parse-print_mysql = λ n. refl;
}

abbrev start : Repo protocol
start = new_repo protocol []

abbrev ops : List (Op protocol)
ops =
    add_op "mysql" 1 7 complete
    ∷ get_op "server" 2 (replied 200 (some 9)) unopened
    ∷ get_op "mysql" 3 (replied 500 none) complete
    ∷ add_op "mysql" 1 8 complete
    ∷ remove_op "mysql" 1 true
    ∷ []

start-IsMirror : IsMirror protocol start
unfolding lookup new_repo
start-IsMirror = record { same = λ n. refl; named = λ n info e. absurd cc; is_map = tt }

init-run_example :
    (q q' : Repo protocol) × (run protocol start ops ≡ some q)
    × (init protocol q.files ≡ (none, q'))
    × ((n : Name) → lookup n q'.it ≡ lookup n q.it)
init-run_example =
    init-run protocol start ops
      (
        (omega arith, tt),
        ((omega arith, tt), ((omega arith, tt), ((omega arith, tt), (omega arith, tt)))),
      )
      start-IsMirror

get_run :
    get protocol 2 start "mysql" 3 (replied 200 (some 7)) complete
    ≡ some (ok (mysql 7), stored protocol start ("mysql", 3) (mysql 7))
unfolding get valid new_repo lookup on_answer on_added add decode or_bad_json on_decoded add_info
    save insert print_info
get_run = refl
