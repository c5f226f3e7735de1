-- ===== src/Instance/Repo.antt =====
-- instance/repo.go: the service instances, in memory and in files of the configuration directory.
-- A name stands for its two parts, which Name joins by a dash; an id is all digits, so they can be
-- told apart. A name of a file is one that Name gives. A write that fails
-- either opens no file or leaves whatever it has written until then; a removal that fails changes no
-- file. The protocol package (its list of services, its types of instances and their JSON) is a
-- parameter.
pub mod Mirror
pub mod Getting
pub mod Restart
mod Tests
use percona_agent.Prelude.{
  ℕ, zero, suc, ◌+◌, ◌-◌, ◌*◌, ◌/◌, ◌%◌, ◌^◌, ◌≤◌, ◌<◌, min, String, ◌≡◌, refl, sym, ap, ◌∙◌, subst,
  ◌≢◌, ◌↔◌, ◌⊎◌, inl, inr, Bool, true, false, not, ◌&&◌, ◌||◌, Option, none, some, List, [], ◌∷◌,
  ◌++◌, ◌>>=◌, map, arith, ltb, leb, ◌==◌, if◌then◌else◌, tests, Bool-cases, Option-cases, length,
  get_elem?, get_or, set, take, drop, replicate, All, length-append, length-set, length-take,
  length-replicate, take-append-drop, All-append, sum_of, sum_of-append, Eq, nat_key, string_key,
  lookup, insert, erase, lookup-insert, lookup-erase,
}

pub data Error : Type 0 where
  invalid : String → ℕ → Error
  duplicate : String → ℕ → Error
  unknown : String → ℕ → Error
  bad_service : String → Error
  bad_json : Error
  bad_id : ℕ → Error
  io : Error
  api : Error

-- JSON comes back from a file as it went in.
pub record Protocol : Type 1 where
  pub external : String → Bool
  pub Data : Type 0
  pub Server : Type 0
  pub Mysql : Type 0
  pub parse_server : Data → Option Server
  pub parse_mysql : Data → Option Mysql
  pub print_server : Server → Data
  pub print_mysql : Mysql → Data
  pub parse-print_server : (s : Server) → parse_server (print_server s) ≡ some s
  pub parse-print_mysql : (m : Mysql) → parse_mysql (print_mysql m) ≡ some m

abbrev pub Name : Type 0
Name = String × ℕ

abbrev pub name_eq : Name → Name → Bool
name_eq a b = string_key.beq a.0 b.0 && a.1 == b.1

pub name_eq_iff : (a b : Name) → (name_eq a b ≡ true) ↔ (a ≡ b)
name_eq_iff (s, i) (t, j) = (
  λ h.
      let same : s ≡ t = ground (arith, string_key.beq_iff s t) in
      let same' : i ≡ j = ground arith in cc,
  λ e. ground (arith, string_key.beq_iff s t, ap (λ n. n.0) e, ap (λ n. n.1) e),
)

instance abbrev pub name_key : Eq Name
name_key = record { beq = name_eq; beq_iff = name_eq_iff }

abbrev pub is_some {ℓ} : {A : Type ℓ} → Option A → Bool
is_some none = false
is_some (some a) = true

module _ (p : Protocol) where
  open p use {external, Data, Server, Mysql, parse_server, parse_mysql, print_server, print_mysql}

  pub data Info : Type 0 where
    server : Server → Info
    mysql : Mysql → Info

  pub record Repo : Type 0 where
    pub it : List (Name × Info)
    pub files : List (Name × Data)

  unfoldable pub new_repo : List (Name × Data) → Repo
  new_repo files = record { it = []; files = files }

  unfoldable pub valid : String → ℕ → Bool
  valid service id = external service && not (id == 0)

  pub or_bad_json {ℓ} : {A : Type ℓ} → (A → Info) → Option A → Error ⊎ Info
  or_bad_json f none = inl bad_json
  or_bad_json f (some a) = inr (f a)

  -- The switch on the service.
  pub decode : String → Data → Error ⊎ Info
  decode service body =
      if string_key.beq service "server"
      then or_bad_json server (parse_server body)
      else if string_key.beq service "mysql"
      then or_bad_json mysql (parse_mysql body)
      else inl (bad_service service)

  -- What WriteConfig puts into the file.
  pub print_info : Info → Data
  print_info (server s) = print_server s
  print_info (mysql m) = print_mysql m

  -- How WriteConfig ends: without an error, without a file, or with a part of it.
  pub data Writing : Type 0 where
    complete : Writing
    unopened : Writing
    broken : Data → Writing

  pub save : Repo → Name → Info → Writing → Option Error × Repo
  save r name info complete =
      (none, record r { it = insert name info r.it; files = insert name (print_info info) r.files })
  save r name info unopened = (some io, r)
  save r name info (broken d) = (some io, record r { files = insert name d r.files })

  pub add_info : Repo → Name → Info → Bool → Writing → Option Error × Repo
  add_info r name info write_to_disk writes = elim (lookup name r.it) [
    | some old ↦ (some (duplicate name.0 name.1), r)
    | none ↦
        if not write_to_disk
        then (none, record r { it = insert name info r.it })
        else save r name info writes
  ]

  pub on_decoded : Repo → Name → Error ⊎ Info → Bool → Writing → Option Error × Repo
  on_decoded r name (inl e) write_to_disk writes = (some e, r)
  on_decoded r name (inr info) write_to_disk writes = add_info r name info write_to_disk writes

  -- The method add, and how a write to the disk would end.
  pub add : Repo → String → ℕ → Data → Bool → Writing → Option Error × Repo
  add r service id body write_to_disk writes =
      on_decoded r (service, id) (decode service body) write_to_disk writes

  -- The method Add.
  pub add_valid : Repo → String → ℕ → Data → Bool → Writing → Option Error × Repo
  add_valid r service id body write_to_disk writes =
      if valid service id
      then add r service id body write_to_disk writes
      else (some (invalid service id), r)

  -- What the API answers.
  pub data Answer : Type 0 where
    no_link : Answer
    failed : Answer
    replied : ℕ → Option Data → Answer

  pub data Reply : Type 0 where
    ok : Info → Reply
    error : Error → Reply

  pub on_added : (Repo → Option (Reply × Repo)) → Option Error × Repo → Option (Reply × Repo)
  on_added again (some e, r) = some (error e, r)
  on_added again (none, r) = again r

  -- The name is not known: ask the API, save its instance and get again.
  pub on_answer :
      (Repo → Option (Reply × Repo)) → Repo → Name → Answer → Writing → Option (Reply × Repo)
  on_answer again r name no_link writes = some (error (unknown name.0 name.1), r)
  on_answer again r name failed writes = some (error api, r)
  on_answer again r name (replied code none) writes = some (error api, r)
  on_answer again r name (replied code (some body)) writes =
      if code == 200
      then on_added again (add r name.0 name.1 body true writes)
      else some (error api, r)

  -- The method get, on fuel; `none` if the fuel runs out.
  pub get : ℕ → Repo → String → ℕ → Answer → Writing → Option (Reply × Repo)
  get zero r service id answer writes = none
  get (suc fuel) r service id answer writes =
      if not (valid service id)
      then some (error (invalid service id), r)
      else elim (lookup (service, id) r.it) [
        | some info ↦ some (ok info, r)
        | none ↦
            on_answer (λ r'. get fuel r' service id answer writes) r (service, id) answer writes
      ]

  -- The method Remove, and whether os.Remove works for a file that is there.
  pub remove : Repo → String → ℕ → Bool → Option Error × Repo
  remove r service id removes =
      let name : Name = (service, id) in
      if not (valid service id)
      then (some (invalid service id), r)
      else if not (is_some (lookup name r.it))
      then (some (unknown service id), r)
      else if removes && is_some (lookup name r.files)
      then (none, record r { it = erase name r.it; files = erase name r.files })
      else (some io, r)

  -- A file of loadInstances, whose id is parsed as 32 bits.
  pub load_file : Repo → Name → Data → Option Error × Repo
  load_file r (service, id) body =
      if not (ltb id (2 ^ 32))
      then (some (bad_id id), r)
      else if not (valid service id)
      then (some (invalid service id), r)
      else add_valid r service id body false complete

  -- An error ends the loop.
  pub on_loaded : (Repo → Option Error × Repo) → Option Error × Repo → Option Error × Repo
  on_loaded again (some e, r) = (some e, r)
  on_loaded again (none, r) = again r

  pub load_files : Repo → List (Name × Data) → Option Error × Repo
  load_files r [] = (none, r)
  load_files r ((name, body) ∷ files) =
      on_loaded (λ r'. load_files r' files) (load_file r name body)

  -- Init on the files of a directory.
  pub init : List (Name × Data) → Option Error × Repo
  init files = load_files (new_repo files) files
