-- ===== src/Instance/Repo/Mirror.antt =====
-- The files of instance/repo.go mirror its memory, and a new start reads it back from them.
use mathlib.Core.Option
use percona_agent.Prelude.{
  ℕ, ◌^◌, ◌<◌, String, ◌≡◌, refl, sym, subst, ◌⊎◌, inl, inr, Bool, true, ◌&&◌, Option, some, List,
  [], ◌∷◌, ◌>>=◌, arith, Bool-cases, Option-cases, All, nat_key, string_key, lookup, erase,
  lookup-insert, lookup-erase,
}
use percona_agent.Prelude.{IsMap, insert-IsMap, erase-IsMap}
use percona_agent.Instance.Repo.{
  Error, Protocol, Name, name_eq_iff, name_key, is_some, Info, server, mysql, Repo, valid,
  or_bad_json, decode, print_info, Writing, complete, unopened, broken, save, add_info, on_decoded,
  add, add_valid, Answer, Reply, ok, error, get, remove,
}
use percona_agent.Instance.Repo.Getting.{stored, Outcome, get_ends}

module _ (p : Protocol) where
  open p use {Data, Server, Mysql}

  decode-print :
      (service : String) (d : Data) (info : Info p)
      → decode p service d ≡ inr info
      → decode p service (print_info p info) ≡ inr info
  unfolding decode print_info or_bad_json
  decode-print service d (server s) e = ground (arith, p.parse-print_server s)
  decode-print service d (mysql m) e = ground (arith, p.parse-print_mysql m)

  -- An instance that a file of this name can hold.
  pub record IsNamed (n : Name) (info : Info p) : Type 0 where
    pub is_valid : valid p n.0 n.1 ≡ true
    pub small : n.1 < 2 ^ 32
    pub decodes : decode p n.0 (print_info p info) ≡ inr info

  -- The files are those of the instances in memory.
  pub record IsMirror (r : Repo p) : Type 0 where
    pub same : (n : Name) → lookup n r.files ≡ Option.map (print_info p) (lookup n r.it)
    pub named : (n : Name) (info : Info p) → lookup n r.it ≡ some info → IsNamed n info
    pub is_map : IsMap r.files

  insert-IsMirror :
      (r : Repo p) (n : Name) (info : Info p)
      → IsMirror r
      → IsNamed n info
      → IsMirror (stored p r n info)
  insert-IsMirror r n info h k = record {
    same = λ m. ground (
      arith,
      lookup-insert n m info r.it,
      lookup-insert n m (print_info p info) r.files,
      h.same m,
    );
    named = λ m other e.
        ground (arith, lookup-insert n m info r.it, name_eq_iff n m, h.named m other, k);
    is_map = insert-IsMap n (print_info p info) r.files h.is_map;
  }

  erase-IsMirror :
      (r : Repo p) (n : Name)
      → IsMirror r
      → IsMirror (record r { it = erase n r.it; files = erase n r.files })
  erase-IsMirror r n h = record {
    same = λ m. ground (arith, lookup-erase n m r.it, lookup-erase n m r.files, h.same m);
    named = λ m other e. ground (arith, lookup-erase n m r.it, h.named m other);
    is_map = erase-IsMap n r.files h.is_map;
  }

  -- The write does not break off.
  abbrev pub IsWhole : Writing p → Type 0
  IsWhole complete = Unit
  IsWhole unopened = Unit
  IsWhole (broken d) = ⊥

  add_info-IsMirror :
      (r : Repo p) (n : Name) (info : Info p) (writes : Writing p)
      → IsWhole writes
      → IsMirror r
      → IsNamed n info
      → IsMirror (add_info p r n info true writes).1
  unfolding add_info save
  add_info-IsMirror r n info writes whole h k = elim (Option-cases (lookup n r.it)) [
    | inl e ↦ rw (e, add_info) (by_write writes whole)
    | inr (old, e) ↦ rw (e, add_info) h
  ]
    where
      by_write : (w : Writing p) → IsWhole w → IsMirror (save p r n info w).1
      by_write complete x = insert-IsMirror r n info h k
      by_write unopened x = h
      by_write (broken d) x = elim x [ ]

  add-IsMirror :
      (r : Repo p) (service : String) (id : ℕ) (d : Data) (writes : Writing p)
      → IsWhole writes
      → id < 2 ^ 32
      → valid p service id ≡ true
      → IsMirror r
      → IsMirror (add p r service id d true writes).1
  unfolding add on_decoded
  add-IsMirror r service id d writes whole small is_valid h = by_decoded (decode p service d) refl
    where
      by_decoded :
          (o : Error ⊎ Info p)
          → decode p service d ≡ o
          → IsMirror (on_decoded p r (service, id) o true writes).1
      by_decoded (inl e) same = h
      by_decoded (inr info) same =
          add_info-IsMirror r (service, id) info writes whole h
            (record {
              is_valid = is_valid;
              small = small;
              decodes = decode-print service d info same;
            })

  Outcome-IsMirror :
      (r : Repo p) (n : Name) (w : Writing p) (q : Reply p × Repo p)
      → IsWhole w
      → n.1 < 2 ^ 32
      → IsMirror r
      → Outcome p r n w q
      → IsMirror q.1
  Outcome-IsMirror r n w (ok info, q) whole small h (inl (e, same)) = subst IsMirror (sym same) h
  Outcome-IsMirror r n w (ok info, q) whole small h (inr (d, is_valid, e, same, f)) =
      subst IsMirror (sym f) (
        insert-IsMirror r n info h
          (record { is_valid = is_valid; small = small; decodes = decode-print n.0 d info same }))
  Outcome-IsMirror r n w (error e, q) whole small h (inl same) = subst IsMirror (sym same) h
  Outcome-IsMirror r n w (error e, q) whole small h (inr (d, same, new, rest)) =
      let no_part : IsWhole (broken d) = subst IsWhole same whole in elim no_part [ ]

  remove-IsMirror :
      (r : Repo p) (service : String) (id : ℕ) (removes : Bool)
      → IsMirror r
      → IsMirror (remove p r service id removes).1
  unfolding remove
  remove-IsMirror r service id removes h =
      let name : Name = (service, id) in
      elim (Bool-cases (valid p service id)) [
        | inl good ↦ elim (Bool-cases (is_some (lookup name r.it))) [
          | inl e ↦ elim (Bool-cases (removes && is_some (lookup name r.files))) [
            | inl f ↦ rw (good, e, f, remove) (erase-IsMirror r name h)
            | inr f ↦ rw (good, e, f, remove) h
          ]
          | inr e ↦ rw (good, e, remove) h
        ]
        | inr bad ↦ rw (bad, remove) h
      ]

  -- What the instance manager calls.
  pub data Op : Type 0 where
    add_op : String → ℕ → Data → Writing p → Op
    get_op : String → ℕ → Answer p → Writing p → Op
    remove_op : String → ℕ → Bool → Op

  pub step : Repo p → Op → Option (Repo p)
  step r (add_op service id d writes) = some (add_valid p r service id d true writes).1
  step r (get_op service id answer writes) =
      Option.map (λ q. q.1) (get p 2 r service id answer writes)
  step r (remove_op service id removes) = some (remove p r service id removes).1

  pub run : Repo p → List Op → Option (Repo p)
  run r [] = some r
  run r (op ∷ ops) = do q ← step r op; run q ops

  -- The id has 32 bits, and the write does not break off.
  abbrev pub IsSafe : Op → Type 0
  IsSafe (add_op service id d writes) = (id < 2 ^ 32) × IsWhole writes
  IsSafe (get_op service id answer writes) = (id < 2 ^ 32) × IsWhole writes
  IsSafe (remove_op service id removes) = id < 2 ^ 32

  step-IsMirror :
      (r : Repo p) (op : Op)
      → IsSafe op
      → IsMirror r
      → (q : Repo p) × (step r op ≡ some q) × IsMirror q
  unfolding step add_valid
  step-IsMirror r (add_op service id d writes) (small, whole) h = (
    _,
    refl,
    elim (Bool-cases (valid p service id)) [
      | inl good ↦ rw good (add-IsMirror r service id d writes whole small good h)
      | inr bad ↦ rw bad h
    ],
  )
  step-IsMirror r (get_op service id answer writes) (small, whole) h =
      let (q, same, outcome) = get_ends p r (service, id) answer writes in
      rw same (q.1, refl, Outcome-IsMirror r (service, id) writes q whole small h outcome)
  step-IsMirror r (remove_op service id removes) small h =
      (_, refl, remove-IsMirror r service id removes h)

  pub run-IsMirror :
      (r : Repo p) (ops : List Op)
      → All IsSafe ops
      → IsMirror r
      → (q : Repo p) × (run r ops ≡ some q) × IsMirror q
  unfolding run
  run-IsMirror r [] small h = (r, refl, h)
  run-IsMirror r (op ∷ ops) small h =
      let (q, same, good) = step-IsMirror r op small.0 h in
      let (q', same', good') = run-IsMirror q ops small.1 good in (q', rw same same', good')
