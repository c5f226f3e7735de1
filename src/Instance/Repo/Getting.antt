-- ===== src/Instance/Repo/Getting.antt =====
-- What Get of instance/repo.go answers, and what it leaves.
use percona_agent.Prelude.{
  ℕ, suc, ◌≡◌, refl, ap, ◌∙◌, subst, ◌⊎◌, inl, inr, true, Option, none, some, arith, ◌==◌,
  Bool-cases, Option-cases, nat_key, string_key, lookup, insert, lookup-insert,
}
use percona_agent.Instance.Repo.{
  Error, io, Protocol, Name, name_eq_iff, name_key, Info, Repo, valid, decode, print_info, Writing,
  complete, unopened, broken, save, add_info, on_decoded, add, Answer, no_link, failed, replied,
  Reply, ok, error, on_added, on_answer, get,
}

module _ (p : Protocol) where
  open p use {Data}

  -- The repository with an instance of the API saved.
  abbrev pub stored : Repo p → Name → Info p → Repo p
  stored r n info = record r {
    it = insert n info r.it;
    files = insert n (print_info p info) r.files;
  }

  -- The reply and the repository after a get of this name: an instance that was known, with nothing
  -- changed; or one from the API, then saved; or an error, with nothing changed but the file of a
  -- write that broke off.
  abbrev pub Outcome : Repo p → Name → Writing p → Reply p × Repo p → Type 0
  Outcome r n w (ok info, q) =
      ((lookup n r.it ≡ some info) × (q ≡ r))
      ⊎ ((d : Data) × (valid p n.0 n.1 ≡ true)
          × (lookup n r.it ≡ none)
          × (decode p n.0 d ≡ inr info)
          × (q ≡ stored r n info))
  Outcome r n w (error e, q) =
      (q ≡ r)
      ⊎ ((d : Data) × (w ≡ broken d)
          × (lookup n r.it ≡ none)
          × (q ≡ record r { files = insert n d r.files }))

  abbrev Finds : Repo p → Name → Writing p → Option (Reply p × Repo p) → Type 0
  Finds r n w o = (q : Reply p × Repo p) × (o ≡ some q) × Outcome r n w q

  get_known :
      (fuel : ℕ) (r : Repo p) (n : Name) (info : Info p) (answer : Answer p) (writes : Writing p)
      → valid p n.0 n.1 ≡ true
      → lookup n r.it ≡ some info
      → get p (suc fuel) r n.0 n.1 answer writes ≡ some (ok info, r)
  unfolding get
  get_known fuel r n info answer writes h e = rw (h, e, get) refl

  add_info-Finds :
      (r : Repo p) (n : Name) (d : Data) (info : Info p) (answer : Answer p) (writes : Writing p)
      → valid p n.0 n.1 ≡ true
      → lookup n r.it ≡ none
      → decode p n.0 d ≡ inr info
      → Finds r n writes
          (on_added p (λ q. get p 1 q n.0 n.1 answer writes) (add_info p r n info true writes))
  unfolding on_added add_info save
  add_info-Finds r n d info answer writes h e same = rw (e, add_info) (by_write writes refl)
    where
      by_write :
          (w : Writing p)
          → writes ≡ w
          → Finds r n writes (on_added p (λ q. get p 1 q n.0 n.1 answer writes) (save p r n info w))
      by_write complete q =
          let found : lookup n (stored r n info).it ≡ some info =
            ground (arith, lookup-insert n n info r.it, name_eq_iff n n) in
          (
            (ok info, stored r n info),
            get_known 0 (stored r n info) n info answer writes h found,
            inr (d, h, e, same, refl),
          )
      by_write unopened q = ((error io, r), refl, inl refl)
      by_write (broken b) q =
          ((error io, record r { files = insert n b r.files }), refl, inr (b, q, e, refl))

  add-Finds :
      (r : Repo p) (n : Name) (d : Data) (answer : Answer p) (writes : Writing p)
      → valid p n.0 n.1 ≡ true
      → lookup n r.it ≡ none
      → Finds r n writes
          (on_added p (λ q. get p 1 q n.0 n.1 answer writes) (add p r n.0 n.1 d true writes))
  unfolding add on_decoded on_added
  add-Finds r n d answer writes h e = by_decoded (decode p n.0 d) refl
    where
      by_decoded :
          (o : Error ⊎ Info p)
          → decode p n.0 d ≡ o
          → Finds r n writes
              (on_added p (λ q. get p 1 q n.0 n.1 answer writes) (on_decoded p r n o true writes))
      by_decoded (inl bad) same = ((error bad, r), refl, inl refl)
      by_decoded (inr info) same = add_info-Finds r n d info answer writes h e same

  on_answer-Finds :
      (r : Repo p) (n : Name) (all answer : Answer p) (writes : Writing p)
      → valid p n.0 n.1 ≡ true
      → lookup n r.it ≡ none
      → Finds r n writes (on_answer p (λ q. get p 1 q n.0 n.1 all writes) r n answer writes)
  unfolding on_answer
  on_answer-Finds r n all no_link writes h e = (_, refl, inl refl)
  on_answer-Finds r n all failed writes h e = (_, refl, inl refl)
  on_answer-Finds r n all (replied code none) writes h e = (_, refl, inl refl)
  on_answer-Finds r n all (replied code (some d)) writes h e = elim (Bool-cases (code == 200)) [
    | inl good ↦ rw good (add-Finds r n d all writes h e)
    | inr bad ↦ rw bad (_, refl, inl refl)
  ]

  pub get_ends :
      (r : Repo p) (n : Name) (answer : Answer p) (writes : Writing p)
      → (q : Reply p × Repo p) × (get p 2 r n.0 n.1 answer writes ≡ some q) × Outcome r n writes q
  unfolding get
  get_ends r n answer writes = elim (Bool-cases (valid p n.0 n.1)) [
    | inl good ↦ elim (Option-cases (lookup n r.it)) [
      | inl e ↦ rw (good, e, get) (on_answer-Finds r n answer answer writes good e)
      | inr (info, e) ↦ rw (good, e, get) ((ok info, r), refl, inl (e, refl))
    ]
    | inr bad ↦ rw (bad, get) (_, refl, inl refl)
  ]

  Outcome-known :
      (r q : Repo p) (n : Name) (w : Writing p) (info : Info p)
      → Outcome r n w (ok info, q)
      → lookup n q.it ≡ some info
  Outcome-known r q n w info (inl (e, same)) = ap (λ s. lookup n s.it) same ∙ e
  Outcome-known r q n w info (inr (d, h, e, same, f)) =
      ap (λ s. lookup n s.it) f ∙ ground (arith, lookup-insert n n info r.it, name_eq_iff n n)

  -- Once a Get has returned an instance, every further Get returns the same one and changes
  -- nothing, whatever the API and the disk would answer.
  pub get_again :
      (r q : Repo p) (n : Name) (info : Info p) (answer later : Answer p)
      (writes writes' : Writing p)
      → valid p n.0 n.1 ≡ true
      → get p 2 r n.0 n.1 answer writes ≡ some (ok info, q)
      → get p 2 q n.0 n.1 later writes' ≡ some (ok info, q)
  get_again r q n info answer later writes writes' h e =
      let (out, same, outcome) = get_ends r n answer writes in
      let there : out ≡ (ok info, q) = cc in
      get_known 1 q n info later writes' h
        (Outcome-known r q n writes info (subst (Outcome r n writes) there outcome))
