-- ===== src/Instance/Repo/Restart.antt =====
-- A new start of instance/repo.go on the files that it left.
use percona_agent.Prelude.{
  ◌^◌, ◌≡◌, refl, sym, ap, ◌∙◌, subst, inl, inr, true, false, none, some, List, [], ◌∷◌, arith, ltb,
  if◌then◌else◌, Option-cases, All, nat_key, string_key, lookup, insert, lookup-insert,
}
use percona_agent.Prelude.{IsMap}
use percona_agent.Instance.Repo.{
  Protocol, Name, name_eq_iff, name_key, is_some, Info, Repo, new_repo, print_info, complete,
  add_info, on_decoded, add, add_valid, load_file, on_loaded, load_files, init,
}
use percona_agent.Instance.Repo.Mirror.{IsNamed, IsMirror, Op, IsSafe, run, run-IsMirror}

module _ (p : Protocol) where
  open p use {Data}

  -- Every file of a part of the directory holds an instance of `r`, and `q` has the others.
  record Loads (r : Repo p) (files : List (Name × Data)) (q : Repo p) : Type 0 where
    is_map : IsMap files
    rest :
        (n : Name)
        → lookup n r.it ≡ (if is_some (lookup n files) then lookup n r.it else lookup n q.it)
    new : (n : Name) (d : Data) → lookup n files ≡ some d → lookup n q.it ≡ none
    held :
        (n : Name) (d : Data)
        → lookup n files ≡ some d
        → (info : Info p) × (lookup n r.it ≡ some info) × (d ≡ print_info p info)

  add_new :
      (q : Repo p) (n : Name) (info : Info p)
      → lookup n q.it ≡ none
      → add_info p q n info false complete ≡ (none, record q { it = insert n info q.it })
  unfolding add_info
  add_new q n info e = rw (e, add_info) refl

  load_file-IsNamed :
      (q : Repo p) (n : Name) (info : Info p)
      → IsNamed p n info
      → lookup n q.it ≡ none
      → load_file p q n (print_info p info) ≡ (none, record q { it = insert n info q.it })
  unfolding load_file add_valid add on_decoded
  load_file-IsNamed q (service, id) info h e =
      let small : ltb id (2 ^ 32) ≡ true = ground (arith, h.small) in
      rw (small, h.is_valid, load_file, add_valid)
        (ap (λ o. on_decoded p q (service, id) o false complete) h.decodes
          ∙ add_new q (service, id) info e)

  Loads-step :
      (r q : Repo p) (n : Name) (info : Info p) (files : List (Name × Data))
      → Loads r ((n, print_info p info) ∷ files) q
      → lookup n r.it ≡ some info
      → Loads r files (record q { it = insert n info q.it })
  unfolding lookup
  Loads-step r q n info files h e = record {
    is_map = h.is_map.1;
    rest = λ m. ground (arith, lookup-insert n m info q.it, name_eq_iff n m, h.rest m, h.is_map.0);
    new = λ m d f.
        ground (arith, lookup-insert n m info q.it, name_eq_iff n m, h.new m d, h.is_map.0);
    held = λ m d f. h.held m d (ground (arith, name_eq_iff n m, h.is_map.0));
  }

  load_files-cons :
      (q q' : Repo p) (n : Name) (d : Data) (files : List (Name × Data))
      → load_file p q n d ≡ (none, q')
      → load_files p q ((n, d) ∷ files) ≡ load_files p q' files
  unfolding load_files on_loaded
  load_files-cons q q' n d files e = ap (on_loaded p (λ r. load_files p r files)) e

  load_files-Loads :
      (r q : Repo p) (files : List (Name × Data))
      → IsMirror p r
      → Loads r files q
      → (q' : Repo p) × (load_files p q files ≡ (none, q'))
        × ((n : Name) → lookup n q'.it ≡ lookup n r.it)
  unfolding load_files lookup
  load_files-Loads r q [] h k = (q, refl, λ n. sym (k.rest n))
  load_files-Loads r q ((n, d) ∷ files) h k =
      let there : lookup n ((n, d) ∷ files) ≡ some d = ground (arith, name_eq_iff n n) in
      let (info, e, same) = k.held n d there in
      let loaded = load_file-IsNamed q n info (h.named n info e) (k.new n d there) in
      let next = Loads-step r q n info files (subst (λ x. Loads r ((n, x) ∷ files) q) same k) e in
      let (q', rest, all) =
        load_files-Loads r (record q { it = insert n info q.it }) files h next in
      (
        q',
        load_files-cons q (record q { it = insert n info q.it }) n d files
              (ap (load_file p q n) same ∙ loaded)
            ∙ rest,
        all,
      )

  mirror-held :
      (r : Repo p) (n : Name) (d : Data)
      → IsMirror p r
      → lookup n r.files ≡ some d
      → (info : Info p) × (lookup n r.it ≡ some info) × (d ≡ print_info p info)
  mirror-held r n d h e = elim (Option-cases (lookup n r.it)) [
    | inl f ↦ absurd (ground (arith, h.same n))
    | inr (info, f) ↦ (info, f, ground (arith, h.same n))
  ]

  mirror-Loads : (r : Repo p) → IsMirror p r → Loads r r.files (new_repo p r.files)
  unfolding new_repo lookup
  mirror-Loads r h = record {
    is_map = h.is_map;
    rest = λ n. ground (arith, h.same n);
    new = λ n d e. refl;
    held = λ n d e. mirror-held r n d h e;
  }

  -- In a repository whose files mirror its memory, as in an empty one, do any Adds, Gets and Removes
  -- of ids below 2^32, whatever the API answers and whichever writes and removals fail, as long as no
  -- write breaks off after it has opened its file. Then Init on the files that are left succeeds, and
  -- finds under each name what was in memory.
  pub init-run :
      (r : Repo p) (ops : List (Op p))
      → All (IsSafe p) ops
      → IsMirror p r
      → (q q' : Repo p) × (run p r ops ≡ some q)
        × (init p q.files ≡ (none, q'))
        × ((n : Name) → lookup n q'.it ≡ lookup n q.it)
  unfolding init
  init-run r ops small h =
      let (q, same, good) = run-IsMirror p r ops small h in
      let (q', loaded, all) =
        load_files-Loads q (new_repo p q.files) q.files good (mirror-Loads q good) in
      (q, q', same, loaded, all)
