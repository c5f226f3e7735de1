-- ===== src/Pct/Status/Laws.antt =====
-- What the methods of pct/status.go do to the map.
use percona_agent.Prelude.{
  String, ◌≡◌, refl, sym, ap, ◌∙◌, Bool, true, false, ◌&&◌, Option, none, some, List, [], ◌∷◌,
  arith, if◌then◌else◌, All, nat_key, string_key, lookup, lookup-insert,
}
use percona_agent.Prelude.{
  or_else, or_else_assoc, IsMap, insert_all, lookup-insert_all, insert-IsMap,
}
use percona_agent.Pct.Status.{StatusMap, update, get, all, merge_into, merge}

-- A proc is known if it has a text.
abbrev pub knows : StatusMap → String → Bool
knows s p = elim (lookup p s) [ none ↦ false | some _ ↦ true ]

-- An update sets the text of a proc that the service declared, and of no other; an unknown proc is
-- never added, so that the set of procs is the one declared.
pub get-update :
    (s : StatusMap) (p q text : String)
    → (get (update s p text) q ≡ (if knows s p && string_key.beq p q then text else get s q))
      × (knows (update s p text) q ≡ knows s q)
unfolding get update
get-update s p q text = ground (arith, lookup-insert p q text s, string_key.beq_iff p q)

pub update-IsMap : (s : StatusMap) (p text : String) → IsMap s → IsMap (update s p text)
unfolding update
update-IsMap s p text h = ground (arith, insert-IsMap p text s h)

-- The text in the last of the maps that has the proc.
unfoldable pub latest : String → List StatusMap → Option String
latest p [] = none
latest p (m ∷ ms) = or_else (latest p ms) (lookup p m)

lookup-merge_into :
    (p : String) (s : StatusMap) (ms : List StatusMap)
    → All IsMap ms
    → lookup p (merge_into s ms) ≡ or_else (latest p ms) (lookup p s)
unfolding merge_into latest
lookup-merge_into p s [] h = refl
lookup-merge_into p s (m ∷ ms) h =
    lookup-merge_into p (insert_all m s) ms h.1
    ∙ ap (or_else (latest p ms)) (lookup-insert_all p m s h.0)
    ∙ sym (or_else_assoc (latest p ms) (lookup p m) (lookup p s))

-- A merge of the status of a service with that of others has every proc of any of them, with the
-- text of the last one that has it; a service's own text counts where no other has the proc.
pub lookup-merge :
    (p : String) (s : StatusMap) (others : List StatusMap)
    → IsMap s
    → All IsMap others
    → lookup p (merge s others) ≡ or_else (latest p others) (lookup p s)
unfolding merge all lookup
lookup-merge p s others h k =
    lookup-merge_into p (all s) others k
    ∙ ap (or_else (latest p others)) (lookup-insert_all p s [] h ∙ or_else_none (lookup p s))
  where
    or_else_none : (o : Option String) → or_else o none ≡ o
    or_else_none none = refl
    or_else_none (some t) = refl
