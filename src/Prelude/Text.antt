-- ===== src/Prelude/Text.antt =====
-- Text as the list of its character codes, where the code takes it apart.
use Prim.Native.Char.{code}
use percona_agent.Prelude.{
  ℕ, String, ◌≡◌, refl, subst, Bool, true, false, ◌&&◌, List, [], ◌∷◌, ◌++◌, arith, ◌==◌,
  if◌then◌else◌, All, Eq,
}

abbrev pub Text : Type 0
Text = List ℕ

abbrev pub codes : String → Text
codes String.[] = []
codes (String.◌∷◌ c s) = code c ∷ codes s

abbrev pub same_text : Text → Text → Bool
same_text [] [] = true
same_text [] (d ∷ t) = false
same_text (c ∷ s) [] = false
same_text (c ∷ s) (d ∷ t) = (c == d) && same_text s t

pub same_text_eq : (s t : Text) → same_text s t ≡ true → s ≡ t
same_text_eq [] [] h = refl
same_text_eq [] (d ∷ t) h = absurd (ground arith)
same_text_eq (c ∷ s) [] h = absurd (ground arith)
same_text_eq (c ∷ s) (d ∷ t) h = ground (arith, same_text_eq s t)

pub same_text_refl : (s : Text) → same_text s s ≡ true
same_text_refl [] = refl
same_text_refl (c ∷ s) = ground (arith, same_text_refl s)

instance abbrev pub text_key : Eq Text
text_key = record {
  beq = same_text;
  beq_iff = λ s t. (same_text_eq s t, λ e. subst (λ u. same_text s u ≡ true) e (same_text_refl s));
}

abbrev pub cons_first : ℕ → List Text → List Text
cons_first c [] = (c ∷ []) ∷ []
cons_first c (s ∷ ss) = (c ∷ s) ∷ ss

-- `strings.Split` at a single character.
unfoldable pub split : ℕ → Text → List Text
split sep [] = [] ∷ []
split sep (c ∷ s) = let rest = split sep s in if c == sep then [] ∷ rest else cons_first c rest

-- The character does not stand in the text.
abbrev pub IsFree : ℕ → Text → Type 0
IsFree sep s = All (λ c. (c == sep) ≡ false) s

pub split-IsFree : (sep : ℕ) (s : Text) → IsFree sep s → split sep s ≡ s ∷ []
unfolding split
split-IsFree sep [] h = refl
split-IsFree sep (c ∷ s) h = rw (h.0, split-IsFree sep s h.1) refl

pub split_two :
    (sep : ℕ) (s t : Text) → IsFree sep s → IsFree sep t → split sep (s ++ sep ∷ t) ≡ s ∷ t ∷ []
unfolding split
split_two sep [] t hs ht = ground (arith, split-IsFree sep t ht)
split_two sep (c ∷ s) t hs ht = rw (hs.0, split_two sep s t hs.1 ht) refl
