-- ===== src/Data/Stats/Window.antt =====
-- Which runs data/stats.go keeps.
use percona_agent.Prelude.{
  ℕ, ◌+◌, ◌≤◌, ◌<◌, ◌≡◌, refl, ap, ◌∙◌, ◌≢◌, ◌⊎◌, inl, inr, true, false, List, [], ◌∷◌, ◌++◌, arith,
  ltb, ltb→lt, ltb→ge, Bool-cases, All, nat_key, string_key,
}
use percona_agent.Data.Stats.{
  SentInfo, SenderStats, new_sender_stats, drop_old, oldest_begin, add_sent,
}

-- Without its oldest run the window would be too short, or empty.
abbrev pub IsTight : ℕ → ℕ → List SentInfo → Type 0
IsTight end d [] = Unit
IsTight end d (x ∷ []) = Unit
IsTight end d (x ∷ y ∷ infos) = end < y.begin + d

drop_old-IsTight : (end d : ℕ) (infos : List SentInfo) → IsTight end d (drop_old end d infos)
unfolding drop_old
drop_old-IsTight end d [] = tt
drop_old-IsTight end d (x ∷ []) = tt
drop_old-IsTight end d (x ∷ y ∷ infos) = elim (Bool-cases (ltb end (y.begin + d))) [
  | inl e ↦ rw (e, drop_old) (ltb→lt end (y.begin + d) e)
  | inr e ↦ rw (e, drop_old) (drop_old-IsTight end d (y ∷ infos))
]

drop_old-suffix :
    (end d : ℕ) (infos : List SentInfo)
    → (dropped : List SentInfo) × (infos ≡ dropped ++ drop_old end d infos)
      × ((dropped ≡ []) ⊎ (oldest_begin (drop_old end d infos) + d ≤ end))
unfolding drop_old oldest_begin
drop_old-suffix end d [] = ([], refl, inl refl)
drop_old-suffix end d (x ∷ []) = ([], refl, inl refl)
drop_old-suffix end d (x ∷ y ∷ infos) = elim (Bool-cases (ltb end (y.begin + d))) [
  | inl e ↦ rw (e, drop_old) ([], refl, inl refl)
  | inr e ↦
      let (dropped, same, why) = drop_old-suffix end d (y ∷ infos) in
      rw (e, drop_old) (x ∷ dropped, ap (◌∷◌ x) same, inr (long_enough dropped same why e))
]
  where
    -- Either the next run is the oldest one kept, or it went as well.
    long_enough :
        (dropped : List SentInfo)
        → y ∷ infos ≡ dropped ++ drop_old end d (y ∷ infos)
        → (dropped ≡ []) ⊎ (oldest_begin (drop_old end d (y ∷ infos)) + d ≤ end)
        → ltb end (y.begin + d) ≡ false
        → oldest_begin (drop_old end d (y ∷ infos)) + d ≤ end
    long_enough dropped same (inr h) e = h
    long_enough dropped same (inl none_gone) e =
        let kept : y ∷ infos ≡ drop_old end d (y ∷ infos) =
          same ∙ ap (λ ds. ds ++ drop_old end d (y ∷ infos)) none_gone in
        let oldest : y.begin ≡ oldest_begin (drop_old end d (y ∷ infos)) = ap oldest_begin kept in
        omega (arith, oldest, ltb→ge end (y.begin + d) e)

drop_old-covers :
    (end d : ℕ) (infos : List SentInfo)
    → oldest_begin infos + d ≤ end
    → oldest_begin (drop_old end d infos) + d ≤ end
unfolding drop_old oldest_begin
drop_old-covers end d [] h = h
drop_old-covers end d (x ∷ []) h = h
drop_old-covers end d (x ∷ y ∷ infos) h = elim (Bool-cases (ltb end (y.begin + d))) [
  | inl e ↦ rw (e, drop_old) h
  | inr e ↦ rw (e, drop_old) (drop_old-covers end d (y ∷ infos) (ltb→ge end (y.begin + d) e))
]

drop_old-cons :
    (end d : ℕ) (x : SentInfo) (infos : List SentInfo)
    → (y : SentInfo) × (ys : List SentInfo) × (drop_old end d (x ∷ infos) ≡ y ∷ ys)
unfolding drop_old
drop_old-cons end d x [] = (x, [], refl)
drop_old-cons end d x (y ∷ infos) = elim (Bool-cases (ltb end (y.begin + d))) [
  | inl e ↦ rw (e, drop_old) (x, y ∷ infos, refl)
  | inr e ↦ rw (e, drop_old) (drop_old-cons end d y infos)
]

drop_old-ne-nil :
    (end d : ℕ) (infos : List SentInfo) (info : SentInfo) → drop_old end d (infos ++ info ∷ []) ≢ []
drop_old-ne-nil end d [] info h = let (y, ys, e) = drop_old-cons end d info [] in cc
drop_old-ne-nil end d (x ∷ infos) info h =
    let (y, ys, e) = drop_old-cons end d x (infos ++ info ∷ []) in cc

-- When the window is full, a new run is put in front and some of the oldest runs go, if any only such
-- that what is left still has the wanted duration: it is not empty, begins with the oldest run kept
-- and ends with the new one, and without its oldest run would be shorter than the wanted duration.
pub add_sent-window :
    (s : SenderStats) (info : SentInfo)
    → s.full ≡ true
    → (dropped : List SentInfo) × (s.sent ++ info ∷ [] ≡ dropped ++ (add_sent s info).sent)
      × ((dropped ≡ []) ⊎ ((add_sent s info).begin + s.d ≤ info.end))
      × ((add_sent s info).sent ≢ [])
      × IsTight info.end s.d (add_sent s info).sent
      × ((add_sent s info).begin ≡ oldest_begin (add_sent s info).sent)
      × ((add_sent s info).end ≡ info.end)
unfolding add_sent
add_sent-window s info full =
    let (dropped, same, why) = drop_old-suffix info.end s.d (s.sent ++ info ∷ []) in
    rw full (
      dropped,
      same,
      why,
      drop_old-ne-nil info.end s.d s.sent info,
      drop_old-IsTight info.end s.d (s.sent ++ info ∷ []),
      refl,
      refl,
    )

oldest_begin-append :
    (infos more : List SentInfo) → infos ≢ [] → oldest_begin (infos ++ more) ≡ oldest_begin infos
unfolding oldest_begin
oldest_begin-append [] more h = absurd (h refl)
oldest_begin-append (x ∷ infos) more h = refl

-- A full window that covers the wanted duration still covers it after a later run.
pub add_sent-covers :
    (s : SenderStats) (info : SentInfo)
    → s.full ≡ true
    → s.sent ≢ []
    → s.begin ≡ oldest_begin s.sent
    → s.begin + s.d ≤ s.end
    → s.end ≤ info.end
    → (add_sent s info).begin + s.d ≤ (add_sent s info).end
unfolding add_sent
add_sent-covers s info full some_sent begin covers later = rw full (
    drop_old-covers info.end s.d (s.sent ++ info ∷ [])
      (omega (arith, oldest_begin-append s.sent (info ∷ []) some_sent)))

pub add_all : SenderStats → List SentInfo → SenderStats
add_all s [] = s
add_all s (info ∷ infos) = add_all (add_sent s info) infos

-- The window of duration 0 after its first run.
abbrev pub only : SentInfo → SenderStats
only x = record { d = 0; begin = x.begin; end = x.end; sent = x ∷ []; full = true }

add_sent-only : (x y : SentInfo) → y.begin ≤ y.end → add_sent (only x) y ≡ only y
unfolding add_sent drop_old oldest_begin
add_sent-only x y h =
    let long : ltb y.end (y.begin + 0) ≡ false = ground arith in rw (long, drop_old)

add_sent-first : (x : SentInfo) → add_sent (new_sender_stats 0) x ≡ only x
unfolding add_sent new_sender_stats oldest_begin
add_sent-first x = let long : ltb x.end (0 + 0) ≡ false = ground arith in rw long

add_all-only :
    (x y : SentInfo) (infos : List SentInfo)
    → All (λ i. i.begin ≤ i.end) (infos ++ y ∷ [])
    → add_all (only x) (infos ++ y ∷ []) ≡ only y
unfolding add_all
add_all-only x y [] h = add_sent-only x y h.0
add_all-only x y (i ∷ infos) h =
    ap (λ s. add_all s (infos ++ y ∷ [])) (add_sent-only x i h.0) ∙ add_all-only i y infos h.1

-- The sender's statistics of duration 0 are those of its latest run alone, however many it made.
pub add_all-last :
    (infos : List SentInfo) (y : SentInfo)
    → All (λ i. i.begin ≤ i.end) (infos ++ y ∷ [])
    → add_all (new_sender_stats 0) (infos ++ y ∷ [])
      ≡ record { d = 0; begin = y.begin; end = y.end; sent = y ∷ []; full = true }
unfolding add_all
add_all-last [] y h = add_sent-first y
add_all-last (x ∷ infos) y h =
    ap (λ s. add_all s (infos ++ y ∷ [])) (add_sent-first x) ∙ add_all-only x y infos h.1
