-- ===== src/Qan/Manager/Others.antt =====
-- What other managers do with the clock that qan/manager.go uses.
use percona_agent.Prelude.{
  ℕ, insert, ◌≡◌, refl, sym, subst, false, ◌⊎◌, inl, inr, Option, none, some, arith, ◌==◌, ==→eq,
  Bool-cases, nat_key, lookup, erase, lookup-insert, lookup-erase,
}
use percona_agent.Ticker.{add_sync, remove}
use percona_agent.Ticker.Watchers.{
  IsWatcher, remove-IsKnown, remove-none, remove-keeps, add_sync-itself, add_sync-IsKnown,
  add_sync-others, add_sync-same, remove-watcher, remove-others,
}
use percona_agent.Qan.Manager.{Manager, other_adds, remove_other, other_removes}
use percona_agent.Qan.Manager.Registered.{IsOwned, IsRegistered, new_chan, add_fresh, add_kept}

pub other_adds-IsRegistered :
    (m : Manager) (interval : ℕ) → IsRegistered m → IsRegistered (other_adds m interval)
unfolding other_adds
other_adds-IsRegistered m interval h =
    let n = m.next_chan in
    record {
      known = add_sync-IsKnown m.clock n interval (new_chan m h) h.known;
      fresh = λ d r e. add_fresh m interval h d r e;
      owned = λ i d w. elim (Bool-cases (n == d)) [
        | inl t ↦
            let same =
              add_sync-same m.clock n interval i (new_chan m h) h.known
                (subst (λ x. IsWatcher (add_sync m.clock n interval) i x) (sym (==→eq n d t)) w) in
            inr (ground (arith, lookup-insert n d interval m.others))
        | inr t ↦ still i d t (h.owned i d (add_sync-others m.clock n interval i d t w))
      ];
      apart = λ id a e.
          let (old, alone) = h.apart id a e in
          (
            omega (arith, old),
            ground (arith, lookup-insert n a.tick_chan interval m.others, ==→eq n a.tick_chan),
          );
      kept = λ c i e. elim (Bool-cases (n == c)) [
        | inl t ↦
            let same : interval ≡ i = ground (arith, lookup-insert n c interval m.others) in
            (
              omega (arith, ==→eq n c t),
              subst (λ x. IsWatcher (add_sync m.clock n interval) i x) (==→eq n c t)
                  (subst (λ x. IsWatcher (add_sync m.clock n interval) x n) same
                    (add_sync-itself m.clock n interval)),
            )
        | inr t ↦ add_kept m interval c i h (ground (arith, lookup-insert n c interval m.others))
      ];
    }
  where
    still :
        (i d : ℕ)
        → (m.next_chan == d) ≡ false
        → IsOwned m i d ⊎ (lookup d m.others ≡ some i)
        → IsOwned m i d ⊎ (lookup d (insert m.next_chan interval m.others) ≡ some i)
    still i d t (inl o) = inl o
    still i d t (inr e) = inr (ground (arith, lookup-insert m.next_chan d interval m.others))

remove_other-IsRegistered :
    (m : Manager) (c : ℕ) (o : Option ℕ)
    → lookup c m.others ≡ o
    → IsRegistered m
    → IsRegistered (remove_other m c o)
unfolding remove_other
remove_other-IsRegistered m c none e h = h
remove_other-IsRegistered m c (some interval) e h = record {
  known = remove-IsKnown m.clock c h.known;
  fresh = λ d r f. h.fresh d r (remove-watcher m.clock c d r f);
  owned = λ i d w. elim (Bool-cases (c == d)) [
    | inl t ↦ absurd (
        remove-none m.clock c i h.known
          (subst (λ x. IsWatcher (remove m.clock c) i x) (sym (==→eq c d t)) w))
    | inr t ↦ still i d t (h.owned i d (remove-others m.clock c i d t w))
  ];
  apart = λ id a f.
      ((h.apart id a f).0, ground (arith, (h.apart id a f).1, lookup-erase c a.tick_chan m.others));
  kept = λ d i f. elim (Bool-cases (c == d)) [
    | inl t ↦ absurd (ground (arith, lookup-erase c d m.others))
    | inr t ↦
        let (old, w) = h.kept d i (ground (arith, lookup-erase c d m.others)) in
        (old, remove-keeps m.clock c i d t w)
  ];
}
  where
    still :
        (i d : ℕ)
        → (c == d) ≡ false
        → IsOwned m i d ⊎ (lookup d m.others ≡ some i)
        → IsOwned m i d ⊎ (lookup d (erase c m.others) ≡ some i)
    still i d t (inl o) = inl o
    still i d t (inr f) = inr (ground (arith, lookup-erase c d m.others))

pub other_removes-IsRegistered :
    (m : Manager) (c : ℕ) → IsRegistered m → IsRegistered (other_removes m c)
unfolding other_removes
other_removes-IsRegistered m c h = remove_other-IsRegistered m c (lookup c m.others) refl h
