-- ===== src/Mm/Manager/Bindings.antt =====
-- The monitors of mm/manager.go and the aggregators that they report to.
use percona_agent.Prelude.{
  ℕ, ◌<◌, ◌≡◌, sym, subst, ap, ◌∙◌, ◌⊎◌, inl, inr, Bool, true, Option, none, some, List, arith,
  ◌==◌, ==→eq, ==_iff, Bool-cases, if◌then◌else◌, nat_key, lookup, insert, erase, lookup-insert,
  lookup-erase, string_key,
}
use percona_agent.Instance.Repo.{Name, name_key, name_eq}
use percona_agent.Ticker.{Clock}
use percona_agent.Mm.Manager.{Config, Binding, Monitor, Manager, bind}

-- The monitor sends to the binding of the given report interval.
abbrev pub IsSentTo : List (ℕ × Binding) → Monitor → ℕ → Type 0
IsSentTo bs x report =
    (b : Binding) × (lookup report bs ≡ some b) × (b.collection_chan ≡ x.collection_chan)

abbrev pub AreSent : List (ℕ × Binding) → List (Name × Monitor) → Type 0
AreSent bs ms =
    (n : Name) (x : Monitor) (c : Config)
    → lookup n ms ≡ some x
    → x.config ≡ some c
    → IsSentTo bs x c.report

-- Each report interval has its own aggregator and channel, and each monitor sends to those of its
-- interval.
pub record IsBound (m : Manager) : Type 0 where
  pub made :
      (r : ℕ) (b : Binding)
      → lookup r m.aggregators ≡ some b
      → (b.aggregator ≡ r) × (b.collection_chan < m.next_chan)
  pub apart :
      (r s : ℕ) (b d : Binding)
      → lookup r m.aggregators ≡ some b
      → lookup s m.aggregators ≡ some d
      → b.collection_chan ≡ d.collection_chan
      → r ≡ s
  pub sent : AreSent m.aggregators m.monitors

pub some_same {ℓ} : {A : Type ℓ} {a b : A} → Path (Option A) (some a) (some b) → a ≡ b
some_same {A = A} {a} {b} e = ap get e
  where
    get : Option A → A
    get none = a
    get (some x) = x

-- What the invariant does not read.
pub same_bindings :
    (m : Manager) (b : Bool) (k : Clock) (f : List (Name × Config)) (ms : List (Name × Monitor))
    → AreSent m.aggregators ms
    → IsBound m
    → IsBound (record m { running = b; clock = k; files = f; monitors = ms })
same_bindings m b k f ms s h = record { made = h.made; apart = h.apart; sent = s }

pub insert-AreSent :
    (bs : List (ℕ × Binding)) (ms : List (Name × Monitor)) (n : Name) (x : Monitor)
    → ((c : Config) → x.config ≡ some c → IsSentTo bs x c.report)
    → AreSent bs ms
    → AreSent bs (insert n x ms)
insert-AreSent bs ms n x new h = λ j y c e f. elim (Bool-cases (name_eq n j)) [
  | inl t ↦
      let same : x ≡ y =
        some_same (
          sym (ap (λ q. if q then some x else lookup j ms) t) ∙ sym (lookup-insert n j x ms) ∙ e) in
      subst (λ z. IsSentTo bs z c.report) same (new c (ap (λ z. z.config) same ∙ f))
  | inr t ↦
      h j y c
        (sym (ap (λ q. if q then some x else lookup j ms) t) ∙ sym (lookup-insert n j x ms) ∙ e) f
]

pub erase-AreSent :
    (bs : List (ℕ × Binding)) (ms : List (Name × Monitor)) (n : Name)
    → AreSent bs ms
    → AreSent bs (erase n ms)
erase-AreSent bs ms n h = λ j y c e f. elim (Bool-cases (name_eq n j)) [
  | inl t ↦
      let gone : Path (Option Monitor) none (some y) =
        sym (ap (λ q. if q then none else lookup j ms) t) ∙ sym (lookup-erase n j ms) ∙ e in
      absurd (ground arith)
  | inr t ↦
      h j y c (sym (ap (λ q. if q then none else lookup j ms) t) ∙ sym (lookup-erase n j ms) ∙ e) f
]

-- An entry of a map with one more binding is the new one or an old one.
inserted :
    (k r : ℕ) (b d : Binding) (bs : List (ℕ × Binding))
    → lookup r (insert k b bs) ≡ some d
    → ((k ≡ r) × (b ≡ d)) ⊎ (lookup r bs ≡ some d)
inserted k r b d bs e = elim (Bool-cases (k == r)) [
  | inl t ↦ inl (
    ==→eq k r t,
    some_same
        (sym (ap (λ q. if q then some b else lookup r bs) t) ∙ sym (lookup-insert k r b bs) ∙ e),
  )
  | inr t ↦
      inr (sym (ap (λ q. if q then some b else lookup r bs) t) ∙ sym (lookup-insert k r b bs) ∙ e)
]

abbrev new_binding : Manager → Config → Binding
new_binding m c = record { aggregator = c.report; collection_chan = m.next_chan }

add_binding-IsBound :
    (m : Manager) (c : Config)
    → lookup c.report m.aggregators ≡ none
    → IsBound m
    → IsBound (bind m c none).0
unfolding bind
add_binding-IsBound m c none_yet h =
    let bs = m.aggregators in
    record {
      made = λ r d e. elim (inserted c.report r (new_binding m c) d bs e) [
        | inl (same, new) ↦ (
          sym (ap (λ x. x.aggregator) new) ∙ same,
          omega (arith, ap (λ x. x.collection_chan) new),
        )
        | inr old ↦ ((h.made r d old).0, omega (arith, (h.made r d old).1))
      ];
      apart = λ r s d d' e f g. elim (inserted c.report r (new_binding m c) d bs e) [
        | inl (same, new) ↦ elim (inserted c.report s (new_binding m c) d' bs f) [
          | inl (same', new') ↦ sym same ∙ same'
          | inr old' ↦
              absurd (omega (arith, ap (λ x. x.collection_chan) new, g, (h.made s d' old').1))
        ]
        | inr old ↦ elim (inserted c.report s (new_binding m c) d' bs f) [
          | inl (same', new') ↦
              absurd (omega (arith, ap (λ x. x.collection_chan) new', g, (h.made r d old).1))
          | inr old' ↦ h.apart r s d d' old old' g
        ]
      ];
      sent = λ n x d e f. let (w, g, k) = h.sent n x d e f in (w, stays d.report w g, k);
    }
  where
    stays :
        (r : ℕ) (w : Binding)
        → lookup r m.aggregators ≡ some w
        → lookup r (insert c.report (new_binding m c) m.aggregators) ≡ some w
    stays r w e = elim (Bool-cases (c.report == r)) [
      | inl t ↦
          let none_there : lookup r m.aggregators ≡ none =
            ap (λ q. lookup q m.aggregators) (sym (==→eq c.report r t)) ∙ none_yet in
          let gone : Path (Option Binding) none (some w) = sym none_there ∙ e in
          absurd (ground arith)
      | inr t ↦
          lookup-insert c.report r (new_binding m c) m.aggregators
          ∙ ap (λ q. if q then some (new_binding m c) else lookup r m.aggregators) t
          ∙ e
    ]

pub bind-IsBound :
    (m : Manager) (c : Config) (o : Option Binding)
    → lookup c.report m.aggregators ≡ o
    → IsBound m
    → IsBound (bind m c o).0 × (lookup c.report (bind m c o).0.aggregators ≡ some (bind m c o).1)
unfolding bind
bind-IsBound m c (some b) e h = (h, e)
bind-IsBound m c none e h =
    let found : (c.report == c.report) ≡ true = ground (arith, ==_iff c.report c.report) in
    (
      add_binding-IsBound m c e h,
      lookup-insert c.report c.report (new_binding m c) m.aggregators
          ∙ ap (λ q. if q then some (new_binding m c) else lookup c.report m.aggregators) found,
    )
