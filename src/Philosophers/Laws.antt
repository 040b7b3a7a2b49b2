-- ===== src/Philosophers/Laws.antt =====
-- cpp/thread/eat_think.cpp: neighbours do not eat together, and somebody can always go on.
use language_test.Prelude.{
  ℕ, ◌<◌, ◌≡◌, ◌≢◌, ◌⊎◌, refl, sym, ap, ◌∙◌, Bool, true, false, Bool-cases, ◌||◌, inl, inr, none,
  some, ◌==◌, if◌then◌else◌, arith, Option-cases,
}
use language_test.Philosophers.Defs.{left, right, Place, Table, update, Step, Run}

-- A philosopher at a place owns the chopstick c.
abbrev owns : Place → ℕ → ℕ → Bool
owns Place.thinking phi c = false
owns Place.hungry phi c = c == left phi
owns Place.retreating phi c = c == left phi
owns Place.eating phi c = c == left phi || c == right phi
owns Place.leaving phi c = c == right phi

record IsValid (s : Table) : Type 0 where
  owner : (phi c : ℕ) → phi < 5 → owns (s.place phi) phi c ≡ true → s.chopstick c ≡ some phi
  owned : (phi c : ℕ) → s.chopstick c ≡ some phi → (phi < 5) × (owns (s.place phi) phi c ≡ true)

some-injective : (a b : ℕ) → some a ≡ some b → a ≡ b
some-injective a b e = ground (arith, e)

-- A philosopher takes a free chopstick.
module _ (s : Table) (v : IsValid s) (phi c : ℕ) (p : Place) (low : phi < 5)
    (free : s.chopstick c ≡ none)
    (gains : (d : ℕ) → owns p phi d ≡ (d == c || owns (s.place phi) phi d)) where
  taken-IsValid :
      IsValid (record { chopstick = update s.chopstick c (some phi); place = update s.place phi p })
  taken-IsValid = record {
    owner = λ q d l h. elim (Bool-cases (d == c)) [
      | inl e ↦ elim (Bool-cases (q == phi)) [
        | inl f ↦ rw e (ground (arith, f))
        | inr f ↦
            let d' : d ≡ c = ground (arith, e) in
            let h' : owns (s.place q) q d ≡ true = rw f at h in
            absurd (cc (v.owner q d l h', free, ap s.chopstick d'))
      ]
      | inr e ↦ elim (Bool-cases (q == phi)) [
        | inl f ↦
            let q' : q ≡ phi = ground (arith, f) in
            let g : owns p q d ≡ true = rw f at h in
            let g' : owns p phi d ≡ true = rw q' at g in
            let m : owns (s.place phi) phi d ≡ true = ground (arith, gains d, g', e) in
            rw e (v.owner phi d low m ∙ ap (λ x. some x) (sym q'))
        | inr f ↦ rw e (v.owner q d l (rw f at h))
      ]
    ];
    owned = λ q d h. elim (Bool-cases (d == c)) [
      | inl e ↦
          let h' : some phi ≡ some q = rw e at h in
          let q' : q ≡ phi = sym (some-injective phi q h') in
          let g : owns p phi d ≡ true = gains d ∙ ground (arith, e) in
          let f : (q == phi) ≡ true = ground (arith, q') in (omega (arith, q', low), rw (f, q') g)
      | inr e ↦
          let (l, m) = v.owned q d (rw e at h) in
          elim (Bool-cases (q == phi)) [
            | inl f ↦
                let q' : q ≡ phi = ground (arith, f) in
                let m' : owns (s.place phi) phi d ≡ true = rw q' at m in
                (l, rw (f, q') (gains d ∙ ground (arith, m')))
            | inr f ↦ (l, rw f m)
          ]
    ];
  }

-- A philosopher gives back a chopstick.
module _ (s : Table) (v : IsValid s) (phi c : ℕ) (p : Place) (low : phi < 5)
    (own : owns (s.place phi) phi c ≡ true)
    (loses : (d : ℕ) → owns p phi d ≡ (if d == c then false else owns (s.place phi) phi d)) where
  released-IsValid :
      IsValid (record { chopstick = update s.chopstick c none; place = update s.place phi p })
  released-IsValid = record {
    owner = λ q d l h. elim (Bool-cases (d == c)) [
      | inl e ↦
          let d' : d ≡ c = ground (arith, e) in
          elim (Bool-cases (q == phi)) [
            | inl f ↦
                let q' : q ≡ phi = ground (arith, f) in
                let g : owns p q d ≡ true = rw f at h in
                let g' : owns p phi d ≡ true = rw q' at g in absurd (ground (arith, loses d, g', e))
            | inr f ↦
                let a : s.chopstick d ≡ some q = v.owner q d l (rw f at h) in
                let b : s.chopstick d ≡ some phi = ap s.chopstick d' ∙ v.owner phi c low own in
                absurd (ground (arith, f, some-injective q phi (sym a ∙ b)))
          ]
      | inr e ↦ elim (Bool-cases (q == phi)) [
        | inl f ↦
            let q' : q ≡ phi = ground (arith, f) in
            let g : owns p q d ≡ true = rw f at h in
            let g' : owns p phi d ≡ true = rw q' at g in
            let m : owns (s.place phi) phi d ≡ true = ground (arith, loses d, g', e) in
            rw e (v.owner phi d low m ∙ ap (λ x. some x) (sym q'))
        | inr f ↦ rw e (v.owner q d l (rw f at h))
      ]
    ];
    owned = λ q d h. elim (Bool-cases (d == c)) [
      | inl e ↦ let h' : none ≡ some q = rw e at h in absurd (cc h')
      | inr e ↦
          let (l, m) = v.owned q d (rw e at h) in
          elim (Bool-cases (q == phi)) [
            | inl f ↦
                let q' : q ≡ phi = ground (arith, f) in
                let m' : owns (s.place phi) phi d ≡ true = rw q' at m in
                (l, rw (f, q') (loses d ∙ ground (arith, m', e)))
            | inr f ↦ (l, rw f m)
          ]
    ];
  }

-- A philosopher goes on with the same chopsticks.
moved-IsValid :
    (s : Table) (v : IsValid s) (phi : ℕ) (p : Place)
    → ((d : ℕ) → owns p phi d ≡ owns (s.place phi) phi d)
    → IsValid (record { chopstick = s.chopstick; place = update s.place phi p })
moved-IsValid s v phi p same = record {
  owner = λ q d l h. v.owner q d l (sym (kept q d) ∙ h);
  owned = λ q d h. let (l, m) = v.owned q d h in (l, kept q d ∙ m);
}
  where
    kept : (q d : ℕ) → owns (update s.place phi p q) q d ≡ owns (s.place q) q d
    kept q d = elim (Bool-cases (q == phi)) [
      | inl f ↦ let q' : q ≡ phi = ground (arith, f) in rw (f, q') (same d)
      | inr f ↦ rw f refl
    ]

left-ne-right : (phi : ℕ) → phi < 5 → left phi ≢ right phi
left-ne-right phi l e = ground (arith, l, e)

Step-IsValid : (s t : Table) → IsValid s → Step s t → IsValid t
Step-IsValid s t v (Step.lock_left phi l at_place free) =
    taken-IsValid s v phi (left phi) Place.hungry l free (λ d. rw at_place (ground arith))
Step-IsValid s t v (Step.trylock_right phi l at_place free) =
    taken-IsValid s v phi (right phi) Place.eating l free (λ d. rw at_place (ground arith))
Step-IsValid s t v (Step.busy_right phi l at_place busy) =
    moved-IsValid s v phi Place.retreating (λ d. rw at_place refl)
Step-IsValid s t v (Step.unlock_back phi l at_place) =
    released-IsValid s v phi (left phi) Place.thinking l (rw at_place (ground arith))
      (λ d. rw at_place (ground arith))
Step-IsValid s t v (Step.unlock_left phi l at_place) =
    released-IsValid s v phi (left phi) Place.leaving l (rw at_place (ground arith))
      (λ d. rw at_place (ground (arith, left-ne-right phi l)))
Step-IsValid s t v (Step.unlock_right phi l at_place) =
    released-IsValid s v phi (right phi) Place.thinking l (rw at_place (ground arith))
      (λ d. rw at_place (ground arith))

Run-IsValid : (s : Table) → Run s → IsValid s
Run-IsValid s Run.begin = record { owner = λ q d l h. cc h; owned = λ q d h. cc h }
Run-IsValid s (Run.next {s = before} r m) = Step-IsValid before s (Run-IsValid before r) m

-- In every state that a run reaches, no two philosophers eat who share a chopstick.
pub Run-apart :
    (s : Table) (phi psi : ℕ)
    → Run s
    → phi < 5
    → psi < 5
    → right phi ≡ left psi
    → s.place phi ≡ Place.eating
    → s.place psi ≢ Place.eating
Run-apart s phi psi r l m shared a b =
    let v = Run-IsValid s r in
    let x : s.chopstick (right phi) ≡ some phi = v.owner phi (right phi) l (rw a (ground arith)) in
    let y : s.chopstick (left psi) ≡ some psi = v.owner psi (left psi) m (rw b (ground arith)) in
    let e : phi ≡ psi = some-injective phi psi (sym x ∙ ap s.chopstick shared ∙ y) in
    left-ne-right psi m (sym shared ∙ ap right e)

Place-cases :
    (p : Place)
    → (p ≡ Place.thinking)
      ⊎ ((p ≡ Place.hungry) ⊎ ((p ≡ Place.eating) ⊎ ((p ≡ Place.leaving) ⊎ (p ≡ Place.retreating))))
Place-cases Place.thinking = inl refl
Place-cases Place.hungry = inr (inl refl)
Place-cases Place.eating = inr (inr (inl refl))
Place-cases Place.leaving = inr (inr (inr (inl refl)))
Place-cases Place.retreating = inr (inr (inr (inr refl)))

-- Who does not think can make a call that returns.
moves : (s : Table) (phi : ℕ) → phi < 5 → s.place phi ≢ Place.thinking → (t : Table) × Step s t
moves s phi l n = elim (Place-cases (s.place phi)) [
  | inl a ↦ absurd (n a)
  | inr (inl a) ↦ elim (Option-cases (s.chopstick (right phi))) [
    | inl free ↦ (_, Step.trylock_right phi l a free)
    | inr (q, e) ↦ (_, Step.busy_right phi l a (λ h. cc (e, h)))
  ]
  | inr (inr (inl a)) ↦ (_, Step.unlock_left phi l a)
  | inr (inr (inr (inl a))) ↦ (_, Step.unlock_right phi l a)
  | inr (inr (inr (inr a))) ↦ (_, Step.unlock_back phi l a)
]

-- No run reaches a deadlock: in every state some philosopher can make a call that returns.
pub Run-moves : (s : Table) → Run s → (t : Table) × Step s t
Run-moves s r =
    let zero_low : 0 < 5 = omega arith in
    elim (Place-cases (s.place 0)) [
      | inr other ↦ moves s 0 zero_low (λ a. elim other [
        | inl b ↦ cc (a, b)
        | inr (inl b) ↦ cc (a, b)
        | inr (inr (inl b)) ↦ cc (a, b)
        | inr (inr (inr b)) ↦ cc (a, b)
      ])
      | inl a ↦ elim (Option-cases (s.chopstick (left 0))) [
        | inl free ↦ (_, Step.lock_left 0 zero_low a free)
        | inr (q, e) ↦
            let (l, m) = (Run-IsValid s r).owned q (left 0) e in moves s q l (λ b. cc (rw b at m))
      ]
    ]
