-- ===== src/Trie/Words.antt =====
-- cpp/race/Trie.cpp: a dictionary as the list of its words, and their prefixes.
use language_test.Prelude.{
  ℕ, ◌+◌, ◌-◌, ◌≤◌, ◌≡◌, ◌⊎◌, refl, Bool, true, false, Bool-cases, inl, inr, List, [], ◌∷◌, ◌==◌,
  if◌then◌else◌, arith,
}

-- The first word is a prefix of the second.
abbrev pub prefix : List ℕ → List ℕ → Bool
prefix [] w = true
prefix (y ∷ v) [] = false
prefix (y ∷ v) (x ∷ w) = if y == x then prefix v w else false

-- How many words start with v.
abbrev pub matches : List ℕ → List (List ℕ) → ℕ
matches v [] = 0
matches v (w ∷ ws) = (if prefix v w then 1 else 0) + matches v ws

-- The words that do not start with w.
abbrev pub remove : List ℕ → List (List ℕ) → List (List ℕ)
remove w [] = []
remove w (u ∷ ws) = if prefix w u then remove w ws else u ∷ remove w ws

pub prefix_refl : (w : List ℕ) → prefix w w ≡ true
prefix_refl [] = refl
prefix_refl (x ∷ w) = let e : (x == x) ≡ true = ground arith in rw e (prefix_refl w)

prefix_trans : (u v w : List ℕ) → prefix u v ≡ true → prefix v w ≡ true → prefix u w ≡ true
prefix_trans [] v w p q = refl
prefix_trans (x ∷ u) [] w p q = cc p
prefix_trans (x ∷ u) (y ∷ v) [] p q = cc q
prefix_trans (x ∷ u) (y ∷ v) (z ∷ w) p q = elim (Bool-cases (x == y)) [
  | inl e ↦ elim (Bool-cases (y == z)) [
    | inl f ↦
        let g : (x == z) ≡ true = ground (arith, e, f) in
        rw g (prefix_trans u v w (rw e at p) (rw f at q))
    | inr f ↦ absurd (cc (rw f at q))
  ]
  | inr e ↦ absurd (cc (rw e at p))
]

-- Two prefixes of a word are comparable.
prefix_total :
    (u v w : List ℕ)
    → prefix u w ≡ true
    → prefix v w ≡ true
    → (prefix u v ≡ true) ⊎ (prefix v u ≡ true)
prefix_total [] v w p q = inl refl
prefix_total (x ∷ u) [] w p q = inr refl
prefix_total (x ∷ u) (y ∷ v) [] p q = cc p
prefix_total (x ∷ u) (y ∷ v) (z ∷ w) p q = elim (Bool-cases (x == z)) [
  | inl e ↦ elim (Bool-cases (y == z)) [
    | inl f ↦
        let g : (x == y) ≡ true = ground (arith, e, f) in
        let g' : (y == x) ≡ true = ground (arith, e, f) in
        rw (g, g') (prefix_total u v w (rw e at p) (rw f at q))
    | inr f ↦ absurd (cc (rw f at q))
  ]
  | inr e ↦ absurd (cc (rw e at p))
]

pub matches_mono :
    (u w : List ℕ) (ws : List (List ℕ)) → prefix u w ≡ true → matches w ws ≤ matches u ws
matches_mono u w [] p = omega arith
matches_mono u w (v ∷ ws) p = elim (Bool-cases (prefix w v)) [
  | inl e ↦ rw (e, prefix_trans u w v p e) (omega (arith, matches_mono u w ws p))
  | inr e ↦ rw e (elim (Bool-cases (prefix u v)) [
    | inl f ↦ rw f (omega (arith, matches_mono u w ws p))
    | inr f ↦ rw f (omega (arith, matches_mono u w ws p))
  ])
]

-- The count for v where the words that start with w are removed.
abbrev pub left_over : List ℕ → ℕ → List ℕ → ℕ → ℕ
left_over w n v c = if prefix v w then c - n else if prefix w v then 0 else c

pub matches-remove :
    (v w : List ℕ) (ws : List (List ℕ))
    → matches v (remove w ws) ≡ left_over w (matches w ws) v (matches v ws)
matches-remove v w [] = elim (Bool-cases (prefix v w)) [
  | inl e ↦ rw e (omega arith)
  | inr e ↦ rw e (elim (Bool-cases (prefix w v)) [ inl f ↦ rw f refl | inr f ↦ rw f refl ])
]
matches-remove v w (u ∷ ws) =
    let rest = matches-remove v w ws in
    elim (Bool-cases (prefix v w)) [
      | inl e ↦
          let less : matches w ws ≤ matches v ws = matches_mono v w ws e in
          let rest' : matches v (remove w ws) ≡ matches v ws - matches w ws = rw e at rest in
          elim (Bool-cases (prefix w u)) [
            | inl f ↦ rw (e, f, prefix_trans v w u e f) (omega (arith, rest', less))
            | inr f ↦ rw (e, f) (omega (arith, rest', less))
          ]
      | inr e ↦ elim (Bool-cases (prefix w v)) [
        | inl g ↦
            let rest' : matches v (remove w ws) ≡ 0 = rw (e, g) at rest in
            elim (Bool-cases (prefix w u)) [
              | inl f ↦ rw (e, f, g) rest'
              | inr f ↦ elim (Bool-cases (prefix v u)) [
                | inl h ↦ absurd (cc (prefix_trans w v u g h, f))
                | inr h ↦ rw (e, f, g, h) (omega (arith, rest'))
              ]
            ]
        | inr g ↦
            let rest' : matches v (remove w ws) ≡ matches v ws = rw (e, g) at rest in
            elim (Bool-cases (prefix w u)) [
              | inl f ↦ elim (Bool-cases (prefix v u)) [
                | inl h ↦
                    absurd (elim (prefix_total v w u h f) [ inl i ↦ cc (i, e) | inr i ↦ cc (i, g) ])
                | inr h ↦ rw (e, f, g, h) (omega (arith, rest'))
              ]
              | inr f ↦ rw (e, f, g) (omega (arith, rest'))
            ]
      ]
    ]
