-- ===== src/Kmp/Table.antt =====
-- cpp/string/kmp.cpp: getNext finds the longest border of each prefix.
use mathlib.Core.Path.{subst}
use language_test.Prelude.{
  ℕ, zero, suc, ◌+◌, ◌-◌, ◌<◌, ◌≤◌, ◌≡◌, ◌⊎◌, refl, sym, ap, ◌∙◌, true, Bool-cases, inl, inr, some,
  List, ◌==◌, ltb, if◌then◌else◌, ◌>>=◌, get_elem?, get_elem?-set_self, get_elem?-set_ne, set,
  replicate, length, length-set, length-replicate, arith, Returns, Returns-bind,
}
use language_test.Prelude.Int.{ℤ, pos, negsuc}
use language_test.Vector.{get_elem?-value}
use language_test.Kmp.Defs.{fall, next_from, get_next}
use language_test.Kmp.Borders.{
  char, Border, Longest, Border-nested, Border-trans, Border-zero, Longest-suc, Longest-zero,
}

-- The rows of the table below n.
pub record NextTable (t : List ℕ) (next : List ℤ) (n : ℕ) : Type 0 where
  pub size : length next ≡ length t
  pub first : get_elem? next 0 ≡ some (negsuc 0)
  pub rows :
      (i : ℕ)
      → 0 < i
      → i < n
      → i < length t
      → (k : ℕ) × (get_elem? next i ≡ some (pos k)) × Longest t i k

-- The longest border of the first e characters that x extends, or none is extended.
abbrev Falls : List ℕ → ℕ → ℕ → ℕ → Type 0
Falls t e x k =
    Border t e k × ((k' : ℕ) → Border t e k' → char t k' ≡ x → k' ≤ k) × ((k ≡ 0) ⊎ (char t k ≡ x))

fall-Falls :
    (fuel : ℕ) (t : List ℕ) (next : List ℤ) (e x k : ℕ)
    → k < fuel
    → e < length t
    → NextTable t next (e + 1)
    → Border t e k
    → ((k' : ℕ) → Border t e k' → char t k' ≡ x → k' ≤ k)
    → Returns (fall fuel t next x k) (Falls t e x)
unfolding fall
fall-Falls zero t next e x k f l w b h = absurd (omega (arith, f))
fall-Falls (suc fuel) t next e x k f l w b h = elim (Bool-cases (ltb 0 k)) [
  | inr z ↦ rw z (b, h, inl (ground (arith, z)))
  | inl z ↦
      let read = get_elem?-value t k (omega (arith, b.0, l)) in
      elim (Bool-cases (x == char t k)) [
        | inl c ↦ rw (z, read, c) (b, h, inr (ground (arith, c)))
        | inr c ↦
            let (k', row, (b', most)) =
              w.rows k (ground (arith, z)) (omega (arith, b.0)) (omega (arith, b.0, l)) in
            rw (z, read, c, row)
              (fall-Falls fuel t next e x k' (omega (arith, f, b'.0)) l w
                (Border-trans t e k k' b b')
                (λ q d g. elim (Bool-cases (q == k)) [
                  | inl o ↦
                      let o' : q ≡ k = ground (arith, o) in
                      absurd (ground (arith, c, sym g ∙ ap (char t) o'))
                  | inr o ↦ most q (Border-nested t e k q b d (ground (arith, h q d g, o)))
                ]))
      ]
]

-- A row more.
set-NextTable :
    (t : List ℕ) (next : List ℤ) (i k : ℕ)
    → 0 < i
    → i < length t
    → NextTable t next i
    → Longest t i k
    → NextTable t (set next i (pos k)) (i + 1)
set-NextTable t next i k p l w g = record {
  size = length-set next i (pos k) ∙ w.size;
  first = get_elem?-set_ne next (pos k) (λ o. omega (arith, o, p)) ∙ w.first;
  rows = λ j a b c. elim (Bool-cases (j == i)) [
    | inl e ↦
        let o : j ≡ i = ground (arith, e) in
        rw o (k, get_elem?-set_self next i (pos k) (omega (arith, w.size, l)), g)
    | inr e ↦
        let (q, row, best) = w.rows j a (ground (arith, e, b)) c in
        (q, get_elem?-set_ne next (pos k) (λ o. ground (arith, e, o)) ∙ row, best)
  ];
}

-- What the rest of a round makes of the border that `fall` stops at.
Falls-Longest :
    (t : List ℕ) (e k : ℕ)
    → Falls t e (char t e) k
    → Longest t (e + 1) (if char t e == char t k then k + 1 else k)
Falls-Longest t e k (b, most, stop) = elim (Bool-cases (char t e == char t k)) [
  | inl c ↦ rw c (Longest-suc t e k b (ground (arith, c)) most)
  | inr c ↦ elim stop [
    | inl z ↦
        let most' : (k' : ℕ) → Border t e k' → char t k' ≡ char t e → k' ≤ 0 =
          λ k' d g. omega (arith, most k' d g, z) in
        rw (c, z) (Longest-zero t e (λ g. ground (arith, c, ap (char t) z, g)) most')
    | inr g ↦ absurd (ground (arith, c, g))
  ]
]

next_from-NextTable :
    (n i : ℕ) (t : List ℕ) (k : ℕ) (next : List ℤ)
    → n ≡ length t - i
    → 2 ≤ i
    → NextTable t next i
    → Longest t (i - 1) k
    → Returns (next_from n i t k next) (λ new. NextTable t new (length t))
unfolding next_from
next_from-NextTable zero i t k next h p w g = record {
  size = w.size;
  first = w.first;
  rows = λ j a b c. w.rows j a (omega (arith, h, c)) c;
}
next_from-NextTable (suc n) i t k next h p w g =
    let e = i - 1 in
    let o : e + 1 ≡ i = omega (arith, p) in
    let l : i < length t = omega (arith, h) in
    let w' : NextTable t next (e + 1) = rw o w in
    rw (get_elem?-value t e (omega (arith, l))) (
      Returns-bind (fall (k + 1) t next (char t e) k)
        (λ k1. get_elem? t k1 >>= λ y.
          next_from n (i + 1) t (if char t e == y then k1 + 1 else k1)
            (set next i (pos (if char t e == y then k1 + 1 else k1))))
        (Falls t e (char t e)) (λ new. NextTable t new (length t))
        (fall-Falls (k + 1) t next e (char t e) k (omega arith) (omega (arith, l)) w' g.0
          (λ k' d c. g.1 k' d))
        (λ k1 f.
          let k2 = if char t e == char t k1 then k1 + 1 else k1 in
          let best : Longest t i k2 = subst (λ z. Longest t z k2) o (Falls-Longest t e k1 f) in
          let same : i + 1 - 1 ≡ i = omega arith in
          rw (get_elem?-value t k1 (omega (arith, (f.0).0, l))) (
            next_from-NextTable n (i + 1) t k2 (set next i (pos k2)) (omega (arith, h))
              (omega (arith, p)) (set-NextTable t next i k2 (omega (arith, p)) l w best)
              (subst (λ z. Longest t z k2) (sym same) best))))

get_elem?-replicate : (n i : ℕ) (v : ℤ) → i < n → get_elem? (replicate n v) i ≡ some v
get_elem?-replicate zero i v h = absurd (omega (arith, h))
get_elem?-replicate (suc n) zero v h = refl
get_elem?-replicate (suc n) (suc i) v h = get_elem?-replicate n i v (omega (arith, h))

-- One character has the empty border only.
one-Longest : (t : List ℕ) → Longest t 1 0
one-Longest t = (Border-zero t 1 (omega arith), λ k d. omega (arith, d.0))

pub get_next-NextTable :
    (t : List ℕ) → 0 < length t → Returns (get_next t) (λ next. NextTable t next (length t))
unfolding get_next
get_next-NextTable t h =
    let e : ltb 0 (length t) ≡ true = ground (arith, h) in
    let zeros = replicate (length t) (pos 0) in
    let size : length zeros ≡ length t = length-replicate (length t) (pos 0) in
    rw e (
      next_from-NextTable (length t - 2) 2 t 0 (set zeros 0 (negsuc 0)) refl (omega arith)
        (record {
          size = length-set zeros 0 (negsuc 0) ∙ size;
          first = get_elem?-set_self zeros 0 (negsuc 0) (omega (arith, size, h));
          rows = λ i a b c.
              let o : i ≡ 1 = omega (arith, a, b) in
              rw o (
                0,
                get_elem?-set_ne zeros (negsuc 0) (λ z. omega (arith, z))
                    ∙ get_elem?-replicate (length t) 1 (pos 0) (omega (arith, c, o)),
                one-Longest t,
              );
        })
        (one-Longest t))
