-- ===== src/Kmp/Laws.antt =====
-- cpp/string/kmp.cpp: kmp finds the first occurrence of the pattern.
use language_test.Prelude.{
  ℕ, zero, suc, ◌+◌, ◌-◌, ◌*◌, ◌<◌, ◌≤◌, ◌≡◌, ◌⊎◌, refl, sym, ap, ◌∙◌, Bool-cases, ◌&&◌, inl, inr,
  none, some, List, [], ◌==◌, ltb, if◌then◌else◌, ◌>>=◌, get_elem?, length, arith, le_or_lt,
  Returns, Returns-bind,
}
use language_test.Prelude.Int.{ℤ, pos, negsuc}
use language_test.Vector.{get_elem?-value}
use language_test.Kmp.Defs.{get_next, match_loop, kmp}
use language_test.Kmp.Borders.{char, Overlap, Border, Longest, at_same}
use language_test.Kmp.Table.{NextTable, get_next-NextTable}

-- The pattern t stands in s at p.
abbrev pub Occurs : List ℕ → List ℕ → ℕ → Type 0
Occurs s t p = (p + length t ≤ length s) × Overlap s t p (length t)

-- The first j characters of t stand before i in s, and t does not stand in s before them.
record Scans (s t : List ℕ) (i j : ℕ) : Type 0 where
  order : j ≤ i
  text : i ≤ length s
  pattern : j ≤ length t
  overlap : Overlap s t (i - j) j
  missed : (p : ℕ) → p < i - j → ¬ Occurs s t p

Scans-next :
    (s t : List ℕ) (i j : ℕ)
    → Scans s t i j
    → i < length s
    → j < length t
    → char s i ≡ char t j
    → Scans s t (i + 1) (j + 1)
Scans-next s t i j c l k e = record {
  order = omega (arith, c.order);
  text = omega (arith, l);
  pattern = omega (arith, k);
  overlap = λ m p. elim (le_or_lt j m) [
    | inl q ↦
        let o : m ≡ j = omega (arith, p, q) in
        at_same s (i + 1 - (j + 1) + m) i (omega (arith, c.order, o)) ∙ (e ∙ at_same t j m (sym o))
    | inr q ↦ at_same s (i + 1 - (j + 1) + m) (i - j + m) (omega arith) ∙ c.overlap m q
  ];
  missed = λ p h. c.missed p (omega (arith, h));
}

-- Where a character differs, t does not stand in s around it.
differs :
    (s t : List ℕ) (i j : ℕ) → j ≤ i → j < length t → ¬ (char s i ≡ char t j) → ¬ Occurs s t (i - j)
differs s t i j h k d (l, o) = d (at_same s i (i - j + j) (omega (arith, h)) ∙ o j k)

-- The pattern moves on to its longest border.
Scans-fall :
    (s t : List ℕ) (i j k : ℕ)
    → Scans s t i j
    → j < length t
    → ¬ (char s i ≡ char t j)
    → Longest t j k
    → Scans s t i k
Scans-fall s t i j k c l d ((h, b), most) = record {
  order = omega (arith, h, c.order);
  text = c.text;
  pattern = omega (arith, h, l);
  overlap = λ m p.
      at_same s (i - k + m) (i - j + (j - k + m)) (omega (arith, h, c.order, p))
      ∙ (c.overlap (j - k + m) (omega (arith, h, p)) ∙ b m p);
  missed = λ p q o. elim (le_or_lt (i - j) p) [
    | inr a ↦ c.missed p a o
    | inl a ↦ elim (Bool-cases (p == i - j)) [
      | inl e ↦ let e' : p ≡ i - j = ground (arith, e) in differs s t i j c.order l d (rw e' at o)
      | inr e ↦
          let a' : i - j < p = ground (arith, a, e) in
          let border : Border t j (i - p) = (
            omega (arith, a', q, c.order),
            λ m r.
                sym (c.overlap (j - (i - p) + m) (omega (arith, a', q, r)))
                ∙ (at_same s (i - j + (j - (i - p) + m)) (p + m) (omega (arith, a', q, r, c.order))
                    ∙ o.1 m (omega (arith, r, a', l))),
          ) in
          omega (arith, most (i - p) border, q)
    ]
  ];
}

-- The first character of t is none of s at i.
Scans-skip :
    (s t : List ℕ) (i : ℕ)
    → Scans s t i 0
    → i < length s
    → 0 < length t
    → ¬ (char s i ≡ char t 0)
    → Scans s t (i + 1) 0
Scans-skip s t i c l k d = record {
  order = omega arith;
  text = omega (arith, l);
  pattern = omega arith;
  overlap = λ m p. absurd (omega (arith, p));
  missed = λ p q o. elim (Bool-cases (p == i)) [
    | inl e ↦
        let e' : p ≡ i - 0 = ground (arith, e) in differs s t i 0 (omega arith) k d (rw e' at o)
    | inr e ↦ c.missed p (ground (arith, q, e)) o
  ];
}

-- The loop ends at the end of s or of t.
abbrev Ends : List ℕ → List ℕ → ℕ × ℕ → Type 0
Ends s t p = Scans s t (p.0) (p.1) × ((p.0 ≡ length s) ⊎ (p.1 ≡ length t))

match_loop-Ends :
    (fuel : ℕ) (s t : List ℕ) (next : List ℤ) (i j : ℕ)
    → 2 * (length s - i) + j < fuel
    → NextTable t next (length t)
    → Scans s t i j
    → Returns (match_loop fuel s t next i j) (Ends s t)
unfolding match_loop
match_loop-Ends zero s t next i j f w c = absurd (omega (arith, f))
match_loop-Ends (suc fuel) s t next i j f w c =
    elim (Bool-cases (ltb i (length s) && ltb j (length t))) [
      | inr b ↦ rw b (
        c,
        elim (le_or_lt (length s) i) [
          | inl l ↦ inl (omega (arith, l, c.text))
          | inr l ↦ inr (ground (arith, b, l, c.pattern))
        ],
      )
      | inl b ↦
          let l : i < length s = ground (arith, b) in
          let k : j < length t = ground (arith, b) in
          elim (Bool-cases (char s i == char t j)) [
            | inl e ↦
                rw (b, get_elem?-value s i l, get_elem?-value t j k, e)
                  (match_loop-Ends fuel s t next (i + 1) (j + 1) (omega (arith, f, l)) w
                    (Scans-next s t i j c l k (ground (arith, e))))
            | inr e ↦
                let d : ¬ (char s i ≡ char t j) = λ o. ground (arith, e, o) in
                elim (Bool-cases (ltb 0 j)) [
                  | inl z ↦
                      let (q, row, best) = w.rows j (ground (arith, z)) k k in
                      rw (b, get_elem?-value s i l, get_elem?-value t j k, e, row)
                        (match_loop-Ends fuel s t next i q (omega (arith, f, (best.0).0)) w
                          (Scans-fall s t i j q c k d best))
                  | inr z ↦
                      let o : j ≡ 0 = ground (arith, z) in
                      let row : get_elem? next j ≡ some (negsuc 0) =
                        ap (λ x. get_elem? next x) o ∙ w.first in
                      rw (b, get_elem?-value s i l, get_elem?-value t j k, e, row)
                        (match_loop-Ends fuel s t next (i + 1) 0 (omega (arith, f, l)) w
                          (Scans-skip s t i (rw o at c) l (omega (arith, k)) (rw o at d)))
                ]
          ]
    ]

-- The index of the first occurrence, or -1 where there is none.
abbrev pub FindsFirst : List ℕ → List ℕ → ℤ → Type 0
FindsFirst s t r =
    ((p : ℕ) × (r ≡ pos p) × Occurs s t p × ((q : ℕ) → q < p → ¬ Occurs s t q))
    ⊎ ((r ≡ negsuc 0) × ((p : ℕ) → ¬ Occurs s t p))

-- For a pattern that is not empty, `kmp` ends without an access out of bounds and returns the index of
-- the first occurrence of the pattern in the text, or -1 where it does not occur.
pub kmp-FindsFirst : (s t : List ℕ) → 0 < length t → Returns (kmp s t) (FindsFirst s t)
unfolding kmp
kmp-FindsFirst s t h =
    Returns-bind (get_next t)
      (λ next. match_loop (2 * length s + 1) s t next 0 0 >>= λ p.
        some (if p.1 == length t then pos (p.0 - p.1) else negsuc 0))
      (λ next. NextTable t next (length t)) (FindsFirst s t) (get_next-NextTable t h)
      (λ next w.
        Returns-bind (match_loop (2 * length s + 1) s t next 0 0)
          (λ p. some (if p.1 == length t then pos (p.0 - p.1) else negsuc 0)) (Ends s t)
          (FindsFirst s t)
          (match_loop-Ends (2 * length s + 1) s t next 0 0 (omega arith) w (record {
            order = omega arith;
            text = omega arith;
            pattern = omega arith;
            overlap = λ m p. absurd (omega (arith, p));
            missed = λ p q. absurd (omega (arith, q));
          }))
          (λ (i, j) (c, e). elim (Bool-cases (j == length t)) [
            | inl o ↦
                let o' : j ≡ length t = ground (arith, o) in
                rw o (
                  inl (
                    i - j,
                    refl,
                    (omega (arith, c.order, c.text, o'), λ m l. c.overlap m (omega (arith, l, o'))),
                    c.missed,
                  ))
            | inr o ↦
                let e' : i ≡ length s = elim e [
                  | inl a ↦ a
                  | inr a ↦ absurd (ground (arith, a, o))
                ] in
                let short : j < length t = ground (arith, o, c.pattern) in
                rw o (
                  inr (
                    refl,
                    λ p u. elim (le_or_lt (i - j) p) [
                      | inl a ↦ omega (arith, a, u.0, e', short, c.order)
                      | inr a ↦ c.missed p a u
                    ],
                  ))
          ]))

-- For the empty pattern `getNext` writes next[0] out of bounds.
pub kmp-empty : (s : List ℕ) → kmp s [] ≡ none
unfolding kmp get_next
kmp-empty s = refl
