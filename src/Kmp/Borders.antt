-- ===== src/Kmp/Borders.antt =====
-- cpp/string/kmp.cpp: occurrences of a prefix, and the borders of the prefixes of a pattern.
use mathlib.Core.Path.{subst}
use language_test.Prelude.{
  ℕ, zero, suc, ◌+◌, ◌-◌, ◌<◌, ◌≤◌, ◌≡◌, sym, ap, ◌∙◌, List, arith, get_or, le_or_lt, inl, inr,
}

abbrev pub char : List ℕ → ℕ → ℕ
char s i = get_or s i 0

-- The first n characters of t stand in s from p on.
abbrev pub Overlap : List ℕ → List ℕ → ℕ → ℕ → Type 0
Overlap s t p n = (m : ℕ) → m < n → char s (p + m) ≡ char t m

-- The first k characters of t are also the last of the first i.
abbrev pub Border : List ℕ → ℕ → ℕ → Type 0
Border t i k = (k < i) × Overlap t t (i - k) k

abbrev pub Longest : List ℕ → ℕ → ℕ → Type 0
Longest t i k = Border t i k × ((k' : ℕ) → Border t i k' → k' ≤ k)

pub at_same : (s : List ℕ) (a b : ℕ) → a ≡ b → char s a ≡ char s b
at_same s a b e = ap (char s) e

-- A shorter border is a border of the longer one.
pub Border-nested :
    (t : List ℕ) (i k k' : ℕ) → Border t i k → Border t i k' → k' < k → Border t k k'
Border-nested t i k k' (l, b) (l', b') h = (
  h,
  λ m p.
      sym (b (k - k' + m) (omega (arith, p, h)))
      ∙ (at_same t (i - k + (k - k' + m)) (i - k' + m) (omega (arith, p, h, l)) ∙ b' m p),
)

-- Borders of borders are borders.
pub Border-trans : (t : List ℕ) (i k k' : ℕ) → Border t i k → Border t k k' → Border t i k'
Border-trans t i k k' (l, b) (l', b') = (
  omega (arith, l, l'),
  λ m p.
      at_same t (i - k' + m) (i - k + (k - k' + m)) (omega (arith, p, l, l'))
      ∙ (b (k - k' + m) (omega (arith, p, l')) ∙ b' m p),
)

pub Border-zero : (t : List ℕ) (i : ℕ) → 0 < i → Border t i 0
Border-zero t i h = (h, λ m p. absurd (omega (arith, p)))

pub Border-suc :
    (t : List ℕ) (i k : ℕ) → Border t i k → char t k ≡ char t i → Border t (i + 1) (k + 1)
Border-suc t i k (l, b) e = (
  omega (arith, l),
  λ m p. elim (le_or_lt k m) [
    | inl q ↦
        let o : m ≡ k = omega (arith, p, q) in
        at_same t (i + 1 - (k + 1) + m) i (omega (arith, l, o)) ∙ (sym e ∙ at_same t k m (sym o))
    | inr q ↦ at_same t (i + 1 - (k + 1) + m) (i - k + m) (omega (arith, l)) ∙ b m q
  ],
)

pub Border-pred :
    (t : List ℕ) (i k : ℕ) → Border t (i + 1) (k + 1) → Border t i k × (char t k ≡ char t i)
Border-pred t i k (l, b) = (
  (
    omega (arith, l),
    λ m p. at_same t (i - k + m) (i + 1 - (k + 1) + m) (omega (arith, l)) ∙ b m (omega (arith, p)),
  ),
  sym (b k (omega arith)) ∙ at_same t (i + 1 - (k + 1) + k) i (omega (arith, l)),
)

-- The longest border of one more character, from the longest of those that the character extends.
pub Longest-suc :
    (t : List ℕ) (e k : ℕ)
    → Border t e k
    → char t k ≡ char t e
    → ((k' : ℕ) → Border t e k' → char t k' ≡ char t e → k' ≤ k)
    → Longest t (e + 1) (k + 1)
Longest-suc t e k b c h = (Border-suc t e k b c, most)
  where
    most : (k' : ℕ) → Border t (e + 1) k' → k' ≤ k + 1
    most zero d = omega arith
    most (suc k') d =
        let (d', c') = Border-pred t e k' (subst (λ z. Border t (e + 1) z) (omega arith) d) in
        omega (arith, h k' d' c')

pub Longest-zero :
    (t : List ℕ) (e : ℕ)
    → ¬ (char t 0 ≡ char t e)
    → ((k' : ℕ) → Border t e k' → char t k' ≡ char t e → k' ≤ 0)
    → Longest t (e + 1) 0
Longest-zero t e c h = (Border-zero t (e + 1) (omega arith), most)
  where
    most : (k' : ℕ) → Border t (e + 1) k' → k' ≤ 0
    most zero d = omega arith
    most (suc k') d =
        let (d', c') = Border-pred t e k' (subst (λ z. Border t (e + 1) z) (omega arith) d) in
        let o : 0 ≡ k' = omega (arith, h k' d' c') in absurd (c (at_same t 0 k' o ∙ c'))
