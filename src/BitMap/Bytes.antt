-- ===== src/BitMap/Bytes.antt =====
-- cpp/algorithm/bitMap.cpp: a bit of a byte after the write of another, by a table of all bytes.
use Prim.Native.Nat.{bit_or, bit_xor}
use language_test.Prelude.{
  ℕ, zero, suc, ◌<◌, ◌≡◌, refl, sym, Bool, true, false, Bool-cases, inl, inr, le_or_lt, ◌&&◌, ◌==◌,
  ltb, if◌then◌else◌, arith,
}
use language_test.BitMap.Defs.{mask, test}

-- The test passes at each number under a bound.
passes : (ℕ → Bool) → ℕ → Bool
passes holds zero = true
passes holds (suc bound) = if passes holds bound then holds bound else false

passes-at :
    (holds : ℕ → Bool) (bound k : ℕ) → k < bound → passes holds bound ≡ true → holds k ≡ true
unfolding passes
passes-at holds zero k l e = elim l [ ]
passes-at holds (suc bound) k l e = elim (Bool-cases (passes holds bound)) [
  | inr none_left ↦ absurd (cc (e, none_left))
  | inl before ↦ elim (le_or_lt bound k) [
    | inr h ↦ passes-at holds bound k h before
    | inl h ↦ let here : k ≡ bound = omega (arith, h, l) in rw here (rw before at e)
  ]
]

abbrev same : Bool → Bool → Bool
same true b = b
same false b = if b then false else true

same-≡ : (a b : Bool) → same a b ≡ true → a ≡ b
same-≡ true b h = sym h
same-≡ false true h = h
same-≡ false false h = refl

-- A law of a byte x, and of the bits at o and p.
every : (ℕ → ℕ → ℕ → Bool) → Bool
every law = passes (λ o. passes (λ p. passes (law o p) 256) 8) 8

every-at :
    (law : ℕ → ℕ → ℕ → Bool)
    → every law ≡ true
    → (o p x : ℕ) → o < 8
    → p < 8
    → x < 256
    → law o p x ≡ true
unfolding every
every-at law h o p x i j k =
    let f = passes-at (λ o. passes (λ p. passes (law o p) 256) 8) 8 o i h in
    passes-at (law o p) 256 x k (passes-at (λ p. passes (law o p) 256) 8 p j f)

or_law : ℕ → ℕ → ℕ → Bool
or_law o p x =
    same (test (bit_or x (mask o)) p) (if p == o then true else test x p)
    && ltb (bit_or x (mask o)) 256

xor_law : ℕ → ℕ → ℕ → Bool
xor_law o p x =
    if test x o
    then same (test (bit_xor x (mask o)) p) (if p == o then false else test x p)
      && ltb (bit_xor x (mask o)) 256
    else true

or_table : every or_law ≡ true
unfolding every passes or_law
or_table = refl

xor_table : every xor_law ≡ true
unfolding every passes xor_law
xor_table = refl

&&-true : (a b : Bool) → (a && b) ≡ true → (a ≡ true) × (b ≡ true)
&&-true true b h = (refl, h)
&&-true false b h = absurd (cc h)

-- `|=` of the mask puts the bit, and leaves the others.
pub bit_or-test :
    (o p x : ℕ)
    → o < 8
    → p < 8
    → x < 256
    → (test (bit_or x (mask o)) p ≡ (if p == o then true else test x p)) × (bit_or x (mask o) < 256)
unfolding or_law
bit_or-test o p x i j k =
    let (a, b) = &&-true _ _ (every-at or_law or_table o p x i j k) in
    (same-≡ _ _ a, ground (arith, b))

-- `^=` of the mask takes away a bit that is there, and leaves the others.
pub bit_xor-test :
    (o p x : ℕ)
    → o < 8
    → p < 8
    → x < 256
    → test x o ≡ true
    → (test (bit_xor x (mask o)) p ≡ (if p == o then false else test x p))
      × (bit_xor x (mask o) < 256)
unfolding xor_law
bit_xor-test o p x i j k h =
    let law = every-at xor_law xor_table o p x i j k in
    let (a, b) = &&-true _ _ (there law) in (same-≡ _ _ a, ground (arith, b))
  where
    there :
        xor_law o p x ≡ true
        → (same (test (bit_xor x (mask o)) p) (if p == o then false else test x p)
            && ltb (bit_xor x (mask o)) 256)
          ≡ true
    there q = rw h at q

zero_table : passes (λ p. same (test 0 p) false) 8 ≡ true
unfolding passes
zero_table = refl

pub test-zero : (p : ℕ) → p < 8 → test 0 p ≡ false
test-zero p h = same-≡ _ _ (passes-at (λ p. same (test 0 p) false) 8 p h zero_table)
