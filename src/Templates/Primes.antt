-- ===== src/Templates/Primes.antt =====
-- cpp/race/race_template.cpp: what `is_prime` tests.
use native.Mathlib.Nat.{mul-le-mul}
use language_test.Prelude.{
  ℕ, zero, suc, ◌+◌, ◌*◌, ◌%◌, ◌^◌, ◌<◌, ◌≤◌, ◌≡◌, ◌≢◌, ◌↔◌, refl, true, false, Bool-cases, inl,
  inr, ◌==◌, ltb, leb, arith, Returns, Returns-imp, le_or_lt,
}
use language_test.Templates.Defs.{is_prime, prime_from}

-- No number from `t` on whose square is below `val` divides it.
abbrev pub NoDivisor : ℕ → ℕ → Type 0
NoDivisor t val = (d : ℕ) → t ≤ d → d * d < val → val % d ≢ 0

square_le : (a b : ℕ) → a ≤ b → a * a ≤ b * b
square_le a b h = mul-le-mul h h

square_lt : (t : ℕ) → t ≤ 46340 → t * t < 2 ^ 31
square_lt t h = omega (arith, square_le t 46340 h)

prime_from-NoDivisor :
    (fuel t val : ℕ)
    → 46341 < fuel + t
    → t ≤ 46340
    → val ≤ 46340 * 46340
    → Returns (prime_from fuel t val) (λ b. (b ≡ true) ↔ NoDivisor t val)
unfolding prime_from
prime_from-NoDivisor zero t val f l v = absurd (omega arith)
prime_from-NoDivisor (suc fuel) t val f l v =
    let o : t * t < 2 ^ 31 = square_lt t l in
    let small : t * t < val → t + 1 ≤ 46340 = λ h. elim (le_or_lt 46340 t) [
      | inl k ↦ absurd (omega (arith, square_le 46340 t k))
      | inr k ↦ omega (arith, k)
    ] in
    let e : ltb (t * t) (2 ^ 31) ≡ true = ground (arith, o) in
    elim (le_or_lt val (t * t)) [
      | inl h ↦
          let g : ltb (t * t) val ≡ false = ground (arith, h) in
          rw (e, g, prime_from) ((λ p d q r. absurd (omega (arith, square_le t d q))), λ p. refl)
      | inr h ↦
          let g : ltb (t * t) val ≡ true = ground (arith, h) in
          elim (Bool-cases (val % t == 0)) [
            | inl z ↦
                rw (e, g, z, prime_from)
                  ((λ p. cc p), λ p. absurd (p t (omega arith) h (ground (arith, z))))
            | inr z ↦
                rw (e, g, z, prime_from)
                  (Returns-imp (prime_from fuel (t + 1) val)
                    (λ b. (b ≡ true) ↔ NoDivisor (t + 1) val) (λ b. (b ≡ true) ↔ NoDivisor t val)
                    (prime_from-NoDivisor fuel (t + 1) val (omega arith) (small h) v)
                    (λ b q. (
                      (λ p d m n. elim (le_or_lt d t) [
                        | inl k ↦ let k' : d ≡ t = omega arith in rw k' (λ w. ground (arith, z, w))
                        | inr k ↦ q.0 p d (omega arith) n
                      ]),
                      λ p. q.1 (λ d m n. p d (omega arith) n),
                    )))
          ]
    ]

-- For a value up to 46340 ^ 2, where `t * t` fits an int, `is_prime` ends. It says yes exactly to the
-- values above 1 that no number from 2 on divides whose square is below the value.
pub is_prime-NoDivisor :
    (val : ℕ)
    → val ≤ 46340 * 46340
    → Returns (is_prime val) (λ b. (b ≡ true) ↔ ((1 < val) × NoDivisor 2 val))
unfolding is_prime
is_prime-NoDivisor val v = elim (le_or_lt val 1) [
  | inl h ↦
      let e : leb val 1 ≡ true = ground (arith, h) in
      rw (e, is_prime) ((λ p. cc p), λ p. absurd (omega (arith, p.0)))
  | inr h ↦
      let e : leb val 1 ≡ false = ground (arith, h) in
      rw (e, is_prime)
        (Returns-imp (prime_from 46341 2 val) (λ b. (b ≡ true) ↔ NoDivisor 2 val)
          (λ b. (b ≡ true) ↔ ((1 < val) × NoDivisor 2 val))
          (prime_from-NoDivisor 46341 2 val (omega arith) (omega arith) v)
          (λ b q. ((λ p. (h, q.0 p)), λ p. q.1 p.1)))
]
