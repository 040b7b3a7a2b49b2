-- ===== src/Templates/Power.antt =====
-- cpp/race/race_template.cpp: `quick_pow` computes a power modulo 10^9 + 7.
use native.Mathlib.Nat.{
  mul-le-mul, mul_assoc, mul_comm, pow-succ', mul-add-mod_self_left, add-mul, div-add-mod,
  mod-eq_of_lt, pow-zero,
}
use language_test.Prelude.{
  ℕ, zero, suc, ◌+◌, ◌*◌, ◌/◌, ◌%◌, ◌^◌, ◌<◌, ◌≤◌, ◌≡◌, sym, ap, ◌∙◌, true, false, Bool-cases, inl,
  inr, ◌==◌, ltb, arith, le_or_lt, Returns, Returns-imp,
}
use language_test.Prelude.Int.{pos}
use language_test.Templates.Defs.{quick_pow, pow_loop, modulus}

mod-mul-mod : (a b m : ℕ) → a % m * b % m ≡ a * b % m
mod-mul-mod a b m =
    let q = a / m in
    let r = a % m in
    sym (
      ap (λ x. x * b % m) (sym (div-add-mod a m))
      ∙ ap (λ x. x % m) (add-mul (m * q) r b ∙ ap (λ x. x + r * b) (mul_assoc m q b))
      ∙ mul-add-mod_self_left m (q * b) (r * b))

mul_swap : (r y z : ℕ) → r * y * z ≡ y * (r * z)
mul_swap r y z = ap (λ x. x * z) (mul_comm r y) ∙ mul_assoc y r z

-- A base may be reduced before the power.
pow-mod : (r y h m : ℕ) → r * (y % m) ^ h % m ≡ r * y ^ h % m
pow-mod r y zero m = ap (λ k. r * k % m) (pow-zero (y % m) ∙ sym (pow-zero y))
pow-mod r y (suc h) m =
    let u = y % m in
    ap (λ k. k % m) (ap (λ k. r * k) (pow-succ' u h) ∙ sym (mul_assoc r u (u ^ h)))
    ∙ pow-mod (r * u) y h m
    ∙ ap (λ k. k % m) (mul_swap r u (y ^ h))
    ∙ mod-mul-mod y (r * y ^ h) m
    ∙ ap (λ k. k % m)
        (sym (mul_swap r y (y ^ h)) ∙ mul_assoc r y (y ^ h) ∙ ap (λ k. r * k) (sym (pow-succ' y h)))

pow_square : (x h : ℕ) → (x * x) ^ h ≡ x ^ (h + h)
pow_square x zero = pow-zero (x * x) ∙ sym (pow-zero x)
pow_square x (suc h) =
    let e : suc h + suc h ≡ suc (suc (h + h)) = omega arith in
    pow-succ' (x * x) h
    ∙ ap (λ k. x * x * k) (pow_square x h)
    ∙ mul_assoc x x (x ^ (h + h))
    ∙ sym (ap (λ k. x ^ k) e ∙ pow-succ' x (suc (h + h)) ∙ ap (λ k. x * k) (pow-succ' x (h + h)))

product_lt : (a b : ℕ) → a < modulus → b < modulus → a * b < 2 ^ 63
product_lt a b h k =
    let l : a ≤ modulus = omega arith in
    let m : b ≤ modulus = omega arith in omega (arith, mul-le-mul l m)

mod_lt : (a : ℕ) → a % modulus < modulus
mod_lt a = omega arith

-- Squaring the base and halving the exponent.
square_step : (r x h : ℕ) → r * (x * x % modulus) ^ h % modulus ≡ r * x ^ (h + h) % modulus
square_step r x h = pow-mod r (x * x) h modulus ∙ ap (λ k. r * k % modulus) (pow_square x h)

odd_step :
    (r x h : ℕ) → r * x % modulus * (x * x % modulus) ^ h % modulus ≡ r * x ^ suc (h + h) % modulus
odd_step r x h =
    square_step (r * x % modulus) x h
    ∙ mod-mul-mod (r * x) (x ^ (h + h)) modulus
    ∙ ap (λ k. k % modulus)
        (mul_assoc r x (x ^ (h + h)) ∙ ap (λ k. r * k) (sym (pow-succ' x (h + h))))

pow_loop_lem :
    (fuel res x n : ℕ)
    → n < 2 ^ fuel
    → res < modulus
    → x * x < 2 ^ 63
    → res * x < 2 ^ 63
    → Returns (pow_loop (suc fuel) (pos res) (pos x) n) (λ r. r ≡ pos (res * x ^ n % modulus))
unfolding pow_loop
pow_loop_lem fuel res x zero f l s t =
    let o : res * 1 ≡ res = omega arith in
    sym
      (ap pos (ap (λ k. res * k % modulus) (pow-zero x) ∙ ap (λ k. k % modulus) o ∙ mod-eq_of_lt l))
pow_loop_lem zero res x (suc n) f l s t = absurd (omega arith)
pow_loop_lem (suc fuel) res x (suc n) f l s t =
    let h = suc n / 2 in
    let y = x * x % modulus in
    let e : (suc n == 0) ≡ false = ground arith in
    let g : ltb (x * x) (2 ^ 63) ≡ true = ground (arith, s) in
    let gm : x * x % 2 ^ 64 ≡ x * x = mod-eq_of_lt (omega (arith, s)) in
    let k : h < 2 ^ fuel = omega (arith, pow-succ' 2 fuel) in
    elim (Bool-cases (suc n % 2 == 1)) [
      | inl o ↦
          let u : ltb (res * x) (2 ^ 63) ≡ true = ground (arith, t) in
          let um : res * x % 2 ^ 64 ≡ res * x = mod-eq_of_lt (omega (arith, t)) in
          let res' = res * x % modulus in
          let c : suc n ≡ suc (h + h) = ground (arith, o) in
          rw (e, o, u, um, g, gm, pow_loop)
            (Returns-imp (pow_loop (suc fuel) (pos res') (pos y) h)
              (λ r. r ≡ pos (res' * y ^ h % modulus)) (λ r. r ≡ pos (res * x ^ suc n % modulus))
              (pow_loop_lem fuel res' y h k (mod_lt (res * x))
                (product_lt y y (mod_lt (x * x)) (mod_lt (x * x)))
                (product_lt res' y (mod_lt (res * x)) (mod_lt (x * x))))
              (λ r q. q ∙ ap pos (odd_step res x h ∙ ap (λ k. res * x ^ k % modulus) (sym c))))
      | inr o ↦
          let c : suc n ≡ h + h = ground (arith, o) in
          rw (e, o, g, gm, pow_loop)
            (Returns-imp (pow_loop (suc fuel) (pos res) (pos y) h)
              (λ r. r ≡ pos (res * y ^ h % modulus)) (λ r. r ≡ pos (res * x ^ suc n % modulus))
              (pow_loop_lem fuel res y h k l (product_lt y y (mod_lt (x * x)) (mod_lt (x * x)))
                (product_lt res y l (mod_lt (x * x))))
              (λ r q. q ∙ ap pos (square_step res x h ∙ ap (λ k. res * x ^ k % modulus) (sym c))))
    ]

-- `quick_pow` of a base that is not negative and whose square fits a long long ends without an overflow,
-- and computes the power modulo 10^9 + 7.
pub quick_pow-mod :
    (x n : ℕ)
    → x * x < 2 ^ 63
    → n < 2 ^ 63
    → Returns (quick_pow (pos x) n) (λ r. r ≡ pos (x ^ n % modulus))
unfolding quick_pow
quick_pow-mod x n s h =
    let o : 1 * x ^ n ≡ x ^ n = omega arith in
    let b : x < 2 ^ 63 = elim (le_or_lt (2 ^ 63) x) [
      | inr l ↦ l
      | inl l ↦
          let p : 1 ≤ x = omega arith in
          let q : x ≤ x = omega arith in absurd (omega (arith, mul-le-mul p q, l, s))
    ] in
    Returns-imp (pow_loop 64 (pos 1) (pos x) n) (λ r. r ≡ pos (1 * x ^ n % modulus))
      (λ r. r ≡ pos (x ^ n % modulus)) (pow_loop_lem 63 1 x n h (omega arith) s (omega arith))
      (λ r q. q ∙ ap pos (ap (λ k. k % modulus) o))
