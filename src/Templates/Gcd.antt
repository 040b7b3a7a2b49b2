-- ===== src/Templates/Gcd.antt =====
-- cpp/race/race_template.cpp: `gcd` is the greatest common divisor.
use Prim.Native.Nat.{◌∣◌}
use native.Mathlib.Nat.{dvd_refl, dvd-zero, dvd-mod_iff}
use language_test.Prelude.{
  ℕ, zero, suc, ◌+◌, ◌%◌, ◌<◌, ◌≤◌, ◌≡◌, false, Bool-cases, inl, inr, ◌==◌, ltb, arith, Returns,
  Returns-imp,
}
use language_test.Templates.Defs.{gcd, gcd_loop}

abbrev pub IsGcd : ℕ → ℕ → ℕ → Type 0
IsGcd a b g = (g ∣ a) × (g ∣ b) × ((d : ℕ) → d ∣ a → d ∣ b → d ∣ g)

IsGcd-mod : (a b g : ℕ) → IsGcd b (a % b) g → IsGcd a b g
IsGcd-mod a b g h = ((dvd-mod_iff g h.0).0 h.1, h.0, λ d p q. h.2 d q ((dvd-mod_iff d q).1 p))

IsGcd-swap : (a b g : ℕ) → IsGcd a b g → IsGcd b a g
IsGcd-swap a b g h = (h.1, h.0, λ d p q. h.2 d q p)

gcd_loop-IsGcd :
    (fuel big small : ℕ)
    → small < fuel
    → small ≤ big
    → Returns (gcd_loop fuel big small) (IsGcd big small)
unfolding gcd_loop
gcd_loop-IsGcd zero big small f l = absurd (omega arith)
gcd_loop-IsGcd (suc fuel) big zero f l = (dvd_refl big, dvd-zero big, λ d p q. p)
gcd_loop-IsGcd (suc fuel) big (suc s) f l =
    let o : ltb big (suc s) ≡ false = ground (arith, l) in
    let e : (suc s == 0) ≡ false = ground arith in
    rw (o, e, gcd_loop)
      (Returns-imp (gcd_loop fuel (suc s) (big % suc s)) (IsGcd (suc s) (big % suc s))
        (IsGcd big (suc s)) (gcd_loop-IsGcd fuel (suc s) (big % suc s) (omega arith) (omega arith))
        (λ g h. IsGcd-mod big (suc s) g h))

-- `gcd` ends without a division by zero, and its result divides both arguments and is divided by
-- every common divisor of theirs.
pub gcd-IsGcd : (a b : ℕ) → Returns (gcd a b) (IsGcd a b)
unfolding gcd
gcd-IsGcd a b = elim (Bool-cases (ltb a b)) [
  | inl e ↦
      rw (e, gcd)
        (Returns-imp (gcd_loop (a + 1) b a) (IsGcd b a) (IsGcd a b)
          (gcd_loop-IsGcd (a + 1) b a (omega arith) (ground (arith, e)))
          (λ g h. IsGcd-swap b a g h))
  | inr e ↦ rw (e, gcd) (gcd_loop-IsGcd (b + 1) a b (omega arith) (ground (arith, e)))
]
