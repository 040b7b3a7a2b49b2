-- ===== src/BasicString/Alloc.antt =====
-- cpp/string/my_string.cpp: the sizes that `get_realloc_size` returns.
use language_test.Prelude.{
  ℕ, zero, suc, ◌*◌, ◌%◌, ◌^◌, ◌<◌, ◌≤◌, ◌≡◌, ◌⊎◌, refl, sym, leb, arith, Bool-cases, false, inl,
  inr, leb→le, Returns, Returns-imp,
}
use native.Mathlib.Nat.{pow-succ', mul_assoc}
use language_test.BasicString.Defs.{get_realloc_size, double_above}

double_above-bound :
    (fuel res len : ℕ)
    → len < res * 2 ^ fuel
    → 2 * len < 2 ^ 64
    → Returns (double_above (suc fuel) res len) (λ r. (len < r) × ((r ≡ res) ⊎ (r ≤ 2 * len)))
unfolding double_above
double_above-bound zero res len b m =
    let g : leb res len ≡ false = ground (arith, b) in
    rw (g, double_above) (omega (arith, b), inl refl)
double_above-bound (suc fuel) res len b m = elim (Bool-cases (leb res len)) [
  | inl e ↦
      let k : res * 2 % 2 ^ 64 ≡ res * 2 = omega (arith, leb→le res len e, m) in
      let h : len < res * 2 * 2 ^ fuel =
        rw (mul_assoc res 2 (2 ^ fuel), sym (pow-succ' 2 fuel)) b in
      rw (e, double_above)
        (rw k (
          Returns-imp (double_above (suc fuel) (res * 2) len)
            (λ r. (len < r) × ((r ≡ res * 2) ⊎ (r ≤ 2 * len)))
            (λ r. (len < r) × ((r ≡ res) ⊎ (r ≤ 2 * len)))
            (double_above-bound fuel (res * 2) len h m)
            (λ r q. (q.0, inr (ground (arith, q.1, leb→le res len e))))))
  | inr e ↦ rw (e, double_above) (ground (arith, e), inl refl)
]

-- For a length of less than half of a size_t, `get_realloc_size` ends and returns more than `len`:
-- 8, or at most twice `len`.
pub get_realloc_size-bound :
    (len : ℕ)
    → 2 * len < 2 ^ 64
    → Returns (get_realloc_size len) (λ r. (len < r) × ((r ≡ 8) ⊎ (r ≤ 2 * len)))
get_realloc_size-bound len m = double_above-bound 61 8 len (omega arith) m
