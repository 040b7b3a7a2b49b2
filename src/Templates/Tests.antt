-- ===== src/Templates/Tests.antt =====
-- cpp/race/race_template.cpp: the functions at small inputs, and the theorems there.
use language_test.Prelude.{
  List, [], ◌∷◌, length, if◌then◌else◌, ◌==◌, ℕ, ◌^◌, ◌%◌, ◌<◌, ◌≡◌, refl, arith, true, some,
  Returns,
}
use language_test.Prelude.Int.{pos, negsuc}
use language_test.Templates.Defs.{
  join, pow_loop, gcd, gcd_loop, quick_pow, is_prime, prime_from, find, init, modulus,
}
use language_test.Templates.Power.{quick_pow-mod}
use language_test.Templates.Unions.{find-init, join-find}

quick_pow-mod_example : Returns (quick_pow (pos 3) 20) (λ r. r ≡ pos (3 ^ 20 % modulus))
quick_pow-mod_example = quick_pow-mod 3 20 (omega arith) (omega arith)

-- A negative base is converted to uint64_t.
minus_two : quick_pow (negsuc 1) 1 ≡ some (pos 582344006)
unfolding quick_pow pow_loop
minus_two = refl

find_three : (i : ℕ) → i < 3 → find 1 i (init 3) ≡ some i
find_three i h = find-init 3 i h

gcd_six : gcd 12 18 ≡ some 6
unfolding gcd gcd_loop
gcd_six = refl

-- 4 and 9 are not prime.
prime_four : is_prime 4 ≡ some true
unfolding is_prime prime_from
prime_four = refl

prime_nine : is_prime 9 ≡ some true
unfolding is_prime prime_from
prime_nine = refl

-- Four cities, where 0 and 1 are joined already.
abbrev cities : List ℕ
cities = 1 ∷ 1 ∷ 2 ∷ 3 ∷ []

city_0 : find 2 0 cities ≡ some 1
unfolding find
city_0 = refl

city_2 : find 2 2 cities ≡ some 2
unfolding find
city_2 = refl

join-find_example :
    Returns
      (join 2 0 2 cities)
      (λ fb. (length fb ≡ 4) × (find 3 0 fb ≡ some (if 1 == 1 then 2 else 1)))
join-find_example = join-find 2 0 2 0 1 2 1 cities city_0 city_2 city_0
