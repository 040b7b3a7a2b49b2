-- ===== src/Templates/Defs.antt =====
-- cpp/race/race_template.cpp: quick_pow, gcd, is_prime and the union-find of class Solution. `none` is
-- undefined behaviour (signed overflow, a division by zero, an index out of bounds), or fuel that
-- ran out. Arguments are not negative, but for the base of quick_pow.
use language_test.Prelude.{
  ℕ, zero, suc, ◌+◌, ◌-◌, ◌*◌, ◌/◌, ◌%◌, ◌^◌, Bool, true, false, Option, none, some, List, [], ◌∷◌,
  ◌==◌, ltb, leb, if◌then◌else◌, ◌>>=◌, get_elem?, set,
}
use language_test.Prelude.Int.{ℤ, pos, negsuc}

abbrev pub modulus : ℕ
modulus = 1000000007

abbrev pub minus : ℕ → ℤ
minus zero = pos 0
minus (suc n) = negsuc n

abbrev pub product : ℤ → ℤ → ℤ
product (pos a) (pos b) = pos (a * b)
product (pos a) (negsuc b) = minus (a * suc b)
product (negsuc a) (pos b) = minus (suc a * b)
product (negsuc a) (negsuc b) = pos (suc a * suc b)

-- `p % mod` of a long long: `mod` is a uint64_t, so p is converted to one.
abbrev pub rem_mod : ℤ → Option ℕ
rem_mod (pos p) = if ltb p (2 ^ 63) then some (p % 2 ^ 64 % modulus) else none
rem_mod (negsuc p) = if ltb p (2 ^ 63) then some ((2 ^ 64 - suc p) % modulus) else none

-- The loop of `quick_pow`.
unfoldable pub pow_loop : ℕ → ℤ → ℤ → ℕ → Option ℤ
pow_loop zero res x n = none
pow_loop (suc fuel) res x n =
    if n == 0
    then some res
    else ((if n % 2 == 1 then (rem_mod (product res x) >>= λ p. some (pos p)) else some res)
        >>= λ res'. rem_mod (product x x) >>= λ y. pow_loop fuel res' (pos y) (n / 2))

unfoldable pub quick_pow : ℤ → ℕ → Option ℤ
quick_pow x n = pow_loop 64 (pos 1) x n

-- The loop of `gcd`.
unfoldable pub gcd_loop : ℕ → ℕ → ℕ → Option ℕ
gcd_loop zero big small = none
gcd_loop (suc fuel) big small =
    let b = if ltb big small then small else big in
    let s = if ltb big small then big else small in
    let rest = gcd_loop fuel s (b % s) in
    if small == 0 then some big else if s == 0 then none else rest

unfoldable pub gcd : ℕ → ℕ → Option ℕ
gcd big small =
    if ltb big small then gcd_loop (big + 1) small big else gcd_loop (small + 1) big small

-- The loop of `is_prime`; `t * t` is an int.
unfoldable pub prime_from : ℕ → ℕ → ℕ → Option Bool
prime_from zero t val = none
prime_from (suc fuel) t val =
    let rest = prime_from fuel (t + 1) val in
    if ltb (t * t) (2 ^ 31)
    then (if ltb (t * t) val then if val % t == 0 then some false else rest else some true)
    else none

unfoldable pub is_prime : ℕ → Option Bool
is_prime val = if leb val 1 then some false else prime_from 46341 2 val

-- `init`: `father[i] = i` for i below n.
unfoldable pub init_from : ℕ → ℕ → List ℕ
init_from i zero = []
init_from i (suc n) = i ∷ init_from (i + 1) n

unfoldable pub init : ℕ → List ℕ
init n = init_from 0 n

unfoldable pub find : ℕ → ℕ → List ℕ → Option ℕ
find zero i father = none
find (suc fuel) i father = get_elem? father i >>= λ p. if i == p then some i else find fuel p father

unfoldable pub join : ℕ → ℕ → ℕ → List ℕ → Option (List ℕ)
join fuel i j father =
    find fuel i father >>= λ ri. find fuel j father >>= λ rj. some (set father ri rj)
