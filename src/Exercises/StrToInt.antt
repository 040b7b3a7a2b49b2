-- ===== src/Exercises/StrToInt.antt =====
-- cpp/online_judge/leetcode/editor/cn/把字符串转换成整数.cpp: strToInt. A string is the list of its characters as
-- ASCII codes; str[str.size()] is the null character. The long long stays below 2^35.
pub mod Decimal
use language_test.Prelude.{
  ℕ, zero, suc, ◌+◌, ◌-◌, ◌*◌, ◌/◌, ◌%◌, ◌^◌, ◌<◌, ◌≤◌, ◌≡◌, refl, sym, ap, ◌∙◌, Bool, true, false,
  Bool-cases, ◌&&◌, inl, inr, List, [], ◌∷◌, ◌++◌, ◌==◌, ltb, leb, if◌then◌else◌, arith,
}
use language_test.Prelude.Int.{ℤ, pos, negsuc, ◌≤ℤ◌, ltb_ℤ, sub_ℕ}

abbrev pub int_max : ℤ
int_max = pos (2 ^ 31 - 1)

abbrev pub int_min : ℤ
int_min = negsuc (2 ^ 31 - 1)

-- `res * flag`
abbrev pub signed : Bool → ℕ → ℤ
signed minus n = if minus then sub_ℕ 0 n else pos n

abbrev pub is_digit : ℕ → Bool
is_digit c = leb 48 c && leb c 57

abbrev pub skip_spaces : List ℕ → List ℕ
skip_spaces [] = []
skip_spaces (c ∷ str) = if c == 32 then skip_spaces str else c ∷ str

-- The loop over the digits.
unfoldable pub read_digits : Bool → ℕ → List ℕ → ℤ
read_digits minus res [] = signed minus res
read_digits minus res (c ∷ str) =
    let rest = read_digits minus (res * 10 + (c - 48)) str in
    let here = signed minus (res * 10 + (c - 48)) in
    if is_digit c
    then (if ltb_ℤ int_max here then int_max else if ltb_ℤ here int_min then int_min else rest)
    else signed minus res

-- The sign and the digits behind it.
unfoldable pub read_signed : List ℕ → ℤ
read_signed [] = signed false 0
read_signed (c ∷ str) =
    if c == 45
    then read_digits true 0 str
    else if c == 43
    then read_digits false 0 str
    else read_digits false 0 (c ∷ str)

unfoldable pub str_to_int : List ℕ → ℤ
str_to_int str = read_signed (skip_spaces str)

-- The number of the leading digits, behind those of acc.
abbrev pub number : ℕ → List ℕ → ℕ
number acc [] = acc
number acc (c ∷ str) = if is_digit c then number (acc * 10 + (c - 48)) str else acc

-- The nearest int.
abbrev pub clamp : ℤ → ℤ
clamp z = if ltb_ℤ int_max z then int_max else if ltb_ℤ z int_min then int_min else z

number-ge : (acc : ℕ) (str : List ℕ) → acc ≤ number acc str
number-ge acc [] = omega arith
number-ge acc (c ∷ str) = elim (Bool-cases (is_digit c)) [
  | inl e ↦ rw e (omega (arith, number-ge (acc * 10 + (c - 48)) str))
  | inr e ↦ rw e (omega arith)
]

above :
    (minus : Bool) (n : ℕ)
    → ltb_ℤ int_max (signed minus n) ≡ (if minus then false else ltb (2 ^ 31 - 1) n)
above true n = elim (Bool-cases (leb n 0)) [
  | inl e ↦ rw e (ground (arith, e))
  | inr e ↦ rw e (ground (arith, e))
]
above false n = ground arith

below :
    (minus : Bool) (n : ℕ)
    → ltb_ℤ (signed minus n) int_min ≡ (if minus then ltb (2 ^ 31) n else false)
below true n = elim (Bool-cases (leb n 0)) [
  | inl e ↦ rw e (ground (arith, e))
  | inr e ↦ rw e (ground (arith, e))
]
below false n = ground arith

-- A number that is past the bounds on either side.
abbrev past : Bool → ℕ → Bool
past minus n = if minus then ltb (2 ^ 31) n else ltb (2 ^ 31 - 1) n

-- The bound that it is past.
abbrev bound : Bool → ℤ
bound minus = if minus then int_min else int_max

clamp-signed :
    (minus : Bool) (n : ℕ)
    → clamp (signed minus n) ≡ (if past minus n then bound minus else signed minus n)
clamp-signed true n = rw (above true n, below true n) refl
clamp-signed false n = rw (above false n, below false n) refl

past_mono : (minus : Bool) (a b : ℕ) → a ≤ b → past minus a ≡ true → past minus b ≡ true
past_mono true a b l h = ground (arith, l, h)
past_mono false a b l h = ground (arith, l, h)

-- The two tests of the loop.
abbrev clamp_tests : Bool → ℕ → ℤ → ℤ
clamp_tests minus n rest =
    if ltb_ℤ int_max (signed minus n)
    then int_max
    else if ltb_ℤ (signed minus n) int_min
    then int_min
    else rest

clamp_rest :
    (minus : Bool) (n : ℕ) (rest : ℤ)
    → clamp_tests minus n rest ≡ (if past minus n then bound minus else rest)
clamp_rest true n rest = rw (above true n, below true n) refl
clamp_rest false n rest = rw (above false n, below false n) refl

pub read_digits-clamp :
    (str : List ℕ) (minus : Bool) (res : ℕ)
    → past minus res ≡ false
    → read_digits minus res str ≡ clamp (signed minus (number res str))
unfolding read_digits
read_digits-clamp [] minus res h = sym (clamp-signed minus res ∙ rw h refl)
read_digits-clamp (c ∷ str) minus res h = elim (Bool-cases (is_digit c)) [
  | inr e ↦ rw e (sym (clamp-signed minus res ∙ rw h refl))
  | inl e ↦
      let new = res * 10 + (c - 48) in
      let tests = clamp_rest minus new (read_digits minus new str) in
      elim (Bool-cases (past minus new)) [
        | inl p ↦
            let q = past_mono minus new (number new str) (number-ge new str) p in
            let t : clamp_tests minus new (read_digits minus new str) ≡ bound minus =
              rw p at tests in
            let u : clamp (signed minus (number new str)) ≡ bound minus =
              rw q at (clamp-signed minus (number new str)) in
            rw e (t ∙ sym u)
        | inr p ↦
            let t : clamp_tests minus new (read_digits minus new str) ≡ read_digits minus new str =
              rw p at tests in
            rw e (t ∙ read_digits-clamp str minus new p)
      ]
]

clamp-bounds : (z : ℤ) → (int_min ≤ℤ clamp z) × (clamp z ≤ℤ int_max)
clamp-bounds z = elim (Bool-cases (ltb_ℤ int_max z)) [
  | inl e ↦ rw e (omega arith, omega arith)
  | inr e ↦ elim (Bool-cases (ltb_ℤ z int_min)) [
    | inl f ↦ rw (e, f) (omega arith, omega arith)
    | inr f ↦ rw (e, f) (ground (arith, f), ground (arith, e))
  ]
]

digits_bounds :
    (minus : Bool) (str : List ℕ)
    → (int_min ≤ℤ read_digits minus 0 str) × (read_digits minus 0 str ≤ℤ int_max)
digits_bounds true str =
    rw (read_digits-clamp str true 0 refl) (clamp-bounds (signed true (number 0 str)))
digits_bounds false str =
    rw (read_digits-clamp str false 0 refl) (clamp-bounds (signed false (number 0 str)))

signed_bounds : (str : List ℕ) → (int_min ≤ℤ read_signed str) × (read_signed str ≤ℤ int_max)
unfolding read_signed
signed_bounds [] = (omega arith, omega arith)
signed_bounds (c ∷ str) = elim (Bool-cases (c == 45)) [
  | inl e ↦ rw e (digits_bounds true str)
  | inr e ↦ elim (Bool-cases (c == 43)) [
    | inl f ↦ rw (e, f) (digits_bounds false str)
    | inr f ↦ rw (e, f) (digits_bounds false (c ∷ str))
  ]
]

-- Whatever the string is, the result of `strToInt` is in the range of an int.
pub str_to_int-bounds : (str : List ℕ) → (int_min ≤ℤ str_to_int str) × (str_to_int str ≤ℤ int_max)
unfolding str_to_int
str_to_int-bounds str = signed_bounds (skip_spaces str)
