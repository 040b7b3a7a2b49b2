-- ===== src/Exercises/StrToInt/Decimal.antt =====
-- cpp/online_judge/leetcode/editor/cn/把字符串转换成整数.cpp: strToInt reads decimal numbers.
use language_test.Prelude.{
  ℕ, zero, suc, ◌+◌, ◌-◌, ◌*◌, ◌/◌, ◌%◌, ◌^◌, ◌<◌, ◌≡◌, refl, ap, ◌∙◌, Bool, true, false, List, [],
  ◌∷◌, ◌++◌, ◌==◌, if◌then◌else◌, arith,
}
use language_test.Exercises.StrToInt.{
  is_digit, skip_spaces, signed, number, clamp, read_digits, read_signed, str_to_int,
  read_digits-clamp,
}

-- The last k decimal digits of n.
abbrev pub decimal : ℕ → ℕ → List ℕ
decimal zero n = []
decimal (suc k) n = decimal k (n / 10) ++ (48 + n % 10) ∷ []

abbrev AllDigits : List ℕ → Type 0
AllDigits [] = Unit
AllDigits (c ∷ str) = (is_digit c ≡ true) × AllDigits str

AllDigits-snoc :
    (str : List ℕ) (c : ℕ) → AllDigits str → is_digit c ≡ true → AllDigits (str ++ c ∷ [])
AllDigits-snoc [] c a e = (e, tt)
AllDigits-snoc (d ∷ str) c a e = (a.0, AllDigits-snoc str c a.1 e)

number-snoc :
    (str : List ℕ) (acc c : ℕ)
    → AllDigits str
    → is_digit c ≡ true
    → number acc (str ++ c ∷ []) ≡ number acc str * 10 + (c - 48)
number-snoc [] acc c a e = rw e refl
number-snoc (d ∷ str) acc c a e = rw (a.0) (number-snoc str (acc * 10 + (d - 48)) c a.1 e)

last_digit : (n : ℕ) → is_digit (48 + n % 10) ≡ true
last_digit n = ground arith

decimal-AllDigits : (k n : ℕ) → AllDigits (decimal k n)
decimal-AllDigits zero n = tt
decimal-AllDigits (suc k) n =
    AllDigits-snoc (decimal k (n / 10)) (48 + n % 10) (decimal-AllDigits k (n / 10)) (last_digit n)

pow-suc : (k : ℕ) → 10 ^ suc k ≡ 10 * 10 ^ k
pow-suc k = omega arith

number-decimal : (k n : ℕ) → n < 10 ^ k → number 0 (decimal k n) ≡ n
number-decimal zero n h = omega (arith, h)
number-decimal (suc k) n h =
    let rest : number 0 (decimal k (n / 10)) ≡ n / 10 =
      number-decimal k (n / 10) (omega (arith, h, pow-suc k)) in
    number-snoc (decimal k (n / 10)) 0 (48 + n % 10) (decimal-AllDigits k (n / 10)) (last_digit n)
    ∙ omega (arith, rest)

-- m spaces, a sign and the last k digits of n.
abbrev pub printed : ℕ → Bool → ℕ → ℕ → List ℕ
printed zero minus k n = if minus then 45 ∷ decimal k n else decimal k n
printed (suc m) minus k n = 32 ∷ printed m minus k n

skip_spaces-AllDigits : (str : List ℕ) → AllDigits str → skip_spaces str ≡ str
skip_spaces-AllDigits [] a = refl
skip_spaces-AllDigits (c ∷ str) a = let e : (c == 32) ≡ false = ground (arith, a.0) in rw e refl

read_signed-AllDigits : (str : List ℕ) → AllDigits str → read_signed str ≡ read_digits false 0 str
unfolding read_signed read_digits
read_signed-AllDigits [] a = refl
read_signed-AllDigits (c ∷ str) a =
    let e : (c == 45) ≡ false = ground (arith, a.0) in
    let f : (c == 43) ≡ false = ground (arith, a.0) in rw (e, f) refl

-- `strToInt` of any spaces, an optional minus and decimal digits of a number gives that number with the
-- sign, or the nearest int where it is out of the range of an int.
pub str_to_int-decimal :
    (m : ℕ) (minus : Bool) (k n : ℕ)
    → n < 10 ^ k
    → str_to_int (printed m minus k n) ≡ clamp (signed minus n)
unfolding str_to_int read_signed
str_to_int-decimal zero true k n h =
    read_digits-clamp (decimal k n) true 0 refl
    ∙ ap (λ z. clamp (signed true z)) (number-decimal k n h)
str_to_int-decimal zero false k n h =
    let a = decimal-AllDigits k n in
    ap read_signed (skip_spaces-AllDigits (decimal k n) a)
    ∙ (read_signed-AllDigits (decimal k n) a
        ∙ (read_digits-clamp (decimal k n) false 0 refl
            ∙ ap (λ z. clamp (signed false z)) (number-decimal k n h)))
str_to_int-decimal (suc m) minus k n h = str_to_int-decimal m minus k n h
