-- ===== src/Exercises/Sum.antt =====
-- cpp/online_judge/leetcode/editor/cn/两数相加.cpp: the sum of two numbers whose digits are linked from the
-- lowest on. A list is the values of its nodes, and nullptr the empty one.
use language_test.Prelude.{
  ℕ, ◌+◌, ◌*◌, ◌%◌, ◌<◌, ◌≤◌, ◌≡◌, Bool-cases, inl, inr, List, [], ◌∷◌, ◌==◌, leb, if◌then◌else◌,
  length, arith,
}

-- `if (temp->val >= 10) { temp->val %= 10; flag = 1; }`
abbrev pub digit : ℕ → ℕ
digit v = if leb 10 v then v % 10 else v

abbrev pub carry : ℕ → ℕ
carry v = if leb 10 v then 1 else 0

-- The loop over the rest of one list, and the node for the last carry.
unfoldable pub add_rest : List ℕ → ℕ → List ℕ
add_rest [] flag = if flag == 0 then [] else flag ∷ []
add_rest (x ∷ xs) flag = digit (x + flag) ∷ add_rest xs (carry (x + flag))

-- The loop over both lists.
unfoldable pub add_both : List ℕ → List ℕ → ℕ → List ℕ
add_both [] ys flag = add_rest ys flag
add_both (x ∷ xs) [] flag = add_rest (x ∷ xs) flag
add_both (x ∷ xs) (y ∷ ys) flag = digit (x + y + flag) ∷ add_both xs ys (carry (x + y + flag))

unfoldable pub add_two_numbers : List ℕ → List ℕ → List ℕ
add_two_numbers [] l2 = []
add_two_numbers (x ∷ xs) [] = []
add_two_numbers (x ∷ xs) (y ∷ ys) = add_both (x ∷ xs) (y ∷ ys) 0

-- The number that the digits stand for.
abbrev pub number : List ℕ → ℕ
number [] = 0
number (x ∷ xs) = x + 10 * number xs

abbrev pub AllDigits : List ℕ → Type 0
AllDigits [] = Unit
AllDigits (x ∷ xs) = (x < 10) × AllDigits xs

-- A list of digits with this number.
abbrev pub Represents : ℕ → List ℕ → Type 0
Represents n xs = AllDigits xs × (number xs ≡ n)

digit-carry : (v : ℕ) → v < 20 → (digit v < 10) × (digit v + 10 * carry v ≡ v) × (carry v ≤ 1)
digit-carry v h = elim (Bool-cases (leb 10 v)) [
  | inl e ↦
      let l : 10 ≤ v = ground (arith, e) in rw e (omega arith, omega (arith, h, l), omega arith)
  | inr e ↦ let l : v < 10 = ground (arith, e) in rw e (l, omega arith, omega arith)
]

Represents-cons :
    (d n c : ℕ) (xs : List ℕ)
    → (digit d < 10) × (digit d + 10 * carry d ≡ d) × (carry d ≤ 1)
    → Represents (c + carry d) xs
    → n ≡ d + 10 * c
    → Represents n (digit d ∷ xs)
Represents-cons d n c xs (a, b, _) (p, q) e = ((a, p), omega (arith, b, q, e))

add_rest-Represents :
    (xs : List ℕ) (flag : ℕ)
    → AllDigits xs
    → flag ≤ 1
    → Represents (number xs + flag) (add_rest xs flag)
unfolding add_rest
add_rest-Represents [] flag a h = elim (Bool-cases (flag == 0)) [
  | inl e ↦ rw e (tt, ground (arith, e))
  | inr e ↦ rw e ((omega (arith, h), tt), omega arith)
]
add_rest-Represents (x ∷ xs) flag a h =
    let d = digit-carry (x + flag) (omega (arith, a.0, h)) in
    Represents-cons (x + flag) (x + 10 * number xs + flag) (number xs)
      (add_rest xs (carry (x + flag))) d (add_rest-Represents xs (carry (x + flag)) a.1 d.2)
      (omega arith)

add_both-Represents :
    (xs ys : List ℕ) (flag : ℕ)
    → AllDigits xs
    → AllDigits ys
    → flag ≤ 1
    → Represents (number xs + number ys + flag) (add_both xs ys flag)
unfolding add_both
add_both-Represents [] ys flag a b h =
    let (p, q) = add_rest-Represents ys flag b h in (p, omega (arith, q))
add_both-Represents (x ∷ xs) [] flag a b h =
    let (p, q) = add_rest-Represents (x ∷ xs) flag a h in (p, omega (arith, q))
add_both-Represents (x ∷ xs) (y ∷ ys) flag a b h =
    let v = x + y + flag in
    let d = digit-carry v (omega (arith, a.0, b.0, h)) in
    Represents-cons v (x + 10 * number xs + (y + 10 * number ys) + flag) (number xs + number ys)
      (add_both xs ys (carry v)) d (add_both-Represents xs ys (carry v) a.1 b.1 d.2) (omega arith)

-- The sum of two lists of decimal digits that are not empty is a list of decimal digits, and its number is
-- the sum of their numbers.
pub add_two_numbers-Represents :
    (l1 l2 : List ℕ)
    → 0 < length l1
    → 0 < length l2
    → AllDigits l1
    → AllDigits l2
    → Represents (number l1 + number l2) (add_two_numbers l1 l2)
unfolding add_two_numbers
add_two_numbers-Represents [] l2 h k a b = absurd (omega (arith, h))
add_two_numbers-Represents (x ∷ xs) [] h k a b = absurd (omega (arith, k))
add_two_numbers-Represents (x ∷ xs) (y ∷ ys) h k a b =
    let (p, q) = add_both-Represents (x ∷ xs) (y ∷ ys) 0 a b (omega arith) in (p, omega (arith, q))
