-- ===== src/BasicString/Compare.antt =====
-- cpp/string/my_string.cpp: reads of a string, and the comparisons against those of lists.
use language_test.Prelude.{
  ℕ, zero, suc, ◌+◌, ◌<◌, ◌≤◌, ◌≡◌, refl, ap, ◌∙◌, Bool, true, false, Option, none, some, List, [],
  ◌∷◌, ◌++◌, ltb, ◌==◌, if◌then◌else◌, ◌>>=◌, arith, length, get_elem?, drop, Bool-cases, inl, inr,
  le_or_lt,
}
use language_test.BasicString.Defs.{
  Buffer, BasicString, size, at, equal_from, equal, less_from, greater,
}
use language_test.BasicString.Buffer.{chars}
use language_test.BasicString.Laws.{Holds}

pub size-length : (cs : List ℕ) (s : BasicString) → Holds s cs → size s ≡ length cs
unfolding size
size-length cs s h = ground (arith, h.ended)

get_elem?-chars :
    (cs : List ℕ) (b : Buffer) (i : ℕ)
    → i < length cs
    → (get_elem? (chars cs ++ b) i >>= λ c. c) ≡ get_elem? cs i
get_elem?-chars [] b i h = elim h [ ]
get_elem?-chars (c ∷ cs) b zero h = refl
get_elem?-chars (c ∷ cs) b (suc i) h = get_elem?-chars cs b i (omega arith)

get_elem?-none : (cs : List ℕ) (i : ℕ) → length cs ≤ i → get_elem? cs i ≡ none
get_elem?-none [] i h = refl
get_elem?-none (c ∷ cs) zero h = absurd (omega arith)
get_elem?-none (c ∷ cs) (suc i) h = get_elem?-none cs i (omega arith)

-- `at` and `operator[]` read the byte, and fail from the length on.
pub at-get_elem? : (cs : List ℕ) (s : BasicString) (i : ℕ) → Holds s cs → at i s ≡ get_elem? cs i
unfolding at
at-get_elem? cs s i h =
    let z = size-length cs s h in
    elim (le_or_lt (length cs) i) [
      | inl l ↦
          let e : ltb i (size s) ≡ false = ground (arith, z, l) in
          rw (e, get_elem?-none cs i l) refl
      | inr g ↦
          let e : ltb i (size s) ≡ true = ground (arith, z, g) in
          rw (e, h.bytes) (get_elem?-chars cs (some 0 ∷ h.rest) i g)
    ]

-- Equality of lists of bytes.
abbrev pub same_bytes : List ℕ → List ℕ → Bool
same_bytes [] [] = true
same_bytes [] (y ∷ ys) = false
same_bytes (x ∷ xs) [] = false
same_bytes (x ∷ xs) (y ∷ ys) = if x == y then same_bytes xs ys else false

same_bytes-length : (xs ys : List ℕ) → (length xs == length ys) ≡ false → same_bytes xs ys ≡ false
same_bytes-length [] [] h = ground (arith, h)
same_bytes-length [] (y ∷ ys) h = refl
same_bytes-length (x ∷ xs) [] h = refl
same_bytes-length (x ∷ xs) (y ∷ ys) h = ground (arith, h, same_bytes-length xs ys)

drop-get_elem? :
    (xs : List ℕ) (i : ℕ)
    → i < length xs
    → (x : ℕ) × (get_elem? xs i ≡ some x) × (drop i xs ≡ x ∷ drop (suc i) xs)
drop-get_elem? [] i h = elim h [ ]
drop-get_elem? (x ∷ xs) zero h = (x, refl, refl)
drop-get_elem? (x ∷ xs) (suc i) h = drop-get_elem? xs i (omega arith)

drop_all : (xs : List ℕ) (i : ℕ) → length xs ≤ i → drop i xs ≡ []
drop_all [] zero h = refl
drop_all [] (suc i) h = refl
drop_all (x ∷ xs) zero h = absurd (omega arith)
drop_all (x ∷ xs) (suc i) h = drop_all xs i (omega arith)

if-some :
    (t : Bool) (m : Option Bool) (r : Bool)
    → m ≡ some r
    → (if t then m else some false) ≡ some (if t then r else false)
if-some true m r e = e
if-some false m r e = refl

-- What the code of `operator<` says of two lists: it reads the first bytes only, and it does not
-- end where they are equal.
abbrev pub first_bytes : List ℕ → List ℕ → Option Bool
first_bytes [] ys = some false
first_bytes (x ∷ xs) [] = some true
first_bytes (x ∷ xs) (y ∷ ys) = if x == y then none else some (ltb y x)

module _ (xs ys : List ℕ) (a b : BasicString) (ha : Holds a xs) (hb : Holds b ys) where
  equal_from-same_bytes :
      length xs ≡ length ys
      → (fuel i : ℕ) → i ≤ length xs
      → length xs < i + fuel
      → equal_from fuel i a b ≡ some (same_bytes (drop i xs) (drop i ys))
  unfolding equal_from
  equal_from-same_bytes n zero i u f = absurd (omega arith)
  equal_from-same_bytes n (suc fuel) i u f = elim (le_or_lt (length xs) i) [
    | inl l ↦
        let e : ltb i (size a) ≡ false = ground (arith, size-length xs a ha, l) in
        rw (e, equal_from, drop_all xs i l, drop_all ys i (omega (arith, n, l))) refl
    | inr g ↦
        let e : ltb i (size a) ≡ true = ground (arith, size-length xs a ha, g) in
        let (x, p, q) = drop-get_elem? xs i g in
        let (y, r, s) = drop-get_elem? ys i (omega (arith, n, g)) in
        let ih = equal_from-same_bytes n fuel (i + 1) (omega arith) (omega arith) in
        let k : suc i ≡ i + 1 = omega arith in
        let q' = q ∙ ap (λ j. x ∷ drop j xs) k in
        let s' = s ∙ ap (λ j. y ∷ drop j ys) k in
        rw (e, equal_from, at-get_elem? xs a i ha, at-get_elem? ys b i hb, p, r, q', s')
          (if-some (x == y) _ _ ih)
  ]

  -- `operator==` on two strings ends, and says whether they hold the same bytes.
  pub equal-same_bytes : equal a b ≡ some (same_bytes xs ys)
  unfolding equal
  equal-same_bytes =
      let k = size-length xs a ha in
      let l = size-length ys b hb in
      elim (Bool-cases (length xs == length ys)) [
        | inl e ↦
            let n : length xs ≡ length ys = ground (arith, e) in
            rw (k, l, e) (equal_from-same_bytes n (length xs + 1) 0 (omega arith) (omega arith))
        | inr e ↦ rw (k, l, e, same_bytes-length xs ys e) refl
      ]

-- A round of the loop of `operator<`.
less_step :
    (x y : ℕ) (xs ys : List ℕ) (a b : BasicString)
    → Holds a (x ∷ xs)
    → Holds b (y ∷ ys)
    → (fuel : ℕ)
    → less_from (suc fuel) 0 a b
      ≡ (if ltb y x then some true else if ltb x y then some false else less_from fuel 0 a b)
unfolding less_from
less_step x y xs ys a b ha hb fuel =
    rw
      (
        size-length (x ∷ xs) a ha,
        size-length (y ∷ ys) b hb,
        at-get_elem? (x ∷ xs) a 0 ha,
        at-get_elem? (y ∷ ys) b 0 hb,
      )
      (ground arith)

-- `operator<` with any fuel: it looks at the first bytes only. It says yes where the first byte of
-- the left string is the greater one, or where only the right string is empty, and it does not end
-- where the first bytes are equal.
pub less_from-first_bytes :
    (xs ys : List ℕ) (a b : BasicString)
    → Holds a xs
    → Holds b ys
    → (fuel : ℕ) → less_from (suc fuel) 0 a b ≡ first_bytes xs ys
unfolding less_from
less_from-first_bytes [] ys a b ha hb fuel =
    rw (size-length [] a ha, size-length ys b hb) (ground arith)
less_from-first_bytes (x ∷ xs) [] a b ha hb fuel =
    rw (size-length (x ∷ xs) a ha, size-length [] b hb) (ground arith)
less_from-first_bytes (x ∷ xs) (y ∷ ys) a b ha hb zero =
    less_step x y xs ys a b ha hb zero ∙ ground arith
less_from-first_bytes (x ∷ xs) (y ∷ ys) a b ha hb (suc fuel) =
    let ih = less_from-first_bytes (x ∷ xs) (y ∷ ys) a b ha hb fuel in
    less_step x y xs ys a b ha hb (suc fuel) ∙ go ih
  where
    go :
        {m : Option Bool}
        → m ≡ (if x == y then none else some (ltb y x))
        → (if ltb y x then some true else if ltb x y then some false else m)
          ≡ (if x == y then none else some (ltb y x))
    go e = ground (arith, e)

-- `operator>` only calls itself, so no fuel is enough.
greater-none : (fuel : ℕ) (a b : BasicString) → greater fuel a b ≡ none
unfolding greater
greater-none zero a b = refl
greater-none (suc fuel) a b = rw (greater-none fuel a b) refl
