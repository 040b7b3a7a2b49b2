-- ===== src/SharePtr/Counts.antt =====
-- cpp/base/weak_ptr_impl.cpp: how many of the pointer variables point to an object.
use language_test.Prelude.{
  ℕ, zero, suc, ◌+◌, ◌-◌, ◌<◌, ◌≡◌, refl, sym, ap, ◌∙◌, Bool, true, false, Bool-cases, inl, inr,
  Option, none, some, List, [], ◌∷◌, ◌==◌, if◌then◌else◌, get_elem?, set, length, arith,
}
use language_test.SharePtr.Defs.{remove_at}

pub get_elem?-some {ℓ} :
    {A : Type ℓ} (xs : List A) (i : ℕ) → i < length xs → (x : A) × (get_elem? xs i ≡ some x)
get_elem?-some [] i h = elim h [ ]
get_elem?-some (x ∷ xs) zero h = (x, refl)
get_elem?-some (x ∷ xs) (suc i) h = get_elem?-some xs i (omega arith)

some_injective {ℓ} : {A : Type ℓ} (x y : A) → some x ≡ some y → x ≡ y
some_injective {A = A} x y e = ap (λ m. from m) e
  where
    from : Option A → A
    from none = x
    from (some z) = z

module _ {ℓ} {A : Type ℓ} (hits : ℕ → A → Bool) where
  -- One variable with the value x more, or one less.
  abbrev pub up : A → (ℕ → ℕ) → ℕ → ℕ
  up x f c = if hits c x then f c + 1 else f c

  abbrev pub down : A → (ℕ → ℕ) → ℕ → ℕ
  down x f c = if hits c x then f c - 1 else f c

  abbrev pub count : List A → ℕ → ℕ
  count [] c = 0
  count (x ∷ xs) c = up x (count xs) c

  pub count-get_elem? :
      (xs : List A) (i c : ℕ) (x : A) → get_elem? xs i ≡ some x → hits c x ≡ true → 0 < count xs c
  count-get_elem? [] i c x e h = cc e
  count-get_elem? (y ∷ xs) zero c x e h =
      let o : hits c y ≡ true = ap (hits c) (some_injective y x e) ∙ h in rw o (omega arith)
  count-get_elem? (y ∷ xs) (suc i) c x e h =
      let rest = count-get_elem? xs i c x e h in
      elim (Bool-cases (hits c y)) [ inl d ↦ rw d (omega arith) | inr d ↦ rw d rest ]

  -- Two variables that point to c.
  count_two :
      (xs : List A) (i j c : ℕ) (x y : A)
      → get_elem? xs i ≡ some x
      → get_elem? xs j ≡ some y
      → (i == j) ≡ false
      → hits c x ≡ true
      → hits c y ≡ true
      → 1 < count xs c
  count_two [] i j c x y e f n h k = cc e
  count_two (z ∷ xs) zero zero c x y e f n h k = cc n
  count_two (z ∷ xs) zero (suc j) c x y e f n h k =
      let o : hits c z ≡ true = ap (hits c) (some_injective z x e) ∙ h in
      rw o (omega (arith, count-get_elem? xs j c y f k))
  count_two (z ∷ xs) (suc i) zero c x y e f n h k =
      let o : hits c z ≡ true = ap (hits c) (some_injective z y f) ∙ k in
      rw o (omega (arith, count-get_elem? xs i c x e h))
  count_two (z ∷ xs) (suc i) (suc j) c x y e f n h k =
      let rest = count_two xs i j c x y e f (ground (arith, n)) h k in
      elim (Bool-cases (hits c z)) [ inl d ↦ rw d (omega arith) | inr d ↦ rw d rest ]

  -- A variable still points to c when another one is released.
  pub still_there :
      (xs : List A) (i j c : ℕ) (x y : A)
      → get_elem? xs i ≡ some x
      → get_elem? xs j ≡ some y
      → (i == j) ≡ false
      → hits c y ≡ true
      → 0 < down x (count xs) c
  still_there xs i j c x y e f n k = elim (Bool-cases (hits c x)) [
    | inl h ↦ rw h (omega (arith, count_two xs i j c x y e f n h k))
    | inr h ↦ rw h (count-get_elem? xs j c y f k)
  ]

  pub count-remove_at :
      (xs : List A) (i c : ℕ) (x : A)
      → get_elem? xs i ≡ some x
      → count (remove_at xs i) c ≡ down x (count xs) c
  count-remove_at [] i c x e = cc e
  count-remove_at (y ∷ xs) zero c x e =
      rw (sym (some_injective y x e))
        (elim (Bool-cases (hits c y)) [ inl d ↦ rw d (omega arith) | inr d ↦ rw d refl ])
  count-remove_at (y ∷ xs) (suc i) c x e =
      let rest = count-remove_at xs i c x e in
      elim (Bool-cases (hits c x)) [
        | inl d ↦
            let some_there = count-get_elem? xs i c x e d in
            let rest' : count (remove_at xs i) c ≡ count xs c - 1 = rw d at rest in
            elim (Bool-cases (hits c y)) [
              | inl b ↦ rw (b, d) (omega (arith, rest', some_there))
              | inr b ↦ rw (b, d) rest'
            ]
        | inr d ↦
            let rest' : count (remove_at xs i) c ≡ count xs c = rw d at rest in
            elim (Bool-cases (hits c y)) [
              | inl b ↦ rw (b, d) (omega (arith, rest'))
              | inr b ↦ rw (b, d) rest'
            ]
      ]

  pub count-set :
      (xs : List A) (i c : ℕ) (x y : A)
      → get_elem? xs i ≡ some x
      → count (set xs i y) c ≡ up y (down x (count xs)) c
  count-set [] i c x y e = cc e
  count-set (z ∷ xs) zero c x y e =
      ap (λ n. if hits c y then n + 1 else n) (count-remove_at (z ∷ xs) zero c x e)
  count-set (z ∷ xs) (suc i) c x y e =
      let rest = count-set xs i c x y e in
      let removed = count-remove_at (z ∷ xs) (suc i) c x e in
      let removed' = count-remove_at xs i c x e in
      ap (λ n. if hits c z then n + 1 else n)
        (rest ∙ ap (λ n. if hits c y then n + 1 else n) (sym removed'))
      ∙ (swap_tests (hits c z) (hits c y) (count (remove_at xs i) c)
          ∙ ap (λ n. if hits c y then n + 1 else n) removed)
    where
      swap_tests :
          (a b : Bool) (n : ℕ)
          → (if a then (if b then n + 1 else n) + 1 else (if b then n + 1 else n))
            ≡ (if b then (if a then n + 1 else n) + 1 else (if a then n + 1 else n))
      swap_tests true true n = refl
      swap_tests true false n = refl
      swap_tests false true n = refl
      swap_tests false false n = refl
