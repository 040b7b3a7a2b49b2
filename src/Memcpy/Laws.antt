-- ===== src/Memcpy/Laws.antt =====
-- cpp/string/memcpy.cpp: what is copied, also where the ranges overlap.
use language_test.Prelude.{
  ℕ, zero, suc, ◌+◌, ◌-◌, ◌<◌, ◌≤◌, ◌≡◌, ◌≢◌, ◌⊎◌, refl, ap, ◌∙◌, false, Bool-cases, inl, inr, ◌||◌,
  ◌==◌, leb, arith, le_or_lt, Returns,
}
use language_test.Memcpy.Defs.{Memory, write, copy_up, copy_down, memcpy1, my_memcpy}

write_self : (mem : Memory) (p v : ℕ) → write mem p v p ≡ v
write_self mem p v = ground arith

write_other : (mem : Memory) (p v a : ℕ) → a ≢ p → write mem p v a ≡ mem a
write_other mem p v a h = ground (arith, h)

copy_up-outside : (n p q a : ℕ) (mem : Memory) → (a < p) ⊎ (p + n ≤ a) → copy_up n p q mem a ≡ mem a
unfolding copy_up
copy_up-outside zero p q a mem h = refl
copy_up-outside (suc n) p q a mem h =
    let next : (a < p + 1) ⊎ (p + 1 + n ≤ a) = elim h [
      | inl l ↦ inl (omega (arith, l))
      | inr l ↦ inr (omega (arith, l))
    ] in
    let n' : a ≢ p = elim h [
      | inl l ↦ λ e. omega (arith, e, l)
      | inr l ↦ λ e. omega (arith, e, l)
    ] in
    copy_up-outside n (p + 1) (q + 1) a (write mem p (mem q)) next ∙ write_other mem p (mem q) a n'

copy_up-inside :
    (n p q i : ℕ) (mem : Memory)
    → (p ≤ q) ⊎ (q + n ≤ p)
    → i < n
    → copy_up n p q mem (p + i) ≡ mem (q + i)
unfolding copy_up
copy_up-inside zero p q i mem o h = absurd (omega arith)
copy_up-inside (suc n) p q zero mem o h =
    let e : p + 0 ≡ p = omega arith in
    let e' : q ≡ q + 0 = omega arith in
    let mem' = write mem p (mem q) in
    ap (copy_up n (p + 1) (q + 1) mem') e
    ∙ copy_up-outside n (p + 1) (q + 1) p mem' (inl (omega arith))
    ∙ write_self mem p (mem q)
    ∙ ap mem e'
copy_up-inside (suc n) p q (suc i) mem o h =
    let e : p + suc i ≡ p + 1 + i = omega arith in
    let e' : q + 1 + i ≡ q + suc i = omega arith in
    let mem' = write mem p (mem q) in
    let next : (p + 1 ≤ q + 1) ⊎ (q + 1 + n ≤ p + 1) = elim o [
      | inl l ↦ inl (omega (arith, l))
      | inr l ↦ inr (omega (arith, l))
    ] in
    let away : q + 1 + i ≢ p = elim o [
      | inl l ↦ λ w. omega (arith, w, l)
      | inr l ↦ λ w. omega (arith, w, l, h)
    ] in
    ap (copy_up n (p + 1) (q + 1) mem') e
    ∙ copy_up-inside n (p + 1) (q + 1) i mem' next (omega arith)
    ∙ write_other mem p (mem q) (q + 1 + i) away
    ∙ ap mem e'

-- From the last address down.
copy_down-outside :
    (n p q a : ℕ) (mem : Memory)
    → (a < p) ⊎ (p + n ≤ a)
    → copy_down n (p + n - 1) (q + n - 1) mem a ≡ mem a
unfolding copy_down
copy_down-outside zero p q a mem h = refl
copy_down-outside (suc n) p q a mem h =
    let e : p + suc n - 1 - 1 ≡ p + n - 1 = omega arith in
    let e' : q + suc n - 1 - 1 ≡ q + n - 1 = omega arith in
    let x = p + suc n - 1 in
    let v = mem (q + suc n - 1) in
    let next : (a < p) ⊎ (p + n ≤ a) = elim h [ inl l ↦ inl l | inr l ↦ inr (omega (arith, l)) ] in
    let away : a ≢ x = elim h [
      | inl l ↦ λ w. omega (arith, w, l)
      | inr l ↦ λ w. omega (arith, w, l)
    ] in
    rw (e, e') (copy_down-outside n p q a (write mem x v) next ∙ write_other mem x v a away)

copy_down-inside :
    (n p q i : ℕ) (mem : Memory)
    → q < p
    → i < n
    → copy_down n (p + n - 1) (q + n - 1) mem (p + i) ≡ mem (q + i)
unfolding copy_down
copy_down-inside zero p q i mem o h = absurd (omega arith)
copy_down-inside (suc n) p q i mem o h =
    let e : p + suc n - 1 - 1 ≡ p + n - 1 = omega arith in
    let e' : q + suc n - 1 - 1 ≡ q + n - 1 = omega arith in
    let x = p + suc n - 1 in
    let v = mem (q + suc n - 1) in
    elim (le_or_lt n i) [
      | inl l ↦
          let a : p + i ≡ x = omega (arith, l, h) in
          let b : q + suc n - 1 ≡ q + i = omega (arith, l, h) in
          rw (e, e')
            (copy_down-outside n p q (p + i) (write mem x v) (inr (omega (arith, l)))
              ∙ ap (write mem x v) a
              ∙ write_self mem x v
              ∙ ap mem b)
      | inr l ↦
          rw (e, e')
            (copy_down-inside n p q i (write mem x v) o l
              ∙ write_other mem x v (q + i) (λ w. omega (arith, w, o, l)))
    ]

-- The n bytes from `src` of the first memory are those from `dest` of the second, which is otherwise
-- the first.
abbrev pub Copies : ℕ → ℕ → ℕ → Memory → Memory → Type 0
Copies dest src n mem new =
    ((i : ℕ) → i < n → new (dest + i) ≡ mem (src + i))
    × ((a : ℕ) → (a < dest) ⊎ (dest + n ≤ a) → new a ≡ mem a)

-- `my_memcpy` of two pointers that are not null copies the bytes, whether the ranges overlap or not, and
-- returns `dest`.
pub my_memcpy-Copies :
    (dest src n : ℕ) (mem : Memory)
    → 0 < dest
    → 0 < src
    → Returns (my_memcpy dest src n mem) (λ r. (r.0 ≡ dest) × Copies dest src n mem (r.1))
unfolding my_memcpy
my_memcpy-Copies dest src n mem h k =
    let e : (dest == 0 || src == 0) ≡ false = ground (arith, h, k) in
    elim (Bool-cases (leb dest src || leb (src + n) dest)) [
      | inl b ↦
          let o : (dest ≤ src) ⊎ (src + n ≤ dest) = elim (le_or_lt dest src) [
            | inl l ↦ inl l
            | inr l ↦ inr (ground (arith, b, l))
          ] in
          rw (e, b)
            (
              refl,
              (
                (λ i l. copy_up-inside n dest src i mem o l),
                λ a l. copy_up-outside n dest src a mem l,
              ),
            )
      | inr b ↦
          let o : src < dest = ground (arith, b) in
          rw (e, b)
            (
              refl,
              (
                (λ i l. copy_down-inside n dest src i mem o l),
                λ a l. copy_down-outside n dest src a mem l,
              ),
            )
    ]

-- `memcpy1` does so where `dest` is not inside the source range behind its start.
pub memcpy1-Copies :
    (dest src n : ℕ) (mem : Memory)
    → 0 < dest
    → 0 < src
    → (dest ≤ src) ⊎ (src + n ≤ dest)
    → ((memcpy1 dest src n mem).0 ≡ dest) × Copies dest src n mem ((memcpy1 dest src n mem).1)
unfolding memcpy1
memcpy1-Copies dest src n mem h k o =
    let e : (dest == 0 || src == 0) ≡ false = ground (arith, h, k) in
    rw e (
      refl,
      ((λ i l. copy_up-inside n dest src i mem o l), λ a l. copy_up-outside n dest src a mem l),
    )
