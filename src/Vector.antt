-- ===== src/Vector.antt =====
-- A `vector<int>` that is read and swapped in place: the programs under cpp/sort and cpp/search. An
-- int k stands for the number k + 2^31, so the order of the numbers is the order of the ints. `none`
-- is an access out of bounds.
use mathlib.Core.List.{Perm}
use mathlib.Core.List.Perm
use language_test.Prelude.{
  ℕ, zero, suc, ◌<◌, ◌≤◌, ◌≡◌, ◌≢◌, refl, ap, ◌∙◌, Option, some, List, [], ◌∷◌, ◌>>=◌, get_elem?,
  get_or, set, length, length-set, arith, Returns, if◌then◌else◌, ◌==◌, Bool-cases, inl, inr,
  le_or_lt,
}

-- `data[i]` of an index in bounds.
abbrev pub value : List ℕ → ℕ → ℕ
value vec i = get_or vec i 0

abbrev pub IsSorted : List ℕ → Type 0
IsSorted vec = (i j : ℕ) → i ≤ j → j < length vec → value vec i ≤ value vec j

-- `swap(data[i], data[j])`.
unfoldable pub swap : List ℕ → ℕ → ℕ → Option (List ℕ)
swap vec i j = get_elem? vec i >>= λ a. get_elem? vec j >>= λ b. some (set (set vec i b) j a)

pub get_elem?-value : (vec : List ℕ) (i : ℕ) → i < length vec → get_elem? vec i ≡ some (value vec i)
get_elem?-value [] i h = elim h [ ]
get_elem?-value (x ∷ vec) zero h = refl
get_elem?-value (x ∷ vec) (suc i) h = get_elem?-value vec i (omega arith)

pub value-set_self : (vec : List ℕ) (i v : ℕ) → i < length vec → value (set vec i v) i ≡ v
value-set_self [] i v h = elim h [ ]
value-set_self (x ∷ vec) zero v h = refl
value-set_self (x ∷ vec) (suc i) v h = value-set_self vec i v (omega arith)

pub value-set_ne : (vec : List ℕ) (i j v : ℕ) → i ≢ j → value (set vec i v) j ≡ value vec j
value-set_ne [] i j v h = refl
value-set_ne (x ∷ vec) zero zero v h = absurd (h refl)
value-set_ne (x ∷ vec) zero (suc j) v h = refl
value-set_ne (x ∷ vec) (suc i) zero v h = refl
value-set_ne (x ∷ vec) (suc i) (suc j) v h = value-set_ne vec i j v (λ e. h (ap suc e))

-- Exchanging an element with one outside.
exchange : (vec : List ℕ) (i v : ℕ) → i < length vec → Perm (v ∷ vec) (value vec i ∷ set vec i v)
exchange [] i v h = elim h [ ]
exchange (x ∷ vec) zero v h = Perm.swap x v vec
exchange (x ∷ vec) (suc i) v h = Perm.trans (Perm.swap x v vec) (
    Perm.trans (Perm.cons x (exchange vec i v (omega arith)))
      (Perm.swap (value vec i) x (set vec i v)))

swap-Perm :
    (vec : List ℕ) (i j : ℕ)
    → i < length vec
    → j < length vec
    → Perm vec (set (set vec i (value vec j)) j (value vec i))
swap-Perm [] i j h k = elim h [ ]
swap-Perm (x ∷ vec) zero zero h k = Perm.refl (x ∷ vec)
swap-Perm (x ∷ vec) zero (suc j) h k = exchange vec j x (omega arith)
swap-Perm (x ∷ vec) (suc i) zero h k = exchange vec i x (omega arith)
swap-Perm (x ∷ vec) (suc i) (suc j) h k =
    Perm.cons x (swap-Perm vec i j (omega arith) (omega arith))

-- The same elements in another order.
abbrev pub Rearranges : List ℕ → List ℕ → Type 0
Rearranges vec new = (length new ≡ length vec) × Perm vec new

pub Rearranges-refl : (vec : List ℕ) → Rearranges vec vec
Rearranges-refl vec = (refl, Perm.refl vec)

pub Rearranges-trans : {xs ys zs : List ℕ} → Rearranges xs ys → Rearranges ys zs → Rearranges xs zs
Rearranges-trans p q = (q.0 ∙ p.0, Perm.trans p.1 q.1)

-- Where the element at k comes from when those at i and j are exchanged.
abbrev pub partner : ℕ → ℕ → ℕ → ℕ
partner i j k = if k == i then j else if k == j then i else k

-- `new` is `vec` with the elements at i and j exchanged.
pub record Swapped (vec : List ℕ) (i j : ℕ) (new : List ℕ) : Type 0 where
  pub rearranges : Rearranges vec new
  pub moved : (k : ℕ) → value new k ≡ value vec (partner i j k)

swap-value :
    (vec : List ℕ) (i j k : ℕ)
    → i < length vec
    → j < length vec
    → value (set (set vec i (value vec j)) j (value vec i)) k ≡ value vec (partner i j k)
swap-value vec i j k h l =
    let a = value vec i in
    let b = value vec j in
    let l' : j < length (set vec i b) = omega (arith, length-set vec i b, l) in
    let here : value (set (set vec i b) j a) j ≡ a = value-set_self (set vec i b) j a l' in
    elim (Bool-cases (k == j)) [
      | inl q ↦
          let q' : k ≡ j = ground (arith, q) in
          elim (Bool-cases (k == i)) [
            | inl p ↦
                let e : i ≡ j = ground (arith, p, q) in
                rw p (ap (λ x. value (set (set vec i b) j a) x) q' ∙ here ∙ ap (λ x. value vec x) e)
            | inr p ↦ rw (p, q) (ap (λ x. value (set (set vec i b) j a) x) q' ∙ here)
          ]
      | inr q ↦
          let away : value (set (set vec i b) j a) k ≡ value (set vec i b) k =
            value-set_ne (set vec i b) j k a (λ e. ground (arith, q, e)) in
          elim (Bool-cases (k == i)) [
            | inl p ↦
                let p' : k ≡ i = ground (arith, p) in
                rw p (away ∙ ap (λ x. value (set vec i b) x) p' ∙ value-set_self vec i b h)
            | inr p ↦ rw (p, q) (away ∙ value-set_ne vec i k b (λ e. ground (arith, p, e)))
          ]
    ]

pub swap-Swapped :
    (vec : List ℕ) (i j : ℕ)
    → i < length vec
    → j < length vec
    → Returns (swap vec i j) (Swapped vec i j)
unfolding swap
swap-Swapped vec i j h k =
    let a = value vec i in
    let b = value vec j in
    rw (get_elem?-value vec i h, get_elem?-value vec j k)
      (record {
        rearranges = (length-set (set vec i b) j a ∙ length-set vec i b, swap-Perm vec i j h k);
        moved = λ m. swap-value vec i j m h k;
      })

partner_comm : (i j k : ℕ) → partner i j k ≡ partner j i k
partner_comm i j k = ground arith

pub Swapped-comm : (vec new : List ℕ) (i j : ℕ) → Swapped vec i j new → Swapped vec j i new
Swapped-comm vec new i j s = record {
  rearranges = s.rearranges;
  moved = λ k. s.moved k ∙ ap (λ x. value vec x) (partner_comm i j k);
}

-- The elements from t on are in order, and none on the left is above them.
abbrev pub Top : ℕ → List ℕ → Type 0
Top t vec = (a b : ℕ) → a ≤ b → t ≤ b → b < length vec → value vec a ≤ value vec b

-- An exchange on the left of t keeps that.
pub Swapped-Top :
    (t i j : ℕ) (vec new : List ℕ) → i < t → j < t → Swapped vec i j new → Top t vec → Top t new
Swapped-Top t i j vec new k l s h a b p q r =
    let e : partner i j b ≡ b = ground (arith, k, l, q) in
    rw (s.moved a, s.moved b, e)
      (h (partner i j a) b (ground (arith, k, l, q, p)) q (omega (arith, r, s.rearranges.0)))

pub Top-IsSorted : (vec : List ℕ) → Top 1 vec → IsSorted vec
Top-IsSorted vec t i j p q = elim (le_or_lt 1 j) [
  | inl w ↦ t i j p w q
  | inr w ↦
      let f : i ≡ 0 = omega (arith, p, w) in
      let g : j ≡ 0 = omega (arith, w) in rw (f, g) (omega arith)
]
