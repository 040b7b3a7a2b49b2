-- ===== src/Templates/Unions.antt =====
-- cpp/race/race_template.cpp: `find` and `join` on a forest of fathers.
use language_test.Prelude.{
  ℕ, zero, suc, ◌+◌, ◌<◌, ◌≡◌, ◌≢◌, ◌⊎◌, refl, sym, ap, ◌∙◌, false, Bool-cases, inl, inr, some,
  List, [], ◌∷◌, ◌==◌, if◌then◌else◌, arith, length, get_elem?, set, length-set, get_elem?-set_self,
  get_elem?-set_ne, Returns, Option-cases,
}
use language_test.Templates.Defs.{find, join, init, init_from}

-- A step of `find`.
find_root : (f i : ℕ) (fa : List ℕ) → get_elem? fa i ≡ some i → find (suc f) i fa ≡ some i
unfolding find
find_root f i fa e = rw e (ground arith)

find_step :
    (f i p : ℕ) (fa : List ℕ)
    → get_elem? fa i ≡ some p
    → (i == p) ≡ false
    → find (suc f) i fa ≡ find f p fa
unfolding find
find_step f i p fa e n = rw (e, n) refl

find_none : (i r : ℕ) (fa : List ℕ) → find zero i fa ≡ some r → ⊥
unfolding find
find_none i r fa h = ground (arith, h)

-- What `find` returns is a root.
find-root : (f i r : ℕ) (fa : List ℕ) → find f i fa ≡ some r → get_elem? fa r ≡ some r
unfolding find
find-root zero i r fa h = ground (arith, h)
find-root (suc f) i r fa h = elim (Option-cases (get_elem? fa i)) [
  | inl e ↦ ground (arith, h, e)
  | inr (p, e) ↦ ground (arith, h, e, find-root f p r fa)
]

-- The rounds of `find` from a node whose father is `p`.
find_inv :
    (f k r : ℕ) (fa : List ℕ)
    → find (suc f) k fa ≡ some r
    → (p : ℕ) × (get_elem? fa k ≡ some p)
      × (((k ≡ p) × (r ≡ k)) ⊎ (((k == p) ≡ false) × (find f p fa ≡ some r)))
unfolding find
find_inv f k r fa h = elim (Option-cases (get_elem? fa k)) [
  | inl e ↦ absurd (ground (arith, h, e))
  | inr (p, e) ↦ elim (Bool-cases (k == p)) [
    | inl b ↦ (p, e, inl (ground (arith, b), ground (arith, h, e, b)))
    | inr b ↦ (p, e, inr (b, ground (arith, h, e, b)))
  ]
]

module _ (ri rj : ℕ) (fa : List ℕ) (root_i : get_elem? fa ri ≡ some ri)
    (root_j : get_elem? fa rj ≡ some rj) (inside : ri < length fa) where
  -- The old root of i, afterwards.
  find_joined : (f : ℕ) → find (suc (suc f)) ri (set fa ri rj) ≡ some rj
  find_joined f =
      let s = get_elem?-set_self fa ri rj inside in
      elim (Bool-cases (ri == rj)) [
        | inl b ↦
            let e : ri ≡ rj = ground (arith, b) in
            rw (sym e) (find_root (suc f) ri (set fa ri ri) (get_elem?-set_self fa ri ri inside))
        | inr b ↦
            let n : ri ≢ rj = λ e. ground (arith, b, e) in
            find_step (suc f) ri rj (set fa ri rj) s b
            ∙ find_root f rj (set fa ri rj) (get_elem?-set_ne fa rj n ∙ root_j)
      ]

  -- After the write of `join`, `find` takes at most one step more. It gives the root of j where it
  -- gave the root of i, and the old root elsewhere.
  pub find-set :
      (f k rk : ℕ)
      → find f k fa ≡ some rk
      → find (suc f) k (set fa ri rj) ≡ some (if rk == ri then rj else rk)
  find-set zero k rk h = absurd (find_none k rk fa h)
  find-set (suc f) k rk h =
      let (p, e, cases) = find_inv f k rk fa h in
      elim (Bool-cases (k == ri)) [
        | inl b ↦
            let q : k ≡ ri = ground (arith, b) in
            let w : find (suc f) ri fa ≡ some rk = rw (sym q) h in
            let v : rk ≡ ri = ground (arith, sym w ∙ find_root f ri fa root_i) in
            ap (λ x. find (suc (suc f)) x (set fa ri rj)) q ∙ find_joined f ∙ ground (arith, v)
        | inr b ↦
            let n : ri ≢ k = λ q. ground (arith, b, q) in
            let g : get_elem? (set fa ri rj) k ≡ some p = get_elem?-set_ne fa rj n ∙ e in
            elim cases [
              | inl (q, r) ↦
                  find_root (suc f) k (set fa ri rj) (g ∙ ap (λ x. some x) (sym q))
                  ∙ ground (arith, r, b)
              | inr (q, r) ↦ find_step (suc f) k p (set fa ri rj) g q ∙ find-set f p rk r
            ]
      ]

get_elem?-lt : (fa : List ℕ) (i r : ℕ) → get_elem? fa i ≡ some r → i < length fa
get_elem?-lt [] i r h = absurd (ground (arith, h))
get_elem?-lt (x ∷ fa) zero r h = omega arith
get_elem?-lt (x ∷ fa) (suc i) r h = omega (arith, get_elem?-lt fa i r h)

-- Where `find` gives roots of i, j and k, `join` of i and j succeeds and keeps the length. Afterwards
-- `find` of k ends with at most one step more: it gives the root of j where it gave the root of i,
-- and the same root as before elsewhere.
pub join-find :
    (f i j k ri rj rk : ℕ) (fa : List ℕ)
    → find f i fa ≡ some ri
    → find f j fa ≡ some rj
    → find f k fa ≡ some rk
    → Returns
        (join f i j fa)
        (λ fb. (length fb ≡ length fa) × (find (suc f) k fb ≡ some (if rk == ri then rj else rk)))
unfolding join
join-find f i j k ri rj rk fa hi hj hk =
    let root_i = find-root f i ri fa hi in
    rw (hi, hj)
      (
        length-set fa ri rj,
        find-set ri rj fa root_i (find-root f j rj fa hj) (get_elem?-lt fa ri ri root_i) f k rk hk,
      )

get_elem?-init_from : (i n k : ℕ) → k < n → get_elem? (init_from i n) k ≡ some (i + k)
unfolding init_from
get_elem?-init_from i zero k h = elim h [ ]
get_elem?-init_from i (suc n) zero h = ap (λ x. some x) (omega arith)
get_elem?-init_from i (suc n) (suc k) h =
    get_elem?-init_from (i + 1) n k (omega arith) ∙ ap (λ x. some x) (omega arith)

-- After `init` every node is its own root.
pub find-init : (n k : ℕ) → k < n → find 1 k (init n) ≡ some k
unfolding init
find-init n k h =
    let z : 0 + k ≡ k = omega arith in
    find_root zero k (init_from 0 n) (get_elem?-init_from 0 n k h ∙ ap (λ x. some x) z)
