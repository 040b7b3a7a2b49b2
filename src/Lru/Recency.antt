-- ===== src/Lru/Recency.antt =====
-- The abstract cache behind cpp/linux/LRU_template.cpp: the pairs in the order of use, last used
-- first.
use language_test.Prelude.{
  ℕ, zero, suc, ◌-◌, ◌<◌, ◌≡◌, ap, arith, Option, none, some, List, [], ◌∷◌, ◌==◌, if◌then◌else◌,
  take,
}

module _ {V : Type 0} where
  abbrev pub lookup : ℕ → List (ℕ × V) → Option V
  lookup key [] = none
  lookup key ((k, v) ∷ es) = if k == key then some v else lookup key es

  abbrev pub or_else : V → Option V → V
  or_else missing none = missing
  or_else missing (some v) = v

  abbrev pub remove : ℕ → List (ℕ × V) → List (ℕ × V)
  remove key [] = []
  remove key ((k, v) ∷ es) = if k == key then es else (k, v) ∷ remove key es

  -- A pair that is read becomes the first.
  abbrev pub touch : ℕ → List (ℕ × V) → List (ℕ × V)
  touch key es = elim (lookup key es) [ none ↦ es | some v ↦ (key, v) ∷ remove key es ]

  -- A pair that is written becomes the first, and the first `cap` pairs stay.
  abbrev pub store : ℕ → ℕ → V → List (ℕ × V) → List (ℕ × V)
  store cap key value es = take cap ((key, value) ∷ remove key es)

  pub store-cons :
      (cap key : ℕ) (value : V) (es : List (ℕ × V))
      → 0 < cap
      → store cap key value es ≡ (key, value) ∷ take (cap - 1) (remove key es)
  store-cons zero key value es h = elim h [ ]
  store-cons (suc n) key value es h = ap (λ m. (key, value) ∷ take m (remove key es)) (omega arith)
