-- ===== src/HashTable/Laws.antt =====
-- cpp/stl/myHash.cpp: what a valid table is, and what the operations do to its keys.
use language_test.Prelude.{
  ℕ, zero, suc, ◌+◌, ◌*◌, ◌%◌, ◌^◌, ◌<◌, ◌≡◌, ◌⊎◌, refl, sym, ap, ◌∙◌, Bool, true, false,
  Bool-cases, inl, inr, List, [], ◌∷◌, ◌==◌, if◌then◌else◌, get_or, set, length, arith, le_or_lt,
  Returns, Returns-imp,
}
use language_test.HashTable.Defs.{Cell, HashTable, Found, skips, holds, search_hash}
use language_test.HashTable.Probe.{
  cell, probed, IsSized, Stops, probe_lt, search_hash-Stops, hash-home,
}

abbrev pub is_vacant : Cell → Bool
is_vacant Cell.vacant = true
is_vacant (Cell.used k) = false
is_vacant Cell.deleted = false

-- The cell i is met from the hash of k before any vacant cell.
abbrev pub Reaches : HashTable → ℕ → ℕ → Type 0
Reaches t i k =
    (d : ℕ) × ((3 * k % t.size + d) % t.size ≡ i)
    × ((e : ℕ) → e < d → is_vacant (probed t (3 * k % t.size) e) ≡ false)

pub record IsTable (t : HashTable) : Type 0 where
  pub sizes : IsSized t
  pub reached : (i k : ℕ) → i < t.size → cell t i ≡ Cell.used k → Reaches t i k
  pub unique :
      (i j k : ℕ)
      → i < t.size
      → j < t.size
      → cell t i ≡ Cell.used k
      → cell t j ≡ Cell.used k
      → i ≡ j

abbrev pub Contains : HashTable → ℕ → Type 0
Contains t k = (i : ℕ) × (i < t.size) × (cell t i ≡ Cell.used k)

pub get_or-set :
    (xs : List Cell) (i j : ℕ) (v : Cell)
    → i < length xs
    → get_or (set xs i v) j Cell.vacant ≡ (if j == i then v else get_or xs j Cell.vacant)
get_or-set [] i j v h = elim h [ ]
get_or-set (x ∷ xs) zero zero v h = refl
get_or-set (x ∷ xs) zero (suc j) v h = ground arith
get_or-set (x ∷ xs) (suc i) zero v h = ground arith
get_or-set (x ∷ xs) (suc i) (suc j) v h = ground (arith, get_or-set xs i j v)

-- A cell where a search stops is vacant or holds the key.
stopped_cases :
    (key : ℕ) (x : Cell)
    → skips key x ≡ false
    → ((x ≡ Cell.vacant) × (holds key x ≡ false)) ⊎ ((x ≡ Cell.used key) × (holds key x ≡ true))
stopped_cases key Cell.vacant h = inl (refl, refl)
stopped_cases key (Cell.used k) h =
    let e : k ≡ key = ground (arith, h) in inr (ap Cell.used e, ground (arith, e))
stopped_cases key Cell.deleted h = cc h

skips_own : (k : ℕ) → skips k (Cell.used k) ≡ false
skips_own k = ground arith

-- What a search finds out.
pub record Finds (t : HashTable) (key : ℕ) (r : Found) : Type 0 where
  pub stops : Stops t key (3 * key % t.size) r
  pub inside : r.p < t.size
  pub answer :
      ((r.success ≡ true) × (cell t r.p ≡ Cell.used key))
      ⊎ ((r.success ≡ false) × (cell t r.p ≡ Cell.vacant) × ¬ Contains t key)

module _ (t : HashTable) (key : ℕ) (w : IsTable t) (r : Found)
    (s : Stops t key (3 * key % t.size) r) where
  -- A key of the table would have been met before the vacant cell.
  absent : cell t r.p ≡ Cell.vacant → ¬ Contains t key
  absent v (i, l, u) =
      let (d, e, path) = w.reached i key l u in
      let own : skips key (probed t (3 * key % t.size) d) ≡ false = rw (e, u) (skips_own key) in
      let here : probed t (3 * key % t.size) r.c ≡ Cell.vacant = ap (cell t) (sym s.place) ∙ v in
      elim (le_or_lt r.c d) [
        | inr h ↦ cc (own, s.passed d h)
        | inl h ↦ elim (Bool-cases (r.c == d)) [
          | inl q ↦
              let o : r.c ≡ d = ground (arith, q) in
              let same : probed t (3 * key % t.size) d ≡ Cell.used key = rw e u in
              cc (ap (probed t (3 * key % t.size)) o, here, same)
          | inr q ↦ let taken = path r.c (ground (arith, h, q)) in cc (rw here at taken)
        ]
      ]

  Stops-Finds : Finds t key r
  Stops-Finds = record {
    stops = s;
    inside = rw (s.place) (probe_lt t w.sizes (3 * key % t.size + r.c));
    answer = elim (stopped_cases key (cell t r.p) s.stopped) [
      | inl (v, h) ↦ inr (s.status ∙ h, v, absent v)
      | inr (u, h) ↦ inl (s.status ∙ h, u)
    ];
  }

-- On a valid table with a vacant cell `SearchHash` ends: it finds the cell of the key, or a vacant cell
-- where the table does not contain the key.
pub search_hash-Finds :
    (t : HashTable) (key i : ℕ)
    → IsTable t
    → 3 * key < 2 ^ 31
    → i < t.size
    → cell t i ≡ Cell.vacant
    → Returns (search_hash t key) (Finds t key)
search_hash-Finds t key i w k l v =
    let home = 3 * key % t.size in
    let go : skips key (cell t i) ≡ false = rw v refl in
    Returns-imp (search_hash t key) (Stops t key home) (Finds t key)
      (search_hash-Stops t w.sizes key home i (hash-home key t.size w.sizes.positive k)
        (probe_lt t w.sizes (3 * key)) l go)
      (λ r s. Stops-Finds t key w r s)
