-- ===== src/HashTable/Probe.antt =====
-- cpp/stl/myHash.cpp: the cells that a search passes, and where it stops.
use mathlib.Core.Path.{subst}
use native.Mathlib.Nat.{mod-add-mod, mod-eq_of_lt, mod-lt, add-mod_right}
use language_test.Prelude.{
  ℕ, zero, suc, ◌+◌, ◌-◌, ◌*◌, ◌%◌, ◌^◌, ◌<◌, ◌≤◌, ◌≡◌, refl, sym, ap, ◌∙◌, true, false, Bool-cases,
  inl, inr, some, List, [], ◌∷◌, ◌==◌, ltb, get_elem?, get_or, length, arith, le_or_lt, Returns,
}
use language_test.HashTable.Defs.{
  Cell, HashTable, Found, hash, collision, skips, holds, search_loop, search_hash,
}

-- A cell in bounds.
abbrev pub cell : HashTable → ℕ → Cell
cell t i = get_or t.cells i Cell.vacant

-- The cell after e collisions from `home`.
abbrev pub probed : HashTable → ℕ → ℕ → Cell
probed t home e = cell t ((home + e) % t.size)

pub record IsSized (t : HashTable) : Type 0 where
  pub sized : length t.cells ≡ t.size
  pub positive : 0 < t.size

-- The search stopped at the first cell from `home` that it does not skip.
pub record Stops (t : HashTable) (key home : ℕ) (r : Found) : Type 0 where
  pub place : r.p ≡ (home + r.c) % t.size
  pub passed : (e : ℕ) → e < r.c → skips key (probed t home e) ≡ true
  pub stopped : skips key (cell t r.p) ≡ false
  pub status : r.success ≡ holds key (cell t r.p)

pub get_elem?-cell :
    (xs : List Cell) (i : ℕ) → i < length xs → get_elem? xs i ≡ some (get_or xs i Cell.vacant)
get_elem?-cell [] i h = elim h [ ]
get_elem?-cell (x ∷ xs) zero h = refl
get_elem?-cell (x ∷ xs) (suc i) h = get_elem?-cell xs i (omega arith)

module _ (t : HashTable) (w : IsSized t) where
  pub probe_lt : (e : ℕ) → e % t.size < t.size
  probe_lt e = mod-lt e w.positive

  read : (p : ℕ) → p < t.size → get_elem? t.cells p ≡ some (cell t p)
  read p h = get_elem?-cell t.cells p (omega (arith, h, w.sized))

  search_loop-Stops :
      (fuel key home c d : ℕ)
      → c ≤ d
      → d < fuel + c
      → skips key (probed t home d) ≡ false
      → ((e : ℕ) → e < c → skips key (probed t home e) ≡ true)
      → Returns (search_loop fuel t key ((home + c) % t.size) c) (Stops t key home)
  unfolding search_loop
  search_loop-Stops zero key home c d l f s h = absurd (omega arith)
  search_loop-Stops (suc fuel) key home c d l f s h =
      let p = (home + c) % t.size in
      elim (Bool-cases (skips key (cell t p))) [
        | inl e ↦
            let next : collision p t.size ≡ (home + (c + 1)) % t.size =
              mod-add-mod (home + c) t.size 1 ∙ ap (λ k. k % t.size) (omega arith) in
            elim (le_or_lt d c) [
              | inl q ↦ let o : d ≡ c = omega (arith, q, l) in absurd (cc (e, rw o at s))
              | inr q ↦
                  rw (read p (probe_lt (home + c)), e, next)
                    (search_loop-Stops fuel key home (c + 1) d (omega (arith, q)) (omega (arith, f))
                      s
                      (λ k b. elim (le_or_lt c k) [
                        | inl a ↦ let o : k ≡ c = omega (arith, a, b) in rw o e
                        | inr a ↦ h k a
                      ]))
            ]
        | inr e ↦
            rw (read p (probe_lt (home + c)), e)
              (record { place = refl; passed = h; stopped = e; status = refl })
      ]

  -- Every cell is after fewer collisions than there are cells.
  pub distance :
      (home i : ℕ) → home < t.size → i < t.size → (d : ℕ) × (d < t.size) × ((home + d) % t.size ≡ i)
  distance home i h k = elim (le_or_lt home i) [
    | inl l ↦
        let e : home + (i - home) ≡ i = omega (arith, l) in
        (i - home, omega (arith, k), ap (λ x. x % t.size) e ∙ mod-eq_of_lt k)
    | inr l ↦
        let e : home + (i + t.size - home) ≡ i + t.size = omega (arith, h) in
        (
          i + t.size - home,
          omega (arith, l, h),
          ap (λ x. x % t.size) e ∙ add-mod_right i t.size ∙ mod-eq_of_lt k,
        )
  ]

  -- A search for a key ends where some cell is vacant or holds it.
  pub search_hash-Stops :
      (key home i : ℕ)
      → hash key t.size ≡ some home
      → home < t.size
      → i < t.size
      → skips key (cell t i) ≡ false
      → Returns (search_hash t key) (Stops t key home)
  unfolding search_hash
  search_hash-Stops key home i e h k s =
      let (d, l, o) = distance home i h k in
      let z : home ≡ (home + 0) % t.size =
        sym (mod-eq_of_lt h) ∙ ap (λ x. x % t.size) (omega arith) in
      let run =
        search_loop-Stops t.size key home 0 d (omega arith) (omega (arith, l)) (rw o s)
          (λ e b. absurd (omega (arith, b))) in
      rw e (subst (λ x. Returns (search_loop t.size t key x 0) (Stops t key home)) (sym z) run)

pub hash-home : (key m : ℕ) → 0 < m → 3 * key < 2 ^ 31 → hash key m ≡ some (3 * key % m)
unfolding hash
hash-home key m h k =
    let e : (m == 0) ≡ false = ground (arith, h) in
    let o : ltb (3 * key) (2 ^ 31) ≡ true = ground (arith, k) in rw (e, o) refl
