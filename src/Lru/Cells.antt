-- ===== src/Lru/Cells.antt =====
-- cpp/linux/LRU_template.cpp: the list of cells and the map that points into it.
use language_test.Prelude.{
  ℕ, zero, suc, ◌-◌, ◌<◌, ◌≡◌, refl, ap, ◌∙◌, arith, compare-Compared, less, same, more, Bool-cases,
  inl, inr, ◌≢◌, false, Option, none, some, List, [], ◌∷◌, ◌==◌, if◌then◌else◌, length, take,
}
use language_test.Lru.Defs.{Cell, deref, erase, back, pop_back}
use language_test.Lru.Recency.{lookup, remove}

module _ {V : Type 0} where
  -- The pairs of the list.
  abbrev pub pairs : List (Cell V) → List (ℕ × V)
  pairs [] = []
  pairs (c ∷ cs) = (c.key, c.value) ∷ pairs cs

  -- The address of the first cell with the key.
  abbrev pub addr_of : ℕ → List (Cell V) → Option ℕ
  addr_of key [] = none
  addr_of key (c ∷ cs) = if c.key == key then some c.addr else addr_of key cs

  -- Every address is below `n`, and no address and no key stands twice.
  abbrev pub IsLinked : ℕ → List (Cell V) → Type 0
  IsLinked n [] = Unit
  IsLinked n (c ∷ cs) =
      (c.addr < n) × (deref c.addr cs ≡ none) × (addr_of c.key cs ≡ none) × IsLinked n cs

  abbrev pub remove_cell : ℕ → List (Cell V) → List (Cell V)
  remove_cell key [] = []
  remove_cell key (c ∷ cs) = if c.key == key then cs else c ∷ remove_cell key cs

  pub pairs-remove_cell :
      (key : ℕ) (cs : List (Cell V)) → pairs (remove_cell key cs) ≡ remove key (pairs cs)
  pairs-remove_cell key [] = refl
  pairs-remove_cell key (c ∷ cs) = ground (arith, pairs-remove_cell key cs)

  pub length-pairs : (cs : List (Cell V)) → length (pairs cs) ≡ length cs
  length-pairs [] = refl
  length-pairs (c ∷ cs) = ap suc (length-pairs cs)

  deref-apart :
      (a b : ℕ) (cs : List (Cell V)) (c : Cell V)
      → deref a cs ≡ none
      → deref b cs ≡ some c
      → (a == b) ≡ false
  deref-apart a b cs c g h = elim (compare-Compared a b) [
    | less e k ↦ rw (e, ◌==◌) refl
    | same e k ↦ ground (arith, ap (λ x. deref x cs) k ∙ h, g)
    | more e k ↦ rw (e, ◌==◌) refl
  ]

  -- A key with an address a has its value at a.
  pub deref-addr_of :
      (n key a : ℕ) (cs : List (Cell V))
      → IsLinked n cs
      → addr_of key cs ≡ some a
      → (c : Cell V) × (deref a cs ≡ some c)
        × (lookup key (pairs cs) ≡ some c.value)
        × (erase a cs ≡ remove_cell key cs)
  deref-addr_of n key a [] l h = ground (arith, h)
  deref-addr_of n key a (c ∷ cs) l h = elim (Bool-cases (c.key == key)) [
    | inl e ↦ (c, ground (arith, e, h), ground (arith, e, h), ground (arith, e, h))
    | inr e ↦
        let r = deref-addr_of n key a cs l.3 (ground (arith, e, h)) in
        let d = deref-apart c.addr a cs r.0 l.1 r.1 in
        (r.0, rw (d, ◌==◌) r.1, rw (e, ◌==◌) r.2, rw (d, e, r.3) refl)
  ]

  pub lookup-none :
      (key : ℕ) (cs : List (Cell V))
      → addr_of key cs ≡ none
      → (lookup key (pairs cs) ≡ none) × (remove_cell key cs ≡ cs)
  lookup-none key [] h = (refl, refl)
  lookup-none key (c ∷ cs) h = ground (arith, lookup-none key cs)

  pub deref-remove_cell :
      (a key : ℕ) (cs : List (Cell V)) → deref a cs ≡ none → deref a (remove_cell key cs) ≡ none
  deref-remove_cell a key [] h = h
  deref-remove_cell a key (c ∷ cs) h = ground (arith, deref-remove_cell a key cs)

  pub addr_of-remove_cell :
      (n k key : ℕ) (cs : List (Cell V))
      → IsLinked n cs
      → addr_of k (remove_cell key cs) ≡ (if key == k then none else addr_of k cs)
  addr_of-remove_cell n k key [] l = ground arith
  addr_of-remove_cell n k key (c ∷ cs) l = ground (arith, addr_of-remove_cell n k key cs)

  pub IsLinked-remove_cell :
      (n key : ℕ) (cs : List (Cell V)) → IsLinked n cs → IsLinked n (remove_cell key cs)
  IsLinked-remove_cell n key [] l = l
  IsLinked-remove_cell n key (c ∷ cs) l = elim (Bool-cases (c.key == key)) [
    | inl e ↦ rw (e, remove_cell) l.3
    | inr e ↦
        let a = addr_of-remove_cell n c.key key cs l.3 in
        rw (e, remove_cell)
          (
            l.0,
            deref-remove_cell c.addr key cs l.1,
            ground (arith, a, l.2),
            IsLinked-remove_cell n key cs l.3,
          )
  ]

  pub length-remove_cell :
      (key a : ℕ) (cs : List (Cell V))
      → addr_of key cs ≡ some a
      → suc (length (remove_cell key cs)) ≡ length cs
  length-remove_cell key a [] h = ground (arith, h)
  length-remove_cell key a (c ∷ cs) h = ground (arith, h, length-remove_cell key a cs)

  pub deref-fresh : (n : ℕ) (cs : List (Cell V)) → IsLinked n cs → deref n cs ≡ none
  deref-fresh n [] l = refl
  deref-fresh n (c ∷ cs) l = ground (arith, l.0, deref-fresh n cs l.3)

  pub IsLinked-suc : (n : ℕ) (cs : List (Cell V)) → IsLinked n cs → IsLinked (suc n) cs
  IsLinked-suc n [] l = l
  IsLinked-suc n (c ∷ cs) l = (omega (arith, l.0), l.1, l.2, IsLinked-suc n cs l.3)

  -- The last cell of a list that is not empty, and the list without it.
  pub back-some : (cs : List (Cell V)) → 0 < length cs → (d : Cell V) × (back cs ≡ some d)
  back-some [] h = elim h [ ]
  back-some (c ∷ []) h = (c, refl)
  back-some (c ∷ d ∷ cs) h = back-some (d ∷ cs) (omega arith)

  pub pairs-pop_back :
      (n : ℕ) (cs : List (Cell V)) → length cs ≡ suc n → pairs (pop_back cs) ≡ take n (pairs cs)
  pairs-pop_back n [] h = absurd (omega arith)
  pairs-pop_back zero (c ∷ []) h = refl
  pairs-pop_back zero (c ∷ d ∷ cs) h = absurd (omega arith)
  pairs-pop_back (suc n) (c ∷ []) h = absurd (omega arith)
  pairs-pop_back (suc n) (c ∷ d ∷ cs) h =
      ap (λ ps. (c.key, c.value) ∷ ps) (pairs-pop_back n (d ∷ cs) (omega arith))

  pub length-pop_back : (n : ℕ) (cs : List (Cell V)) → length cs ≡ suc n → length (pop_back cs) ≡ n
  length-pop_back n [] h = omega arith
  length-pop_back n (c ∷ []) h = omega arith
  length-pop_back n (c ∷ d ∷ cs) h = omega (arith, length-pop_back (n - 1) (d ∷ cs) (omega arith))

  deref-pop_back : (a : ℕ) (cs : List (Cell V)) → deref a cs ≡ none → deref a (pop_back cs) ≡ none
  deref-pop_back a [] h = h
  deref-pop_back a (c ∷ []) h = refl
  deref-pop_back a (c ∷ d ∷ cs) h = ground (arith, h, deref-pop_back a (d ∷ cs))

  addr_of-back :
      (cs : List (Cell V)) (d : Cell V) → back cs ≡ some d → (a : ℕ) × (addr_of d.key cs ≡ some a)
  addr_of-back [] d h = ground (arith, h)
  addr_of-back (c ∷ []) d h = (c.addr, ground (arith, h))
  addr_of-back (c ∷ e ∷ cs) d h =
      let r = addr_of-back (e ∷ cs) d h in
      elim (Bool-cases (c.key == d.key)) [
        | inl q ↦ (c.addr, rw (q, addr_of) refl)
        | inr q ↦ (r.0, rw (q, addr_of) r.1)
      ]

  addr_of-apart :
      (k j a : ℕ) (cs : List (Cell V)) → addr_of k cs ≡ none → addr_of j cs ≡ some a → k ≢ j
  addr_of-apart k j a cs g h e = ground (arith, g, h, ap (λ x. addr_of x cs) e)

  pub addr_of-pop_back :
      (n k : ℕ) (cs : List (Cell V)) (d : Cell V)
      → IsLinked n cs
      → back cs ≡ some d
      → addr_of k (pop_back cs) ≡ (if d.key == k then none else addr_of k cs)
  addr_of-pop_back n k [] d l h = ground (arith, h)
  addr_of-pop_back n k (c ∷ []) d l h = ground (arith, h)
  addr_of-pop_back n k (c ∷ e ∷ cs) d l h =
      let i = addr_of-pop_back n k (e ∷ cs) d l.3 h in
      let b = addr_of-back (e ∷ cs) d h in
      let a = addr_of-apart c.key d.key b.0 (e ∷ cs) l.2 b.1 in ground (arith, i, a)

  pub IsLinked-pop_back : (n : ℕ) (cs : List (Cell V)) → IsLinked n cs → IsLinked n (pop_back cs)
  IsLinked-pop_back n [] l = l
  IsLinked-pop_back n (c ∷ []) l = l.3
  IsLinked-pop_back n (c ∷ d ∷ cs) l = (
    l.0,
    deref-pop_back c.addr (d ∷ cs) l.1,
    addr_of-pop_back_none c.key (d ∷ cs) l.2,
    IsLinked-pop_back n (d ∷ cs) l.3,
  )
    where
      addr_of-pop_back_none :
          (k : ℕ) (cs : List (Cell V)) → addr_of k cs ≡ none → addr_of k (pop_back cs) ≡ none
      addr_of-pop_back_none k [] h = h
      addr_of-pop_back_none k (c ∷ []) h = refl
      addr_of-pop_back_none k (c ∷ d ∷ cs) h = ground (arith, h, addr_of-pop_back_none k (d ∷ cs))
