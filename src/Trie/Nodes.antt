-- ===== src/Trie/Nodes.antt =====
-- cpp/race/Trie.cpp: the count at the end of each path, and what `Insert` and `Delete` do to it.
use language_test.Prelude.{
  ℕ, ◌+◌, ◌-◌, ◌<◌, ◌≤◌, ◌≡◌, refl, sym, ap, ◌∙◌, true, false, Bool-cases, inl, inr, some, List, [],
  ◌∷◌, ◌==◌, ltb, if◌then◌else◌, arith, Returns, Returns-bind,
}
use language_test.Trie.Defs.{Trie, link, counted, is_null, uncounted, insert, search, delete}
use language_test.Trie.Words.{prefix, left_over}

-- The count at the end of a path, 0 where the path leaves the tree.
abbrev pub look : Trie → List ℕ → ℕ
look Trie.null v = 0
look (Trie.node cnt next) [] = cnt
look (Trie.node cnt next) (y ∷ v) = look (next y) v

abbrev pub Letters : ℕ → List ℕ → Type 0
Letters maxn [] = Unit
Letters maxn (x ∷ w) = (x < maxn) × Letters maxn w

look-null : (t : Trie) (v : List ℕ) → is_null t ≡ true → look t v ≡ 0
look-null Trie.null v h = refl
look-null (Trie.node cnt next) v h = absurd (cc h)

-- `Search` reads that count.
pub search-look :
    (maxn : ℕ) (w : List ℕ) (t : Trie)
    → Letters maxn w
    → is_null t ≡ false
    → search maxn w t ≡ some (look t w)
unfolding search
search-look maxn w Trie.null l h = absurd (cc h)
search-look maxn [] (Trie.node cnt next) l h = refl
search-look maxn (x ∷ w) (Trie.node cnt next) l h =
    let e : ltb x maxn ≡ true = ground (arith, l.0) in
    elim (Bool-cases (is_null (next x))) [
      | inl n ↦ rw (e, n) (ap (λ c. some c) (sym (look-null (next x) w n)))
      | inr n ↦ rw (e, n) (search-look maxn w (next x) l.1 n)
    ]

look-link :
    (next : ℕ → Trie) (x y : ℕ) (t : Trie) (v : List ℕ)
    → look (link next x t y) v ≡ (if y == x then look t v else look (next y) v)
look-link next x y t v = elim (Bool-cases (y == x)) [ inl e ↦ rw e refl | inr e ↦ rw e refl ]

-- What a word adds to the count of a path behind the first node.
abbrev pub hit : List ℕ → List ℕ → ℕ
hit [] w = 0
hit (y ∷ v) w = if prefix (y ∷ v) w then 1 else 0

look-counted :
    (t : Trie) (v w : List ℕ)
    → look (counted t) v + hit v w ≡ look t v + (if prefix v w then 1 else 0)
look-counted Trie.null [] w = refl
look-counted (Trie.node cnt next) [] w = omega arith
look-counted Trie.null (y ∷ v) w = refl
look-counted (Trie.node cnt next) (y ∷ v) w = refl

counted-is_null : (t : Trie) → is_null (counted t) ≡ false
counted-is_null Trie.null = refl
counted-is_null (Trie.node cnt next) = refl

-- A tree that is not null, with these counts.
pub record Counts (t : Trie) (f : List ℕ → ℕ) : Type 0 where
  pub there : is_null t ≡ false
  pub looks : (v : List ℕ) → look t v ≡ f v

pub insert-Counts :
    (maxn : ℕ) (w : List ℕ) (t : Trie)
    → Letters maxn w
    → is_null t ≡ false
    → Returns (insert maxn w t) (λ new. Counts new (λ v. look t v + hit v w))
unfolding insert
insert-Counts maxn w Trie.null l h = absurd (cc h)
insert-Counts maxn [] (Trie.node cnt next) l h = record { there = refl; looks = same }
  where
    same : (v : List ℕ) → look (Trie.node cnt next) v ≡ look (Trie.node cnt next) v + hit v []
    same [] = omega arith
    same (y ∷ v) = omega arith
insert-Counts maxn (x ∷ w) (Trie.node cnt next) l h =
    let e : ltb x maxn ≡ true = ground (arith, l.0) in
    rw e (
      Returns-bind (insert maxn w (counted (next x))) (λ t. some (Trie.node cnt (link next x t)))
        (λ child. Counts child (λ v. look (counted (next x)) v + hit v w))
        (λ new. Counts new (λ v. look (Trie.node cnt next) v + hit v (x ∷ w)))
        (insert-Counts maxn w (counted (next x)) l.1 (counted-is_null (next x)))
        (λ child c. record { there = refl; looks = linked child c }))
  where
    linked :
        (child : Trie)
        → Counts child (λ v. look (counted (next x)) v + hit v w)
        → (v : List ℕ)
        → look (Trie.node cnt (link next x child)) v ≡ look (Trie.node cnt next) v + hit v (x ∷ w)
    linked child c [] = omega arith
    linked child c (y ∷ v) = look-link next x y child v ∙ elim (Bool-cases (y == x)) [
      | inl e ↦
          let o : y ≡ x = ground (arith, e) in
          rw e (
            c.looks v
            ∙ (look-counted (next x) v w
                ∙ ap (λ z. look (next z) v + (if prefix v w then 1 else 0)) (sym o)))
      | inr e ↦ rw e (omega arith)
    ]

look-uncounted :
    (n : ℕ) (t : Trie)
    → 0 < n
    → n ≤ look t []
    → (u : Trie) × (uncounted n t ≡ some u)
      × (is_null u ≡ false)
      × (look u [] ≡ look t [] - n)
      × ((y : ℕ) (v : List ℕ) → look u (y ∷ v) ≡ look t (y ∷ v))
look-uncounted n Trie.null p h = absurd (omega (arith, p, h))
look-uncounted n (Trie.node cnt next) p h =
    let e : ltb cnt n ≡ false = ground (arith, h) in
    (Trie.node (cnt - n) next, rw e refl, refl, refl, λ y v. refl)

-- The count at a path behind the first node, where n is taken off the path w and its end is cut.
abbrev pub cut : List ℕ → ℕ → List ℕ → ℕ → ℕ
cut w n [] c = c
cut w n (y ∷ v) c = left_over w n (y ∷ v) c

pub delete-Counts :
    (maxn : ℕ) (w : List ℕ) (n : ℕ) (t : Trie)
    → Letters maxn w
    → is_null t ≡ false
    → 0 < n
    → ((y : ℕ) (v : List ℕ) → prefix (y ∷ v) w ≡ true → n ≤ look t (y ∷ v))
    → Returns (delete maxn w n t) (λ new. Counts new (λ v. cut w n v (look t v)))
unfolding delete
delete-Counts maxn w n Trie.null l h p enough = absurd (cc h)
delete-Counts maxn [] n (Trie.node cnt next) l h p enough = record { there = refl; looks = cleared }
  where
    cleared :
        (v : List ℕ)
        → look (Trie.node cnt (λ x. Trie.null)) v ≡ cut [] n v (look (Trie.node cnt next) v)
    cleared [] = refl
    cleared (y ∷ v) = refl
delete-Counts maxn (x ∷ w) n (Trie.node cnt next) l h p enough =
    let e : ltb x maxn ≡ true = ground (arith, l.0) in
    let s : (x == x) ≡ true = ground arith in
    let (u, run, there, here, below) = look-uncounted n (next x) p (enough x [] (rw s refl)) in
    rw (e, run)
      (Returns-bind (delete maxn w n u) (λ d. some (Trie.node cnt (link next x d)))
        (λ child. Counts child (λ v. cut w n v (look u v)))
        (λ new. Counts new (λ v. cut (x ∷ w) n v (look (Trie.node cnt next) v)))
        (delete-Counts maxn w n u l.1 there p (λ y v q. rw (below y v) (enough x (y ∷ v) (rw s q))))
        (λ child c. record { there = refl; looks = linked u here below child c }))
  where
    linked :
        (u : Trie)
        → look u [] ≡ look (next x) [] - n
        → ((y : ℕ) (v : List ℕ) → look u (y ∷ v) ≡ look (next x) (y ∷ v))
        → (child : Trie) → Counts child (λ v. cut w n v (look u v))
        → (v : List ℕ)
        → look (Trie.node cnt (link next x child)) v ≡ cut (x ∷ w) n v (look (Trie.node cnt next) v)
    linked u here below child c [] = refl
    linked u here below child c (y ∷ []) =
        look-link next x y child [] ∙ elim (Bool-cases (y == x)) [
          | inl e ↦ let o : y ≡ x = ground (arith, e) in rw (e, o) (c.looks [] ∙ here)
          | inr e ↦ let e' : (x == y) ≡ false = ground (arith, e) in rw (e, e') refl
        ]
    linked u here below child c (y ∷ z ∷ v) =
        look-link next x y child (z ∷ v) ∙ elim (Bool-cases (y == x)) [
          | inl e ↦
              let o : y ≡ x = ground (arith, e) in
              let s : (x == x) ≡ true = ground arith in
              rw (e, o, s) (c.looks (z ∷ v) ∙ ap (λ k. left_over w n (z ∷ v) k) (below z v))
          | inr e ↦ let e' : (x == y) ≡ false = ground (arith, e) in rw (e, e') refl
        ]
