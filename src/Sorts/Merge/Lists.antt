-- ===== src/Sorts/Merge/Lists.antt =====
-- cpp/sort/mergeSort.cpp: merging two lists, and vectors cut into parts.
use mathlib.Core.List.{perm_middle}
use mathlib.Core.List.Perm
use native.Mathlib.Nat.{le_trans}
use language_test.Prelude.{
  ℕ, zero, suc, ◌+◌, ◌<◌, ◌≤◌, ◌≡◌, refl, sym, ap, some, List, [], ◌∷◌, ◌++◌, append-nil,
  append_assoc, get_elem?, set, length, length-append, arith,
}
use language_test.Vector.{Rearranges, value, IsSorted}

abbrev pub AllGe : ℕ → List ℕ → Type 0
AllGe b [] = Unit
AllGe b (x ∷ xs) = (b ≤ x) × AllGe b xs

abbrev pub Ascends : List ℕ → Type 0
Ascends [] = Unit
Ascends (x ∷ xs) = AllGe x xs × Ascends xs

AllGe-mono : (a b : ℕ) (xs : List ℕ) → a ≤ b → AllGe b xs → AllGe a xs
AllGe-mono a b [] h k = tt
AllGe-mono a b (x ∷ xs) h k = (le_trans h k.0, AllGe-mono a b xs h k.1)

AllGe-value : (b : ℕ) (xs : List ℕ) (i : ℕ) → AllGe b xs → i < length xs → b ≤ value xs i
AllGe-value b [] i h l = elim l [ ]
AllGe-value b (x ∷ xs) zero h l = h.0
AllGe-value b (x ∷ xs) (suc i) h l = AllGe-value b xs i h.1 (omega arith)

pub Ascends-IsSorted : (xs : List ℕ) → Ascends xs → IsSorted xs
Ascends-IsSorted [] h i j p q = absurd (omega (arith, q))
Ascends-IsSorted (x ∷ xs) h zero zero p q = omega arith
Ascends-IsSorted (x ∷ xs) h zero (suc j) p q = AllGe-value x xs j h.0 (omega (arith, q))
Ascends-IsSorted (x ∷ xs) h (suc i) zero p q = absurd (omega (arith, p))
Ascends-IsSorted (x ∷ xs) h (suc i) (suc j) p q =
    Ascends-IsSorted xs h.1 i j (omega (arith, p)) (omega (arith, q))

-- What merging l and r gives.
pub record Merged (l r out : List ℕ) : Type 0 where
  pub same : Rearranges (l ++ r) out
  pub bounds : (b : ℕ) → AllGe b l → AllGe b r → AllGe b out
  pub order : Ascends l → Ascends r → Ascends out

pub Merged-right : (r : List ℕ) → Merged [] r r
Merged-right r = record { same = (refl, Perm.refl r); bounds = λ b p q. q; order = λ p q. q }

pub Merged-left : (l : List ℕ) → Merged l [] l
Merged-left l =
    let e : l ≡ l ++ [] = sym (append-nil l) in
    record { same = (ap length e, rw (sym e) (Perm.refl l)); bounds = λ b p q. p; order = λ p q. p }

pub Merged-cons_left :
    (x y : ℕ) (l r out : List ℕ) → x ≤ y → Merged l (y ∷ r) out → Merged (x ∷ l) (y ∷ r) (x ∷ out)
Merged-cons_left x y l r out h m = record {
  same = (ap suc m.same.0, Perm.cons x m.same.1);
  bounds = λ b p q. (p.0, m.bounds b p.1 q);
  order = λ p q. (m.bounds x p.0 (h, AllGe-mono x y r h q.0), m.order p.1 q);
}

pub Merged-cons_right :
    (x y : ℕ) (l r out : List ℕ) → y ≤ x → Merged (x ∷ l) r out → Merged (x ∷ l) (y ∷ r) (y ∷ out)
Merged-cons_right x y l r out h m = record {
  same = (
    omega (arith, m.same.0, length-append l r, length-append l (y ∷ r)),
    Perm.trans (perm_middle (x ∷ l) r) (Perm.cons y m.same.1),
  );
  bounds = λ b p q. (q.0, m.bounds b p q.1);
  order = λ p q. (m.bounds y (h, AllGe-mono y x l h p.0) q.0, m.order p q.1);
}

pub get_elem?-append : (p q : List ℕ) (x : ℕ) → get_elem? (p ++ x ∷ q) (length p) ≡ some x
get_elem?-append [] q x = refl
get_elem?-append (y ∷ p) q x = get_elem?-append p q x

pub set-append : (p q : List ℕ) (x y : ℕ) → set (p ++ x ∷ q) (length p) y ≡ p ++ y ∷ q
set-append [] q x y = refl
set-append (z ∷ p) q x y = ap (λ r. z ∷ r) (set-append p q x y)

-- An element moves over the cut.
pub append_snoc : (p q : List ℕ) (x : ℕ) → p ++ x ∷ q ≡ (p ++ x ∷ []) ++ q
append_snoc p q x = sym (append_assoc p (x ∷ []) q)

pub length-snoc : (p : List ℕ) (x : ℕ) → length (p ++ x ∷ []) ≡ length p + 1
length-snoc p x = length-append p (x ∷ [])
