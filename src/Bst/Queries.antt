-- ===== src/Bst/Queries.antt =====
-- cpp/tree/bst.cpp: `minimum`, `maximum`, `predecessor` and `successor`, on a valid tree.
use language_test.Prelude.{
  ℕ, ◌≡◌, ◌<◌, refl, sym, ◌∙◌, ap, arith, Bool, true, false, Option, some, none, List, [], ◌∷◌,
  ◌++◌, if◌then◌else◌, ◌==◌, ltb, compare-Compared, less, same, more, Bool-cases, inl, inr, Returns,
}
use language_test.OrderedSet.{IsSorted, Above, mem}
use language_test.OrderedSet.Laws.{
  IsSorted-Parts, mem-append, mem-Above, mem-Below, Below-le, lt_of_mem-Above, mem-eq, Above-le,
}
use language_test.Bst.Defs.{
  Tree, null, node, Bst, Step, next, return, pass, value, data?, minimum, maximum, visit_until,
  right_at, predecessor, successor,
}
use language_test.Bst.Walk.{events, leave, run, run-append, and_then, walk-run}
use language_test.Bst.Laws.{to_list, keys, IsValid}

-- The first key of a list, and the last.
abbrev pub head? : List ℕ → Option ℕ
head? [] = none
head? (x ∷ xs) = some x

abbrev pub last_or : Option ℕ → List ℕ → Option ℕ
last_or o [] = o
last_or o (x ∷ xs) = last_or (some x) xs

head?-append :
    (xs : List ℕ) (y : ℕ) (ys zs : List ℕ) → head? ((xs ++ y ∷ ys) ++ zs) ≡ head? (xs ++ y ∷ ys)
head?-append [] y ys zs = refl
head?-append (x ∷ xs) y ys zs = refl

last_or-append : (o : Option ℕ) (xs ys : List ℕ) → last_or o (xs ++ ys) ≡ last_or (last_or o xs) ys
last_or-append o [] ys = refl
last_or-append o (x ∷ xs) ys = last_or-append (some x) xs ys

last_or_some :
    (o p : Option ℕ) (xs : List ℕ) (y : ℕ) (ys : List ℕ)
    → last_or o (xs ++ y ∷ ys) ≡ last_or p (xs ++ y ∷ ys)
last_or_some o p [] y ys = refl
last_or_some o p (x ∷ xs) y ys = refl

-- `minimum` of a tree that is not empty returns the node with the first key in order.
pub minimum-head :
    (d : ℕ) (l r : Tree) → data? (minimum (node d l r)) ≡ head? (to_list (node d l r))
unfolding minimum
minimum-head d null r = refl
minimum-head d (node ld ll lr) r =
    minimum-head ld ll lr ∙ sym (head?-append (to_list ll) ld (to_list lr) (d ∷ to_list r))

-- `maximum` of a tree that is not empty returns the node with the last key in order.
pub maximum-last :
    (d : ℕ) (l r : Tree) → data? (maximum (node d l r)) ≡ last_or none (to_list (node d l r))
unfolding maximum
maximum-last d l null = sym (last_or-append none (to_list l) (d ∷ []))
maximum-last d l (node rd rl rr) =
    maximum-last rd rl rr
    ∙ last_or_some none (some d) (to_list rl) rd (to_list rr)
    ∙ sym (last_or-append none (to_list l) (d ∷ (to_list rl ++ rd ∷ to_list rr)))

-- The key before `k` in a list, if `k` is there, and otherwise the last one.
before : ℕ → Option ℕ → List ℕ → Step (Option ℕ) (Option ℕ)
before k last [] = next last
before k last (x ∷ xs) = if x == k then return last else before k (some x) xs

-- The greatest key below `k`.
unfoldable pub lower : ℕ → Option ℕ → List ℕ → Option ℕ
lower k last [] = last
lower k last (x ∷ xs) = lower k (if ltb x k then some x else last) xs

before-append :
    (k : ℕ) (o : Option ℕ) (xs ys : List ℕ)
    → before k o (xs ++ ys) ≡ and_then (before k o xs) (λ o'. before k o' ys)
unfolding before
before-append k o [] ys = refl
before-append k o (x ∷ xs) ys = elim (Bool-cases (x == k)) [
  | inl e ↦ rw e
  | inr e ↦ rw e (before-append k (some x) xs ys)
]

lower-Above : (k : ℕ) (o : Option ℕ) (xs : List ℕ) → Above k xs → lower k o xs ≡ o
unfolding lower
lower-Above k o [] a = refl
lower-Above k o (x ∷ xs) a = ground (arith, lower-Above k o xs a.1)

before-lower :
    (k : ℕ) (o : Option ℕ) (xs : List ℕ)
    → IsSorted xs
    → before k o xs ≡ (if mem k xs then return (lower k o xs) else next (last_or o xs))
unfolding before mem lower
before-lower k o [] s = refl
before-lower k o (x ∷ xs) s = elim (compare-Compared x k) [
  | less e c ↦ ground (arith, before-lower k (some x) xs s.1)
  | same e c ↦ ground (arith, lower-Above k o xs)
  | more e c ↦
      ground (arith, before-lower k (some x) xs s.1, mem-Above k xs (Above-le xs (omega arith) s.0))
]

-- The variable `plastVisit` as its key.
abbrev keyed : Step Tree Tree → Step (Option ℕ) (Option ℕ)
keyed (next t) = next (data? t)
keyed (return t) = return (data? t)

keyed-and_then :
    (st : Step Tree Tree) (f : Tree → Step Tree Tree) (g : Option ℕ → Step (Option ℕ) (Option ℕ))
    → ((t : Tree) → keyed (f t) ≡ g (data? t))
    → keyed (and_then st f) ≡ and_then (keyed st) g
keyed-and_then (next t) f g h = h t
keyed-and_then (return t) f g h = refl

run-visit_until :
    (k : ℕ) (t last : Tree)
    → keyed (run pass (visit_until k) (events t) last) ≡ before k (data? last) (to_list t)
unfolding before
run-visit_until k null last = refl
run-visit_until k (node d l r) last =
    rw
      (
        run-append pass (visit_until k) (events l) (leave (node d l r) ∷ events r) last,
        before-append k (data? last) (to_list l) (d ∷ to_list r),
      )
      (keyed-and_then (run pass (visit_until k) (events l) last) _ (λ o. before k o (d ∷ to_list r))
          (at_node (run-visit_until k r (node d l r)))
        ∙ ap (λ z. and_then z (λ o. before k o (d ∷ to_list r))) (run-visit_until k l last))
  where
    at_node :
        keyed (run pass (visit_until k) (events r) (node d l r)) ≡ before k (some d) (to_list r)
        → (a : Tree)
        → keyed (run pass (visit_until k) (leave (node d l r) ∷ events r) a)
          ≡ before k (data? a) (d ∷ to_list r)
    at_node ih a = elim (Bool-cases (d == k)) [ inl e ↦ rw e | inr e ↦ rw e ih ]

value-keyed :
    (st : Step Tree Tree) (b : Bool) (x y : Option ℕ)
    → keyed st ≡ (if b then return x else next y)
    → Returns (value (some st)) (λ p. data? p ≡ (if b then x else y))
value-keyed (next t) true x y e = cc
value-keyed (next t) false x y e = cc
value-keyed (return t) true x y e = cc
value-keyed (return t) false x y e = cc

-- `predecessor` returns the node with the greatest key below a key of the tree (null if there is
-- none). For a key that is not in the tree it returns the last node in order.
pub predecessor-lower :
    (k : ℕ) (t : Bst)
    → IsValid t
    → Returns
        (predecessor k t)
        (λ p. data? p ≡ (if mem k (keys t) then lower k none (keys t) else last_or none (keys t)))
unfolding predecessor
predecessor-lower k t v = rw (walk-run pass (visit_until k) t.root null) (
    value-keyed (run pass (visit_until k) (events t.root) null) (mem k (keys t)) _ _
      (run-visit_until k t.root null ∙ before-lower k none (keys t) v.sorted))

-- `s` is the subtree at a node of `t`.
pub data Sub (s : Tree) : Tree → Type 0 where
  here : Sub s s
  left : {d : ℕ} {l r : Tree} → Sub s l → Sub s (node d l r)
  right : {d : ℕ} {l r : Tree} → Sub s r → Sub s (node d l r)

Sub-mem : (d : ℕ) (l r t : Tree) → Sub (node d l r) t → mem d (to_list t) ≡ true
unfolding mem
Sub-mem d l r t here = mem-eq d d (to_list l) (to_list r) refl
Sub-mem d l r t (left {d = e} {l = x} {r = y} s) =
    mem-append d (to_list x) (e ∷ to_list y) ∙ rw (Sub-mem d l r x s)
Sub-mem d l r t (right {d = e} {l = x} {r = y} s) =
    ground (arith, mem-append d (to_list x) (e ∷ to_list y), Sub-mem d l r y s)

run-right_at_absent :
    (k : ℕ) (t a : Tree) → mem k (to_list t) ≡ false → run pass (right_at k) (events t) a ≡ next a
unfolding mem
run-right_at_absent k null a h = refl
run-right_at_absent k (node d l r) a h =
    let m = mem-append k (to_list l) (d ∷ to_list r) in
    rw
      (
        run-append pass (right_at k) (events l) (leave (node d l r) ∷ events r) a,
        run-right_at_absent k l a (ground (arith, m)),
      )
      (let e : (d == k) ≡ false = ground (arith, m) in
        rw e (run-right_at_absent k r a (ground (arith, m))))

run-right_at :
    (d : ℕ) (l r t a : Tree)
    → IsSorted (to_list t)
    → Sub (node d l r) t
    → run pass (right_at d) (events t) a ≡ return r
run-right_at d l r t a s here =
    let p = IsSorted-Parts (to_list l) d (to_list r) s in
    let same : (d == d) ≡ true = ground arith in
    rw (
      run-append pass (right_at d) (events l) (leave (node d l r) ∷ events r) a,
      run-right_at_absent d l a (mem-Below d (to_list l) p.below),
      same,
    )
run-right_at d l r t a s (left {d = e} {l = x} {r = y} i) =
    let p = IsSorted-Parts (to_list x) e (to_list y) s in
    rw (
      run-append pass (right_at d) (events x) (leave (node e x y) ∷ events y) a,
      run-right_at d l r x a p.left i,
    )
run-right_at d l r t a s (right {d = e} {l = x} {r = y} i) =
    let p = IsSorted-Parts (to_list x) e (to_list y) s in
    let lt : e < d = lt_of_mem-Above d e (to_list y) p.above (Sub-mem d l r y i) in
    let ne : (e == d) ≡ false = ground arith in
    rw
      (
        run-append pass (right_at d) (events x) (leave (node e x y) ∷ events y) a,
        run-right_at_absent d x a
            (mem-Below d (to_list x) (Below-le (to_list x) (omega arith) p.below)),
        ne,
      )
      (run-right_at d l r y a p.right i)

-- `successor` returns the right child of the node that holds the key, whatever comes next in order.
pub successor-right :
    (d : ℕ) (l r : Tree) (t : Bst) → IsValid t → Sub (node d l r) t.root → successor d t ≡ some r
unfolding successor
successor-right d l r t v s =
    ap value (walk-run pass (right_at d) t.root null)
    ∙ ap (λ z. value (some z)) (run-right_at d l r t.root null v.sorted s)
