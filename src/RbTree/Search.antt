-- ===== src/RbTree/Search.antt =====
-- cpp/tree/rbTree.cpp: the two searches, the neighbours of a node, the traversals and `destroy`.
use mathlib.Core.List.{Perm, perm_append_comm, perm_middle}
use mathlib.Core.List.Perm
use language_test.Prelude.{
  ℕ, suc, ◌+◌, ◌-◌, ◌≡◌, refl, sym, ◌∙◌, ap, arith, Option, some, none, List, [], ◌∷◌, ◌++◌,
  append_assoc, append-nil, if◌then◌else◌, compare-Compared, less, same, more, Returns,
}
use language_test.OrderedSet.{mem}
use language_test.OrderedSet.Laws.{mem-eq}
use language_test.OrderedBag.{IsOrdered}
use language_test.OrderedBag.Laws.{IsOrdered-Parts, mem-lt, mem-gt}
use language_test.RbTree.Zipper.{around, in_order-plug}
use language_test.RbTree.Defs.{
  Color, Tree, null, node, Crumb, in_left, in_right, plug, in_order, pre_order, post_order, search,
  iterative_search, minimum, maximum, up_from_right, up_from_left, successor, predecessor, destroy,
}

abbrev pub key? : Tree → Option ℕ
key? null = none
key? (node c k l r) = some k

-- The recursive search and the loop reach the same node.
pub search-iterative :
    (key : ℕ) (t : Tree) (p : List Crumb) → (search key t p).0 ≡ iterative_search key t
unfolding search iterative_search
search-iterative key null p = refl
search-iterative key (node c k l r) p = elim (compare-Compared key k) [
  | less e h ↦ rw (e, search, iterative_search) (search-iterative key l (in_left c k r ∷ p))
  | same e h ↦ rw (e, search, iterative_search)
  | more e h ↦ rw (e, search, iterative_search) (search-iterative key r (in_right c k l ∷ p))
]

-- `search` finds exactly the keys of an ordered tree, and what it returns is a place of the tree.
pub search-mem :
    (key : ℕ) (t : Tree) (p : List Crumb)
    → IsOrdered (in_order t)
    → let (s, q) = search key t p in
      (key? s ≡ (if mem key (in_order t) then some key else none)) × (plug s q ≡ plug t p)
unfolding search plug
search-mem key null p s = (unfold mem in refl, refl)
search-mem key (node c k l r) p s =
    let q = IsOrdered-Parts (in_order l) k (in_order r) s in
    elim (compare-Compared key k) [
      | less e h ↦
          let ih = search-mem key l (in_left c k r ∷ p) q.left in
          rw (e, search, mem-lt key k (in_order l) (in_order r) h q.above) ih
      | same e h ↦ rw (e, search, mem-eq key k (in_order l) (in_order r) h) (ap some (sym h), refl)
      | more e h ↦
          let ih = search-mem key r (in_right c k l ∷ p) q.right in
          rw (e, search, mem-gt key k (in_order l) (in_order r) h q.below) ih
    ]

-- The keys of the ancestors that stand after a place, and before it.
abbrev pub after : List Crumb → List ℕ
after [] = []
after (in_left c k r ∷ p) = k ∷ (in_order r ++ after p)
after (in_right c k l ∷ p) = after p

abbrev pub before : List Crumb → List ℕ
before [] = []
before (in_left c k r ∷ p) = before p
before (in_right c k l ∷ p) = before p ++ (in_order l ++ k ∷ [])

around-split : (p : List Crumb) (xs : List ℕ) → around p xs ≡ before p ++ (xs ++ after p)
around-split [] xs = sym (append-nil xs)
around-split (in_left c k r ∷ p) xs = around-split p (xs ++ k ∷ in_order r) ∙ simp append_assoc
around-split (in_right c k l ∷ p) xs = around-split p (in_order l ++ k ∷ xs) ∙ simp append_assoc

abbrev pub head? : List ℕ → Option ℕ
head? [] = none
head? (x ∷ xs) = some x

abbrev pub last_or : Option ℕ → List ℕ → Option ℕ
last_or o [] = o
last_or o (x ∷ xs) = last_or (some x) xs

up_from_right-head : (t : Tree) (p : List Crumb) → key? (up_from_right t p).0 ≡ head? (after p)
unfolding up_from_right
up_from_right-head t [] = refl
up_from_right-head t (in_left c k r ∷ p) = refl
up_from_right-head t (in_right c k l ∷ p) = up_from_right-head (node c k l t) p

minimum-head :
    (c : Color) (k : ℕ) (l r : Tree) (p : List Crumb) (ys : List ℕ)
    → key? (minimum (node c k l r) p).0 ≡ head? (in_order (node c k l r) ++ ys)
unfolding minimum
minimum-head c k null r p ys = refl
minimum-head c k (node lc lk ll lr) r p ys =
    minimum-head lc lk ll lr (in_left c k r ∷ p) (k ∷ in_order r ++ ys)
    ∙ ap head? (sym (append_assoc (in_order (node lc lk ll lr)) (k ∷ in_order r) ys))

successor-head :
    (c : Color) (k : ℕ) (l r : Tree) (p : List Crumb)
    → Returns (successor (node c k l r) p) (λ (s, q). key? s ≡ head? (in_order r ++ after p))
unfolding successor
successor-head c k l null p = up_from_right-head (node c k l null) p
successor-head c k l (node rc rk rl rr) p = minimum-head rc rk rl rr (in_right c k l ∷ p) (after p)

-- `successor` is defined at every node, and returns the node with the next key in order, or null at
-- the last one.
pub successor-next :
    (c : Color) (k : ℕ) (l r : Tree) (p : List Crumb)
    → (xs : List ℕ) × (ys : List ℕ) × (in_order (plug (node c k l r) p) ≡ xs ++ k ∷ ys)
      × Returns (successor (node c k l r) p) (λ (s, q). key? s ≡ head? ys)
successor-next c k l r p = (
  before p ++ in_order l,
  in_order r ++ after p,
  in_order-plug (node c k l r) p ∙ around-split p (in_order (node c k l r)) ∙ simp append_assoc,
  successor-head c k l r p,
)

last_or-append : (o : Option ℕ) (xs ys : List ℕ) → last_or o (xs ++ ys) ≡ last_or (last_or o xs) ys
last_or-append o [] ys = refl
last_or-append o (x ∷ xs) ys = last_or-append (some x) xs ys

last_or_some :
    (o p : Option ℕ) (xs : List ℕ) (y : ℕ) (ys : List ℕ)
    → last_or o (xs ++ y ∷ ys) ≡ last_or p (xs ++ y ∷ ys)
last_or_some o p [] y ys = refl
last_or_some o p (x ∷ xs) y ys = refl

up_from_left-last :
    (t : Tree) (p : List Crumb) → key? (up_from_left t p).0 ≡ last_or none (before p)
unfolding up_from_left
up_from_left-last t [] = refl
up_from_left-last t (in_right c k l ∷ p) =
    sym (
      last_or-append none (before p) (in_order l ++ k ∷ [])
      ∙ last_or-append _ (in_order l) (k ∷ []))
up_from_left-last t (in_left c k r ∷ p) = up_from_left-last (node c k t r) p

maximum-last :
    (c : Color) (k : ℕ) (l r : Tree) (p : List Crumb) (o : Option ℕ)
    → key? (maximum (node c k l r) p).0 ≡ last_or o (in_order (node c k l r))
unfolding maximum
maximum-last c k l null p o = sym (last_or-append o (in_order l) (k ∷ []))
maximum-last c k l (node rc rk rl rr) p o =
    maximum-last rc rk rl rr (in_right c k l ∷ p) (some k)
    ∙ sym (last_or-append o (in_order l) (k ∷ in_order (node rc rk rl rr)))

predecessor-last_or :
    (c : Color) (k : ℕ) (l r : Tree) (p : List Crumb)
    → Returns
        (predecessor (node c k l r) p)
        (λ (s, q). key? s ≡ last_or none (before p ++ in_order l))
unfolding predecessor
predecessor-last_or c k null r p =
    up_from_left-last (node c k null r) p ∙ ap (last_or none) (sym (append-nil (before p)))
predecessor-last_or c k (node lc lk ll lr) r p =
    maximum-last lc lk ll lr (in_left c k r ∷ p) (last_or none (before p))
    ∙ sym (last_or-append none (before p) (in_order (node lc lk ll lr)))

-- `predecessor` is defined at every node, and returns the node with the key before it in order, or
-- null at the first one.
pub predecessor-last :
    (c : Color) (k : ℕ) (l r : Tree) (p : List Crumb)
    → (xs : List ℕ) × (ys : List ℕ) × (in_order (plug (node c k l r) p) ≡ xs ++ k ∷ ys)
      × Returns (predecessor (node c k l r) p) (λ (s, q). key? s ≡ last_or none xs)
predecessor-last c k l r p = (
  before p ++ in_order l,
  in_order r ++ after p,
  in_order-plug (node c k l r) p ∙ around-split p (in_order (node c k l r)) ∙ simp append_assoc,
  predecessor-last_or c k l r p,
)

-- The other traversals print the same keys in another order.
pub pre_order-perm : (t : Tree) → Perm (pre_order t) (in_order t)
unfolding pre_order
pre_order-perm null = Perm.refl []
pre_order-perm (node c k l r) =
    Perm.trans (Perm.cons k (Perm.append (pre_order-perm l) (pre_order-perm r)))
      (Perm.symm (perm_middle (in_order l) (in_order r)))

-- The post-order visits the same keys as the in-order, each as often.
pub post_order-perm : (t : Tree) → Perm (post_order t) (in_order t)
unfolding post_order
post_order-perm null = Perm.refl []
post_order-perm (node c k l r) =
    Perm.trans
      (Perm.append (post_order-perm l) (Perm.append (post_order-perm r) (Perm.refl (k ∷ []))))
      (Perm.append (Perm.refl (in_order l)) (perm_append_comm (in_order r) (k ∷ [])))

abbrev pub count : Tree → ℕ
count null = 0
count (node c k l r) = suc (count l + count r)

-- `destroy` deletes one leaf only.
pub count-destroy : (t : Tree) → count (destroy t) ≡ count t - 1
unfolding destroy
count-destroy null = refl
count-destroy (node c k null null) = refl
count-destroy (node c k (node lc lk ll lr) r) = omega (arith, count-destroy (node lc lk ll lr))
count-destroy (node c k null (node rc rk rl rr)) = omega (arith, count-destroy (node rc rk rl rr))
