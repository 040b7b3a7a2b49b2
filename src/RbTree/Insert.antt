-- ===== src/RbTree/Insert.antt =====
-- cpp/tree/rbTree.cpp: `insert` adds a key to a red-black tree and leaves it one.
use language_test.Prelude.{
  ℕ, suc, ◌≡◌, refl, sym, ◌∙◌, ap, arith, List, [], ◌∷◌, append_assoc, Returns, Returns-imp,
  Bool-cases, inl, inr, ltb,
}
use language_test.OrderedBag.{IsOrdered, put}
use language_test.OrderedBag.Laws.{IsOrdered-Parts, put-lt, put-ge, put-IsOrdered}
use language_test.RbTree.Defs.{
  Color, red, black, Tree, null, node, Crumb, in_left, in_right, plug, color, set_black, in_order,
  descend, insert, insert_fix_up, left_rotate, right_rotate,
}
use language_test.RbTree.Zipper.{
  black_height, IsRedBlack, UnderBlack, Ancestors, Fits, plug-IsRedBlack, set_black-IsRedBlack,
  color-set_black, in_order-set_black, around, in_order-plug,
}

-- The tree that the loop leaves: red-black, with a black root and the given keys.
pub record Fixed (keys : List ℕ) (t : Tree) : Type 0 where
  pub valid : IsRedBlack t
  pub root_black : color t ≡ black
  pub contents : in_order t ≡ keys

pub plug-Fixed :
    (t : Tree) (p : List Crumb)
    → IsRedBlack t
    → Fits (color t) p
    → Ancestors (black_height t) p
    → Fixed (around p (in_order t)) (set_black (plug t p))
plug-Fixed t p v f a = record {
  valid = set_black-IsRedBlack (plug t p) (plug-IsRedBlack t p v f a);
  root_black = color-set_black (plug t p);
  contents = in_order-set_black (plug t p) ∙ in_order-plug t p;
}

pub black-Fixed :
    (t : Tree) (p : List Crumb) (keys : List ℕ)
    → IsRedBlack t
    → color t ≡ black
    → Ancestors (black_height t) p
    → in_order t ≡ keys
    → Fixed (around p keys) (set_black (plug t p))
black-Fixed t p keys v c a e = rw (← e) (plug-Fixed t p v (rw c tt) a)

-- Cases 2 and 3, on either side: the new node is `node red k l r`, its parent `pk` has the other
-- child `s`, and its grandparent `gk` has the other child `u`, which is black.
module _ (k pk gk : ℕ) (l r s u : Tree) (p : List Crumb) (v : IsRedBlack (node red k l r))
    (cs : color s ≡ black) (bs : black_height s ≡ black_height l) (vs : IsRedBlack s)
    (cu : color u ≡ black) (bu : black_height u ≡ black_height l) (vu : IsRedBlack u)
    (a : Ancestors (suc (black_height l)) p) where
  left_left :
      Fixed
        (around p (in_order (node black gk (node red pk (node red k l r) s) u)))
        (set_black (plug (node black pk (node red k l r) (node red gk s u)) p))
  left_left =
      black-Fixed (node black pk (node red k l r) (node red gk s u)) p _
        (sym bs, v, (cs, cu, bs ∙ sym bu, vs, vu)) refl a (simp append_assoc)

  left_right :
      Fixed
        (around p (in_order (node black gk (node red pk s (node red k l r)) u)))
        (set_black (plug (node black k (node red pk s l) (node red gk r u)) p))
  left_right =
      black-Fixed (node black k (node red pk s l) (node red gk r u)) p _
        (bs ∙ v.2, (cs, v.0, bs, vs, v.3), (v.1, cu, sym v.2 ∙ sym bu, v.4, vu)) refl (rw bs a)
        (simp append_assoc)

  right_right :
      Fixed
        (around p (in_order (node black gk u (node red pk s (node red k l r)))))
        (set_black (plug (node black pk (node red gk u s) (node red k l r)) p))
  right_right =
      black-Fixed (node black pk (node red gk u s) (node red k l r)) p _
        (bu, (cu, cs, bu ∙ sym bs, vu, vs), v) refl (rw bu a) (simp append_assoc)

  right_left :
      Fixed
        (around p (in_order (node black gk u (node red pk (node red k l r) s))))
        (set_black (plug (node black k (node red gk u l) (node red pk r s)) p))
  right_left =
      black-Fixed (node black k (node red gk u l) (node red pk r s)) p _
        (bu ∙ v.2, (cu, v.0, bu, vu, v.3), (v.1, cs, sym v.2 ∙ sym bs, v.4, vs)) refl (rw bu a)
        (simp append_assoc)

-- The loop of `insertFixUp`, from a red node.
insert_fix_up-Fixed :
    (k : ℕ) (l r : Tree) (p : List Crumb)
    → IsRedBlack (node red k l r)
    → Ancestors (black_height l) p
    → Returns (insert_fix_up (node red k l r) p) (Fixed (around p (in_order (node red k l r))))
unfolding insert_fix_up left_rotate right_rotate
insert_fix_up-Fixed k l r [] v a = record {
  valid = (v.2, v.3, v.4);
  root_black = refl;
  contents = refl;
}
insert_fix_up-Fixed k l r (in_left black pk s ∷ p) v a =
    plug-Fixed (node red k l r) (in_left black pk s ∷ p) v tt a
insert_fix_up-Fixed k l r (in_right black pk s ∷ p) v a =
    plug-Fixed (node red k l r) (in_right black pk s ∷ p) v tt a
insert_fix_up-Fixed k l r (in_left red pk s ∷ []) v a = a.3
insert_fix_up-Fixed k l r (in_right red pk s ∷ []) v a = a.3
insert_fix_up-Fixed k l r (in_left red pk s ∷ in_left red gk u ∷ p) v a = absurd a.3
insert_fix_up-Fixed k l r (in_left red pk s ∷ in_right red gk u ∷ p) v a = absurd a.3
insert_fix_up-Fixed k l r (in_right red pk s ∷ in_left red gk u ∷ p) v a = absurd a.3
insert_fix_up-Fixed k l r (in_right red pk s ∷ in_right red gk u ∷ p) v a = absurd a.3
insert_fix_up-Fixed k l r (in_left red pk s ∷ in_left black gk (node red uk ul ur) ∷ p) v a =
    insert_fix_up-Fixed gk (node black pk (node red k l r) s) (node black uk ul ur) p
      (refl, refl, ap suc (sym a.4.0), (sym a.1, v, a.2), (a.4.1.2, a.4.1.3, a.4.1.4)) a.4.2
insert_fix_up-Fixed k l r (in_left red pk s ∷ in_left black gk null ∷ p) v a =
    left_left k pk gk l r s null p v a.0 a.1 a.2 refl a.4.0 a.4.1 a.4.2
insert_fix_up-Fixed k l r (in_left red pk s ∷ in_left black gk (node black uk ul ur) ∷ p) v a =
    left_left k pk gk l r s (node black uk ul ur) p v a.0 a.1 a.2 refl a.4.0 a.4.1 a.4.2
insert_fix_up-Fixed k l r (in_right red pk s ∷ in_left black gk (node red uk ul ur) ∷ p) v a =
    insert_fix_up-Fixed gk (node black pk s (node red k l r)) (node black uk ul ur) p
      (refl, refl, ap suc (a.1 ∙ sym a.4.0), (a.1, a.2, v), (a.4.1.2, a.4.1.3, a.4.1.4))
      (rw a.1 a.4.2)
insert_fix_up-Fixed k l r (in_right red pk s ∷ in_left black gk null ∷ p) v a =
    left_right k pk gk l r s null p v a.0 a.1 a.2 refl a.4.0 a.4.1 a.4.2
insert_fix_up-Fixed k l r (in_right red pk s ∷ in_left black gk (node black uk ul ur) ∷ p) v a =
    left_right k pk gk l r s (node black uk ul ur) p v a.0 a.1 a.2 refl a.4.0 a.4.1 a.4.2
insert_fix_up-Fixed k l r (in_right red pk s ∷ in_right black gk (node red uk ul ur) ∷ p) v a =
    insert_fix_up-Fixed gk (node black uk ul ur) (node black pk s (node red k l r)) p
      (refl, refl, ap suc (a.4.0 ∙ sym a.1), (a.4.1.2, a.4.1.3, a.4.1.4), (a.1, a.2, v))
      (rw a.4.0 a.4.2)
insert_fix_up-Fixed k l r (in_right red pk s ∷ in_right black gk null ∷ p) v a =
    right_right k pk gk l r s null p v a.0 a.1 a.2 refl a.4.0 a.4.1 a.4.2
insert_fix_up-Fixed k l r (in_right red pk s ∷ in_right black gk (node black uk ul ur) ∷ p) v a =
    right_right k pk gk l r s (node black uk ul ur) p v a.0 a.1 a.2 refl a.4.0 a.4.1 a.4.2
insert_fix_up-Fixed k l r (in_left red pk s ∷ in_right black gk (node red uk ul ur) ∷ p) v a =
    insert_fix_up-Fixed gk (node black uk ul ur) (node black pk (node red k l r) s) p
      (refl, refl, ap suc a.4.0, (a.4.1.2, a.4.1.3, a.4.1.4), (sym a.1, v, a.2)) (rw a.4.0 a.4.2)
insert_fix_up-Fixed k l r (in_left red pk s ∷ in_right black gk null ∷ p) v a =
    right_left k pk gk l r s null p v a.0 a.1 a.2 refl a.4.0 a.4.1 a.4.2
insert_fix_up-Fixed k l r (in_left red pk s ∷ in_right black gk (node black uk ul ur) ∷ p) v a =
    right_left k pk gk l r s (node black uk ul ur) p v a.0 a.1 a.2 refl a.4.0 a.4.1 a.4.2

-- A red node has a parent, which is black.
abbrev pub Hangs : Color → List Crumb → Type 0
Hangs black p = Unit
Hangs red p = UnderBlack p

pub Hangs-left : (c : Color) (k : ℕ) (s : Tree) (p : List Crumb) → Hangs c (in_left black k s ∷ p)
Hangs-left red k s p = tt
Hangs-left black k s p = tt

pub Hangs-right : (c : Color) (k : ℕ) (s : Tree) (p : List Crumb) → Hangs c (in_right black k s ∷ p)
Hangs-right red k s p = tt
Hangs-right black k s p = tt

-- The place that the loop of `insert` finds is one for a tree of black height 0.
descend-Ancestors :
    (key : ℕ) (t : Tree) (p : List Crumb)
    → IsRedBlack t
    → Hangs (color t) p
    → Ancestors (black_height t) p
    → Ancestors 0 (descend key t p)
unfolding descend
descend-Ancestors key null p v h a = a
descend-Ancestors key (node red k l r) p v h a = elim (Bool-cases (ltb key k)) [
  | inl e ↦
      rw (e, descend)
        (descend-Ancestors key l (in_left red k r ∷ p) v.3 (rw v.0 tt) (v.1, sym v.2, v.4, h, a))
  | inr e ↦
      rw (e, descend)
        (descend-Ancestors key r (in_right red k l ∷ p) v.4 (rw v.1 tt)
          (v.0, v.2, v.3, h, rw v.2 at a))
]
descend-Ancestors key (node black k l r) p v h a = elim (Bool-cases (ltb key k)) [
  | inl e ↦
      rw (e, descend)
        (descend-Ancestors key l (in_left black k r ∷ p) v.1 (Hangs-left (color l) k r p)
          (sym v.0, v.2, a))
  | inr e ↦
      rw (e, descend)
        (descend-Ancestors key r (in_right black k l ∷ p) v.2 (Hangs-right (color r) k l p)
          (v.0, v.1, rw v.0 at a))
]

-- The new key at that place is the new key of the multiset.
descend-put :
    (key : ℕ) (t : Tree) (p : List Crumb)
    → IsOrdered (in_order t)
    → around (descend key t p) (key ∷ []) ≡ around p (put key (in_order t))
unfolding descend
descend-put key null p s = unfold put in refl
descend-put key (node c k l r) p s =
    let q = IsOrdered-Parts (in_order l) k (in_order r) s in
    elim (Bool-cases (ltb key k)) [
      | inl e ↦
          rw (e, descend)
            (descend-put key l (in_left c k r ∷ p) q.left
              ∙ ap (around p) (sym (put-lt key k (in_order l) (in_order r) (ground arith))))
      | inr e ↦
          rw (e, descend)
            (descend-put key r (in_right c k l ∷ p) q.right
              ∙ ap (around p) (sym (put-ge key k (in_order l) (in_order r) (ground arith) q.below)))
    ]

-- A red-black search tree.
pub record IsValid (t : Tree) : Type 0 where
  pub valid : IsRedBlack t
  pub root_black : color t ≡ black
  pub ordered : IsOrdered (in_order t)

-- `insert` follows no null pointer, leaves a red-black search tree with a black root, and adds the
-- key to the multiset, also where it is there already.
pub insert-put :
    (key : ℕ) (t : Tree)
    → IsValid t
    → Returns (insert key t) (λ t'. IsValid t' × (in_order t' ≡ put key (in_order t)))
unfolding insert
insert-put key t v =
    let contents = descend-put key t [] v.ordered in
    Returns-imp (insert_fix_up (node red key null null) (descend key t [])) _ _
      (insert_fix_up-Fixed key null null (descend key t []) (refl, refl, refl, tt, tt)
        (descend-Ancestors key t [] v.valid (rw v.root_black tt) tt))
      λ t' f. (
        record {
          valid = f.valid;
          root_black = f.root_black;
          ordered = rw (f.contents ∙ contents) (put-IsOrdered key (in_order t) v.ordered);
        },
        f.contents ∙ contents,
      )
