-- ===== src/Avl/Insert.antt =====
-- cpp/tree/avl2.cpp: `insert_real` adds a key to a balanced search tree and leaves it one.
use language_test.Prelude.{
  ℕ, ◌+◌, ◌≤◌, ◌≡◌, ◌≢◌, ◌⊎◌, inl, inr, refl, arith, Returns, Returns-bind, Returns-imp, sym,
  le_or_lt, compare-Compared, less, same, more,
}
use language_test.OrderedSet.{IsSorted, ins}
use language_test.OrderedSet.Laws.{IsSorted-Parts, ins-lt, ins-gt, ins-eq}
use language_test.Avl.Defs.{Tree, null, node, get_height, insert_fix, insert_real}
use language_test.Avl.Rotate.{to_list, IsBalanced, left_height, right_height}
use language_test.Avl.Balance.{Fixed, insert_fix-Fixed}

-- The tree after an insertion is at most one higher, and if it is, it leans to a side or is one
-- node: so the rotations above it are those that make it lower again.
abbrev Grows : Tree → Tree → Type 0
Grows t t' =
    (get_height t ≤ get_height t')
    × (get_height t' ≤ get_height t + 1)
    × ((get_height t' ≡ get_height t) ⊎ (get_height t' ≡ 1) ⊎ (left_height t' ≢ right_height t'))

pub record Inserted (key : ℕ) (t t' : Tree) : Type 0 where
  pub balanced : IsBalanced t'
  pub grows : Grows t t'
  pub contents : to_list t' ≡ ins key (to_list t)

module _ (k h : ℕ) (l r : Tree) (b : IsBalanced (node k h l r)) where
  Grows-left : (l' t' : Tree) → Grows l l' → Fixed k l' r t' → Grows (node k h l r) t'
  Grows-left l' t' g f = elim (le_or_lt (get_height l') (get_height r + 1)) [
    | inl p ↦ omega (arith, f.kept p (omega arith))
    | inr p ↦ omega (arith, f.lower_left (omega arith) (omega arith))
  ]

  Grows-right : (r' t' : Tree) → Grows r r' → Fixed k l r' t' → Grows (node k h l r) t'
  Grows-right r' t' g f = elim (le_or_lt (get_height r') (get_height l + 1)) [
    | inl p ↦ omega (arith, f.kept (omega arith) p)
    | inr p ↦ omega (arith, f.lower_right (omega arith) (omega arith))
  ]

-- `insert_real` follows no null pointer, and returns a balanced tree with the keys of the set.
pub insert_real-Inserted :
    (key : ℕ) (t : Tree)
    → IsBalanced t
    → IsSorted (to_list t)
    → Returns (insert_real key t) (Inserted key t)
unfolding insert_real
insert_real-Inserted key null b s = record {
  balanced = omega arith;
  grows = omega arith;
  contents = unfold ins in refl;
}
insert_real-Inserted key (node k h l r) b s =
    let p = IsSorted-Parts (to_list l) k (to_list r) s in
    elim (compare-Compared key k) [
      | less e c ↦
          rw (e, insert_real)
            (Returns-bind (insert_real key l) (λ l'. insert_fix k l' r) (Inserted key l)
              (Inserted key (node k h l r)) (insert_real-Inserted key l b.3 p.left)
              λ l' i.
                Returns-imp (insert_fix k l' r) (Fixed k l' r) (Inserted key (node k h l r))
                  (insert_fix-Fixed k l' r i.balanced b.4 (omega arith) (omega arith) (omega arith)
                    (omega arith))
                  λ t' f. record {
                    balanced = f.balanced;
                    grows = Grows-left k h l r b l' t' i.grows f;
                    contents =
                        rw (f.contents, i.contents) (sym (ins-lt key k (to_list l) (to_list r) c));
                  })
      | same e c ↦
          rw (e, insert_real)
            (record {
              balanced = b;
              grows = omega arith;
              contents = sym (ins-eq key k (to_list l) (to_list r) c p.below);
            })
      | more e c ↦
          rw (e, insert_real)
            (Returns-bind (insert_real key r) (λ r'. insert_fix k l r') (Inserted key r)
              (Inserted key (node k h l r)) (insert_real-Inserted key r b.4 p.right)
              λ r' i.
                Returns-imp (insert_fix k l r') (Fixed k l r') (Inserted key (node k h l r))
                  (insert_fix-Fixed k l r' b.3 i.balanced (omega arith) (omega arith) (omega arith)
                    (omega arith))
                  λ t' f. record {
                    balanced = f.balanced;
                    grows = Grows-right k h l r b r' t' i.grows f;
                    contents =
                        rw (f.contents, i.contents)
                          (sym (ins-gt key k (to_list l) (to_list r) c p.below));
                  })
    ]
