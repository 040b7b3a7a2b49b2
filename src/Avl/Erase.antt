-- ===== src/Avl/Erase.antt =====
-- cpp/tree/avl2.cpp: `erase_real` takes a key out of a balanced search tree and leaves it one.
use language_test.Prelude.{
  ℕ, ◌+◌, ◌≤◌, ◌≡◌, inl, inr, refl, arith, Returns, Returns-bind, Returns-imp, sym, le_or_lt,
  compare-Compared, less, same, more, List, ◌∷◌, ◌++◌, Option, ◌∙◌, ap, append-nil,
}
use language_test.OrderedSet.{IsSorted, del}
use language_test.OrderedSet.Laws.{IsSorted-Parts, del-lt, del-gt, del-eq}
use language_test.Avl.Defs.{
  Tree, null, node, get_height, leftmost_key, refix, erase_fix, erase_here, erase_real,
}
use language_test.Avl.Rotate.{to_list, IsBalanced}
use language_test.Avl.Balance.{Fixed, erase_fix-Fixed}

abbrev Shrinks : Tree → Tree → Type 0
Shrinks t t' = (get_height t' ≤ get_height t) × (get_height t ≤ get_height t' + 1)

pub record Erased (key : ℕ) (t t' : Tree) : Type 0 where
  pub balanced : IsBalanced t'
  pub shrinks : Shrinks t t'
  pub contents : to_list t' ≡ del key (to_list t)

module _ (k h : ℕ) (l r : Tree) (b : IsBalanced (node k h l r)) where
  Shrinks-left :
      (l' : Tree) (j : ℕ) (t' : Tree) → Shrinks l l' → Fixed j l' r t' → Shrinks (node k h l r) t'
  Shrinks-left l' j t' g f = elim (le_or_lt (get_height r) (get_height l' + 1)) [
    | inl p ↦ omega (arith, f.kept (omega arith) p)
    | inr p ↦ omega (arith, f.low, f.high)
  ]

  Shrinks-right :
      (r' : Tree) (j : ℕ) (t' : Tree) → Shrinks r r' → Fixed j l r' t' → Shrinks (node k h l r) t'
  Shrinks-right r' j t' g f = elim (le_or_lt (get_height l) (get_height r' + 1)) [
    | inl p ↦ omega (arith, f.kept p (omega arith))
    | inr p ↦ omega (arith, f.low, f.high)
  ]

-- The last key of the walk to the left is the first one in order.
leftmost_key-head :
    (k h : ℕ) (l r : Tree) → (rest : List ℕ) × (to_list (node k h l r) ≡ leftmost_key k l ∷ rest)
unfolding leftmost_key
leftmost_key-head k h null r = (to_list r, refl)
leftmost_key-head k h (node lk lh ll lr) r =
    let (rest, e) = leftmost_key-head lk lh ll lr in
    (rest ++ k ∷ to_list r, ap (λ z. z ++ k ∷ to_list r) e)

leftmost_key-del :
    (k h : ℕ) (l r : Tree)
    → leftmost_key k l ∷ del (leftmost_key k l) (to_list (node k h l r)) ≡ to_list (node k h l r)
unfolding del
leftmost_key-del k h l r = let (rest, e) = leftmost_key-head k h l r in rw e (ground arith)

-- The only child of a node takes its place.
refix-kept :
    (t : Tree)
    → IsBalanced t
    → Returns
        (refix t)
        (λ t'. IsBalanced t' × (get_height t' ≡ get_height t) × (to_list t' ≡ to_list t))
unfolding refix
refix-kept null b = (tt, refl, refl)
refix-kept (node k h l r) b =
    Returns-imp (erase_fix k l r) (Fixed k l r) _
      (erase_fix-Fixed k l r b.3 b.4 (omega arith) (omega arith))
      λ t' f. (f.balanced, omega (arith, f.kept b.1 b.2), f.contents)

erase_here-Erased :
    (k h : ℕ) (l r : Tree) (again : ℕ → Option Tree)
    → IsBalanced (node k h l r)
    → ((least : ℕ) → Returns (again least) (Erased least r))
    → Returns
        (erase_here again l r)
        (λ t'. IsBalanced t' × Shrinks (node k h l r) t' × (to_list t' ≡ to_list l ++ to_list r))
unfolding erase_here
erase_here-Erased k h null r again b ih =
    Returns-imp (refix r) _ _ (refix-kept r b.4) λ t' f. (f.0, omega arith, f.2)
erase_here-Erased k h (node lk lh ll lr) null again b ih =
    Returns-imp (refix (node lk lh ll lr)) _ _ (refix-kept (node lk lh ll lr) b.3)
      λ t' f. (f.0, omega arith, simp (f.2, append-nil))
erase_here-Erased k h (node lk lh ll lr) (node rk rh rl rr) again b ih =
    let l = node lk lh ll lr in
    let r = node rk rh rl rr in
    let least = leftmost_key rk rl in
    Returns-bind (again least) (λ r'. erase_fix least l r') (Erased least r) _ (ih least)
      λ r' i.
        Returns-imp (erase_fix least l r') (Fixed least l r') _
          (erase_fix-Fixed least l r' b.3 i.balanced (omega arith) (omega arith))
          λ t' f. (
            f.balanced,
            Shrinks-right k h l r b r' least t' i.shrinks f,
            f.contents
                ∙ ap (λ z. to_list l ++ least ∷ z) i.contents
                ∙ ap (λ z. to_list l ++ z) (leftmost_key-del rk rh rl rr),
          )

-- `erase_real` follows no null pointer, and returns a balanced tree without the key.
pub erase_real-Erased :
    (key : ℕ) (t : Tree)
    → IsBalanced t
    → IsSorted (to_list t)
    → Returns (erase_real key t) (Erased key t)
unfolding erase_real
erase_real-Erased key null b s = record {
  balanced = omega arith;
  shrinks = omega arith;
  contents = unfold del in refl;
}
erase_real-Erased key (node k h l r) b s =
    let p = IsSorted-Parts (to_list l) k (to_list r) s in
    elim (compare-Compared key k) [
      | less e c ↦
          rw (e, erase_real)
            (Returns-bind (erase_real key l) (λ l'. erase_fix k l' r) (Erased key l)
              (Erased key (node k h l r)) (erase_real-Erased key l b.3 p.left)
              λ l' i.
                Returns-imp (erase_fix k l' r) (Fixed k l' r) (Erased key (node k h l r))
                  (erase_fix-Fixed k l' r i.balanced b.4 (omega arith) (omega arith))
                  λ t' f. record {
                    balanced = f.balanced;
                    shrinks = Shrinks-left k h l r b l' k t' i.shrinks f;
                    contents =
                        rw (f.contents, i.contents)
                          (sym (del-lt key k (to_list l) (to_list r) c p.above));
                  })
      | same e c ↦
          rw (e, erase_real)
            (Returns-imp (erase_here (λ least. erase_real least r) l r) _
              (Erased key (node k h l r))
              (erase_here-Erased k h l r (λ least. erase_real least r) b
                (λ least. erase_real-Erased least r b.4 p.right))
              λ t' f. record {
                balanced = f.0;
                shrinks = f.1;
                contents = f.2 ∙ sym (del-eq key k (to_list l) (to_list r) c p.below);
              })
      | more e c ↦
          rw (e, erase_real)
            (Returns-bind (erase_real key r) (λ r'. erase_fix k l r') (Erased key r)
              (Erased key (node k h l r)) (erase_real-Erased key r b.4 p.right)
              λ r' i.
                Returns-imp (erase_fix k l r') (Fixed k l r') (Erased key (node k h l r))
                  (erase_fix-Fixed k l r' b.3 i.balanced (omega arith) (omega arith))
                  λ t' f. record {
                    balanced = f.balanced;
                    shrinks = Shrinks-right k h l r b r' k t' i.shrinks f;
                    contents =
                        rw (f.contents, i.contents)
                          (sym (del-gt key k (to_list l) (to_list r) c p.below));
                  })
    ]
