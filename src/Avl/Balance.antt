-- ===== src/Avl/Balance.antt =====
-- cpp/tree/avl2.cpp: the code that `insert_real` and `erase_real` run on the way back up makes a
-- balanced tree of two sides that differ by at most two, and does not follow a null pointer.
use language_test.Prelude.{
  ℕ, ◌+◌, ◌≤◌, ◌<◌, ◌≡◌, ◌≢◌, ◌⊎◌, refl, sym, ◌∷◌, ◌++◌, arith, Returns, Returns-if, ltb, leb,
  Option, some, none, ◌&&◌, if◌then◌else◌,
}
use language_test.Prelude.Int.{pos, negsuc, ltb_ℤ, leb_ℤ}
use language_test.Avl.Defs.{
  Tree, null, node, get_height, new_height, get_balance, insert_fix, erase_fix,
}
use language_test.Avl.Rotate.{
  to_list, IsBalanced, left_height, right_height, Rotated, ll_rotate-Rotated, rr_rotate-Rotated,
  lr_rotate-Rotated, rl_rotate-Rotated,
}

-- The tests on balance factors, as tests on heights.
balance_lt : (t : Tree) → ltb_ℤ (get_balance t) (pos 0) ≡ ltb (left_height t) (right_height t)
unfolding get_balance
balance_lt null = refl
balance_lt (node k h l r) = ground arith

balance_gt : (t : Tree) → ltb_ℤ (pos 0) (get_balance t) ≡ ltb (right_height t) (left_height t)
unfolding get_balance
balance_gt null = refl
balance_gt (node k h l r) = ground arith

balance_ge : (t : Tree) → leb_ℤ (pos 0) (get_balance t) ≡ leb (right_height t) (left_height t)
unfolding get_balance
balance_ge null = refl
balance_ge (node k h l r) = ground arith

balance_le : (t : Tree) → leb_ℤ (get_balance t) (pos 0) ≡ leb (left_height t) (right_height t)
unfolding get_balance
balance_le null = refl
balance_le (node k h l r) = ground arith

left_heavy :
    (k h : ℕ) (l r : Tree)
    → ltb_ℤ (pos 1) (get_balance (node k h l r)) ≡ ltb (get_height r + 1) (get_height l)
unfolding get_balance
left_heavy k h l r = ground arith

right_heavy :
    (k h : ℕ) (l r : Tree)
    → ltb_ℤ (get_balance (node k h l r)) (negsuc 0) ≡ ltb (get_height l + 1) (get_height r)
unfolding get_balance
right_heavy k h l r = ground arith

-- Each branch as two facts on heights.
module _ (a b c d : ℕ) (x y : Option Tree) (P : Tree → Type 0) where
  Returns-if_lt :
      (a < b → c < d → Returns x P)
      → ((b ≤ a) ⊎ (d ≤ c) → Returns y P)
      → Returns (if ltb a b && ltb c d then x else y) P
  Returns-if_lt f g =
      Returns-if (ltb a b && ltb c d) x y P (λ e. f (ground arith) (ground arith))
        (λ e. g (ground arith))

  Returns-if_le :
      (a < b → c ≤ d → Returns x P)
      → ((b ≤ a) ⊎ (d < c) → Returns y P)
      → Returns (if ltb a b && leb c d then x else y) P
  Returns-if_le f g =
      Returns-if (ltb a b && leb c d) x y P (λ e. f (ground arith) (ground arith))
        (λ e. g (ground arith))

-- The tree that comes out has the keys of the two sides and of the root. Its height is the one
-- that the new root would have, or one less where a rotation was made.
pub record Fixed (k : ℕ) (l r t : Tree) : Type 0 where
  pub balanced : IsBalanced t
  pub low : new_height l r ≤ get_height t + 1
  pub high : get_height t ≤ new_height l r
  pub kept :
      get_height l ≤ get_height r + 1
      → get_height r ≤ get_height l + 1
      → (get_height t ≡ new_height l r)
        × (left_height t ≡ get_height l)
        × (right_height t ≡ get_height r)
  pub lower_left :
      get_height l ≡ get_height r + 2 → left_height l ≢ right_height l → get_height t ≡ get_height l
  pub lower_right :
      get_height r ≡ get_height l + 2 → left_height r ≢ right_height r → get_height t ≡ get_height r
  pub contents : to_list t ≡ to_list l ++ k ∷ to_list r

module _ (k : ℕ) (l r : Tree) (bl : IsBalanced l) (br : IsBalanced r) where
  left_Fixed :
      get_height l ≡ get_height r + 2
      → (o : Option Tree)
      → Returns o (Rotated (to_list l ++ k ∷ to_list r) l (right_height l) (left_height l))
      → Returns o (Fixed k l r)
  left_Fixed e none x = x
  left_Fixed e (some t) x = record {
    balanced = x.balanced;
    low = omega arith;
    high = omega arith;
    kept = λ a b. absurd (omega arith);
    lower_left = λ a b. x.exact (λ z. b (sym z));
    lower_right = λ a b. absurd (omega arith);
    contents = x.contents;
  }

  right_Fixed :
      get_height r ≡ get_height l + 2
      → (o : Option Tree)
      → Returns o (Rotated (to_list l ++ k ∷ to_list r) r (left_height r) (right_height r))
      → Returns o (Fixed k l r)
  right_Fixed e none x = x
  right_Fixed e (some t) x = record {
    balanced = x.balanced;
    low = omega arith;
    high = omega arith;
    kept = λ a b. absurd (omega arith);
    lower_left = λ a b. absurd (omega arith);
    lower_right = λ a b. x.exact b;
    contents = x.contents;
  }

  even_Fixed :
      get_height l ≤ get_height r + 1
      → get_height r ≤ get_height l + 1
      → Fixed k l r (node k (new_height l r) l r)
  even_Fixed p q = record {
    balanced = (refl, p, q, bl, br);
    low = omega arith;
    high = omega arith;
    kept = λ a b. (refl, refl, refl);
    lower_left = λ a b. absurd (omega arith);
    lower_right = λ a b. absurd (omega arith);
    contents = refl;
  }

  pub insert_fix-Fixed :
      get_height l ≤ get_height r + 2
      → get_height r ≤ get_height l + 2
      → (get_height l ≢ get_height r + 2) ⊎ (left_height l ≢ right_height l)
      → (get_height r ≢ get_height l + 2) ⊎ (left_height r ≢ right_height r)
      → Returns (insert_fix k l r) (Fixed k l r)
  unfolding insert_fix
  insert_fix-Fixed p q dl dr =
      simp (left_heavy, right_heavy, balance_lt, balance_gt)
        (Returns-if_lt (get_height r + 1) (get_height l) (right_height l) (left_height l) _ _
          (Fixed k l r)
          (λ a a'.
            left_Fixed (omega arith) _
              (ll_rotate-Rotated k (new_height l r) l r bl br (omega arith) (omega arith)))
          λ na.
            Returns-if_lt (get_height l + 1) (get_height r) (left_height r) (right_height r) _ _
              (Fixed k l r)
              (λ b b'.
                right_Fixed (omega arith) _
                  (rr_rotate-Rotated k (new_height l r) l r bl br (omega arith) (omega arith)))
              λ nb.
                Returns-if_lt (get_height r + 1) (get_height l) (left_height l) (right_height l) _ _
                  (Fixed k l r)
                  (λ c c'.
                    left_Fixed (omega arith) _
                      (lr_rotate-Rotated k (new_height l r) l r bl br (omega arith) (omega arith)))
                  λ nc.
                    Returns-if_lt (get_height l + 1) (get_height r) (right_height r) (left_height r)
                      _ _ (Fixed k l r)
                      (λ d d'. right_Fixed (omega arith) _ (
                        rl_rotate-Rotated k (new_height l r) l r bl br (omega arith) (omega arith)))
                      λ nd. even_Fixed (omega arith) (omega arith))

  pub erase_fix-Fixed :
      get_height l ≤ get_height r + 2
      → get_height r ≤ get_height l + 2
      → Returns (erase_fix k l r) (Fixed k l r)
  unfolding erase_fix
  erase_fix-Fixed p q =
      simp (left_heavy, right_heavy, balance_lt, balance_gt, balance_ge, balance_le)
        (Returns-if_le (get_height r + 1) (get_height l) (right_height l) (left_height l) _ _
          (Fixed k l r)
          (λ a a'.
            left_Fixed (omega arith) _
              (ll_rotate-Rotated k (new_height l r) l r bl br (omega arith) (omega arith)))
          λ na.
            Returns-if_le (get_height l + 1) (get_height r) (left_height r) (right_height r) _ _
              (Fixed k l r)
              (λ b b'.
                right_Fixed (omega arith) _
                  (rr_rotate-Rotated k (new_height l r) l r bl br (omega arith) (omega arith)))
              λ nb.
                Returns-if_lt (get_height r + 1) (get_height l) (left_height l) (right_height l) _ _
                  (Fixed k l r)
                  (λ c c'.
                    left_Fixed (omega arith) _
                      (lr_rotate-Rotated k (new_height l r) l r bl br (omega arith) (omega arith)))
                  λ nc.
                    Returns-if_lt (get_height l + 1) (get_height r) (right_height r) (left_height r)
                      _ _ (Fixed k l r)
                      (λ d d'. right_Fixed (omega arith) _ (
                        rl_rotate-Rotated k (new_height l r) l r bl br (omega arith) (omega arith)))
                      λ nd. even_Fixed (omega arith) (omega arith))
