-- ===== src/Avl/Rotate.antt =====
-- cpp/tree/avl2.cpp: what the rotations keep.
use language_test.Prelude.{
  ℕ, ◌+◌, ◌≤◌, ◌<◌, ◌≡◌, ◌≢◌, List, [], ◌∷◌, ◌++◌, append_assoc, arith, Returns,
}
use language_test.Avl.Defs.{
  Tree, null, node, get_height, new_height, ll_rotate, rr_rotate, lr_rotate, rl_rotate,
}

-- The keys in order.
abbrev pub to_list : Tree → List ℕ
to_list null = []
to_list (node k h l r) = to_list l ++ k ∷ to_list r

-- The stored heights are right, and the two sides of every node differ by at most one.
abbrev pub IsBalanced : Tree → Type 0
IsBalanced null = Unit
IsBalanced (node k h l r) =
    (h ≡ new_height l r)
    × (get_height l ≤ get_height r + 1)
    × (get_height r ≤ get_height l + 1)
    × IsBalanced l
    × IsBalanced r

abbrev pub left_height : Tree → ℕ
left_height null = 0
left_height (node k h l r) = get_height l

abbrev pub right_height : Tree → ℕ
right_height null = 0
right_height (node k h l r) = get_height r

-- What a rotation gives: a balanced tree with the same keys, about as high as the higher side `s`
-- was, and exactly so where `s` itself leans outwards.
pub record Rotated (keys : List ℕ) (s : Tree) (inner outer : ℕ) (t : Tree) : Type 0 where
  pub balanced : IsBalanced t
  pub low : get_height s ≤ get_height t
  pub high : get_height t ≤ get_height s + 1
  pub exact : inner ≢ outer → get_height t ≡ get_height s
  pub contents : to_list t ≡ keys

module _ (k h : ℕ) where
  pub ll_rotate-Rotated :
      (l r : Tree)
      → IsBalanced l
      → IsBalanced r
      → get_height l ≡ get_height r + 2
      → right_height l ≤ left_height l
      → Returns
          (ll_rotate (node k h l r))
          (Rotated (to_list l ++ k ∷ to_list r) l (right_height l) (left_height l))
  unfolding ll_rotate
  ll_rotate-Rotated null r bl br e d = absurd (omega arith)
  ll_rotate-Rotated (node xk xh xl xr) r bl br e d = record {
    balanced = (
      omega arith,
      omega arith,
      omega arith,
      bl.3,
      (omega arith, omega arith, omega arith, bl.4, br),
    );
    low = omega arith;
    high = omega arith;
    exact = omega arith;
    contents = simp append_assoc;
  }

  pub rr_rotate-Rotated :
      (l r : Tree)
      → IsBalanced l
      → IsBalanced r
      → get_height r ≡ get_height l + 2
      → left_height r ≤ right_height r
      → Returns
          (rr_rotate (node k h l r))
          (Rotated (to_list l ++ k ∷ to_list r) r (left_height r) (right_height r))
  unfolding rr_rotate
  rr_rotate-Rotated l null bl br e d = absurd (omega arith)
  rr_rotate-Rotated l (node xk xh xl xr) bl br e d = record {
    balanced = (
      omega arith,
      omega arith,
      omega arith,
      (omega arith, omega arith, omega arith, bl, br.3),
      br.4,
    );
    low = omega arith;
    high = omega arith;
    exact = omega arith;
    contents = simp append_assoc;
  }

  pub lr_rotate-Rotated :
      (l r : Tree)
      → IsBalanced l
      → IsBalanced r
      → get_height l ≡ get_height r + 2
      → left_height l < right_height l
      → Returns
          (lr_rotate (node k h l r))
          (Rotated (to_list l ++ k ∷ to_list r) l (right_height l) (left_height l))
  unfolding lr_rotate ll_rotate rr_rotate
  lr_rotate-Rotated null r bl br e d = absurd (omega arith)
  lr_rotate-Rotated (node xk xh xl null) r bl br e d = absurd (omega arith)
  lr_rotate-Rotated (node xk xh xl (node yk yh yl yr)) r bl br e d = record {
    balanced = (
      omega arith,
      omega arith,
      omega arith,
      (omega arith, omega arith, omega arith, bl.3, bl.4.3),
      (omega arith, omega arith, omega arith, bl.4.4, br),
    );
    low = omega arith;
    high = omega arith;
    exact = omega arith;
    contents = simp append_assoc;
  }

  pub rl_rotate-Rotated :
      (l r : Tree)
      → IsBalanced l
      → IsBalanced r
      → get_height r ≡ get_height l + 2
      → right_height r < left_height r
      → Returns
          (rl_rotate (node k h l r))
          (Rotated (to_list l ++ k ∷ to_list r) r (left_height r) (right_height r))
  unfolding rl_rotate ll_rotate rr_rotate
  rl_rotate-Rotated l null bl br e d = absurd (omega arith)
  rl_rotate-Rotated l (node xk xh null xr) bl br e d = absurd (omega arith)
  rl_rotate-Rotated l (node xk xh (node yk yh yl yr) xr) bl br e d = record {
    balanced = (
      omega arith,
      omega arith,
      omega arith,
      (omega arith, omega arith, omega arith, bl, br.3.3),
      (omega arith, omega arith, omega arith, br.3.4, br.4),
    );
    low = omega arith;
    high = omega arith;
    exact = omega arith;
    contents = simp append_assoc;
  }
