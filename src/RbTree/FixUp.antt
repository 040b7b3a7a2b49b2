-- ===== src/RbTree/FixUp.antt =====
-- cpp/tree/rbTree.cpp: `removeFixUp` restores the rules where one black node is missing, and
-- follows no null pointer.
use language_test.Prelude.{ℕ, suc, ◌≡◌, refl, sym, ◌∙◌, ap, List, append_assoc, Returns, ◌>>=◌}
use language_test.RbTree.Defs.{
  Color, red, black, Tree, null, node, color, set_black, in_order, left_rotate, right_rotate,
}
use language_test.RbTree.Zipper.{black_height, IsRedBlack}
use language_test.RbTree.Removal.{
  Outcome, up, done, case_four_left, case_four_right, cases_left, cases_right,
}

abbrev pub bump : Color → ℕ → ℕ
bump red n = n
bump black n = suc n

-- A round for a place whose tree should have the black height `n + 1` below a parent of this
-- colour: the subtree of the parent is right again, or right once it is made black.
abbrev pub Good : Color → ℕ → List ℕ → Outcome → Type 0
Good c n keys (up s) =
    IsRedBlack (set_black s)
    × (black_height (set_black s) ≡ suc n)
    × (color s ≡ c)
    × (in_order s ≡ keys)
Good c n keys (done s) =
    IsRedBlack s × (black_height s ≡ bump c (suc n)) × (color s ≡ c) × (in_order s ≡ keys)

IsRedBlack-node :
    (c : Color) (k : ℕ) (l r : Tree)
    → color l ≡ black
    → color r ≡ black
    → black_height l ≡ black_height r
    → IsRedBlack l
    → IsRedBlack r
    → IsRedBlack (node c k l r)
IsRedBlack-node red k l r cl cr b vl vr = (cl, cr, b, vl, vr)
IsRedBlack-node black k l r cl cr b vl vr = (b, vl, vr)

black_height-node :
    (c : Color) (k : ℕ) (l r : Tree) → black_height (node c k l r) ≡ bump c (black_height l)
black_height-node red k l r = refl
black_height-node black k l r = refl

-- `node = root`: the parent's place holds a tree with the parent's colour and two black children.
done-Good :
    (c : Color) (n k : ℕ) (l r : Tree) (keys : List ℕ)
    → color l ≡ black
    → color r ≡ black
    → black_height l ≡ suc n
    → black_height r ≡ suc n
    → IsRedBlack l
    → IsRedBlack r
    → in_order (node c k l r) ≡ keys
    → Good c n keys (done (node c k l r))
done-Good c n k l r keys cl cr bl br vl vr e = (
  IsRedBlack-node c k l r cl cr (bl ∙ sym br) vl vr,
  black_height-node c k l r ∙ ap (bump c) bl,
  refl,
  e,
)

module _ (pk : ℕ) (t : Tree) (v : IsRedBlack t) (pc : Color) (ok : ℕ) where
  -- Case 2: both nephews are black.
  up_left-Good :
      (ol or : Tree)
      → IsRedBlack ol
      → IsRedBlack or
      → black_height ol ≡ black_height t
      → black_height or ≡ black_height t
      → color ol ≡ black
      → color or ≡ black
      → Good pc
          (black_height t)
          (in_order (node pc pk t (node black ok ol or)))
          (up (node pc pk t (node red ok ol or)))
  up_left-Good ol or vl vr bl br cl cr =
      ((sym bl, v, (cl, cr, bl ∙ sym br, vl, vr)), refl, refl, refl)

  up_right-Good :
      (ol or : Tree)
      → IsRedBlack ol
      → IsRedBlack or
      → black_height ol ≡ black_height t
      → black_height or ≡ black_height t
      → color ol ≡ black
      → color or ≡ black
      → Good pc
          (black_height t)
          (in_order (node pc pk (node black ok ol or) t))
          (up (node pc pk (node red ok ol or) t))
  up_right-Good ol or vl vr bl br cl cr =
      ((bl, (cl, cr, bl ∙ sym br, vl, vr), v), ap suc bl, refl, refl)

  -- Case 4: the far nephew is red.
  four_left-Good :
      (ol : Tree) (rk : ℕ) (rl rr : Tree)
      → IsRedBlack ol
      → IsRedBlack (node red rk rl rr)
      → black_height ol ≡ black_height t
      → black_height rl ≡ black_height t
      → Returns (case_four_left pc pk t (node black ok ol (node red rk rl rr))) (
          Good pc (black_height t) (in_order (node pc pk t (node black ok ol (node red rk rl rr)))))
  unfolding case_four_left
  four_left-Good ol rk rl rr vl vr bl br =
      done-Good pc (black_height t) ok (node black pk t ol) (node black rk rl rr) _ refl refl refl
        (ap suc br) (sym bl, v, vl) (vr.2, vr.3, vr.4) (simp append_assoc)

  four_right-Good :
      (or : Tree) (lk : ℕ) (ll lr : Tree)
      → IsRedBlack or
      → IsRedBlack (node red lk ll lr)
      → black_height or ≡ black_height t
      → black_height ll ≡ black_height t
      → Returns (case_four_right pc pk t (node black ok (node red lk ll lr) or)) (
          Good pc (black_height t) (in_order (node pc pk (node black ok (node red lk ll lr) or) t)))
  unfolding case_four_right
  four_right-Good or lk ll lr vr vl br bl =
      done-Good pc (black_height t) ok (node black lk ll lr) (node black pk or t) _ refl refl
        (ap suc bl) (ap suc br) (vl.2, vl.3, vl.4) (br, vr, v) (simp append_assoc)

  -- Cases 3 and 4: only the near nephew is red.
  three_left-Good :
      (lk : ℕ) (ll lr or : Tree)
      → IsRedBlack (node red lk ll lr)
      → IsRedBlack or
      → black_height ll ≡ black_height t
      → black_height or ≡ black_height t
      → Returns (right_rotate (node red ok (node black lk ll lr) or) >>= case_four_left pc pk t) (
          Good pc (black_height t) (in_order (node pc pk t (node black ok (node red lk ll lr) or))))
  unfolding case_four_left right_rotate
  three_left-Good lk ll lr or vl vr bl br =
      done-Good pc (black_height t) lk (node black pk t ll) (node black ok lr or) _ refl refl refl
        (ap suc (sym vl.2 ∙ bl)) (sym bl, v, vl.3) (sym vl.2 ∙ bl ∙ sym br, vl.4, vr)
        (simp append_assoc)

  three_right-Good :
      (rk : ℕ) (ol rl rr : Tree)
      → IsRedBlack (node red rk rl rr)
      → IsRedBlack ol
      → black_height rl ≡ black_height t
      → black_height ol ≡ black_height t
      → Returns (left_rotate (node red ok ol (node black rk rl rr)) >>= case_four_right pc pk t) (
          Good pc (black_height t) (in_order (node pc pk (node black ok ol (node red rk rl rr)) t)))
  unfolding case_four_right left_rotate
  three_right-Good rk ol rl rr vr vl br bl =
      done-Good pc (black_height t) rk (node black ok ol rl) (node black pk rr t) _ refl refl
        (ap suc bl) (ap suc (sym vr.2 ∙ br)) (bl ∙ sym br, vl, vr.3) (sym vr.2 ∙ br, vr.4, v)
        (simp append_assoc)

module _ (pk : ℕ) (t : Tree) (v : IsRedBlack t) (pc : Color) (ok : ℕ) where
  pub cases_left-Good :
      (ol or : Tree)
      → IsRedBlack ol
      → IsRedBlack or
      → black_height ol ≡ black_height t
      → black_height or ≡ black_height t
      → Returns
          (cases_left pc pk t (node black ok ol or))
          (Good pc (black_height t) (in_order (node pc pk t (node black ok ol or))))
  unfolding cases_left
  cases_left-Good null null vl vr bl br = up_left-Good pk t v pc ok null null vl vr bl br refl refl
  cases_left-Good null (node black rk rl rr) vl vr bl br =
      up_left-Good pk t v pc ok null (node black rk rl rr) vl vr bl br refl refl
  cases_left-Good null (node red rk rl rr) vl vr bl br =
      four_left-Good pk t v pc ok null rk rl rr vl vr bl br
  cases_left-Good (node black lk ll lr) null vl vr bl br =
      up_left-Good pk t v pc ok (node black lk ll lr) null vl vr bl br refl refl
  cases_left-Good (node black lk ll lr) (node black rk rl rr) vl vr bl br =
      up_left-Good pk t v pc ok (node black lk ll lr) (node black rk rl rr) vl vr bl br refl refl
  cases_left-Good (node black lk ll lr) (node red rk rl rr) vl vr bl br =
      four_left-Good pk t v pc ok (node black lk ll lr) rk rl rr vl vr bl br
  cases_left-Good (node red lk ll lr) null vl vr bl br =
      three_left-Good pk t v pc ok lk ll lr null vl vr bl br
  cases_left-Good (node red lk ll lr) (node black rk rl rr) vl vr bl br =
      three_left-Good pk t v pc ok lk ll lr (node black rk rl rr) vl vr bl br
  cases_left-Good (node red lk ll lr) (node red rk rl rr) vl vr bl br =
      four_left-Good pk t v pc ok (node red lk ll lr) rk rl rr vl vr bl br

  pub cases_right-Good :
      (ol or : Tree)
      → IsRedBlack ol
      → IsRedBlack or
      → black_height ol ≡ black_height t
      → black_height or ≡ black_height t
      → Returns
          (cases_right pc pk t (node black ok ol or))
          (Good pc (black_height t) (in_order (node pc pk (node black ok ol or) t)))
  unfolding cases_right
  cases_right-Good null null vl vr bl br =
      up_right-Good pk t v pc ok null null vl vr bl br refl refl
  cases_right-Good null (node black rk rl rr) vl vr bl br =
      up_right-Good pk t v pc ok null (node black rk rl rr) vl vr bl br refl refl
  cases_right-Good null (node red rk rl rr) vl vr bl br =
      three_right-Good pk t v pc ok rk null rl rr vr vl br bl
  cases_right-Good (node black lk ll lr) null vl vr bl br =
      up_right-Good pk t v pc ok (node black lk ll lr) null vl vr bl br refl refl
  cases_right-Good (node black lk ll lr) (node black rk rl rr) vl vr bl br =
      up_right-Good pk t v pc ok (node black lk ll lr) (node black rk rl rr) vl vr bl br refl refl
  cases_right-Good (node black lk ll lr) (node red rk rl rr) vl vr bl br =
      three_right-Good pk t v pc ok rk (node black lk ll lr) rl rr vr vl br bl
  cases_right-Good (node red lk ll lr) null vl vr bl br =
      four_right-Good pk t v pc ok null lk ll lr vr vl br bl
  cases_right-Good (node red lk ll lr) (node black rk rl rr) vl vr bl br =
      four_right-Good pk t v pc ok (node black rk rl rr) lk ll lr vr vl br bl
  cases_right-Good (node red lk ll lr) (node red rk rl rr) vl vr bl br =
      four_right-Good pk t v pc ok (node red rk rl rr) lk ll lr vr vl br bl
