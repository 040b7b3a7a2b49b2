-- ===== src/RbTree/Zipper.antt =====
-- cpp/tree/rbTree.cpp: the colour and height rules of a red-black tree, for a tree and for the
-- ancestors of a node, and the keys that the ancestors hold.
use language_test.Prelude.{ℕ, suc, ◌≡◌, refl, sym, List, [], ◌∷◌, ◌++◌}
use language_test.RbTree.Defs.{
  Color, red, black, Tree, null, node, Crumb, in_left, in_right, plug, color, set_black, in_order,
}

-- The number of black nodes on the leftmost path.
abbrev pub black_height : Tree → ℕ
black_height null = 0
black_height (node red k l r) = black_height l
black_height (node black k l r) = suc (black_height l)

-- A red node has black children, and all paths down have as many black nodes.
abbrev pub IsRedBlack : Tree → Type 0
IsRedBlack null = Unit
IsRedBlack (node red k l r) =
    (color l ≡ black)
    × (color r ≡ black)
    × (black_height l ≡ black_height r)
    × IsRedBlack l
    × IsRedBlack r
IsRedBlack (node black k l r) = (black_height l ≡ black_height r) × IsRedBlack l × IsRedBlack r

-- The nearest ancestor is black, and there is one.
abbrev pub UnderBlack : List Crumb → Type 0
UnderBlack [] = ⊥
UnderBlack (in_left red k r ∷ p) = ⊥
UnderBlack (in_left black k r ∷ p) = Unit
UnderBlack (in_right red k l ∷ p) = ⊥
UnderBlack (in_right black k l ∷ p) = Unit

-- Ancestors that a tree of black height `n` fits under.
abbrev pub Ancestors : ℕ → List Crumb → Type 0
Ancestors n [] = Unit
Ancestors n (in_left red k r ∷ p) =
    (color r ≡ black) × (black_height r ≡ n) × IsRedBlack r × UnderBlack p × Ancestors n p
Ancestors n (in_right red k l ∷ p) =
    (color l ≡ black) × (black_height l ≡ n) × IsRedBlack l × UnderBlack p × Ancestors n p
Ancestors n (in_left black k r ∷ p) = (black_height r ≡ n) × IsRedBlack r × Ancestors (suc n) p
Ancestors n (in_right black k l ∷ p) = (black_height l ≡ n) × IsRedBlack l × Ancestors (suc n) p

-- A tree of that colour may stand under these ancestors.
abbrev pub Fits : Color → List Crumb → Type 0
Fits black p = Unit
Fits red [] = Unit
Fits red (in_left red k r ∷ p) = ⊥
Fits red (in_left black k r ∷ p) = Unit
Fits red (in_right red k l ∷ p) = ⊥
Fits red (in_right black k l ∷ p) = Unit

pub Fits-UnderBlack : (c : Color) (p : List Crumb) → UnderBlack p → Fits c p
Fits-UnderBlack black p u = tt
Fits-UnderBlack red [] u = tt
Fits-UnderBlack red (in_left red k r ∷ p) u = u
Fits-UnderBlack red (in_left black k r ∷ p) u = tt
Fits-UnderBlack red (in_right red k l ∷ p) u = u
Fits-UnderBlack red (in_right black k l ∷ p) u = tt

-- A red child under a red parent does not fit.
pub black_of_Fits-left :
    (c : Color) (k : ℕ) (s : Tree) (p : List Crumb) → Fits c (in_left red k s ∷ p) → c ≡ black
black_of_Fits-left red k s p f = absurd f
black_of_Fits-left black k s p f = refl

pub black_of_Fits-right :
    (c : Color) (k : ℕ) (s : Tree) (p : List Crumb) → Fits c (in_right red k s ∷ p) → c ≡ black
black_of_Fits-right red k s p f = absurd f
black_of_Fits-right black k s p f = refl

pub plug-IsRedBlack :
    (t : Tree) (p : List Crumb)
    → IsRedBlack t
    → Fits (color t) p
    → Ancestors (black_height t) p
    → IsRedBlack (plug t p)
unfolding plug
plug-IsRedBlack t [] v f a = v
plug-IsRedBlack t (in_left red k r ∷ p) v f a =
    plug-IsRedBlack (node red k t r) p (black_of_Fits-left (color t) k r p f, a.0, sym a.1, v, a.2)
      (Fits-UnderBlack red p a.3) a.4
plug-IsRedBlack t (in_left black k r ∷ p) v f a =
    plug-IsRedBlack (node black k t r) p (sym a.0, v, a.1) tt a.2
plug-IsRedBlack t (in_right red k l ∷ p) v f a =
    plug-IsRedBlack (node red k l t) p (a.0, black_of_Fits-right (color t) k l p f, a.1, a.2, v)
      (Fits-UnderBlack red p a.3) (rw a.1 a.4)
plug-IsRedBlack t (in_right black k l ∷ p) v f a =
    plug-IsRedBlack (node black k l t) p (a.0, a.1, v) tt (rw a.0 a.2)

pub set_black-IsRedBlack : (t : Tree) → IsRedBlack t → IsRedBlack (set_black t)
set_black-IsRedBlack null v = tt
set_black-IsRedBlack (node red k l r) v = (v.2, v.3, v.4)
set_black-IsRedBlack (node black k l r) v = v

pub color-set_black : (t : Tree) → color (set_black t) ≡ black
color-set_black null = refl
color-set_black (node c k l r) = refl

pub in_order-set_black : (t : Tree) → in_order (set_black t) ≡ in_order t
in_order-set_black null = refl
in_order-set_black (node c k l r) = refl

-- The keys of the whole tree, from those of the subtree.
abbrev pub around : List Crumb → List ℕ → List ℕ
around [] xs = xs
around (in_left c k r ∷ p) xs = around p (xs ++ k ∷ in_order r)
around (in_right c k l ∷ p) xs = around p (in_order l ++ k ∷ xs)

pub in_order-plug : (t : Tree) (p : List Crumb) → in_order (plug t p) ≡ around p (in_order t)
unfolding plug
in_order-plug t [] = refl
in_order-plug t (in_left c k r ∷ p) = in_order-plug (node c k t r) p
in_order-plug t (in_right c k l ∷ p) = in_order-plug (node c k l t) p
