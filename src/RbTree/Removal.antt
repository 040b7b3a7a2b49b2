-- ===== src/RbTree/Removal.antt =====
-- cpp/tree/rbTree.cpp: `remove(key)`, `remove(root, node)` and `removeFixUp`, over the zipper of
-- RbTree/Defs.
use language_test.Prelude.{
  ℕ, Bool, true, false, ◌&&◌, Option, none, some, List, [], ◌∷◌, ◌++◌, if◌then◌else◌, ◌>>=◌,
}
use language_test.RbTree.Defs.{
  Color, red, black, Tree, null, node, Crumb, in_left, in_right, plug, set_black, left_rotate,
  right_rotate, search, minimum,
}

-- `!node || rb_is_black(node)`
abbrev pub is_black : Tree → Bool
is_black null = true
is_black (node red k l r) = false
is_black (node black k l r) = true

-- How a round of the loop ends: with `node = parent`, or with `node = root; break;`. The subtree is
-- the one that now stands where `parent` stood.
pub data Outcome : Type 0 where
  up : Tree → Outcome
  done : Tree → Outcome

-- Case 4, on the left: `other` takes the colour of `parent`, `parent` and `other->right` become
-- black, and `parent` is rotated.
unfoldable pub case_four_left : Color → ℕ → Tree → Tree → Option Outcome
unfolding left_rotate
case_four_left pc pk t null = none
case_four_left pc pk t (node oc ok ol null) = none
case_four_left pc pk t (node oc ok ol (node rc rk rl rr)) =
    left_rotate (node black pk t (node pc ok ol (node black rk rl rr))) >>= λ s. some (done s)

unfoldable pub case_four_right : Color → ℕ → Tree → Tree → Option Outcome
unfolding right_rotate
case_four_right pc pk t null = none
case_four_right pc pk t (node oc ok null or) = none
case_four_right pc pk t (node oc ok (node lc lk ll lr) or) =
    right_rotate (node black pk (node pc ok (node black lk ll lr) or) t) >>= λ s. some (done s)

-- Cases 2 to 4, for a node `t` with the parent `pk` and the other child `other` of that.
unfoldable pub cases_left : Color → ℕ → Tree → Tree → Option Outcome
unfolding case_four_left right_rotate
cases_left pc pk t null = none
cases_left pc pk t (node oc ok ol or) =
    if is_black ol && is_black or
    then some (up (node pc pk t (node red ok ol or)))
    else if is_black or
    then right_rotate (node red ok (set_black ol) or) >>= case_four_left pc pk t
    else case_four_left pc pk t (node oc ok ol or)

unfoldable pub cases_right : Color → ℕ → Tree → Tree → Option Outcome
unfolding case_four_right left_rotate
cases_right pc pk t null = none
cases_right pc pk t (node oc ok ol or) =
    if is_black ol && is_black or
    then some (up (node pc pk (node red ok ol or) t))
    else if is_black ol
    then left_rotate (node red ok ol (set_black or)) >>= case_four_right pc pk t
    else case_four_right pc pk t (node oc ok ol or)

-- What follows a round after case 1: `parent` is red, so `node = parent` ends the loop, and `node`
-- is made black; after `node = root` the root is.
unfoldable pub finish : List Crumb → Outcome → Tree
unfolding plug
finish p (up s) = plug (set_black s) p
finish p (done s) = set_black (plug s p)

-- `removeFixUp(root, node, parent)`: the new root. In case 1 `other` is red: it becomes black,
-- `parent` red, and `parent` is rotated, which puts `other` above it.
unfoldable pub remove_fix_up : Tree → List Crumb → Option Tree
unfolding cases_left cases_right finish plug
remove_fix_up (node red k l r) p = some (plug (node black k l r) p)
remove_fix_up t [] = some (set_black t)
remove_fix_up t (in_left pc pk (node red ok ol or) ∷ p) =
    cases_left red pk t ol >>= λ o. some (finish (in_left black ok or ∷ p) o)
remove_fix_up t (in_left pc pk other ∷ p) = cases_left pc pk t other >>= λ o. elim o [
  | up s ↦ remove_fix_up s p
  | done s ↦ some (set_black (plug s p))
]
remove_fix_up t (in_right pc pk (node red ok ol or) ∷ p) =
    cases_right red pk t or >>= λ o. some (finish (in_right black ok ol ∷ p) o)
remove_fix_up t (in_right pc pk other ∷ p) = cases_right pc pk t other >>= λ o. elim o [
  | up s ↦ remove_fix_up s p
  | done s ↦ some (set_black (plug s p))
]

-- `child` has taken the place of a node of this colour: `if (color == BLACK) removeFixUp(...)`.
unfoldable pub unlink : Color → Tree → List Crumb → Option Tree
unfolding remove_fix_up plug
unlink red child p = some (plug child p)
unlink black child p = remove_fix_up child p

-- The first branch of `remove(root, node)`: `replace`, the first node of the right side with its
-- ancestors on that side, is unhooked and takes the place, the colour and the children of `node`.
unfoldable pub replace_by : Color → Tree → List Crumb → Tree × List Crumb → Option Tree
unfolding unlink
replace_by c l p (null, q) = none
replace_by c l p (node rc rk rl rr, q) = unlink rc rr (q ++ in_right c rk l ∷ p)

-- `remove(root, node)`
unfoldable pub remove_at : Tree → List Crumb → Option Tree
unfolding replace_by
remove_at null p = none
remove_at (node c k null r) p = unlink c r p
remove_at (node c k (node lc lk ll lr) null) p = unlink c (node lc lk ll lr) p
remove_at (node c k (node lc lk ll lr) (node rc rk rl rr)) p =
    replace_by c (node lc lk ll lr) p (minimum (node rc rk rl rr) [])

-- `if ((node = search(mRoot, key)) != NULL) remove(mRoot, node);`
unfoldable pub remove_found : Tree → Tree × List Crumb → Option Tree
unfolding remove_at
remove_found root (null, p) = some root
remove_found root (node c k l r, p) = remove_at (node c k l r) p

unfoldable pub remove : ℕ → Tree → Option Tree
unfolding remove_found
remove key root = remove_found root (search key root [])
