-- ===== src/Avl/Defs.antt =====
-- cpp/tree/avl2.cpp: `class Node` and the methods of `class AVL`. Keys and heights are `int`s: a
-- key is only compared (see OrderedSet), and a height is at most the number of nodes.
use Prim.Native.Nat.{compare}
use Prim.Native.Nat.Ordering.{lt, eq, gt}
use language_test.Prelude.{ℕ, ◌+◌, max, ◌&&◌, Option, none, some, if◌then◌else◌, ◌>>=◌}
use language_test.Prelude.Int.{ℤ, pos, negsuc, ◌-ℤ◌, ltb_ℤ, leb_ℤ}

-- `null` is `nullptr`; a node has its key, its stored height and its children.
pub data Tree : Type 0 where
  null : Tree
  node : ℕ → ℕ → Tree → Tree → Tree

-- `Node(int key_t)`
abbrev pub new_node : ℕ → Tree
new_node key = node key 1 null null

-- The field `height`, 0 for a null pointer.
abbrev pub get_height : Tree → ℕ
get_height null = 0
get_height (node k h l r) = h

unfoldable pub get_balance : Tree → ℤ
unfolding ◌-ℤ◌
get_balance null = pos 0
get_balance (node k h l r) = pos (get_height l) -ℤ pos (get_height r)

-- `max(get_height(p->left), get_height(p->right)) + 1`, which four functions compute.
abbrev pub new_height : Tree → Tree → ℕ
new_height l r = max (get_height l) (get_height r) + 1

unfoldable pub ll_rotate : Tree → Option Tree
ll_rotate null = none
ll_rotate (node yk yh null yr) = none
ll_rotate (node yk yh (node xk xh xl xr) yr) =
    let y = node yk (new_height xr yr) xr yr in some (node xk (new_height xl y) xl y)

unfoldable pub rr_rotate : Tree → Option Tree
rr_rotate null = none
rr_rotate (node yk yh yl null) = none
rr_rotate (node yk yh yl (node xk xh xl xr)) =
    let y = node yk (new_height yl xl) yl xl in some (node xk (new_height y xr) y xr)

unfoldable pub lr_rotate : Tree → Option Tree
lr_rotate null = none
lr_rotate (node k h l r) = do x ← rr_rotate l; ll_rotate (node k h x r)

unfoldable pub rl_rotate : Tree → Option Tree
rl_rotate null = none
rl_rotate (node k h l r) = do x ← ll_rotate r; rr_rotate (node k h l x)

-- What `insert_real` does on the way back up: the height, then one of the four rotations.
unfoldable pub insert_fix : ℕ → Tree → Tree → Option Tree
unfolding get_balance
insert_fix k l r =
    let t = node k (new_height l r) l r in
    let balance = get_balance t in
    if ltb_ℤ (pos 1) balance && ltb_ℤ (pos 0) (get_balance l)
    then ll_rotate t
    else if ltb_ℤ balance (negsuc 0) && ltb_ℤ (get_balance r) (pos 0)
    then rr_rotate t
    else if ltb_ℤ (pos 1) balance && ltb_ℤ (get_balance l) (pos 0)
    then lr_rotate t
    else if ltb_ℤ balance (negsuc 0) && ltb_ℤ (pos 0) (get_balance r)
    then rl_rotate t
    else some t

unfoldable pub insert_real : ℕ → Tree → Option Tree
unfolding insert_fix
insert_real key null = some (new_node key)
insert_real key (node k h l r) = elim (compare key k) [
  | lt ↦ insert_real key l >>= λ l'. insert_fix k l' r
  | gt ↦ insert_real key r >>= λ r'. insert_fix k l r'
  | eq ↦ some (node k h l r)
]

-- The same in `erase_real`, where the two straight rotations are also made at balance 0.
unfoldable pub erase_fix : ℕ → Tree → Tree → Option Tree
unfolding get_balance
erase_fix k l r =
    let t = node k (new_height l r) l r in
    let balance = get_balance t in
    if ltb_ℤ (pos 1) balance && leb_ℤ (pos 0) (get_balance l)
    then ll_rotate t
    else if ltb_ℤ balance (negsuc 0) && leb_ℤ (get_balance r) (pos 0)
    then rr_rotate t
    else if ltb_ℤ (pos 1) balance && ltb_ℤ (get_balance l) (pos 0)
    then lr_rotate t
    else if ltb_ℤ balance (negsuc 0) && ltb_ℤ (pos 0) (get_balance r)
    then rl_rotate t
    else some t

-- `while (x->left) x = x->left;` from the node with key `k` and left child `l`: the last key.
unfoldable pub leftmost_key : ℕ → Tree → ℕ
leftmost_key k null = k
leftmost_key k (node lk lh ll lr) = leftmost_key lk ll

-- `node = child;` where the node has at most one child, and then the code after the branches.
unfoldable pub refix : Tree → Option Tree
unfolding erase_fix
refix null = some null
refix (node k h l r) = erase_fix k l r

-- The branch where the key is found. `again least` is the call `erase_real(x->key, node->right)`.
unfoldable pub erase_here : (ℕ → Option Tree) → Tree → Tree → Option Tree
unfolding refix leftmost_key
erase_here again null r = refix r
erase_here again (node lk lh ll lr) null = refix (node lk lh ll lr)
erase_here again (node lk lh ll lr) (node rk rh rl rr) =
    let least = leftmost_key rk rl in again least >>= λ r'. erase_fix least (node lk lh ll lr) r'

unfoldable pub erase_real : ℕ → Tree → Option Tree
unfolding erase_here
erase_real key null = some null
erase_real key (node k h l r) = elim (compare key k) [
  | lt ↦ erase_real key l >>= λ l'. erase_fix k l' r
  | gt ↦ erase_real key r >>= λ r'. erase_fix k l r'
  | eq ↦ erase_here (λ least. erase_real least r) l r
]

-- `find_real` has no `return` before its recursive calls: after one of them the function ends
-- without a value.
unfoldable pub find_real : ℕ → Tree → Option Tree
find_real key null = some null
find_real key (node k h l r) = elim (compare key k) [
  | lt ↦ find_real key l >>= λ _. none
  | gt ↦ find_real key r >>= λ _. none
  | eq ↦ some (node k h l r)
]

-- The `while` loop of `loop_find` goes down one branch; its result is the node with all below it.
unfoldable pub loop_find : ℕ → Tree → Tree
loop_find key null = null
loop_find key (node k h l r) = elim (compare key k) [
  | lt ↦ loop_find key l
  | gt ↦ loop_find key r
  | eq ↦ node k h l r
]

-- `destory` gives 0 for a null pointer; it has no `return` after the deletion of a node.
unfoldable pub destory : Tree → Option ℕ
destory null = some 0
destory (node k h l r) = destory l >>= λ a. destory r >>= λ b. none

-- `class AVL`: `header` is a node whose left child is the root.
pub record Avl : Type 0 where
  pub root : Tree

-- `AVL()`
abbrev pub empty : Avl
empty = record { root = null }

unfoldable pub insert : ℕ → Avl → Option Avl
insert key t = do root ← insert_real key t.root; some (record { root = root })

unfoldable pub erase : ℕ → Avl → Option Avl
erase key t = do root ← erase_real key t.root; some (record { root = root })

unfoldable pub find : ℕ → Avl → Option Tree
find key t = find_real key t.root
