-- ===== src/Avl/Laws.antt =====
-- cpp/tree/avl2.cpp: the public methods of `class AVL` against the set of its keys.
use Prim.Native.Nat.{◌^◌}
use native.Mathlib.Nat.{pow-suc}
use language_test.Prelude.{
  ℕ, zero, suc, ◌+◌, ◌/◌, ◌≤◌, ◌≡◌, refl, sym, ap, ◌∙◌, max, arith, Option, some, Returns,
  Returns-bind, Returns-imp, List, [], ◌∷◌, ◌>>=◌,
}
use language_test.OrderedSet.{IsSorted, ins, del}
use language_test.OrderedSet.Laws.{ins-IsSorted, del-IsSorted}
use language_test.Avl.Defs.{
  Tree, null, node, get_height, Avl, empty, insert, erase, insert_real, erase_real,
}
use language_test.Avl.Rotate.{to_list, IsBalanced}
use language_test.Avl.Insert.{Inserted, insert_real-Inserted}
use language_test.Avl.Erase.{Erased, erase_real-Erased}

-- The set that an object stands for.
abbrev pub keys : Avl → List ℕ
keys t = to_list t.root

-- The class invariant: a balanced search tree.
pub record IsAvl (t : Avl) : Type 0 where
  pub balanced : IsBalanced t.root
  pub sorted : IsSorted (keys t)

pub empty-IsAvl : IsAvl empty
empty-IsAvl = record { balanced = tt; sorted = tt }

-- On a valid tree `insert` is defined, keeps the invariant and adds the key to the set.
pub insert-ins :
    (key : ℕ) (t : Avl)
    → IsAvl t
    → Returns (insert key t) (λ t'. IsAvl t' × (keys t' ≡ ins key (keys t)))
unfolding insert
insert-ins key t v =
    Returns-bind (insert_real key t.root) _ (Inserted key t.root) _
      (insert_real-Inserted key t.root v.balanced v.sorted)
      λ r i. (
        record {
          balanced = i.balanced;
          sorted = rw i.contents (ins-IsSorted key (keys t) v.sorted);
        },
        i.contents,
      )

-- On a valid tree `erase` is defined, keeps the invariant and takes the key out of the set.
pub erase-del :
    (key : ℕ) (t : Avl)
    → IsAvl t
    → Returns (erase key t) (λ t'. IsAvl t' × (keys t' ≡ del key (keys t)))
unfolding erase
erase-del key t v =
    Returns-bind (erase_real key t.root) _ (Erased key t.root) _
      (erase_real-Erased key t.root v.balanced v.sorted)
      λ r i. (
        record {
          balanced = i.balanced;
          sorted = rw i.contents (del-IsSorted key (keys t) v.sorted);
        },
        i.contents,
      )

-- The number of nodes.
abbrev pub size : Tree → ℕ
size null = 0
size (node k h l r) = suc (size l + size r)

-- A balanced tree of height at least 2 m has at least 2 ^ m - 1 nodes.
pow-le-size : (m : ℕ) (t : Tree) → IsBalanced t → m + m ≤ get_height t → 2 ^ m ≤ size t + 1
pow-le-size zero t b p = omega arith
pow-le-size (suc m) null b p = absurd (omega arith)
pow-le-size (suc m) (node k h l r) b p =
    omega (arith, pow-suc 2 m, pow-le-size m l b.3 (omega arith), pow-le-size m r b.4 (omega arith))

-- The number of nodes on the longest way down.
abbrev pub depth : Tree → ℕ
depth null = 0
depth (node k h l r) = max (depth l) (depth r) + 1

get_height-depth : (t : Tree) → IsBalanced t → get_height t ≡ depth t
get_height-depth null b = refl
get_height-depth (node k h l r) b =
    b.0
    ∙ ap (λ n. max n (get_height r) + 1) (get_height-depth l b.3)
    ∙ ap (λ n. max (depth l) n + 1) (get_height-depth r b.4)

pub data Change : Type 0 where
  inserts : ℕ → Change
  erases : ℕ → Change

-- Calls of `insert` and `erase`, one after the other, and what they do to a set.
abbrev pub run_changes : List Change → Avl → Option Avl
run_changes [] t = some t
run_changes (inserts key ∷ cs) t = insert key t >>= λ u. run_changes cs u
run_changes (erases key ∷ cs) t = erase key t >>= λ u. run_changes cs u

abbrev pub changed_keys : List Change → List ℕ → List ℕ
changed_keys [] ks = ks
changed_keys (inserts key ∷ cs) ks = changed_keys cs (ins key ks)
changed_keys (erases key ∷ cs) ks = changed_keys cs (del key ks)

run_changes-IsAvl :
    (cs : List Change) (t : Avl)
    → IsAvl t
    → Returns (run_changes cs t) (λ u. IsAvl u × (keys u ≡ changed_keys cs (keys t)))
run_changes-IsAvl [] t v = (v, refl)
run_changes-IsAvl (inserts key ∷ cs) t v =
    Returns-bind (insert key t) (λ u. run_changes cs u) (λ u. IsAvl u × (keys u ≡ ins key (keys t)))
      (λ u. IsAvl u × (keys u ≡ changed_keys cs (ins key (keys t)))) (insert-ins key t v)
      (λ u (w, e). rw (sym e) (run_changes-IsAvl cs u w))
run_changes-IsAvl (erases key ∷ cs) t v =
    Returns-bind (erase key t) (λ u. run_changes cs u) (λ u. IsAvl u × (keys u ≡ del key (keys t)))
      (λ u. IsAvl u × (keys u ≡ changed_keys cs (del key (keys t)))) (erase-del key t v)
      (λ u (w, e). rw (sym e) (run_changes-IsAvl cs u w))

-- Any calls of `insert` and `erase` on a new tree are defined and give a tree of the keys that they leave,
-- of a depth that is logarithmic: two to the half of the depth is at most one more than the number of
-- nodes.
pub run_changes-depth :
    (cs : List Change)
    → Returns
        (run_changes cs empty)
        (λ t. (keys t ≡ changed_keys cs []) × (2 ^ (depth t.root / 2) ≤ size t.root + 1))
run_changes-depth cs =
    Returns-imp (run_changes cs empty) (λ t. IsAvl t × (keys t ≡ changed_keys cs []))
      (λ t. (keys t ≡ changed_keys cs []) × (2 ^ (depth t.root / 2) ≤ size t.root + 1))
      (run_changes-IsAvl cs empty empty-IsAvl)
      (λ t (v, e). (
        e,
        pow-le-size (depth t.root / 2) t.root v.balanced
            (omega (arith, get_height-depth t.root v.balanced)),
      ))
