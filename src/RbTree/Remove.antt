-- ===== src/RbTree/Remove.antt =====
-- cpp/tree/rbTree.cpp: `remove` takes a key out of a red-black tree and leaves it one.
use mathlib.Core.Path.{subst}
use language_test.Prelude.{
  ℕ, suc, ◌≡◌, refl, sym, ◌∙◌, ap, List, [], ◌∷◌, ◌++◌, append-nil, Returns, Returns-imp,
  compare-Compared, less, same, more, false,
}
use language_test.OrderedSet.{mem, del}
use language_test.OrderedSet.Laws.{del_of_not_mem}
use language_test.OrderedBag.{IsOrdered}
use language_test.OrderedBag.Laws.{
  IsOrdered-Parts, mem-lt, mem-gt, del-lt, del-gt, del-eq, del-IsOrdered,
}
use language_test.RbTree.Defs.{
  Color, red, black, Tree, null, node, Crumb, in_left, in_right, color, in_order, search, minimum,
}
use language_test.RbTree.Zipper.{black_height, IsRedBlack, Ancestors, around}
use language_test.RbTree.Insert.{Fixed, Hangs, Hangs-left, Hangs-right, IsValid}
use language_test.RbTree.Removal.{unlink, replace_by, remove_at, remove_found, remove}
use language_test.RbTree.FixUp.{bump}
use language_test.RbTree.Repair.{place-Fixed, remove_fix_up-Fixed, black≢red}

-- A place that a search may reach: it holds a red-black tree whose ancestors obey the rules.
record Place (t : Tree) (p : List Crumb) : Type 0 where
  valid : IsRedBlack t
  hangs : Hangs (color t) p
  ancestors : Ancestors (black_height t) p

Place-left :
    (c : Color) (k : ℕ) (l r : Tree) (p : List Crumb)
    → Place (node c k l r) p
    → Place l (in_left c k r ∷ p)
Place-left red k l r p x =
    let v = x.valid in
    record { valid = v.3; hangs = rw v.0 tt; ancestors = (v.1, sym v.2, v.4, x.hangs, x.ancestors) }
Place-left black k l r p x =
    let v = x.valid in
    record {
      valid = v.1;
      hangs = Hangs-left (color l) k r p;
      ancestors = (sym v.0, v.2, x.ancestors);
    }

Place-right :
    (c : Color) (k j : ℕ) (l r : Tree) (p : List Crumb)
    → Place (node c k l r) p
    → Place r (in_right c j l ∷ p)
Place-right red k j l r p x =
    let v = x.valid in
    record {
      valid = v.4;
      hangs = rw v.1 tt;
      ancestors = (v.0, v.2, v.3, x.hangs, rw v.2 at x.ancestors);
    }
Place-right black k j l r p x =
    let v = x.valid in
    record {
      valid = v.2;
      hangs = Hangs-right (color r) j l p;
      ancestors = (v.0, v.1, rw v.0 at x.ancestors);
    }

-- Where `search` ends: the whole list lacks the key, or is that of the place without its key.
abbrev Searched : ℕ → List ℕ → List Crumb → Tree × List Crumb → Type 0
Searched key keys p (null, q) = mem key keys ≡ false
Searched key keys p (node c k l r, q) =
    Place (node c k l r) q × (around q (in_order l ++ in_order r) ≡ around p (del key keys))

Searched-imp :
    (key : ℕ) (xs ys : List ℕ) (p p' : List Crumb) (s : Tree × List Crumb)
    → mem key ys ≡ mem key xs
    → around p (del key xs) ≡ around p' (del key ys)
    → Searched key xs p s
    → Searched key ys p' s
Searched-imp key xs ys p p' (null, q) m d x = m ∙ x
Searched-imp key xs ys p p' (node c k l r, q) m d x = (x.0, x.1 ∙ d)

search-Searched :
    (key : ℕ) (t : Tree) (p : List Crumb)
    → Place t p
    → IsOrdered (in_order t)
    → Searched key (in_order t) p (search key t p)
unfolding search
search-Searched key null p x s = unfold mem in refl
search-Searched key (node c k l r) p x s =
    let q = IsOrdered-Parts (in_order l) k (in_order r) s in
    elim (compare-Compared key k) [
      | less e h ↦
          rw (e, search)
            (Searched-imp key (in_order l) (in_order (node c k l r)) (in_left c k r ∷ p) p
              (search key l (in_left c k r ∷ p)) (mem-lt key k (in_order l) (in_order r) h q.above)
              (ap (around p) (sym (del-lt key k (in_order l) (in_order r) h q.above)))
              (search-Searched key l (in_left c k r ∷ p) (Place-left c k l r p x) q.left))
      | same e h ↦
          rw (e, search)
            (x, ap (around p) (sym (rw h (del-eq k (in_order l) (in_order r) q.left q.below))))
      | more e h ↦
          rw (e, search)
            (Searched-imp key (in_order r) (in_order (node c k l r)) (in_right c k l ∷ p) p
              (search key r (in_right c k l ∷ p)) (mem-gt key k (in_order l) (in_order r) h q.below)
              (ap (around p) (sym (del-gt key k (in_order l) (in_order r) h q.below)))
              (search-Searched key r (in_right c k l ∷ p) (Place-right c k k l r p x) q.right))
    ]

-- All ancestors have the place on their left, so the first key of the place is the first of all.
abbrev Leftward : List Crumb → Type 0
Leftward [] = Unit
Leftward (in_left c k r ∷ p) = Leftward p
Leftward (in_right c k l ∷ p) = ⊥

around-cons :
    (k : ℕ) (p : List Crumb) (xs : List ℕ) → Leftward p → around p (k ∷ xs) ≡ k ∷ around p xs
around-cons k [] xs h = refl
around-cons k (in_left c j r ∷ p) xs h = around-cons k p (xs ++ j ∷ in_order r) h
around-cons k (in_right c j l ∷ p) xs h = absurd h

around-append : (p q : List Crumb) (xs : List ℕ) → around (p ++ q) xs ≡ around q (around p xs)
around-append [] q xs = refl
around-append (in_left c k r ∷ p) q xs = around-append p q (xs ++ k ∷ in_order r)
around-append (in_right c k l ∷ p) q xs = around-append p q (in_order l ++ k ∷ xs)

-- What `minimum` finds in a side `t0`: a node with no left child, placed under the ancestors on
-- that side and then any others that `t0` may have.
abbrev Leftmost : Tree → List ℕ → Tree × List Crumb → Type 0
Leftmost t0 keys (null, q) = ⊥
Leftmost t0 keys (node c k l r, q) =
    (l ≡ null)
    × ((s : List Crumb) → Place t0 s → Place (node c k l r) (q ++ s))
    × (k ∷ around q (in_order r) ≡ keys)

minimum-Leftmost :
    (t0 : Tree) (keys : List ℕ) (c : Color) (k : ℕ) (l r : Tree) (q : List Crumb)
    → ((s : List Crumb) → Place t0 s → Place (node c k l r) (q ++ s))
    → Leftward q
    → around q (in_order (node c k l r)) ≡ keys
    → Leftmost t0 keys (minimum (node c k l r) q)
unfolding minimum
minimum-Leftmost t0 keys c k null r q x h e = (refl, x, sym (around-cons k q (in_order r) h) ∙ e)
minimum-Leftmost t0 keys c k (node lc lk ll lr) r q x h e =
    minimum-Leftmost t0 keys lc lk ll lr (in_left c k r ∷ q)
      (λ s y. Place-left c k (node lc lk ll lr) r (q ++ s) (x s y)) h e

-- A node with one child at most is replaced by that.
unlink-Fixed :
    (c : Color) (child : Tree) (p : List Crumb)
    → IsRedBlack child
    → (c ≡ red → color child ≡ black)
    → Ancestors (bump c (black_height child)) p
    → Returns (unlink c child p) (Fixed (around p (in_order child)))
unfolding unlink
unlink-Fixed red child p v h a = place-Fixed child p v (h refl) a
unlink-Fixed black child p v h a = remove_fix_up-Fixed child p v a

unlink_right-Fixed :
    (c : Color) (k : ℕ) (r : Tree) (p : List Crumb)
    → Place (node c k null r) p
    → Returns (unlink c r p) (Fixed (around p (in_order r)))
unlink_right-Fixed red k r p x =
    unlink-Fixed red r p x.valid.4 (λ _. x.valid.1)
      (subst (λ n. Ancestors n p) x.valid.2 x.ancestors)
unlink_right-Fixed black k r p x =
    unlink-Fixed black r p x.valid.2 (λ e. absurd (black≢red e))
      (subst (λ n. Ancestors (suc n) p) x.valid.0 x.ancestors)

unlink_left-Fixed :
    (c : Color) (k : ℕ) (l : Tree) (p : List Crumb)
    → Place (node c k l null) p
    → Returns (unlink c l p) (Fixed (around p (in_order l)))
unlink_left-Fixed red k l p x = unlink-Fixed red l p x.valid.3 (λ _. x.valid.0) x.ancestors
unlink_left-Fixed black k l p x =
    unlink-Fixed black l p x.valid.1 (λ e. absurd (black≢red e)) x.ancestors

replace_by-Fixed :
    (c : Color) (k : ℕ) (l r : Tree) (p : List Crumb)
    → Place (node c k l r) p
    → (m : Tree × List Crumb) → Leftmost r (in_order r) m
    → Returns (replace_by c l p m) (Fixed (around p (in_order l ++ in_order r)))
unfolding replace_by
replace_by-Fixed c k l r p x (null, q) y = absurd y
replace_by-Fixed c k l r p x (node rc rk null rr, q) y =
    rw (← y.2, ← around-append q (in_right c rk l ∷ p) (in_order rr))
      (unlink_right-Fixed rc rk rr (q ++ in_right c rk l ∷ p)
        (y.1 (in_right c rk l ∷ p) (Place-right c k rk l r p x)))
replace_by-Fixed c k l r p x (node rc rk (node a b d e) rr, q) y = absurd (node≢null a b d e y.0)
  where
    node≢null : (a : Color) (b : ℕ) (d e : Tree) → node a b d e ≡ null → ⊥
    node≢null a b d e h = cc

remove_at-Fixed :
    (c : Color) (k : ℕ) (l r : Tree) (p : List Crumb)
    → Place (node c k l r) p
    → Returns (remove_at (node c k l r) p) (Fixed (around p (in_order l ++ in_order r)))
unfolding remove_at
remove_at-Fixed c k null r p x = unlink_right-Fixed c k r p x
remove_at-Fixed c k (node lc lk ll lr) null p x =
    rw append-nil (unlink_left-Fixed c k (node lc lk ll lr) p x)
remove_at-Fixed c k (node lc lk ll lr) (node rc rk rl rr) p x =
    replace_by-Fixed c k (node lc lk ll lr) (node rc rk rl rr) p x _
      (minimum-Leftmost (node rc rk rl rr) _ rc rk rl rr [] (λ s y. y) tt refl)

remove_found-del :
    (key : ℕ) (t : Tree) (s : Tree × List Crumb)
    → IsValid t
    → Searched key (in_order t) [] s
    → Returns (remove_found t s) (λ t'. IsValid t' × (in_order t' ≡ del key (in_order t)))
unfolding remove_found
remove_found-del key t (null, p) v m = (v, sym (del_of_not_mem key (in_order t) m))
remove_found-del key t (node c k l r, p) v x =
    Returns-imp (remove_at (node c k l r) p) _ _ (remove_at-Fixed c k l r p x.0) λ t' f. (
      record {
        valid = f.valid;
        root_black = f.root_black;
        ordered = rw (f.contents ∙ x.1) (del-IsOrdered key (in_order t) v.ordered);
      },
      f.contents ∙ x.1,
    )

-- `remove` follows no null pointer, leaves a red-black search tree with a black root, and takes one
-- occurrence of the key out of the multiset.
pub remove-del :
    (key : ℕ) (t : Tree)
    → IsValid t
    → Returns (remove key t) (λ t'. IsValid t' × (in_order t' ≡ del key (in_order t)))
unfolding remove
remove-del key t v = remove_found-del key t (search key t []) v (
    search-Searched key t []
      (record { valid = v.valid; hangs = rw v.root_black tt; ancestors = tt }) v.ordered)
