-- ===== src/RbTree/Repair.antt =====
-- cpp/tree/rbTree.cpp: the loop of `removeFixUp`, over the rounds of RbTree/FixUp.
use language_test.Prelude.{
  ℕ, suc, ◌≡◌, refl, sym, ◌∙◌, arith, List, [], ◌∷◌, ◌++◌, append_assoc, Option, some, Returns,
  Returns-bind, ◌>>=◌,
}
use language_test.RbTree.Defs.{
  Color, red, black, Tree, null, node, Crumb, in_left, in_right, plug, color, set_black, in_order,
}
use language_test.RbTree.Zipper.{
  black_height, IsRedBlack, Ancestors, Fits, Fits-UnderBlack, plug-IsRedBlack, color-set_black,
  in_order-set_black, around, in_order-plug,
}
use language_test.RbTree.Insert.{Fixed, Hangs, plug-Fixed}
use language_test.RbTree.Removal.{Outcome, up, done, cases_left, cases_right, finish, remove_fix_up}
use language_test.RbTree.FixUp.{Good, bump, cases_left-Good, cases_right-Good}

pub black≢red : black ≡ red → ⊥
black≢red e = cc

color-plug :
    (n : ℕ) (t : Tree) (p : List Crumb)
    → Hangs (color t) p
    → Ancestors n p
    → color (plug t p) ≡ black
unfolding plug
color-plug n null [] h a = refl
color-plug n (node red k l r) [] h a = absurd h
color-plug n (node black k l r) [] h a = refl
color-plug n t (in_left red k r ∷ p) h a = color-plug n (node red k t r) p a.3 a.4
color-plug n t (in_left black k r ∷ p) h a = color-plug (suc n) (node black k t r) p tt a.2
color-plug n t (in_right red k l ∷ p) h a = color-plug n (node red k l t) p a.3 a.4
color-plug n t (in_right black k l ∷ p) h a = color-plug (suc n) (node black k l t) p tt a.2

-- A tree of the right height with a black root, in its place.
pub place-Fixed :
    (t : Tree) (p : List Crumb)
    → IsRedBlack t
    → color t ≡ black
    → Ancestors (black_height t) p
    → Fixed (around p (in_order t)) (plug t p)
place-Fixed t p v c a = record {
  valid = plug-IsRedBlack t p v (rw c tt) a;
  root_black = color-plug (black_height t) t p (rw c tt) a;
  contents = in_order-plug t p;
}

finish-Fixed :
    (n : ℕ) (p : List Crumb) (keys : List ℕ) (o : Outcome)
    → Good red n keys o
    → Fits red p
    → Ancestors (suc n) p
    → Fixed (around p keys) (finish p o)
unfolding finish
finish-Fixed n p keys (up s) g f a =
    rw (← g.3, ← in_order-set_black s)
      (place-Fixed (set_black s) p g.0 (color-set_black s) (rw g.1 a))
finish-Fixed n p keys (done s) g f a = rw (← g.3) (plug-Fixed s p g.0 (rw g.2 f) (rw g.1 a))

-- What the ancestors say of the parent and of what is above it.
record Parent (n : ℕ) (c : Color) (other : Tree) (p : List Crumb) : Type 0 where
  height : black_height other ≡ n
  valid : IsRedBlack other
  fits : Fits c p
  rest : Ancestors (bump c n) p

Parent-left :
    (n : ℕ) (c : Color) (k : ℕ) (other : Tree) (p : List Crumb)
    → Ancestors n (in_left c k other ∷ p)
    → Parent n c other p
Parent-left n red k other p a = record {
  height = a.1;
  valid = a.2;
  fits = Fits-UnderBlack red p a.3;
  rest = a.4;
}
Parent-left n black k other p a = record { height = a.0; valid = a.1; fits = tt; rest = a.2 }

Parent-right :
    (n : ℕ) (c : Color) (k : ℕ) (other : Tree) (p : List Crumb)
    → Ancestors n (in_right c k other ∷ p)
    → Parent n c other p
Parent-right n red k other p a = record {
  height = a.1;
  valid = a.2;
  fits = Fits-UnderBlack red p a.3;
  rest = a.4;
}
Parent-right n black k other p a = record { height = a.0; valid = a.1; fits = tt; rest = a.2 }

-- The rounds with a black `other`: `again` is the next round.
abbrev again : List Crumb → Outcome → Option Tree
again p (up s) = remove_fix_up s p
again p (done s) = some (set_black (plug s p))

abbrev Repairs : List Crumb → Type 0
Repairs p =
    (s : Tree)
    → IsRedBlack s
    → Ancestors (suc (black_height s)) p
    → Returns (remove_fix_up s p) (Fixed (around p (in_order s)))

again-Fixed :
    (c : Color) (n : ℕ) (p : List Crumb) (keys : List ℕ)
    → Repairs p
    → Fits c p
    → Ancestors (bump c (suc n)) p
    → (o : Outcome) → Good c n keys o
    → Returns (again p o) (Fixed (around p keys))
unfolding remove_fix_up
again-Fixed c n p keys ih f a (done s) g = rw (← g.3) (plug-Fixed s p g.0 (rw g.2 f) (rw g.1 a))
again-Fixed red n p keys ih f a (up null) g = absurd (black≢red g.2)
again-Fixed red n p keys ih f a (up (node black k l r)) g = absurd (black≢red g.2)
again-Fixed red n p keys ih f a (up (node red k l r)) g =
    rw (← g.3) (place-Fixed (node black k l r) p g.0 refl (rw g.1 a))
again-Fixed black n p keys ih f a (up null) g = absurd (omega (arith, g.1))
again-Fixed black n p keys ih f a (up (node red k l r)) g = absurd (black≢red (sym g.2))
again-Fixed black n p keys ih f a (up (node black k l r)) g =
    rw (← g.3) (ih (node black k l r) g.0 (rw g.1 a))

module _ (t : Tree) (v : IsRedBlack t) (pc : Color) (pk : ℕ) (p : List Crumb) where
  -- Case 1, on either side.
  red_left :
      (ok : ℕ) (ol or : Tree)
      → Parent (suc (black_height t)) black (node red ok ol or) p
      → Returns
          (cases_left red pk t ol >>= λ o. some (finish (in_left black ok or ∷ p) o))
          (Fixed (around p (in_order t ++ pk ∷ in_order (node red ok ol or))))
  red_left ok null or q = absurd (omega (arith, q.height))
  red_left ok (node red lk ll lr) or q = absurd (black≢red (sym q.valid.0))
  red_left ok (node black lk ll lr) or q =
      let ol = node black lk ll lr in
      let g = q.valid.3 in
      rw (← append_assoc (in_order t) (pk ∷ in_order ol) (ok ∷ in_order or)) (
        Returns-bind (cases_left red pk t ol) _ _ _
          (cases_left-Good pk t v red lk ll lr g.1 g.2 (omega (arith, q.height))
            (omega (arith, q.height, g.0)))
          λ o g'.
            finish-Fixed (black_height t) (in_left black ok or ∷ p) _ o g' tt
              (sym q.valid.2 ∙ q.height, q.valid.4, q.rest))

  black_left :
      (ok : ℕ) (ol or : Tree)
      → Repairs p
      → Ancestors (suc (black_height t)) (in_left pc pk (node black ok ol or) ∷ p)
      → Returns
          (cases_left pc pk t (node black ok ol or) >>= again p)
          (Fixed (around (in_left pc pk (node black ok ol or) ∷ p) (in_order t)))
  black_left ok ol or ih a =
      let q = Parent-left (suc (black_height t)) pc pk (node black ok ol or) p a in
      Returns-bind (cases_left pc pk t (node black ok ol or)) (again p) _ _
        (cases_left-Good pk t v pc ok ol or q.valid.1 q.valid.2 (omega (arith, q.height))
          (omega (arith, q.height, q.valid.0)))
        (again-Fixed pc (black_height t) p _ ih q.fits q.rest)

  black_right :
      (ok : ℕ) (ol or : Tree)
      → Repairs p
      → Ancestors (suc (black_height t)) (in_right pc pk (node black ok ol or) ∷ p)
      → Returns
          (cases_right pc pk t (node black ok ol or) >>= again p)
          (Fixed (around (in_right pc pk (node black ok ol or) ∷ p) (in_order t)))
  black_right ok ol or ih a =
      let q = Parent-right (suc (black_height t)) pc pk (node black ok ol or) p a in
      Returns-bind (cases_right pc pk t (node black ok ol or)) (again p) _ _
        (cases_right-Good pk t v pc ok ol or q.valid.1 q.valid.2 (omega (arith, q.height))
          (omega (arith, q.height, q.valid.0)))
        (again-Fixed pc (black_height t) p _ ih q.fits q.rest)

  red_right :
      (ok : ℕ) (ol or : Tree)
      → Parent (suc (black_height t)) black (node red ok ol or) p
      → Returns
          (cases_right red pk t or >>= λ o. some (finish (in_right black ok ol ∷ p) o))
          (Fixed (around p (in_order (node red ok ol or) ++ pk ∷ in_order t)))
  red_right ok ol null q = absurd (omega (arith, q.height, q.valid.2))
  red_right ok ol (node red rk rl rr) q = absurd (black≢red (sym q.valid.1))
  red_right ok ol (node black rk rl rr) q =
      let or = node black rk rl rr in
      let g = q.valid.4 in
      rw (append_assoc (in_order ol) (ok ∷ in_order or) (pk ∷ in_order t)) (
        Returns-bind (cases_right red pk t or) _ _ _
          (cases_right-Good pk t v red rk rl rr g.1 g.2 (omega (arith, q.height, q.valid.2))
            (omega (arith, q.height, q.valid.2, g.0)))
          λ o g'.
            finish-Fixed (black_height t) (in_right black ok ol ∷ p) _ o g' tt
              (q.height, q.valid.3, q.rest))

-- `removeFixUp` at a place that lacks one black node: it is defined, and the tree is red-black again
-- with the same keys.
pub remove_fix_up-Fixed :
    (t : Tree) (p : List Crumb)
    → IsRedBlack t
    → Ancestors (suc (black_height t)) p
    → Returns (remove_fix_up t p) (Fixed (around p (in_order t)))
unfolding remove_fix_up
remove_fix_up-Fixed (node red k l r) p v a = place-Fixed (node black k l r) p (v.2, v.3, v.4) refl a
remove_fix_up-Fixed null [] v a = record { valid = v; root_black = refl; contents = refl }
remove_fix_up-Fixed null (in_left red pk (node red ok ol or) ∷ p) v a = absurd (black≢red (sym a.0))
remove_fix_up-Fixed null (in_left black pk (node red ok ol or) ∷ p) v a =
    red_left null v black pk p ok ol or (Parent-left _ black pk (node red ok ol or) p a)
remove_fix_up-Fixed null (in_left red pk null ∷ p) v a = absurd (omega (arith, a.1))
remove_fix_up-Fixed null (in_left red pk (node black ok ol or) ∷ p) v a =
    black_left null v red pk p ok ol or (λ s. remove_fix_up-Fixed s p) a
remove_fix_up-Fixed null (in_left black pk null ∷ p) v a = absurd (omega (arith, a.0))
remove_fix_up-Fixed null (in_left black pk (node black ok ol or) ∷ p) v a =
    black_left null v black pk p ok ol or (λ s. remove_fix_up-Fixed s p) a
remove_fix_up-Fixed null (in_right red pk (node red ok ol or) ∷ p) v a =
    absurd (black≢red (sym a.0))
remove_fix_up-Fixed null (in_right black pk (node red ok ol or) ∷ p) v a =
    red_right null v black pk p ok ol or (Parent-right _ black pk (node red ok ol or) p a)
remove_fix_up-Fixed null (in_right red pk null ∷ p) v a = absurd (omega (arith, a.1))
remove_fix_up-Fixed null (in_right red pk (node black ok ol or) ∷ p) v a =
    black_right null v red pk p ok ol or (λ s. remove_fix_up-Fixed s p) a
remove_fix_up-Fixed null (in_right black pk null ∷ p) v a = absurd (omega (arith, a.0))
remove_fix_up-Fixed null (in_right black pk (node black ok ol or) ∷ p) v a =
    black_right null v black pk p ok ol or (λ s. remove_fix_up-Fixed s p) a
remove_fix_up-Fixed (node black k l r) [] v a = record {
  valid = v;
  root_black = refl;
  contents = refl;
}
remove_fix_up-Fixed (node black k l r) (in_left red pk (node red ok ol or) ∷ p) v a =
    absurd (black≢red (sym a.0))
remove_fix_up-Fixed (node black k l r) (in_left black pk (node red ok ol or) ∷ p) v a =
    red_left (node black k l r) v black pk p ok ol or
      (Parent-left _ black pk (node red ok ol or) p a)
remove_fix_up-Fixed (node black k l r) (in_left red pk null ∷ p) v a = absurd (omega (arith, a.1))
remove_fix_up-Fixed (node black k l r) (in_left red pk (node black ok ol or) ∷ p) v a =
    black_left (node black k l r) v red pk p ok ol or (λ s. remove_fix_up-Fixed s p) a
remove_fix_up-Fixed (node black k l r) (in_left black pk null ∷ p) v a = absurd (omega (arith, a.0))
remove_fix_up-Fixed (node black k l r) (in_left black pk (node black ok ol or) ∷ p) v a =
    black_left (node black k l r) v black pk p ok ol or (λ s. remove_fix_up-Fixed s p) a
remove_fix_up-Fixed (node black k l r) (in_right red pk (node red ok ol or) ∷ p) v a =
    absurd (black≢red (sym a.0))
remove_fix_up-Fixed (node black k l r) (in_right black pk (node red ok ol or) ∷ p) v a =
    red_right (node black k l r) v black pk p ok ol or
      (Parent-right _ black pk (node red ok ol or) p a)
remove_fix_up-Fixed (node black k l r) (in_right red pk null ∷ p) v a = absurd (omega (arith, a.1))
remove_fix_up-Fixed (node black k l r) (in_right red pk (node black ok ol or) ∷ p) v a =
    black_right (node black k l r) v red pk p ok ol or (λ s. remove_fix_up-Fixed s p) a
remove_fix_up-Fixed (node black k l r) (in_right black pk null ∷ p) v a =
    absurd (omega (arith, a.0))
remove_fix_up-Fixed (node black k l r) (in_right black pk (node black ok ol or) ∷ p) v a =
    black_right (node black k l r) v black pk p ok ol or (λ s. remove_fix_up-Fixed s p) a
