-- ===== src/Bst/Walk.antt =====
-- cpp/tree/bst.cpp: the loop that five methods share pushes and pops every node once, in the order
-- of the recursive traversal, and its fuel is enough.
use language_test.Prelude.{
  ℕ, zero, suc, ◌+◌, ◌*◌, ◌<◌, ◌≡◌, ◌⊎◌, inl, inr, refl, sym, ◌∙◌, ap, arith, some, List, [], ◌∷◌,
  ◌++◌, append_assoc, append-nil,
}
use language_test.Bst.Defs.{Tree, null, node, Step, next, return, walk, count, fuel}

pub data Event : Type 0 where
  enter leave : Tree → Event

abbrev pub events : Tree → List Event
events null = []
events (node d l r) = enter (node d l r) ∷ (events l ++ (leave (node d l r) ∷ events r))

-- What is still to come for a stack of nodes whose left sides are done.
abbrev stack_events : List Tree → List Event
stack_events [] = []
stack_events (null ∷ s) = stack_events s
stack_events (node d l r ∷ s) = leave (node d l r) ∷ (events r ++ stack_events s)

abbrev stack_fuel : List Tree → ℕ
stack_fuel [] = 0
stack_fuel (null ∷ s) = stack_fuel s
stack_fuel (node d l r ∷ s) = suc (2 * count r + stack_fuel s)

abbrev IsStack : List Tree → Type 0
IsStack [] = Unit
IsStack (null ∷ s) = ⊥
IsStack (node d l r ∷ s) = IsStack s

abbrev pub and_then : {A B : Type 0} → Step A B → (A → Step A B) → Step A B
and_then (next a) f = f a
and_then (return b) f = return b

Step-cases :
    {A B : Type 0} (st : Step A B) → ((a : A) × (st ≡ next a)) ⊎ ((b : B) × (st ≡ return b))
Step-cases (next a) = inl (a, refl)
Step-cases (return b) = inr (b, refl)

module _ {A B : Type 0} (on_enter on_leave : Tree → A → Step A B) where
  abbrev pub run : List Event → A → Step A B
  run [] a = next a
  run (enter t ∷ es) a = and_then (on_enter t a) (run es)
  run (leave t ∷ es) a = and_then (on_leave t a) (run es)

  pub run-append : (xs ys : List Event) (a : A) → run (xs ++ ys) a ≡ and_then (run xs a) (run ys)
  run-append [] ys a = refl
  run-append (enter t ∷ xs) ys a = elim (Step-cases (on_enter t a)) [
    | inl (a', e) ↦ rw e (run-append xs ys a')
    | inr (b, e) ↦ rw e
  ]
  run-append (leave t ∷ xs) ys a = elim (Step-cases (on_leave t a)) [
    | inl (a', e) ↦ rw e (run-append xs ys a')
    | inr (b, e) ↦ rw e
  ]

  walk-run_stack :
      (f : ℕ) (s : List Tree) (p : Tree) (a : A)
      → IsStack s
      → 2 * count p + stack_fuel s < f
      → walk on_enter on_leave f s p a ≡ some (run (events p ++ stack_events s) a)
  unfolding walk
  walk-run_stack zero s p a i h = absurd (omega arith)
  walk-run_stack (suc f) s (node d l r) a i h = elim (Step-cases (on_enter (node d l r) a)) [
    | inl (a', e) ↦
        rw (e, walk)
          (walk-run_stack f (node d l r ∷ s) l a' i (omega arith)
            ∙ ap (λ z. some (run z a'))
                (sym (append_assoc (events l) (leave (node d l r) ∷ events r) (stack_events s))))
    | inr (b, e) ↦ rw (e, walk)
  ]
  walk-run_stack (suc f) (node d l r ∷ s) null a i h = elim (Step-cases (on_leave (node d l r) a)) [
    | inl (a', e) ↦ rw (e, walk) (walk-run_stack f s r a' i (omega arith))
    | inr (b, e) ↦ rw (e, walk)
  ]
  walk-run_stack (suc f) (null ∷ s) null a i h = absurd i
  walk-run_stack (suc f) [] null a i h = refl

  pub walk-run :
      (t : Tree) (a : A) → walk on_enter on_leave (fuel t) [] t a ≡ some (run (events t) a)
  walk-run t a =
      walk-run_stack (fuel t) [] t a tt (omega arith)
      ∙ ap (λ z. some (run z a)) (append-nil (events t))
