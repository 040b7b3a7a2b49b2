-- ===== src/SafeQueue/Laws.antt =====
-- cpp/stl/safeQueue.cpp: every interleaving of critical sections keeps the order and the bound.
use language_test.Prelude.{
  ℕ, ◌≤◌, ◌≡◌, refl, sym, ap, ◌∙◌, arith, true, false, not, ◌&&◌, none, some, List, [], ◌∷◌, ◌++◌,
  append_assoc, append-nil, ltb, length, length-append, Bool-cases, inl, inr,
}
use language_test.SafeQueue.Defs.{Queue, returns, push, pop, quit, finished}

-- What a section of `push` put in, and what one of `pop` took out.
abbrev pub accepted : ℕ → Queue → List ℕ
accepted x q = elim (push x q).0 [ returns true ↦ x ∷ [] | _ ↦ [] ]

abbrev pub taken : Queue → List ℕ
taken q = elim (pop q).1 [ some x ↦ x ∷ [] | none ↦ [] ]

-- A step of the system, with the elements that went in and came out.
pub data Step : Queue → List ℕ → List ℕ → Queue → Type 0 where
  pushes : (x : ℕ) (q : Queue) → Step q (accepted x q) [] (push x q).1
  pops : (q : Queue) → Step q [] (taken q) (pop q).2
  quits : (q : Queue) → Step q [] [] (quit q)
  finishes : (q : Queue) → Step q [] [] (finished q)

push-items :
    (x : ℕ) (q : Queue)
    → length q.items ≤ q.size_max
    → ((push x q).1.items ≡ q.items ++ accepted x q)
      × ((push x q).1.size_max ≡ q.size_max)
      × (length (push x q).1.items ≤ q.size_max)
unfolding push
push-items x q b = elim (Bool-cases (not q.quitting && not q.finishing)) [
  | inr e ↦ rw (e, push, accepted) (sym (append-nil q.items), refl, b)
  | inl e ↦ elim (Bool-cases (ltb (length q.items) q.size_max)) [
    | inr f ↦ rw (e, f, push, accepted) (sym (append-nil q.items), refl, b)
    | inl f ↦
        rw (e, f, push, accepted) (refl, refl, ground (arith, f, length-append q.items (x ∷ [])))
  ]
]

pop-items :
    (q : Queue)
    → length q.items ≤ q.size_max
    → (taken q ++ (pop q).2.items ≡ q.items)
      × ((pop q).2.size_max ≡ q.size_max)
      × (length (pop q).2.items ≤ q.size_max)
unfolding pop
pop-items q b = elim (Bool-cases q.quitting) [
  | inl e ↦ rw (e, pop) (refl, refl, b)
  | inr e ↦ go q.items refl e
]
  where
    go :
        (xs : List ℕ)
        → q.items ≡ xs
        → q.quitting ≡ false
        → (taken q ++ (pop q).2.items ≡ q.items)
          × ((pop q).2.size_max ≡ q.size_max)
          × (length (pop q).2.items ≤ q.size_max)
    go [] i e = elim (Bool-cases q.finishing) [
      | inl f ↦ rw (i, e, f, pop) (i, refl, b)
      | inr f ↦ rw (i, e, f, pop) (i, refl, b)
    ]
    go (x ∷ xs) i e = rw (i, e, pop) (refl, refl, omega (arith, b, ap (λ l. length l) i))

-- The runs of the system.
pub data Run : Queue → List ℕ → List ℕ → Queue → Type 0 where
  done : (q : Queue) → Run q [] [] q
  then_step :
      (q r s : Queue) (ins outs more taken_out : List ℕ)
      → Run q ins outs r
      → Step r more taken_out s
      → Run q (ins ++ more) (outs ++ taken_out) s

step-items :
    (q r : Queue) (ins outs : List ℕ)
    → Step q ins outs r
    → length q.items ≤ q.size_max
    → (q.items ++ ins ≡ outs ++ r.items) × (r.size_max ≡ q.size_max) × (length r.items ≤ q.size_max)
unfolding quit finished
step-items _ _ _ _ (pushes x q) b = let p = push-items x q b in (sym p.0, p.1, p.2)
step-items _ _ _ _ (pops q) b = let p = pop-items q b in (append-nil q.items ∙ sym p.0, p.1, p.2)
step-items _ _ _ _ (quits q) b = (append-nil q.items, refl, b)
step-items _ _ _ _ (finishes q) b = (append-nil q.items, refl, b)

-- In every interleaving of sections of push, pop, quit and finished, from a queue within its bound:
-- what was in the queue and went in is, in order, what came out and what is in it now, and the
-- queue stays within its bound.
pub run-items :
    (q r : Queue) (ins outs : List ℕ)
    → Run q ins outs r
    → length q.items ≤ q.size_max
    → (q.items ++ ins ≡ outs ++ r.items) × (r.size_max ≡ q.size_max) × (length r.items ≤ q.size_max)
run-items _ _ _ _ (done q) b = (append-nil q.items, refl, b)
run-items _ _ _ _ (then_step q r s ins outs more taken_out run step) b =
    let ih = run-items q r ins outs run b in
    let p = step-items r s more taken_out step (omega (arith, ih.1, ih.2)) in
    (
      sym (append_assoc q.items ins more)
          ∙ ap (λ l. l ++ more) ih.0
          ∙ append_assoc outs r.items more
          ∙ ap (λ l. outs ++ l) p.0
          ∙ sym (append_assoc outs taken_out s.items),
      p.1 ∙ ih.1,
      omega (arith, p.2, ih.1),
    )
