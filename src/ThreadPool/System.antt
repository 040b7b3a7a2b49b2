-- ===== src/ThreadPool/System.antt =====
-- cpp/thread/ThreadPool.cpp: the steps of the threads in any order, and what they keep.
use mathlib.Core.Path.{subst}
use language_test.Prelude.{
  ℕ, ◌+◌, ◌-◌, ◌<◌, ◌≡◌, ◌⊎◌, inl, inr, refl, sym, ap, ◌∙◌, true, Bool-cases, Option, none, some,
  List, [], ◌∷◌, ◌++◌, append_assoc, ltb, arith, length,
}
use language_test.ThreadPool.Defs.{Pool, new, section, enqueue, notify_one, set_stop, notify_all}

pub data Step (p : Pool) : Pool → Type 0 where
  enqueues : (t : ℕ) (q : Pool) → enqueue t p ≡ some q → Step p q
  notifies : 0 < p.pending → Step p (notify_one p)
  sections : 0 < p.ready → Step p (section p)
  finishes : 0 < p.running → Step p (record p { running = p.running - 1; ready = p.ready + 1 })
  wakes : 0 < p.waiting → Step p (record p { waiting = p.waiting - 1; ready = p.ready + 1 })
  stops : Step p (set_stop p)
  notifies_all : p.stop ≡ true → Step p (notify_all p)

pub data Run (p : Pool) : Pool → Type 0 where
  here : Run p p
  next : {q r : Pool} → Run p q → Step q r → Run p r

pub record IsValid (threads : ℕ) (p : Pool) : Type 0 where
  pub counted : p.waiting + p.ready + p.running + p.exited ≡ threads
  pub order : p.started ++ p.tasks ≡ p.enqueued
  -- a worker returns only from a pool that was stopped and is empty
  pub ended : (p.exited ≡ 0) ⊎ ((p.stop ≡ true) × (p.tasks ≡ []))
  -- no wake-up is lost
  pub awake : (length p.tasks ≡ 0) ⊎ ((0 < p.pending) ⊎ (0 < p.ready + p.running))

pub new-IsValid : (threads : ℕ) → IsValid threads (new threads)
new-IsValid threads = record {
  counted = omega arith;
  order = refl;
  ended = inl refl;
  awake = inl refl;
}

-- Where the code does not throw.
abbrev NoThrow : (Pool → Type 0) → Option Pool → Type 0
NoThrow P none = Unit
NoThrow P (some p) = P p

enqueue-IsValid : (n t : ℕ) (p : Pool) → IsValid n p → NoThrow (IsValid n) (enqueue t p)
unfolding enqueue
enqueue-IsValid n t p i = elim (Bool-cases p.stop) [
  | inl e ↦ rw (e, enqueue) tt
  | inr e ↦
      let d : p.exited ≡ 0 = elim i.ended [ inl z ↦ z | inr (s, z) ↦ cc (e, s) ] in
      simp (e, enqueue)
        (record {
          counted = i.counted;
          order = sym (append_assoc p.started p.tasks (t ∷ [])) ∙ ap (λ l. l ++ t ∷ []) i.order;
          ended = inl d;
          awake = inr (inl (omega arith));
        })
]

section-IsValid : (n : ℕ) (p : Pool) → 0 < p.ready → IsValid n p → IsValid n (section p)
unfolding section
section-IsValid n p h i = go p.tasks refl
  where
    go : (xs : List ℕ) → p.tasks ≡ xs → IsValid n (section p)
    go [] e = elim (Bool-cases p.stop) [
      | inl f ↦
          simp (e, f, section)
            (record {
              counted = omega (arith, i.counted, h);
              order = ap (λ l. p.started ++ l) (sym e) ∙ i.order;
              ended = inr (refl, refl);
              awake = inl refl;
            })
      | inr f ↦
          let d : p.exited ≡ 0 = elim i.ended [ inl z ↦ z | inr (s, z) ↦ cc (f, s) ] in
          simp (e, f, section)
            (record {
              counted = omega (arith, i.counted, h);
              order = ap (λ l. p.started ++ l) (sym e) ∙ i.order;
              ended = inl d;
              awake = inl refl;
            })
    ]
    go (t ∷ ts) e =
        let d : p.exited ≡ 0 = elim i.ended [ inl z ↦ z | inr (s, z) ↦ cc (e, z) ] in
        simp (e, section)
          (record {
            counted = omega (arith, i.counted, h);
            order = append_assoc p.started (t ∷ []) ts ∙ ap (λ l. p.started ++ l) (sym e) ∙ i.order;
            ended = inl d;
            awake = inr (inr (omega arith));
          })

notify_one-IsValid :
    (n : ℕ) (p : Pool) → 0 < n → 0 < p.pending → IsValid n p → IsValid n (notify_one p)
unfolding notify_one
notify_one-IsValid n p z h i = elim (Bool-cases (ltb 0 p.waiting)) [
  | inl e ↦
      rw (e, notify_one)
        (record {
          counted = ground (arith, e, i.counted);
          order = i.order;
          ended = i.ended;
          awake = inr (inr (omega arith));
        })
  | inr e ↦
      rw (e, notify_one)
        (record {
          counted = i.counted;
          order = i.order;
          ended = i.ended;
          awake = elim i.ended [
            | inl d ↦ inr (inr (ground (arith, e, z, d, i.counted)))
            | inr (s, d) ↦ inl (ap (λ l. length l) d)
          ];
        })
]

Step-IsValid : (n : ℕ) {p q : Pool} → 0 < n → Step p q → IsValid n p → IsValid n q
unfolding set_stop notify_all
Step-IsValid n {p} z (enqueues t q e) i = subst (NoThrow (IsValid n)) e (enqueue-IsValid n t p i)
Step-IsValid n {p} z (notifies h) i = notify_one-IsValid n p z h i
Step-IsValid n {p} z (sections h) i = section-IsValid n p h i
Step-IsValid n {p} z (finishes h) i = record {
  counted = omega (arith, i.counted);
  order = i.order;
  ended = i.ended;
  awake = inr (inr (omega arith));
}
Step-IsValid n {p} z (wakes h) i = record {
  counted = omega (arith, i.counted);
  order = i.order;
  ended = i.ended;
  awake = inr (inr (omega arith));
}
Step-IsValid n {p} z stops i = record {
  counted = i.counted;
  order = i.order;
  ended = elim i.ended [ inl d ↦ inl d | inr (s, d) ↦ inr (refl, d) ];
  awake = i.awake;
}
Step-IsValid n {p} z (notifies_all h) i = record {
  counted = omega (arith, i.counted);
  order = i.order;
  ended = i.ended;
  awake = omega (arith, i.awake);
}

pub Run-IsValid : (n : ℕ) {p q : Pool} → 0 < n → Run p q → IsValid n p → IsValid n q
Run-IsValid n z here i = i
Run-IsValid n z (next run step) i = Step-IsValid n z step (Run-IsValid n z run i)
