-- ===== src/MemPool/Runs.antt =====
-- cpp/memory/MemPool2.cpp: sequences of calls on a new pool.
use mathlib.Core.HLevel.{⊥_prop}
use mathlib.Core.List.{
  Mem, Nodup, Nodup-cons, Nodup-append, not-mem-nil, eq-or-mem_of_mem-cons, Pairwise,
}
use mathlib.Core.List.Perm
use mathlib.Core.Logic.Or
use language_test.Prelude.{
  ℕ, zero, suc, ◌+◌, ◌*◌, ◌<◌, ◌≡◌, arith, some, List, [], ◌∷◌, ◌++◌, length, Returns, Returns-imp,
}
use language_test.MemPool.Defs.{MemPool, empty, chain, malloc, free}
use language_test.MemPool.Laws.{IsPool, malloc-IsPool, free-IsPool}

-- The calls so far have given `s`, and the nodes in `used` are those allocated and not freed. A caller
-- frees only such a node.
pub data Uses (n : ℕ) : MemPool → List ℕ → Type 0 where
  start : Uses n empty []
  allocated :
      {s new : MemPool} {used : List ℕ} {p : ℕ}
      → Uses n s used
      → malloc n s ≡ some (p, new)
      → Uses n new (p ∷ used)
  released :
      {s : MemPool} (p : ℕ) (before after : List ℕ)
      → Uses n s (before ++ p ∷ after)
      → Uses n (free p s) (before ++ after)

Uses-IsPool : (n : ℕ) (s : MemPool) (used : List ℕ) → 0 < n → Uses n s used → IsPool n s used
Uses-IsPool n s used z start = let e : 0 * n ≡ 0 = omega arith in rw e (Perm.refl [])
Uses-IsPool n s used z (allocated {s = old} {new = new} {used = before} {p = p} u e) =
    rw e at (malloc-IsPool n old before z (Uses-IsPool n old before z u))
Uses-IsPool n s used z (released {s = old} p before after u) =
    free-IsPool n old p before after (Uses-IsPool n old (before ++ p ∷ after) z u)

chain-above : (b n x : ℕ) → x < b → ¬ Mem x (chain b n)
chain-above b zero x l m = not-mem-nil m
chain-above b (suc n) x l m =
    Or.elim ⊥_prop (eq-or-mem_of_mem-cons m) (λ e. omega (arith, e, l))
      (λ t. chain-above (b + 1) n x (omega (arith, l)) t)

chain-Nodup : (b n : ℕ) → Nodup (chain b n)
chain-Nodup b zero = Pairwise.nil
chain-Nodup b (suc n) = Nodup-cons.1 (chain-above (b + 1) n b (omega arith), chain-Nodup (b + 1) n)

-- After any sequence of `malloc` and of `free` of allocated nodes on a new pool whose blocks have nodes,
-- `malloc` is defined, and the node that it returns is not one in use.
pub Uses-malloc :
    (n : ℕ) (s : MemPool) (used : List ℕ)
    → 0 < n
    → Uses n s used
    → Returns (malloc n s) (λ r. ¬ Mem (r.0) used)
Uses-malloc n s used z u =
    Returns-imp (malloc n s) (λ r. IsPool n (r.1) (r.0 ∷ used)) (λ r. ¬ Mem (r.0) used)
      (malloc-IsPool n s used z (Uses-IsPool n s used z u))
      (λ r h.
        let d : Nodup ((r.1).free_nodes ++ r.0 ∷ used) =
          Perm.nodup (Perm.symm h) (chain-Nodup 0 (length ((r.1).blocks) * n)) in
        (Nodup-cons.0 (Nodup-append.0 d).1).0)
