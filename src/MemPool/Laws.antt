-- ===== src/MemPool/Laws.antt =====
-- cpp/memory/MemPool2.cpp: every node of the blocks is free or in use, once.
use mathlib.Core.List.{Perm, perm_middle, perm_append_comm}
use mathlib.Core.List.Perm
use mathlib.Core.Path.{subst}
use native.Mathlib.Nat.{suc-mul}
use language_test.Prelude.{
  ℕ, zero, suc, ◌+◌, ◌*◌, ◌<◌, ◌≡◌, refl, sym, ap, ◌∙◌, arith, List, [], ◌∷◌, ◌++◌, append_assoc,
  length, Returns,
}
use language_test.MemPool.Defs.{MemPool, chain, malloc, free}

-- The free nodes and those in use are the nodes of the blocks, each once.
abbrev pub IsPool : ℕ → MemPool → List ℕ → Type 0
IsPool n s used = Perm (s.free_nodes ++ used) (chain 0 (length s.blocks * n))

chain-append : (b m n : ℕ) → chain b (m + n) ≡ chain b m ++ chain (b + m) n
chain-append b zero n =
    let e : 0 + n ≡ n = omega arith in
    let f : b + 0 ≡ b = omega arith in ap (λ k. chain b k) e ∙ ap (λ c. chain c n) (sym f)
chain-append b (suc m) n =
    let e : suc m + n ≡ suc (m + n) = omega arith in
    let f : b + 1 + m ≡ b + suc m = omega arith in
    ap (λ k. chain b k) e
    ∙ ap (λ c. b ∷ c) (chain-append (b + 1) m n ∙ ap (λ c. chain (b + 1) m ++ chain c n) f)

-- The nodes of a new block.
chain-Pool :
    (n l : ℕ) (used : List ℕ)
    → Perm used (chain 0 (l * n))
    → Perm (chain (l * n) n ++ used) (chain 0 (suc l * n))
chain-Pool n l used h =
    let z : 0 + l * n ≡ l * n = omega arith in
    let e : chain 0 (suc l * n) ≡ chain 0 (l * n) ++ chain (l * n) n =
      ap (λ k. chain 0 k) (suc-mul l n)
      ∙ chain-append 0 (l * n) n
      ∙ ap (λ c. chain 0 (l * n) ++ chain c n) z in
    rw e (
      Perm.trans (perm_append_comm (chain (l * n) n) used)
        (Perm.append h (Perm.refl (chain (l * n) n))))

-- Where blocks have nodes, `malloc` is defined, and the node that it returns is now one in use that
-- was not.
pub malloc-IsPool :
    (n : ℕ) (s : MemPool) (used : List ℕ)
    → 0 < n
    → IsPool n s used
    → Returns (malloc n s) (λ r. IsPool n r.1 (r.0 ∷ used))
unfolding malloc
malloc-IsPool zero s used z h = elim z [ ]
malloc-IsPool (suc k) s used z h = go s.free_nodes refl
  where
    go :
        (xs : List ℕ)
        → s.free_nodes ≡ xs
        → Returns (malloc (suc k) s) (λ r. IsPool (suc k) r.1 (r.0 ∷ used))
    go [] e =
        let l = length s.blocks in
        let u = subst (λ f. Perm (f ++ used) (chain 0 (l * suc k))) e h in
        rw (e, malloc)
          (Perm.trans (perm_middle (chain (l * suc k + 1) k) used) (chain-Pool (suc k) l used u))
    go (p ∷ rest) e =
        let u = subst (λ f. Perm (f ++ used) (chain 0 (length s.blocks * suc k))) e h in
        rw (e, malloc) (Perm.trans (perm_middle rest used) u)

-- `free` of a node in use makes it free.
pub free-IsPool :
    (n : ℕ) (s : MemPool) (p : ℕ) (before after : List ℕ)
    → IsPool n s (before ++ p ∷ after)
    → IsPool n (free p s) (before ++ after)
unfolding free
free-IsPool n s p before after h =
    let m : Perm ((s.free_nodes ++ before) ++ p ∷ after) (p ∷ (s.free_nodes ++ before) ++ after) =
      perm_middle (s.free_nodes ++ before) after in
    Perm.trans (Perm.symm (simp append_assoc at m)) h
