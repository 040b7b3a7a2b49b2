-- ===== src/MemPool/Defs.antt =====
-- cpp/memory/MemPool2.cpp, class MemPool<ObjectSize, NumofObjects>. Node i of the block with base b
-- has the address b + i; each new block has a base behind all earlier ones. `none` is undefined
-- behaviour.
use language_test.Prelude.{ℕ, zero, suc, ◌+◌, ◌*◌, Option, none, some, List, [], ◌∷◌, length}

-- The list behind `freeNodeHeader`, and the bases of the blocks behind `memBlockHeader`.
pub record MemPool : Type 0 where
  pub free_nodes : List ℕ
  pub blocks : List ℕ

abbrev pub empty : MemPool
empty = record { free_nodes = []; blocks = [] }

-- The nodes of a block, each linked to the next one.
abbrev pub chain : ℕ → ℕ → List ℕ
chain base zero = []
chain base (suc n) = base ∷ chain (base + 1) n

-- `malloc` takes the first free node, of a new block where none is free. A block without nodes is
-- an array of length 0, of which the code takes the first element.
unfoldable pub malloc : ℕ → MemPool → Option (ℕ × MemPool)
malloc num_of_objects s = elim s.free_nodes [
  | p ∷ rest ↦ some (p, record s { free_nodes = rest })
  | [] ↦
      let base = length s.blocks * num_of_objects in
      elim (chain base num_of_objects) [
        | p ∷ rest ↦ some (p, record { free_nodes = rest; blocks = base ∷ s.blocks })
        | [] ↦ none
      ]
]

unfoldable pub free : ℕ → MemPool → MemPool
free p s = record s { free_nodes = p ∷ s.free_nodes }
