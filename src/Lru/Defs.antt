-- ===== src/Lru/Defs.antt =====
-- cpp/linux/LRU_template.cpp, class LRUCache<int, VALUE>: a list of pairs in the order of use, and
-- a map from keys to iterators of that list. An iterator is the address of a list node, and every
-- push_front takes a fresh address. The map is a function; `none` stands for m.end() there and for
-- undefined behaviour in a result.
use language_test.Prelude.{
  ℕ, suc, ◌+◌, Option, none, some, List, [], ◌∷◌, ◌==◌, if◌then◌else◌, ◌>>=◌,
}

pub record Cell (V : Type 0) : Type 0 where
  pub addr : ℕ
  pub key : ℕ
  pub value : V

-- `fresh` is the address of the next node.
pub record LruCache (V : Type 0) : Type 0 where
  pub cap : ℕ
  pub count : ℕ
  pub fresh : ℕ
  pub m : ℕ → Option ℕ
  pub list : List (Cell V)

module _ {V : Type 0} where
  -- What an iterator points to; one to an erased node points to nothing.
  abbrev pub deref : ℕ → List (Cell V) → Option (Cell V)
  deref a [] = none
  deref a (c ∷ cs) = if c.addr == a then some c else deref a cs

  -- `list.erase`
  abbrev pub erase : ℕ → List (Cell V) → List (Cell V)
  erase a [] = []
  erase a (c ∷ cs) = if c.addr == a then cs else c ∷ erase a cs

  -- `list.back` and `list.pop_back`
  abbrev pub back : List (Cell V) → Option (Cell V)
  back [] = none
  back (c ∷ []) = some c
  back (c ∷ d ∷ cs) = back (d ∷ cs)

  abbrev pub pop_back : List (Cell V) → List (Cell V)
  pop_back [] = []
  pop_back (c ∷ []) = []
  pop_back (c ∷ d ∷ cs) = c ∷ pop_back (d ∷ cs)

-- `m[key] = a` and `m.erase(key)`
abbrev pub assign : ℕ → ℕ → (ℕ → Option ℕ) → ℕ → Option ℕ
assign key a m k = if key == k then some a else m k

abbrev pub unmap : ℕ → (ℕ → Option ℕ) → ℕ → Option ℕ
unmap key m k = if key == k then none else m k

module _ {V : Type 0} where
  abbrev pub new : ℕ → LruCache V
  new capacity = record { cap = capacity; count = 0; fresh = 0; m = λ k. none; list = [] }

  -- The two last statements of `get` and `put`, after which the list is `rest`.
  abbrev pub push_front : LruCache V → ℕ → V → (ℕ → Option ℕ) → List (Cell V) → ℕ → LruCache V
  push_front c key value m rest count = record {
    cap = c.cap;
    count = count;
    fresh = suc c.fresh;
    m = assign key c.fresh m;
    list = record { addr = c.fresh; key = key; value = value } ∷ rest;
  }

  -- `missing` is VALUE("null").
  unfoldable pub get : V → ℕ → LruCache V → Option (V × LruCache V)
  get missing key c = elim (c.m key) [
    | none ↦ some (missing, c)
    | some p ↦ deref p c.list >>= λ d.
        some (d.value, push_front c key d.value c.m (erase p c.list) c.count)
  ]

  unfoldable pub put : ℕ → V → LruCache V → Option (LruCache V)
  put key value c = elim (c.m key) [
    | some p ↦ some (push_front c key value c.m (erase p c.list) c.count)
    | none ↦
        if c.count == c.cap
        then (back c.list >>= λ d.
            some (push_front c key value (unmap d.key c.m) (pop_back c.list) c.count))
        else some (push_front c key value c.m c.list (c.count + 1))
  ]
