-- ===== src/Search/Window.antt =====
-- cpp/search/binarySearch.cpp: the part of a sorted vector that can still hold the key.
use language_test.Prelude.{
  ℕ, ◌+◌, ◌<◌, ◌≤◌, ◌≡◌, ◌≢◌, Option, none, some, List, length, arith, le_or_lt, inl, inr,
}
use language_test.Vector.{value, IsSorted}

-- What a search answers: where the key is, or that it is nowhere.
abbrev pub Finds : List ℕ → ℕ → Option ℕ → Type 0
Finds vec key none = (i : ℕ) → i < length vec → value vec i ≢ key
Finds vec key (some i) = (i < length vec) × (value vec i ≡ key)

-- What is left of `low` is below the key, and what is right of `end` is above it.
pub record Window (vec : List ℕ) (key low end : ℕ) : Type 0 where
  pub bounded : end ≤ length vec
  below : (i : ℕ) → i < low → i < length vec → value vec i < key
  above : (i : ℕ) → end ≤ i → i < length vec → key < value vec i

pub whole-Window : (vec : List ℕ) (key : ℕ) → Window vec key 0 (length vec)
whole-Window vec key = record {
  bounded = omega arith;
  below = λ i h k. absurd (omega (arith, h));
  above = λ i h k. absurd (omega (arith, h, k));
}

module _ (vec : List ℕ) (sorted : IsSorted vec) (key low end mid : ℕ) (w : Window vec key low end)
    (l : mid < end) where
  pub right-Window : value vec mid < key → Window vec key (mid + 1) end
  right-Window h = record {
    bounded = w.bounded;
    below =
        λ i p q. omega (arith, h, sorted i mid (omega (arith, p)) (omega (arith, l, w.bounded)));
    above = w.above;
  }

  pub left-Window : key < value vec mid → Window vec key low mid
  left-Window h = record {
    bounded = omega (arith, l, w.bounded);
    below = w.below;
    above = λ i p q. omega (arith, h, sorted mid i p q);
  }

pub empty-Finds :
    (vec : List ℕ) (key low end : ℕ) → Window vec key low end → end ≤ low → Finds vec key none
empty-Finds vec key low end w h i k = elim (le_or_lt low i) [
  | inl p ↦ λ e. omega (arith, e, w.above i (omega (arith, h, p)) k)
  | inr p ↦ λ e. omega (arith, e, w.below i p k)
]
