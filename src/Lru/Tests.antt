-- ===== src/Lru/Tests.antt =====
-- cpp/linux/LRU_template.cpp: the run of its main, and the theorems at concrete caches.
use language_test.Prelude.{ℕ, List, ◌≡◌, refl, arith, some, [], ◌∷◌, ◌>>=◌, Returns}
use language_test.Lru.Defs.{Cell, LruCache, new, get, put}
use language_test.Lru.Recency.{store, touch, lookup, or_else}
use language_test.Lru.Cells.{pairs, addr_of}
use language_test.Lru.Laws.{IsValid, get-touch, put-store}

-- The cache of capacity 2 after `put(1, 10)` and `put(2, 20)`.
abbrev two : LruCache ℕ
two = record { cap = 2; count = 2; fresh = 2; m = λ k. addr_of k cells; list = cells }
  where
    cells : List (Cell ℕ)
    cells = record { addr = 1; key = 2; value = 20 } ∷ record { addr = 0; key = 1; value = 10 } ∷ []

abbrev two-IsValid : IsValid two
two-IsValid = record {
  linked = (omega arith, refl, refl, (omega arith, refl, refl, tt));
  points = λ k. refl;
  counted = refl;
  bounded = omega arith;
}

put-store_example :
    Returns
      (put 3 30 two)
      (λ r. IsValid r × (r.cap ≡ two.cap) × (pairs r.list ≡ store two.cap 3 30 (pairs two.list)))
put-store_example = put-store 3 30 two two-IsValid (omega arith)

get-touch_example : Returns (get 0 1 two) (λ r.
    IsValid r.1
    × (r.1.cap ≡ two.cap)
    × (r.0 ≡ or_else 0 (lookup 1 (pairs two.list)))
    × (pairs r.1.list ≡ touch 1 (pairs two.list)))
get-touch_example = get-touch 0 1 two two-IsValid

-- `main`: the pair of 2 goes when 3 is put, after 1 was read.
evicted :
    ((put {V = ℕ} 1 10 (new 2) >>= put 2 20 >>= get 0 1) >>= λ r.
    put 3 30 r.1 >>= λ c. some (pairs c.list))
    ≡ some ((3, 30) ∷ (1, 10) ∷ [])
unfolding put get
evicted = refl
