-- ===== src/Memcpy/Tests.antt =====
-- cpp/string/memcpy.cpp: overlapping copies, and the theorem there.
use language_test.Prelude.{ℕ, ◌≡◌, refl, arith, List, [], ◌∷◌, some, ◌>>=◌, Returns}
use language_test.Memcpy.Defs.{Memory, memcpy1, my_memcpy, copy_up, copy_down}
use language_test.Memcpy.Laws.{Copies, my_memcpy-Copies}

-- The byte at each address is the address.
abbrev addresses : Memory
addresses a = a

abbrev seen : Memory → List ℕ
seen mem = mem 10 ∷ mem 11 ∷ mem 12 ∷ mem 13 ∷ []

my_memcpy-Copies_example :
    Returns (my_memcpy 11 10 3 addresses) (λ r. (r.0 ≡ 11) × Copies 11 10 3 addresses (r.1))
my_memcpy-Copies_example = my_memcpy-Copies 11 10 3 addresses (omega arith) (omega arith)

moved_up : (my_memcpy 11 10 3 addresses >>= λ r. some (seen (r.1))) ≡ some (10 ∷ 10 ∷ 11 ∷ 12 ∷ [])
unfolding my_memcpy copy_down
moved_up = refl

-- `memcpy1` writes the first byte over the others.
smeared : seen ((memcpy1 11 10 3 addresses).1) ≡ 10 ∷ 10 ∷ 10 ∷ 10 ∷ []
unfolding memcpy1 copy_up
smeared = refl
