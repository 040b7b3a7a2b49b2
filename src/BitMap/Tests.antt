-- ===== src/BitMap/Tests.antt =====
-- cpp/algorithm/bitMap.cpp, class BitMap: small maps, and the theorems there.
use language_test.Prelude.{◌≡◌, refl, true, false, some, [], ◌∷◌, ◌>>=◌, arith, Returns}
use language_test.BitMap.Defs.{
  new, get, set_true, set_false, set_index, set_number, set_bit, get_bit,
}
use language_test.BitMap.Laws.{Sets, new-get, set_index-Sets}

set_index-Sets_example : Returns (set_index (new 16) 9 true) (Sets (new 16) 9 true)
set_index-Sets_example = set_index-Sets (new 16) 9 true (new-get 16).0 (omega arith)

set_and_get : (set_bit (new 64) 2 3 true >>= λ m. get m 19) ≡ some true
unfolding set_bit set_index set_true get
set_and_get = refl

set_and_clear :
    (set_index (new 8) 1 true >>= λ m. set_index m 1 false >>= λ n. some n.bytes) ≡ some (0 ∷ [])
unfolding set_index set_true set_false get
set_and_clear = refl

number_and_get : (set_number (new 64) 7 128 >>= λ m. get_bit m 7 0) ≡ some true
unfolding set_number get_bit get
number_and_get = refl
