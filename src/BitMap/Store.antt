-- ===== src/BitMap/Store.antt =====
-- cpp/algorithm/bitMap.cpp, class BitMap: valid maps, reads of a bit and writes of a byte.
use language_test.Prelude.{
  ℕ, ◌*◌, ◌/◌, ◌%◌, ◌<◌, ◌≡◌, ◌≢◌, refl, sym, ◌∙◌, Bool, true, Bool-cases, inl, inr, some, ◌==◌,
  ltb, leb, length, length-set, arith, Returns,
}
use language_test.Vector.{value, get_elem?-value, value-set_self, value-set_ne}
use language_test.BitMap.Defs.{BitMap, test, get, write}

-- The array has `charSize` bytes.
pub record IsBitMap (m : BitMap) : Type 0 where
  pub sized : length m.bytes ≡ m.char_size
  pub small : (i : ℕ) → i < m.char_size → value m.bytes i < 256

-- The bit at k.
abbrev pub bit : BitMap → ℕ → Bool
bit m k = test (value m.bytes (k / 8)) (k % 8)

pub get-bit : (m : BitMap) (k : ℕ) → IsBitMap m → k < m.char_size * 8 → get m k ≡ some (bit m k)
unfolding get
get-bit m k w h =
    let e : leb (k / 8) m.char_size ≡ true = ground (arith, h) in
    rw (e, get_elem?-value m.bytes (k / 8) (omega (arith, h, w.sized))) refl

-- `n` is `m` with the byte at `addr` replaced.
pub record Stores (m : BitMap) (addr byte : ℕ) (n : BitMap) : Type 0 where
  pub valid : IsBitMap n
  pub kept_size : n.char_size ≡ m.char_size
  pub here : value n.bytes addr ≡ byte
  pub others : (i : ℕ) → i ≢ addr → value n.bytes i ≡ value m.bytes i

pub write-Stores :
    (m : BitMap) (addr byte : ℕ)
    → IsBitMap m
    → addr < m.char_size
    → byte < 256
    → Returns (write m addr byte) (Stores m addr byte)
write-Stores m addr byte w h b =
    let l : addr < length m.bytes = omega (arith, h, w.sized) in
    let e : ltb addr (length m.bytes) ≡ true = ground (arith, l) in
    let self = value-set_self m.bytes addr byte l in
    rw e (record {
      valid = record {
        sized = length-set m.bytes addr byte ∙ w.sized;
        small = λ i p. elim (Bool-cases (i == addr)) [
          | inl q ↦ let o : i ≡ addr = ground (arith, q) in rw o (omega (arith, self, b))
          | inr q ↦
              omega
                (arith, value-set_ne m.bytes addr i byte (λ o. ground (arith, q, o)), w.small i p)
        ];
      };
      kept_size = refl;
      here = self;
      others = λ i q. value-set_ne m.bytes addr i byte (λ o. q (sym o));
    })
