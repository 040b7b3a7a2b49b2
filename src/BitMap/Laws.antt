-- ===== src/BitMap/Laws.antt =====
-- cpp/algorithm/bitMap.cpp, class BitMap: writes and reads of bits.
use Prim.Native.Nat.{bit_or, bit_xor}
use language_test.Prelude.{
  ℕ, zero, suc, ◌+◌, ◌*◌, ◌/◌, ◌%◌, ◌<◌, ◌≤◌, ◌≡◌, refl, ap, ◌∙◌, Bool, true, false, Bool-cases,
  inl, inr, none, some, List, [], ◌∷◌, ◌==◌, leb, if◌then◌else◌, get_elem?, length, replicate,
  length-replicate, arith, Returns, Returns-imp,
}
use language_test.Vector.{value, get_elem?-value}
use language_test.BitMap.Defs.{
  BitMap, new, mask, test, get, write, set_true, set_false, set_index, set_number,
}
use language_test.BitMap.Bytes.{bit_or-test, bit_xor-test, test-zero}
use language_test.BitMap.Store.{IsBitMap, bit, get-bit, Stores, write-Stores}

-- `n` is `m` with the bit at `index` put to `s`.
pub record Sets (m : BitMap) (index : ℕ) (s : Bool) (n : BitMap) : Type 0 where
  pub valid : IsBitMap n
  pub kept_size : n.char_size ≡ m.char_size
  pub reads : (k : ℕ) → k < m.char_size * 8 → get n k ≡ (if k == index then some s else get m k)

Stores-Sets :
    (m : BitMap) (index byte : ℕ) (s : Bool) (n : BitMap)
    → IsBitMap m
    → Stores m (index / 8) byte n
    → ((p : ℕ)
        → p < 8
        → test byte p ≡ (if p == index % 8 then s else test (value m.bytes (index / 8)) p))
    → Sets m index s n
Stores-Sets m index byte s n w t f = record {
  valid = t.valid;
  kept_size = t.kept_size;
  reads = λ k h.
      rw (get-bit n k t.valid (rw (t.kept_size) h), get-bit m k w h)
        (elim (Bool-cases (k / 8 == index / 8)) [
          | inl a ↦
              let a' : k / 8 ≡ index / 8 = ground (arith, a) in
              elim (Bool-cases (k == index)) [
                | inl e ↦
                    let o : (k % 8 == index % 8) ≡ true = ground (arith, e) in
                    rw (a', t.here, f (k % 8) (omega arith), o, e) refl
                | inr e ↦
                    let o : (k % 8 == index % 8) ≡ false = ground (arith, e, a') in
                    rw (a', t.here, f (k % 8) (omega arith), o, e) refl
              ]
          | inr a ↦
              let e : (k == index) ≡ false = ground (arith, a) in
              rw (t.others (k / 8) (λ q. ground (arith, q, a)), e) refl
        ]);
}

module _ (m : BitMap) (index : ℕ) (w : IsBitMap m) (h : index < m.char_size * 8) where
  byte_read : get_elem? m.bytes (index / 8) ≡ some (value m.bytes (index / 8))
  byte_read = get_elem?-value m.bytes (index / 8) (omega (arith, h, w.sized))

  byte_small : value m.bytes (index / 8) < 256
  byte_small = w.small (index / 8) (omega (arith, h))

  write-Sets :
      (byte : ℕ) (s : Bool)
      → byte < 256
      → ((p : ℕ)
          → p < 8
          → test byte p ≡ (if p == index % 8 then s else test (value m.bytes (index / 8)) p))
      → Returns (write m (index / 8) byte) (Sets m index s)
  write-Sets byte s b f =
      Returns-imp (write m (index / 8) byte) (Stores m (index / 8) byte) (Sets m index s)
        (write-Stores m (index / 8) byte w (omega (arith, h)) b)
        (λ n t. Stores-Sets m index byte s n w t f)

  set_true-Sets : Returns (set_true m index) (Sets m index true)
  unfolding set_true
  set_true-Sets =
      let e : leb (index / 8) (m.char_size + 1) ≡ true = ground (arith, h) in
      let x = value m.bytes (index / 8) in
      let law = λ (p : ℕ) (q : p < 8). bit_or-test (index % 8) p x (omega arith) q byte_small in
      rw (e, byte_read)
        (write-Sets (bit_or x (mask (index % 8))) true (law 0 (omega arith)).1 (λ p q. (law p q).0))

  -- A bit that is false stays.
  false-Sets : bit m index ≡ false → Sets m index false m
  false-Sets f = record {
    valid = w;
    kept_size = refl;
    reads = λ k l. elim (Bool-cases (k == index)) [
      | inl e ↦
          let o : k ≡ index = ground (arith, e) in
          rw (e, o) (get-bit m index w h ∙ ap (λ b. some b) f)
      | inr e ↦ rw e refl
    ];
  }

  set_false-Sets : Returns (set_false m index) (Sets m index false)
  unfolding set_false
  set_false-Sets =
      let e : leb (index / 8) m.char_size ≡ true = ground (arith, h) in
      let x = value m.bytes (index / 8) in
      elim (Bool-cases (bit m index)) [
        | inl b ↦
            let law =
              λ (p : ℕ) (q : p < 8). bit_xor-test (index % 8) p x (omega arith) q byte_small b in
            rw (get-bit m index w h, b, e, byte_read)
              (write-Sets (bit_xor x (mask (index % 8))) false (law 0 (omega arith)).1
                (λ p q. (law p q).0))
        | inr b ↦ rw (get-bit m index w h, b) (false-Sets b)
      ]

-- On a valid map `set` of an index below 8 charSize succeeds and leaves a valid map of the same size;
-- then `get` of that index gives the status that was set, and `get` of another gives what it gave.
pub set_index-Sets :
    (m : BitMap) (index : ℕ) (s : Bool)
    → IsBitMap m
    → index < m.char_size * 8
    → Returns (set_index m index s) (Sets m index s)
unfolding set_index
set_index-Sets m index true w h = set_true-Sets m index w h
set_index-Sets m index false w h = set_false-Sets m index w h

-- `n` is `m` with the 8 bits of the byte c those of `number`.
pub record SetsByte (m : BitMap) (c number : ℕ) (n : BitMap) : Type 0 where
  valid : IsBitMap n
  kept_size : n.char_size ≡ m.char_size
  reads :
      (k : ℕ)
      → k < m.char_size * 8
      → get n k ≡ (if k / 8 == c then some (test number (k % 8)) else get m k)

-- On a valid map `setNumber` of a byte below charSize succeeds: then `get` of its 8 indices gives the
-- bits of the number, the highest first, and `get` of another index gives what it gave.
pub set_number-SetsByte :
    (m : BitMap) (c number : ℕ)
    → IsBitMap m
    → c < m.char_size
    → number < 256
    → Returns (set_number m c number) (SetsByte m c number)
unfolding set_number
set_number-SetsByte m c number w h b =
    Returns-imp (write m c number) (Stores m c number) (SetsByte m c number)
      (write-Stores m c number w h b)
      (λ n t. record {
        valid = t.valid;
        kept_size = t.kept_size;
        reads = λ k l.
            rw (get-bit n k t.valid (rw (t.kept_size) l), get-bit m k w l)
              (elim (Bool-cases (k / 8 == c)) [
                | inl e ↦ let o : k / 8 ≡ c = ground (arith, e) in rw (o, t.here) (ground arith)
                | inr e ↦ rw (t.others (k / 8) (λ q. ground (arith, q, e)), e) refl
              ]);
      })

value-replicate : (n i : ℕ) → value (replicate n 0) i ≡ 0
value-replicate zero i = refl
value-replicate (suc n) zero = refl
value-replicate (suc n) (suc i) = value-replicate n i

pub new-IsBitMap : (size : ℕ) → IsBitMap (new size)
new-IsBitMap size = record {
  sized = length-replicate (size / 8) 0;
  small = λ i h. omega (arith, value-replicate (size / 8) i);
}

-- The constructor gives a valid map, where every bit below 8 (size / 8) reads false.
pub new-get :
    (size : ℕ) → IsBitMap (new size) × ((k : ℕ) → k < size / 8 * 8 → get (new size) k ≡ some false)
new-get size = (
  new-IsBitMap size,
  λ k h.
      get-bit (new size) k (new-IsBitMap size) h
      ∙ ap (λ x. some (test x (k % 8))) (value-replicate (size / 8) (k / 8))
      ∙ ap (λ b. some b) (test-zero (k % 8) (omega arith)),
)

get_elem?-none : (xs : List ℕ) (i : ℕ) → length xs ≤ i → get_elem? xs i ≡ none
get_elem?-none [] i h = refl
get_elem?-none (x ∷ xs) zero h = absurd (omega arith)
get_elem?-none (x ∷ xs) (suc i) h = get_elem?-none xs i (omega arith)

-- On a valid map `get` and `set` of an index from 8 charSize on fail an assert or go out of bounds.
pub outside-none :
    (m : BitMap) (index : ℕ) (s : Bool)
    → IsBitMap m
    → m.char_size * 8 ≤ index
    → (get m index ≡ none) × (set_index m index s ≡ none)
unfolding get set_index set_true set_false
outside-none m index s w h =
    let e : get_elem? m.bytes (index / 8) ≡ none =
      get_elem?-none m.bytes (index / 8) (omega (arith, w.sized, h)) in
    (
      rw e (ground arith),
      elim (Bool-cases s) [ inl q ↦ rw (q, e) (ground arith) | inr q ↦ rw (q, e) (ground arith) ],
    )
