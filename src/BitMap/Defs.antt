-- ===== src/BitMap/Defs.antt =====
-- cpp/algorithm/bitMap.cpp, class BitMap. `bytes` is the array `data`. Indices are not negative, and
-- `none` is a failed assert or an access out of bounds.
use Prim.Native.Nat.{bit_and, bit_or, bit_xor}
use language_test.Prelude.{
  ℕ, ◌+◌, ◌-◌, ◌*◌, ◌/◌, ◌%◌, ◌^◌, Bool, Option, none, some, List, ltb, leb, if◌then◌else◌, ◌>>=◌,
  get_elem?, set, length, replicate,
}

pub record BitMap : Type 0 where
  pub bytes : List ℕ
  pub char_size : ℕ
  pub size : ℕ

-- The constructor from a size: the array is filled with 0.
abbrev pub new : ℕ → BitMap
new size = record { bytes = replicate (size / 8) 0; char_size = size / 8; size = size }

-- `0x1 << (7 - addroffset)` in a uint8_t.
abbrev pub mask : ℕ → ℕ
mask offset = 2 ^ (7 - offset) % 2 ^ 8

-- `(data[addr] & temp) > 0`
abbrev pub test : ℕ → ℕ → Bool
test byte offset = ltb 0 (bit_and byte (mask offset))

unfoldable pub get : BitMap → ℕ → Option Bool
get m index =
    if leb (index / 8) m.char_size
    then (get_elem? m.bytes (index / 8) >>= λ byte. some (test byte (index % 8)))
    else none

-- A write of `data[addr]`.
abbrev pub write : BitMap → ℕ → ℕ → Option BitMap
write m addr byte =
    if ltb addr (length m.bytes) then some (record m { bytes = set m.bytes addr byte }) else none

unfoldable pub set_true : BitMap → ℕ → Option BitMap
set_true m index =
    if leb (index / 8) (m.char_size + 1)
    then (get_elem? m.bytes (index / 8) >>= λ byte.
        write m (index / 8) (bit_or byte (mask (index % 8))))
    else none

unfoldable pub set_false : BitMap → ℕ → Option BitMap
set_false m index = get m index >>= λ status.
    if status
    then if leb (index / 8) m.char_size
      then (get_elem? m.bytes (index / 8) >>= λ byte.
          write m (index / 8) (bit_xor byte (mask (index % 8))))
      else none
    else some m

-- `set(int, bool)`
unfoldable pub set_index : BitMap → ℕ → Bool → Option BitMap
set_index m index status = if status then set_true m index else set_false m index

-- `set(int, int, bool)`
unfoldable pub set_bit : BitMap → ℕ → ℕ → Bool → Option BitMap
set_bit m char_id bit_id status = set_index m (char_id * 8 + bit_id) status

-- `get(int, int)`
unfoldable pub get_bit : BitMap → ℕ → ℕ → Option Bool
get_bit m char_id bit_id = get m (char_id * 8 + bit_id)

unfoldable pub set_number : BitMap → ℕ → ℕ → Option BitMap
set_number m index number = write m index number
