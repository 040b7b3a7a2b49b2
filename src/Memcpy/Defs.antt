-- ===== src/Memcpy/Defs.antt =====
-- cpp/string/memcpy.cpp. A memory gives the byte at each address, and 0 is nullptr. The ranges that
-- are read and written are the caller's. `none` is a failed assert.
use language_test.Prelude.{
  ℕ, zero, suc, ◌+◌, ◌-◌, ◌||◌, Option, none, some, ◌==◌, leb, if◌then◌else◌,
}

abbrev pub Memory : Type 0
Memory = ℕ → ℕ

abbrev pub write : Memory → ℕ → ℕ → Memory
write mem p v = λ a. if a == p then v else mem a

-- `while (n--) *(p++) = *(q++);`
unfoldable pub copy_up : ℕ → ℕ → ℕ → Memory → Memory
copy_up zero p q mem = mem
copy_up (suc n) p q mem = copy_up n (p + 1) (q + 1) (write mem p (mem q))

-- `while (n--) *(p--) = *(q--);`
unfoldable pub copy_down : ℕ → ℕ → ℕ → Memory → Memory
copy_down zero p q mem = mem
copy_down (suc n) p q mem = copy_down n (p - 1) (q - 1) (write mem p (mem q))

-- The result is the pointer that is returned, and the memory. The size is not negative.
unfoldable pub memcpy1 : ℕ → ℕ → ℕ → Memory → ℕ × Memory
memcpy1 dest src size mem =
    if dest == 0 || src == 0 then (0, mem) else (dest, copy_up size dest src mem)

unfoldable pub my_memcpy : ℕ → ℕ → ℕ → Memory → Option (ℕ × Memory)
my_memcpy dest src n mem =
    if dest == 0 || src == 0
    then none
    else if leb dest src || leb (src + n) dest
    then some (dest, copy_up n dest src mem)
    else some (dest, copy_down n (dest + n - 1) (src + n - 1) mem)
