-- ===== src/BasicString/Defs.antt =====
-- cpp/string/my_string.cpp, class basic_string<char>. A buffer is the list of its bytes, `none` for
-- one that was never written; a pointer into it is an offset. An operation returns `none` where an
-- assertion fails, the behaviour is undefined, or a loop has used up its fuel.
use language_test.Prelude.{
  ℕ, zero, suc, ◌+◌, ◌-◌, ◌*◌, ◌%◌, ◌^◌, Bool, true, false, not, ◌&&◌, Option, none, some, List, [],
  ◌∷◌, ◌==◌, ltb, leb, if◌then◌else◌, ◌>>=◌, length, get_elem?, set, drop, replicate,
}

abbrev pub Buffer : Type 0
Buffer = List (Option ℕ)

-- `buffer` is what `_begin` points to; `end` is `_end - _begin`. `live` counts the buffers that
-- were allocated through the object and not freed.
pub record BasicString : Type 0 where
  pub buffer : Buffer
  pub end : ℕ
  pub capacity : ℕ
  pub live : ℕ

abbrev pub npos : ℕ
npos = 2 ^ 64 - 1

abbrev pub string_init_size : ℕ
string_init_size = 8

-- `get_realloc_size`: `while (res <= len) res *= 2;` on a size_t.
unfoldable pub double_above : ℕ → ℕ → ℕ → Option ℕ
double_above zero res len = none
double_above (suc fuel) res len =
    let rest = double_above fuel (res * 2 % 2 ^ 64) len in if leb res len then rest else some res

abbrev pub get_realloc_size : ℕ → Option ℕ
get_realloc_size len = double_above 62 string_init_size len

-- `_alloc.allocate(n)`
abbrev pub allocate : ℕ → Buffer
allocate n = replicate n none

-- `deallocate`, on an object that owns `owned` buffers: 0 where `_begin` is NULL, else 1.
abbrev pub deallocate : ℕ → BasicString → BasicString
deallocate owned s = record {
  buffer = allocate string_init_size;
  end = 0;
  capacity = string_init_size;
  live = s.live - owned + 1;
}

-- `realloc` overwrites `_begin` with a new buffer.
unfoldable pub realloc : ℕ → ℕ → BasicString → Option BasicString
realloc owned len s = get_realloc_size len >>= λ alloc_len. some (record {
  buffer = allocate alloc_len;
  end = 0;
  capacity = alloc_len;
  live = (deallocate owned s).live + 1;
})

-- `strlen`, which reads up to a zero.
unfoldable pub strlen : Buffer → Option ℕ
strlen [] = none
strlen (none ∷ bs) = none
strlen (some zero ∷ bs) = some 0
strlen (some (suc c) ∷ bs) = strlen bs >>= λ n. some (suc n)

-- `_alloc.construct(_begin + cur, c)`
abbrev pub construct : ℕ → Option ℕ → Buffer → Option Buffer
construct cur c b = if ltb cur (length b) then some (set b cur c) else none

-- The loops of `append_data` that copy `len` bytes to `cur`.
unfoldable pub copy : ℕ → Buffer → ℕ → Buffer → Option Buffer
copy zero input cur b = some b
copy (suc len) [] cur b = none
copy (suc len) (c ∷ input) cur b = construct cur c b >>= copy len input (cur + 1)

-- The three last statements of `append_data`.
abbrev pub terminate : ℕ → BasicString → Option BasicString
terminate cur s =
    construct cur (some 0) s.buffer >>= λ b. some (record s { buffer = b; end = cur + 1 })

-- `append_data` from its test on, with a known length.
unfoldable pub append_bytes : Buffer → ℕ → ℕ → BasicString → Option BasicString
append_bytes input copy_start len s =
    let need_size = copy_start + len + 1 in
    if ltb s.capacity need_size
    then (get_realloc_size need_size >>= λ alloc_len. copy len input 0 (allocate alloc_len) >>= λ b.
        terminate len
          (record { buffer = b; end = 0; capacity = alloc_len; live = (deallocate 1 s).live + 1 }))
    else (copy len input copy_start s.buffer >>= λ b.
        terminate (copy_start + len) (record s { buffer = b }))

unfoldable pub append_data : Buffer → ℕ → ℕ → BasicString → Option BasicString
append_data input copy_start len s =
    if leb copy_start s.end
    then (if len == npos
        then (strlen input >>= λ n. append_bytes input copy_start n s)
        else append_bytes input copy_start len s)
    else none

-- The object before its constructor runs, `_begin` NULL.
abbrev pub unset : BasicString
unset = record { buffer = []; end = 0; capacity = 0; live = 0 }

unfoldable pub empty : Option BasicString
empty = realloc 0 string_init_size unset

-- `basic_string(T *input)`
unfoldable pub from_chars : Buffer → Option BasicString
from_chars input = empty >>= append_data input 0 npos

-- `basic_string(T t, size_t n)` and `basic_string(T t)`
unfoldable pub fill : ℕ → ℕ → Option BasicString
fill t n = realloc 0 n unset

abbrev pub from_char : ℕ → Option BasicString
from_char t = fill t 1

-- `operator=` and `operator+` of another object. Both lack a return, so a call flows off their end.
unfoldable pub assign_from : BasicString → BasicString → Option BasicString
assign_from str s = realloc 1 string_init_size s >>= append_data str.buffer 0 npos >>= λ r. none

unfoldable pub concat : BasicString → BasicString → Option BasicString
concat str s = append_data str.buffer s.end npos s >>= λ r. none

unfoldable pub size : BasicString → ℕ
size s = if s.end == 0 then 0 else s.end - 1

-- `at` and `operator[]`: an assertion, then a read.
unfoldable pub at : ℕ → BasicString → Option ℕ
at index s = if ltb index (size s) then (get_elem? s.buffer index >>= λ c. c) else none

unfoldable pub substr : ℕ → ℕ → BasicString → Option BasicString
substr pos len s = empty >>= λ res.
    let n = if len == npos then size s else len in
    realloc 1 (n + 1) res >>= append_data (drop pos s.buffer) 0 n

-- `operator==`: the loop from `i` on.
unfoldable pub equal_from : ℕ → ℕ → BasicString → BasicString → Option Bool
equal_from zero i a b = none
equal_from (suc fuel) i a b =
    let rest = equal_from fuel (i + 1) a b in
    if ltb i (size a)
    then (at i a >>= λ x. at i b >>= λ y. if x == y then rest else some false)
    else some true

unfoldable pub equal : BasicString → BasicString → Option Bool
equal a b = if size a == size b then equal_from (size a + 1) 0 a b else some false

-- `operator<`: its loop does not change `i`.
unfoldable pub less_from : ℕ → ℕ → BasicString → BasicString → Option Bool
less_from zero i a b = none
less_from (suc fuel) i a b =
    let rest = less_from fuel i a b in
    if ltb i (size a) && ltb i (size b)
    then (at i a >>= λ x.
        at i b >>= λ y. if ltb y x then some true else if ltb x y then some false else rest)
    else some (ltb (size b) (size a))

unfoldable pub not_equal : BasicString → BasicString → Option Bool
not_equal a b = equal a b >>= λ r. some (not r)

-- `operator>` calls itself.
unfoldable pub greater : ℕ → BasicString → BasicString → Option Bool
greater zero a b = none
greater (suc fuel) a b = greater fuel a b >>= λ r. some (not r)

-- `find`: the inner loop from `j` on says whether it returns, the outer one goes on from `i`. Its
-- bound is a size_t.
unfoldable pub match_from : ℕ → ℕ → ℕ → BasicString → BasicString → Option Bool
match_from zero j i input s = none
match_from (suc fuel) j i input s =
    let rest = match_from fuel (j + 1) i input s in
    if ltb j (size input)
    then (at (i + j) s >>= λ x. at j input >>= λ y.
        if x == y then if j == size input - 1 then some true else rest else some false)
    else some false

unfoldable pub find_from : ℕ → ℕ → BasicString → BasicString → Option (Option ℕ)
find_from zero i input s = none
find_from (suc fuel) i input s =
    let rest = find_from fuel (i + 1) input s in
    if ltb i ((size s + 2 ^ 64 - size input + 1) % 2 ^ 64)
    then (match_from (size input + 1) 0 i input s >>= λ r. if r then some (some i) else rest)
    else some none

-- No value is the result -1. Past the end of `s` an assertion fails.
unfoldable pub find : BasicString → BasicString → Option (Option ℕ)
find input s = find_from (size s + 2) 0 input s
