-- ===== src/Kmp/Defs.antt =====
-- cpp/string/kmp.cpp. A string is the list of its characters before the null character, so that
-- `s[i] != '\0'` says that i is below the length. `none` is an access out of bounds, or fuel that ran out.
use language_test.Prelude.{
  ℕ, zero, suc, ◌+◌, ◌-◌, ◌*◌, ◌&&◌, Option, none, some, List, ◌==◌, ltb, if◌then◌else◌, ◌>>=◌,
  get_elem?, set, replicate, length,
}
use language_test.Prelude.Int.{ℤ, pos, negsuc}

abbrev pub index : ℤ → Option ℕ
index (pos n) = some n
index (negsuc n) = none

-- `while (k > 0 && T[i - 1] != T[k]) k = next[k];`
unfoldable pub fall : ℕ → List ℕ → List ℤ → ℕ → ℕ → Option ℕ
fall zero t next x k = none
fall (suc fuel) t next x k =
    if ltb 0 k
    then (get_elem? t k >>= λ y.
        if x == y
        then some k
        else (get_elem? next k >>= λ v. index v >>= λ k'. fall fuel t next x k'))
    else some k

-- n rounds of the loop of `getNext`.
unfoldable pub next_from : ℕ → ℕ → List ℕ → ℕ → List ℤ → Option (List ℤ)
next_from zero i t k next = some next
next_from (suc n) i t k next = get_elem? t (i - 1) >>= λ x. fall (k + 1) t next x k >>= λ k1.
    get_elem? t k1 >>= λ y.
    next_from n (i + 1) t (if x == y then k1 + 1 else k1)
      (set next i (pos (if x == y then k1 + 1 else k1)))

unfoldable pub get_next : List ℕ → Option (List ℤ)
get_next t =
    if ltb 0 (length t)
    then next_from (length t - 2) 2 t 0 (set (replicate (length t) (pos 0)) 0 (negsuc 0))
    else none

-- `j = next[j]` and the test for -1 after it.
abbrev pub fallen : ℤ → ℕ → Option (ℕ × ℕ)
fallen (pos j) i = some (i, j)
fallen (negsuc zero) i = some (i + 1, 0)
fallen (negsuc (suc n)) i = none

unfoldable pub match_loop : ℕ → List ℕ → List ℕ → List ℤ → ℕ → ℕ → Option (ℕ × ℕ)
match_loop zero s t next i j = none
match_loop (suc fuel) s t next i j =
    if ltb i (length s) && ltb j (length t)
    then (get_elem? s i >>= λ x. get_elem? t j >>= λ y.
        if x == y
        then match_loop fuel s t next (i + 1) (j + 1)
        else (get_elem? next j >>= λ v. fallen v i >>= λ p. match_loop fuel s t next (p.0) (p.1)))
    else some (i, j)

unfoldable pub kmp : List ℕ → List ℕ → Option ℤ
kmp s t = get_next t >>= λ next. match_loop (2 * length s + 1) s t next 0 0 >>= λ p.
    some (if p.1 == length t then pos (p.0 - p.1) else negsuc 0)
