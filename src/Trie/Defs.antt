-- ===== src/Trie/Defs.antt =====
-- cpp/race/Trie.cpp. A letter is its distance from 'a', and `maxn`, which the file leaves to its
-- reader, is the number of letters. A pointer is the tree at it. `none` is undefined behaviour (an index
-- out of bounds, a null pointer that is followed), or a count that would get below zero.
use language_test.Prelude.{
  length, ℕ, ◌+◌, ◌-◌, Bool, true, false, not, Option, none, some, List, [], ◌∷◌, ◌++◌, ◌==◌, ltb,
  if◌then◌else◌, ◌>>=◌,
}

pub data Trie : Type 0 where
  null : Trie
  node : (cnt : ℕ) (next : ℕ → Trie) → Trie

abbrev pub new_trie : Trie
new_trie = Trie.node 0 (λ x. Trie.null)

abbrev pub is_null : Trie → Bool
is_null Trie.null = true
is_null (Trie.node cnt next) = false

-- `tem->next[x] = t`
abbrev pub link : (ℕ → Trie) → ℕ → Trie → ℕ → Trie
link next x t = λ y. if y == x then t else next y

-- `tem->cnt++` of the child, which is made where there was none.
abbrev pub counted : Trie → Trie
counted Trie.null = Trie.node 1 (λ x. Trie.null)
counted (Trie.node cnt next) = Trie.node (cnt + 1) next

unfoldable pub insert : ℕ → List ℕ → Trie → Option Trie
insert maxn word Trie.null = none
insert maxn [] (Trie.node cnt next) = some (Trie.node cnt next)
insert maxn (x ∷ word) (Trie.node cnt next) =
    let rest = insert maxn word (counted (next x)) in
    if ltb x maxn then (rest >>= λ t. some (Trie.node cnt (link next x t))) else none

unfoldable pub search : ℕ → List ℕ → Trie → Option ℕ
search maxn word Trie.null = none
search maxn [] (Trie.node cnt next) = some cnt
search maxn (x ∷ word) (Trie.node cnt next) =
    let rest = search maxn word (next x) in
    if ltb x maxn then (if is_null (next x) then some 0 else rest) else none

-- `(tem->cnt) -= t`
abbrev pub uncounted : ℕ → Trie → Option Trie
uncounted t Trie.null = none
uncounted t (Trie.node cnt next) = if ltb cnt t then none else some (Trie.node (cnt - t) next)

unfoldable pub delete : ℕ → List ℕ → ℕ → Trie → Option Trie
delete maxn word t Trie.null = none
delete maxn [] t (Trie.node cnt next) = some (Trie.node cnt (λ x. Trie.null))
delete maxn (x ∷ word) t (Trie.node cnt next) =
    if ltb x maxn
    then (uncounted t (next x) >>= λ c.
        delete maxn word t c >>= λ d. some (Trie.node cnt (link next x d)))
    else none

-- A line of the input, whose first word is shorter than 50 characters.
pub data Command : Type 0 where
  adds : List ℕ → Command
  asks : List ℕ → Command
  removes : List ℕ → Command

-- A round of the loop of `main`, with what it prints: true for Yes, false for No.
unfoldable pub execute : ℕ → Command → Trie → Option (Trie × List Bool)
execute maxn (Command.adds word) root = insert maxn word root >>= λ t. some (t, [])
execute maxn (Command.asks word) root =
    search maxn word root >>= λ n. some (root, not (n == 0) ∷ [])
execute maxn (Command.removes word) root = search maxn word root >>= λ n.
    if n == 0 then some (root, []) else (delete maxn word n root >>= λ t. some (t, []))

abbrev pub word_of : Command → List ℕ
word_of (Command.adds word) = word
word_of (Command.asks word) = word
word_of (Command.removes word) = word

-- The loop of `main`, whose scanf writes past the end of `char str2[50]` where a word has 50 letters.
unfoldable pub run : ℕ → List Command → Trie → Option (List Bool)
run maxn [] root = some []
run maxn (c ∷ commands) root =
    if ltb (length (word_of c)) 50
    then (execute maxn c root >>= λ r. run maxn commands (r.0) >>= λ printed. some (r.1 ++ printed))
    else none
