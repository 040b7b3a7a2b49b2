-- ===== src/Trie/Laws.antt =====
-- cpp/race/Trie.cpp: the program answers as a list of words does.
use language_test.Prelude.{
  true, ltb, ℕ, ◌+◌, ◌<◌, ◌≡◌, refl, sym, ap, ◌∙◌, Bool, not, Bool-cases, inl, inr, some, List, [],
  ◌∷◌, ◌++◌, ◌==◌, length, arith, Returns, Returns-bind, Returns-some,
}
use language_test.Trie.Defs.{Trie, new_trie, insert, search, delete, Command, word_of, execute, run}
use language_test.Trie.Words.{prefix, matches, remove, left_over, matches_mono, matches-remove}
use language_test.Trie.Nodes.{
  look, Letters, search-look, hit, Counts, insert-Counts, cut, delete-Counts,
}

-- A string that scanf reads is not empty; it fits into 50 characters with the null character, and
-- its letters are below `maxn`.
abbrev pub IsWord : ℕ → List ℕ → Type 0
IsWord maxn w = (0 < length w) × (length w < 50) × Letters maxn w

abbrev pub IsCommand : ℕ → Command → Type 0
IsCommand maxn (Command.adds w) = IsWord maxn w
IsCommand maxn (Command.asks w) = IsWord maxn w
IsCommand maxn (Command.removes w) = IsWord maxn w

abbrev pub AllCommands : ℕ → List Command → Type 0
AllCommands maxn [] = Unit
AllCommands maxn (c ∷ commands) = IsCommand maxn c × AllCommands maxn commands

-- The dictionary as the list of its words.
abbrev pub changed : List (List ℕ) → Command → List (List ℕ)
changed ws (Command.adds w) = w ∷ ws
changed ws (Command.asks w) = ws
changed ws (Command.removes w) = remove w ws

-- Yes where some word starts with the one that is asked for.
abbrev pub answer : List (List ℕ) → Command → List Bool
answer ws (Command.adds w) = []
answer ws (Command.asks w) = not (matches w ws == 0) ∷ []
answer ws (Command.removes w) = []

abbrev pub answers : List (List ℕ) → List Command → List Bool
answers ws [] = []
answers ws (c ∷ commands) = answer ws c ++ answers (changed ws c) commands

-- Nothing is counted at the root.
abbrev total : List (List ℕ) → List ℕ → ℕ
total ws [] = 0
total ws (y ∷ v) = matches (y ∷ v) ws

abbrev Represents : Trie → List (List ℕ) → Type 0
Represents t ws = Counts t (total ws)

new-Represents : Represents new_trie []
new-Represents = record { there = refl; looks = zeros }
  where
    zeros : (v : List ℕ) → look new_trie v ≡ total [] v
    zeros [] = refl
    zeros (y ∷ v) = refl

search-matches :
    (maxn : ℕ) (w : List ℕ) (t : Trie) (ws : List (List ℕ))
    → IsWord maxn w
    → Represents t ws
    → search maxn w t ≡ some (matches w ws)
search-matches maxn [] t ws h c = absurd (omega (arith, h.0))
search-matches maxn (x ∷ w) t ws h c =
    search-look maxn (x ∷ w) t h.2 c.there ∙ ap (λ n. some n) (c.looks (x ∷ w))

added : (w : List ℕ) (ws : List (List ℕ)) (v : List ℕ) → total ws v + hit v w ≡ total (w ∷ ws) v
added w ws [] = refl
added w ws (y ∷ v) = omega arith

-- Where no word starts with w, there is nothing to remove.
none_left :
    (w : List ℕ) (ws : List (List ℕ)) (v : List ℕ)
    → matches w ws ≡ 0
    → total ws v ≡ total (remove w ws) v
none_left w ws [] h = refl
none_left w ws (y ∷ v) h =
    let r : matches (y ∷ v) (remove w ws) ≡ left_over w 0 (y ∷ v) (matches (y ∷ v) ws) =
      matches-remove (y ∷ v) w ws ∙ ap (λ n. left_over w n (y ∷ v) (matches (y ∷ v) ws)) h in
    elim (Bool-cases (prefix (y ∷ v) w)) [
      | inl e ↦ omega (arith, rw e at r)
      | inr e ↦ elim (Bool-cases (prefix w (y ∷ v))) [
        | inl f ↦ omega (arith, rw (e, f) at r, matches_mono w (y ∷ v) ws f, h)
        | inr f ↦ sym (rw (e, f) at r)
      ]
    ]

removed :
    (w : List ℕ) (ws : List (List ℕ)) (v : List ℕ)
    → cut w (matches w ws) v (total ws v) ≡ total (remove w ws) v
removed w ws [] = refl
removed w ws (y ∷ v) = sym (matches-remove (y ∷ v) w ws)

-- A round of the loop of `main` does to the tree what it does to the list.
execute-Represents :
    (maxn : ℕ) (c : Command) (t : Trie) (ws : List (List ℕ))
    → IsCommand maxn c
    → Represents t ws
    → Returns (execute maxn c t) (λ r. Represents (r.0) (changed ws c) × (r.1 ≡ answer ws c))
unfolding execute
execute-Represents maxn (Command.adds w) t ws h r =
    Returns-bind (insert maxn w t) (λ u. some (u, [])) (λ u. Counts u (λ v. look t v + hit v w))
      (λ o. Represents (o.0) (w ∷ ws) × (o.1 ≡ [])) (insert-Counts maxn w t h.2 r.there)
      (λ u c. (
        record {
          there = c.there;
          looks = λ v. c.looks v ∙ ap (λ n. n + hit v w) (r.looks v) ∙ added w ws v;
        },
        refl,
      ))
execute-Represents maxn (Command.asks w) t ws h r = rw (search-matches maxn w t ws h r) (r, refl)
execute-Represents maxn (Command.removes w) t ws h r =
    let n = matches w ws in
    elim (Bool-cases (n == 0)) [
      | inl e ↦
          rw (search-matches maxn w t ws h r, e)
            (
              record {
                there = r.there;
                looks = λ v. r.looks v ∙ none_left w ws v (ground (arith, e));
              },
              refl,
            )
      | inr e ↦
          rw (search-matches maxn w t ws h r, e)
            (Returns-bind (delete maxn w n t) (λ u. some (u, []))
              (λ u. Counts u (λ v. cut w n v (look t v)))
              (λ o. Represents (o.0) (remove w ws) × (o.1 ≡ []))
              (delete-Counts maxn w n t h.2 r.there (ground (arith, e))
                (λ y v p. rw (r.looks (y ∷ v)) (matches_mono (y ∷ v) w ws p)))
              (λ u c. (
                record {
                  there = c.there;
                  looks = λ v. c.looks v ∙ ap (cut w n v) (r.looks v) ∙ removed w ws v;
                },
                refl,
              )))
    ]

IsCommand-short : (maxn : ℕ) (c : Command) → IsCommand maxn c → length (word_of c) < 50
IsCommand-short maxn (Command.adds w) h = h.1
IsCommand-short maxn (Command.asks w) h = h.1
IsCommand-short maxn (Command.removes w) h = h.1

run-from :
    (maxn : ℕ) (commands : List Command) (t : Trie) (ws : List (List ℕ))
    → AllCommands maxn commands
    → Represents t ws
    → run maxn commands t ≡ some (answers ws commands)
unfolding run
run-from maxn [] t ws h r = refl
run-from maxn (c ∷ commands) t ws h r =
    let (o, e, (r', a)) =
      Returns-some (execute maxn c t) (λ o. Represents o.0 (changed ws c) × (o.1 ≡ answer ws c))
        (execute-Represents maxn c t ws h.0 r) in
    let b : ltb (length (word_of c)) 50 ≡ true = ground (arith, IsCommand-short maxn c h.0) in
    rw (b, e, run-from maxn commands o.0 (changed ws c) (h.1) r', a) refl

-- On any sequence of insertions, questions and deletions of words over the alphabet, each of at least one
-- and less than 50 letters, the program prints what a list of words gives: Yes where some word starts
-- with the one that is asked for, a deletion being that of all words that start with the given one. No
-- null pointer is followed, no index is out of bounds and no count gets below zero.
pub run-answers :
    (maxn : ℕ) (commands : List Command)
    → AllCommands maxn commands
    → run maxn commands new_trie ≡ some (answers [] commands)
run-answers maxn commands h = run-from maxn commands new_trie [] h new-Represents
