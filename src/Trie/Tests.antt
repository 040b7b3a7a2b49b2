-- ===== src/Trie/Tests.antt =====
-- cpp/race/Trie.cpp: a session with three words, and the theorem there.
use language_test.Prelude.{◌≡◌, refl, arith, true, false, some, List, [], ◌∷◌}
use language_test.Trie.Defs.{new_trie, Command, run, execute, insert, search, delete}
use language_test.Trie.Laws.{IsWord, AllCommands, answers, run-answers}

-- Add ab, add ac, ask for a, remove ab, ask for ab, ask for ac.
abbrev session : List Command
session =
    Command.adds (0 ∷ 1 ∷ [])
    ∷ Command.adds (0 ∷ 2 ∷ [])
    ∷ Command.asks (0 ∷ [])
    ∷ Command.removes (0 ∷ 1 ∷ [])
    ∷ Command.asks (0 ∷ 1 ∷ [])
    ∷ Command.asks (0 ∷ 2 ∷ [])
    ∷ []

ab-IsWord : IsWord 26 (0 ∷ 1 ∷ [])
ab-IsWord = (omega arith, omega arith, (omega arith, (omega arith, tt)))

ac-IsWord : IsWord 26 (0 ∷ 2 ∷ [])
ac-IsWord = (omega arith, omega arith, (omega arith, (omega arith, tt)))

session-AllCommands : AllCommands 26 session
session-AllCommands = (
  ab-IsWord,
  (
    ac-IsWord,
    ((omega arith, omega arith, (omega arith, tt)), (ab-IsWord, (ab-IsWord, (ac-IsWord, tt)))),
  ),
)

run-answers_example : run 26 session new_trie ≡ some (answers [] session)
run-answers_example = run-answers 26 session session-AllCommands

printed : run 26 session new_trie ≡ some (true ∷ false ∷ true ∷ [])
unfolding run execute insert search delete
printed = refl
