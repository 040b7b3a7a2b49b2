-- ===== src/BasicString/Buffer.antt =====
-- cpp/string/my_string.cpp: what the loops of `append_data` write to a buffer.
use language_test.Prelude.{
  ℕ, zero, suc, ◌<◌, ◌≡◌, refl, ap, Option, some, List, [], ◌∷◌, ◌++◌, append_assoc, ltb, true,
  arith, length, set, length-append,
}
use language_test.BasicString.Defs.{Buffer, strlen, construct, copy}

-- Bytes that were written.
abbrev pub chars : List ℕ → Buffer
chars [] = []
chars (c ∷ cs) = some c ∷ chars cs

pub length-chars : (cs : List ℕ) → length (chars cs) ≡ length cs
length-chars [] = refl
length-chars (c ∷ cs) = ap suc (length-chars cs)

pub chars-append : (cs ds : List ℕ) → chars (cs ++ ds) ≡ chars cs ++ chars ds
chars-append [] ds = refl
chars-append (c ∷ cs) ds = ap (λ b. some c ∷ b) (chars-append cs ds)

-- A text without zeros, which a C string can be.
abbrev pub IsText : List ℕ → Type 0
IsText [] = Unit
IsText (c ∷ cs) = (0 < c) × IsText cs

pub strlen-chars :
    (cs : List ℕ) (rest : Buffer)
    → IsText cs
    → strlen (chars cs ++ some 0 ∷ rest) ≡ some (length cs)
unfolding strlen
strlen-chars [] rest t = refl
strlen-chars (zero ∷ cs) rest t = elim t.0 [ ]
strlen-chars (suc c ∷ cs) rest t = rw (strlen-chars cs rest t.1) refl

pub split_at :
    (n : ℕ) (b : Buffer)
    → n < length b
    → (old : Buffer) × (o : Option ℕ) × (post : Buffer) × (b ≡ old ++ o ∷ post) × (length old ≡ n)
split_at n [] h = elim h [ ]
split_at zero (x ∷ b) h = ([], x, b, refl, refl)
split_at (suc n) (x ∷ b) h =
    let (old, o, post, e, l) = split_at n b (omega arith) in
    (x ∷ old, o, post, ap (λ y. x ∷ y) e, ap suc l)

set-append :
    (pre : Buffer) (o c : Option ℕ) (post : Buffer)
    → set (pre ++ o ∷ post) (length pre) c ≡ pre ++ c ∷ post
set-append [] o c post = refl
set-append (x ∷ pre) o c post = ap (λ b. x ∷ b) (set-append pre o c post)

pub construct-append :
    (pre : Buffer) (o c : Option ℕ) (post : Buffer)
    → construct (length pre) c (pre ++ o ∷ post) ≡ some (pre ++ c ∷ post)
construct-append pre o c post =
    let e : ltb (length pre) (length (pre ++ o ∷ post)) ≡ true =
      ground (arith, length-append pre (o ∷ post)) in
    rw (e, set-append pre o c post) refl

pub copy-append :
    (cs : List ℕ) (rest pre old post : Buffer)
    → length old ≡ length cs
    → copy (length cs) (chars cs ++ rest) (length pre) (pre ++ (old ++ post))
      ≡ some (pre ++ (chars cs ++ post))
unfolding copy
copy-append [] rest pre [] post l = refl
copy-append [] rest pre (o ∷ old) post l = absurd (omega arith)
copy-append (c ∷ cs) rest pre [] post l = absurd (omega arith)
copy-append (c ∷ cs) rest pre (o ∷ old) post l =
    let i = copy-append cs rest (pre ++ some c ∷ []) old post (omega arith) in
    rw (construct-append pre o (some c) (old ++ post))
      (simp (append_assoc, length-append pre (some c ∷ [])) at i)
