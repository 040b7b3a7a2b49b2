-- ===== src/BasicString/Laws.antt =====
-- cpp/string/my_string.cpp: what a string holds after each operation.
use mathlib.Core.Path.{subst}
use language_test.Prelude.{
  ℕ, ◌+◌, ◌-◌, ◌*◌, ◌^◌, ◌<◌, ◌≤◌, ◌≡◌, ◌⊎◌, inl, inr, refl, sym, ap, ◌∙◌, Option, none, some, List,
  [], ◌∷◌, ◌++◌, append_assoc, ltb, leb, true, false, if◌then◌else◌, ◌>>=◌, arith, length,
  length-append, length-replicate, Returns, Returns-bind, Returns-imp, le_or_lt,
}
use language_test.BasicString.Defs.{
  Buffer, BasicString, npos, allocate, copy, terminate, construct, append_bytes, append_data,
  realloc, double_above, get_realloc_size, from_chars, empty, append_data, string_init_size, npos,
}
use language_test.BasicString.Alloc.{get_realloc_size-bound}
use language_test.BasicString.Buffer.{
  chars, length-chars, chars-append, IsText, strlen-chars, split_at, construct-append, copy-append,
}

-- The buffer has the bytes `cs`, a zero and `rest`; `end` stands behind the zero.
pub record Holds (s : BasicString) (cs : List ℕ) : Type 0 where
  pub rest : Buffer
  pub bytes : s.buffer ≡ chars cs ++ some 0 ∷ rest
  pub ended : s.end ≡ length cs + 1
  pub sized : length s.buffer ≡ s.capacity

-- Bytes and a zero are written behind `pre` where there is room.
write :
    (pre : List ℕ) (cs : List ℕ) (input : Buffer) (s : BasicString) (tail : Buffer)
    → s.buffer ≡ chars pre ++ tail
    → length s.buffer ≡ s.capacity
    → length cs < length tail
    → Returns
        (copy (length cs) (chars cs ++ input) (length pre) s.buffer >>= λ b.
          terminate (length pre + length cs) (record s { buffer = b }))
        (λ r. Holds r (pre ++ cs) × (r.capacity ≡ s.capacity) × (r.live ≡ s.live))
write pre cs input s tail e n l =
    let (old, o, post, f, k) = split_at (length cs) tail l in
    let c = copy-append cs input (chars pre) old (o ∷ post) k in
    let d = construct-append (chars (pre ++ cs)) o (some 0) post in
    let g = chars-append pre cs in
    let h : length (chars (pre ++ cs)) ≡ length pre + length cs =
      length-chars (pre ++ cs) ∙ length-append pre cs in
    let b : s.buffer ≡ chars pre ++ (old ++ o ∷ post) = e ∙ ap (λ t. chars pre ++ t) f in
    let c' : copy (length cs) (chars cs ++ input) (length pre) s.buffer
        ≡ some (chars (pre ++ cs) ++ o ∷ post) =
      rw (b, sym (length-chars pre), g, append_assoc (chars pre) (chars cs) (o ∷ post)) c in
    let d' : construct (length pre + length cs) (some 0) (chars (pre ++ cs) ++ o ∷ post)
        ≡ some (chars (pre ++ cs) ++ some 0 ∷ post) =
      rw (sym h) d in
    rw (c', d')
      (
        record {
          rest = post;
          bytes = refl;
          ended = omega (arith, length-append pre cs);
          sized = omega (
            arith,
            length-append (chars (pre ++ cs)) (some 0 ∷ post),
            h,
            n,
            ap (λ t. length t) b,
            length-append (chars pre) (old ++ o ∷ post),
            length-append old (o ∷ post),
            length-chars pre,
            k,
          );
        },
        refl,
        refl,
      )

module _ (pre cs : List ℕ) (rest : Buffer) (s : BasicString) (tail : Buffer) (text : IsText cs)
    (split : s.buffer ≡ chars pre ++ tail) (sized : length s.buffer ≡ s.capacity)
    (inside : length pre ≤ s.end) where
  -- `append_data` of a C string at an offset, where it fits: what stands before stays.
  append_data-fits :
      length pre + length cs + 1 ≤ s.capacity
      → Returns
          (append_data (chars cs ++ some 0 ∷ rest) (length pre) npos s)
          (λ r. Holds r (pre ++ cs) × (r.capacity ≡ s.capacity) × (r.live ≡ s.live))
  unfolding append_data append_bytes
  append_data-fits fits =
      let i : leb (length pre) s.end ≡ true = ground (arith, inside) in
      let f : ltb s.capacity (length pre + length cs + 1) ≡ false = ground (arith, fits) in
      let l : length cs < length tail = omega (
        arith,
        fits,
        sized,
        ap (λ t. length t) split,
        length-append (chars pre) tail,
        length-chars pre,
      ) in
      rw (i, strlen-chars cs rest text, f) (write pre cs (some 0 ∷ rest) s tail split sized l)

  -- Where it does not fit, the new buffer has the C string only.
  append_data-grows :
      s.capacity < length pre + length cs + 1
      → 2 * (length pre + length cs + 1) < 2 ^ 64
      → Returns (append_data (chars cs ++ some 0 ∷ rest) (length pre) npos s) (λ r.
        Holds r cs × (length pre + length cs + 1 < r.capacity) × (r.live ≡ s.live - 1 + 1 + 1))
  unfolding append_data append_bytes
  append_data-grows grows small =
      let i : leb (length pre) s.end ≡ true = ground (arith, inside) in
      let f : ltb s.capacity (length pre + length cs + 1) ≡ true = ground (arith, grows) in
      rw (i, strlen-chars cs rest text, f)
        (Returns-bind (get_realloc_size (length pre + length cs + 1)) _
          (λ n.
            (length pre + length cs + 1 < n) × ((n ≡ 8) ⊎ (n ≤ 2 * (length pre + length cs + 1))))
          _ (get_realloc_size-bound (length pre + length cs + 1) small)
          (λ n p.
            let t : BasicString = record {
              buffer = allocate n;
              end = 0;
              capacity = n;
              live = s.live - 1 + 1 + 1;
            } in
            Returns-imp _ (λ r. Holds r cs × (r.capacity ≡ n) × (r.live ≡ s.live - 1 + 1 + 1))
              (λ r.
                Holds r cs
                × (length pre + length cs + 1 < r.capacity)
                × (r.live ≡ s.live - 1 + 1 + 1))
              (let z : 0 + length cs ≡ length cs = omega arith in
                subst
                  (λ m.
                    Returns
                      (copy (length cs) (chars cs ++ some 0 ∷ rest) 0 (allocate n) >>= λ b.
                        terminate m (record t { buffer = b }))
                      (λ r. Holds r cs × (r.capacity ≡ n) × (r.live ≡ s.live - 1 + 1 + 1)))
                  z
                  (write [] cs (some 0 ∷ rest) t (allocate n) refl (length-replicate n none)
                    (omega (arith, p.0, length-replicate {A = Option ℕ} n none))))
              (λ r q. (q.0, omega (arith, p.0, q.1), q.2))))

-- A new buffer of 16 bytes, as `realloc(STRING_INIT_SIZE)` leaves it, and then a C string.
start :
    (cs : List ℕ) (rest : Buffer) (s : BasicString)
    → s.buffer ≡ allocate s.capacity
    → IsText cs
    → 2 * (length cs + 1) < 2 ^ 64
    → Returns (append_data (chars cs ++ some 0 ∷ rest) 0 npos s) (λ r. Holds r cs)
start cs rest s e t small =
    let n : length s.buffer ≡ s.capacity =
      ap (λ b. length b) e ∙ length-replicate s.capacity none in
    elim (le_or_lt (length cs + 1) s.capacity) [
      | inl l ↦
          Returns-imp _ (λ r. Holds r cs × (r.capacity ≡ s.capacity) × (r.live ≡ s.live)) _
            (append_data-fits [] cs rest s s.buffer t refl n (omega arith) (omega (arith, l)))
            (λ r q. q.0)
      | inr g ↦
          Returns-imp _
            (λ r. Holds r cs × (0 + length cs + 1 < r.capacity) × (r.live ≡ s.live - 1 + 1 + 1)) _
            (append_data-grows [] cs rest s s.buffer t refl n (omega arith) (omega (arith, g))
              (omega (arith, small)))
            (λ r q. q.0)
    ]

-- The 16 bytes that `realloc(STRING_INIT_SIZE)` allocates.
abbrev fresh : ℕ → BasicString
fresh live = record { buffer = allocate 16; end = 0; capacity = 16; live = live }

-- A string made from a C string holds its bytes.
pub from_chars-Holds :
    (cs : List ℕ) (rest : Buffer)
    → IsText cs
    → 2 * (length cs + 1) < 2 ^ 64
    → Returns (from_chars (chars cs ++ some 0 ∷ rest)) (λ r. Holds r cs)
unfolding from_chars empty realloc double_above
from_chars-Holds cs rest t small = start cs rest (fresh 2) refl t small

-- What `operator=` from another string without inner zeros does up to its end: it copies its bytes,
-- whatever this string held.
pub realloc-append_data :
    (cs : List ℕ) (str s : BasicString)
    → Holds str cs
    → IsText cs
    → 2 * (length cs + 1) < 2 ^ 64
    → Returns (realloc 1 string_init_size s >>= append_data str.buffer 0 npos) (λ r. Holds r cs)
unfolding realloc double_above
realloc-append_data cs str s h t small =
    rw h.bytes (start cs h.rest (fresh (s.live - 1 + 1 + 1)) refl t small)

-- `append_data` at the end of a string, the call that `operator+` makes, of another string without inner
-- zeros, of lengths below half of a size_t: where the bytes fit the buffer they stand behind the zero
-- that ended this string, and where they do not the old bytes are lost.
pub append_data-Holds :
    (cs ds : List ℕ) (str s : BasicString)
    → Holds s cs
    → Holds str ds
    → IsText ds
    → 2 * (length cs + length ds + 2) < 2 ^ 64
    → Returns
        (append_data str.buffer s.end npos s)
        (λ r. Holds r (if ltb s.capacity (length cs + length ds + 2) then ds else cs ++ 0 ∷ ds))
append_data-Holds cs ds str s h k t small =
    let pre = cs ++ 0 ∷ [] in
    let z : s.buffer ≡ chars pre ++ h.rest =
      rw (h.bytes, chars-append cs (0 ∷ []), append_assoc (chars cs) (some 0 ∷ []) h.rest) refl in
    let l : length pre ≡ s.end = omega (arith, length-append cs (0 ∷ []), h.ended) in
    simp (k.bytes, ← l)
      (elim (le_or_lt (length pre + length ds + 1) s.capacity) [
        | inl f ↦
            let e : ltb s.capacity (length cs + length ds + 2) ≡ false =
              ground (arith, f, length-append cs (0 ∷ [])) in
            rw e (
              Returns-imp _
                (λ r. Holds r (pre ++ ds) × (r.capacity ≡ s.capacity) × (r.live ≡ s.live)) _
                (append_data-fits pre ds k.rest s h.rest t z h.sized (omega (arith, l)) f)
                (λ r q. rw (sym (append_assoc cs (0 ∷ []) ds)) q.0))
        | inr g ↦
            let e : ltb s.capacity (length cs + length ds + 2) ≡ true =
              ground (arith, g, length-append cs (0 ∷ [])) in
            rw e (
              Returns-imp _
                (λ r.
                  Holds r ds
                  × (length pre + length ds + 1 < r.capacity)
                  × (r.live ≡ s.live - 1 + 1 + 1))
                _
                (append_data-grows pre ds k.rest s h.rest t z h.sized (omega (arith, l)) g
                  (omega (arith, small, length-append cs (0 ∷ []))))
                (λ r q. q.0))
      ])
