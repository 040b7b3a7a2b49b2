-- ===== src/Sorts/Merge/Run.antt =====
-- cpp/sort/mergeSort.cpp: `Merge` on a vector cut into parts.
use language_test.Prelude.{
  ℕ, zero, suc, ◌+◌, ◌-◌, ◌<◌, ◌≡◌, refl, sym, ap, ◌∙◌, true, false, Bool-cases, ◌&&◌, inl, inr,
  some, List, [], ◌∷◌, ◌++◌, append-nil, append_assoc, get_elem?, length, length-append, ltb, leb,
  ◌>>=◌, arith, Returns, Returns-imp, Returns-bind,
}
use language_test.Sorts.Merge.{copy_range, merge_loop, write_back, merge}
use language_test.Sorts.Merge.Lists.{
  Merged, Merged-left, Merged-right, Merged-cons_left, Merged-cons_right, get_elem?-append,
  set-append, append_snoc, length-snoc,
}

-- The elements of `vec` from i up to j are s.
pub record Part (vec : List ℕ) (i j : ℕ) (s : List ℕ) : Type 0 where
  pub before : List ℕ
  pub after : List ℕ
  pub cut : vec ≡ before ++ (s ++ after)
  pub start : i ≡ length before
  pub stop : j ≡ i + length s

module _ (vec : List ℕ) (i j x : ℕ) (s : List ℕ) (p : Part vec i j (x ∷ s)) where
  Part-read : get_elem? vec i ≡ some x
  Part-read = rw (p.cut, p.start) (get_elem?-append p.before (s ++ p.after) x)

  Part-tail : Part vec (i + 1) j s
  Part-tail = record {
    before = p.before ++ x ∷ [];
    after = p.after;
    cut = p.cut ∙ append_snoc p.before (s ++ p.after) x;
    start = omega (arith, p.start, length-snoc p.before x);
    stop = omega (arith, p.stop);
  }

copy_range-Part :
    (s : List ℕ) (vec : List ℕ) (i j : ℕ) (temp : List ℕ)
    → Part vec i j s
    → copy_range (j - i) i vec temp ≡ some (temp ++ s)
unfolding copy_range
copy_range-Part [] vec i j temp p =
    let e : j - i ≡ 0 = omega (arith, p.stop) in rw e (ap (λ t. some t) (sym (append-nil temp)))
copy_range-Part (x ∷ s) vec i j temp p =
    let e : j - i ≡ suc (j - (i + 1)) = omega (arith, p.stop) in
    rw (e, Part-read vec i j x s p)
      (copy_range-Part s vec (i + 1) j (temp ++ x ∷ []) (Part-tail vec i j x s p)
        ∙ ap (λ t. some t) (append_assoc temp (x ∷ []) s))

-- The result is the old list with a merge of l and r behind it.
abbrev pub Appends : List ℕ → List ℕ → List ℕ → List ℕ → Type 0
Appends temp l r t = (out : List ℕ) × (t ≡ temp ++ out) × Merged l r out

Appends-cons :
    (temp l r l' r' : List ℕ) (x : ℕ) (t : List ℕ)
    → ((out : List ℕ) → Merged l' r' out → Merged l r (x ∷ out))
    → Appends (temp ++ x ∷ []) l' r' t
    → Appends temp l r t
Appends-cons temp l r l' r' x t f (out, e, m) =
    (x ∷ out, e ∙ append_assoc temp (x ∷ []) out, f out m)

-- One of the two parts is used up.
drain :
    (l r vec : List ℕ) (left mid right end : ℕ) (temp : List ℕ)
    → Part vec left mid l
    → Part vec right end r
    → Merged l r (l ++ r)
    → Returns
        (copy_range (mid - left) left vec temp >>= λ t. copy_range (end - right) right vec t)
        (Appends temp l r)
drain l r vec left mid right end temp p q m =
    rw (copy_range-Part l vec left mid temp p, copy_range-Part r vec right end (temp ++ l) q)
      (l ++ r, append_assoc temp l r, m)

merge_loop-Appends :
    (fuel : ℕ) (l r vec : List ℕ) (left mid right end : ℕ) (temp : List ℕ)
    → length l + length r < fuel
    → Part vec left mid l
    → Part vec right end r
    → Returns (merge_loop fuel vec left mid right end temp) (Appends temp l r)
unfolding merge_loop
merge_loop-Appends zero l r vec left mid right end temp f p q = absurd (omega arith)
merge_loop-Appends (suc fuel) [] r vec left mid right end temp f p q =
    let e : (ltb left mid && ltb right end) ≡ false = ground (arith, p.stop) in
    rw e (drain [] r vec left mid right end temp p q (Merged-right r))
merge_loop-Appends (suc fuel) (x ∷ l) [] vec left mid right end temp f p q =
    let e : (ltb left mid && ltb right end) ≡ false = ground (arith, q.stop) in
    let m : Merged (x ∷ l) [] ((x ∷ l) ++ []) = rw (append-nil l) (Merged-left (x ∷ l)) in
    rw e (drain (x ∷ l) [] vec left mid right end temp p q m)
merge_loop-Appends (suc fuel) (x ∷ l) (y ∷ r) vec left mid right end temp f p q =
    let e : (ltb left mid && ltb right end) ≡ true = ground (arith, p.stop, q.stop) in
    let a = Part-read vec left mid x l p in
    let b = Part-read vec right end y r q in
    elim (Bool-cases (leb y x)) [
      | inl c ↦
          rw (e, a, b, c)
            (Returns-imp (merge_loop fuel vec left mid (right + 1) end (temp ++ y ∷ []))
              (Appends (temp ++ y ∷ []) (x ∷ l) r) (Appends temp (x ∷ l) (y ∷ r))
              (merge_loop-Appends fuel (x ∷ l) r vec left mid (right + 1) end (temp ++ y ∷ [])
                (omega arith) p (Part-tail vec right end y r q))
              (λ t h.
                Appends-cons temp (x ∷ l) (y ∷ r) (x ∷ l) r y t
                  (λ out m. Merged-cons_right x y l r out (ground (arith, c)) m) h))
      | inr c ↦
          rw (e, a, b, c)
            (Returns-imp (merge_loop fuel vec (left + 1) mid right end (temp ++ x ∷ []))
              (Appends (temp ++ x ∷ []) l (y ∷ r)) (Appends temp (x ∷ l) (y ∷ r))
              (merge_loop-Appends fuel l (y ∷ r) vec (left + 1) mid right end (temp ++ x ∷ [])
                (omega arith) (Part-tail vec left mid x l p) q)
              (λ t h.
                Appends-cons temp (x ∷ l) (y ∷ r) l (y ∷ r) x t
                  (λ out m. Merged-cons_left x y l r out (ground (arith, c)) m) h))
    ]

write_back-append :
    (temp s before after : List ℕ)
    → length temp ≡ length s
    → write_back temp (length before) (before ++ (s ++ after)) ≡ some (before ++ (temp ++ after))
unfolding write_back
write_back-append [] [] before after h = refl
write_back-append [] (y ∷ s) before after h = absurd (omega arith)
write_back-append (x ∷ temp) [] before after h = absurd (omega arith)
write_back-append (x ∷ temp) (y ∷ s) before after h =
    let vec = before ++ y ∷ (s ++ after) in
    let e : ltb (length before) (length vec) ≡ true =
      ground (arith, length-append before (y ∷ (s ++ after))) in
    let o : length before + 1 ≡ length (before ++ x ∷ []) = sym (length-snoc before x) in
    rw (e, set-append before (s ++ after) y x, o, append_snoc before (s ++ after) x)
      (write_back-append temp s (before ++ x ∷ []) after (omega arith)
        ∙ ap (λ v. some v) (sym (append_snoc before (temp ++ after) x)))

-- `Merge` replaces the two parts by their merge.
pub merge-Merged :
    (before l r after : List ℕ) (left mid end : ℕ)
    → left ≡ length before
    → mid ≡ left + length l
    → end ≡ mid + length r
    → Returns
        (merge (before ++ ((l ++ r) ++ after)) left mid end)
        (λ v. (out : List ℕ) × (v ≡ before ++ (out ++ after)) × Merged l r out)
unfolding merge
merge-Merged before l r after left mid end a b c =
    let vec = before ++ ((l ++ r) ++ after) in
    let p : Part vec left mid l = record {
      before = before;
      after = r ++ after;
      cut = ap (λ s. before ++ s) (append_assoc l r after);
      start = a;
      stop = b;
    } in
    let q : Part vec mid end r = record {
      before = before ++ l;
      after = after;
      cut =
          ap (λ s. before ++ s) (append_assoc l r after) ∙ sym (append_assoc before l (r ++ after));
      start = omega (arith, a, b, length-append before l);
      stop = c;
    } in
    Returns-bind (merge_loop (end - left + 1) vec left mid mid end [])
      (λ temp. write_back temp left vec) (Appends [] l r)
      (λ v. (out : List ℕ) × (v ≡ before ++ (out ++ after)) × Merged l r out)
      (merge_loop-Appends (end - left + 1) l r vec left mid mid end [] (omega (arith, b, c)) p q)
      (λ temp (out, e, m).
        let size : length out ≡ length (l ++ r) = m.same.0 in
        rw (e, a, write_back-append out (l ++ r) before after size) (out, refl, m))
