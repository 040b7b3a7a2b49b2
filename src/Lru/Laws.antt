-- ===== src/Lru/Laws.antt =====
-- cpp/linux/LRU_template.cpp: `get` and `put` against the abstract cache of Recency.
use language_test.Prelude.{
  ℕ, suc, ◌+◌, ◌-◌, ◌<◌, ◌≤◌, ◌≡◌, take_all, refl, sym, ap, ◌∙◌, arith, Bool-cases, Option-cases,
  inl, inr, false, Option, none, some, List, [], ◌∷◌, ◌==◌, if◌then◌else◌, length, take, ◌>>=◌,
  Returns, Returns-bind, Returns-imp,
}
use language_test.Lru.Defs.{Cell, LruCache, erase, pop_back, unmap, push_front, get, put, new}
use language_test.Lru.Recency.{lookup, remove, or_else, touch, store, store-cons}
use language_test.Lru.Cells.{
  pairs, addr_of, IsLinked, remove_cell, pairs-remove_cell, length-pairs, length-pop_back,
  deref-addr_of, lookup-none, addr_of-remove_cell, IsLinked-remove_cell, length-remove_cell,
  deref-fresh, IsLinked-suc, back-some, pairs-pop_back, addr_of-pop_back, IsLinked-pop_back,
}

module _ {V : Type 0} where
  -- The map points at the cell of each key, keys and addresses stand once, and `count` counts.
  pub record IsValid (c : LruCache V) : Type 0 where
    pub linked : IsLinked c.fresh c.list
    pub points : (k : ℕ) → c.m k ≡ addr_of k c.list
    pub counted : c.count ≡ length c.list
    pub bounded : c.count ≤ c.cap

  pub new-IsValid : (capacity : ℕ) → IsValid (new {V = V} capacity)
  new-IsValid capacity = record {
    linked = tt;
    points = λ k. refl;
    counted = refl;
    bounded = omega arith;
  }

  push_front-IsValid :
      (c : LruCache V) (key : ℕ) (value : V) (m : ℕ → Option ℕ) (rest : List (Cell V)) (count : ℕ)
      → IsLinked c.fresh rest
      → addr_of key rest ≡ none
      → ((k : ℕ) → (key == k) ≡ false → m k ≡ addr_of k rest)
      → count ≡ suc (length rest)
      → count ≤ c.cap
      → IsValid (push_front c key value m rest count)
  push_front-IsValid c key value m rest count l a p n b = record {
    linked = (omega arith, deref-fresh c.fresh rest l, a, IsLinked-suc c.fresh rest l);
    points = λ k. elim (Bool-cases (key == k)) [
      | inl e ↦ rw (e, addr_of) refl
      | inr e ↦ rw (e, addr_of) (p k e)
    ];
    counted = n;
    bounded = b;
  }

  -- What the two methods do with a key that is in the cache.
  hit :
      (c : LruCache V) (key : ℕ) (value : V) (p : ℕ)
      → IsValid c
      → c.m key ≡ some p
      → IsValid (push_front c key value c.m (erase p c.list) c.count)
        × (pairs (erase p c.list) ≡ remove key (pairs c.list))
  hit c key value p v h =
      let a = sym (v.points key) ∙ h in
      let d = deref-addr_of c.fresh key p c.list v.linked a in
      let n = length-remove_cell key p c.list a in
      rw d.3 (
        push_front-IsValid c key value c.m (remove_cell key c.list) c.count
            (IsLinked-remove_cell c.fresh key c.list v.linked)
            (addr_of-remove_cell c.fresh key key c.list v.linked ∙ ground arith)
            (λ k e.
              v.points k ∙ sym (addr_of-remove_cell c.fresh k key c.list v.linked ∙ rw e refl))
            (omega (arith, n, v.counted)) v.bounded,
        pairs-remove_cell key c.list,
      )

  -- `get` is defined and keeps the cache valid. It returns the value of the key, or `missing`, and
  -- makes the pair the last used one.
  pub get-touch :
      (missing : V) (key : ℕ) (c : LruCache V)
      → IsValid c
      → Returns (get missing key c) (λ r.
        IsValid r.1
        × (r.1.cap ≡ c.cap)
        × (r.0 ≡ or_else missing (lookup key (pairs c.list)))
        × (pairs r.1.list ≡ touch key (pairs c.list)))
  unfolding get
  get-touch missing key c v = elim (Option-cases (c.m key)) [
    | inl e ↦
        let n = lookup-none key c.list (sym (v.points key) ∙ e) in
        rw (e, get, n.0, touch) (v, refl, refl, refl)
    | inr (p, e) ↦
        let d = deref-addr_of c.fresh key p c.list v.linked (sym (v.points key) ∙ e) in
        let h = hit c key d.0.value p v e in
        rw (e, get, d.1, d.2, touch) (h.0, refl, refl, ap (λ ps. (key, d.0.value) ∷ ps) h.1)
  ]

  module _ (key : ℕ) (value : V) (c : LruCache V) (v : IsValid c) where
    -- A pair of a new key is added in front of the cells that stay.
    miss :
        c.m key ≡ none
        → (m : ℕ → Option ℕ) (rest : List (Cell V)) (count : ℕ) → IsLinked c.fresh rest
        → addr_of key rest ≡ none
        → ((k : ℕ) → m k ≡ addr_of k rest)
        → count ≡ suc (length rest)
        → count ≤ c.cap
        → pairs rest ≡ take (c.cap - 1) (pairs c.list)
        → 0 < c.cap
        → IsValid (push_front c key value m rest count)
          × ((key, value) ∷ pairs rest ≡ store c.cap key value (pairs c.list))
    miss e m rest count l a p n b q z =
        let r = lookup-none key c.list (sym (v.points key) ∙ e) in
        (
          push_front-IsValid c key value m rest count l a (λ k h. p k) n b,
          ap (λ ps. (key, value) ∷ ps)
                (q
                  ∙ ap (λ ps. take (c.cap - 1) ps)
                      (sym (sym (pairs-remove_cell key c.list) ∙ ap (λ cs. pairs cs) r.1)))
              ∙ sym (store-cons c.cap key value (pairs c.list) z),
        )

  -- `put` on a cache with room for a pair is defined and keeps the cache valid. The new pair
  -- becomes the first, an old pair of its key goes, and where the cache was full the pair that was
  -- not used for longest goes.
  pub put-store :
      (key : ℕ) (value : V) (c : LruCache V)
      → IsValid c
      → 0 < c.cap
      → Returns
          (put key value c)
          (λ r. IsValid r × (r.cap ≡ c.cap) × (pairs r.list ≡ store c.cap key value (pairs c.list)))
  unfolding put
  put-store key value c v b = elim (Option-cases (c.m key)) [
    | inl e ↦
        let a = sym (v.points key) ∙ e in
        elim (Bool-cases (c.count == c.cap)) [
          | inl f ↦
              let w = back-some c.list (ground (arith, f, b, v.counted)) in
              let o = addr_of-pop_back c.fresh key c.list w.0 v.linked w.1 in
              let n = length-pop_back (c.cap - 1) c.list (ground (arith, f, b, v.counted)) in
              let s =
                miss key value c v e (unmap w.0.key c.m) (pop_back c.list) c.count
                  (IsLinked-pop_back c.fresh c.list v.linked) (ground (arith, o, a))
                  (λ k.
                    ap (λ x. if w.0.key == k then none else x) (v.points k)
                    ∙ sym (addr_of-pop_back c.fresh k c.list w.0 v.linked w.1))
                  (ground (arith, n, f, b)) v.bounded
                  (pairs-pop_back (c.cap - 1) c.list (ground (arith, f, b, v.counted))) b in
              rw (e, put, f, w.1) (s.0, refl, s.1)
          | inr f ↦
              let s =
                miss key value c v e c.m c.list (c.count + 1) v.linked a v.points
                  (omega (arith, v.counted)) (ground (arith, f, v.bounded))
                  (sym (
                    take_all (c.cap - 1) (pairs c.list)
                      (ground (arith, f, v.bounded, v.counted, length-pairs c.list))))
                  b in
              rw (e, put, f) (s.0, refl, s.1)
        ]
    | inr (p, e) ↦
        let h = hit c key value p v e in
        let n = length-remove_cell key p c.list (sym (v.points key) ∙ e) in
        rw (e, put)
          (
            h.0,
            refl,
            ap (λ ps. (key, value) ∷ ps)
                  (h.1
                    ∙ sym (
                        take_all (c.cap - 1) (remove key (pairs c.list)) (
                          omega (
                            arith,
                            ap (λ ps. length ps) (pairs-remove_cell key c.list),
                            length-pairs (remove_cell key c.list),
                            n,
                            v.counted,
                            v.bounded,
                          ))))
                ∙ sym (store-cons c.cap key value (pairs c.list) b),
          )
  ]

  -- `get` right after `put` of the same key, on a cache with room for a pair, returns what was put.
  pub get-put :
      (missing : V) (key : ℕ) (value : V) (c : LruCache V)
      → IsValid c
      → 0 < c.cap
      → Returns (put key value c >>= get missing key) (λ r. r.0 ≡ value)
  get-put missing key value c v b =
      Returns-bind (put key value c) (get missing key)
        (λ r. IsValid r × (r.cap ≡ c.cap) × (pairs r.list ≡ store c.cap key value (pairs c.list)))
        (λ r. r.0 ≡ value) (put-store key value c v b)
        (λ d p.
          Returns-imp (get missing key d)
            (λ r.
              IsValid r.1
              × (r.1.cap ≡ d.cap)
              × (r.0 ≡ or_else missing (lookup key (pairs d.list)))
              × (pairs r.1.list ≡ touch key (pairs d.list)))
            (λ r. r.0 ≡ value) (get-touch missing key d p.0)
            (λ r q.
              q.2
              ∙ ap (λ ps. or_else missing (lookup key ps))
                  (p.2 ∙ store-cons c.cap key value (pairs c.list) b)
              ∙ ground arith))

  -- `put` of a new key on a valid cache of capacity 0 has no defined result: it takes the last
  -- node of an empty list.
  pub put_zero :
      (key : ℕ) (value : V) (c : LruCache V) → IsValid c → c.cap ≡ 0 → put key value c ≡ none
  unfolding put
  put_zero key value c v z =
      let e = zero_length c.list (omega (arith, v.counted, v.bounded, z)) in
      rw (v.points key, put, e) (ground (arith, z, v.bounded))
    where
      zero_length : (cs : List (Cell V)) → length cs ≡ 0 → cs ≡ []
      zero_length [] h = refl
      zero_length (d ∷ cs) h = absurd (omega arith)
