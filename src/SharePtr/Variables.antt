-- ===== src/SharePtr/Variables.antt =====
-- cpp/base/weak_ptr_impl.cpp: the methods and the variables that they are called on.
use language_test.Prelude.{
  ℕ, ◌+◌, ◌<◌, ◌≡◌, refl, Bool, true, false, Option, none, some, List, ◌∷◌, ◌==◌, ◌>>=◌, get_elem?,
  set, arith, Returns, Returns-bind,
}
use language_test.SharePtr.Defs.{
  Heap, add_share, add_weak, release_share, release_weak, expired, Program, remove_at,
}
use language_test.SharePtr.Counts.{
  down, count, count-get_elem?, count-remove_at, count-set, still_there,
}
use language_test.SharePtr.Counters.{
  Tracks, HeapTracks, HeapTracks-ext, inside, more, less, add_share-HeapTracks, add_weak-HeapTracks,
  release_weak-HeapTracks, release_share-HeapTracks,
}

abbrev pub is : ℕ → ℕ → Bool
is c x = c == x

abbrev pub points : ℕ → Option ℕ → Bool
points c none = false
points c (some x) = c == x

-- How many variables of each class point to the object c.
abbrev pub shares_of : Program → ℕ → ℕ
shares_of v = count is v.shares

abbrev pub weaks_of : Program → ℕ → ℕ
weaks_of v = count points v.weaks

-- The counters are right.
abbrev pub IsCounted : Program → Type 0
IsCounted v = HeapTracks v.heap (shares_of v) (weaks_of v)

pub is_self : (c : ℕ) → is c c ≡ true
is_self c = ground arith

module _ (h : Heap) (xs : List ℕ) (ws : List (Option ℕ))
    (t : HeapTracks h (count is xs) (count points ws)) where
  abbrev program : Program
  program = record { heap = h; shares = xs; weaks = ws }

  pub share_there : (i c : ℕ) → get_elem? xs i ≡ some c → 0 < count is xs c
  share_there i c e = count-get_elem? is xs i c c e (is_self c)

  pub weak_there : (i c : ℕ) → get_elem? ws i ≡ some (some c) → 0 < count points ws c
  weak_there i c e = count-get_elem? points ws i c (some c) e (is_self c)

  pub copied :
      (c : ℕ)
      → 0 < count is xs c
      → Returns
          (add_share c h >>= λ g. some (record { heap = g; shares = c ∷ xs; weaks = ws }))
          IsCounted
  copied c p =
      Returns-bind (add_share c h) (λ g. some (record { heap = g; shares = c ∷ xs; weaks = ws }))
        (λ g. HeapTracks g (more c (count is xs)) (count points ws)) IsCounted
        (add_share-HeapTracks h (count is xs) (count points ws) t c p) (λ g r. r)

  pub weakened :
      (c : ℕ)
      → 0 < count is xs c + count points ws c
      → Returns
          (add_weak c h >>= λ g. some (record { heap = g; shares = xs; weaks = some c ∷ ws }))
          IsCounted
  weakened c p =
      Returns-bind (add_weak c h)
        (λ g. some (record { heap = g; shares = xs; weaks = some c ∷ ws }))
        (λ g. HeapTracks g (count is xs) (more c (count points ws))) IsCounted
        (add_weak-HeapTracks h (count is xs) (count points ws) t c p) (λ g r. r)

  released :
      (p : Option ℕ) (i : ℕ)
      → get_elem? ws i ≡ some p
      → Returns
          (release_weak p h)
          (λ g. HeapTracks g (count is xs) (down points p (count points ws)))
  unfolding release_weak
  released none i e = t
  released (some c) i e =
      release_weak-HeapTracks h (count is xs) (count points ws) t c (weak_there i c e)

  -- A weak pointer gets the value c.
  pub rewritten :
      (old : Option ℕ) (i c : ℕ)
      → get_elem? ws i ≡ some old
      → 0 < count is xs c + down points old (count points ws) c
      → Returns
          (release_weak old h >>= λ g. add_weak c g >>= λ k.
            some (record { heap = k; shares = xs; weaks = set ws i (some c) }))
          IsCounted
  rewritten old i c e p =
      Returns-bind (release_weak old h)
        (λ g.
          add_weak c g >>= λ k. some (record { heap = k; shares = xs; weaks = set ws i (some c) }))
        (λ g. HeapTracks g (count is xs) (down points old (count points ws))) IsCounted
        (released old i e)
        (λ g r.
          Returns-bind (add_weak c g)
            (λ k. some (record { heap = k; shares = xs; weaks = set ws i (some c) }))
            (λ k. HeapTracks k (count is xs) (more c (down points old (count points ws)))) IsCounted
            (add_weak-HeapTracks g (count is xs) (down points old (count points ws)) r c p)
            (λ k q.
              HeapTracks-ext k (count is xs) (more c (down points old (count points ws)))
                (count is xs) (count points (set ws i (some c))) q (λ x. refl)
                (λ x. count-set points ws i x old (some c) e)))

  -- Another shared pointer gets the value c.
  pub reassigned :
      (old i j c : ℕ)
      → get_elem? xs i ≡ some old
      → get_elem? xs j ≡ some c
      → (i == j) ≡ false
      → Returns
          (release_share old h >>= λ g.
            add_share c g >>= λ k. some (record { heap = k; shares = set xs i c; weaks = ws }))
          IsCounted
  reassigned old i j c e f n =
      let gs = count points ws in
      let left_over = less old (count is xs) in
      Returns-bind (release_share old h)
        (λ g. add_share c g >>= λ k. some (record { heap = k; shares = set xs i c; weaks = ws }))
        (λ g. HeapTracks g (less old (count is xs)) gs) IsCounted
        (release_share-HeapTracks h (count is xs) gs t old (share_there i old e))
        (λ g r.
          Returns-bind (add_share c g)
            (λ k. some (record { heap = k; shares = set xs i c; weaks = ws }))
            (λ k. HeapTracks k (more c (less old (count is xs))) gs) IsCounted
            (add_share-HeapTracks g left_over gs r c
              (still_there is xs i j c old c e f n (is_self c)))
            (λ k q.
              HeapTracks-ext k (more c (less old (count is xs))) gs (count is (set xs i c)) gs q
                (λ x. count-set is xs i x old c e) (λ x. refl)))

  pub share_destroyed :
      (i c : ℕ)
      → get_elem? xs i ≡ some c
      → Returns
          (release_share c h >>= λ g.
            some (record { heap = g; shares = remove_at xs i; weaks = ws }))
          IsCounted
  share_destroyed i c e =
      let gs = count points ws in
      Returns-bind (release_share c h)
        (λ g. some (record { heap = g; shares = remove_at xs i; weaks = ws }))
        (λ g. HeapTracks g (less c (count is xs)) gs) IsCounted
        (release_share-HeapTracks h (count is xs) gs t c (share_there i c e))
        (λ g r.
          HeapTracks-ext g (less c (count is xs)) gs (count is (remove_at xs i)) gs r
            (λ x. count-remove_at is xs i x c e) (λ x. refl))

  pub weak_destroyed :
      (i : ℕ) (p : Option ℕ)
      → get_elem? ws i ≡ some p
      → Returns
          (release_weak p h >>= λ g.
            some (record { heap = g; shares = xs; weaks = remove_at ws i }))
          IsCounted
  weak_destroyed i p e =
      let fs = count is xs in
      Returns-bind (release_weak p h)
        (λ g. some (record { heap = g; shares = xs; weaks = remove_at ws i }))
        (λ g. HeapTracks g fs (down points p (count points ws))) IsCounted (released p i e)
        (λ g r.
          HeapTracks-ext g fs (down points p (count points ws)) fs (count points (remove_at ws i)) r
            (λ x. refl) (λ x. count-remove_at points ws i x p e))

  -- A weak pointer for which `expired` says no points to an object that is shared.
  pub not_expired :
      (c i : ℕ)
      → get_elem? ws i ≡ some (some c)
      → expired (some c) h ≡ some false
      → 0 < count is xs c
  unfolding expired
  not_expired c i e q =
      let l = inside h (count is xs) (count points ws) t c (omega (arith, weak_there i c e)) in
      elim (t.blocks c l) [
        | Tracks.held a b d ↦ b
        | Tracks.left a b d ↦ absurd (cc (rw (a, b) at q))
        | Tracks.freed a b d f ↦ absurd (cc (rw a at q))
      ]
