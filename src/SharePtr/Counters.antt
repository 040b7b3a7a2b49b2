-- ===== src/SharePtr/Counters.antt =====
-- cpp/base/weak_ptr_impl.cpp: the methods on a heap whose counters are right.
use language_test.Prelude.{
  ℕ, ◌+◌, ◌-◌, ◌<◌, ◌≤◌, ◌≡◌, refl, sym, ap, ◌∙◌, true, false, Bool-cases, leb, inl, inr, none,
  some, ◌==◌, if◌then◌else◌, arith, le_or_lt, Returns,
}
use language_test.Prelude.Int.{pos, ◌+ℤ◌, ◌-ℤ◌, ltb_ℤ}
use language_test.SharePtr.Defs.{
  Counter, Target, Block, Heap, put_block, construct, add_share, add_weak, release_share,
  release_weak,
}

abbrev counter : ℕ → ℕ → Counter
counter n m = record { s = pos n; w = pos m }

-- A block with n shared pointers and m weak ones. The object lives as long as there is a shared
-- pointer, and the counter at least as long as there is any.
pub data Tracks (b : Block) (n m : ℕ) : Type 0 where
  held : b.counter ≡ some (counter n m) → 0 < n → b.target ≡ Target.alive → Tracks b n m
  left : b.counter ≡ some (counter n m) → n ≡ 0 → b.target ≡ Target.deleted → Tracks b n m
  freed : b.counter ≡ none → n ≡ 0 → m ≡ 0 → b.target ≡ Target.deleted → Tracks b n m

pub record HeapTracks (h : Heap) (f g : ℕ → ℕ) : Type 0 where
  pub blocks : (c : ℕ) → c < h.next → Tracks (h.block c) (f c) (g c)
  pub unused : (c : ℕ) → h.next ≤ c → (f c ≡ 0) × (g c ≡ 0)

pub HeapTracks-ext :
    (h : Heap) (f g f' g' : ℕ → ℕ)
    → HeapTracks h f g
    → ((c : ℕ) → f' c ≡ f c)
    → ((c : ℕ) → g' c ≡ g c)
    → HeapTracks h f' g'
HeapTracks-ext h f g f' g' t p q = record {
  blocks = λ c l. rw (p c, q c) (t.blocks c l);
  unused = λ c l. let (a, b) = t.unused c l in (p c ∙ a, q c ∙ b);
}

-- One pointer more to c, or one less.
abbrev pub more : ℕ → (ℕ → ℕ) → ℕ → ℕ
more c f x = if x == c then f x + 1 else f x

abbrev pub less : ℕ → (ℕ → ℕ) → ℕ → ℕ
less c f x = if x == c then f x - 1 else f x

more_self : (c : ℕ) (f : ℕ → ℕ) → more c f c ≡ f c + 1
more_self c f = let e : (c == c) ≡ true = ground arith in rw e refl

less_self : (c : ℕ) (f : ℕ → ℕ) → less c f c ≡ f c - 1
less_self c f = let e : (c == c) ≡ true = ground arith in rw e refl

pos-plus : (n : ℕ) → pos n +ℤ pos 1 ≡ pos (n + 1)
unfolding ◌+ℤ◌
pos-plus n =
    let e : leb (0 + 0) (n + 1) ≡ true = ground arith in rw e (ap (λ k. pos k) (omega arith))

pos-minus : (n : ℕ) → 0 < n → pos n -ℤ pos 1 ≡ pos (n - 1)
unfolding ◌-ℤ◌
pos-minus n h =
    let e : leb (0 + 1) (n + 0) ≡ true = ground (arith, h) in rw e (ap (λ k. pos k) (omega arith))

last_share : (n : ℕ) → ltb_ℤ (pos n) (pos 1) ≡ (n == 0)
last_share n = ground arith

module _ (h : Heap) (f g : ℕ → ℕ) (t : HeapTracks h f g) where
  pub inside : (c : ℕ) → 0 < f c + g c → c < h.next
  inside c p = elim (le_or_lt h.next c) [
    | inl l ↦ let (a, b) = t.unused c l in absurd (omega (arith, a, b, p))
    | inr l ↦ l
  ]

  put_block-HeapTracks :
      (c : ℕ) (b : Block) (f' g' : ℕ → ℕ)
      → c < h.next
      → ((x : ℕ) → (x == c) ≡ false → f' x ≡ f x)
      → ((x : ℕ) → (x == c) ≡ false → g' x ≡ g x)
      → Tracks b (f' c) (g' c)
      → HeapTracks (put_block h c b) f' g'
  put_block-HeapTracks c b f' g' l p q u = record {
    blocks = λ x k. elim (Bool-cases (x == c)) [
      | inl e ↦ let o : x ≡ c = ground (arith, e) in rw e (rw o u)
      | inr e ↦ rw (e, p x e, q x e) (t.blocks x k)
    ];
    unused = λ x k.
        let e : (x == c) ≡ false = ground (arith, l, k) in
        let (a, b) = t.unused x k in (p x e ∙ a, q x e ∙ b);
  }

  more_ne : (c : ℕ) (k : ℕ → ℕ) (x : ℕ) → (x == c) ≡ false → more c k x ≡ k x
  more_ne c k x e = rw e refl

  less_ne : (c : ℕ) (k : ℕ → ℕ) (x : ℕ) → (x == c) ≡ false → less c k x ≡ k x
  less_ne c k x e = rw e refl

  pub add_share-HeapTracks :
      (c : ℕ) → 0 < f c → Returns (add_share c h) (λ new. HeapTracks new (more c f) g)
  unfolding add_share
  add_share-HeapTracks c p =
      let l = inside c (omega (arith, p)) in
      elim (t.blocks c l) [
        | held e q a ↦
            rw (e, pos-plus (f c))
              (put_block-HeapTracks c _ (more c f) g l (more_ne c f) (λ x d. refl)
                (Tracks.held (ap (λ n. some (counter n (g c))) (sym (more_self c f)))
                  (omega (arith, more_self c f)) a))
        | left e q a ↦ absurd (omega (arith, p, q))
        | freed e q r a ↦ absurd (omega (arith, p, q))
      ]

  pub add_weak-HeapTracks :
      (c : ℕ) → 0 < f c + g c → Returns (add_weak c h) (λ new. HeapTracks new f (more c g))
  unfolding add_weak
  add_weak-HeapTracks c p =
      let l = inside c p in
      let e' = ap (λ m. some (counter (f c) m)) (sym (more_self c g)) in
      elim (t.blocks c l) [
        | held e q a ↦
            rw (e, pos-plus (g c))
              (put_block-HeapTracks c _ f (more c g) l (λ x d. refl) (more_ne c g)
                (Tracks.held e' q a))
        | left e q a ↦
            rw (e, pos-plus (g c))
              (put_block-HeapTracks c _ f (more c g) l (λ x d. refl) (more_ne c g)
                (Tracks.left e' q a))
        | freed e q r a ↦ absurd (omega (arith, p, q, r))
      ]

  pub release_weak-HeapTracks :
      (c : ℕ) → 0 < g c → Returns (release_weak (some c) h) (λ new. HeapTracks new f (less c g))
  unfolding release_weak
  release_weak-HeapTracks c p =
      let l = inside c (omega (arith, p)) in
      let e' = ap (λ m. some (counter (f c) m)) (sym (less_self c g)) in
      elim (t.blocks c l) [
        | held e q a ↦
            rw (e, pos-minus (g c) p)
              (put_block-HeapTracks c _ f (less c g) l (λ x d. refl) (less_ne c g)
                (Tracks.held e' q a))
        | left e q a ↦
            rw (e, pos-minus (g c) p)
              (put_block-HeapTracks c _ f (less c g) l (λ x d. refl) (less_ne c g)
                (Tracks.left e' q a))
        | freed e q r a ↦ absurd (omega (arith, p, r))
      ]

  -- A call of release by the last shared pointer deletes the object, and the counter as well where no weak
  -- pointer is left.
  pub release_share-HeapTracks :
      (c : ℕ) → 0 < f c → Returns (release_share c h) (λ new. HeapTracks new (less c f) g)
  unfolding release_share
  release_share-HeapTracks c p =
      let l = inside c (omega (arith, p)) in
      let minus : less c f c ≡ f c - 1 = less_self c f in
      elim (t.blocks c l) [
        | held e q a ↦
            rw (e, pos-minus (f c) p)
              (elim (Bool-cases (f c - 1 == 0)) [
                | inl z ↦
                    let z' : less c f c ≡ 0 = ground (arith, minus, z) in
                    rw (last_share (f c - 1), z, a, last_share (g c))
                      (elim (Bool-cases (g c == 0)) [
                        | inl y ↦ rw y (
                            put_block-HeapTracks c _ (less c f) g l (less_ne c f) (λ x d. refl)
                              (Tracks.freed refl z' (ground (arith, y)) refl))
                        | inr y ↦ rw y (
                            put_block-HeapTracks c _ (less c f) g l (less_ne c f) (λ x d. refl)
                              (Tracks.left (ap (λ n. some (counter n (g c))) (sym minus)) z' refl))
                      ])
                | inr z ↦
                    rw (last_share (f c - 1), z)
                      (put_block-HeapTracks c _ (less c f) g l (less_ne c f) (λ x d. refl)
                        (Tracks.held (ap (λ n. some (counter n (g c))) (sym minus))
                          (ground (arith, minus, z)) a))
              ])
        | left e q a ↦ absurd (omega (arith, p, q))
        | freed e q r a ↦ absurd (omega (arith, p, q))
      ]

  -- A new object and its counter.
  pub construct-HeapTracks : HeapTracks (construct Target.alive h) (more h.next f) g
  construct-HeapTracks = record {
    blocks = λ x k. elim (Bool-cases (x == h.next)) [
      | inl e ↦
          let o : x ≡ h.next = ground (arith, e) in
          let (a, b) = t.unused h.next (omega arith) in
          rw e (rw (o, a, b) (Tracks.held refl (omega arith) refl))
      | inr e ↦ rw e (t.blocks x (ground (arith, e, k)))
    ];
    unused = λ x k.
        let e : (x == h.next) ≡ false = ground (arith, k) in rw e (t.unused x (omega (arith, k)));
  }
