-- ===== src/SharePtr/Programs.antt =====
-- cpp/base/weak_ptr_impl.cpp: programs that use the pointers as they are meant to be used.
use language_test.Prelude.{
  ℕ, ◌∷◌, ◌<◌, ◌≡◌, ◌⊎◌, refl, ap, ◌∙◌, true, false, Bool-cases, inl, inr, Option, none, some, ◌==◌,
  if◌then◌else◌, ◌>>=◌, get_elem?, length, arith, Returns, Returns-some,
}
use language_test.Prelude.Int.{pos, ◌+ℤ◌, ◌-ℤ◌}
use language_test.SharePtr.Defs.{
  Target, Block, Heap, put_block, add_share, release_share, expired, Program, start, Call, call,
}
use language_test.SharePtr.Counts.{get_elem?-some, still_there}
use language_test.SharePtr.Counters.{Tracks, inside, construct-HeapTracks}
use language_test.SharePtr.Variables.{
  points, shares_of, weaks_of, IsCounted, is_self, share_there, weak_there, copied, weakened,
  rewritten, reassigned, share_destroyed, weak_destroyed, not_expired,
}

-- A call that names variables that there are, makes a shared pointer from an object that is not null,
-- copies and assigns weak pointers that are not empty, and locks where `expired` says no.
abbrev pub IsProper : Program → Call → Type 0
IsProper v (Call.share p) = p ≡ Target.alive
IsProper v (Call.copy_share i) = i < length v.shares
IsProper v (Call.lock i) = (get_elem? v.weaks i >>= λ p. expired p v.heap) ≡ some false
IsProper v (Call.assign_share i j) = (i < length v.shares) × (j < length v.shares)
IsProper v (Call.destroy_share i) = i < length v.shares
IsProper v Call.weak = Unit
IsProper v (Call.weaken i) = i < length v.shares
IsProper v (Call.copy_weak i) = (c : ℕ) × (get_elem? v.weaks i ≡ some (some c))
IsProper v (Call.assign_weak i j) =
    (i < length v.weaks) × ((c : ℕ) × (get_elem? v.weaks j ≡ some (some c)))
IsProper v (Call.assign_weaken i j) = (i < length v.weaks) × (j < length v.shares)
IsProper v (Call.destroy_weak i) = i < length v.weaks

lock_source :
    (h : Heap) (m : Option (Option ℕ))
    → (m >>= λ p. expired p h) ≡ some false
    → (c : ℕ) × (m ≡ some (some c)) × (expired (some c) h ≡ some false)
unfolding expired
lock_source h none e = absurd (cc e)
lock_source h (some none) e = absurd (cc e)
lock_source h (some (some c)) e = (c, refl, e)

call-IsCounted :
    (k : Call) (v : Program) → IsCounted v → IsProper v k → Returns (call k v) IsCounted
unfolding call
call-IsCounted (Call.share p) v t h =
    rw h (construct-HeapTracks v.heap (shares_of v) (weaks_of v) t)
call-IsCounted (Call.copy_share i) v t h =
    let (c, e) = get_elem?-some v.shares i h in
    rw e (copied v.heap v.shares v.weaks t c (share_there v.heap v.shares v.weaks t i c e))
call-IsCounted (Call.lock i) v t h =
    let (c, e, f) = lock_source v.heap (get_elem? v.weaks i) h in
    rw e (copied v.heap v.shares v.weaks t c (not_expired v.heap v.shares v.weaks t c i e f))
call-IsCounted (Call.assign_share i j) v t h =
    let (old, e) = get_elem?-some v.shares i h.0 in
    let (c, f) = get_elem?-some v.shares j h.1 in
    elim (Bool-cases (i == j)) [
      | inl n ↦ rw (e, f, n) t
      | inr n ↦ rw (e, f, n) (reassigned v.heap v.shares v.weaks t old i j c e f n)
    ]
call-IsCounted (Call.destroy_share i) v t h =
    let (c, e) = get_elem?-some v.shares i h in
    rw e (share_destroyed v.heap v.shares v.weaks t i c e)
call-IsCounted Call.weak v t h = t
call-IsCounted (Call.weaken i) v t h =
    let (c, e) = get_elem?-some v.shares i h in
    rw e (
      weakened v.heap v.shares v.weaks t c
        (omega (arith, share_there v.heap v.shares v.weaks t i c e)))
call-IsCounted (Call.copy_weak i) v t (c, e) = rw e (
    weakened v.heap v.shares v.weaks t c
      (omega (arith, weak_there v.heap v.shares v.weaks t i c e)))
call-IsCounted (Call.assign_weak i j) v t (h, (c, f)) =
    let (old, e) = get_elem?-some v.weaks i h in
    elim (Bool-cases (i == j)) [
      | inl n ↦ rw (e, f, n) t
      | inr n ↦
          rw (e, f, n)
            (rewritten v.heap v.shares v.weaks t old i c e
              (omega (arith, still_there points v.weaks i j c old (some c) e f n (is_self c))))
    ]
call-IsCounted (Call.assign_weaken i j) v t h =
    let (old, e) = get_elem?-some v.weaks i h.0 in
    let (c, f) = get_elem?-some v.shares j h.1 in
    rw (e, f)
      (rewritten v.heap v.shares v.weaks t old i c e
        (omega (arith, share_there v.heap v.shares v.weaks t j c f)))
call-IsCounted (Call.destroy_weak i) v t h =
    let (p, e) = get_elem?-some v.weaks i h in rw e (weak_destroyed v.heap v.shares v.weaks t i p e)

-- The programs that make proper calls only.
pub data Session : Program → Type 0 where
  begin : (block : ℕ → Block) → Session (start (record { block = block; next = 0 }))
  next :
      {v : Program} (k : Call) (new : Program)
      → Session v
      → IsProper v k
      → call k v ≡ some new
      → Session new

Session-IsCounted : (v : Program) → Session v → IsCounted v
Session-IsCounted v (Session.begin block) = record {
  blocks = λ c l. absurd (omega (arith, l));
  unused = λ c l. (refl, refl);
}
Session-IsCounted new (Session.next {v = v} k _ s p e) =
    rw e at (call-IsCounted k v (Session-IsCounted v s) p)

-- After any proper calls, each further proper call is defined: no counter is used that was deleted, and
-- no object is deleted twice.
pub Session-call :
    (v : Program) (k : Call)
    → Session v
    → IsProper v k
    → (new : Program) × (call k v ≡ some new) × Session new
Session-call v k s p =
    let (new, e, _) =
      Returns-some (call k v) IsCounted (call-IsCounted k v (Session-IsCounted v s) p) in
    (new, e, Session.next k new s p e)

-- After any proper calls, an object is alive exactly where a shared pointer points to it, and is
-- deleted otherwise; its counter has the number of the shared pointers and that of the weak ones, and
-- was deleted only where there is neither.
pub Session-alive :
    (v : Program) (c : ℕ)
    → Session v
    → c < (v.heap).next
    → (((v.heap).block c).target ≡ (if shares_of v c == 0 then Target.deleted else Target.alive))
      × ((((v.heap).block c).counter
            ≡ some (record { s = pos (shares_of v c); w = pos (weaks_of v c) }))
          ⊎ ((((v.heap).block c).counter ≡ none) × (shares_of v c ≡ 0) × (weaks_of v c ≡ 0)))
Session-alive v c s l = elim ((Session-IsCounted v s).blocks c l) [
  | Tracks.held e p a ↦ let f : (shares_of v c == 0) ≡ false = ground (arith, p) in rw f (a, inl e)
  | Tracks.left e p a ↦ let f : (shares_of v c == 0) ≡ true = ground (arith, p) in rw f (a, inl e)
  | Tracks.freed e p q a ↦
      let f : (shares_of v c == 0) ≡ true = ground (arith, p) in rw f (a, inr (e, p, q))
]

-- `lock` does not test `expired`: where the object of a weak pointer is gone, it makes a shared pointer to
-- the deleted object, whose counter is there with the count 1; destroying that shared pointer then
-- deletes the object a second time, which is undefined.
pub lock-destroy_share :
    (v : Program) (i c : ℕ)
    → Session v
    → get_elem? v.weaks i ≡ some (some c)
    → shares_of v c ≡ 0
    → (new : Program) × (call (Call.lock i) v ≡ some new)
      × (get_elem? new.shares 0 ≡ some c)
      × (((new.heap).block c).counter ≡ some (record { s = pos 1; w = pos (weaks_of v c) }))
      × (((new.heap).block c).target ≡ Target.deleted)
      × (call (Call.destroy_share 0) new ≡ none)
unfolding call add_share release_share ◌+ℤ◌ ◌-ℤ◌
lock-destroy_share v i c s e z =
    let t = Session-IsCounted v s in
    let some_weak = weak_there v.heap v.shares v.weaks t i c e in
    let self : (c == c) ≡ true = ground arith in
    elim (t.blocks c (inside v.heap (shares_of v) (weaks_of v) t c (omega (arith, some_weak)))) [
      | Tracks.held k p a ↦ absurd (omega (arith, p, z))
      | Tracks.left k p a ↦
          let k' : ((v.heap).block c).counter
              ≡ some (record { s = pos 0; w = pos (weaks_of v c) }) =
            k ∙ ap (λ n. some (record { s = pos n; w = pos (weaks_of v c) })) p in
          let new : Program = record {
            heap = put_block v.heap c (record {
              counter = some (record { s = pos 1; w = pos (weaks_of v c) });
              target = ((v.heap).block c).target;
            });
            shares = c ∷ v.shares;
            weaks = v.weaks;
          } in
          (new, rw (e, k') refl, refl, rw self refl, rw self a, rw (self, a) refl)
      | Tracks.freed k p q a ↦ absurd (omega (arith, q, some_weak))
    ]
