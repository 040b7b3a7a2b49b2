-- ===== src/SharePtr/Defs.antt =====
-- cpp/base/weak_ptr_impl.cpp, classes Counter, SharePtr and WeakPtr. Each SharePtr that is made from a
-- raw pointer makes its Counter, so the number of the counter names the object as well; a pointer
-- variable is that number. `none` is undefined behaviour: the use of a counter that was deleted or of
-- a null one, or an object that is deleted twice. The objects hold no such pointers themselves.
use language_test.Prelude.{
  ℕ, zero, suc, ◌+◌, Bool, true, false, not, Option, none, some, List, [], ◌∷◌, ◌==◌, if◌then◌else◌,
  ◌>>=◌, get_elem?, set,
}
use language_test.Prelude.Int.{ℤ, pos, ◌+ℤ◌, ◌-ℤ◌, ltb_ℤ}

pub record Counter : Type 0 where
  pub s : ℤ
  pub w : ℤ

-- What `_ptr` points to, for all pointers that share a counter.
pub data Target : Type 0 where
  absent : Target
  alive : Target
  deleted : Target

-- A counter, none once it was deleted, and the object.
pub record Block : Type 0 where
  pub counter : Option Counter
  pub target : Target

pub record Heap : Type 0 where
  pub block : ℕ → Block
  pub next : ℕ

abbrev pub put_block : Heap → ℕ → Block → Heap
put_block h c b = record { block = λ x. if x == c then b else h.block x; next = h.next }

abbrev pub is_null : Target → Bool
is_null Target.absent = true
is_null Target.alive = false
is_null Target.deleted = false

-- `new Counter()` in the constructor from a raw pointer, which may be null.
abbrev pub construct : Target → Heap → Heap
construct p h = record {
  block = λ x.
      if x == h.next
      then record {
        counter = some (record { s = if is_null p then pos 0 else pos 1; w = pos 0 });
        target = p;
      }
      else h.block x;
  next = h.next + 1;
}

-- `cnt->s++`
unfoldable pub add_share : ℕ → Heap → Option Heap
add_share c h = (h.block c).counter >>= λ k. some (
    put_block h c (record {
      counter = some (record { s = k.s +ℤ pos 1; w = k.w });
      target = (h.block c).target;
    }))

-- `cnt->w++`
unfoldable pub add_weak : ℕ → Heap → Option Heap
add_weak c h = (h.block c).counter >>= λ k. some (
    put_block h c (record {
      counter = some (record { s = k.s; w = k.w +ℤ pos 1 });
      target = (h.block c).target;
    }))

-- `delete _ptr`
abbrev pub delete_target : Target → Option Target
delete_target Target.absent = some Target.absent
delete_target Target.alive = some Target.deleted
delete_target Target.deleted = none

-- `SharePtr::release`
unfoldable pub release_share : ℕ → Heap → Option Heap
release_share c h = (h.block c).counter >>= λ k.
    let left : Counter = record { s = k.s -ℤ pos 1; w = k.w } in
    if ltb_ℤ left.s (pos 1)
    then (delete_target (h.block c).target >>= λ t. some (
        put_block h c
          (record { counter = if ltb_ℤ left.w (pos 1) then none else some left; target = t })))
    else some (put_block h c (record { counter = some left; target = (h.block c).target }))

-- `WeakPtr::release`, after which the pointer that is released is written or dies.
unfoldable pub release_weak : Option ℕ → Heap → Option Heap
release_weak none h = some h
release_weak (some c) h = (h.block c).counter >>= λ k. some (
    put_block h c (record {
      counter = some (record { s = k.s; w = k.w -ℤ pos 1 });
      target = (h.block c).target;
    }))

unfoldable pub expired : Option ℕ → Heap → Option Bool
expired none h = some true
expired (some c) h = (h.block c).counter >>= λ k. some (not (ltb_ℤ (pos 0) k.s))

-- The variables that are alive. A new one is the first of its list.
pub record Program : Type 0 where
  pub heap : Heap
  pub shares : List ℕ
  pub weaks : List (Option ℕ)

abbrev pub start : Heap → Program
start h = record { heap = h; shares = []; weaks = [] }

abbrev pub remove_at {ℓ} : {A : Type ℓ} → List A → ℕ → List A
remove_at [] i = []
remove_at (x ∷ xs) zero = xs
remove_at (x ∷ xs) (suc i) = x ∷ remove_at xs i

-- The constructors, assignments and destructors of both classes.
pub data Call : Type 0 where
  share : Target → Call
  copy_share : ℕ → Call
  lock : ℕ → Call
  assign_share : (this s : ℕ) → Call
  destroy_share : ℕ → Call
  weak : Call
  weaken : ℕ → Call
  copy_weak : ℕ → Call
  assign_weak : (this w : ℕ) → Call
  assign_weaken : (this s : ℕ) → Call
  destroy_weak : ℕ → Call

unfoldable pub call : Call → Program → Option Program
call (Call.share p) v =
    some (record { heap = construct p v.heap; shares = (v.heap).next ∷ v.shares; weaks = v.weaks })
call (Call.copy_share i) v = get_elem? v.shares i >>= λ c.
    add_share c v.heap >>= λ h. some (record { heap = h; shares = c ∷ v.shares; weaks = v.weaks })
call (Call.lock i) v = get_elem? v.weaks i >>= λ p. p >>= λ c.
    add_share c v.heap >>= λ h. some (record { heap = h; shares = c ∷ v.shares; weaks = v.weaks })
call (Call.assign_share i j) v = get_elem? v.shares i >>= λ old. get_elem? v.shares j >>= λ c.
    if i == j
    then some v
    else (release_share old v.heap >>= λ g. add_share c g >>= λ h.
        some (record { heap = h; shares = set v.shares i c; weaks = v.weaks }))
call (Call.destroy_share i) v = get_elem? v.shares i >>= λ c. release_share c v.heap >>= λ h.
    some (record { heap = h; shares = remove_at v.shares i; weaks = v.weaks })
call Call.weak v = some (record v { weaks = none ∷ v.weaks })
call (Call.weaken i) v = get_elem? v.shares i >>= λ c. add_weak c v.heap >>= λ h.
    some (record { heap = h; shares = v.shares; weaks = some c ∷ v.weaks })
call (Call.copy_weak i) v = get_elem? v.weaks i >>= λ p. p >>= λ c.
    add_weak c v.heap >>= λ h. some (record { heap = h; shares = v.shares; weaks = p ∷ v.weaks })
call (Call.assign_weak i j) v = get_elem? v.weaks i >>= λ old. get_elem? v.weaks j >>= λ p.
    if i == j
    then some v
    else (release_weak old v.heap >>= λ g. p >>= λ c. add_weak c g >>= λ h.
        some (record { heap = h; shares = v.shares; weaks = set v.weaks i p }))
call (Call.assign_weaken i j) v = get_elem? v.weaks i >>= λ old. get_elem? v.shares j >>= λ c.
    release_weak old v.heap >>= λ g. add_weak c g >>= λ h.
    some (record { heap = h; shares = v.shares; weaks = set v.weaks i (some c) })
call (Call.destroy_weak i) v = get_elem? v.weaks i >>= λ p. release_weak p v.heap >>= λ h.
    some (record { heap = h; shares = v.shares; weaks = remove_at v.weaks i })
