-- ===== src/SharePtr/Tests.antt =====
-- cpp/base/weak_ptr_impl.cpp: an object with a weak pointer that outlives it, and the theorems there.
use language_test.Prelude.{
  ℕ, ◌≡◌, ◌⊎◌, refl, arith, Option, none, some, [], ◌∷◌, ◌==◌, if◌then◌else◌, get_elem?,
}
use language_test.Prelude.Int.{pos, ◌+ℤ◌, ◌-ℤ◌}
use language_test.SharePtr.Defs.{
  Target, Block, Program, start, Call, call, construct, add_weak, release_share,
}
use language_test.SharePtr.Variables.{shares_of, weaks_of}
use language_test.SharePtr.Programs.{Session, Session-call, Session-alive, lock-destroy_share}

abbrev no_block : ℕ → Block
no_block x = record { counter = none; target = Target.deleted }

abbrev result : Program → Option Program → Program
result v none = v
result v (some w) = w

abbrev initial : Program
initial = start (record { block = no_block; next = 0 })

-- SharePtr<T> sp(new T);
abbrev shared : Program
shared = record { heap = construct Target.alive initial.heap; shares = 0 ∷ []; weaks = [] }

-- WeakPtr<T> wp(sp);
abbrev weakened : Program
weakened = result shared (call (Call.weaken 0) shared)

-- The end of `sp`.
abbrev orphaned : Program
orphaned = result weakened (call (Call.destroy_share 0) weakened)

shared-Session : Session shared
unfolding call
shared-Session = Session.next (Call.share Target.alive) shared (Session.begin no_block) refl refl

weakened-Session : Session weakened
unfolding call add_weak
weakened-Session = Session.next (Call.weaken 0) weakened shared-Session (omega arith) refl

orphaned-Session : Session orphaned
unfolding call add_weak release_share ◌+ℤ◌ ◌-ℤ◌
orphaned-Session = Session.next (Call.destroy_share 0) orphaned weakened-Session (omega arith) refl

orphaned_weak : get_elem? orphaned.weaks 0 ≡ some (some 0)
unfolding call add_weak release_share ◌+ℤ◌ ◌-ℤ◌
orphaned_weak = refl

orphaned_shares : shares_of orphaned 0 ≡ 0
unfolding call add_weak release_share ◌+ℤ◌ ◌-ℤ◌
orphaned_shares = refl

lock-destroy_share_example :
    (new : Program) × (call (Call.lock 0) orphaned ≡ some new)
    × (get_elem? new.shares 0 ≡ some 0)
    × (((new.heap).block 0).counter ≡ some (record { s = pos 1; w = pos (weaks_of orphaned 0) }))
    × (((new.heap).block 0).target ≡ Target.deleted)
    × (call (Call.destroy_share 0) new ≡ none)
lock-destroy_share_example =
    lock-destroy_share orphaned 0 0 orphaned-Session orphaned_weak orphaned_shares

Session-call_example : (new : Program) × (call (Call.copy_share 0) shared ≡ some new) × Session new
Session-call_example = Session-call shared (Call.copy_share 0) shared-Session (omega arith)

Session-alive_example :
    (((shared.heap).block 0).target
      ≡ (if shares_of shared 0 == 0 then Target.deleted else Target.alive))
    × ((((shared.heap).block 0).counter
          ≡ some (record { s = pos (shares_of shared 0); w = pos (weaks_of shared 0) }))
        ⊎ ((((shared.heap).block 0).counter ≡ none)
            × (shares_of shared 0 ≡ 0)
            × (weaks_of shared 0 ≡ 0)))
Session-alive_example = Session-alive shared 0 shared-Session (omega arith)

-- The counter has no shared pointers left and one weak one.
orphaned_counter : ((orphaned.heap).block 0).counter ≡ some (record { s = pos 0; w = pos 1 })
unfolding call add_weak release_share ◌+ℤ◌ ◌-ℤ◌
orphaned_counter = refl
