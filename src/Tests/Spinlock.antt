-- ===== src/Tests/Spinlock.antt =====
-- Two processors and the spinlock: one with interrupts on takes it, the other tries and fails.
use popcorn.Prelude.{ℕ, ◌≡◌, refl, arith, true, false, [], ◌∷◌}
use popcorn.Interrupts.{set_interrupts}
use popcorn.Sync.Mutex.{
  const_into_u8, outside, spinning, trying, taken, holding, restoring, System, try_lock, lock,
  lock_won, store, try_lost, move, Reach, start, later,
}
use popcorn.Sync.Mutex.Exclusion.{spinlock_excludes, flag_restored}

abbrev one_holds : System
one_holds = record {
  lock = record { state = 1; irq_state = 0x200 };
  threads = holding true ∷ restoring false 0 ∷ [];
}

one_holds_reached : Reach (true ∷ false ∷ []) one_holds
unfolding const_into_u8
one_holds_reached =
    later
      (later
        (later
          (later (later start (move 0 (outside true) refl (lock true)))
            (move 0 (spinning true 0x200) refl (lock_won true 0x200 refl)))
          (move 0 (taken true 0x200) refl (store true 0x200)))
        (move 1 (outside false) refl (try_lock false)))
      (move 1 (trying false 0) refl (try_lost false 0 (omega arith)))

spinlock_excludes_example : ◌≡◌ {A = ℕ} 0 0
spinlock_excludes_example =
    spinlock_excludes 0 0 (holding true) (holding true) one_holds_reached refl refl refl refl

flag_restored_example : set_interrupts 0 false ≡ false
flag_restored_example = flag_restored 1 false 0 one_holds_reached refl
