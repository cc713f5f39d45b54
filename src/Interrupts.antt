-- ===== src/Interrupts.antt =====
-- kernel/src/hal/arch/amd64/mod.rs: the interrupt flag of a processor.
use popcorn.Prelude.{ℕ, ◌≡◌, refl, Bool, true, false, ◌==◌, if◌then◌else◌}

-- Bit 9 of the flags, and the flag after.
abbrev pub get_and_disable_interrupts : Bool → ℕ × Bool
get_and_disable_interrupts flag = (if flag then 0x200 else 0, false)

abbrev pub set_interrupts : ℕ → Bool → Bool
set_interrupts old_state flag = if old_state == 0 then flag else true

-- What was saved when interrupts went off brings the flag back.
pub set-get_and_disable :
    (flag : Bool)
    → let (old, off) = get_and_disable_interrupts flag in set_interrupts old off ≡ flag
set-get_and_disable true = refl
set-get_and_disable false = refl
