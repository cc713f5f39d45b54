-- ===== src/Prelude/Words.antt =====
-- Checked arithmetic on `usize`, the 64-bit word of the target.
use Prim.Native.Nat.{ℕ, ◌+◌, ◌-◌, ◌*◌, ◌^◌, ◌≤◌, ◌<◌}
use mathlib.Core.Path.{◌≡◌}
use mathlib.Core.Option.{Option, none, some}
use native.Mathlib.Omega.{arith}
use popcorn.Prelude.Tests.{ltb, leb, if◌then◌else◌}

-- One more than `usize::MAX`.
abbrev pub usize_mod : ℕ
usize_mod = 2 ^ 64

-- `usize::checked_add`, `usize::checked_mul` and `usize::checked_sub`.
unfoldable pub checked_add : ℕ → ℕ → Option ℕ
checked_add a b = if ltb (a + b) usize_mod then some (a + b) else none

unfoldable pub checked_mul : ℕ → ℕ → Option ℕ
checked_mul a b = if ltb (a * b) usize_mod then some (a * b) else none

unfoldable pub checked_sub : ℕ → ℕ → Option ℕ
checked_sub a b = if leb b a then some (a - b) else none

pub checked_sub-le : (a b c : ℕ) → checked_sub a b ≡ some c → (b ≤ a) × (c + b ≡ a)
unfolding checked_sub
checked_sub-le a b c h = ground arith

pub checked_add-lt : (a b c : ℕ) → checked_add a b ≡ some c → (c ≡ a + b) × (c < usize_mod)
unfolding checked_add
checked_add-lt a b c h = ground arith
