-- ===== src/Sync/Mutex.antt =====
-- kernel_api/src/sync/mutex.rs: a spinlock that keeps interrupts off on the processor that holds
-- it. Each thread stands for a processor with its interrupt flag; threads interleave at each access
-- to the two atomics.
pub mod Exclusion
use popcorn.Prelude.{ℕ, some, ◌≡◌, ◌≢◌, Bool, false, List, map, get_elem?, set, ◌==◌, if◌then◌else◌}
use popcorn.Prelude.Outcome.{Outcome, ok, err, panic}
use popcorn.Interrupts.{get_and_disable_interrupts, set_interrupts}

pub data State : Type 0 where
  unlocked locked : State

unfoldable pub const_into_u8 : State → ℕ
const_into_u8 unlocked = 0
const_into_u8 locked = 1

unfoldable pub const_from_u8 : ℕ → Outcome State
const_from_u8 value = if value == 0 then ok unlocked else if value == 1 then ok locked else err

-- Where a thread is, with the flag that it had when it came in and the value it saved or loaded:
-- outside; in the loop of `lock`; at the exchange of `try_lock`; past the exchange; with the guard;
-- past the load of `unlock`; about to set its flag again. Or it has panicked.
pub data Thread : Type 0 where
  outside : Bool → Thread
  spinning : Bool → ℕ → Thread
  trying : Bool → ℕ → Thread
  taken : Bool → ℕ → Thread
  holding : Bool → Thread
  releasing : Bool → ℕ → Thread
  restoring : Bool → ℕ → Thread
  panicked : Thread

pub record RawSpinlock : Type 0 where
  pub state : ℕ
  pub irq_state : ℕ

abbrev pub init : RawSpinlock
init = record { state = 0; irq_state = 0 }

-- The end of `unlock`, on the state that the exchange has found.
unfoldable pub unlock_found : Bool → ℕ → ℕ → Thread
unlock_found flag old_irq_state old_state = elim (const_from_u8 old_state) [
  | ok locked ↦ restoring flag old_irq_state
  | ok unlocked ↦ panicked
  | err ↦ panicked
  | panic ↦ panicked
]

pub data Move (l : RawSpinlock) : Thread → RawSpinlock → Thread → Type 0 where
  lock : (flag : Bool) → Move l (outside flag) l (spinning flag (get_and_disable_interrupts flag).0)
  try_lock :
      (flag : Bool) → Move l (outside flag) l (trying flag (get_and_disable_interrupts flag).0)
  lock_won :
      (flag : Bool) (irq_state : ℕ)
      → l.state ≡ const_into_u8 unlocked
      → Move l
          (spinning flag irq_state)
          (record l { state = const_into_u8 locked })
          (taken flag irq_state)
  spin :
      (flag : Bool) (irq_state : ℕ) → Move l (spinning flag irq_state) l (spinning flag irq_state)
  try_won :
      (flag : Bool) (irq_state : ℕ)
      → l.state ≡ const_into_u8 unlocked
      → Move l
          (trying flag irq_state)
          (record l { state = const_into_u8 locked })
          (taken flag irq_state)
  try_lost :
      (flag : Bool) (irq_state : ℕ)
      → l.state ≢ const_into_u8 unlocked
      → Move l (trying flag irq_state) l (restoring flag irq_state)
  store :
      (flag : Bool) (irq_state : ℕ)
      → Move l (taken flag irq_state) (record l { irq_state = irq_state }) (holding flag)
  unlock : (flag : Bool) → Move l (holding flag) l (releasing flag l.irq_state)
  swap :
      (flag : Bool) (old_irq_state : ℕ)
      → Move l
          (releasing flag old_irq_state)
          (record l { state = const_into_u8 unlocked })
          (unlock_found flag old_irq_state l.state)
  restore :
      (flag : Bool) (irq_state : ℕ)
      → Move l (restoring flag irq_state) l (outside (set_interrupts irq_state false))

pub record System : Type 0 where
  pub lock : RawSpinlock
  pub threads : List Thread

pub data Step (s : System) : System → Type 0 where
  move :
      (i : ℕ) (t : Thread) {l : RawSpinlock} {t' : Thread}
      → get_elem? s.threads i ≡ some t
      → Move s.lock t l t'
      → Step s (record { lock = l; threads = set s.threads i t' })

-- Processors with any flags, outside a lock as it is created.
pub data Reach (flags : List Bool) : System → Type 0 where
  start : Reach flags (record { lock = init; threads = map outside flags })
  later : {s s' : System} → Reach flags s → Step s s' → Reach flags s'
