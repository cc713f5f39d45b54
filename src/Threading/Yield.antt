-- ===== src/Threading/Yield.antt =====
-- kernel/src/threading: the cell that keeps interrupts off while the run queue is in use, and
-- `thread_yield`.
use popcorn.Prelude.{ℕ, ◌≡◌, Bool, true, false, Option, none, some, arith}
use popcorn.Prelude.Outcome.{Outcome, ok, panic, ◌>>=◌, expect}
use popcorn.Interrupts.{get_and_disable_interrupts, set_interrupts}
use popcorn.Threading.Scheduler.{Scheduler, schedule}
use popcorn.Threading.Scheduler.Queue.{IsValid}
use popcorn.Threading.Scheduler.Turns.{Turn, schedule-Turn}

pub record IrqCell (T : Type 0) : Type 0 where
  pub state : Option ℕ
  pub contents : T

module _ {T : Type 0} where
  -- A cell and the interrupt flag, before and after.
  unfoldable pub lock : IrqCell T → Bool → Outcome (IrqCell T × Bool)
  lock c flag = elim c.state [
    | some _ ↦ panic
    | none ↦
        let (old_state, flag') = get_and_disable_interrupts flag in
        ok (record c { state = some old_state }, flag')
  ]

  unfoldable pub unlock : IrqCell T → Bool → Outcome (IrqCell T × Bool)
  unlock c flag = do
    old_state ← expect c.state
    ok (record c { state = none }, set_interrupts old_state flag)

module _ {Rest : Type 0} where
  -- The guard is dropped when `schedule` returns, in whichever thread runs then.
  unfoldable pub thread_yield :
      IrqCell (Scheduler Rest) → Bool → Outcome (IrqCell (Scheduler Rest) × Bool)
  thread_yield c flag = do
    (locked, flag') ← lock c flag
    s ← schedule locked.contents
    unlock (record locked { contents = s }) flag'

  -- A thread that yields while the run queue is free leaves it free, with interrupts on exactly if
  -- they were, and with the next thread running; one that yields while it is in use panics.
  pub thread_yield_lem :
      (tids : ℕ) (c : IrqCell (Scheduler Rest)) (flag : Bool)
      → IsValid tids c.contents
      → ((c.state ≡ none)
          → (s : Scheduler Rest) × (thread_yield c flag
              ≡ ok (record { state = none; contents = s }, flag))
            × Turn tids c.contents s)
        × ((old : ℕ) → c.state ≡ some old → thread_yield c flag ≡ panic)
  unfolding thread_yield lock unlock
  thread_yield_lem tids c flag v = (
    λ unlocked.
        let (s, turn) = schedule-Turn tids c.contents v in
        (
          s,
          elim flag [
            | true ↦ ground (arith, unlocked, turn.done)
            | false ↦ ground (arith, unlocked, turn.done)
          ],
          turn,
        ),
    λ old locked. ground (arith, locked),
  )
