-- ===== src/Tests/RunQueue.antt =====
-- Three threads on one processor: the one that booted, and two more.
use popcorn.Prelude.{ℕ, suc, ◌≡◌, refl, arith, true, none, some, [], ◌∷◌, ◌++◌, length}
use popcorn.Prelude.Outcome.{ok, panic}
use popcorn.Threading.Scheduler
use popcorn.Threading.Scheduler.{
  ready, running, Tid, ThreadControlBlock, get, get_ptr, get_ptrs, get_many_mut, insert,
  write_state, schedule, add_task, init,
}
use popcorn.Threading.Scheduler.Queue.{Has, IsValid}
use popcorn.Threading.Scheduler.Turns.{Turn, schedules, ready_thread_runs, round_robin}
use popcorn.Threading.Scheduler.NewTasks.{add_task-IsValid, booted, init-IsValid}
use popcorn.Threading.Yield.{IrqCell, thread_yield, thread_yield_lem}

-- A thread's other fields are its name here.
abbrev thread : ℕ → ThreadControlBlock ℕ
thread name = record { rest = name; state = ready }

abbrev one : Scheduler.Scheduler ℕ
one = booted 7

abbrev two : Scheduler.Scheduler ℕ
two = record {
  tasks = (0, record { rest = 7; state = running }) ∷ (1, thread 8) ∷ [];
  queue = 1 ∷ [];
  current_tid = 0;
}

added : add_task 1 one (thread 8) ≡ (1, (2, two))
unfolding add_task insert
added = refl

-- The new thread runs, and then the first one again.
turns : schedules 2 two ≡ ok two
unfolding schedules schedule get_many_mut get_ptrs get_ptr write_state
turns = refl

add_task-IsValid_example :
    (get one.tasks (add_task 1 one (thread 8)).0 ≡ none)
    × IsValid (add_task 1 one (thread 8)).1.0 (add_task 1 one (thread 8)).1.1
    × ((add_task 1 one (thread 8)).1.1.queue ≡ one.queue ++ ((add_task 1 one (thread 8)).0 ∷ []))
add_task-IsValid_example = add_task-IsValid 1 one (thread 8) (init-IsValid 7).1 refl (omega arith)

two-IsValid : IsValid 2 two
unfolding add_task insert
two-IsValid = (add_task-IsValid 1 one (thread 8) (init-IsValid 7).1 refl (omega arith)).1

ready_thread_runs_example :
    (s' : Scheduler.Scheduler ℕ) × (schedules 1 two ≡ ok s')
    × (s'.current_tid ≡ 1)
    × Has s'.tasks 1 running
ready_thread_runs_example = ready_thread_runs 2 0 two 1 two-IsValid refl

round_robin_example :
    (s' : Scheduler.Scheduler ℕ) × (schedules (suc (length two.queue)) two ≡ ok s')
    × (s'.current_tid ≡ two.current_tid)
    × (s'.queue ≡ two.queue)
round_robin_example = round_robin 2 two two-IsValid

abbrev cell : IrqCell (Scheduler.Scheduler ℕ)
cell = record { state = none; contents = two }

thread_yield_lem_example :
    ((cell.state ≡ none)
      → (s : Scheduler.Scheduler ℕ) × (thread_yield cell true
          ≡ ok (record { state = none; contents = s }, true))
        × Turn 2 cell.contents s)
    × ((old : ℕ) → cell.state ≡ some old → thread_yield cell true ≡ panic)
thread_yield_lem_example = thread_yield_lem 2 cell true two-IsValid
