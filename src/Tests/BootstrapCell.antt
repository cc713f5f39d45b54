-- ===== src/Tests/BootstrapCell.antt =====
-- Two threads and a lock with a first value: thread 0 writes 5 and calls the function, thread 1
-- reads.
use popcorn.Prelude.{ℕ, ◌≤◌, ◌≡◌, ◌≢◌, refl, true, some, none, [], ◌∷◌, get_elem?}
use popcorn.Prelude.Outcome.{ok, panic}
use popcorn.Sync.Once.{again, lost, panics}
use popcorn.Sync.Once.Bootstrap.{
  running, init, const_into_u8, const_from_u8, bootstrap_round, get_check, outside, looping, first,
  bootstrapped, in_function, returned, saving_true, written_true, reading, holding,
  function_panicked, System, new, call, exchange, write_bootstrap, store_running, unwind,
  return_value, store_saving, write_true, finish, get, read, Step, move, Reach, start, later,
}
use popcorn.Sync.Once.Bootstrap.Value.{bootstrap_value_lem, panic_not_poisoned}

abbrev has_first : System ℕ
has_first = record {
  lock = record { state = 2; value = some 5; argument = some 5; result = none; results = 0 };
  threads = in_function ∷ outside ∷ [];
}

has_first_reached : Reach ℕ 2 has_first
unfolding new const_into_u8
has_first_reached =
    later
      (later
        (later (later start (move 0 outside refl (call 5)))
          (move 0 (looping 5) refl (exchange 5 refl)))
        (move 0 (first 5) refl (write_bootstrap 5)))
      (move 0 bootstrapped refl store_running)

abbrev has_panicked : System ℕ
has_panicked = record { lock = has_first.lock; threads = function_panicked ∷ outside ∷ [] }

has_panicked_reached : Reach ℕ 2 has_panicked
has_panicked_reached = later has_first_reached (move 0 in_function refl unwind)

-- Thread 1 still has the first value when the lock is in `Init` with another.
abbrev stale : System ℕ
stale = record {
  lock = record { state = 3; value = some 7; argument = some 5; result = some 7; results = 1 };
  threads = reading ∷ holding (some 5) ∷ [];
}

stale_reached : Reach ℕ 2 stale
unfolding const_into_u8 get_check const_from_u8
stale_reached =
    later
      (later
        (later
          (later
            (later (later has_first_reached (move 1 outside refl (get refl)))
              (move 1 reading refl read))
            (move 0 in_function refl (return_value 7)))
          (move 0 (returned 7) refl (store_saving 7)))
        (move 0 (saving_true 7) refl (write_true 7)))
      (move 0 written_true refl finish)

bootstrap_value_lem_example :
    (stale.lock.results ≤ 1)
    × (bootstrap_round stale.lock.state ≢ lost)
    × (bootstrap_round stale.lock.state ≢ panics)
    × (get_check stale.lock.state ≢ panic)
    × ((get_check stale.lock.state ≡ ok true) → (v : ℕ) × (stale.lock.value ≡ some v))
    × ((stale.lock.state ≡ const_into_u8 init)
        → (v : ℕ) × (stale.lock.value ≡ some v)
          × (stale.lock.result ≡ some v)
          × (stale.lock.results ≡ 1))
bootstrap_value_lem_example = bootstrap_value_lem stale_reached

panic_not_poisoned_example :
    (has_panicked.lock.state ≡ const_into_u8 running)
    × (bootstrap_round has_panicked.lock.state ≡ again)
    × (get_check has_panicked.lock.state ≡ ok true)
    × ((v : ℕ) × (has_panicked.lock.value ≡ some v) × (has_panicked.lock.argument ≡ some v))
    × (has_panicked.lock.results ≡ 0)
    × ((s' : System ℕ)
        → Step ℕ has_panicked s'
        → (get_elem? s'.threads 0 ≡ some function_panicked) × (s'.lock ≡ has_panicked.lock))
panic_not_poisoned_example = panic_not_poisoned has_panicked_reached 0 refl
