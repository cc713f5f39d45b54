-- ===== src/Tests/OnceCell.antt =====
-- Two threads and a lock that is set once: thread 0 calls the function, thread 1 waits and reads.
use popcorn.Prelude.{ℕ, ◌≤◌, ◌≡◌, ◌≢◌, ◌⊎◌, refl, true, some, none, [], ◌∷◌, get_elem?}
use popcorn.Prelude.Outcome.{ok, panic}
use popcorn.Sync.Once.{
  const_into_u8, call_once_round, is_complete, lost, Thread, outside, looping, in_function, written,
  unwinding, reading, holding, System, new, call, exchange, go_round, go_back, write, finish, read,
  move, Reach, start, later,
}
use popcorn.Sync.Once.Value.{called_at_most_once, readers_agree, running_has_runner}

abbrev in_call : System ℕ
in_call = record {
  lock = record { once = 1; value = none; results = 0 };
  threads = in_function ∷ outside ∷ [];
}

in_call_reached : Reach ℕ 2 in_call
unfolding new const_into_u8
in_call_reached =
    later (later start (move 0 outside refl call)) (move 0 looping refl (exchange refl))

abbrev both_hold : System ℕ
both_hold = record {
  lock = record { once = 2; value = some 5; results = 1 };
  threads = holding (some 5) ∷ holding (some 5) ∷ [];
}

both_hold_reached : Reach ℕ 2 both_hold
unfolding const_into_u8 call_once_round
both_hold_reached =
    later
      (later
        (later
          (later
            (later
              (later (later in_call_reached (move 1 outside refl call))
                (move 1 looping refl (go_round refl)))
              (move 0 in_function refl (write 5)))
            (move 0 written refl finish))
          (move 1 looping refl (go_back refl)))
        (move 1 reading refl read))
      (move 0 reading refl read)

called_at_most_once_example :
    (both_hold.lock.results ≤ 1)
    × (call_once_round both_hold.lock.once ≢ lost)
    × (is_complete both_hold.lock.once ≢ panic)
    × ((is_complete both_hold.lock.once ≡ ok true)
        → (v : ℕ) × (both_hold.lock.value ≡ some v) × (both_hold.lock.results ≡ 1))
called_at_most_once_example = called_at_most_once both_hold_reached

readers_agree_example :
    (v : ℕ) × (some 5 ≡ some v) × (some 5 ≡ some v) × (both_hold.lock.value ≡ some v)
readers_agree_example = readers_agree both_hold_reached 0 1 (some 5) (some 5) refl refl

running_has_runner_example :
    (i : ℕ) × (t : Thread ℕ) × (get_elem? in_call.threads i ≡ some t)
    × ((t ≡ in_function) ⊎ ((t ≡ unwinding) ⊎ (t ≡ written)))
unfolding const_into_u8
running_has_runner_example = running_has_runner in_call_reached refl
