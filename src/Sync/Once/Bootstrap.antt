-- ===== src/Sync/Once/Bootstrap.antt =====
-- kernel_api/src/sync/once.rs, `mod bootstrap`: `BootstrapOnceLock`, which has a first value to
-- read while the function for the true value runs. Threads interleave at each access to the atomic
-- and to the value; what the user's function returns, or that it panics, is left open. A reference
-- to the value is what it refers to when it is read.
pub mod Invariant
pub mod Reachable
pub mod Value
use popcorn.Prelude.{
  ℕ, ◌+◌, ◌≡◌, Bool, true, false, Option, none, some, List, get_elem?, set, replicate, ◌==◌,
  if◌then◌else◌, ◌||◌,
}
use popcorn.Prelude.Outcome.{Outcome, ok, err, panic}
use popcorn.Sync.Once.{Round, panics, again, returns, lost}

pub data State : Type 0 where
  uncalled saving running init poison : State

unfoldable pub const_into_u8 : State → ℕ
const_into_u8 uncalled = 0
const_into_u8 saving = 1
const_into_u8 running = 2
const_into_u8 init = 3
const_into_u8 poison = 4

unfoldable pub const_from_u8 : ℕ → Outcome State
const_from_u8 value =
    if value == 0
    then ok uncalled
    else if value == 1
    then ok saving
    else if value == 2
    then ok running
    else if value == 3
    then ok init
    else if value == 4
    then ok poison
    else err

-- The test of `get`, with its conversion unwrapped: true if it reads the value, false if it
-- returns `None`.
unfoldable pub get_check : ℕ → Outcome Bool
get_check state = elim (const_from_u8 state) [
  | ok poison ↦ panic
  | ok uncalled ↦ ok false
  | ok saving ↦ ok false
  | ok _ ↦ ok true
  | err ↦ panic
  | panic ↦ panic
]

-- What a round of the loop of `bootstrap` does when the exchange fails and finds `s`.
unfoldable pub bootstrap_round : ℕ → Round
bootstrap_round s =
    if s == const_into_u8 poison
    then panics
    else if (s == const_into_u8 running) || (s == const_into_u8 saving)
    then again
    else if s == const_into_u8 init
    then returns
    else if s == const_into_u8 uncalled
    then again
    else lost

-- Where a thread is: outside, in the loop of `bootstrap` with its first value, about to write it, past
-- that write, in the user's function, with what it returned, past the store of `Saving`, past the
-- second write, about to read the value, or with a reference to what it read; or the function or
-- the lock has panicked.
pub data Thread (T : Type 0) : Type 0 where
  outside : Thread T
  looping : T → Thread T
  first : T → Thread T
  bootstrapped : Thread T
  in_function : Thread T
  returned : T → Thread T
  saving_true : T → Thread T
  written_true : Thread T
  reading : Thread T
  holding : Option T → Thread T
  function_panicked : Thread T
  panicked : Thread T

-- The lock; the first value that the call which has won the exchange was given; what the user's
-- function returned last, and how many times it has returned.
pub record BootstrapOnceLock (T : Type 0) : Type 0 where
  pub state : ℕ
  pub value : Option T
  pub argument : Option T
  pub result : Option T
  pub results : ℕ

pub record System (T : Type 0) : Type 0 where
  pub lock : BootstrapOnceLock T
  pub threads : List (Thread T)

module _ {T : Type 0} where
  unfoldable pub new : BootstrapOnceLock T
  new = record {
    state = const_into_u8 uncalled;
    value = none;
    argument = none;
    result = none;
    results = 0;
  }

-- One step of one thread. `compare_exchange_weak` may fail although it finds `Uncalled`. No guard
-- is dropped when the function panics.
pub data Move (T : Type 0) (l : BootstrapOnceLock T)
    : Thread T → BootstrapOnceLock T → Thread T → Type 0 where
  call : (t : T) → Move T l outside l (looping t)
  exchange :
      (t : T)
      → l.state ≡ const_into_u8 uncalled
      → Move T l
          (looping t)
          (record l { state = const_into_u8 saving; argument = some t })
          (first t)
  go_round : (t : T) → bootstrap_round l.state ≡ again → Move T l (looping t) l (looping t)
  go_back : (t : T) → bootstrap_round l.state ≡ returns → Move T l (looping t) l reading
  go_down : (t : T) → bootstrap_round l.state ≡ panics → Move T l (looping t) l panicked
  write_bootstrap : (t : T) → Move T l (first t) (record l { value = some t }) bootstrapped
  store_running : Move T l bootstrapped (record l { state = const_into_u8 running }) in_function
  unwind : Move T l in_function l function_panicked
  return_value :
      (t : T)
      → Move T l in_function
          (record {
            state = l.state;
            value = l.value;
            argument = l.argument;
            result = some t;
            results = l.results + 1;
          })
          (returned t)
  store_saving :
      (t : T) → Move T l (returned t) (record l { state = const_into_u8 saving }) (saving_true t)
  write_true : (t : T) → Move T l (saving_true t) (record l { value = some t }) written_true
  finish : Move T l written_true (record l { state = const_into_u8 init }) reading
  get : get_check l.state ≡ ok true → Move T l outside l reading
  get_down : get_check l.state ≡ panic → Move T l outside l panicked
  read : Move T l reading l (holding l.value)

pub data Step (T : Type 0) (s : System T) : System T → Type 0 where
  move :
      (i : ℕ) (t : Thread T) {l : BootstrapOnceLock T} {t' : Thread T}
      → get_elem? s.threads i ≡ some t
      → Move T s.lock t l t'
      → Step T s (record { lock = l; threads = set s.threads i t' })

pub data Reach (T : Type 0) (n : ℕ) : System T → Type 0 where
  start : Reach T n (record { lock = new; threads = replicate n outside })
  later : {s s' : System T} → Reach T n s → Step T s s' → Reach T n s'
