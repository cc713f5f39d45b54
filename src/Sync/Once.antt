-- ===== src/Sync/Once.antt =====
-- kernel_api/src/sync/once.rs: `Once`, and `OnceLock`, which writes its value in the closure of a
-- call of `call_once`. Threads interleave at each access to the atomic and to the value; what the
-- user's function returns, or that it panics, is left open. A reference to the value is what it
-- refers to. Memory orderings other than the atomic's own are not modelled.
pub mod Bootstrap
pub mod Invariant
pub mod Value
use popcorn.Prelude.{
  ℕ, zero, suc, ◌+◌, ◌≡◌, Bool, true, false, Option, none, some, List, get_elem?, set, replicate,
  ◌==◌, if◌then◌else◌,
}
use popcorn.Prelude.Outcome.{Outcome, ok, err, panic, ◌>>=◌}

pub data State : Type 0 where
  uncalled running called poison : State

unfoldable pub const_into_u8 : State → ℕ
const_into_u8 uncalled = 0
const_into_u8 running = 1
const_into_u8 called = 2
const_into_u8 poison = 3

unfoldable pub const_from_u8 : ℕ → Outcome State
const_from_u8 value =
    if value == 0
    then ok uncalled
    else if value == 1
    then ok running
    else if value == 2
    then ok called
    else if value == 3
    then ok poison
    else err

-- What a round of the loop of `call_once` does when the exchange fails and finds `s`: it panics,
-- goes round again, or returns; `lost` is `unreachable!`.
pub data Round : Type 0 where
  panics again returns lost : Round

unfoldable pub call_once_round : ℕ → Round
call_once_round s =
    if s == const_into_u8 poison
    then panics
    else if s == const_into_u8 running
    then again
    else if s == const_into_u8 called
    then returns
    else if s == const_into_u8 uncalled
    then again
    else lost

-- `is_complete`: the conversion is unwrapped.
unfoldable pub is_complete : ℕ → Outcome Bool
is_complete value = elim (const_from_u8 value) [
  | ok called ↦ ok true
  | ok _ ↦ ok false
  | err ↦ panic
  | panic ↦ panic
]

-- Where a thread is: outside, in the loop of `call_once`, in the user's function, past the write of
-- its value, unwinding with the guard to drop, about to read the value, or with a reference to what
-- it read; or it has panicked.
pub data Thread (T : Type 0) : Type 0 where
  outside : Thread T
  looping : Thread T
  in_function : Thread T
  written : Thread T
  unwinding : Thread T
  reading : Thread T
  holding : Option T → Thread T
  panicked : Thread T

-- The lock, and the number of times that the user's function has returned.
pub record OnceLock (T : Type 0) : Type 0 where
  pub once : ℕ
  pub value : Option T
  pub results : ℕ

pub record System (T : Type 0) : Type 0 where
  pub lock : OnceLock T
  pub threads : List (Thread T)

module _ {T : Type 0} where
  unfoldable pub new : OnceLock T
  new = record { once = const_into_u8 uncalled; value = none; results = 0 }

-- One step of one thread. `compare_exchange_weak` may fail although it finds `Uncalled`.
pub data Move (T : Type 0) (l : OnceLock T) : Thread T → OnceLock T → Thread T → Type 0 where
  call : Move T l outside l looping
  exchange :
      l.once ≡ const_into_u8 uncalled
      → Move T l looping (record l { once = const_into_u8 running }) in_function
  go_round : call_once_round l.once ≡ again → Move T l looping l looping
  go_back : call_once_round l.once ≡ returns → Move T l looping l reading
  go_down : call_once_round l.once ≡ panics → Move T l looping l panicked
  write :
      (t : T)
      → Move T l in_function
          (record { once = l.once; value = some t; results = l.results + 1 })
          written
  unwind : Move T l in_function l unwinding
  drop_guard : Move T l unwinding (record l { once = const_into_u8 poison }) panicked
  finish : Move T l written (record l { once = const_into_u8 called }) reading
  get : is_complete l.once ≡ ok true → Move T l outside l reading
  read : Move T l reading l (holding l.value)

pub data Step (T : Type 0) (s : System T) : System T → Type 0 where
  move :
      (i : ℕ) (t : Thread T) {l : OnceLock T} {t' : Thread T}
      → get_elem? s.threads i ≡ some t
      → Move T s.lock t l t'
      → Step T s (record { lock = l; threads = set s.threads i t' })

pub data Reach (T : Type 0) (n : ℕ) : System T → Type 0 where
  start : Reach T n (record { lock = new; threads = replicate n outside })
  later : {s s' : System T} → Reach T n s → Step T s s' → Reach T n s'
