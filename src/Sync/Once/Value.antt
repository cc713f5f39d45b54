-- ===== src/Sync/Once/Value.antt =====
-- What `Once` and `OnceLock` promise.
use native.Mathlib.Decide.{dec_lt}
use popcorn.Prelude.{
  ℕ, ◌≤◌, ◌<◌, ◌≡◌, ◌≢◌, ◌∙◌, ◌⊎◌, inl, inr, true, Option, some, Option-cases, get_elem?, arith,
  refl,
}
use popcorn.Prelude.Counting.{total, weight-le-total, total-pos}
use popcorn.Prelude.Outcome.{ok, panic}
use popcorn.Sync.Once.{
  State, uncalled, running, called, poison, const_into_u8, const_from_u8, call_once_round,
  is_complete, lost, Thread, outside, looping, in_function, written, unwinding, reading, holding,
  panicked, System, Reach,
}
use popcorn.Sync.Once.Invariant.{calls, writes, reads, Reach-Inv}

from-into : (s : State) → const_from_u8 (const_into_u8 s) ≡ ok s
unfolding const_from_u8 const_into_u8
from-into uncalled = refl
from-into running = refl
from-into called = refl
from-into poison = refl

-- The conversions of the states to and from bytes undo each other.
pub const_from_u8-const_into_u8 :
    ((s : State) → const_from_u8 (const_into_u8 s) ≡ ok s)
    × ((v : ℕ) (s : State) → const_from_u8 v ≡ ok s → const_into_u8 s ≡ v)
unfolding const_from_u8 const_into_u8
const_from_u8-const_into_u8 = (from-into, λ v s e. ground arith)

in_call :
    {T : Type 0} (t : Thread T)
    → 0 < calls t
    → (t ≡ in_function) ⊎ ((t ≡ unwinding) ⊎ (t ≡ written))
in_call in_function h = inl refl
in_call unwinding h = inr (inl refl)
in_call written h = absurd (omega arith)
in_call outside h = absurd (omega arith)
in_call looping h = absurd (omega arith)
in_call reading h = absurd (omega arith)
in_call (holding o) h = absurd (omega arith)
in_call panicked h = absurd (omega arith)

past_write : {T : Type 0} (t : Thread T) → 0 < writes t → t ≡ written
past_write written h = refl
past_write in_function h = absurd (omega arith)
past_write unwinding h = absurd (omega arith)
past_write outside h = absurd (omega arith)
past_write looping h = absurd (omega arith)
past_write reading h = absurd (omega arith)
past_write (holding o) h = absurd (omega arith)
past_write panicked h = absurd (omega arith)

module _ {T : Type 0} {n : ℕ} {s : System T} (r : Reach T n s) where
  -- However many threads call the lock, interleaved at every access, the function returns at most
  -- once, neither `unreachable!` nor the conversion of `is_complete` panics, and if the lock is
  -- complete it has a value and the function has returned once.
  pub called_at_most_once :
      (s.lock.results ≤ 1)
      × (call_once_round s.lock.once ≢ lost)
      × (is_complete s.lock.once ≢ panic)
      × ((is_complete s.lock.once ≡ ok true)
          → (v : T) × (s.lock.value ≡ some v) × (s.lock.results ≡ 1))
  unfolding call_once_round is_complete const_from_u8 const_into_u8
  called_at_most_once =
      let p = (Reach-Inv r).phase in
      (
        ground (arith, p),
        λ e. ground (arith, p, e),
        λ e. ground (arith, p, e),
        λ e. elim (Option-cases s.lock.value) [
          | inl nothing ↦ absurd (ground (arith, p, e, nothing))
          | inr (v, there) ↦ (v, there, ground (arith, p, e))
        ],
      )

  -- Whatever two threads read through their references is one value, which is in the lock.
  pub readers_agree :
      (i j : ℕ) (o o' : Option T)
      → get_elem? s.threads i ≡ some (holding o)
      → get_elem? s.threads j ≡ some (holding o')
      → (v : T) × (o ≡ some v) × (o' ≡ some v) × (s.lock.value ≡ some v)
  readers_agree i j o o' at_i at_j =
      let inv = Reach-Inv r in
      let some_reader = weight-le-total reads s.threads i (holding o) at_i in
      elim (Option-cases s.lock.value) [
        | inl nothing ↦ absurd (ground (arith, inv.phase, some_reader, nothing))
        | inr (v, there) ↦ (v, inv.held i o at_i ∙ there, inv.held j o' at_j ∙ there, there)
      ]

  -- While the state is `Running` some thread is in the function, unwinding from it, or past the
  -- write of its value.
  pub running_has_runner :
      s.lock.once ≡ const_into_u8 running
      → (i : ℕ) × (t : Thread T) × (get_elem? s.threads i ≡ some t)
        × ((t ≡ in_function) ⊎ ((t ≡ unwinding) ⊎ (t ≡ written)))
  unfolding const_into_u8
  running_has_runner e =
      let p = (Reach-Inv r).phase in
      elim (dec_lt 0 (total calls s.threads)) [
        | yes h ↦ let (i, t, at, w) = total-pos calls s.threads h in (i, t, at, in_call t w)
        | no h ↦
            let (i, t, at, w) = total-pos writes s.threads (ground (arith, p, e, h)) in
            (i, t, at, inr (inr (past_write t w)))
      ]
