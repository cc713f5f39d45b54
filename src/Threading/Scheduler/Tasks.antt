-- ===== src/Threading/Scheduler/Tasks.antt =====
-- What reads of the map of tasks see of the writes to it.
use popcorn.Prelude.{
  ℕ, zero, suc, ◌≡◌, ◌≢◌, ◌∙◌, refl, sym, inl, inr, Option, none, some, Option-cases, List, [], ◌∷◌,
  arith, ◌==◌, if◌then◌else◌,
}
use native.Mathlib.Decide.{ℕ_discrete}
use popcorn.Threading.Scheduler.{
  ThreadState, Tid, ThreadControlBlock, get, get_ptr, insert, write_state,
}

module _ {Rest : Type 0} where
  abbrev pub with_state :
      ThreadState → Option (ThreadControlBlock Rest) → Option (ThreadControlBlock Rest)
  with_state s none = none
  with_state s (some t) = some (record t { state = s })

  pub get_ptr-get :
      (m : List (Tid × ThreadControlBlock Rest)) (k : Tid) (t : ThreadControlBlock Rest)
      → get m k ≡ some t
      → (p : ℕ) × (get_ptr m k ≡ some p)
  unfolding get get_ptr
  get_ptr-get [] k t e = absurd (ground arith)
  get_ptr-get ((j, u) ∷ m) k t e = elim (ℕ_discrete j k) [
    | yes same ↦ (0, ground (arith, same))
    | no other ↦
        let (p, f) = get_ptr-get m k t (ground (arith, other)) in (suc p, ground (arith, other, f))
  ]

  -- The entry at the place 0 is the first, and one at a later place is in the rest.
  get_ptr-zero :
      (i : Tid) (u : ThreadControlBlock Rest) (m : List (Tid × ThreadControlBlock Rest)) (k : Tid)
      → get_ptr ((i, u) ∷ m) k ≡ some 0
      → i ≡ k
  unfolding get_ptr
  get_ptr-zero i u m k e = elim (Option-cases (get_ptr m k)) [
    | inl f ↦ ground (arith, f)
    | inr (p, f) ↦ ground (arith, f)
  ]

  get_ptr-suc :
      (i : Tid) (u : ThreadControlBlock Rest) (m : List (Tid × ThreadControlBlock Rest)) (k : Tid)
      (p : ℕ)
      → get_ptr ((i, u) ∷ m) k ≡ some (suc p)
      → (get_ptr m k ≡ some p) × (i ≢ k)
  unfolding get_ptr
  get_ptr-suc i u m k p e = elim (Option-cases (get_ptr m k)) [
    | inl f ↦ absurd (ground (arith, f))
    | inr (q, f) ↦ (ground (arith, f), λ same. ground (arith, same))
  ]

  pub get-write_state :
      (m : List (Tid × ThreadControlBlock Rest)) (k j : Tid) (p : ℕ) (s : ThreadState)
      → get_ptr m k ≡ some p
      → get (write_state m p s) j ≡ (if k == j then with_state s (get m j) else get m j)
  unfolding get get_ptr write_state
  get-write_state [] k j p s e = absurd (ground arith)
  get-write_state ((i, u) ∷ m) k j zero s e = ground (arith, get_ptr-zero i u m k e)
  get-write_state ((i, u) ∷ m) k j (suc p) s e =
      let (f, other) = get_ptr-suc i u m k p e in ground (arith, other, get-write_state m k j p s f)

  pub get_ptr-write_state :
      (m : List (Tid × ThreadControlBlock Rest)) (k : Tid) (p : ℕ) (s : ThreadState)
      → get_ptr (write_state m p s) k ≡ get_ptr m k
  unfolding get_ptr write_state
  get_ptr-write_state [] k p s = refl
  get_ptr-write_state ((i, u) ∷ m) k zero s = refl
  get_ptr-write_state ((i, u) ∷ m) k (suc p) s = ground (arith, get_ptr-write_state m k p s)

  pub get_ptr-ne :
      (m : List (Tid × ThreadControlBlock Rest)) (k j : Tid) (p : ℕ)
      → get_ptr m k ≡ some p
      → get_ptr m j ≡ some p
      → k ≡ j
  unfolding get_ptr
  get_ptr-ne [] k j p e f = absurd (ground arith)
  get_ptr-ne ((i, u) ∷ m) k j zero e f = sym (get_ptr-zero i u m k e) ∙ get_ptr-zero i u m j f
  get_ptr-ne ((i, u) ∷ m) k j (suc p) e f =
      get_ptr-ne m k j p (get_ptr-suc i u m k p e).0 (get_ptr-suc i u m j p f).0

  pub get-insert :
      (m : List (Tid × ThreadControlBlock Rest)) (k j : Tid) (u : ThreadControlBlock Rest)
      → get m k ≡ none
      → get (insert m k u) j ≡ (if k == j then some u else get m j)
  unfolding get insert
  get-insert [] k j u e = ground arith
  get-insert ((i, t) ∷ m) k j u e = ground (arith, get-insert m k j u)
