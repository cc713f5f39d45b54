-- ===== src/Sync/Once/Bootstrap/Invariant.antt =====
-- How far the one thread that has won the exchange has come, and what the atomic, the value and the
-- function's result then are.
use popcorn.Prelude.{
  ℕ, zero, suc, ◌≤◌, ◌<◌, ◌≡◌, ◌⊎◌, Option, none, some, List, [], ◌∷◌, get_elem?, arith,
}
use popcorn.Prelude.Counting.{total, weight-le-total}
use popcorn.Sync.Once.Bootstrap.{
  Thread, outside, looping, first, bootstrapped, in_function, returned, saving_true, written_true,
  reading, holding, function_panicked, panicked, BootstrapOnceLock, System,
}

module _ {T : Type 0} where
  -- The stage of the thread that has won the exchange: two such threads would make 16 or more.
  abbrev pub stage : Thread T → ℕ
  stage (first t) = 8
  stage bootstrapped = 9
  stage in_function = 10
  stage function_panicked = 11
  stage (returned t) = 12
  stage (saving_true t) = 13
  stage written_true = 14
  stage _ = 0

  -- The threads that read the value, now or before.
  abbrev pub reads : Thread T → ℕ
  reads reading = 1
  reads (holding o) = 1
  reads _ = 0

  abbrev pub filled : Option T → ℕ
  filled none = 0
  filled (some t) = 1

  pub stage_cases : (t : Thread T) → (stage t ≡ 0) ⊎ (8 ≤ stage t)
  stage_cases (first t) = ground arith
  stage_cases bootstrapped = ground arith
  stage_cases in_function = ground arith
  stage_cases function_panicked = ground arith
  stage_cases (returned t) = ground arith
  stage_cases (saving_true t) = ground arith
  stage_cases written_true = ground arith
  stage_cases outside = ground arith
  stage_cases (looping t) = ground arith
  stage_cases reading = ground arith
  stage_cases (holding o) = ground arith
  stage_cases panicked = ground arith

  pub total_cases :
      (threads : List (Thread T)) → (total stage threads ≡ 0) ⊎ (8 ≤ total stage threads)
  unfolding total
  total_cases [] = ground arith
  total_cases (t ∷ threads) = ground (arith, stage_cases t, total_cases threads)

  -- If there is at most one such thread, the total is its stage.
  pub only_one :
      (threads : List (Thread T)) (i : ℕ) (t : Thread T)
      → get_elem? threads i ≡ some t
      → 0 < stage t
      → total stage threads < 16
      → total stage threads ≡ stage t
  unfolding total
  only_one [] i t at pos few = absurd (ground (arith, at))
  only_one (u ∷ threads) zero t at pos few = ground (arith, at, stage_cases t, total_cases threads)
  only_one (u ∷ threads) (suc i) t at pos few =
      let rest = weight-le-total stage threads i t at in
      ground (arith, stage_cases t, stage_cases u, rest, only_one threads i t at)

-- With the thread that won at stage `g` and `r` readers, `v` being 1 if there is a value.
abbrev pub Phase : ℕ → ℕ → ℕ → ℕ → ℕ → Type 0
Phase state results g r v =
    ((state ≡ 0) × (g ≡ 0) × (r ≡ 0) × (v ≡ 0) × (results ≡ 0))
    ⊎ ((state ≡ 1) × (g ≡ 8) × (r ≡ 0) × (v ≡ 0) × (results ≡ 0))
    ⊎ ((state ≡ 1) × (g ≡ 9) × (r ≡ 0) × (v ≡ 1) × (results ≡ 0))
    ⊎ ((state ≡ 2) × (10 ≤ g) × (g ≤ 11) × (v ≡ 1) × (results ≡ 0))
    ⊎ ((state ≡ 2) × (g ≡ 12) × (v ≡ 1) × (results ≡ 1))
    ⊎ ((state ≡ 1) × (13 ≤ g) × (g ≤ 14) × (v ≡ 1) × (results ≡ 1))
    ⊎ ((state ≡ 3) × (g ≡ 0) × (v ≡ 1) × (results ≡ 1))

module _ {T : Type 0} where
  abbrev pub PhaseOf : BootstrapOnceLock T → List (Thread T) → Type 0
  PhaseOf l threads =
      Phase l.state l.results (total stage threads) (total reads threads) (filled l.value)

  -- What a thread has of the values: its first value, if it has won, what the function returned to
  -- it, or what it read.
  abbrev pub Own : Option T → Option T → Thread T → Type 0
  Own argument result (first t) = argument ≡ some t
  Own argument result (returned t) = result ≡ some t
  Own argument result (saving_true t) = result ≡ some t
  Own argument result (holding o) = (v : T) × (o ≡ some v)
  Own argument result _ = result ≡ result

  -- Until the function has returned, the value is the first one.
  abbrev pub Early : BootstrapOnceLock T → ℕ → Type 0
  Early l g = (g ≡ 9) ⊎ (l.state ≡ 2) → l.value ≡ l.argument

  -- After the second write the value is what the function returned.
  abbrev pub Final : BootstrapOnceLock T → ℕ → Type 0
  Final l g = (g ≡ 14) ⊎ (l.state ≡ 3) → l.value ≡ l.result

  pub record Inv (s : System T) : Type 0 where
    pub phase : PhaseOf s.lock s.threads
    pub own :
        (i : ℕ) (t : Thread T)
        → get_elem? s.threads i ≡ some t
        → Own s.lock.argument s.lock.result t
    pub early : Early s.lock (total stage s.threads)
    pub final : Final s.lock (total stage s.threads)
