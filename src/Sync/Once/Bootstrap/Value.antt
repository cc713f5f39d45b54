-- ===== src/Sync/Once/Bootstrap/Value.antt =====
-- What `BootstrapOnceLock` promises, and what a panic of the function leaves behind.
use native.Mathlib.Decide.{ℕ_discrete}
use popcorn.Prelude.{
  ℕ, ◌≤◌, ◌<◌, ◌≡◌, ◌≢◌, ◌∙◌, inl, inr, true, some, Option-cases, get_elem?, arith, refl, sym,
  get_elem?-set_ne,
}
use popcorn.Prelude.Counting.{total, two-le-total}
use popcorn.Prelude.Outcome.{ok, panic}
use popcorn.Sync.Once.{again, lost, panics}
use popcorn.Sync.Once.Bootstrap.{
  running, init, const_into_u8, const_from_u8, bootstrap_round, get_check, Thread,
  BootstrapOnceLock, function_panicked, System, Move, call, exchange, go_round, go_back, go_down,
  write_bootstrap, store_running, unwind, return_value, store_saving, write_true, finish, get,
  get_down, read, Step, move, Reach,
}
use popcorn.Sync.Once.Bootstrap.Invariant.{stage, stage_cases, only_one}
use popcorn.Sync.Once.Bootstrap.Reachable.{few_stages, Reach-Inv}

module _ {T : Type 0} where
  no_move :
      (l l' : BootstrapOnceLock T) (t t' : Thread T) → Move T l t l' t' → t ≢ function_panicked
  no_move l l' t t' (call v) same = absurd (ground (arith, same))
  no_move l l' t t' (exchange v e) same = absurd (ground (arith, same))
  no_move l l' t t' (go_round v e) same = absurd (ground (arith, same))
  no_move l l' t t' (go_back v e) same = absurd (ground (arith, same))
  no_move l l' t t' (go_down v e) same = absurd (ground (arith, same))
  no_move l l' t t' (write_bootstrap v) same = absurd (ground (arith, same))
  no_move l l' t t' store_running same = absurd (ground (arith, same))
  no_move l l' t t' unwind same = absurd (ground (arith, same))
  no_move l l' t t' (return_value v) same = absurd (ground (arith, same))
  no_move l l' t t' (store_saving v) same = absurd (ground (arith, same))
  no_move l l' t t' (write_true v) same = absurd (ground (arith, same))
  no_move l l' t t' finish same = absurd (ground (arith, same))
  no_move l l' t t' (get e) same = absurd (ground (arith, same))
  no_move l l' t t' (get_down e) same = absurd (ground (arith, same))
  no_move l l' t t' read same = absurd (ground (arith, same))

  -- While the lock is in `Running`, only the thread that has won the exchange changes it.
  bystander :
      (l l' : BootstrapOnceLock T) (t t' : Thread T)
      → Move T l t l' t'
      → stage t ≡ 0
      → l.state ≡ 2
      → l' ≡ l
  unfolding const_into_u8
  bystander l l' t t' (call v) low at_running = refl
  bystander l l' t t' (exchange v e) low at_running = absurd (ground (arith, low, at_running))
  bystander l l' t t' (go_round v e) low at_running = refl
  bystander l l' t t' (go_back v e) low at_running = refl
  bystander l l' t t' (go_down v e) low at_running = refl
  bystander l l' t t' (write_bootstrap v) low at_running = absurd (ground (arith, low, at_running))
  bystander l l' t t' store_running low at_running = absurd (ground (arith, low, at_running))
  bystander l l' t t' unwind low at_running = absurd (ground (arith, low, at_running))
  bystander l l' t t' (return_value v) low at_running = absurd (ground (arith, low, at_running))
  bystander l l' t t' (store_saving v) low at_running = absurd (ground (arith, low, at_running))
  bystander l l' t t' (write_true v) low at_running = absurd (ground (arith, low, at_running))
  bystander l l' t t' finish low at_running = absurd (ground (arith, low, at_running))
  bystander l l' t t' (get e) low at_running = refl
  bystander l l' t t' (get_down e) low at_running = refl
  bystander l l' t t' read low at_running = refl

  stays_panicked :
      (s s' : System T) (i : ℕ)
      → get_elem? s.threads i ≡ some function_panicked
      → total stage s.threads < 16
      → s.lock.state ≡ 2
      → Step T s s'
      → (get_elem? s'.threads i ≡ some function_panicked) × (s'.lock ≡ s.lock)
  stays_panicked s s' i at few at_running (move j t {l = l'} {t' = t'} at_j m) =
      elim (ℕ_discrete j i) [
        | yes same ↦ absurd (no_move s.lock l' t t' m (ground (arith, at, at_j, same)))
        | no other ↦
            let both = two-le-total stage s.threads j i t function_panicked other at_j at in
            (
              get_elem?-set_ne s.threads t' other ∙ at,
              bystander s.lock l' t t' m (ground (arith, stage_cases t, both, few)) at_running,
            )
      ]

module _ {T : Type 0} {n : ℕ} {s : System T} (r : Reach T n s) where
  -- However many threads use the lock, interleaved at every access: the function returns at most
  -- once; neither `unreachable!`, nor the panic on a poisoned lock, nor a panic of `get` happens;
  -- where `get` reads there is a value; and in `Init` the value is what the function has returned.
  pub bootstrap_value_lem :
      (s.lock.results ≤ 1)
      × (bootstrap_round s.lock.state ≢ lost)
      × (bootstrap_round s.lock.state ≢ panics)
      × (get_check s.lock.state ≢ panic)
      × ((get_check s.lock.state ≡ ok true) → (v : T) × (s.lock.value ≡ some v))
      × ((s.lock.state ≡ const_into_u8 init)
          → (v : T) × (s.lock.value ≡ some v) × (s.lock.result ≡ some v) × (s.lock.results ≡ 1))
  unfolding bootstrap_round get_check const_from_u8 const_into_u8
  bootstrap_value_lem =
      let p = (Reach-Inv r).phase in
      let final = (Reach-Inv r).final in
      (
        ground (arith, p),
        λ e. ground (arith, p, e),
        λ e. ground (arith, p, e),
        λ e. ground (arith, p, e),
        λ e. elim (Option-cases s.lock.value) [
          | inl nothing ↦ absurd (ground (arith, p, e, nothing))
          | inr there ↦ there
        ],
        λ e. elim (Option-cases s.lock.value) [
          | inl nothing ↦ absurd (ground (arith, p, e, nothing))
          | inr (v, there) ↦ (v, there, ground (arith, final (inr e), there), ground (arith, p, e))
        ],
      )

  -- If the function has panicked, the lock is in `Running` and not poisoned: every round of the loop
  -- of `bootstrap` goes round again; `get` reads, and what it finds is the first value that the call
  -- which has won the exchange was given; the function has not returned; and no step of any thread
  -- changes the lock or the thread that has panicked.
  pub panic_not_poisoned :
      (i : ℕ)
      → get_elem? s.threads i ≡ some function_panicked
      → (s.lock.state ≡ const_into_u8 running)
        × (bootstrap_round s.lock.state ≡ again)
        × (get_check s.lock.state ≡ ok true)
        × ((v : T) × (s.lock.value ≡ some v) × (s.lock.argument ≡ some v))
        × (s.lock.results ≡ 0)
        × ((s' : System T)
            → Step T s s'
            → (get_elem? s'.threads i ≡ some function_panicked) × (s'.lock ≡ s.lock))
  unfolding bootstrap_round get_check const_from_u8 const_into_u8
  panic_not_poisoned i at =
      let p = (Reach-Inv r).phase in
      let few = few_stages s.lock s.threads p in
      let alone = only_one s.threads i function_panicked at (omega arith) few in
      let at_running : s.lock.state ≡ 2 = ground (arith, p, alone) in
      (
        at_running,
        ground (arith, at_running),
        ground (arith, at_running),
        elim (Option-cases s.lock.value) [
          | inl nothing ↦ absurd (ground (arith, p, at_running, nothing))
          | inr (v, there) ↦ (v, there, sym ((Reach-Inv r).early (inr at_running)) ∙ there)
        ],
        ground (arith, p, alone),
        λ s' st. stays_panicked s s' i at few at_running st,
      )
