-- ===== src/Sync/Once/Bootstrap/Reachable.antt =====
-- The invariant holds in every state that threads can reach.
use popcorn.Prelude.{
  ℕ, zero, suc, ◌+◌, ◌≤◌, ◌<◌, ◌≡◌, ◌∙◌, ◌⊎◌, inl, inr, Option, Option-cases, none, some, List,
  get_elem?, set, replicate, arith, refl, sym, get_elem?-set_self, get_elem?-set_ne,
  lt_of_get_elem?,
}
use mathlib.Core.Path.{subst}
use native.Mathlib.Decide.{dec_lt, ℕ_discrete}
use popcorn.Prelude.Counting.{total, total-set, two-le-total, weight-le-total}
use popcorn.Sync.Once.Bootstrap.{
  const_into_u8, const_from_u8, bootstrap_round, get_check, Thread, outside, looping, first,
  bootstrapped, in_function, returned, saving_true, written_true, reading, holding,
  function_panicked, panicked, BootstrapOnceLock, System, new, Move, call, exchange, go_round,
  go_back, go_down, write_bootstrap, store_running, unwind, return_value, store_saving, write_true,
  finish, get, get_down, read, Step, move, Reach, start, later,
}
use popcorn.Sync.Once.Bootstrap.Invariant.{
  stage, reads, filled, only_one, Phase, PhaseOf, Own, Early, Final, Inv,
}

module _ {T : Type 0} where
  -- The stage and the readers after a step of one thread.
  Move-Phase :
      (l l' : BootstrapOnceLock T) (t t' : Thread T) (g r g' r' : ℕ)
      → Move T l t l' t'
      → Phase l.state l.results g r (filled l.value)
      → ((stage t ≡ 0) ⊎ (g ≡ stage t))
      → g' + stage t ≡ g + stage t'
      → r' + reads t ≡ r + reads t'
      → Phase l'.state l'.results g' r' (filled l'.value)
  unfolding const_into_u8 bootstrap_round get_check const_from_u8
  Move-Phase l l' t t' g r g' r' (call v) p at eg er = ground arith
  Move-Phase l l' t t' g r g' r' (exchange v e) p at eg er = ground arith
  Move-Phase l l' t t' g r g' r' (go_round v e) p at eg er = ground arith
  Move-Phase l l' t t' g r g' r' (go_back v e) p at eg er = ground arith
  Move-Phase l l' t t' g r g' r' (go_down v e) p at eg er = ground arith
  Move-Phase l l' t t' g r g' r' (write_bootstrap v) p at eg er = ground arith
  Move-Phase l l' t t' g r g' r' store_running p at eg er = ground arith
  Move-Phase l l' t t' g r g' r' unwind p at eg er = ground arith
  Move-Phase l l' t t' g r g' r' (return_value v) p at eg er = ground arith
  Move-Phase l l' t t' g r g' r' (store_saving v) p at eg er = ground arith
  Move-Phase l l' t t' g r g' r' (write_true v) p at eg er = ground arith
  Move-Phase l l' t t' g r g' r' finish p at eg er = ground arith
  Move-Phase l l' t t' g r g' r' (get e) p at eg er = ground arith
  Move-Phase l l' t t' g r g' r' (get_down e) p at eg er = ground arith
  Move-Phase l l' t t' g r g' r' read p at eg er = ground arith

  Move-Early :
      (l l' : BootstrapOnceLock T) (t t' : Thread T) (g r g' : ℕ)
      → Move T l t l' t'
      → Phase l.state l.results g r (filled l.value)
      → ((stage t ≡ 0) ⊎ (g ≡ stage t))
      → g' + stage t ≡ g + stage t'
      → Own l.argument l.result t
      → Early l g
      → Early l' g'
  unfolding const_into_u8
  Move-Early l l' t t' g r g' (call v) p at eg own early h = ground (arith, early, own)
  Move-Early l l' t t' g r g' (exchange v e) p at eg own early h = ground (arith, early, own)
  Move-Early l l' t t' g r g' (go_round v e) p at eg own early h = ground (arith, early, own)
  Move-Early l l' t t' g r g' (go_back v e) p at eg own early h = ground (arith, early, own)
  Move-Early l l' t t' g r g' (go_down v e) p at eg own early h = ground (arith, early, own)
  Move-Early l l' t t' g r g' (write_bootstrap v) p at eg own early h = ground (arith, early, own)
  Move-Early l l' t t' g r g' store_running p at eg own early h = ground (arith, early, own)
  Move-Early l l' t t' g r g' unwind p at eg own early h = ground (arith, early, own)
  Move-Early l l' t t' g r g' (return_value v) p at eg own early h = ground (arith, early, own)
  Move-Early l l' t t' g r g' (store_saving v) p at eg own early h = ground (arith, early, own)
  Move-Early l l' t t' g r g' (write_true v) p at eg own early h = ground (arith, early, own)
  Move-Early l l' t t' g r g' finish p at eg own early h = ground (arith, early, own)
  Move-Early l l' t t' g r g' (get e) p at eg own early h = ground (arith, early, own)
  Move-Early l l' t t' g r g' (get_down e) p at eg own early h = ground (arith, early, own)
  Move-Early l l' t t' g r g' read p at eg own early h = ground (arith, early, own)

  Move-Final :
      (l l' : BootstrapOnceLock T) (t t' : Thread T) (g r g' : ℕ)
      → Move T l t l' t'
      → Phase l.state l.results g r (filled l.value)
      → ((stage t ≡ 0) ⊎ (g ≡ stage t))
      → g' + stage t ≡ g + stage t'
      → Own l.argument l.result t
      → Final l g
      → Final l' g'
  unfolding const_into_u8
  Move-Final l l' t t' g r g' (call v) p at eg own final h = ground (arith, final, own)
  Move-Final l l' t t' g r g' (exchange v e) p at eg own final h = ground (arith, final, own)
  Move-Final l l' t t' g r g' (go_round v e) p at eg own final h = ground (arith, final, own)
  Move-Final l l' t t' g r g' (go_back v e) p at eg own final h = ground (arith, final, own)
  Move-Final l l' t t' g r g' (go_down v e) p at eg own final h = ground (arith, final, own)
  Move-Final l l' t t' g r g' (write_bootstrap v) p at eg own final h = ground (arith, final, own)
  Move-Final l l' t t' g r g' store_running p at eg own final h = ground (arith, final, own)
  Move-Final l l' t t' g r g' unwind p at eg own final h = ground (arith, final, own)
  Move-Final l l' t t' g r g' (return_value v) p at eg own final h = ground (arith, final, own)
  Move-Final l l' t t' g r g' (store_saving v) p at eg own final h = ground (arith, final, own)
  Move-Final l l' t t' g r g' (write_true v) p at eg own final h = ground (arith, final, own)
  Move-Final l l' t t' g r g' finish p at eg own final h = ground (arith, final, own)
  Move-Final l l' t t' g r g' (get e) p at eg own final h = ground (arith, final, own)
  Move-Final l l' t t' g r g' (get_down e) p at eg own final h = ground (arith, final, own)
  Move-Final l l' t t' g r g' read p at eg own final h = ground (arith, final, own)

  -- What the thread that moves has afterwards.
  Move-Own :
      (l l' : BootstrapOnceLock T) (t t' : Thread T) (g r : ℕ)
      → Move T l t l' t'
      → Phase l.state l.results g r (filled l.value)
      → reads t ≤ r
      → Own l.argument l.result t
      → Own l'.argument l'.result t'
  Move-Own l l' t t' g r (call v) p some_reader own = refl
  Move-Own l l' t t' g r (exchange v e) p some_reader own = refl
  Move-Own l l' t t' g r (go_round v e) p some_reader own = refl
  Move-Own l l' t t' g r (go_back v e) p some_reader own = refl
  Move-Own l l' t t' g r (go_down v e) p some_reader own = refl
  Move-Own l l' t t' g r (write_bootstrap v) p some_reader own = refl
  Move-Own l l' t t' g r store_running p some_reader own = refl
  Move-Own l l' t t' g r unwind p some_reader own = refl
  Move-Own l l' t t' g r (return_value v) p some_reader own = refl
  Move-Own l l' t t' g r (store_saving v) p some_reader own = own
  Move-Own l l' t t' g r (write_true v) p some_reader own = refl
  Move-Own l l' t t' g r finish p some_reader own = refl
  Move-Own l l' t t' g r (get e) p some_reader own = refl
  Move-Own l l' t t' g r (get_down e) p some_reader own = refl
  Move-Own l l' t t' g r read p some_reader own = elim (Option-cases l.value) [
    | inl nothing ↦ absurd (ground (arith, p, some_reader, nothing))
    | inr there ↦ there
  ]

  -- What a thread that has not won has does not depend on the lock's values.
  no_claim : (u : Thread T) (a a' o o' : Option T) → stage u < 8 → Own a o u → Own a' o' u
  no_claim outside a a' o o' low own = refl
  no_claim (looping v) a a' o o' low own = refl
  no_claim (first v) a a' o o' low own = absurd (omega arith)
  no_claim bootstrapped a a' o o' low own = refl
  no_claim in_function a a' o o' low own = refl
  no_claim (returned v) a a' o o' low own = absurd (omega arith)
  no_claim (saving_true v) a a' o o' low own = absurd (omega arith)
  no_claim written_true a a' o o' low own = refl
  no_claim reading a a' o o' low own = refl
  no_claim (holding q) a a' o o' low own = own
  no_claim function_panicked a a' o o' low own = refl
  no_claim panicked a a' o o' low own = refl

  Move-Own_other :
      (l l' : BootstrapOnceLock T) (t t' u : Thread T) (g r : ℕ)
      → Move T l t l' t'
      → Phase l.state l.results g r (filled l.value)
      → stage t + stage u < 16
      → stage u ≤ g
      → Own l.argument l.result u
      → Own l'.argument l'.result u
  unfolding const_into_u8
  Move-Own_other l l' t t' u g r (call v) p few below own = own
  Move-Own_other l l' t t' u g r (exchange v e) p few below own =
      no_claim u l.argument (some v) l.result l.result (ground (arith, p, e)) own
  Move-Own_other l l' t t' u g r (go_round v e) p few below own = own
  Move-Own_other l l' t t' u g r (go_back v e) p few below own = own
  Move-Own_other l l' t t' u g r (go_down v e) p few below own = own
  Move-Own_other l l' t t' u g r (write_bootstrap v) p few below own = own
  Move-Own_other l l' t t' u g r store_running p few below own = own
  Move-Own_other l l' t t' u g r unwind p few below own = own
  Move-Own_other l l' t t' u g r (return_value v) p few below own =
      no_claim u l.argument l.argument l.result (some v) (omega arith) own
  Move-Own_other l l' t t' u g r (store_saving v) p few below own = own
  Move-Own_other l l' t t' u g r (write_true v) p few below own = own
  Move-Own_other l l' t t' u g r finish p few below own = own
  Move-Own_other l l' t t' u g r (get e) p few below own = own
  Move-Own_other l l' t t' u g r (get_down e) p few below own = own
  Move-Own_other l l' t t' u g r read p few below own = own

  pub few_stages :
      (l : BootstrapOnceLock T) (threads : List (Thread T))
      → PhaseOf l threads
      → total stage threads < 16
  few_stages l threads p = ground (arith, p)

  mover_stage :
      (l : BootstrapOnceLock T) (threads : List (Thread T)) (i : ℕ) (t : Thread T)
      → PhaseOf l threads
      → get_elem? threads i ≡ some t
      → (stage t ≡ 0) ⊎ (total stage threads ≡ stage t)
  mover_stage l threads i t p at = elim (dec_lt 0 (stage t)) [
    | yes high ↦ inr (only_one threads i t at high (few_stages l threads p))
    | no low ↦ inl (omega arith)
  ]

  pub Step-Inv : {s s' : System T} → Step T s s' → Inv s → Inv s'
  Step-Inv {s} (move i t {l = l'} {t' = t'} at m) v =
      let stages = total-set stage s.threads i t t' at in
      let alone = mover_stage s.lock s.threads i t v.phase at in
      record {
        phase =
            Move-Phase s.lock l' t t' (total stage s.threads) (total reads s.threads)
              (total stage (set s.threads i t')) (total reads (set s.threads i t')) m v.phase alone
              stages (total-set reads s.threads i t t' at);
        own = λ j u h. elim (ℕ_discrete i j) [
          | yes same ↦
              let found : t' ≡ u = ground (
                arith,
                h,
                same,
                get_elem?-set_self s.threads i t' (lt_of_get_elem? s.threads i at),
              ) in
              subst (Own l'.argument l'.result) found (
                Move-Own s.lock l' t t' (total stage s.threads) (total reads s.threads) m v.phase
                  (weight-le-total reads s.threads i t at) (v.own i t at))
          | no other ↦
              let before = sym (get_elem?-set_ne s.threads t' other) ∙ h in
              Move-Own_other s.lock l' t t' u (total stage s.threads) (total reads s.threads) m
                v.phase
                (ground (
                  arith,
                  two-le-total stage s.threads i j t u other at before,
                  few_stages s.lock s.threads v.phase,
                ))
                (weight-le-total stage s.threads j u before) (v.own j u before)
        ];
        early =
            Move-Early s.lock l' t t' (total stage s.threads) (total reads s.threads)
              (total stage (set s.threads i t')) m v.phase alone stages (v.own i t at) v.early;
        final =
            Move-Final s.lock l' t t' (total stage s.threads) (total reads s.threads)
              (total stage (set s.threads i t')) m v.phase alone stages (v.own i t at) v.final;
      }

  no_weight : (w : Thread T → ℕ) (n : ℕ) → w outside ≡ 0 → total w (replicate n outside) ≡ 0
  unfolding total
  no_weight w zero h = refl
  no_weight w (suc n) h = omega (arith, no_weight w n h)

  all_outside :
      (n i : ℕ) (t : Thread T) → get_elem? (replicate n outside) i ≡ some t → Own none none t
  all_outside zero i t e = absurd (ground (arith, e))
  all_outside (suc n) zero t e =
      let found : outside ≡ t = ground (arith, e) in subst (Own none none) found refl
  all_outside (suc n) (suc i) t e = all_outside n i t e

  -- The invariant holds in every state that some threads can reach.
  pub Reach-Inv : {n : ℕ} {s : System T} → Reach T n s → Inv s
  unfolding new const_into_u8
  Reach-Inv {n} start = record {
    phase = inl (refl, no_weight stage n refl, no_weight reads n refl, refl, refl);
    own = all_outside n;
    early = λ h. refl;
    final = λ h. refl;
  }
  Reach-Inv (later r st) = Step-Inv st (Reach-Inv r)
