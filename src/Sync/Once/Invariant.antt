-- ===== src/Sync/Once/Invariant.antt =====
-- The atomic says how far the one thread that calls the function has come.
use popcorn.Prelude.{
  ℕ, zero, suc, ◌+◌, ◌≤◌, ◌≡◌, ◌≢◌, ◌∙◌, ◌⊎◌, inl, Option, none, some, List, get_elem?, set,
  replicate, arith, refl, sym, get_elem?-set_self, get_elem?-set_ne, lt_of_get_elem?,
}
use native.Mathlib.Decide.{ℕ_discrete}
use popcorn.Prelude.Counting.{total, total-set, weight-le-total}
use popcorn.Sync.Once.{
  const_into_u8, const_from_u8, call_once_round, is_complete, Thread, outside, in_function, written,
  unwinding, reading, holding, OnceLock, System, new, Move, call, exchange, go_round, go_back,
  go_down, write, unwind, drop_guard, finish, get, read, Step, move, Reach, start, later,
}

module _ {T : Type 0} where
  -- The thread that has won the exchange, in the function or unwinding from it.
  abbrev pub calls : Thread T → ℕ
  calls in_function = 1
  calls unwinding = 1
  calls _ = 0

  -- Past the write of the value.
  abbrev pub writes : Thread T → ℕ
  writes written = 1
  writes _ = 0

  -- The threads that read the value, now or before.
  abbrev pub reads : Thread T → ℕ
  reads reading = 1
  reads (holding o) = 1
  reads _ = 0

  abbrev pub filled : Option T → ℕ
  filled none = 0
  filled (some t) = 1

-- With `c` threads in the function, `w` past the write and `r` readers, `v` being 1 if there is a value.
abbrev pub Phase : ℕ → ℕ → ℕ → ℕ → ℕ → ℕ → Type 0
Phase once results c w r v =
    ((once ≡ 0) × (c ≡ 0) × (w ≡ 0) × (r ≡ 0) × (v ≡ 0) × (results ≡ 0))
    ⊎ ((once ≡ 1) × (c + w ≡ 1) × (w ≡ results) × (r ≡ 0) × (v ≡ results) × (results ≤ 1))
    ⊎ ((once ≡ 2) × (c ≡ 0) × (w ≡ 0) × (v ≡ 1) × (results ≡ 1))
    ⊎ ((once ≡ 3) × (c ≡ 0) × (w ≡ 0) × (r ≡ 0) × (results ≡ 0))

module _ {T : Type 0} where
  abbrev pub PhaseOf : OnceLock T → List (Thread T) → Type 0
  PhaseOf l threads =
      Phase l.once l.results (total calls threads) (total writes threads) (total reads threads)
        (filled l.value)

  pub record Inv (s : System T) : Type 0 where
    pub phase : PhaseOf s.lock s.threads
    pub held : (i : ℕ) (o : Option T) → get_elem? s.threads i ≡ some (holding o) → o ≡ s.lock.value

  -- The counts of the threads after a step of one of them.
  Move-Phase :
      (l l' : OnceLock T) (t t' : Thread T) (c w r c' w' r' : ℕ)
      → Move T l t l' t'
      → Phase l.once l.results c w r (filled l.value)
      → calls t ≤ c
      → writes t ≤ w
      → c' + calls t ≡ c + calls t'
      → w' + writes t ≡ w + writes t'
      → r' + reads t ≡ r + reads t'
      → Phase l'.once l'.results c' w' r' (filled l'.value)
  unfolding const_into_u8 call_once_round is_complete const_from_u8
  Move-Phase l l' t t' c w r c' w' r' call p lc lw ec ew er = ground arith
  Move-Phase l l' t t' c w r c' w' r' (exchange e) p lc lw ec ew er = ground arith
  Move-Phase l l' t t' c w r c' w' r' (go_round e) p lc lw ec ew er = ground arith
  Move-Phase l l' t t' c w r c' w' r' (go_back e) p lc lw ec ew er = ground arith
  Move-Phase l l' t t' c w r c' w' r' (go_down e) p lc lw ec ew er = ground arith
  Move-Phase l l' t t' c w r c' w' r' (write v) p lc lw ec ew er = ground arith
  Move-Phase l l' t t' c w r c' w' r' unwind p lc lw ec ew er = ground arith
  Move-Phase l l' t t' c w r c' w' r' drop_guard p lc lw ec ew er = ground arith
  Move-Phase l l' t t' c w r c' w' r' finish p lc lw ec ew er = ground arith
  Move-Phase l l' t t' c w r c' w' r' (get e) p lc lw ec ew er = ground arith
  Move-Phase l l' t t' c w r c' w' r' read p lc lw ec ew er = ground arith

  Move-PhaseOf :
      (s : System T) (i : ℕ) (t t' : Thread T) (l' : OnceLock T)
      → get_elem? s.threads i ≡ some t
      → Move T s.lock t l' t'
      → PhaseOf s.lock s.threads
      → PhaseOf l' (set s.threads i t')
  Move-PhaseOf s i t t' l' at m p =
      Move-Phase s.lock l' t t' (total calls s.threads) (total writes s.threads)
        (total reads s.threads) (total calls (set s.threads i t'))
        (total writes (set s.threads i t')) (total reads (set s.threads i t')) m p
        (weight-le-total calls s.threads i t at) (weight-le-total writes s.threads i t at)
        (total-set calls s.threads i t t' at) (total-set writes s.threads i t t' at)
        (total-set reads s.threads i t t' at)

  -- Only a thread in the function writes a value, and then no other thread holds one.
  value_kept :
      (s : System T) (i j : ℕ) (t t' : Thread T) (l' : OnceLock T) (o : Option T)
      → get_elem? s.threads i ≡ some t
      → Move T s.lock t l' t'
      → Inv s
      → get_elem? s.threads j ≡ some (holding o)
      → l'.value ≡ s.lock.value
  value_kept s i j t t' l' o at (write v) p held = absurd (
      ground (
        arith,
        p.phase,
        weight-le-total calls s.threads i t at,
        weight-le-total reads s.threads j (holding o) held,
      ))
  value_kept s i j t t' l' o at call p held = refl
  value_kept s i j t t' l' o at (exchange e) p held = refl
  value_kept s i j t t' l' o at (go_round e) p held = refl
  value_kept s i j t t' l' o at (go_back e) p held = refl
  value_kept s i j t t' l' o at (go_down e) p held = refl
  value_kept s i j t t' l' o at unwind p held = refl
  value_kept s i j t t' l' o at drop_guard p held = refl
  value_kept s i j t t' l' o at finish p held = refl
  value_kept s i j t t' l' o at (get e) p held = refl
  value_kept s i j t t' l' o at read p held = refl

  -- What a thread holds after its step is the value.
  new_holder :
      (l l' : OnceLock T) (t t' : Thread T) (o : Option T)
      → Move T l t l' t'
      → t' ≡ holding o
      → o ≡ l'.value
  new_holder l l' t t' o read e = ground (arith, e)
  new_holder l l' t t' o call e = absurd (ground (arith, e))
  new_holder l l' t t' o (exchange f) e = absurd (ground (arith, e))
  new_holder l l' t t' o (go_round f) e = absurd (ground (arith, e))
  new_holder l l' t t' o (go_back f) e = absurd (ground (arith, e))
  new_holder l l' t t' o (go_down f) e = absurd (ground (arith, e))
  new_holder l l' t t' o (write v) e = absurd (ground (arith, e))
  new_holder l l' t t' o unwind e = absurd (ground (arith, e))
  new_holder l l' t t' o drop_guard e = absurd (ground (arith, e))
  new_holder l l' t t' o finish e = absurd (ground (arith, e))
  new_holder l l' t t' o (get f) e = absurd (ground (arith, e))

  pub Step-Inv : {s s' : System T} → Step T s s' → Inv s → Inv s'
  Step-Inv {s} (move i t {l = l'} {t' = t'} at m) v = record {
    phase = Move-PhaseOf s i t t' l' at m v.phase;
    held = λ j o h. elim (ℕ_discrete i j) [
      | yes same ↦ new_holder s.lock l' t t' o m (
          ground
            (arith, h, same, get_elem?-set_self s.threads i t' (lt_of_get_elem? s.threads i at)))
      | no other ↦
          let before = sym (get_elem?-set_ne s.threads t' other) ∙ h in
          v.held j o before ∙ sym (value_kept s i j t t' l' o at m v before)
    ];
  }

  no_weight : (w : Thread T → ℕ) (n : ℕ) → w outside ≡ 0 → total w (replicate n outside) ≡ 0
  unfolding total
  no_weight w zero h = refl
  no_weight w (suc n) h = omega (arith, no_weight w n h)

  none_holds : (n i : ℕ) (o : Option T) → get_elem? (replicate n outside) i ≢ some (holding o)
  none_holds zero i o e = absurd (ground (arith, e))
  none_holds (suc n) zero o e = absurd (ground (arith, e))
  none_holds (suc n) (suc i) o e = none_holds n i o e

  -- The invariant holds in every state that some threads can reach.
  pub Reach-Inv : {n : ℕ} {s : System T} → Reach T n s → Inv s
  unfolding new const_into_u8
  Reach-Inv {n} start = record {
    phase =
        inl (
          refl,
          no_weight calls n refl,
          no_weight writes n refl,
          no_weight reads n refl,
          refl,
          refl,
        );
    held = λ i o h. absurd (none_holds n i o h);
  }
  Reach-Inv (later r st) = Step-Inv st (Reach-Inv r)
