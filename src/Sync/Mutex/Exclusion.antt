-- ===== src/Sync/Mutex/Exclusion.antt =====
-- One thread at a time has the lock, and each gets back the interrupt flag that it came with.
use mathlib.Core.Path.{subst}
use native.Mathlib.Decide.{ℕ_discrete}
use popcorn.Prelude.{
  ℕ, zero, suc, ◌+◌, ◌≤◌, ◌≡◌, ◌≢◌, ◌∙◌, Bool, false, some, List, [], ◌∷◌, map, get_elem?, set,
  arith, refl, ap, sym, get_elem?-set_self, get_elem?-set_ne, lt_of_get_elem?,
}
use popcorn.Prelude.Counting.{total, total-set, weight-le-total, two-le-total}
use popcorn.Interrupts.{get_and_disable_interrupts, set_interrupts, set-get_and_disable}
use popcorn.Sync.Mutex.{
  const_into_u8, const_from_u8, Thread, outside, spinning, trying, taken, holding, releasing,
  restoring, panicked, RawSpinlock, unlock_found, System, Move, lock, try_lock, lock_won, spin,
  try_won, try_lost, store, unlock, swap, restore, Step, move, Reach, start, later,
}

-- The threads between the exchange of `lock` and that of `unlock`.
abbrev pub holds : Thread → ℕ
holds (taken flag q) = 1
holds (holding flag) = 1
holds (releasing flag q) = 1
holds _ = 0

abbrev saved : Bool → ℕ
saved flag = (get_and_disable_interrupts flag).0

-- What the thread saved, or the lock keeps for it, is the flag it came with.
abbrev Keeps : ℕ → Thread → Type 0
Keeps irq_state (outside flag) = Unit
Keeps irq_state (spinning flag q) = q ≡ saved flag
Keeps irq_state (trying flag q) = q ≡ saved flag
Keeps irq_state (taken flag q) = q ≡ saved flag
Keeps irq_state (holding flag) = irq_state ≡ saved flag
Keeps irq_state (releasing flag q) = q ≡ saved flag
Keeps irq_state (restoring flag q) = q ≡ saved flag
Keeps irq_state panicked = ⊥

pub record Inv (s : System) : Type 0 where
  pub word : s.lock.state ≡ total holds s.threads
  pub one : s.lock.state ≤ 1
  pub keeps : (i : ℕ) (t : Thread) → get_elem? s.threads i ≡ some t → Keeps s.lock.irq_state t

unlock_found_lem :
    (flag : Bool) (q state : ℕ) → state ≡ 1 → unlock_found flag q state ≡ restoring flag q
unfolding unlock_found const_from_u8
unlock_found_lem flag q state e = ground (arith, e)

-- The new state, and the thread's part of it, after a step.
Move-state :
    (l l' : RawSpinlock) (t t' : Thread) (n n' : ℕ)
    → Move l t l' t'
    → l.state ≡ n
    → l.state ≤ 1
    → holds t ≤ n
    → n' + holds t ≡ n + holds t'
    → Keeps l.irq_state t
    → (l'.state ≡ n') × (l'.state ≤ 1) × Keeps l'.irq_state t'
unfolding const_into_u8
Move-state l l' t t' n n' (lock flag) e one le d k = (omega arith, omega arith, refl)
Move-state l l' t t' n n' (try_lock flag) e one le d k = (omega arith, omega arith, refl)
Move-state l l' t t' n n' (lock_won flag q u) e one le d k = (omega arith, omega arith, k)
Move-state l l' t t' n n' (spin flag q) e one le d k = (omega arith, omega arith, k)
Move-state l l' t t' n n' (try_won flag q u) e one le d k = (omega arith, omega arith, k)
Move-state l l' t t' n n' (try_lost flag q u) e one le d k = (omega arith, omega arith, k)
Move-state l l' t t' n n' (store flag q) e one le d k = (omega arith, omega arith, k)
Move-state l l' t t' n n' (unlock flag) e one le d k = (omega arith, omega arith, k)
Move-state l l' t t' n n' (swap flag q) e one le d k =
    let found : unlock_found flag q l.state ≡ restoring flag q =
      unlock_found_lem flag q l.state (omega arith) in
    let released : holds (unlock_found flag q l.state) ≡ 0 = ap holds found in
    (omega arith, omega arith, subst (Keeps l.irq_state) (sym found) k)
Move-state l l' t t' n n' (restore flag q) e one le d k = (omega arith, omega arith, tt)

-- Only the thread that holds the lock writes `irq_state`, so what it keeps for another stays.
Keeps-other :
    (l l' : RawSpinlock) (t t' u : Thread)
    → Move l t l' t'
    → holds t + holds u ≤ 1
    → Keeps l.irq_state u
    → Keeps l'.irq_state u
Keeps-other l l' t t' (holding b) (store flag q) h k = absurd (omega arith)
Keeps-other l l' t t' (outside b) (store flag q) h k = k
Keeps-other l l' t t' (spinning b p) (store flag q) h k = k
Keeps-other l l' t t' (trying b p) (store flag q) h k = k
Keeps-other l l' t t' (taken b p) (store flag q) h k = k
Keeps-other l l' t t' (releasing b p) (store flag q) h k = k
Keeps-other l l' t t' (restoring b p) (store flag q) h k = k
Keeps-other l l' t t' panicked (store flag q) h k = k
Keeps-other l l' t t' u (lock flag) h k = k
Keeps-other l l' t t' u (try_lock flag) h k = k
Keeps-other l l' t t' u (lock_won flag q v) h k = k
Keeps-other l l' t t' u (spin flag q) h k = k
Keeps-other l l' t t' u (try_won flag q v) h k = k
Keeps-other l l' t t' u (try_lost flag q v) h k = k
Keeps-other l l' t t' u (unlock flag) h k = k
Keeps-other l l' t t' u (swap flag q) h k = k
Keeps-other l l' t t' u (restore flag q) h k = k

Step-Inv : {s s' : System} → Step s s' → Inv s → Inv s'
Step-Inv {s} (move i t {l = l'} {t' = t'} at m) v =
    let (word, one, kept) =
      Move-state s.lock l' t t' (total holds s.threads) (total holds (set s.threads i t')) m v.word
        v.one (weight-le-total holds s.threads i t at) (total-set holds s.threads i t t' at)
        (v.keeps i t at) in
    record {
      word = word;
      one = one;
      keeps = λ j u h. elim (ℕ_discrete i j) [
        | yes same ↦
            let found =
              sym (get_elem?-set_self s.threads i t' (lt_of_get_elem? s.threads i at))
              ∙ ap (get_elem? (set s.threads i t')) same
              ∙ h in
            subst (Keeps l'.irq_state) (ground (arith, found)) kept
        | no other ↦
            let before = sym (get_elem?-set_ne s.threads t' other) ∙ h in
            Keeps-other s.lock l' t t' u m
              (omega (arith, v.word, v.one, two-le-total holds s.threads i j t u other at before))
              (v.keeps j u before)
      ];
    }

all_outside : (flags : List Bool) → total holds (map outside flags) ≡ 0
unfolding total
all_outside [] = refl
all_outside (b ∷ flags) = omega (arith, all_outside flags)

outside-Keeps :
    (flags : List Bool) (i : ℕ) (t : Thread) → get_elem? (map outside flags) i ≡ some t → Keeps 0 t
outside-Keeps [] i t e = absurd (ground (arith, e))
outside-Keeps (b ∷ flags) zero t e =
    let same : outside b ≡ t = ground (arith, e) in subst (Keeps 0) same tt
outside-Keeps (b ∷ flags) (suc i) t e = outside-Keeps flags i t e

pub Reach-Inv : {flags : List Bool} {s : System} → Reach flags s → Inv s
Reach-Inv {flags} start = record {
  word = sym (all_outside flags);
  one = omega arith;
  keeps = outside-Keeps flags;
}
Reach-Inv (later r st) = Step-Inv st (Reach-Inv r)

-- Of two processors at most one is between taking the lock and giving it back, however their steps
-- interleave.
pub spinlock_excludes :
    {flags : List Bool} {s : System} (i j : ℕ) (t u : Thread)
    → Reach flags s
    → get_elem? s.threads i ≡ some t
    → get_elem? s.threads j ≡ some u
    → holds t ≡ 1
    → holds u ≡ 1
    → i ≡ j
spinlock_excludes {s = s} i j t u r at_i at_j a b = elim (ℕ_discrete i j) [
  | yes same ↦ same
  | no other ↦
      let v = Reach-Inv r in
      absurd (omega (arith, v.word, v.one, two-le-total holds s.threads i j t u other at_i at_j))
]

-- A processor that is about to set its interrupt flag again, having given the lock back or not got
-- it, sets it as it was when it asked for the lock.
pub flag_restored :
    {flags : List Bool} {s : System} (i : ℕ) (flag : Bool) (q : ℕ)
    → Reach flags s
    → get_elem? s.threads i ≡ some (restoring flag q)
    → set_interrupts q false ≡ flag
flag_restored i flag q r at =
    ap (λ x. set_interrupts x false) ((Reach-Inv r).keeps i (restoring flag q) at)
    ∙ set-get_and_disable flag

-- No processor panics.
pub spinlock_never_panics :
    {flags : List Bool} {s : System} (i : ℕ) → Reach flags s → get_elem? s.threads i ≢ some panicked
spinlock_never_panics i r at = (Reach-Inv r).keeps i panicked at
