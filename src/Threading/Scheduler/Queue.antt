-- ===== src/Threading/Scheduler/Queue.antt =====
-- The queue holds each thread but the running one once, and `schedule` keeps it so.
use popcorn.Prelude.{
  ℕ, zero, suc, ◌<◌, ◌≡◌, ◌≢◌, ◌∙◌, ap, refl, sym, ◌⊎◌, inl, inr, some, Option-cases, List, [], ◌∷◌,
  ◌++◌, length, get_elem?, arith, ◌==◌, if◌then◌else◌,
}
use mathlib.Core.Path.{subst}
use popcorn.Prelude.Outcome.{ok}
use popcorn.Threading.Scheduler.{
  ThreadState, ready, running, Tid, ThreadControlBlock, Scheduler, get, get_ptr, get_ptrs,
  get_many_mut, write_state, schedule,
}
use popcorn.Threading.Scheduler.Tasks.{with_state, get-write_state, get_ptr-write_state}

-- An item of `xs ++ (x ∷ [])` is one of `xs`, at its place, or the last.
pub get_elem?-snoc :
    (xs : List ℕ) (x y i : ℕ)
    → get_elem? (xs ++ (x ∷ [])) i ≡ some y
    → (get_elem? xs i ≡ some y) ⊎ ((i ≡ length xs) × (y ≡ x))
get_elem?-snoc [] x y zero e = inr (refl, ground arith)
get_elem?-snoc [] x y (suc i) e = absurd (ground arith)
get_elem?-snoc (z ∷ xs) x y zero e = inl e
get_elem?-snoc (z ∷ xs) x y (suc i) e = elim (get_elem?-snoc xs x y i e) [
  | inl f ↦ inl f
  | inr (f, g) ↦ inr (ap suc f, g)
]

pub snoc-get_elem? :
    (xs : List ℕ) (x y i : ℕ) → get_elem? xs i ≡ some y → get_elem? (xs ++ (x ∷ [])) i ≡ some y
snoc-get_elem? [] x y i e = absurd (ground arith)
snoc-get_elem? (z ∷ xs) x y zero e = e
snoc-get_elem? (z ∷ xs) x y (suc i) e = snoc-get_elem? xs x y i e

pub snoc-last : (xs : List ℕ) (x : ℕ) → get_elem? (xs ++ (x ∷ [])) (length xs) ≡ some x
snoc-last [] x = refl
snoc-last (z ∷ xs) x = snoc-last xs x

-- One step of a round: the first goes to the end.
abbrev pub rotate : List ℕ → List ℕ
rotate [] = []
rotate (x ∷ xs) = xs ++ (x ∷ [])

module _ {Rest : Type 0} where
  -- The thread has the state.
  pub record Has (m : List (Tid × ThreadControlBlock Rest)) (k : Tid) (st : ThreadState)
      : Type 0 where
    pub tcb : ThreadControlBlock Rest
    pub entry : get m k ≡ some tcb
    pub in_state : tcb.state ≡ st

  -- The current thread runs, those in the queue are ready, no thread is in it twice, every thread
  -- is one of these, and no thread has a number that is still to be given.
  pub record IsValid (tids : ℕ) (s : Scheduler Rest) : Type 0 where
    pub now : Has s.tasks s.current_tid running
    pub waiting : (i : ℕ) (k : Tid) → get_elem? s.queue i ≡ some k → Has s.tasks k ready
    pub listed :
        (k : Tid) (t : ThreadControlBlock Rest)
        → get s.tasks k ≡ some t
        → (k ≡ s.current_tid) ⊎ ((i : ℕ) × (get_elem? s.queue i ≡ some k))
    pub once :
        (i j : ℕ) (k : Tid) → get_elem? s.queue i ≡ some k → get_elem? s.queue j ≡ some k → i ≡ j
    pub fresh : (k : Tid) (t : ThreadControlBlock Rest) → get s.tasks k ≡ some t → k < tids

  pub Has-ne :
      (m : List (Tid × ThreadControlBlock Rest)) (k j : Tid)
      → Has m k running
      → Has m j ready
      → k ≢ j
  Has-ne m k j h g same =
      absurd (ground (arith, ap (get m) same, h.entry, g.entry, h.in_state, g.in_state))

  abbrev pub switched : Scheduler Rest → Tid → List Tid → ℕ → ℕ → Scheduler Rest
  switched s k queue p q = record {
    tasks = write_state (write_state s.tasks p ready) q running;
    queue = queue ++ (s.current_tid ∷ []);
    current_tid = k;
  }

  get-switched :
      (m : List (Tid × ThreadControlBlock Rest)) (old k j : Tid) (p q : ℕ)
      → get_ptr m old ≡ some p
      → get_ptr m k ≡ some q
      → get (write_state (write_state m p ready) q running) j ≡ (
          if k == j
          then with_state running (if old == j then with_state ready (get m j) else get m j)
          else (if old == j then with_state ready (get m j) else get m j))
  get-switched m old k j p q e f = ground (
    arith,
    get-write_state m old j p ready e,
    get-write_state (write_state m p ready) k j q running (get_ptr-write_state m k p ready ∙ f),
  )

  pub get_many_mut-pair :
      (m : List (Tid × ThreadControlBlock Rest)) (k j : Tid) (p q : ℕ)
      → get_ptr m k ≡ some p
      → get_ptr m j ≡ some q
      → p ≢ q
      → get_many_mut m (k ∷ j ∷ []) ≡ some (some p ∷ some q ∷ [])
  unfolding get_many_mut get_ptrs
  get_many_mut-pair m k j p q e f ne = ground (arith, e, f, ne)

  pub schedule-switched :
      (s : Scheduler Rest) (k : Tid) (queue : List Tid) (p q : ℕ)
      → s.queue ≡ k ∷ queue
      → get_many_mut s.tasks (s.current_tid ∷ k ∷ []) ≡ some (some p ∷ some q ∷ [])
      → schedule s ≡ ok (switched s k queue p q)
  unfolding schedule
  schedule-switched s k queue p q e f = ground (arith, e, f)

  pub schedule-alone :
      (s : Scheduler Rest) → s.queue ≡ [] → Has s.tasks s.current_tid running → schedule s ≡ ok s
  unfolding schedule
  schedule-alone s e h = ground (arith, e, h.entry, h.in_state)

  module _ (tids : ℕ) (s : Scheduler Rest) (k : Tid) (queue : List Tid) (p q : ℕ)
      (v : IsValid tids s) (e : s.queue ≡ k ∷ queue) (f : get_ptr s.tasks s.current_tid ≡ some p)
      (g : get_ptr s.tasks k ≡ some q) where
    abbrev after : Scheduler Rest
    after = switched s k queue p q

    place : (i : ℕ) → get_elem? s.queue i ≡ get_elem? (k ∷ queue) i
    place i = ap (λ l. get_elem? l i) e

    next_waits : Has s.tasks k ready
    next_waits = v.waiting 0 k (place 0)

    next_Has : Has after.tasks k running
    next_Has = record {
      tcb = record next_waits.tcb { state = running };
      entry = ground (
        arith,
        get-switched s.tasks s.current_tid k k p q f g,
        next_waits.entry,
        Has-ne s.tasks s.current_tid k v.now next_waits,
      );
      in_state = refl;
    }

    last_Has : Has after.tasks s.current_tid ready
    last_Has = record {
      tcb = record v.now.tcb { state = ready };
      entry = ground (
        arith,
        get-switched s.tasks s.current_tid k s.current_tid p q f g,
        v.now.entry,
        Has-ne s.tasks s.current_tid k v.now next_waits,
      );
      in_state = refl;
    }

    rest_Has : (i : ℕ) (j : Tid) → get_elem? queue i ≡ some j → Has after.tasks j ready
    rest_Has i j at =
        let waits = v.waiting (suc i) j (place (suc i) ∙ at) in
        let not_next : k ≢ j = λ same.
          absurd (
            omega
              (arith, v.once 0 (suc i) k (place 0) (place (suc i) ∙ at ∙ ap some (sym same)))) in
        record {
          tcb = waits.tcb;
          entry =
              ground (
                arith,
                get-switched s.tasks s.current_tid k j p q f g,
                not_next,
                Has-ne s.tasks s.current_tid j v.now waits,
              )
              ∙ waits.entry;
          in_state = waits.in_state;
        }

    -- A thread that is there after the switch was there before.
    was_there :
        (j : Tid) (t : ThreadControlBlock Rest)
        → get after.tasks j ≡ some t
        → (u : ThreadControlBlock Rest) × (get s.tasks j ≡ some u)
    was_there j t h = elim (Option-cases (get s.tasks j)) [
      | inr there ↦ there
      | inl nothing ↦
          absurd (ground (arith, get-switched s.tasks s.current_tid k j p q f g, nothing))
    ]

    listed_after :
        (j : Tid) (i : ℕ)
        → get_elem? (k ∷ queue) i ≡ some j
        → (j ≡ k) ⊎ ((i : ℕ) × (get_elem? (queue ++ (s.current_tid ∷ [])) i ≡ some j))
    listed_after j zero at = inl (ground arith)
    listed_after j (suc i) at = inr (i, snoc-get_elem? queue s.current_tid j i at)

    queue_once :
        (i i' : ℕ) (j : Tid)
        → get_elem? (queue ++ (s.current_tid ∷ [])) i ≡ some j
        → get_elem? (queue ++ (s.current_tid ∷ [])) i' ≡ some j
        → i ≡ i'
    queue_once i i' j a b = elim (get_elem?-snoc queue s.current_tid j i a) [
      | inl c ↦ elim (get_elem?-snoc queue s.current_tid j i' b) [
        | inl d ↦ omega (arith, v.once (suc i) (suc i') j (place (suc i) ∙ c) (place (suc i') ∙ d))
        | inr (d, last) ↦ absurd (
            Has-ne s.tasks s.current_tid j v.now (v.waiting (suc i) j (place (suc i) ∙ c))
              (sym last))
      ]
      | inr (c, last) ↦ elim (get_elem?-snoc queue s.current_tid j i' b) [
        | inl d ↦ absurd (
            Has-ne s.tasks s.current_tid j v.now (v.waiting (suc i') j (place (suc i') ∙ d))
              (sym last))
        | inr (d, _) ↦ c ∙ sym d
      ]
    ]

    pub switched-IsValid : IsValid tids (switched s k queue p q)
    switched-IsValid = record {
      now = next_Has;
      waiting = λ i j at. elim (get_elem?-snoc queue s.current_tid j i at) [
        | inl there ↦ rest_Has i j there
        | inr (_, last) ↦ subst (λ x. Has after.tasks x ready) (sym last) last_Has
      ];
      listed = λ j t h.
          let (u, there) = was_there j t h in
          elim (v.listed j u there) [
            | inl same ↦ inr (length queue, snoc-last queue s.current_tid ∙ ap some (sym same))
            | inr (i, at) ↦ listed_after j i (sym (place i) ∙ at)
          ];
      once = queue_once;
      fresh = λ j t h. let (u, there) = was_there j t h in v.fresh j u there;
    }
