-- ===== src/Threading/Scheduler/NewTasks.antt =====
-- The run queue is valid from the boot on, and new threads keep it so.
use mathlib.Core.Path.{subst}
use native.Mathlib.Decide.{ℕ_discrete}
use popcorn.Prelude.{
  ℕ, ◌+◌, ◌^◌, ◌<◌, ◌≡◌, ◌≢◌, ◌∙◌, ap, refl, sym, ◌⊎◌, inl, inr, none, some, Option-cases, List, [],
  ◌∷◌, ◌++◌, length, get_elem?, arith,
}
use popcorn.Prelude.Outcome.{ok}
use popcorn.Threading.Scheduler.{
  ThreadState, ready, running, Tid, ThreadControlBlock, Scheduler, get, insert, add_task, new, init,
}
use popcorn.Threading.Scheduler.Tasks.{get-insert}
use popcorn.Threading.Scheduler.Queue.{Has, IsValid, snoc-get_elem?, snoc-last, get_elem?-snoc}

module _ {Rest : Type 0} where
  not_there : (tids : ℕ) (s : Scheduler Rest) → IsValid tids s → get s.tasks tids ≡ none
  not_there tids s v = elim (Option-cases (get s.tasks tids)) [
    | inl nothing ↦ nothing
    | inr (t, there) ↦ absurd (omega (arith, v.fresh tids t there))
  ]

  Has-insert :
      (m : List (Tid × ThreadControlBlock Rest)) (k j : Tid) (t : ThreadControlBlock Rest)
      (st : ThreadState)
      → get m k ≡ none
      → Has m j st
      → Has (insert m k t) j st
  Has-insert m k j t st nothing h = record {
    tcb = h.tcb;
    entry = ground (arith, get-insert m k j t nothing, h.entry, nothing, ap (get m));
    in_state = h.in_state;
  }

  module _ (tids : ℕ) (s : Scheduler Rest) (t : ThreadControlBlock Rest) (v : IsValid tids s) where
    abbrev tasks : List (Tid × ThreadControlBlock Rest)
    tasks = insert s.tasks tids t

    abbrev queue : List Tid
    queue = s.queue ++ (tids ∷ [])

    not_waiting : (i : ℕ) → get_elem? s.queue i ≢ some tids
    not_waiting i at =
        let w = v.waiting i tids at in absurd (ground (arith, not_there tids s v, w.entry))

    queue_once :
        (i j : ℕ) (k : Tid) → get_elem? queue i ≡ some k → get_elem? queue j ≡ some k → i ≡ j
    queue_once i j k a b = elim (get_elem?-snoc s.queue tids k i a) [
      | inl c ↦ elim (get_elem?-snoc s.queue tids k j b) [
        | inl d ↦ v.once i j k c d
        | inr (d, same) ↦ absurd (not_waiting i (c ∙ ap some same))
      ]
      | inr (c, same) ↦ elim (get_elem?-snoc s.queue tids k j b) [
        | inl d ↦ absurd (not_waiting j (d ∙ ap some same))
        | inr (d, _) ↦ c ∙ sym d
      ]
    ]

    listed :
        (k : Tid) (u : ThreadControlBlock Rest)
        → get tasks k ≡ some u
        → ((k ≡ s.current_tid) ⊎ ((i : ℕ) × (get_elem? queue i ≡ some k))) × (k < tids + 1)
    listed k u h = elim (ℕ_discrete tids k) [
      | yes same ↦ (inr (length s.queue, snoc-last s.queue tids ∙ ap some same), omega arith)
      | no other ↦
          let there : get s.tasks k ≡ some u =
            ground (arith, get-insert s.tasks tids k t (not_there tids s v), h, other) in
          (
            elim (v.listed k u there) [
              | inl current ↦ inl current
              | inr (i, at) ↦ inr (i, snoc-get_elem? s.queue tids k i at)
            ],
            omega (arith, v.fresh k u there),
          )
    ]

    added-IsValid : t.state ≡ ready → IsValid (tids + 1) (record s { tasks = tasks; queue = queue })
    added-IsValid is_ready = record {
      now = Has-insert s.tasks tids s.current_tid t running (not_there tids s v) v.now;
      waiting = λ i k at. elim (get_elem?-snoc s.queue tids k i at) [
        | inl there ↦ Has-insert s.tasks tids k t ready (not_there tids s v) (v.waiting i k there)
        | inr (_, same) ↦ record {
          tcb = t;
          entry = ground (arith, get-insert s.tasks tids k t (not_there tids s v), same);
          in_state = is_ready;
        }
      ];
      listed = λ k u h. (listed k u h).0;
      once = queue_once;
      fresh = λ k u h. (listed k u h).1;
    }

  -- With a valid run queue, a new thread that is ready gets a number that no thread has and is the
  -- last of the queue, and the run queue stays valid, as long as the counter of thread numbers does
  -- not overflow.
  pub add_task-IsValid :
      (tids : ℕ) (s : Scheduler Rest) (t : ThreadControlBlock Rest)
      → IsValid tids s
      → t.state ≡ ready
      → tids + 1 < 2 ^ 64
      → (get s.tasks (add_task tids s t).0 ≡ none)
        × IsValid (add_task tids s t).1.0 (add_task tids s t).1.1
        × ((add_task tids s t).1.1.queue ≡ s.queue ++ ((add_task tids s t).0 ∷ []))
  unfolding add_task
  add_task-IsValid tids s t v is_ready small = (
    not_there tids s v,
    subst
        (λ n.
          IsValid n (record s { tasks = insert s.tasks tids t; queue = s.queue ++ (tids ∷ []) }))
        (omega arith) (added-IsValid tids s t v is_ready),
    refl,
  )

  abbrev pub booted : Rest → Scheduler Rest
  booted r = record {
    tasks = (0, record { rest = r; state = running }) ∷ [];
    queue = [];
    current_tid = 0;
  }

  -- The scheduler with the booting thread, which runs, is valid; `TIDS` starts at 1.
  pub init-IsValid : (r : Rest) → (init new r ≡ ok (booted r)) × IsValid 1 (booted r)
  unfolding init new get insert
  init-IsValid r = (
    refl,
    record {
      now = record { tcb = record { rest = r; state = running }; entry = refl; in_state = refl };
      waiting = λ i k at. absurd (ground arith);
      listed = λ k t h. inl (ground arith);
      once = λ i j k a b. absurd (ground arith);
      fresh = λ k t h. ground arith;
    },
  )
