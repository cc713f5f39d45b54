-- ===== src/Threading/Scheduler.antt =====
-- kernel/src/threading/scheduler.rs: the run queue. The maps of tasks are lists of their entries in
-- the order of the keys; a pointer to a value is the entry's place. `Rest` stands for the fields of
-- a `ThreadControlBlock` other than its state (page table, saved registers, name and stack), which
-- the scheduler moves about but never reads. `HalTy::switch_thread` changes registers and the saved
-- ones alone, so a call of `schedule` is over for the scheduler when the threads are switched.
pub mod Tasks
pub mod Queue
pub mod Turns
pub mod NewTasks
use popcorn.Prelude.{
  ℕ, zero, suc, ◌+◌, ◌%◌, ◌^◌, Bool, true, false, ◌||◌, Option, none, some, List, [], ◌∷◌, ◌++◌,
  ltb, ◌==◌, if◌then◌else◌,
}
use popcorn.Prelude.Outcome.{Outcome, ok, err, panic, ◌>>=◌, expect}

pub data ThreadState : Type 0 where
  ready running : ThreadState

abbrev pub Tid : Type 0
Tid = ℕ

pub record ThreadControlBlock (Rest : Type 0) : Type 0 where
  pub rest : Rest
  pub state : ThreadState

pub record Scheduler (Rest : Type 0) : Type 0 where
  pub tasks : List (Tid × ThreadControlBlock Rest)
  pub queue : List Tid
  pub current_tid : Tid

-- `Tid::new`: the counter `TIDS` before and after.
abbrev pub new_tid : ℕ → Tid × ℕ
new_tid tids = (tids, (tids + 1) % 2 ^ 64)

-- `==` of two `Option<NonNull<V>>`
abbrev pub same_ptr : Option ℕ → Option ℕ → Bool
same_ptr none none = true
same_ptr (some p) (some q) = p == q
same_ptr _ _ = false

abbrev pub any_same : Option ℕ → List (Option ℕ) → Bool
any_same p [] = false
any_same p (q ∷ ptrs) = same_ptr q p || any_same p ptrs

-- The two pointers of the threads that are switched.
abbrev pub pair : Option (List (Option ℕ)) → Outcome (ℕ × ℕ)
pair (some (some p ∷ some q ∷ [])) = ok (p, q)
pair _ = panic

module _ {Rest : Type 0} where
  -- `BTreeMap::get`, `get_mut`, which gives the place, and `insert`
  unfoldable pub get : List (Tid × ThreadControlBlock Rest) → Tid → Option (ThreadControlBlock Rest)
  get [] k = none
  get ((j, t) ∷ m) k = if j == k then some t else get m k

  unfoldable pub get_ptr : List (Tid × ThreadControlBlock Rest) → Tid → Option ℕ
  get_ptr [] k = none
  get_ptr ((j, t) ∷ m) k =
      let rest = get_ptr m k in
      if j == k then some 0 else elim rest [ none ↦ none | some p ↦ some (suc p) ]

  unfoldable pub insert :
      List (Tid × ThreadControlBlock Rest)
      → Tid
      → ThreadControlBlock Rest
      → List (Tid × ThreadControlBlock Rest)
  insert [] k u = (k, u) ∷ []
  insert ((j, t) ∷ m) k u =
      let rest = insert m k u in
      if ltb k j then (k, u) ∷ (j, t) ∷ m else if j == k then (j, u) ∷ m else (j, t) ∷ rest

  -- The loop of `get_many_mut` after the pointers `prev`; `none` is `DuplicateKey`.
  unfoldable pub get_ptrs :
      List (Tid × ThreadControlBlock Rest) → List (Option ℕ) → List Tid → Option (List (Option ℕ))
  get_ptrs m prev [] = some prev
  get_ptrs m prev (k ∷ keys) =
      let rest = get_ptrs m (prev ++ (get_ptr m k ∷ [])) keys in
      if any_same (get_ptr m k) prev then none else rest

  unfoldable pub get_many_mut :
      List (Tid × ThreadControlBlock Rest) → List Tid → Option (List (Option ℕ))
  get_many_mut m keys = get_ptrs m [] keys

  -- The write of a state through a pointer.
  unfoldable pub write_state :
      List (Tid × ThreadControlBlock Rest) → ℕ → ThreadState → List (Tid × ThreadControlBlock Rest)
  write_state [] p s = []
  write_state ((j, t) ∷ m) zero s = (j, record t { state = s }) ∷ m
  write_state ((j, t) ∷ m) (suc p) s = (j, t) ∷ write_state m p s

  unfoldable pub new : Scheduler Rest
  new = record { tasks = []; queue = []; current_tid = 0 }

  unfoldable pub add_task :
      ℕ → Scheduler Rest → ThreadControlBlock Rest → Tid × (ℕ × Scheduler Rest)
  add_task tids s tcb =
      let (tid, tids') = new_tid tids in
      (tid, (tids', record s { tasks = insert s.tasks tid tcb; queue = s.queue ++ (tid ∷ []) }))

  unfoldable pub schedule : Scheduler Rest → Outcome (Scheduler Rest)
  schedule s = elim s.queue [
    | new_tid ∷ queue ↦ do
      (old_tcb, new_tcb) ← pair (get_many_mut s.tasks (s.current_tid ∷ new_tid ∷ []))
      ok (record {
        tasks = write_state (write_state s.tasks old_tcb ready) new_tcb running;
        queue = queue ++ (s.current_tid ∷ []);
        current_tid = new_tid;
      })
    | [] ↦ do
      current_tcb ← expect (get s.tasks s.current_tid)
      elim current_tcb.state [ running ↦ ok s | ready ↦ panic ]
  ]

  -- `threading::init` enters the thread that boots, in the state `Running`.
  unfoldable pub init : Scheduler Rest → Rest → Outcome (Scheduler Rest)
  init s r = elim (get s.tasks 0) [
    | none ↦ ok (record s { tasks = insert s.tasks 0 (record { rest = r; state = running }) })
    | some _ ↦ panic
  ]
