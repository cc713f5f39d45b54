-- ===== src/Threading/Scheduler/Turns.antt =====
-- Threads run in turn: every thread that is ready runs after as many calls of `schedule` as there
-- are threads before it.
use mathlib.Core.Path.{subst}
use popcorn.Prelude.{
  ℕ, zero, suc, ◌≡◌, ◌≢◌, ◌∙◌, ap, refl, sym, some, List, [], ◌∷◌, ◌++◌, length, get_elem?, arith,
}
use popcorn.Prelude.Outcome.{Outcome, ok, ◌>>=◌}
use popcorn.Threading.Scheduler.{running, Tid, Scheduler, schedule}
use popcorn.Threading.Scheduler.Tasks.{get_ptr-get, get_ptr-ne}
use popcorn.Threading.Scheduler.Queue.{
  Has, IsValid, rotate, switched, switched-IsValid, schedule-switched, schedule-alone,
  get_many_mut-pair, snoc-get_elem?, Has-ne,
}

abbrev pub rotate_by : ℕ → List ℕ → List ℕ
rotate_by zero xs = xs
rotate_by (suc n) xs = rotate_by n (rotate xs)

rotate_by-head :
    (i : ℕ) (xs : List ℕ) (k : ℕ) → get_elem? xs i ≡ some k → get_elem? (rotate_by i xs) 0 ≡ some k
rotate_by-head zero xs k e = e
rotate_by-head (suc i) [] k e = absurd (ground arith)
rotate_by-head (suc i) (x ∷ xs) k e =
    rotate_by-head i (xs ++ (x ∷ [])) k (snoc-get_elem? xs x k i e)

append_nil : (xs : List ℕ) → xs ++ [] ≡ xs
append_nil [] = refl
append_nil (x ∷ xs) = ap (λ l. x ∷ l) (append_nil xs)

append_assoc : (xs ys zs : List ℕ) → (xs ++ ys) ++ zs ≡ xs ++ (ys ++ zs)
append_assoc [] ys zs = refl
append_assoc (x ∷ xs) ys zs = ap (λ l. x ∷ l) (append_assoc xs ys zs)

rotate_by-length : (xs ys : List ℕ) → rotate_by (length xs) (xs ++ ys) ≡ ys ++ xs
rotate_by-length [] ys = sym (append_nil ys)
rotate_by-length (x ∷ xs) ys =
    ap (rotate_by (length xs)) (append_assoc xs ys (x ∷ []))
    ∙ rotate_by-length xs (ys ++ (x ∷ []))
    ∙ append_assoc ys (x ∷ []) xs

module _ {Rest : Type 0} where
  -- The order in which the threads run: the current one, then those in the queue.
  abbrev pub order : Scheduler Rest → List Tid
  order s = s.current_tid ∷ s.queue

  -- What a call of `schedule` has done.
  pub record Turn (tids : ℕ) (s s' : Scheduler Rest) : Type 0 where
    pub done : schedule s ≡ ok s'
    pub valid : IsValid tids s'
    pub in_turn : order s' ≡ rotate (order s)

  schedule-next :
      (tids : ℕ) (s : Scheduler Rest) (k : Tid) (queue : List Tid)
      → IsValid tids s
      → s.queue ≡ k ∷ queue
      → (s' : Scheduler Rest) × Turn tids s s'
  schedule-next tids s k queue v e =
      let next = v.waiting 0 k (ap (λ l. get_elem? l 0) e) in
      let (p, f) = get_ptr-get s.tasks s.current_tid v.now.tcb v.now.entry in
      let (q, g) = get_ptr-get s.tasks k next.tcb next.entry in
      let differ : p ≢ q = λ same.
        Has-ne s.tasks s.current_tid k v.now next
          (get_ptr-ne s.tasks s.current_tid k q (f ∙ ap some same) g) in
      (
        switched s k queue p q,
        record {
          done =
              schedule-switched s k queue p q e
                (get_many_mut-pair s.tasks s.current_tid k p q f g differ);
          valid = switched-IsValid tids s k queue p q v e f g;
          in_turn = ap (λ l. l ++ (s.current_tid ∷ [])) (sym e);
        },
      )

  -- On a valid run queue `schedule` does not panic, keeps the queue valid, and the next thread runs,
  -- the one that ran being last now.
  pub schedule-Turn :
      (tids : ℕ) (s : Scheduler Rest) → IsValid tids s → (s' : Scheduler Rest) × Turn tids s s'
  schedule-Turn tids s v = queued s.queue refl
    where
      queued : (l : List Tid) → s.queue ≡ l → (s' : Scheduler Rest) × Turn tids s s'
      queued [] e = (
        s,
        record {
          done = schedule-alone s e v.now;
          valid = v;
          in_turn = ap (λ l. s.current_tid ∷ l) e ∙ ap (λ l. l ++ (s.current_tid ∷ [])) (sym e);
        },
      )
      queued (k ∷ queue) e = schedule-next tids s k queue v e

  -- `n` calls of `schedule` one after the other.
  unfoldable pub schedules : ℕ → Scheduler Rest → Outcome (Scheduler Rest)
  schedules zero s = ok s
  schedules (suc n) s = schedule s >>= λ s'. schedules n s'

  pub schedules-rotate :
      (n tids : ℕ) (s : Scheduler Rest)
      → IsValid tids s
      → (s' : Scheduler Rest) × (schedules n s ≡ ok s')
        × IsValid tids s'
        × (order s' ≡ rotate_by n (order s))
  unfolding schedules
  schedules-rotate zero tids s v = (s, refl, v, refl)
  schedules-rotate (suc n) tids s v =
      let (s', turn) = schedule-Turn tids s v in
      let (z, e, w, o) = schedules-rotate n tids s' turn.valid in
      (z, ap (λ x. x >>= λ y. schedules n y) turn.done ∙ e, w, o ∙ ap (rotate_by n) turn.in_turn)

  -- On a valid run queue the thread at the place `i` of the queue runs after `i + 1` calls of
  -- `schedule`, none of which panics.
  pub ready_thread_runs :
      (tids i : ℕ) (s : Scheduler Rest) (k : Tid)
      → IsValid tids s
      → get_elem? s.queue i ≡ some k
      → (s' : Scheduler Rest) × (schedules (suc i) s ≡ ok s')
        × (s'.current_tid ≡ k)
        × Has s'.tasks k running
  ready_thread_runs tids i s k v at =
      let (s', e, w, o) = schedules-rotate (suc i) tids s v in
      let head = rotate_by-head (suc i) (order s) k at in
      let same : s'.current_tid ≡ k = ground (arith, o, head, ap (λ l. get_elem? l 0) o) in
      (s', e, same, subst (λ x. Has s'.tasks x running) same w.now)

  -- On a valid run queue, after a call of `schedule` for each thread in the queue and one more,
  -- none of which panics, the same thread runs as at first and the queue is as at first.
  pub round_robin :
      (tids : ℕ) (s : Scheduler Rest)
      → IsValid tids s
      → (s' : Scheduler Rest) × (schedules (suc (length s.queue)) s ≡ ok s')
        × (s'.current_tid ≡ s.current_tid)
        × (s'.queue ≡ s.queue)
  round_robin tids s v =
      let (s', e, w, o) = schedules-rotate (suc (length s.queue)) tids s v in
      let back : order s' ≡ order s =
        o
        ∙ ap (rotate_by (length (order s))) (sym (append_nil (order s)))
        ∙ rotate_by-length (order s) [] in
      (s', e, ground (arith, back), ground (arith, back))
