-- ===== src/Sync/RwLock/Invariant.antt =====
-- The word counts the guards that the threads hold, and the guards are compatible.
use popcorn.Prelude.{
  ℕ, ◌+◌, ◌-◌, ◌*◌, ◌^◌, ◌≤◌, ◌<◌, ◌≡◌, ◌≢◌, ◌⊎◌, Bool, false, some, List, length, length-set,
  get_elem?, set, arith, refl, replicate, length-replicate, zero, suc,
}
use popcorn.Prelude.Counting.{total, total-set, total-le-length, weight-le-total}
use popcorn.Sync.RwLock.{
  init, Op, lock_shared, unlock_shared, lock_exclusive, unlock_exclusive, downgrade,
  lock_upgradable, unlock_upgradable, upgrade, downgrade_upgradable, downgrade_to_upgradable,
  exchange, panic, verdict, Role, idle, reader, upgradable, writer, before, after, Thread, resting,
  trying, role, System, load, win, lose, give_up, Step, move,
}

abbrev pub reads : Role → ℕ
reads reader = 1
reads _ = 0

abbrev pub upgrades : Role → ℕ
upgrades upgradable = 1
upgrades _ = 0

abbrev pub writes : Role → ℕ
writes writer = 1
writes _ = 0

abbrev pub readers : List Thread → ℕ
readers = total (λ t. reads (role t))

abbrev pub upgradables : List Thread → ℕ
upgradables = total (λ t. upgrades (role t))

abbrev pub writers : List Thread → ℕ
writers = total (λ t. writes (role t))

-- With `r` readers, `u` upgradable readers and `w` writers the word is what it should be, and the
-- guards are compatible.
pub record Counts (word r u w : ℕ) : Type 0 where
  pub word_eq : word ≡ r + u * 2 ^ 62 + w * 2 ^ 63
  pub one_upgradable : u ≤ 1
  pub one_writer : w ≤ 1
  pub alone : (w ≡ 0) ⊎ ((r ≡ 0) × (u ≡ 0))

pub record Inv (s : System) : Type 0 where
  pub few : length s.threads < 2 ^ 62 - 1
  pub counts : Counts s.word (readers s.threads) (upgradables s.threads) (writers s.threads)

-- A round that exchanges keeps the counts, for the numbers before and after the call.
exchange-Counts :
    (o : Op) (spurious : Bool) (word new r u w r' u' w' : ℕ)
    → Counts word r u w
    → r < 2 ^ 62 - 1
    → reads (before o) ≤ r
    → upgrades (before o) ≤ u
    → writes (before o) ≤ w
    → r' + reads (before o) ≡ r + reads (after o)
    → u' + upgrades (before o) ≡ u + upgrades (after o)
    → w' + writes (before o) ≡ w + writes (after o)
    → verdict o spurious word ≡ exchange new
    → Counts new r' u' w'
unfolding verdict
exchange-Counts lock_shared spurious word new r u w r' u' w' c f br bu bw er eu ew e = ground arith
exchange-Counts unlock_shared spurious word new r u w r' u' w' c f br bu bw er eu ew e =
    ground arith
exchange-Counts lock_exclusive spurious word new r u w r' u' w' c f br bu bw er eu ew e =
    ground arith
exchange-Counts unlock_exclusive spurious word new r u w r' u' w' c f br bu bw er eu ew e =
    ground arith
exchange-Counts downgrade spurious word new r u w r' u' w' c f br bu bw er eu ew e = ground arith
exchange-Counts lock_upgradable spurious word new r u w r' u' w' c f br bu bw er eu ew e =
    ground arith
exchange-Counts unlock_upgradable spurious word new r u w r' u' w' c f br bu bw er eu ew e =
    ground arith
exchange-Counts upgrade spurious word new r u w r' u' w' c f br bu bw er eu ew e = ground arith
exchange-Counts downgrade_upgradable spurious word new r u w r' u' w' c f br bu bw er eu ew e =
    ground arith
exchange-Counts downgrade_to_upgradable spurious word new r u w r' u' w' c f br bu bw er eu ew e =
    ground arith

-- A method called with the guard that it consumes does not panic.
pub verdict-ne-panic :
    (o : Op) (spurious : Bool) (word r u w : ℕ)
    → Counts word r u w
    → r < 2 ^ 62 - 1
    → reads (before o) ≤ r
    → upgrades (before o) ≤ u
    → writes (before o) ≤ w
    → verdict o spurious word ≢ panic
unfolding verdict
verdict-ne-panic lock_shared spurious word r u w c f br bu bw = ground arith
verdict-ne-panic _ spurious word r u w c f br bu bw = ground arith

-- A move that leaves the thread's role, and so the counts, as they were.
same_role :
    (s : System) (i : ℕ) (t t' : Thread)
    → Inv s
    → get_elem? s.threads i ≡ some t
    → role t' ≡ role t
    → Inv (record s { threads = set s.threads i t' })
same_role s i t t' v e same = record {
  few = omega (arith, v.few, length-set s.threads i t');
  counts =
      let r = total-set (λ x. reads (role x)) s.threads i t t' e in
      let u = total-set (λ x. upgrades (role x)) s.threads i t t' e in
      let w = total-set (λ x. writes (role x)) s.threads i t t' e in ground (arith, v.counts);
}

pub fewer_readers : (s : System) → Inv s → readers s.threads < 2 ^ 62 - 1
fewer_readers s v =
    omega (arith, v.few, total-le-length (λ x. reads (role x)) (λ x. ground arith) s.threads)

win-Inv :
    (s : System) (i : ℕ) (o : Op) (new : ℕ)
    → Inv s
    → get_elem? s.threads i ≡ some (trying o s.word)
    → verdict o false s.word ≡ exchange new
    → Inv (record { word = new; threads = set s.threads i (resting (after o)) })
win-Inv s i o new v at e = record {
  few = omega (arith, v.few, length-set s.threads i (resting (after o)));
  counts =
      exchange-Counts o false s.word new (readers s.threads) (upgradables s.threads)
        (writers s.threads) (readers next) (upgradables next) (writers next) v.counts
        (fewer_readers s v) (weight-le-total (λ x. reads (role x)) s.threads i (trying o s.word) at)
        (weight-le-total (λ x. upgrades (role x)) s.threads i (trying o s.word) at)
        (weight-le-total (λ x. writes (role x)) s.threads i (trying o s.word) at)
        (total-set (λ x. reads (role x)) s.threads i (trying o s.word) (resting (after o)) at)
        (total-set (λ x. upgrades (role x)) s.threads i (trying o s.word) (resting (after o)) at)
        (total-set (λ x. writes (role x)) s.threads i (trying o s.word) (resting (after o)) at) e;
}
  where
    next : List Thread
    next = set s.threads i (resting (after o))

-- Every atomic access of every thread keeps the invariant.
pub Step-Inv : {s s' : System} → Step s s' → Inv s → Inv s'
Step-Inv {s} (move i t at (load o)) v =
    same_role s i (resting (before o)) (trying o s.word) v at refl
Step-Inv {s} (move i t at (lose {o = o} {old = old})) v =
    same_role s i (trying o old) (trying o s.word) v at refl
Step-Inv {s} (move i t at (give_up {o = o} {old = old} spurious e)) v =
    same_role s i (trying o old) (resting (before o)) v at refl
Step-Inv {s} (move i t at (win {o = o} {new = new} e)) v = win-Inv s i o new v at e

-- The lock as it is created, among `n` threads that hold nothing.
abbrev pub created : ℕ → System
created n = record { word = init; threads = replicate n (resting idle) }

pub data Reach (n : ℕ) : System → Type 0 where
  start : Reach n (created n)
  later : {s s' : System} → Reach n s → Step s s' → Reach n s'

no_weight :
    (w : Thread → ℕ) (n : ℕ) → w (resting idle) ≡ 0 → total w (replicate n (resting idle)) ≡ 0
unfolding total
no_weight w zero h = refl
no_weight w (suc n) h = omega (arith, no_weight w n h)

-- In every state that fewer than `READ_COUNT_MASK` threads can reach, the word counts their guards.
pub Reach-Inv : {n : ℕ} {s : System} → n < 2 ^ 62 - 1 → Reach n s → Inv s
Reach-Inv {n} few start = record {
  few = omega (arith, length-replicate n (resting idle));
  counts = omega (
    arith,
    no_weight (λ x. reads (role x)) n refl,
    no_weight (λ x. upgrades (role x)) n refl,
    no_weight (λ x. writes (role x)) n refl,
  );
}
Reach-Inv few (later r st) = Step-Inv st (Reach-Inv few r)
