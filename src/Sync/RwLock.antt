-- ===== src/Sync/RwLock.antt =====
-- kernel_api/src/sync/rwlock.rs: a readers-writer lock in one word, by compare-and-exchange loops.
-- A thread's call is split at its atomic accesses: it loads the word, computes, and exchanges if
-- the word is still what it loaded (a lone compare-and-exchange is split so, too); threads
-- interleave between any two of these. The checks under `debug_assertions` are on. Memory orderings other than the word's own are not modelled.
pub mod Invariant
pub mod Exclusion
use popcorn.Prelude.{
  ℕ, ◌+◌, ◌-◌, ◌*◌, ◌/◌, ◌%◌, ◌^◌, ◌≡◌, ◌≢◌, Bool, true, false, ◌||◌, Option, some, List, get_elem?,
  set, ◌==◌, if◌then◌else◌,
}

abbrev pub write_bit_mask : ℕ
write_bit_mask = 2 ^ 63

abbrev pub upgradeable_bit_mask : ℕ
upgradeable_bit_mask = 2 ^ 62

abbrev pub read_count_mask : ℕ
read_count_mask = 2 ^ 62 - 1

-- The word of an unlocked lock.
abbrev pub init : ℕ
init = 0

-- `v & MASK` for the three masks, and `v & !UPGRADEABLE_BIT_MASK`. A `|` of words that share no
-- bit is written as their sum below.
abbrev pub read_count : ℕ → ℕ
read_count v = v % 2 ^ 62

abbrev pub upgradeable_bit : ℕ → ℕ
upgradeable_bit v = v / 2 ^ 62 % 2 * 2 ^ 62

abbrev pub write_bit : ℕ → ℕ
write_bit v = v / 2 ^ 63 % 2 * 2 ^ 63

abbrev pub without_upgradeable : ℕ → ℕ
without_upgradeable v = v - upgradeable_bit v

-- The methods; `lock_shared` and the like retry the `try_` method of the same name.
pub data Op : Type 0 where
  lock_shared unlock_shared lock_exclusive unlock_exclusive downgrade : Op
  lock_upgradable unlock_upgradable upgrade downgrade_upgradable downgrade_to_upgradable : Op

-- What a round of a method's loop does with the value it found in the word.
pub data Verdict : Type 0 where
  exchange : ℕ → Verdict
  fail : Verdict
  panic : Verdict

unfoldable pub try_lock_shared : ℕ → Verdict
try_lock_shared old =
    let old_normal_count = read_count old in
    if old_normal_count == read_count_mask
    then panic
    else if write_bit old == 0
    then exchange (old_normal_count + 1 + upgradeable_bit old)
    else fail

-- `old_normal_count - 1` overflows at 0, which panics.
unfoldable pub try_unlock_shared : ℕ → Verdict
try_unlock_shared old =
    let old_normal_count = without_upgradeable old in
    if write_bit old == 0
    then if old_normal_count == 0
      then panic
      else exchange (old_normal_count - 1 + upgradeable_bit old)
    else panic

-- A lone `compare_exchange_weak`, which may fail although it finds the word it expects: `spurious`
-- says that it does. In the loops of the other methods such a failure is one more round.
unfoldable pub try_lock_exclusive : Bool → ℕ → Verdict
try_lock_exclusive spurious old =
    if spurious then fail else if old == 0 then exchange write_bit_mask else fail

unfoldable pub try_unlock_exclusive : ℕ → Verdict
try_unlock_exclusive old = if old == write_bit_mask then exchange 0 else panic

unfoldable pub try_downgrade : ℕ → Verdict
try_downgrade old = if old == write_bit_mask then exchange 1 else panic

unfoldable pub try_lock_upgradable : ℕ → Verdict
try_lock_upgradable old =
    if write_bit old == 0
    then if upgradeable_bit old == 0 then exchange (old + upgradeable_bit_mask) else fail
    else fail

unfoldable pub try_unlock_upgradable : ℕ → Verdict
try_unlock_upgradable old = if write_bit old == 0 then exchange (without_upgradeable old) else panic

-- A lone `compare_exchange_weak`, too.
unfoldable pub try_upgrade : Bool → ℕ → Verdict
try_upgrade spurious old =
    if spurious then fail else if old == upgradeable_bit_mask then exchange write_bit_mask else fail

unfoldable pub try_downgrade_upgradable : ℕ → Verdict
try_downgrade_upgradable old =
    if write_bit old == 0
    then if read_count old == read_count_mask then panic else exchange (read_count old + 1)
    else panic

unfoldable pub try_downgrade_to_upgradable : ℕ → Verdict
try_downgrade_to_upgradable old =
    if old == write_bit_mask then exchange upgradeable_bit_mask else panic

unfoldable pub verdict : Op → Bool → ℕ → Verdict
unfolding try_lock_shared try_unlock_shared try_lock_exclusive try_unlock_exclusive try_downgrade
    try_lock_upgradable try_unlock_upgradable try_upgrade try_downgrade_upgradable
    try_downgrade_to_upgradable
verdict lock_shared spurious = try_lock_shared
verdict unlock_shared spurious = try_unlock_shared
verdict lock_exclusive spurious = try_lock_exclusive spurious
verdict unlock_exclusive spurious = try_unlock_exclusive
verdict downgrade spurious = try_downgrade
verdict lock_upgradable spurious = try_lock_upgradable
verdict unlock_upgradable spurious = try_unlock_upgradable
verdict upgrade spurious = try_upgrade spurious
verdict downgrade_upgradable spurious = try_downgrade_upgradable
verdict downgrade_to_upgradable spurious = try_downgrade_to_upgradable

-- Which guard a thread has: none, a read guard, an upgradable one, a write guard.
pub data Role : Type 0 where
  idle reader upgradable writer : Role

-- The guard that a method consumes, and the one that it leaves: the guards' types see to it that
-- a method is called only with the guard it consumes.
abbrev pub before : Op → Role
before lock_shared = idle
before unlock_shared = reader
before lock_exclusive = idle
before unlock_exclusive = writer
before downgrade = writer
before lock_upgradable = idle
before unlock_upgradable = upgradable
before upgrade = upgradable
before downgrade_upgradable = upgradable
before downgrade_to_upgradable = writer

abbrev pub after : Op → Role
after lock_shared = reader
after unlock_shared = idle
after lock_exclusive = writer
after unlock_exclusive = idle
after downgrade = reader
after lock_upgradable = upgradable
after unlock_upgradable = idle
after upgrade = writer
after downgrade_upgradable = reader
after downgrade_to_upgradable = upgradable

-- A thread is outside the lock's code, or in a method with the value that it last found.
pub data Thread : Type 0 where
  resting : Role → Thread
  trying : Op → ℕ → Thread

abbrev pub role : Thread → Role
role (resting r) = r
role (trying o old) = before o

pub record System : Type 0 where
  pub word : ℕ
  pub threads : List Thread

-- One atomic access of one thread. `lose` is an exchange that fails, for another's or for none, and
-- `give_up` a `try_` method that returns false.
pub data Move (word : ℕ) : Thread → ℕ → Thread → Type 0 where
  load : (o : Op) → Move word (resting (before o)) word (trying o word)
  win :
      {o : Op} {new : ℕ}
      → verdict o false word ≡ exchange new
      → Move word (trying o word) new (resting (after o))
  lose : {o : Op} {old : ℕ} → Move word (trying o old) word (trying o word)
  give_up :
      {o : Op} {old : ℕ} (spurious : Bool)
      → verdict o spurious old ≡ fail
      → Move word (trying o old) word (resting (before o))

pub data Step (s : System) : System → Type 0 where
  move :
      (i : ℕ) (t : Thread) {word' : ℕ} {t' : Thread}
      → get_elem? s.threads i ≡ some t
      → Move s.word t word' t'
      → Step s (record { word = word'; threads = set s.threads i t' })
