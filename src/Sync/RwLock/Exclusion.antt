-- ===== src/Sync/RwLock/Exclusion.antt =====
-- What the lock promises: who may hold a guard beside whom, that no call panics, and when a call
-- that is alone succeeds.
use popcorn.Prelude.{
  Bool, true, false, ℕ, ◌+◌, ◌-◌, ◌^◌, ◌<◌, ◌≡◌, ◌≢◌, ◌↔◌, ◌⊎◌, inl, inr, some, get_elem?, arith,
  refl, ap,
}
use native.Mathlib.Decide.{ℕ_discrete, dec_lt}
use popcorn.Prelude.Counting.{weight-le-total, two-le-total}
use popcorn.Sync.RwLock.{
  Op, lock_shared, lock_exclusive, lock_upgradable, upgrade, exchange, fail, panic, verdict, Role,
  idle, reader, upgradable, writer, before, Thread, role, System,
}
use popcorn.Sync.RwLock.Invariant.{
  reads, upgrades, writes, readers, upgradables, writers, Reach, Reach-Inv, verdict-ne-panic,
  fewer_readers,
}

idle_of_weights : (r : Role) → reads r ≡ 0 → upgrades r ≡ 0 → writes r ≡ 0 → r ≡ idle
idle_of_weights idle a b c = refl
idle_of_weights reader a b c = ground arith
idle_of_weights upgradable a b c = ground arith
idle_of_weights writer a b c = ground arith

-- Whatever fewer than `READ_COUNT_MASK` threads do with the lock, interleaved at every atomic
-- access, while one of them holds the write guard no other holds any guard.
pub writer_excludes :
    {n : ℕ} {s : System} (i j : ℕ) (t u : Thread)
    → n < 2 ^ 62 - 1
    → Reach n s
    → get_elem? s.threads i ≡ some t
    → get_elem? s.threads j ≡ some u
    → i ≢ j
    → role t ≡ writer
    → role u ≡ idle
writer_excludes {s = s} i j t u few r at_i at_j ne w =
    let c = (Reach-Inv few r).counts in
    let writes_t : writes (role t) ≡ 1 = ap writes w in
    let some_writer = weight-le-total (λ x. writes (role x)) s.threads i t at_i in
    let two = two-le-total (λ x. writes (role x)) s.threads i j t u ne at_i at_j in
    let a = weight-le-total (λ x. reads (role x)) s.threads j u at_j in
    let b = weight-le-total (λ x. upgrades (role x)) s.threads j u at_j in
    idle_of_weights (role u) (omega (arith, c.alone)) (omega (arith, c.alone))
      (omega (arith, c.one_writer))

-- In every state that fewer than `READ_COUNT_MASK` threads can reach, at most one of them holds an
-- upgradable guard.
pub one_upgradable :
    {n : ℕ} {s : System} (i j : ℕ) (t u : Thread)
    → n < 2 ^ 62 - 1
    → Reach n s
    → get_elem? s.threads i ≡ some t
    → get_elem? s.threads j ≡ some u
    → role t ≡ upgradable
    → role u ≡ upgradable
    → i ≡ j
one_upgradable {s = s} i j t u few r at_i at_j w w' = elim (ℕ_discrete i j) [
  | yes e ↦ e
  | no ne ↦
      let c = (Reach-Inv few r).counts in
      let upgrades_t : upgrades (role t) ≡ 1 = ap upgrades w in
      let upgrades_u : upgrades (role u) ≡ 1 = ap upgrades w' in
      let two = two-le-total (λ x. upgrades (role x)) s.threads i j t u ne at_i at_j in
      absurd (omega (arith, c.one_upgradable))
]

-- No call panics: in every state that fewer than `READ_COUNT_MASK` threads can reach, whatever guard
-- a thread holds, a method that consumes it, run against the word as it is, passes its
-- `debug_assertions` checks and overflows nothing, also if its exchange fails spuriously.
pub never_panics :
    {n : ℕ} {s : System} (i : ℕ) (t : Thread) (o : Op) (spurious : Bool)
    → n < 2 ^ 62 - 1
    → Reach n s
    → get_elem? s.threads i ≡ some t
    → role t ≡ before o
    → verdict o spurious s.word ≢ panic
never_panics {s = s} i t o spurious few r at b =
    let v = Reach-Inv few r in
    let reads_t : reads (role t) ≡ reads (before o) = ap reads b in
    let upgrades_t : upgrades (role t) ≡ upgrades (before o) = ap upgrades b in
    let writes_t : writes (role t) ≡ writes (before o) = ap writes b in
    verdict-ne-panic o spurious s.word (readers s.threads) (upgradables s.threads)
      (writers s.threads) v.counts (fewer_readers s v)
      (omega (arith, weight-le-total (λ x. reads (role x)) s.threads i t at))
      (omega (arith, weight-le-total (λ x. upgrades (role x)) s.threads i t at))
      (omega (arith, weight-le-total (λ x. writes (role x)) s.threads i t at))

-- When a round against the word refuses a lock, in every state that fewer than `READ_COUNT_MASK`
-- threads can reach: a shared lock exactly while there is a writer, an upgradable one exactly while
-- there is a writer or an upgradable reader; an exclusive one always if `compare_exchange_weak` fails
-- spuriously, and if it does not, exactly while there is any guard.
pub fail_iff :
    {n : ℕ} {s : System}
    → n < 2 ^ 62 - 1
    → Reach n s
    → (spurious : Bool)
    → ((verdict lock_shared spurious s.word ≡ fail) ↔ (writers s.threads ≡ 1))
      × ((verdict lock_upgradable spurious s.word ≡ fail)
          ↔ ((writers s.threads ≡ 1) ⊎ (upgradables s.threads ≡ 1)))
      × (verdict lock_exclusive true s.word ≡ fail)
      × ((verdict lock_exclusive false s.word ≡ fail)
          ↔ (0 < readers s.threads + upgradables s.threads + writers s.threads))
unfolding verdict
fail_iff {s = s} few r spurious =
    let v = Reach-Inv few r in
    let f = fewer_readers s v in
    let c = v.counts in
    (
      (λ e. ground arith, λ h. ground arith),
      (λ e. ground arith, λ h. ground arith),
      refl,
      (λ e. ground arith, λ h. ground arith),
    )

-- While there is an upgradable guard, an upgrade whose exchange does not fail spuriously fails exactly
-- while there are readers beside it, and otherwise makes the word that of a single writer.
pub upgrade_waits :
    {n : ℕ} {s : System}
    → n < 2 ^ 62 - 1
    → Reach n s
    → upgradables s.threads ≡ 1
    → ((verdict upgrade false s.word ≡ fail) × (0 < readers s.threads))
      ⊎ ((verdict upgrade false s.word ≡ exchange (2 ^ 63)) × (readers s.threads ≡ 0))
unfolding verdict
upgrade_waits {s = s} few r one =
    let v = Reach-Inv few r in
    let f = fewer_readers s v in
    let c = v.counts in
    elim (dec_lt 0 (readers s.threads)) [
      | yes some_reader ↦ inl (ground arith, some_reader)
      | no none_left ↦ inr (ground arith, omega arith)
    ]
