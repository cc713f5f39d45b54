-- ===== src/Tests/ReadersWriter.antt =====
-- Two threads and the readers-writer lock: thread 0 takes the write guard, or an upgradable one.
use popcorn.Prelude.{ℕ, ◌+◌, ◌<◌, ◌^◌, ◌≡◌, ◌≢◌, ◌↔◌, ◌⊎◌, true, false, refl, arith, [], ◌∷◌}
use popcorn.Sync.RwLock.{
  lock_shared, lock_exclusive, lock_upgradable, unlock_exclusive, fail, panic, verdict, idle,
  writer, upgradable, resting, trying, role, System, load, win, move,
}
use popcorn.Sync.RwLock.Invariant.{Reach, start, later, readers, upgradables, writers}
use popcorn.Sync.RwLock.Exclusion.{writer_excludes, one_upgradable, never_panics, fail_iff}

abbrev writing : System
writing = record { word = 2 ^ 63; threads = resting writer ∷ resting idle ∷ [] }

writing_reached : Reach 2 writing
unfolding verdict
writing_reached =
    later (later start (move 0 (resting idle) refl (load lock_exclusive)))
      (move 0 (trying lock_exclusive 0) refl (win refl))

abbrev upgrading : System
upgrading = record { word = 2 ^ 62; threads = resting upgradable ∷ resting idle ∷ [] }

upgrading_reached : Reach 2 upgrading
unfolding verdict
upgrading_reached =
    later (later start (move 0 (resting idle) refl (load lock_upgradable)))
      (move 0 (trying lock_upgradable 0) refl (win refl))

writer_excludes_example : role (resting idle) ≡ idle
writer_excludes_example =
    writer_excludes 0 1 (resting writer) (resting idle) (omega arith) writing_reached refl refl
      (omega arith) refl

one_upgradable_example : ◌≡◌ {A = ℕ} 0 0
one_upgradable_example =
    one_upgradable 0 0 (resting upgradable) (resting upgradable) (omega arith) upgrading_reached
      refl refl refl refl

never_panics_example : verdict unlock_exclusive false (2 ^ 63) ≢ panic
never_panics_example =
    never_panics 0 (resting writer) unlock_exclusive false (omega arith) writing_reached refl refl

fail_iff_example :
    ((verdict lock_shared false writing.word ≡ fail) ↔ (writers writing.threads ≡ 1))
    × ((verdict lock_upgradable false writing.word ≡ fail)
        ↔ ((writers writing.threads ≡ 1) ⊎ (upgradables writing.threads ≡ 1)))
    × (verdict lock_exclusive true writing.word ≡ fail)
    × ((verdict lock_exclusive false writing.word ≡ fail)
        ↔ (0 < readers writing.threads + upgradables writing.threads + writers writing.threads))
fail_iff_example = fail_iff (omega arith) writing_reached false
