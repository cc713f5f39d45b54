-- ===== src/RangedBtree/Order.antt =====
-- Which keys `cmp` takes for equal, and how the three answers fit together.
use Prim.Native.Nat.{Ordering}
use popcorn.Prelude.{ℕ, ◌≤◌, ◌<◌, ◌≡◌, ◌↔◌, ◌-◌, max, arith}
use popcorn.RangedBtree.{KeyType, range, point, cmp, reverse_order}

-- The numbers that a key stands for.
abbrev pub Holds : KeyType → ℕ → Type 0
Holds (point a) p = p ≡ a
Holds (range r) p = (r.start ≤ p) × (p < r.end)

abbrev pub Inhabited : KeyType → Type 0
Inhabited (point a) = Unit
Inhabited (range r) = r.start < r.end

-- Swapping two keys that are no empty ranges turns the answer round.
pub cmp_swap : (a b : KeyType) → Inhabited a → Inhabited b → cmp b a ≡ reverse_order (cmp a b)
unfolding cmp
cmp_swap (point a) (point b) ha hb = ground arith
cmp_swap (point a) (range b) ha hb = ground arith
cmp_swap (range a) (point b) ha hb = ground arith
cmp_swap (range a) (range b) ha hb = ground arith

-- Of two keys that are no empty ranges, `cmp` answers `Less` exactly when every number of the first
-- is below every number of the second.
pub cmp-lt_iff :
    (a b : KeyType)
    → Inhabited a
    → Inhabited b
    → (cmp a b ≡ Ordering.lt) ↔ ((p q : ℕ) → Holds a p → Holds b q → p < q)
unfolding cmp
cmp-lt_iff (point a) (point b) ha hb = (λ e p q hp hq. ground arith, λ h. ground (arith, h a b))
cmp-lt_iff (point a) (range b) ha hb =
    (λ e p q hp hq. ground arith, λ h. ground (arith, h a b.start))
cmp-lt_iff (range a) (point b) ha hb =
    (λ e p q hp hq. ground arith, λ h. ground (arith, h (a.end - 1) b))
cmp-lt_iff (range a) (range b) ha hb =
    (λ e p q hp hq. ground arith, λ h. ground (arith, h (a.end - 1) b.start))

-- A number that two keys share, where there is one.
shared : KeyType → KeyType → ℕ
shared (point a) b = a
shared (range a) (point b) = b
shared (range a) (range b) = max a.start b.start

-- Of two keys that are no empty ranges, `cmp` answers `Equal` exactly when some number is in both.
pub cmp-eq_iff :
    (a b : KeyType)
    → Inhabited a
    → Inhabited b
    → (cmp a b ≡ Ordering.eq) ↔ ((p : ℕ) × Holds a p × Holds b p)
unfolding cmp shared
cmp-eq_iff (point a) (point b) ha hb = (λ e. (a, ground arith, ground arith), λ h. ground arith)
cmp-eq_iff (point a) (range b) ha hb = (λ e. (a, ground arith, ground arith), λ h. ground arith)
cmp-eq_iff (range a) (point b) ha hb = (λ e. (b, ground arith, ground arith), λ h. ground arith)
cmp-eq_iff (range a) (range b) ha hb =
    (λ e. (max a.start b.start, ground arith, ground arith), λ h. ground arith)
