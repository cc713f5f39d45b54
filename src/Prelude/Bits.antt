-- ===== src/Prelude/Bits.antt =====
-- The bits of a number one by one, and what `&`, `|` and `!` do to each of them.
use Prim.Native.Nat.{bit_and, bit_or, digits, bit_and-bitwise, bit_or-bitwise}
use native.Mathlib.Nat.{pow-suc, div-div-eq-div-mul, pow-succ', mul_assoc}
use native.Mathlib.Decide.{dec_le}
use popcorn.Prelude.{
  ℕ, zero, suc, ◌+◌, ◌-◌, ◌*◌, ltb, ◌/◌, ◌%◌, ◌^◌, ◌≤◌, ◌<◌, min, max, ◌≡◌, ◌≢◌, refl, sym, ap, ◌∙◌,
  ◌==◌, if◌then◌else◌, arith,
}

-- Bit `i` of `x`, 0 or 1.
unfoldable pub bit : ℕ → ℕ → ℕ
bit x zero = x % 2
bit x (suc i) = bit (x / 2) i

pub bit-le-one : (x i : ℕ) → bit x i ≤ 1
unfolding bit
bit-le-one x zero = omega arith
bit-le-one x (suc i) = bit-le-one (x / 2) i

pub bit-zero : (i : ℕ) → bit 0 i ≡ 0
unfolding bit
bit-zero zero = refl
bit-zero (suc i) = bit-zero i

abbrev conj : ℕ → ℕ → ℕ → ℕ
conj = digits (λ _. 0) min

abbrev disj : ℕ → ℕ → ℕ → ℕ
disj = digits (λ y. y) max

bit-conj : (i k x y : ℕ) → x ≤ k → bit (conj k x y) i ≡ min (bit x i) (bit y i)
unfolding bit
bit-conj i zero zero y h = omega (arith, bit-zero i)
bit-conj i zero (suc x) y h = absurd (omega arith)
bit-conj i (suc k) zero y h = omega (arith, bit-zero i)
bit-conj zero (suc k) (suc x) y h = omega arith
bit-conj (suc i) (suc k) (suc x) y h =
    ap (λ t. bit t i) (omega arith) ∙ bit-conj i k (suc x / 2) (y / 2) (omega arith)

bit-disj : (i k x y : ℕ) → x ≤ k → bit (disj k x y) i ≡ max (bit x i) (bit y i)
unfolding bit
bit-disj i zero zero y h = omega (arith, bit-zero i)
bit-disj i zero (suc x) y h = absurd (omega arith)
bit-disj i (suc k) zero y h = omega (arith, bit-zero i)
bit-disj zero (suc k) (suc x) y h = omega arith
bit-disj (suc i) (suc k) (suc x) y h =
    ap (λ t. bit t i) (omega arith) ∙ bit-disj i k (suc x / 2) (y / 2) (omega arith)

pub bit-bit_and : (x y i : ℕ) → bit (bit_and x y) i ≡ min (bit x i) (bit y i)
bit-bit_and x y i = ap (λ t. bit t i) (bit_and-bitwise x y) ∙ bit-conj i x x y (omega arith)

pub bit-bit_or : (x y i : ℕ) → bit (bit_or x y) i ≡ max (bit x i) (bit y i)
bit-bit_or x y i = ap (λ t. bit t i) (bit_or-bitwise x y) ∙ bit-disj i x x y (omega arith)

-- `1 << i`
pub bit-pow : (i j : ℕ) → bit (2 ^ i) j ≡ (if i == j then 1 else 0)
unfolding bit
bit-pow zero zero = refl
bit-pow zero (suc j) = ground (arith, bit-zero j)
bit-pow (suc i) zero = ground (arith, pow-suc 2 i)
bit-pow (suc i) (suc j) =
    ap (λ t. bit t j) (omega (arith, pow-suc 2 i)) ∙ bit-pow i j ∙ ground arith

pub one-le-two-pow : (i : ℕ) → 1 ≤ 2 ^ i
one-le-two-pow zero = omega arith
one-le-two-pow (suc i) = omega (arith, pow-suc 2 i, one-le-two-pow i)

pub two-pow-lt : (i k : ℕ) → i < k → 2 ^ i < 2 ^ k
two-pow-lt i zero h = absurd (omega arith)
two-pow-lt zero (suc k) h = omega (arith, pow-suc 2 k, one-le-two-pow k)
two-pow-lt (suc i) (suc k) h = omega (arith, pow-suc 2 i, pow-suc 2 k, two-pow-lt i k (omega arith))

-- `!m` on a word of `k` bits
pub bit-complement : (k m j : ℕ) → m < 2 ^ k → j < k → bit (2 ^ k - 1 - m) j ≡ 1 - bit m j
unfolding bit
bit-complement zero m j small below = absurd (omega arith)
bit-complement (suc k) m zero small below = omega (arith, pow-suc 2 k)
bit-complement (suc k) m (suc j) small below =
    ap (λ t. bit t j) (omega (arith, pow-suc 2 k))
    ∙ bit-complement k (m / 2) j (omega (arith, pow-suc 2 k)) (omega arith)

-- `!m` on a `usize`
abbrev pub not64 : ℕ → ℕ
not64 m = 2 ^ 64 - 1 - m

-- `x & !(1 << i)` and `x | (1 << i)`
pub bit-clear :
    (x i j : ℕ)
    → i < 64
    → j < 64
    → bit (bit_and x (not64 (2 ^ i))) j ≡ (if i == j then 0 else bit x j)
bit-clear x i j hi hj = ground (
  arith,
  bit-bit_and x (not64 (2 ^ i)) j,
  bit-complement 64 (2 ^ i) j (two-pow-lt i 64 hi) hj,
  bit-pow i j,
  bit-le-one x j,
)

pub bit-set : (x i j : ℕ) → bit (bit_or x (2 ^ i)) j ≡ (if i == j then 1 else bit x j)
bit-set x i j = ground (arith, bit-bit_or x (2 ^ i) j, bit-pow i j, bit-le-one x j)

pub bit-below : (k x j : ℕ) → x < 2 ^ k → k ≤ j → bit x j ≡ 0
unfolding bit
bit-below zero zero j small h = bit-zero j
bit-below zero (suc x) j small h = absurd (omega arith)
bit-below (suc k) x zero small h = absurd (omega arith)
bit-below (suc k) x (suc j) small h =
    bit-below k (x / 2) j (omega (arith, pow-suc 2 k)) (omega arith)

pub lt_of_bits : (n x k : ℕ) → x ≤ n → ((j : ℕ) → k ≤ j → bit x j ≡ 0) → x < 2 ^ k
unfolding bit
lt_of_bits n zero k le clear = one-le-two-pow k
lt_of_bits zero (suc x) k le clear = absurd (omega arith)
lt_of_bits (suc n) (suc x) zero le clear =
    let half = lt_of_bits n (suc x / 2) zero (omega arith) (λ j h. clear (suc j) (omega arith)) in
    absurd (omega (arith, clear zero (omega arith)))
lt_of_bits (suc n) (suc x) (suc k) le clear =
    let half = lt_of_bits n (suc x / 2) k (omega arith) (λ j h. clear (suc j) (omega arith)) in
    omega (arith, pow-suc 2 k)

bit-masked : (x i j : ℕ) → bit (bit_and x (2 ^ i)) j ≡ min (bit x j) (if i == j then 1 else 0)
bit-masked x i j = bit-bit_and x (2 ^ i) j ∙ ap (min (bit x j)) (bit-pow i j)

masked-clear : (x i : ℕ) → bit x i ≡ 0 → bit_and x (2 ^ i) ≡ 0
masked-clear x i clear =
    let below =
      lt_of_bits (bit_and x (2 ^ i)) (bit_and x (2 ^ i)) 0 (omega arith)
        (λ j h. ground (arith, bit-masked x i j)) in
    omega arith

masked-set : (x i : ℕ) → bit x i ≡ 1 → bit_and x (2 ^ i) ≢ 0
masked-set x i is_set z = absurd (ground (arith, bit-masked x i i, ap (λ t. bit t i) z, bit-zero i))

-- `x & (1 << i)` tests bit `i`.
pub bit_and-pow : (x i : ℕ) → (bit_and x (2 ^ i) == 0) ≡ (bit x i == 0)
bit_and-pow x i = elim (dec_le (bit x i) 0) [
  | yes clear ↦ ground (arith, masked-clear x i (omega arith))
  | no set ↦ ground (arith, bit-le-one x i, masked-set x i (omega (arith, bit-le-one x i)))
]

shr_suc : (s x : ℕ) → x / 2 ^ suc s ≡ x / 2 / 2 ^ s
shr_suc s x = ap (λ p. x / p) (pow-succ' 2 s) ∙ sym (div-div-eq-div-mul x 2 (2 ^ s))

-- `x >> s`, `x << s` and the mask of the lowest `n` bits
pub bit-shr : (s x j : ℕ) → bit (x / 2 ^ s) j ≡ bit x (s + j)
unfolding bit
bit-shr zero x j =
    let same : x / 1 ≡ x = omega arith in
    let place : j ≡ 0 + j = omega arith in ap (λ t. bit t j) same ∙ ap (bit x) place
bit-shr (suc s) x j =
    let place : suc (s + j) ≡ suc s + j = omega arith in
    ap (λ t. bit t j) (shr_suc s x) ∙ bit-shr s (x / 2) j ∙ ap (bit x) place

shl_suc : (s x : ℕ) → x * 2 ^ suc s ≡ x * 2 ^ s * 2
shl_suc s x = ap (λ p. x * p) (pow-suc 2 s) ∙ sym (mul_assoc x (2 ^ s) 2)

pub bit-shl : (s x j : ℕ) → bit (x * 2 ^ s) j ≡ (if ltb j s then 0 else bit x (j - s))
unfolding bit
bit-shl zero x j = let same : x * 1 ≡ x = omega arith in ap (λ t. bit t j) same ∙ ground arith
bit-shl (suc s) x zero = ground (arith, shl_suc s x)
bit-shl (suc s) x (suc j) =
    ap (λ t. bit (t / 2) j) (shl_suc s x)
    ∙ ap (λ t. bit t j) (omega arith)
    ∙ bit-shl s x j
    ∙ ground arith

pub bit-mask : (n j : ℕ) → bit (2 ^ n - 1) j ≡ (if ltb j n then 1 else 0)
unfolding bit
bit-mask zero j = ground (arith, bit-zero j)
bit-mask (suc n) zero = ground (arith, pow-suc 2 n, one-le-two-pow n)
bit-mask (suc n) (suc j) =
    ap (λ t. bit t j) (omega (arith, pow-suc 2 n, one-le-two-pow n)) ∙ bit-mask n j ∙ ground arith
