-- ===== src/Memory/Align.antt =====
-- kernel_api/src/memory/mod.rs: the alignment of addresses. `PhysicalAddress` and `VirtualAddress`
-- have the same functions, and the versions with a runtime alignment have the same bodies, so each
-- stands here once. An address is the number that it wraps.
use native.Mathlib.Nat.{div-mul-le_self, lt-div-mul-add}
use Prim.Native.Nat.{bit_and}
use native.Mathlib.Decide.{dec_lt, ℕ_discrete}
use popcorn.Prelude.{
  ℕ, zero, suc, ◌+◌, ◌-◌, ◌*◌, ◌/◌, ◌^◌, ◌%◌, ◌≤◌, ◌<◌, ◌≡◌, ◌≢◌, ◌∙◌, ◌⊎◌, inl, inr, arith, refl,
  sym, ap, ◌==◌, ltb, if◌then◌else◌,
}
use popcorn.Prelude.Bits.{
  bit, bit-le-one, bit-bit_and, bit-complement, bit-mask, bit-shl, bit-shr, bit-below, not64,
  one-le-two-pow, two-pow-lt,
}
use popcorn.Prelude.Words.{usize_mod, checked_add, checked_sub}
use popcorn.Prelude.Outcome.{Outcome, ok, panic, ◌>>=◌, expect}
use popcorn.Memory.{page_size, page_map_offset, Frame, Page}

unfoldable pub align_down : ℕ → ℕ → Outcome ℕ
unfolding checked_sub
align_down new_align addr = do
  mask ← expect (checked_sub new_align 1)
  ok (bit_and addr (not64 mask))

unfoldable pub align_up : ℕ → ℕ → Outcome ℕ
unfolding checked_sub checked_add
align_up new_align addr = do
  sum ← expect (checked_add addr new_align)
  a ← expect (checked_sub sum 1)
  align_down new_align a

-- `PhysicalAddress::new` and `VirtualAddress::new`
unfoldable pub address_new : ℕ → ℕ → Outcome ℕ
address_new align addr = do
  aligned ← align_down align addr
  if aligned == addr then ok aligned else panic

-- `Frame::end` and `Page::end`
unfoldable pub end : ℕ → Outcome ℕ
unfolding checked_add
end base = do sum ← expect (checked_add base page_size); address_new page_size sum

-- `Frame::to_page`, through `PhysicalAddress::to_virtual`
unfoldable pub to_page : Frame → Outcome Page
unfolding checked_add
to_page base = expect (checked_add base page_map_offset)

bit_ext : (n x y : ℕ) → x ≤ n → y ≤ n → ((j : ℕ) → bit x j ≡ bit y j) → x ≡ y
unfolding bit
bit_ext zero x y hx hy same = omega arith
bit_ext (suc n) zero zero hx hy same = refl
bit_ext (suc n) zero (suc y) hx hy same =
    let half = bit_ext n 0 (suc y / 2) (omega arith) (omega arith) (λ j. same (suc j)) in
    absurd (omega (arith, same 0))
bit_ext (suc n) (suc x) zero hx hy same =
    let half = bit_ext n (suc x / 2) 0 (omega arith) (omega arith) (λ j. same (suc j)) in
    absurd (omega (arith, same 0))
bit_ext (suc n) (suc x) (suc y) hx hy same =
    let half = bit_ext n (suc x / 2) (suc y / 2) (omega arith) (omega arith) (λ j. same (suc j)) in
    omega (arith, same 0)

masked_bit :
    (k a j : ℕ)
    → k < 64
    → a < 2 ^ 64
    → bit (bit_and a (not64 (2 ^ k - 1))) j ≡ (if ltb j k then 0 else bit a j)
masked_bit k a j hk ha = elim (dec_lt j 64) [
  | yes low ↦ ground (
    arith,
    bit-bit_and a (not64 (2 ^ k - 1)) j,
    bit-complement 64 (2 ^ k - 1) j (omega (arith, two-pow-lt k 64 hk)) low,
    bit-mask k j,
    bit-le-one a j,
  )
  | no high ↦ ground (arith, bit-bit_and a (not64 (2 ^ k - 1)) j, bit-below 64 a j ha (omega arith))
]

multiple_bit : (k a j : ℕ) → bit (a / 2 ^ k * 2 ^ k) j ≡ (if ltb j k then 0 else bit a j)
multiple_bit k a j = elim (dec_lt j k) [
  | yes low ↦ ground (arith, bit-shl k (a / 2 ^ k) j)
  | no high ↦
      let place : k + (j - k) ≡ j = omega arith in
      ground (arith, bit-shl k (a / 2 ^ k) j, bit-shr k a (j - k), ap (bit a) place)
]

mask-multiple : (k a : ℕ) → k < 64 → a < 2 ^ 64 → bit_and a (not64 (2 ^ k - 1)) ≡ a / 2 ^ k * 2 ^ k
mask-multiple k a hk ha =
    bit_ext (bit_and a (not64 (2 ^ k - 1)) + a / 2 ^ k * 2 ^ k) (bit_and a (not64 (2 ^ k - 1)))
      (a / 2 ^ k * 2 ^ k) (omega arith) (omega arith)
      (λ j. masked_bit k a j hk ha ∙ sym (multiple_bit k a j))

align_down-eq : (k a : ℕ) → k < 64 → a < usize_mod → align_down (2 ^ k) a ≡ ok (a / 2 ^ k * 2 ^ k)
unfolding align_down checked_sub
align_down-eq k a hk ha = ground (arith, mask-multiple k a hk ha, one-le-two-pow k)

-- For an alignment that is a power of two below the word size: the address rounded down is the
-- multiple of the alignment that division gives; and rounded up it is that of the address and the
-- alignment less one, which lies at or above the address and less than the alignment above it, or
-- the address and the alignment together overflow and it panics.
pub align_lem :
    (k a : ℕ)
    → k < 64
    → a < usize_mod
    → (align_down (2 ^ k) a ≡ ok (a / 2 ^ k * 2 ^ k))
      × (((up : ℕ) × (align_up (2 ^ k) a ≡ ok up)
            × (up ≡ (a + 2 ^ k - 1) / 2 ^ k * 2 ^ k)
            × (a ≤ up)
            × (up < a + 2 ^ k))
          ⊎ ((usize_mod ≤ a + 2 ^ k) × (align_up (2 ^ k) a ≡ panic)))
unfolding align_up checked_sub checked_add
align_lem k a hk ha = (
  align_down-eq k a hk ha,
  elim (dec_lt (a + 2 ^ k) usize_mod) [
    | yes fits ↦
        let pos = one-le-two-pow k in
        let down = align_down-eq k (a + 2 ^ k - 1) hk (omega arith) in
        let below = div-mul-le_self (a + 2 ^ k - 1) (2 ^ k) in
        let above = lt-div-mul-add {a = a + 2 ^ k - 1} {b = 2 ^ k} pos in
        inl ((a + 2 ^ k - 1) / 2 ^ k * 2 ^ k, ground (arith, down), refl, omega arith, omega arith)
    | no over ↦ inr (omega arith, ground arith)
  ],
)

-- An address is made with an alignment exactly if it is a multiple of it.
pub address_new_lem :
    (k a : ℕ)
    → k < 64
    → a < usize_mod
    → ((a / 2 ^ k * 2 ^ k ≡ a) × (address_new (2 ^ k) a ≡ ok a))
      ⊎ ((a / 2 ^ k * 2 ^ k ≢ a) × (address_new (2 ^ k) a ≡ panic))
unfolding address_new
address_new_lem k a hk ha = elim (ℕ_discrete (a / 2 ^ k * 2 ^ k) a) [
  | yes same ↦ inl (same, ground (arith, align_down-eq k a hk ha, same))
  | no other ↦ inr (other, ground (arith, align_down-eq k a hk ha, other))
]

pub address_new_page : (a : ℕ) → a < usize_mod → a % page_size ≡ 0 → address_new page_size a ≡ ok a
address_new_page a ha aligned =
    let multiple : a / 2 ^ 12 * 2 ^ 12 ≡ a = omega arith in
    elim (address_new_lem 12 a (omega arith) ha) [
      | inl (same, made) ↦ made
      | inr (other, fails) ↦ absurd (other multiple)
    ]

-- The address past the end of an aligned frame or page is one page further on, unless that
-- overflows, and then it panics.
pub end_lem :
    (base : ℕ)
    → base % page_size ≡ 0
    → ((base + page_size < usize_mod) × (end base ≡ ok (base + page_size)))
      ⊎ ((usize_mod ≤ base + page_size) × (end base ≡ panic))
unfolding end checked_add
end_lem base aligned = elim (dec_lt (base + page_size) usize_mod) [
  | yes fits ↦ inl (fits, ground (arith, address_new_page (base + page_size) fits (omega arith)))
  | no over ↦ inr (omega arith, ground arith)
]

pub address_new-ok : (align a p : ℕ) → address_new align a ≡ ok p → p ≡ a
unfolding address_new
address_new-ok align a p e = ground arith
