-- ===== src/BitmapAllocator/Clients.antt =====
-- Clients of the allocator: blocks of frames that are taken and given back, in any order.
use popcorn.Prelude.{
  ℕ, zero, suc, ◌+◌, ◌*◌, ◌≤◌, ◌<◌, ◌≡◌, ◌⊎◌, none, some, List, [], ◌∷◌, get_elem?,
}
use popcorn.Prelude.Outcome.{Outcome, ok, err, panic, ◌>>=◌}
use popcorn.Memory.{Frame, page_size}
use popcorn.BitmapAllocator.{allocated, BitmapAllocator, get_frame, deallocate_contiguous}
use popcorn.BitmapAllocator.Contiguous.{allocate_contiguous}
use popcorn.BitmapAllocator.Frames.{covered, frame_at, IsValid}

-- A block: its first frame and the number of frames.
abbrev pub Block : Type 0
Block = Frame × ℕ

pub data Request : Type 0 where
  allocate : ℕ → Request
  release : ℕ → Request

-- The allocator and the blocks that are out.
pub record Clients : Type 0 where
  pub allocator : BitmapAllocator
  pub held : List Block

abbrev pub remove : List Block → ℕ → List Block
remove [] k = []
remove (x ∷ xs) zero = xs
remove (x ∷ xs) (suc k) = x ∷ remove xs k

-- `allocate n` asks for `n + 1` frames; `release k` gives back the `k`th block that is out, if
-- there is one.
unfoldable pub request : Clients → Request → Outcome Clients
request c (allocate n) = elim (allocate_contiguous c.allocator (suc n)) [
  | ok (f, b) ↦ ok (record { allocator = b; held = (f, suc n) ∷ c.held })
  | err ↦ ok c
  | panic ↦ panic
]
request c (release k) = elim (get_elem? c.held k) [
  | none ↦ ok c
  | some (f, n) ↦ elim (deallocate_contiguous c.allocator f n) [
    | ok b ↦ ok (record { allocator = b; held = remove c.held k })
    | err ↦ err
    | panic ↦ panic
  ]
]

unfoldable pub requests : Clients → List Request → Outcome Clients
requests c [] = ok c
requests c (r ∷ rs) = request c r >>= λ d. requests d rs

-- Two blocks have no frame in common.
abbrev pub Apart : Block → Block → Type 0
Apart (f, n) (g, m) = (f + n * page_size ≤ g) ⊎ (g + m * page_size ≤ f)

abbrev pub ApartFrom : Block → List Block → Type 0
ApartFrom x [] = Unit
ApartFrom x (y ∷ ys) = Apart x y × ApartFrom x ys

abbrev pub Disjoint : List Block → Type 0
Disjoint [] = Unit
Disjoint (x ∷ xs) = ApartFrom x xs × Disjoint xs

-- The frames of the block are in the bitmap and allocated.
pub record Owned (a : BitmapAllocator) (x : Block) : Type 0 where
  pub index : ℕ
  pub frame : x.0 ≡ frame_at a index
  pub some_frame : 0 < x.1
  pub inside : index + x.1 ≤ covered a
  pub taken : (j : ℕ) → index ≤ j → j < index + x.1 → get_frame a (frame_at a j) ≡ ok allocated

abbrev pub AllOwned : BitmapAllocator → List Block → Type 0
AllOwned a [] = Unit
AllOwned a (x ∷ xs) = Owned a x × AllOwned a xs

pub record IsSound (c : Clients) : Type 0 where
  pub valid : IsValid c.allocator
  pub owned : AllOwned c.allocator c.held
  pub disjoint : Disjoint c.held
