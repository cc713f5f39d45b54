-- ===== src/BitmapAllocator/Ownership.antt =====
-- No frame is given out twice, whatever the clients of the allocator do.
use mathlib.Core.Path.{subst}
use native.Mathlib.Decide.{dec_le}
use popcorn.Prelude.{
  ℕ, zero, suc, ◌+◌, ◌*◌, ◌≤◌, ◌<◌, ◌≡◌, ◌∙◌, ap, refl, sym, ◌⊎◌, inl, inr, some, List, [], ◌∷◌,
  get_elem?, arith, Option-cases,
}
use popcorn.Prelude.Outcome.{ok, ◌>>=◌}
use popcorn.Memory.{Frame, page_size}
use popcorn.BitmapAllocator.{
  allocated, free, FrameState, BitmapAllocator, get_frame, deallocate_contiguous,
}
use popcorn.BitmapAllocator.Frames.{frame_at}
use popcorn.BitmapAllocator.Ranges.{WroteRange, deallocate-WroteRange}
use popcorn.BitmapAllocator.Runs.{TookRun}
use popcorn.BitmapAllocator.AllocateContiguous.{allocate_contiguous_lem}
use popcorn.BitmapAllocator.Clients.{
  Block, Request, allocate, release, Clients, remove, request, requests, Apart, ApartFrom, Disjoint,
  Owned, AllOwned, IsSound,
}

Owned-keep :
    (a b : BitmapAllocator) (i n : ℕ) (s : FrameState) (x : Block)
    → WroteRange a i n s b
    → (o : Owned a x) → (s ≡ allocated) ⊎ ((i + n ≤ o.index) ⊎ (o.index + x.1 ≤ i))
    → Owned b x
Owned-keep a b i n s x w o keeps =
    let frames : (j : ℕ) → frame_at a j ≡ frame_at b j =
      λ j. ap (λ f. f + j * page_size) (sym w.same_start) in
    record {
      index = o.index;
      frame = o.frame ∙ frames o.index;
      some_frame = o.some_frame;
      inside = omega (arith, o.inside, w.same_size);
      taken = λ j low high.
          ap (get_frame b) (sym (frames j))
          ∙ ground (arith, w.states j (omega (arith, o.inside)), o.taken j low high, keeps);
    }

took-Apart :
    (a b : BitmapAllocator) (n : ℕ) (f : Frame) (x : Block)
    → 0 < n
    → TookRun a n f b
    → Owned a x
    → Apart (f, n) x
took-Apart a b n f x pos t o = elim (dec_le (t.index + n) o.index) [
  | yes below ↦ inl (omega (arith, t.frame, o.frame))
  | no above ↦ elim (dec_le (o.index + x.1) t.index) [
    | yes past ↦ inr (omega (arith, t.frame, o.frame))
    | no both ↦ elim (dec_le t.index o.index) [
      | yes le ↦ absurd (
          ground (
            arith,
            t.were_free o.index le (omega arith),
            o.taken o.index (omega arith) (omega (arith, o.some_frame)),
          ))
      | no gt ↦ absurd (
          ground (
            arith,
            t.were_free t.index (omega arith) (omega arith),
            o.taken t.index (omega arith) (omega arith),
          ))
    ]
  ]
]

took-all :
    (a b : BitmapAllocator) (n : ℕ) (f : Frame) (l : List Block)
    → 0 < n
    → TookRun a n f b
    → AllOwned a l
    → AllOwned b l × ApartFrom (f, n) l
took-all a b n f [] pos t owned = (tt, tt)
took-all a b n f (x ∷ l) pos t (o, rest) =
    let (owned, apart) = took-all a b n f l pos t rest in
    (
      (Owned-keep a b t.index n allocated x t.wrote o (inl refl), owned),
      (took-Apart a b n f x pos t o, apart),
    )

took-Owned : (a b : BitmapAllocator) (n : ℕ) (f : Frame) → 0 < n → TookRun a n f b → Owned b (f, n)
took-Owned a b n f pos t =
    let frames : (j : ℕ) → frame_at a j ≡ frame_at b j =
      λ j. ap (λ s. s + j * page_size) (sym t.wrote.same_start) in
    record {
      index = t.index;
      frame = t.frame ∙ frames t.index;
      some_frame = pos;
      inside = omega (arith, t.inside, t.wrote.same_size);
      taken = λ j low high.
          ap (get_frame b) (sym (frames j))
          ∙ ground (arith, t.wrote.states j (omega (arith, t.inside)));
    }

Apart-sym : (x y : Block) → Apart x y → Apart y x
Apart-sym x y (inl h) = inr h
Apart-sym x y (inr h) = inl h

ApartFrom-at :
    (x y : Block) (l : List Block) (k : ℕ) → ApartFrom x l → get_elem? l k ≡ some y → Apart x y
ApartFrom-at x y [] k h e = absurd (ground arith)
ApartFrom-at x y (z ∷ l) zero (h, rest) e =
    let same : z ≡ y = ground arith in subst (Apart x) same h
ApartFrom-at x y (z ∷ l) (suc k) (h, rest) e = ApartFrom-at x y l k rest e

ApartFrom-remove : (x : Block) (l : List Block) (k : ℕ) → ApartFrom x l → ApartFrom x (remove l k)
ApartFrom-remove x [] k h = tt
ApartFrom-remove x (y ∷ l) zero (h, rest) = rest
ApartFrom-remove x (y ∷ l) (suc k) (h, rest) = (h, ApartFrom-remove x l k rest)

-- A block that is taken out of a list of disjoint ones is apart from those left.
Disjoint-remove :
    (l : List Block) (k : ℕ) (x : Block)
    → Disjoint l
    → get_elem? l k ≡ some x
    → Disjoint (remove l k) × ApartFrom x (remove l k)
Disjoint-remove [] k x d e = absurd (ground arith)
Disjoint-remove (y ∷ l) zero x (h, d) e =
    let same : y ≡ x = ground arith in (d, subst (λ z. ApartFrom z l) same h)
Disjoint-remove (y ∷ l) (suc k) x (h, d) e =
    let (left, apart) = Disjoint-remove l k x d e in
    ((ApartFrom-remove y l k h, left), (Apart-sym y x (ApartFrom-at y x l k h e), apart))

Owned-at :
    (a : BitmapAllocator) (l : List Block) (k : ℕ) (x : Block)
    → AllOwned a l
    → get_elem? l k ≡ some x
    → Owned a x
Owned-at a [] k x owned e = absurd (ground arith)
Owned-at a (y ∷ l) zero x (o, rest) e = let same : y ≡ x = ground arith in subst (Owned a) same o
Owned-at a (y ∷ l) (suc k) x (o, rest) e = Owned-at a l k x rest e

Owned-remove :
    (a : BitmapAllocator) (l : List Block) (k : ℕ) → AllOwned a l → AllOwned a (remove l k)
Owned-remove a [] k owned = tt
Owned-remove a (y ∷ l) zero (o, rest) = rest
Owned-remove a (y ∷ l) (suc k) (o, rest) = (o, Owned-remove a l k rest)

released-all :
    (a b : BitmapAllocator) (x : Block) (o : Owned a x) (l : List Block)
    → WroteRange a o.index x.1 free b
    → AllOwned a l
    → ApartFrom x l
    → AllOwned b l
released-all a b x o [] w owned apart = tt
released-all a b x o (y ∷ l) w (p, rest) (h, apart) = (
  Owned-keep a b o.index x.1 free y w p (
      inr (elim h [
        | inl below ↦ inl (omega (arith, o.frame, p.frame))
        | inr past ↦ inr (omega (arith, o.frame, p.frame))
      ])),
  released-all a b x o l w rest apart,
)

allocate-IsSound :
    (c : Clients) (n : ℕ) → IsSound c → (d : Clients) × (request c (allocate n) ≡ ok d) × IsSound d
unfolding request
allocate-IsSound c n v = elim (allocate_contiguous_lem c.allocator (suc n) v.valid (omega arith)) [
  | inr (e, _) ↦ (c, ground (arith, e), v)
  | inl (f, b, e, took) ↦
      let (owned, apart) = took-all c.allocator b (suc n) f c.held (omega arith) took v.owned in
      (
        record { allocator = b; held = (f, suc n) ∷ c.held },
        ground (arith, e),
        record {
          valid = took.wrote.valid;
          owned = (took-Owned c.allocator b (suc n) f (omega arith) took, owned);
          disjoint = (apart, v.disjoint);
        },
      )
]

release-IsSound :
    (c : Clients) (k : ℕ) → IsSound c → (d : Clients) × (request c (release k) ≡ ok d) × IsSound d
unfolding request
release-IsSound c k v = elim (Option-cases (get_elem? c.held k)) [
  | inl nothing ↦ (c, ground (arith, nothing), v)
  | inr ((f, n), at) ↦
      let o = Owned-at c.allocator c.held k (f, n) v.owned at in
      let (left, apart) = Disjoint-remove c.held k (f, n) v.disjoint at in
      let (b, e, wrote) = deallocate-WroteRange c.allocator o.index n v.valid o.inside in
      (
        record { allocator = b; held = remove c.held k },
        ground (arith, at, ap (λ g. deallocate_contiguous c.allocator g n) o.frame, e),
        record {
          valid = wrote.valid;
          owned =
              released-all c.allocator b (f, n) o (remove c.held k) wrote
                (Owned-remove c.allocator c.held k v.owned) apart;
          disjoint = left;
        },
      )
]

-- However clients take and give back blocks of frames, starting from a valid bitmap whose blocks
-- that are out have no frame in common and are allocated, no call panics, and at the end the blocks
-- that are out have no frame in common and are allocated.
pub requests-IsSound :
    (rs : List Request) (c : Clients)
    → IsSound c
    → (d : Clients) × (requests c rs ≡ ok d) × IsSound d
unfolding requests
requests-IsSound [] c v = (c, refl, v)
requests-IsSound (allocate n ∷ rs) c v =
    let (d, e, w) = allocate-IsSound c n v in
    let (z, f, x) = requests-IsSound rs d w in (z, ap (λ o. o >>= λ y. requests y rs) e ∙ f, x)
requests-IsSound (release k ∷ rs) c v =
    let (d, e, w) = release-IsSound c k v in
    let (z, f, x) = requests-IsSound rs d w in (z, ap (λ o. o >>= λ y. requests y rs) e ∙ f, x)
