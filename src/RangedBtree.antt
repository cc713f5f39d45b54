-- ===== src/RangedBtree.antt =====
-- ranged_btree/src/lib.rs: a map from disjoint ranges to values, looked up by point. A `BTreeMap`
-- keeps its keys in the order of `cmp` and finds the place of a key by comparing with them in that
-- order, so the map is the list of its entries; `K` is a number, as in every use of the crate.
pub mod Order
pub mod Lookup
pub mod Regions
use Prim.Native.Nat.{compare, Ordering}
use popcorn.Prelude.{
  ℕ, ◌≤◌, ◌<◌, Bool, true, false, ◌&&◌, Option, none, some, List, [], ◌∷◌, leb, ltb, if◌then◌else◌,
}

-- `core::ops::Range<K>`
pub record Range : Type 0 where
  pub start : ℕ
  pub end : ℕ

-- `Range::contains` and `Range::is_empty`
abbrev pub contains : Range → ℕ → Bool
contains r p = leb r.start p && ltb p r.end

abbrev pub is_empty : Range → Bool
is_empty r = leb r.end r.start

pub data KeyType : Type 0 where
  range : Range → KeyType
  point : ℕ → KeyType

-- `Ordering::reverse`
abbrev pub reverse_order : Ordering → Ordering
reverse_order Ordering.lt = Ordering.gt
reverse_order Ordering.eq = Ordering.eq
reverse_order Ordering.gt = Ordering.lt

-- The arm `(Point(a), Range(b))` of `cmp`, which the arm for the opposite order calls.
abbrev pub cmp_point_range : ℕ → Range → Ordering
cmp_point_range a b =
    if ltb a b.start then Ordering.lt else if leb b.end a then Ordering.gt else Ordering.eq

unfoldable pub cmp : KeyType → KeyType → Ordering
cmp (point a) (point b) = compare a b
cmp (point a) (range b) = cmp_point_range a b
cmp (range a) (point b) = reverse_order (cmp_point_range b a)
cmp (range a) (range b) =
    if leb b.end a.start
    then Ordering.gt
    else if leb a.end b.start
    then Ordering.lt
    else Ordering.eq

-- Only `insert` adds keys, and its keys are ranges: the list holds the ranges themselves, and the
-- arms `_ => unreachable!()` of the methods below have no case.
module _ {ℓ} (V : Type ℓ) where
  abbrev pub RangedBtreeMap : Type ℓ
  RangedBtreeMap = List (Range × V)

module _ {ℓ} {V : Type ℓ} where
  unfoldable pub new : RangedBtreeMap V
  new = []

  -- `try_insert`: `none` is the error, which leaves the map as it was.
  unfoldable pub insert : Range → V → RangedBtreeMap V → Option (RangedBtreeMap V)
  unfolding cmp
  insert r v [] = some ((r, v) ∷ [])
  insert r v ((s, w) ∷ m) = elim (cmp (range r) (range s)) [
    | Ordering.lt ↦ some ((r, v) ∷ (s, w) ∷ m)
    | Ordering.eq ↦ none
    | Ordering.gt ↦ elim (insert r v m) [ none ↦ none | some m' ↦ some ((s, w) ∷ m') ]
  ]

  unfoldable pub get_entry_at_point : ℕ → RangedBtreeMap V → Option V
  unfolding cmp
  get_entry_at_point p [] = none
  get_entry_at_point p ((s, w) ∷ m) = elim (cmp (point p) (range s)) [
    | Ordering.lt ↦ none
    | Ordering.eq ↦ some w
    | Ordering.gt ↦ get_entry_at_point p m
  ]

  unfoldable pub used_regions : RangedBtreeMap V → List Range
  used_regions [] = []
  used_regions ((s, w) ∷ m) = s ∷ used_regions m

  unfoldable pub first_key : RangedBtreeMap V → Option ℕ
  first_key [] = none
  first_key ((s, w) ∷ m) = some s.start

  unfoldable pub last_key : RangedBtreeMap V → Option ℕ
  last_key [] = none
  last_key ((s, w) ∷ []) = some s.end
  last_key ((s, w) ∷ e ∷ m) = last_key (e ∷ m)

  -- The value removed, if there was one, and the map after.
  unfoldable pub remove : ℕ → RangedBtreeMap V → Option V × RangedBtreeMap V
  unfolding cmp
  remove p [] = (none, [])
  remove p ((s, w) ∷ m) = elim (cmp (point p) (range s)) [
    | Ordering.lt ↦ (none, (s, w) ∷ m)
    | Ordering.eq ↦ (some w, m)
    | Ordering.gt ↦ let (o, m') = remove p m in (o, (s, w) ∷ m')
  ]
