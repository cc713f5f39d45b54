-- ===== src/BitmapAllocator/Scanning.antt =====
-- The search of the slow path: the first run of set bits that is long enough, wherever it lies.
use popcorn.Prelude.{
  ℕ, suc, ◌+◌, ◌-◌, ◌*◌, ◌/◌, ◌%◌, ◌^◌, ◌≤◌, ◌<◌, ◌≡◌, ◌≢◌, ◌∙◌, ap, refl, ◌⊎◌, inl, inr, none,
  some, true, false, arith, ◌==◌, if◌then◌else◌,
}
use native.Mathlib.Decide.{ℕ_discrete, dec_le}
use popcorn.BitmapAllocator.{word_size}
use popcorn.BitmapAllocator.Contiguous.{Scan, scan_bit}

-- `F p` is the bit of the `p`th frame, and runs of `n` frames are sought.
module _ (F : ℕ → ℕ) (n : ℕ) where
  abbrev pub AllSet : ℕ → ℕ → Type 0
  AllSet q count = (r : ℕ) → q ≤ r → r < q + count → F r ≡ 1

  abbrev pub SomeClear : ℕ → ℕ → Type 0
  SomeClear q count = (r : ℕ) × (q ≤ r) × (r < q + count) × (F r ≡ 0)

  -- After `p` frames without a run: the last `found_contiguous_frames` are free, the one before
  -- them is not, and no `n` frames in a row are.
  pub record Scanned (p : ℕ) (s : Scan) : Type 0 where
    pub not_found : s.found ≡ false
    pub short : s.found_contiguous_frames < n
    pub back : s.found_contiguous_frames ≤ p
    pub run : AllSet (p - s.found_contiguous_frames) s.found_contiguous_frames
    pub begin :
        s.found_contiguous_frames ≢ 0
        → s.contiguous_frames_start
          ≡ some (
            (p - s.found_contiguous_frames) / word_size,
            (p - s.found_contiguous_frames) % word_size,
          )
    pub edge : (s.found_contiguous_frames ≡ p) ⊎ (F (p - s.found_contiguous_frames - 1) ≡ 0)
    pub no_run : (q : ℕ) → q + n ≤ p → SomeClear q n

  pub record FoundRun (top : ℕ) (s : Scan) : Type 0 where
    pub found : s.found ≡ true
    pub q : ℕ
    pub begin : s.contiguous_frames_start ≡ some (q / word_size, q % word_size)
    pub inside : q + n ≤ top
    pub all_set : AllSet q n

  abbrev pub cleared_scan : Scan
  cleared_scan = record {
    found_contiguous_frames = 0;
    contiguous_frames_start = none;
    found = false;
  }

  abbrev pub longer_scan : ℕ → ℕ → Scan → Scan
  longer_scan i b s = record {
    found_contiguous_frames = s.found_contiguous_frames + 1;
    contiguous_frames_start =
        if s.found_contiguous_frames == 0 then some (i, b) else s.contiguous_frames_start;
    found = s.found_contiguous_frames + 1 == n;
  }

  pub scan_bit-clear :
      (entry i b : ℕ) (s : Scan) → entry / 2 ^ b % 2 ≡ 0 → scan_bit n entry i b s ≡ cleared_scan
  unfolding scan_bit
  scan_bit-clear entry i b s clear = ground (arith, clear)

  pub scan_bit-set :
      (entry i b : ℕ) (s : Scan)
      → entry / 2 ^ b % 2 ≡ 1
      → scan_bit n entry i b s ≡ longer_scan i b s
  unfolding scan_bit
  scan_bit-set entry i b s is_set = ground (arith, is_set)

  pub clear-Scanned :
      (p : ℕ) (s : Scan) → 0 < n → F p ≡ 0 → Scanned p s → Scanned (suc p) cleared_scan
  clear-Scanned p s pos f c = record {
    not_found = refl;
    short = pos;
    back = omega arith;
    run = λ r low high. absurd (omega arith);
    begin = λ ne. absurd (ne refl);
    edge = inr (ap F (omega arith) ∙ f);
    no_run = λ q h. elim (dec_le (q + n) p) [
      | yes before ↦ c.no_run q before
      | no last ↦ (p, omega arith, omega arith, f)
    ];
  }

  -- The run with the `p`th frame added to it.
  longer_run :
      (p : ℕ) (s : Scan)
      → F p ≡ 1
      → Scanned p s
      → AllSet (suc p - (s.found_contiguous_frames + 1)) (s.found_contiguous_frames + 1)
  longer_run p s f c r low high = elim (ℕ_discrete r p) [
    | yes last ↦ ap F last ∙ f
    | no earlier ↦ c.run r (omega (arith, c.back)) (omega (arith, c.back))
  ]

  longer_begin :
      (p i b : ℕ) (s : Scan)
      → p ≡ i * word_size + b
      → b < word_size
      → Scanned p s
      → (longer_scan i b s).contiguous_frames_start
        ≡ some (
          (suc p - (s.found_contiguous_frames + 1)) / word_size,
          (suc p - (s.found_contiguous_frames + 1)) % word_size,
        )
  longer_begin p i b s e h c = elim (ℕ_discrete s.found_contiguous_frames 0) [
    | yes z ↦ ground (arith, z)
    | no nz ↦ ground (arith, c.begin nz)
  ]

  edge_in_run :
      (p : ℕ) (s : Scan) (q : ℕ)
      → s.found_contiguous_frames + 1 < n
      → Scanned p s
      → q + n ≡ suc p
      → SomeClear q n
  edge_in_run p s q short c e = elim c.edge [
    | inl all ↦ absurd (omega arith)
    | inr clear ↦ (p - s.found_contiguous_frames - 1, omega arith, omega (arith, c.back), clear)
  ]

  -- A round at a frame that is free makes the run longer, perhaps long enough.
  pub set-Scanned :
      (p i b : ℕ) (s : Scan)
      → F p ≡ 1
      → p ≡ i * word_size + b
      → b < word_size
      → Scanned p s
      → FoundRun (suc p) (longer_scan i b s) ⊎ Scanned (suc p) (longer_scan i b s)
  set-Scanned p i b s f e h c = elim (ℕ_discrete (s.found_contiguous_frames + 1) n) [
    | yes enough ↦ inl (record {
      found = ground (arith, enough);
      q = suc p - (s.found_contiguous_frames + 1);
      begin = longer_begin p i b s e h c;
      inside = omega (arith, c.back);
      all_set = λ r low high. longer_run p s f c r low (omega arith);
    })
    | no short ↦ inr (record {
      not_found = ground (arith, short);
      short = omega (arith, c.short);
      back = omega (arith, c.back);
      run = longer_run p s f c;
      begin = λ _. longer_begin p i b s e h c;
      edge = elim c.edge [
        | inl all ↦ inl (omega arith)
        | inr clear ↦ inr (ap F (omega (arith, c.back)) ∙ clear)
      ];
      no_run = λ q le. elim (dec_le (q + n) p) [
        | yes before ↦ c.no_run q before
        | no last ↦ edge_in_run p s q (omega (arith, c.short)) c (omega arith)
      ];
    })
  ]
