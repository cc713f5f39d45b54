-- ===== src/BitmapAllocator/Slow.antt =====
-- The loops of the slow path find a run of free frames if there is one.
use mathlib.Core.Path.{subst}
use native.Mathlib.Decide.{ℕ_discrete}
use popcorn.Prelude.{
  ℕ, zero, suc, ◌+◌, ◌*◌, ◌/◌, ◌%◌, ◌^◌, ◌≤◌, ◌<◌, ◌≡◌, ◌∙◌, ap, refl, sym, ◌⊎◌, inl, inr, some,
  true, false, List, [], ◌∷◌, length, get_elem?, arith,
}
use popcorn.Prelude.Bits.{bit, bit-le-one, bit-shr}
use popcorn.BitmapAllocator.{word_size}
use popcorn.BitmapAllocator.Contiguous.{Scan, scan_bit, scan_word, scan, scan_start}
use popcorn.BitmapAllocator.Scanning.{
  Scanned, FoundRun, scan_bit-clear, scan_bit-set, clear-Scanned, set-Scanned,
}

scan_word-stop :
    (n entry i b m : ℕ) (s : Scan)
    → (scan_bit n entry i b s).found ≡ true
    → scan_word n entry i b (suc m) s ≡ scan_bit n entry i b s
unfolding scan_word
scan_word-stop n entry i b m s e = ground (arith, e)

scan_word-go :
    (n entry i b m : ℕ) (s : Scan)
    → (scan_bit n entry i b s).found ≡ false
    → scan_word n entry i b (suc m) s ≡ scan_word n entry i (suc b) m (scan_bit n entry i b s)
unfolding scan_word
scan_word-go n entry i b m s e = ground (arith, e)

scan-stop :
    (n entry i : ℕ) (l : List ℕ) (s : Scan)
    → (scan_word n entry i 0 word_size s).found ≡ true
    → scan n (entry ∷ l) i s ≡ scan_word n entry i 0 word_size s
unfolding scan
scan-stop n entry i l s e = ground (arith, e)

scan-go :
    (n entry i : ℕ) (l : List ℕ) (s : Scan)
    → (scan_word n entry i 0 word_size s).found ≡ false
    → scan n (entry ∷ l) i s ≡ scan n l (suc i) (scan_word n entry i 0 word_size s)
unfolding scan
scan-go n entry i l s e = ground (arith, e)

bit-test : (entry b : ℕ) → entry / 2 ^ b % 2 ≡ bit entry b
unfolding bit
bit-test entry b = let place : b + 0 ≡ b = omega arith in bit-shr b entry 0 ∙ ap (bit entry) place

module _ (F : ℕ → ℕ) (n : ℕ) (pos : 0 < n) where
  FoundRun-widen : (top top' : ℕ) (s : Scan) → top ≤ top' → FoundRun F n top s → FoundRun F n top' s
  FoundRun-widen top top' s h f = record {
    found = f.found;
    q = f.q;
    begin = f.begin;
    inside = omega (arith, f.inside);
    all_set = f.all_set;
  }

  abbrev Searched : ℕ → Scan → Type 0
  Searched top s = FoundRun F n top s ⊎ Scanned F n top s

  scan_bit_lem :
      (entry i b : ℕ) (s : Scan)
      → b < word_size
      → F (i * word_size + b) ≡ bit entry b
      → Scanned F n (i * word_size + b) s
      → Searched (suc (i * word_size + b)) (scan_bit n entry i b s)
  scan_bit_lem entry i b s h f c = elim (ℕ_discrete (bit entry b) 0) [
    | yes z ↦ inr (
        subst (Scanned F n (suc (i * word_size + b)))
          (sym (scan_bit-clear F n entry i b s (bit-test entry b ∙ z)))
          (clear-Scanned F n (i * word_size + b) s pos (f ∙ z) c))
    | no nz ↦
        let one : bit entry b ≡ 1 = omega (arith, bit-le-one entry b) in
        subst (Searched (suc (i * word_size + b)))
          (sym (scan_bit-set F n entry i b s (bit-test entry b ∙ one)))
          (set-Scanned F n (i * word_size + b) i b s (f ∙ one) refl h c)
  ]

  scan_word_lem :
      (m entry i b : ℕ) (s : Scan)
      → b + m ≡ word_size
      → ((c : ℕ) → c < word_size → F (i * word_size + c) ≡ bit entry c)
      → Scanned F n (i * word_size + b) s
      → Searched (suc i * word_size) (scan_word n entry i b m s)
  unfolding scan_word
  scan_word_lem zero entry i b s e f c = inr (subst (λ p. Scanned F n p s) (omega arith) c)
  scan_word_lem (suc m) entry i b s e f c =
      elim (scan_bit_lem entry i b s (omega arith) (f b (omega arith)) c) [
        | inl found ↦ inl (
            FoundRun-widen (suc (i * word_size + b)) (suc i * word_size)
              (scan_word n entry i b (suc m) s) (omega arith)
              (subst (FoundRun F n (suc (i * word_size + b)))
                (sym (scan_word-stop n entry i b m s found.found)) found))
        | inr scanned ↦
            subst (Searched (suc i * word_size))
              (sym (scan_word-go n entry i b m s scanned.not_found))
              (scan_word_lem m entry i (suc b) (scan_bit n entry i b s) (omega arith) f
                (subst (λ p. Scanned F n p (scan_bit n entry i b s)) (omega arith) scanned))
      ]

  pub scan_lem :
      (l : List ℕ) (i : ℕ) (s : Scan)
      → ((j w c : ℕ)
          → get_elem? l j ≡ some w
          → c < word_size
          → F ((i + j) * word_size + c) ≡ bit w c)
      → Scanned F n (i * word_size) s
      → Searched ((i + length l) * word_size) (scan n l i s)
  unfolding scan
  scan_lem [] i s f c = inr (subst (λ p. Scanned F n p s) (omega arith) c)
  scan_lem (entry ∷ l) i s f c =
      elim (scan_word_lem word_size entry i 0 s refl
        (λ b h. ap F (omega arith) ∙ f 0 entry b refl h)
        (subst (λ p. Scanned F n p s) (omega arith) c)) [
          | inl found ↦ inl (
              FoundRun-widen (suc i * word_size) ((i + suc (length l)) * word_size)
                (scan n (entry ∷ l) i s) (omega arith)
                (subst (FoundRun F n (suc i * word_size))
                  (sym (scan-stop n entry i l s found.found)) found))
          | inr scanned ↦
              subst (Searched ((i + suc (length l)) * word_size))
                (sym (scan-go n entry i l s scanned.not_found))
                (subst (λ p. Searched p (scan n l (suc i) (scan_word n entry i 0 word_size s)))
                  (omega arith)
                  (scan_lem l (suc i) (scan_word n entry i 0 word_size s)
                    (λ j w b e h. ap F (omega arith) ∙ f (suc j) w b e h) scanned))
        ]

  pub scan_start-Scanned : Scanned F n 0 scan_start
  scan_start-Scanned = record {
    not_found = refl;
    short = pos;
    back = omega arith;
    run = λ r low high. absurd (omega arith);
    begin = λ ne. absurd (ne refl);
    edge = inl refl;
    no_run = λ q h. absurd (omega arith);
  }
