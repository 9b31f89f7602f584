-- ===== src/Usb/Marked.antt =====
-- usb.c: the supported rates that `audio_extn_usb_sup_sample_rates` copies out.
use android_device_zte_fujis.Common.{
  ℕ, zero, suc, ◌+◌, ◌≤◌, ◌<◌, ◌≡◌, refl, ◌∙◌, ap, inl, inr, Bool-cases, none, some, List, [], ◌∷◌,
  arith, length, if◌then◌else◌, take, ◌⊎◌,
}
use android_device_zte_fujis.Usb.Rates.{
  Mask, clear_bit, ffs, popcount, collect, sup_sample_rates, supported_sample_rates, min,
}

-- The rates whose bits are set.
abbrev pub marked : ℕ → List ℕ → Mask → List ℕ
marked i [] m = []
marked i (r ∷ rs) m = if m i then r ∷ marked (i + 1) rs m else marked (i + 1) rs m

popcount_lem : (i : ℕ) (rs : List ℕ) (m : Mask) → popcount i rs m ≡ length (marked i rs m)
unfolding popcount
popcount_lem i [] m = refl
popcount_lem i (r ∷ rs) m = ground (arith, popcount_lem (i + 1) rs m)

marked_clear :
    (j i : ℕ) (rs : List ℕ) (m : Mask) → j < i → marked i rs (clear_bit j m) ≡ marked i rs m
marked_clear j i [] m p = refl
marked_clear j i (r ∷ rs) m p = ground (arith, marked_clear j (i + 1) rs m)

ffs-cases :
    (i : ℕ) (rs : List ℕ) (m : Mask)
    → ((ffs i rs m ≡ none) × (marked i rs m ≡ []))
      ⊎ ((j : ℕ) × (r : ℕ) × (ffs i rs m ≡ some (j, r))
          × (i ≤ j)
          × (marked i rs m ≡ r ∷ marked i rs (clear_bit j m)))
unfolding ffs
ffs-cases i [] m = inl (refl, refl)
ffs-cases i (r ∷ rs) m = elim (Bool-cases (m i)) [
  | inl set ↦ inr (i, r, ground arith, omega arith, ground (arith, marked_clear i (i + 1) rs m))
  | inr unset ↦ elim (ffs-cases (i + 1) rs m) [
    | inl (e, f) ↦ inl (ground arith, ground arith)
    | inr (j, q, e, p, f) ↦ inr (j, q, ground arith, omega arith, ground arith)
  ]
]

collect_lem :
    (tries : ℕ) (m : Mask) → collect tries m ≡ take tries (marked 0 supported_sample_rates m)
unfolding collect
collect_lem zero m = refl
collect_lem (suc tries) m = elim (ffs-cases 0 supported_sample_rates m) [
  | inl (e, f) ↦ rw (e, f, collect) refl
  | inr (j, r, e, p, f) ↦
      rw (e, f, collect) (ap (λ rest. r ∷ rest) (collect_lem tries (clear_bit j m)))
]

take-min : (n : ℕ) (xs : List ℕ) → take (min n (length xs)) xs ≡ take n xs
take-min zero xs = ground arith
take-min (suc n) [] = ground arith
take-min (suc n) (x ∷ xs) = ground (arith, take-min n xs)

-- The caller's buffer gets the rates whose bits are set, from the highest on, as far as its size
-- goes.
pub sup_sample_rates_lem :
    (m : Mask) (size : ℕ) → sup_sample_rates m size ≡ take size (marked 0 supported_sample_rates m)
unfolding sup_sample_rates
sup_sample_rates_lem m size = rw (popcount_lem 0 supported_sample_rates m) (
    collect_lem (min size (length (marked 0 supported_sample_rates m))) m
    ∙ take-min size (marked 0 supported_sample_rates m))
