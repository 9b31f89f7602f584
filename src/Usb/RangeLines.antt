-- ===== src/Usb/RangeLines.antt =====
-- usb.c: what `usb_get_sample_rates` makes of a line that gives a range of rates.
use android_device_zte_fujis.Common.{
  ℕ, ◌+◌, ◌≡◌, refl, ◌∙◌, ap, true, false, inl, inr, Bool-cases, none, some, [], ◌∷◌, arith, length,
}
use android_device_zte_fujis.Usb.Text.{Bytes, bytes, starts_with, strstr, member, before, strtok}
use android_device_zte_fujis.Usb.Rates.{
  Mask, Reading, first_delims, first_part, read_list, invalid, get_sample_rates,
}

-- No byte of the text ends a token.
abbrev IsToken : Bytes → Bytes → Type 0
IsToken ends [] = Unit
IsToken ends (c ∷ s) = (member c ends ≡ false) × IsToken ends s

before-IsToken : (ends s : Bytes) → IsToken ends (before ends s)
unfolding before
before-IsToken ends [] = tt
before-IsToken ends (c ∷ s) = ground (arith, before-IsToken ends s)

-- The fourth byte of "continuous" ends a token.
not_at_token : (s : Bytes) → IsToken first_delims s → starts_with (bytes "continuous") s ≡ false
unfolding starts_with member
not_at_token [] p = refl
not_at_token (a ∷ []) p = ground arith
not_at_token (a ∷ b ∷ []) p = ground arith
not_at_token (a ∷ b ∷ c ∷ []) p = ground arith
not_at_token (a ∷ b ∷ c ∷ d ∷ s) p = ground arith

not_in_token : (s : Bytes) → IsToken first_delims s → strstr s (bytes "continuous") ≡ none
unfolding strstr starts_with
not_in_token [] p = refl
not_in_token (c ∷ s) p = ground (arith, not_at_token (c ∷ s) p, not_in_token s p.1)

not_at_delim :
    (c : ℕ) (s : Bytes)
    → member c first_delims ≡ true
    → starts_with (bytes "continuous") (c ∷ s) ≡ false
unfolding starts_with member
not_at_delim c s p = ground arith

first_part_token :
    (c : ℕ) (s : Bytes)
    → member c first_delims ≡ false
    → first_part first_delims (c ∷ s) ≡ before first_delims (c ∷ s)
unfolding first_part
first_part_token c s e = ground arith

not_in_first : (s : Bytes) → strstr (first_part first_delims s) (bytes "continuous") ≡ none
unfolding strstr first_part starts_with
not_in_first [] = refl
not_in_first (c ∷ s) = elim (Bool-cases (member c first_delims)) [
  | inl delim ↦ ground (arith, not_at_delim c (first_part first_delims s) delim, not_in_first s)
  | inr other ↦
      ap (λ t. strstr t (bytes "continuous")) (first_part_token c s other)
      ∙ not_in_token (before first_delims (c ∷ s)) (before-IsToken first_delims (c ∷ s))
]

-- The text is read as a list of rates, whatever it says.
abbrev pub as_list : Bytes → Mask → Reading
as_list s m = elim (strtok first_delims s) [
  | none ↦ invalid
  | some (token, rest) ↦ read_list (length rest + 1) token rest (record { rates = []; mask = m })
]

-- No line is read as a range of rates: the word "continuous" is looked for in the first token
-- only, where it never stands, so each line is read as a list.
pub get_sample_rates_lists : (s : Bytes) (m : Mask) → get_sample_rates s m ≡ as_list s m
unfolding get_sample_rates
get_sample_rates_lists s m = ground (arith, not_in_first s)
