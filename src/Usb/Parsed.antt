-- ===== src/Usb/Parsed.antt =====
-- usb.c: what holds of the configurations that the parser makes of any stream file.
use android_device_zte_fujis.Common.{
  Option-cases, ℕ, zero, suc, ◌+◌, ◌≤◌, ◌<◌, ◌≡◌, refl, Bool, inl, inr, Bool-cases, Option, none,
  some, List, [], ◌∷◌, ◌++◌, ◌==◌, arith, length, drop, take, ◌⊎◌, ◌≢◌, length-drop, pos,
}
use android_device_zte_fujis.Usb.Text.{Bytes, bytes, starts_with, strstr, atoi, uint32}
use android_device_zte_fujis.Usb.Types.{UsecaseType, DeviceConfig, In, All}
use android_device_zte_fujis.Usb.Rates.{
  Mask, Reading, ok, invalid, overrun, unfinished, get_sample_rates, supported_sample_rates,
  max_sample_rate_size, first_delims,
}
use android_device_zte_fujis.Usb.RangeLines.{as_list, get_sample_rates_lists}
use android_device_zte_fujis.Usb.ListLines.{
  select, named, tokens, Stores, get_sample_rates-Stores, strtok-cases,
}
use android_device_zte_fujis.Usb.Capability.{
  Section, Round, next, broken, endless, Outcome, parsed, fault, out_of_fuel, add_config,
  with_rates, altset, altsets, get_capability, get_service_interval, field, is_behind, title,
  usb_buff_size,
}

All-++ : {A : Type 0} (P : A → Type 0) (xs ys : List A) → All P xs → All P ys → All P (xs ++ ys)
All-++ P [] ys p q = q
All-++ P (x ∷ xs) ys p q = (p.0, All-++ P xs ys p.1 q)

abbrev pub IsSupported : ℕ → Type 0
IsSupported r = In r supported_sample_rates

select_kept : (test : ℕ → Bool) (P : ℕ → Type 0) (rs : List ℕ) → All P rs → All P (select test rs)
select_kept test P [] p = tt
select_kept test P (r ∷ rs) p = elim (Bool-cases (test r)) [
  | inl hit ↦ rw hit (p.0, select_kept test P rs p.1)
  | inr miss ↦ rw miss (select_kept test P rs p.1)
]

supported_sample_rates-IsSupported : All IsSupported supported_sample_rates
supported_sample_rates-IsSupported = ground arith

named-IsSupported : (ts : List Bytes) → All IsSupported (named ts)
named-IsSupported [] = tt
named-IsSupported (t ∷ ts) =
    All-++ IsSupported (select (λ r. r == uint32 (atoi t)) supported_sample_rates) (named ts)
      (select_kept (λ r. r == uint32 (atoi t)) IsSupported supported_sample_rates
        supported_sample_rates-IsSupported)
      (named-IsSupported ts)

-- What the parser may put into a configuration.
abbrev pub IsRead : UsecaseType → DeviceConfig → Type 0
IsRead usecase d =
    (d.usecase ≡ usecase) × (length d.rates ≤ max_sample_rate_size) × All IsSupported d.rates

-- What a reading stores is supported; the loop over the tokens ends.
abbrev IsSafe : Reading → Type 0
IsSafe (ok f) = (length f.rates ≤ max_sample_rate_size) × All IsSupported f.rates
IsSafe invalid = Unit
IsSafe overrun = Unit
IsSafe unfinished = ⊥

Stores-IsSafe : (rates : List ℕ) (r : Reading) → All IsSupported rates → Stores rates r → IsSafe r
Stores-IsSafe rates (ok f) p (e, fits) = rw e (fits, p)
Stores-IsSafe rates invalid p s = absurd s
Stores-IsSafe rates overrun p s = tt
Stores-IsSafe rates unfinished p s = absurd s

get_sample_rates-IsSafe : (s : Bytes) (m : Mask) → IsSafe (get_sample_rates s m)
get_sample_rates-IsSafe s m = elim (strtok-cases first_delims s) [
  | inl e ↦ rw (get_sample_rates_lists s m, as_list, e) tt
  | inr (token, rest, e) ↦
      Stores-IsSafe (named (token ∷ tokens (length rest + 1) rest)) _
        (named-IsSupported (token ∷ tokens (length rest + 1) rest))
        (get_sample_rates-Stores s token rest m e)
]

Round-cases : (r : Round) → ((q : Section) × (r ≡ next q)) ⊎ ((r ≡ broken) ⊎ (r ≡ endless))
Round-cases (next q) = inl (q, refl)
Round-cases broken = inr (inl refl)
Round-cases endless = inr (inr refl)

-- Some "Rates:" line makes the code write behind the end of the array.
abbrev pub HasOverrun : Type 0
HasOverrun = (text : Bytes) × (m : Mask) × (get_sample_rates text m ≡ overrun)

module _ (limit : ℕ) (usecase : UsecaseType) where
  abbrev Holds : Section → Type 0
  Holds p = All (IsRead usecase) p.configs

  abbrev RoundHolds : Round → Type 0
  RoundHolds (next p) = Holds p
  RoundHolds broken = HasOverrun
  RoundHolds endless = ⊥

  abbrev pub OutcomeHolds : Outcome → Type 0
  OutcomeHolds (parsed p) = Holds p
  OutcomeHolds fault = HasOverrun
  OutcomeHolds out_of_fuel = ⊥

  add_config-Holds :
      (s : Bytes) (d : DeviceConfig) (p : Section)
      → IsRead usecase d
      → Holds p
      → Holds (add_config limit s d p)
  add_config-Holds s d p r h = elim (Option-cases (strstr s (bytes "Data packet interval: "))) [
    | inl e ↦ rw (add_config, e) (All-++ (IsRead usecase) p.configs (d ∷ []) h (r, tt))
    | inr (at, e) ↦ elim (Option-cases (get_service_interval limit (drop 22 at))) [
      | inl f ↦ rw (add_config, e, f) (All-++ (IsRead usecase) p.configs (d ∷ []) h (r, tt))
      | inr (us, f) ↦
          rw (add_config, e, f)
            (All-++ (IsRead usecase) p.configs ((record d { service_interval_us = us }) ∷ []) h
              (r, tt))
    ]
  ]

  with_rates-Holds :
      (s : Bytes) (width channels : ℕ) (r : Reading) (p : Section)
      → (r ≡ overrun → HasOverrun)
      → IsSafe r
      → Holds p
      → RoundHolds (with_rates limit usecase s width channels r p)
  with_rates-Holds s width channels (ok f) p over r h =
      add_config-Holds s _ (record p { mask = f.mask }) (refl, r.0, r.1) h
  with_rates-Holds s width channels invalid p over r h = h
  with_rates-Holds s width channels overrun p over r h = over refl
  with_rates-Holds s width channels unfinished p over r h = absurd r

  altset-Holds : (s : Bytes) (p : Section) → Holds p → RoundHolds (altset limit usecase s p)
  unfolding altset
  altset-Holds s p h = elim (Option-cases (field s (bytes "Format: "))) [
    | inl e ↦ rw (RoundHolds, altset, e) h
    | inr (format, e) ↦ elim (Option-cases (strstr s (bytes "Channels: "))) [
      | inl f ↦ rw (RoundHolds, altset, e, f) h
      | inr (at, f) ↦ elim (Option-cases (field s (bytes "Rates: "))) [
        | inl g ↦ rw (RoundHolds, altset, e, f, g) h
        | inr (text, g) ↦
            rw (RoundHolds, altset, e, f, g)
              (with_rates-Holds s _ _ (get_sample_rates text p.mask) p (λ o. (text, p.mask, o))
                (get_sample_rates-IsSafe text p.mask) h)
      ]
    ]
  ]

  -- A found word is no longer than the text, and not empty.
  found_at :
      (s word t : Bytes)
      → word ≢ []
      → strstr s word ≡ some t
      → (length t ≤ length s) × (0 < length t)
  unfolding strstr starts_with
  found_at [] [] t p e = absurd (p refl)
  found_at [] (c ∷ word) t p e = cc
  found_at (c ∷ s) word t p e = ground (arith, found_at s word t p)

  altsets-Holds :
      (fuel : ℕ) (stop : Option ℕ) (s : Bytes) (p : Section)
      → length s < fuel
      → Holds p
      → OutcomeHolds (altsets fuel limit usecase stop s p)
  unfolding altsets
  altsets-Holds zero stop s p enough h = absurd (omega arith)
  altsets-Holds (suc fuel) stop s p enough h = elim (Option-cases (strstr s (bytes "Altset"))) [
    | inl e ↦ rw (OutcomeHolds, altsets, e) h
    | inr (at, e) ↦
        let inside = found_at s (bytes "Altset") at (cc) e in
        elim (Bool-cases (is_behind stop at)) [
          | inl over ↦ rw (OutcomeHolds, altsets, e, over) h
          | inr within ↦ elim (Round-cases (altset limit usecase (drop 7 at) p)) [
            | inl (q, f) ↦
                rw (OutcomeHolds, altsets, e, within, f)
                  (altsets-Holds fuel stop (drop 7 at) q (omega (arith, length-drop 7 at))
                    (rw f at (altset-Holds (drop 7 at) p h)))
            | inr (inl f) ↦
                rw (OutcomeHolds, altsets, e, within, f) (rw f at (altset-Holds (drop 7 at) p h))
            | inr (inr f) ↦ absurd (rw f at (altset-Holds (drop 7 at) p h))
          ]
        ]
  ]

  pub get_capability-IsRead :
      (path_length : ℕ) (file : Option Bytes) (m : Mask)
      → OutcomeHolds (get_capability limit path_length usecase file m)
  unfolding get_capability
  get_capability-IsRead path_length none m = tt
  get_capability-IsRead path_length (some file) m =
      let text = take usb_buff_size file in
      elim (Option-cases (strstr text (title usecase))) [
        | inl e ↦ rw (OutcomeHolds, get_capability, e) tt
        | inr (start, e) ↦
            rw (OutcomeHolds, get_capability, e)
              (altsets-Holds (length start + 1) _ start
                (record { ret = pos path_length; configs = []; mask = m }) (omega arith) tt)
      ]
