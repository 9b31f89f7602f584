-- ===== src/Usb/RateLaws.antt =====
-- usb.c: the chosen sample rate is one that a configuration of the card offers.
use android_device_zte_fujis.Common.{
  ap, false, ◌∙◌, ℕ, ◌≡◌, ◌≢◌, ◌⊎◌, inl, inr, refl, List, [], ◌∷◌, arith, Bool-cases,
}
use android_device_zte_fujis.Usb.Match.{
  base_of, candidate, match, find_rate, nearer, rate_step, match_rates, Wanted, is_other,
  match_configs,
}
use android_device_zte_fujis.Usb.Types.{DeviceConfig, In, All}
use android_device_zte_fujis.Usb.MatchLaws.{Pick-cases}

abbrev pub HasRates : DeviceConfig → Type 0
HasRates d = d.rates ≢ []

find_rate_either : (b w r best : ℕ) → (find_rate b w r best ≡ r) ⊎ (find_rate b w r best ≡ best)
unfolding find_rate nearer
find_rate_either b w r best = ground arith

module _ (wanted : ℕ) where
  rate_match : (best n r : ℕ) → rate_step wanted best r ≡ match n → (n ≡ wanted) × (n ≡ r)
  unfolding rate_step
  rate_match best n r e = ground arith

  rate_candidate :
      (best n r : ℕ)
      → rate_step wanted best r ≡ candidate n
      → ((n ≡ best) ⊎ (n ≡ r)) × (best ≡ 0 → n ≡ r) × (wanted ≢ r)
  unfolding rate_step
  rate_candidate best n r e = ground (arith, find_rate_either (base_of wanted) wanted r best)

  rates_match :
      (best n : ℕ) (rs : List ℕ) → match_rates wanted best rs ≡ match n → (n ≡ wanted) × In n rs
  unfolding match_rates
  rates_match best n [] h = cc
  rates_match best n (r ∷ rs) h = elim (Pick-cases (rate_step wanted best r)) [
    | inl (m, e) ↦ ground (arith, rate_match best m r e)
    | inr (m, e) ↦ let rest = rates_match m n rs (rw (e, match_rates) at h) in (rest.0, inr rest.1)
  ]

  rates_candidate :
      (best n : ℕ) (rs : List ℕ) → match_rates wanted best rs ≡ candidate n → (n ≡ best) ⊎ In n rs
  unfolding match_rates
  rates_candidate best n [] h = inl (cc)
  rates_candidate best n (r ∷ rs) h = elim (Pick-cases (rate_step wanted best r)) [
    | inl (m, e) ↦ ground (arith, rate_match best m r e)
    | inr (m, e) ↦ elim (rates_candidate m n rs (rw (e, match_rates) at h)) [
      | inl same ↦ ground (arith, rate_candidate best m r e)
      | inr there ↦ inr (inr there)
    ]
  ]

  -- From 0 on the first rate replaces the candidate.
  rates_first : (n : ℕ) (rs : List ℕ) → rs ≢ [] → match_rates wanted 0 rs ≡ candidate n → In n rs
  unfolding match_rates
  rates_first n [] p h = absurd (p refl)
  rates_first n (r ∷ rs) p h = elim (Pick-cases (rate_step wanted 0 r)) [
    | inl (m, e) ↦ ground (arith, rate_match 0 m r e)
    | inr (m, e) ↦ elim (rates_candidate m n rs (rw (e, match_rates) at h)) [
      | inl same ↦ inl (same ∙ (rate_candidate 0 m r e).1 refl)
      | inr there ↦ inr there
    ]
  ]

  rates_exact : (best : ℕ) (rs : List ℕ) → In wanted rs → match_rates wanted best rs ≡ match wanted
  unfolding match_rates
  rates_exact best [] i = absurd i
  rates_exact best (r ∷ rs) i = elim (Pick-cases (rate_step wanted best r)) [
    | inl (m, e) ↦ rw (e, match_rates) (ap match (rate_match best m r e).0)
    | inr (m, e) ↦
        rw (e, match_rates)
          (elim i [
            | inl here ↦ absurd ((rate_candidate best m r e).2 here)
            | inr there ↦ rates_exact m rs there
          ])
  ]

-- `d` is looked at.
abbrev pub Suits : Wanted → DeviceConfig → Type 0
Suits w d = is_other w d ≡ false

module _ (w : Wanted) (wanted : ℕ) where
  -- The result is the first candidate, or a configuration that suits has it.
  configs_offered :
      (best : ℕ) (ds : List DeviceConfig)
      → All HasRates ds
      → (match_configs w wanted best ds ≡ best)
        ⊎ ((c : DeviceConfig) × In c ds × Suits w c × In (match_configs w wanted best ds) c.rates)
  unfolding match_configs
  configs_offered best [] p = inl refl
  configs_offered best (d ∷ ds) (p, ps) = elim (Bool-cases (is_other w d)) [
    | inl other ↦
        rw (other, match_configs)
          (elim (configs_offered best ds ps) [
            | inl same ↦ inl same
            | inr (c, i, s, o) ↦ inr (c, inr i, s, o)
          ])
    | inr suits ↦
        rw (suits, match_configs)
          (elim (Pick-cases (match_rates wanted 0 d.rates)) [
            | inl (n, e) ↦
                rw (e, match_configs)
                  (inr (d, inl refl, suits, (rates_match wanted 0 n d.rates e).1))
            | inr (n, e) ↦
                rw (e, match_configs)
                  (elim (configs_offered n ds ps) [
                    | inl same ↦
                        rw same (inr (d, inl refl, suits, rates_first wanted n d.rates p e))
                    | inr (c, i, s, o) ↦ inr (c, inr i, s, o)
                  ])
          ])
  ]

  pub configs_found :
      (best : ℕ) (ds : List DeviceConfig) (d : DeviceConfig)
      → All HasRates ds
      → In d ds
      → Suits w d
      → (c : DeviceConfig) × In c ds × Suits w c × In (match_configs w wanted best ds) c.rates
  unfolding match_configs
  configs_found best [] d p i s = absurd i
  configs_found best (x ∷ ds) d (p, ps) i s = elim (Bool-cases (is_other w x)) [
    | inl other ↦
        rw (other, match_configs)
          (elim i [
            | inl here ↦ cc
            | inr there ↦ let (c, j, t, o) = configs_found best ds d ps there s in (c, inr j, t, o)
          ])
    | inr suits ↦
        rw (suits, match_configs)
          (elim (Pick-cases (match_rates wanted 0 x.rates)) [
            | inl (n, e) ↦
                rw (e, match_configs) (x, inl refl, suits, (rates_match wanted 0 n x.rates e).1)
            | inr (n, e) ↦
                rw (e, match_configs)
                  (elim (configs_offered n ds ps) [
                    | inl same ↦ rw same (x, inl refl, suits, rates_first wanted n x.rates p e)
                    | inr (c, j, t, o) ↦ (c, inr j, t, o)
                  ])
          ])
  ]

  pub configs_exact :
      (best : ℕ) (ds : List DeviceConfig) (d : DeviceConfig)
      → In d ds
      → Suits w d
      → In wanted d.rates
      → match_configs w wanted best ds ≡ wanted
  unfolding match_configs
  configs_exact best [] d i s o = absurd i
  configs_exact best (x ∷ ds) d i s o = elim (Bool-cases (is_other w x)) [
    | inl other ↦
        rw (other, match_configs)
          (elim i [ inl here ↦ cc | inr there ↦ configs_exact best ds d there s o ])
    | inr suits ↦
        rw (suits, match_configs)
          (elim (Pick-cases (match_rates wanted 0 x.rates)) [
            | inl (n, e) ↦ rw (e, match_configs) (rates_match wanted 0 n x.rates e).0
            | inr (n, e) ↦
                rw (e, match_configs)
                  (elim i [
                    | inl here ↦ let exact = rates_exact wanted 0 x.rates (rw (← here) o) in cc
                    | inr there ↦ configs_exact n ds d there s o
                  ])
          ])
  ]
