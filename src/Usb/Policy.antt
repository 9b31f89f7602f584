-- ===== src/Usb/Policy.antt =====
-- usb.c: what the backend policy chooses, one configuration of the card offers.
use android_device_zte_fujis.Common.{ℕ, ◌≡◌, sym, ◌∙◌, List, ◌∷◌, arith}
use android_device_zte_fujis.Usb.Types.{DeviceConfig, In, All}
use android_device_zte_fujis.Usb.Match.{
  best_match_for_sample_rate, best_bit_width, chosen_channels, wanted_of, StreamConfig,
  backend_apply_policy,
}
use android_device_zte_fujis.Usb.MatchLaws.{
  HasChannels, best_match_for_channels_lem, best_bit_width_offered,
}
use android_device_zte_fujis.Usb.RateLaws.{HasRates, Suits, configs_found, configs_exact}

Suits-wanted_of :
    (width channels : ℕ) (c : DeviceConfig)
    → (Suits (wanted_of width channels) c → (c.bit_width ≡ width) × (c.channel_count ≡ channels))
      × (c.bit_width ≡ width → c.channel_count ≡ channels → Suits (wanted_of width channels) c)
Suits-wanted_of width channels c = (λ s. ground arith, λ p q. ground arith)

-- A configuration offers what the policy chose.
abbrev pub Offers : DeviceConfig → StreamConfig → Type 0
Offers c s =
    (c.bit_width ≡ s.bit_width) × (c.channel_count ≡ s.channel_count) × In s.sample_rate c.rates

module _ (d : DeviceConfig) (ds : List DeviceConfig) (s : StreamConfig) where
  pub suiting :
      All HasChannels (d ∷ ds)
      → (c : DeviceConfig) × In c (d ∷ ds)
        × Suits (wanted_of (best_bit_width (d ∷ ds)) (chosen_channels (d ∷ ds) s)) c
  suiting p =
      let (b, i, wide) = best_bit_width_offered d ds in
      let (c, j, same, channels, near) =
        best_match_for_channels_lem (d ∷ ds) (best_bit_width (d ∷ ds)) s.channel_count b p i wide in
      (c, j, (Suits-wanted_of _ _ c).1 same channels)

  -- For a card with configurations, all of which have channels and rates, the bit width, the channel
  -- count and the sample rate that the policy chooses are those of one configuration together.
  pub backend_apply_policy_offered :
      All HasChannels (d ∷ ds)
      → All HasRates (d ∷ ds)
      → (c : DeviceConfig) × In c (d ∷ ds) × Offers c (backend_apply_policy (d ∷ ds) s)
  unfolding backend_apply_policy best_match_for_sample_rate
  backend_apply_policy_offered p q =
      let (b, i, suits) = suiting p in
      let (c, j, same, rate) =
        configs_found (wanted_of (best_bit_width (d ∷ ds)) (chosen_channels (d ∷ ds) s))
          s.sample_rate 48000 (d ∷ ds) b q i suits in
      let fits = (Suits-wanted_of _ _ c).0 same in (c, j, (fits.0, fits.1, rate))

  -- For a card with configurations, all of which have channels, a stream whose bit width is the widest
  -- of the card keeps its configuration, if one configuration of the card has it.
  pub backend_apply_policy_exact :
      (c : DeviceConfig)
      → All HasChannels (d ∷ ds)
      → In c (d ∷ ds)
      → Offers c s
      → s.bit_width ≡ best_bit_width (d ∷ ds)
      → backend_apply_policy (d ∷ ds) s ≡ s
  unfolding backend_apply_policy best_match_for_sample_rate
  backend_apply_policy_exact c p i (w, n, r) wide =
      let (b, j, same, channels, near) =
        best_match_for_channels_lem (d ∷ ds) (best_bit_width (d ∷ ds)) s.channel_count c p i
          (w ∙ wide) in
      let exact : chosen_channels (d ∷ ds) s ≡ s.channel_count = ground arith in
      let rate =
        configs_exact (wanted_of (best_bit_width (d ∷ ds)) (chosen_channels (d ∷ ds) s))
          s.sample_rate 48000 (d ∷ ds) c i ((Suits-wanted_of _ _ c).1 (w ∙ wide) (n ∙ sym exact))
          r in
      cc
