-- ===== src/Usb/Lost.antt =====
-- usb.c: what the code loses: the capture flag, when one of several capture cards is removed, and
-- the sample rate, when a card has no supported one.
use android_device_zte_fujis.Common.{
  ℕ, true, false, some, List, [], ◌∷◌, ◌≡◌, inl, inr, refl, Bool-cases, ℤ, is_neg,
}
use android_device_zte_fujis.Usb.Types.{DeviceConfig, In, All}
use android_device_zte_fujis.Usb.Match.{
  Wanted, StreamConfig, match_configs, match_rates, best_match_for_sample_rate, is_other,
  backend_apply_policy, best_bit_width, chosen_channels, wanted_of,
}
use android_device_zte_fujis.Usb.MatchLaws.{HasChannels}
use android_device_zte_fujis.Usb.RateLaws.{Suits}
use android_device_zte_fujis.Usb.Policy.{suiting}
use android_device_zte_fujis.Usb.Devices.{
  Env, Card, Usb, UsbModule, is_device, input_device, valid_device, without, remove_device,
}
use android_device_zte_fujis.Usb.DeviceLaws.{In-without}
use android_device_zte_fujis.Usb.Queries.{capture_is_supported}

module _ (env : Env) (device : ℕ) (card : ℤ) (u : Usb) (m : UsbModule) (other : Card) where
  -- When a capture device is removed, capture is reported as not supported, though another capture
  -- card may stay in the list.
  pub remove_device_loses_capture :
      u.usbmod ≡ some m
      → valid_device env device ≡ true
      → is_neg card ≡ false
      → env.is_usb_in device ≡ true
      → In other m.cards
      → input_device env other.usb_device_type ≡ true
      → is_device device card other ≡ false
      → (left : UsbModule) × ((remove_device env device card u).usbmod ≡ some left)
        × In other left.cards
        × (input_device env other.usb_device_type ≡ true)
        × (capture_is_supported (remove_device env device card u).usbmod ≡ false)
  unfolding remove_device capture_is_supported
  remove_device_loses_capture at valid numbered input i capture differs = (
    record m { cards = without device card m.cards; is_capture_supported = false },
    rw (at, valid, numbered, input) refl,
    In-without device card other m.cards i differs,
    capture,
    rw (at, valid, numbered, input) refl,
  )

abbrev pub HasNoRates : DeviceConfig → Type 0
HasNoRates d = d.rates ≡ []

module _ (w : Wanted) (wanted : ℕ) where
  stays_zero : (ds : List DeviceConfig) → All HasNoRates ds → match_configs w wanted 0 ds ≡ 0
  unfolding match_configs match_rates
  stays_zero [] p = refl
  stays_zero (d ∷ ds) (p, ps) = elim (Bool-cases (is_other w d)) [
    | inl other ↦ rw (match_configs, other) (stays_zero ds ps)
    | inr suits ↦ rw (match_configs, suits, p) (stays_zero ds ps)
  ]

  becomes_zero :
      (best : ℕ) (ds : List DeviceConfig) (d : DeviceConfig)
      → All HasNoRates ds
      → In d ds
      → Suits w d
      → match_configs w wanted best ds ≡ 0
  unfolding match_configs match_rates
  becomes_zero best [] d p i s = absurd i
  becomes_zero best (x ∷ ds) d (p, ps) i s = elim (Bool-cases (is_other w x)) [
    | inl other ↦
        rw (match_configs, other)
          (elim i [ inl here ↦ cc | inr there ↦ becomes_zero best ds d ps there s ])
    | inr suits ↦ rw (match_configs, suits, p) (stays_zero ds ps)
  ]

-- For a card that has channels but no supported rate in any configuration the policy chooses the
-- sample rate 0.
pub backend_apply_policy_zero :
    (d : DeviceConfig) (ds : List DeviceConfig) (s : StreamConfig)
    → All HasChannels (d ∷ ds)
    → All HasNoRates (d ∷ ds)
    → (backend_apply_policy (d ∷ ds) s).sample_rate ≡ 0
unfolding backend_apply_policy best_match_for_sample_rate
backend_apply_policy_zero d ds s p q =
    let (c, i, fits) = suiting d ds s p in
    becomes_zero (wanted_of (best_bit_width (d ∷ ds)) (chosen_channels (d ∷ ds) s)) s.sample_rate
      48000 (d ∷ ds) c q i fits
