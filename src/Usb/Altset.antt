-- ===== src/Usb/Altset.antt =====
-- usb.c: the alternate setting for a service interval, and the removal of one of several cards.
use android_device_zte_fujis.Common.{
  ℕ, Bool, true, some, List, [], ◌∷◌, ◌≡◌, ◌≢◌, ◌⊎◌, inl, inr, refl, ◌∙◌, arith, Bool-cases,
}
use android_device_zte_fujis.Usb.Types.{UsecaseType, DeviceConfig, In, All}
use android_device_zte_fujis.Usb.Match.{StreamConfig, best_match_for_sample_rate}
use android_device_zte_fujis.Usb.RateLaws.{HasRates, Suits, configs_found}
use android_device_zte_fujis.Usb.Policy.{Offers}
use android_device_zte_fujis.Usb.Devices.{Env, Card}
use android_device_zte_fujis.Usb.Queries.{
  of_type, widest_at, widest_step, direction, at_interval, rate_at, altset_of, is_of_direction,
  altset_for_service_interval,
}

-- `d` is of the service interval, and has the width and the channels.
abbrev Has : UsecaseType → ℕ → ℕ × ℕ → DeviceConfig → Type 0
Has usecase interval (bw, ch) d =
    (of_type usecase d ≡ true)
    × (d.service_interval_us ≡ interval)
    × (d.bit_width ≡ bw)
    × (d.channel_count ≡ ch)

widest_step-Has :
    (usecase : UsecaseType) (interval : ℕ) (best : ℕ × ℕ) (d : DeviceConfig)
    → (widest_step usecase interval best d ≡ best)
      ⊎ Has usecase interval (widest_step usecase interval best d) d
unfolding widest_step
widest_step-Has usecase interval (bw, ch) d = ground arith

widest_at-Has :
    (usecase : UsecaseType) (interval : ℕ) (best : ℕ × ℕ) (ds : List DeviceConfig)
    → (widest_at usecase interval best ds ≡ best)
      ⊎ ((d : DeviceConfig) × In d ds × Has usecase interval (widest_at usecase interval best ds) d)
unfolding widest_at
widest_at-Has usecase interval best [] = inl refl
widest_at-Has usecase interval best (d ∷ ds) =
    let next = widest_step usecase interval best d in
    elim (widest_at-Has usecase interval next ds) [
      | inl same ↦ elim (widest_step-Has usecase interval best d) [
        | inl kept ↦ inl (same ∙ kept)
        | inr has ↦ inr (d, inl refl, rw same has)
      ]
      | inr (c, i, has) ↦ inr (c, inr i, has)
    ]

Has-Suits :
    (usecase : UsecaseType) (interval : ℕ) (best : ℕ × ℕ) (d : DeviceConfig)
    → Has usecase interval best d
    → Suits (at_interval best interval) d
Has-Suits usecase interval (bw, ch) d h = ground arith

Suits-interval :
    (interval bw ch : ℕ) (d : DeviceConfig)
    → Suits (at_interval (bw, ch) interval) d
    → (d.bit_width ≡ bw) × (d.channel_count ≡ ch) × (d.service_interval_us ≡ interval)
Suits-interval interval bw ch d s = ground arith

altset_of-some :
    (best : ℕ × ℕ) (rate : ℕ) (s : StreamConfig)
    → altset_of best rate ≡ some s
    → (best ≡ (s.bit_width, s.channel_count))
      × (rate ≡ s.sample_rate)
      × (rate ≢ 0)
      × (best ≢ (0, 0))
altset_of-some (bw, ch) rate s e = ground arith

module _ (env : Env) where
  -- An alternate setting that is found for a service interval is one configuration of the first
  -- card, if all its configurations have rates: it has the interval, the bit width, the channel
  -- count and the sample rate.
  pub altset_for_service_interval_offered :
      (is_playback : Bool) (interval : ℕ) (c : Card) (cs : List Card) (s : StreamConfig)
      → All HasRates c.configs
      → altset_for_service_interval env is_playback interval (c ∷ cs) ≡ some s
      → (d : DeviceConfig) × In d c.configs × (d.service_interval_us ≡ interval) × Offers d s
  unfolding altset_for_service_interval best_match_for_sample_rate
  altset_for_service_interval_offered is_playback interval c cs s p e =
      let best = widest_at (direction is_playback) interval (0, 0) c.configs in
      let (pair, rate, some_rate, some_best) =
        altset_of-some best (rate_at env is_playback interval c best) s e in
      elim (widest_at-Has (direction is_playback) interval (0, 0) c.configs) [
        | inl zeros ↦ absurd (some_best zeros)
        | inr (d, i, has) ↦
            let suits = Has-Suits (direction is_playback) interval best d has in
            let (f, j, fits, offers) =
              configs_found (at_interval best interval) 0 48000 c.configs d p i suits in
            let same = Suits-interval interval s.bit_width s.channel_count f (rw pair at fits) in
            elim (Bool-cases (is_of_direction env is_playback c)) [
              | inl here ↦ (f, j, same.2, (same.0, same.1, rw (← rate, here) offers))
              | inr away ↦ absurd (some_rate (rw away refl))
            ]
      ]
