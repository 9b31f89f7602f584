-- ===== src/Usb/Queries.antt =====
-- usb.c: what the other files ask about the listed cards.
use android_device_zte_fujis.Common.{
  ℕ, Bool, true, false, ◌&&◌, ◌||◌, not, Option, none, some, List, [], ◌∷◌, ◌==◌, if◌then◌else◌,
  leb, ltb, ◌-◌,
}
use android_device_zte_fujis.Usb.Text.{Bytes}
use android_device_zte_fujis.Usb.Types.{UsecaseType, playback, capture, DeviceConfig}
use android_device_zte_fujis.Usb.Match.{
  Wanted, StreamConfig, best_match_for_sample_rate, backend_apply_policy,
}
use android_device_zte_fujis.Usb.Devices.{Env, Card, UsbModule, output_device, input_device}

abbrev pub of_type : UsecaseType → DeviceConfig → Bool
of_type playback d = elim d.usecase [ playback ↦ true | capture ↦ false ]
of_type capture d = elim d.usecase [ playback ↦ false | capture ↦ true ]

abbrev max : ℕ → ℕ → ℕ
max a b = if leb b a then a else b

abbrev min : ℕ → ℕ → ℕ
min a b = if leb a b then a else b

-- `_MAX` over the configurations.
unfoldable pub max_over : (DeviceConfig → ℕ) → ℕ → List DeviceConfig → ℕ
max_over field best [] = best
max_over field best (d ∷ ds) = max_over field (max best (field d)) ds

-- The wider configuration of the service interval, or the one with more channels.
unfoldable pub widest_step : UsecaseType → ℕ → ℕ × ℕ → DeviceConfig → ℕ × ℕ
widest_step usecase interval (bw, ch) d =
    if not (of_type usecase d) || not (d.service_interval_us == interval)
    then (bw, ch)
    else if ltb bw d.bit_width
    then (d.bit_width, d.channel_count)
    else if d.bit_width == bw && ltb ch d.channel_count
    then (bw, d.channel_count)
    else (bw, ch)

unfoldable pub widest_at : UsecaseType → ℕ → ℕ × ℕ → List DeviceConfig → ℕ × ℕ
unfolding widest_step
widest_at usecase interval best [] = best
widest_at usecase interval best (d ∷ ds) =
    widest_at usecase interval (widest_step usecase interval best d) ds

abbrev pub direction : Bool → UsecaseType
direction true = playback
direction false = capture

abbrev pub at_interval : ℕ × ℕ → ℕ → Wanted
at_interval (bw, ch) interval = record {
  bit_width = bw;
  channel_count = ch;
  interval = interval;
  check_interval = true;
}

abbrev pub altset_of : ℕ × ℕ → ℕ → Option StreamConfig
altset_of (bw, ch) rate =
    if bw == 0 || ch == 0
    then none
    else if rate == 0
    then none
    else some (record { bit_width = bw; sample_rate = rate; channel_count = ch })

module _ (env : Env) where
  abbrev pub is_of_direction : Bool → Card → Bool
  is_of_direction true c = output_device env c.usb_device_type
  is_of_direction false c = input_device env c.usb_device_type

  -- `get_max_channels` and `get_max_bit_width` pass over the cards of the other direction.
  abbrev is_skipped : Bool → Card → Bool
  is_skipped is_playback c =
      (output_device env c.usb_device_type && not is_playback)
      || (input_device env c.usb_device_type && is_playback)

  unfoldable pub max_of_cards : (DeviceConfig → ℕ) → Bool → ℕ → List Card → ℕ
  unfolding max_over
  max_of_cards field is_playback best [] = best
  max_of_cards field is_playback best (c ∷ cs) =
      max_of_cards field is_playback
        (if is_skipped is_playback c then best else max_over field best c.configs) cs

  unfoldable pub get_max_channels : Bool → UsbModule → ℕ
  unfolding max_of_cards
  get_max_channels is_playback m = max_of_cards (λ d. d.channel_count) is_playback 1 m.cards

  unfoldable pub get_max_bit_width : Bool → UsbModule → ℕ
  unfolding max_of_cards
  get_max_bit_width is_playback m = max_of_cards (λ d. d.bit_width) is_playback 16 m.cards

  apply_to : Bool → List Card → StreamConfig → StreamConfig
  apply_to is_playback [] s = s
  apply_to is_playback (c ∷ cs) s =
      if is_of_direction is_playback c
      then backend_apply_policy c.configs s
      else apply_to is_playback cs s

  unfoldable pub is_config_supported : Bool → UsbModule → StreamConfig → StreamConfig
  unfolding apply_to backend_apply_policy
  is_config_supported is_playback m s = apply_to is_playback m.cards s

  abbrev interval_step : Bool → UsecaseType → ℕ → DeviceConfig → ℕ
  interval_step least usecase us d =
      if of_type usecase d
      then (if least then min us d.service_interval_us else max us d.service_interval_us)
      else us

  interval_over : Bool → UsecaseType → ℕ → List DeviceConfig → ℕ
  interval_over least usecase us [] = us
  interval_over least usecase us (d ∷ ds) =
      interval_over least usecase (interval_step least usecase us d) ds

  -- Only the first card is looked at.
  unfoldable pub find_service_interval : Bool → Bool → List Card → ℕ
  unfolding interval_over
  find_service_interval least is_playback [] = if least then env.limit - 1 else 1
  find_service_interval least is_playback (c ∷ cs) =
      interval_over least (direction is_playback) (if least then env.limit - 1 else 1) c.configs

  abbrev pub rate_at : Bool → ℕ → Card → ℕ × ℕ → ℕ
  rate_at is_playback interval c best =
      if is_of_direction is_playback c
      then best_match_for_sample_rate c.configs (at_interval best interval) 0
      else 0

  -- `none` for the result -1. Only the first card is looked at.
  unfoldable pub altset_for_service_interval : Bool → ℕ → List Card → Option StreamConfig
  unfolding widest_at best_match_for_sample_rate
  altset_for_service_interval is_playback interval [] = none
  altset_for_service_interval is_playback interval (c ∷ cs) =
      let best = widest_at (direction is_playback) interval (0, 0) c.configs in
      altset_of best (rate_at is_playback interval c best)

-- `audio_extn_usb_usbid`
unfoldable pub usbid : Option UsbModule → Option Bytes
usbid none = none
usbid (some m) = elim m.cards [ [] ↦ none | c ∷ cs ↦ some c.usbid ]

unfoldable pub capture_is_supported : Option UsbModule → Bool
capture_is_supported none = false
capture_is_supported (some m) = m.is_capture_supported
