-- ===== src/Usb/Examples.antt =====
-- usb.c: concrete cards, and the theorems at them.
use android_device_zte_fujis.Common.{
  ◌+◌, ◌||◌, ℕ, ◌≡◌, refl, true, false, Option, none, some, List, [], ◌∷◌, ◌==◌, inl, inr, arith, ℤ,
  pos, length, take,
}
use android_device_zte_fujis.Usb.Rates.{
  overrun, Mask, no_bits, get_sample_rates, sup_sample_rates, supported_sample_rates,
}
use android_device_zte_fujis.Usb.Text.{strtok, Bytes, bytes}
use android_device_zte_fujis.Usb.Types.{playback, DeviceConfig, In}
use android_device_zte_fujis.Usb.Match.{
  StreamConfig, backend_apply_policy, best_match_for_channels, best_bit_width,
}
use android_device_zte_fujis.Usb.MatchLaws.{best_match_for_channels_lem, AtLeastAsNear}
use android_device_zte_fujis.Usb.Policy.{
  backend_apply_policy_offered, backend_apply_policy_exact, Offers,
}
use android_device_zte_fujis.Usb.ListLines.{get_sample_rates-Stores, Stores, named, tokens}
use android_device_zte_fujis.Usb.RangeLines.{get_sample_rates_lists, as_list}
use android_device_zte_fujis.Usb.Marked.{sup_sample_rates_lem, marked}
use android_device_zte_fujis.Usb.Devices.{
  Env, Card, Usb, UsbModule, valid_device, input_device, output_device, remove_device, init,
  add_device,
}
use android_device_zte_fujis.Usb.DeviceLaws.{IsUsb}
use android_device_zte_fujis.Usb.Histories.{Call, init_module, add, remove, run, run-IsUsb}
use android_device_zte_fujis.Usb.Queries.{altset_for_service_interval, capture_is_supported}
use android_device_zte_fujis.Usb.Altset.{altset_for_service_interval_offered}
use android_device_zte_fujis.Usb.Lost.{remove_device_loses_capture, backend_apply_policy_zero}

abbrev headset : Bytes
headset =
    bytes
      "Playback:\n Altset 1\n Format: S16_LE\n Channels: 2\n Rates: 48000, 44100\nCapture:\n Altset 1\n Format: S16_LE\n Channels: 1\n Rates: 16000, 48000\n"

-- Device 1 is an output, 2 an input; card 0 is the headset.
abbrev env : Env
env = record {
  is_usb_out = λ d. d == 1;
  is_usb_in = λ d. d == 2;
  out_accessory = 8;
  in_accessory = 9;
  stream_file = λ k. some headset;
  usbid_file = λ k. none;
  path_length = λ k. 26;
  limit = 4294967296;
  has_dev_token = λ t. true;
  has_sidetone = λ k i. false;
}

abbrev boot : Usb
boot = record { usbmod = none; mask = λ t. no_bits; usb_sidetone_gain = pos 0; tokens = [] }

abbrev calls : List Call
calls =
    init_module
    ∷ add 1 (pos 0)
    ∷ add 2 (pos 0)
    ∷ add 2 (pos 0)
    ∷ add 2 (pos 1)
    ∷ remove 1 (pos 0)
    ∷ []

abbrev last : Option Usb → Usb
last none = boot
last (some u) = u

run-IsUsb_example : IsUsb env (last (run env calls boot))
unfolding init add_device remove_device
run-IsUsb_example = run-IsUsb env calls boot (last (run env calls boot)) refl refl

abbrev stereo : DeviceConfig
stereo = record {
  bit_width = 16;
  channel_count = 2;
  rates = 48000 ∷ 44100 ∷ [];
  service_interval_us = 1000;
  usecase = playback;
}

abbrev quad : DeviceConfig
quad = record {
  bit_width = 24;
  channel_count = 4;
  rates = 96000 ∷ 48000 ∷ [];
  service_interval_us = 125;
  usecase = playback;
}

abbrev wide : DeviceConfig
wide = record quad { channel_count = 2; rates = 48000 ∷ [] }

abbrev stream : StreamConfig
stream = record { bit_width = 24; sample_rate = 96000; channel_count = 3 }

abbrev hifi : StreamConfig
hifi = record { bit_width = 24; sample_rate = 96000; channel_count = 4 }

backend_apply_policy_offered_example :
    (c : DeviceConfig) × In c (stereo ∷ quad ∷ wide ∷ [])
    × Offers c (backend_apply_policy (stereo ∷ quad ∷ wide ∷ []) stream)
backend_apply_policy_offered_example =
    backend_apply_policy_offered stereo (quad ∷ wide ∷ []) stream (omega arith) (cc, (cc, (cc, tt)))

backend_apply_policy_exact_example : backend_apply_policy (stereo ∷ quad ∷ wide ∷ []) hifi ≡ hifi
unfolding best_bit_width
backend_apply_policy_exact_example =
    backend_apply_policy_exact stereo (quad ∷ wide ∷ []) hifi quad (omega arith) (inr (inl refl))
      (refl, refl, inl refl) refl

best_match_for_channels_lem_example :
    (c : DeviceConfig) × In c (stereo ∷ quad ∷ wide ∷ [])
    × (c.bit_width ≡ 24)
    × (c.channel_count ≡ best_match_for_channels (stereo ∷ quad ∷ wide ∷ []) 24 3)
    × AtLeastAsNear 3 c.channel_count 2
best_match_for_channels_lem_example =
    best_match_for_channels_lem (stereo ∷ quad ∷ wide ∷ []) 24 3 wide (omega arith)
      (inr (inr (inl refl))) refl

get_sample_rates_lists_example :
    get_sample_rates (bytes "Rates: 8000 - 48000 (continuous)") no_bits
    ≡ as_list (bytes "Rates: 8000 - 48000 (continuous)") no_bits
get_sample_rates_lists_example =
    get_sample_rates_lists (bytes "Rates: 8000 - 48000 (continuous)") no_bits

abbrev eight : Bytes
eight = bytes "Rates: 48000, 48000, 48000, 48000, 48000, 48000, 48000, 48000"

abbrev seven : Bytes
seven = bytes "48000, 48000, 48000, 48000, 48000, 48000, 48000"

get_sample_rates-Stores_example :
    Stores
      (named (bytes "48000," ∷ tokens (length seven + 1) seven))
      (get_sample_rates eight no_bits)
unfolding strtok
get_sample_rates-Stores_example = get_sample_rates-Stores eight (bytes "48000,") seven no_bits refl

-- The eighth rate goes behind the end of the array.
eight_rates_overrun : get_sample_rates eight no_bits ≡ overrun
unfolding get_sample_rates
eight_rates_overrun = refl

abbrev odd_bits : Mask
odd_bits i = i == 1 || (i == 3 || i == 5)

sup_sample_rates_lem_example :
    sup_sample_rates odd_bits 2 ≡ take 2 (marked 0 supported_sample_rates odd_bits)
sup_sample_rates_lem_example = sup_sample_rates_lem odd_bits 2

abbrev card : ℕ → ℤ → List DeviceConfig → Card
card device number configs = record {
  usb_device_type = device;
  usb_card = number;
  configs = configs;
  usbid = [];
  sidetone = none;
}

altset_for_service_interval_offered_example :
    (d : DeviceConfig) × In d (stereo ∷ quad ∷ [])
    × (d.service_interval_us ≡ 125)
    × Offers d (record { bit_width = 24; sample_rate = 48000; channel_count = 4 })
unfolding altset_for_service_interval output_device
altset_for_service_interval_offered_example =
    altset_for_service_interval_offered env true 125 (card 1 (pos 0) (stereo ∷ quad ∷ [])) []
      (record { bit_width = 24; sample_rate = 48000; channel_count = 4 }) (cc, (cc, tt)) refl

abbrev two_inputs : UsbModule
two_inputs = record {
  cards = card 2 (pos 0) [] ∷ card 2 (pos 1) [] ∷ [];
  is_capture_supported = true;
  sidetone_gain = pos 0;
}

remove_device_loses_capture_example :
    (left : UsbModule) × ((remove_device env 2
        (pos 0)
        (record boot { usbmod = some two_inputs })).usbmod
      ≡ some left)
    × In (card 2 (pos 1) []) left.cards
    × (input_device env 2 ≡ true)
    × (capture_is_supported
          (remove_device env 2 (pos 0) (record boot { usbmod = some two_inputs })).usbmod
        ≡ false)
unfolding valid_device input_device
remove_device_loses_capture_example =
    remove_device_loses_capture env 2 (pos 0) (record boot { usbmod = some two_inputs }) two_inputs
      (card 2 (pos 1) []) refl refl refl refl (inr (inl refl)) refl refl

abbrev mute : DeviceConfig
mute = record stereo { rates = [] }

backend_apply_policy_zero_example : (backend_apply_policy (mute ∷ []) stream).sample_rate ≡ 0
backend_apply_policy_zero_example =
    backend_apply_policy_zero mute [] stream (omega arith) (refl, tt)
