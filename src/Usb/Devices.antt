-- ===== src/Usb/Devices.antt =====
-- usb.c: the list of the USB cards, to which cards are added and from which they are removed.
use android_device_zte_fujis.Common.{
  ℕ, zero, ◌+◌, ◌*◌, ◌%◌, ◌^◌, Bool, true, false, ◌&&◌, ◌||◌, not, Option, none, some, List, [],
  ◌∷◌, ◌++◌, ◌==◌, if◌then◌else◌, take, ℤ, pos, negsuc, is_neg,
}
use android_device_zte_fujis.Usb.Text.{Bytes}
use android_device_zte_fujis.Usb.Types.{UsecaseType, playback, capture, DeviceConfig}
use android_device_zte_fujis.Usb.Rates.{Mask, no_bits}
use android_device_zte_fujis.Usb.Capability.{
  Outcome, parsed, fault, out_of_fuel, Section, get_capability, line,
}

-- What the module calls and does not implement: the kinds of a device, which an Android header
-- decides, and the files and mixer controls of a card. `limit` is ULONG_MAX + 1.
pub record Env : Type 0 where
  pub is_usb_out : ℕ → Bool
  pub is_usb_in : ℕ → Bool
  pub out_accessory : ℕ
  pub in_accessory : ℕ
  pub stream_file : ℤ → Option Bytes
  pub usbid_file : ℤ → Option Bytes
  pub path_length : ℤ → ℕ
  pub limit : ℕ
  pub has_dev_token : UsecaseType → Bool
  pub has_sidetone : ℤ → ℕ → Bool

-- `struct usb_card_config`; `sidetone` is the index of its sidetone
-- switch, which `calloc` leaves 0 for a capture card.
pub record Card : Type 0 where
  pub usb_device_type : ℕ
  pub usb_card : ℤ
  pub configs : List DeviceConfig
  pub usbid : Bytes
  pub sidetone : Option ℕ

-- `struct usb_module`
pub record UsbModule : Type 0 where
  pub cards : List Card
  pub is_capture_supported : Bool
  pub sidetone_gain : ℤ

-- The variables of the file. `tokens` are the values that went to the device token controls, the
-- newest first.
pub record Usb : Type 0 where
  pub usbmod : Option UsbModule
  pub mask : UsecaseType → Mask
  pub usb_sidetone_gain : ℤ
  pub tokens : List (UsecaseType × ℕ)

abbrev pub ℤ_eq : ℤ → ℤ → Bool
ℤ_eq (pos a) (pos b) = a == b
ℤ_eq (pos a) (negsuc b) = false
ℤ_eq (negsuc a) (pos b) = false
ℤ_eq (negsuc a) (negsuc b) = a == b

abbrev pub set_mask : UsecaseType → Mask → Usb → Usb
set_mask playback m u = record u { mask = λ t. elim t [ playback ↦ m | capture ↦ u.mask capture ] }
set_mask capture m u = record u { mask = λ t. elim t [ playback ↦ u.mask playback | capture ↦ m ] }

abbrev pub is_device : ℕ → ℤ → Card → Bool
is_device device card c = c.usb_device_type == device && ℤ_eq c.usb_card card

unfoldable pub has_card : ℕ → ℤ → List Card → Bool
has_card device card [] = false
has_card device card (c ∷ cs) = is_device device card c || has_card device card cs

unfoldable pub without : ℕ → ℤ → List Card → List Card
without device card [] = []
without device card (c ∷ cs) =
    if is_device device card c then without device card cs else c ∷ without device card cs

abbrev usecase_number : UsecaseType → ℕ
usecase_number playback = 0
usecase_number capture = 1

abbrev magnitude : ℤ → ℕ
magnitude (pos n) = n
magnitude (negsuc n) = n + 1

-- `usb_set_dev_id_mixer_ctl` for a card number that is not negative.
unfoldable pub set_dev_id_mixer_ctl : Env → UsecaseType → ℤ → Usb → Usb
set_dev_id_mixer_ctl env usecase card u =
    if env.has_dev_token usecase
    then record u {
      tokens = (usecase, (magnitude card * 2 ^ 16 + usecase_number usecase) % 2 ^ 32) ∷ u.tokens;
    }
    else u

-- The first line of the card's "usbid" file, of which 15 bytes are read.
abbrev usbid_of : Option Bytes → Bytes
usbid_of none = []
usbid_of (some file) = elim (line (take 15 file)) [ none ↦ take 15 file | some text ↦ text ]

-- The switch is looked for by two names.
abbrev sidetone_of : (ℕ → Bool) → Option ℕ
sidetone_of has = if has 0 then some 0 else if has 1 then some 1 else none

module _ (env : Env) where
  unfoldable pub output_device : ℕ → Bool
  output_device device = if device == env.out_accessory then false else env.is_usb_out device

  unfoldable pub input_device : ℕ → Bool
  input_device device = if device == env.in_accessory then false else env.is_usb_in device

  unfoldable pub valid_device : ℕ → Bool
  unfolding output_device input_device
  valid_device device = output_device device || input_device device

  abbrev pub new_card : UsecaseType → ℕ → ℤ → List DeviceConfig → Card
  new_card usecase device card configs = record {
    usb_device_type = device;
    usb_card = card;
    configs = configs;
    usbid = usbid_of (env.usbid_file card);
    sidetone = elim usecase [ playback ↦ sidetone_of (env.has_sidetone card) | capture ↦ some 0 ];
  }

  abbrev pub enlisted : UsecaseType → Card → UsbModule → UsbModule
  enlisted playback c m = record m { cards = m.cards ++ c ∷ [] }
  enlisted capture c m = record m { cards = m.cards ++ c ∷ []; is_capture_supported = true }

  abbrev pub with_section : UsecaseType → ℕ → ℤ → UsbModule → Usb → ℤ → Section → Usb
  with_section usecase device card m u (pos zero) p =
      set_dev_id_mixer_ctl env usecase card (record (set_mask usecase p.mask u) {
        usbmod = some (enlisted usecase (new_card usecase device card p.configs) m);
      })
  with_section usecase device card m u other p = set_mask usecase p.mask u

  -- `none` where the parser writes behind the end of an array.
  abbrev pub with_outcome : UsecaseType → ℕ → ℤ → UsbModule → Usb → Outcome → Option Usb
  with_outcome usecase device card m u (parsed p) =
      some (with_section usecase device card m u p.ret p)
  with_outcome usecase device card m u fault = none
  with_outcome usecase device card m u out_of_fuel = none

  unfoldable pub add_new : UsecaseType → ℕ → ℤ → UsbModule → Usb → Option Usb
  unfolding get_capability set_dev_id_mixer_ctl line
  add_new usecase device card m u = with_outcome usecase device card m u (
      get_capability env.limit (env.path_length card) usecase (env.stream_file card)
        (u.mask usecase))

  abbrev pub add_to : ℕ → ℤ → Usb → Option UsbModule → Option Usb
  add_to device card u none = some u
  add_to device card u (some m) =
      if not (valid_device device) || is_neg card
      then some u
      else if has_card device card m.cards
      then some u
      else if output_device device
      then add_new playback device card m u
      else add_new capture device card m u

  unfoldable pub add_device : ℕ → ℤ → Usb → Option Usb
  unfolding valid_device has_card output_device add_new
  add_device device card u = add_to device card u u.usbmod

  abbrev pub remove_from : ℕ → ℤ → Usb → Option UsbModule → Usb
  remove_from device card u none = u
  remove_from device card u (some m) =
      if not (valid_device device) || is_neg card
      then u
      else let left = record m { cards = without device card m.cards } in
        if env.is_usb_in device
        then set_mask capture no_bits
            (record u { usbmod = some (record left { is_capture_supported = false }) })
        else set_mask playback no_bits (record u { usbmod = some left })

  unfoldable pub remove_device : ℕ → ℤ → Usb → Usb
  unfolding valid_device without no_bits
  remove_device device card u = remove_from device card u u.usbmod

-- `audio_extn_usb_init`: the module is there afterwards, and lists no card.
unfoldable pub init : Usb → Usb
init u = record u {
  usbmod =
      some
        (record { cards = []; is_capture_supported = false; sidetone_gain = u.usb_sidetone_gain });
}

unfoldable pub deinit : Usb → Usb
deinit u = record u { usbmod = none }
