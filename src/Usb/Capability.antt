-- ===== src/Usb/Capability.antt =====
-- usb.c: the parser of a stream file, "/proc/asound/card%u/stream0".
use android_device_zte_fujis.Common.{
  ℕ, zero, suc, ◌+◌, ◌-◌, ◌*◌, ◌%◌, Bool, true, false, ◌&&◌, Option, none, some, List, [], ◌∷◌,
  ◌++◌, ltb, leb, ◌==◌, if◌then◌else◌, length, take, drop, ℤ, pos, negsuc, einval,
}
use android_device_zte_fujis.Usb.Text.{
  Bytes, bytes, strstr, member, before, atoi, uint32, is_digit, is_space,
}
use android_device_zte_fujis.Usb.Types.{UsecaseType, playback, capture, DeviceConfig}
use android_device_zte_fujis.Usb.Rates.{
  Mask, Reading, ok, invalid, overrun, unfinished, get_sample_rates,
}

-- `strchr(s, '\n')`, and the text before the line's end.
unfoldable pub line : Bytes → Option Bytes
unfolding member before
line s = if member 10 s then some (before (10 ∷ []) s) else none

abbrev contains : Bytes → Bytes → Bool
contains s needle = elim (strstr s needle) [ none ↦ false | some t ↦ true ]

unfoldable pub bit_width_of : Bytes → ℕ
unfolding strstr
bit_width_of format =
    if contains format (bytes "S16_LE")
    then 16
    else if contains format (bytes "S24_LE")
    then 24
    else if contains format (bytes "S24_3LE")
    then 24
    else if contains format (bytes "S32_LE")
    then 32
    else 0

skip_spaces : Bytes → Bytes
skip_spaces [] = []
skip_spaces (c ∷ s) = if is_space c then skip_spaces s else c ∷ s

-- The digits that the text starts with, and the rest.
scan_digits : ℕ → Bytes → ℕ × Bytes
scan_digits n [] = (n, [])
scan_digits n (c ∷ s) = if is_digit c then scan_digits (10 * n + (c - b'0')) s else (n, c ∷ s)

starts_by_digit : Bytes → Bool
starts_by_digit [] = false
starts_by_digit (c ∷ s) = is_digit c

unit_of : Bytes → Bytes
unit_of [] = []
unit_of (c ∷ s) = if is_space c then [] else c ∷ unit_of s

-- `sscanf(tmp, "%lu %2s", &interval, time_unit)` for an interval with no sign.
unfoldable pub scan_interval : Bytes → ℕ × Bytes
unfolding skip_spaces scan_digits starts_by_digit unit_of
scan_interval s =
    let t = skip_spaces s in
    if starts_by_digit t
    then (let (n, rest) = scan_digits 0 t in (n, take 2 (unit_of (skip_spaces rest))))
    else (0, [])

same : Bytes → Bytes → Bool
same [] [] = true
same [] (d ∷ t) = false
same (c ∷ s) [] = false
same (c ∷ s) (d ∷ t) = c == d && same s t

abbrev pub default_service_interval_us : ℕ
default_service_interval_us = 1000

-- The `switch` over the time unit; `limit` is ULONG_MAX + 1.
unfoldable pub interval_us : ℕ → ℕ × Bytes → ℕ
unfolding same
interval_us limit (interval, unit) =
    if same unit (bytes "us")
    then interval % limit
    else if same unit (bytes "ms")
    then interval * 1000 % limit
    else if same unit (bytes "s")
    then interval * 1000000 % limit
    else default_service_interval_us

-- `none` where the text has no end of a line.
unfoldable pub get_service_interval : ℕ → Bytes → Option ℕ
unfolding line scan_interval interval_us
get_service_interval limit s = elim (line s) [
  | none ↦ none
  | some text ↦ some (interval_us limit (scan_interval text))
]

-- The section of the file: `ret`, the configurations, newest last, and the mask of the type.
pub record Section : Type 0 where
  pub ret : ℤ
  pub configs : List DeviceConfig
  pub mask : Mask

-- A round of the loop: it goes on, wrote behind the end of `rates`, or did not end.
pub data Round : Type 0 where
  next : Section → Round
  broken endless : Round

-- The interval field is optional.
abbrev pub add_config : ℕ → Bytes → DeviceConfig → Section → Section
add_config limit s d p = elim (strstr s (bytes "Data packet interval: ")) [
  | none ↦ record p { configs = p.configs ++ d ∷ []; ret = pos 0 }
  | some at ↦ elim (get_service_interval limit (drop 22 at)) [
    | none ↦ record p { configs = p.configs ++ d ∷ []; ret = negsuc 0 }
    | some us ↦ record p {
      configs = p.configs ++ (record d { service_interval_us = us }) ∷ [];
      ret = pos 0;
    }
  ]
]

abbrev pub with_rates : ℕ → UsecaseType → Bytes → (width channels : ℕ) → Reading → Section → Round
with_rates limit usecase s width channels (ok f) p = next (
    add_config limit s
      (record {
        bit_width = width;
        channel_count = channels;
        rates = f.rates;
        service_interval_us = default_service_interval_us;
        usecase = usecase;
      })
      (record p { mask = f.mask }))
with_rates limit usecase s width channels invalid p = next (record p { ret = einval })
with_rates limit usecase s width channels overrun p = broken
with_rates limit usecase s width channels unfinished p = endless

-- The text of the line on which `key` stands first, from it on.
abbrev pub field : Bytes → Bytes → Option Bytes
field s key = elim (strstr s key) [ none ↦ none | some t ↦ line t ]

abbrev rates_field : ℕ → UsecaseType → Bytes → (width channels : ℕ) → Section → Round
rates_field limit usecase s width channels p = elim (field s (bytes "Rates: ")) [
  | none ↦ next p
  | some text ↦ with_rates limit usecase s width channels (get_sample_rates text p.mask) p
]

-- One "Altset"; `s` is the text behind the word. An altset with a field that is missing is skipped.
unfoldable pub altset : ℕ → UsecaseType → Bytes → Section → Round
unfolding line bit_width_of get_service_interval get_sample_rates strstr
altset limit usecase s p = elim (field s (bytes "Format: ")) [
  | none ↦ next p
  | some format ↦ elim (strstr s (bytes "Channels: ")) [
    | none ↦ next p
    | some at ↦ rates_field limit usecase s (bit_width_of format) (uint32 (atoi (drop 10 at))) p
  ]
]

-- What the loop over the altsets returns.
pub data Outcome : Type 0 where
  parsed : Section → Outcome
  fault out_of_fuel : Outcome

-- A position is the text from there on: the later, the shorter. `stop` is the length at `str_end`,
-- where the other section follows.
abbrev pub is_behind : Option ℕ → Bytes → Bool
is_behind none s = false
is_behind (some stop) s = leb (length s) stop

unfoldable pub altsets : ℕ → ℕ → UsecaseType → Option ℕ → Bytes → Section → Outcome
unfolding altset strstr
altsets zero limit usecase stop s p = out_of_fuel
altsets (suc fuel) limit usecase stop s p = elim (strstr s (bytes "Altset")) [
  | none ↦ parsed p
  | some at ↦ elim (is_behind stop at) [
    | true ↦ parsed p
    | false ↦ elim (altset limit usecase (drop 7 at) p) [
      | broken ↦ fault
      | endless ↦ out_of_fuel
      | next q ↦ altsets fuel limit usecase stop (drop 7 at) q
    ]
  ]
]

abbrev pub title : UsecaseType → Bytes
title playback = bytes "Playback:"
title capture = bytes "Capture:"

abbrev pub other_title : UsecaseType → Bytes
other_title playback = bytes "Capture:"
other_title capture = bytes "Playback:"

-- `check` holds where the other section follows.
abbrev pub stop_of : Bytes → Option Bytes → Option ℕ
stop_of start none = none
stop_of start (some end) = if ltb (length end) (length start) then some (length end) else none

-- USB_BUFF_SIZE
abbrev pub usb_buff_size : ℕ
usb_buff_size = 2048

-- The text is `none` where the file cannot be opened, and the buffer has its first 2048 bytes.
-- `path_length` is what snprintf() returned for the path, which `ret` holds at the start.
unfoldable pub get_capability : ℕ → ℕ → UsecaseType → Option Bytes → Mask → Outcome
unfolding altsets strstr
get_capability limit path_length usecase none m =
    parsed (record { ret = einval; configs = []; mask = m })
get_capability limit path_length usecase (some file) m =
    let text = take usb_buff_size file in
    elim (strstr text (title usecase)) [
      | none ↦ parsed (record { ret = einval; configs = []; mask = m })
      | some start ↦
          altsets (length start + 1) limit usecase
            (stop_of start (strstr text (other_title usecase))) start
            (record { ret = pos path_length; configs = []; mask = m })
    ]
