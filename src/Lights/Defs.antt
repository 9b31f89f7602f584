-- ===== src/Lights/Defs.antt =====
-- lights/lights.c: the handlers of the five lights, over a recorded sequence of writes to the LED
-- files. The lock that each handler holds makes it one step. `already_warned` only silences a log.
use android_device_zte_fujis.Common.{
  ℕ, ◌+◌, ◌*◌, ◌/◌, ◌%◌, ◌^◌, Bool, true, false, not, ◌&&◌, Option, none, some, List, ◌∷◌, String,
  ℤ, pos, negsuc, einval, enomem, truthy, ◌==◌, if◌then◌else◌, zero, suc,
}
use text.Mathlib.Text.{◌==◌ as str_eq}

-- `struct light_state_t`: the colour is an unsigned int, the durations are ints, and the flash mode
-- is only compared with LIGHT_FLASH_TIMED.
pub record LightState : Type 0 where
  pub color : ℕ
  pub flash_timed : Bool
  pub flash_on_ms : ℤ
  pub flash_off_ms : ℤ

pub data LedFile : Type 0 where
  red_led green_led blue_led lcd button red_blink green_blink blue_blink : LedFile

-- The newest write stands first. `result` is what `write_int` returns: 0 or a negated errno.
abbrev pub Writes : Type 0
Writes = List (LedFile × ℕ)

abbrev pub Sysfs : Type 0
Sysfs = Writes → LedFile → ℕ → ℤ

pub record Lights : Type 0 where
  pub notification : LightState
  pub battery : LightState
  pub writes : Writes

abbrev pub write_int : Sysfs → LedFile → ℕ → Writes → ℤ × Writes
write_int fs f v w = (fs w f v, (f, v) ∷ w)

unfoldable pub is_lit : LightState → Bool
is_lit s = not (s.color % 2 ^ 24 == 0)

abbrev pub red_of : ℕ → ℕ
red_of c = c / 2 ^ 16 % 256

abbrev pub green_of : ℕ → ℕ
green_of c = c / 2 ^ 8 % 256

abbrev pub blue_of : ℕ → ℕ
blue_of c = c % 256

unfoldable pub rgb_to_brightness : LightState → ℕ
rgb_to_brightness s =
    let color = s.color % 2 ^ 24 in
    (77 * red_of color + 150 * green_of color + 29 * blue_of color) / 256

-- `dev` is true where the device pointer is not NULL.
unfoldable pub set_light_backlight : Sysfs → (dev : Bool) → LightState → Lights → ℤ × Lights
set_light_backlight fs dev s l =
    let (r, w) = write_int fs lcd (rgb_to_brightness s) l.writes in
    if dev then (r, record l { writes = w }) else (einval, l)

abbrev pub is_pos : ℤ → Bool
is_pos (pos zero) = false
is_pos (pos (suc n)) = true
is_pos (negsuc n) = false

abbrev pub same_int : ℤ → ℤ → Bool
same_int (pos m) (pos n) = m == n
same_int (negsuc m) (negsuc n) = m == n
same_int _ _ = false

-- 0 steady, 1 with two durations, 2 with two equal ones.
unfoldable pub blink_of : LightState → ℕ
blink_of s =
    let on = if s.flash_timed then s.flash_on_ms else pos 0 in
    let off = if s.flash_timed then s.flash_off_ms else pos 0 in
    if is_pos on && is_pos off then (if same_int on off then 2 else 1) else 0

-- One line of the blinking branch: a colour that is 0 is skipped, and a blink that cannot be
-- written turns the LED off.
unfoldable pub blink_led :
    Sysfs → (blink_file led_file : LedFile) → (blink colour : ℕ) → Writes → Writes
blink_led fs b f blink colour w =
    let (r, w') = write_int fs b blink w in
    if colour == 0 then w else if truthy r then (f, 0) ∷ w' else w'

unfoldable pub show_color : Sysfs → (blink color : ℕ) → Writes → Writes
show_color fs blink c w =
    if blink == 0
    then (blue_led, blue_of c) ∷ (green_led, green_of c) ∷ (red_led, red_of c) ∷ w
    else blink_led fs blue_blink blue_led blink (blue_of c) (
        blink_led fs green_blink green_led blink (green_of c)
          (blink_led fs red_blink red_led blink (red_of c) w))

unfoldable pub set_speaker_light_locked : Sysfs → (dev : Bool) → LightState → Lights → ℤ × Lights
set_speaker_light_locked fs dev s l =
    if dev
    then (pos 0, record l { writes = show_color fs (blink_of s) s.color l.writes })
    else (einval, l)

unfoldable pub handle_speaker_battery_locked : Sysfs → (dev : Bool) → Lights → Lights
handle_speaker_battery_locked fs dev l =
    (set_speaker_light_locked fs dev (if is_lit l.battery then l.battery else l.notification) l).1

unfoldable pub set_light_battery : Sysfs → (dev : Bool) → LightState → Lights → ℤ × Lights
set_light_battery fs dev s l =
    (pos 0, handle_speaker_battery_locked fs dev (record l { battery = s }))

unfoldable pub set_light_notifications : Sysfs → (dev : Bool) → LightState → Lights → ℤ × Lights
set_light_notifications fs dev s l =
    (pos 0, handle_speaker_battery_locked fs dev (record l { notification = s }))

-- The state that is asked for is not used.
unfoldable pub set_light_attention : Sysfs → (dev : Bool) → LightState → Lights → ℤ × Lights
set_light_attention fs dev s l = (pos 0, handle_speaker_battery_locked fs dev l)

unfoldable pub set_light_buttons : Sysfs → (dev : Bool) → LightState → Lights → ℤ × Lights
set_light_buttons fs dev s l =
    let (r, w) = write_int fs button (s.color % 256) l.writes in
    if dev then (r, record l { writes = w }) else (einval, l)

-- The functions that `open_lights` puts into a device.
pub data Handler : Type 0 where
  backlight battery notifications buttons attention : Handler

unfoldable pub handle : Handler → Sysfs → (dev : Bool) → LightState → Lights → ℤ × Lights
handle backlight = set_light_backlight
handle battery = set_light_battery
handle notifications = set_light_notifications
handle buttons = set_light_buttons
handle attention = set_light_attention

-- The LIGHT_ID_* names of the platform's lights.h.
unfoldable pub handler_of : String → Option Handler
handler_of name =
    if str_eq "backlight" name
    then some backlight
    else if str_eq "battery" name
    then some battery
    else if str_eq "notifications" name
    then some notifications
    else if str_eq "buttons" name
    then some buttons
    else if str_eq "attention" name
    then some attention
    else none

-- `allocated` is whether `calloc` gives memory; the result holds the device's handler.
unfoldable pub open_lights : (allocated : Bool) → String → ℤ × Option Handler
open_lights allocated name = elim (handler_of name) [
  | none ↦ (einval, none)
  | some h ↦ if allocated then (pos 0, some h) else (enomem, none)
]
