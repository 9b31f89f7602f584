-- ===== src/Lights/Leds.antt =====
-- What the notification LED shows after a colour was set.
use android_device_zte_fujis.Common.{
  ℕ, ◌≡◌, ◌≢◌, refl, true, not, ◌&&◌, Option, none, some, [], ◌∷◌, ◌==◌, arith,
}
use android_device_zte_fujis.Lights.Defs.{
  LightState, LedFile, red_led, green_led, blue_led, Writes, Sysfs, Lights, blink_of, blink_led,
  show_color, set_speaker_light_locked, red_of, green_of, blue_of, is_pos, same_int,
}

LedFile-discrete : Discrete LedFile
LedFile-discrete = hlevel

-- The brightness that was last written to the red, the green and the blue LED.
abbrev pub reds : Writes → Option ℕ
reds [] = none
reds ((red_led, v) ∷ w) = some v
reds (_ ∷ w) = reds w

abbrev pub greens : Writes → Option ℕ
greens [] = none
greens ((green_led, v) ∷ w) = some v
greens (_ ∷ w) = greens w

abbrev pub blues : Writes → Option ℕ
blues [] = none
blues ((blue_led, v) ∷ w) = some v
blues (_ ∷ w) = blues w

-- A steady colour writes its three parts to the three LEDs, whatever was written before.
steady_shows_color :
    (fs : Sysfs) (s : LightState) (l : Lights)
    → blink_of s ≡ 0
    → let w = (set_speaker_light_locked fs true s l).1.writes in
      (reds w ≡ some (red_of s.color))
      × (greens w ≡ some (green_of s.color))
      × (blues w ≡ some (blue_of s.color))
unfolding set_speaker_light_locked show_color
steady_shows_color fs s l h = rw h (refl, refl, refl)

-- A blinking colour never writes to the LED of a part that is 0: it keeps the brightness of the
-- colour that was shown before.
pub blink_keeps_stale :
    (fs : Sysfs) (s : LightState) (l : Lights)
    → blink_of s ≢ 0
    → let w = (set_speaker_light_locked fs true s l).1.writes in
      (red_of s.color ≡ 0 → reds w ≡ reds l.writes)
      × (green_of s.color ≡ 0 → greens w ≡ greens l.writes)
      × (blue_of s.color ≡ 0 → blues w ≡ blues l.writes)
unfolding set_speaker_light_locked show_color blink_led
blink_keeps_stale fs s l h = ground arith

-- The LED blinks exactly if the flash is timed with two positive durations, and the value 2 stands
-- exactly for two equal ones.
blink_of_lem :
    (s : LightState)
    → ((blink_of s == 0) ≡ not (s.flash_timed && (is_pos s.flash_on_ms && is_pos s.flash_off_ms)))
      × ((blink_of s == 2) ≡ (
          s.flash_timed
          && (is_pos s.flash_on_ms && is_pos s.flash_off_ms)
          && same_int s.flash_on_ms s.flash_off_ms))
unfolding blink_of
blink_of_lem s = ground arith
