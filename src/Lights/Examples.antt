-- ===== src/Lights/Examples.antt =====
-- The theorems about lights.c at concrete inputs.
use android_device_zte_fujis.Common.{ℕ, ◌≡◌, refl, true, false, some, [], ◌∷◌, pos, arith}
use android_device_zte_fujis.Lights.Defs.{
  red_of, green_of, blue_of, LightState, Lights, Sysfs, battery, notifications, blink_of, is_lit,
  show_color, set_speaker_light_locked, handle,
}
use android_device_zte_fujis.Lights.Leds.{reds, greens, blues, blink_keeps_stale}
use android_device_zte_fujis.Lights.Priority.{serve, serve_priority}

abbrev steady : ℕ → LightState
steady c = record { color = c; flash_timed = false; flash_on_ms = pos 0; flash_off_ms = pos 0 }

abbrev green_blink_state : LightState
green_blink_state = record {
  color = 0xFF00FF00;
  flash_timed = true;
  flash_on_ms = pos 500;
  flash_off_ms = pos 2000;
}

abbrev works : Sysfs
works w f v = pos 0

abbrev dark : Lights
dark = record { notification = steady 0; battery = steady 0; writes = [] }

-- A steady red first, then a green blink: the red LED stays at 255.
abbrev red_lights : Lights
red_lights = (set_speaker_light_locked works true (steady 0xFFFF0000) dark).1

blink_keeps_stale_example :
    let w = (set_speaker_light_locked works true green_blink_state red_lights).1.writes in
    (red_of 0xFF00FF00 ≡ 0 → reds w ≡ some 255)
    × (green_of 0xFF00FF00 ≡ 0 → greens w ≡ some 0)
    × (blue_of 0xFF00FF00 ≡ 0 → blues w ≡ some 0)
unfolding blink_of set_speaker_light_locked show_color
blink_keeps_stale_example = blink_keeps_stale works green_blink_state red_lights (omega arith)

serve_priority_example :
    let before =
      serve works (record { handler = notifications; wanted = green_blink_state } ∷ []) dark in
    (handle battery works true (steady 0xFF0000) before).1.writes
    ≡ show_color works (blink_of (steady 0xFF0000)) 0xFF0000 before.writes
unfolding is_lit
serve_priority_example =
    serve_priority works (record { handler = notifications; wanted = green_blink_state } ∷ [])
      battery (steady 0xFF0000) dark refl
