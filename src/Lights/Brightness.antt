-- ===== src/Lights/Brightness.antt =====
-- The backlight's brightness.
use android_device_zte_fujis.Common.{refl, ℕ, ◌+◌, ◌*◌, ◌/◌, ◌%◌, ◌^◌, ◌≤◌, ◌<◌, ◌≡◌, arith}
use android_device_zte_fujis.Lights.Defs.{LightState, rgb_to_brightness, red_of, green_of, blue_of}

weighted : (r g b : ℕ) → ℕ
weighted r g b = (77 * r + 150 * g + 29 * b) / 256

-- The alpha byte does not reach the three parts.
parts_of_rgb :
    (c : ℕ)
    → (red_of (c % 2 ^ 24) ≡ red_of c)
      × (green_of (c % 2 ^ 24) ≡ green_of c)
      × (blue_of (c % 2 ^ 24) ≡ blue_of c)
parts_of_rgb c = (omega arith, omega arith, omega arith)

rgb_to_brightness-weighted :
    (s : LightState)
    → rgb_to_brightness s ≡ weighted (red_of s.color) (green_of s.color) (blue_of s.color)
unfolding rgb_to_brightness weighted
rgb_to_brightness-weighted s = let p = parts_of_rgb s.color in rw (p.0, p.1, p.2) refl

weighted_mono : (r g b r' g' b' : ℕ) → r ≤ r' → g ≤ g' → b ≤ b' → weighted r g b ≤ weighted r' g' b'
unfolding weighted
weighted_mono r g b r' g' b' p q u = omega arith

weighted_bound : (r g b : ℕ) → r < 256 → g < 256 → b < 256 → weighted r g b ≤ 255
unfolding weighted
weighted_bound r g b p q u = omega arith

rgb_to_brightness-eq :
    (s : LightState) (n : ℕ)
    → s.color % 2 ^ 24 ≡ n
    → rgb_to_brightness s ≡ weighted (red_of n) (green_of n) (blue_of n)
unfolding rgb_to_brightness weighted
rgb_to_brightness-eq s n h = rw h refl

-- The brightness is at most 255; it is 0 for black and 255 for white whatever the alpha byte, and
-- no smaller for a colour whose three parts are no smaller.
rgb_to_brightness_lem :
    (s t : LightState)
    → (rgb_to_brightness s ≤ 255)
      × (s.color % 2 ^ 24 ≡ 0 → rgb_to_brightness s ≡ 0)
      × (s.color % 2 ^ 24 ≡ 0xFFFFFF → rgb_to_brightness s ≡ 255)
      × (red_of s.color ≤ red_of t.color
          → green_of s.color ≤ green_of t.color
          → blue_of s.color ≤ blue_of t.color
          → rgb_to_brightness s ≤ rgb_to_brightness t)
unfolding weighted
rgb_to_brightness_lem s t = (
  rw rgb_to_brightness-weighted (
      weighted_bound (red_of s.color) (green_of s.color) (blue_of s.color) (omega arith)
        (omega arith) (omega arith)),
  λ black. rgb_to_brightness-eq s 0 black,
  λ white. rgb_to_brightness-eq s 0xFFFFFF white,
  λ r g b.
      rw (rgb_to_brightness-weighted s, rgb_to_brightness-weighted t)
        (weighted_mono _ _ _ _ _ _ r g b),
)
