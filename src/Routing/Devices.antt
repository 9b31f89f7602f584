-- ===== src/Routing/Devices.antt =====
-- audio_hw.c and platform.c: `enable_snd_device`, `disable_snd_device` and the devices that are split.
use android_device_zte_fujis.Common.{
  ℕ, zero, suc, ◌+◌, ◌-◌, Bool, true, false, ◌&&◌, ◌||◌, not, Option, none, some, ℤ, pos, einval,
  is_neg, truthy, ltb, leb, ◌==◌, if◌then◌else◌,
}
use android_device_zte_fujis.Routing.Types.{
  speaker, speaker_reverse, speaker_safe, headphones, line, voice_speaker, bt_sco, bt_sco_wb,
  bt_a2dp, speaker_and_bt_a2dp, speaker_safe_and_bt_a2dp, usb_headset, max_device, Env, Adev, after,
  set_ref, send_calibration, device_busy, device_free, spkr_start, spkr_stop, tfa_disable_speaker,
  apply_device, reset_device, dsm_feedback, gain_in_combo, spkr_calib_cancel, a2dp_start, a2dp_stop,
}

-- One branch of `platform_can_split_snd_device`: the two parts must not share a backend.
abbrev parts : Env → ℕ → ℕ → Option (ℕ × ℕ) → Option (ℕ × ℕ)
parts env a b other = if env.backends_match a b then other else some (a, b)

-- `platform_can_split_snd_device`
unfoldable pub split : Env → ℕ → Option (ℕ × ℕ)
split env d =
    if d == 7
    then parts env speaker headphones none
    else if d == 9
    then parts env speaker line none
    else if d == 8
    then parts env speaker_safe headphones none
    else if d == 10
    then parts env speaker_safe line none
    else if d == 35
    then parts env speaker bt_sco none
    else if d == 36
    then parts env speaker_safe bt_sco none
    else if d == 37
    then parts env speaker bt_sco_wb none
    else if d == 38
    then parts env speaker_safe bt_sco_wb none
    else if d == 41
    then parts env speaker usb_headset none
    else if d == 42
    then parts env speaker_safe usb_headset none
    else if d == speaker_and_bt_a2dp
    then parts env speaker bt_a2dp none
    else if d == speaker_safe_and_bt_a2dp
    then parts env speaker_safe bt_a2dp none
    else none

abbrev pub is_valid : ℕ → Bool
is_valid d = leb 1 d && ltb d max_device

-- The speakers that speaker protection takes over.
abbrev pub is_protected : Env → ℕ → Bool
is_protected env d =
    (d == speaker || d == speaker_safe || d == speaker_reverse || d == voice_speaker)
    && env.spkr_prot

abbrev pub is_a2dp : ℕ → Bool
is_a2dp d = d == bt_a2dp

-- `on_success`
abbrev pub counted : ℕ → Adev → ℤ × Adev
counted d s = (pos 0, set_ref d (s.ref d + 1) s)

-- A protected speaker.
unfoldable pub start_protected : Env → ℕ → Adev → ℤ × Adev
start_protected env d s =
    if is_neg (env.acdb_id d)
    then (einval, s)
    else if truthy (env.result s.calls (spkr_start d))
    then (einval, after (spkr_start d) s)
    else counted d (after (spkr_start d) s)

-- A device with a mixer path of its own. Its name is found, since its number is valid.
unfoldable pub start_path : Env → ℕ → Adev → ℤ × Adev
start_path env d s =
    if is_a2dp d
    then (if is_neg (env.result s.calls a2dp_start)
        then (einval, after a2dp_start s)
        else counted d
            (after (apply_device d) (record (after a2dp_start s) { a2dp_started = true })))
    else counted d (after (apply_device d) s)

abbrev pub cancel_calib : Env → Adev → Adev
cancel_calib env s = if env.spkr_prot then after spkr_calib_cancel s else s

-- The calls that precede the start of a device that was off.
unfoldable pub announce : Env → ℕ → Adev → Adev
announce env d s = after (dsm_feedback d true) (cancel_calib env (after (device_busy d) s))

abbrev pub start_parts : (ℕ → Adev → Adev) → ℕ → ℕ × ℕ → Adev → ℤ × Adev
start_parts part d (a, b) s = counted d (after (gain_in_combo d true) (part b (part a s)))

unfoldable pub start_device : Env → (ℕ → Adev → Adev) → ℕ → Adev → ℤ × Adev
unfolding start_protected start_path split
start_device env part d s =
    if is_protected env d
    then start_protected env d s
    else elim (split env d) [ none ↦ start_path env d s | some ab ↦ start_parts part d ab s ]

-- `enable_snd_device`, with the call for the parts of a device.
unfoldable pub enable_with : Env → (ℕ → Adev → Adev) → ℕ → Adev → ℤ × Adev
unfolding start_device announce
enable_with env part d s =
    if not (is_valid d)
    then (einval, s)
    else let s1 = after (send_calibration d) s in
      if leb 1 (s1.ref d) then counted d s1 else start_device env part d (announce env d s1)

-- The depth of the calls one in another; a device's parts have none themselves.
unfoldable pub enable_at : ℕ → Env → ℕ → Adev → ℤ × Adev
unfolding enable_with
enable_at zero env d s = (einval, s)
enable_at (suc depth) env d s = enable_with env (λ part t. (enable_at depth env part t).1) d s

-- The call for a part.
abbrev pub enable_part : ℕ → Env → ℕ → Adev → Adev
enable_part depth env part t = (enable_at depth env part t).1

unfoldable pub enable_snd_device : Env → ℕ → Adev → ℤ × Adev
unfolding enable_at
enable_snd_device = enable_at 2

abbrev pub stop_a2dp : ℕ → Adev → Adev
stop_a2dp d s = if is_a2dp d then record (after a2dp_stop s) { a2dp_started = false } else s

abbrev pub stop_parts : (ℕ → Adev → Adev) → ℕ → ℕ × ℕ → Adev → Adev
stop_parts part d (a, b) s = after (gain_in_combo d false) (part b (part a s))

-- The device's last user has left.
unfoldable pub stop_device : Env → (ℕ → Adev → Adev) → ℕ → Adev → Adev
unfolding split
stop_device env part d s =
    let s1 = stop_a2dp d (after (dsm_feedback d false) s) in
    after (device_free d) (
      if is_protected env d then after (spkr_stop d) s1 else elim (split env d) [
        | none ↦ after (reset_device d) s1
        | some ab ↦ stop_parts part d ab s1
      ])

unfoldable pub disable_with : Env → (ℕ → Adev → Adev) → ℕ → Adev → ℤ × Adev
unfolding stop_device
disable_with env part d s =
    if not (is_valid d)
    then (einval, s)
    else if s.ref d == 0
    then (einval, s)
    else let s1 = set_ref d (s.ref d - 1) (after (tfa_disable_speaker d) s) in
      (pos 0, if s1.ref d == 0 then stop_device env part d s1 else s1)

unfoldable pub disable_at : ℕ → Env → ℕ → Adev → ℤ × Adev
unfolding disable_with
disable_at zero env d s = (einval, s)
disable_at (suc depth) env d s = disable_with env (λ part t. (disable_at depth env part t).1) d s

abbrev pub disable_part : ℕ → Env → ℕ → Adev → Adev
disable_part depth env part t = (disable_at depth env part t).1

unfoldable pub disable_snd_device : Env → ℕ → Adev → ℤ × Adev
unfolding disable_at
disable_snd_device = disable_at 2
