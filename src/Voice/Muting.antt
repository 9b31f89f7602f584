-- ===== src/Voice/Muting.antt =====
-- voice.c, `voice_set_device_mute_flag`: the microphone stays muted while the mute moves.
use android_device_zte_fujis.Common.{
  Bool, true, false, ◌||◌, [], ◌∷◌, ◌≡◌, drop, length, ◌+◌, arith,
}
use android_device_zte_fujis.Voice.Types.{Trace, Voice, set_device_mute, set_mic_mute}
use android_device_zte_fujis.Voice.Usecase.{voice_set_device_mute_flag}

-- What the last call of either kind set.
abbrev pub device_muted : Trace → Bool
device_muted [] = false
device_muted (set_device_mute b ∷ t) = b
device_muted (_ ∷ t) = device_muted t

abbrev pub stream_muted : Trace → Bool
stream_muted [] = false
stream_muted (set_mic_mute b ∷ t) = b
stream_muted (_ ∷ t) = stream_muted t

abbrev pub is_muted : Trace → Bool
is_muted t = device_muted t || stream_muted t

-- While the microphone is muted, moving the mute makes two calls, and the microphone is muted after
-- the first one as after both; after both it is muted exactly where the flag says.
voice_set_device_mute_flag_muted :
    (b : Bool) (s : Voice)
    → s.mic_mute ≡ true
    → (length (voice_set_device_mute_flag b s).calls ≡ length s.calls + 2)
      × (is_muted (drop 1 (voice_set_device_mute_flag b s).calls) ≡ true)
      × (is_muted (voice_set_device_mute_flag b s).calls ≡ true)
      × (device_muted (voice_set_device_mute_flag b s).calls ≡ b)
      × ((voice_set_device_mute_flag b s).use_voice_device_mute ≡ b)
unfolding voice_set_device_mute_flag
voice_set_device_mute_flag_muted b s muted = ground arith
