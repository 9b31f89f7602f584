-- ===== src/A2dp/Env.antt =====
-- What a2dp.c calls and does not implement: the mixer and PCM devices, the Bluetooth library and
-- the properties. Every call is recorded; the answer may depend on all calls before it.
use android_device_zte_fujis.Common.{
  ℕ, Bool, Option, List, ◌∷◌, String, ℤ, pos, enosys, truthy, if◌then◌else◌,
}
use android_device_zte_fujis.A2dp.Types.{A2dp, Codec, Payload}

-- The MIXER_* control names.
pub data Ctl : Type 0 where
  enc_config_block dec_config_block enc_bit_format scrambler_mode sample_rate_rx : Ctl
  sample_rate_tx afe_in_channels abr_tx_feedback_path set_feedback_channel : Ctl

pub data Call : Type 0 where
  property_get_bool : String → Call
  property_get_latencies : Call
  dlopen : String → Call
  dlclose : Call
  dlsym : String → Call
  stream_open stream_close stream_start stream_stop stream_suspend : Call
  clear_suspend_flag get_codec_config check_ready is_scrambling sink_latency : Call
  get_ctl : Ctl → Call
  set_value : Ctl → ℕ → Call
  set_enum : Ctl → String → Call
  set_array : Ctl → Payload → Call
  pcm_open pcm_is_ready pcm_start pcm_close : Call

-- The newest call stands first.
abbrev pub Trace : Type 0
Trace = List Call

-- The two calls of audio_hw.c that enter a2dp.c again while `check_a2dp_restore` runs.
pub data SessionOp : Type 0 where
  start stop : SessionOp

-- The five offsets of the property `vendor.audio.a2dp.codec.latency`, as `uint32_t`.
pub record Latencies : Type 0 where
  pub sbc : ℕ
  pub aptx : ℕ
  pub aptx_hd : ℕ
  pub aac : ℕ
  pub ldac : ℕ

-- `latencies t` is the property's value where it is set and `sscanf` reads five numbers from it;
-- `sink_ms t` is what `audio_get_a2dp_sink_latency` answers after `t`;
-- `restore t id b` is what `check_a2dp_restore` does to the session of usecase `id` after `t`.
pub record Env : Type 0 where
  pub result : Trace → Call → ℤ
  pub errno : Trace → ℕ
  pub codec : Trace → Codec
  pub latencies : Trace → Option Latencies
  pub sink_ms : Trace → ℕ
  pub is_a2dp_out_device : ℕ → Bool
  pub restore : Trace → ℕ → Bool → List SessionOp

-- A routine that returns an `int` and only makes calls.
abbrev pub Routine : Type 0
Routine = Env → Trace → ℤ × Trace

-- The next routine runs only if this one returned 0.
infixl 5 ◌>>◌
abbrev pub ◌>>◌ : Routine → Routine → Routine
◌>>◌ m k e t = let r = m e t in let rest = k e r.1 in if truthy r.0 then r else rest

abbrev pub pass : Routine
pass e t = (pos 0, t)

abbrev pub when : Bool → Routine → Routine
when b m = if b then m else pass

-- `mixer_get_ctl_by_name`, then a setter: the pattern of every write to the mixer. A control that
-- is missing gives -ENOSYS; `code` turns the setter's result into the routine's.
unfoldable pub write_ctl : (ℤ → ℤ) → Ctl → Call → Routine
write_ctl code c setter e t =
    if truthy (e.result t (get_ctl c))
    then (code (e.result (get_ctl c ∷ t) setter), setter ∷ get_ctl c ∷ t)
    else (enosys, get_ctl c ∷ t)

abbrev pub any_failure : ℤ → ℤ
any_failure r = if truthy r then enosys else pos 0

abbrev pub as_is : ℤ → ℤ
as_is r = r

-- The static data of the file, with the calls made so far.
pub record State : Type 0 where
  pub dev : A2dp
  pub calls : Trace

-- A routine run in a state, which it leaves alone but for the calls.
abbrev pub run : Routine → Env → State → ℤ × State
run m e s = let r = m e s.calls in (r.0, record s { calls = r.1 })

abbrev pub after : Call → State → State
after c s = record s { calls = c ∷ s.calls }
