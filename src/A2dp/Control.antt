-- ===== src/A2dp/Control.antt =====
-- a2dp.c: the Bluetooth library is mapped and the stream opened and closed.
use android_device_zte_fujis.Common.{
  Bool, true, false, ◌&&◌, ◌∷◌, String, ℤ, pos, neg, enosys, truthy, if◌then◌else◌,
}
use android_device_zte_fujis.A2dp.Types.{
  A2dp, connected, disconnected, is_disconnected, codec_type_invalid,
}
use android_device_zte_fujis.A2dp.Env.{
  Env, Trace, property_get_bool, dlopen, dlclose, dlsym, stream_open, stream_close, State, after,
}

unfoldable pub common_init : A2dp → A2dp
common_init a = record a {
  a2dp_started = false;
  total = 0;
  a2dp_suspended = false;
  encoder_format = codec_type_invalid;
  bt_state = disconnected;
  abr_enabled = false;
  abr_started = false;
  imc_instance = 0;
  abr_handle = false;
}

abbrev pub hal_disabled : String
hal_disabled = "persist.bluetooth.bluetooth_audio_hal.disabled"

-- The calls of `dlsym`, the last one first.
abbrev symbol_calls : Trace → Trace
symbol_calls t =
    dlsym "audio_get_a2dp_sink_latency"
    ∷ dlsym "audio_is_scrambling_enabled"
    ∷ dlsym "audio_check_a2dp_ready"
    ∷ dlsym "audio_stream_close"
    ∷ dlsym "audio_stream_stop"
    ∷ dlsym "clear_a2dp_suspend_flag"
    ∷ dlsym "audio_handoff_triggered"
    ∷ dlsym "audio_stream_suspend"
    ∷ dlsym "audio_get_codec_config"
    ∷ dlsym "audio_stream_start"
    ∷ dlsym "audio_stream_open"
    ∷ t

-- The pointer that `dlsym` gives for a name once the library is mapped. The answers depend on the
-- calls up to the mapping, not on the order of the look-ups.
abbrev has_symbol : Env → Trace → String → Bool
has_symbol e t name = truthy (e.result t (dlsym name))

unfoldable pub load_symbols : Env → State → State
load_symbols e s = record {
  dev = record s.dev {
    lib = true;
    syms = record {
      audio_stream_open = has_symbol e s.calls "audio_stream_open";
      audio_stream_start = has_symbol e s.calls "audio_stream_start";
      audio_get_codec_config = has_symbol e s.calls "audio_get_codec_config";
      audio_stream_suspend = has_symbol e s.calls "audio_stream_suspend";
      audio_handoff_triggered = has_symbol e s.calls "audio_handoff_triggered";
      clear_a2dp_suspend_flag = has_symbol e s.calls "clear_a2dp_suspend_flag";
      audio_stream_stop = has_symbol e s.calls "audio_stream_stop";
      audio_stream_close = has_symbol e s.calls "audio_stream_close";
      audio_check_a2dp_ready = has_symbol e s.calls "audio_check_a2dp_ready";
      audio_is_scrambling_enabled = has_symbol e s.calls "audio_is_scrambling_enabled";
      audio_get_a2dp_sink_latency = has_symbol e s.calls "audio_get_a2dp_sink_latency";
    };
  };
  calls = symbol_calls s.calls;
}

-- A failing stream unmaps the library again.
abbrev pub abandon_library : State → State
abandon_library s = record {
  dev = record s.dev { lib = false; bt_state = disconnected };
  calls = dlclose ∷ stream_open ∷ s.calls;
}

abbrev pub connect : State → State
connect s = record { dev = record s.dev { bt_state = connected }; calls = stream_open ∷ s.calls }

-- The call of `audio_stream_open` and what follows it.
unfoldable pub open_stream : Env → State → ℤ × State
open_stream e s =
    if s.dev.lib && s.dev.syms.audio_stream_open
    then (
      e.result s.calls stream_open,
      if truthy (e.result s.calls stream_open) then abandon_library s else connect s,
    )
    else (enosys, record s { dev = record s.dev { bt_state = disconnected } })

-- The library is looked for only where it is not mapped.
unfoldable pub map_library : Env → (name : String) → State → ℤ × State
map_library e name s =
    let mapped = after (dlopen name) s in
    if s.dev.lib
    then open_stream e s
    else if truthy (e.result s.calls (dlopen name))
    then open_stream e (load_symbols e mapped)
    else (
      neg (e.errno mapped.calls),
      record mapped { dev = record s.dev { bt_state = disconnected } },
    )

unfoldable pub open_output : Env → State → ℤ × State
open_output e s =
    let name =
      if truthy (e.result s.calls (property_get_bool hal_disabled))
      then "libbthost_if.so"
      else "btaudio_offload_if.so" in
    let s' = after (property_get_bool hal_disabled) s in
    if is_disconnected s.dev.bt_state then map_library e name s' else (enosys, s')

unfoldable pub close_output : Env → State → ℤ × State
close_output e s =
    if s.dev.lib && s.dev.syms.audio_stream_close
    then (
      pos 0,
      record {
        dev = record (common_init s.dev) { enc_sampling_rate = 0; enc_channels = 0 };
        calls = if is_disconnected s.dev.bt_state then s.calls else stream_close ∷ s.calls;
      },
    )
    else (enosys, s)
