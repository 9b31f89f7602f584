-- ===== src/A2dp/Examples.antt =====
-- The theorems about a2dp.c at concrete inputs: a library that grants everything and negotiates
-- LDAC with ABR.
use android_device_zte_fujis.Common.{
  ◌+◌, ◌-◌, ◌≡◌, refl, true, false, not, ◌&&◌, ◌==◌, none, some, List, [], ◌∷◌, ℤ, pos, negsuc,
  etimedout, arith, if◌then◌else◌,
}
use text.Mathlib.Text.{◌==◌ as str_eq}
use android_device_zte_fujis.A2dp.Types.{sbc, ldac, LdacConfig, SbcConfig, codec_type_sbc}
use android_device_zte_fujis.A2dp.Env.{
  Env, Trace, Call, State, start, stop, property_get_bool, get_ctl, dlopen, dlsym, write_ctl,
  pcm_open, pcm_is_ready, check_ready, stream_start,
}
use android_device_zte_fujis.A2dp.Resources.{loaded, legal, open_pcms, starts, stops}
use android_device_zte_fujis.A2dp.Backend.{
  reset_backend_cfg, set_backend_cfg, check_and_set_scrambler, configure_decoder_format,
  reset_dec_config_params, set_bit_format,
}
use android_device_zte_fujis.A2dp.Abr.{
  stop_abr, paths_off, paths_on, open_abr_pcm, start_abr_pcm, start_abr,
}
use android_device_zte_fujis.A2dp.Encoder.{
  ldac_enc_cfg, program, commit, configure_sbc, configure_ldac, ldac_channels, take_instance,
  then_decoder, configure_codec, configure_encoder_format,
}
use android_device_zte_fujis.A2dp.Control.{
  common_init, load_symbols, open_stream, map_library, open_output,
}
use android_device_zte_fujis.A2dp.Session.{
  reset_enc_config_params, begin_stream, enter_session, first_session, start_playback,
  stop_playback, session_ops, set_suspended, suspend, restore_all, reset_config, end_abr, resume,
  device_connected, by_key, set_parameters, update_offload_codec_support, init, Parms, Usecase,
}
use android_device_zte_fujis.A2dp.Histories.{
  Operation, start_session, stop_session, set_parms, apply, apply_all, history, history-legal,
  history_no_leak, history_feedback,
}
use android_device_zte_fujis.A2dp.Sessions.{
  IsLinked, InSession, is_first, is_last, sessions, start_playback_lem, stop_playback_lem,
  session_ops-sessions,
}
use android_device_zte_fujis.A2dp.Resuming.{cleared, many_starts, resume_ignores_starts}
use android_device_zte_fujis.A2dp.EncoderLaws.{settings, configure_codec-negotiated}

abbrev ldac_config : LdacConfig
ldac_config = record {
  sampling_rate = 44100;
  bit_rate = 606000;
  channel_mode = 1;
  mtu = 679;
  bits_per_sample = 24;
  is_abr_enabled = true;
  level_to_bitrate_map = record { num_levels = 0; bit_rate_level_map = [] };
}

abbrev answer : Trace → Call → ℤ
answer t (get_ctl _) = pos 1
answer t (dlopen _) = pos 1
answer t (dlsym _) = pos 1
answer t pcm_open = pos 1
answer t pcm_is_ready = pos 1
answer t check_ready = pos 1
answer t (property_get_bool name) =
    if str_eq name "ro.bluetooth.a2dp_offload.supported" then pos 1 else pos 0
answer t _ = pos 0

abbrev generous : Env
generous = record {
  result = answer;
  errno = λ t. 2;
  codec = λ t. ldac (some ldac_config);
  latencies = λ t. none;
  sink_ms = λ t. 0;
  is_a2dp_out_device = λ d. d == 128;
  restore = λ t id b. if b then start ∷ [] else stop ∷ [];
}

abbrev no_parms : Parms
no_parms = record {
  device_connect = none;
  device_disconnect = none;
  a2dp_suspended = none;
  reconfig_a2dp = false;
}

abbrev music : List Usecase
music = record { id = 1; is_playback = true; on_a2dp = true } ∷ []

abbrev connects : Operation
connects = set_parms [] (record no_parms { device_connect = some 128 })

abbrev suspends : Operation
suspends = set_parms music (record no_parms { a2dp_suspended = some "true" })

abbrev resumes : Operation
resumes = set_parms music (record no_parms { a2dp_suspended = some "false" })

abbrev disconnects : Operation
disconnects = set_parms [] (record no_parms { device_disconnect = some 128 })

abbrev tour : List Operation
tour = connects ∷ start_session ∷ suspends ∷ resumes ∷ stop_session ∷ disconnects ∷ []

history-legal_example : legal generous (history generous tour).calls ≡ true
history-legal_example = history-legal generous tour

history_no_leak_example :
    let s = history generous tour in
    (loaded generous s.calls ≡ s.dev.lib)
    × (open_pcms generous s.calls ≡ (if s.dev.abr_started then 1 else 0))
history_no_leak_example = history_no_leak generous tour

playing : State
unfolding history apply apply_all init update_offload_codec_support common_init
    reset_enc_config_params set_bit_format write_ctl reset_dec_config_params set_parameters by_key
    device_connected open_output map_library load_symbols open_stream start_playback first_session
    begin_stream configure_encoder_format configure_codec configure_ldac ldac_enc_cfg commit program
    ldac_channels take_instance then_decoder configure_decoder_format enter_session
    check_and_set_scrambler set_backend_cfg start_abr paths_on open_abr_pcm start_abr_pcm
playing = history generous (connects ∷ start_session ∷ [])

history_feedback_example :
    (playing.dev.abr_enabled ≡ true)
    × (playing.dev.a2dp_started ≡ true)
    × (playing.dev.a2dp_suspended ≡ false)
unfolding playing
history_feedback_example = history_feedback generous (connects ∷ start_session ∷ []) refl

-- After the device has connected: the library is mapped and nothing plays.
ready : State
unfolding playing
ready = history generous (connects ∷ [])

ready-IsLinked : IsLinked ready
unfolding ready
ready-IsLinked = record { mapped = refl; has_start = refl; has_codec = refl; has_stop = refl }

playing-InSession : InSession playing
unfolding playing
playing-InSession = record {
  linked = record { mapped = refl; has_start = refl; has_codec = refl; has_stop = refl };
  awake = refl;
  playing = refl;
}

start_playback_lem_example :
    let u = (start_playback generous ready).1 in
    (starts u.calls ≡ starts ready.calls + (if is_first ready then 1 else 0))
    × (stops u.calls ≡ stops ready.calls)
    × (u.dev.total ≡ ready.dev.total + (if u.dev.a2dp_started then 1 else 0))
    × ((start_playback generous ready).0
        ≡ (if is_first ready && not u.dev.a2dp_started then etimedout else pos 0))
    × (is_first ready ≡ false → u.dev.a2dp_started ≡ ready.dev.a2dp_started)
unfolding ready
start_playback_lem_example = start_playback_lem generous ready ready-IsLinked refl

stop_playback_lem_example :
    let u = (stop_playback generous playing).1 in
    ((stop_playback generous playing).0 ≡ pos 0)
    × (u.dev.total ≡ playing.dev.total - 1)
    × (stops u.calls ≡ stops playing.calls + (if is_last playing then 1 else 0))
    × (starts u.calls ≡ starts playing.calls)
    × (u.dev.a2dp_started ≡ (playing.dev.a2dp_started && not (is_last playing)))
stop_playback_lem_example = stop_playback_lem generous playing playing-InSession.linked

-- The stream starts once and never again, and suspending leaves the sessions counted.
abbrev stubborn : Env
stubborn = record generous {
  result =
      λ t c. elim c [ stream_start ↦ if starts t == 0 then pos 0 else negsuc 0 | x ↦ answer t x ];
  restore = λ t id b. if b then start ∷ [] else [];
}

asleep : State
unfolding history apply apply_all init update_offload_codec_support common_init
    reset_enc_config_params set_bit_format write_ctl reset_dec_config_params set_parameters by_key
    device_connected open_output map_library load_symbols open_stream start_playback first_session
    begin_stream configure_encoder_format configure_codec configure_ldac ldac_enc_cfg commit program
    ldac_channels take_instance then_decoder configure_decoder_format enter_session
    check_and_set_scrambler set_backend_cfg start_abr paths_on open_abr_pcm start_abr_pcm
    set_suspended suspend restore_all session_ops reset_config end_abr stop_abr paths_off
    reset_backend_cfg
asleep = history stubborn (connects ∷ start_session ∷ suspends ∷ [])

resume_ignores_starts_example :
    let u = (resume stubborn music asleep).1 in
    ((resume stubborn music asleep).0 ≡ stubborn.result (cleared asleep).calls stream_start)
    × (u.dev.total ≡ asleep.dev.total)
    × (u.dev.a2dp_started ≡ false)
    × (session_ops stubborn (many_starts 3) u ≡ u)
    × (start_playback stubborn u ≡ (pos 0, u))
unfolding asleep
resume_ignores_starts_example =
    resume_ignores_starts stubborn (λ t id. refl) music 3 asleep
      (record { mapped = refl; has_start = refl; has_codec = refl; has_stop = refl }) (omega arith)
      refl

session_ops-sessions_example :
    let u = session_ops generous (start ∷ start ∷ stop ∷ []) playing in
    InSession u
    × (u.dev.total ≡ sessions (start ∷ start ∷ stop ∷ []) playing.dev.total)
    × (starts u.calls ≡ starts playing.calls)
    × (stops u.calls ≡ stops playing.calls)
unfolding playing
session_ops-sessions_example =
    session_ops-sessions generous (start ∷ start ∷ stop ∷ []) playing playing-InSession
      (omega arith)

abbrev mono_sbc : SbcConfig
mono_sbc = record {
  subband = 8;
  blk_len = 16;
  sampling_rate = 44100;
  channels = 0;
  alloc = 1;
  bitrate = 320000;
  bits_per_sample = 16;
}

configure_codec-negotiated_example :
    settings (configure_codec (sbc (some mono_sbc)) generous ready).1.dev
    ≡ (codec_type_sbc, 44100, 1)
unfolding ready configure_sbc
configure_codec-negotiated_example =
    configure_codec-negotiated generous (sbc (some mono_sbc)) ready refl
