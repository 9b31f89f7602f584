-- ===== src/A2dp/Session.antt =====
-- a2dp.c: playback sessions, suspension, the parameters and the queries of the extension.
use android_device_zte_fujis.Common.{
  ℕ, ◌+◌, ◌-◌, Bool, true, false, not, ◌&&◌, ◌||◌, Option, none, some, List, [], ◌∷◌, String, ℤ,
  pos, enosys, einval, etimedout, truthy, ◌==◌, if◌then◌else◌,
}
use text.Mathlib.Text.{◌==◌ as str_eq}
use android_device_zte_fujis.A2dp.Types.{A2dp, is_disconnected}
use android_device_zte_fujis.A2dp.Env.{
  Env, SessionOp, start, stop, enc_config_block, set_array, property_get_bool, stream_start,
  stream_stop, stream_suspend, clear_suspend_flag, check_ready, get_ctl, State, run, after,
}
use android_device_zte_fujis.A2dp.Types.{sbc_block, Payload}
use android_device_zte_fujis.A2dp.Backend.{
  set_bit_format, set_backend_cfg, reset_backend_cfg, check_and_set_scrambler,
  reset_dec_config_params,
}
use android_device_zte_fujis.A2dp.Abr.{start_abr, stop_abr}
use android_device_zte_fujis.A2dp.Encoder.{configure_encoder_format}
use android_device_zte_fujis.A2dp.Control.{common_init, open_output, close_output}

-- The zeroed `sbc_enc_cfg_t`.
abbrev pub zero_block : Payload
zero_block = sbc_block (record {
  enc_format = 0;
  num_subbands = 0;
  blk_len = 0;
  channel_mode = 0;
  alloc_method = 0;
  bit_rate = 0;
  sample_rate = 0;
})

-- The format is ENC_MEDIA_FMT_NONE afterwards where the control exists, written or not.
unfoldable pub reset_enc_config_params : Env → State → ℤ × State
reset_enc_config_params e s =
    let t = get_ctl enc_config_block ∷ s.calls in
    run (set_bit_format 16) e (
      if truthy (e.result s.calls (get_ctl enc_config_block))
      then record {
        dev = record s.dev { encoder_format = 0 };
        calls = set_array enc_config_block zero_block ∷ t;
      }
      else record s { calls = t })

-- The end of `reset_a2dp_config`.
unfoldable pub end_abr : Env → State → State
end_abr e s =
    let s' = if s.dev.abr_enabled && s.dev.abr_started then (stop_abr e s).1 else s in
    record s' { dev = record s'.dev { abr_enabled = false } }

unfoldable pub reset_config : Env → State → State
reset_config e s =
    let s1 = (reset_enc_config_params e s).1 in
    let s2 = (run (reset_dec_config_params s1.dev) e s1).1 in
    let s3 = (run (reset_backend_cfg s2.dev) e s2).1 in end_abr e s3

-- The Bluetooth stream is asked to start, and the encoder is configured if it did.
unfoldable pub begin_stream : Env → State → ℤ × State
begin_stream e s =
    let s1 = after stream_start s in
    let c = configure_encoder_format e s1 in
    if truthy (e.result s.calls stream_start)
    then (etimedout, record s1 { dev = record s1.dev { a2dp_started = false } })
    else (
      if c.0 then pos 0 else etimedout,
      record c.1 { dev = record c.1.dev { a2dp_started = c.0 } },
    )

-- The block under `if (a2dp.a2dp_started)` at the end of a start.
unfoldable pub enter_session : Env → State → State
enter_session e s =
    let s1 = record s { dev = record s.dev { total = s.dev.total + 1 } } in
    let s2 = (run (check_and_set_scrambler s1.dev) e s1).1 in
    let s3 = (run (set_backend_cfg s2.dev) e s2).1 in
    if s3.dev.abr_enabled then (start_abr e s3).1 else s3

-- The middle of `audio_extn_a2dp_start_playback`: the stream starts with the first session.
unfoldable pub first_session : Env → State → ℤ × State
first_session e s =
    if not s.dev.a2dp_started && s.dev.total == 0 then begin_stream e s else (pos 0, s)

unfoldable pub start_playback : Env → State → ℤ × State
start_playback e s =
    let r = first_session e s in
    if not (s.dev.lib && s.dev.syms.audio_stream_start && s.dev.syms.audio_get_codec_config)
    then (enosys, s)
    else if s.dev.a2dp_suspended
    then (enosys, s)
    else (r.0, if r.1.dev.a2dp_started then enter_session e r.1 else r.1)

-- The stream stops with the last session. While suspended the DSP is left as it is.
unfoldable pub end_stream : Env → State → State
end_stream e s =
    let s1 = after stream_stop s in
    let s2 = if s.dev.a2dp_suspended then s1 else reset_config e s1 in
    record s2 { dev = record s2.dev { a2dp_started = false } }

unfoldable pub stop_playback : Env → State → ℤ × State
stop_playback e s =
    let s1 = record s { dev = record s.dev { total = s.dev.total - 1 } } in
    if not (s.dev.lib && s.dev.syms.audio_stream_stop)
    then (enosys, s)
    else (pos 0, if s1.dev.a2dp_started && s1.dev.total == 0 then end_stream e s1 else s1)

-- What `check_a2dp_restore` may do.
unfoldable pub session_op : Env → SessionOp → State → State
session_op e start s = (start_playback e s).1
session_op e stop s = (stop_playback e s).1

unfoldable pub session_ops : Env → List SessionOp → State → State
session_ops e [] s = s
session_ops e (o ∷ os) s = session_ops e os (session_op e o s)

-- The fields of `struct audio_usecase` that are read: its number, whether it is PCM_PLAYBACK, and
-- whether its stream goes to an A2DP device.
pub record Usecase : Type 0 where
  pub id : ℕ
  pub is_playback : Bool
  pub on_a2dp : Bool

-- The loop over the usecases.
unfoldable pub restore_all : Env → Bool → List Usecase → State → State
restore_all e b [] s = s
restore_all e b (u ∷ us) s =
    restore_all e b us
      (if u.is_playback && u.on_a2dp then session_ops e (e.restore s.calls u.id b) s else s)

unfoldable pub suspend : Env → List Usecase → State → State
suspend e us s =
    let s1 = record s { dev = record s.dev { a2dp_suspended = true } } in
    let s2 = reset_config e (restore_all e false us s1) in
    if s2.dev.syms.audio_stream_suspend then after stream_suspend s2 else s2

-- The stream is started again for the sessions that outlived the suspension.
unfoldable pub restart_stream : Env → State → ℤ × State
restart_stream e s =
    let s1 = after stream_start s in
    let r = e.result s.calls stream_start in
    let c = configure_encoder_format e s1 in
    if not s.dev.syms.audio_stream_start
    then (pos 0, s)
    else if truthy r
    then (r, record s1 { dev = record s1.dev { a2dp_started = false } })
    else if c.0
    then (pos 0, c.1)
    else (etimedout, record c.1 { dev = record c.1.dev { a2dp_started = false } })

unfoldable pub rejoin_sessions : Env → State → ℤ × State
rejoin_sessions e s =
    let r = restart_stream e s in
    let s2 = (run (set_backend_cfg r.1.dev) e r.1).1 in
    if s.dev.total == 0
    then (pos 0, s)
    else if r.1.dev.a2dp_started
    then (r.0, if s2.dev.abr_enabled then (start_abr e s2).1 else s2)
    else r

unfoldable pub resume : Env → List Usecase → State → ℤ × State
resume e us s =
    let s1 = if s.dev.syms.clear_a2dp_suspend_flag then after clear_suspend_flag s else s in
    let r = rejoin_sessions e (record s1 { dev = record s1.dev { a2dp_suspended = false } }) in
    (r.0, restore_all e true us r.1)

-- The keys that `audio_extn_a2dp_set_parameters` looks for; the devices are what `atoi` gives.
pub record Parms : Type 0 where
  pub device_connect : Option ℕ
  pub device_disconnect : Option ℕ
  pub a2dp_suspended : Option String
  pub reconfig_a2dp : Bool

-- The status, whether `*reconfig` is set to true, and the state.
pub record Outcome : Type 0 where
  pub status : ℤ
  pub reconfig : Bool
  pub state : State

abbrev pub handled : State → Outcome
handled s = record { status = pos 0; reconfig = false; state = s }

unfoldable pub set_suspended : Env → List Usecase → String → State → Outcome
set_suspended e us v s =
    let r = resume e us s in
    if not (s.dev.lib && not (is_disconnected s.dev.bt_state))
    then handled s
    else if str_eq v "true"
    then handled (if s.dev.a2dp_suspended then s else suspend e us s)
    else if s.dev.a2dp_suspended
    then record { status = r.0; reconfig = false; state = r.1 }
    else handled s

unfoldable pub device_connected : Env → ℕ → State → State
device_connected e d s = if e.is_a2dp_out_device d then (open_output e s).1 else s

unfoldable pub device_disconnected : Env → ℕ → State → State
device_disconnected e d s =
    if e.is_a2dp_out_device d then (close_output e (reset_config e s)).1 else s

-- The first key that is present decides.
unfoldable pub by_key :
    Env → List Usecase → Option ℕ → Option ℕ → Option String → Bool → State → Outcome
by_key e us (some d) _ _ _ s = handled (device_connected e d s)
by_key e us none (some d) _ _ s = handled (device_disconnected e d s)
by_key e us none none (some v) _ s = set_suspended e us v s
by_key e us none none none b s = record {
  status = pos 0;
  reconfig = b && (s.dev.offload_enabled && not (is_disconnected s.dev.bt_state));
  state = s;
}

unfoldable pub set_parameters : Env → List Usecase → Parms → State → Outcome
set_parameters e us p s =
    if not s.dev.offload_enabled
    then record { status = einval; reconfig = false; state = s }
    else by_key e us p.device_connect p.device_disconnect p.a2dp_suspended p.reconfig_a2dp s

unfoldable pub set_handoff_mode : Bool → State → State
set_handoff_mode b s = record s { dev = record s.dev { handoff = b } }

unfoldable pub is_force_device_switch : A2dp → Bool
is_force_device_switch a = a.handoff || not a.a2dp_started

unfoldable pub is_ready : Env → State → Bool × State
is_ready e s =
    if s.dev.a2dp_suspended
    then (false, s)
    else if not (is_disconnected s.dev.bt_state)
        && s.dev.offload_enabled
        && s.dev.syms.audio_check_a2dp_ready
    then (truthy (e.result s.calls check_ready), after check_ready s)
    else (false, s)

abbrev offload_supported : String
offload_supported = "ro.bluetooth.a2dp_offload.supported"

abbrev offload_disabled : String
offload_disabled = "persist.bluetooth.a2dp_offload.disabled"

-- The second property is read only where the first is set.
unfoldable pub update_offload_codec_support : Env → State → State
update_offload_codec_support e s =
    let s1 = after (property_get_bool offload_supported) s in
    let s2 = after (property_get_bool offload_disabled) s1 in
    if truthy (e.result s.calls (property_get_bool offload_supported))
    then record s2 {
      dev = record s.dev {
        offload_enabled = not (truthy (e.result s1.calls (property_get_bool offload_disabled)));
      };
    }
    else record s1 { dev = record s.dev { offload_enabled = false } }

unfoldable pub init : Env → State → State
init e s =
    let s1 = record s {
      dev = record (common_init (record s.dev { lib = false })) {
        enc_sampling_rate = 48000;
        offload_enabled = false;
        handoff = false;
        dual_mono = false;
      };
    } in
    let s2 = (reset_enc_config_params e s1).1 in
    let s3 = (run (reset_dec_config_params s2.dev) e s2).1 in update_offload_codec_support e s3
