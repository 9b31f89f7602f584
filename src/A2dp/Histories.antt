-- ===== src/A2dp/Histories.antt =====
-- Every history of operations that the audio HAL can make on a2dp.c.
use android_device_zte_fujis.Common.{
  ℕ, ◌≡◌, Bool, true, false, not, ◌&&◌, ◌∷◌, [], List, some, none, Option, arith, if_at, Bool-cases,
  inl, inr, String, if◌then◌else◌,
}
use text.Mathlib.Text.{◌==◌ as str_eq}
use android_device_zte_fujis.A2dp.Types.{connected, is_disconnected, max_instance_id}
use android_device_zte_fujis.A2dp.Env.{Env, State}
use android_device_zte_fujis.A2dp.Resources.{loaded, legal, open_pcms}
use android_device_zte_fujis.A2dp.Session.{
  start_playback, stop_playback, end_stream, Usecase, Parms, Outcome, set_suspended,
  device_connected, device_disconnected, by_key, set_parameters, set_handoff_mode, is_ready,
  update_offload_codec_support, init,
}
use android_device_zte_fujis.A2dp.Latency.{get_encoder_latency, sink_latency_of}
use android_device_zte_fujis.A2dp.Control.{common_init}
use android_device_zte_fujis.A2dp.BackendNeutral.{reset_dec_config_params-IsNeutral}
use android_device_zte_fujis.A2dp.Invariant.{Inv, Inv-run}
use android_device_zte_fujis.A2dp.InvariantSession.{
  reset_enc_config_params-Inv, reset_config-Idle, start_playback-Inv, stop_playback-Inv,
}
use android_device_zte_fujis.A2dp.Sound.{
  IsSound, suspend-IsSound, resume-IsSound, open_output-IsSound, close_output-IsSound,
  awake-IsSound,
}

pub data Operation : Type 0 where
  start_session stop_session query_ready query_latency : Operation
  set_parms : List Usecase → Parms → Operation
  set_handoff : Bool → Operation

unfoldable pub apply : Env → Operation → State → State
apply e start_session s = (start_playback e s).1
apply e stop_session s = (stop_playback e s).1
apply e query_ready s = (is_ready e s).1
apply e query_latency s = (get_encoder_latency e s).1
apply e (set_parms us p) s = (set_parameters e us p s).state
apply e (set_handoff b) s = set_handoff_mode b s

unfoldable pub apply_all : Env → List Operation → State → State
apply_all e [] s = s
apply_all e (o ∷ os) s = apply_all e os (apply e o s)

-- The static data before `audio_extn_a2dp_init`: zeroes, but for `instance_id`.
abbrev pub power_on : State
power_on = record {
  dev = record {
    lib = false;
    syms = record {
      audio_stream_open = false;
      audio_stream_start = false;
      audio_get_codec_config = false;
      audio_stream_suspend = false;
      audio_handoff_triggered = false;
      clear_a2dp_suspend_flag = false;
      audio_stream_stop = false;
      audio_stream_close = false;
      audio_check_a2dp_ready = false;
      audio_is_scrambling_enabled = false;
      audio_get_a2dp_sink_latency = false;
    };
    bt_state = connected;
    encoder_format = 0;
    enc_sampling_rate = 0;
    enc_channels = 0;
    a2dp_started = false;
    a2dp_suspended = false;
    total = 0;
    offload_enabled = false;
    handoff = false;
    dual_mono = false;
    abr_enabled = false;
    abr_started = false;
    abr_handle = false;
    imc_instance = 0;
    instance_id = max_instance_id;
  };
  calls = [];
}

unfoldable pub history : Env → List Operation → State
history e os = apply_all e os (init e power_on)

start_asleep : (e : Env) (s : State) → s.dev.a2dp_suspended ≡ true → (start_playback e s).1 ≡ s
unfolding start_playback
start_asleep e s asleep = ground arith

stop_asleep :
    (e : Env) (s : State)
    → s.dev.a2dp_suspended ≡ true
    → (stop_playback e s).1.dev.abr_started ≡ s.dev.abr_started
unfolding stop_playback end_stream
stop_asleep e s asleep = ground arith

initialised :
    (e : Env)
    → Inv e false false
        (record power_on { dev = record (common_init power_on.dev) { enc_sampling_rate = 48000 } })
unfolding common_init
initialised e = ground arith

update_offload-IsSound :
    (e : Env) (s : State) → Inv e false false s → IsSound e (update_offload_codec_support e s)
unfolding update_offload_codec_support
update_offload-IsSound e s v = ground arith

init-IsSound : (e : Env) → IsSound e (init e power_on)
unfolding init common_init
init-IsSound e =
    update_offload-IsSound e _ (
      Inv-run _ (reset_dec_config_params-IsNeutral _) (reset_enc_config_params-Inv (initialised e)))

module _ {e : Env} where
  start_playback-IsSound : (s : State) → IsSound e s → IsSound e (start_playback e s).1
  start_playback-IsSound s v = elim (Bool-cases s.dev.a2dp_suspended) [
    | inl asleep ↦ ground (arith, start_asleep e s asleep)
    | inr awake ↦ awake-IsSound awake (start_playback-Inv s v.inv)
  ]

  stop_playback-IsSound : (s : State) → IsSound e s → IsSound e (stop_playback e s).1
  stop_playback-IsSound s v = ground (arith, stop_playback-Inv s v.inv, stop_asleep e s)

  set_suspended-IsSound :
      (us : List Usecase) (v : String) (s : State)
      → IsSound e s
      → IsSound e (set_suspended e us v s).state
  unfolding set_suspended
  set_suspended-IsSound us v s i =
      let P : Outcome → Type 0 = λ o. IsSound e o.state in
      if_at P (not (s.dev.lib && not (is_disconnected s.dev.bt_state))) _ _ (λ _. i)
        (λ ready.
          if_at P (str_eq v "true") _ _
            (λ _.
              if_at (IsSound e) s.dev.a2dp_suspended _ _ (λ _. i)
                (λ _. suspend-IsSound us s (ground arith) i))
            (λ _.
              if_at P s.dev.a2dp_suspended _ _
                (λ asleep. resume-IsSound us s (ground arith) asleep i) (λ _. i)))

  by_key-IsSound :
      (us : List Usecase) (c d : Option ℕ) (v : Option String) (b : Bool) (s : State)
      → IsSound e s
      → IsSound e (by_key e us c d v b s).state
  unfolding by_key device_connected device_disconnected
  by_key-IsSound us (some x) d v b s i =
      if_at (IsSound e) (e.is_a2dp_out_device x) _ _ (λ _. open_output-IsSound s i) (λ _. i)
  by_key-IsSound us none (some x) v b s i =
      if_at (IsSound e) (e.is_a2dp_out_device x) _ _
        (λ _. close_output-IsSound _ (reset_config-Idle s i.inv)) (λ _. i)
  by_key-IsSound us none none (some v) b s i = set_suspended-IsSound us v s i
  by_key-IsSound us none none none b s i = i

  set_parameters-IsSound :
      (us : List Usecase) (p : Parms) (s : State)
      → IsSound e s
      → IsSound e (set_parameters e us p s).state
  unfolding set_parameters
  set_parameters-IsSound us p s i =
      if_at (λ (o : Outcome). IsSound e o.state) (not s.dev.offload_enabled) _ _ (λ _. i)
        (λ _. by_key-IsSound us _ _ _ _ s i)

  is_ready-IsSound : (s : State) → IsSound e s → IsSound e (is_ready e s).1
  unfolding is_ready
  is_ready-IsSound s i = ground (arith, i.inv)

  get_encoder_latency-IsSound : (s : State) → IsSound e s → IsSound e (get_encoder_latency e s).1
  unfolding get_encoder_latency sink_latency_of
  get_encoder_latency-IsSound s i = ground (arith, i.inv)

  apply-IsSound : (o : Operation) (s : State) → IsSound e s → IsSound e (apply e o s)
  unfolding apply set_handoff_mode
  apply-IsSound start_session s i = start_playback-IsSound s i
  apply-IsSound stop_session s i = stop_playback-IsSound s i
  apply-IsSound query_ready s i = is_ready-IsSound s i
  apply-IsSound query_latency s i = get_encoder_latency-IsSound s i
  apply-IsSound (set_parms us p) s i = set_parameters-IsSound us p s i
  apply-IsSound (set_handoff b) s i = ground (arith, i.inv)

  apply_all-IsSound : (os : List Operation) (s : State) → IsSound e s → IsSound e (apply_all e os s)
  unfolding apply_all
  apply_all-IsSound [] s i = i
  apply_all-IsSound (o ∷ os) s i = apply_all-IsSound os _ (apply-IsSound o s i)

  pub history-IsSound : (os : List Operation) → IsSound e (history e os)
  unfolding history
  history-IsSound os = apply_all-IsSound os _ (init-IsSound e)

-- In every history, each call of the Bluetooth library is made while the library is mapped, the
-- library is never mapped twice, and the feedback PCM is opened only when none is open, and started
-- and closed only when one is.
pub history-legal : (e : Env) (os : List Operation) → legal e (history e os).calls ≡ true
history-legal e os = (history-IsSound os).inv.calls_legal

-- After every history, the library is mapped exactly when the state says so, and the number of open
-- feedback PCMs is 1 where the feedback is started and 0 where it is not: none leaks.
pub history_no_leak :
    (e : Env) (os : List Operation)
    → let s = history e os in
      (loaded e s.calls ≡ s.dev.lib) × (open_pcms e s.calls ≡ (if s.dev.abr_started then 1 else 0))
history_no_leak e os = let i = (history-IsSound {e = e} os).inv in (i.loaded_is, ground (arith, i))

-- After every history in which the feedback is started, it is enabled, and playback is started and
-- not suspended.
pub history_feedback :
    (e : Env) (os : List Operation)
    → (history e os).dev.abr_started ≡ true
    → let s = history e os in
      (s.dev.abr_enabled ≡ true) × (s.dev.a2dp_started ≡ true) × (s.dev.a2dp_suspended ≡ false)
history_feedback e os on = let v = history-IsSound {e = e} os in ground (arith, v, v.inv)
