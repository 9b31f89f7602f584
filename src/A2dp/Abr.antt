-- ===== src/A2dp/Abr.antt =====
-- a2dp.c, `stop_abr` and `start_abr`: the PCM and the mixer paths of the adaptive bit rate feedback.
use android_device_zte_fujis.Common.{
  ℕ, Bool, true, false, not, ◌∷◌, ℤ, pos, enosys, truthy, is_neg, if◌then◌else◌,
}
use android_device_zte_fujis.A2dp.Env.{
  Env, Ctl, abr_tx_feedback_path, set_feedback_channel, set_value, pcm_open, pcm_is_ready,
  pcm_start, pcm_close, Routine, ◌>>◌, write_ctl, any_failure, State, run, after,
}

abbrev pub switch : Ctl → ℕ → Routine
switch c v = write_ctl any_failure c (set_value c v)

unfoldable pub paths_off : Routine
paths_off = do switch set_feedback_channel 0; switch abr_tx_feedback_path 0

unfoldable pub paths_on : Routine
paths_on = do switch abr_tx_feedback_path 1; switch set_feedback_channel 1

unfoldable pub stop_abr : Env → State → ℤ × State
stop_abr e s = run paths_off e (record s {
  dev = record s.dev { abr_handle = false; abr_started = false; imc_instance = 0 };
  calls = if s.dev.abr_handle then pcm_close ∷ s.calls else s.calls;
})

-- The block under `if (!a2dp.abr_config.abr_tx_handle)`: false where it jumps to `fail`.
unfoldable pub open_abr_pcm : Env → State → Bool × State
open_abr_pcm e s =
    if s.dev.abr_handle
    then (true, s)
    else if truthy (e.result s.calls pcm_open)
    then (
      truthy (e.result (pcm_open ∷ s.calls) pcm_is_ready),
      record s {
        dev = record s.dev { abr_handle = true };
        calls = pcm_is_ready ∷ pcm_open ∷ s.calls;
      },
    )
    else (false, after pcm_open s)

-- The label `fail`.
unfoldable pub fail_abr : Env → State → ℤ × State
fail_abr e s = (enosys, (stop_abr e s).1)

unfoldable pub start_abr_pcm : Env → State → ℤ × State
start_abr_pcm e s =
    let r = e.result s.calls pcm_start in
    if is_neg r
    then fail_abr e (after pcm_start s)
    else (r, record s { dev = record s.dev { abr_started = true }; calls = pcm_start ∷ s.calls })

unfoldable pub start_abr : Env → State → ℤ × State
start_abr e s =
    if not s.dev.abr_enabled
    then (enosys, s)
    else if s.dev.abr_started
    then (pos 0, s)
    else let paths = run paths_on e s in
      let opened = open_abr_pcm e paths.1 in
      if truthy paths.0
      then paths
      else if opened.0
      then start_abr_pcm e opened.1
      else fail_abr e opened.1
