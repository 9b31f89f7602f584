-- ===== src/A2dp/Sound.antt =====
-- The invariant between the operations that the audio HAL calls, and every history of them.
use android_device_zte_fujis.Common.{
  ◌≡◌, refl, Bool, true, false, not, ◌&&◌, ◌==◌, List, arith, if_at, truthy, String, ℤ,
  if◌then◌else◌,
}
use android_device_zte_fujis.A2dp.Types.{is_disconnected}
use android_device_zte_fujis.A2dp.Env.{
  Env, State, after, stream_start, stream_suspend, clear_suspend_flag, dlopen, property_get_bool,
  stream_open,
}
use android_device_zte_fujis.A2dp.BackendNeutral.{set_backend_cfg-IsNeutral}
use android_device_zte_fujis.A2dp.Encoder.{configure_encoder_format}
use android_device_zte_fujis.A2dp.Control.{
  common_init, load_symbols, open_stream, map_library, open_output, close_output, hal_disabled,
}
use android_device_zte_fujis.A2dp.Session.{
  Usecase, suspend, restart_stream, rejoin_sessions, resume,
}
use android_device_zte_fujis.A2dp.Invariant.{Inv, Inv-run}
use android_device_zte_fujis.A2dp.InvariantEncoder.{Idle, configure_encoder_format-Idle}
use android_device_zte_fujis.A2dp.InvariantSession.{
  reset_config-Idle, abr_or_not-Inv, restore_all-Inv,
}

-- Between two operations no feedback runs while suspended.
pub record IsSound (e : Env) (s : State) : Type 0 where
  pub inv : Inv e s.dev.lib s.dev.a2dp_suspended s
  pub quiet : s.dev.a2dp_suspended ≡ true → s.dev.abr_started ≡ false

module _ {e : Env} {lib suspended : Bool} where
  Idle-IsSound : {s : State} → Idle e lib suspended s → IsSound e s
  Idle-IsSound v = ground arith

  pub awake-IsSound : {s : State} → suspended ≡ false → Inv e lib suspended s → IsSound e s
  awake-IsSound awake v = ground arith

module _ {e : Env} where
  notify-IsSound :
      (r : State)
      → Idle e true true r
      → IsSound e (if r.dev.syms.audio_stream_suspend then after stream_suspend r else r)
  notify-IsSound r v =
      if_at (IsSound e) r.dev.syms.audio_stream_suspend _ _ (λ _. ground arith)
        (λ _. Idle-IsSound v)

  pub suspend-IsSound :
      (us : List Usecase) (s : State) → s.dev.lib ≡ true → IsSound e s → IsSound e (suspend e us s)
  unfolding suspend
  suspend-IsSound us s mapped v =
      let marked : Inv e true true (record s { dev = record s.dev { a2dp_suspended = true } }) =
        ground (arith, v.inv) in
      let reset = reset_config-Idle _ (restore_all-Inv false us _ marked) in notify-IsSound _ reset

  restart_stream-Inv : (s : State) → Idle e true false s → Inv e true false (restart_stream e s).1
  unfolding restart_stream
  restart_stream-Inv s v =
      let P : ℤ × State → Type 0 = λ r. Inv e true false r.1 in
      let asked : Idle e true false (after stream_start s) = ground arith in
      let done = configure_encoder_format-Idle (after stream_start s) refl asked in
      if_at P (not s.dev.syms.audio_stream_start) _ _ (λ _. v.inv)
        (λ _.
          if_at P (truthy (e.result s.calls stream_start)) _ _ (λ _. ground arith)
            (λ _.
              if_at P (configure_encoder_format e (after stream_start s)).0 _ _ (λ _. done.inv)
                (λ _. ground (arith, done))))

  rejoin_sessions-Inv : (s : State) → Idle e true false s → Inv e true false (rejoin_sessions e s).1
  unfolding rejoin_sessions
  rejoin_sessions-Inv s v =
      let P : ℤ × State → Type 0 = λ r. Inv e true false r.1 in
      let again = restart_stream-Inv s v in
      if_at P (s.dev.total == 0) _ _ (λ _. v.inv)
        (λ _.
          if_at P (restart_stream e s).1.dev.a2dp_started _ _
            (λ started. abr_or_not-Inv _ started (Inv-run _ (set_backend_cfg-IsNeutral _) again))
            (λ _. again))

  pub resume-IsSound :
      (us : List Usecase) (s : State)
      → s.dev.lib ≡ true
      → s.dev.a2dp_suspended ≡ true
      → IsSound e s
      → IsSound e (resume e us s).1
  unfolding resume
  resume-IsSound us s mapped asleep v =
      let cleared : (b : Bool)
          → Idle e true false (
              let t = if b then after clear_suspend_flag s else s in
              record t { dev = record t.dev { a2dp_suspended = false } }) =
        λ b. ground (arith, v.inv) in
      awake-IsSound refl (
        restore_all-Inv true us _
          (rejoin_sessions-Inv _ (cleared s.dev.syms.clear_a2dp_suspend_flag)))

  open_stream-IsSound : (s : State) → IsSound e s → IsSound e (open_stream e s).1
  unfolding open_stream
  open_stream-IsSound s v =
      if_at (λ (r : ℤ × State). IsSound e r.1) (s.dev.lib && s.dev.syms.audio_stream_open) _ _
        (λ linked.
          if_at (IsSound e) (truthy (e.result s.calls stream_open)) _ _ (λ _. ground (arith, v.inv))
            (λ _. ground (arith, v.inv)))
        (λ _. ground (arith, v.inv))

  load_symbols-IsSound :
      (s : State) (name : String)
      → IsSound e s
      → s.dev.lib ≡ false
      → truthy (e.result s.calls (dlopen name)) ≡ true
      → IsSound e (load_symbols e (after (dlopen name) s))
  unfolding load_symbols
  load_symbols-IsSound s name v unmapped found = ground (arith, v.inv)

  map_library-IsSound :
      (name : String) (s : State) → IsSound e s → IsSound e (map_library e name s).1
  unfolding map_library
  map_library-IsSound name s v =
      let P : ℤ × State → Type 0 = λ r. IsSound e r.1 in
      if_at P s.dev.lib _ _ (λ _. open_stream-IsSound s v)
        (λ unmapped.
          if_at P (truthy (e.result s.calls (dlopen name))) _ _
            (λ found. open_stream-IsSound _ (load_symbols-IsSound s name v unmapped found))
            (λ missing. ground (arith, v.inv)))

  pub open_output-IsSound : (s : State) → IsSound e s → IsSound e (open_output e s).1
  unfolding open_output
  open_output-IsSound s v =
      let read : IsSound e (after (property_get_bool hal_disabled) s) = ground (arith, v.inv) in
      if_at (λ (r : ℤ × State). IsSound e r.1) (is_disconnected s.dev.bt_state) _ _
        (λ _. map_library-IsSound _ _ read) (λ _. read)

  pub close_output-IsSound :
      {lib suspended : Bool} (s : State) → Idle e lib suspended s → IsSound e (close_output e s).1
  unfolding close_output common_init
  close_output-IsSound s v = ground (arith, v.inv)
