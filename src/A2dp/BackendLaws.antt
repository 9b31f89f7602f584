-- ===== src/A2dp/BackendLaws.antt =====
-- What the backend routines leave in the mixer.
use android_device_zte_fujis.Common.{
  Bool-cases, ℕ, ◌≡◌, refl, Bool, true, false, ◌||◌, ◌==◌, ◌∷◌, String, pos, enosys, arith,
  if◌then◌else◌, ◌⊎◌, inl, inr,
}
use android_device_zte_fujis.A2dp.Types.{A2dp, codec_type_ldac, codec_type_pcm}
use android_device_zte_fujis.A2dp.Env.{
  Routine, ◌>>◌, when, Env, Trace, Ctl, set_enum, get_ctl, write_ctl, sample_rate_rx,
  sample_rate_tx, afe_in_channels,
}
use android_device_zte_fujis.A2dp.Backend.{
  choose, rx_rate, rate_str, in_channels, set_backend_cfg, reset_backend_cfg,
}

-- The routine fails with -ENOSYS, or returns 0 after the calls that lead from `t` to `u`.
pub record Writes (m : Routine) (e : Env) (t u : Trace) : Type 0 where
  pub ends : ((m e t).0 ≡ enosys) ⊎ ((m e t).0 ≡ pos 0) × ((m e t).1 ≡ u)

abbrev pub chosen : Ctl → String → Trace → Trace
chosen c n t = set_enum c n ∷ get_ctl c ∷ t

choose-Writes :
    (c : Ctl) (n : String) {e : Env} {t : Trace} → Writes (choose c n) e t (chosen c n t)
unfolding write_ctl
choose-Writes c n = record { ends = ground arith }

then-Writes :
    {m k : Routine} {e : Env} {t u w : Trace}
    → Writes m e t u
    → Writes k e u w
    → Writes (m >> k) e t w
then-Writes p q = record { ends = ground (arith, p.ends, q.ends) }

when-Writes :
    (b : Bool) {m : Routine} {e : Env} {t u : Trace}
    → Writes m e t u
    → Writes (when b m) e t (if b then u else t)
when-Writes true p = p
when-Writes false p = record { ends = inr (refl, refl) }

-- The port's rate: LDAC input at 44.1 and 48 kHz doubled, other input as it is, and 48 kHz for any
-- rate that the port does not have.
abbrev pub port_rate : (is_ldac : Bool) → ℕ → String
port_rate true rate =
    if rate == 44100 || rate == 88200
    then "KHZ_88P2"
    else if rate == 48000 || rate == 96000
    then "KHZ_96"
    else "KHZ_48"
port_rate false rate =
    if rate == 44100
    then "KHZ_44P1"
    else if rate == 88200
    then "KHZ_88P2"
    else if rate == 96000
    then "KHZ_96"
    else "KHZ_48"

rate_str-rx_rate :
    (format rate : ℕ) → rate_str (rx_rate format rate) ≡ port_rate (format == codec_type_ldac) rate
unfolding rate_str rx_rate
rate_str-rx_rate format rate = ground arith

-- The write of the feedback's rate, where ABR is enabled.
abbrev pub feedback_rate : A2dp → Trace → Trace
feedback_rate a t = if a.abr_enabled then chosen sample_rate_tx "KHZ_8" t else t

-- Setting the backend returns 0 or -ENOSYS. It makes no call for PCM. For any other format, if it
-- returns 0 then its calls are exactly the writes of the port's rate, of the feedback's rate if ABR
-- is enabled, and of the number of channels, "One" for one and "Two" for any other.
set_backend_cfg_lem :
    (a : A2dp) (e : Env) (t : Trace)
    → Writes (set_backend_cfg a) e t (
        if a.encoder_format == codec_type_pcm
        then t
        else chosen afe_in_channels (if a.enc_channels == 1 then "One" else "Two") (
            feedback_rate a (
              chosen sample_rate_rx
                (port_rate (a.encoder_format == codec_type_ldac) a.enc_sampling_rate)
                t)))
unfolding set_backend_cfg in_channels
set_backend_cfg_lem a e t = elim (Bool-cases (a.encoder_format == codec_type_pcm)) [
  | inl is_pcm ↦ rw is_pcm (record { ends = inr (refl, refl) })
  | inr other ↦ rw other (
      rw (← rate_str-rx_rate a.encoder_format a.enc_sampling_rate) (
        then-Writes (choose-Writes sample_rate_rx _) (
          then-Writes (when-Writes a.abr_enabled (choose-Writes sample_rate_tx "KHZ_8"))
            (choose-Writes afe_in_channels _))))
]

-- Resetting the backend returns 0 or -ENOSYS; if it returns 0 then its calls are exactly the writes
-- of 8 kHz to the port, and to the feedback if ABR is enabled, and of no channel.
reset_backend_cfg_lem :
    (a : A2dp) (e : Env) (t : Trace)
    → Writes
        (reset_backend_cfg a)
        e
        t
        (chosen afe_in_channels "Zero" (feedback_rate a (chosen sample_rate_rx "KHZ_8" t)))
unfolding reset_backend_cfg
reset_backend_cfg_lem a e t = then-Writes (choose-Writes sample_rate_rx _) (
    then-Writes (when-Writes a.abr_enabled (choose-Writes sample_rate_tx _))
      (choose-Writes afe_in_channels _))
