-- ===== src/A2dp/BackendNeutral.antt =====
-- The mixer routines take and release no resource, and call nothing that the library must be mapped
-- for but the scrambler's query, which is made only while the library is mapped.
use android_device_zte_fujis.Common.{ℕ, Bool, true, false, arith, if◌then◌else◌, String}
use android_device_zte_fujis.A2dp.Types.{A2dp}
use android_device_zte_fujis.A2dp.Env.{Ctl, Routine, set_enum, any_failure}
use android_device_zte_fujis.A2dp.Backend.{
  choose, set_backend_cfg, set_bit_format, reset_backend_cfg, configure_decoder_format,
  reset_dec_config_params,
}
use android_device_zte_fujis.A2dp.Resources.{
  IsNeutral, pass-IsNeutral, then-IsNeutral, when-IsNeutral, write_ctl-IsNeutral,
}

choose-IsNeutral : (c : Ctl) (s : String) → IsNeutral (choose c s)
choose-IsNeutral c s = write_ctl-IsNeutral any_failure c (set_enum c s) tt

if-IsNeutral :
    (b : Bool) {m k : Routine} → IsNeutral m → IsNeutral k → IsNeutral (if b then m else k)
if-IsNeutral true p q = p
if-IsNeutral false p q = q

ruleset neutral = (pass-IsNeutral, then-IsNeutral, when-IsNeutral, choose-IsNeutral, if-IsNeutral)

pub set_bit_format-IsNeutral : (n : ℕ) → IsNeutral (set_bit_format n)
unfolding set_bit_format
set_bit_format-IsNeutral n = choose-IsNeutral _ _

pub set_backend_cfg-IsNeutral : (a : A2dp) → IsNeutral (set_backend_cfg a)
unfolding set_backend_cfg
set_backend_cfg-IsNeutral a = search neutral

pub reset_backend_cfg-IsNeutral : (a : A2dp) → IsNeutral (reset_backend_cfg a)
unfolding reset_backend_cfg
reset_backend_cfg-IsNeutral a = search neutral

pub configure_decoder_format-IsNeutral :
    (a : A2dp) (f : ℕ) → IsNeutral (configure_decoder_format a f)
unfolding configure_decoder_format
configure_decoder_format-IsNeutral a f = when-IsNeutral _ (write_ctl-IsNeutral _ _ _ tt)

pub reset_dec_config_params-IsNeutral : (a : A2dp) → IsNeutral (reset_dec_config_params a)
unfolding reset_dec_config_params
reset_dec_config_params-IsNeutral a = record { same = λ e t. ground arith }
