-- ===== src/A2dp/Instances.antt =====
-- The identifiers that pair the encoder of an LDAC stream with the decoder of its feedback.
use android_device_zte_fujis.Common.{
  ℕ, zero, suc, ◌-◌, ◌<◌, ◌≤◌, ◌≡◌, refl, Bool, true, false, ◌==◌, ◌∷◌, some, arith, if◌then◌else◌,
  ◌∙◌,
}
use android_device_zte_fujis.A2dp.Types.{
  A2dp, ldac, LdacConfig, ldac_block, dec_block, codec_type_ldac, max_instance_id,
}
use android_device_zte_fujis.A2dp.Env.{Env, State, get_ctl, set_array, dec_config_block}
use android_device_zte_fujis.A2dp.Backend.{imc_info, imc_transmit, imc_receive}
use android_device_zte_fujis.A2dp.Encoder.{
  ldac_enc_cfg, take_instance, configure_ldac, configure_codec, then_decoder,
}
use android_device_zte_fujis.A2dp.EncoderLaws.{
  programmed, program-programmed, commit-calls, commit-ok, then_decoder-calls, then_decoder-ok,
  then_decoder-dev,
}

-- The state after `n` more identifiers were taken.
unfoldable pub take_instances : ℕ → A2dp → A2dp
take_instances zero a = a
take_instances (suc n) a = take_instances n (take_instance a)

-- An identifier lies between 1 and MAX_INSTANCE_ID, and the next one is below it or starts over,
-- whatever the counter was.
take_instance_bounds :
    (a : A2dp)
    → let b = take_instance a in
      (1 ≤ b.imc_instance)
      × (b.imc_instance ≤ max_instance_id)
      × ((take_instance b).imc_instance
          ≡ (if b.imc_instance == 1 then max_instance_id else b.imc_instance - 1))
unfolding take_instance
take_instance_bounds a = ground arith

-- From a counter that is in range, the `n` identifiers after the first are the `n` numbers below
-- it: no two of as many as the counter says are equal.
take_instances_lem :
    (n : ℕ) (a : A2dp)
    → n < a.instance_id
    → a.instance_id ≤ max_instance_id
    → (take_instances (suc n) a).imc_instance ≡ a.instance_id - n
unfolding take_instances take_instance
take_instances_lem zero a h k = ground arith
take_instances_lem (suc n) a h k = ground (arith, take_instances_lem n (take_instance a))

module _ (e : Env) (s : State) (c : LdacConfig) where
  configure_ldac-calls :
      (configure_ldac (some c) e s).0 ≡ true
      → let u = (configure_ldac (some c) e s).1 in
        (u.calls
          ≡ programmed (ldac_block (ldac_enc_cfg c s.dev.imc_instance)) c.bits_per_sample s.calls)
        × (u.dev.imc_instance ≡ s.dev.imc_instance)
        × (u.dev.abr_enabled ≡ c.is_abr_enabled)
  unfolding configure_ldac
  configure_ldac-calls h =
      let done = commit-calls _ _ e s h in
      (
        done.1 ∙ program-programmed _ _ e s.calls done.0,
        rw (commit-ok _ _ e s h) refl,
        rw (commit-ok _ _ e s h) refl,
      )

module _ (e : Env) where
  decoder_after :
      (r : Bool × State)
      → r.1.dev.abr_enabled ≡ true
      → (then_decoder e r).0 ≡ true
      → (then_decoder e r).1.calls
        ≡ set_array dec_config_block
            (dec_block codec_type_ldac (imc_info imc_transmit r.1.dev.imc_instance))
          ∷ get_ctl dec_config_block
          ∷ r.1.calls
  unfolding then_decoder
  decoder_after (false, s) on h = cc
  decoder_after (true, s) on h = then_decoder-calls e s on h

encoder_imc :
    (c : LdacConfig) (i : ℕ)
    → c.is_abr_enabled ≡ true
    → (ldac_enc_cfg c i).abr_cfg.imc_info ≡ imc_info imc_receive i
unfolding ldac_enc_cfg
encoder_imc c i on = rw on refl

-- If an LDAC stream with ABR is configured, the calls made are exactly those that write the
-- encoder's block, the bit format and the decoder's block, and both blocks carry the identifier in
-- the state, the encoder as receiver and the decoder as transmitter.
configure_ldac_paired :
    (e : Env) (s : State) (c : LdacConfig)
    → c.is_abr_enabled ≡ true
    → (configure_codec (ldac (some c)) e s).0 ≡ true
    → let u = (configure_codec (ldac (some c)) e s).1 in
      let i = u.dev.imc_instance in
      (u.calls
        ≡ set_array dec_config_block (dec_block codec_type_ldac (imc_info imc_transmit i))
          ∷ get_ctl dec_config_block
          ∷ programmed (ldac_block (ldac_enc_cfg c i)) c.bits_per_sample s.calls)
      × ((ldac_enc_cfg c i).abr_cfg.imc_info ≡ imc_info imc_receive i)
unfolding configure_codec
configure_ldac_paired e s c on h =
    let t : State = record s { dev = take_instance s.dev } in
    let r = configure_ldac (some c) e t in
    let (calls, kept, enabled) = configure_ldac-calls e t c (then_decoder-ok e r h) in
    let decoded = decoder_after e r (enabled ∙ on) h in
    let same = then_decoder-dev e r in
    (ground (arith, calls, kept, decoded, same), encoder_imc c _ on)
