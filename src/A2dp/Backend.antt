-- ===== src/A2dp/Backend.antt =====
-- The mixer routines of a2dp.c: the backend's sample rate and channels, the bit format, the
-- scrambler, and the decoder of the ABR feedback path.
use android_device_zte_fujis.Common.{
  ℕ, ◌*◌, ◌&&◌, ◌||◌, not, String, pos, truthy, einval, ◌==◌, if◌then◌else◌, ◌∷◌,
}
use android_device_zte_fujis.A2dp.Types.{
  A2dp, ImcInfo, dec_block, codec_type_ldac, codec_type_pcm, is_disconnected,
}
use android_device_zte_fujis.A2dp.Env.{
  Ctl, enc_bit_format, scrambler_mode, sample_rate_rx, sample_rate_tx, afe_in_channels,
  dec_config_block, set_enum, set_value, set_array, get_ctl, is_scrambling, Call, Routine, ◌>>◌,
  pass, when, write_ctl, any_failure, as_is,
}

abbrev pub choose : Ctl → String → Routine
choose c name = write_ctl any_failure c (set_enum c name)

-- LDAC opens the port at twice the input's rate.
unfoldable pub rx_rate : ℕ → ℕ → ℕ
rx_rate format rate =
    if format == codec_type_ldac && (rate == 48000 || rate == 44100) then rate * 2 else rate

unfoldable pub rate_str : ℕ → String
rate_str rate =
    if rate == 44100
    then "KHZ_44P1"
    else if rate == 88200
    then "KHZ_88P2"
    else if rate == 96000
    then "KHZ_96"
    else "KHZ_48"

unfoldable pub in_channels : ℕ → String
in_channels n = if n == 1 then "One" else "Two"

unfoldable pub set_backend_cfg : A2dp → Routine
set_backend_cfg a = if a.encoder_format == codec_type_pcm then pass else do
  choose sample_rate_rx (rate_str (rx_rate a.encoder_format a.enc_sampling_rate))
  when a.abr_enabled (choose sample_rate_tx "KHZ_8")
  choose afe_in_channels (in_channels a.enc_channels)

unfoldable pub bit_format : ℕ → String
bit_format n = if n == 32 then "S32_LE" else if n == 24 then "S24_LE" else "S16_LE"

unfoldable pub set_bit_format : ℕ → Routine
set_bit_format n = choose enc_bit_format (bit_format n)

unfoldable pub reset_backend_cfg : A2dp → Routine
reset_backend_cfg a = do
  choose sample_rate_rx "KHZ_8"
  when a.abr_enabled (choose sample_rate_tx "KHZ_8")
  choose afe_in_channels "Zero"

-- The library is asked only through a pointer that is set, and only while not disconnected.
unfoldable pub check_and_set_scrambler : A2dp → Routine
check_and_set_scrambler a e t =
    if a.syms.audio_is_scrambling_enabled && not (is_disconnected a.bt_state)
    then if truthy (e.result t is_scrambling)
      then write_ctl as_is scrambler_mode (set_value scrambler_mode 1) e (is_scrambling ∷ t)
      else (pos 0, is_scrambling ∷ t)
    else (pos 0, t)

abbrev pub imc_transmit : ℕ
imc_transmit = 0

abbrev pub imc_receive : ℕ
imc_receive = 1

abbrev pub imc_purpose_id_bt_info : ℕ
imc_purpose_id_bt_info = 0x000132E2

-- `enable` is IMC_ENABLE.
abbrev pub imc_info : (direction instance : ℕ) → ImcInfo
imc_info d i = record {
  direction = d;
  enable = 1;
  purpose = imc_purpose_id_bt_info;
  comm_instance = i;
}

-- Its `bool` result is true where this routine's is 0.
unfoldable pub configure_decoder_format : A2dp → ℕ → Routine
configure_decoder_format a format = when a.abr_enabled (
    write_ctl any_failure dec_config_block
      (set_array dec_config_block (dec_block format (imc_info imc_transmit a.imc_instance))))

abbrev no_imc : ImcInfo
no_imc = record { direction = 0; enable = 0; purpose = 0; comm_instance = 0 }

-- A missing control gives -EINVAL here, and a failing write its own result.
unfoldable pub reset_dec_config_params : A2dp → Routine
reset_dec_config_params a e t =
    if a.abr_enabled
    then if truthy (e.result t (get_dec))
      then (e.result (get_dec ∷ t) clear, clear ∷ get_dec ∷ t)
      else (einval, get_dec ∷ t)
    else (pos 0, t)
  where
    get_dec : Call
    get_dec = get_ctl dec_config_block

    clear : Call
    clear = set_array dec_config_block (dec_block 0 no_imc)
