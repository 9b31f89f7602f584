-- ===== src/A2dp/Latency.antt =====
-- a2dp.c, `audio_extn_a2dp_get_encoder_latency`.
use android_device_zte_fujis.Common.{
  ◌||◌, ℕ, ◌+◌, ◌%◌, ◌^◌, ◌<◌, ◌≡◌, Bool, not, ◌&&◌, Option, none, some, ◌==◌, if◌then◌else◌, arith,
}
use android_device_zte_fujis.A2dp.Types.{
  is_disconnected, codec_type_sbc, codec_type_aptx, codec_type_aptx_hd, codec_type_aac,
  codec_type_ldac, codec_type_pcm,
}
use android_device_zte_fujis.A2dp.Env.{
  Env, State, Latencies, after, property_get_latencies, sink_latency,
}

-- `latency_ms += …` on a `uint32_t`.
abbrev u32 : ℕ → ℕ
u32 n = n % 2 ^ 32

unfoldable pub codec_latency :
    Option Latencies → (Latencies → ℕ) → (encoder default_sink sink : ℕ) → ℕ
codec_latency none f encoder default_sink sink =
    u32 (encoder + (if sink == 0 then default_sink else sink))
codec_latency (some l) f encoder default_sink sink =
    u32 (f l + (if sink == 0 then default_sink else sink))

-- The `switch` on the format; `sink` is 0 where the library was not asked.
unfoldable pub latency_of : (format : ℕ) → Option Latencies → (sink : ℕ) → ℕ
latency_of format o sink =
    if format == codec_type_sbc
    then codec_latency o (λ l. l.sbc) 10 140 sink
    else if format == codec_type_aptx
    then codec_latency o (λ l. l.aptx) 40 160 sink
    else if format == codec_type_aptx_hd
    then codec_latency o (λ l. l.aptx_hd) 20 180 sink
    else if format == codec_type_aac
    then codec_latency o (λ l. l.aac) 70 180 sink
    else if format == codec_type_ldac
    then codec_latency o (λ l. l.ldac) 40 180 sink
    else if format == codec_type_pcm
    then 50 + 140
    else 200

-- `audio_get_a2dp_sink_latency` gives a `uint16_t`.
unfoldable pub sink_latency_of : Env → State → ℕ × State
sink_latency_of e s =
    if s.dev.syms.audio_get_a2dp_sink_latency && not (is_disconnected s.dev.bt_state)
    then (e.sink_ms s.calls, after sink_latency s)
    else (0, s)

unfoldable pub get_encoder_latency : Env → State → ℕ × State
get_encoder_latency e s =
    let o = e.latencies s.calls in
    let (sink, s') = sink_latency_of e (after property_get_latencies s) in
    (latency_of s.dev.encoder_format o sink, s')

-- The milliseconds that the encoder of a codec adds when no property overrides them, and the
-- milliseconds of its sink when the sink reports none.
abbrev pub default_latencies : ℕ → ℕ × ℕ
default_latencies format =
    if format == codec_type_sbc
    then (10, 140)
    else if format == codec_type_aptx
    then (40, 160)
    else if format == codec_type_aptx_hd
    then (20, 180)
    else if format == codec_type_aac
    then (70, 180)
    else if format == codec_type_ldac
    then (40, 180)
    else if format == codec_type_pcm
    then (50, 140)
    else (200, 0)

-- Does the sink's report count for this format?
abbrev pub asks_sink : ℕ → Bool
asks_sink format =
    (format == codec_type_sbc)
    || (format == codec_type_aptx)
    || (format == codec_type_aptx_hd)
    || (format == codec_type_aac)
    || (format == codec_type_ldac)

-- Without the property, and with a sink latency that fits its `uint16_t`, the latency is the sum of
-- the encoder's part and of the sink's, the latter as reported if it is not 0 and the format is one
-- of the five that ask for it: no sum wraps.
latency_of_default :
    (format sink : ℕ)
    → sink < 2 ^ 16
    → latency_of format none sink
      ≡ (default_latencies format).0
        + (if asks_sink format && not (sink == 0) then sink else (default_latencies format).1)
unfolding latency_of codec_latency
latency_of_default format sink h = ground arith
