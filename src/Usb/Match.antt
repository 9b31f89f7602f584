-- ===== src/Usb/Match.antt =====
-- usb.c: the configuration of a card that suits a stream best.
use android_device_zte_fujis.Common.{
  ℕ, ◌-◌, ◌*◌, ◌/◌, Bool, false, not, ◌&&◌, ◌||◌, List, [], ◌∷◌, ltb, ◌==◌, if◌then◌else◌,
}
use android_device_zte_fujis.Usb.Types.{DeviceConfig}

-- ABS_SUB
abbrev pub abs_sub : ℕ → ℕ → ℕ
abs_sub a b = if ltb b a then a - b else b - a

-- A loop over the configurations goes on with a candidate, or leaves with an exact match.
pub data Pick : Type 0 where
  candidate match : ℕ → Pick

unfoldable pub widest : ℕ → List DeviceConfig → ℕ
widest best [] = best
widest best (d ∷ ds) =
    widest (if best == 0 then d.bit_width else if ltb best d.bit_width then d.bit_width else best)
      ds

unfoldable pub best_bit_width : List DeviceConfig → ℕ
unfolding widest
best_bit_width = widest 0

-- The candidate when a configuration has `n` of what the stream has `wanted` of.
unfoldable pub nearer : ℕ → ℕ → ℕ → ℕ
nearer wanted n best =
    if ltb (abs_sub wanted n) (abs_sub wanted best)
    then n
    else if abs_sub wanted n == abs_sub wanted best && ltb best n
    then n
    else best

unfoldable pub channel_step : ℕ → ℕ → ℕ → DeviceConfig → Pick
unfolding nearer
channel_step width wanted best d =
    if not (d.bit_width == width)
    then candidate best
    else if d.channel_count == wanted
    then match d.channel_count
    else candidate (if best == 0 then d.channel_count else nearer wanted d.channel_count best)

unfoldable pub match_channels : ℕ → ℕ → ℕ → List DeviceConfig → ℕ
unfolding channel_step
match_channels width wanted best [] = best
match_channels width wanted best (d ∷ ds) = elim (channel_step width wanted best d) [
  | match n ↦ n
  | candidate n ↦ match_channels width wanted n ds
]

unfoldable pub best_match_for_channels : List DeviceConfig → ℕ → ℕ → ℕ
unfolding match_channels
best_match_for_channels ds width wanted = match_channels width wanted 0 ds

abbrev pub is_multiple : ℕ → ℕ → Bool
is_multiple rate base = rate / base * base == rate

unfoldable pub find_rate : ℕ → ℕ → ℕ → ℕ → ℕ
unfolding nearer
find_rate base wanted rate best =
    if not (is_multiple best base) && is_multiple rate base
    then rate
    else if is_multiple best base && is_multiple rate base
    then nearer wanted rate best
    else if not (is_multiple best base) && not (is_multiple rate base)
    then nearer wanted rate best
    else best

-- The base of the rates that are preferred for a stream.
abbrev pub base_of : ℕ → ℕ
base_of wanted = if is_multiple wanted 8000 then 8000 else 11025

unfoldable pub rate_step : ℕ → ℕ → ℕ → Pick
unfolding find_rate
rate_step wanted best rate =
    if wanted == rate
    then match rate
    else candidate (if best == 0 then rate else find_rate (base_of wanted) wanted rate best)

unfoldable pub match_rates : ℕ → ℕ → List ℕ → Pick
unfolding rate_step
match_rates wanted best [] = candidate best
match_rates wanted best (r ∷ rs) = elim (rate_step wanted best r) [
  | match n ↦ match n
  | candidate n ↦ match_rates wanted n rs
]

-- What a configuration has to offer to be looked at; `interval` holds where it is checked.
pub record Wanted : Type 0 where
  pub bit_width : ℕ
  pub channel_count : ℕ
  pub interval : ℕ
  pub check_interval : Bool

abbrev pub is_other : Wanted → DeviceConfig → Bool
is_other w d =
    not (d.bit_width == w.bit_width)
    || not (d.channel_count == w.channel_count)
    || (w.check_interval && not (d.service_interval_us == w.interval))

abbrev config_step : Wanted → ℕ → ℕ → DeviceConfig → Pick
config_step w wanted best d = if is_other w d then candidate best else match_rates wanted 0 d.rates

unfoldable pub match_configs : Wanted → ℕ → ℕ → List DeviceConfig → ℕ
unfolding match_rates
match_configs w wanted best [] = best
match_configs w wanted best (d ∷ ds) = elim (config_step w wanted best d) [
  | match n ↦ n
  | candidate n ↦ match_configs w wanted n ds
]

unfoldable pub best_match_for_sample_rate : List DeviceConfig → Wanted → ℕ → ℕ
unfolding match_configs
best_match_for_sample_rate ds w wanted = match_configs w wanted 48000 ds

pub record StreamConfig : Type 0 where
  pub bit_width : ℕ
  pub sample_rate : ℕ
  pub channel_count : ℕ

abbrev pub fallback : StreamConfig
fallback = record { bit_width = 16; sample_rate = 48000; channel_count = 2 }

abbrev pub wanted_of : ℕ → ℕ → Wanted
wanted_of width channels = record {
  bit_width = width;
  channel_count = channels;
  interval = 0;
  check_interval = false;
}

abbrev pub chosen_channels : List DeviceConfig → StreamConfig → ℕ
chosen_channels ds s = best_match_for_channels ds (best_bit_width ds) s.channel_count

unfoldable pub backend_apply_policy : List DeviceConfig → StreamConfig → StreamConfig
unfolding best_bit_width best_match_for_channels best_match_for_sample_rate
backend_apply_policy [] s = fallback
backend_apply_policy (d ∷ ds) s = record {
  bit_width = best_bit_width (d ∷ ds);
  channel_count = chosen_channels (d ∷ ds) s;
  sample_rate =
      best_match_for_sample_rate (d ∷ ds)
        (wanted_of (best_bit_width (d ∷ ds)) (chosen_channels (d ∷ ds) s)) s.sample_rate;
}
