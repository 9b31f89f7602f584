-- ===== src/Usb/Rates.antt =====
-- usb.c: the supported sample rates, and the "Rates:" line of a stream file.
use android_device_zte_fujis.Common.{
  ℕ, zero, suc, ◌+◌, Bool, true, false, ◌&&◌, Option, none, some, List, [], ◌∷◌, ◌++◌, ltb, leb,
  ◌==◌, if◌then◌else◌, length,
}
use android_device_zte_fujis.Usb.Text.{Bytes, bytes, strstr, member, before, strtok, atoi, uint32}

abbrev pub supported_sample_rates : List ℕ
supported_sample_rates = 192000 ∷ 176400 ∷ 96000 ∷ 88200 ∷ 64000 ∷ 48000 ∷ 44100 ∷ []

-- MAX_SAMPLE_RATE_SIZE
abbrev pub max_sample_rate_size : ℕ
max_sample_rate_size = 7

-- `supported_sample_rates_mask` of a usecase type, by the numbers of its bits.
abbrev pub Mask : Type 0
Mask = ℕ → Bool

abbrev pub set_bit : ℕ → Mask → Mask
set_bit i m = λ j. if j == i then true else m j

-- `config->rates` up to `sr_size`, and the mask.
pub record Found : Type 0 where
  pub rates : List ℕ
  pub mask : Mask

-- A write behind the end of `rates` is a fault. No run is `unfinished`.
pub data Reading : Type 0 where
  ok : Found → Reading
  invalid overrun unfinished : Reading

-- `config->rates[sr_size++] = rate; mask |= 1 << i`
abbrev pub store : ℕ → ℕ → Found → Reading
store rate i f =
    if ltb (length f.rates) max_sample_rate_size
    then ok (record f { rates = f.rates ++ rate ∷ []; mask = set_bit i f.mask })
    else overrun

infixl 5 ◌>>=◌
abbrev pub ◌>>=◌ : Reading → (Found → Reading) → Reading
ok f >>= k = k f
invalid >>= k = invalid
overrun >>= k = overrun
unfinished >>= k = unfinished

-- The loop over `supported_sample_rates`, from the index `i` on.
unfoldable pub store_matches : (ℕ → Bool) → ℕ → List ℕ → Found → Reading
store_matches test i [] f = ok f
store_matches test i (r ∷ rs) f =
    (if test r then store r i f else ok f) >>= store_matches test (i + 1) rs

abbrev pub first_delims : Bytes
first_delims = bytes "Rates: "

abbrev pub list_delims : Bytes
list_delims = bytes " ,.-"

-- What the text reads as after `strtok_r` has ended its first token by a zero byte.
unfoldable pub first_part : Bytes → Bytes → Bytes
unfolding member before
first_part delims [] = []
first_part delims (c ∷ s) =
    if member c delims then c ∷ first_part delims s else before delims (c ∷ s)

abbrev pub read_rate : Bytes → Found → Reading
read_rate token = store_matches (λ r. r == uint32 (atoi token)) 0 supported_sample_rates

unfoldable pub read_list : ℕ → Bytes → Bytes → Found → Reading
unfolding store_matches atoi strtok
read_list zero token rest f = unfinished
read_list (suc fuel) token rest f = read_rate token f >>= λ g. elim (strtok list_delims rest) [
  | none ↦ ok g
  | some (next, later) ↦ read_list fuel next later g
]

abbrev range_to : Bytes → Option (Bytes × Bytes) → Found → Reading
range_to low none f = invalid
range_to low (some (high, rest)) f =
    store_matches (λ r. leb (uint32 (atoi low)) r && leb r (uint32 (atoi high))) 0
      supported_sample_rates f

unfoldable pub read_range : Bytes → Bytes → Found → Reading
unfolding store_matches atoi strtok
read_range low rest f = range_to low (strtok list_delims rest) f

abbrev pub is_continuous : Bytes → Bool
is_continuous text = elim (strstr text (bytes "continuous")) [ none ↦ false | some s ↦ true ]

abbrev from_token : Bytes → Option (Bytes × Bytes) → Found → Reading
from_token s none f = invalid
from_token s (some (token, rest)) f =
    if is_continuous (first_part first_delims s)
    then read_range token rest f
    else read_list (length rest + 1) token rest f

-- `config->rate_size` starts at 0.
unfoldable pub get_sample_rates : Bytes → Mask → Reading
unfolding read_list read_range first_part strstr strtok
get_sample_rates s m = from_token s (strtok first_delims s) (record { rates = []; mask = m })

-- The lowest bit of the mask that is set, among the rates from the index `i` on.
unfoldable pub ffs : ℕ → List ℕ → Mask → Option (ℕ × ℕ)
ffs i [] m = none
ffs i (r ∷ rs) m = if m i then some (i, r) else ffs (i + 1) rs m

unfoldable pub popcount : ℕ → List ℕ → Mask → ℕ
popcount i [] m = 0
popcount i (r ∷ rs) m = (if m i then 1 else 0) + popcount (i + 1) rs m

abbrev pub clear_bit : ℕ → Mask → Mask
clear_bit i m = λ j. if j == i then false else m j

unfoldable pub collect : ℕ → Mask → List ℕ
unfolding ffs
collect zero m = []
collect (suc tries) m = elim (ffs 0 supported_sample_rates m) [
  | none ↦ []
  | some (i, r) ↦ r ∷ collect tries (clear_bit i m)
]

abbrev pub min : ℕ → ℕ → ℕ
min a b = if leb a b then a else b

-- The rates that the caller's buffer of `size` entries gets.
unfoldable pub sup_sample_rates : Mask → ℕ → List ℕ
unfolding collect popcount
sup_sample_rates m size = collect (min size (popcount 0 supported_sample_rates m)) m

unfoldable pub no_bits : Mask
no_bits i = false
