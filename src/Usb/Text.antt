-- ===== src/Usb/Text.antt =====
-- The C library's text functions, as usb.c uses them, on the bytes before the terminator.
use android_device_zte_fujis.Common.{
  ℕ, ◌+◌, ◌-◌, ◌*◌, ◌%◌, ◌^◌, ◌≤◌, Bool, true, false, ◌&&◌, ◌||◌, Option, none, some, List, [], ◌∷◌,
  ℤ, pos, neg, negsuc, leb, ◌==◌, if◌then◌else◌, arith, length,
}
use Prim.Native.Char.{code}
use Prim.Native.String.{String}

abbrev pub Bytes : Type 0
Bytes = List ℕ

-- A literal's bytes.
abbrev pub bytes : String → Bytes
bytes String.[] = []
bytes (String.◌∷◌ c s) = code c ∷ bytes s

unfoldable pub starts_with : Bytes → Bytes → Bool
starts_with [] s = true
starts_with (c ∷ cs) [] = false
starts_with (c ∷ cs) (d ∷ s) = c == d && starts_with cs s

-- `strstr(s, needle)`: the rest of the text from the first occurrence on.
unfoldable pub strstr : Bytes → Bytes → Option Bytes
unfolding starts_with
strstr [] needle = if starts_with needle [] then some [] else none
strstr (c ∷ s) needle = if starts_with needle (c ∷ s) then some (c ∷ s) else strstr s needle

unfoldable pub member : ℕ → Bytes → Bool
member c [] = false
member c (d ∷ ds) = c == d || member c ds

-- The bytes before the first one that is in `ends`.
unfoldable pub before : Bytes → Bytes → Bytes
before ends [] = []
before ends (c ∷ s) = if member c ends then [] else c ∷ before ends s

-- The bytes behind it; a text that has none ends.
unfoldable pub behind : Bytes → Bytes → Bytes
behind ends [] = []
behind ends (c ∷ s) = if member c ends then s else behind ends s

unfoldable pub skip : Bytes → Bytes → Bytes
skip delims [] = []
skip delims (c ∷ s) = if member c delims then skip delims s else c ∷ s

abbrev pub token_of : Bytes → Bytes → Option (Bytes × Bytes)
token_of delims [] = none
token_of delims (c ∷ s) = some (before delims (c ∷ s), behind delims (c ∷ s))

-- `strtok_r(s, delims, &rest)`: the token and the rest.
unfoldable pub strtok : Bytes → Bytes → Option (Bytes × Bytes)
unfolding member before behind skip
strtok delims s = token_of delims (skip delims s)

abbrev pub is_digit : ℕ → Bool
is_digit c = leb b'0' c && leb c b'9'

-- The isspace() bytes.
abbrev pub is_space : ℕ → Bool
is_space c = c == 32 || (leb 9 c && leb c 13)

unfoldable pub digits : ℕ → Bytes → ℕ
digits n [] = n
digits n (c ∷ s) = if is_digit c then digits (10 * n + (c - b'0')) s else n

unfoldable pub atoi : Bytes → ℤ
unfolding digits
atoi [] = pos 0
atoi (c ∷ s) =
    if is_space c
    then atoi s
    else if c == b'-'
    then neg (digits 0 s)
    else if c == b'+'
    then pos (digits 0 s)
    else pos (digits 0 (c ∷ s))

-- The conversion to `uint32_t`, of a number of any size; C leaves open what `atoi` answers for one that
-- does not fit an `int`.
abbrev pub uint32 : ℤ → ℕ
uint32 (pos n) = n % 2 ^ 32
uint32 (negsuc n) = 2 ^ 32 - 1 - n % 2 ^ 32

pub length-skip : (delims s : Bytes) → length (skip delims s) ≤ length s
unfolding skip
length-skip delims [] = omega arith
length-skip delims (c ∷ s) = ground (arith, length-skip delims s)

pub length-behind : (ends s : Bytes) → length (behind ends s) ≤ length s
unfolding behind
length-behind ends [] = omega arith
length-behind ends (c ∷ s) = ground (arith, length-behind ends s)
