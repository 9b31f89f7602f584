-- ===== src/Rome/Read.antt =====
-- hci_uart.c, `read_hci_event`, and the part of hw_rome.c's `read_vs_hci_event` that reads a packet.
use android_device_zte_fujis.Common.{
  ℕ, zero, suc, ◌-◌, Bool, true, false, Option, none, some, List, [], ◌∷◌, ◌++◌, take, drop, ltb,
  ◌==◌, if◌then◌else◌,
}

-- `read left n` is how many of the `n` bytes asked for `read` gives where the bytes `left` are
-- still to come; 0 where it fails.
abbrev pub Reader : Type 0
Reader = (left : List ℕ) → (n : ℕ) → ℕ

-- What was read, where nothing failed, and what is left.
abbrev pub Reading : Type 0
Reading = Option (List ℕ) × List ℕ

-- One byte at a time, up to and with the first HCI event indicator.
unfoldable pub find_packet : Reader → List ℕ → Option (List ℕ) × List ℕ
find_packet rd [] = (none, [])
find_packet rd (b ∷ t) =
    let rest = find_packet rd t in
    if rd (b ∷ t) 1 == 0 then (none, b ∷ t) else if b == 4 then (some (b ∷ []), t) else rest

-- The loop that reads on until nothing is needed; `check` is asked after each call. Each call that
-- does not fail gives a byte, so that as many calls as bytes are enough.
unfoldable pub fill :
    Reader → (check : List ℕ → Bool) → (fuel need : ℕ) → (got left : List ℕ) → Reading
fill rd check zero need got left = (some got, left)
fill rd check (suc k) need got left =
    let r = rd left need in
    let more = got ++ take r left in
    let rest = fill rd check k (need - r) more (drop r left) in
    if need == 0
    then (some got, left)
    else if r == 0
    then (none, left)
    else if check more
    then rest
    else (none, drop r left)

abbrev pub any_event : List ℕ → Bool
any_event got = true

-- `buf[1] == 0xFF`
abbrev pub is_vs_event : List ℕ → Bool
is_vs_event (c ∷ code ∷ _) = code == 255
is_vs_event _ = false

-- How many bytes of parameters are read into a buffer of `size` bytes.
abbrev pub params_of : (size : ℕ) → List ℕ → ℕ
params_of size (c ∷ code ∷ n ∷ _) = if ltb n (size - 3) then n else size - 3
params_of size _ = 0

-- The parameters follow a header of three bytes.
unfoldable pub read_params : Reader → (size : ℕ) → Reading → Reading
read_params rd size (none, left) = (none, left)
read_params rd size (some header, left) =
    let n = params_of size header in fill rd any_event n n header left

unfoldable pub read_header : Reader → (check : List ℕ → Bool) → Reading → Reading
read_header rd check (none, left) = (none, left)
read_header rd check (some start, left) = fill rd check 2 2 start left

unfoldable pub read_packet : Reader → (check : List ℕ → Bool) → (size : ℕ) → List ℕ → Reading
read_packet rd check size left =
    if size == 0
    then (none, left)
    else read_params rd size (read_header rd check (find_packet rd left))

-- The result is none where the code returns -1; else it returns the number of bytes.
unfoldable pub read_hci_event : Reader → (size : ℕ) → List ℕ → Reading
read_hci_event rd size left = read_packet rd any_event size left
