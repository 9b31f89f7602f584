-- ===== src/Rome/Frames.antt =====
-- Reading an HCI event: the result does not depend on how the UART hands out the bytes.
use android_device_zte_fujis.Common.{
  ℕ, zero, suc, ◌+◌, ◌-◌, ◌≤◌, ◌<◌, ◌≡◌, refl, ◌∙◌, ap, sym, none, some, List, [], ◌∷◌, ◌++◌,
  length, take, drop, leb, ◌==◌, if◌then◌else◌, arith, length-drop, take_add, drop-drop, if_at,
  append_assoc, append-nil,
}
use android_device_zte_fujis.Rome.Read.{
  Reader, Reading, find_packet, fill, any_event, params_of, read_params, read_header, read_packet,
  read_hci_event,
}

-- `read` gives no more than is asked for and is there, and at least a byte where both allow it.
pub record IsReader (rd : Reader) : Type 0 where
  pub asked : (left : List ℕ) (n : ℕ) → rd left n ≤ n
  pub there : (left : List ℕ) (n : ℕ) → rd left n ≤ length left
  pub progress : (left : List ℕ) (n : ℕ) → 0 < n → 0 < length left → 0 < rd left n

-- The first `n` bytes after those given, if that many come.
abbrev pub exactly : (n : ℕ) → (got left : List ℕ) → Reading
exactly n got left =
    if leb n (length left) then (some (got ++ take n left), drop n left) else (none, [])

-- The first packet in a sequence of bytes, with no more parameters than fit into `size` bytes.
abbrev pub from_indicator : List ℕ → Reading
from_indicator [] = (none, [])
from_indicator (b ∷ t) = if b == 4 then (some (b ∷ []), t) else from_indicator t

abbrev pub and_header : Reading → Reading
and_header (none, left) = (none, left)
and_header (some start, left) = exactly 2 start left

abbrev pub and_params : (size : ℕ) → Reading → Reading
and_params size (none, left) = (none, left)
and_params size (some header, left) = exactly (params_of size header) header left

abbrev pub first_packet : (size : ℕ) → List ℕ → Reading
first_packet size left = and_params size (and_header (from_indicator left))

exactly_zero : (got left : List ℕ) → exactly 0 got left ≡ (some got, left)
exactly_zero got left =
    let none_more = append-nil got in
    if_at (λ (r : Reading). r ≡ (some got, left)) (leb 0 (length left)) _ _ (λ _. ground arith)
      (λ h. grind arith)

exactly_later :
    (n r : ℕ) (got left : List ℕ)
    → r ≤ n
    → r ≤ length left
    → exactly (n - r) (got ++ take r left) (drop r left) ≡ exactly n got left
exactly_later n r got left asked there =
    let sum : r + (n - r) ≡ n = omega arith in
    let short = length-drop r left in
    let taken : got ++ take r left ++ take (n - r) (drop r left) ≡ got ++ take n left =
      append_assoc got _ _
      ∙ ap {B = List ℕ} (λ t. got ++ t) (take_add r (n - r) left ∙ ap (λ k. take k left) sum) in
    let dropped : drop (n - r) (drop r left) ≡ drop n left =
      drop-drop (n - r) r left ∙ ap (λ k. drop k left) sum in
    ground arith

module _ (rd : Reader) where
  find_packet-from_indicator :
      IsReader rd → (left : List ℕ) → find_packet rd left ≡ from_indicator left
  unfolding find_packet
  find_packet-from_indicator law [] = refl
  find_packet-from_indicator law (b ∷ t) =
      let rest = find_packet-from_indicator law t in
      let one = law.progress (b ∷ t) 1 (omega arith) (omega arith) in ground arith

  fill-exactly :
      IsReader rd
      → (k need : ℕ) (got left : List ℕ) → need ≤ k
      → fill rd any_event k need got left ≡ exactly need got left
  unfolding fill
  fill-exactly law zero need got left enough =
      let none_needed : need ≡ 0 = omega arith in rw none_needed (sym (exactly_zero got left))
  fill-exactly law (suc k) need got left enough =
      let asked = law.asked left need in
      let there = law.there left need in
      let progress = law.progress left need in
      let r = rd left need in
      let Goal : Reading → Type 0 = λ x. x ≡ exactly need got left in
      if_at Goal (need == 0) _ _
        (λ h.
          let none_needed : need ≡ 0 = ground arith in rw none_needed (sym (exactly_zero got left)))
        (λ h.
          if_at Goal (r == 0) _ _ (λ failed. ground arith)
            (λ some_bytes.
              fill-exactly law k (need - r) (got ++ take r left) (drop r left) (ground arith)
              ∙ exactly_later need r got left asked there))

  read_header-and_header :
      IsReader rd → (start : Reading) → read_header rd any_event start ≡ and_header start
  unfolding read_header
  read_header-and_header law (none, left) = refl
  read_header-and_header law (some start, left) = fill-exactly law 2 2 start left (omega arith)

  read_params-and_params :
      IsReader rd
      → (size : ℕ) (header : Reading) → read_params rd size header ≡ and_params size header
  unfolding read_params
  read_params-and_params law size (none, left) = refl
  read_params-and_params law size (some header, left) =
      let n = params_of size header in fill-exactly law n n header left (omega arith)

  -- From a UART that gives at least a byte where some are to come, `read_hci_event` reads the first
  -- packet: an event indicator, two bytes, and as many parameters as the third byte says and fit
  -- into the buffer, or nothing where the bytes end before that. How the UART hands out the bytes
  -- makes no difference.
  pub read_hci_event_lem :
      IsReader rd
      → (size : ℕ) (left : List ℕ) → 0 < size
      → read_hci_event rd size left ≡ first_packet size left
  unfolding read_hci_event read_packet
  read_hci_event_lem law size left some_size =
      let header : read_header rd any_event (find_packet rd left)
          ≡ and_header (from_indicator left) =
        ap (read_header rd any_event) (find_packet-from_indicator law left)
        ∙ read_header-and_header law (from_indicator left) in
      let whole =
        ap (read_params rd size) header
        ∙ read_params-and_params law size (and_header (from_indicator left)) in
      if_at (λ (r : Reading). r ≡ first_packet size left) (size == 0) _ _ (λ h. grind arith)
        (λ _. whole)
