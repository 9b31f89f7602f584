-- ===== src/Sndmon/Enumerate.antt =====
-- sndmonitor.c: the cards that are monitored, and the module's start.
use android_device_zte_fujis.Common.{
  ℕ, zero, suc, ◌+◌, Bool, true, false, ◌&&◌, ◌||◌, Option, none, some, List, [], ◌∷◌, ◌++◌, ◌==◌,
  leb, if◌then◌else◌, drop, ℤ, pos, neg, negsuc,
}
use android_device_zte_fujis.Usb.Text.{Bytes, bytes, strtok, atoi, uint32, is_space}
use android_device_zte_fujis.Sndmon.Defs.{
  online, offline, SndCard, Monitor, cpe_magic_num, slpi_magic_num,
}

-- The files below /proc, and the calls of the system that may fail. A file's text is `none` where it
-- cannot be opened, at the attempt that is counted down.
pub record Proc : Type 0 where
  pub cards_file : ℕ → Option (List Bytes)
  pub card_state : Bytes → Option Bytes
  pub cpe_readable : Bytes → Bool
  pub cpe_state : Bytes → ℕ → Option Bytes
  pub slpi_readable : Bool
  pub slpi_state : ℕ → Option Bytes
  pub has_pipe : Bool
  pub has_listeners : Bool
  pub thread_starts : Bool

same : Bytes → Bytes → Bool
same [] [] = true
same [] (d ∷ t) = false
same (c ∷ s) [] = false
same (c ∷ s) (d ∷ t) = c == d && same s t

all_spaces : Bytes → Bool
all_spaces [] = true
all_spaces (c ∷ s) = is_space c && all_spaces s

unfoldable pub trim : Bytes → Bytes
unfolding all_spaces
trim [] = []
trim (c ∷ s) = if all_spaces (c ∷ s) then [] else c ∷ trim s

-- `add_new_sndcard`: the state is online if the file reads "ONLINE" up to spaces.
unfoldable pub add_new_sndcard : ℕ → Bytes → List SndCard → List SndCard
unfolding trim same
add_new_sndcard card state cards =
    cards
    ++ (record {
      card = card;
      status = if same (trim state) (bytes "ONLINE") then online else offline;
    })
      ∷ []

lower : ℕ → ℕ
lower c = if leb b'A' c && leb c b'Z' then c + 32 else c

-- `strncasecmp(id, name, length of name) == 0`
has_prefix : Bytes → Bytes → Bool
unfolding lower
has_prefix [] id = true
has_prefix (c ∷ name) [] = false
has_prefix (c ∷ name) (d ∷ id) = lower d == c && has_prefix name id

unfoldable pub is_adsp : Bytes → Bool
unfolding has_prefix
is_adsp id =
    has_prefix (bytes "msm") id
    || has_prefix (bytes "sdm") id
    || has_prefix (bytes "sdc") id
    || has_prefix (bytes "apq") id
    || has_prefix (bytes "sm8150") id

-- The lists and counters of `enum_sndcards`.
pub record Counts : Type 0 where
  pub cards : List SndCard
  pub num_cards : ℕ
  pub num_cpe : ℕ

abbrev pub counted : ℕ → Bytes → Counts → Counts
counted card state k = record k {
  cards = add_new_sndcard card state k.cards;
  num_cards = k.num_cards + 1;
}

-- The CPE state of the card that was added last; `while (--tries)` from 2 makes one attempt.
unfoldable pub add_cpe : Proc → Bytes → Counts → Counts
add_cpe proc ptr k =
    if proc.cpe_readable ptr
    then elim (proc.cpe_state ptr 1) [
      | none ↦ k
      | some state ↦ record (counted (cpe_magic_num + k.num_cpe) state k) {
        num_cpe = k.num_cpe + 1;
      }
    ]
    else k

abbrev pub open_card : Proc → Bytes → Bytes → Counts → Counts
open_card proc ptr id k =
    if is_adsp id
    then elim (proc.card_state ptr) [
      | none ↦ k
      | some state ↦ add_cpe proc ptr (counted (uint32 (atoi ptr)) state k)
    ]
    else k

-- A line " 0 [msm8953 ]: …"
unfoldable pub add_card : Proc → Bytes → Counts → Counts
unfolding strtok is_adsp add_new_sndcard add_cpe atoi
add_card proc text k = elim (strtok (bytes " [") text) [
  | none ↦ k
  | some (ptr, rest) ↦ elim (strtok (bytes "]") (drop 1 rest)) [
    | none ↦ k
    | some (id, later) ↦ open_card proc ptr id k
  ]
]

-- Every other line is looked at.
unfoldable pub add_cards : Proc → Bool → List Bytes → Counts → Counts
unfolding add_card
add_cards proc odd [] k = k
add_cards proc true (text ∷ texts) k = add_cards proc false texts k
add_cards proc false (text ∷ texts) k = add_cards proc true texts (add_card proc text k)

-- `while (--tries)`: the first attempt that opens the file.
unfoldable pub open_cards : Proc → ℕ → Option (List Bytes)
open_cards proc zero = none
open_cards proc (suc tries) =
    let later = open_cards proc tries in
    elim (proc.cards_file (suc tries)) [ none ↦ later | some texts ↦ some texts ]

unfoldable pub open_slpi : Proc → ℕ → Option Bytes
open_slpi proc zero = none
open_slpi proc (suc tries) =
    let later = open_slpi proc tries in
    elim (proc.slpi_state tries) [ none ↦ later | some state ↦ some state ]

unfoldable pub add_slpi : Proc → Counts → Counts
unfolding open_slpi add_new_sndcard
add_slpi proc k =
    if proc.slpi_readable
    then elim (open_slpi proc 2) [ none ↦ k | some state ↦ counted slpi_magic_num state k ]
    else k

abbrev pub no_counts : Counts
no_counts = record { cards = []; num_cards = 0; num_cpe = 0 }

abbrev pub enodev : ℤ
enodev = neg 19

unfoldable pub enum_sndcards : Proc → Monitor → ℤ × Monitor
unfolding open_cards add_cards add_slpi
enum_sndcards proc m = elim (open_cards proc 9) [
  | none ↦ (enodev, m)
  | some texts ↦
      let k = add_slpi proc (add_cards proc false texts no_counts) in
      (
        if k.num_cards == 0 then negsuc 0 else pos 0,
        record m { cards = k.cards; num_cards = k.num_cards },
      )
]

-- Where the start fails the cards are freed again.
abbrev pub started : Proc → ℤ × Monitor → ℤ × Monitor
started proc (pos n, m) =
    if proc.has_listeners
    then (if proc.thread_starts
        then (pos 0, record m { listeners = []; initcheck = true })
        else (enodev, record m { listeners = []; cards = [] }))
    else (enodev, record m { cards = [] })
started proc (negsuc n, m) = (enodev, m)

unfoldable pub init : Proc → Monitor → ℤ × Monitor
unfolding enum_sndcards
init proc m =
    let cleared = record m { cards = []; dev_events = []; initcheck = false } in
    if proc.has_pipe then started proc (enum_sndcards proc cleared) else (enodev, cleared)
