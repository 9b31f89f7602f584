-- ===== src/Rome/Examples.antt =====
-- The theorems about the UART, events and commands of the Rome controller at concrete inputs.
use android_device_zte_fujis.Common.{
  ℕ, zero, suc, ◌≤◌, ◌≡◌, refl, true, false, ◌||◌, some, List, [], ◌∷◌, pos, negsuc, length, leb,
  ◌==◌, if◌then◌else◌, arith,
}
use android_device_zte_fujis.Rome.Write.{Line, do_write}
use android_device_zte_fujis.Rome.Written.{IsLine, do_write_two_short}
use android_device_zte_fujis.Rome.Read.{
  Reader, read_hci_event, read_packet, is_vs_event, find_packet, fill, read_header, read_params,
}
use android_device_zte_fujis.Rome.Frames.{IsReader, read_hci_event_lem}
use android_device_zte_fujis.Rome.Bounds.{IsBounded, read_packet_fits}
use android_device_zte_fujis.Rome.Soc.{Uart, Soc}
use android_device_zte_fujis.Rome.Events.{read_vs_hci_event, read_vs_with, nested_read}
use android_device_zte_fujis.Rome.Nested.{read_vs_hci_event_fuel}
use android_device_zte_fujis.Rome.Tlv.{Progress}

-- A line that takes every write whole, and one that takes two bytes at most.
abbrev pub whole_line : Line
whole_line sent n = pos n

abbrev short_line : Line
short_line sent n = pos (if leb n 2 then n else 2)

-- A UART that gives all that is there, and one that gives a byte at a time.
abbrev all_there : Reader
all_there left n = if leb n (length left) then n else length left

abbrev byte_by_byte : Reader
byte_by_byte left n = if n == 0 || length left == 0 then 0 else 1

abbrev pub uart : Uart
uart = record { write = whole_line; read = byte_by_byte; fopen = λ _. true; stale = λ _. 0 }

abbrev pub repeat : ℕ → ℕ → List ℕ
repeat zero b = []
repeat (suc n) b = b ∷ repeat n b

-- Rome 3.2 with a rampatch of 245 bytes that only the last segment's event is waited for.
abbrev pub soc : Soc
soc = record {
  chipset_ver = pos 0x03020044;
  tlv_type = 1;
  tlv_dwnd_cfg = 3;
  wipower_flag = 0;
  wipower_handoff_ready = 0;
  wait_vsc_evt = true;
  patch_dnld_pending = false;
  dnld_fd = true;
  a4wp = false;
  phdr_buffer = [];
  pdata_buffer = repeat 245 7;
  incoming = 0x00 ∷ 0x04 ∷ 0xFF ∷ 3 ∷ 0x00 ∷ 0x00 ∷ 0x00 ∷ [];
  wire = [];
  notes = [];
}

abbrev progress : Progress
progress = record {
  err = negsuc 0;
  wait_cc_evt = false;
  stopped = false;
  soc = record soc { wait_vsc_evt = false };
}

abbrev four : List ℕ
four = 1 ∷ 2 ∷ 3 ∷ 4 ∷ []

short_line-IsLine : IsLine short_line
short_line-IsLine sent n r h = ground arith

do_write_two_short_example :
    do_write short_line (1 ∷ 2 ∷ 3 ∷ 4 ∷ 5 ∷ []) [] ≡ some (pos 5, 1 ∷ 2 ∷ 3 ∷ 4 ∷ 3 ∷ [])
do_write_two_short_example =
    do_write_two_short short_line (1 ∷ 2 ∷ 3 ∷ 4 ∷ 5 ∷ []) [] 1 1 0 refl refl refl refl

byte_by_byte-IsReader : IsReader byte_by_byte
byte_by_byte-IsReader = record {
  asked = λ left n. ground arith;
  there = λ left n. ground arith;
  progress = λ left n some_asked some_there. ground arith;
}

byte_by_byte-IsBounded : IsBounded byte_by_byte
byte_by_byte-IsBounded = record {
  asked = byte_by_byte-IsReader.asked;
  there = byte_by_byte-IsReader.there;
}

read_hci_event_lem_example :
    read_hci_event byte_by_byte 260 (9 ∷ 4 ∷ 0x0E ∷ 1 ∷ 7 ∷ 8 ∷ [])
    ≡ (some (4 ∷ 0x0E ∷ 1 ∷ 7 ∷ []), 8 ∷ [])
read_hci_event_lem_example =
    read_hci_event_lem byte_by_byte byte_by_byte-IsReader 260 (9 ∷ 4 ∷ 0x0E ∷ 1 ∷ 7 ∷ 8 ∷ [])
      (omega arith)

read_packet_fits_example : (3 ≤ 5) × (5 ≤ 6)
unfolding read_packet find_packet read_header fill read_params
read_packet_fits_example =
    read_packet_fits byte_by_byte is_vs_event byte_by_byte-IsBounded 6 (4 ∷ 0xFF ∷ 2 ∷ 7 ∷ 8 ∷ [])
      (4 ∷ 0xFF ∷ 2 ∷ 7 ∷ 8 ∷ []) (omega arith) refl

read_vs_hci_event_fuel_example :
    read_vs_hci_event uart 260 soc ≡ read_vs_with uart (nested_read uart 9) (λ _. 0) 260 soc
read_vs_hci_event_fuel_example = read_vs_hci_event_fuel uart 260 9 soc (omega arith)

abbrev patch_event : ℕ → ℕ
patch_event i = if i == 1 then 0xFF else 0
