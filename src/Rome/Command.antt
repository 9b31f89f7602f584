-- ===== src/Rome/Command.antt =====
-- hw_rome.c: framing and sending the vendor's HCI commands, and the requests that are one command.
use android_device_zte_fujis.Common.{
  ℕ, ◌+◌, ◌*◌, ◌-◌, ◌/◌, ◌%◌, ◌^◌, Bool, true, false, Option, none, some, List, [], ◌∷◌, ◌++◌, not,
  ◌==◌, ℤ, pos, negsuc, etimedout, is_neg, length, take, if◌then◌else◌,
}
use android_device_zte_fujis.Rome.Write.{do_write, segment}
use android_device_zte_fujis.Rome.Read.{Reading, read_hci_event}
use android_device_zte_fujis.Rome.Soc.{Uart, Soc}
use android_device_zte_fujis.Rome.Events.{max_event_size, read_vs_hci_event}

-- The EDL_* commands that `frame_hci_cmd_pkt` knows.
pub data Edl : Type 0 where
  patch_set patch_dld patch_atch patch_rst patch_ver patch_tlv build_info : Edl

unfoldable pub edl_code : Edl → ℕ
edl_code Edl.patch_set = 0x16
edl_code Edl.patch_dld = 0x01
edl_code Edl.patch_atch = 0x17
edl_code Edl.patch_rst = 0x05
edl_code Edl.patch_ver = 0x19
edl_code Edl.patch_tlv = 0x1E
edl_code Edl.build_info = 0x20

-- MAX_DATA_PER_SEGMENT and MAX_SIZE_PER_TLV_SEGMENT
abbrev pub max_data : ℕ
max_data = 239

abbrev pub max_tlv : ℕ
max_tlv = 243

-- HCI_COMMAND_PKT, the opcode of HCI_PATCH_CMD_OCF with the vendor's group (0xFC00, the low byte
-- first), the length of the parameters, and the command.
abbrev pub edl_header : (plen code : ℕ) → List ℕ
edl_header plen code = 0x01 ∷ 0x00 ∷ 0xFC ∷ plen % 256 ∷ code ∷ []

unfoldable pub extract_byte : (val pos : ℕ) → ℕ
extract_byte val i = val / 2 ^ (8 * i) % 256

-- The bytes up to the length that the header says; those behind are 0 and are not sent.
unfoldable pub frame_hci_cmd_pkt :
    (phdr pdata : List ℕ) → Edl → (p_base_addr segt_no size : ℕ) → List ℕ
frame_hci_cmd_pkt phdr pdata Edl.patch_set base n size = edl_header size 0x16 ++ take 28 phdr
frame_hci_cmd_pkt phdr pdata Edl.patch_dld base n size =
    let offset = (n - 1) * max_data in
    let addr = (base + offset) % 2 ^ 32 in
    edl_header (size + 6) 0x01
    ++ ((size + 4) % 256
        ∷ extract_byte addr 0
        ∷ extract_byte addr 1
        ∷ extract_byte addr 2
        ∷ extract_byte addr 3
        ∷ segment offset size pdata)
frame_hci_cmd_pkt phdr pdata Edl.patch_tlv base n size =
    edl_header (size + 2) 0x1E ++ (size % 256 ∷ segment (n * max_tlv) size pdata)
frame_hci_cmd_pkt phdr pdata c base n size = edl_header size (edl_code c)

-- `do_write` on the wire of the state.
unfoldable pub written : Option (ℤ × List ℕ) → Soc → ℤ × Soc
written none s = (negsuc 0, s)
written (some (r, out)) s = (r, record s { wire = out })

abbrev pub write_all : Uart → (cmd : List ℕ) → Soc → ℤ × Soc
write_all u cmd s = written (do_write u.write cmd s.wire) s

-- `err != size` for an int and a size.
abbrev pub is_size : ℤ → ℕ → Bool
is_size (pos m) n = m == n
is_size (negsuc _) n = false

unfoldable pub hci_send_vs_cmd : Uart → (cmd : List ℕ) → Soc → ℤ × Soc
hci_send_vs_cmd u cmd s =
    let w = write_all u cmd s in
    let e = read_vs_hci_event u max_event_size w.1 in
    if not (is_size w.0 (length cmd))
    then w
    else if w.1.wait_vsc_evt
    then (if is_neg e.0 then etimedout else w.0, e.1)
    else w

-- `read_hci_event` into a buffer of HCI_MAX_EVENT_SIZE bytes: its number of bytes, or -1.
unfoldable pub count_of : Reading → Soc → ℤ × Soc
count_of (none, left) s = (negsuc 0, record s { incoming = left })
count_of (some got, left) s = (pos (length got), record s { incoming = left })

abbrev pub command_complete : Uart → Soc → ℤ × Soc
command_complete u s = count_of (read_hci_event u.read max_event_size s.incoming) s

-- A command, its vendor event where that is waited for, and, where `wait_cc_evt` says so, the
-- command complete event.
unfoldable pub send_and_wait : Uart → (cmd : List ℕ) → (wait_cc_evt : Bool) → Soc → ℤ × Soc
send_and_wait u cmd wait_cc_evt s =
    let r = hci_send_vs_cmd u cmd s in
    if not (is_size r.0 (length cmd)) then r else if wait_cc_evt then command_complete u r.1 else r

unfoldable pub rome_edl_set_patch_request : Uart → Soc → ℤ × Soc
rome_edl_set_patch_request u s =
    send_and_wait u (frame_hci_cmd_pkt s.phdr_buffer s.pdata_buffer Edl.patch_set 0 0 29) true s

unfoldable pub rome_attach_rampatch : Uart → Soc → ℤ × Soc
rome_attach_rampatch u s =
    send_and_wait u (frame_hci_cmd_pkt s.phdr_buffer s.pdata_buffer Edl.patch_atch 0 0 1) true s

unfoldable pub rome_patch_ver_req : Uart → Soc → ℤ × Soc
rome_patch_ver_req u s =
    send_and_wait u (frame_hci_cmd_pkt s.phdr_buffer s.pdata_buffer Edl.patch_ver 0 0 1) true s

unfoldable pub rome_get_build_info_req : Uart → Soc → ℤ × Soc
rome_get_build_info_req u s =
    send_and_wait u (frame_hci_cmd_pkt s.phdr_buffer s.pdata_buffer Edl.build_info 0 0 1) true s

-- No answer comes to a reset.
unfoldable pub rome_rampatch_reset : Uart → Soc → ℤ × Soc
rome_rampatch_reset u s =
    write_all u (frame_hci_cmd_pkt s.phdr_buffer s.pdata_buffer Edl.patch_rst 0 0 1) s
