-- ===== src/Rome/CommandLaws.antt =====
-- Framed commands say their own length and fit into their buffer.
use android_device_zte_fujis.Common.{
  ℕ, ◌+◌, ◌*◌, ◌-◌, ◌≤◌, ◌≡◌, List, ◌∷◌, length, length-take, length-drop, arith, drop,
}
use android_device_zte_fujis.Rome.Command.{Edl, max_data, max_tlv, frame_hci_cmd_pkt}

-- The fourth byte of a command.
abbrev pub plen_of : List ℕ → ℕ
plen_of (a ∷ b ∷ c ∷ n ∷ rest) = n
plen_of _ = 0

-- The sizes that the callers ask for, and the data that these need.
abbrev pub IsAsked : (phdr pdata : List ℕ) → Edl → (segt_no size : ℕ) → Type 0
IsAsked phdr pdata Edl.patch_set n size = (size ≡ 29) × (28 ≤ length phdr)
IsAsked phdr pdata Edl.patch_dld n size =
    (size ≤ max_data) × ((n - 1) * max_data + size ≤ length pdata)
IsAsked phdr pdata Edl.patch_tlv n size = (size ≤ max_tlv) × (n * max_tlv + size ≤ length pdata)
IsAsked phdr pdata c n size = size ≡ 1

-- A command has the packet's indicator, the opcode, its length and as many bytes as that says, and
-- fits into HCI_MAX_CMD_SIZE.
frame_hci_cmd_pkt-length :
    (phdr pdata : List ℕ) (c : Edl) (base n size : ℕ)
    → IsAsked phdr pdata c n size
    → (length (frame_hci_cmd_pkt phdr pdata c base n size)
        ≡ 4 + plen_of (frame_hci_cmd_pkt phdr pdata c base n size))
      × (length (frame_hci_cmd_pkt phdr pdata c base n size) ≤ 260)
unfolding frame_hci_cmd_pkt
frame_hci_cmd_pkt-length phdr pdata Edl.patch_set base n size (e, there) =
    let len = length-take 28 phdr there in ground (arith, len)
frame_hci_cmd_pkt-length phdr pdata Edl.patch_dld base n size (small, there) =
    let left = length-drop ((n - 1) * max_data) pdata in
    let len = length-take size (drop ((n - 1) * max_data) pdata) (omega arith) in
    ground (arith, len)
frame_hci_cmd_pkt-length phdr pdata Edl.patch_tlv base n size (small, there) =
    let left = length-drop (n * max_tlv) pdata in
    let len = length-take size (drop (n * max_tlv) pdata) (omega arith) in ground (arith, len)
frame_hci_cmd_pkt-length phdr pdata Edl.patch_atch base n size e = ground arith
frame_hci_cmd_pkt-length phdr pdata Edl.patch_rst base n size e = ground arith
frame_hci_cmd_pkt-length phdr pdata Edl.patch_ver base n size e = ground arith
frame_hci_cmd_pkt-length phdr pdata Edl.build_info base n size e = ground arith
