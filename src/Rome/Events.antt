-- ===== src/Rome/Events.antt =====
-- hw_rome.c, `get_vs_hci_event` and `read_vs_hci_event`, which call each other.
use android_device_zte_fujis.Common.{
  ℕ, zero, suc, ◌+◌, ◌*◌, ◌%◌, ◌^◌, true, not, ◌&&◌, ◌||◌, Option, none, some, List, ◌∷◌, ℤ, pos,
  negsuc, eio, truthy, length, ltb, ◌==◌, if◌then◌else◌,
}
use android_device_zte_fujis.Rome.Read.{is_vs_event, read_packet}
use android_device_zte_fujis.Rome.Soc.{
  Note, versions, build_info, Uart, Soc, to_int, event_buffer, bytes_from, le16, le32, c_string,
}

unfoldable pub write_note : Uart → Note → Soc → Soc
write_note u n s = if u.fopen s.notes then record s { notes = n ∷ s.notes } else s

-- EDL_PATCH_VER_RES_EVT and EDL_APP_VER_RES_EVT. With ten parameters there is no SOC version.
unfoldable pub take_versions : Uart → (rsp : ℕ → ℕ) → Soc → Soc
take_versions u rsp s =
    let soc_id = if rsp 2 == 10 then 0 else le32 rsp 13 in
    let noted = write_note u (versions (le32 rsp 5) (le16 rsp 9) (le16 rsp 11) soc_id) s in
    record noted { chipset_ver = to_int (le16 rsp 11 * 2 ^ 16 + soc_id % 2 ^ 16) }

-- HCI_VS_GET_BUILD_VER_EVT
unfoldable pub take_build_label : Uart → (rsp : ℕ → ℕ) → Soc → Soc
take_build_label u rsp s = write_note u (build_info (c_string (bytes_from rsp 6 (rsp 5)))) s

-- EDL_CMD_REQ_RES_EVT, by the type of the response.
unfoldable pub command_response : Uart → (rsp : ℕ → ℕ) → Soc → ℤ × Soc
command_response u rsp s =
    if rsp 4 == 0x19 || rsp 4 == 0x02
    then (pos 0, take_versions u rsp s)
    else if rsp 4 == 0x04 || rsp 4 == 0x00
    then (pos (rsp 5), s)
    else if rsp 4 == 0x05
    then (pos 0, take_build_label u rsp s)
    else (pos 0, s)

-- HCI_VS_STRAY_EVT: during a download another event is read, whose result does not matter.
unfoldable pub stray_event : (nested : Soc → Soc) → Soc → ℤ × Soc
stray_event nested s =
    if s.patch_dnld_pending && s.dnld_fd then (pos 0, nested s) else (negsuc 0, s)

-- `nested` is the nested call of `read_vs_hci_event`.
unfoldable pub get_vs_hci_event : Uart → (nested : Soc → Soc) → (rsp : ℕ → ℕ) → Soc → ℤ × Soc
get_vs_hci_event u nested rsp s =
    if not (rsp 1 == 0xFF || rsp 1 == 0x0E)
    then (eio, s)
    else if rsp 3 == 0x00
    then command_response u rsp s
    else if rsp 3 == 0x0B
    then (pos 0, s)
    else if rsp 3 == 0x92
    then (if rsp 4 == 1 then pos 0 else negsuc 0, s)
    else if rsp 3 == 0x18
    then (
      pos 0,
      if ltb (rsp 4) 2 then record s { wipower_handoff_ready = rsp 4; wipower_flag = 1 } else s,
    )
    else if rsp 3 == 0x19
    then (pos 0, s)
    else if rsp 3 == 0x1B
    then (pos 0, if rsp 4 % 2 == 1 then record s { a4wp = true } else s)
    else if rsp 3 == 0x17
    then stray_event nested s
    else (negsuc 0, s)

-- A packet that was read is looked into; -1 where none was read or the event reports a failure,
-- else the number of its bytes.
unfoldable pub look_into :
    Uart → (nested : Soc → Soc) → (stale : ℕ → ℕ) → Option (List ℕ) → Soc → ℤ × Soc
look_into u nested stale none s = (negsuc 0, s)
look_into u nested stale (some got) s =
    let r = get_vs_hci_event u nested (event_buffer got stale) s in
    (if truthy r.0 then negsuc 0 else pos (length got), r.1)

unfoldable pub read_vs_with :
    Uart → (nested : Soc → Soc) → (stale : ℕ → ℕ) → (size : ℕ) → Soc → ℤ × Soc
read_vs_with u nested stale size s =
    let p = read_packet u.read is_vs_event size s.incoming in
    look_into u nested stale p.0 (record s { incoming = p.1 })

-- HCI_MAX_EVENT_SIZE
abbrev pub max_event_size : ℕ
max_event_size = 260

-- The nested reads, one in another, into cleared buffers of HCI_MAX_EVENT_SIZE bytes.
unfoldable pub nested_read : Uart → (fuel : ℕ) → Soc → Soc
nested_read u zero s = s
nested_read u (suc k) s = (read_vs_with u (nested_read u k) (λ _. 0) max_event_size s).1

-- Each event that is read takes bytes off those to come, so that one nested read for each is enough.
unfoldable pub read_vs_hci_event : Uart → (size : ℕ) → Soc → ℤ × Soc
read_vs_hci_event u size s = read_vs_with u (nested_read u (length s.incoming)) u.stale size s
