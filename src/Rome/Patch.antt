-- ===== src/Rome/Patch.antt =====
-- hw_rome.c, `rome_edl_patch_download_request`: the download of a patch to Rome 1.0.
use android_device_zte_fujis.Common.{
  ℕ, zero, suc, ◌+◌, ◌/◌, ◌%◌, Bool, true, false, not, ℤ, pos, is_neg, length, ltb, ◌==◌,
  if◌then◌else◌,
}
use android_device_zte_fujis.Rome.Soc.{Uart, Soc}
use android_device_zte_fujis.Rome.Command.{
  Edl, max_data, frame_hci_cmd_pkt, is_size, hci_send_vs_cmd, command_complete,
}

-- `err`, whether the download left for the label `error`, and the state.
pub record Patching : Type 0 where
  pub err : ℤ
  pub stopped : Bool
  pub soc : Soc

-- One segment; the number of its first is 1.
unfoldable pub patch_segment : Uart → (base_addr index size : ℕ) → Soc → Patching
patch_segment u base i n s =
    let cmd = frame_hci_cmd_pkt s.phdr_buffer s.pdata_buffer Edl.patch_dld base i n in
    let r = hci_send_vs_cmd u cmd s in
    let c = command_complete u r.1 in
    if not (is_size r.0 (length cmd))
    then record { err = r.0; stopped = true; soc = r.1 }
    else record { err = c.0; stopped = is_neg c.0; soc = c.1 }

unfoldable pub patch_segments : Uart → (base_addr k index : ℕ) → Patching → Patching
patch_segments u base zero i p = p
patch_segments u base (suc k) i p =
    let d = patch_segment u base i max_data p.soc in
    let rest = patch_segments u base k (i + 1) d in if d.stopped then d else rest

-- What remains after the full segments.
unfoldable pub last_patch_segment : Uart → (base_addr index size : ℕ) → Patching → Patching
last_patch_segment u base i n p =
    let d = patch_segment u base i n p.soc in if p.stopped then p else if n == 0 then p else d

-- `patch_base_addr` and `patch_length` of `rampatch_patch_info`.
unfoldable pub rome_edl_patch_download_request :
    Uart → (patch_base_addr patch_length : ℕ) → Soc → ℤ × Soc
rome_edl_patch_download_request u base len s =
    let start : Patching = record { err = pos 0; stopped = false; soc = s } in
    let total = len / max_data in
    let size = if ltb len max_data then len else len % max_data in
    let p = last_patch_segment u base (total + 1) size (patch_segments u base total 1 start) in
    (p.err, p.soc)
