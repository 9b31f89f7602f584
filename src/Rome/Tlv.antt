-- ===== src/Rome/Tlv.antt =====
-- hw_rome.c: the download of a TLV file, and which events each segment waits for.
use android_device_zte_fujis.Common.{
  ℕ, zero, suc, ◌+◌, ◌/◌, ◌%◌, Bool, true, false, not, ◌&&◌, ℤ, negsuc, is_neg, ltb, ◌==◌,
  if◌then◌else◌,
}
use android_device_zte_fujis.Rome.Soc.{Uart, Soc, at_least}
use android_device_zte_fujis.Rome.Command.{Edl, max_tlv, frame_hci_cmd_pkt, send_and_wait}

-- ROME_VER_1_1 and ROME_VER_3_2
abbrev pub rome_ver_1_1 : ℕ
rome_ver_1_1 = 0x01010000

abbrev pub rome_ver_3_2 : ℕ
rome_ver_3_2 = 0x03020044

-- TLV_TYPE_PATCH
abbrev pub tlv_type_patch : ℕ
tlv_type_patch = 1

-- `err` and `wait_cc_evt` of the download, whether it left for the label `error`, and the state, in
-- which `wait_vsc_evt` stands.
pub record Progress : Type 0 where
  pub err : ℤ
  pub wait_cc_evt : Bool
  pub stopped : Bool
  pub soc : Soc

abbrev waiting : (cce vse : Bool) → Progress → Progress
waiting cce vse p = record p { wait_cc_evt = cce; soc = record p.soc { wait_vsc_evt = vse } }

-- How a download begins: by the kind of the file and its download configuration.
unfoldable pub first_waits : Progress → Progress
first_waits p =
    if p.soc.tlv_type == tlv_type_patch
    then if p.soc.tlv_dwnd_cfg == 0
      then waiting true true p
      else if p.soc.tlv_dwnd_cfg == 3
      then waiting false false p
      else p
    else waiting true true p

-- `cce` and `vse` are the values that `wait_cc_evt` and `wait_vsc_evt` may take.
unfoldable pub adjust_waits : (cce vse : Bool) → Progress → Progress
adjust_waits cce vse p =
    let patch = p.soc.tlv_type == tlv_type_patch in
    if at_least p.soc.chipset_ver rome_ver_1_1
      && not (at_least p.soc.chipset_ver rome_ver_3_2)
      && patch
    then record p { wait_cc_evt = cce }
    else if at_least p.soc.chipset_ver rome_ver_3_2 && patch
    then if p.soc.tlv_dwnd_cfg == 0
      then record p { wait_cc_evt = cce }
      else if p.soc.tlv_dwnd_cfg == 3
      then waiting p.wait_cc_evt vse p
      else p
    else p

unfoldable pub rome_tlv_dnld_segment :
    Uart → (index seg_size : ℕ) → (wait_cc_evt : Bool) → Soc → ℤ × Soc
rome_tlv_dnld_segment u i n wait_cc_evt s =
    send_and_wait u (frame_hci_cmd_pkt s.phdr_buffer s.pdata_buffer Edl.patch_tlv 0 i n) wait_cc_evt
      s

abbrev pub pending : Bool → Soc → Soc
pending b s = record s { patch_dnld_pending = b }

-- One segment, while `patch_dnld_pending` is set.
unfoldable pub download_segment : Uart → (index seg_size : ℕ) → Progress → Progress
download_segment u i n p =
    let r = rome_tlv_dnld_segment u i n p.wait_cc_evt (pending true p.soc) in
    record p { err = r.0; soc = pending false r.1 }

-- Before a full segment after which `k` are to go, the last one is looked for.
unfoldable pub segment_waits : (remain_size k : ℕ) → Progress → Progress
segment_waits remain k p = if k == 0 then adjust_waits (not (remain == 0)) (remain == 0) p else p

-- The loop from segment `i` on, with `k` full segments to go. The flag is cleared also where a
-- segment fails: there the label does it.
unfoldable pub full_segments : Uart → (remain_size k i : ℕ) → Progress → Progress
full_segments u remain zero i p = p
full_segments u remain (suc k) i p =
    let d = download_segment u i max_tlv (segment_waits remain k p) in
    let rest = full_segments u remain k (i + 1) d in
    if is_neg d.err then record d { stopped = true } else rest

-- What follows the loop.
unfoldable pub last_segment : Uart → (total remain_size : ℕ) → Progress → Progress
last_segment u total remain p =
    let w = adjust_waits (remain == 0) (not (remain == 0)) p in
    if p.stopped
    then p
    else if remain == 0
    then record w { soc = pending false w.soc }
    else download_segment u total remain w

unfoldable pub remain_of : (tlv_size : ℕ) → ℕ
remain_of n = if ltb n max_tlv then n else n % max_tlv

unfoldable pub rome_tlv_dnld_req : Uart → (tlv_size : ℕ) → Soc → ℤ × Soc
rome_tlv_dnld_req u n s =
    let start =
      first_waits (record { err = negsuc 0; wait_cc_evt = true; stopped = false; soc = s }) in
    let total = n / max_tlv in
    let p = last_segment u total (remain_of n) (full_segments u (remain_of n) total 0 start) in
    (p.err, p.soc)
