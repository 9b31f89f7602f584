-- ===== src/Rome/DeadLine.antt =====
-- A UART that takes nothing: what the download of a TLV file makes of it.
use android_device_zte_fujis.Common.{
  ℕ, zero, suc, ◌+◌, ◌/◌, ◌<◌, ◌≡◌, refl, ◌∙◌, Bool, true, false, not, List, pos, negsuc, length,
  some, arith, ◌==◌, if◌then◌else◌,
}
use android_device_zte_fujis.Rome.Write.{Line, write_loop, do_write}
use android_device_zte_fujis.Rome.Soc.{Uart, Soc}
use android_device_zte_fujis.Rome.Command.{
  Edl, max_tlv, frame_hci_cmd_pkt, written, hci_send_vs_cmd, send_and_wait,
}
use android_device_zte_fujis.Rome.Tlv.{
  Progress, first_waits, adjust_waits, segment_waits, rome_tlv_dnld_segment, download_segment,
  full_segments, last_segment, remain_of, rome_tlv_dnld_req,
}

-- Each call of `write` takes nothing and returns 0.
abbrev pub IsDead : Line → Type 0
IsDead l = (sent : List ℕ) (n : ℕ) → l sent n ≡ pos 0

module _ (u : Uart) (dead : IsDead u.write) where
  do_write_dead : (buf sent : List ℕ) → do_write u.write buf sent ≡ some (pos 0, sent)
  unfolding do_write write_loop
  do_write_dead buf sent = rw (dead sent (length buf), write_loop) refl

  send_and_wait_dead :
      (cmd : List ℕ) (b : Bool) (s : Soc) → 0 < length cmd → send_and_wait u cmd b s ≡ (pos 0, s)
  unfolding send_and_wait hci_send_vs_cmd written
  send_and_wait_dead cmd b s some_bytes = rw (do_write_dead cmd s.wire) (ground arith)

  -- The segment's result is 0, and the wire stays.
  download_segment_dead :
      (i n : ℕ) (p : Progress)
      → ((download_segment u i n p).err ≡ pos 0)
        × ((download_segment u i n p).stopped ≡ p.stopped)
        × ((download_segment u i n p).soc.wire ≡ p.soc.wire)
  unfolding download_segment rome_tlv_dnld_segment frame_hci_cmd_pkt
  download_segment_dead i n p =
      let s = record p.soc { patch_dnld_pending = true } in
      let sent =
        send_and_wait_dead (frame_hci_cmd_pkt s.phdr_buffer s.pdata_buffer Edl.patch_tlv 0 i n)
          p.wait_cc_evt s (omega arith) in
      rw sent (refl, refl, refl)

  adjust_waits_dead :
      (a b : Bool) (p : Progress)
      → ((adjust_waits a b p).err ≡ p.err)
        × ((adjust_waits a b p).stopped ≡ p.stopped)
        × ((adjust_waits a b p).soc.wire ≡ p.soc.wire)
  unfolding adjust_waits
  adjust_waits_dead a b p = ground arith

  segment_waits_dead :
      (r k : ℕ) (p : Progress)
      → ((segment_waits r k p).stopped ≡ p.stopped) × ((segment_waits r k p).soc.wire ≡ p.soc.wire)
  unfolding segment_waits
  segment_waits_dead r k p =
      let adjusted = adjust_waits_dead (not (r == 0)) (r == 0) p in ground (arith, adjusted)

  full_segments_dead :
      (r k i : ℕ) (p : Progress)
      → p.stopped ≡ false
      → ((full_segments u r k i p).stopped ≡ false)
        × ((full_segments u r k i p).soc.wire ≡ p.soc.wire)
        × ((full_segments u r k i p).err ≡ (if k == 0 then p.err else pos 0))
  unfolding full_segments
  full_segments_dead r zero i p on = (on, refl, refl)
  full_segments_dead r (suc k) i p on =
      let w = segment_waits_dead r k p in
      let d = download_segment_dead i max_tlv (segment_waits r k p) in
      let rest =
        full_segments_dead r k (i + 1) (download_segment u i max_tlv (segment_waits r k p))
          (d.1 ∙ w.0 ∙ on) in
      ground (arith, w, d, rest)

  last_segment_dead :
      (total r : ℕ) (p : Progress)
      → p.stopped ≡ false
      → ((last_segment u total r p).soc.wire ≡ p.soc.wire)
        × ((last_segment u total r p).err ≡ (if r == 0 then p.err else pos 0))
  unfolding last_segment
  last_segment_dead total r p on =
      let w = adjust_waits_dead (r == 0) (not (r == 0)) p in
      let d = download_segment_dead total r (adjust_waits (r == 0) (not (r == 0)) p) in
      ground (arith, w, d)

  first_waits_dead :
      (p : Progress)
      → ((first_waits p).stopped ≡ p.stopped) × ((first_waits p).soc.wire ≡ p.soc.wire)
  unfolding first_waits
  first_waits_dead p = ground arith

  -- Over a line that takes nothing, the download of a file that is not empty returns 0, as for a
  -- download that went well, though nothing is put on the wire.
  pub rome_tlv_dnld_req_dead :
      (n : ℕ) (s : Soc)
      → 0 < n
      → ((rome_tlv_dnld_req u n s).0 ≡ pos 0) × ((rome_tlv_dnld_req u n s).1.wire ≡ s.wire)
  unfolding rome_tlv_dnld_req remain_of
  rome_tlv_dnld_req_dead n s some_bytes =
      let p : Progress = record { err = negsuc 0; wait_cc_evt = true; stopped = false; soc = s } in
      let start = first_waits p in
      let first = first_waits_dead p in
      let loop = full_segments u (remain_of n) (n / max_tlv) 0 start in
      let rounds = full_segments_dead (remain_of n) (n / max_tlv) 0 start first.0 in
      let last = last_segment_dead (n / max_tlv) (remain_of n) loop rounds.0 in
      ground (arith, first, rounds, last)
