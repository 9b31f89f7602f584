-- ===== src/Rome/Download.antt =====
-- The download of a TLV file puts the whole file on the wire, cut into segments.
use android_device_zte_fujis.Common.{
  ℕ, zero, suc, ◌+◌, ◌*◌, ◌/◌, ◌%◌, ◌≤◌, ◌≡◌, ◌∙◌, ap, true, false, List, ◌++◌, map, negsuc, is_neg,
  length, arith, if_at,
}
use android_device_zte_fujis.Rome.Soc.{Uart, Soc}
use android_device_zte_fujis.Rome.Command.{max_tlv}
use android_device_zte_fujis.Rome.Tlv.{
  Progress, first_waits, adjust_waits, segment_waits, download_segment, full_segments, last_segment,
  remain_of, rome_tlv_dnld_req,
}
use android_device_zte_fujis.Rome.Sending.{IsWhole}
use android_device_zte_fujis.Rome.Chunks.{chunks, file_chunks, join, tlv_command, join-file_chunks}
use android_device_zte_fujis.Rome.Delivery.{first_waits-Same, all_segments-Delivered}

-- Where the download stopped, a segment failed and the flag is clear.
abbrev HasFailed : Progress → Type 0
HasFailed p = p.stopped ≡ true → (is_neg p.err ≡ true) × (p.soc.patch_dnld_pending ≡ false)

module _ (u : Uart) where
  full_segments-HasFailed :
      (r k i : ℕ) (p : Progress) → p.stopped ≡ false → HasFailed (full_segments u r k i p)
  unfolding full_segments segment_waits adjust_waits download_segment
  full_segments-HasFailed r zero i p on = ground arith
  full_segments-HasFailed r (suc k) i p on =
      let d = download_segment u i max_tlv (segment_waits r k p) in
      let going : d.stopped ≡ false = ground arith in
      let rest = full_segments-HasFailed r k (i + 1) d going in
      if_at HasFailed (is_neg d.err) _ _ (λ failed. ground arith) (λ _. rest)

  -- The result of the last step, for both ways in which the loop ends.
  last_segment-HasFailed :
      (total r : ℕ) (p : Progress)
      → HasFailed p
      → HasFailed (last_segment u total r p)
        × ((last_segment u total r p).soc.patch_dnld_pending ≡ false)
  unfolding last_segment adjust_waits download_segment
  last_segment-HasFailed total r p failed = ground (arith, failed)

  -- Whatever happens, the download of a TLV file leaves `patch_dnld_pending` clear.
  rome_tlv_dnld_req_pending :
      (n : ℕ) (s : Soc) → (rome_tlv_dnld_req u n s).1.patch_dnld_pending ≡ false
  unfolding rome_tlv_dnld_req
  rome_tlv_dnld_req_pending n s =
      let start : Progress =
        first_waits (record { err = negsuc 0; wait_cc_evt = true; stopped = false; soc = s }) in
      let going : start.stopped ≡ false = (first_waits-Same _).1 in
      (last_segment-HasFailed (n / max_tlv) (remain_of n)
        (full_segments u (remain_of n) (n / max_tlv) 0 start)
        (full_segments-HasFailed (remain_of n) (n / max_tlv) 0 start going)).1

remain_of_lem : (n : ℕ) → remain_of n ≡ n % max_tlv
unfolding remain_of
remain_of_lem n = ground arith

module _ (u : Uart) (whole : IsWhole u.write) where
  -- Over a line that takes each write whole, a download that does not fail puts the file on the
  -- wire, cut into payloads of 243 bytes and a last one of what remains, each in a command that
  -- says its length; the payloads are all of the file, in order.
  pub rome_tlv_dnld_req-file_chunks :
      (s : Soc)
      → is_neg (rome_tlv_dnld_req u (length s.pdata_buffer) s).0 ≡ false
      → ((rome_tlv_dnld_req u (length s.pdata_buffer) s).1.wire
          ≡ s.wire ++ join (map tlv_command (file_chunks s.pdata_buffer)))
        × (join (file_chunks s.pdata_buffer) ≡ s.pdata_buffer)
  unfolding rome_tlv_dnld_req
  rome_tlv_dnld_req-file_chunks s ok =
      let n = length s.pdata_buffer in
      let start : Progress =
        first_waits (record { err = negsuc 0; wait_cc_evt = true; stopped = false; soc = s }) in
      let same =
        first_waits-Same
          (record { err = negsuc 0; wait_cc_evt = true; stopped = false; soc = s }) in
      let loop = full_segments u (remain_of n) (n / max_tlv) 0 start in
      let failed =
        last_segment-HasFailed u (n / max_tlv) (remain_of n) loop
          (full_segments-HasFailed u (remain_of n) (n / max_tlv) 0 start same.1) in
      let rest = remain_of_lem n in
      let q = last_segment u (n / max_tlv) (remain_of n) loop in
      let on : q.stopped ≡ false = ground (arith, failed) in
      let fits : n / max_tlv * max_tlv + remain_of n ≤ length start.soc.pdata_buffer =
        rw same.0.kept_pdata (omega arith) in
      let kept =
        all_segments-Delivered u whole (n / max_tlv) (remain_of n) (n / max_tlv) 0 start
          (omega arith) (omega arith) fits on in
      let payloads : chunks (n / max_tlv) (remain_of n) start.soc.pdata_buffer
          ≡ file_chunks s.pdata_buffer =
        ap (λ f. chunks (n / max_tlv) (remain_of n) f) same.0.kept_pdata
        ∙ ap (λ r. chunks (n / max_tlv) r s.pdata_buffer) rest in
      (
        kept.kept_wire
            ∙ ap {B = List ℕ}
                (λ w.
                  w
                  ++ join
                      (map tlv_command (chunks (n / max_tlv) (remain_of n) start.soc.pdata_buffer)))
                same.0.kept_wire
            ∙ ap {B = List ℕ} (λ c. s.wire ++ join (map tlv_command c)) payloads,
        join-file_chunks s.pdata_buffer,
      )
