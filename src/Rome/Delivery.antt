-- ===== src/Rome/Delivery.antt =====
-- The steps of a TLV download, each with the payloads that it puts on the wire.
use android_device_zte_fujis.Common.{
  ℕ, zero, suc, ◌+◌, ◌*◌, ◌≤◌, ◌≡◌, refl, ◌∙◌, ap, sym, Bool, true, false, not, List, ◌∷◌, ◌++◌,
  map, is_neg, length, drop, length-take, length-drop, drop-drop, append_assoc, append-nil, arith,
  if_at, ◌==◌,
}
use android_device_zte_fujis.Rome.Write.{segment}
use android_device_zte_fujis.Rome.Soc.{Uart}
use android_device_zte_fujis.Rome.Command.{Edl, max_tlv, frame_hci_cmd_pkt}
use android_device_zte_fujis.Rome.Tlv.{
  Progress, first_waits, adjust_waits, segment_waits, rome_tlv_dnld_segment, download_segment,
  full_segments, last_segment,
}
use android_device_zte_fujis.Rome.Sending.{IsWhole, Kept, Same, send_and_wait-Kept}
use android_device_zte_fujis.Rome.Chunks.{chunks, join, tlv_command}

-- A segment of a file that reaches that far is framed as its payload's command.
frame-tlv_command :
    (phdr file : List ℕ) (i n : ℕ)
    → n ≤ max_tlv
    → i * max_tlv + n ≤ length file
    → frame_hci_cmd_pkt phdr file Edl.patch_tlv 0 i n ≡ tlv_command (segment (i * max_tlv) n file)
unfolding frame_hci_cmd_pkt
frame-tlv_command phdr file i n small fits =
    let left = length-drop (i * max_tlv) file in
    let len = length-take n (drop (i * max_tlv) file) (omega arith) in ground (arith, len)

module _ (u : Uart) (whole : IsWhole u.write) where
  download_segment-Kept :
      (i n : ℕ) (p : Progress)
      → n ≤ max_tlv
      → i * max_tlv + n ≤ length p.soc.pdata_buffer
      → Kept p.soc
          (p.soc.wire ++ tlv_command (segment (i * max_tlv) n p.soc.pdata_buffer))
          (download_segment u i n p).soc
  unfolding download_segment rome_tlv_dnld_segment
  download_segment-Kept i n p small fits =
      let s = record p.soc { patch_dnld_pending = true } in
      let framed = frame-tlv_command s.phdr_buffer s.pdata_buffer i n small fits in
      let sent =
        send_and_wait-Kept u whole (tlv_command (segment (i * max_tlv) n p.soc.pdata_buffer))
          p.wait_cc_evt s (omega arith) in
      rw framed (ground (arith, sent))

adjust_waits-Same :
    (a b : Bool) (p : Progress)
    → (Same p.soc (adjust_waits a b p).soc) × ((adjust_waits a b p).stopped ≡ p.stopped)
unfolding adjust_waits
adjust_waits-Same a b p = ground arith

pub first_waits-Same :
    (p : Progress)
    → (Same p.soc (first_waits p).soc)
      × ((first_waits p).stopped ≡ p.stopped)
      × ((first_waits p).err ≡ p.err)
unfolding first_waits
first_waits-Same p = ground arith

segment_waits-Same : (r k : ℕ) (p : Progress) → Same p.soc (segment_waits r k p).soc
unfolding segment_waits
segment_waits-Same r k p =
    let adjusted = adjust_waits-Same (not (r == 0)) (r == 0) p in ground (arith, adjusted)

-- Unless it stopped, the download from `p` to `q` put these payloads on the wire.
abbrev pub Delivered : Progress → List (List ℕ) → Progress → Type 0
Delivered p payloads q =
    q.stopped ≡ false → Kept p.soc (p.soc.wire ++ join (map tlv_command payloads)) q.soc

-- One payload more.
Delivered-cons :
    (p d q : Progress) (c : List ℕ) (rest : List (List ℕ))
    → Kept p.soc (p.soc.wire ++ tlv_command c) d.soc
    → Delivered d rest q
    → Delivered p (c ∷ rest) q
Delivered-cons p d q c rest first others h =
    let kept = others h in
    record {
      kept_wire =
          kept.kept_wire
          ∙ ap {B = List ℕ} (λ t. t ++ join (map tlv_command rest)) first.kept_wire
          ∙ append_assoc p.soc.wire (tlv_command c) (join (map tlv_command rest));
      kept_pdata = kept.kept_pdata ∙ first.kept_pdata;
      kept_phdr = kept.kept_phdr ∙ first.kept_phdr;
    }

module _ (u : Uart) (whole : IsWhole u.write) where
  -- The waits may be set first.
  segment_after :
      (i n : ℕ) (p w : Progress)
      → Same p.soc w.soc
      → n ≤ max_tlv
      → i * max_tlv + n ≤ length p.soc.pdata_buffer
      → Kept p.soc
          (p.soc.wire ++ tlv_command (segment (i * max_tlv) n p.soc.pdata_buffer))
          (download_segment u i n w).soc
  segment_after i n p w same small fits =
      let same_file = same.kept_pdata in
      let sent = download_segment-Kept u whole i n w small (rw same_file fits) in
      ground (arith, sent, same)

  module _ (total r : ℕ) where
    last_segment_stopped :
        (p : Progress) → p.stopped ≡ true → (last_segment u total r p).stopped ≡ true
    unfolding last_segment
    last_segment_stopped p stopped = ground arith

    last_segment-Delivered :
        (p : Progress)
        → r ≤ max_tlv
        → total * max_tlv + r ≤ length p.soc.pdata_buffer
        → Delivered p
            (chunks 0 r (drop (total * max_tlv) p.soc.pdata_buffer))
            (last_segment u total r p)
    unfolding last_segment
    last_segment-Delivered p small fits =
        let w = adjust_waits (r == 0) (not (r == 0)) p in
        let same = (adjust_waits-Same (r == 0) (not (r == 0)) p).0 in
        let sent = segment_after total r p w same small fits in
        let more = append-nil p.soc.wire in
        let alone = append-nil (tlv_command (segment (total * max_tlv) r p.soc.pdata_buffer)) in
        ground (arith, same, sent, more, alone)

    pub all_segments-Delivered :
        (k i : ℕ) (p : Progress)
        → i + k ≡ total
        → r ≤ max_tlv
        → total * max_tlv + r ≤ length p.soc.pdata_buffer
        → Delivered p
            (chunks k r (drop (i * max_tlv) p.soc.pdata_buffer))
            (last_segment u total r (full_segments u r k i p))
    unfolding full_segments
    all_segments-Delivered zero i p e small fits =
        let here : i ≡ total = omega arith in rw here (last_segment-Delivered p small fits)
    all_segments-Delivered (suc k) i p e small fits =
        let file = p.soc.pdata_buffer in
        let d = download_segment u i max_tlv (segment_waits r k p) in
        let first =
          segment_after i max_tlv p (segment_waits r k p) (segment_waits-Same r k p) (omega arith)
            (omega arith) in
        let next : drop max_tlv (drop (i * max_tlv) file)
            ≡ drop ((i + 1) * max_tlv) d.soc.pdata_buffer =
          drop-drop max_tlv (i * max_tlv) file
          ∙ ap (λ n. drop n file) (omega arith)
          ∙ ap (λ f. drop ((i + 1) * max_tlv) f) (sym first.kept_pdata) in
        let others : Delivered d (chunks k r (drop max_tlv (drop (i * max_tlv) file)))
            (last_segment u total r (full_segments u r k (i + 1) d)) =
          rw next
            (all_segments-Delivered k (i + 1) d (omega arith) small (rw first.kept_pdata fits)) in
        if_at
          (λ (q : Progress).
            Delivered p (chunks (suc k) r (drop (i * max_tlv) file)) (last_segment u total r q))
          (is_neg d.err) _ _
          (λ _ h.
            let stays = last_segment_stopped (record d { stopped = true }) refl in
            grind (arith, stays, h))
          (λ _.
            Delivered-cons p d (last_segment u total r (full_segments u r k (i + 1) d)) _ _ first
              others)
