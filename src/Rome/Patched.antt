-- ===== src/Rome/Patched.antt =====
-- The download of a patch puts the whole patch on the wire, each part with its address.
use android_device_zte_fujis.Common.{
  ℕ, zero, suc, ◌+◌, ◌*◌, ◌-◌, ◌/◌, ◌%◌, ◌^◌, ◌≤◌, ◌<◌, ◌≡◌, refl, ◌∙◌, ap, sym, true, false, List,
  [], ◌∷◌, ◌++◌, pos, is_neg, length, take, drop, length-take, length-drop, drop-drop, append_assoc,
  append-nil, arith, if_at, ltb, ◌==◌, if◌then◌else◌, ◌⊎◌,
}
use android_device_zte_fujis.Rome.Write.{segment}
use android_device_zte_fujis.Rome.Soc.{Uart, Soc}
use android_device_zte_fujis.Rome.Command.{
  Edl, max_data, extract_byte, frame_hci_cmd_pkt, is_size, hci_send_vs_cmd,
}
use android_device_zte_fujis.Rome.Patch.{
  Patching, patch_segment, patch_segments, last_patch_segment, rome_edl_patch_download_request,
}
use android_device_zte_fujis.Rome.Sending.{
  IsWhole, Kept, hci_send_vs_cmd-Kept, command_complete-Same, write_all_whole,
}

-- The command that writes bytes to an address of 32 bits.
abbrev pub patch_command : (addr : ℕ) → List ℕ → List ℕ
patch_command addr c =
    0x01
    ∷ 0x00
    ∷ 0xFC
    ∷ (length c + 6)
    ∷ 0x01
    ∷ (length c + 4)
    ∷ extract_byte (addr % 2 ^ 32) 0
    ∷ extract_byte (addr % 2 ^ 32) 1
    ∷ extract_byte (addr % 2 ^ 32) 2
    ∷ extract_byte (addr % 2 ^ 32) 3
    ∷ c

-- `k` commands of 239 bytes, then one of `r` if that is not 0, to consecutive addresses.
abbrev pub patch_commands : (addr k r : ℕ) → List ℕ → List ℕ
patch_commands addr zero r patch = if r == 0 then [] else patch_command addr (take r patch)
patch_commands addr (suc k) r patch =
    patch_command addr (take max_data patch)
    ++ patch_commands (addr + max_data) k r (drop max_data patch)

frame-patch_command :
    (phdr file : List ℕ) (base i n : ℕ)
    → n ≤ max_data
    → i * max_data + n ≤ length file
    → frame_hci_cmd_pkt phdr file Edl.patch_dld base (i + 1) n
      ≡ patch_command (base + i * max_data) (segment (i * max_data) n file)
unfolding frame_hci_cmd_pkt
frame-patch_command phdr file base i n small fits =
    let less : i + 1 - 1 ≡ i = omega arith in
    let left = length-drop (i * max_data) file in
    let len = length-take n (drop (i * max_data) file) (omega arith) in
    rw less (ground (arith, len))

module _ (u : Uart) (whole : IsWhole u.write) where
  hci_send_vs_cmd_result :
      (cmd : List ℕ) (s : Soc)
      → 0 < length cmd
      → (is_size (hci_send_vs_cmd u cmd s).0 (length cmd) ≡ true)
        ⊎ (is_neg (hci_send_vs_cmd u cmd s).0 ≡ true)
  unfolding hci_send_vs_cmd
  hci_send_vs_cmd_result cmd s some_bytes =
      rw (write_all_whole u whole cmd s some_bytes) (ground arith)

  -- A segment is on the wire, and if the download stopped with it then its result is negative.
  patch_segment-Kept :
      (base i n : ℕ) (s : Soc)
      → n ≤ max_data
      → i * max_data + n ≤ length s.pdata_buffer
      → Kept s
          (s.wire ++ patch_command (base + i * max_data) (segment (i * max_data) n s.pdata_buffer))
          (patch_segment u base (i + 1) n s).soc
        × ((patch_segment u base (i + 1) n s).stopped
            ≡ is_neg (patch_segment u base (i + 1) n s).err)
  unfolding patch_segment
  patch_segment-Kept base i n s small fits =
      let cmd = patch_command (base + i * max_data) (segment (i * max_data) n s.pdata_buffer) in
      let framed = frame-patch_command s.phdr_buffer s.pdata_buffer base i n small fits in
      let sent = hci_send_vs_cmd-Kept u whole cmd s (omega arith) in
      let result = hci_send_vs_cmd_result cmd s (omega arith) in
      let complete = command_complete-Same u (hci_send_vs_cmd u cmd s).1 in
      rw framed (ground (arith, sent, result, complete))

-- Unless it stopped, the download from `p` to `q` put these bytes on the wire.
abbrev Put : Patching → List ℕ → Patching → Type 0
Put p out q = q.stopped ≡ false → Kept p.soc (p.soc.wire ++ out) q.soc

Put-++ :
    (p d q : Patching) (out more : List ℕ)
    → Kept p.soc (p.soc.wire ++ out) d.soc
    → Put d more q
    → Put p (out ++ more) q
Put-++ p d q out more first others h =
    let kept = others h in
    record {
      kept_wire =
          kept.kept_wire
          ∙ ap {B = List ℕ} (λ t. t ++ more) first.kept_wire
          ∙ append_assoc p.soc.wire out more;
      kept_pdata = kept.kept_pdata ∙ first.kept_pdata;
      kept_phdr = kept.kept_phdr ∙ first.kept_phdr;
    }

-- The download stopped exactly if its result is negative.
abbrev StopsOnFailure : Patching → Type 0
StopsOnFailure p = p.stopped ≡ is_neg p.err

module _ (u : Uart) (whole : IsWhole u.write) (base total r : ℕ) where
  last_patch_segment-Put :
      (p : Patching)
      → r ≤ max_data
      → total * max_data + r ≤ length p.soc.pdata_buffer
      → StopsOnFailure p
      → Put p
          (patch_commands
            (base + total * max_data)
            0
            r
            (drop (total * max_data) p.soc.pdata_buffer))
          (last_patch_segment u base (total + 1) r p)
        × StopsOnFailure (last_patch_segment u base (total + 1) r p)
  unfolding last_patch_segment
  last_patch_segment-Put p small fits stops =
      let sent = patch_segment-Kept u whole base total r p.soc small fits in
      let nothing = append-nil p.soc.wire in ground (arith, sent, nothing, stops)

  last_patch_segment_stopped :
      (p : Patching) → p.stopped ≡ true → last_patch_segment u base (total + 1) r p ≡ p
  unfolding last_patch_segment
  last_patch_segment_stopped p stopped = ground arith

  patch_segments-Put :
      (k i : ℕ) (p : Patching)
      → i + k ≡ total
      → r ≤ max_data
      → total * max_data + r ≤ length p.soc.pdata_buffer
      → StopsOnFailure p
      → Put p
          (patch_commands (base + i * max_data) k r (drop (i * max_data) p.soc.pdata_buffer))
          (last_patch_segment u base (total + 1) r (patch_segments u base k (i + 1) p))
        × StopsOnFailure
            (last_patch_segment u base (total + 1) r (patch_segments u base k (i + 1) p))
  unfolding patch_segments
  patch_segments-Put zero i p e small fits stops =
      let here : i ≡ total = omega arith in rw here (last_patch_segment-Put p small fits stops)
  patch_segments-Put (suc k) i p e small fits stops =
      let file = p.soc.pdata_buffer in
      let d = patch_segment u base (i + 1) max_data p.soc in
      let first = patch_segment-Kept u whole base i max_data p.soc (omega arith) (omega arith) in
      let rest =
        patch_segments-Put k (i + 1) d (omega arith) small (rw first.0.kept_pdata fits) first.1 in
      let end = λ (x : Patching). last_patch_segment u base (total + 1) r x in
      let next : drop max_data (drop (i * max_data) file)
          ≡ drop ((i + 1) * max_data) d.soc.pdata_buffer =
        drop-drop max_data (i * max_data) file
        ∙ ap (λ n. drop n file) (omega arith)
        ∙ ap (λ f. drop ((i + 1) * max_data) f) (sym first.0.kept_pdata) in
      let address : base + i * max_data + max_data ≡ base + (i + 1) * max_data = omega arith in
      let later : Put d
          (patch_commands (base + i * max_data + max_data) k r
            (drop max_data (drop (i * max_data) file)))
          (end (patch_segments u base k (i + 1 + 1) d)) =
        rw (next, address) rest.0 in
      let out = patch_commands (base + i * max_data) (suc k) r (drop (i * max_data) file) in
      if_at (λ (q : Patching). Put p out (end q) × StopsOnFailure (end q)) d.stopped _ _
        (λ stopped.
          let stays = last_patch_segment_stopped d stopped in
          rw stays ((λ h. grind (arith, stopped, h)), first.1))
        (λ _. (Put-++ p d (end (patch_segments u base k (i + 1 + 1) d)) _ _ first.0 later, rest.1))

module _ (u : Uart) (whole : IsWhole u.write) where
  -- Over a line that takes each write whole, the download of a patch that does not fail puts the
  -- patch on the wire, cut into parts of 239 bytes and a last one of what remains, each in a command
  -- with its length and its address, which is the patch's base and what was sent before, in 32 bits.
  pub rome_edl_patch_download_request-patch_commands :
      (base : ℕ) (s : Soc)
      → is_neg (rome_edl_patch_download_request u base (length s.pdata_buffer) s).0 ≡ false
      → (rome_edl_patch_download_request u base (length s.pdata_buffer) s).1.wire
        ≡ s.wire
          ++ patch_commands base
              (length s.pdata_buffer / max_data)
              (length s.pdata_buffer % max_data)
              s.pdata_buffer
  unfolding rome_edl_patch_download_request
  rome_edl_patch_download_request-patch_commands base s ok =
      let n = length s.pdata_buffer in
      let size : (if ltb n max_data then n else n % max_data) ≡ n % max_data = ground arith in
      let start : Patching = record { err = pos 0; stopped = false; soc = s } in
      let sent =
        patch_segments-Put u whole base (n / max_data) (n % max_data) (n / max_data) 0 start
          (omega arith) (omega arith) (omega arith) refl in
      let zero_less : base + 0 * max_data ≡ base = omega arith in
      let loop = patch_segments u base (n / max_data) 1 start in
      let q : ℕ → Patching = λ m. last_patch_segment u base (n / max_data + 1) m loop in
      let fine : is_neg (q (n % max_data)).err ≡ false =
        sym (ap (λ m. is_neg (q m).err) size) ∙ ok in
      ap (λ m. (q m).soc.wire) size
      ∙ (sent.0 (sent.1 ∙ fine)).kept_wire
      ∙ ap {B = List ℕ}
          (λ a. s.wire ++ patch_commands a (n / max_data) (n % max_data) s.pdata_buffer) zero_less
