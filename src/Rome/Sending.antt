-- ===== src/Rome/Sending.antt =====
-- What sending a command leaves alone: only the command goes on the wire, and no event changes what
-- is to be downloaded.
use android_device_zte_fujis.Common.{
  ℕ, zero, suc, ◌<◌, ◌≡◌, refl, ap, Bool, Option, none, some, List, ◌++◌, pos, length, arith, inl,
}
use android_device_zte_fujis.Rome.Write.{Line}
use android_device_zte_fujis.Rome.Written.{do_write_one_short}
use android_device_zte_fujis.Rome.Read.{Reading, read_packet, is_vs_event, read_hci_event}
use android_device_zte_fujis.Rome.Soc.{Uart, Soc, event_buffer, Note}
use android_device_zte_fujis.Rome.Events.{
  write_note, take_versions, take_build_label, command_response, stray_event, get_vs_hci_event,
  look_into, read_vs_with, max_event_size, nested_read, read_vs_hci_event,
}
use android_device_zte_fujis.Rome.Command.{
  written, write_all, hci_send_vs_cmd, count_of, command_complete, send_and_wait,
}

-- The line takes whatever it is given.
abbrev pub IsWhole : Line → Type 0
IsWhole l = (sent : List ℕ) (n : ℕ) → 0 < n → l sent n ≡ pos n

-- `t` has the wire given and the buffers of `s`.
pub record Kept (s : Soc) (wire : List ℕ) (t : Soc) : Type 0 where
  pub kept_wire : t.wire ≡ wire
  pub kept_pdata : t.pdata_buffer ≡ s.pdata_buffer
  pub kept_phdr : t.phdr_buffer ≡ s.phdr_buffer

abbrev pub Same : Soc → Soc → Type 0
Same s t = Kept s s.wire t

module _ (u : Uart) where
  write_note-Same : (n : Note) (s : Soc) → Same s (write_note u n s)
  unfolding write_note
  write_note-Same n s = ground arith

  command_response-Same : (rsp : ℕ → ℕ) (s : Soc) → Same s (command_response u rsp s).1
  unfolding command_response take_versions take_build_label write_note
  command_response-Same rsp s = ground arith

  module _ (nested : Soc → Soc) (same : (s : Soc) → Same s (nested s)) where
    get_vs_hci_event-Same : (rsp : ℕ → ℕ) (s : Soc) → Same s (get_vs_hci_event u nested rsp s).1
    unfolding get_vs_hci_event stray_event
    get_vs_hci_event-Same rsp s =
        let response = command_response-Same rsp s in
        let inner = same s in ground (arith, response, inner)

    look_into-Same :
        (stale : ℕ → ℕ) (got : Option (List ℕ)) (s : Soc)
        → Same s (look_into u nested stale got s).1
    unfolding look_into
    look_into-Same stale none s = ground arith
    look_into-Same stale (some p) s = get_vs_hci_event-Same (event_buffer p stale) s

    read_vs_with-Same :
        (stale : ℕ → ℕ) (size : ℕ) (s : Soc) → Same s (read_vs_with u nested stale size s).1
    unfolding read_vs_with
    read_vs_with-Same stale size s =
        let p = read_packet u.read is_vs_event size s.incoming in
        let seen = look_into-Same stale p.0 (record s { incoming = p.1 }) in ground (arith, seen)

  nested_read-Same : (k : ℕ) (s : Soc) → Same s (nested_read u k s)
  unfolding nested_read
  nested_read-Same zero s = ground arith
  nested_read-Same (suc k) s =
      read_vs_with-Same (nested_read u k) (nested_read-Same k) (λ _. 0) max_event_size s

  read_vs_hci_event-Same : (size : ℕ) (s : Soc) → Same s (read_vs_hci_event u size s).1
  unfolding read_vs_hci_event
  read_vs_hci_event-Same size s =
      read_vs_with-Same (nested_read u (length s.incoming)) (nested_read-Same (length s.incoming))
        u.stale size s

  count_of-Same : (r : Reading) (s : Soc) → Same s (count_of r s).1
  unfolding count_of
  count_of-Same (none, left) s = ground arith
  count_of-Same (some got, left) s = ground arith

  pub command_complete-Same : (s : Soc) → Same s (command_complete u s).1
  command_complete-Same s = count_of-Same (read_hci_event u.read max_event_size s.incoming) s

module _ (u : Uart) (whole : IsWhole u.write) where
  pub write_all_whole :
      (cmd : List ℕ) (s : Soc)
      → 0 < length cmd
      → write_all u cmd s ≡ (pos (length cmd), record s { wire = s.wire ++ cmd })
  unfolding written
  write_all_whole cmd s some_bytes =
      ap (λ w. written w s)
        (do_write_one_short u.write cmd s.wire (length cmd) some_bytes
          (whole s.wire (length cmd) some_bytes) (inl refl))

  pub hci_send_vs_cmd-Kept :
      (cmd : List ℕ) (s : Soc) → 0 < length cmd → Kept s (s.wire ++ cmd) (hci_send_vs_cmd u cmd s).1
  unfolding hci_send_vs_cmd
  hci_send_vs_cmd-Kept cmd s some_bytes =
      let out = record s { wire = s.wire ++ cmd } in
      let event = read_vs_hci_event-Same u max_event_size out in
      rw (write_all_whole cmd s some_bytes) (ground (arith, event))

  pub send_and_wait-Kept :
      (cmd : List ℕ) (b : Bool) (s : Soc)
      → 0 < length cmd
      → Kept s (s.wire ++ cmd) (send_and_wait u cmd b s).1
  unfolding send_and_wait
  send_and_wait-Kept cmd b s some_bytes =
      let sent = hci_send_vs_cmd-Kept cmd s some_bytes in
      let complete = command_complete-Same u (hci_send_vs_cmd u cmd s).1 in
      ground (arith, sent, complete)
