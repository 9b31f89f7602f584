-- ===== src/Rome/EventLaws.antt =====
-- What `get_vs_hci_event` and `read_vs_hci_event` make of an event.
use android_device_zte_fujis.Common.{
  ℕ, ◌+◌, ◌*◌, ◌/◌, ◌%◌, ◌^◌, ◌<◌, ◌≡◌, ap, Bool, not, ◌&&◌, ◌||◌, List, [], ◌∷◌, pos, truthy, ◌==◌,
  arith,
}
use android_device_zte_fujis.Rome.Soc.{Uart, Soc, versions, to_int, event_buffer, le16, le32}
use android_device_zte_fujis.Rome.Events.{
  write_note, take_versions, command_response, stray_event, get_vs_hci_event,
}

-- The first bytes of the parameters that `get_vs_hci_event` knows.
abbrev pub is_known : ℕ → Bool
is_known n = n == 0x00 || n == 0x0B || n == 0x92 || n == 0x18 || n == 0x19 || n == 0x1B || n == 0x17

-- An event tells of a failure: it is no vendor event or command complete event or not known, a
-- download's or a command's status is not 0, a baud rate was not taken, or it is stray outside a
-- download.
abbrev pub tells_failure : (ℕ → ℕ) → Soc → Bool
tells_failure rsp s =
    not (rsp 1 == 0xFF || rsp 1 == 0x0E)
    || not (is_known (rsp 3))
    || rsp 3 == 0x00 && (rsp 4 == 0x04 || rsp 4 == 0x00) && not (rsp 5 == 0)
    || rsp 3 == 0x92 && not (rsp 4 == 1)
    || rsp 3 == 0x17 && not (s.patch_dnld_pending && s.dnld_fd)

-- `get_vs_hci_event` returns 0 exactly for an event that tells of no failure, whatever a nested
-- read does.
get_vs_hci_event-tells_failure :
    (u : Uart) (nested : Soc → Soc) (rsp : ℕ → ℕ) (s : Soc)
    → truthy (get_vs_hci_event u nested rsp s).0 ≡ tells_failure rsp s
unfolding get_vs_hci_event command_response stray_event
get_vs_hci_event-tells_failure u nested rsp s = ground arith

-- A number in bytes, the low one first.
abbrev pub bytes16 : ℕ → List ℕ → List ℕ
bytes16 n rest = n % 2 ^ 8 ∷ n / 2 ^ 8 % 2 ^ 8 ∷ rest

abbrev pub bytes32 : ℕ → List ℕ → List ℕ
bytes32 n rest = bytes16 n (bytes16 (n / 2 ^ 16) rest)

-- The event that reports versions: product, patch, build and SOC.
abbrev pub version_event : (product patch build soc_id : ℕ) → List ℕ
version_event product patch build soc_id =
    0x04
    ∷ 0xFF
    ∷ 14
    ∷ 0x00
    ∷ 0x19
    ∷ bytes32 product (bytes16 patch (bytes16 build (bytes32 soc_id [])))

-- An event that reports the versions of the controller is understood: `chipset_ver` has the build
-- version in its upper two bytes and the lower two bytes of the SOC's version below, the numbers
-- are what the event was made of, and they go to the version file, if that opens.
version_event-get_vs_hci_event :
    (u : Uart) (nested : Soc → Soc) (stale : ℕ → ℕ) (product patch build soc_id : ℕ) (s : Soc)
    → product < 2 ^ 32
    → patch < 2 ^ 16
    → build < 2 ^ 16
    → soc_id < 2 ^ 32
    → get_vs_hci_event u nested (event_buffer (version_event product patch build soc_id) stale) s
      ≡ (
        pos 0,
        record (write_note u (versions product patch build soc_id) s) {
          chipset_ver = to_int (build * 2 ^ 16 + soc_id % 2 ^ 16);
        },
      )
unfolding get_vs_hci_event command_response take_versions
version_event-get_vs_hci_event u nested stale product patch build soc_id s p q b c =
    let rsp = event_buffer (version_event product patch build soc_id) stale in
    let product' : le32 rsp 5 ≡ product = omega arith in
    let patch' : le16 rsp 9 ≡ patch = omega arith in
    let build' : le16 rsp 11 ≡ build = omega arith in
    let soc_id' : le32 rsp 13 ≡ soc_id = omega arith in
    ap
      (λ (v : ℕ × ℕ × ℕ × ℕ). (
        pos 0,
        record (write_note u (versions v.0 v.1 v.2 v.3) s) {
          chipset_ver = to_int (v.2 * 2 ^ 16 + v.3 % 2 ^ 16);
        },
      ))
      (ground (arith, product', patch', build', soc_id'))
