-- ===== src/Rome/Soc.antt =====
-- hw_rome.c: the static data of the file, the UART, and bytes.
use android_device_zte_fujis.Common.{
  ℕ, zero, suc, ◌+◌, ◌*◌, ◌-◌, ◌^◌, Bool, List, [], ◌∷◌, ℤ, pos, negsuc, ltb, leb, ◌==◌,
  if◌then◌else◌,
}
use android_device_zte_fujis.Rome.Write.{Line}
use android_device_zte_fujis.Rome.Read.{Reader}

-- What is written to BT_VERSION_FILEPATH: the four numbers, which replace the file, or the label of
-- the build, which is appended.
pub data Note : Type 0 where
  versions : (product_id patch_version build_version soc_id : ℕ) → Note
  build_info : List ℕ → Note

-- `fopen t` is whether the version file opens after the notes `t`; `stale` is what stands in an
-- event buffer that its caller does not clear.
pub record Uart : Type 0 where
  pub write : Line
  pub read : Reader
  pub fopen : List Note → Bool
  pub stale : ℕ → ℕ

-- The variables of the file; `dnld_fd` is whether it is not -1, `a4wp` whether the property
-- persist.vendor.bluetooth.a4wp was set. `incoming` are the bytes still to be read, `wire` those
-- written so far, and `notes` what was written to the version file, newest first.
pub record Soc : Type 0 where
  pub chipset_ver : ℤ
  pub tlv_type : ℕ
  pub tlv_dwnd_cfg : ℕ
  pub wipower_flag : ℕ
  pub wipower_handoff_ready : ℕ
  pub wait_vsc_evt : Bool
  pub patch_dnld_pending : Bool
  pub dnld_fd : Bool
  pub a4wp : Bool
  pub phdr_buffer : List ℕ
  pub pdata_buffer : List ℕ
  pub incoming : List ℕ
  pub wire : List ℕ
  pub notes : List Note

-- A number of 32 bits read as an `int`.
unfoldable pub to_int : ℕ → ℤ
to_int n = if ltb n (2 ^ 31) then pos n else negsuc (2 ^ 32 - 1 - n)

-- `chipset_ver >= v`
abbrev pub at_least : ℤ → ℕ → Bool
at_least (pos n) v = leb v n
at_least (negsuc _) v = Bool.false

-- The bytes of an event buffer: those read, then what stood there.
abbrev pub event_buffer : List ℕ → (stale : ℕ → ℕ) → (ℕ → ℕ)
event_buffer [] stale i = stale i
event_buffer (b ∷ t) stale i =
    let rest = event_buffer t (λ j. stale (suc j)) (i - 1) in if i == 0 then b else rest

abbrev pub bytes_from : (ℕ → ℕ) → (offset n : ℕ) → List ℕ
bytes_from rsp offset zero = []
bytes_from rsp offset (suc n) = rsp offset ∷ bytes_from rsp (offset + 1) n

-- Little-endian numbers.
abbrev pub le16 : (ℕ → ℕ) → (offset : ℕ) → ℕ
le16 rsp i = rsp (i + 1) * 2 ^ 8 + rsp i

abbrev pub le32 : (ℕ → ℕ) → (offset : ℕ) → ℕ
le32 rsp i = rsp (i + 3) * 2 ^ 24 + rsp (i + 2) * 2 ^ 16 + rsp (i + 1) * 2 ^ 8 + rsp i

-- What `%s` prints of an array.
abbrev pub c_string : List ℕ → List ℕ
c_string [] = []
c_string (b ∷ t) = let rest = c_string t in if b == 0 then [] else b ∷ rest
