-- ===== src/Rome/TlvFile.antt =====
-- hw_rome.c, `rome_get_tlv_file` and `rome_download_tlv_file`: a TLV file is read, and the
-- Bluetooth address is put into the tags of an NVM file.
use android_device_zte_fujis.Common.{
  ℕ, zero, suc, ◌+◌, ◌*◌, ◌-◌, ◌^◌, Bool, ◌&&◌, ◌||◌, Option, none, some, List, [], ◌∷◌, ◌++◌, ℤ,
  pos, negsuc, is_neg, length, take, drop, ltb, ◌==◌, if◌then◌else◌,
}
use android_device_zte_fujis.Rome.Soc.{Uart, Soc}
use android_device_zte_fujis.Rome.Tlv.{tlv_type_patch, rome_tlv_dnld_req}

abbrev pub put_before : List ℕ → Option (List ℕ) → Option (List ℕ)
put_before xs none = none
put_before xs (some ys) = some (xs ++ ys)

-- How many bytes of a tag's data are printed: 260 at most fit into PRINT_BUF_SIZE.
abbrev pub printed : (tag_len : ℕ) → ℕ
printed n = if ltb 260 n then 260 else n

-- The loop over the tags, where `left` bytes of the NVM's length are to go and `buf` is the buffer
-- from `nvm_byte_ptr` on; none where bytes behind the buffer are read or written. A tag has a
-- header of 12 bytes, its number and its length first. Each round uses up 12 bytes of the length,
-- so that no more rounds than bytes are needed.
unfoldable pub patch_tags : (bdaddr : List ℕ) → (fuel left : ℕ) → (buf : List ℕ) → Option (List ℕ)
patch_tags bd zero left buf = some buf
patch_tags bd (suc k) left (i0 ∷ i1 ∷ n0 ∷ n1 ∷ p0 ∷ p1 ∷ p2 ∷ p3 ∷ x0 ∷ x1 ∷ x2 ∷ x3 ∷ d) =
    let id = i0 + i1 * 2 ^ 8 in
    let len = n0 + n1 * 2 ^ 8 in
    let data' = if id == 2 then bd ++ drop 6 d else d in
    let rest = patch_tags bd k (left - (12 + len)) (drop len data') in
    let header = i0 ∷ i1 ∷ n0 ∷ n1 ∷ p0 ∷ p1 ∷ p2 ∷ p3 ∷ x0 ∷ x1 ∷ x2 ∷ x3 ∷ [] in
    if left == 0
    then some (header ++ d)
    else if id == 2 && ltb (length d) 6 || ltb (length d) (printed len)
    then none
    else put_before (header ++ take len data') rest
patch_tags bd (suc k) left buf = if left == 0 then some buf else none

-- TLV_TYPE_NVM
abbrev pub tlv_type_nvm : ℕ
tlv_type_nvm = 2

-- The length in the three bytes after the type. The header of a rampatch has 28 bytes.
unfoldable pub patch_file : (bdaddr : List ℕ) → List ℕ → Option (List ℕ)
patch_file bd (t ∷ n0 ∷ n1 ∷ n2 ∷ tags) =
    let len = n0 + n1 * 2 ^ 8 + n2 * 2 ^ 16 in
    if t == tlv_type_nvm
    then put_before (t ∷ n0 ∷ n1 ∷ n2 ∷ []) (patch_tags bd len len tags)
    else if t == tlv_type_patch && ltb (length tags) 24
    then none
    else some (t ∷ n0 ∷ n1 ∷ n2 ∷ tags)
patch_file bd _ = none

-- Byte 14 of a file is `dwnd_cfg`.
abbrev pub byte_at : ℕ → List ℕ → Option ℕ
byte_at i [] = none
byte_at zero (b ∷ t) = some b
byte_at (suc i) (b ∷ t) = byte_at i t

abbrev pub loaded : (size : ℕ) → Option ℕ → Option ℕ → Option (List ℕ) → Soc → Option (ℤ × Soc)
loaded size (some t) (some cfg) (some buf) s =
    some (pos size, record s { tlv_type = t; tlv_dwnd_cfg = cfg; pdata_buffer = buf })
loaded size _ _ _ s = none

-- `file` is what the file has, where it opens and is read whole. none where the code reads or writes
-- outside the buffer.
unfoldable pub rome_get_tlv_file :
    (bdaddr : List ℕ) → (file : Option (List ℕ)) → Soc → Option (ℤ × Soc)
rome_get_tlv_file bd none s = some (negsuc 0, s)
rome_get_tlv_file bd (some file) s =
    loaded (length file) (byte_at 0 file) (byte_at 14 file) (patch_file bd file) s

abbrev dropped : Soc → Soc
dropped s = record s { pdata_buffer = [] }

-- The second file. An empty one ends the download with the result so far.
unfoldable pub download_nvm : Uart → (err : ℤ) → Option (ℤ × Soc) → Option (ℤ × Soc)
download_nvm u err none = none
download_nvm u err (some (negsuc n, s)) = some (err, dropped s)
download_nvm u err (some (pos zero, s)) = some (err, dropped s)
download_nvm u err (some (pos (suc n), s)) =
    let r = rome_tlv_dnld_req u (suc n) s in some (r.0, dropped r.1)

-- `nvm_path` is whether `nvm_file_path` is not NULL.
unfoldable pub download_files :
    Uart
    → (bdaddr : List ℕ) → (nvm_path : Bool) → (nvm : Option (List ℕ)) → Option (ℤ × Soc)
    → Option (ℤ × Soc)
download_files u bd nvm_path nvm none = none
download_files u bd nvm_path nvm (some (negsuc n, s)) = some (negsuc 0, dropped s)
download_files u bd nvm_path nvm (some (pos n, s)) =
    let r = rome_tlv_dnld_req u n s in
    if is_neg r.0
    then some (r.0, dropped r.1)
    else if nvm_path
    then download_nvm u r.0 (rome_get_tlv_file bd nvm (dropped r.1))
    else some (pos 0, dropped r.1)

unfoldable pub rome_download_tlv_file :
    Uart
    → (bdaddr : List ℕ) → (rampatch : Option (List ℕ)) → (nvm_path : Bool) → (nvm : Option (List ℕ))
    → Soc
    → Option (ℤ × Soc)
rome_download_tlv_file u bd rampatch nvm_path nvm s =
    download_files u bd nvm_path nvm (rome_get_tlv_file bd rampatch (dropped s))
