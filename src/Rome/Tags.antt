-- ===== src/Rome/Tags.antt =====
-- The tags of an NVM file, and what `rome_get_tlv_file` makes of them.
use android_device_zte_fujis.Common.{
  ℕ, zero, suc, ◌+◌, ◌*◌, ◌-◌, ◌/◌, ◌%◌, ◌^◌, ◌≤◌, ◌<◌, ◌≡◌, refl, ◌∙◌, ap, sym, Bool, true, false,
  not, ◌&&◌, some, List, [], ◌∷◌, ◌++◌, map, pos, length, drop, take-++, drop-++, drop-length,
  length-++, length-drop, append_assoc, ltb, ◌==◌, if◌then◌else◌, arith, if_at,
}
use android_device_zte_fujis.Rome.Soc.{Soc}
use android_device_zte_fujis.Rome.EventLaws.{bytes16, bytes32}
use android_device_zte_fujis.Rome.TlvFile.{
  put_before, patch_tags, tlv_type_nvm, patch_file, rome_get_tlv_file,
}

-- The fields of `tlv_nvm_hdr`, but for the length, and the data.
pub record Tag : Type 0 where
  pub tag_id : ℕ
  pub tag_ptr : ℕ
  pub tag_ex_flag : ℕ
  pub bytes : List ℕ

abbrev pub encode : List Tag → List ℕ
encode [] = []
encode (t ∷ ts) =
    bytes16 t.tag_id
      (bytes16 (length t.bytes) (bytes32 t.tag_ptr (bytes32 t.tag_ex_flag (t.bytes ++ encode ts))))

-- The number and the length fit into 16 bits, and the tag of the Bluetooth address has room for it.
abbrev pub are_tags : List Tag → Bool
are_tags [] = true
are_tags (t ∷ ts) =
    ltb t.tag_id (2 ^ 16)
    && ltb (length t.bytes) (2 ^ 16)
    && not (t.tag_id == 2 && ltb (length t.bytes) 6)
    && are_tags ts

-- Tag 2 begins with the Bluetooth address.
abbrev pub with_address : (bdaddr : List ℕ) → Tag → Tag
with_address bd t = record t { bytes = if t.tag_id == 2 then bd ++ drop 6 t.bytes else t.bytes }

patch_tag_step :
    (bd : List ℕ) (k left i0 i1 n0 n1 p0 p1 p2 p3 x0 x1 x2 x3 : ℕ) (d new rest : List ℕ)
    → n0 + n1 * 2 ^ 8 ≡ length new
    → (if i0 + i1 * 2 ^ 8 == 2 then bd ++ drop 6 d else d) ≡ new ++ rest
    → left ≡ 12 + (length new + length rest)
    → length d ≡ length new + length rest
    → (i0 + i1 * 2 ^ 8 == 2 && ltb (length d) 6) ≡ false
    → patch_tags bd (suc k) left (i0 ∷ i1 ∷ n0 ∷ n1 ∷ p0 ∷ p1 ∷ p2 ∷ p3 ∷ x0 ∷ x1 ∷ x2 ∷ x3 ∷ d)
      ≡ put_before
          (i0 ∷ i1 ∷ n0 ∷ n1 ∷ p0 ∷ p1 ∷ p2 ∷ p3 ∷ x0 ∷ x1 ∷ x2 ∷ x3 ∷ new)
          (patch_tags bd k (length rest) rest)
unfolding patch_tags
patch_tag_step bd k left i0 i1 n0 n1 p0 p1 p2 p3 x0 x1 x2 x3 d new rest len data' all there room =
    let taken = take-++ new rest in
    let dropped = drop-length new rest in
    let next : left - (12 + length new) ≡ length rest = omega arith in
    rw (len, data', taken, dropped, next) (ground (arith, all, there, room))

length-with_address :
    (bd : List ℕ) (t : Tag)
    → length bd ≡ 6
    → (t.tag_id == 2 && ltb (length t.bytes) 6) ≡ false
    → length (with_address bd t).bytes ≡ length t.bytes
length-with_address bd t six room =
    let joined = length-++ bd (drop 6 t.bytes) in
    let left = length-drop 6 t.bytes in ground (arith, six, room, joined, left)

-- What the code has for the rest of the buffer once the address is written.
bytes-with_address :
    (bd rest : List ℕ) (t : Tag)
    → (t.tag_id == 2 && ltb (length t.bytes) 6) ≡ false
    → (if t.tag_id == 2 then bd ++ drop 6 (t.bytes ++ rest) else t.bytes ++ rest)
      ≡ (with_address bd t).bytes ++ rest
bytes-with_address bd rest t room =
    let Goal : List ℕ → Type 0 = λ l.
      (if t.tag_id == 2 then bd ++ drop 6 (t.bytes ++ rest) else t.bytes ++ rest) ≡ l ++ rest in
    if_at Goal (t.tag_id == 2) _ _
      (λ two.
        let kept = drop-++ 6 t.bytes rest (ground arith) in
        let assoc = append_assoc bd (drop 6 t.bytes) rest in ground (arith, two, kept, assoc))
      (λ other. ground (arith, other))

patch_tags-encode :
    (bd : List ℕ) (ts : List Tag) (k : ℕ)
    → length bd ≡ 6
    → are_tags ts ≡ true
    → length (encode ts) ≤ k
    → patch_tags bd k (length (encode ts)) (encode ts) ≡ some (encode (map (with_address bd) ts))
unfolding patch_tags
patch_tags-encode bd [] zero six good enough = refl
patch_tags-encode bd [] (suc k) six good enough = refl
patch_tags-encode bd (t ∷ ts) zero six good enough = grind arith
patch_tags-encode bd (t ∷ ts) (suc k) six good enough =
    let new = (with_address bd t).bytes in
    let room : (t.tag_id == 2 && ltb (length t.bytes) 6) ≡ false = ground (arith, good) in
    let same_length = length-with_address bd t six room in
    let id : t.tag_id % 2 ^ 8 + t.tag_id / 2 ^ 8 % 2 ^ 8 * 2 ^ 8 ≡ t.tag_id =
      ground (arith, good) in
    let len : length t.bytes % 2 ^ 8 + length t.bytes / 2 ^ 8 % 2 ^ 8 * 2 ^ 8 ≡ length new =
      ground (arith, good, same_length) in
    let joined = length-++ t.bytes (encode ts) in
    let rest = patch_tags-encode bd ts k six (ground (arith, good)) (omega arith) in
    let written : ℕ → List ℕ → List ℕ =
      λ n r. bytes16 t.tag_id (bytes16 n (bytes32 t.tag_ptr (bytes32 t.tag_ex_flag r))) in
    let fits : (t.tag_id % 2 ^ 8 + t.tag_id / 2 ^ 8 % 2 ^ 8 * 2 ^ 8 == 2
          && ltb (length (t.bytes ++ encode ts)) 6)
        ≡ false =
      ground (arith, id, joined, room) in
    patch_tag_step bd k (length (encode (t ∷ ts))) _ _ _ _ _ _ _ _ _ _ _ _ (t.bytes ++ encode ts)
      new (encode ts) len (rw id (bytes-with_address bd (encode ts) t room))
      (ground (arith, joined, same_length)) (ground (arith, joined, same_length)) fits
    ∙ ap (put_before (written (length t.bytes) new)) rest
    ∙ ap (λ n. some (written n (new ++ encode (map (with_address bd) ts)))) (sym same_length)

-- The file: its type, the length of its tags in three bytes, and the tags.
abbrev pub nvm_file : (tags_size : ℕ) → List Tag → List ℕ
nvm_file n ts = tlv_type_nvm ∷ n % 2 ^ 8 ∷ n / 2 ^ 8 % 2 ^ 8 ∷ n / 2 ^ 16 % 2 ^ 8 ∷ encode ts

-- The download configuration is read from any file, here from the first tag's flag.
abbrev pub config_of : List Tag → ℕ
config_of [] = 0
config_of (t ∷ ts) = t.tag_ex_flag / 2 ^ 16 % 2 ^ 8

-- For a Bluetooth address of six bytes, and an NVM file of at least one tag that is well formed, its
-- header giving the length of all the tags, which is below 2 ^ 24, and each tag's header that of its
-- data, with numbers and lengths below 2 ^ 16 and at least six bytes of data in each tag with number
-- 2, none of which the code checks: the file is read whole, its size is returned, and in the buffer every tag
-- with number 2 begins with the Bluetooth address while all else is as in the file. Nothing outside
-- the buffer is touched.
pub rome_get_tlv_file_nvm :
    (bd : List ℕ) (t : Tag) (ts : List Tag) (s : Soc)
    → length bd ≡ 6
    → are_tags (t ∷ ts) ≡ true
    → length (encode (t ∷ ts)) < 2 ^ 24
    → rome_get_tlv_file bd (some (nvm_file (length (encode (t ∷ ts))) (t ∷ ts))) s
      ≡ some (
        pos (4 + length (encode (t ∷ ts))),
        record s {
          tlv_type = tlv_type_nvm;
          tlv_dwnd_cfg = config_of (t ∷ ts);
          pdata_buffer = nvm_file (length (encode (t ∷ ts))) (map (with_address bd) (t ∷ ts));
        },
      )
unfolding rome_get_tlv_file patch_file
rome_get_tlv_file_nvm bd t ts s six good fits =
    let n = length (encode (t ∷ ts)) in
    let len : n % 2 ^ 8 + n / 2 ^ 8 % 2 ^ 8 * 2 ^ 8 + n / 2 ^ 16 % 2 ^ 8 * 2 ^ 16 ≡ n =
      omega arith in
    let patched = patch_tags-encode bd (t ∷ ts) n six good (omega arith) in
    let size : length (nvm_file n (t ∷ ts)) ≡ 4 + n = omega arith in
    rw (len, patched)
      (ap
        (λ m. some (
          pos m,
          record s {
            tlv_type = tlv_type_nvm;
            tlv_dwnd_cfg = config_of (t ∷ ts);
            pdata_buffer = nvm_file n (map (with_address bd) (t ∷ ts));
          },
        ))
        size)
