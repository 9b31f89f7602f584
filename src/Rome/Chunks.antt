-- ===== src/Rome/Chunks.antt =====
-- A TLV file cut into the payloads of its segments, and the segments as HCI commands.
use android_device_zte_fujis.Common.{
  ℕ, zero, suc, ◌+◌, ◌*◌, ◌/◌, ◌%◌, ◌≡◌, ◌∙◌, ap, List, [], ◌∷◌, ◌++◌, length, take, drop,
  take-length, take-drop, length-drop, append-nil, arith, if_at, ◌==◌, if◌then◌else◌,
}
use android_device_zte_fujis.Rome.Command.{max_tlv}

-- `k` payloads of 243 bytes, then one of `r` bytes if that is not 0.
abbrev pub chunks : (k r : ℕ) → List ℕ → List (List ℕ)
chunks zero r file = if r == 0 then [] else take r file ∷ []
chunks (suc k) r file = take max_tlv file ∷ chunks k r (drop max_tlv file)

abbrev pub file_chunks : List ℕ → List (List ℕ)
file_chunks file = chunks (length file / max_tlv) (length file % max_tlv) file

abbrev pub join : List (List ℕ) → List ℕ
join [] = []
join (x ∷ xs) = x ++ join xs

-- The command that carries a payload.
abbrev pub tlv_command : List ℕ → List ℕ
tlv_command c = 0x01 ∷ 0x00 ∷ 0xFC ∷ (length c + 2) ∷ 0x1E ∷ length c ∷ c

join-chunks :
    (k r : ℕ) (file : List ℕ) → length file ≡ k * max_tlv + r → join (chunks k r file) ≡ file
join-chunks zero r [] e = ground arith
join-chunks zero r (x ∷ xs) e =
    let whole = take-length r (x ∷ xs) (omega arith) in
    let alone = append-nil (take r (x ∷ xs)) in
    if_at (λ (l : List (List ℕ)). join l ≡ x ∷ xs) (r == 0) _ _ (λ h. grind arith)
      (λ _. alone ∙ whole)
join-chunks (suc k) r file e =
    let left = length-drop max_tlv file in
    ap {B = List ℕ} (λ t. take max_tlv file ++ t)
      (join-chunks k r (drop max_tlv file) (omega arith))
    ∙ take-drop max_tlv file

-- The payloads make up the file.
pub join-file_chunks : (file : List ℕ) → join (file_chunks file) ≡ file
join-file_chunks file =
    join-chunks (length file / max_tlv) (length file % max_tlv) file (omega arith)
