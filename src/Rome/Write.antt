-- ===== src/Rome/Write.antt =====
-- hw_rome.c, `do_write`: a buffer is written to the UART in as many calls as it takes.
use android_device_zte_fujis.Common.{
  ℕ, zero, suc, ◌-◌, Option, none, some, List, ◌++◌, ℤ, pos, negsuc, length, take, drop, ltb,
  if◌then◌else◌,
}

-- `write sent n` is what `write` returns for `n` bytes once the bytes `sent` are out.
abbrev pub Line : Type 0
Line = (sent : List ℕ) → (n : ℕ) → ℤ

-- The bytes `buf[offset]` to `buf[offset + n - 1]`.
abbrev pub segment : (offset n : ℕ) → List ℕ → List ℕ
segment offset n buf = take n (drop offset buf)

-- The loop: `buf` is all that the call was given, `n` the bytes still to be written, the result
-- what is returned and the bytes that are out. The next offset is what this call wrote.
unfoldable pub write_loop :
    Line → (buf : List ℕ) → (fuel offset n : ℕ) → (sent : List ℕ) → Option (ℤ × List ℕ)
write_loop l buf zero offset n sent = none
write_loop l buf (suc k) offset n sent = elim (l sent n) [
  | negsuc _ ↦ some (negsuc 0, sent)
  | pos zero ↦ some (pos 0, sent)
  | pos (suc r) ↦
      let out = sent ++ segment offset (suc r) buf in
      let rest = write_loop l buf k (suc r) (n - suc r) out in
      if ltb (suc r) n then rest else some (pos (length buf), out)
]

-- Each call that is not the last writes a byte, so that one call more than bytes is enough.
unfoldable pub do_write : Line → (buf sent : List ℕ) → Option (ℤ × List ℕ)
do_write l buf sent = write_loop l buf (suc (length buf)) 0 (length buf) sent
