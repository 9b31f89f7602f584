-- ===== src/Rome/Written.antt =====
-- hw_rome.c, `do_write`: what it returns, and which bytes are on the line then.
use android_device_zte_fujis.Common.{
  append_assoc, ℕ, zero, suc, ◌+◌, ◌-◌, ◌≤◌, ◌<◌, ◌≡◌, refl, ◌∙◌, ap, Option, some, List, ◌++◌, ℤ,
  pos, negsuc, length, take, drop, ltb, arith, ◌⊎◌, inl, inr, ℤ-cases, length-++, length-take,
  length-drop, take-drop, take-length, if_at,
}
use android_device_zte_fujis.Rome.Write.{Line, segment, write_loop, do_write}

-- `write` never says that it wrote more than it was given.
abbrev pub IsLine : Line → Type 0
IsLine l = (sent : List ℕ) (n r : ℕ) → l sent n ≡ pos r → r ≤ n

-- The call returned, with -1, with 0, or with all it was asked for once as many bytes are out.
pub record Returned (buf sent : List ℕ) (n : ℕ) (w : Option (ℤ × List ℕ)) : Type 0 where
  pub code : ℤ
  pub out : List ℕ
  pub returned : w ≡ some (code, out)
  pub outcome :
      (code ≡ negsuc 0)
      ⊎ (code ≡ pos 0)
      ⊎ ((code ≡ pos (length buf)) × (length out ≡ length sent + n))

length-segment :
    (offset n : ℕ) (buf : List ℕ) → offset + n ≤ length buf → length (segment offset n buf) ≡ n
length-segment offset n buf fits =
    let left = length-drop offset buf in length-take n (drop offset buf) (omega arith)

longer :
    {buf sent more : List ℕ} {n k : ℕ} {w : Option (ℤ × List ℕ)}
    → length more + k ≡ length sent + n
    → Returned buf more k w
    → Returned buf sent n w
longer e r = record {
  code = r.code;
  out = r.out;
  returned = r.returned;
  outcome = ground (arith, r.outcome);
}

module _ (l : Line) (buf : List ℕ) where
  write_loop-Returned :
      IsLine l
      → (k offset n : ℕ) (sent : List ℕ) → n < k
      → offset + n ≤ length buf
      → Returned buf sent n (write_loop l buf k offset n sent)
  unfolding write_loop
  write_loop-Returned law zero offset n sent enough fits = grind arith
  write_loop-Returned law (suc k) offset n sent enough fits = elim (ℤ-cases (l sent n)) [
    | inl (_, h) ↦
        rw (h, write_loop)
          (record { code = negsuc 0; out = sent; returned = refl; outcome = inl refl })
    | inr (inl h) ↦
        rw (h, write_loop)
          (record { code = pos 0; out = sent; returned = refl; outcome = inr (inl refl) })
    | inr (inr (r, h)) ↦
        let most = law sent n (suc r) h in
        let out = sent ++ segment offset (suc r) buf in
        let grown =
          length-++ sent (segment offset (suc r) buf)
          ∙ ap (λ m. length sent + m) (length-segment offset (suc r) buf (omega arith)) in
        let rest = write_loop-Returned law k (suc r) (n - suc r) out (omega arith) (omega arith) in
        rw (h, write_loop)
          (if_at (Returned buf sent n) (ltb (suc r) n) _ _
            (λ less. longer (ground (arith, grown)) rest)
            (λ last. record {
              code = pos (length buf);
              out = out;
              returned = refl;
              outcome = inr (inr (refl, ground (arith, grown)));
            }))
  ]

  -- On a line whose `write` never says more than it was given, `do_write` ends: it returns -1, 0 or
  -- the length of the buffer, and in the last case exactly as many bytes are out as the buffer has.
  do_write-Returned :
      IsLine l → (sent : List ℕ) → Returned buf sent (length buf) (do_write l buf sent)
  unfolding do_write
  do_write-Returned law sent =
      write_loop-Returned law (suc (length buf)) 0 (length buf) sent (omega arith) (omega arith)

  write_loop_short :
      (fuel offset n r : ℕ) (sent : List ℕ)
      → 0 < fuel
      → l sent n ≡ pos (suc r)
      → suc r < n
      → write_loop l buf fuel offset n sent
        ≡ write_loop l buf (fuel - 1) (suc r) (n - suc r) (sent ++ segment offset (suc r) buf)
  unfolding write_loop
  write_loop_short zero offset n r sent some_fuel h less = grind arith
  write_loop_short (suc k) offset n r sent some_fuel h less =
      let one : suc k - 1 ≡ k = omega arith in rw one (rw (h, write_loop) (ground arith))

  write_loop_last :
      (fuel offset n : ℕ) (sent : List ℕ)
      → 0 < fuel
      → 0 < n
      → l sent n ≡ pos n
      → write_loop l buf fuel offset n sent ≡ some (pos (length buf), sent ++ segment offset n buf)
  unfolding write_loop
  write_loop_last zero offset n sent some_fuel some_bytes h = grind arith
  write_loop_last (suc k) offset zero sent some_fuel some_bytes h = grind arith
  write_loop_last (suc k) offset (suc r) sent some_fuel some_bytes h =
      rw (h, write_loop) (ground arith)

  rejoined : (a : ℕ) → segment 0 a buf ++ segment a (length buf - a) buf ≡ buf
  rejoined a =
      let left = length-drop a buf in
      ap {B = List ℕ} (λ t. take a buf ++ t)
        (take-length (length buf - a) (drop a buf) (omega arith))
      ∙ take-drop a buf

  -- If `write` takes the whole buffer, or takes a part of it and then the whole rest, `do_write`
  -- returns the length of the buffer, and the buffer is on the line as it stands.
  pub do_write_one_short :
      (sent : List ℕ) (a : ℕ)
      → 0 < a
      → l sent (length buf) ≡ pos a
      → (a ≡ length buf)
        ⊎ ((a < length buf) × (l (sent ++ take a buf) (length buf - a) ≡ pos (length buf - a)))
      → do_write l buf sent ≡ some (pos (length buf), sent ++ buf)
  unfolding do_write
  do_write_one_short sent zero some_bytes first rest = grind arith
  do_write_one_short sent (suc r) some_bytes first (inl e) =
      write_loop_last (suc (length buf)) 0 (length buf) sent (omega arith) (omega arith)
        (first ∙ ap pos e)
      ∙ ap (λ t. some (pos (length buf), sent ++ t)) (take-length (length buf) buf (omega arith))
  do_write_one_short sent (suc r) some_bytes first (inr (less, second)) =
      write_loop_short (suc (length buf)) 0 (length buf) r sent (omega arith) first less
      ∙ write_loop_last (suc (length buf) - 1) (suc r) (length buf - suc r)
          (sent ++ take (suc r) buf) (omega arith) (omega arith) second
      ∙ ap (λ t. some (pos (length buf), t))
          (append_assoc sent _ _ ∙ ap {B = List ℕ} (λ t. sent ++ t) (rejoined (suc r)))

  -- If `write` takes the buffer in three parts, of which two are short, `do_write` still returns
  -- the length of the buffer, but the last part is not the end of the buffer: it is read from where
  -- the second part would have ended at the start of the buffer.
  pub do_write_two_short :
      (sent : List ℕ) (a b c : ℕ)
      → length buf ≡ suc a + suc b + suc c
      → l sent (length buf) ≡ pos (suc a)
      → l (sent ++ take (suc a) buf) (length buf - suc a) ≡ pos (suc b)
      → l (sent ++ take (suc a) buf ++ segment (suc a) (suc b) buf) (suc c) ≡ pos (suc c)
      → do_write l buf sent
        ≡ some (
          pos (length buf),
          sent ++ take (suc a) buf ++ segment (suc a) (suc b) buf ++ segment (suc b) (suc c) buf,
        )
  unfolding do_write
  do_write_two_short sent a b c e first second third =
      let left : length buf - suc a - suc b ≡ suc c = omega arith in
      let out = sent ++ take (suc a) buf ++ segment (suc a) (suc b) buf in
      write_loop_short (suc (length buf)) 0 (length buf) a sent (omega arith) first (omega arith)
      ∙ write_loop_short (suc (length buf) - 1) (suc a) (length buf - suc a) b
          (sent ++ take (suc a) buf) (omega arith) second (omega arith)
      ∙ ap (λ n. write_loop l buf (suc (length buf) - 1 - 1) (suc b) n out) left
      ∙ write_loop_last (suc (length buf) - 1 - 1) (suc b) (suc c) out (omega arith) (omega arith)
          third
