-- ===== src/Rome/Bounds.antt =====
-- Reading a packet stays in the buffer, whatever the UART gives.
use android_device_zte_fujis.Common.{
  ℕ, zero, suc, ◌+◌, ◌-◌, ◌≤◌, ◌≡◌, refl, Bool, none, some, List, [], ◌∷◌, ◌++◌, length, take, drop,
  ◌==◌, arith, length-++, length-take, if_at,
}
use android_device_zte_fujis.Rome.Read.{
  Reader, Reading, find_packet, fill, any_event, params_of, read_params, read_header, read_packet,
}

-- `read` gives no more bytes than are asked for, and no more than come.
pub record IsBounded (rd : Reader) : Type 0 where
  pub asked : (left : List ℕ) (n : ℕ) → rd left n ≤ n
  pub there : (left : List ℕ) (n : ℕ) → rd left n ≤ length left

-- What was read, if anything, has `n` bytes.
abbrev pub Holds : ℕ → Reading → Type 0
Holds n r = (got : List ℕ) → r.0 ≡ some got → length got ≡ n

module _ (rd : Reader) (check : List ℕ → Bool) where
  fill-Holds :
      IsBounded rd
      → (k need : ℕ) (got left : List ℕ) → need ≤ k
      → Holds (length got + need) (fill rd check k need got left)
  unfolding fill
  fill-Holds law zero need got left enough = ground arith
  fill-Holds law (suc k) need got left enough =
      let asked = law.asked left need in
      let r = rd left need in
      let more = length-++ got (take r left) in
      let taken = length-take r left (law.there left need) in
      let Goal : Reading → Type 0 = Holds (length got + need) in
      if_at Goal (need == 0) _ _ (λ h. ground arith)
        (λ h.
          if_at Goal (r == 0) _ _ (λ failed. ground arith)
            (λ some_bytes.
              if_at Goal (check (got ++ take r left)) _ _
                (λ _.
                  let rest =
                    fill-Holds law k (need - r) (got ++ take r left) (drop r left) (ground arith) in
                  ground (arith, rest))
                (λ _. ground arith)))

find_packet-Holds : (rd : Reader) (left : List ℕ) → Holds 1 (find_packet rd left)
unfolding find_packet
find_packet-Holds rd [] = ground arith
find_packet-Holds rd (b ∷ t) =
    let rest = find_packet-Holds rd t in
    if_at (Holds 1) (rd (b ∷ t) 1 == 0) _ _ (λ _. ground arith)
      (λ _. if_at (Holds 1) (b == 4) _ _ (λ _. ground arith) (λ _. rest))

params_of-fits : (size : ℕ) (header : List ℕ) → params_of size header ≤ size - 3
params_of-fits size [] = omega arith
params_of-fits size (c ∷ []) = omega arith
params_of-fits size (c ∷ code ∷ []) = omega arith
params_of-fits size (c ∷ code ∷ n ∷ rest) = ground arith

-- What was read, if anything, has at least three bytes and no more than `size`.
abbrev pub Fits : ℕ → Reading → Type 0
Fits size r = (got : List ℕ) → r.0 ≡ some got → (3 ≤ length got) × (length got ≤ size)

module _ (rd : Reader) (check : List ℕ → Bool) where
  read_header-Holds :
      IsBounded rd → (start : Reading) → Holds 1 start → Holds 3 (read_header rd check start)
  unfolding read_header
  read_header-Holds law (none, left) h = ground arith
  read_header-Holds law (some start, left) h =
      let one = h start refl in
      let rest = fill-Holds rd check law 2 2 start left (omega arith) in ground (arith, rest)

  read_params-Fits :
      IsBounded rd
      → (size : ℕ) (header : Reading) → 3 ≤ size
      → Holds 3 header
      → Fits size (read_params rd size header)
  unfolding read_params
  read_params-Fits law size (none, left) room h = ground arith
  read_params-Fits law size (some header, left) room h =
      let three = h header refl in
      let n = params_of size header in
      let fits = params_of-fits size header in
      let rest = fill-Holds rd any_event law n n header left (omega arith) in ground (arith, rest)

  -- Whatever the UART gives, and whichever event codes are let through, a packet that is read into
  -- a buffer of at least three bytes has at least three bytes and fits into the buffer.
  pub read_packet_fits :
      IsBounded rd
      → (size : ℕ) (left got : List ℕ) → 3 ≤ size
      → (read_packet rd check size left).0 ≡ some got
      → (3 ≤ length got) × (length got ≤ size)
  unfolding read_packet
  read_packet_fits law size left got room =
      let header = read_header-Holds law (find_packet rd left) (find_packet-Holds rd left) in
      let whole =
        read_params-Fits law size (read_header rd check (find_packet rd left)) room header in
      if_at (Fits size) (size == 0) _ _ (λ h. grind arith) (λ _. whole) got
