-- ===== src/Rome/Nested.antt =====
-- `read_vs_hci_event` and `get_vs_hci_event` end: each nested read has fewer bytes before it.
use android_device_zte_fujis.Common.{
  ℕ, zero, suc, ◌-◌, ◌≤◌, ◌<◌, ◌≡◌, refl, ap, Bool, Option, none, some, List, [], ◌∷◌, ◌++◌, ℤ,
  length, take, drop, ◌==◌, arith, length-drop, if_at,
}
use android_device_zte_fujis.Rome.Read.{
  Reader, Reading, find_packet, fill, any_event, params_of, read_params, read_header, read_packet,
  is_vs_event,
}
use android_device_zte_fujis.Rome.Soc.{Uart, Soc, event_buffer}
use android_device_zte_fujis.Rome.Events.{
  stray_event, get_vs_hci_event, look_into, read_vs_with, max_event_size, nested_read,
  read_vs_hci_event,
}

-- Where something was read, fewer than `n` bytes are left.
abbrev pub Shrinks : ℕ → Reading → Type 0
Shrinks n r = (got : List ℕ) → r.0 ≡ some got → length r.1 < n

find_packet-Shrinks : (rd : Reader) (left : List ℕ) → Shrinks (length left) (find_packet rd left)
unfolding find_packet
find_packet-Shrinks rd [] = ground arith
find_packet-Shrinks rd (b ∷ t) =
    let rest = find_packet-Shrinks rd t in
    if_at (Shrinks (length (b ∷ t))) (rd (b ∷ t) 1 == 0) _ _ (λ _. ground arith)
      (λ _.
        if_at (Shrinks (length (b ∷ t))) (b == 4) _ _ (λ _. ground arith)
          (λ _. ground (arith, rest)))

module _ (rd : Reader) (check : List ℕ → Bool) where
  fill_no_longer :
      (k need : ℕ) (got left : List ℕ) → length (fill rd check k need got left).1 ≤ length left
  unfolding fill
  fill_no_longer zero need got left = omega arith
  fill_no_longer (suc k) need got left =
      let r = rd left need in
      let dropped = length-drop r left in
      let rest = fill_no_longer k (need - r) (got ++ take r left) (drop r left) in
      ground (arith, rest, dropped)

  read_header-Shrinks :
      (n : ℕ) (start : Reading) → Shrinks n start → Shrinks n (read_header rd check start)
  unfolding read_header
  read_header-Shrinks n (none, left) h = ground arith
  read_header-Shrinks n (some start, left) h =
      let less = h start refl in
      let rest = fill_no_longer 2 2 start left in ground (arith, rest, less)

read_params-Shrinks :
    (rd : Reader) (size n : ℕ) (header : Reading)
    → Shrinks n header
    → Shrinks n (read_params rd size header)
unfolding read_params
read_params-Shrinks rd size n (none, left) h = ground arith
read_params-Shrinks rd size n (some header, left) h =
    let less = h header refl in
    let m = params_of size header in
    let rest = fill_no_longer rd any_event m m header left in ground (arith, rest, less)

read_packet-Shrinks :
    (rd : Reader) (check : List ℕ → Bool) (size : ℕ) (left : List ℕ)
    → Shrinks (length left) (read_packet rd check size left)
unfolding read_packet
read_packet-Shrinks rd check size left =
    let n = length left in
    if_at (Shrinks n) (size == 0) _ _ (λ _. ground arith)
      (λ _.
        read_params-Shrinks rd size n _
          (read_header-Shrinks rd check n _ (find_packet-Shrinks rd left)))

module _ (u : Uart) (f g : Soc → Soc) where
  get_vs_hci_event-nested :
      (rsp : ℕ → ℕ) (s : Soc) → f s ≡ g s → get_vs_hci_event u f rsp s ≡ get_vs_hci_event u g rsp s
  unfolding get_vs_hci_event stray_event
  get_vs_hci_event-nested rsp s e = rw e refl

  look_into-nested :
      (stale : ℕ → ℕ) (got : Option (List ℕ)) (s : Soc)
      → ((p : List ℕ) → got ≡ some p → f s ≡ g s)
      → look_into u f stale got s ≡ look_into u g stale got s
  unfolding look_into
  look_into-nested stale none s e = refl
  look_into-nested stale (some p) s e =
      rw (get_vs_hci_event-nested (event_buffer p stale) s (e p refl)) refl

  -- Two nested reads that agree on fewer bytes give the same result.
  read_vs_with-nested :
      (stale : ℕ → ℕ) (size : ℕ) (s : Soc)
      → ((t : Soc) → length t.incoming < length s.incoming → f t ≡ g t)
      → read_vs_with u f stale size s ≡ read_vs_with u g stale size s
  unfolding read_vs_with
  read_vs_with-nested stale size s e =
      let p = read_packet u.read is_vs_event size s.incoming in
      look_into-nested stale p.0 (record s { incoming = p.1 })
        (λ got h. e _ (read_packet-Shrinks u.read is_vs_event size s.incoming got h))

module _ (u : Uart) where
  nested_read_fuel :
      (j k : ℕ) (s : Soc)
      → length s.incoming < j
      → length s.incoming < k
      → nested_read u j s ≡ nested_read u k s
  unfolding nested_read
  nested_read_fuel zero k s h h' = grind arith
  nested_read_fuel (suc j) zero s h h' = grind arith
  nested_read_fuel (suc j) (suc k) s h h' =
      ap (λ (r : ℤ × Soc). r.1)
        (read_vs_with-nested u (nested_read u j) (nested_read u k) (λ _. 0) max_event_size s
          (λ t less. nested_read_fuel j k t (omega arith) (omega arith)))

  -- The nested reads of `read_vs_hci_event` end: as many as bytes are to come give the result that
  -- any larger number of them gives.
  pub read_vs_hci_event_fuel :
      (size k : ℕ) (s : Soc)
      → length s.incoming ≤ k
      → read_vs_hci_event u size s ≡ read_vs_with u (nested_read u k) u.stale size s
  unfolding read_vs_hci_event
  read_vs_hci_event_fuel size k s enough =
      read_vs_with-nested u (nested_read u (length s.incoming)) (nested_read u k) u.stale size s
        (λ t less. nested_read_fuel (length s.incoming) k t less (omega arith))
