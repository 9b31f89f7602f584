-- ===== src/Sndmon/Numbered.antt =====
-- sndmonitor.c: the numbers of the cards that the start lists.
use android_device_zte_fujis.Common.{
  Option-cases, ℕ, ◌+◌, ◌<◌, ◌≤◌, ◌≡◌, ◌≢◌, sym, Bool, true, false, none, some, List, [], ◌∷◌, ◌++◌,
  inl, inr, arith, if◌then◌else◌, length, drop, Bool-cases, if_at, ℤ, pos, negsuc,
}
use android_device_zte_fujis.Usb.Text.{Bytes, bytes, strtok, atoi, uint32}
use android_device_zte_fujis.Usb.Types.{All}
use android_device_zte_fujis.Sndmon.Defs.{SndCard, Monitor}
use android_device_zte_fujis.Sndmon.Changes.{Lacks, Distinct}
use android_device_zte_fujis.Sndmon.Enumerate.{
  Proc, Counts, add_new_sndcard, counted, add_cpe, open_card, add_card, add_cards, add_slpi,
  no_counts, enum_sndcards, started, init, open_cards, is_adsp, open_slpi,
}

-- The number of the card that a line is about, where it is one of those that are monitored.
abbrev pub number_of : Bytes → List ℕ → List ℕ
number_of text ns = elim (strtok (bytes " [") text) [
  | none ↦ ns
  | some (ptr, rest) ↦ elim (strtok (bytes "]") (drop 1 rest)) [
    | none ↦ ns
    | some (id, later) ↦ if is_adsp id then uint32 (atoi ptr) ∷ ns else ns
  ]
]

-- The numbers in the text of /proc/asound/cards.
abbrev pub numbers : Bool → List Bytes → List ℕ
numbers odd [] = []
numbers true (text ∷ texts) = numbers false texts
numbers false (text ∷ texts) = number_of text (numbers true texts)

-- The numbers are different from each other, and below those that stand for CPE.
abbrev pub AreNumbers : List ℕ → Type 0
AreNumbers [] = Unit
AreNumbers (n ∷ ns) = (n < 0x2000) × All (λ m. m ≢ n) ns × AreNumbers ns

append-Lacks :
    (n : ℕ) (x : SndCard) (cs : List SndCard) → Lacks n cs → x.card ≢ n → Lacks n (cs ++ x ∷ [])
append-Lacks n x [] p q = (q, tt)
append-Lacks n x (c ∷ cs) p q = (p.0, append-Lacks n x cs p.1 q)

append-Distinct :
    (x : SndCard) (cs : List SndCard) → Distinct cs → Lacks x.card cs → Distinct (cs ++ x ∷ [])
append-Distinct x [] p q = (tt, tt)
append-Distinct x (c ∷ cs) p q =
    (append-Lacks c.card x cs p.0 (λ e. q.0 (sym e)), append-Distinct x cs p.1 q.1)

-- The cards so far, before lines with the numbers `ns`.
record IsOrdered (ns : List ℕ) (k : Counts) : Type 0 where
  distinct : Distinct k.cards
  free : All (λ n. Lacks n k.cards) ns
  cpes : (j : ℕ) → k.num_cpe ≤ j → Lacks (0x2000 + j) k.cards
  room : k.num_cpe + length ns ≤ 0x1000

stay_free :
    (x : SndCard) (cs : List SndCard) (ns : List ℕ)
    → All (λ n. Lacks n cs) ns
    → All (λ n. n ≢ x.card) ns
    → All (λ n. Lacks n (cs ++ x ∷ [])) ns
stay_free x cs [] p q = tt
stay_free x cs (n ∷ ns) p q =
    (append-Lacks n x cs p.0 (λ e. q.0 (sym e)), stay_free x cs ns p.1 q.1)

below_cpe : (j : ℕ) (ns : List ℕ) → AreNumbers ns → All (λ n. n ≢ 0x2000 + j) ns
below_cpe j [] p = tt
below_cpe j (n ∷ ns) (low, others, rest) = (λ e. omega (arith, low, e), below_cpe j ns rest)

module _ (proc : Proc) where
  add_cpe-IsOrdered :
      (ptr : Bytes) (ns : List ℕ) (k : Counts)
      → AreNumbers ns
      → IsOrdered ns k
      → k.num_cpe + length ns < 0x1000
      → IsOrdered ns (add_cpe proc ptr k)
  unfolding add_cpe add_new_sndcard
  add_cpe-IsOrdered ptr ns k good v room =
      if_at (IsOrdered ns) (proc.cpe_readable ptr) _ _
        (λ h. elim (Option-cases (proc.cpe_state ptr 1)) [
          | inl e ↦ rw e v
          | inr (state, e) ↦ rw e (record {
            distinct = append-Distinct _ k.cards v.distinct (v.cpes k.num_cpe (omega arith));
            free = stay_free _ k.cards ns v.free (below_cpe k.num_cpe ns good);
            cpes = λ j more.
                append-Lacks (0x2000 + j) _ k.cards (v.cpes j (omega (arith, more)))
                  (λ f. omega (arith, more, f));
            room = omega (arith, room);
          })
        ])
        (λ h. v)

  skip-IsOrdered : (n : ℕ) (ns : List ℕ) (k : Counts) → IsOrdered (n ∷ ns) k → IsOrdered ns k
  skip-IsOrdered n ns k v = record {
    distinct = v.distinct;
    free = v.free.1;
    cpes = v.cpes;
    room = omega (arith, v.room);
  }

  card-IsOrdered :
      (n : ℕ) (state : Bytes) (ns : List ℕ) (k : Counts)
      → AreNumbers (n ∷ ns)
      → IsOrdered (n ∷ ns) k
      → IsOrdered ns (counted n state k)
  unfolding add_new_sndcard
  card-IsOrdered n state ns k (low, others, rest) v = record {
    distinct = append-Distinct _ k.cards v.distinct v.free.0;
    free = stay_free _ k.cards ns v.free.1 others;
    cpes =
        λ j more. append-Lacks (0x2000 + j) _ k.cards (v.cpes j more) (λ f. omega (arith, low, f));
    room = omega (arith, v.room);
  }

  open_card-IsOrdered :
      (ptr id : Bytes) (ns : List ℕ) (k : Counts)
      → AreNumbers (if is_adsp id then uint32 (atoi ptr) ∷ ns else ns)
      → IsOrdered (if is_adsp id then uint32 (atoi ptr) ∷ ns else ns) k
      → IsOrdered ns (open_card proc ptr id k)
  open_card-IsOrdered ptr id ns k good v = elim (Bool-cases (is_adsp id)) [
    | inr other ↦ rw other (rw other at v)
    | inl adsp ↦
        let good' : AreNumbers (uint32 (atoi ptr) ∷ ns) = rw adsp at good in
        let v' : IsOrdered (uint32 (atoi ptr) ∷ ns) k = rw adsp at v in
        rw adsp (elim (Option-cases (proc.card_state ptr)) [
          | inl e ↦ rw e (skip-IsOrdered (uint32 (atoi ptr)) ns k v')
          | inr (state, e) ↦ rw e (
              add_cpe-IsOrdered ptr ns (counted (uint32 (atoi ptr)) state k) good'.2
                (card-IsOrdered (uint32 (atoi ptr)) state ns k good' v') (omega (arith, v'.room)))
        ])
  ]

  add_card-IsOrdered :
      (text : Bytes) (ns : List ℕ) (k : Counts)
      → AreNumbers (number_of text ns)
      → IsOrdered (number_of text ns) k
      → IsOrdered ns (add_card proc text k)
  unfolding add_card
  add_card-IsOrdered text ns k good v = elim (Option-cases (strtok (bytes " [") text)) [
    | inl e ↦ rw (add_card, e) (rw (number_of, e) at v)
    | inr ((ptr, rest), e) ↦ elim (Option-cases (strtok (bytes "]") (drop 1 rest))) [
      | inl f ↦ rw (add_card, e, f) (rw (number_of, e, f) at v)
      | inr ((id, later), f) ↦
          rw (add_card, e, f)
            (open_card-IsOrdered ptr id ns k (rw (number_of, e, f) at good)
              (rw (number_of, e, f) at v))
    ]
  ]

  number_of-AreNumbers :
      (text : Bytes) (ns : List ℕ) → AreNumbers (number_of text ns) → AreNumbers ns
  number_of-AreNumbers text ns good = elim (Option-cases (strtok (bytes " [") text)) [
    | inl e ↦ rw (number_of, e) at good
    | inr ((ptr, rest), e) ↦ elim (Option-cases (strtok (bytes "]") (drop 1 rest))) [
      | inl f ↦ rw (number_of, e, f) at good
      | inr ((id, later), f) ↦ tail ptr id (rw (number_of, e, f) at good)
    ]
  ]
    where
      tail :
          (ptr id : Bytes)
          → AreNumbers (if is_adsp id then uint32 (atoi ptr) ∷ ns else ns)
          → AreNumbers ns
      tail ptr id good = elim (Bool-cases (is_adsp id)) [
        | inl adsp ↦ (rw adsp at good).2
        | inr other ↦ rw other at good
      ]

  add_cards-IsOrdered :
      (odd : Bool) (texts : List Bytes) (k : Counts)
      → AreNumbers (numbers odd texts)
      → IsOrdered (numbers odd texts) k
      → IsOrdered [] (add_cards proc odd texts k)
  unfolding add_cards
  add_cards-IsOrdered odd [] k good v = v
  add_cards-IsOrdered true (text ∷ texts) k good v = add_cards-IsOrdered false texts k good v
  add_cards-IsOrdered false (text ∷ texts) k good v =
      add_cards-IsOrdered true texts (add_card proc text k)
        (number_of-AreNumbers text (numbers true texts) good)
        (add_card-IsOrdered text (numbers true texts) k good v)

  add_slpi-Distinct : (k : Counts) → IsOrdered [] k → Distinct (add_slpi proc k).cards
  unfolding add_slpi add_new_sndcard
  add_slpi-Distinct k v =
      if_at (λ (r : Counts). Distinct r.cards) proc.slpi_readable _ _
        (λ h. elim (Option-cases (open_slpi proc 2)) [
          | inl e ↦ rw e v.distinct
          | inr (state, e) ↦
              rw e (append-Distinct _ k.cards v.distinct (v.cpes 0x1000 (omega (arith, v.room))))
        ])
        (λ h. v.distinct)

  started-Distinct :
      (r : ℤ) (m : Monitor) → Distinct m.cards → Distinct (started proc (r, m)).1.cards
  started-Distinct (pos n) m d = elim (Bool-cases proc.has_listeners) [
    | inl h ↦ elim (Bool-cases proc.thread_starts) [ inl t ↦ rw (h, t) d | inr t ↦ rw (h, t) tt ]
    | inr h ↦ rw h tt
  ]
  started-Distinct (negsuc n) m d = d

  enum_sndcards-Distinct :
      (texts : List Bytes) (m : Monitor)
      → open_cards proc 9 ≡ some texts
      → AreNumbers (numbers false texts)
      → length (numbers false texts) ≤ 0x1000
      → Distinct (enum_sndcards proc m).1.cards
  unfolding enum_sndcards
  enum_sndcards-Distinct texts m e good few =
      rw (enum_sndcards, e)
        (add_slpi-Distinct (add_cards proc false texts no_counts) (
          add_cards-IsOrdered false texts no_counts good (record {
            distinct = tt;
            free = none_yet (numbers false texts);
            cpes = λ j more. tt;
            room = omega (arith, few);
          })))
    where
      none_yet : (ns : List ℕ) → All (λ n. Lacks n []) ns
      none_yet [] = tt
      none_yet (n ∷ ns) = (tt, none_yet ns)

  -- Where the numbers of the cards in the text of /proc/asound/cards are different, below 0x2000
  -- and at most 0x1000 of them, no two cards that the start lists have the same number, those for
  -- CPE and SLPI included.
  pub init-Distinct :
      (texts : List Bytes) (m : Monitor)
      → open_cards proc 9 ≡ some texts
      → AreNumbers (numbers false texts)
      → length (numbers false texts) ≤ 0x1000
      → Distinct (init proc m).1.cards
  unfolding init
  init-Distinct texts m e good few = elim (Bool-cases proc.has_pipe) [
    | inl h ↦ rw h (
        started-Distinct _ _ (
          enum_sndcards-Distinct texts (record m { cards = []; dev_events = []; initcheck = false })
            e good few))
    | inr h ↦ rw h tt
  ]
