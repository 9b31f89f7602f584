-- ===== src/Sndmon/Counted.antt =====
-- sndmonitor.c: the cards are counted, and what the start of the module leaves.
use android_device_zte_fujis.Common.{
  Option-cases, ℕ, ◌+◌, ◌<◌, ◌≡◌, refl, Bool, true, false, List, [], ◌∷◌, ◌==◌, inl, inr, arith,
  if◌then◌else◌, ℤ, pos, negsuc, length, length-++, drop, Bool-cases, if_at,
}
use android_device_zte_fujis.Usb.Text.{Bytes, bytes, strtok}
use android_device_zte_fujis.Sndmon.Defs.{SndCard, Monitor}
use android_device_zte_fujis.Sndmon.Enumerate.{
  Proc, Counts, add_new_sndcard, counted, add_cpe, open_card, add_card, add_cards, add_slpi,
  no_counts, enum_sndcards, started, init, open_cards, enodev, is_adsp, open_slpi,
}

abbrev IsCounted : Counts → Type 0
IsCounted k = k.num_cards ≡ length k.cards

length-add_new_sndcard :
    (card : ℕ) (state : Bytes) (cards : List SndCard)
    → length (add_new_sndcard card state cards) ≡ length cards + 1
unfolding add_new_sndcard
length-add_new_sndcard card state cards = length-++ cards _

module _ (proc : Proc) where
  counted-IsCounted :
      (card : ℕ) (state : Bytes) (k : Counts) → IsCounted k → IsCounted (counted card state k)
  counted-IsCounted card state k c = omega (arith, c, length-add_new_sndcard card state k.cards)

  add_cpe-IsCounted : (ptr : Bytes) (k : Counts) → IsCounted k → IsCounted (add_cpe proc ptr k)
  unfolding add_cpe
  add_cpe-IsCounted ptr k c =
      if_at IsCounted (proc.cpe_readable ptr) _ _
        (λ h. elim (Option-cases (proc.cpe_state ptr 1)) [
          | inl e ↦ rw e c
          | inr (state, e) ↦ rw e (counted-IsCounted _ state k c)
        ])
        (λ h. c)

  open_card-IsCounted :
      (ptr id : Bytes) (k : Counts) → IsCounted k → IsCounted (open_card proc ptr id k)
  open_card-IsCounted ptr id k c =
      if_at IsCounted (is_adsp id) _ _
        (λ h. elim (Option-cases (proc.card_state ptr)) [
          | inl e ↦ rw e c
          | inr (state, e) ↦ rw e (add_cpe-IsCounted ptr _ (counted-IsCounted _ state k c))
        ])
        (λ h. c)

  add_card-IsCounted : (text : Bytes) (k : Counts) → IsCounted k → IsCounted (add_card proc text k)
  unfolding add_card
  add_card-IsCounted text k c = elim (Option-cases (strtok (bytes " [") text)) [
    | inl e ↦ rw (add_card, e) c
    | inr ((ptr, rest), e) ↦
        rw (add_card, e)
          (elim (Option-cases (strtok (bytes "]") (drop 1 rest))) [
            | inl f ↦ rw f c
            | inr ((id, later), f) ↦ rw f (open_card-IsCounted ptr id k c)
          ])
  ]

  add_cards-IsCounted :
      (odd : Bool) (texts : List Bytes) (k : Counts)
      → IsCounted k
      → IsCounted (add_cards proc odd texts k)
  unfolding add_cards
  add_cards-IsCounted odd [] k c = c
  add_cards-IsCounted true (text ∷ texts) k c = add_cards-IsCounted false texts k c
  add_cards-IsCounted false (text ∷ texts) k c =
      add_cards-IsCounted true texts (add_card proc text k) (add_card-IsCounted text k c)

  add_slpi-IsCounted : (k : Counts) → IsCounted k → IsCounted (add_slpi proc k)
  unfolding add_slpi
  add_slpi-IsCounted k c =
      if_at IsCounted proc.slpi_readable _ _
        (λ h. elim (Option-cases (open_slpi proc 2)) [
          | inl e ↦ rw e c
          | inr (state, e) ↦ rw e (counted-IsCounted _ state k c)
        ])
        (λ h. c)

  -- What a start leaves: with the result 0 a monitor that may be used, else one that may not.
  abbrev pub Started : ℤ → Monitor → Type 0
  Started (pos n) m =
      (m.initcheck ≡ true) × (m.num_cards ≡ length m.cards) × (0 < m.num_cards) × (m.listeners ≡ [])
  Started (negsuc n) m = (m.initcheck ≡ false) × (m.cards ≡ []) × (n ≡ 18)

  abbrev Enumerated : ℤ × Monitor → Type 0
  Enumerated (pos n, m) = (m.num_cards ≡ length m.cards) × (0 < m.num_cards) × (m.initcheck ≡ false)
  Enumerated (negsuc n, m) = (m.cards ≡ []) × (m.initcheck ≡ false)

  enum_sndcards-Enumerated :
      (m : Monitor) → m.cards ≡ [] → m.initcheck ≡ false → Enumerated (enum_sndcards proc m)
  unfolding enum_sndcards
  enum_sndcards-Enumerated m e i = elim (Option-cases (open_cards proc 9)) [
    | inl f ↦ rw (enum_sndcards, f) (e, i)
    | inr (texts, f) ↦
        let k = add_slpi proc (add_cards proc false texts no_counts) in
        let c : IsCounted k =
          add_slpi-IsCounted (add_cards proc false texts no_counts)
            (add_cards-IsCounted false texts no_counts refl) in
        rw (enum_sndcards, f)
          (elim (Bool-cases (k.num_cards == 0)) [
            | inl none_found ↦ rw none_found (empty k.cards (ground arith), i)
            | inr some_cards ↦ rw some_cards (c, ground arith, i)
          ])
  ]
    where
      empty : (cards : List SndCard) → length cards ≡ 0 → cards ≡ []
      empty [] p = refl
      empty (x ∷ cards) p = absurd (omega (arith, p))

  started-Started :
      (r : ℤ) (m : Monitor)
      → Enumerated (r, m)
      → Started (started proc (r, m)).0 (started proc (r, m)).1
  started-Started (pos n) m e = ground arith
  started-Started (negsuc n) m e = ground arith

  -- If the start of the module succeeds, it is marked as such, monitors at least one card, has no
  -- listener, and `num_cards`, by which the monitor's thread sizes its array of files, counts the
  -- cards of the list. Otherwise the result is -ENODEV, the module is not marked, and no card is
  -- left in the list.
  pub init-Started : (m : Monitor) → Started (init proc m).0 (init proc m).1
  unfolding init
  init-Started m = go proc.has_pipe
    where
      cleared : Monitor
      cleared = record m { cards = []; dev_events = []; initcheck = false }

      go :
          (b : Bool)
          → Started
              (if b then started proc (enum_sndcards proc cleared) else (enodev, cleared)).0
              (if b then started proc (enum_sndcards proc cleared) else (enodev, cleared)).1
      go true =
          started-Started (enum_sndcards proc cleared).0 (enum_sndcards proc cleared).1
            (enum_sndcards-Enumerated cleared refl refl)
      go false = (refl, refl, refl)
