-- ===== src/Usb/DeviceLaws.antt =====
-- usb.c: what holds of the list of cards after any history of calls.
use android_device_zte_fujis.Common.{
  ℕ, true, false, Option, none, some, List, [], ◌∷◌, ◌++◌, ◌≡◌, ◌⊎◌, inl, inr, refl, arith,
  Bool-cases, if◌then◌else◌, ℤ, pos, negsuc, is_neg,
}
use android_device_zte_fujis.Usb.Types.{UsecaseType, playback, capture, In, All}
use android_device_zte_fujis.Usb.Parsed.{IsRead}
use android_device_zte_fujis.Usb.Devices.{
  Env, Card, UsbModule, Usb, ℤ_eq, is_device, has_card, without, output_device, input_device,
  valid_device,
}

pub ℤ_eq_sym : (a b : ℤ) → ℤ_eq a b ≡ ℤ_eq b a
ℤ_eq_sym (pos a) (pos b) = ground arith
ℤ_eq_sym (pos a) (negsuc b) = refl
ℤ_eq_sym (negsuc a) (pos b) = refl
ℤ_eq_sym (negsuc a) (negsuc b) = ground arith

-- No two cards of the list are the same device.
abbrev pub Unique : List Card → Type 0
Unique [] = Unit
Unique (c ∷ cs) = (has_card c.usb_device_type c.usb_card cs ≡ false) × Unique cs

has_card-append :
    (d : ℕ) (k : ℤ) (cs : List Card) (c : Card)
    → has_card d k cs ≡ false
    → is_device d k c ≡ false
    → has_card d k (cs ++ c ∷ []) ≡ false
unfolding has_card
has_card-append d k [] c p q = ground arith
has_card-append d k (x ∷ cs) c p q = ground (arith, has_card-append d k cs c)

pub Unique-append :
    (cs : List Card) (c : Card)
    → Unique cs
    → has_card c.usb_device_type c.usb_card cs ≡ false
    → Unique (cs ++ c ∷ [])
unfolding has_card
Unique-append [] c u p = ground arith
Unique-append (x ∷ cs) c u p = (
  has_card-append x.usb_device_type x.usb_card cs c u.0
      (ground (arith, ℤ_eq_sym c.usb_card x.usb_card)),
  Unique-append cs c u.1 (ground arith),
)

module _ (device : ℕ) (card : ℤ) where
  has_card-without_other :
      (d : ℕ) (k : ℤ) (cs : List Card)
      → has_card d k cs ≡ false
      → has_card d k (without device card cs) ≡ false
  unfolding has_card without
  has_card-without_other d k [] p = refl
  has_card-without_other d k (c ∷ cs) p = ground (arith, has_card-without_other d k cs)

  pub Unique-without : (cs : List Card) → Unique cs → Unique (without device card cs)
  unfolding without
  Unique-without [] u = tt
  Unique-without (c ∷ cs) u =
      ground (arith, Unique-without cs, has_card-without_other c.usb_device_type c.usb_card cs)

  pub All-without : (P : Card → Type 0) (cs : List Card) → All P cs → All P (without device card cs)
  unfolding without
  All-without P [] p = tt
  All-without P (c ∷ cs) p = elim (Bool-cases (is_device device card c)) [
    | inl same ↦ rw same (All-without P cs p.1)
    | inr other ↦ rw other (p.0, All-without P cs p.1)
  ]

  pub In-without :
      (c : Card) (cs : List Card)
      → In c cs
      → is_device device card c ≡ false
      → In c (without device card cs)
  unfolding without
  In-without c [] i p = i
  In-without c (x ∷ cs) i p = elim (Bool-cases (is_device device card x)) [
    | inl same ↦ rw same (elim i [ inl here ↦ cc | inr there ↦ In-without c cs there p ])
    | inr other ↦
        rw other (elim i [ inl here ↦ inl here | inr there ↦ inr (In-without c cs there p) ])
  ]

  -- A removed card is no longer listed.
  pub has_card-without : (cs : List Card) → has_card device card (without device card cs) ≡ false
  unfolding has_card without
  has_card-without [] = refl
  has_card-without (c ∷ cs) = ground (arith, has_card-without cs)

module _ (env : Env) where
  abbrev pub usecase_of : Card → UsecaseType
  usecase_of c = if output_device env c.usb_device_type then playback else capture

  -- A card of a USB audio device, with what the parser read for its direction.
  pub record IsCard (c : Card) : Type 0 where
    pub valid : valid_device env c.usb_device_type ≡ true
    pub numbered : is_neg c.usb_card ≡ false
    pub read : All (IsRead (usecase_of c)) c.configs

  pub record IsModule (m : UsbModule) : Type 0 where
    pub unique : Unique m.cards
    pub cards : All IsCard m.cards
    pub capture_card :
        (m.is_capture_supported ≡ false)
        ⊎ ((c : Card) × In c m.cards × (input_device env c.usb_device_type ≡ true))

  abbrev pub HoldsOf : Option UsbModule → Type 0
  HoldsOf none = Unit
  HoldsOf (some m) = IsModule m

  abbrev pub IsUsb : Usb → Type 0
  IsUsb u = HoldsOf u.usbmod
