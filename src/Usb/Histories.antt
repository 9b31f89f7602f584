-- ===== src/Usb/Histories.antt =====
-- usb.c: the list of cards after any history of calls.
use android_device_zte_fujis.Common.{
  ℕ, zero, suc, Bool, true, false, ◌||◌, not, Option, none, some, List, [], ◌∷◌, ◌++◌, ◌≡◌, ◌⊎◌,
  inl, inr, refl, arith, if◌then◌else◌, ℤ, pos, negsuc, is_neg, if_at,
}
use android_device_zte_fujis.Usb.Types.{UsecaseType, playback, capture, In, All}
use android_device_zte_fujis.Usb.Rates.{Mask}
use android_device_zte_fujis.Usb.Capability.{Outcome, parsed, fault, out_of_fuel, Section}
use android_device_zte_fujis.Usb.Parsed.{OutcomeHolds, get_capability-IsRead}
use android_device_zte_fujis.Usb.Devices.{
  Env, Card, UsbModule, Usb, has_card, without, output_device, input_device, valid_device, add_new,
  add_device, remove_device, init, deinit, with_outcome, set_dev_id_mixer_ctl, with_section,
  new_card, set_mask, enlisted, add_to, remove_from,
}
use android_device_zte_fujis.Usb.DeviceLaws.{
  Unique-append, Unique-without, All-without, In-without, IsCard, IsModule, IsUsb, usecase_of,
  HoldsOf,
}

-- A call of the module's interface.
pub data Call : Type 0 where
  init_module deinit_module : Call
  add remove : ℕ → ℤ → Call

abbrev pub step : Env → Call → Usb → Option Usb
step env init_module u = some (init u)
step env deinit_module u = some (deinit u)
step env (add device card) u = add_device env device card u
step env (remove device card) u = some (remove_device env device card u)

abbrev pub after : Option Usb → (Usb → Option Usb) → Option Usb
after none k = none
after (some u) k = k u

-- The oldest call stands first; `none` where a parser wrote behind the end of an array.
abbrev pub run : Env → List Call → Usb → Option Usb
run env [] u = some u
run env (c ∷ cs) u = after (step env c u) (run env cs)

abbrev Within : (Usb → Type 0) → Option Usb → Type 0
Within P none = Unit
Within P (some u) = P u

All-append :
    {A : Type 0} (P : A → Type 0) (xs : List A) (x : A) → All P xs → P x → All P (xs ++ x ∷ [])
All-append P [] x p q = (q, tt)
All-append P (y ∷ xs) x p q = (p.0, All-append P xs x p.1 q)

In-append : {A : Type 0} (xs : List A) (x y : A) → In x xs → In x (xs ++ y ∷ [])
In-append [] x y i = absurd i
In-append (z ∷ xs) x y (inl here) = inl here
In-append (z ∷ xs) x y (inr there) = inr (In-append xs x y there)

In-last : {A : Type 0} (xs : List A) (x : A) → In x (xs ++ x ∷ [])
In-last [] x = inl refl
In-last (y ∷ xs) x = inr (In-last xs x)

module _ (env : Env) where
  by_input :
      (c : Card)
      → IsCard env c
      → usecase_of env c ≡ capture
      → input_device env c.usb_device_type ≡ true
  unfolding valid_device
  by_input c k e = ground arith

  enlisted-IsModule :
      (usecase : UsecaseType) (c : Card) (m : UsbModule)
      → IsModule env m
      → IsCard env c
      → has_card c.usb_device_type c.usb_card m.cards ≡ false
      → usecase_of env c ≡ usecase
      → IsModule env (enlisted env usecase c m)
  enlisted-IsModule playback c m v k fresh e = record {
    unique = Unique-append m.cards c v.unique fresh;
    cards = All-append (IsCard env) m.cards c v.cards k;
    capture_card = elim v.capture_card [
      | inl off ↦ inl off
      | inr (x, i, p) ↦ inr (x, In-append m.cards x c i, p)
    ];
  }
  enlisted-IsModule capture c m v k fresh e = record {
    unique = Unique-append m.cards c v.unique fresh;
    cards = All-append (IsCard env) m.cards c v.cards k;
    capture_card = inr (c, In-last m.cards c, by_input c k e);
  }

  IsUsb-set_mask : (t : UsecaseType) (k : Mask) (u : Usb) → IsUsb env u → IsUsb env (set_mask t k u)
  IsUsb-set_mask playback k u v = v
  IsUsb-set_mask capture k u v = v

  section-IsUsb :
      (usecase : UsecaseType) (device : ℕ) (card ret : ℤ) (m : UsbModule) (u : Usb) (p : Section)
      → IsUsb env u
      → IsModule env m
      → (usecase_of env (new_card env usecase device card p.configs) ≡ usecase)
      → IsCard env (new_card env usecase device card p.configs)
      → has_card device card m.cards ≡ false
      → IsUsb env (with_section env usecase device card m u ret p)
  unfolding set_dev_id_mixer_ctl
  section-IsUsb usecase device card (pos zero) m u p v w e k fresh =
      let c = new_card env usecase device card p.configs in
      if_at (IsUsb env) (env.has_dev_token usecase) _ _
        (λ h. enlisted-IsModule usecase c m w k fresh e)
        (λ h. enlisted-IsModule usecase c m w k fresh e)
  section-IsUsb usecase device card (pos (suc n)) m u p v w e k fresh =
      IsUsb-set_mask usecase p.mask u v
  section-IsUsb usecase device card (negsuc n) m u p v w e k fresh =
      IsUsb-set_mask usecase p.mask u v

  outcome-IsUsb :
      (usecase : UsecaseType) (device : ℕ) (card : ℤ) (m : UsbModule) (u : Usb) (o : Outcome)
      → OutcomeHolds env.limit usecase o
      → IsUsb env u
      → IsModule env m
      → valid_device env device ≡ true
      → is_neg card ≡ false
      → (if output_device env device then playback else capture) ≡ usecase
      → has_card device card m.cards ≡ false
      → Within (IsUsb env) (with_outcome env usecase device card m u o)
  outcome-IsUsb usecase device card m u (parsed p) o v w valid numbered e fresh =
      section-IsUsb usecase device card p.ret m u p v w e
        (record { valid = valid; numbered = numbered; read = rw e o }) fresh
  outcome-IsUsb usecase device card m u fault o v w valid numbered e fresh = tt
  outcome-IsUsb usecase device card m u out_of_fuel o v w valid numbered e fresh = absurd o

  new-IsUsb :
      (usecase : UsecaseType) (device : ℕ) (card : ℤ) (m : UsbModule) (u : Usb)
      → IsUsb env u
      → IsModule env m
      → valid_device env device ≡ true
      → is_neg card ≡ false
      → (if output_device env device then playback else capture) ≡ usecase
      → has_card device card m.cards ≡ false
      → Within (IsUsb env) (add_new env usecase device card m u)
  unfolding add_new
  new-IsUsb usecase device card m u v w valid numbered e fresh =
      outcome-IsUsb usecase device card m u _
        (get_capability-IsRead env.limit usecase (env.path_length card) (env.stream_file card)
          (u.mask usecase))
        v w valid numbered e fresh

  add_to-IsUsb :
      (device : ℕ) (card : ℤ) (u : Usb) (o : Option UsbModule)
      → IsUsb env u
      → HoldsOf env o
      → Within (IsUsb env) (add_to env device card u o)
  add_to-IsUsb device card u none v w = v
  add_to-IsUsb device card u (some m) v w =
      if_at (Within (IsUsb env)) (not (valid_device env device) || is_neg card) _ _ (λ h. v)
        (λ ok.
          if_at (Within (IsUsb env)) (has_card device card m.cards) _ _ (λ h. v)
            (λ fresh.
              if_at (Within (IsUsb env)) (output_device env device) _ _
                (λ out.
                  new-IsUsb playback device card m u v w (ground arith) (ground arith) (rw out refl)
                    fresh)
                (λ not_out.
                  new-IsUsb capture device card m u v w (ground arith) (ground arith)
                    (rw not_out refl) fresh)))

  add_device-IsUsb :
      (device : ℕ) (card : ℤ) (u : Usb)
      → IsUsb env u
      → Within (IsUsb env) (add_device env device card u)
  unfolding add_device
  add_device-IsUsb device card u v = add_to-IsUsb device card u u.usbmod v v

  left-IsModule :
      (device : ℕ) (card : ℤ) (m : UsbModule) (flag : Bool)
      → IsModule env m
      → (flag ≡ false)
        ⊎ ((c : Card) × In c (without device card m.cards)
            × (input_device env c.usb_device_type ≡ true))
      → IsModule env (record m { cards = without device card m.cards; is_capture_supported = flag })
  left-IsModule device card m flag v f = record {
    unique = Unique-without device card m.cards v.unique;
    cards = All-without device card (IsCard env) m.cards v.cards;
    capture_card = f;
  }

  -- A device that is no input leaves the capture cards in the list.
  capture_left :
      (device : ℕ) (card : ℤ) (m : UsbModule)
      → IsModule env m
      → env.is_usb_in device ≡ false
      → (m.is_capture_supported ≡ false)
        ⊎ ((c : Card) × In c (without device card m.cards)
            × (input_device env c.usb_device_type ≡ true))
  unfolding input_device
  capture_left device card m v out = elim v.capture_card [
    | inl off ↦ inl off
    | inr (c, i, p) ↦ inr (c, In-without device card c m.cards i (ground arith), p)
  ]

  remove_from-IsUsb :
      (device : ℕ) (card : ℤ) (u : Usb) (o : Option UsbModule)
      → IsUsb env u
      → HoldsOf env o
      → IsUsb env (remove_from env device card u o)
  remove_from-IsUsb device card u none v w = v
  remove_from-IsUsb device card u (some m) v w =
      if_at (IsUsb env) (not (valid_device env device) || is_neg card) _ _ (λ h. v)
        (λ ok.
          if_at (IsUsb env) (env.is_usb_in device) _ _
            (λ input. left-IsModule device card m false w (inl refl))
            (λ output.
              left-IsModule device card m m.is_capture_supported w
                (capture_left device card m w output)))

  step-IsUsb : (c : Call) (u : Usb) → IsUsb env u → Within (IsUsb env) (step env c u)
  unfolding init deinit remove_device
  step-IsUsb init_module u v = record { unique = tt; cards = tt; capture_card = inl refl }
  step-IsUsb deinit_module u v = tt
  step-IsUsb (add device card) u v = add_device-IsUsb device card u v
  step-IsUsb (remove device card) u v = remove_from-IsUsb device card u u.usbmod v v

  after-IsUsb :
      (o : Option Usb) (k : Usb → Option Usb)
      → Within (IsUsb env) o
      → ((u : Usb) → IsUsb env u → Within (IsUsb env) (k u))
      → Within (IsUsb env) (after o k)
  after-IsUsb none k w next = tt
  after-IsUsb (some u) k w next = next u w

  run-Within : (cs : List Call) (u : Usb) → IsUsb env u → Within (IsUsb env) (run env cs u)
  run-Within [] u v = v
  run-Within (c ∷ cs) u v =
      after-IsUsb (step env c u) (run env cs) (step-IsUsb c u v) (λ w h. run-Within cs w h)

  -- After any calls, made when the module was not there, in which no parser wrote behind the end of
  -- an array: no device is listed twice; each listed card is a USB audio device other than an
  -- accessory, its number is not negative, and its configurations are of its direction and have at
  -- most 7 rates, all of them supported ones; and capture is reported as supported only if a
  -- capture card is listed.
  pub run-IsUsb :
      (cs : List Call) (u v : Usb) → u.usbmod ≡ none → run env cs u ≡ some v → IsUsb env v
  run-IsUsb cs u v start e = rw e at (run-Within cs u (rw start tt))
