-- ===== src/Routing/Moved.antt =====
-- audio_hw.c: where the outputs go that share their backend with a routed output.
use android_device_zte_fujis.Common.{
  ℕ, ◌≡◌, refl, ◌∙◌, ap, Bool, true, false, ◌&&◌, ◌||◌, not, Bool-cases, inl, inr, ◌⊎◌, arith,
  if_at, Option-cases, none, some, List, [], ◌∷◌, ◌==◌, if◌then◌else◌, map,
}
use android_device_zte_fujis.Routing.Types.{Env}
use android_device_zte_fujis.Routing.Devices.{split}
use android_device_zte_fujis.Routing.Usecases.{
  Usecase, Hal, Platform, is_capture, share_bit, stream_devices,
}
use android_device_zte_fujis.Routing.Reroute.{
  is_any, each, overlap, combined, derive_from, derive_playback_snd_device, move_output,
}
use android_device_zte_fujis.Routing.Rerouted.{every, is_pending}

-- The two streams overlap, and the device of both is split into parts of different backends.
unfoldable pub is_left : Env → (a1 a2 d1 d2 : ℕ) → Bool
is_left env a1 a2 d1 d2 = overlap a1 a2 && elim (split env (combined a1 d1 d2)) [
  | none ↦ false
  | some ab ↦ not (env.backends_match ab.0 ab.1)
]

-- The derived device is the new one, or the old one where both can be on.
derive_from-cases :
    (env : Env) (a1 a2 d1 d2 : ℕ)
    → (derive_from env a1 a2 d1 d2 ≡ d2)
      ⊎ ((derive_from env a1 a2 d1 d2 ≡ d1)
          × ((is_left env a1 a2 d1 d2 ≡ true) ⊎ (env.backends_match d1 d2 ≡ false)))
unfolding derive_from is_left
derive_from-cases env a1 a2 d1 d2 = elim (Bool-cases (overlap a1 a2)) [
  | inl both ↦ elim (Option-cases (split env (combined a1 d1 d2))) [
    | inl whole ↦ rw (both, whole) (inl refl)
    | inr ((a, b), parted) ↦ elim (Bool-cases (env.backends_match a b)) [
      | inl one ↦ rw (both, parted, one) (inl refl)
      | inr two ↦ rw (both, parted, two) (inr (refl, inl refl))
    ]
  ]
  | inr apart ↦ elim (Bool-cases (env.backends_match d1 d2)) [
    | inl one ↦ rw (apart, one) (inl refl)
    | inr two ↦ rw (apart, two) (inr (refl, inr refl))
  ]
]

-- Usecases at other addresses.
abbrev pub is_distinct : List Usecase → Bool
is_distinct [] = true
is_distinct (u ∷ us) = not (is_any (λ v. v.self == u.self) us) && is_distinct us

module _ (p : Platform) (uc : Usecase) (d : ℕ) (force : Bool) where
  -- The usecase, which is not the routed one, has its output on another device of the same backend, and
  -- all are forced, or its own devices go over the codec's backend or USB.
  abbrev pub is_in_way : Usecase → Bool
  is_in_way w =
      not (is_capture w.kind || w.self == uc.self)
      && (force || share_bit 32 w.devices p.codec_backend || share_bit 32 w.devices p.usb_devices)
      && p.env.backends_match d w.out_snd_device
      && not (w.out_snd_device == d)

  -- Not in the way, or both devices can be on.
  unfoldable pub is_settled : Hal → Usecase → Bool
  is_settled h w =
      not (is_in_way w)
      || is_left p.env (stream_devices h w) (stream_devices h uc) w.out_snd_device d

  derived_settled :
      (h : Hal) (w : Usecase)
      → ((a b : ℕ) → p.env.backends_match a b ≡ p.env.backends_match b a)
      → is_settled h (record w {
        out_snd_device =
            derive_from p.env (stream_devices h w) (stream_devices h uc) w.out_snd_device d;
      })
        ≡ true
  unfolding is_settled
  derived_settled h w symmetric =
      elim (derive_from-cases p.env (stream_devices h w) (stream_devices h uc) w.out_snd_device d) [
        | inl new ↦ rw new (ground arith)
        | inr (old, inl left) ↦ rw old (ground (arith, left))
        | inr (old, inr apart) ↦ rw old (ground (arith, apart, symmetric w.out_snd_device d))
      ]

  -- Each snapshot at a usecase's address has its stream's devices and its device.
  abbrev pub is_same : Hal → Usecase → Usecase → Bool
  is_same h w v =
      not (v.self == w.self)
      || (stream_devices h v == stream_devices h w && v.out_snd_device == w.out_snd_device)

  unfoldable pub agrees : Hal → List Usecase → Usecase → Bool
  agrees h us w = every (is_same h w) us

  -- While the loop runs over a rest of the list: a usecase is as the loop will find it, and settled,
  -- unless the loop still takes it.
  abbrev pub is_on_way : (Usecase → Bool) → Hal → List Usecase → Usecase → Bool
  is_on_way switched h us w = agrees h us w && (is_settled h w || is_pending switched us w.self)

  pub elsewhere_agrees :
      (h : Hal) (us : List Usecase) (w : Usecase)
      → is_any (λ v. v.self == w.self) us ≡ false
      → agrees h us w ≡ true
  unfolding agrees
  elsewhere_agrees h [] w none_is = refl
  elsewhere_agrees h (u ∷ us) w none_is =
      let rest = elsewhere_agrees h us w (ground arith) in ground arith

  agrees_head :
      (h : Hal) (u w : Usecase) (us : List Usecase)
      → w.self ≡ u.self
      → agrees h (u ∷ us) w ≡ true
      → (stream_devices h u ≡ stream_devices h w) × (u.out_snd_device ≡ w.out_snd_device)
  unfolding agrees
  agrees_head h u w us same q = (ground arith, ground arith)

  derive_same :
      (h : Hal) (u w : Usecase)
      → stream_devices h u ≡ stream_devices h w
      → u.out_snd_device ≡ w.out_snd_device
      → derive_playback_snd_device p.env h u uc d
        ≡ derive_from p.env (stream_devices h w) (stream_devices h uc) w.out_snd_device d
  unfolding derive_playback_snd_device
  derive_same h u w devices out =
      ap (λ a. derive_from p.env a (stream_devices h uc) u.out_snd_device d) devices
      ∙ ap (λ o. derive_from p.env (stream_devices h w) (stream_devices h uc) o d) out

  other_on_way :
      (switched : Usecase → Bool) (h : Hal) (u w : Usecase) (us : List Usecase)
      → (w.self == u.self) ≡ false
      → is_on_way switched h (u ∷ us) w ≡ true
      → is_on_way switched h us w ≡ true
  unfolding agrees
  other_on_way switched h u w us other q = ground arith

  module _ (symmetric : (a b : ℕ) → p.env.backends_match a b ≡ p.env.backends_match b a) where
    moved_one :
        (switched : Usecase → Bool) (h : Hal) (u w : Usecase) (us : List Usecase)
        → is_any (λ v. v.self == u.self) us ≡ false
        → w.self ≡ u.self
        → is_on_way switched h (u ∷ us) w ≡ true
        → is_on_way switched h us
            (record w { out_snd_device = derive_playback_snd_device p.env h u uc d })
          ≡ true
    moved_one switched h u w us distinct same q =
        let (devices, out) = agrees_head h u w us same (ground arith) in
        let settled : is_settled h
              (record w { out_snd_device = derive_playback_snd_device p.env h u uc d })
            ≡ true =
          rw (derive_same h u w devices out) (derived_settled h w symmetric) in
        let elsewhere =
          elsewhere_agrees h us
            (record w { out_snd_device = derive_playback_snd_device p.env h u uc d })
            (rw same distinct) in
        rw (elsewhere, settled) refl

    moved_all :
        (switched : Usecase → Bool) (h : Hal) (u : Usecase) (us ws : List Usecase)
        → is_any (λ v. v.self == u.self) us ≡ false
        → every (is_on_way switched h (u ∷ us)) ws ≡ true
        → every (is_on_way switched h us) (
            map
              (λ w.
                if w.self == u.self
                then record w { out_snd_device = derive_playback_snd_device p.env h u uc d }
                else w)
              ws)
          ≡ true
    moved_all switched h u us [] distinct q = refl
    moved_all switched h u us (w ∷ ws) distinct q =
        let rest = moved_all switched h u us ws distinct (ground arith) in
        let first : is_on_way switched h us (
              if w.self == u.self
              then record w { out_snd_device = derive_playback_snd_device p.env h u uc d }
              else w)
            ≡ true =
          if_at (λ (v : Usecase). is_on_way switched h us v ≡ true) (w.self == u.self)
            (record w { out_snd_device = derive_playback_snd_device p.env h u uc d }) w
            (λ same. moved_one switched h u w us distinct (ground arith) (ground arith))
            (λ other. other_on_way switched h u w us other (ground arith)) in
        rw (first, rest) refl

    skipped_all :
        (switched : Usecase → Bool) (h : Hal) (u : Usecase) (us ws : List Usecase)
        → switched u ≡ false
        → every (is_on_way switched h (u ∷ us)) ws ≡ true
        → every (is_on_way switched h us) ws ≡ true
    unfolding agrees
    skipped_all switched h u us [] off q = refl
    skipped_all switched h u us (w ∷ ws) off q =
        let rest = skipped_all switched h u us ws off (ground arith) in ground arith

    arrived_all :
        (switched : Usecase → Bool) (h : Hal) (ws : List Usecase)
        → every (is_on_way switched h []) ws ≡ true
        → every (is_settled h) ws ≡ true
    arrived_all switched h [] q = refl
    arrived_all switched h (w ∷ ws) q =
        let rest = arrived_all switched h ws (ground arith) in ground arith

    pub loop_settled :
        (switched : Usecase → Bool) (us : List Usecase) (h : Hal)
        → is_distinct us ≡ true
        → every (is_on_way switched h us) h.usecases ≡ true
        → every
            (is_settled (each switched (move_output p uc d) us h))
            (each switched (move_output p uc d) us h).usecases
          ≡ true
    unfolding agrees is_settled
    loop_settled switched [] h distinct q = arrived_all switched h h.usecases q
    loop_settled switched (u ∷ us) h distinct q =
        loop_settled switched us (if switched u then move_output p uc d u h else h) (ground arith) (
          if_at (λ (k : Hal). every (is_on_way switched k us) k.usecases ≡ true) (switched u)
            (move_output p uc d u h) h (λ on. moved_all switched h u us h.usecases (ground arith) q)
            (λ off. skipped_all switched h u us h.usecases off q))
