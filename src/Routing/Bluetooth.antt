-- ===== src/Routing/Bluetooth.antt =====
-- audio_hw.c as a client of a2dp.c: the session that the A2DP device holds.
use android_device_zte_fujis.Common.{
  ℕ, zero, suc, ◌+◌, ◌-◌, ◌<◌, ◌≡◌, refl, some, ℤ, Bool, true, false, not, ◌&&◌, Bool-cases, inl,
  inr, arith, if_at, [], ◌∷◌, ◌==◌, leb, if◌then◌else◌, is_neg,
}
use android_device_zte_fujis.Routing.Types.{
  bt_a2dp, Trace, Env, Adev, after, set_ref, send_calibration, device_free, tfa_disable_speaker,
  apply_device, reset_device, dsm_feedback, gain_in_combo, a2dp_start, a2dp_stop,
}
use android_device_zte_fujis.Routing.Devices.{
  split, is_valid, is_protected, is_a2dp, announce, start_protected, start_path, enable_with,
  start_device, enable_at, enable_snd_device, enable_part, disable_part, disable_with, disable_at,
  disable_snd_device, stop_device, stop_a2dp,
}
use android_device_zte_fujis.Routing.Depth.{split-cases}
use android_device_zte_fujis.Routing.Uses.{Use, enable, disable, use_device}

-- A session is open if the newest start that succeeded was not stopped.
abbrev pub is_session_open : Env → Trace → Bool
is_session_open env [] = false
is_session_open env (c ∷ t) = elim c [
  | a2dp_start ↦ if is_neg (env.result t a2dp_start) then is_session_open env t else true
  | a2dp_stop ↦ false
  | _ ↦ is_session_open env t
]

-- Sessions are started only where none is open, and stopped only where one is.
abbrev pub is_orderly : Env → Trace → Bool
is_orderly env [] = true
is_orderly env (c ∷ t) = is_orderly env t && elim c [
  | a2dp_start ↦ not (is_session_open env t)
  | a2dp_stop ↦ is_session_open env t
  | _ ↦ true
]

pub record IsHeld (env : Env) (s : Adev) : Type 0 where
  pub session : is_session_open env s.calls ≡ leb 1 (s.ref bt_a2dp)
  pub flag : s.a2dp_started ≡ leb 1 (s.ref bt_a2dp)
  pub orderly : is_orderly env s.calls ≡ true

module _ (env : Env) where
  abbrev Held : ℤ × Adev → Type 0
  Held r = IsHeld env r.1

  announce-IsHeld : (e : ℕ) (s : Adev) → IsHeld env s → IsHeld env (announce env e s)
  unfolding announce
  announce-IsHeld e s h = ground arith

  ref-announce : (e d : ℕ) (s : Adev) → (announce env e s).ref d ≡ s.ref d
  unfolding announce
  ref-announce e d s = ground arith

  recount-IsHeld :
      (e : ℕ) (s : Adev) → IsHeld env s → 0 < s.ref e → IsHeld env (set_ref e (s.ref e + 1) s)
  recount-IsHeld e s h p = ground arith

  other-IsHeld :
      (e n : ℕ) (s : Adev) → IsHeld env s → is_a2dp e ≡ false → IsHeld env (set_ref e n s)
  other-IsHeld e n s h p = ground arith

  protected-IsHeld :
      (e : ℕ) (s : Adev) → IsHeld env s → is_protected env e ≡ true → Held (start_protected env e s)
  unfolding start_protected
  protected-IsHeld e s h p = ground arith

  path-IsHeld : (e : ℕ) (s : Adev) → IsHeld env s → s.ref e ≡ 0 → Held (start_path env e s)
  unfolding start_path
  path-IsHeld e s h p = elim (Bool-cases (is_a2dp e)) [
    | inl a2dp ↦ let eq : e ≡ bt_a2dp = ground arith in rw eq (ground arith)
    | inr other ↦
        rw other (other-IsHeld e (s.ref e + 1) (after (apply_device e) s) (ground arith) other)
  ]

  not_split : (e a b : ℕ) → split env e ≡ some (a, b) → is_a2dp e ≡ false
  unfolding split
  not_split e a b p = ground arith

  abbrev Keeps : (ℕ → Adev → Adev) → Type 0
  Keeps part = (e : ℕ) (s : Adev) → IsHeld env s → IsHeld env (part e s)

  device-IsHeld :
      (part : ℕ → Adev → Adev) (e : ℕ) (s : Adev)
      → Keeps part
      → IsHeld env s
      → s.ref e ≡ 0
      → Held (start_device env part e s)
  unfolding start_device
  device-IsHeld part e s keeps h free =
      if_at Held (is_protected env e) _ _ (λ q. protected-IsHeld e s h q)
        (λ q. elim (split-cases env e) [
          | inl whole ↦ rw whole (path-IsHeld e s h free)
          | inr (a, b, parted, ea, eb, differ) ↦
              let k = keeps b (part a s) (keeps a s h) in
              rw parted (
                other-IsHeld e ((part b (part a s)).ref e + 1)
                  (after (gain_in_combo e true) (part b (part a s)))
                  (record { session = k.session; flag = k.flag; orderly = rw k.orderly refl })
                  (not_split e a b parted))
        ])

  enable_with-IsHeld :
      (part : ℕ → Adev → Adev) (e : ℕ) (s : Adev)
      → Keeps part
      → IsHeld env s
      → Held (enable_with env part e s)
  unfolding enable_with
  enable_with-IsHeld part e s keeps h =
      let calibrated : IsHeld env (after (send_calibration e) s) = ground arith in
      if_at Held (not (is_valid e)) _ _ (λ q. h)
        (λ valid.
          if_at Held (leb 1 (s.ref e)) _ _
            (λ held. recount-IsHeld e (after (send_calibration e) s) calibrated (ground arith))
            (λ free.
              device-IsHeld part e (announce env e (after (send_calibration e) s)) keeps
                (announce-IsHeld e (after (send_calibration e) s) calibrated)
                (ground (arith, ref-announce e e (after (send_calibration e) s)))))

  -- The last user of a whole device leaves.
  whole_left :
      (e : ℕ) (s : Adev)
      → IsHeld env s
      → 0 < s.ref e
      → IsHeld env (
          after (device_free e) (
            after (reset_device e) (
              stop_a2dp e
                (after (dsm_feedback e false) (set_ref e 0 (after (tfa_disable_speaker e) s))))))
  whole_left e s h p = elim (Bool-cases (is_a2dp e)) [
    | inl a2dp ↦ let eq : e ≡ bt_a2dp = ground arith in rw eq (ground arith)
    | inr other ↦ rw other (ground arith)
  ]

  other_left :
      (e : ℕ) (s : Adev)
      → IsHeld env s
      → is_a2dp e ≡ false
      → IsHeld env (
          stop_a2dp e
            (after (dsm_feedback e false) (set_ref e 0 (after (tfa_disable_speaker e) s))))
  other_left e s h other = rw other (ground arith)

  stop-IsHeld :
      (part : ℕ → Adev → Adev) (e : ℕ) (s : Adev)
      → Keeps part
      → IsHeld env s
      → 0 < s.ref e
      → IsHeld env (stop_device env part e (set_ref e 0 (after (tfa_disable_speaker e) s)))
  unfolding stop_device
  stop-IsHeld part e s keeps h held =
      let s1 =
        stop_a2dp e
          (after (dsm_feedback e false) (set_ref e 0 (after (tfa_disable_speaker e) s))) in
      elim (Bool-cases (is_protected env e)) [
        | inl prot ↦
            let k = other_left e s h (ground arith) in
            rw prot (record { session = k.session; flag = k.flag; orderly = rw k.orderly refl })
        | inr bare ↦ elim (split-cases env e) [
          | inl whole ↦ rw (bare, whole) (whole_left e s h held)
          | inr (a, b, parted, ea, eb, differ) ↦
              let k =
                keeps b (part a s1) (keeps a s1 (other_left e s h (not_split e a b parted))) in
              rw (bare, parted)
                (record { session = k.session; flag = k.flag; orderly = rw k.orderly refl })
        ]
      ]

  stop_at-IsHeld :
      (part : ℕ → Adev → Adev) (e n : ℕ) (s : Adev)
      → Keeps part
      → IsHeld env s
      → 0 < s.ref e
      → n ≡ 0
      → IsHeld env (stop_device env part e (set_ref e n (after (tfa_disable_speaker e) s)))
  stop_at-IsHeld part e n s keeps h held z = rw z (stop-IsHeld part e s keeps h held)

  lower-IsHeld :
      (e n : ℕ) (s : Adev) → IsHeld env s → 0 < n → 0 < s.ref e → IsHeld env (set_ref e n s)
  lower-IsHeld e n s h p q = ground arith

  disable_with-IsHeld :
      (part : ℕ → Adev → Adev) (e : ℕ) (s : Adev)
      → Keeps part
      → IsHeld env s
      → Held (disable_with env part e s)
  unfolding disable_with
  disable_with-IsHeld part e s keeps h =
      let quiet : IsHeld env (after (tfa_disable_speaker e) s) = ground arith in
      if_at Held (not (is_valid e)) _ _ (λ q. h)
        (λ valid.
          if_at Held (s.ref e == 0) _ _ (λ q. h)
            (λ held.
              if_at (IsHeld env)
                ((set_ref e (s.ref e - 1) (after (tfa_disable_speaker e) s)).ref e == 0) _ _
                (λ last.
                  stop_at-IsHeld part e (s.ref e - 1) s keeps h (ground arith) (ground arith))
                (λ more.
                  lower-IsHeld e (s.ref e - 1) (after (tfa_disable_speaker e) s) quiet
                    (ground arith) (ground arith))))

  enable_part-IsHeld : (depth : ℕ) → Keeps (enable_part depth env)
  unfolding enable_at
  enable_part-IsHeld zero e s h = h
  enable_part-IsHeld (suc depth) e s h =
      enable_with-IsHeld (enable_part depth env) e s (enable_part-IsHeld depth) h

  disable_part-IsHeld : (depth : ℕ) → Keeps (disable_part depth env)
  unfolding disable_at
  disable_part-IsHeld zero e s h = h
  disable_part-IsHeld (suc depth) e s h =
      disable_with-IsHeld (disable_part depth env) e s (disable_part-IsHeld depth) h

  pub use_device-IsHeld : (u : Use) (s : Adev) → IsHeld env s → IsHeld env (use_device env u s)
  unfolding enable_snd_device disable_snd_device
  use_device-IsHeld (enable d) s h = enable_part-IsHeld 2 d s h
  use_device-IsHeld (disable d) s h = disable_part-IsHeld 2 d s h
