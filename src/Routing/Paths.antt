-- ===== src/Routing/Paths.antt =====
-- audio_hw.c: the newest call for a device's path applied it exactly while the device is counted.
use android_device_zte_fujis.Common.{
  ℕ, ◌+◌, ◌<◌, ◌≡◌, refl, Option, none, some, ℤ, Bool, true, false, not, ◌&&◌, Bool-cases, inl, inr,
  arith, if_at, [], ◌∷◌, ◌==◌, leb, if◌then◌else◌, is_neg, truthy,
}
use android_device_zte_fujis.Routing.Types.{
  Trace, Env, Adev, after, set_ref, send_calibration, spkr_start, apply_device, reset_device,
  gain_in_combo, a2dp_start,
}
use android_device_zte_fujis.Routing.Devices.{
  split, is_valid, is_protected, is_a2dp, announce, start_protected, start_path, counted,
  enable_with, start_device,
}
use android_device_zte_fujis.Routing.Depth.{split-cases}

-- What the newest call for the device did with its path. Calls for other devices with the same path
-- are not looked at.
abbrev pub is_device_on : ℕ → Trace → Bool
is_device_on d [] = false
is_device_on d (c ∷ t) = elim c [
  | apply_device e ↦ if e == d then true else is_device_on d t
  | reset_device e ↦ if e == d then false else is_device_on d t
  | _ ↦ is_device_on d t
]

abbrev pub is_none : Option (ℕ × ℕ) → Bool
is_none none = true
is_none (some p) = false

-- The device has a path of its own.
abbrev pub has_path : Env → ℕ → Bool
has_path env d = is_valid d && not (is_protected env d) && is_none (split env d)

-- The devices whose newest call applied a path are those that are counted.
abbrev pub PathsAgree : Env → Adev → Type 0
PathsAgree env s = (d : ℕ) → is_device_on d s.calls ≡ (has_path env d && leb 1 (s.ref d))

module _ (env : Env) (d : ℕ) (s : Adev) where
  announce_quiet :
      (e : ℕ)
      → (is_device_on d (announce env e s).calls ≡ is_device_on d s.calls)
        × ((announce env e s).ref d ≡ s.ref d)
        × ((announce env e s).ref e ≡ s.ref e)
  unfolding announce
  announce_quiet e = ground arith

  -- The cases of a device that is counted once more: its path is on, was turned on, or is none.
  recount_on :
      (e : ℕ)
      → PathsAgree env s
      → 0 < s.ref e
      → is_device_on d s.calls ≡ (has_path env d && leb 1 ((set_ref e (s.ref e + 1) s).ref d))
  recount_on e h p = ground (arith, h d)

  turn_on :
      (e : ℕ)
      → PathsAgree env s
      → has_path env e ≡ true
      → is_device_on d (apply_device e ∷ s.calls)
        ≡ (has_path env d && leb 1 ((set_ref e (s.ref e + 1) s).ref d))
  turn_on e h p = elim (Bool-cases (e == d)) [
    | inl same ↦ let eq : e ≡ d = ground arith in rw (← eq) (ground arith)
    | inr other ↦ ground (arith, h d)
  ]

  count_pathless :
      (e n : ℕ)
      → PathsAgree env s
      → has_path env e ≡ false
      → is_device_on d s.calls ≡ (has_path env d && leb 1 ((set_ref e n s).ref d))
  count_pathless e n h p = elim (Bool-cases (d == e)) [
    | inl same ↦ let eq : d ≡ e = ground arith in rw eq (ground (arith, h e))
    | inr other ↦ ground (arith, h d)
  ]

  pub turn_off :
      (e : ℕ)
      → PathsAgree env s
      → is_device_on d (reset_device e ∷ s.calls)
        ≡ (has_path env d && leb 1 ((set_ref e 0 s).ref d))
  turn_off e h = elim (Bool-cases (e == d)) [
    | inl same ↦ let eq : e ≡ d = ground arith in rw (← eq) (ground arith)
    | inr other ↦ ground (arith, h d)
  ]

module _ (env : Env) where
  counted-PathsAgree :
      (e : ℕ) (s : Adev) → PathsAgree env s → 0 < s.ref e → PathsAgree env (counted e s).1
  counted-PathsAgree e s h p d = recount_on env d s e h p

  pub pathless-PathsAgree :
      (e n : ℕ) (s : Adev)
      → PathsAgree env s
      → has_path env e ≡ false
      → PathsAgree env (set_ref e n s)
  pathless-PathsAgree e n s h p d = count_pathless env d s e n h p

  protected-PathsAgree :
      (e : ℕ) (s : Adev)
      → PathsAgree env s
      → is_protected env e ≡ true
      → PathsAgree env (start_protected env e s).1
  unfolding start_protected
  protected-PathsAgree e s h p =
      let pathless : has_path env e ≡ false = ground arith in
      if_at (λ (r : ℤ × Adev). PathsAgree env r.1) (is_neg (env.acdb_id e)) _ _ (λ q. h)
        (λ q.
          if_at (λ (r : ℤ × Adev). PathsAgree env r.1) (truthy (env.result s.calls (spkr_start e)))
            _ _ (λ f. h)
            (λ f. pathless-PathsAgree e (s.ref e + 1) (after (spkr_start e) s) h pathless))

  path-PathsAgree :
      (e : ℕ) (s : Adev)
      → PathsAgree env s
      → has_path env e ≡ true
      → PathsAgree env (start_path env e s).1
  unfolding start_path
  path-PathsAgree e s h p =
      if_at (λ (r : ℤ × Adev). PathsAgree env r.1) (is_a2dp e) _ _
        (λ q.
          if_at (λ (r : ℤ × Adev). PathsAgree env r.1) (is_neg (env.result s.calls a2dp_start)) _ _
            (λ f. h) (λ f d. turn_on env d (after a2dp_start s) e h p))
        (λ q d. turn_on env d s e h p)

  announce-PathsAgree : (e : ℕ) (s : Adev) → PathsAgree env s → PathsAgree env (announce env e s)
  announce-PathsAgree e s h d = let quiet = announce_quiet env d s e in ground (arith, h d)

  -- An operation on parts of devices keeps the agreement.
  abbrev pub Keeps : (ℕ → Adev → Adev) → Type 0
  Keeps part = (e : ℕ) (s : Adev) → PathsAgree env s → PathsAgree env (part e s)

  device-PathsAgree :
      (part : ℕ → Adev → Adev) (e : ℕ) (s : Adev)
      → Keeps part
      → PathsAgree env s
      → is_valid e ≡ true
      → PathsAgree env (start_device env part e s).1
  unfolding start_device
  device-PathsAgree part e s keeps h valid =
      if_at (λ (r : ℤ × Adev). PathsAgree env r.1) (is_protected env e) _ _
        (λ q. protected-PathsAgree e s h q)
        (λ q. elim (split-cases env e) [
          | inl whole ↦ rw whole (path-PathsAgree e s h (rw (valid, q, whole) refl))
          | inr (a, b, parted, ea, eb, differ) ↦ rw parted (
              pathless-PathsAgree e _ (after (gain_in_combo e true) (part b (part a s)))
                (keeps b (part a s) (keeps a s h)) (rw (valid, q, parted) refl))
        ])

  pub enable_with-PathsAgree :
      (part : ℕ → Adev → Adev) (e : ℕ) (s : Adev)
      → Keeps part
      → PathsAgree env s
      → PathsAgree env (enable_with env part e s).1
  unfolding enable_with
  enable_with-PathsAgree part e s keeps h =
      if_at (λ (r : ℤ × Adev). PathsAgree env r.1) (not (is_valid e)) _ _ (λ q. h)
        (λ valid.
          if_at (λ (r : ℤ × Adev). PathsAgree env r.1) (leb 1 (s.ref e)) _ _
            (λ held. counted-PathsAgree e (after (send_calibration e) s) h (ground arith))
            (λ free.
              device-PathsAgree part e (announce env e (after (send_calibration e) s)) keeps
                (announce-PathsAgree e (after (send_calibration e) s) h) (ground arith)))
