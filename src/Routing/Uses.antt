-- ===== src/Routing/Uses.antt =====
-- audio_hw.c: a device's mixer path goes off when it is counted no more.
use android_device_zte_fujis.Common.{
  ℕ, zero, suc, ◌-◌, ◌<◌, ◌≡◌, refl, ℤ, true, false, not, Bool-cases, inl, inr, arith, if_at, ◌==◌,
}
use android_device_zte_fujis.Routing.Types.{
  Env, Adev, after, set_ref, device_free, tfa_disable_speaker, reset_device, dsm_feedback,
}
use android_device_zte_fujis.Routing.Devices.{
  is_valid, is_protected, is_a2dp, enable_at, enable_snd_device, enable_part, disable_part,
  disable_with, disable_at, disable_snd_device, stop_device, stop_a2dp,
}
use android_device_zte_fujis.Routing.Depth.{split-cases}
use android_device_zte_fujis.Routing.Paths.{
  has_path, PathsAgree, turn_off, pathless-PathsAgree, Keeps, enable_with-PathsAgree,
}

module _ (env : Env) where
  recount_off :
      (e n : ℕ) (s : Adev) → PathsAgree env s → 0 < n → 0 < s.ref e → PathsAgree env (set_ref e n s)
  recount_off e n s h p q d = ground (arith, h d)

  off-PathsAgree :
      (e : ℕ) (s : Adev)
      → PathsAgree env s
      → PathsAgree env (after (device_free e) (after (reset_device e) (set_ref e 0 s)))
  off-PathsAgree e s h d = turn_off env d s e h

  stop_a2dp-PathsAgree : (e : ℕ) (s : Adev) → PathsAgree env s → PathsAgree env (stop_a2dp e s)
  stop_a2dp-PathsAgree e s h = if_at (PathsAgree env) (is_a2dp e) _ _ (λ q. h) (λ q. h)

  stop_whole :
      (e : ℕ) (s : Adev)
      → PathsAgree env s
      → PathsAgree env (
          after (device_free e) (
            after (reset_device e) (
              stop_a2dp e
                (after (dsm_feedback e false) (set_ref e 0 (after (tfa_disable_speaker e) s))))))
  stop_whole e s h = elim (Bool-cases (is_a2dp e)) [
    | inl a2dp ↦ rw a2dp (off-PathsAgree e s h)
    | inr other ↦ rw other (off-PathsAgree e s h)
  ]

  stop-PathsAgree :
      (part : ℕ → Adev → Adev) (e : ℕ) (s : Adev)
      → Keeps env part
      → PathsAgree env s
      → is_valid e ≡ true
      → PathsAgree env (stop_device env part e (set_ref e 0 (after (tfa_disable_speaker e) s)))
  unfolding stop_device
  stop-PathsAgree part e s keeps h valid =
      let s1 =
        stop_a2dp e
          (after (dsm_feedback e false) (set_ref e 0 (after (tfa_disable_speaker e) s))) in
      let pathless = λ (q : has_path env e ≡ false).
        stop_a2dp-PathsAgree e
          (after (dsm_feedback e false) (set_ref e 0 (after (tfa_disable_speaker e) s)))
          (pathless-PathsAgree env e 0 (after (tfa_disable_speaker e) s) h q) in
      elim (Bool-cases (is_protected env e)) [
        | inl prot ↦ rw prot (pathless (rw (valid, prot) refl))
        | inr bare ↦ elim (split-cases env e) [
          | inl whole ↦ rw (bare, whole) (stop_whole e s h)
          | inr (a, b, parted, ea, eb, differ) ↦
              rw (bare, parted)
                (keeps b (part a s1) (keeps a s1 (pathless (rw (valid, bare, parted) refl))))
        ]
      ]

  stop_at-PathsAgree :
      (part : ℕ → Adev → Adev) (e n : ℕ) (s : Adev)
      → Keeps env part
      → PathsAgree env s
      → is_valid e ≡ true
      → n ≡ 0
      → PathsAgree env (stop_device env part e (set_ref e n (after (tfa_disable_speaker e) s)))
  stop_at-PathsAgree part e n s keeps h valid z = rw z (stop-PathsAgree part e s keeps h valid)

  disable_with-PathsAgree :
      (part : ℕ → Adev → Adev) (e : ℕ) (s : Adev)
      → Keeps env part
      → PathsAgree env s
      → PathsAgree env (disable_with env part e s).1
  unfolding disable_with
  disable_with-PathsAgree part e s keeps h =
      if_at (λ (r : ℤ × Adev). PathsAgree env r.1) (not (is_valid e)) _ _ (λ q. h)
        (λ valid.
          if_at (λ (r : ℤ × Adev). PathsAgree env r.1) (s.ref e == 0) _ _ (λ q. h)
            (λ held.
              if_at (PathsAgree env)
                ((set_ref e (s.ref e - 1) (after (tfa_disable_speaker e) s)).ref e == 0) _ _
                (λ last.
                  stop_at-PathsAgree part e (s.ref e - 1) s keeps h (ground arith) (ground arith))
                (λ more.
                  recount_off e (s.ref e - 1) (after (tfa_disable_speaker e) s) h (ground arith)
                    (ground arith))))

  enable_at-Keeps : (depth : ℕ) → Keeps env (enable_part depth env)
  unfolding enable_at
  enable_at-Keeps zero e s h = h
  enable_at-Keeps (suc depth) e s h =
      enable_with-PathsAgree env (enable_part depth env) e s (enable_at-Keeps depth) h

  disable_at-Keeps : (depth : ℕ) → Keeps env (disable_part depth env)
  unfolding disable_at
  disable_at-Keeps zero e s h = h
  disable_at-Keeps (suc depth) e s h =
      disable_with-PathsAgree (disable_part depth env) e s (disable_at-Keeps depth) h

-- A user of a device comes or goes.
pub data Use : Type 0 where
  enable disable : ℕ → Use

abbrev pub use_device : Env → Use → Adev → Adev
use_device env (enable d) s = (enable_snd_device env d s).1
use_device env (disable d) s = (disable_snd_device env d s).1

module _ (env : Env) where
  pub use_device-PathsAgree :
      (u : Use) (s : Adev) → PathsAgree env s → PathsAgree env (use_device env u s)
  unfolding enable_snd_device disable_snd_device
  use_device-PathsAgree (enable d) s h = enable_at-Keeps env 2 d s h
  use_device-PathsAgree (disable d) s h = disable_at-Keeps env 2 d s h
