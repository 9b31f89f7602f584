-- ===== src/Routing/Depth.antt =====
-- audio_hw.c: the parts of a device are not split again, so that two levels of calls are enough.
use android_device_zte_fujis.Common.{
  ℕ, suc, ◌≡◌, ◌≢◌, refl, none, some, ℤ, inl, inr, ◌⊎◌, arith, ap, fun_ext,
}
use android_device_zte_fujis.Routing.Types.{Env, Adev}
use android_device_zte_fujis.Routing.Devices.{
  split, enable_with, start_device, enable_at, enable_snd_device, enable_part, disable_part,
  disable_with, disable_at, disable_snd_device, stop_device,
}

pub split-cases :
    (env : Env) (d : ℕ)
    → (split env d ≡ none)
      ⊎ ((a : ℕ) × (b : ℕ) × (split env d ≡ some (a, b))
          × (split env a ≡ none)
          × (split env b ≡ none)
          × (a ≢ b))
unfolding split
split-cases env d = ground arith

module _ (env : Env) (f g : ℕ → Adev → Adev) where
  -- What a call does to a device that is not split does not depend on the calls for parts.
  enable_whole :
      (d : ℕ) (s : Adev) → split env d ≡ none → enable_with env f d s ≡ enable_with env g d s
  unfolding enable_with start_device
  enable_whole d s e = rw e refl

  disable_whole :
      (d : ℕ) (s : Adev) → split env d ≡ none → disable_with env f d s ≡ disable_with env g d s
  unfolding disable_with stop_device
  disable_whole d s e = rw e refl

  enable_split :
      (a b d : ℕ) (s : Adev)
      → split env d ≡ some (a, b)
      → ((t : Adev) → f a t ≡ g a t)
      → ((t : Adev) → f b t ≡ g b t)
      → enable_with env f d s ≡ enable_with env g d s
  unfolding enable_with start_device
  enable_split a b d s e same_a same_b = rw (e, fun_ext same_a, fun_ext same_b) refl

  disable_split :
      (a b d : ℕ) (s : Adev)
      → split env d ≡ some (a, b)
      → ((t : Adev) → f a t ≡ g a t)
      → ((t : Adev) → f b t ≡ g b t)
      → disable_with env f d s ≡ disable_with env g d s
  unfolding disable_with stop_device
  disable_split a b d s e same_a same_b = rw (e, fun_ext same_a, fun_ext same_b) refl

-- The calls that enable a device go two levels deep at most: more depth changes nothing.
pub enable_snd_device_deep :
    (depth : ℕ) (env : Env) (d : ℕ) (s : Adev)
    → enable_at (suc (suc depth)) env d s ≡ enable_snd_device env d s
unfolding enable_at enable_snd_device
enable_snd_device_deep depth env d s = elim (split-cases env d) [
  | inl whole ↦ enable_whole env (enable_part (suc depth) env) (enable_part 1 env) d s whole
  | inr (a, b, e, ea, eb, differ) ↦
      enable_split env (enable_part (suc depth) env) (enable_part 1 env) a b d s e
        (λ t.
          ap (λ (r : ℤ × Adev). r.1)
            (enable_whole env (enable_part depth env) (enable_part 0 env) a t ea))
        (λ t.
          ap (λ (r : ℤ × Adev). r.1)
            (enable_whole env (enable_part depth env) (enable_part 0 env) b t eb))
]

pub disable_snd_device_deep :
    (depth : ℕ) (env : Env) (d : ℕ) (s : Adev)
    → disable_at (suc (suc depth)) env d s ≡ disable_snd_device env d s
unfolding disable_at disable_snd_device
disable_snd_device_deep depth env d s = elim (split-cases env d) [
  | inl whole ↦ disable_whole env (disable_part (suc depth) env) (disable_part 1 env) d s whole
  | inr (a, b, e, ea, eb, differ) ↦
      disable_split env (disable_part (suc depth) env) (disable_part 1 env) a b d s e
        (λ t.
          ap (λ (r : ℤ × Adev). r.1)
            (disable_whole env (disable_part depth env) (disable_part 0 env) a t ea))
        (λ t.
          ap (λ (r : ℤ × Adev). r.1)
            (disable_whole env (disable_part depth env) (disable_part 0 env) b t eb))
]
