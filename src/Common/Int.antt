-- ===== src/Common/Int.antt =====
-- The `int` results of C functions: signed numbers over the native ℕ, and the negated errno values.
use Prim.Native.Nat.{ℕ, zero, suc}
use mathlib.Core.Path.{◌≡◌, refl}
use mathlib.Core.Logic.{◌⊎◌, inl, inr}
use mathlib.Core.Bool.{Bool, true, false}

-- `negsuc n` is -(n + 1).
pub data ℤ : Type 0 where
  pos : ℕ → ℤ
  negsuc : ℕ → ℤ

pub ℤ-cases : (a : ℤ) → ((k : ℕ) × (a ≡ negsuc k)) ⊎ (a ≡ pos 0) ⊎ ((k : ℕ) × (a ≡ pos (suc k)))
ℤ-cases (negsuc k) = inl (k, refl)
ℤ-cases (pos zero) = inr (inl refl)
ℤ-cases (pos (suc k)) = inr (inr (k, refl))

abbrev pub neg : ℕ → ℤ
neg zero = pos zero
neg (suc n) = negsuc n

-- What C takes for true: a number that is not 0, a pointer that is not NULL.
abbrev pub truthy : ℤ → Bool
truthy (pos zero) = false
truthy (pos (suc n)) = true
truthy (negsuc n) = true

abbrev pub is_neg : ℤ → Bool
is_neg (pos n) = false
is_neg (negsuc n) = true

abbrev pub enosys : ℤ
enosys = negsuc 37

abbrev pub einval : ℤ
einval = negsuc 21

abbrev pub etimedout : ℤ
etimedout = negsuc 109

abbrev pub eio : ℤ
eio = negsuc 4

abbrev pub enomem : ℤ
enomem = negsuc 11
