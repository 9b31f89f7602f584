-- ===== src/Usb/Types.antt =====
-- usb.c: the configurations and cards of the module.
use android_device_zte_fujis.Common.{inr, inl, ℕ, ◌≡◌, ◌⊎◌, List, [], ◌∷◌}

-- `usb_usecase_type`
pub data UsecaseType : Type 0 where
  playback capture : UsecaseType

-- `struct usb_device_config`; `rates` are the first `rate_size` entries of the array.
pub record DeviceConfig : Type 0 where
  pub bit_width : ℕ
  pub channel_count : ℕ
  pub rates : List ℕ
  pub service_interval_us : ℕ
  pub usecase : UsecaseType

-- `d` stands in the list.
abbrev pub In : {A : Type 0} → A → List A → Type 0
In d [] = ⊥
In d (x ∷ xs) = (d ≡ x) ⊎ In d xs

abbrev pub All : {A : Type 0} → (A → Type 0) → List A → Type 0
All P [] = Unit
All P (x ∷ xs) = P x × All P xs

pub All_at : {A : Type 0} (P : A → Type 0) (xs : List A) (d : A) → All P xs → In d xs → P d
All_at P [] d p i = absurd i
All_at P (x ∷ xs) d (p, ps) (inl here) = rw here p
All_at P (x ∷ xs) d (p, ps) (inr there) = All_at P xs d ps there
