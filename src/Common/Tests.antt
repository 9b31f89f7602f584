-- ===== src/Common/Tests.antt =====
-- Boolean tests on the native numbers, the conditional, and lists measured by native numbers.
use Prim.Native.Nat.{ℕ, zero, suc, compare, Ordering}
use mathlib.Core.Path.{◌≡◌, refl}
use mathlib.Core.Logic.{◌⊎◌, inl, inr}
use mathlib.Core.Bool.{Bool, true, false}
use mathlib.Core.Option.{Option, none, some}
use mathlib.Core.List.{List, [], ◌∷◌}

abbrev pub ltb : ℕ → ℕ → Bool
ltb a b = elim (compare a b) [ Ordering.lt ↦ true | _ ↦ false ]

abbrev pub leb : ℕ → ℕ → Bool
leb a b = elim (compare a b) [ Ordering.gt ↦ false | _ ↦ true ]

infix 50 ◌==◌
abbrev pub ◌==◌ : ℕ → ℕ → Bool
a == b = elim (compare a b) [ Ordering.eq ↦ true | _ ↦ false ]

infix 1 if◌then◌else◌
abbrev pub if◌then◌else◌ {ℓ} : {A : Type ℓ} → Bool → A → A → A
if true then x else y = x
if false then x else y = y

pub Bool-cases : (b : Bool) → (b ≡ true) ⊎ (b ≡ false)
Bool-cases true = inl refl
Bool-cases false = inr refl

-- A property of what a conditional returns.
pub if_at {ℓ κ} :
    {A : Type ℓ} (P : A → Type κ) (b : Bool) (x y : A)
    → (b ≡ true → P x)
    → (b ≡ false → P y)
    → P (if b then x else y)
if_at P true x y p q = p refl
if_at P false x y p q = q refl

-- A choice by an option satisfies what both of its branches do.
pub option_at {ℓ κ μ} :
    {A : Type ℓ} {C : Type κ} (B : C → Type μ) (o : Option A) (n : C) (f : A → C)
    → B n
    → ((a : A) → B (f a))
    → B (elim o [ none ↦ n | some a ↦ f a ])
option_at B none n f on_none on_some = on_none
option_at B (some a) n f on_none on_some = on_some a

pub Option-cases {ℓ} : {A : Type ℓ} (o : Option A) → (o ≡ none) ⊎ ((a : A) × (o ≡ some a))
Option-cases none = inl refl
Option-cases (some a) = inr (a, refl)

-- Two choices by an option agree where they do on the value it has.
pub option_same {ℓ κ} :
    {A : Type ℓ} {C : Type κ} (o : Option A) (n : C) (f g : A → C)
    → ((a : A) → o ≡ some a → f a ≡ g a)
    → elim o as (λ x. C) [ none ↦ n | some a ↦ f a ]
      ≡ elim o as (λ x. C) [ none ↦ n | some a ↦ g a ]
option_same none n f g same = refl
option_same (some a) n f g same = same a refl

module _ {ℓ} {A : Type ℓ} where
  abbrev pub length : List A → ℕ
  length [] = 0
  length (x ∷ xs) = suc (length xs)

  abbrev pub take : ℕ → List A → List A
  take zero xs = []
  take (suc n) [] = []
  take (suc n) (x ∷ xs) = x ∷ take n xs

  abbrev pub drop : ℕ → List A → List A
  drop zero xs = xs
  drop (suc n) [] = []
  drop (suc n) (x ∷ xs) = drop n xs
