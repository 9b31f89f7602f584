-- ===== src/Common/Lists.antt =====
-- Lists measured by native numbers: lengths, and the parts of an append.
use Prim.Native.Nat.{ℕ, zero, suc, ◌+◌, ◌-◌, ◌≤◌}
use mathlib.Core.Path.{◌≡◌, refl, sym, ap, ◌∙◌}
use mathlib.Core.List.{List, [], ◌∷◌, ◌++◌}
use native.Mathlib.Omega.{arith}
use android_device_zte_fujis.Common.Tests.{length, take, drop}

module _ {ℓ} {A : Type ℓ} where
  pub length-++ : (xs ys : List A) → length (xs ++ ys) ≡ length xs + length ys
  length-++ [] ys = omega arith
  length-++ (x ∷ xs) ys = let rest = length-++ xs ys in omega arith

  pub take-drop : (n : ℕ) (xs : List A) → take n xs ++ drop n xs ≡ xs
  take-drop zero xs = refl
  take-drop (suc n) [] = refl
  take-drop (suc n) (x ∷ xs) = ap {B = List A} (λ r. x ∷ r) (take-drop n xs)

  pub take-length : (n : ℕ) (xs : List A) → length xs ≤ n → take n xs ≡ xs
  take-length zero [] p = refl
  take-length zero (x ∷ xs) p = grind arith
  take-length (suc n) [] p = refl
  take-length (suc n) (x ∷ xs) p = ap {B = List A} (λ r. x ∷ r) (take-length n xs (omega arith))

  pub length-take : (n : ℕ) (xs : List A) → n ≤ length xs → length (take n xs) ≡ n
  length-take zero xs p = refl
  length-take (suc n) [] p = grind arith
  length-take (suc n) (x ∷ xs) p = let rest = length-take n xs (omega arith) in omega arith

  pub length-drop : (n : ℕ) (xs : List A) → length (drop n xs) ≡ length xs - n
  length-drop zero xs = omega arith
  length-drop (suc n) [] = omega arith
  length-drop (suc n) (x ∷ xs) = let rest = length-drop n xs in omega arith

  drop-nil : (n : ℕ) → drop {A = A} n [] ≡ []
  drop-nil zero = refl
  drop-nil (suc n) = refl

  pub drop-drop : (m n : ℕ) (xs : List A) → drop m (drop n xs) ≡ drop (n + m) xs
  drop-drop m zero xs = ap (λ k. drop k xs) (omega arith)
  drop-drop m (suc n) [] = drop-nil m ∙ sym (drop-nil (suc n + m))
  drop-drop m (suc n) (x ∷ xs) =
      let shift : suc (n + m) ≡ suc n + m = omega arith in
      drop-drop m n xs ∙ ap {A = ℕ} {B = List A} (λ k. drop k (x ∷ xs)) shift

  take-nil : (n : ℕ) → take {A = A} n [] ≡ []
  take-nil zero = refl
  take-nil (suc n) = refl

  pub take_add : (m n : ℕ) (xs : List A) → take m xs ++ take n (drop m xs) ≡ take (m + n) xs
  take_add zero n xs = ap (λ k. take k xs) (omega arith)
  take_add (suc m) n [] = take-nil n ∙ sym (take-nil (suc m + n))
  take_add (suc m) n (x ∷ xs) =
      let shift : suc (m + n) ≡ suc m + n = omega arith in
      ap {B = List A} (λ r. x ∷ r) (take_add m n xs)
      ∙ ap {A = ℕ} {B = List A} (λ k. take k (x ∷ xs)) shift

  pub take-++ : (xs ys : List A) → take (length xs) (xs ++ ys) ≡ xs
  take-++ [] ys = refl
  take-++ (x ∷ xs) ys = ap {B = List A} (λ r. x ∷ r) (take-++ xs ys)

  pub drop-++ : (n : ℕ) (xs ys : List A) → n ≤ length xs → drop n (xs ++ ys) ≡ drop n xs ++ ys
  drop-++ zero xs ys p = refl
  drop-++ (suc n) [] ys p = grind arith
  drop-++ (suc n) (x ∷ xs) ys p = drop-++ n xs ys (omega arith)

  pub drop-length : (xs ys : List A) → drop (length xs) (xs ++ ys) ≡ ys
  drop-length [] ys = refl
  drop-length (x ∷ xs) ys = drop-length xs ys
