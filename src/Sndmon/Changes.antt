-- ===== src/Sndmon/Changes.antt =====
-- sndmonitor.c: what a registered listener is told of a card.
use android_device_zte_fujis.Common.{
  ℕ, zero, suc, ◌≡◌, ◌≢◌, refl, ◌∙◌, ap, Bool, true, false, Option, none, some, List, [], ◌∷◌, ◌++◌,
  ◌==◌, inl, inr, arith, if◌then◌else◌, Bool-cases, map,
}
use android_device_zte_fujis.Usb.Text.{Bytes}
use android_device_zte_fujis.Sndmon.Defs.{
  Status, online, offline, same_status, SndCard, Message, snd_card_status, cpe_status, slpi_status,
  message_of, state_in, updated, on_sndcard_state_update, on_ready,
}

abbrev pub select : {A : Type 0} → (A → Bool) → List A → List A
select test [] = []
select test (x ∷ xs) = if test x then x ∷ select test xs else select test xs

pub select-++ :
    {A : Type 0} (test : A → Bool) (xs ys : List A)
    → select test (xs ++ ys) ≡ select test xs ++ select test ys
select-++ test [] ys = refl
select-++ test (x ∷ xs) ys = elim (Bool-cases (test x)) [
  | inl e ↦ rw e (ap (λ r. x ∷ r) (select-++ test xs ys))
  | inr e ↦ rw e (select-++ test xs ys)
]

-- The message is about the card.
abbrev same_key : Message → Message → Bool
same_key (snd_card_status a s) (snd_card_status b t) = a == b
same_key (cpe_status a s) (cpe_status b t) = a == b
same_key (slpi_status a s) (slpi_status b t) = a == b
same_key _ _ = false

abbrev pub is_about : ℕ → Message → Bool
is_about card msg = same_key msg (message_of card online)

is_about-message_of : (a b : ℕ) (s : Status) → is_about b (message_of a s) ≡ (a == b)
unfolding message_of
is_about-message_of a b s = ground arith

-- What the file says in a poll.
abbrev pub report : Option Bytes → List Status
report none = []
report (some []) = []
report (some (c ∷ text)) = elim (state_in (c ∷ text)) [ none ↦ [] | some s ↦ s ∷ [] ]

abbrev prepend : Bool → Status → List Status → List Status
prepend true s rest = rest
prepend false s rest = s ∷ rest

-- The states that differ from the one before, from the state `s` on.
abbrev pub changes : Status → List Status → List Status
changes s [] = []
changes s (r ∷ rs) = prepend (same_status r s) r (changes r rs)

abbrev pub last : Status → List Status → Status
last s [] = s
last s (r ∷ rs) = last r rs

abbrev pub noted : SndCard → List Status → SndCard × List Message
noted s rs = (record s { status = last s.status rs }, map (message_of s.card) (changes s.status rs))

same_status-eq : (r s : Status) → same_status r s ≡ true → r ≡ s
same_status-eq online online e = refl
same_status-eq offline offline e = refl
same_status-eq online offline e = cc
same_status-eq offline online e = cc

updated_lem : (s : SndCard) (r : Status) → updated s (some r) ≡ noted s (r ∷ [])
updated_lem s r = elim (Bool-cases (same_status r s.status)) [
  | inl e ↦ let same = same_status-eq r s.status e in ground arith
  | inr e ↦ rw e refl
]

pub update_lem :
    (s : SndCard) (file : Option Bytes)
    → on_ready on_sndcard_state_update s file ≡ noted s (report file)
unfolding on_sndcard_state_update
update_lem s none = refl
update_lem s (some []) = refl
update_lem s (some (c ∷ text)) = by_state (state_in (c ∷ text))
  where
    by_state : (o : Option Status) → updated s o ≡ noted s (elim o [ none ↦ [] | some r ↦ r ∷ [] ])
    by_state none = refl
    by_state (some r) = updated_lem s r

module _ (n : ℕ) where
  abbrev pub of_card : List Message → List Message
  of_card = select (is_about n)

  pub of_card_other :
      (card : ℕ) (st : Status) (rs : List Status)
      → card ≢ n
      → of_card (map (message_of card) (changes st rs)) ≡ []
  of_card_other card st [] p = refl
  of_card_other card st (r ∷ rs) p = elim (Bool-cases (same_status r st)) [
    | inl e ↦ rw e (of_card_other card r rs p)
    | inr e ↦
        let other : is_about n (message_of card r) ≡ false =
          is_about-message_of card n r ∙ ground arith in
        rw (e, other) (of_card_other card r rs p)
  ]

  pub of_card_own :
      (st : Status) (rs : List Status)
      → of_card (map (message_of n) (changes st rs)) ≡ map (message_of n) (changes st rs)
  of_card_own st [] = refl
  of_card_own st (r ∷ rs) = elim (Bool-cases (same_status r st)) [
    | inl e ↦ rw e (of_card_own r rs)
    | inr e ↦
        let own : is_about n (message_of n r) ≡ true = is_about-message_of n n r ∙ ground arith in
        rw (e, own) (ap (λ ms. message_of n r ∷ ms) (of_card_own r rs))
  ]

-- The file of the card with the index `i`.
abbrev pub file_at : ℕ → List (Option Bytes) → Option Bytes
file_at i [] = none
file_at zero (f ∷ fs) = f
file_at (suc i) (f ∷ fs) = file_at i fs

abbrev pub nth : {A : Type 0} → ℕ → List A → Option A
nth i [] = none
nth zero (x ∷ xs) = some x
nth (suc i) (x ∷ xs) = nth i xs

abbrev pub Lacks : ℕ → List SndCard → Type 0
Lacks n [] = Unit
Lacks n (c ∷ cs) = (c.card ≢ n) × Lacks n cs

-- No two cards have one number.
abbrev pub Distinct : List SndCard → Type 0
Distinct [] = Unit
Distinct (c ∷ cs) = Lacks c.card cs × Distinct cs
