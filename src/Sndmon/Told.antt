-- ===== src/Sndmon/Told.antt =====
-- sndmonitor.c: a listener is told of each change of a card, once and in order.
use android_device_zte_fujis.Common.{
  ℕ, zero, suc, ◌≡◌, ◌≢◌, refl, ◌∙◌, ap, sym, Option, some, List, [], ◌∷◌, ◌++◌, arith, append-nil,
}
use android_device_zte_fujis.Usb.Text.{Bytes}
use android_device_zte_fujis.Sndmon.Defs.{
  SndCard, Message, on_sndcard_state_update, on_ready, sweep,
}
use android_device_zte_fujis.Sndmon.Changes.{
  select-++, is_about, report, noted, update_lem, of_card, of_card_other, of_card_own, file_at, nth,
  Lacks, Distinct,
}

-- The cards and the messages after one poll.
abbrev pub looked : List SndCard → List (Option Bytes) → List SndCard × List Message
looked = sweep on_sndcard_state_update

-- A card's own part of a poll.
abbrev own : SndCard → Option Bytes → SndCard × List Message
own = on_ready on_sndcard_state_update

own_number : (s : SndCard) (file : Option Bytes) → (own s file).0.card ≡ s.card
own_number s file = ap (λ (p : SndCard × List Message). p.0.card) (update_lem s file)

own_other : (n : ℕ) (s : SndCard) (file : Option Bytes) → s.card ≢ n → of_card n (own s file).1 ≡ []
own_other n s file p =
    ap (λ (q : SndCard × List Message). of_card n q.1) (update_lem s file)
    ∙ of_card_other n s.card s.status (report file) p

Lacks-looked :
    (n : ℕ) (cs : List SndCard) (files : List (Option Bytes))
    → Lacks n cs
    → Lacks n (looked cs files).0
Lacks-looked n [] files p = tt
Lacks-looked n (c ∷ cs) [] p = p
Lacks-looked n (c ∷ cs) (f ∷ files) p =
    (λ e. p.0 (sym (own_number c f) ∙ e), Lacks-looked n cs files p.1)

pub Distinct-looked :
    (cs : List SndCard) (files : List (Option Bytes)) → Distinct cs → Distinct (looked cs files).0
Distinct-looked [] files p = tt
Distinct-looked (c ∷ cs) [] p = p
Distinct-looked (c ∷ cs) (f ∷ files) p =
    (rw (own_number c f) (Lacks-looked c.card cs files p.0), Distinct-looked cs files p.1)

looked_silent :
    (n : ℕ) (cs : List SndCard) (files : List (Option Bytes))
    → Lacks n cs
    → of_card n (looked cs files).1 ≡ []
looked_silent n [] files p = refl
looked_silent n (c ∷ cs) [] p = refl
looked_silent n (c ∷ cs) (f ∷ files) p =
    select-++ (is_about n) (own c f).1 (looked cs files).1
    ∙ rw (own_other n c f p.0) (looked_silent n cs files p.1)

Lacks-nth :
    (n i : ℕ) (cs : List SndCard) (s : SndCard) → Lacks n cs → nth i cs ≡ some s → n ≢ s.card
Lacks-nth n i [] s p e = cc
Lacks-nth n zero (c ∷ cs) s p e = ground arith
Lacks-nth n (suc i) (c ∷ cs) s p e = Lacks-nth n i cs s p.1 e

-- The messages about the card at an index are its own, and it has its own new state.
pub looked_own :
    (i : ℕ) (cs : List SndCard) (files : List (Option Bytes)) (s : SndCard)
    → Distinct cs
    → nth i cs ≡ some s
    → (nth i (looked cs files).0 ≡ some (noted s (report (file_at i files))).0)
      × (of_card s.card (looked cs files).1 ≡ (noted s (report (file_at i files))).1)
looked_own i [] files s d e = cc
looked_own i (c ∷ cs) [] s d e = (e, refl)
looked_own zero (c ∷ cs) (f ∷ files) s d e =
    let same : c ≡ s = cc in rw (← same) (first c f cs files d.0)
  where
    first :
        (c : SndCard) (f : Option Bytes) (cs : List SndCard) (files : List (Option Bytes))
        → Lacks c.card cs
        → (some (own c f).0 ≡ some (noted c (report f)).0)
          × (of_card c.card ((own c f).1 ++ (looked cs files).1) ≡ (noted c (report f)).1)
    first c f cs files lacks = (
      ap (λ (q : SndCard × List Message). some q.0) (update_lem c f),
      select-++ (is_about c.card) (own c f).1 (looked cs files).1
          ∙ rw (looked_silent c.card cs files lacks, update_lem c f)
              (append-nil _ ∙ of_card_own c.card c.status (report f)),
    )
looked_own (suc i) (c ∷ cs) (f ∷ files) s d e =
    let rest = looked_own i cs files s d.1 e in
    (
      rest.0,
      select-++ (is_about s.card) (own c f).1 (looked cs files).1
          ∙ rw (own_other s.card c f (Lacks-nth c.card i cs s d.0 e)) rest.1,
    )
