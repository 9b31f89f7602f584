-- ===== src/Sndmon/Listening.antt =====
-- sndmonitor.c: the callbacks that a registered listener gets over many polls.
use android_device_zte_fujis.Common.{
  ℕ, ◌+◌, ◌≡◌, refl, ◌∙◌, ap, sym, ◌&&◌, Option, none, some, List, [], ◌∷◌, ◌++◌, ◌==◌, inl, inr,
  arith, if◌then◌else◌, Bool-cases, map, append_assoc, append-nil, map-append,
}
use android_device_zte_fujis.Usb.Text.{Bytes}
use android_device_zte_fujis.Sndmon.Defs.{
  Status, SndCard, DevEvent, Message, Monitor, message_of, on_dev_event, Poll, on_ready, sweep,
  tell_all, tell_each, on_poll, same_status,
}
use android_device_zte_fujis.Sndmon.Changes.{
  select-++, is_about, report, changes, last, noted, of_card, file_at, nth, Distinct,
}
use android_device_zte_fujis.Sndmon.Told.{looked, looked_own, Distinct-looked}

-- What a stream was told about a card, the oldest first.
abbrev pub heard : ℕ → ℕ → List (ℕ × ℕ × Message) → List Message
heard stream card [] = []
heard stream card ((s, cb, msg) ∷ told) =
    if s == stream && is_about card msg
    then msg ∷ heard stream card told
    else heard stream card told

abbrev pub entries : ℕ → List (ℕ × ℕ) → ℕ
entries stream [] = 0
entries stream ((s, cb) ∷ ls) = (if s == stream then 1 else 0) + entries stream ls

module _ (stream card : ℕ) where
  pub heard-++ :
      (xs ys : List (ℕ × ℕ × Message))
      → heard stream card (xs ++ ys) ≡ heard stream card xs ++ heard stream card ys
  heard-++ [] ys = refl
  heard-++ ((s, cb, msg) ∷ xs) ys = elim (Bool-cases (s == stream && is_about card msg)) [
    | inl e ↦ rw e (ap (λ r. msg ∷ r) (heard-++ xs ys))
    | inr e ↦ rw e (heard-++ xs ys)
  ]

  pub heard_absent :
      (ls : List (ℕ × ℕ)) (msg : Message)
      → entries stream ls ≡ 0
      → heard stream card (tell_all ls msg) ≡ []
  heard_absent [] msg p = refl
  heard_absent ((s, cb) ∷ ls) msg p = elim (Bool-cases (s == stream)) [
    | inl e ↦ absurd (ground arith)
    | inr e ↦ rw e (heard_absent ls msg (ground arith))
  ]

  heard_once :
      (ls : List (ℕ × ℕ)) (msg : Message)
      → entries stream ls ≡ 1
      → heard stream card (tell_all ls msg) ≡ of_card card (msg ∷ [])
  heard_once [] msg p = absurd (omega arith)
  heard_once ((s, cb) ∷ ls) msg p = elim (Bool-cases (s == stream)) [
    | inl e ↦ let none_left = heard_absent ls msg (ground arith) in rw (e, none_left) refl
    | inr e ↦ rw e (heard_once ls msg (ground arith))
  ]

  heard_each :
      (ls : List (ℕ × ℕ)) (msgs : List Message)
      → entries stream ls ≡ 1
      → heard stream card (tell_each ls msgs) ≡ of_card card msgs
  heard_each ls [] p = refl
  heard_each ls (msg ∷ msgs) p =
      heard-++ (tell_all ls msg) (tell_each ls msgs)
      ∙ rw (heard_once ls msg p, heard_each ls msgs p)
          (sym (select-++ (is_about card) (msg ∷ []) msgs))

event_silent :
    (n : ℕ) (d : DevEvent) (f : Option Bytes) → of_card n (on_ready on_dev_event d f).1 ≡ []
unfolding on_dev_event message_of
event_silent n d none = refl
event_silent n d (some []) = refl
event_silent n d (some (c ∷ text)) = ground arith

-- Device events are about no card.
events_silent :
    (n : ℕ) (ds : List DevEvent) (files : List (Option Bytes))
    → of_card n (sweep on_dev_event ds files).1 ≡ []
events_silent n [] files = refl
events_silent n (d ∷ ds) [] = refl
events_silent n (d ∷ ds) (f ∷ files) =
    select-++ (is_about n) (on_ready on_dev_event d f).1 (sweep on_dev_event ds files).1
    ∙ rw (one_silent f) (events_silent n ds files)
  where
    one_silent : (f : Option Bytes) → of_card n (on_ready on_dev_event d f).1 ≡ []
    one_silent f = event_silent n d f

last-++ : (s : Status) (xs ys : List Status) → last s (xs ++ ys) ≡ last (last s xs) ys
last-++ s [] ys = refl
last-++ s (x ∷ xs) ys = last-++ x xs ys

changes-++ :
    (s : Status) (xs ys : List Status)
    → changes s (xs ++ ys) ≡ changes s xs ++ changes (last s xs) ys
changes-++ s [] ys = refl
changes-++ s (x ∷ xs) ys = elim (Bool-cases (same_status x s)) [
  | inl e ↦ rw e (changes-++ x xs ys)
  | inr e ↦ rw e (ap (λ r. x ∷ r) (changes-++ x xs ys))
]

-- The polls, the first one first.
abbrev pub watch : List Poll → Monitor → Monitor
watch [] m = m
watch (p ∷ ps) m = watch ps (on_poll p m)

-- The states that the file of the card with the index `i` shows in the polls.
abbrev pub reports : ℕ → List Poll → List Status
reports i [] = []
reports i (p ∷ ps) = report (file_at i p.card_files) ++ reports i ps

module _ (stream i : ℕ) where
  poll_heard :
      (p : Poll) (m : Monitor) (s : SndCard)
      → Distinct m.cards
      → nth i m.cards ≡ some s
      → entries stream m.listeners ≡ 1
      → (nth i (on_poll p m).cards ≡ some (noted s (report (file_at i p.card_files))).0)
        × (heard stream s.card (on_poll p m).told
            ≡ heard stream s.card m.told ++ (noted s (report (file_at i p.card_files))).1)
        × Distinct (on_poll p m).cards
        × (entries stream (on_poll p m).listeners ≡ 1)
  unfolding on_poll
  poll_heard p m s d e once =
      let own = looked_own i m.cards p.card_files s d e in
      let first = (looked m.cards p.card_files).1 in
      let second = (sweep on_dev_event m.dev_events p.dev_files).1 in
      (
        own.0,
        heard-++ stream s.card m.told (tell_each m.listeners (first ++ second))
            ∙ ap (λ r. heard stream s.card m.told ++ r)
                (heard_each stream s.card m.listeners (first ++ second) once
                  ∙ select-++ (is_about s.card) first second
                  ∙ rw (events_silent s.card m.dev_events p.dev_files) (append-nil _ ∙ own.1)),
        Distinct-looked m.cards p.card_files d,
        once,
      )

  -- Where no two monitored cards have the same number, a stream that is registered once is told,
  -- over any polls, exactly the changes of each card: one message for each state that the card's
  -- file shows and that differs from the one before, in this order, and about the card nothing
  -- else. The card then has the last state shown.
  pub watch-heard :
      (ps : List Poll) (m : Monitor) (s : SndCard)
      → Distinct m.cards
      → nth i m.cards ≡ some s
      → entries stream m.listeners ≡ 1
      → (nth i (watch ps m).cards ≡ some (record s { status = last s.status (reports i ps) }))
        × (heard stream s.card (watch ps m).told
            ≡ heard stream s.card m.told
              ++ map (message_of s.card) (changes s.status (reports i ps)))
  watch-heard [] m s d e once = (e, sym (append-nil _))
  watch-heard (p ∷ ps) m s d e once =
      let (at, told, distinct, still) = poll_heard p m s d e once in
      let now = report (file_at i p.card_files) in
      let (later, rest) =
        watch-heard ps (on_poll p m) (record s { status = last s.status now }) distinct at still in
      (
        later
            ∙ ap (λ t. some (record s { status = t })) (sym (last-++ s.status now (reports i ps))),
        rest
            ∙ rw (told, changes-++ s.status now (reports i ps), map-append)
                (append_assoc (heard stream s.card m.told) _ _),
      )
