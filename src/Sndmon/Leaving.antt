-- ===== src/Sndmon/Leaving.antt =====
-- sndmonitor.c: the listeners that come and go.
use android_device_zte_fujis.Common.{
  ℕ, ◌≤◌, ◌≡◌, refl, ◌∙◌, true, false, List, [], ◌∷◌, ◌==◌, inl, inr, arith, Bool-cases, if_at, ℤ,
  append-nil,
}
use android_device_zte_fujis.Sndmon.Defs.{
  Message, Monitor, Poll, tell_all, tell_each, on_poll, add_listener, del_listener,
  register_listener, unregister_listener,
}
use android_device_zte_fujis.Sndmon.Listening.{heard, heard-++, heard_absent, entries, watch}

entries-add_listener :
    (stream other cb : ℕ) (ls : List (ℕ × ℕ))
    → entries stream ls ≤ 1
    → entries stream (add_listener other cb ls) ≤ 1
unfolding add_listener
entries-add_listener stream other cb [] p = ground arith
entries-add_listener stream other cb ((s, c) ∷ ls) p = elim (Bool-cases (s == other)) [
  | inl e ↦ rw e (ground arith)
  | inr e ↦ rw e (ground (arith, entries-add_listener stream other cb ls, added_other ls))
]
  where
    added_other :
        (ls : List (ℕ × ℕ))
        → (stream == other) ≡ false
        → entries stream (add_listener other cb ls) ≡ entries stream ls
    added_other [] q = ground arith
    added_other ((t, d) ∷ ls) q = ground (arith, added_other ls q)

entries-del_listener :
    (stream : ℕ) (ls : List (ℕ × ℕ))
    → entries stream ls ≤ 1
    → entries stream (del_listener stream ls) ≡ 0
unfolding del_listener
entries-del_listener stream [] p = refl
entries-del_listener stream ((s, c) ∷ ls) p = ground (arith, entries-del_listener stream ls)

-- A registration keeps each stream's entries at one at most.
pub register_listener-entries :
    (stream other cb : ℕ) (m : Monitor)
    → entries stream m.listeners ≤ 1
    → entries stream (register_listener other cb m).1.listeners ≤ 1
unfolding register_listener
register_listener-entries stream other cb m p =
    ground (arith, entries-add_listener stream other cb m.listeners p)

module _ (stream card : ℕ) where
  each_absent :
      (ls : List (ℕ × ℕ)) (msgs : List Message)
      → entries stream ls ≡ 0
      → heard stream card (tell_each ls msgs) ≡ []
  each_absent ls [] p = refl
  each_absent ls (msg ∷ msgs) p =
      heard-++ stream card (tell_all ls msg) (tell_each ls msgs)
      ∙ rw (heard_absent stream card ls msg p) (each_absent ls msgs p)

  poll_absent :
      (q : Poll) (m : Monitor)
      → entries stream m.listeners ≡ 0
      → (heard stream card (on_poll q m).told ≡ heard stream card m.told)
        × (entries stream (on_poll q m).listeners ≡ 0)
  unfolding on_poll
  poll_absent q m p = (
    heard-++ stream card m.told _
        ∙ rw (each_absent m.listeners _ p) (append-nil (heard stream card m.told)),
    p,
  )

  watch_absent :
      (ps : List Poll) (m : Monitor)
      → entries stream m.listeners ≡ 0
      → heard stream card (watch ps m).told ≡ heard stream card m.told
  watch_absent [] m p = refl
  watch_absent (q ∷ ps) m p =
      let (told, still) = poll_absent q m p in watch_absent ps (on_poll q m) still ∙ told

  -- After a stream, which was registered once at most, was unregistered, it is told nothing more
  -- of any card.
  pub unregister_listener-heard :
      (ps : List Poll) (m : Monitor)
      → m.initcheck ≡ true
      → entries stream m.listeners ≤ 1
      → heard stream card (watch ps (unregister_listener stream m).1).told
        ≡ heard stream card m.told
  unfolding unregister_listener
  unregister_listener-heard ps m ready once =
      if_at {A = ℤ × Monitor}
        (λ r. heard stream card (watch ps r.1).told ≡ heard stream card m.told) m.initcheck _ _
        (λ h.
          watch_absent ps (record m { listeners = del_listener stream m.listeners })
            (entries-del_listener stream m.listeners once))
        (λ h. cc)
