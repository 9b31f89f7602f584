-- ===== src/Routing/Nesting.antt =====
-- audio_hw.c: a select of devices selects at most one further usecase, an input.
use android_device_zte_fujis.Common.{
  ℕ, suc, ◌≡◌, refl, ◌∙◌, ap, Bool, true, false, none, some, Bool-cases, inl, inr, List, [], ◌∷◌,
  map, ℤ, ◌==◌, if◌then◌else◌, Option-cases, option_same, einval, arith,
}
use android_device_zte_fujis.Routing.Usecases.{
  Usecase, Hal, Platform, UsecaseKind, is_capture, pcm_capture, pcm_playback, voice_call,
  pcm_hfp_call, get_usecase, stream_devices,
}
use android_device_zte_fujis.Routing.Reroute.{update_usecase}
use android_device_zte_fujis.Routing.Select.{
  choose_of, choose_playback, select_input, get_voice_communication_input, set_devices,
}
use android_device_zte_fujis.Routing.Switch.{
  select_found, select_with, select_at, select_devices_with_force_switch,
}

-- The first usecase with an id, if there is one, is a capture.
abbrev pub finds_capture : ℕ → List Usecase → Bool
finds_capture id us = elim (get_usecase id us) [ none ↦ true | some v ↦ is_capture v.kind ]

-- The usecases of input streams, where they are in the list, are captures.
abbrev pub InputsCapture : Hal → Type 0
InputsCapture h = (a : ℕ) → finds_capture (h.inputs a).usecase h.usecases ≡ true

-- A store of a usecase's devices does not change which kinds are found.
finds_capture-map :
    (id b n : ℕ) (us : List Usecase)
    → finds_capture id (map (λ u. if u.self == b then set_devices n u else u) us)
      ≡ finds_capture id us
unfolding get_usecase
finds_capture-map id b n [] = refl
finds_capture-map id b n (u ∷ us) =
    let rest = finds_capture-map id b n us in
    elim (Bool-cases (u.self == b)) [ inl own ↦ ground arith | inr other ↦ ground arith ]

module _ (p : Platform) (f g : ℕ → Hal → Hal) where
  choose_capture_same :
      (kind : UsecaseKind) (u : Usecase) (h : Hal)
      → is_capture kind ≡ true
      → choose_of p f kind u h ≡ choose_of p g kind u h
  unfolding choose_of
  choose_capture_same pcm_capture u h e = refl
  choose_capture_same pcm_playback u h e = ground arith
  choose_capture_same voice_call u h e = refl
  choose_capture_same pcm_hfp_call u h e = refl

  -- The select of a capture does not depend on the call for an input.
  select_capture :
      (force : Bool) (id : ℕ) (h : Hal)
      → finds_capture id h.usecases ≡ true
      → select_with p f force id h ≡ select_with p g force id h
  unfolding select_with
  select_capture force id h capture =
      option_same (get_usecase id h.usecases) (einval, h)
        (λ u. select_found p force u (choose_of p f u.kind u h))
        (λ u. select_found p force u (choose_of p g u.kind u h))
        (λ u e.
          let kind : is_capture u.kind ≡ true = ground (arith, capture, e) in
          ap (select_found p force u) (choose_capture_same u.kind u h kind))

  -- The two calls agree on captures.
  abbrev AgreeOnCaptures : Type 0
  AgreeOnCaptures = (i : ℕ) (k : Hal) → finds_capture i k.usecases ≡ true → f i k ≡ g i k

  select_input_same :
      (u : Usecase) (h : Hal)
      → InputsCapture h
      → AgreeOnCaptures
      → select_input p f u h ≡ select_input p g u h
  unfolding select_input
  select_input_same u h inputs same = elim (Option-cases (get_voice_communication_input p h)) [
    | inl e ↦ rw (e, select_input) refl
    | inr (a, e) ↦ rw (e, select_input, same (h.inputs a).usecase h (inputs a)) refl
  ]

  choose_same :
      (kind : UsecaseKind) (u : Usecase) (h : Hal)
      → InputsCapture h
      → AgreeOnCaptures
      → choose_of p f kind u h ≡ choose_of p g kind u h
  unfolding choose_of choose_playback
  choose_same pcm_capture u h inputs same = refl
  choose_same voice_call u h inputs same = refl
  choose_same pcm_hfp_call u h inputs same = refl
  choose_same pcm_playback u h inputs same =
      let h1 = update_usecase u.self (set_devices (stream_devices h u)) h in
      let inner =
        select_input_same u h1
          (λ a.
            finds_capture-map (h.inputs a).usecase u.self (stream_devices h u) h.usecases
            ∙ inputs a)
          same in
      rw inner refl

  select_same :
      (force : Bool) (id : ℕ) (h : Hal)
      → InputsCapture h
      → AgreeOnCaptures
      → select_with p f force id h ≡ select_with p g force id h
  unfolding select_with
  select_same force id h inputs same =
      option_same (get_usecase id h.usecases) (einval, h)
        (λ u. select_found p force u (choose_of p f u.kind u h))
        (λ u. select_found p force u (choose_of p g u.kind u h))
        (λ u e. ap (select_found p force u) (choose_same u.kind u h inputs same))

-- Where the usecases of input streams are captures, the selects that a select makes go two levels deep
-- at most: more depth changes nothing.
pub select_devices_deep :
    (depth : ℕ) (p : Platform) (force : Bool) (id : ℕ) (h : Hal)
    → InputsCapture h
    → select_at (suc (suc depth)) p force id h ≡ select_devices_with_force_switch p force id h
unfolding select_at select_devices_with_force_switch
select_devices_deep depth p force id h inputs =
    select_same p (λ i k. (select_at (suc depth) p false i k).1)
      (λ i k. (select_at 1 p false i k).1) force id h inputs
      (λ i k capture.
        ap (λ (r : ℤ × Hal). r.1)
          (select_capture p (λ j l. (select_at depth p false j l).1)
            (λ j l. (select_at 0 p false j l).1) false i k capture))
