-- ===== src/Usb/MatchLaws.antt =====
-- usb.c: the chosen bit width and channel count are the best of those that the list offers.
use android_device_zte_fujis.Common.{
  ltb, ◌==◌, ◌∙◌, ap, if◌then◌else◌, sym, ℕ, ◌≤◌, ◌<◌, ◌≡◌, ◌⊎◌, inl, inr, refl, List, [], ◌∷◌,
  arith,
}
use android_device_zte_fujis.Usb.Types.{All_at, DeviceConfig, In, All}
use android_device_zte_fujis.Usb.Match.{
  Pick, candidate, match, abs_sub, nearer, widest, best_bit_width, channel_step, match_channels,
  best_match_for_channels,
}

pub Pick-cases : (p : Pick) → ((n : ℕ) × (p ≡ match n)) ⊎ ((n : ℕ) × (p ≡ candidate n))
Pick-cases (match n) = inl (n, refl)
Pick-cases (candidate n) = inr (n, refl)

-- `a` is nearer to `wanted` than `b`, or as near and not below it.
abbrev pub AtLeastAsNear : ℕ → ℕ → ℕ → Type 0
AtLeastAsNear wanted a b =
    (abs_sub wanted a < abs_sub wanted b) ⊎ ((abs_sub wanted a ≡ abs_sub wanted b) × (b ≤ a))

abbrev pub HasChannels : DeviceConfig → Type 0
HasChannels d = 0 < d.channel_count

near_trans : (w a b c : ℕ) → AtLeastAsNear w a b → AtLeastAsNear w b c → AtLeastAsNear w a c
near_trans w a b c p q = ground arith

nearer_lem :
    (w n best : ℕ) → AtLeastAsNear w (nearer w n best) n × AtLeastAsNear w (nearer w n best) best
unfolding nearer
nearer_lem w n best = ground arith

nearer_either : (w n best : ℕ) → (nearer w n best ≡ n) ⊎ (nearer w n best ≡ best)
unfolding nearer
nearer_either w n best = ground arith

near_exact : (w b : ℕ) → AtLeastAsNear w w b
near_exact w b = ground arith

module _ (width wanted : ℕ) where
  step_match :
      (best n : ℕ) (d : DeviceConfig)
      → channel_step width wanted best d ≡ match n
      → (n ≡ wanted) × (d.bit_width ≡ width) × (d.channel_count ≡ n)
  unfolding channel_step
  step_match best n d e = ground arith

  -- The candidate after one configuration.
  step_candidate :
      (best n : ℕ) (d : DeviceConfig)
      → HasChannels d
      → channel_step width wanted best d ≡ candidate n
      → (n ≡ best) ⊎ ((n ≡ d.channel_count) × (d.bit_width ≡ width))
  unfolding channel_step
  step_candidate best n d p e = ground (arith, nearer_either wanted d.channel_count best)

  step_keeps :
      (best n : ℕ) (d : DeviceConfig)
      → HasChannels d
      → 0 < best
      → channel_step width wanted best d ≡ candidate n
      → AtLeastAsNear wanted n best
  unfolding channel_step
  step_keeps best n d p b e = ground (arith, nearer_lem wanted d.channel_count best)

  step_takes :
      (best n : ℕ) (d : DeviceConfig)
      → HasChannels d
      → d.bit_width ≡ width
      → channel_step width wanted best d ≡ candidate n
      → AtLeastAsNear wanted n d.channel_count × (0 < n)
  unfolding channel_step
  step_takes best n d p b e =
      ground
        (arith, nearer_lem wanted d.channel_count best, nearer_either wanted d.channel_count best)

  loop_keeps :
      (best : ℕ) (ds : List DeviceConfig)
      → All HasChannels ds
      → 0 < best
      → AtLeastAsNear wanted (match_channels width wanted best ds) best
  unfolding match_channels
  loop_keeps best [] p b = ground arith
  loop_keeps best (d ∷ ds) (p, ps) b = elim (Pick-cases (channel_step width wanted best d)) [
    | inl (n, e) ↦ rw (e, match_channels) (rw ((step_match best n d e).0) (near_exact wanted best))
    | inr (n, e) ↦
        let kept = step_keeps best n d p b e in
        rw (e, match_channels)
          (near_trans wanted _ n best
            (loop_keeps n ds ps (ground (arith, step_candidate best n d p e))) kept)
  ]

  loop_takes :
      (best : ℕ) (ds : List DeviceConfig) (d : DeviceConfig)
      → All HasChannels ds
      → In d ds
      → d.bit_width ≡ width
      → AtLeastAsNear wanted (match_channels width wanted best ds) d.channel_count
  unfolding match_channels
  loop_takes best [] d p i b = absurd i
  loop_takes best (x ∷ ds) d (p, ps) i b = elim (Pick-cases (channel_step width wanted best x)) [
    | inl (n, e) ↦
        rw (e, match_channels) (rw ((step_match best n x e).0) (near_exact wanted d.channel_count))
    | inr (n, e) ↦
        rw (e, match_channels)
          (elim i [
            | inl here ↦
                let taken =
                  step_takes best n x p (ap (λ (c : DeviceConfig). c.bit_width) (sym here) ∙ b) e in
                rw here (near_trans wanted _ n _ (loop_keeps n ds ps taken.1) taken.0)
            | inr there ↦ loop_takes n ds d ps there b
          ])
  ]

  -- The result is the candidate, or a configuration of the width has it.
  loop_offered :
      (best : ℕ) (ds : List DeviceConfig)
      → All HasChannels ds
      → (match_channels width wanted best ds ≡ best)
        ⊎ ((d : DeviceConfig) × In d ds
            × (d.bit_width ≡ width)
            × (d.channel_count ≡ match_channels width wanted best ds))
  unfolding match_channels
  loop_offered best [] p = inl refl
  loop_offered best (x ∷ ds) (p, ps) = elim (Pick-cases (channel_step width wanted best x)) [
    | inl (n, e) ↦
        let found = step_match best n x e in
        rw (e, match_channels) (inr (x, inl refl, found.1, found.2))
    | inr (n, e) ↦
        rw (e, match_channels)
          (elim (loop_offered n ds ps) [
            | inl same ↦ rw same (elim (step_candidate best n x p e) [
              | inl kept ↦ inl kept
              | inr (taken, wide) ↦ inr (x, inl refl, wide, sym taken)
            ])
            | inr (d, i, wide, offers) ↦ inr (d, inr i, wide, offers)
          ])
  ]

  loop_positive :
      (best : ℕ) (ds : List DeviceConfig)
      → All HasChannels ds
      → 0 < best
      → 0 < match_channels width wanted best ds
  loop_positive best ds p b = elim (loop_offered best ds p) [
    | inl same ↦ rw same b
    | inr (d, i, wide, offers) ↦ rw (← offers) (All_at HasChannels ds d p i)
  ]

  loop_found :
      (best : ℕ) (ds : List DeviceConfig) (d : DeviceConfig)
      → All HasChannels ds
      → In d ds
      → d.bit_width ≡ width
      → 0 < match_channels width wanted best ds
  unfolding match_channels
  loop_found best [] d p i b = absurd i
  loop_found best (x ∷ ds) d (p, ps) i b = elim (Pick-cases (channel_step width wanted best x)) [
    | inl (n, e) ↦ rw (e, match_channels) (ground (arith, step_match best n x e))
    | inr (n, e) ↦
        rw (e, match_channels)
          (elim i [
            | inl here ↦
                let wide = ap (λ (c : DeviceConfig). c.bit_width) (sym here) ∙ b in
                loop_positive n ds ps (step_takes best n x p wide e).1
            | inr there ↦ loop_found n ds d ps there b
          ])
  ]

module _ (ds : List DeviceConfig) (width wanted : ℕ) (d : DeviceConfig) where
  -- Among the configurations of a bit width, of which there is one and which all have channels, the
  -- chosen channel count is that of one of them, and is the best that they offer: none is nearer to
  -- the stream's count, and none as near is higher.
  pub best_match_for_channels_lem :
      All HasChannels ds
      → In d ds
      → d.bit_width ≡ width
      → ((c : DeviceConfig) × In c ds
          × (c.bit_width ≡ width)
          × (c.channel_count ≡ best_match_for_channels ds width wanted)
          × AtLeastAsNear wanted c.channel_count d.channel_count)
  unfolding best_match_for_channels
  best_match_for_channels_lem p i wide =
      let near = loop_takes width wanted 0 ds d p i wide in
      elim (loop_offered width wanted 0 ds p) [
        | inl none_of ↦ absurd (omega (arith, none_of, loop_found width wanted 0 ds d p i wide))
        | inr (c, j, same, offers) ↦ (c, j, same, offers, rw offers near)
      ]

widest_lem :
    (best : ℕ) (ds : List DeviceConfig)
    → ((widest best ds ≡ best) ⊎ ((c : DeviceConfig) × In c ds × (c.bit_width ≡ widest best ds)))
      × (best ≤ widest best ds)
unfolding widest
widest_lem best [] = (inl refl, omega arith)
widest_lem best (d ∷ ds) =
    let next =
      if best == 0 then d.bit_width else if ltb best d.bit_width then d.bit_width else best in
    let rest = widest_lem next ds in
    let kept : (next ≡ best) ⊎ (next ≡ d.bit_width) = ground arith in
    let above : best ≤ next = ground arith in
    (
      elim rest.0 [
        | inl same ↦ elim kept [
          | inl old ↦ inl (same ∙ old)
          | inr new ↦ inr (d, inl refl, sym new ∙ sym same)
        ]
        | inr (c, i, e) ↦ inr (c, inr i, e)
      ],
      omega (arith, rest.1),
    )

widest_bound :
    (best : ℕ) (ds : List DeviceConfig) (d : DeviceConfig) → In d ds → d.bit_width ≤ widest best ds
unfolding widest
widest_bound best [] d i = absurd i
widest_bound best (x ∷ ds) d i =
    let next =
      if best == 0 then x.bit_width else if ltb best x.bit_width then x.bit_width else best in
    let above : x.bit_width ≤ next = ground arith in
    elim i [
      | inl here ↦ rw here (omega (arith, (widest_lem next ds).1))
      | inr there ↦ widest_bound next ds d there
    ]

pub best_bit_width_bound :
    (ds : List DeviceConfig) (d : DeviceConfig) → In d ds → d.bit_width ≤ best_bit_width ds
unfolding best_bit_width
best_bit_width_bound ds d i = widest_bound 0 ds d i

pub best_bit_width_offered :
    (d : DeviceConfig) (ds : List DeviceConfig)
    → (c : DeviceConfig) × In c (d ∷ ds) × (c.bit_width ≡ best_bit_width (d ∷ ds))
unfolding best_bit_width widest
best_bit_width_offered d ds = elim (widest_lem d.bit_width ds).0 [
  | inl same ↦ (d, inl refl, sym same)
  | inr (c, i, e) ↦ (c, inr i, e)
]
