-- ===== src/Routing/Names.antt =====
-- audio_hw.c and platform.c: the mixer paths, several devices of which may have the same.
use android_device_zte_fujis.Common.{
  ℕ, ◌≡◌, refl, ◌∙◌, ap, Bool, true, false, ◌&&◌, Bool-cases, inl, inr, List, [], ◌∷◌, ◌==◌, leb,
  arith, if◌then◌else◌,
}
use android_device_zte_fujis.Routing.Types.{Trace, Env, apply_device, reset_device}
use android_device_zte_fujis.Routing.Usecases.{Hal, Platform}
use android_device_zte_fujis.Routing.Paths.{is_device_on, has_path}
use android_device_zte_fujis.Routing.Histories.{Step, run, run-PathsAgree}

-- What the newest call that named the mixer path did, for whatever device.
abbrev pub is_path_on : Env → ℕ → Trace → Bool
is_path_on env n [] = false
is_path_on env n (c ∷ t) = elim c [
  | apply_device e ↦ if env.device_path e == n then true else is_path_on env n t
  | reset_device e ↦ if env.device_path e == n then false else is_path_on env n t
  | _ ↦ is_path_on env n t
]

module _ (env : Env) (d : ℕ)
    (unique : (e : ℕ) → env.device_path e ≡ env.device_path d → e ≡ d) where
  same_path : (e : ℕ) → (env.device_path e == env.device_path d) ≡ (e == d)
  same_path e = elim (Bool-cases (e == d)) [
    | inl same ↦ let eq : e ≡ d = ground arith in rw eq (ground arith)
    | inr other ↦ elim (Bool-cases (env.device_path e == env.device_path d)) [
      | inl shared ↦ let eq = unique e (ground arith) in ground (arith, eq)
      | inr apart ↦ rw (apart, other) refl
    ]
  ]

  -- A path that no other device has is on as the newest call for the device says.
  own_path : (t : Trace) → is_path_on env (env.device_path d) t ≡ is_device_on d t
  own_path [] = refl
  own_path (apply_device e ∷ t) = rw (same_path e, own_path t) refl
  own_path (reset_device e ∷ t) = rw (same_path e, own_path t) refl
  own_path (_ ∷ t) = own_path t

module _ (p : Platform) (ss : List Step) (h : Hal) where
  -- Over any selects of devices, uses of devices, routes of usecases, and changes of the streams and
  -- the usecases between them, from a start where nothing was called and no device is counted, with
  -- speaker protection off: for a device that is not split and whose mixer path no other device has,
  -- the newest of the routing's calls that named this path applied it exactly while the device is
  -- counted. What other files do with paths is no call of the routing.
  pub run_paths :
      (d : ℕ)
      → p.env.spkr_prot ≡ false
      → ((e : ℕ) → p.env.device_path e ≡ p.env.device_path d → e ≡ d)
      → has_path p.env d ≡ true
      → h.dev.calls ≡ []
      → ((e : ℕ) → h.dev.ref e ≡ 0)
      → is_path_on p.env (p.env.device_path d) (run p ss h).dev.calls
        ≡ leb 1 ((run p ss h).dev.ref d)
  run_paths d bare unique own fresh zeros =
      own_path p.env d unique (run p ss h).dev.calls
      ∙ run-PathsAgree p ss h fresh zeros d
      ∙ ap (λ b. b && leb 1 ((run p ss h).dev.ref d)) own
