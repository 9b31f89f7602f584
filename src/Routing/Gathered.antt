-- ===== src/Routing/Gathered.antt =====
-- audio_hw.c: the loops of `check_and_route_playback_usecases` leave no output in the way.
use android_device_zte_fujis.Common.{
  ℕ, ◌≡◌, refl, Bool, true, false, ◌||◌, not, arith, if_at, option_at, List, [], ◌∷◌, ◌==◌,
  if◌then◌else◌,
}
use android_device_zte_fujis.Routing.Types.{after, send_app_type_gain}
use android_device_zte_fujis.Routing.Usecases.{
  Usecase, Hal, Platform, enable_audio_route, playback_voip,
}
use android_device_zte_fujis.Routing.Reroute.{
  each, is_any, is_playback_clash, move_output, route_output, switch_outputs, disable_device,
  on_dev,
}
use android_device_zte_fujis.Routing.Rerouted.{every, is_pending, usecases-each}
use android_device_zte_fujis.Routing.Moved.{
  is_distinct, is_settled, is_same, agrees, is_on_way, elsewhere_agrees, loop_settled,
}

module _ (p : Platform) (uc : Usecase) (d : ℕ) (force : Bool) where
  others_same :
      (h : Hal) (u : Usecase) (ws : List Usecase)
      → is_any (λ v. v.self == u.self) ws ≡ false
      → every (λ w. is_same p uc d force h w u) ws ≡ true
  others_same h u [] none_is = refl
  others_same h u (w ∷ ws) none_is = let rest = others_same h u ws (ground arith) in ground arith

  agrees_cons :
      (h : Hal) (u : Usecase) (us ws : List Usecase)
      → every (λ w. is_same p uc d force h w u) ws ≡ true
      → every (agrees p uc d force h us) ws ≡ true
      → every (agrees p uc d force h (u ∷ us)) ws ≡ true
  unfolding agrees
  agrees_cons h u us [] same q = refl
  agrees_cons h u us (w ∷ ws) same q =
      let rest = agrees_cons h u us ws (ground arith) (ground arith) in ground arith

  agrees_head :
      (h : Hal) (u : Usecase) (us : List Usecase)
      → agrees p uc d force h us u ≡ true
      → agrees p uc d force h (u ∷ us) u ≡ true
  unfolding agrees
  agrees_head h u us q = ground arith

  -- The usecases of a list at distinct addresses are as the loop over it finds them.
  all_agree :
      (h : Hal) (us : List Usecase)
      → is_distinct us ≡ true
      → every (agrees p uc d force h us) us ≡ true
  all_agree h [] distinct = refl
  all_agree h (u ∷ us) distinct =
      let none_is : is_any (λ v. v.self == u.self) us ≡ false = ground arith in
      let head = agrees_head h u us (elsewhere_agrees p uc d force h us u none_is) in
      let rest =
        agrees_cons h u us us (others_same h u us none_is) (all_agree h us (ground arith)) in
      rw (head, rest) refl

  -- A usecase in the way is taken by the loop, since the code's test holds of it.
  on_way_all :
      (switched : Usecase → Bool) (h : Hal) (us ws : List Usecase)
      → every (agrees p uc d force h us) ws ≡ true
      → every (λ w. not (is_playback_clash p uc d force w) || is_pending switched us w.self) ws
        ≡ true
      → every (is_on_way p uc d force switched h us) ws ≡ true
  unfolding is_playback_clash is_settled
  on_way_all switched h us [] same q = refl
  on_way_all switched h us (w ∷ ws) same q =
      let rest = on_way_all switched h us ws (ground arith) (ground arith) in ground arith

  pub calm_all :
      (h : Hal) (ws : List Usecase)
      → every (λ w. not (is_playback_clash p uc d force w)) ws ≡ true
      → every (is_settled p uc d force h) ws ≡ true
  unfolding is_playback_clash is_settled
  calm_all h [] q = refl
  calm_all h (w ∷ ws) q = let rest = calm_all h ws (ground arith) in ground arith

  abbrev pub AllSettled : Hal → Type 0
  AllSettled h = every (is_settled p uc d force h) h.usecases ≡ true

  route_settled : (u : Usecase) (h : Hal) → AllSettled h → AllSettled (route_output p uc d u h)
  unfolding is_settled enable_audio_route
  route_settled u h q =
      option_at AllSettled u.stream (enable_audio_route p u h)
        (λ a.
          if u.id == playback_voip
          then on_dev (after send_app_type_gain) (enable_audio_route p u h)
          else enable_audio_route p u h)
        q
        (λ a.
          if_at AllSettled (u.id == playback_voip)
            (on_dev (after send_app_type_gain) (enable_audio_route p u h))
            (enable_audio_route p u h) (λ on. q) (λ off. q))

  routes_settled :
      (switched : Usecase → Bool) (us : List Usecase) (h : Hal)
      → AllSettled h
      → AllSettled (each switched (route_output p uc d) us h)
  routes_settled switched [] h q = q
  routes_settled switched (u ∷ us) h q =
      routes_settled switched us (if switched u then route_output p uc d u h else h) (
        if_at AllSettled (switched u) (route_output p uc d u h) h (λ on. route_settled u h q)
          (λ off. q))

  module _ (symmetric : (a b : ℕ) → p.env.backends_match a b ≡ p.env.backends_match b a) where
    pub outputs_settled :
        (switched : Usecase → Bool) (h : Hal)
        → is_distinct h.usecases ≡ true
        → every
            (λ w. not (is_playback_clash p uc d force w) || is_pending switched h.usecases w.self)
            h.usecases
          ≡ true
        → AllSettled (switch_outputs p uc d switched h)
    unfolding switch_outputs
    outputs_settled switched h distinct q =
        let h1 = each switched (λ u. disable_device p.env u.out_snd_device) h.usecases h in
        let h2 = each switched (move_output p uc d) h1.usecases h1 in
        let stopped : h1.usecases ≡ h.usecases =
          usecases-each switched (λ u. disable_device p.env u.out_snd_device) h.usecases h
            (λ u k. refl) in
        routes_settled switched h2.usecases h2 (
          loop_settled p uc d force symmetric switched h1.usecases h1 (rw stopped distinct) (
            on_way_all switched h1 h1.usecases h1.usecases
              (all_agree h1 h1.usecases (rw stopped distinct)) (rw stopped q)))
