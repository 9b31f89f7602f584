-- ===== src/Lights/Priority.antt =====
-- The battery's light goes before a notification's, in every history of requests.
use android_device_zte_fujis.Common.{
  ◌≡◌, refl, Bool, true, false, none, some, List, [], ◌∷◌, String, pos, einval, enomem,
  if◌then◌else◌, arith, ◌⊎◌, ◌∙◌, ap,
}
use android_device_zte_fujis.Lights.Defs.{
  LightState, Sysfs, Lights, Handler, notifications, attention, is_lit, blink_of, show_color,
  set_speaker_light_locked, handle_speaker_battery_locked, set_light_backlight, set_light_battery,
  set_light_notifications, set_light_attention, set_light_buttons, handle, handler_of, open_lights,
}

pub record Request : Type 0 where
  pub handler : Handler
  pub wanted : LightState

-- The requests in order, on an open device.
pub serve : Sysfs → List Request → Lights → Lights
serve fs [] l = l
serve fs (r ∷ rs) l = serve fs rs (handle r.handler fs true r.wanted l).1

-- What a request leaves as the battery's state, and as the notification.
abbrev pub battery_after : Handler → LightState → LightState → LightState
battery_after Handler.battery s old = s
battery_after _ s old = old

abbrev pub notification_after : Handler → LightState → LightState → LightState
notification_after notifications s old = s
notification_after _ s old = old

-- The last battery state and the last notification that were asked for, after those given.
abbrev pub last_battery : List Request → LightState → LightState
last_battery [] s = s
last_battery (r ∷ rs) s = last_battery rs (battery_after r.handler r.wanted s)

abbrev pub last_notification : List Request → LightState → LightState
last_notification [] s = s
last_notification (r ∷ rs) s = last_notification rs (notification_after r.handler r.wanted s)

handle-battery :
    (fs : Sysfs) (h : Handler) (s : LightState) (l : Lights)
    → (handle h fs true s l).1.battery ≡ battery_after h s l.battery
unfolding handle set_light_backlight set_light_battery set_light_notifications set_light_attention
    set_light_buttons handle_speaker_battery_locked set_speaker_light_locked
handle-battery fs h s l = ground arith

handle-notification :
    (fs : Sysfs) (h : Handler) (s : LightState) (l : Lights)
    → (handle h fs true s l).1.notification ≡ notification_after h s l.notification
unfolding handle set_light_backlight set_light_battery set_light_notifications set_light_attention
    set_light_buttons handle_speaker_battery_locked set_speaker_light_locked
handle-notification fs h s l = ground arith

serve-last :
    (fs : Sysfs) (rs : List Request) (l : Lights)
    → ((serve fs rs l).battery ≡ last_battery rs l.battery)
      × ((serve fs rs l).notification ≡ last_notification rs l.notification)
unfolding serve
serve-last fs [] l = (refl, refl)
serve-last fs (r ∷ rs) l =
    let (b, n) = serve-last fs rs (handle r.handler fs true r.wanted l).1 in
    (
      b ∙ ap (last_battery rs) (handle-battery fs r.handler r.wanted l),
      n ∙ ap (last_notification rs) (handle-notification fs r.handler r.wanted l),
    )

-- The three lights that share the notification LED.
abbrev pub shares_led : Handler → Bool
shares_led Handler.battery = true
shares_led notifications = true
shares_led attention = true
shares_led _ = false

shown_lem :
    (fs : Sysfs) (h : Handler) (s : LightState) (l : Lights)
    → shares_led h ≡ true
    → let u = (handle h fs true s l).1 in
      let shown = if is_lit u.battery then u.battery else u.notification in
      u.writes ≡ show_color fs (blink_of shown) shown.color l.writes
unfolding handle set_light_battery set_light_notifications set_light_attention
    handle_speaker_battery_locked set_speaker_light_locked
shown_lem fs h s l c = ground arith

-- After any requests, a request for the battery, for a notification or for attention shows, on what
-- was written before, the last battery state asked for if that is lit, else the last notification.
pub serve_priority :
    (fs : Sysfs) (rs : List Request) (h : Handler) (s : LightState) (l : Lights)
    → shares_led h ≡ true
    → let before = serve fs rs l in
      let battery = battery_after h s (last_battery rs l.battery) in
      let notification = notification_after h s (last_notification rs l.notification) in
      let shown = if is_lit battery then battery else notification in
      (handle h fs true s before).1.writes
      ≡ show_color fs (blink_of shown) shown.color before.writes
serve_priority fs rs h s l c =
    let before = serve fs rs l in
    let (b, n) = serve-last fs rs l in
    let shown = shown_lem fs h s before c in
    let b' = handle-battery fs h s before ∙ ap (battery_after h s) b in
    let n' = handle-notification fs h s before ∙ ap (notification_after h s) n in
    rw (b', n') at shown

-- `open_lights` gives a device exactly if the name is one of the five and memory is there, and the
-- device has the handler of that name; else it gives -EINVAL for any other name, and -ENOMEM.
open_lights_lem :
    (allocated : Bool) (name : String)
    → let (r, d) = open_lights allocated name in
      ((handler_of name ≡ none) × (r ≡ einval) × (d ≡ none))
      ⊎ ((h : Handler) × (handler_of name ≡ some h)
          × (r ≡ (if allocated then pos 0 else enomem))
          × (d ≡ (if allocated then some h else none)))
unfolding open_lights
open_lights_lem allocated name = ground arith
