-- ===== src/Sndmon/Defs.antt =====
-- sndmonitor.c: the monitored cards and device events, and the listeners.
use android_device_zte_fujis.Common.{
  ℕ, ◌-◌, Bool, true, false, ◌&&◌, Option, none, some, List, [], ◌∷◌, ◌++◌, ◌==◌, leb, ltb,
  if◌then◌else◌, take, ℤ, pos, negsuc, truthy,
}
use android_device_zte_fujis.Usb.Text.{Bytes, bytes, strstr, atoi}

-- `card_status_t`
pub data Status : Type 0 where
  online offline : Status

abbrev pub same_status : Status → Status → Bool
same_status online online = true
same_status offline offline = true
same_status _ _ = false

-- `sndcard_t` without its file.
pub record SndCard : Type 0 where
  pub card : ℕ
  pub status : Status

-- `dev_event_t` without its file.
pub record DevEvent : Type 0 where
  pub dev : Bytes
  pub status : ℤ

-- The key and the value of a notification.
pub data Message : Type 0 where
  snd_card_status cpe_status slpi_status : ℕ → Status → Message
  ext_audio_device : Bytes → (on : Bool) → Message

-- `sndmonitor`, with the callbacks made so far, the oldest first. Listeners are streams; `add_listener`
-- replaces the callback of one that is there, and a callback is known by its stream and number.
pub record Monitor : Type 0 where
  pub cards : List SndCard
  pub num_cards : ℕ
  pub dev_events : List DevEvent
  pub num_dev_events : ℕ
  pub listeners : List (ℕ × ℕ)
  pub initcheck : Bool
  pub told : List (ℕ × ℕ × Message)

-- CPE_MAGIC_NUM and SLPI_MAGIC_NUM
abbrev pub cpe_magic_num : ℕ
cpe_magic_num = 0x2000

abbrev pub slpi_magic_num : ℕ
slpi_magic_num = 0x3000

unfoldable pub message_of : ℕ → Status → Message
message_of card status =
    if leb cpe_magic_num card && ltb card slpi_magic_num
    then cpe_status (card - cpe_magic_num) status
    else if card == slpi_magic_num
    then slpi_status (card - slpi_magic_num) status
    else snd_card_status card status

-- `snd_mon_update` with `snd_cb`: each listener gets the message.
abbrev pub tell_all : List (ℕ × ℕ) → Message → List (ℕ × ℕ × Message)
tell_all [] msg = []
tell_all ((stream, cb) ∷ ls) msg = (stream, cb, msg) ∷ tell_all ls msg

abbrev pub contains : Bytes → Bytes → Bool
contains s needle = elim (strstr s needle) [ none ↦ false | some t ↦ true ]

-- What the first 8 bytes of a state file say; `none` where the code logs an unknown state.
unfoldable pub state_in : Bytes → Option Status
unfolding strstr
state_in text =
    if contains (take 8 text) (bytes "OFFLINE")
    then some offline
    else if contains (take 8 text) (bytes "ONLINE")
    then some online
    else none

abbrev pub updated : SndCard → Option Status → SndCard × List Message
updated s none = (s, [])
updated s (some status) =
    if same_status status s.status
    then (s, [])
    else (record s { status = status }, message_of s.card status ∷ [])

-- `on_sndcard_state_update`: the card, and the notification if there is one. An empty text is a
-- read that fails.
unfoldable pub on_sndcard_state_update : SndCard → Bytes → SndCard × List Message
unfolding message_of state_in
on_sndcard_state_update s [] = (s, [])
on_sndcard_state_update s (c ∷ text) = updated s (state_in (c ∷ text))

abbrev ℤ_eq : ℤ → ℤ → Bool
ℤ_eq (pos a) (pos b) = a == b
ℤ_eq (pos a) (negsuc b) = false
ℤ_eq (negsuc a) (pos b) = false
ℤ_eq (negsuc a) (negsuc b) = a == b

-- `on_dev_event` reads one byte.
unfoldable pub on_dev_event : DevEvent → Bytes → DevEvent × List Message
unfolding atoi
on_dev_event d [] = (d, [])
on_dev_event d (c ∷ text) =
    let now = atoi (c ∷ []) in
    if ℤ_eq now d.status
    then (d, [])
    else (record d { status = now }, ext_audio_device d.dev (truthy now) ∷ [])

-- A poll: for each card and each device event the bytes that its file has, if it is ready.
pub record Poll : Type 0 where
  pub card_files : List (Option Bytes)
  pub dev_files : List (Option Bytes)

abbrev pub on_ready :
    {A : Type 0} → (A → Bytes → A × List Message) → A → Option Bytes → A × List Message
on_ready f a none = (a, [])
on_ready f a (some text) = f a text

-- `list_for_each` over the watched files. A file that the poll does not name is not ready.
abbrev pub sweep :
    {A : Type 0}
    → (A → Bytes → A × List Message)
    → List A
    → List (Option Bytes)
    → List A × List Message
sweep f [] files = ([], [])
sweep f (a ∷ xs) [] = (a ∷ xs, [])
sweep f (a ∷ xs) (file ∷ files) =
    let (a', msgs) = on_ready f a file in
    let (xs', later) = sweep f xs files in (a' ∷ xs', msgs ++ later)

abbrev pub tell_each : List (ℕ × ℕ) → List Message → List (ℕ × ℕ × Message)
tell_each ls [] = []
tell_each ls (msg ∷ msgs) = tell_all ls msg ++ tell_each ls msgs

-- One round of `monitor_thread_loop` that is not told to quit.
unfoldable pub on_poll : Poll → Monitor → Monitor
unfolding on_sndcard_state_update on_dev_event
on_poll p m =
    let (cards, first) = sweep on_sndcard_state_update m.cards p.card_files in
    let (events, second) = sweep on_dev_event m.dev_events p.dev_files in
    record m {
      cards = cards;
      dev_events = events;
      told = m.told ++ tell_each m.listeners (first ++ second);
    }

unfoldable pub add_listener : ℕ → ℕ → List (ℕ × ℕ) → List (ℕ × ℕ)
add_listener stream cb [] = (stream, cb) ∷ []
add_listener stream cb ((s, c) ∷ ls) =
    if s == stream then (stream, cb) ∷ ls else (s, c) ∷ add_listener stream cb ls

unfoldable pub del_listener : ℕ → List (ℕ × ℕ) → List (ℕ × ℕ)
del_listener stream [] = []
del_listener stream ((s, c) ∷ ls) = if s == stream then ls else (s, c) ∷ del_listener stream ls

unfoldable pub register_listener : ℕ → ℕ → Monitor → ℤ × Monitor
unfolding add_listener
register_listener stream cb m =
    if m.initcheck
    then (pos 0, record m { listeners = add_listener stream cb m.listeners })
    else (negsuc 0, m)

unfoldable pub unregister_listener : ℕ → Monitor → ℤ × Monitor
unfolding del_listener
unregister_listener stream m =
    if m.initcheck
    then (pos 0, record m { listeners = del_listener stream m.listeners })
    else (negsuc 0, m)

-- `audio_extn_snd_mon_deinit`, which leaves the listeners.
unfoldable pub deinit : Monitor → ℤ × Monitor
deinit m =
    if m.initcheck
    then (pos 0, record m { cards = []; dev_events = []; initcheck = false })
    else (negsuc 0, m)
