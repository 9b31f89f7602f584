-- ===== src/Sndmon/Examples.antt =====
-- sndmonitor.c: concrete cards, and the theorems at them.
use android_device_zte_fujis.Common.{
  ◌≡◌, refl, true, false, none, some, List, [], ◌∷◌, ◌++◌, map, arith,
}
use android_device_zte_fujis.Usb.Text.{Bytes, bytes, strtok, atoi}
use android_device_zte_fujis.Sndmon.Defs.{
  online, SndCard, Monitor, Poll, message_of, unregister_listener, state_in,
}
use android_device_zte_fujis.Sndmon.Enumerate.{Proc, init, open_cards, is_adsp}
use android_device_zte_fujis.Sndmon.Numbered.{init-Distinct}
use android_device_zte_fujis.Sndmon.Counted.{Started, init-Started}
use android_device_zte_fujis.Sndmon.Changes.{nth, changes, Distinct}
use android_device_zte_fujis.Sndmon.Listening.{heard, watch, reports, watch-heard}
use android_device_zte_fujis.Sndmon.Leaving.{unregister_listener-heard}

abbrev lines : List Bytes
lines = bytes " 0 [msm8953        ]: x" ∷ bytes "   y" ∷ []

abbrev proc : Proc
proc = record {
  cards_file = λ tries. some lines;
  card_state = λ ptr. some (bytes "ONLINE\n");
  cpe_readable = λ ptr. true;
  cpe_state = λ ptr tries. some (bytes "OFFLINE\n");
  slpi_readable = false;
  slpi_state = λ tries. none;
  has_pipe = true;
  has_listeners = true;
  thread_starts = true;
}

abbrev boot : Monitor
boot = record {
  cards = [];
  num_cards = 0;
  dev_events = [];
  num_dev_events = 0;
  listeners = [];
  initcheck = false;
  told = [];
}

init-Started_example : Started proc (init proc boot).0 (init proc boot).1
init-Started_example = init-Started proc boot

two_cards : (init proc boot).1.num_cards ≡ 2
unfolding init
two_cards = refl

abbrev codec : SndCard
codec = record { card = 0; status = online }

boot-Distinct : Distinct (init proc boot).1.cards
unfolding open_cards is_adsp strtok atoi
boot-Distinct = init-Distinct proc lines boot refl (omega arith, tt, tt) (omega arith)

-- The monitor that was started, with two streams that listen.
abbrev monitor : Monitor
monitor = record (init proc boot).1 { listeners = (7, 1) ∷ (8, 1) ∷ [] }

abbrev both : Bytes → Bytes → Poll
both a b = record { card_files = some a ∷ some b ∷ []; dev_files = [] }

abbrev polls : List Poll
polls =
    both (bytes "OFFLINE\n") (bytes "ONLINE\n")
    ∷ both (bytes "OFFLINE\n") (bytes "unknown")
    ∷ both (bytes "ONLINE\n") (bytes "ONLINE\n")
    ∷ []

watch-heard_example :
    (nth 0 (watch polls monitor).cards ≡ some (record codec { status = online }))
    × (heard 7 0 (watch polls monitor).told
        ≡ [] ++ map (message_of 0) (changes online (reports 0 polls)))
unfolding init state_in
watch-heard_example = watch-heard 7 0 polls monitor codec boot-Distinct refl refl

unregister_listener-heard_example :
    heard 7 0 (watch polls (unregister_listener 7 monitor).1).told ≡ []
unfolding init
unregister_listener-heard_example = unregister_listener-heard 7 0 polls monitor refl (omega arith)
