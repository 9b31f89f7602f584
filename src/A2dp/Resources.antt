-- ===== src/A2dp/Resources.antt =====
-- An independent reading of a trace: which resources are held after it, and whether each call was
-- allowed when it was made. Nothing here looks at the state that the code keeps.
use android_device_zte_fujis.Common.{
  ℕ, suc, ◌-◌, ◌≡◌, refl, ◌∙◌, Bool, true, false, not, ◌&&◌, [], ◌∷◌, ◌==◌, truthy, if◌then◌else◌,
  ℤ, arith, Bool-cases, inl, inr,
}
use android_device_zte_fujis.A2dp.Env.{
  Env, Trace, Call, property_get_bool, property_get_latencies, dlopen, dlclose, dlsym, stream_open,
  stream_close, stream_start, stream_stop, stream_suspend, clear_suspend_flag, get_codec_config,
  check_ready, is_scrambling, sink_latency, get_ctl, set_value, set_enum, set_array, pcm_open,
  pcm_is_ready, pcm_start, pcm_close, Ctl, Routine, ◌>>◌, pass, when, write_ctl,
}

-- Is the Bluetooth library mapped after these calls?
abbrev pub loaded : Env → Trace → Bool
loaded e [] = false
loaded e (dlopen n ∷ t) = truthy (e.result t (dlopen n))
loaded e (dlclose ∷ t) = false
loaded e (_ ∷ t) = loaded e t

-- How many PCM handles are open?
abbrev pub open_pcms : Env → Trace → ℕ
open_pcms e [] = 0
open_pcms e (pcm_open ∷ t) =
    let n = open_pcms e t in if truthy (e.result t pcm_open) then suc n else n
open_pcms e (pcm_close ∷ t) = open_pcms e t - 1
open_pcms e (_ ∷ t) = open_pcms e t

-- A function of the library, or `dlclose` and `dlsym`, wants the library mapped; it is not mapped
-- twice; the PCM is opened when none is open, and used and closed when one is.
abbrev pub allowed : Env → Trace → Call → Bool
allowed e t (dlopen _) = not (loaded e t)
allowed e t dlclose = loaded e t
allowed e t (dlsym _) = loaded e t
allowed e t stream_open = loaded e t
allowed e t stream_close = loaded e t
allowed e t stream_start = loaded e t
allowed e t stream_stop = loaded e t
allowed e t stream_suspend = loaded e t
allowed e t clear_suspend_flag = loaded e t
allowed e t get_codec_config = loaded e t
allowed e t check_ready = loaded e t
allowed e t is_scrambling = loaded e t
allowed e t sink_latency = loaded e t
allowed e t pcm_open = open_pcms e t == 0
allowed e t pcm_is_ready = open_pcms e t == 1
allowed e t pcm_start = open_pcms e t == 1
allowed e t pcm_close = open_pcms e t == 1
allowed e t (property_get_bool _) = true
allowed e t property_get_latencies = true
allowed e t (get_ctl _) = true
allowed e t (set_value _ _) = true
allowed e t (set_enum _ _) = true
allowed e t (set_array _ _) = true

abbrev pub legal : Env → Trace → Bool
legal e [] = true
legal e (c ∷ t) = allowed e t c && legal e t

-- How often the Bluetooth stream was asked to start, and to stop.
abbrev pub starts : Trace → ℕ
starts [] = 0
starts (stream_start ∷ t) = suc (starts t)
starts (_ ∷ t) = starts t

abbrev pub stops : Trace → ℕ
stops [] = 0
stops (stream_stop ∷ t) = suc (stops t)
stops (_ ∷ t) = stops t

-- The calls between two traces took and released nothing, started and stopped no stream, and
-- were allowed if those before were.
pub record Same (e : Env) (t u : Trace) : Type 0 where
  pub same_loaded : loaded e u ≡ loaded e t
  pub same_pcms : open_pcms e u ≡ open_pcms e t
  pub same_legal : legal e u ≡ legal e t
  pub same_starts : starts u ≡ starts t
  pub same_stops : stops u ≡ stops t

pub Same-refl : {e : Env} (t : Trace) → Same e t t
Same-refl t = record {
  same_loaded = refl;
  same_pcms = refl;
  same_legal = refl;
  same_starts = refl;
  same_stops = refl;
}

pub Same-trans : {e : Env} {t u v : Trace} → Same e t u → Same e u v → Same e t v
Same-trans p q = record {
  same_loaded = q.same_loaded ∙ p.same_loaded;
  same_pcms = q.same_pcms ∙ p.same_pcms;
  same_legal = q.same_legal ∙ p.same_legal;
  same_starts = q.same_starts ∙ p.same_starts;
  same_stops = q.same_stops ∙ p.same_stops;
}

-- A routine that only touches the mixer.
pub record IsNeutral (m : Routine) : Type 0 where
  pub same : (e : Env) (t : Trace) → Same e t (m e t).1

pub pass-IsNeutral : IsNeutral pass
pass-IsNeutral = record { same = λ e t. Same-refl t }

pub then-IsNeutral : {m k : Routine} → IsNeutral m → IsNeutral k → IsNeutral (m >> k)
then-IsNeutral {m} {k} p q = record { same = λ e t. go e t (truthy (m e t).0) }
  where
    go : (e : Env) (t : Trace) (b : Bool) → Same e t (if b then m e t else k e (m e t).1).1
    go e t true = p.same e t
    go e t false = Same-trans (p.same e t) (q.same e (m e t).1)

pub when-IsNeutral : {m : Routine} (b : Bool) → IsNeutral m → IsNeutral (when b m)
when-IsNeutral true p = p
when-IsNeutral false p = pass-IsNeutral

-- A setter of the mixer, whatever it writes.
abbrev pub IsSetter : Call → Type 0
IsSetter (set_value _ _) = Unit
IsSetter (set_enum _ _) = Unit
IsSetter (set_array _ _) = Unit
IsSetter _ = ⊥

pub Same-setter : (e : Env) (t : Trace) (c : Call) → IsSetter c → Same e t (c ∷ t)
Same-setter e t (set_value _ _) h = ground arith
Same-setter e t (set_enum _ _) h = ground arith
Same-setter e t (set_array _ _) h = ground arith
Same-setter e t _ h = absurd h

pub Same-get_ctl : (e : Env) (t : Trace) (c : Ctl) → Same e t (get_ctl c ∷ t)
Same-get_ctl e t c = ground arith

pub write_ctl-IsNeutral :
    (code : ℤ → ℤ) (c : Ctl) (setter : Call) → IsSetter setter → IsNeutral (write_ctl code c setter)
unfolding write_ctl
write_ctl-IsNeutral code c setter h = record {
  same = λ e t. elim (Bool-cases (truthy (e.result t (get_ctl c)))) [
    | inl found ↦
        rw found (Same-trans (Same-get_ctl e t c) (Same-setter e (get_ctl c ∷ t) setter h))
    | inr missing ↦ rw missing (Same-get_ctl e t c)
  ];
}
