-- ===== src/Rome/Waits.antt =====
-- Which events the segments of a rampatch wait for.
use android_device_zte_fujis.Common.{
  ℕ, ◌≡◌, ◌≢◌, ◌⊎◌, Bool, true, false, not, ◌&&◌, ◌==◌, if◌then◌else◌, arith,
}
use android_device_zte_fujis.Rome.Soc.{Soc, at_least}
use android_device_zte_fujis.Rome.Tlv.{
  Progress, first_waits, adjust_waits, segment_waits, rome_ver_3_2, tlv_type_patch,
}

-- A rampatch for Rome 3.2 or later whose configuration is ROME_SKIP_EVT_NONE or ROME_SKIP_EVT_VSE_CC.
pub record IsRome32 (s : Soc) : Type 0 where
  pub version : at_least s.chipset_ver rome_ver_3_2 ≡ true
  pub patch : s.tlv_type ≡ tlv_type_patch
  pub config : (s.tlv_dwnd_cfg ≡ 0) ⊎ (s.tlv_dwnd_cfg ≡ 3)

-- With ROME_SKIP_EVT_NONE each segment waits for its vendor event, and all but the last for a
-- command complete event; with ROME_SKIP_EVT_VSE_CC only the last one waits, for the vendor event.
abbrev pub Waits : (last : Bool) → Progress → Type 0
Waits last p =
    (p.wait_cc_evt ≡ (p.soc.tlv_dwnd_cfg == 0 && not last))
    × (p.soc.wait_vsc_evt ≡ (if p.soc.tlv_dwnd_cfg == 0 then true else last))

-- For such a rampatch the flags follow that table: from the start they are those of a segment that
-- is not the last, before a full segment they become those of the last one exactly if none is to
-- go and nothing remains, and before the remaining bytes they are those of the last one.
waits_lem :
    (r k : ℕ) (p q : Progress)
    → IsRome32 p.soc
    → IsRome32 q.soc
    → r ≢ 0
    → Waits false q
    → Waits false (first_waits p)
      × Waits (k == 0) (segment_waits 0 k q)
      × Waits false (segment_waits r k q)
      × Waits true (adjust_waits (r == 0) (not (r == 0)) q)
unfolding first_waits segment_waits adjust_waits
waits_lem r k p q hp hq more w = ground (arith, hp, hq, w)
