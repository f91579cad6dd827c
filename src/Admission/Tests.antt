-- ===== src/Admission/Tests.antt =====
-- A concrete sketch and policy, and the theorems at them.
use cachet.Base.Float.Thousandths.{thousandths}
use cachet.Base.Int.{pos, ◌-ℤ◌}
use cachet.Admission.Sketch.{SketchOptions, new_sketch}
use cachet.Admission.Sketch.OverCount.{Counted, counts-ge_exact}
use cachet.Admission.Sketch.OverCount.Reference.{Access}
use cachet.Admission.Controller.{new_controller}
use cachet.Admission.Controller.Runs.{
  Call, call, states_all, explain_all, seen_states, AllKept, explain_all-states_all,
}
use cachet.Admission.Policy.{
  PolicyOptions, State, new_policy, new_policy_checked, inverts_the_hysteresis_band, differs,
  decide, by_threshold, after_dwell, ratio_of,
}
use cachet.Admission.Policy.Hysteresis.{after, decide_settled, Crossed, Dwelt, decide_change}
use cachet.Base.{
  ◌+◌, ◌*◌, ◌%◌, ◌^◌, ◌<◌, ◌≡◌, refl, ap, ◌⊎◌, true, false, none, some, List, [], ◌∷◌, arith, ltb,
  length, ascii, err,
}

abbrev sketch_options : SketchOptions
sketch_options = record {
  width_option = pos 8;
  depth_option = pos 2;
  window_option = pos 20;
  buckets_option = pos 2;
}

abbrev accesses : List Access
accesses =
    (record { key = ascii "k"; is_read = true; now = pos 3; later = pos 3 })
    ∷ (record { key = ascii "j"; is_read = false; now = pos 12; later = pos 12 })
    ∷ (record { key = ascii "k"; is_read = true; now = pos 14; later = pos 14 })
    ∷ []

slice_positive : 0 < (new_sketch sketch_options (pos 0)).slice
unfolding new_sketch
slice_positive = omega arith

sketch_room : length accesses * (new_sketch sketch_options (pos 0)).depth < 2 ^ 32
unfolding new_sketch
sketch_room = omega arith

counts-ge_exact_example : Counted sketch_options (pos 0) accesses (ascii "k") (pos 15) (pos 15)
counts-ge_exact_example =
    counts-ge_exact sketch_options (pos 0) accesses (ascii "k") (pos 15) (pos 15) slice_positive
      sketch_room

abbrev options : PolicyOptions thousandths
options = record {
  admit_ratio = some 20000;
  evict_ratio = some 10000;
  min_samples = 4;
  min_dwell = pos 5;
  default_admit = true;
}

abbrev evicted : State thousandths
evicted = record {
  key = ascii "k";
  reads = 50;
  writes = 2;
  admitted = false;
  since = some (pos 3);
  now = pos 9;
}

inverted :
    new_policy_checked thousandths (record options { evict_ratio = some 30000 })
    ≡ err inverts_the_hysteresis_band
unfolding new_policy_checked
inverted = refl

admits : (decide thousandths options evicted).admit ≡ true
unfolding decide after_dwell by_threshold ratio_of ◌-ℤ◌
admits = refl

-- A key that was evicted a nanosecond ago is admitted again once its samples are few.
few_samples :
    (decide thousandths options (record evicted { reads = 1; writes = 2; now = pos 4 })).admit
    ≡ true
unfolding decide
few_samples = refl

abbrev left_after : State thousandths
left_after = after thousandths evicted (decide thousandths (new_policy thousandths options) evicted)

decide_settled_example :
    ((decide thousandths (new_policy thousandths options) left_after).admit
      ≡ (decide thousandths (new_policy thousandths options) evicted).admit)
    × (after thousandths left_after (decide thousandths (new_policy thousandths options) left_after)
        ≡ left_after)
decide_settled_example = decide_settled thousandths options evicted

decide_change_example :
    ((ltb ((50 + 2) % 2 ^ 32) 4 ≡ true) × ((decide thousandths options evicted).admit ≡ true))
    ⊎ (Dwelt thousandths options (pos 9) (some (pos 3)) × Crossed thousandths options evicted)
decide_change_example = decide_change thousandths options evicted changes
  where
    changes : differs (decide thousandths options evicted).admit false ≡ true
    changes = ap (λ b. differs b false) admits

abbrev calls : List Call
calls =
    call (ascii "a") (pos 1) (pos 1) (pos 1)
    ∷ call (ascii "b") (pos 2) (pos 2) (pos 2)
    ∷ call (ascii "a") (pos 3) (pos 3) (pos 3)
    ∷ call (ascii "c") (pos 4) (pos 4) (pos 4)
    ∷ []

explain_all-states_all_example :
    let c = new_controller thousandths none options (pos 2) (pos 0) in
    (seen_states thousandths options c.bound (explain_all thousandths options c.bound calls c)
      ≡ states_all thousandths options c.bound calls c.sketch [])
    × AllKept thousandths options c.bound (explain_all thousandths options c.bound calls c)
explain_all-states_all_example =
    explain_all-states_all thousandths none options (pos 2) (pos 0) calls
