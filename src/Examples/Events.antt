-- ===== src/Examples/Events.antt =====
-- `mergeEvents`, `sortNewestFirst` and the ages.
use mathlib.Core.List.{Permᴰ}
use kubehealth.Prelude.{
  ◌≡◌, refl, ◌≢◌, ◌≤◌, ◌<◌, ◌+◌, ◌*◌, String, inr, ◌⊎◌, [], ◌∷◌, arith, eq_iff,
}
use kubehealth.Prelude.Int.{pos, negsuc}
use kubehealth.Prelude.Keyed.{find}
use kubehealth.Prelude.Sort.{IsSorted}
use kubehealth.Time.{minute, hour, second}
use kubehealth.Time.Ages.{age_of, format_age, format_duration, shown, unit, InUnits, age_of_bounds}
use kubehealth.Events.{newer, sort_newest_first, merge_events}
use kubehealth.Events.Ordering.{sort_newest_first_canonical}
use kubehealth.Events.Merge.{HasNames, by_name, IsMerged, merge_events_lem}
use kubehealth.Examples.Samples.{back_off, back_off_later, pulled}

format_age_runs : format_age (pos (hour + 5 * minute + 59 * second)) ≡ "1h 05m"
unfolding format_age
format_age_runs = refl

format_duration_runs : format_duration (negsuc (3 * second)) ≡ "-3s"
unfolding format_duration
format_duration_runs = refl

age_of_bounds_example :
    (shown (age_of (pos (30 * hour))) ≤ 30 * hour)
    × (30 * hour < shown (age_of (pos (30 * hour))) + unit (age_of (pos (30 * hour))))
    × InUnits (age_of (pos (30 * hour)))
age_of_bounds_example = age_of_bounds (pos (30 * hour))

merge_runs :
    merge_events (back_off ∷ pulled ∷ []) (back_off_later ∷ []) ≡ back_off_later ∷ pulled ∷ []
unfolding merge_events
merge_runs = refl

two_names : ◌≢◌ {A = String} "web-1.17" "web-1.16"
two_names = ground (arith, eq_iff "web-1.17" "web-1.16")

sort_newest_first_canonical_example :
    (sort_newest_first (back_off ∷ pulled ∷ []) ≡ sort_newest_first (pulled ∷ back_off ∷ []))
    × IsSorted newer (sort_newest_first (back_off ∷ pulled ∷ []))
sort_newest_first_canonical_example =
    sort_newest_first_canonical (Permᴰ.swap refl refl) ((inr two_names, tt), (tt, tt))

merge_events_lem_example :
    let out = merge_events (back_off ∷ pulled ∷ []) (back_off_later ∷ []) in
    HasNames out
    × ((n : String)
        → IsMerged
            (find by_name n (back_off ∷ pulled ∷ []))
            (find by_name n (back_off_later ∷ []))
            (find by_name n out))
    × (((back_off_later ∷ [] ≡ []) × (out ≡ back_off ∷ pulled ∷ [])) ⊎ IsSorted newer out)
merge_events_lem_example =
    merge_events_lem (back_off ∷ pulled ∷ []) (back_off_later ∷ []) ((two_names, tt), (tt, tt))
      (tt, tt)
