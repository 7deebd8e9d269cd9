-- ===== src/Examples/Distance.antt =====
-- The theorem on `editDistance` (linked.go) at a typo.
use kubehealth.Prelude.{◌≡◌, refl, ◌≤◌, List, [], ◌∷◌}
use kubehealth.Prelude.Bytes.{bytes_of}
use kubehealth.Linked.Distance.{
  edit_distance, byte_distance, cell_at, last_row, next_row, first_row, row_after,
}
use kubehealth.Linked.Distance.Least.{Edit, kept, changed, source, target, edits}
use kubehealth.Linked.Distance.Least.Table.{edit_distance_lem}

-- From `web` to `wed`.
abbrev typo : List Edit
typo = kept 119 ∷ kept 101 ∷ changed 98 100 ∷ []

typo-source : source typo ≡ bytes_of "web"
unfolding bytes_of
typo-source = refl

typo-target : target typo ≡ bytes_of "wed"
unfolding bytes_of
typo-target = refl

one_apart : edit_distance "web" "wed" ≡ 1
unfolding edit_distance byte_distance cell_at last_row bytes_of next_row first_row row_after
one_apart = refl

two_apart : edit_distance "api" "pi2" ≡ 2
unfolding edit_distance byte_distance cell_at last_row bytes_of next_row first_row row_after
two_apart = refl

edit_distance_lem_example :
    (edit_distance "web" "wed" ≤ 1)
    × ((best : List Edit) × (source best ≡ bytes_of "web")
        × (target best ≡ bytes_of "wed")
        × (edits best ≡ edit_distance "web" "wed"))
edit_distance_lem_example = edit_distance_lem "web" "wed" typo typo-source typo-target
