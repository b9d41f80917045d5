-- ===== src/Kubernetes/Labels/Tests.antt =====
-- Labels of concrete groups.
use text.Mathlib.Text.{◌==◌}
use apo.Common.{
  String, true, false, ◌≡◌, refl, some, [], ◌∷◌, Dict, lookup, put, string_eq, if◌then◌else◌,
}
use apo.Kubernetes.Labels.{
  check_or_fill_groups_label_lem, lookup_labels, mismatch, filled, check_or_fill_groups_label,
  get_label,
}

abbrev custom : Dict String String
custom = ("group", "custom") ∷ ("severity", "high") ∷ []

-- A group of its own name loses the label that its rule had.
emptied :
    check_or_fill_groups_label "my group" (some custom)
    ≡ filled (("group", "") ∷ ("severity", "high") ∷ [])
unfolding check_or_fill_groups_label
emptied = refl

check_or_fill_groups_label_lem_example :
    ((get_label "my group").1 ≡ true
      → (lookup_labels (some custom) "group" == (get_label "my group").0) ≡ false
      → check_or_fill_groups_label "my group" (some custom) ≡ mismatch)
    × ((get_label "my group").1 ≡ false
        → check_or_fill_groups_label "my group" (some custom) ≡ filled (put "group" "" custom))
    × ((labels2 : Dict String String)
        → check_or_fill_groups_label "my group" (some custom) ≡ filled labels2
        → (key : String)
        → lookup key labels2
          ≡ (if "group" == key then some (get_label "my group").0 else lookup key custom))
check_or_fill_groups_label_lem_example = check_or_fill_groups_label_lem "my group" custom
