-- ===== src/Kubernetes/Labels.antt =====
-- utils.go: the labels of the predefined alert groups. `checkOrFillGroupsLabel` is in
-- services/alerts/service_update_alert_rule.go.
pub mod Tests
use text.Mathlib.Text.{◌==◌}
use apo.Common.{
  lookup-put, ◌∙◌, ap, String, Bool, true, false, ◌≡◌, ◌≢◌, refl, Option, none, some, [], ◌∷◌,
  arith, eq_iff, if◌then◌else◌, Dict, lookup, put, All, string_eq, sym, Bool-cases, Option-cases,
  inl, inr, subst,
}

abbrev reversed_groups_label : Dict String String
reversed_groups_label =
    ("应用指标", "app")
    ∷ ("主机相关", "infra")
    ∷ ("网络相关", "network")
    ∷ ("容器相关", "container")
    ∷ ("数据库和中间件相关", "middleware")
    ∷ ("用户自定义组", "custom")
    ∷ ("异常检测-应用指标", "mutation-app")
    ∷ ("异常检测-主机相关", "mutation-infra")
    ∷ ("异常检测-网络相关", "mutation-network")
    ∷ ("异常检测-容器相关", "mutation-container")
    ∷ ("异常检测-数据库和中间件相关", "mutation-middleware")
    ∷ ("异常检测-用户自定义组", "mutation-custom")
    ∷ ("Application Metrics", "app")
    ∷ ("Host Metrics", "infra")
    ∷ ("Network Metrics", "network")
    ∷ ("Container Metrics", "container")
    ∷ ("Database And Middleware Metrics", "middleware")
    ∷ ("Custom Metrics Group", "custom")
    ∷ ("MutationCheck-Application Metrics", "mutation-app")
    ∷ ("MutationCheck-Host Metrics", "mutation-infra")
    ∷ ("MutationCheck-Network Metrics", "mutation-network")
    ∷ ("MutationCheck-Container Metrics", "mutation-container")
    ∷ ("MutationCheck-Database And Middleware Metrics", "mutation-middleware")
    ∷ ("MutationCheck-Custom Metrics Group", "mutation-custom")
    ∷ []

-- `label, ok := reversedGroupsLabel[group]`: the zero value of a missing key is "".
abbrev or_zero : Option String → String × Bool
or_zero none = ("", false)
or_zero (some label) = (label, true)

unfoldable pub get_label : String → String × Bool
unfolding lookup
get_label group = or_zero (lookup group reversed_groups_label)

abbrev zero_label : Option String → String
zero_label none = ""
zero_label (some label) = label

-- The outcome of `checkOrFillGroupsLabel`: the answer with the labels as the call leaves them, or
-- the panic of a write to a nil map. `none` is the nil map.
pub data LabelCheck : Type 0 where
  mismatch : LabelCheck
  filled : Dict String String → LabelCheck
  nil_map_panic : LabelCheck

abbrev pub lookup_labels : Option (Dict String String) → String → String
lookup_labels none key = ""
lookup_labels (some labels) key = zero_label (lookup key labels)

abbrev fill_label : String → Option (Dict String String) → LabelCheck
fill_label label none = nil_map_panic
fill_label label (some labels) = filled (put "group" label labels)

unfoldable pub check_or_fill_groups_label : String → Option (Dict String String) → LabelCheck
unfolding get_label lookup put
check_or_fill_groups_label group labels =
    let group_label = lookup_labels labels "group" in
    let (label, known) = get_label group in
    if known
    then (if group_label == label then fill_label label labels else mismatch)
    else fill_label label labels

-- No predefined group is its own label.
abbrev IsOther : String × String → Type 0
IsOther (group, label) = group ≢ label

-- What holds of every entry holds of one that is found.
lookup-All :
    (P : String × String → Type 0) (k v : String) (m : Dict String String)
    → All P m
    → lookup k m ≡ some v
    → P (k, v)
unfolding lookup
lookup-All P k v [] a h = absurd (cc)
lookup-All P k v ((j, w) ∷ m) (p, a) h = elim (Bool-cases (j == k)) [
  | inl same ↦
      let key : j ≡ k = (eq_iff j k).0 same in
      let value : w ≡ v = ground arith in subst (λ x. P (x, v)) key (subst (λ y. P (j, y)) value p)
  | inr other ↦ lookup-All P k v m a (ground arith)
]

abbrev other_test : Dict String String → Bool
other_test [] = true
other_test ((k, v) ∷ m) = if k == v then false else other_test m

other_test_sound : (m : Dict String String) → other_test m ≡ true → All IsOther m
other_test_sound [] h = tt
other_test_sound ((k, v) ∷ m) h =
    (λ e. ground (arith, eq_iff k v, e), other_test_sound m (ground arith))

labels_differ : All IsOther reversed_groups_label
labels_differ = other_test_sound reversed_groups_label refl

-- `GetLabel` never returns the group that it is given, unless that is the empty text.
pub get_label-ne : (group : String) → group ≢ "" → (get_label group).0 ≢ group
unfolding get_label
get_label-ne group h = elim (Option-cases (lookup group reversed_groups_label)) [
  | inl missing ↦ rw missing (λ e. h (sym e))
  | inr (label, found) ↦
      rw found
        (λ e. lookup-All IsOther group label reversed_groups_label labels_differ found (sym e))
]

unknown_label : (group : String) → (get_label group).1 ≡ false → (get_label group).0 ≡ ""
unfolding get_label
unknown_label group h = of_found (lookup group reversed_groups_label) h
  where
    of_found : (o : Option String) → (or_zero o).1 ≡ false → (or_zero o).0 ≡ ""
    of_found none e = refl
    of_found (some label) e = absurd (ground (arith, e))

abbrev filled_labels : LabelCheck → Dict String String
filled_labels mismatch = []
filled_labels (filled labels) = labels
filled_labels nil_map_panic = []

-- With labels that are not nil: a predefined group is refused when the label of the rule is not
-- the one of the group, also when the rule has none. Every other group gets the empty label. What
-- is accepted has the label of the group, and its other labels are unchanged.
pub check_or_fill_groups_label_lem :
    (group : String) (labels : Dict String String)
    → ((get_label group).1 ≡ true
        → (lookup_labels (some labels) "group" == (get_label group).0) ≡ false
        → check_or_fill_groups_label group (some labels) ≡ mismatch)
      × ((get_label group).1 ≡ false
          → check_or_fill_groups_label group (some labels) ≡ filled (put "group" "" labels))
      × ((labels2 : Dict String String)
          → check_or_fill_groups_label group (some labels) ≡ filled labels2
          → (key : String)
          → lookup key labels2
            ≡ (if "group" == key then some (get_label group).0 else lookup key labels))
unfolding check_or_fill_groups_label
check_or_fill_groups_label_lem group labels = (
  λ known differs. rw (known, differs) refl,
  λ unknown. rw unknown (ap (λ l. filled (put "group" l labels)) (unknown_label group unknown)),
  λ labels2 e key.
      ap (lookup key) (
        of_known (get_label group).1 (lookup_labels (some labels) "group" == (get_label group).0)
          labels2 e)
      ∙ lookup-put "group" key (get_label group).0 labels,
)
  where
    of_known :
        (known same : Bool) (labels2 : Dict String String)
        → (if known
            then (if same then filled (put "group" (get_label group).0 labels) else mismatch)
            else filled (put "group" (get_label group).0 labels))
          ≡ filled labels2
        → labels2 ≡ put "group" (get_label group).0 labels
    of_known false same labels2 e = sym (ap filled_labels e)
    of_known true true labels2 e = sym (ap filled_labels e)
    of_known true false labels2 e = absurd (ground (arith, e))
