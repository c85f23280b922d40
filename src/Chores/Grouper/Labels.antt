-- ===== src/Chores/Grouper/Labels.antt =====
-- The case 'labels' of `ChoresGrouper`. The ids of labels are integers, so that the object's keys
-- come in ascending order.
pub mod Laws
use gsd.Prelude.{ℕ, Bool, true, false, Option, none, some, List, [], ◌∷◌, ◌++◌}
use gsd.Js.{undefined}
use gsd.Js.Calls.{Call, returns, throws, ◌>>=◌}
use gsd.Js.Objects.{get, put}
use gsd.Js.Sort.{Sign, sort, zero as level}
use gsd.Chores.{Chore, Label}
use gsd.Chores.Grouper.Sections.{Group, group}

-- The two objects that the loop fills.
pub record Labelled : Type 0 where
  pub raw : List (ℕ × List Chore)
  pub labels : List (ℕ × Label)

-- `groupRaw[label.id]`, set to `[]` first where it is undefined
abbrev or_empty : Option (List Chore) → List Chore
or_empty none = []
or_empty (some cs) = cs

add_label : Chore → Label → Labelled → Labelled
add_label c l s = record {
  raw = put l.id (or_empty (get l.id s.raw) ++ c ∷ []) s.raw;
  labels = put l.id l s.labels;
}

add_labels : Chore → List Label → Labelled → Labelled
add_labels c [] s = s
add_labels c (l ∷ ls) s = add_labels c ls (add_label c l s)

-- `chore.labelsV2.forEach` throws where the field is missing
label_chore : Chore → Option (List Label) → Labelled → Call Labelled
label_chore c none s = throws
label_chore c (some ls) s = returns (add_labels c ls s)

label_chores : List Chore → Labelled → Call Labelled
label_chores [] s = returns s
label_chores (c ∷ cs) s = do s' ← label_chore c c.labels s; label_chores cs s'

named_group : List Chore → Option Label → Call Group
named_group content none = throws
named_group content (some l) = returns (group l.name content undefined)

named_groups : List (ℕ × List Chore) → List (ℕ × Label) → Call (List Group)
named_groups [] labels = returns []
named_groups ((key, content) ∷ raw) labels = do
  g ← named_group content (get key labels)
  rest ← named_groups raw labels
  returns (g ∷ rest)

-- The comparator's body is in braces and returns nothing: its number is NaN.
abbrev by_name : Group → Group → Sign
by_name a b = level

unfoldable pub label_groups : List Chore → Call (List Group)
unfolding label_chores label_chore add_labels add_label named_groups named_group sort
label_groups cs = do
  s ← label_chores cs (record { raw = []; labels = [] })
  groups ← named_groups s.raw s.labels
  returns (sort by_name groups)
