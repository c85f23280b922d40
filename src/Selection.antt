-- ===== src/Selection.antt =====
-- `useMultiSelect` of ui/src/views/Chores/hooks/useMultiSelect.js. The set of the selected ids is the
-- list of its members in the order in which they were added.
pub mod Laws
pub mod All
use gsd.Prelude.{
  ℕ, zero, suc, ◌+◌, Bool, true, false, not, ◌&&◌, Option, none, some, List, [], ◌∷◌, ◌++◌, map,
  filter, all, find?, if◌then◌else◌, ◌==◌, length,
}
use gsd.Prelude.Partition.{flat, contains}
use gsd.Js.{Scalar, scalar_eq}
use gsd.Chores.{Chore}

pub record Selection : Type 0 where
  pub mode : Bool
  pub selected : List Scalar

-- `add` and `delete` of a set, and `new Set(list)`
abbrev pub add : Scalar → List Scalar → List Scalar
add x s = if contains s x then s else s ++ x ∷ []

abbrev pub delete : Scalar → List Scalar → List Scalar
delete x s = filter (λ y. not (x == y)) s

pub add_all : List Scalar → List Scalar → List Scalar
add_all s [] = s
add_all s (x ∷ xs) = add_all (add x s) xs

unfoldable pub set_of : List Scalar → List Scalar
unfolding add_all
set_of xs = add_all [] xs

unfoldable pub toggle_multi_select_mode : Selection → Selection
toggle_multi_select_mode s =
    if s.mode then record s { mode = false } else record { mode = true; selected = [] }

unfoldable pub toggle_chore_selection : Scalar → Selection → Selection
toggle_chore_selection id s = record s {
  selected = if contains s.selected id then delete id s.selected else add id s.selected;
}

-- `section.content || []`
abbrev or_empty : Option (List Chore) → List Chore
or_empty none = []
or_empty (some cs) = cs

-- The contents of the sections whose index, counted from `n`, is open.
expanded_from : ℕ → List (Option (List Chore)) → (ℕ → Bool) → List Chore
expanded_from n [] open_sections = []
expanded_from n (s ∷ sections) open_sections =
    let rest = expanded_from (suc n) sections open_sections in
    if open_sections n then or_empty s ++ rest else rest

unfoldable pub expanded : List (Option (List Chore)) → (ℕ → Bool) → List Chore
unfolding expanded_from
expanded sections open_sections = expanded_from 0 sections open_sections

abbrev pub contents_of : List (Option (List Chore)) → List Chore
contents_of sections = flat or_empty sections

abbrev is_selected : List Scalar → Chore → Bool
is_selected selected c = contains selected c.id

abbrev is_nonempty : List Chore → Bool
is_nonempty [] = false
is_nonempty (_ ∷ _) = true

-- A second call, when all the open sections are selected, goes on to the closed ones.
unfoldable pub to_select :
    List Scalar → Option (List Chore) → List (Option (List Chore)) → (ℕ → Bool) → List Chore
to_select selected (some (c ∷ cs)) sections open_sections = c ∷ cs
to_select selected _ sections open_sections =
    let open_chores = expanded sections open_sections in
    if is_nonempty open_chores && all (is_selected selected) open_chores
    then contents_of sections
    else open_chores

-- The new state, and the number that is returned.
unfoldable pub select_all_visible_chores :
    Option (List Chore) → List (Option (List Chore)) → (ℕ → Bool) → Selection → Selection × ℕ
select_all_visible_chores visible sections open_sections s =
    let chores = to_select s.selected visible sections open_sections in
    (
      if is_nonempty chores
          then record s { selected = set_of (map (λ (c : Chore). c.id) chores) }
          else s,
      length chores,
    )

unfoldable pub clear_selection : Selection → Selection
clear_selection s = elim s.selected [
  | [] ↦ record s { mode = false }
  | _ ∷ _ ↦ record s { selected = [] }
]

-- `map` to the tasks, and `filter(Boolean)`
chosen : List Chore → List Scalar → List Chore
chosen chores [] = []
chosen chores (id ∷ ids) =
    let rest = chosen chores ids in
    elim (find? (λ (c : Chore). c.id == id) chores) [ none ↦ rest | some c ↦ c ∷ rest ]

unfoldable pub get_selected_chores_data : List Chore → Selection → List Chore
unfolding chosen
get_selected_chores_data chores s = chosen chores s.selected
