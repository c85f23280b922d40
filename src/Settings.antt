-- ===== src/Settings.antt =====
-- The settings that the client keeps for itself: ui/src/utils/DurationUtils.js,
-- ui/src/utils/FeatureToggle.js and ui/src/utils/SidepanelConfig.js. Durations are numbers from 0 up.
pub mod Laws
use gsd.Prelude.{
  ℕ, ◌+◌, ◌*◌, ◌/◌, ◌%◌, Bool, true, false, not, String, Option, none, some, List, [], ◌∷◌, ◌++◌,
  map, filter, any, find?, if◌then◌else◌, ◌==◌, nat_eq, string_eq,
}

pub record Duration : Type 0 where
  pub value : ℕ
  pub unit : String

-- `Math.round(n / 60)` is the floor of `n / 60 + 1 / 2`.
unfoldable pub seconds_to_value_and_unit : ℕ → Duration
seconds_to_value_and_unit s =
    if s % 86400 == 0
    then record { value = s / 86400; unit = "d" }
    else if s % 3600 == 0
    then record { value = s / 3600; unit = "h" }
    else record { value = (s + 30) / 60; unit = "m" }

abbrev unit_seconds : String → ℕ
unit_seconds unit =
    if unit == "m" then 60 else if unit == "h" then 3600 else if unit == "d" then 86400 else 1

unfoldable pub value_and_unit_to_seconds : Duration → ℕ
value_and_unit_to_seconds d = d.value * unit_seconds d.unit

-- `localStorage`, whose calls throw where it is not available.
pub record Storage : Type 0 where
  pub available : Bool
  pub items : String → Option String

abbrev of_item : Bool → Option String → Bool
of_item default none = default
of_item default (some v) =
    if v == "true" then true else if v == "false" then false else not (v == "")

unfoldable pub is_feature_enabled : String → Bool → Storage → Bool
is_feature_enabled key default s = if s.available then of_item default (s.items key) else default

abbrev bool_text : Bool → String
bool_text b = if b then "true" else "false"

unfoldable pub set_feature_enabled : String → Bool → Storage → Storage
set_feature_enabled key enabled s =
    if s.available
    then record s { items = λ k. if k == key then some (bool_text enabled) else s.items k }
    else s

-- The storage afterwards, and the new state that is returned.
unfoldable pub toggle_feature : String → Storage → Storage × Bool
unfolding is_feature_enabled set_feature_enabled
toggle_feature key s =
    let enabled = not (is_feature_enabled key false s) in
    (set_feature_enabled key enabled s, enabled)

abbrev offline_mode : String
offline_mode = "experimental_feature_offline_mode"

-- The only feature of `FEATURES`.
unfoldable pub clear_all_features : Storage → Storage
clear_all_features s =
    if s.available
    then record s { items = λ k. if k == offline_mode then none else s.items k }
    else s

-- An entry of the side panel; its other texts follow from the id.
pub record Entry : Type 0 where
  pub id : String
  pub enabled : Bool
  pub order : ℕ

abbrev pub default_sidepanel_config : List Entry
default_sidepanel_config =
    record { id = "welcome"; enabled = true; order = 0 }
    ∷ record { id = "smartInsights"; enabled = false; order = 1 }
    ∷ record { id = "assignees"; enabled = true; order = 2 }
    ∷ record { id = "calendar"; enabled = true; order = 3 }
    ∷ record { id = "activities"; enabled = true; order = 4 }
    ∷ record { id = "weeklyGoals"; enabled = true; order = 5 }
    ∷ []

-- What is stored: nothing, a text that is no JSON, or an array.
pub data Saved : Type 0 where
  nothing unreadable : Saved
  entries : List Entry → Saved

abbrev pub entry : String → List Entry → Option Entry
entry id es = find? (λ (e : Entry). e.id == id) es

abbrev saved_or : Entry → Option Entry → Entry
saved_or e none = e
saved_or e (some saved) = saved

abbrev pub is_in : List Entry → String → Bool
is_in es id = any (λ (e : Entry). e.id == id) es

merge : List Entry → List Entry → List Entry
merge defaults saved =
    map (λ (e : Entry). saved_or e (entry e.id saved)) defaults
    ++ filter (λ (e : Entry). not (is_in defaults e.id)) saved

unfoldable pub get_sidepanel_config : Saved → List Entry
unfolding merge
get_sidepanel_config nothing = merge default_sidepanel_config []
get_sidepanel_config unreadable = default_sidepanel_config
get_sidepanel_config (entries saved) = merge default_sidepanel_config saved

unfoldable pub save_sidepanel_config : List Entry → Saved
save_sidepanel_config es = entries es

unfoldable pub reset_sidepanel_config : Saved
reset_sidepanel_config = entries default_sidepanel_config
