-- ===== src/Tests/Selection.antt =====
-- The selection of several tasks at concrete tasks and sections.
use gsd.Prelude.{nat_eq, ℕ, Bool, true, Option, none, some, List, [], ◌∷◌, ◌==◌}
use gsd.Js.{num, scalar_eq}
use gsd.Chores.{Chore}
use gsd.Selection.{Selection}
use gsd.Tests.{dishes, weeding}

abbrev first : Selection
first = record { mode = true; selected = num 1 ∷ num 4 ∷ [] }

abbrev sections : List (Option (List Chore))
sections = some (dishes ∷ []) ∷ none ∷ some (weeding ∷ []) ∷ []

-- Only the first section is open.
abbrev is_open : ℕ → Bool
is_open n = n == 0
