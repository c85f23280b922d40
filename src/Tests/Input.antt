-- ===== src/Tests/Input.antt =====
-- The input of a task, the names of users and the settings at concrete values.
use gsd.Prelude.{ℕ, ◌≤◌, ◌≡◌, ◌⊎◌, List, [], ◌∷◌, arith, true, false}
use gsd.TaskInput.{Text, units, to_lower_case, parse_priority, Mark, render_highlighted_sentence}
use gsd.TaskInput.Priority.{Found, FirstAt, parse_priority_lem}
use gsd.TaskInput.Rendering.{text, render_highlighted_sentence-text}
use gsd.Settings.{Entry}

abbrev sentence : Text
sentence = units "Call Ann asap"

parse_priority_lem_example :
    ((p : ℕ) × (1 ≤ p) × (p ≤ 4) × Found (to_lower_case sentence) p (parse_priority sentence))
    ⊎ ((parse_priority sentence ≡ record { result = 0; highlight = []; cleaned = sentence })
        × FirstAt 5 (to_lower_case sentence))
parse_priority_lem_example = parse_priority_lem sentence

-- The last two overlap.
abbrev marks : List Mark
marks =
    record { type = "priority"; rank = 50; start = 9; end = 13 }
    ∷ record { type = "label"; rank = 30; start = 5; end = 8 }
    ∷ record { type = "dueDate"; rank = 20; start = 10; end = 12 }
    ∷ []

render_highlighted_sentence-text_example :
    text (render_highlighted_sentence sentence marks) ≡ sentence
render_highlighted_sentence-text_example =
    render_highlighted_sentence-text sentence marks
      ((omega arith, omega arith), ((omega arith, omega arith), ((omega arith, omega arith), tt)))

-- The calendar was turned off, and an entry is no longer known.
abbrev saved : List Entry
saved =
    record { id = "weather"; enabled = true; order = 0 }
    ∷ record { id = "calendar"; enabled = false; order = 1 }
    ∷ []
