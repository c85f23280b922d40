-- ===== src/Js/Tests.antt =====
-- Conversions at concrete values.
use gsd.Prelude.{◌≡◌, refl, some, none, [], ◌∷◌}
use gsd.Js.{num, str, null, many, to_text, to_number, value_number, value_text}

texts : (to_text (num 1024) ≡ "1024") × (value_text (many (num 1 ∷ null ∷ str "x" ∷ [])) ≡ "1,,x")
unfolding to_text value_text
texts = (refl, refl)

numbers :
    (to_number (str " 42 ") ≡ some 42)
    × (to_number (str "") ≡ some 0)
    × (to_number (str "4a") ≡ none)
    × (value_number (many (str "7" ∷ [])) ≡ some 7)
    × (value_number (many (num 7 ∷ num 8 ∷ [])) ≡ none)
unfolding to_number value_number
numbers = (refl, refl, refl, refl, refl)
