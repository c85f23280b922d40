-- ===== src/Js/Fields.antt =====
-- Objects with named fields, as the client spreads and overrides them. Nested values are left out.
use gsd.Prelude.{◌≡◌, refl, String, List, [], ◌∷◌, if◌then◌else◌, ◌==◌, string_eq, arith}
use text.Mathlib.TextEquality.{eq_iff}
use gsd.Js.{Scalar, undefined}

abbrev pub Fields : Type 0
Fields = List (String × Scalar)

-- `o.k`
unfoldable pub field : String → Fields → Scalar
field k [] = undefined
field k ((j, v) ∷ o) = if j == k then v else field k o

unfoldable pub set_field : String → Scalar → Fields → Fields
set_field k v [] = (k, v) ∷ []
set_field k v ((j, w) ∷ o) = if j == k then (k, v) ∷ o else (j, w) ∷ set_field k v o

-- `{ ...a, ...b }`
unfoldable pub spread : Fields → Fields → Fields
unfolding set_field
spread a [] = a
spread a ((k, v) ∷ b) = spread (set_field k v a) b

pub field-set_field :
    (j k : String) (v : Scalar) (o : Fields)
    → field j (set_field k v o) ≡ (if k == j then v else field j o)
unfolding field set_field
field-set_field j k v [] = refl
field-set_field j k v ((i, w) ∷ o) =
    ground (arith, eq_iff k j, eq_iff i k, eq_iff i j, field-set_field j k v o)
