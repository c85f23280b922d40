-- ===== src/Saved/Queries.antt =====
-- The cached lists of saved filters of ui/src/views/Filters/FilterQueries.js, when a mutation has
-- settled. An answer `{ res }`, or without `res` its whole body, is the saved filter.
pub mod Laws
use gsd.Prelude.{
  ℕ, ◌+◌, Bool, true, false, not, Option, none, some, List, [], ◌∷◌, ◌++◌, map, filter,
  if◌then◌else◌, ◌==◌,
}
use gsd.Js.{Scalar, scalar_eq}
use gsd.Saved.{SavedFilter}

-- The data under `['filters']` and `['filters', id]`, and how often the queries were invalidated.
pub record Cache : Type 0 where
  pub filters : Option (List SavedFilter)
  pub single : Scalar → Option SavedFilter
  pub invalidated : ℕ

-- A mutation that settled: with the filter that the server answered, or with an error.
pub data Settled : Type 0 where
  created updated toggled : SavedFilter → Settled
  deleted : Scalar → Settled
  failed : Settled

abbrev pub replaced : SavedFilter → List SavedFilter → List SavedFilter
replaced f fs = map (λ (g : SavedFilter). if g.id == f.id then f else g) fs

abbrev pub removed : Scalar → List SavedFilter → List SavedFilter
removed id fs = filter (λ (g : SavedFilter). not (g.id == id)) fs

abbrev or_new : SavedFilter → Option (List SavedFilter) → List SavedFilter
or_new f none = f ∷ []
or_new f (some fs) = replaced f fs

abbrev appended : SavedFilter → Option (List SavedFilter) → List SavedFilter
appended f none = f ∷ []
appended f (some fs) = fs ++ f ∷ []

abbrev or_removed : Scalar → Option (List SavedFilter) → List SavedFilter
or_removed id none = []
or_removed id (some fs) = removed id fs

-- `setQueryData(['filters', f.id], f)`
abbrev with_single : SavedFilter → (Scalar → Option SavedFilter) → Scalar → Option SavedFilter
with_single f single id = if id == f.id then some f else single id

-- The handlers `onSuccess` and `onError`.
unfoldable pub settle : Settled → Cache → Cache
settle (created f) c = record c {
  filters = some (appended f c.filters);
  invalidated = c.invalidated + 1;
}
settle (updated f) c = record {
  filters = some (or_new f c.filters);
  single = with_single f c.single;
  invalidated = c.invalidated + 1;
}
settle (deleted id) c = record c {
  filters = some (or_removed id c.filters);
  invalidated = c.invalidated + 1;
}
settle (toggled f) c = record {
  filters = some (or_new f c.filters);
  single = with_single f c.single;
  invalidated = c.invalidated + 2;
}
settle failed c = c

unfoldable pub settle_all : List Settled → Cache → Cache
settle_all [] c = c
settle_all (s ∷ ss) c = settle_all ss (settle s c)
