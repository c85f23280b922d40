-- ===== src/Saved/Queries/Laws.antt =====
-- The cached list of saved filters against a table of filters by id.
use gsd.Prelude.{
  ◌≡◌, refl, ◌∙◌, inl, inr, false, Option, none, some, List, [], ◌∷◌, ◌++◌, map, find?,
  if◌then◌else◌, ◌==◌, arith, Bool-cases,
}
use gsd.Js.{Scalar, scalar_eq, same_iff}
use gsd.Saved.{SavedFilter}
use gsd.Saved.Queries.{Cache, Settled, settle, settle_all, replaced, removed}
use gsd.Saved.Queries.Settled.{created, updated, toggled, deleted, failed}

-- The abstract view: the filter of each id.
abbrev pub Table : Type 0
Table = Scalar → Option SavedFilter

abbrev pub view : List SavedFilter → Table
view fs id = find? (λ (f : SavedFilter). f.id == id) fs

abbrev ids : List SavedFilter → List Scalar
ids fs = map (λ (f : SavedFilter). f.id) fs

abbrev stored : SavedFilter → Option SavedFilter → Option SavedFilter
stored f none = none
stored f (some _) = some f

-- What each mutation means for the table.
abbrev pub means : Settled → Table → Table
means (created f) t id = if f.id == id then some f else t id
means (updated f) t id = if f.id == id then stored f (t id) else t id
means (toggled f) t id = if f.id == id then stored f (t id) else t id
means (deleted d) t id = if d == id then none else t id
means failed t id = t id

abbrev pub mean_all : List Settled → Table → Table
mean_all [] t = t
mean_all (s ∷ ss) t = mean_all ss (means s t)

-- A created filter has an id that is new.
abbrev pub IsFresh : Settled → Table → Type 0
IsFresh (created f) t = t f.id ≡ none
IsFresh _ t = Unit

abbrev pub AreFresh : List Settled → Table → Type 0
AreFresh [] t = Unit
AreFresh (s ∷ ss) t = IsFresh s t × AreFresh ss (means s t)

view-append :
    (f : SavedFilter) (fs : List SavedFilter) (id : Scalar)
    → view fs f.id ≡ none
    → view (fs ++ f ∷ []) id ≡ (if f.id == id then some f else view fs id)
view-append f [] id h = refl
view-append f (g ∷ fs) id h = elim (Bool-cases (g.id == f.id)) [
  | inl e ↦ let bad : some g ≡ none = rw e at h in cc bad
  | inr e ↦ elim (Bool-cases (g.id == id)) [
    | inl k ↦
        let same : g.id ≡ id = (same_iff g.id id).0 k in
        let other : (f.id == id) ≡ false = ground (arith, same_iff f.id id, same_iff g.id f.id) in
        rw (k, other) refl
    | inr k ↦ rw (k, view-append f fs id (rw e at h)) refl
  ]
]

view-replaced :
    (f : SavedFilter) (fs : List SavedFilter) (id : Scalar)
    → view (replaced f fs) id ≡ (if f.id == id then stored f (view fs id) else view fs id)
view-replaced f [] id = ground arith
view-replaced f (g ∷ fs) id =
    ground (arith, same_iff g.id f.id, same_iff f.id id, same_iff g.id id, view-replaced f fs id)

view-removed :
    (d : Scalar) (fs : List SavedFilter) (id : Scalar)
    → view (removed d fs) id ≡ (if d == id then none else view fs id)
view-removed d [] id = ground arith
view-removed d (g ∷ fs) id =
    ground (arith, same_iff g.id d, same_iff d id, same_iff g.id id, view-removed d fs id)

-- The cache shows the table.
abbrev pub Shows : Cache → Table → Type 0
Shows c t = (fs : List SavedFilter) × (c.filters ≡ some fs) × ((id : Scalar) → view fs id ≡ t id)

settle-Shows :
    (s : Settled) (c : Cache) (t : Table) → IsFresh s t → Shows c t → Shows (settle s c) (means s t)
unfolding settle
settle-Shows (created f) c t new (fs, e, h) =
    (fs ++ f ∷ [], rw e refl, λ id. view-append f fs id (h f.id ∙ new) ∙ rw (h id) refl)
settle-Shows (updated f) c t new (fs, e, h) =
    (replaced f fs, rw e refl, λ id. view-replaced f fs id ∙ rw (h id) refl)
settle-Shows (toggled f) c t new (fs, e, h) =
    (replaced f fs, rw e refl, λ id. view-replaced f fs id ∙ rw (h id) refl)
settle-Shows (deleted d) c t new (fs, e, h) =
    (removed d fs, rw e refl, λ id. view-removed d fs id ∙ rw (h id) refl)
settle-Shows failed c t new (fs, e, h) = (fs, e, h)

-- Refinement: after any mutations, of which the created filters have new ids, the cached list shows
-- under each id what the mutations mean for a table of filters by id: a created filter is added, an
-- updated or pinned one replaces the one that is there, a deleted one is gone, and an error changes
-- nothing.
pub settle_all-Shows :
    (ss : List Settled) (c : Cache) (t : Table)
    → AreFresh ss t
    → Shows c t
    → Shows (settle_all ss c) (mean_all ss t)
unfolding settle_all
settle_all-Shows [] c t new h = h
settle_all-Shows (s ∷ ss) c t (new, news) h =
    settle_all-Shows ss (settle s c) (means s t) news (settle-Shows s c t new h)
