-- ===== src/Settings/Laws.antt =====
-- The settings: what a round trip keeps, and what the merging of the side panel keeps.
use gsd.Prelude.{
  ℕ, ◌+◌, ◌%◌, ◌≤◌, ◌≡◌, refl, ◌∙◌, ap, Bool, true, false, not, inl, inr, String, Option, none,
  some, List, [], ◌∷◌, ◌++◌, map, filter, if◌then◌else◌, ◌==◌, nat_eq, string_eq, arith, Bool-cases,
  beq_self,
}
use text.Mathlib.TextEquality.{eq_iff}
use gsd.Settings.{
  seconds_to_value_and_unit, value_and_unit_to_seconds, Storage, is_feature_enabled, toggle_feature,
  Entry, default_sidepanel_config, entries, entry, is_in, saved_or, merge, get_sidepanel_config,
  of_item, bool_text,
}

-- A duration of whole minutes is read back as it was; any other one within half a minute.
pub value_and_unit_to_seconds-seconds_to_value_and_unit :
    (s : ℕ)
    → (let t = value_and_unit_to_seconds (seconds_to_value_and_unit s) in
        (s % 60 ≡ 0 → t ≡ s) × (t ≤ s + 30) × (s ≤ t + 30))
unfolding value_and_unit_to_seconds seconds_to_value_and_unit
value_and_unit_to_seconds-seconds_to_value_and_unit s = elim (Bool-cases (s % 86400 == 0)) [
  | inl d ↦ rw d (ground arith)
  | inr d ↦ elim (Bool-cases (s % 3600 == 0)) [
    | inl h ↦ rw (d, h) (ground arith)
    | inr h ↦ rw (d, h) (omega arith)
  ]
]

-- Where the storage is available, toggling a feature turns it over and answers its new state, and leaves
-- the other features as they are.
pub toggle_feature_lem :
    (key other : String) (default : Bool) (s : Storage)
    → s.available ≡ true
    → (let after = toggle_feature key s in
        (after.1 ≡ not (is_feature_enabled key false s))
        × (is_feature_enabled key default after.0 ≡ after.1)
        × (other == key ≡ false
            → is_feature_enabled other default after.0 ≡ is_feature_enabled other default s))
unfolding toggle_feature is_feature_enabled
toggle_feature_lem key other default s h = (
  refl,
  rw (h, beq_self key) (read_back (not (of_item false (s.items key)))),
  λ k. rw (h, k) refl,
)
  where
    read_back : (b : Bool) → of_item default (some (bool_text b)) ≡ b
    read_back true = refl
    read_back false = refl

abbrev pub ids : List Entry → List String
ids es = map (λ (e : Entry). e.id) es

entry-id : (id : String) (es : List Entry) (e : Entry) → entry id es ≡ some e → e.id ≡ id
entry-id id [] e h = cc h
entry-id id (x ∷ es) e h = elim (Bool-cases (x.id == id)) [
  | inl k ↦
      let found : some x ≡ some e = rw k at h in
      let same : x ≡ e = cc found in rw (← same) ((eq_iff x.id id).0 k)
  | inr k ↦ entry-id id es e (rw k at h)
]

saved_or-id :
    (e : Entry) (o : Option Entry)
    → ((s : Entry) → o ≡ some s → s.id ≡ e.id)
    → (saved_or e o).id ≡ e.id
saved_or-id e none h = refl
saved_or-id e (some s) h = h s refl

merged_id : (e : Entry) (saved : List Entry) → (saved_or e (entry e.id saved)).id ≡ e.id
merged_id e saved = saved_or-id e (entry e.id saved) (entry-id e.id saved)

ids-append : (xs ys : List Entry) → ids (xs ++ ys) ≡ ids xs ++ ids ys
ids-append [] ys = refl
ids-append (x ∷ xs) ys = rw (ids-append xs ys) refl

ids-merged :
    (saved ds : List Entry) → ids (map (λ (e : Entry). saved_or e (entry e.id saved)) ds) ≡ ids ds
ids-merged saved [] = refl
ids-merged saved (d ∷ ds) = rw (merged_id d saved, ids-merged saved ds) refl

entry-append :
    (id : String) (xs ys : List Entry)
    → entry id (xs ++ ys) ≡ elim (entry id xs) [ none ↦ entry id ys | some e ↦ some e ]
entry-append id [] ys = refl
entry-append id (x ∷ xs) ys = elim (Bool-cases (x.id == id)) [
  | inl e ↦ rw e refl
  | inr e ↦ rw e (entry-append id xs ys)
]

abbrev pub or_entry : Option Entry → Option Entry → Option Entry
or_entry none b = b
or_entry (some e) b = some e

-- Under a default id.
entry-merged :
    (id : String) (saved ds : List Entry)
    → entry id (map (λ (e : Entry). saved_or e (entry e.id saved)) ds)
      ≡ (if is_in ds id then or_entry (entry id saved) (entry id ds) else none)
entry-merged id saved [] = refl
entry-merged id saved (d ∷ ds) = elim (Bool-cases (d.id == id)) [
  | inl e ↦
      let same : d.id ≡ id = (eq_iff d.id id).0 e in
      rw (merged_id d saved, e)
        (ap (λ k. some (saved_or d (entry k saved))) same ∙ found (entry id saved))
  | inr e ↦ rw (merged_id d saved, e) (entry-merged id saved ds)
]
  where
    found : (o : Option Entry) → some (saved_or d o) ≡ or_entry o (some d)
    found none = refl
    found (some s) = refl

-- Under any other id.
entry-others :
    (id : String) (ds saved : List Entry)
    → is_in ds id ≡ false
    → entry id (filter (λ (e : Entry). not (is_in ds e.id)) saved) ≡ entry id saved
entry-others id ds [] h = refl
entry-others id ds (x ∷ saved) h = elim (Bool-cases (x.id == id)) [
  | inl e ↦
      let same : x.id ≡ id = (eq_iff x.id id).0 e in
      let absent : is_in ds x.id ≡ false = rw same h in rw (absent, e) refl
  | inr e ↦ elim (Bool-cases (is_in ds x.id)) [
    | inl k ↦ rw (k, e) (entry-others id ds saved h)
    | inr k ↦ rw (k, e) (entry-others id ds saved h)
  ]
]

is_in-entry : (id : String) (ds : List Entry) → is_in ds id ≡ false → entry id ds ≡ none
is_in-entry id [] h = refl
is_in-entry id (d ∷ ds) h = elim (Bool-cases (d.id == id)) [
  | inl e ↦ let bad : true ≡ false = rw e at h in cc bad
  | inr e ↦ rw e (is_in-entry id ds (rw e at h))
]

in-entry :
    (id : String) (ds : List Entry) → is_in ds id ≡ true → (e : Entry) × (entry id ds ≡ some e)
in-entry id [] h = cc h
in-entry id (d ∷ ds) h = elim (Bool-cases (d.id == id)) [
  | inl e ↦ (d, rw e refl)
  | inr e ↦ let (x, k) = in-entry id ds (rw e at h) in (x, rw e k)
]

first_of :
    (a : Option Entry) (e : Entry) (rest : Option Entry)
    → elim (or_entry a (some e)) [ none ↦ rest | some x ↦ some x ] ≡ or_entry a (some e)
first_of none e rest = refl
first_of (some x) e rest = refl

or_entry-none : (a : Option Entry) → a ≡ or_entry a none
or_entry-none none = refl
or_entry-none (some x) = refl

entry-merge :
    (id : String) (saved ds : List Entry)
    → entry id (merge ds saved) ≡ or_entry (entry id saved) (entry id ds)
unfolding merge
entry-merge id saved ds =
    entry-append id (map (λ (e : Entry). saved_or e (entry e.id saved)) ds)
      (filter (λ (e : Entry). not (is_in ds e.id)) saved)
    ∙ elim (Bool-cases (is_in ds id)) [
      | inl h ↦
          let (e, k) = in-entry id ds h in
          rw (entry-merged id saved ds, h, k) (first_of (entry id saved) e _)
      | inr h ↦
          rw (entry-merged id saved ds, h, is_in-entry id ds h, entry-others id ds saved h)
            (or_entry-none (entry id saved))
    ]

ids-merge :
    (saved ds : List Entry)
    → ids (merge ds saved) ≡ ids ds ++ ids (filter (λ (e : Entry). not (is_in ds e.id)) saved)
unfolding merge
ids-merge saved ds =
    ids-append (map (λ (e : Entry). saved_or e (entry e.id saved)) ds)
      (filter (λ (e : Entry). not (is_in ds e.id)) saved)
    ∙ rw (ids-merged saved ds) refl

-- The merged list of the side panel holds the default entries in their order, then the saved entries
-- that are no longer default ones, in theirs; under each id stands the first saved entry, or else the
-- default one.
pub get_sidepanel_config_lem :
    (saved : List Entry)
    → (ids (get_sidepanel_config (entries saved))
        ≡ ids default_sidepanel_config
          ++ ids (filter (λ (e : Entry). not (is_in default_sidepanel_config e.id)) saved))
      × ((id : String)
          → entry id (get_sidepanel_config (entries saved))
            ≡ or_entry (entry id saved) (entry id default_sidepanel_config))
unfolding get_sidepanel_config
get_sidepanel_config_lem saved =
    (ids-merge saved default_sidepanel_config, λ id. entry-merge id saved default_sidepanel_config)
