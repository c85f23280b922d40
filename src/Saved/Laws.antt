-- ===== src/Saved/Laws.antt =====
-- The counts beside the saved filters, and which filter is in force.
use gsd.Prelude.{
  ℕ, ◌≡◌, refl, ◌∙◌, Bool, true, false, inl, inr, Option, none, some, List, [], ◌∷◌, find?, filter,
  length, All, Bool-cases, arith,
}
use gsd.Js.{Scalar, truthy, scalar_eq}
use gsd.Js.Calls.{Call, returns, throws, ◌>>=◌, map_call}
use gsd.Dates.{Host}
use gsd.Chores.{Chore}
use gsd.Filter.{Context, Filter}
use gsd.Filter.Apply.{apply_filter, get_filter_count, get_filter_overdue_count, is_overdue}
use gsd.Filter.Validate.{Validation, validate_filter}
use gsd.Saved.{
  SavedFilter, Counted, Choice, apply_custom_filter, clear_active_filter, apply_temp_filter,
  clear_temp_filter, delete_filter, with_counts, all_with_counts, filters_with_counts,
  active_filter, filtered_chores, apply_choice, count_if,
}

module _ {ℓ} {A : Type ℓ} where
  All-find? {κ} :
      (P : A → Type κ) (p : A → Bool) (xs : List A) (x : A) → All P xs → find? p xs ≡ some x → P x
  All-find? P p [] x h e = cc e
  All-find? P p (y ∷ ys) x (h, hs) e = elim (Bool-cases (p y)) [
    | inl t ↦
        let found : some y ≡ some x = rw t at e in let same : y ≡ x = cc found in rw (← same) h
    | inr t ↦ All-find? P p ys x hs (rw t at e)
  ]

bind_returns {ℓ κ} :
    {A : Type ℓ} {B : Type κ} (m : Call A) (f : A → Call B) {b : B}
    → (m >>= f) ≡ returns b
    → (a : A) × (m ≡ returns a) × (f a ≡ returns b)
bind_returns (returns a) f h = (a, refl, h)
bind_returns throws f h = cc h

counts_of :
    (f : SavedFilter) (v : Validation) (n m : Call ℕ) (c : Counted)
    → (do
      count ← count_if v.is_valid n
      overdue ← count_if v.is_valid m
      returns (record {
        saved = f;
        count = count;
        overdue_count = overdue;
        is_valid = v.is_valid;
        issues = v.issues;
      }))
      ≡ returns c
    → c.is_valid ≡ true
    → (c.saved ≡ f) × (n ≡ returns c.count) × (m ≡ returns c.overdue_count)
counts_of f v n m c h valid = elim (Bool-cases v.is_valid) [
  | inl e ↦ valid_counts n m (rw e at h)
  | inr e ↦
      let made : returns (record {
        saved = f;
        count = 0;
        overdue_count = 0;
        is_valid = false;
        issues = v.issues;
      })
          ≡ returns c =
        rw e at h in
      cc (made, valid)
]
  where
    valid_counts :
        (n m : Call ℕ)
        → (do
          count ← n
          overdue ← m
          returns (record {
            saved = f;
            count = count;
            overdue_count = overdue;
            is_valid = true;
            issues = v.issues;
          }))
          ≡ returns c
        → (c.saved ≡ f) × (n ≡ returns c.count) × (m ≡ returns c.overdue_count)
    valid_counts (returns a) (returns b) h = (cc h, cc h, cc h)
    valid_counts (returns a) throws h = cc h
    valid_counts throws m h = cc h

module _ (host : Host) (context : Context) (cs : List Chore) where
  abbrev IsCounted : Counted → Type 0
  IsCounted f =
      f.is_valid ≡ true
      → (get_filter_count host context cs (some f.saved.filter) ≡ returns f.count)
        × (get_filter_overdue_count host context cs (some f.saved.filter) ≡ returns f.overdue_count)

  with_counts-IsCounted :
      (f : SavedFilter) (c : Counted) → with_counts host context cs f ≡ returns c → IsCounted c
  unfolding with_counts
  with_counts-IsCounted f c h v =
      let (same, a, b) =
        counts_of f (validate_filter context f.filter)
          (get_filter_count host context cs (some f.filter))
          (get_filter_overdue_count host context cs (some f.filter)) c h v in
      rw same (a, b)

  all_with_counts-IsCounted :
      (fs : List SavedFilter) (counted : List Counted)
      → all_with_counts host context cs fs ≡ returns counted
      → All IsCounted counted
  unfolding all_with_counts
  all_with_counts-IsCounted [] counted h = let same : [] ≡ counted = cc h in rw (← same) tt
  all_with_counts-IsCounted (f ∷ fs) counted h =
      let (c, ec, hc) = bind_returns _ _ h in
      let (rest, er, hr) = bind_returns _ _ hc in
      let same : c ∷ rest ≡ counted = cc hr in
      rw (← same) (with_counts-IsCounted f c ec, all_with_counts-IsCounted fs rest er)

  map_call-returns :
      (m : Call (List Chore)) (g h : List Chore → ℕ) (a b : ℕ)
      → map_call g m ≡ returns a
      → map_call h m ≡ returns b
      → (xs : List Chore) × (m ≡ returns xs) × (a ≡ g xs) × (b ≡ h xs)
  map_call-returns (returns xs) g h a b p q = (xs, refl, cc p, cc q)
  map_call-returns throws g h a b p q = cc p

  apply_counted :
      (counted : List Counted) (f : Counted) (s : Choice)
      → All IsCounted counted
      → active_filter host context counted s ≡ some f
      → IsCounted f
  unfolding active_filter
  apply_counted counted f s all e = elim (Bool-cases (truthy s.active_filter_id)) [
    | inl t ↦ All-find? IsCounted _ counted f all (rw t at e)
    | inr t ↦ let none_some : none ≡ some f = rw t at e in cc none_some
  ]

  shows :
      (t : Option Filter) (a : Option Counted) (f : Counted)
      → t ≡ none
      → a ≡ some f
      → f.is_valid ≡ true
      → apply_choice host context cs t a ≡ apply_filter host context cs (some f.saved.filter)
  shows t a f p q v = rw (p, q, v) refl

  -- Where a saved filter that is valid is active, no temporary one is set, and the counts of all filters return,
  -- the tasks that the hook selects, before the page narrows them by assignee and hides those that cannot be
  -- started yet, are as many as the count beside the filter, and as many of them are overdue as its
  -- overdue count.
  pub filtered_chores-count :
      (fs : List SavedFilter) (s : Choice) (counted : List Counted) (f : Counted)
      → s.temp_filter ≡ none
      → filters_with_counts host context (some cs) fs ≡ returns counted
      → active_filter host context counted s ≡ some f
      → f.is_valid ≡ true
      → (xs : List Chore) × (filtered_chores host context cs fs s ≡ returns xs)
        × (f.count ≡ length xs)
        × (f.overdue_count ≡ length (filter (is_overdue host context) xs))
  unfolding filters_with_counts filtered_chores get_filter_count get_filter_overdue_count
  filtered_chores-count fs s counted f temp made active valid =
      let (n, m) =
        apply_counted counted f s (all_with_counts-IsCounted fs counted made) active valid in
      let (xs, e, a, b) = map_call-returns _ _ _ _ _ n m in
      (xs, rw made (shows s.temp_filter _ f temp active valid ∙ e), a, b)

pub data Operation : Type 0 where
  custom : Scalar → Operation
  clear_active clear_temp : Operation
  temporary : Filter → Scalar → Operation
  delete : Scalar → Operation

abbrev pub step : Operation → Choice → Choice
step (custom id) s = apply_custom_filter id s
step clear_active s = clear_active_filter s
step clear_temp s = clear_temp_filter s
step (temporary f meta) s = apply_temp_filter f meta s
step (delete id) s = delete_filter id s

pub run : List Operation → Choice → Choice
run [] s = s
run (o ∷ os) s = run os (step o s)

-- A saved filter is chosen or deleted.
abbrev IsOfSaved : Operation → Type 0
IsOfSaved (custom _) = Unit
IsOfSaved (delete _) = Unit
IsOfSaved _ = ⊥

module _ (host : Host) (context : Context) where
  temp-run :
      (os : List Operation) (s : Choice) → All IsOfSaved os → (run os s).temp_filter ≡ s.temp_filter
  unfolding run apply_custom_filter delete_filter
  temp-run [] s h = refl
  temp-run (custom id ∷ os) s (_, h) = temp-run os (apply_custom_filter id s) h
  temp-run (delete id ∷ os) s (_, h) = temp-run os (delete_filter id s) h ∙ ground arith
  temp-run (clear_active ∷ os) s (h, _) = absurd h
  temp-run (clear_temp ∷ os) s (h, _) = absurd h
  temp-run (temporary f meta ∷ os) s (h, _) = absurd h

  -- As long as a temporary filter is not cleared or replaced, it alone selects the tasks that are shown:
  -- the choice of a saved filter, also a later one, changes nothing.
  pub filtered_chores-temporary :
      (cs : List Chore) (fs : List SavedFilter) (counted : List Counted) (f : Filter)
      (meta : Scalar) (s : Choice) (os : List Operation)
      → filters_with_counts host context (some cs) fs ≡ returns counted
      → All IsOfSaved os
      → filtered_chores host context cs fs (run os (apply_temp_filter f meta s))
        ≡ apply_filter host context cs (some f)
  unfolding filtered_chores apply_temp_filter
  filtered_chores-temporary cs fs counted f meta s os made h =
      rw (made, temp-run os (apply_temp_filter f meta s) h) refl
