-- ===== src/Selection/All.antt =====
-- The selection of all visible tasks, and the tasks of the selection.
use gsd.Prelude.{
  ℕ, suc, ◌≡◌, ◌≢◌, refl, ap, ◌∙◌, Bool, true, false, ◌&&◌, ◌||◌, Option, none, some, List, [], ◌∷◌,
  ◌++◌, map, filter, all, find?, if◌then◌else◌, ◌==◌, arith, Bool-cases, inl, inr, beq_self,
}
use gsd.Prelude.Partition.{contains}
use gsd.Js.{Scalar, scalar_eq, same_iff}
use gsd.Chores.{Chore}
use gsd.Selection.{
  Selection, set_of, expanded, expanded_from, contents_of, or_empty, is_selected, is_nonempty,
  to_select, select_all_visible_chores, chosen, get_selected_chores_data,
}
use gsd.Selection.Laws.{contains-add_all}

-- the ids of tasks
abbrev pub ids : List Chore → List Scalar
ids = map (λ c. c.id)

selects :
    (visible : Option (List Chore)) (sections : List (Option (List Chore))) (o : ℕ → Bool)
    (s : Selection) (y : Scalar)
    → to_select s.selected visible sections o ≢ []
    → contains (select_all_visible_chores visible sections o s).0.selected y
      ≡ contains (ids (to_select s.selected visible sections o)) y
unfolding select_all_visible_chores set_of
selects visible sections o s y n = picked (to_select s.selected visible sections o) n
  where
    picked :
        (cs : List Chore)
        → cs ≢ []
        → contains
            (if is_nonempty cs then record s { selected = set_of (ids cs) } else s).selected
            y
          ≡ contains (ids cs) y
    picked [] n = absurd (n refl)
    picked (c ∷ cs) n = contains-add_all [] (ids (c ∷ cs)) y

contains-ids-append :
    (cs ds : List Chore) (y : Scalar)
    → contains (ids (cs ++ ds)) y ≡ (contains (ids cs) y || contains (ids ds) y)
contains-ids-append [] ds y = refl
contains-ids-append (c ∷ cs) ds y = ground (arith, contains-ids-append cs ds y)

expanded-contents :
    (n : ℕ) (sections : List (Option (List Chore))) (o : ℕ → Bool) (y : Scalar)
    → contains (ids (expanded_from n sections o)) y ≡ true
    → contains (ids (contents_of sections)) y ≡ true
unfolding expanded_from
expanded-contents n [] o y h = h
expanded-contents n (s ∷ sections) o y h =
    contains-ids-append (or_empty s) (contents_of sections) y ∙ elim (Bool-cases (o n)) [
      | inl e ↦
          let h' : contains (ids (or_empty s ++ expanded_from (suc n) sections o)) y ≡ true =
            rw e at h in
          ground (
            arith,
            contains-ids-append (or_empty s) (expanded_from (suc n) sections o) y,
            expanded-contents (suc n) sections o y,
          )
      | inr e ↦
          let h' : contains (ids (expanded_from (suc n) sections o)) y ≡ true = rw e at h in
          ground (arith, expanded-contents (suc n) sections o y h')
    ]

all-selected :
    (selected : List Scalar) (cs : List Chore)
    → ((y : Scalar) → contains (ids cs) y ≡ true → contains selected y ≡ true)
    → all (is_selected selected) cs ≡ true
all-selected selected [] h = refl
all-selected selected (c ∷ cs) h =
    rw (h c.id (rw (beq_self c.id) refl), all-selected selected cs (λ y k. h y (ground arith))) refl

inhabited :
    (cs : List Chore)
    → cs ≢ []
    → (is_nonempty cs ≡ true) × (y : Scalar) × (contains (ids cs) y ≡ true)
inhabited [] n = absurd (n refl)
inhabited (c ∷ cs) n = (refl, c.id, rw (beq_self c.id) refl)

nonempty_of : (cs : List Chore) (y : Scalar) → contains (ids cs) y ≡ true → cs ≢ []
nonempty_of [] y h e = cc h
nonempty_of (c ∷ cs) y h e = cc e

-- What a call selects without visible tasks covers the open sections.
to_select-expanded :
    (selected : List Scalar) (sections : List (Option (List Chore))) (o : ℕ → Bool) (y : Scalar)
    → contains (ids (expanded sections o)) y ≡ true
    → contains (ids (to_select selected none sections o)) y ≡ true
unfolding to_select expanded
to_select-expanded selected sections o y h =
    elim (Bool-cases
      (is_nonempty (expanded sections o) && all (is_selected selected) (expanded sections o))) [
        | inl e ↦ rw e (expanded-contents 0 sections o y h)
        | inr e ↦ rw e h
      ]

to_select-covered :
    (selected : List Scalar) (sections : List (Option (List Chore))) (o : ℕ → Bool)
    → is_nonempty (expanded sections o) ≡ true
    → all (is_selected selected) (expanded sections o) ≡ true
    → to_select selected none sections o ≡ contents_of sections
unfolding to_select
to_select-covered selected sections o a b = rw (a, b) refl

-- Without visible tasks, if an open section holds a task, a first call selects at least all tasks of
-- the open sections, and a second one selects exactly the tasks of all the sections.
pub select_all_visible_chores_twice :
    (sections : List (Option (List Chore))) (o : ℕ → Bool) (s : Selection)
    → expanded sections o ≢ []
    → (let once = (select_all_visible_chores none sections o s).0 in
        ((y : Scalar)
          → contains (ids (expanded sections o)) y ≡ true
          → contains once.selected y ≡ true)
        × ((y : Scalar)
            → contains (select_all_visible_chores none sections o once).0.selected y
              ≡ contains (ids (contents_of sections)) y))
select_all_visible_chores_twice sections o s n =
    let (full, y, h) = inhabited (expanded sections o) n in
    let covers : (z : Scalar)
        → contains (ids (expanded sections o)) z ≡ true
        → contains (select_all_visible_chores none sections o s).0.selected z ≡ true =
      λ z k.
        selects none sections o s z (nonempty_of _ y (to_select-expanded s.selected sections o y h))
        ∙ to_select-expanded s.selected sections o z k in
    let once = (select_all_visible_chores none sections o s).0 in
    let all_of =
      to_select-covered once.selected sections o full
        (all-selected once.selected (expanded sections o) covers) in
    (
      covers,
      λ z.
          selects none sections o once z
            (nonempty_of _ y (to_select-expanded once.selected sections o y h))
          ∙ ap (λ l. contains (ids l) z) all_of,
    )

found_iff :
    (id : Scalar) (chores : List Chore) (o : Option Chore)
    → find? (λ (c : Chore). c.id == id) chores ≡ o
    → (o ≡ none → contains (ids chores) id ≡ false)
      × ((c : Chore) → o ≡ some c → (c.id ≡ id) × (contains (ids chores) id ≡ true))
found_iff id [] o e = (λ n. refl, λ c n. cc (e, n))
found_iff id (d ∷ chores) o e = elim (Bool-cases (d.id == id)) [
  | inl h ↦
      let found : some d ≡ o = rw h at e in
      let same : d.id ≡ id = (same_iff d.id id).0 h in
      (
        λ n. cc (found, n),
        λ c n. let eq : d ≡ c = cc (found, n) in (rw (← eq) same, rw (same, beq_self id) refl),
      )
  | inr h ↦
      let later = found_iff id chores o (rw h at e) in
      let other : (id == d.id) ≡ false = ground (arith, same_iff id d.id, same_iff d.id id) in
      (λ n. rw (other, later.0 n) refl, λ c n. let (a, b) = later.1 c n in (a, rw (other, b) refl))
]

-- The data of the selected tasks are those of the selected ids that a task has, in the order in which
-- they were selected.
pub get_selected_chores_data_lem :
    (chores : List Chore) (s : Selection)
    → ids (get_selected_chores_data chores s) ≡ filter (λ id. contains (ids chores) id) s.selected
unfolding get_selected_chores_data chosen
get_selected_chores_data_lem chores s = go s.selected
  where
    listed : Scalar → Bool
    listed id = contains (ids chores) id

    next :
        (x : Scalar) (xs : List Scalar) (o : Option Chore)
        → find? (λ (c : Chore). c.id == x) chores ≡ o
        → ids (chosen chores xs) ≡ filter listed xs
        → ids (elim o [ none ↦ chosen chores xs | some c ↦ c ∷ chosen chores xs ])
          ≡ filter listed (x ∷ xs)
    next x xs none e ih = rw ((found_iff x chores none e).0 refl) ih
    next x xs (some c) e ih =
        let (a, b) = (found_iff x chores (some c) e).1 c refl in rw b (rw (a, ih) refl)

    go : (xs : List Scalar) → ids (chosen chores xs) ≡ filter listed xs
    go [] = refl
    go (x ∷ xs) = next x xs (find? (λ (c : Chore). c.id == x) chores) refl (go xs)
