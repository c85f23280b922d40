-- ===== src/Chores/Grouper/Labels/Laws.antt =====
-- What the grouping by label gives: a section for each label, by ascending id.
use mathlib.Core.List.{append_assoc, append-nil}
use gsd.Prelude.{
  ℕ, ◌≡◌, refl, sym, ap, ◌∙◌, true, false, Option, none, some, List, [], ◌∷◌, ◌++◌, arith, inl, inr,
  if◌then◌else◌, ◌==◌, nat_eq, beq_self, All, All-map, Bool-cases, map, nat_beq_iff,
}
use gsd.Prelude.Partition.{contains}
use gsd.Js.{undefined}
use gsd.Js.Calls.{returns, ◌>>=◌}
use gsd.Js.Objects.{
  get, keys, table, get-table, get-some_of_contains, insert_key, IsAscending, keys-put,
  insert_key-IsAscending, contains-insert_key, put-table,
}
use gsd.Js.Sort.{sort-eq_self}
use gsd.Chores.{Chore, Label}
use gsd.Chores.Grouper.Sections.{Group, group}
use gsd.Chores.Grouper.Labels.{
  Labelled, or_empty, add_label, add_labels, label_chore, label_chores, named_group, named_groups,
  by_name, label_groups,
}

-- The task, once for each of its labels with the id.
abbrev pub tagged : ℕ → Chore → List Label → List Chore
tagged k c [] = []
tagged k c (l ∷ ls) = if l.id == k then c ∷ tagged k c ls else tagged k c ls

abbrev labels_of : Option (List Label) → List Label
labels_of none = []
labels_of (some ls) = ls

-- The tasks with the label, in the order of the list.
abbrev pub with_label : ℕ → List Chore → List Chore
with_label k [] = []
with_label k (c ∷ cs) = tagged k c (labels_of c.labels) ++ with_label k cs

-- The two objects have the keys `ks`, and the first one holds what `f` gives for them.
record Holds (f : ℕ → List Chore) (ks : List ℕ) (s : Labelled) : Type 0 where
  raw : s.raw ≡ table f ks
  labels : keys s.labels ≡ ks
  ascending : IsAscending ks
  absent : (k : ℕ) → contains ks k ≡ false → f k ≡ []

abbrev appended : (ℕ → List Chore) → ℕ → Chore → ℕ → List Chore
appended f k c j = if k == j then f k ++ c ∷ [] else f j

or_empty-get :
    (f : ℕ → List Chore) (ks : List ℕ) (k : ℕ)
    → (contains ks k ≡ false → f k ≡ [])
    → or_empty (get k (table f ks)) ≡ f k
or_empty-get f ks k h =
    rw (get-table f k ks)
      (elim (Bool-cases (contains ks k)) [ inl e ↦ rw e refl | inr e ↦ rw (e, h e) refl ])

add_label-Holds :
    (f : ℕ → List Chore) (ks : List ℕ) (s : Labelled) (c : Chore) (l : Label)
    → Holds f ks s
    → Holds (appended f l.id c) (insert_key l.id ks) (add_label c l s)
unfolding add_label
add_label-Holds f ks s c l h = record {
  raw = rw (h.raw, or_empty-get f ks l.id (h.absent l.id)) (put-table f l.id _ ks h.ascending);
  labels = rw (keys-put l.id l s.labels, h.labels) refl;
  ascending = insert_key-IsAscending l.id ks h.ascending;
  absent = λ k n. ground (arith, contains-insert_key l.id k ks, h.absent k);
}

-- A loop's result, with the function for the tasks of each label.
abbrev Filled : (ℕ → List Chore) → Labelled → Type 0
Filled f s = (g : ℕ → List Chore) × (ks : List ℕ) × Holds g ks s × ((k : ℕ) → g k ≡ f k)

add_labels-Filled :
    (f : ℕ → List Chore) (ks : List ℕ) (s : Labelled) (c : Chore) (ls : List Label)
    → Holds f ks s
    → Filled (λ k. f k ++ tagged k c ls) (add_labels c ls s)
unfolding add_labels
add_labels-Filled f ks s c [] h = (f, ks, h, λ k. sym (append-nil (f k)))
add_labels-Filled f ks s c (l ∷ ls) h =
    let (g, js, held, eq) =
      add_labels-Filled (appended f l.id c) (insert_key l.id ks) (add_label c l s) c ls
        (add_label-Holds f ks s c l h) in
    (
      g,
      js,
      held,
      λ k. eq k ∙ elim (Bool-cases (l.id == k)) [
        | inl e ↦
            let same : l.id ≡ k = (nat_beq_iff _ _).0 e in
            rw e (rw same (append_assoc (f k) (c ∷ []) (tagged k c ls)))
        | inr e ↦ rw e refl
      ],
    )

abbrev pub HasLabels : Chore → Type 0
HasLabels c = (ls : List Label) × (c.labels ≡ some ls)

-- The loop over the tasks ends without an error, and fills the objects.
abbrev Loops : (ℕ → List Chore) → List Chore → Labelled → Type 0
Loops f cs s = (s' : Labelled) × (label_chores cs s ≡ returns s') × Filled f s'

label_chores-Filled :
    (f : ℕ → List Chore) (ks : List ℕ) (s : Labelled) (cs : List Chore)
    → Holds f ks s
    → All HasLabels cs
    → Loops (λ k. f k ++ with_label k cs) cs s
unfolding label_chores label_chore
label_chores-Filled f ks s [] h _ = (s, refl, (f, ks, h, λ k. sym (append-nil (f k))))
label_chores-Filled f ks s (c ∷ cs) h ((ls, e), es) =
    let (g, js, held, eq) = add_labels-Filled f ks s c ls h in
    let (s', loop, (g', js', held', eq')) =
      label_chores-Filled g js (add_labels c ls s) cs held es in
    (
      s',
      ap (λ o. label_chore c o s >>= label_chores cs) e ∙ loop,
      (
        g',
        js',
        held',
        λ k.
            eq' k
            ∙ ap (λ xs. xs ++ with_label k cs) (eq k)
            ∙ append_assoc (f k) (tagged k c ls) (with_label k cs)
            ∙ sym (ap (λ o. f k ++ (tagged k c (labels_of o) ++ with_label k cs)) e),
      ),
    )

abbrev values : List (ℕ × List Chore) → List (List Chore)
values = map (λ p. p.1)

named_groups_total :
    (raw : List (ℕ × List Chore)) (labels : List (ℕ × Label))
    → All (λ k. contains (keys labels) k ≡ true) (keys raw)
    → (gs : List Group) × (named_groups raw labels ≡ returns gs)
      × (map (λ g. g.content) gs ≡ values raw)
unfolding named_groups named_group
named_groups_total [] labels h = ([], refl, refl)
named_groups_total ((key, content) ∷ raw) labels (h, hs) =
    let (l, found) = get-some_of_contains key labels h in
    let (gs, e, same) = named_groups_total raw labels hs in
    (group l.name content undefined ∷ gs, rw (found, e) refl, rw same refl)

contains_own : (ks : List ℕ) → All (λ k. contains ks k ≡ true) ks
contains_own [] = tt
contains_own (k ∷ ks) = (rw (beq_self k) refl, All-map (λ j e. ground arith) ks (contains_own ks))

keys-table : (f : ℕ → List Chore) (ks : List ℕ) → keys (table f ks) ≡ ks
keys-table f [] = refl
keys-table f (k ∷ ks) = rw (keys-table f ks) refl

values-table :
    (f g : ℕ → List Chore) (ks : List ℕ) → ((k : ℕ) → f k ≡ g k) → values (table f ks) ≡ map g ks
values-table f g [] h = refl
values-table f g (k ∷ ks) h = rw (h k, values-table f g ks h) refl

-- If every task has its array of labels, the grouping by label throws nothing, and its sections are
-- those of the label ids in ascending order, whatever the names: each holds the tasks with its label
-- in the list's order, and an id without a section labels no task.
pub label_groups_lem :
    (cs : List Chore)
    → All HasLabels cs
    → (gs : List Group) × (ks : List ℕ) × (label_groups cs ≡ returns gs)
      × IsAscending ks
      × (map (λ g. g.content) gs ≡ map (λ k. with_label k cs) ks)
      × ((k : ℕ) → contains ks k ≡ false → with_label k cs ≡ [])
unfolding label_groups
label_groups_lem cs h =
    let empty : Labelled = record { raw = []; labels = [] } in
    let start : Holds (λ k. []) [] empty = record {
      raw = refl;
      labels = refl;
      ascending = tt;
      absent = λ k e. refl;
    } in
    let (s, loop, (g, ks, held, eq)) = label_chores-Filled (λ k. []) [] empty cs start h in
    let own : keys s.raw ≡ keys s.labels = rw (held.raw, held.labels, keys-table g ks) refl in
    let (gs, named, same) =
      named_groups_total s.raw s.labels (rw own (contains_own (keys s.labels))) in
    (
      gs,
      ks,
      rw (loop, named) (rw (sort-eq_self by_name (λ x y. refl) gs) refl),
      held.ascending,
      same ∙ rw held.raw (values-table g (λ k. with_label k cs) ks eq),
      λ k e. sym (eq k) ∙ held.absent k e,
    )
