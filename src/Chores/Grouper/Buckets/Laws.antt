-- ===== src/Chores/Grouper/Buckets/Laws.antt =====
-- Every task of the list stands in exactly one section, in the order of the list.
use mathlib.Core.List.{Perm}
use gsd.Prelude.{
  filter, ℕ, if◌then◌else◌, ◌==◌, nat_eq, ◌≡◌, refl, sym, ap, ◌∙◌, true, String, List, [], ◌∷◌,
  ◌++◌, arith, All, nat_eq, ◌≢◌,
}
use mathlib.Core.List.{append_assoc, append-nil}
use gsd.Prelude.Partition.{flat, flat-part-perm, contains, IsDistinct}
use gsd.Js.{Scalar, scalar_eq}
use gsd.Dates.{Host}
use gsd.Chores.{Chore}
use gsd.Chores.Grouper.Sections.{Group, group, collect, collect-eq-part}
use gsd.Chores.Grouper.Buckets.{
  Bucket, pending_approval, started, today, tomorrow, next_7_days, later_this_month, future,
  overdue, general, bucket_eq, same_bucket, due_bucket, default_bucket, unless_empty,
  default_groups, due_date_groups, priority_class, priority_groups,
}

-- All the tasks of the sections, in turn.
abbrev pub contents : List Group → List Chore
contents = flat (λ g. g.content)

flat-append {ℓ κ} :
    {A : Type ℓ} {B : Type κ} (f : A → List B) (xs ys : List A)
    → flat f (xs ++ ys) ≡ flat f xs ++ flat f ys
flat-append f [] ys = refl
flat-append f (x ∷ xs) ys =
    ap (λ l. f x ++ l) (flat-append f xs ys) ∙ sym (append_assoc (f x) (flat f xs) (flat f ys))

contents-unless_empty :
    (n : String) (cs : List Chore) (col : Scalar) → contents (unless_empty (group n cs col)) ≡ cs
contents-unless_empty n [] col = refl
contents-unless_empty n (c ∷ cs) col = append-nil (c ∷ cs)

abbrev default_order : List Bucket
default_order =
    started ∷ pending_approval ∷ overdue ∷ today ∷ tomorrow ∷ next_7_days ∷ later_this_month
    ∷ future ∷ general ∷ []

default_order_complete : (b : Bucket) → contains default_order b ≡ true
default_order_complete pending_approval = refl
default_order_complete b = refl

default_order-IsDistinct : IsDistinct default_order
default_order-IsDistinct =
    (refl, (refl, (refl, (refl, (refl, (refl, (refl, (refl, (refl, tt)))))))))

All-of {ℓ κ} : {A : Type ℓ} {P : A → Type κ} → ((x : A) → P x) → (xs : List A) → All P xs
All-of f [] = tt
All-of f (x ∷ xs) = (f x, All-of f xs)

-- The sections of the case 'default' hold each task of the list exactly once.
pub contents-default_groups :
    (host : Host) (cs : List Chore) → Perm (contents (default_groups host cs)) cs
unfolding default_groups
contents-default_groups host cs =
    simp (flat-append, contents-unless_empty, collect-eq-part)
      (simp append-nil at (
        flat-part-perm (default_bucket host) cs default_order
          (All-of (λ c. default_order_complete (default_bucket host c)) cs)
          default_order-IsDistinct))

-- The title of the section for a bucket.
abbrev pub title : Bucket → String
title pending_approval = "Pending Approval"
title started = "Started"
title today = "Today"
title tomorrow = "Tomorrow"
title next_7_days = "Next 7 Days"
title later_this_month = "Later This Month"
title future = "Future"
title overdue = "Overdue"
title general = "General Tasks"

-- The section of a bucket: its title, and the tasks of the bucket in the list's order.
abbrev pub IsSection : (Chore → Bucket) → List Chore → Group → Type 0
IsSection bucket cs g =
    (b : Bucket) × (g.name ≡ title b) × (g.content ≡ filter (λ c. same_bucket (bucket c) b) cs)

All-append {ℓ κ} :
    {A : Type ℓ} (P : A → Type κ) (xs ys : List A) → All P xs → All P ys → All P (xs ++ ys)
All-append P [] ys h k = k
All-append P (x ∷ xs) ys (h, hs) k = (h, All-append P xs ys hs k)

section :
    (P : Group → Type 0) (n : String) (cs : List Chore) (col : Scalar)
    → (cs ≢ [] → P (group n cs col))
    → All P (unless_empty (group n cs col))
section P n [] col h = tt
section P n (c ∷ cs) col h = (h (λ e. cc), tt)

abbrev pub Shown : (Chore → Bucket) → List Chore → Group → Type 0
Shown bucket cs g = (g.content ≢ []) × IsSection bucket cs g

collected :
    (bucket : Chore → Bucket) (cs : List Chore) (b : Bucket)
    → (b' : Bucket) × (title b ≡ title b')
      × (collect bucket cs b ≡ filter (λ c. same_bucket (bucket c) b') cs)
collected bucket cs b = (b, refl, collect-eq-part bucket cs b)

shown :
    (bucket : Chore → Bucket) (cs : List Chore) (b : Bucket) (col : Scalar) (rest : List Group)
    → All (Shown bucket cs) rest
    → All (Shown bucket cs) (unless_empty (group (title b) (collect bucket cs b) col) ++ rest)
shown bucket cs b col rest h =
    All-append (Shown bucket cs) _ rest
      (section (Shown bucket cs) (title b) (collect bucket cs b) col
        (λ ne. (ne, collected bucket cs b)))
      h

-- No section of the case 'default' is empty, and each is the section of a bucket.
pub default_groups-Shown :
    (host : Host) (cs : List Chore) → All (Shown (default_bucket host) cs) (default_groups host cs)
unfolding default_groups
default_groups-Shown host cs =
    let s = shown (default_bucket host) cs in
    s started _ _ (
      s pending_approval _ _ (
        s overdue _ _ (
          s today _ _ (
            s tomorrow _ _ (
              s next_7_days _ _ (
                s later_this_month _ _ (
                  s future _ _ (
                    section (Shown (default_bucket host) cs) _ _ _
                      (λ ne. (ne, collected (default_bucket host) cs general))))))))))

-- The sections of the case 'due_date' are those of the buckets by date.
pub due_date_groups-IsSection :
    (host : Host) (cs : List Chore) → All (IsSection (due_bucket host) cs) (due_date_groups host cs)
unfolding due_date_groups
due_date_groups-IsSection host cs =
    let s = collected (due_bucket host) cs in
    (
      s overdue,
      (s today, (s tomorrow, (s next_7_days, (s later_this_month, (s future, (s general, tt)))))),
    )

abbrev due_order : List Bucket
due_order = overdue ∷ today ∷ tomorrow ∷ next_7_days ∷ later_this_month ∷ future ∷ general ∷ []

due_order_complete : (host : Host) (c : Chore) → contains due_order (due_bucket host c) ≡ true
unfolding due_bucket
due_order_complete host c = ground arith

-- The sections of the case 'due_date' hold each task of the list exactly once.
pub contents-due_date_groups :
    (host : Host) (cs : List Chore) → Perm (contents (due_date_groups host cs)) cs
unfolding due_date_groups
contents-due_date_groups host cs = simp collect-eq-part (
    flat-part-perm (due_bucket host) cs due_order (All-of (due_order_complete host) cs)
      (refl, (refl, (refl, (refl, (refl, (refl, (refl, tt))))))))

-- So do those of the case 'priority'.
pub contents-priority_groups : (cs : List Chore) → Perm (contents (priority_groups cs)) cs
unfolding priority_groups priority_class
contents-priority_groups cs = simp collect-eq-part (
    flat-part-perm (λ (c : Chore). priority_class c.priority) cs (1 ∷ 2 ∷ 3 ∷ 4 ∷ 0 ∷ [])
      (All-of (λ c. ground arith) cs) (refl, (refl, (refl, (refl, (refl, tt))))))

abbrev pub priority_title : ℕ → String
priority_title k =
    if k == 1
    then "Priority 1"
    else if k == 2
    then "Priority 2"
    else if k == 3
    then "Priority 3"
    else if k == 4
    then "Priority 4"
    else "No Priority"

-- The section of a priority: its title, and the tasks of the priority in the list's order.
abbrev pub IsPrioritySection : List Chore → Group → Type 0
IsPrioritySection cs g =
    (k : ℕ) × (g.name ≡ priority_title k)
    × (g.content ≡ filter (λ c. priority_class c.priority == k) cs)

pub priority_groups-IsPrioritySection :
    (cs : List Chore) → All (IsPrioritySection cs) (priority_groups cs)
unfolding priority_groups
priority_groups-IsPrioritySection cs = (s 1, (s 2, (s 3, (s 4, (s 0, tt)))))
  where
    class : Chore → ℕ
    class c = priority_class c.priority

    s :
        (k : ℕ)
        → (j : ℕ) × (priority_title k ≡ priority_title j)
          × (collect class cs k ≡ filter (λ c. priority_class c.priority == j) cs)
    s k = (k, refl, collect-eq-part class cs k)
