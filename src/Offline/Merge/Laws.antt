-- ===== src/Offline/Merge/Laws.antt =====
-- The joined list shows no task twice.

use mathlib.Core.List.{append-nil}
use gsd.Prelude.{
  sym, ap, ◌≡◌, refl, inl, inr, ◌⊎◌, Bool, true, false, not, String, some, List, [], ◌∷◌, ◌++◌, map,
  filter, any, All, arith, ◌==◌, string_eq, Bool-cases,
}
use gsd.Prelude.Partition.{contains, contains-append, IsDistinct}
use gsd.Js.{truthy, or_else, to_text}
use gsd.Offline.Merge.{Stored, stands_for, with_id, online_only, joined, get_chores}

-- The ids of tasks as texts.
abbrev pub texts : List Stored → List String
texts cs = map (λ c. to_text c.id) cs

-- The offline task has an id or a temporary one.
abbrev pub IsNamed : Stored → Type 0
IsNamed t = (truthy t.id ≡ true) ⊎ (truthy t.temp_id ≡ true)

-- Of lists that have nothing in common.
append-IsDistinct :
    (xs ys : List String)
    → IsDistinct xs
    → IsDistinct ys
    → All (λ x. contains ys x ≡ false) xs
    → IsDistinct (xs ++ ys)
append-IsDistinct [] ys d e h = e
append-IsDistinct (x ∷ xs) ys (n, d) e (h, hs) =
    (rw (contains-append xs ys x, n) h, append-IsDistinct xs ys d e hs)

filter-absent :
    (p : Stored → Bool) (cs : List Stored) (k : String)
    → contains (texts cs) k ≡ false
    → contains (texts (filter p cs)) k ≡ false
filter-absent p [] k h = refl
filter-absent p (c ∷ cs) k h = ground (arith, filter-absent p cs k)

filter-IsDistinct :
    (p : Stored → Bool) (cs : List Stored)
    → IsDistinct (texts cs)
    → IsDistinct (texts (filter p cs))
filter-IsDistinct p [] d = tt
filter-IsDistinct p (c ∷ cs) (n, d) = elim (Bool-cases (p c)) [
  | inl e ↦ rw e (filter-absent p cs (to_text c.id) n, filter-IsDistinct p cs d)
  | inr e ↦ rw e (filter-IsDistinct p cs d)
]

not_shown :
    (c t : Stored)
    → IsNamed t
    → stands_for c t ≡ false
    → (to_text c.id == to_text (or_else t.id t.temp_id)) ≡ false
not_shown c t (inl h) k = rw h (ground arith)
not_shown c t (inr h) k = elim (Bool-cases (truthy t.id)) [
  | inl e ↦ rw e (ground arith)
  | inr e ↦ rw e (ground arith)
]

none_stands :
    (c : Stored) (ts : List Stored)
    → All IsNamed ts
    → any (stands_for c) ts ≡ false
    → contains (texts (map with_id ts)) (to_text c.id) ≡ false
none_stands c [] h k = refl
none_stands c (t ∷ ts) (h, hs) k = ground (arith, not_shown c t h, none_stands c ts hs)

all_new :
    (ts cs : List Stored)
    → All IsNamed ts
    → All (λ x. contains (texts (map with_id ts)) x ≡ false) (texts (online_only ts cs))
unfolding online_only
all_new ts [] h = tt
all_new ts (c ∷ cs) h = elim (Bool-cases (any (stands_for c) ts)) [
  | inl e ↦ rw e (all_new ts cs h)
  | inr e ↦ rw e (none_stands c ts h e, all_new ts cs h)
]

texts-append : (xs ys : List Stored) → texts (xs ++ ys) ≡ texts xs ++ texts ys
texts-append [] ys = refl
texts-append (x ∷ xs) ys = rw (texts-append xs ys) refl

joined-append : (kept ts : List Stored) → joined kept ts ≡ kept ++ map with_id ts
joined-append kept [] = sym (append-nil kept)
joined-append kept (t ∷ ts) = refl

online_only-IsDistinct :
    (ts cs : List Stored) → IsDistinct (texts cs) → IsDistinct (texts (online_only ts cs))
unfolding online_only
online_only-IsDistinct ts cs d = filter-IsDistinct (λ c. not (any (stands_for c) ts)) cs d

-- With offline mode enabled, the list of tasks is the tasks of the server that no offline task stands for,
-- and behind them all offline tasks. No two of its tasks have ids of the same text, if this is so for the
-- tasks of the server and for the offline tasks with the ids that they are shown with, and if each offline
-- task has an id or a temporary one.
pub get_chores-IsDistinct :
    (online offline : List Stored)
    → IsDistinct (texts online)
    → IsDistinct (texts (map with_id offline))
    → All IsNamed offline
    → (let shown = filter (λ c. not (any (stands_for c) offline)) online ++ map with_id offline in
        (get_chores true (some online) offline ≡ some shown) × IsDistinct (texts shown))
unfolding get_chores online_only
get_chores-IsDistinct online offline d e h =
    let kept = online_only offline online in
    (
      ap some (joined-append kept offline),
      rw (texts-append kept (map with_id offline)) (
          append-IsDistinct (texts kept) (texts (map with_id offline))
            (online_only-IsDistinct offline online d) e (all_new offline online h)),
    )
