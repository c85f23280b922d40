-- ===== src/SubTasks/Ids.antt =====
-- The temporary ids of new subtasks, handleAdd and handleAddSubtask of
-- ui/src/views/components/SubTask.jsx.
use gsd.Prelude.{
  ℕ, ◌+◌, ◌<◌, ◌≡◌, refl, sym, ap, ◌∙◌, inl, inr, true, false, String, Option, some, none, List, [],
  ◌∷◌, ◌++◌, ◌==◌, arith, Bool-cases, All, All-map, All-append, length, length-append,
}
use gsd.Prelude.Int.{ℤ, pos, negsuc, int_eq, same_int_iff}
use gsd.Prelude.Partition.{contains, contains-append, IsDistinct}
use gsd.Js.Texts.{is_blank}
use gsd.SubTasks.{Item, next_id, new_item, handle_add, handle_add_subtask}
use gsd.SubTasks.Delete.{ids}

-- An id of the server, or one given while the list was shorter than `n`.
abbrev pub IsBefore : ℕ → ℤ → Type 0
IsBefore n (pos _) = Unit
IsBefore n (negsuc k) = k < n

abbrev pub IsNumbered : List Item → Type 0
IsNumbered ts = IsDistinct (ids ts) × All (IsBefore (length ts)) (ids ts)

new_id : (xs : List ℤ) (n : ℕ) → All (IsBefore n) xs → contains xs (negsuc n) ≡ false
new_id [] n h = refl
new_id (pos a ∷ xs) n (h, hs) = new_id xs n hs
new_id (negsuc k ∷ xs) n (h, hs) = rw (new_id xs n hs) (ground (arith, h))

int_eq_comm : (x y : ℤ) → (x == y) ≡ false → (y == x) ≡ false
int_eq_comm x y h = elim (Bool-cases (y == x)) [
  | inl e ↦ cc ((same_int_iff x y).1 (sym ((same_int_iff y x).0 e)), h)
  | inr e ↦ e
]

snoc-IsDistinct :
    (xs : List ℤ) (x : ℤ) → IsDistinct xs → contains xs x ≡ false → IsDistinct (xs ++ x ∷ [])
snoc-IsDistinct [] x d h = (refl, tt)
snoc-IsDistinct (y ∷ ys) x (n, d) h = elim (Bool-cases (x == y)) [
  | inl e ↦ let no_way : true ≡ false = rw e at h in cc no_way
  | inr e ↦ (
    contains-append ys (x ∷ []) y ∙ rw (n, int_eq_comm x y e) refl,
    snoc-IsDistinct ys x d (rw e at h),
  )
]

weaker : (n : ℕ) (a : ℤ) → IsBefore n a → IsBefore (n + 1) a
weaker n (pos _) h = tt
weaker n (negsuc k) h = omega (arith, h)

ids-append : (xs ys : List Item) → ids (xs ++ ys) ≡ ids xs ++ ids ys
ids-append [] ys = refl
ids-append (x ∷ xs) ys = ap (λ r. x.id ∷ r) (ids-append xs ys)

appended :
    (name : String) (parent : Option ℤ) (ts : List Item)
    → IsNumbered ts
    → IsNumbered (ts ++ new_item name parent ts ∷ [])
appended name parent ts (d, b) =
    rw
      (
        ids-append ts (new_item name parent ts ∷ []),
        length-append ts (new_item name parent ts ∷ []),
      )
      (
        snoc-IsDistinct (ids ts) (next_id ts) d (new_id (ids ts) (length ts) b),
        All-append (IsBefore (length ts + 1)) (ids ts) (next_id ts ∷ [])
            (All-map (weaker (length ts)) (ids ts) b) (omega arith, tt),
      )

-- Where all temporary ids were given while the list was shorter, a new task and a new subtask have an id
-- that no other has, and it stays so.
pub handle_add-IsNumbered :
    (parent : ℤ) (name : String) (ts : List Item)
    → IsNumbered ts
    → IsNumbered (handle_add name ts) × IsNumbered (handle_add_subtask parent name ts)
unfolding handle_add handle_add_subtask
handle_add-IsNumbered parent name ts h = elim (Bool-cases (is_blank name)) [
  | inl e ↦ rw e (h, h)
  | inr e ↦ rw e (appended name none ts h, appended name (some parent) ts h)
]
