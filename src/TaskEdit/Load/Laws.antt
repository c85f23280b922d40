-- ===== src/TaskEdit/Load/Laws.antt =====
-- The subtasks of a copy.
use gsd.Prelude.{
  ◌≡◌, ◌≢◌, refl, sym, ap, ◌∙◌, ◌↔◌, false, true, Option, none, some, arith, ◌==◌, nat_eq,
  Bool-cases, inl, inr,
}
use gsd.Prelude.Int.{ℤ, pos, negsuc, is_negative}
use gsd.TaskEdit.{SubTask}
use gsd.TaskEdit.Load.{negate, clone_sub_task, negate_parent}

negate_twice : (n : ℤ) → negate (negate n) ≡ n
unfolding negate
negate_twice (pos n) = ground arith
negate_twice (negsuc n) = ground arith

negate-inj : (a b : ℤ) → negate a ≡ negate b → a ≡ b
negate-inj a b h = sym (negate_twice a) ∙ ap negate h ∙ negate_twice b

parent_negated : (p : ℤ) → p ≢ pos 0 → negate_parent (some p) ≡ some (negate p)
parent_negated (pos n) h = elim (Bool-cases (n == 0)) [
  | inl e ↦ absurd (h (ap pos (ground arith)))
  | inr e ↦ rw e refl
]
parent_negated (negsuc n) h = refl

no_parent : (p : ℤ) (b : ℤ) → b ≢ pos 0 → negate_parent (some p) ≡ some (negate b) → p ≡ b
no_parent (pos n) b h e = elim (Bool-cases (n == 0)) [
  | inl z ↦ let none_some : none ≡ some (negate b) = rw z at e in cc none_some
  | inr z ↦
      let same : some (negate (pos n)) ≡ some (negate b) = rw z at e in
      negate-inj (pos n) b (cc same)
]
no_parent (negsuc n) b h e = negate-inj (negsuc n) b (cc e)

-- In a copy the subtask `a`, with an id that is not 0, is the parent of exactly those subtasks whose parent
-- it was; where its id was a number from 1 on, the new id is negative. No subtask of a copy is completed.
pub clone_sub_task_lem :
    (a b : SubTask)
    → a.id ≢ pos 0
    → ((b.parent_id ≡ some a.id) ↔ ((clone_sub_task b).parent_id ≡ some (clone_sub_task a).id))
      × (is_negative a.id ≡ false → is_negative (clone_sub_task a).id ≡ true)
      × ((clone_sub_task a).completed ≡ false)
unfolding negate
clone_sub_task_lem a b h = (
  (λ e. ap negate_parent e ∙ parent_negated a.id h, λ e. of_parent b.parent_id e),
  new_id a.id h,
  refl,
)
  where
    of_parent : (p : Option ℤ) → negate_parent p ≡ some (negate a.id) → p ≡ some a.id
    of_parent none e = cc e
    of_parent (some p) e = ap some (no_parent p a.id h e)

    new_id : (n : ℤ) → n ≢ pos 0 → is_negative n ≡ false → is_negative (negate n) ≡ true
    new_id (pos n) h e = elim (Bool-cases (n == 0)) [
      | inl z ↦ absurd (h (ap pos (ground arith)))
      | inr z ↦ rw z refl
    ]
    new_id (negsuc n) h e = cc e
