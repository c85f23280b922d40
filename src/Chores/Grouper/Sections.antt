-- ===== src/Chores/Grouper/Sections.antt =====
-- What the groupings of `ChoresGrouper` share: the record of a section, and the lists of
-- `groupRaw`, one for each key, to which the loop over the tasks appends.
use gsd.Prelude.{
  ◌≡◌, refl, String, List, [], ◌∷◌, ◌++◌, if◌then◌else◌, Eq, ◌==◌, ◌∙◌, Bool-cases, inl, inr, sym,
}
use mathlib.Core.List.{append_assoc, append-nil}
use gsd.Prelude.Partition.{part}
use gsd.Js.{Scalar}
use gsd.Chores.{Chore}

pub record Group : Type 0 where
  pub name : String
  pub content : List Chore
  -- `undefined` where the code gives none
  pub color : Scalar

abbrev pub group : String → List Chore → Scalar → Group
group name content color = record { name = name; content = content; color = color }

module _ {K : Type 0} ⦃e : Eq K⦄ where
  -- `groupRaw[k].push(c)`
  push : K → Chore → (K → List Chore) → K → List Chore
  push k c raw j = if k == j then raw j ++ c ∷ [] else raw j

  collect_from : (Chore → K) → (K → List Chore) → List Chore → K → List Chore
  collect_from class raw [] = raw
  collect_from class raw (c ∷ cs) = collect_from class (push (class c) c raw) cs

  unfoldable pub collect : (Chore → K) → List Chore → K → List Chore
  unfolding collect_from push
  collect class cs = collect_from class (λ _. []) cs

  collect_from-eq :
      (class : Chore → K) (raw : K → List Chore) (cs : List Chore) (k : K)
      → collect_from class raw cs k ≡ raw k ++ part class cs k
  unfolding collect_from push
  collect_from-eq class raw [] k = sym (append-nil (raw k))
  collect_from-eq class raw (c ∷ cs) k =
      collect_from-eq class (push (class c) c raw) cs k ∙ elim (Bool-cases (class c == k)) [
        | inl h ↦ rw h (append_assoc (raw k) (c ∷ []) (part class cs k))
        | inr h ↦ rw h refl
      ]

  -- Each list holds the tasks of its key, in their order.
  pub collect-eq-part :
      (class : Chore → K) (cs : List Chore) (k : K) → collect class cs k ≡ part class cs k
  unfolding collect
  collect-eq-part class cs k = collect_from-eq class (λ _. []) cs k
