-- ===== src/Points/Leaderboard/Members.antt =====
-- The object with the stats of the members of a circle, calculateLeaderboard in
-- ui/src/views/User/UserPoints.jsx.
use mathlib.Core.List.{Perm, perm_middle, append-nil}
use mathlib.Core.List.Perm
use gsd.Prelude.{
  ℕ, ◌<◌, ◌≡◌, refl, sym, ap, inl, inr, true, false, not, List, [], ◌∷◌, ◌++◌, map, filter,
  filter-ext, filter_all, All, All-map, if◌then◌else◌, ◌==◌, ltb, nat_eq, nat_beq_iff, Bool-cases,
  arith,
}
use gsd.Prelude.Partition.{contains}
use gsd.Js.Objects.{put, keys, keys-put, IsAscending, insert_key-IsAscending}
use gsd.Points.{Member, Stats, new_stats, put_members}

abbrev pub ids : List Member → List ℕ
ids ms = map (λ (m : Member). m.user_id) ms

-- The records that no later one of the same id replaces.
abbrev pub last_records : List Member → List Member
last_records [] = []
last_records (m ∷ ms) = if contains (ids ms) m.user_id then last_records ms else m ∷ last_records ms

abbrev pub entry_of : Member → ℕ × Stats
entry_of m = (m.user_id, new_stats m)

-- The entries of other ids.
abbrev others : List ℕ → List (ℕ × Stats) → List (ℕ × Stats)
others ks stats = filter (λ x. not (contains ks x.0)) stats

absent :
    (k : ℕ) (ks : List ℕ) (stats : List (ℕ × Stats))
    → All (λ j. k < j) (keys stats)
    → others (k ∷ ks) stats ≡ others ks stats
absent k ks [] h = refl
absent k ks ((j, s) ∷ stats) (h, hs) =
    let other : (j == k) ≡ false = ground (arith, h) in
    elim (Bool-cases (contains ks j)) [
      | inl e ↦ rw (other, e) (absent k ks stats hs)
      | inr e ↦ rw (other, e) (ap (λ r. (j, s) ∷ r) (absent k ks stats hs))
    ]

already_in :
    (k : ℕ) (ks : List ℕ) (stats : List (ℕ × Stats))
    → contains ks k ≡ true
    → others (k ∷ ks) stats ≡ others ks stats
already_in k ks stats h =
    filter-ext (λ x. not (contains (k ∷ ks) x.0)) (λ x. not (contains ks x.0)) same stats
  where
    same : (x : ℕ × Stats) → not (contains (k ∷ ks) x.0) ≡ not (contains ks x.0)
    same x = elim (Bool-cases (x.0 == k)) [
      | inl e ↦ let eq : k ≡ x.0 = sym ((nat_beq_iff x.0 k).0 e) in rw (e, rw eq at h) refl
      | inr e ↦ rw e refl
    ]

-- What is put under an id that is replaced later is lost.
others-put :
    (k : ℕ) (v : Stats) (ks : List ℕ) (stats : List (ℕ × Stats))
    → contains ks k ≡ true
    → others ks (put k v stats) ≡ others ks stats
others-put k v ks [] h = rw h refl
others-put k v ks ((j, s) ∷ stats) h = elim (Bool-cases (k == j)) [
  | inl e ↦ let eq : k ≡ j = (nat_beq_iff k j).0 e in rw (e, h, rw eq at h) refl
  | inr e ↦ elim (Bool-cases (ltb k j)) [
    | inl l ↦ rw (e, l, h) refl
    | inr l ↦
        rw (e, l)
          (elim (Bool-cases (contains ks j)) [
            | inl c ↦ rw c (others-put k v ks stats h)
            | inr c ↦ rw c (ap (λ r. (j, s) ∷ r) (others-put k v ks stats h))
          ])
  ]
]

others-put_new :
    (k : ℕ) (v : Stats) (ks : List ℕ) (stats : List (ℕ × Stats))
    → IsAscending (keys stats)
    → contains ks k ≡ false
    → Perm (others ks (put k v stats)) ((k, v) ∷ others (k ∷ ks) stats)
others-put_new k v ks [] a h = rw h (Perm.refl _)
others-put_new k v ks ((j, s) ∷ stats) (above, rest) h = elim (Bool-cases (k == j)) [
  | inl e ↦
      let eq : k ≡ j = (nat_beq_iff k j).0 e in
      let self : (j == k) ≡ true = (nat_beq_iff j k).1 (sym eq) in
      let none_more : All (λ i. k < i) (keys stats) = rw eq above in
      rw (e, h, self, absent k ks stats none_more) (Perm.refl _)
  | inr e ↦
      let other : (j == k) ≡ false = ground (arith, e) in
      elim (Bool-cases (ltb k j)) [
        | inl l ↦
            let less : k < j = ground (arith, l) in
            rw
              (
                e,
                l,
                h,
                ← absent k ks ((j, s) ∷ stats) (
                  less,
                  All-map (λ i (q : j < i). let r : k < i = omega (arith, less, q) in r)
                      (keys stats) above,
                ),
              )
              (Perm.refl _)
        | inr l ↦
            rw (e, l, other)
              (elim (Bool-cases (contains ks j)) [
                | inl c ↦ rw c (others-put_new k v ks stats rest h)
                | inr c ↦ rw c (
                    Perm.trans (Perm.cons (j, s) (others-put_new k v ks stats rest h))
                      (Perm.swap _ _ _))
              ])
      ]
]

puts :
    (ms : List Member) (stats : List (ℕ × Stats))
    → IsAscending (keys stats)
    → Perm (put_members ms stats) (map entry_of (last_records ms) ++ others (ids ms) stats)
unfolding put_members
puts [] stats a = rw (filter_all stats) (Perm.refl _)
puts (m ∷ ms) stats a =
    let k = m.user_id in
    let v = new_stats m in
    let a' : IsAscending (keys (put k v stats)) =
      rw (keys-put k v stats) (insert_key-IsAscending k (keys stats) a) in
    let rest = puts ms (put k v stats) a' in
    elim (Bool-cases (contains (ids ms) k)) [
      | inl e ↦ rw (e, already_in k (ids ms) stats e) (rw (others-put k v (ids ms) stats e) at rest)
      | inr e ↦ rw e (
          Perm.trans rest (
            Perm.trans
              (Perm.append_left (map entry_of (last_records ms))
                (others-put_new k v (ids ms) stats a e))
              (perm_middle (map entry_of (last_records ms)) (others (k ∷ ids ms) stats))))
    ]

-- The object holds exactly the last record of each id.
pub put_members-perm :
    (ms : List Member) → Perm (put_members ms []) (map entry_of (last_records ms))
put_members-perm ms = rw (append-nil (map entry_of (last_records ms))) at (puts ms [] tt)
