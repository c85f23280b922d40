-- ===== src/Js/Objects.antt =====
-- Objects used as dictionaries with integer keys: `Object.keys` lists such keys in ascending order.
use gsd.Prelude.{
  ℕ, ◌<◌, ◌≡◌, refl, ap, true, inl, inr, Option, none, some, List, [], ◌∷◌, arith, if◌then◌else◌,
  ltb, ◌==◌, nat_eq, All, All-map, Bool-cases, beq_self,
}
use gsd.Prelude.Partition.{contains}

module _ {ℓ} {V : Type ℓ} where
  abbrev pub get : ℕ → List (ℕ × V) → Option V
  get k [] = none
  get k ((j, v) ∷ m) = if k == j then some v else get k m

  abbrev pub put : ℕ → V → List (ℕ × V) → List (ℕ × V)
  put k v [] = (k, v) ∷ []
  put k v ((j, w) ∷ m) =
      if k == j then (k, v) ∷ m else if ltb k j then (k, v) ∷ (j, w) ∷ m else (j, w) ∷ put k v m

  abbrev pub keys : List (ℕ × V) → List ℕ
  keys [] = []
  keys ((k, _) ∷ m) = k ∷ keys m

  -- The object with the given keys and the values that a function gives.
  abbrev pub table : (ℕ → V) → List ℕ → List (ℕ × V)
  table f [] = []
  table f (k ∷ ks) = (k, f k) ∷ table f ks

  pub table-ext :
      (f g : ℕ → V) (P : ℕ → Type 0)
      → ((k : ℕ) → P k → f k ≡ g k)
      → (ks : List ℕ) → All P ks
      → table f ks ≡ table g ks
  table-ext f g P h [] p = refl
  table-ext f g P h (k ∷ ks) (p, ps) = rw (h k p, table-ext f g P h ks ps) refl

  pub get-table :
      (f : ℕ → V) (k : ℕ) (ks : List ℕ)
      → get k (table f ks) ≡ (if contains ks k then some (f k) else none)
  get-table f k [] = refl
  get-table f k (j ∷ ks) = ground (arith, get-table f k ks)

  pub get-some_of_contains :
      (k : ℕ) (m : List (ℕ × V)) → contains (keys m) k ≡ true → (v : V) × (get k m ≡ some v)
  get-some_of_contains k [] h = cc h
  get-some_of_contains k ((j, v) ∷ m) h = elim (Bool-cases (k == j)) [
    | inl e ↦ (v, rw e refl)
    | inr e ↦ let (w, g) = get-some_of_contains k m (rw e at h) in (w, rw e g)
  ]

abbrev pub insert_key : ℕ → List ℕ → List ℕ
insert_key k [] = k ∷ []
insert_key k (j ∷ ks) =
    if k == j then k ∷ ks else if ltb k j then k ∷ j ∷ ks else j ∷ insert_key k ks

abbrev pub IsAscending : List ℕ → Type 0
IsAscending [] = Unit
IsAscending (k ∷ ks) = All (λ j. k < j) ks × IsAscending ks

pub keys-put {ℓ} :
    {V : Type ℓ} (k : ℕ) (v : V) (m : List (ℕ × V)) → keys (put k v m) ≡ insert_key k (keys m)
keys-put k v [] = refl
keys-put k v ((j, w) ∷ m) = ground (arith, keys-put k v m)

All-insert_key : (P : ℕ → Type 0) (k : ℕ) (ks : List ℕ) → P k → All P ks → All P (insert_key k ks)
All-insert_key P k [] p h = (p, tt)
All-insert_key P k (j ∷ ks) p (q, h) = ground (arith, All-insert_key P k ks p h)

pub insert_key-IsAscending : (k : ℕ) (ks : List ℕ) → IsAscending ks → IsAscending (insert_key k ks)
insert_key-IsAscending k [] h = (tt, tt)
insert_key-IsAscending k (j ∷ ks) (h, hs) = elim (Bool-cases (k == j)) [
  | inl e ↦ rw e (All-map (λ i (p : j < i). let q : k < i = ground arith in q) ks h, hs)
  | inr n ↦ elim (Bool-cases (ltb k j)) [
    | inl l ↦
        let below : k < j = ground arith in
        rw (n, l)
          ((below, All-map (λ i (p : j < i). let q : k < i = omega arith in q) ks h), (h, hs))
    | inr m ↦
        let above : j < k = ground arith in
        rw (n, m) (All-insert_key (λ i. j < i) k ks above h, insert_key-IsAscending k ks hs)
  ]
]

pub contains-insert_key :
    (k i : ℕ) (ks : List ℕ)
    → contains (insert_key k ks) i ≡ (if i == k then true else contains ks i)
contains-insert_key k i [] = ground arith
contains-insert_key k i (j ∷ ks) = ground (arith, contains-insert_key k i ks)

-- A larger key's value is not the one that is set.
others {ℓ} :
    {V : Type ℓ} (f : ℕ → V) (k : ℕ) (v : V) (ks : List ℕ)
    → All (λ j. k < j) ks
    → table f ks ≡ table (λ j. if k == j then v else f j) ks
others f k v ks h =
    table-ext f (λ j. if k == j then v else f j) (λ j. k < j) (λ j p. ground arith) ks h

pub put-table {ℓ} :
    {V : Type ℓ} (f : ℕ → V) (k : ℕ) (v : V) (ks : List ℕ)
    → IsAscending ks
    → put k v (table f ks) ≡ table (λ j. if k == j then v else f j) (insert_key k ks)
put-table f k v [] h = rw (beq_self k) refl
put-table f k v (j ∷ ks) (h, hs) = elim (Bool-cases (k == j)) [
  | inl e ↦
      let rest =
        others f k v ks (All-map (λ i (p : j < i). let q : k < i = ground arith in q) ks h) in
      rw (e, beq_self k) (ap ((k, v) ∷◌) rest)
  | inr n ↦ elim (Bool-cases (ltb k j)) [
    | inl l ↦
        let below : k < j = ground arith in
        let rest =
          others f k v (j ∷ ks)
            (below, All-map (λ i (p : j < i). let q : k < i = omega arith in q) ks h) in
        rw (n, l, beq_self k) (ap ((k, v) ∷◌) rest)
    | inr m ↦ rw (n, m) (rw (n, put-table f k v ks hs) refl)
  ]
]
