-- ===== src/Filter/Apply/Laws.antt =====
-- What a filter selects.
use mathlib.Core.Path.{ap₂, fun_ext}
use gsd.Prelude.{
  All-map, Bool-cases, inl, inr, ◌≢◌, ◌==◌, string_eq, ℕ, ◌+◌, ◌≤◌, ◌≡◌, refl, sym, ap, ◌∙◌, Bool,
  true, false, String, Option, none, some, List, [], ◌∷◌, ◌++◌, arith, if◌then◌else◌, filter, any,
  all, length, length-filter-le, All,
}
use gsd.Js.Calls.{Call, returns, throws, ◌>>=◌, map_call, some_call, every_call, filter_call}
use gsd.Dates.{Host}
use gsd.Chores.{Chore}
use gsd.Filter.{Condition, Context, Filter}
use gsd.Filter.Conditions.{evaluate_condition}
use gsd.Filter.Apply.{
  matches, is_overdue, or_and, apply_conditions, apply_filter, get_filter_count,
  get_filter_overdue_count,
}

abbrev pub filter_of : String → List Condition → Option Filter
filter_of operator conditions =
    some (record { conditions = some conditions; operator = some operator })

-- Filtering by two tests in turn, where a test may throw.
module _ {ℓ} {A : Type ℓ} (p q : A → Call Bool) where
  abbrev both : A → Call Bool
  both x = do b ← p x; if b then q x else returns false

  bind_returns : (m : Call (List A)) → (m >>= λ r. returns r) ≡ m
  bind_returns (returns r) = refl
  bind_returns throws = refl

  abbrev keep : A → Bool → List A → List A
  keep x b rest = if b then x ∷ rest else rest

  both_step :
      (x : A) (a b' : Call Bool) (fb fp : Call (List A))
      → q x ≡ b'
      → fb ≡ (fp >>= filter_call q)
      → ((a >>= λ b. if b then b' else returns false) >>= λ b.
          fb >>= λ rest. returns (keep x b rest))
        ≡ ((a >>= λ b. fp >>= λ rest. returns (keep x b rest)) >>= filter_call q)
  unfolding filter_call
  both_step x throws b' fb fp e h = refl
  both_step x (returns false) b' fb throws e h = rw h refl
  both_step x (returns false) b' fb (returns l) e h = rw h (bind_returns (filter_call q l))
  both_step x (returns true) throws fb throws e h = refl
  both_step x (returns true) (returns b) fb throws e h = rw h refl
  both_step x (returns true) b' fb (returns l) e h = rw (h, e) refl

  filter_call-both : (xs : List A) → filter_call both xs ≡ (filter_call p xs >>= filter_call q)
  unfolding filter_call
  filter_call-both [] = refl
  filter_call-both (x ∷ xs) =
      both_step x (p x) (q x) _ (filter_call p xs) refl (filter_call-both xs)

every_call-append {ℓ} :
    {A : Type ℓ} (p : A → Call Bool) (xs ys : List A)
    → every_call p (xs ++ ys)
      ≡ (every_call p xs >>= λ b. if b then every_call p ys else returns false)
unfolding every_call
every_call-append p [] ys = refl
every_call-append p (x ∷ xs) ys = ground (arith, every_call-append p xs ys)

filter_call-true {ℓ} :
    {A : Type ℓ} (xs : List A) → filter_call (λ (x : A). returns true) xs ≡ returns xs
unfolding filter_call
filter_call-true [] = refl
filter_call-true (x ∷ xs) = rw (filter_call-true xs) refl

pub apply_filter-and :
    (host : Host) (context : Context) (cs : List Chore) (xs : List Condition)
    → apply_filter host context cs (filter_of "AND" xs)
      ≡ filter_call (λ c. every_call (evaluate_condition host context c) xs) cs
unfolding apply_filter matches every_call
apply_filter-and host context cs [] = sym (filter_call-true cs)
apply_filter-and host context cs (x ∷ xs) = refl

-- A filter by conditions `xs ++ ys` that must all hold does what the filters by `xs` and by `ys` do
-- in turn, errors included.
pub apply_filter-append :
    (host : Host) (context : Context) (cs : List Chore) (xs ys : List Condition)
    → apply_filter host context cs (filter_of "AND" (xs ++ ys)) ≡ (
        apply_filter host context cs (filter_of "AND" xs) >>= λ kept.
        apply_filter host context kept (filter_of "AND" ys))
apply_filter-append host context cs xs ys =
    let eval = evaluate_condition host context in
    apply_filter-and host context cs (xs ++ ys)
    ∙ ap (λ p. filter_call p cs) (fun_ext (λ c. every_call-append (eval c) xs ys))
    ∙ filter_call-both (λ c. every_call (eval c) xs) (λ c. every_call (eval c) ys) cs
    ∙ sym (
        ap₂ ◌>>=◌ (apply_filter-and host context cs xs)
          (fun_ext (λ kept. apply_filter-and host context kept ys)))

-- The truth of a test that does not throw.
abbrev pub value_of : Call Bool → Bool
value_of (returns b) = b
value_of throws = false

some_call-any {ℓ} :
    {A : Type ℓ} (p : A → Call Bool) (xs : List A)
    → All (λ x. p x ≢ throws) xs
    → some_call p xs ≡ returns (any (λ x. value_of (p x)) xs)
unfolding some_call
some_call-any p [] h = refl
some_call-any p (x ∷ xs) (h, hs) = ground (arith, some_call-any p xs hs)

every_call-all {ℓ} :
    {A : Type ℓ} (p : A → Call Bool) (xs : List A)
    → All (λ x. p x ≢ throws) xs
    → every_call p xs ≡ returns (all (λ x. value_of (p x)) xs)
unfolding every_call
every_call-all p [] h = refl
every_call-all p (x ∷ xs) (h, hs) = ground (arith, every_call-all p xs hs)

pub filter_call-filter {ℓ} :
    {A : Type ℓ} (p : A → Call Bool) (q : A → Bool) (xs : List A)
    → All (λ x. p x ≡ returns (q x)) xs
    → filter_call p xs ≡ returns (filter q xs)
unfolding filter_call
filter_call-filter p q [] h = refl
filter_call-filter p q (x ∷ xs) (h, hs) = rw (h, filter_call-filter p q xs hs) refl

-- Where no condition throws, a filter with conditions returns, in their order, the tasks for which
-- one of them holds if its operator is 'OR', and for which all hold with any other operator.
pub apply_filter-filter :
    (host : Host) (context : Context) (cs : List Chore) (operator : String) (d : Condition)
    (ds : List Condition)
    → All (λ c. All (λ x. evaluate_condition host context c x ≢ throws) (d ∷ ds)) cs
    → apply_filter host context cs (filter_of operator (d ∷ ds))
      ≡ returns (
          filter
            (λ c.
              if operator == "OR"
              then any (λ x. value_of (evaluate_condition host context c x)) (d ∷ ds)
              else all (λ x. value_of (evaluate_condition host context c x)) (d ∷ ds))
            cs)
unfolding apply_filter matches
apply_filter-filter host context cs operator d ds h = filter_call-filter _ _ cs (
    All-map
      (λ c k. elim (Bool-cases (operator == "OR")) [
        | inl e ↦ rw e (some_call-any (evaluate_condition host context c) (d ∷ ds) k)
        | inr e ↦ rw e (every_call-all (evaluate_condition host context c) (d ∷ ds) k)
      ])
      cs h)

keep-length {ℓ} :
    {A : Type ℓ} (x : A) (n : ℕ) (a : Call Bool) (r : Call (List A))
    → ((zs : List A) → r ≡ returns zs → length zs ≤ n)
    → (ys : List A) → (a >>= λ b. r >>= λ rest. returns (if b then x ∷ rest else rest)) ≡ returns ys
    → length ys ≤ n + 1
keep-length x n throws r h ys e = cc e
keep-length x n (returns b) throws h ys e = cc e
keep-length x n (returns true) (returns zs) h ys e = ground (arith, h zs refl)
keep-length x n (returns false) (returns zs) h ys e = ground (arith, h zs refl)

filter_call-length {ℓ} :
    {A : Type ℓ} (p : A → Call Bool) (xs ys : List A)
    → filter_call p xs ≡ returns ys
    → length ys ≤ length xs
unfolding filter_call
filter_call-length p [] ys e = ground arith
filter_call-length p (x ∷ xs) ys e =
    omega (arith, keep-length x (length xs) (p x) (filter_call p xs) (filter_call-length p xs) ys e)

apply_filter-length :
    (host : Host) (context : Context) (cs ys : List Chore) (f : Option Filter)
    → apply_filter host context cs f ≡ returns ys
    → length ys ≤ length cs
unfolding apply_filter
apply_filter-length host context cs ys none e = ground arith
apply_filter-length host context cs ys (some f) e = on_conditions f.conditions e
  where
    on_conditions :
        (o : Option (List Condition))
        → apply_conditions host context cs o (or_and f.operator) ≡ returns ys
        → length ys ≤ length cs
    on_conditions none e = ground arith
    on_conditions (some []) e = ground arith
    on_conditions (some (d ∷ ds)) e =
        filter_call-length (matches host context (or_and f.operator) (d ∷ ds)) cs ys e

counts :
    (p : Chore → Bool) (k : ℕ) (r : Call (List Chore)) {n : ℕ}
    → ((ys : List Chore) → r ≡ returns ys → length ys ≤ k)
    → map_call (λ filtered. length (filter p filtered)) r ≡ returns n
    → (m : ℕ) × (map_call length r ≡ returns m) × (n ≤ m) × (m ≤ k)
counts p k (returns cs) h e = (length cs, refl, ground (arith, length-filter-le p cs), h cs refl)
counts p k throws h e = cc e

-- A count of overdue tasks comes with a count of the filter's tasks, which is no smaller, and which
-- does not exceed the number of all tasks.
pub get_filter_overdue_count-le :
    (host : Host) (context : Context) (cs : List Chore) (f : Option Filter) {n : ℕ}
    → get_filter_overdue_count host context cs f ≡ returns n
    → (m : ℕ) × (get_filter_count host context cs f ≡ returns m) × (n ≤ m) × (m ≤ length cs)
unfolding get_filter_overdue_count get_filter_count
get_filter_overdue_count-le host context cs f e =
    counts (is_overdue host context) (length cs) (apply_filter host context cs f)
      (λ ys k. apply_filter-length host context cs ys f k) e
