-- ===== src/TaskInput.antt =====
-- The text of a new task: `parsePriority` of ui/src/views/components/CustomParsers.js, and the highlights
-- of ui/src/views/components/AddTaskModal.jsx. A text is the list of its UTF-16 units, and the only
-- capitals are the ASCII ones.
pub mod Priority
pub mod Rendering
use Prim.Native.Char.{code}
use Prim.Native.String
use gsd.Prelude.{
  ℕ, zero, suc, ◌+◌, ◌-◌, Bool, true, false, ◌&&◌, String, Option, none, some, List, [], ◌∷◌, ◌++◌,
  map, any, if◌then◌else◌, ◌==◌, nat_eq, ltb, leb, length, take, drop,
}
use gsd.Prelude.Partition.{flat}
use gsd.Js.Sort.{Sign, sub_sign, sort}

abbrev pub Text : Type 0
Text = List ℕ

abbrev pub units : String → Text
units String.[] = []
units (String.◌∷◌ c s) = code c ∷ units s

abbrev pub lower : ℕ → ℕ
lower c = if leb 65 c && leb c 90 then c + 32 else c

abbrev pub to_lower_case : Text → Text
to_lower_case = map lower

abbrev pub starts_with : Text → Text → Bool
starts_with [] s = true
starts_with (t ∷ ts) [] = false
starts_with (t ∷ ts) (c ∷ s) = t == c && starts_with ts s

abbrev one_more : Option ℕ → Option ℕ
one_more none = none
one_more (some n) = some (n + 1)

-- `indexOf`; `none` stands for -1.
pub index_of : Text → Text → Option ℕ
index_of t [] = if starts_with t [] then some 0 else none
index_of t (c ∷ s) =
    let rest = one_more (index_of t s) in if starts_with t (c ∷ s) then some 0 else rest

abbrev is_some : Option ℕ → Bool
is_some none = false
is_some (some _) = true

-- `includes`
abbrev pub includes : Text → Text → Bool
includes t s = is_some (index_of t s)

-- The length of the first of the terms that the text begins with.
abbrev match_length : List Text → Text → Option ℕ
match_length [] s = none
match_length (t ∷ ts) s = if starts_with t s then some (length t) else match_length ts s

-- The units still to be skipped, and whether the next one is a match's first.
abbrev next_skip : ℕ → Option ℕ → ℕ
next_skip (suc k) m = suc k
next_skip zero none = 0
next_skip zero (some n) = n

abbrev kept : ℕ → ℕ → Text → Text
kept zero c rest = c ∷ rest
kept (suc k) c rest = rest

-- `replace` by the empty text of all matches of the terms; `k` units of a match are left.
remove_from : List Text → ℕ → Text → Text
remove_from ts k [] = []
remove_from ts k (c ∷ s) =
    let n = next_skip k (match_length ts (c ∷ s)) in kept n c (remove_from ts (n - 1) s)

pub remove_all : List Text → Text → Text
unfolding remove_from
remove_all ts s = remove_from ts 0 s

pub record Highlight : Type 0 where
  pub text : Text
  pub start : ℕ
  pub end : ℕ

pub record Parsed : Type 0 where
  -- the source gives the key, a text such as '1', which the view turns into the number
  pub result : ℕ
  pub highlight : List Highlight
  pub cleaned : Text

abbrev pub terms : ℕ → List Text
terms p =
    if p == 1
    then units "!p1"
      ∷ units "priority 1"
      ∷ units "high priority"
      ∷ units "urgent"
      ∷ units "asap"
      ∷ units "important"
      ∷ []
    else if p == 2
    then units "!p2" ∷ units "priority 2" ∷ units "medium priority" ∷ []
    else if p == 3
    then units "!p3" ∷ units "priority 3" ∷ units "low priority" ∷ []
    else units "!p4" ∷ units "priority 4" ∷ []

abbrev highlight_at : Text → Option ℕ → List Highlight
highlight_at t none = []
highlight_at t (some i) = record { text = t; start = i; end = i + length t } ∷ []

abbrev pub highlights : List Text → Text → List Highlight
highlights ts s = flat (λ t. highlight_at t (index_of t s)) ts

abbrev found : ℕ → Text → Parsed
found p s = record {
  result = p;
  highlight = highlights (terms p) s;
  cleaned = remove_all (terms p) s;
}

abbrev mentions : ℕ → Text → Bool
mentions p s = any (λ t. includes t s) (terms p)

unfoldable pub parse_priority : Text → Parsed
unfolding index_of remove_all
parse_priority input =
    let s = to_lower_case input in
    if mentions 1 s
    then found 1 s
    else if mentions 2 s
    then found 2 s
    else if mentions 3 s
    then found 3 s
    else if mentions 4 s
    then found 4 s
    else record { result = 0; highlight = []; cleaned = input }

-- A highlight with its rank among those that overlap.
pub record Mark : Type 0 where
  pub type : String
  pub rank : ℕ
  pub start : ℕ
  pub end : ℕ

abbrev pub by_start : Mark → Mark → Sign
by_start a b = sub_sign a.start b.start

abbrev overlaps : Mark → Mark → Bool
overlaps previous current = ltb current.start previous.end

-- The highlight that stands last after the current one was looked at.
abbrev pub last_of : Mark → Mark → Mark
last_of previous current =
    if overlaps previous current
    then (if ltb previous.rank current.rank then current else previous)
    else current

-- The loop, with the last highlight so far, which alone can still be taken back.
pub resolve_from : Mark → List Mark → List Mark
resolve_from previous [] = previous ∷ []
resolve_from previous (current ∷ ms) =
    let rest = resolve_from (last_of previous current) ms in
    if overlaps previous current then rest else previous ∷ rest

abbrev pub resolve_sorted : List Mark → List Mark
resolve_sorted [] = []
resolve_sorted (m ∷ ms) = resolve_from m ms

pub data Part : Type 0 where
  plain : Text → Part
  span : String → Text → Part

-- `substring`, for a start that is not behind the end.
abbrev pub substring : ℕ → ℕ → Text → Text
substring a b s = take (b - a) (drop a s)

abbrev before : ℕ → Mark → Text → List Part
before last m s = if ltb last m.start then plain (substring last m.start s) ∷ [] else []

pub render_from : Text → ℕ → List Mark → List Part
render_from s last [] = if ltb last (length s) then plain (drop last s) ∷ [] else []
render_from s last (m ∷ ms) =
    before last m s ++ span m.type (substring m.start m.end s) ∷ render_from s m.end ms

unfoldable pub render_highlighted_sentence : Text → List Mark → List Part
unfolding resolve_from render_from
render_highlighted_sentence s marks = render_from s 0 (resolve_sorted (sort by_start marks))
