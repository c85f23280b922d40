-- ===== src/TaskView/Shortcuts.antt =====
-- The keyboard shortcuts of ui/src/views/Chores/hooks/useKeyboardShortcuts.js, when a key is pressed.
use gsd.Prelude.{
  ◌≡◌, refl, Bool, true, false, not, ◌&&◌, ◌||◌, String, Option, List, [], ◌∷◌, ◌++◌, any,
  any-append, all, if◌then◌else◌, ◌==◌, string_eq, ℕ, arith,
}
use gsd.Prelude.Partition.{contains}
use gsd.Js.{Scalar, scalar_eq}
use gsd.Chores.{Chore}
use gsd.Selection.{expanded, contents_of}

pub record Press : Type 0 where
  -- `ctrlKey || metaKey`
  pub command : Bool
  pub shift : Bool
  pub key : String
  -- the focus is in an INPUT or a TEXTAREA
  pub in_text : Bool

pub record Page : Type 0 where
  pub multi_select : Bool
  pub selected : List Scalar
  pub modal_open : Bool
  pub search_term : String
  pub search_filter : String
  pub filtered : List Chore
  pub sections : List (Option (List Chore))
  pub open_sections : ℕ → Bool

-- The calls, with what a message says is selected.
pub data Call : Type 0 where
  show_shortcuts open_task_modal navigate_to_create focus_search close_search : Call
  toggle_multi_select enable_multi_select_and_select_all select_all clear_selection : Call
  bulk_complete bulk_skip bulk_archive bulk_delete navigate_to_archived : Call
  tell_already tell_selected : List Chore → Call

abbrev pub is_empty {ℓ} : {A : Type ℓ} → List A → Bool
is_empty [] = true
is_empty (_ ∷ _) = false

abbrev all_selected : List Scalar → List Chore → Bool
all_selected selected cs = not (is_empty cs) && all (λ (c : Chore). contains selected c.id) cs

-- Ctrl and A, in the mode for several tasks.
select_visible : Page → List Call
select_visible p =
    let open_chores = expanded p.sections p.open_sections in
    let all_chores = contents_of p.sections in
    if not (p.search_term == "") || not (p.search_filter == "All")
    then (if all_selected p.selected p.filtered
        then tell_already p.filtered ∷ []
        else select_all ∷ tell_selected p.filtered ∷ [])
    else if all_selected p.selected all_chores
    then tell_already all_chores ∷ []
    else if all_selected p.selected open_chores
    then select_all ∷ tell_selected all_chores ∷ []
    else select_all ∷ tell_selected open_chores ∷ []

-- The chain of tests that goes on behind Ctrl and X and behind Ctrl and A.
on_search_or_all : Press → Page → List Call
unfolding select_visible
on_search_or_all e p =
    if e.command && e.key == "x"
    then (if p.search_term == "" then [] else close_search ∷ [])
    else if e.command && not e.shift && e.key == "a" && not e.in_text
    then (if p.multi_select then select_visible p else enable_multi_select_and_select_all ∷ [])
    else []

on_delete_or_archived : Press → Page → List Call
on_delete_or_archived e p =
    if e.command && (e.key == "e" || e.key == "E") && not (is_empty p.selected) && not e.in_text
    then (if p.multi_select && not (is_empty p.selected) then bulk_delete ∷ [] else [])
    else if e.command && e.key == "o"
    then navigate_to_archived ∷ []
    else []

on_bulk : Press → Page → List Call
unfolding on_delete_or_archived
on_bulk e p =
    if p.multi_select && e.key == "Escape"
    then clear_selection ∷ []
    else if p.multi_select && e.command && e.key == "Enter" && not (is_empty p.selected)
    then bulk_complete ∷ []
    else if p.multi_select && e.command && e.key == "/" && not (is_empty p.selected)
    then bulk_skip ∷ []
    else if p.multi_select
        && e.command
        && (e.key == "x" || e.key == "X")
        && not (is_empty p.selected)
        && not e.in_text
    then bulk_archive ∷ []
    else on_delete_or_archived e p

after_shortcuts : Press → Page → List Call
unfolding on_search_or_all on_bulk
after_shortcuts e p =
    if e.command && e.key == "k"
    then open_task_modal ∷ []
    else if e.command && e.key == "j"
    then navigate_to_create ∷ []
    else if e.command && e.key == "f"
    then focus_search ∷ []
    else if e.command && e.key == "s"
    then toggle_multi_select ∷ []
    else on_search_or_all e p ++ on_bulk e p

unfoldable pub handle_key_down : Press → Page → List Call
unfolding after_shortcuts
handle_key_down e p =
    if p.modal_open
    then []
    else (if e.command then show_shortcuts ∷ [] else []) ++ after_shortcuts e p

-- Whether the key that is let go hides the shortcuts.
unfoldable pub handle_key_up : Press → Bool
handle_key_up e = not e.command

abbrev pub is_bulk : Call → Bool
is_bulk bulk_complete = true
is_bulk bulk_skip = true
is_bulk bulk_archive = true
is_bulk bulk_delete = true
is_bulk _ = false

abbrev IsAllowed : Press → Page → Type 0
IsAllowed e p = (e.command ≡ true) × (p.multi_select ≡ true) × (is_empty p.selected ≡ false)

select_visible-quiet : (p : Page) → any is_bulk (select_visible p) ≡ false
unfolding select_visible
select_visible-quiet p = ground arith

on_search_or_all-quiet : (e : Press) (p : Page) → any is_bulk (on_search_or_all e p) ≡ false
unfolding on_search_or_all
on_search_or_all-quiet e p = ground (arith, select_visible-quiet p)

on_delete-IsAllowed :
    (e : Press) (p : Page) → any is_bulk (on_delete_or_archived e p) ≡ true → IsAllowed e p
unfolding on_delete_or_archived
on_delete-IsAllowed e p h = ground arith

on_bulk-IsAllowed : (e : Press) (p : Page) → any is_bulk (on_bulk e p) ≡ true → IsAllowed e p
unfolding on_bulk
on_bulk-IsAllowed e p h = ground (arith, on_delete-IsAllowed e p)

-- What is asked for behind a call that is no action on several tasks.
later :
    (test : Bool) (c : Call) (rest : List Call)
    → is_bulk c ≡ false
    → any is_bulk (if test then c ∷ [] else rest) ≡ true
    → any is_bulk rest ≡ true
later true c rest q h = cc (q, h)
later false c rest q h = h

after-IsAllowed : (e : Press) (p : Page) → any is_bulk (after_shortcuts e p) ≡ true → IsAllowed e p
unfolding after_shortcuts
after-IsAllowed e p h = last (
    later (e.command && e.key == "s") toggle_multi_select _ refl (
      later (e.command && e.key == "f") focus_search _ refl (
        later (e.command && e.key == "j") navigate_to_create _ refl
          (later (e.command && e.key == "k") open_task_modal _ refl h))))
  where
    last : any is_bulk (on_search_or_all e p ++ on_bulk e p) ≡ true → IsAllowed e p
    last k = on_bulk-IsAllowed e p (
        rw (any-append is_bulk (on_search_or_all e p) (on_bulk e p), on_search_or_all-quiet e p) at
          k)

-- A key asks for an action on several tasks only while the task modal is closed, with Ctrl or Cmd held,
-- in the mode for several tasks, and with a task selected.
pub handle_key_down-bulk :
    (e : Press) (p : Page)
    → any is_bulk (handle_key_down e p) ≡ true
    → (p.modal_open ≡ false)
      × (e.command ≡ true)
      × (p.multi_select ≡ true)
      × (is_empty p.selected ≡ false)
unfolding handle_key_down
handle_key_down-bulk e p h = ground (
  arith,
  any-append is_bulk (if e.command then show_shortcuts ∷ [] else []) (after_shortcuts e p),
  after-IsAllowed e p,
)
