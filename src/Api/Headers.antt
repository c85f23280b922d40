-- ===== src/Api/Headers.antt =====
-- The headers that `get`, `post`, `put`, `delete` and `upload` of `ApiClient` send.
use gsd.Prelude.{
  ◌≡◌, refl, String, Option, none, some, [], ◌∷◌, filter, not, if◌then◌else◌, ◌==◌, string_eq, ◌∙◌,
  false, inl, inr, Bool-cases,
}
use gsd.Js.{undefined, str, truthy}
use gsd.Js.Fields.{Fields, field, set_field, field-set_field}
use gsd.Api.Tokens.{Storage, present}
use Prim.Native.String

pub data Method : Type 0 where
  get_method post_method put_method delete_method upload_method : Method

abbrev add_header : String → Option String → Fields → Fields
add_header name none headers = headers
add_header name (some v) headers = set_field name (str v) headers

abbrev bearer : Option String → Option String
bearer none = none
bearer (some t) = some (String.◌++◌ "Bearer " t)

unfoldable pub get_headers : Storage → Fields → Fields
get_headers s custom =
    add_header "X-Impersonate-User-ID" (present (s.local "impersonatedUserId"))
      (add_header "Authorization" (bearer (present (s.local "token"))) custom)

abbrev with_content_type : Fields → Fields
with_content_type headers =
    if truthy (field "Content-Type" headers)
    then headers
    else set_field "Content-Type" (str "application/json") headers

abbrev without_content_type : Fields → Fields
without_content_type headers = filter (λ p. not (p.0 == "Content-Type")) headers

-- The `headers` that `request` finds in its options: `post` hands the caller's options on one level
-- too deep.
unfoldable pub option_headers : Method → Fields → Fields
option_headers get_method headers = headers
option_headers post_method headers = []
option_headers put_method headers = with_content_type headers
option_headers delete_method headers = with_content_type headers
option_headers upload_method headers = without_content_type headers

unfoldable pub sent_headers : Storage → Method → Fields → Fields
sent_headers s method headers = get_headers s (option_headers method headers)

add_header-field :
    (name : String) (v : Option String) (j : String) (o : Fields)
    → (name == j) ≡ false
    → field j (add_header name v o) ≡ field j o
add_header-field name none j o e = refl
add_header-field name (some x) j o e = field-set_field j name (str x) o ∙ rw e refl

content_type_lem :
    (s : Storage) (custom : Fields)
    → field "Content-Type" (get_headers s custom) ≡ field "Content-Type" custom
unfolding get_headers
content_type_lem s custom =
    add_header-field "X-Impersonate-User-ID" (present (s.local "impersonatedUserId")) "Content-Type"
      _ refl
    ∙ add_header-field "Authorization" (bearer (present (s.local "token"))) "Content-Type" custom
        refl

with_content_type_lem :
    (h : Fields)
    → field "Content-Type" (with_content_type h)
      ≡ (if truthy (field "Content-Type" h) then field "Content-Type" h else str "application/json")
with_content_type_lem h = elim (Bool-cases (truthy (field "Content-Type" h))) [
  | inl e ↦ rw e refl
  | inr e ↦ rw e (field-set_field "Content-Type" "Content-Type" (str "application/json") h)
]

without_content_type_lem : (h : Fields) → field "Content-Type" (without_content_type h) ≡ undefined
unfolding field
without_content_type_lem [] = refl
without_content_type_lem ((k, v) ∷ h) = elim (Bool-cases (k == "Content-Type")) [
  | inl e ↦ rw e (without_content_type_lem h)
  | inr e ↦ rw (e, e) (without_content_type_lem h)
]

absent : (name : String) → field name [] ≡ undefined
unfolding field
absent name = refl

-- `put` and `delete` send the caller's content type, or JSON where the caller gives none; `get` sends
-- the caller's, and `upload` none. `post` sends none either, whatever the caller gives.
pub sent_headers_lem :
    (s : Storage) (h : Fields)
    → (field "Content-Type" (sent_headers s put_method h) ≡ (
        if truthy (field "Content-Type" h) then field "Content-Type" h else str "application/json"))
      × (field "Content-Type" (sent_headers s delete_method h)
          ≡ field "Content-Type" (sent_headers s put_method h))
      × (field "Content-Type" (sent_headers s get_method h) ≡ field "Content-Type" h)
      × (field "Content-Type" (sent_headers s upload_method h) ≡ undefined)
      × (field "Content-Type" (sent_headers s post_method h) ≡ undefined)
unfolding sent_headers option_headers
sent_headers_lem s h = (
  content_type_lem s (with_content_type h) ∙ with_content_type_lem h,
  refl,
  content_type_lem s h,
  content_type_lem s (without_content_type h) ∙ without_content_type_lem h,
  content_type_lem s [] ∙ absent "Content-Type",
)
