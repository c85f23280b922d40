-- ===== src/Api/Tokens.antt =====
-- ui/src/utils/TokenStorage.js. `localStorage` does not throw; Capacitor's store may, for each
-- operation and key. Values are texts.
pub mod Laws
use gsd.Prelude.{
  Bool, true, false, not, ◌&&◌, String, Option, none, some, if◌then◌else◌, ◌==◌, string_eq, leb,
}
use gsd.Dates.{Host}

-- The platform: whether it is native, and which calls of `Preferences` return.
pub record Device : Type 0 where
  pub native : Bool
  pub gets : String → Bool
  pub sets : String → Bool
  pub removes : String → Bool

pub record Storage : Type 0 where
  pub local : String → Option String
  pub preferences : String → Option String
  -- `clearingTokens`
  pub clearing : Bool

pub record Tokens : Type 0 where
  pub access_token : Option String
  pub access_token_expiry : Option String
  pub refresh_token : Option String
  pub refresh_token_expiry : Option String

-- The text, if it is there and not empty.
abbrev pub present : Option String → Option String
present none = none
present (some s) = if s == "" then none else some s

abbrev pub write : String → Option String → (String → Option String) → String → Option String
write key v store k = if key == k then v else store k

-- `if (value) setItem(key, value)`
abbrev pub keep : String → Option String → (String → Option String) → String → Option String
keep key v store = elim (present v) [ none ↦ store | some s ↦ write key (some s) store ]

-- An expiry that cannot be read has passed.
abbrev pub has_passed : Host → String → Bool
has_passed host expiry = elim (host.parse expiry) [ none ↦ true | some t ↦ leb t host.now ]

module _ (device : Device) where
  -- The two writes in a `try`: after a throw the second one is not tried.
  save_preferences : Tokens → (String → Option String) → String → Option String
  save_preferences t store = elim (present t.refresh_token) [
    | none ↦
        if device.sets "refresh_token_expiry"
        then keep "refresh_token_expiry" t.refresh_token_expiry store
        else store
    | some s ↦
        if device.sets "refresh_token"
        then (if device.sets "refresh_token_expiry"
            then keep "refresh_token_expiry" t.refresh_token_expiry
                (write "refresh_token" (some s) store)
            else write "refresh_token" (some s) store)
        else store
  ]

  unfoldable pub save_tokens : Tokens → Storage → Storage
  unfolding save_preferences
  save_tokens t s = record s {
    local =
        keep "refresh_token_expiry" t.refresh_token_expiry
          (keep "token_expiry" t.access_token_expiry (keep "token" t.access_token s.local));
    preferences = if device.native then save_preferences t s.preferences else s.preferences;
  }

  abbrev read : String → Storage → Option String
  read key s = if device.gets key then s.preferences key else none

  unfoldable pub get_refresh_token : Storage → Option String
  get_refresh_token s = if device.native then read "refresh_token" s else none

  unfoldable pub get_refresh_token_expiry : Storage → Option String
  get_refresh_token_expiry s = if device.native then read "refresh_token_expiry" s else none

  unfoldable pub is_refresh_token_expired : Host → Storage → Bool
  unfolding get_refresh_token_expiry
  is_refresh_token_expired host s =
      if device.native
      then elim (present (get_refresh_token_expiry s)) [
        | none ↦ true
        | some expiry ↦ has_passed host expiry
      ]
      else false

  clear_preferences : (String → Option String) → String → Option String
  clear_preferences store =
      if device.removes "refresh_token"
      then (if device.removes "refresh_token_expiry"
          then write "refresh_token_expiry" none (write "refresh_token" none store)
          else write "refresh_token" none store)
      else store

  unfoldable pub clear_all_tokens : Storage → Storage
  unfolding clear_preferences
  clear_all_tokens s = if s.clearing then s else record s {
    local = write "access_token" none (
        write "ca_expiration" none
          (write "ca_token" none (write "token_expiry" none (write "token" none s.local))));
    preferences = if device.native then clear_preferences s.preferences else s.preferences;
    clearing = false;
  }
