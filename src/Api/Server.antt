-- ===== src/Api/Server.antt =====
-- The server's address in `ApiClient`: `init`, `_doInit`, `getApiURL` and `getAssetURL`. The default
-- address `API_URL` is set when the client is built.
use Prim.Native.String
use gsd.Prelude.{
  ◌≡◌, refl, Bool, true, false, not, ◌&&◌, String, Option, none, some, List, [], ◌∷◌, if◌then◌else◌,
  arith,
}
use gsd.Api.Tokens.{present}

-- `initPromise`, once it is there.
pub data Promise : Type 0 where
  pending resolved failed : Promise

pub record Server : Type 0 where
  pub custom_server_url : String
  pub initialized : Bool
  pub init_promise : Option Promise

abbrev pub api_url : String → String
api_url base = String.◌++◌ base "/api/v1"

-- `serverURL || API_URL`
abbrev or_default : String → Option String → String
or_default base value = elim (present value) [ none ↦ base | some s ↦ s ]

pub data Event : Type 0 where
  -- a call of `init`
  init : (force : Bool) → Event
  -- `Preferences.get` returns, or throws
  loaded : Option String → Event
  load_failed : Event

abbrev pub new_client : String → Server
new_client base = record {
  custom_server_url = api_url base;
  initialized = false;
  init_promise = none;
}

unfoldable pub start : Bool → Server → Server
start force s = elim s.init_promise [
  | some _ ↦ s
  | none ↦ if s.initialized && not force then s else record s { init_promise = some pending }
]

unfoldable pub on_loaded : String → Option String → Server → Server
on_loaded base value s = elim s.init_promise [
  | some pending ↦ record {
    custom_server_url = api_url (or_default base value);
    initialized = true;
    init_promise = some resolved;
  }
  | _ ↦ s
]

unfoldable pub on_load_failed : Server → Server
on_load_failed s = elim s.init_promise [
  | some pending ↦ record s { init_promise = some failed }
  | _ ↦ s
]

unfoldable pub step : String → Event → Server → Server
step base (init force) s = start force s
step base (loaded value) s = on_loaded base value s
step base load_failed s = on_load_failed s

unfoldable pub run : String → List Event → Server → Server
run base [] s = s
run base (e ∷ es) s = run base es (step base e s)

unfoldable pub get_asset_url : String → Server → String
get_asset_url path s = String.◌++◌ s.custom_server_url (String.◌++◌ "/assets/" path)

abbrev pub is_settled : Option Promise → Bool
is_settled (some resolved) = true
is_settled (some failed) = true
is_settled _ = false

step_settled :
    (base : String) (e : Event) (s : Server) → is_settled s.init_promise ≡ true → step base e s ≡ s
unfolding step start on_loaded on_load_failed
step_settled base (init force) s h = ground arith
step_settled base (loaded value) s h = ground arith
step_settled base load_failed s h = ground arith

-- Once the first reading of the address has ended, well or badly, no event changes the address or the
-- state of the client any more, a call of `init(true)` among them.
pub run_settled :
    (base : String) (es : List Event) (s : Server)
    → is_settled s.init_promise ≡ true
    → run base es s ≡ s
unfolding run
run_settled base [] s h = refl
run_settled base (e ∷ es) s h = rw (step_settled base e s h) (run_settled base es s h)

-- After the first call of `init`, with or without `force`, and the first reading, the address is the
-- one that was read, or the default one where that is missing or empty, whatever events follow, calls
-- of `init(true)` and later readings among them.
pub address_lem :
    (base : String) (force : Bool) (value : Option String) (es : List Event)
    → (run base (init force ∷ loaded value ∷ es) (new_client base)).custom_server_url
      ≡ api_url (or_default base value)
unfolding run step start on_loaded
address_lem base force value es =
    rw
      (run_settled base es
        (record {
          custom_server_url = api_url (or_default base value);
          initialized = true;
          init_promise = some resolved;
        })
        refl)
      refl
